-- ===== src/Desktop/Transfers.antt =====
-- desktop/crates/core/src/desktop.rs: what `handle` may do on each event.
use photo_sync.Prelude.{Option, none, some, refl, nat_ord}
use photo_sync.Prelude.Map.{lookup}
use photo_sync.Id.{OpId}
use photo_sync.Digest.{Hasher}
use photo_sync.Event.{Event, Result, StorageOutcome}
use photo_sync.Naming.Civil.{Moment}
use photo_sync.Port.{StorageError}
use photo_sync.Store.{StoreError, StoreResponse}
use photo_sync.Desktop.{clock_answered, handle, started}
use photo_sync.Desktop.State.{Answered, Desktop, Pending}
use photo_sync.Desktop.Completions.{storage_completed, store_completed}
use photo_sync.Desktop.Ordinary.{
  IsOrdinary, after-IsOrdinary, from-IsOrdinary, issue-IsOrdinary, only-IsOrdinary,
  quiet-IsOrdinary,
}
use photo_sync.Desktop.Ordinary.Completed.{
  IsTransfer, deletions_reported-IsOrdinary, storage_failed-IsOrdinary,
  storage_succeeded-IsOrdinary, store_failed-IsOrdinary, store_succeeded-IsOrdinary,
}
use photo_sync.Desktop.Ordinary.Diff.{
  catalog_submitted-IsOrdinary, diff_requested-IsOrdinary, free_space_measured-IsOrdinary,
  peer_connected-IsOrdinary, peer_disconnected-IsOrdinary,
}
use photo_sync.Desktop.Ordinary.Receiving.{
  chunk_arrived-IsOrdinary, force_reimport-IsOrdinary, upload_aborted-IsOrdinary,
  upload_closed-IsOrdinary, upload_opened-IsOrdinary,
}

-- The operation that completes, where it is an outstanding one.
abbrev pub IsTransferOp : {S : Type 0} → Option (Pending S) → Type 0
IsTransferOp none = Unit
IsTransferOp (some p) = IsTransfer p

-- An event that is neither a request to finish or to commit, nor the completion of an operation of a
-- commit, of the question for a write-log, of a file's sync, or of a watermark's advance.
abbrev pub IsTransferEvent : {S : Type 0} → Event → Desktop S → Type 0
IsTransferEvent (Event.finish_requested _) d = ⊥
IsTransferEvent (Event.manual_commit_requested _) d = ⊥
IsTransferEvent (Event.storage_op_completed op _) d = IsTransferOp (lookup op d.pending)
IsTransferEvent (Event.store_op_completed op _) d = IsTransferOp (lookup op d.pending)
IsTransferEvent (Event.clock_read op _) d = IsTransferOp (lookup op d.pending)
IsTransferEvent _ d = Unit

module _ {S : Type 0} where
  asked-IsOrdinary :
      {d : Desktop S} (o : Option (Pending S)) (m : Answered S) (f : Pending S → Answered S)
      → IsTransferOp o
      → IsOrdinary d m
      → ((p : Pending S) → IsTransfer p → IsOrdinary d (f p))
      → IsOrdinary d (elim o [ none ↦ m | some p ↦ f p ])
  asked-IsOrdinary none m f t k g = k
  asked-IsOrdinary (some p) m f t k g = g p t

  started-IsOrdinary : (d : Desktop S) → IsOrdinary d (started d)
  unfolding started
  started-IsOrdinary d =
      after-IsOrdinary _ _ (issue-IsOrdinary _ _ d tt) (issue-IsOrdinary _ _ _ tt)

module _ {S : Type 0} ⦃h : Hasher S⦄ where
  clock_answered-IsOrdinary :
      (op : OpId) (moment : Moment) (p : Option (Pending S)) (d : Desktop S)
      → IsTransferOp p
      → IsOrdinary d (clock_answered op moment p d)
  unfolding clock_answered
  clock_answered-IsOrdinary op moment (some (Pending.commit step)) d t = elim t [ ]
  clock_answered-IsOrdinary op moment p d t = only-IsOrdinary _ d tt refl

  storage_completed-IsOrdinary :
      (op : OpId) (result : Result StorageOutcome StorageError) (d : Desktop S)
      → IsTransferOp (lookup op d.pending)
      → IsOrdinary d (storage_completed op result d)
  unfolding storage_completed
  storage_completed-IsOrdinary op (Result.ok outcome) d t =
      asked-IsOrdinary (lookup op d.pending) _ _ t (only-IsOrdinary _ d tt refl)
        (λ p u. from-IsOrdinary _ refl (storage_succeeded-IsOrdinary p outcome _ u))
  storage_completed-IsOrdinary op (Result.err e) d t =
      asked-IsOrdinary (lookup op d.pending) _ _ t (only-IsOrdinary _ d tt refl)
        (λ p u. from-IsOrdinary _ refl (storage_failed-IsOrdinary p e _ u))

  store_completed-IsOrdinary :
      (op : OpId) (result : Result StoreResponse StoreError) (d : Desktop S)
      → IsTransferOp (lookup op d.pending)
      → IsOrdinary d (store_completed op result d)
  unfolding store_completed
  store_completed-IsOrdinary op (Result.ok response) d t =
      asked-IsOrdinary (lookup op d.pending) _ _ t (only-IsOrdinary _ d tt refl)
        (λ p u. from-IsOrdinary _ refl (store_succeeded-IsOrdinary p response _ u))
  store_completed-IsOrdinary op (Result.err e) d t =
      asked-IsOrdinary (lookup op d.pending) _ _ t (only-IsOrdinary _ d tt refl)
        (λ p u. from-IsOrdinary _ refl (store_failed-IsOrdinary p e _ u))

  pub handle-IsOrdinary :
      (event : Event) (d : Desktop S) → IsTransferEvent event d → IsOrdinary d (handle event d)
  unfolding handle
  handle-IsOrdinary (Event.started now) d t = started-IsOrdinary d
  handle-IsOrdinary (Event.timer_fired op now) d t = only-IsOrdinary _ d tt refl
  handle-IsOrdinary (Event.peer_connected device name) d t = peer_connected-IsOrdinary device name d
  handle-IsOrdinary (Event.peer_disconnected device) d t = peer_disconnected-IsOrdinary device d
  handle-IsOrdinary (Event.catalog_submitted device entries total) d t =
      catalog_submitted-IsOrdinary device entries total d
  handle-IsOrdinary (Event.diff_requested device) d t = diff_requested-IsOrdinary device d
  handle-IsOrdinary (Event.upload_opened device file path size mtime offset) d t =
      upload_opened-IsOrdinary device file path offset size mtime d
  handle-IsOrdinary (Event.chunk_arrived device file offset bytes) d t =
      chunk_arrived-IsOrdinary device file offset bytes d
  handle-IsOrdinary (Event.upload_closed device file digest) d t =
      upload_closed-IsOrdinary device file digest d
  handle-IsOrdinary (Event.upload_aborted device file) d t = upload_aborted-IsOrdinary device file d
  handle-IsOrdinary (Event.finish_requested device) d t = elim t [ ]
  handle-IsOrdinary (Event.deletions_reported device outcomes) d t =
      deletions_reported-IsOrdinary device outcomes d
  handle-IsOrdinary (Event.manual_commit_requested device) d t = elim t [ ]
  handle-IsOrdinary (Event.force_reimport_requested device path) d t =
      force_reimport-IsOrdinary device path d
  handle-IsOrdinary (Event.storage_op_completed op result) d t =
      storage_completed-IsOrdinary op result d t
  handle-IsOrdinary (Event.store_op_completed op result) d t =
      store_completed-IsOrdinary op result d t
  handle-IsOrdinary (Event.free_space_measured op available) d t =
      free_space_measured-IsOrdinary op available d
  handle-IsOrdinary (Event.clock_read op moment) d t =
      from-IsOrdinary _ refl (clock_answered-IsOrdinary op moment (lookup op d.pending) _ t)
  handle-IsOrdinary Event.shutdown_requested d t = quiet-IsOrdinary d refl
