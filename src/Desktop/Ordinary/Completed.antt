-- ===== src/Desktop/Ordinary/Completed.antt =====
-- desktop/crates/core/src/desktop.rs: the completion of an operation of a transfer is ordinary,
-- and so is the end of a session.
use photo_sync.Prelude.{ℕ, List, [], ◌∷◌, Option, none, refl, nat_ord, list_ord, length}
use photo_sync.Prelude.Map.{lookup}
use photo_sync.Id.{DeviceId}
use photo_sync.Digest.{Hasher}
use photo_sync.Event.{DeletionOutcome, StorageOutcome}
use photo_sync.Effect.{Message}
use photo_sync.Port.{StorageError}
use photo_sync.Session.{Session}
use photo_sync.Store.{DeviceFileRow, StagingEntry, StoreError, StoreResponse}
use photo_sync.Desktop.State.{Desktop, Pending, put_session, info, warn}
use photo_sync.Desktop.Deletion.{
  deletions_reported, nominate_rows, nomination_rows, send_candidates, vault_copy_checked,
}
use photo_sync.Desktop.Completions.{
  recover_devices, recover_staging, staging_recovered, storage_failed, storage_succeeded,
  store_failed, store_succeeded,
}
use photo_sync.Desktop.Ordinary.{
  IsOrdinary, also-IsOrdinary, after-IsOrdinary, from-IsOrdinary, if-IsOrdinary, issue-IsOrdinary,
  issue_each-IsOrdinary, only-IsOrdinary, option-IsOrdinary, quiet-IsOrdinary,
}
use photo_sync.Desktop.Ordinary.Diff.{
  prefix_read-IsOrdinary, prefix_unreadable-IsOrdinary, record_answer-IsOrdinary,
  seed_file_ids-IsOrdinary,
}
use photo_sync.Desktop.Ordinary.Receiving.{
  fail_upload-IsOrdinary, mtime_applied-IsOrdinary, record_verified-IsOrdinary,
  staging_file_finalized-IsOrdinary, upload_verified-IsOrdinary,
}

-- What an operation of a transfer was for: neither a step of a commit, nor the question for a
-- write-log, nor one of the two operations that make received bytes count.
abbrev pub IsTransfer : {S : Type 0} → Pending S → Type 0
IsTransfer (Pending.commit _) = ⊥
IsTransfer (Pending.recover_plan _) = ⊥
IsTransfer (Pending.sync_file _) = ⊥
IsTransfer (Pending.advance_watermark _) = ⊥
IsTransfer _ = Unit

module _ {S : Type 0} where
  send_candidates-IsOrdinary :
      (device : DeviceId) (d : Desktop S) → IsOrdinary d (send_candidates device d)
  unfolding send_candidates put_session
  send_candidates-IsOrdinary device d =
      option-IsOrdinary (lookup device d.sessions) _ _ (quiet-IsOrdinary d refl)
        (λ session. only-IsOrdinary _ _ tt refl)

  vault_copy_checked-IsOrdinary :
      (device : DeviceId) (row : DeviceFileRow) (found : Option ℕ) (d : Desktop S)
      → IsOrdinary d (vault_copy_checked device row found d)
  unfolding vault_copy_checked put_session
  vault_copy_checked-IsOrdinary device row found d =
      option-IsOrdinary (lookup device d.sessions) _ _ (quiet-IsOrdinary d refl) (λ session.
        if-IsOrdinary _ _ _ (quiet-IsOrdinary _ refl)
          (from-IsOrdinary _ refl (send_candidates-IsOrdinary device _)))

  nominate_rows-IsOrdinary :
      (device : DeviceId) (session : Session S) (rows : List DeviceFileRow) (d : Desktop S)
      → IsOrdinary d (nominate_rows device session rows d)
  unfolding nominate_rows put_session
  nominate_rows-IsOrdinary device session rows d =
      if-IsOrdinary _ _ _ (from-IsOrdinary _ refl (send_candidates-IsOrdinary device _))
        (from-IsOrdinary _ refl (issue_each-IsOrdinary _ _ rows _ (λ row op. tt)))

  nomination_rows-IsOrdinary :
      (device : DeviceId) (rows : List DeviceFileRow) (d : Desktop S)
      → IsOrdinary d (nomination_rows device rows d)
  unfolding nomination_rows
  nomination_rows-IsOrdinary device rows d =
      option-IsOrdinary (lookup device d.sessions) _ _ (quiet-IsOrdinary d refl) (λ session.
        if-IsOrdinary _ _ _ (nominate_rows-IsOrdinary device session _ d)
          (only-IsOrdinary _ d tt refl))

  pub deletions_reported-IsOrdinary :
      (device : DeviceId) (outcomes : List DeletionOutcome) (d : Desktop S)
      → IsOrdinary d (deletions_reported device outcomes d)
  unfolding deletions_reported
  deletions_reported-IsOrdinary device outcomes d =
      option-IsOrdinary (lookup device d.sessions) _ _ (only-IsOrdinary _ d tt refl)
        (λ session. only-IsOrdinary _ _ tt refl)

  recover_devices-IsOrdinary :
      (devices : List DeviceId) (d : Desktop S) → IsOrdinary d (recover_devices devices d)
  unfolding recover_devices
  recover_devices-IsOrdinary devices d = issue_each-IsOrdinary _ _ devices d (λ device op. tt)

  staging_recovered-IsOrdinary :
      (device : DeviceId) (entries : List StagingEntry) (d : Desktop S)
      → IsOrdinary d (staging_recovered device entries d)
  unfolding staging_recovered recover_staging
  staging_recovered-IsOrdinary device entries d =
      also-IsOrdinary (info (Message.left_in_staging device (length entries)) ∷ []) _ (tt, tt) refl
        (after-IsOrdinary _ _ (issue_each-IsOrdinary _ _ _ d (λ e op. tt))
          (from-IsOrdinary _ refl (issue-IsOrdinary _ _ _ tt)))

module _ {S : Type 0} ⦃h : Hasher S⦄ where
  pub storage_succeeded-IsOrdinary :
      (p : Pending S) (outcome : StorageOutcome) (d : Desktop S)
      → IsTransfer p
      → IsOrdinary d (storage_succeeded p outcome d)
  unfolding storage_succeeded
  storage_succeeded-IsOrdinary (Pending.commit step) outcome d t = elim t [ ]
  storage_succeeded-IsOrdinary (Pending.sync_file sync) outcome d t = elim t [ ]
  storage_succeeded-IsOrdinary (Pending.nomination_stat device row) outcome d t =
      vault_copy_checked-IsOrdinary device row _ d
  storage_succeeded-IsOrdinary (Pending.read_name_sources device file digest)
        (StorageOutcome.name_sources sources) d t =
      record_verified-IsOrdinary device file digest sources d
  storage_succeeded-IsOrdinary (Pending.finalize_file device file digest) outcome d t =
      staging_file_finalized-IsOrdinary device file digest d
  storage_succeeded-IsOrdinary (Pending.apply_mtime device file digest) outcome d t =
      mtime_applied-IsOrdinary device file digest d
  storage_succeeded-IsOrdinary (Pending.rebuild_digest device file read_to prefix)
        (StorageOutcome.bytes bytes) d t =
      prefix_read-IsOrdinary device file read_to prefix bytes d
  storage_succeeded-IsOrdinary (Pending.rebuild_digest device file read_to prefix) _ d t =
      prefix_unreadable-IsOrdinary device file d
  storage_succeeded-IsOrdinary (Pending.create_file device file) outcome d t =
      quiet-IsOrdinary d refl
  storage_succeeded-IsOrdinary (Pending.write_chunk device file) outcome d t =
      quiet-IsOrdinary d refl
  storage_succeeded-IsOrdinary (Pending.remove_superseded file) outcome d t =
      quiet-IsOrdinary d refl
  storage_succeeded-IsOrdinary (Pending.remove_mismatched file) outcome d t =
      quiet-IsOrdinary d refl
  storage_succeeded-IsOrdinary p outcome d t = only-IsOrdinary _ d tt refl

  pub storage_failed-IsOrdinary :
      (p : Pending S) (e : StorageError) (d : Desktop S)
      → IsTransfer p
      → IsOrdinary d (storage_failed p e d)
  unfolding storage_failed
  storage_failed-IsOrdinary (Pending.commit step) e d t = elim t [ ]
  storage_failed-IsOrdinary (Pending.nomination_stat device row) e d t =
      also-IsOrdinary (warn _ ∷ []) _ (tt, tt) refl
        (vault_copy_checked-IsOrdinary device row none d)
  storage_failed-IsOrdinary (Pending.apply_mtime device file digest) e d t =
      also-IsOrdinary (warn _ ∷ []) _ (tt, tt) refl (mtime_applied-IsOrdinary device file digest d)
  storage_failed-IsOrdinary (Pending.read_name_sources device file digest) e d t =
      also-IsOrdinary (warn _ ∷ []) _ (tt, tt) refl
        (record_verified-IsOrdinary device file digest [] d)
  storage_failed-IsOrdinary (Pending.create_file device file) e d t =
      fail_upload-IsOrdinary device file _ d
  storage_failed-IsOrdinary (Pending.write_chunk device file) e d t =
      fail_upload-IsOrdinary device file _ d
  storage_failed-IsOrdinary (Pending.finalize_file device file digest) e d t =
      fail_upload-IsOrdinary device file _ d
  storage_failed-IsOrdinary (Pending.sync_file sync) e d t =
      fail_upload-IsOrdinary sync.device sync.file _ d
  storage_failed-IsOrdinary (Pending.rebuild_digest device file read_to prefix) e d t =
      prefix_unreadable-IsOrdinary device file d
  storage_failed-IsOrdinary p e d t = only-IsOrdinary _ d tt refl

  pub store_succeeded-IsOrdinary :
      (p : Pending S) (response : StoreResponse) (d : Desktop S)
      → IsTransfer p
      → IsOrdinary d (store_succeeded p response d)
  unfolding store_succeeded
  store_succeeded-IsOrdinary (Pending.commit step) response d t = elim t [ ]
  store_succeeded-IsOrdinary (Pending.recover_plan device) response d t = elim t [ ]
  store_succeeded-IsOrdinary (Pending.advance_watermark sync) response d t = elim t [ ]
  store_succeeded-IsOrdinary (Pending.nomination_rows device) (StoreResponse.device_files rows) d
        t =
      nomination_rows-IsOrdinary device rows d
  store_succeeded-IsOrdinary Pending.seed_file_ids (StoreResponse.highest_staging_file_id highest) d
        t =
      seed_file_ids-IsOrdinary highest d
  store_succeeded-IsOrdinary Pending.recover_devices (StoreResponse.devices devices) d t =
      recover_devices-IsOrdinary devices d
  store_succeeded-IsOrdinary (Pending.recover_staging device)
        (StoreResponse.staging_entries entries) d t =
      staging_recovered-IsOrdinary device entries d
  store_succeeded-IsOrdinary (Pending.list_staging device) (StoreResponse.staging_entries entries) d
        t =
      record_answer-IsOrdinary device _ d
  store_succeeded-IsOrdinary (Pending.lookup_imported device) (StoreResponse.device_files rows) d
        t =
      record_answer-IsOrdinary device _ d
  store_succeeded-IsOrdinary (Pending.drop_superseded file) response d t = issue-IsOrdinary _ _ d tt
  store_succeeded-IsOrdinary (Pending.drop_mismatched device file outcome) response d t =
      after-IsOrdinary _ _ (issue-IsOrdinary _ _ d tt) (only-IsOrdinary _ _ tt refl)
  store_succeeded-IsOrdinary (Pending.forget_row device path) response d t = record {
    effects = (tt, (tt, tt));
    same = refl;
  }
  store_succeeded-IsOrdinary (Pending.mark_verified device file) response d t =
      upload_verified-IsOrdinary device file d
  store_succeeded-IsOrdinary (Pending.begin_entry device file) response d t =
      quiet-IsOrdinary d refl
  store_succeeded-IsOrdinary p response d t = only-IsOrdinary _ d tt refl

  pub store_failed-IsOrdinary :
      (p : Pending S) (e : StoreError) (d : Desktop S)
      → IsTransfer p
      → IsOrdinary d (store_failed p e d)
  unfolding store_failed
  store_failed-IsOrdinary (Pending.commit step) e d t = elim t [ ]
  store_failed-IsOrdinary (Pending.begin_entry device file) e d t =
      fail_upload-IsOrdinary device file _ d
  store_failed-IsOrdinary (Pending.mark_verified device file) e d t =
      fail_upload-IsOrdinary device file _ d
  store_failed-IsOrdinary (Pending.advance_watermark sync) e d t =
      fail_upload-IsOrdinary sync.device sync.file _ d
  store_failed-IsOrdinary p e d t = only-IsOrdinary _ d tt refl
