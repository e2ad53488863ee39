-- ===== src/Desktop.antt =====
-- desktop/crates/core/src/desktop.rs: `handle`, which consumes one event and answers with the
-- work it produced, in the order it must happen.
pub mod State
pub mod Deletion
pub mod Commit
pub mod Diff
pub mod Upload
pub mod Completions
pub mod Ordinary
pub mod Transfers
pub mod Content
pub mod Nomination
pub mod Verified
pub mod Rounds
use photo_sync.Prelude.{List, [], ◌∷◌, ◌++◌, Option, none, some, nat_ord}
use photo_sync.Prelude.Map.{lookup, remove}
use photo_sync.Id.{OpId}
use photo_sync.Digest.{Hasher}
use photo_sync.Naming.Civil.{Moment}
use photo_sync.Effect.{Effect, Message}
use photo_sync.Event.{Event}
use photo_sync.Store.{StoreRequest}
use State.{Answered, Desktop, Pending, Step, issue, only, quiet, warn}
use Commit.{clock_read}
use Commit.Queue.{enqueue_commit}
use Completions.{storage_completed, store_completed}
use Deletion.{deletions_reported}
use Diff.{catalog_submitted, diff_requested, free_space_measured, peer_connected, peer_disconnected}
use Upload.{chunk_arrived, force_reimport, upload_aborted, upload_closed, upload_opened}

module _ {S : Type 0} where
  unfoldable pub started : Desktop S → Answered S
  started d =
      let seed =
        issue Pending.seed_file_ids (λ op. Effect.store op StoreRequest.highest_staging_file_id)
          d in
      let devices =
        issue Pending.recover_devices (λ op. Effect.store op StoreRequest.list_staging_devices)
          seed.1 in
      (seed.0 ++ devices.0, devices.1)

  -- The reading of the clock is for a commit; whatever else the operation was for is forgotten.
  unfoldable pub clock_answered : OpId → Moment → Option (Pending S) → Desktop S → Answered S
  clock_answered op moment (some (Pending.commit Step.read_clock)) d = clock_read moment d
  clock_answered op moment asked d = only (warn (Message.clock_not_asked op)) d

module _ {S : Type 0} ⦃h : Hasher S⦄ where
  unfoldable pub handle : Event → Desktop S → Answered S
  handle (Event.started now) d = started d
  handle (Event.timer_fired op now) d = only (warn (Message.timer_fired_but_none_was_set op)) d
  handle (Event.peer_connected device name) d = peer_connected device name d
  handle (Event.peer_disconnected device) d = peer_disconnected device d
  handle (Event.catalog_submitted device entries total_bytes) d =
      catalog_submitted device entries total_bytes d
  handle (Event.diff_requested device) d = diff_requested device d
  handle (Event.upload_opened device file path size mtime offset) d =
      upload_opened device file path offset size mtime d
  handle (Event.chunk_arrived device file offset bytes) d = chunk_arrived device file offset bytes d
  handle (Event.upload_closed device file digest) d = upload_closed device file digest d
  handle (Event.upload_aborted device file) d = upload_aborted device file d
  handle (Event.finish_requested device) d = enqueue_commit device d
  handle (Event.deletions_reported device outcomes) d = deletions_reported device outcomes d
  handle (Event.manual_commit_requested device) d = enqueue_commit device d
  handle (Event.force_reimport_requested device path) d = force_reimport device path d
  handle (Event.storage_op_completed op result) d = storage_completed op result d
  handle (Event.store_op_completed op result) d = store_completed op result d
  handle (Event.free_space_measured op available_bytes) d = free_space_measured op available_bytes d
  handle (Event.clock_read op moment) d =
      clock_answered op moment (lookup op d.pending) (record d { pending = remove op d.pending })
  handle Event.shutdown_requested d = quiet d
