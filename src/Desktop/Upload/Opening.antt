-- ===== src/Desktop/Upload/Opening.antt =====
-- desktop/crates/core/src/desktop.rs: opening a transfer.
use photo_sync.Prelude.{
  ℕ, [], ◌++◌, Option, none, some, Bool, true, false, ◌||◌, not, ◌==◌, eqb, ltb, list_ord, nat_ord,
  if◌then◌else◌,
}
use photo_sync.Prelude.Int.{int_ord}
use photo_sync.Prelude.Map.{lookup, insert}
use photo_sync.Id.{DeviceId, DevicePath, FileId, Timestamp}
use photo_sync.Digest
use photo_sync.Digest.{Hasher, RunningDigest}
use photo_sync.Effect.{Directory, Effect, Message}
use photo_sync.Session.{Phase, Upload, UploadState}
use photo_sync.Session.Classify.{PlannedSend}
use photo_sync.Store.{StagingEntry, StoreRequest}
use photo_sync.Desktop.State.{
  AfterWatermark, Answered, Desktop, Pending, Sync, also, error_log, info, issue, max_attempts,
  only, put_session, put_upload, quiet, sync_interval_bytes, upload, warn,
}
use photo_sync.Desktop.State
use photo_sync.Desktop.Diff.{describe}
use photo_sync.Desktop.Upload.Refusal.{refuse_upload, reject_changed, update_session}

abbrev pub is_transferring : Phase → Bool
is_transferring Phase.transferring = true
is_transferring _ = false

module _ {S : Type 0} where
  unfoldable pub force_reimport : DeviceId → DevicePath → Desktop S → Answered S
  force_reimport device path d =
      issue (Pending.forget_row device path)
        (λ op. Effect.store op (StoreRequest.forget_device_file device path)) d

  -- The row and the file of a transfer that starts at its first byte.
  unfoldable pub create_upload : DeviceId → FileId → PlannedSend → Desktop S → Answered S
  create_upload device file planned d =
      let entry : StagingEntry = record {
        file = file;
        path = planned.path;
        size = planned.size;
        mtime = planned.mtime;
        durable_bytes = 0;
        digest = none;
        name_sources = [];
      } in
      let row =
        issue (Pending.begin_entry device file)
          (λ op. Effect.store op (StoreRequest.begin_staging_entry device entry)) d in
      let create =
        issue (Pending.create_file device file) (λ op. Effect.create_staging_file op device file)
          row.1 in
      let link =
        issue (Pending.create_file device file)
          (λ op. Effect.sync_directory op (Directory.staging device)) create.1 in
      (row.0 ++ (create.0 ++ link.0), link.1)

  unfoldable pub open_upload :
      DeviceId → FileId → PlannedSend → ℕ → RunningDigest S → Desktop S → Answered S
  open_upload device file planned offset digest d =
      let u : Upload S = record {
        size = planned.size;
        mtime = planned.mtime;
        received = offset;
        durable = offset;
        unsynced = 0;
        digest = digest;
        state = UploadState.receiving;
      } in
      let d' =
        update_session device
          (λ session. record session { uploads = insert file u session.uploads }) d in
      if ltb 0 offset then quiet d' else create_upload device file planned d'

module _ {S : Type 0} ⦃h : Hasher S⦄ where
  unfoldable pub prefix_digest : FileId → ℕ → Desktop S → Option (RunningDigest S)
  prefix_digest file offset d =
      if eqb offset 0 then some Digest.new else elim (lookup file d.durable_digests) [
        | none ↦ none
        | some digest ↦ if eqb digest.bytes offset then some digest else none
      ]

  -- `upload_opened`, once the plan is known to list the file.
  unfoldable pub open_planned :
      DeviceId
      → FileId
      → PlannedSend
      → DevicePath
      → (offset size : ℕ) → Timestamp
      → Desktop S
      → Answered S
  open_planned device file planned path offset size mtime d =
      if not (planned.path == path)
      then refuse_upload device file (Message.assigned_to_another file planned.path path) d
      else if not (size == planned.size) || not (mtime == planned.mtime)
      then reject_changed device file size mtime d
      else if not (eqb offset planned.resume_offset)
      then refuse_upload device file (Message.offered_from file planned.resume_offset offset) d
      else elim (prefix_digest file offset d) [
        | none ↦ refuse_upload device file (Message.no_digest_covering file offset) d
        | some digest ↦ open_upload device file planned offset digest d
      ]

  unfoldable pub upload_opened :
      DeviceId → FileId → DevicePath → (offset size : ℕ) → Timestamp → Desktop S → Answered S
  upload_opened device file path offset size mtime d = elim (lookup device d.sessions) [
    | none ↦ only (State.unknown_session device) d
    | some session ↦
        if is_transferring session.phase
        then elim (lookup file session.sends) [
          | none ↦ refuse_upload device file (Message.not_on_the_diff file) d
          | some planned ↦ open_planned device file planned path offset size mtime d
        ]
        else only (warn (Message.upload_while device (describe session.phase))) d
  ]
