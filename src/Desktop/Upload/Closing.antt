-- ===== src/Desktop/Upload/Closing.antt =====
-- desktop/crates/core/src/desktop.rs: watermarks, and the verification of a closed transfer.
use photo_sync.Prelude.{List, [], none, some, ◌==◌, list_ord, nat_ord, if◌then◌else◌}
use photo_sync.Prelude.Int.{int_ord}
use photo_sync.Prelude.Map.{insert, remove}
use photo_sync.Prelude.Word.{add_u64}
use photo_sync.Id.{DeviceId, FileId, Sha256}
use photo_sync.Digest
use photo_sync.Digest.{Hasher, RunningDigest}
use photo_sync.Naming.Civil.{CivilTime}
use photo_sync.Effect.{Effect, Message, UploadOutcome}
use photo_sync.Session.{Session, Upload, UploadState}
use photo_sync.Store.{StoreRequest}
use photo_sync.Desktop.State.{
  AfterWatermark, Answered, Desktop, Pending, Sync, info, issue, only, put_upload, quiet, upload,
  warn,
}
use photo_sync.Desktop.Upload.Refusal.{close_upload, reject_content, update_session}

module _ {S : Type 0} where
  unfoldable pub file_synced : Sync S → Desktop S → Answered S
  file_synced sync d =
      issue (Pending.advance_watermark sync)
        (λ op. Effect.store op (StoreRequest.advance_watermark sync.file sync.through)) d

  unfoldable pub record_verified :
      DeviceId → FileId → Sha256 → List CivilTime → Desktop S → Answered S
  record_verified device file digest name_sources d =
      issue (Pending.mark_verified device file)
        (λ op. Effect.store op (StoreRequest.mark_staging_entry_verified file digest name_sources))
        d

  unfoldable pub staging_file_finalized : DeviceId → FileId → Sha256 → Desktop S → Answered S
  staging_file_finalized device file digest d = elim (upload device file d) [
    | none ↦ record_verified device file digest [] d
    | some u ↦
        issue (Pending.apply_mtime device file digest)
          (λ op. Effect.set_modified_time op file u.mtime) d
  ]

  unfoldable pub mtime_applied : DeviceId → FileId → Sha256 → Desktop S → Answered S
  mtime_applied device file digest d = elim (upload device file d) [
    | none ↦ record_verified device file digest [] d
    | some u ↦
        issue (Pending.read_name_sources device file digest)
          (λ op. Effect.read_name_sources op file u.mtime) d
  ]

  -- A send that arrived, counted as sent.
  abbrev pub count_sent : FileId → Session S → Session S
  count_sent file session = record session {
    sends = remove file session.sends;
    sent = add_u64 session.sent 1;
  }

  unfoldable pub upload_verified : DeviceId → FileId → Desktop S → Answered S
  upload_verified device file d =
      let d' = record d { durable_digests = remove file d.durable_digests } in
      elim (upload device file d') [
        | none ↦ only (info (Message.verified_after_gone file device)) d'
        | some u ↦
            only (Effect.send_upload_result device file (UploadOutcome.verified u.durable))
              (update_session device (count_sent file) (put_upload device file (close_upload u) d'))
      ]

module _ {S : Type 0} ⦃h : Hasher S⦄ where
  -- `verify`, for an upload that states its digest.
  unfoldable pub verify_claim : DeviceId → FileId → Upload S → Sha256 → Desktop S → Answered S
  verify_claim device file u claimed d =
      if Digest.peek u.digest == claimed
      then issue (Pending.finalize_file device file (Digest.peek u.digest))
          (λ op. Effect.finalize_staging_file op file) d
      else reject_content device file d

  unfoldable pub verify : DeviceId → FileId → Desktop S → Answered S
  verify device file d = elim (upload device file d) [
    | none ↦ quiet d
    | some u ↦ elim u.state [
      | UploadState.closing claimed ↦ verify_claim device file u claimed d
      | _ ↦ only (warn (Message.verified_twice file)) d
    ]
  ]

  -- The state once a watermark has moved.
  unfoldable pub watermark_moved : Sync S → Desktop S → Desktop S
  watermark_moved sync d =
      let d' = record d { durable_digests = insert sync.file sync.snapshot d.durable_digests } in
      elim (upload sync.device sync.file d') [
        | none ↦ d'
        | some u ↦ put_upload sync.device sync.file (record u { durable = sync.through }) d'
      ]

  unfoldable pub watermark_advanced : Sync S → Desktop S → Answered S
  watermark_advanced sync d = elim sync.then [
    | AfterWatermark.verify ↦ verify sync.device sync.file (watermark_moved sync d)
    | _ ↦ quiet (watermark_moved sync d)
  ]
