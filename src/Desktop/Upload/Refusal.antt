-- ===== src/Desktop/Upload/Refusal.antt =====
-- desktop/crates/core/src/desktop.rs: refusing, failing and rejecting a transfer.
use photo_sync.Prelude.{
  ℕ, [], ◌∷◌, none, some, Bool, true, false, ltb, list_ord, nat_ord, if◌then◌else◌,
}
use photo_sync.Prelude.Int.{int_ord}
use photo_sync.Prelude.Map.{lookup, insert, remove}
use photo_sync.Prelude.Word.{add_u64}
use photo_sync.Id.{DeviceId, FileId, Timestamp}
use photo_sync.Effect.{Effect, Message, UploadOutcome}
use photo_sync.Session.{Session, Upload, UploadState}
use photo_sync.Session.Classify.{PlannedSend}
use photo_sync.Store.{StoreRequest}
use photo_sync.Desktop.State.{
  Answered, Desktop, Pending, also, error_log, issue, max_attempts, put_session, put_upload, upload,
  warn,
}

abbrev pub retried : PlannedSend → PlannedSend
retried planned = record planned { attempts = add_u64 planned.attempts 1; resume_offset = 0 }

module _ {S : Type 0} where
  unfoldable pub refuse_upload : DeviceId → FileId → Message → Desktop S → Answered S
  refuse_upload device file reason d =
      (warn reason ∷ Effect.send_upload_result device file UploadOutcome.write_failed ∷ [], d)

  abbrev pub close_upload : Upload S → Upload S
  close_upload u = record u { state = UploadState.closed }

  -- A write through `sessions.get_mut`.
  unfoldable pub update_session : DeviceId → (Session S → Session S) → Desktop S → Desktop S
  update_session device f d = elim (lookup device d.sessions) [
    | none ↦ d
    | some session ↦ put_session device (f session) d
  ]

  -- The state of an upload set through `upload_mut`, where there is one.
  unfoldable pub close_at : DeviceId → FileId → Desktop S → Desktop S
  close_at device file d = elim (upload device file d) [
    | none ↦ d
    | some u ↦ put_upload device file (close_upload u) d
  ]

  unfoldable pub fail_upload : DeviceId → FileId → Message → Desktop S → Answered S
  fail_upload device file reason d = (
    error_log reason ∷ Effect.send_upload_result device file UploadOutcome.write_failed ∷ [],
    update_session device (λ session. record session { failed = add_u64 session.failed 1 })
        (close_at device file d),
  )

  -- A send taken off the plan, counted as skipped.
  abbrev pub skip_send : FileId → Session S → Session S
  skip_send file session = record session {
    sends = remove file session.sends;
    skipped = add_u64 session.skipped 1;
  }

  unfoldable pub reject_changed : DeviceId → FileId → ℕ → Timestamp → Desktop S → Answered S
  reject_changed device file size mtime d =
      also (warn (Message.changed_on_phone file size mtime device) ∷ []) (
        issue (Pending.drop_mismatched device file UploadOutcome.changed_on_phone)
          (λ op. Effect.store op (StoreRequest.drop_staging_entry file))
          (update_session device (skip_send file)
            (record d { durable_digests = remove file d.durable_digests })))

  -- The session after a mismatch, and whether the file is sent once more.
  unfoldable pub mismatch : FileId → Session S → Session S × Bool
  mismatch file session = elim (lookup file session.sends) [
    | none ↦ (skip_send file session, false)
    | some planned ↦
        if ltb (retried planned).attempts max_attempts
        then (record session { sends = insert file (retried planned) session.sends }, true)
        else (skip_send file session, false)
  ]

  unfoldable pub mismatch_at : DeviceId → FileId → Desktop S → Desktop S × Bool
  mismatch_at device file d = elim (lookup device d.sessions) [
    | none ↦ (d, false)
    | some session ↦
        let (session', retrying) = mismatch file session in
        (put_session device session' d, retrying)
  ]

  unfoldable pub reject_content : DeviceId → FileId → Desktop S → Answered S
  reject_content device file d =
      let (d', retrying) =
        mismatch_at device file
          (close_at device file (record d { durable_digests = remove file d.durable_digests })) in
      also (warn (Message.did_not_match file retrying) ∷ []) (
        issue (Pending.drop_mismatched device file UploadOutcome.hash_mismatch)
          (λ op. Effect.store op (StoreRequest.drop_staging_entry file)) d')
