-- ===== src/Desktop/Completions.antt =====
-- desktop/crates/core/src/desktop.rs: an operation that was asked for has completed.
use photo_sync.Prelude.{
  ℕ, List, [], ◌∷◌, length, Option, none, some, nat_ord, list_ord, if◌then◌else◌,
}
use photo_sync.Prelude.Map.{lookup, insert, remove}
use photo_sync.Id.{DeviceId, OpId}
use photo_sync.Digest.{Hasher}
use photo_sync.Effect.{Effect, Message, Reason, UiUpdate}
use photo_sync.Event.{Result, StorageOutcome}
use photo_sync.Port.{StorageError}
use photo_sync.Session.{Input}
use photo_sync.Store.{StagingEntry, StoreError, StoreRequest, StoreResponse, is_verified}
use photo_sync.Prelude.{filter, not}
use photo_sync.Desktop.State.{
  Answered, Desktop, Pending, also, error_log, info, issue, issue_each, only, quiet, warn,
}
use photo_sync.Desktop.Commit.{Answer, commit_step}
use photo_sync.Desktop.Commit.Queue.{plan_recovered}
use photo_sync.Desktop.Deletion.{nomination_rows, vault_copy_checked}
use photo_sync.Desktop.Diff.{prefix_read, prefix_unreadable, record_answer, seed_file_ids}
use photo_sync.Desktop.Upload.{
  fail_upload, file_synced, mtime_applied, record_verified, staging_file_finalized, upload_verified,
  watermark_advanced,
}

-- What a storage outcome says to the running commit.
unfoldable pub commit_answer : StorageOutcome → Answer
commit_answer (StorageOutcome.staging_file present) = Answer.present present
commit_answer _ = Answer.done

-- `present.then_some(size)`
unfoldable pub found_size : StorageOutcome → Option ℕ
found_size (StorageOutcome.vault_file present size) = if present then some size else none
found_size _ = none

module _ {S : Type 0} where
  unfoldable pub recover_devices : List DeviceId → Desktop S → Answered S
  recover_devices devices d =
      issue_each (λ device. Pending.recover_staging device)
        (λ device op. Effect.store op (StoreRequest.list_staging_entries device)) devices d

  -- The partials are cut back to their watermarks.
  unfoldable pub recover_staging : List StagingEntry → Desktop S → Answered S
  recover_staging entries d =
      issue_each (λ (e : StagingEntry). Pending.truncate_partial e.file e.durable_bytes)
        (λ e op. Effect.truncate_file op e.file e.durable_bytes)
        (filter (λ e. not (is_verified e)) entries) d

  -- What a device left in staging, and the question whether it left a write-log.
  unfoldable pub staging_recovered : DeviceId → List StagingEntry → Desktop S → Answered S
  staging_recovered device entries d =
      let truncated = recover_staging entries d in
      let load =
        issue (Pending.recover_plan device)
          (λ op. Effect.store op (StoreRequest.load_commit_plan device))
          (record truncated.1 { recovered = insert device entries truncated.1.recovered }) in
      also (info (Message.left_in_staging device (length entries)) ∷ []) (also truncated.0 load)

  abbrev pub mismatched : Desktop S → Answered S
  mismatched d = only (error_log Message.store_answer_mismatched) d

module _ {S : Type 0} ⦃h : Hasher S⦄ where
  unfoldable pub storage_succeeded : Pending S → StorageOutcome → Desktop S → Answered S
  storage_succeeded (Pending.commit step) outcome d = commit_step step (commit_answer outcome) d
  storage_succeeded (Pending.nomination_stat device row) outcome d =
      vault_copy_checked device row (found_size outcome) d
  storage_succeeded (Pending.read_name_sources device file digest) outcome d = elim outcome [
    | StorageOutcome.name_sources sources ↦ record_verified device file digest sources d
    | _ ↦ only (warn (Message.name_sources_answer file)) d
  ]
  storage_succeeded (Pending.create_file device file) outcome d = quiet d
  storage_succeeded (Pending.write_chunk device file) outcome d = quiet d
  storage_succeeded (Pending.truncate_partial file length) outcome d =
      only (info (Message.cut_back file length)) d
  storage_succeeded (Pending.rebuild_digest device file read_to prefix) outcome d = elim outcome [
    | StorageOutcome.bytes bytes ↦ prefix_read device file read_to prefix bytes d
    | _ ↦ prefix_unreadable device file d
  ]
  storage_succeeded (Pending.sync_file sync) outcome d = file_synced sync d
  storage_succeeded (Pending.remove_superseded file) outcome d = quiet d
  storage_succeeded (Pending.remove_mismatched file) outcome d = quiet d
  storage_succeeded (Pending.finalize_file device file digest) outcome d =
      staging_file_finalized device file digest d
  storage_succeeded (Pending.apply_mtime device file digest) outcome d =
      mtime_applied device file digest d
  storage_succeeded _ outcome d = only (warn Message.answered_by_storage) d

  unfoldable pub storage_failed : Pending S → StorageError → Desktop S → Answered S
  storage_failed (Pending.commit step) e d =
      commit_step step (Answer.failed (Reason.of_storage e)) d
  storage_failed (Pending.nomination_stat device row) e d =
      also (warn (Message.copy_not_checked row.vault_name (Reason.of_storage e)) ∷ [])
        (vault_copy_checked device row none d)
  storage_failed (Pending.apply_mtime device file digest) e d =
      also (warn (Message.would_not_take_time file (Reason.of_storage e)) ∷ [])
        (mtime_applied device file digest d)
  storage_failed (Pending.read_name_sources device file digest) e d =
      also (warn (Message.would_not_say_when file (Reason.of_storage e)) ∷ [])
        (record_verified device file digest [] d)
  storage_failed (Pending.create_file device file) e d =
      fail_upload device file (Message.could_not_be_stored file (Reason.of_storage e)) d
  storage_failed (Pending.write_chunk device file) e d =
      fail_upload device file (Message.could_not_be_stored file (Reason.of_storage e)) d
  storage_failed (Pending.finalize_file device file digest) e d =
      fail_upload device file (Message.could_not_be_stored file (Reason.of_storage e)) d
  storage_failed (Pending.sync_file sync) e d =
      fail_upload sync.device sync.file
        (Message.could_not_be_made_durable sync.file (Reason.of_storage e)) d
  storage_failed (Pending.remove_superseded file) e d =
      only (warn (Message.not_removed file (Reason.of_storage e))) d
  storage_failed (Pending.remove_mismatched file) e d =
      only (warn (Message.not_removed file (Reason.of_storage e))) d
  storage_failed (Pending.rebuild_digest device file read_to prefix) e d =
      prefix_unreadable device file d
  storage_failed (Pending.truncate_partial file length) e d =
      only (warn (Message.could_not_be_cut_back file length (Reason.of_storage e))) d
  storage_failed _ e d = only (error_log (Message.failed_in_storage (Reason.of_storage e))) d

  unfoldable pub storage_completed :
      OpId → Result StorageOutcome StorageError → Desktop S → Answered S
  storage_completed op result d = elim (lookup op d.pending) [
    | none ↦ only (warn (Message.never_asked_for op)) d
    | some pending ↦
        let d' = record d { pending = remove op d.pending } in
        elim result [
          | Result.ok outcome ↦ storage_succeeded pending outcome d'
          | Result.err e ↦ storage_failed pending e d'
        ]
  ]

  unfoldable pub store_succeeded : Pending S → StoreResponse → Desktop S → Answered S
  store_succeeded (Pending.commit step) response d = commit_step step (Answer.store response) d
  store_succeeded (Pending.nomination_rows device) response d = elim response [
    | StoreResponse.device_files rows ↦ nomination_rows device rows d
    | _ ↦ mismatched d
  ]
  store_succeeded Pending.seed_file_ids response d = elim response [
    | StoreResponse.highest_staging_file_id highest ↦ seed_file_ids highest d
    | _ ↦ mismatched d
  ]
  store_succeeded Pending.recover_devices response d = elim response [
    | StoreResponse.devices devices ↦ recover_devices devices d
    | _ ↦ mismatched d
  ]
  store_succeeded (Pending.recover_staging device) response d = elim response [
    | StoreResponse.staging_entries entries ↦ staging_recovered device entries d
    | _ ↦ mismatched d
  ]
  store_succeeded (Pending.recover_plan device) response d = elim response [
    | StoreResponse.commit_plan plan ↦ plan_recovered device plan d
    | _ ↦ mismatched d
  ]
  store_succeeded (Pending.list_staging device) response d = elim response [
    | StoreResponse.staging_entries entries ↦ record_answer device (Input.staged entries) d
    | _ ↦ mismatched d
  ]
  store_succeeded (Pending.lookup_imported device) response d = elim response [
    | StoreResponse.device_files rows ↦ record_answer device (Input.imported rows) d
    | _ ↦ mismatched d
  ]
  store_succeeded (Pending.drop_superseded file) response d =
      issue (Pending.remove_superseded file) (λ op. Effect.remove_staging_file op file) d
  store_succeeded (Pending.drop_mismatched device file outcome) response d =
      let removed =
        issue (Pending.remove_mismatched file) (λ op. Effect.remove_staging_file op file) d in
      also removed.0 (only (Effect.send_upload_result device file outcome) removed.1)
  store_succeeded (Pending.advance_watermark sync) response d = watermark_advanced sync d
  store_succeeded (Pending.forget_row device path) response d = (
    info (Message.will_be_sent_again path device)
        ∷ Effect.notify_ui (UiUpdate.forgotten device path)
        ∷ [],
    d,
  )
  store_succeeded (Pending.mark_verified device file) response d = upload_verified device file d
  store_succeeded (Pending.begin_entry device file) response d = quiet d
  store_succeeded _ response d = only (warn Message.answered_by_the_store) d

  unfoldable pub store_failed : Pending S → StoreError → Desktop S → Answered S
  store_failed (Pending.commit step) e d = commit_step step (Answer.failed (Reason.of_store e)) d
  store_failed (Pending.begin_entry device file) e d =
      fail_upload device file (Message.manifest_would_not_record file (Reason.of_store e)) d
  store_failed (Pending.mark_verified device file) e d =
      fail_upload device file (Message.manifest_would_not_record file (Reason.of_store e)) d
  store_failed (Pending.advance_watermark sync) e d =
      fail_upload sync.device sync.file
        (Message.watermark_would_not_move sync.file (Reason.of_store e)) d
  store_failed _ e d = only (error_log (Message.failed_in_the_store (Reason.of_store e))) d

  unfoldable pub store_completed : OpId → Result StoreResponse StoreError → Desktop S → Answered S
  store_completed op result d = elim (lookup op d.pending) [
    | none ↦ only (warn (Message.never_asked_for op)) d
    | some pending ↦
        let d' = record d { pending = remove op d.pending } in
        elim result [
          | Result.ok response ↦ store_succeeded pending response d'
          | Result.err e ↦ store_failed pending e d'
        ]
  ]
