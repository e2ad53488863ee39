-- ===== src/Effect.antt =====
-- desktop/crates/core/src/effect.rs: everything the core can ask the shell to do.
use photo_sync.Prelude.{ℕ, List, Bool}
use photo_sync.Id.{Text, DeviceId, DevicePath, FileId, OpId, Sha256, Timestamp, VaultName}
use photo_sync.Port.{StorageError}
use photo_sync.Store.{StoreRequest, StoreError}

pub data Directory : Type 0 where
  vault : Directory
  staging : DeviceId → Directory

pub record ToSend : Type 0 where
  pub file : FileId
  pub path : DevicePath
  pub resume_offset : ℕ

pub record DiffSummary : Type 0 where
  pub to_send_count : ℕ
  pub to_send_bytes : ℕ
  pub already_imported : ℕ
  pub already_staged : ℕ

pub data UploadOutcome : Type 0 where
  verified : (durable_bytes : ℕ) → UploadOutcome
  hash_mismatch changed_on_phone write_failed : UploadOutcome

pub data CandidateOrigin : Type 0 where
  this_transfer earlier : CandidateOrigin

pub record DeletionCandidate : Type 0 where
  pub path : DevicePath
  pub size : ℕ
  pub mtime : Timestamp
  pub expected : Sha256
  pub origin : CandidateOrigin

pub record CommitSummary : Type 0 where
  pub imported : ℕ
  pub duplicates : ℕ
  pub bytes_committed : ℕ

pub record SessionSummary : Type 0 where
  pub sent : ℕ
  pub skipped : ℕ
  pub failed : ℕ
  pub deleted : ℕ
  pub kept : ℕ
  pub bytes_freed : ℕ

pub data RejectReason : Type 0 where
  unsupported_protocol_version : (supported : ℕ) → RejectReason
  not_enough_space : (required_bytes : ℕ) (available_bytes : ℕ) → RejectReason
  commit_in_progress : RejectReason

pub data LogLevel : Type 0 where
  info warn error : LogLevel

-- Where a commit stopped (`describe_step`).
pub data StepName : Type 0 where
  reading_the_clock reading_the_manifest : StepName
  looking_for_the_staged : FileId → StepName
  looking_content_up looking_up_the_names sealing_the_log : StepName
  moving_into_the_vault : FileId → StepName
  making_the_vault_durable making_staging_durable recording_a_group : StepName
  writing_the_rows clearing_the_log clearing_the_manifest clearing_the_directory : StepName

-- The words for a session's phase (`describe`).
pub data PhaseName : Type 0 where
  waiting_for_its_catalog holding_a_frozen_catalog being_classified reading_its_partials_back :
      PhaseName
  waiting_on_the_free_space_check transferring looking_for_its_vault_copies : PhaseName
  deleting_on_the_phone rejected : PhaseName

-- The text of a failure, `error.to_string()`.
pub data Reason : Type 0 where
  of_storage : StorageError → Reason
  of_store : StoreError → Reason

-- The texts that the core formats, one constructor for each `format!`, with its arguments. A text
-- that prints the whole of an internal value (`{other:?}`) leaves that value out.
pub data Message : Type 0 where
  timer_fired_but_none_was_set : OpId → Message
  clock_not_asked free_space_not_asked never_asked_for : OpId → Message
  reconnected : (name : Text) → DeviceId → Message
  catalog_while diff_while upload_while : DeviceId → PhaseName → Message
  unknown_session : DeviceId → Message
  could_not_be_read_back : FileId → Message
  not_on_the_diff : FileId → Message
  assigned_to_another : FileId → (planned asked : DevicePath) → Message
  offered_from : FileId → (planned sent : ℕ) → Message
  no_digest_covering : FileId → (offset : ℕ) → Message
  chunk_for_unopened chunk_for_closed : FileId → Message
  out_of_order : FileId → (expected sent : ℕ) → Message
  past_end : FileId → (size : ℕ) → Message
  closed_but_never_opened closed_twice aborted_but_never_opened verified_twice : FileId → Message
  changed_on_phone : FileId → (size : ℕ) (mtime : Timestamp) → DeviceId → Message
  did_not_match : FileId → (retrying : Bool) → Message
  verified_after_gone : FileId → DeviceId → Message
  name_sources_answer : FileId → Message
  cut_back : FileId → (length : ℕ) → Message
  answered_by_storage answered_by_the_store : Message
  copy_not_checked : VaultName → Reason → Message
  would_not_take_time would_not_say_when could_not_be_stored : FileId → Reason → Message
  could_not_be_made_durable not_removed : FileId → Reason → Message
  could_not_be_cut_back : FileId → (length : ℕ) → Reason → Message
  failed_in_storage failed_in_the_store : Reason → Message
  store_answer_mismatched : Message
  left_in_staging : DeviceId → (count : ℕ) → Message
  will_be_sent_again : DevicePath → DeviceId → Message
  manifest_would_not_record watermark_would_not_move : FileId → Reason → Message
  asked_to_finish_twice : DeviceId → Message
  part_way_through : DeviceId → (count : ℕ) → Message
  clock_for_no_commit step_for_no_commit : Message
  no_row_left dropped_without_file : FileId → Message
  commit_stopped : DeviceId → StepName → Reason → Message
  import_stopped : Reason → Message
  stays_locked : DeviceId → Message
  connected_while_finishing : DeviceId → Message
  not_nominating : DeviceId → Message
  deletions_without_session : DeviceId → Message

pub data UiUpdate : Type 0 where
  device_progress : DeviceId → (files_done files_total bytes_done : ℕ) → UiUpdate
  commit_started : DeviceId → UiUpdate
  commit_finished : DeviceId → CommitSummary → UiUpdate
  error : DeviceId → Message → UiUpdate
  forgotten : DeviceId → DevicePath → UiUpdate

pub data Effect : Type 0 where
  create_staging_file : OpId → DeviceId → FileId → Effect
  write_chunk : OpId → FileId → (offset : ℕ) (bytes : List ℕ) → Effect
  sync_file : OpId → FileId → Effect
  sync_directory : OpId → Directory → Effect
  truncate_file : OpId → FileId → (length : ℕ) → Effect
  read_clock : OpId → Effect
  read_staged_range : OpId → FileId → (offset length : ℕ) → Effect
  stat_staging_file : OpId → FileId → Effect
  read_name_sources : OpId → FileId → Timestamp → Effect
  set_modified_time : OpId → FileId → Timestamp → Effect
  finalize_staging_file : OpId → FileId → Effect
  rename_into_vault : OpId → FileId → VaultName → Effect
  remove_staging_file : OpId → FileId → Effect
  clear_staging_directory : OpId → DeviceId → Effect
  stat_vault_file : OpId → VaultName → Effect
  store : OpId → StoreRequest → Effect
  measure_free_space : OpId → Effect
  set_timer : OpId → (at : Timestamp) → Effect
  send_diff : DeviceId → List ToSend → DiffSummary → Effect
  send_upload_result : DeviceId → FileId → UploadOutcome → Effect
  send_candidates : DeviceId → List DeletionCandidate → CommitSummary → Effect
  send_session_summary : DeviceId → SessionSummary → Effect
  reject_session : DeviceId → RejectReason → Effect
  log : LogLevel → Message → Effect
  notify_ui : UiUpdate → Effect
