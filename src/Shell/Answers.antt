-- ===== src/Shell/Answers.antt =====
-- desktop/crates/shell/src/server.rs: what the core answered, as the messages that go to the phone.
use photo_sync.Prelude.{
  ℕ, zero, suc, ◌+◌, List, [], ◌∷◌, map, any, length, take, drop, min, Option, none, some, Bool,
  true, false, eqb, list_ord, nat_ord, if◌then◌else◌,
}
use photo_sync.Id.{Sha256}
use photo_sync.Effect.{
  CandidateOrigin, CommitSummary, DeletionCandidate, DiffSummary, Effect, RejectReason,
  SessionSummary, ToSend, UploadOutcome,
}
use photo_sync.Event.{DeletionResult, Result}
use photo_sync.Naming.Decimal.{decimal}
use photo_sync.Shell.Wire.{DiffChunk, FinishChunk, Status, UploadResult, WireCandidate, WireToSend}

-- Reading what the core answered.
abbrev pub reason_status : RejectReason → Status
reason_status (RejectReason.not_enough_space required available) =
    Status.not_enough_space required available
reason_status RejectReason.commit_in_progress = Status.finishing_previous_import
reason_status (RejectReason.unsupported_protocol_version supported) = Status.other_version supported

abbrev pub refusal_status : List Effect → Option Status
refusal_status [] = none
refusal_status (Effect.reject_session device reason ∷ effects) = some (reason_status reason)
refusal_status (effect ∷ effects) = refusal_status effects

abbrev pub is_busy_refusal : Effect → Bool
is_busy_refusal (Effect.reject_session device RejectReason.commit_in_progress) = true
is_busy_refusal effect = false

unfoldable pub refused_for_commit : List Effect → Bool
refused_for_commit effects = any is_busy_refusal effects

abbrev pub wire_to_send : ToSend → WireToSend
wire_to_send one = record {
  path = one.path;
  file_id = decimal one.file;
  resume_offset = one.resume_offset;
}

abbrev pub diff : List Effect → Option (List WireToSend × DiffSummary)
diff [] = none
diff (Effect.send_diff device plan summary ∷ effects) = some (map wire_to_send plan, summary)
diff (effect ∷ effects) = diff effects

abbrev pub outcome_result : UploadOutcome → UploadResult
outcome_result (UploadOutcome.verified durable) = record { status = 1; durable_bytes = durable }
outcome_result UploadOutcome.hash_mismatch = record { status = 2; durable_bytes = 0 }
outcome_result UploadOutcome.changed_on_phone = record { status = 3; durable_bytes = 0 }
outcome_result UploadOutcome.write_failed = record { status = 4; durable_bytes = 0 }

abbrev pub upload_result : List Effect → Option UploadResult
upload_result [] = none
upload_result (Effect.send_upload_result device file outcome ∷ effects) =
    some (outcome_result outcome)
upload_result (effect ∷ effects) = upload_result effects

abbrev pub wire_origin : CandidateOrigin → ℕ
wire_origin CandidateOrigin.this_transfer = 1
wire_origin CandidateOrigin.earlier = 2

abbrev pub wire_candidate : DeletionCandidate → WireCandidate
wire_candidate one = record {
  path = one.path;
  size = one.size;
  mtime = one.mtime;
  expected_sha256 = one.expected;
  origin = wire_origin one.origin;
}

abbrev pub offered : List Effect → Option (List WireCandidate × CommitSummary)
offered [] = none
offered (Effect.send_candidates device list commit ∷ effects) =
    some (map wire_candidate list, commit)
offered (effect ∷ effects) = offered effects

abbrev pub session_summary : List Effect → Option SessionSummary
session_summary [] = none
session_summary (Effect.send_session_summary device summary ∷ effects) = some summary
session_summary (effect ∷ effects) = session_summary effects

unfoldable pub deletion_result : ℕ → DeletionResult
deletion_result reported =
    if eqb reported 1
    then DeletionResult.deleted
    else if eqb reported 2
    then DeletionResult.kept_changed
    else if eqb reported 3
    then DeletionResult.kept_user
    else DeletionResult.failed

unfoldable pub digest_from : List ℕ → Result Sha256 Status
digest_from bytes = if eqb (length bytes) 32 then Result.ok bytes else Result.err Status.bad_digest

-- `ENTRIES_PER_MESSAGE`
abbrev pub entries_per_message : ℕ
entries_per_message = 1000

-- The loop of `into_chunks`, on fuel.
unfoldable pub chunks_from :
    {A C : Type 0} → (List A → Bool → C) → ℕ → (total taken : ℕ) → List A → List C
chunks_from build zero total taken remaining = []
chunks_from build (suc fuel) total taken [] = []
chunks_from build (suc fuel) total taken (x ∷ xs) =
    let cut = min entries_per_message (length (x ∷ xs)) in
    let piece = take cut (x ∷ xs) in
    let so_far = taken + length piece in
    build piece (eqb so_far total) ∷ chunks_from build fuel total so_far (drop cut (x ∷ xs))

unfoldable pub into_chunks : {A C : Type 0} → (List A → Bool → C) → List A → List C
into_chunks build [] = build [] true ∷ []
into_chunks build (x ∷ xs) = chunks_from build (length (x ∷ xs)) (length (x ∷ xs)) 0 (x ∷ xs)

abbrev pub diff_chunk : DiffSummary → List WireToSend → Bool → DiffChunk
diff_chunk summary entries last = record {
  to_send = entries;
  last = last;
  summary = if last then some summary else none;
}

abbrev pub finish_chunk : CommitSummary → List WireCandidate → Bool → FinishChunk
finish_chunk commit entries last = record {
  candidates = entries;
  last = last;
  commit = if last then some commit else none;
}
