-- ===== src/Shell/Server.antt =====
-- desktop/crates/shell/src/server.rs: the calls a phone makes, as events and the answers to them.
-- The desk, which holds the core, is an interface; locks and streams are sequences of values.
pub mod Chunks
pub mod Streams
pub mod Calls
pub mod Broken
pub mod Opening
use photo_sync.Prelude.{
  ℕ, zero, suc, ◌+◌, ◌-◌, List, [], ◌∷◌, ◌++◌, map, any, length, take, drop, min, Option, none,
  some, Bool, true, false, not, ltb, eqb, ◌==◌, list_ord, nat_ord, if◌then◌else◌,
}
use photo_sync.Prelude.Word.{add_u64, saturating_add}
use photo_sync.Id.{DeviceId, FileId, Sha256, Text}
use photo_sync.Catalog.{CatalogEntry}
use photo_sync.Digest.{Hasher}
use photo_sync.Effect.{
  CandidateOrigin, CommitSummary, DeletionCandidate, DiffSummary, Effect, RejectReason,
  SessionSummary, ToSend, UploadOutcome,
}
use photo_sync.Event.{DeletionOutcome, DeletionResult, Event, Result}
use photo_sync.Naming.Decimal.{decimal}
use photo_sync.Shell.Pinning.{Paired, PairedPhone, pair, phone_for}
use photo_sync.Shell.Wire.{
  CatalogChunk, DiffChunk, FileHeader, FinishChunk, HandshakeRequest, HandshakeResponse, Kind,
  PairRequest, PairResponse, Status, UploadResult, WireCandidate, WireOutcome, WireToSend,
  parse_u64, protocol_version,
}
use photo_sync.Shell.Answers.{
  reason_status, refusal_status, is_busy_refusal, refused_for_commit, wire_to_send, diff,
  outcome_result, upload_result, wire_origin, wire_candidate, offered, session_summary,
  deletion_result, digest_from, chunks_from, into_chunks, diff_chunk, finish_chunk,
}

-- What a call uses of the desk.
pub record Desk (D : Type 0) : Type 0 where
  pub deliver : Event → D → D
  pub take_log : D → List Effect × D

-- `CATALOG_CEILING`
abbrev pub catalog_ceiling : ℕ
catalog_ceiling = 1000000

-- `Ceiling::take`: what has been held, or the error.
unfoldable pub take_under : (most held arrived : ℕ) → Result ℕ Status
take_under most held arrived =
    let now = saturating_add held arrived in
    if ltb most now then Result.err (Status.too_many_entries most) else Result.ok now

-- The loop of `submit_catalog` over its stream: the entries, and the total of the last message.
unfoldable pub read_catalog :
    ℕ
    → List CatalogEntry
    → ℕ
    → List (Result CatalogChunk Status)
    → Result (List CatalogEntry × ℕ) Status
read_catalog held entries total [] = Result.ok (entries, total)
read_catalog held entries total (Result.err status ∷ chunks) = Result.err status
read_catalog held entries total (Result.ok chunk ∷ chunks) =
    elim (take_under catalog_ceiling held (length chunk.entries)) [
      | Result.err status ↦ Result.err status
      | Result.ok now ↦
          read_catalog now (entries ++ chunk.entries)
            (if chunk.last then chunk.total_bytes else total) chunks
    ]

abbrev pub read_outcome : WireOutcome → DeletionOutcome
read_outcome outcome = record { path = outcome.path; result = deletion_result outcome.result }

-- The loop of `report_deletions` over its stream.
unfoldable pub read_reports :
    ℕ
    → List DeletionOutcome
    → List (Result (List WireOutcome) Status)
    → Result (List DeletionOutcome) Status
read_reports held outcomes [] = Result.ok outcomes
read_reports held outcomes (Result.err status ∷ reports) = Result.err status
read_reports held outcomes (Result.ok report ∷ reports) =
    elim (take_under catalog_ceiling held (length report)) [
      | Result.err status ↦ Result.err status
      | Result.ok now ↦ read_reports now (outcomes ++ map read_outcome report) reports
    ]

-- A message of an upload as an event, with the file and the offset after it.
unfoldable pub upload_event :
    DeviceId → Option FileId → ℕ → Option Kind → Result (Event × (Option FileId × ℕ)) Status
upload_event device file offset (some (Kind.header header)) = elim (parse_u64 header.file_id) [
  | none ↦ Result.err Status.not_a_number
  | some named ↦ Result.ok (
    Event.upload_opened device named header.path header.size header.mtime header.offset,
    (some named, header.offset),
  )
]
upload_event device none offset (some (Kind.bytes bytes)) = Result.err Status.bytes_before_header
upload_event device (some named) offset (some (Kind.bytes bytes)) =
    Result.ok
      (Event.chunk_arrived device named offset bytes, (some named, add_u64 offset (length bytes)))
upload_event device none offset (some (Kind.trailer sha256)) =
    Result.err Status.digest_before_header
upload_event device (some named) offset (some (Kind.trailer sha256)) = elim (digest_from sha256) [
  | Result.err status ↦ Result.err status
  | Result.ok digest ↦ Result.ok (Event.upload_closed device named digest, (some named, offset))
]
upload_event device file offset none = Result.err Status.empty_message

-- `SyncService::caller`: the phone that a connection's key belongs to.
unfoldable pub caller : {S : Type 0} → Hasher S → Paired → Option (List ℕ) → Result DeviceId Status
caller h paired none = Result.err Status.no_key
caller h paired (some key) = elim (phone_for h key paired) [
  | none ↦ Result.err Status.not_paired
  | some phone ↦ Result.ok phone.device
]

-- What only a known caller gets to.
abbrev pub with_caller :
    {D X : Type 0}
    → Result DeviceId Status
    → (DeviceId → D → Result X Status × D)
    → D
    → Result X Status × D
with_caller (Result.err status) call d = (Result.err status, d)
with_caller (Result.ok device) call d = call device d

module _ {D : Type 0} (desk : Desk D) where
  abbrev pub deliver_each : List Event → D → D
  deliver_each [] d = d
  deliver_each (event ∷ events) d = deliver_each events (desk.deliver event d)

  -- `SyncService::deliver`
  unfoldable pub deliver : List Event → D → List Effect × D
  deliver events d = desk.take_log (deliver_each events (desk.take_log d).1)

  unfoldable pub handshake :
      Text → HandshakeRequest → DeviceId → D → Result HandshakeResponse Status × D
  handshake name asked device d =
      let (effects, after) = deliver (Event.peer_connected device asked.device_name ∷ []) d in
      if not (eqb asked.protocol_version protocol_version)
      then (Result.err (Status.other_version protocol_version), d)
      else (
        Result.ok (record {
          protocol_version = protocol_version;
          desktop_name = name;
          commit_in_progress = refused_for_commit effects;
        }),
        after,
      )

  unfoldable pub submit_catalog :
      List (Result CatalogChunk Status) → DeviceId → D → Result ℕ Status × D
  submit_catalog chunks device d = elim (read_catalog 0 [] 0 chunks) [
    | Result.err status ↦ (Result.err status, d)
    | Result.ok (entries, total) ↦ (
      Result.ok (length entries),
      (deliver (Event.catalog_submitted device entries total ∷ []) d).1,
    )
  ]

  unfoldable pub get_diff : DeviceId → D → Result (List DiffChunk) Status × D
  get_diff device d =
      let (effects, after) = deliver (Event.diff_requested device ∷ []) d in
      elim (refusal_status effects) [
        | some status ↦ (Result.err status, after)
        | none ↦ elim (diff effects) [
          | none ↦ (Result.err Status.no_diff, after)
          | some (plan, summary) ↦ (Result.ok (into_chunks (diff_chunk summary) plan), after)
        ]
      ]

  -- The loop of `upload_file`: the answer, or the file that was left open, or an error.
  unfoldable pub upload_loop :
      DeviceId
      → Option FileId
      → ℕ
      → List (Result (Option Kind) Status)
      → D
      → Result (Option UploadResult × Option FileId) Status × D
  upload_loop device file offset [] d = (Result.ok (none, file), d)
  upload_loop device file offset (Result.err status ∷ chunks) d = (Result.err status, d)
  upload_loop device file offset (Result.ok kind ∷ chunks) d =
      elim (upload_event device file offset kind) [
        | Result.err status ↦ (Result.err status, d)
        | Result.ok (event, (named, at)) ↦
            let (effects, after) = deliver (event ∷ []) d in
            let rest = upload_loop device named at chunks after in
            elim (upload_result effects) [
              | some result ↦ (Result.ok (some result, named), after)
              | none ↦ rest
            ]
      ]

  -- What `upload_file` does after its loop.
  unfoldable pub upload_done :
      DeviceId
      → Result (Option UploadResult × Option FileId) Status × D
      → Result UploadResult Status × D
  upload_done device (Result.err status, d) = (Result.err status, d)
  upload_done device (Result.ok (some result, file), d) = (Result.ok result, d)
  upload_done device (Result.ok (none, none), d) = (Result.err Status.not_finished, d)
  upload_done device (Result.ok (none, some named), d) =
      (Result.err Status.not_finished, (deliver (Event.upload_aborted device named ∷ []) d).1)

  unfoldable pub upload_file :
      List (Result (Option Kind) Status) → DeviceId → D → Result UploadResult Status × D
  upload_file chunks device d = upload_done device (upload_loop device none 0 chunks d)

  unfoldable pub finish : DeviceId → D → Result (List FinishChunk) Status × D
  finish device d =
      let (effects, after) = deliver (Event.finish_requested device ∷ []) d in
      elim (offered effects) [
        | none ↦ (Result.err Status.no_candidates, after)
        | some (list, commit) ↦ (Result.ok (into_chunks (finish_chunk commit) list), after)
      ]

  unfoldable pub report_deletions :
      List (Result (List WireOutcome) Status) → DeviceId → D → Result SessionSummary Status × D
  report_deletions reports device d = elim (read_reports 0 [] reports) [
    | Result.err status ↦ (Result.err status, d)
    | Result.ok outcomes ↦
        let (effects, after) = deliver (Event.deletions_reported device outcomes ∷ []) d in
        elim (session_summary effects) [
          | none ↦ (Result.err Status.no_summary, after)
          | some summary ↦ (Result.ok summary, after)
        ]
  ]

-- The pairing call: whether the window is open, the key presented, what the person decided and
-- whether the file of paired phones could be written are inputs.
unfoldable pub pair_call :
    {S : Type 0}
    → Hasher S
    → (window_open : Bool) → Option (List ℕ)
    → PairRequest
    → Text
    → (decision : Option Bool) → (save : Paired → Result Unit Text) → Paired
    → Result PairResponse Status × Paired
pair_call h false key asked name decision save paired = (Result.err Status.pairing_closed, paired)
pair_call h true none asked name decision save paired = (Result.err Status.no_key, paired)
pair_call h true (some key) asked name decision save paired =
    let added = pair h key asked.device_id asked.device_name paired in
    if not (eqb asked.protocol_version protocol_version)
    then (Result.err (Status.other_version protocol_version), paired)
    else if (elim decision [ none ↦ false | some accepted ↦ accepted ])
    then elim (save added) [
      | Result.err why ↦ (Result.err (Status.not_written why), added)
      | Result.ok done ↦ (Result.ok (record { accepted = true; desktop_name = name }), added)
    ]
    else (Result.ok (record { accepted = false; desktop_name = name }), paired)
