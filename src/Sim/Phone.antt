-- ===== src/Sim/Phone.antt =====
-- desktop/crates/sim/src/phone.rs: a phone that plays its half of the protocol.
pub mod Deleting
pub mod Sending
pub mod Uploading
use photo_sync.Prelude.{
  ℕ, zero, suc, ◌+◌, ◌-◌, List, [], ◌∷◌, map, filter, head?, length, take, drop, min, Option, none,
  some, Bool, true, false, not, ◌&&◌, ◌==◌, eqb, ltb, list_ord, nat_ord, if◌then◌else◌,
}
use photo_sync.Prelude.Int.{int_ord}
use photo_sync.Prelude.Map.{Map, insert, lookup, remove}
use photo_sync.Prelude.Word.{add_u64, saturating_add}
use photo_sync.Id.{DeviceId, DevicePath, Sha256, Text, Timestamp}
use photo_sync.Catalog.{CatalogEntry}
use photo_sync.Digest
use photo_sync.Digest.{Hasher}
use photo_sync.Effect.{
  CandidateOrigin, DeletionCandidate, Effect, RejectReason, SessionSummary, ToSend,
}
use photo_sync.Event.{DeletionOutcome, DeletionResult, Event}
use photo_sync.Sim.Handset.{
  Driver, chunk_bytes, PhoneFile, size, digest, SessionOutcome, no_outcome, Phone, phone_new,
  holding, catalog, total_size, to_send, candidates, summary, refusal,
}

-- The edit that a session makes, which is made once.
abbrev pub edited :
    Option (DevicePath × PhoneFile) → Map DevicePath PhoneFile → Map DevicePath PhoneFile
edited none files = files
edited (some (path, replacement)) files = insert path replacement files

unfoldable pub take_edit_after_diff : Phone → Phone
take_edit_after_diff phone = record phone {
  edit_after_diff = none;
  files = edited phone.edit_after_diff phone.files;
}

unfoldable pub take_edit_before_deleting : Phone → Phone
take_edit_before_deleting phone = record phone {
  edit_before_deleting = none;
  files = edited phone.edit_before_deleting phone.files;
}

unfoldable pub is_unchanged : DeletionCandidate → PhoneFile → Bool
is_unchanged candidate file = eqb (size file) candidate.size && file.mtime == candidate.mtime

-- Whether a gate of the deletion lets a file go.
unfoldable pub gate_holds : {S : Type 0} → Hasher S → DeletionCandidate → PhoneFile → Bool
gate_holds h candidate file = elim candidate.origin [
  | CandidateOrigin.this_transfer ↦ is_unchanged candidate file
  | CandidateOrigin.earlier ↦ is_unchanged candidate file && digest h file == candidate.expected
]

-- `Phone::check`
unfoldable pub check : {S : Type 0} → Hasher S → DeletionCandidate → Phone → DeletionResult
check h candidate phone = elim (lookup candidate.path phone.files) [
  | none ↦ DeletionResult.failed
  | some file ↦
      if gate_holds h candidate file then DeletionResult.deleted else DeletionResult.kept_changed
]

-- `Phone::would`
abbrev pub would : {S : Type 0} → Hasher S → DeletionCandidate → Phone → DeletionResult
would h candidate phone = check h candidate phone

-- `Phone::decide`
unfoldable pub decide :
    {S : Type 0} → Hasher S → List DeletionCandidate → Phone → List DeletionOutcome
decide h offered phone =
    map (λ (c : DeletionCandidate). record { path = c.path; result = check h c phone }) offered

abbrev pub was_deleted : DeletionOutcome → Bool
was_deleted outcome = elim outcome.result [
  | DeletionResult.deleted ↦ true
  | DeletionResult.kept_changed ↦ false
  | DeletionResult.kept_user ↦ false
  | DeletionResult.failed ↦ false
]

unfoldable pub deleted_paths : List DeletionOutcome → List DevicePath
deleted_paths outcomes = map (λ (o : DeletionOutcome). o.path) (filter was_deleted outcomes)

unfoldable pub kept_paths : List DeletionOutcome → List DevicePath
kept_paths outcomes =
    map (λ (o : DeletionOutcome). o.path) (filter (λ o. not (was_deleted o)) outcomes)

unfoldable pub remove_each : List DevicePath → Map DevicePath PhoneFile → Map DevicePath PhoneFile
remove_each [] files = files
remove_each (path ∷ paths) files = remove_each paths (remove path files)

-- What a phone does with the offer: it decides, and lets go of what passed.
unfoldable pub let_go :
    {S : Type 0} → Hasher S → List DeletionCandidate → Phone → List DeletionOutcome × Phone
let_go h offered phone =
    let outcomes = decide h offered phone in
    (outcomes, record phone { files = remove_each (deleted_paths outcomes) phone.files })

module _ {S D : Type 0} (h : Hasher S) (driver : Driver D) where
  -- The loop of `upload`, on fuel: a chunk at a time, from an offset on.
  unfoldable pub send_chunks : ℕ → DeviceId → ℕ → ℕ → List ℕ → D → D
  send_chunks zero device file offset content d = d
  send_chunks (suc fuel) device file offset content d =
      let end = min (offset + chunk_bytes) (length content) in
      let rest = send_chunks fuel device file end content (
        driver.deliver
          (Event.chunk_arrived device file offset (take (end - offset) (drop offset content))) d) in
      if ltb offset (length content) then rest else d

  unfoldable pub upload : ToSend → Phone → D → D
  upload wanted phone d = elim (lookup wanted.path phone.files) [
    | none ↦ d
    | some file ↦ driver.deliver (Event.upload_closed phone.device wanted.file (digest h file)) (
        send_chunks (length file.content) phone.device wanted.file wanted.resume_offset file.content
          (driver.deliver
            (Event.upload_opened phone.device wanted.file wanted.path (size file) file.mtime
              wanted.resume_offset)
            d))
  ]

  -- The loop over the diff: the paths sent, and the desktop after it.
  unfoldable pub upload_each : List ToSend → Phone → D → List DevicePath × D
  upload_each [] phone d = ([], d)
  upload_each (wanted ∷ plan) phone d =
      let (sent, after) = upload_each plan phone (driver.take_log (upload wanted phone d)).1 in
      (wanted.path ∷ sent, after)

  -- The session up to the diff: what the desktop said, and the desktop.
  unfoldable pub ask : Phone → D → List Effect × D
  ask phone d = driver.take_log (
      driver.deliver (Event.diff_requested phone.device) (
        driver.deliver
          (Event.catalog_submitted phone.device (catalog phone) (total_size (catalog phone))) d))

  unfoldable pub greet : Phone → D → List Effect × D
  greet phone d = driver.take_log (driver.deliver (Event.peer_connected phone.device phone.name) d)

  -- The rest of a session that finishes: the offer, the answer to it and the summary.
  unfoldable pub conclude : SessionOutcome → Phone → D → SessionOutcome × (Phone × D)
  conclude outcome phone d =
      let (finished, d1) =
        driver.take_log (driver.deliver (Event.finish_requested phone.device) d) in
      let offered = candidates finished in
      let (outcomes, after) = let_go h offered (take_edit_before_deleting phone) in
      let (said, d2) =
        driver.take_log (driver.deliver (Event.deletions_reported phone.device outcomes) d1) in
      (
        record outcome {
          offered = offered;
          deleted = deleted_paths outcomes;
          kept = kept_paths outcomes;
          summary = summary said;
        },
        (after, d2),
      )

  -- The session once it is asked for its files.
  unfoldable pub send_diff : Bool → List ToSend → Phone → D → SessionOutcome × (Phone × D)
  send_diff finish plan phone d =
      let (sent, after) = upload_each plan phone d in
      let outcome : SessionOutcome = record no_outcome { uploaded = sent } in
      if finish then conclude outcome phone after else (outcome, (phone, after))

  unfoldable pub transfer : Bool → Phone → D → SessionOutcome × (Phone × D)
  transfer finish phone d =
      let greeted = greet phone d in
      let asked = ask phone greeted.1 in
      elim (refusal greeted.0) [
        | some reason ↦ (record no_outcome { rejected = some reason }, (phone, greeted.1))
        | none ↦ elim (refusal asked.0) [
          | some reason ↦ (record no_outcome { rejected = some reason }, (phone, asked.1))
          | none ↦ send_diff finish (to_send asked.0) (take_edit_after_diff phone) asked.1
        ]
      ]

  -- `run_session` and `run_session_until_commit`
  abbrev pub run_session : Phone → D → SessionOutcome × (Phone × D)
  run_session phone d = transfer true phone d

  abbrev pub run_session_until_commit : Phone → D → SessionOutcome × (Phone × D)
  run_session_until_commit phone d = transfer false phone d

  -- The stream of `send_partly`, cut short: the paths sent, and the desktop.
  unfoldable pub send_piece : ℕ → ToSend → PhoneFile → Phone → D → D
  send_piece bytes wanted file phone d =
      let from = wanted.resume_offset in
      let to = min (saturating_add from bytes) (length file.content) in
      let began =
        driver.deliver
          (Event.upload_opened phone.device wanted.file wanted.path (size file) file.mtime from)
          d in
      let sent =
        driver.deliver
          (Event.chunk_arrived phone.device wanted.file from
            (take (to - from) (drop from file.content)))
          began in
      driver.deliver (Event.upload_aborted phone.device wanted.file)
        (if ltb from to then sent else began)

  unfoldable pub send_first : ℕ → Option ToSend → Phone → D → List DevicePath × D
  send_first bytes none phone d = ([], d)
  send_first bytes (some wanted) phone d = elim (lookup wanted.path phone.files) [
    | none ↦ ([], d)
    | some file ↦ (wanted.path ∷ [], send_piece bytes wanted file phone d)
  ]

  unfoldable pub send_partly : ℕ → Phone → D → SessionOutcome × D
  send_partly bytes phone d =
      let greeted = greet phone d in
      let asked = ask phone greeted.1 in
      let (sent, after) = send_first bytes (head? (to_send asked.0)) phone asked.1 in
      elim (refusal greeted.0) [
        | some reason ↦ (record no_outcome { rejected = some reason }, greeted.1)
        | none ↦ elim (refusal asked.0) [
          | some reason ↦ (record no_outcome { rejected = some reason }, asked.1)
          | none ↦ (
            record no_outcome { uploaded = sent },
            (driver.take_log (driver.deliver (Event.peer_disconnected phone.device) after)).1,
          )
        ]
      ]
