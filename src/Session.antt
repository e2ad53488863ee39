-- ===== src/Session.antt =====
-- desktop/crates/core/src/session.rs: what the desktop knows about one phone's session, and
-- `Nomination` of desktop/crates/core/src/desktop/deletion.rs, which a session holds.
pub mod Classify
pub mod Sorting
pub mod Partition
pub mod Answering
use photo_sync.Prelude.{
  ℕ, List, [], map, filter_map, Option, none, some, Bool, true, false, is_some, ◌&&◌, nat_ord,
}
use photo_sync.Prelude.Map.{Map, Set, lookup, collect}
use photo_sync.Id.{DeviceId, DevicePath, FileId, Sha256, Timestamp}
use photo_sync.Catalog
use photo_sync.Catalog.{Catalog}
use photo_sync.Digest.{RunningDigest}
use photo_sync.Effect.{DiffSummary, CommitSummary, DeletionCandidate}
use photo_sync.Store.{DeviceFileRow, StagingEntry}
use Classify.{PlannedSend, Classification, no_summary}

-- The two answers the diff waits on.
pub record Inputs : Type 0 where
  pub staged : Option (List StagingEntry)
  pub imported : Option (List DeviceFileRow)

abbrev pub no_inputs : Inputs
no_inputs = record { staged = none; imported = none }

unfoldable pub is_complete : Inputs → Bool
is_complete inputs = is_some inputs.staged && is_some inputs.imported

pub data Phase : Type 0 where
  awaiting_catalog catalog_frozen : Phase
  classifying : Inputs → Phase
  rebuilding_digests : Inputs → Phase
  measuring_space transferring nominating deleting rejected : Phase

pub data UploadState : Type 0 where
  receiving : UploadState
  closing : (claimed : Sha256) → UploadState
  closed : UploadState

-- `state == UploadState::Receiving`
abbrev pub is_receiving : UploadState → Bool
is_receiving UploadState.receiving = true
is_receiving _ = false

pub record Upload (S : Type 0) : Type 0 where
  pub size : ℕ
  pub mtime : Timestamp
  pub received : ℕ
  pub durable : ℕ
  pub unsynced : ℕ
  pub digest : RunningDigest S
  pub state : UploadState

pub record Nomination : Type 0 where
  pub committed : Set DevicePath
  pub commit : CommitSummary
  pub awaited : ℕ
  pub candidates : List DeletionCandidate

abbrev pub no_commit : CommitSummary
no_commit = record { imported = 0; duplicates = 0; bytes_committed = 0 }

abbrev pub no_nomination : Nomination
no_nomination = record { committed = []; commit = no_commit; awaited = 0; candidates = [] }

pub record Session (S : Type 0) : Type 0 where
  pub device : DeviceId
  pub phase : Phase
  pub catalog : Catalog
  pub summary : DiffSummary
  pub sent : ℕ
  pub skipped : ℕ
  pub failed : ℕ
  pub nomination : Nomination
  pub sends : Map FileId PlannedSend
  pub order : List FileId
  pub uploads : Map FileId (Upload S)

pub data Input : Type 0 where
  staged : List StagingEntry → Input
  imported : List DeviceFileRow → Input

-- The lines of `record_input` that store one answer.
unfoldable pub store_input : Input → Inputs → Inputs
store_input (Input.staged entries) inputs = record inputs { staged = some entries }
store_input (Input.imported rows) inputs = record inputs { imported = some rows }

-- The phase is replaced by `AwaitingCatalog` before it is looked at, and only a classification is
-- put back.
unfoldable pub rebuilding_phase : Phase → Phase
rebuilding_phase (Phase.classifying inputs) = Phase.rebuilding_digests inputs
rebuilding_phase _ = Phase.awaiting_catalog

unfoldable pub record_input_phase : Phase → Input → Phase × Bool
unfolding store_input is_complete
record_input_phase (Phase.classifying inputs) input =
    let inputs' = store_input input inputs in (Phase.classifying inputs', is_complete inputs')
record_input_phase phase input = (phase, false)

-- The inputs that `Phase::Classifying(inputs) | Phase::RebuildingDigests(inputs)` binds.
unfoldable pub waiting_inputs : Phase → Option Inputs
waiting_inputs (Phase.classifying inputs) = some inputs
waiting_inputs (Phase.rebuilding_digests inputs) = some inputs
waiting_inputs _ = none

abbrev pub Answers : Type 0
Answers = List StagingEntry × List DeviceFileRow

-- Both answers, where both are in.
unfoldable pub both_answers :
    Option (List StagingEntry) → Option (List DeviceFileRow) → Option Answers
both_answers (some entries) (some rows) = some (entries, rows)
both_answers _ _ = none

-- A phase that waits for inputs, with both of them taken out of it.
unfoldable pub emptied : Phase → Phase
emptied (Phase.classifying inputs) = Phase.classifying no_inputs
emptied (Phase.rebuilding_digests inputs) = Phase.rebuilding_digests no_inputs
emptied phase = phase

module _ {S : Type 0} where
  unfoldable pub connected : DeviceId → Session S
  connected device = record {
    device = device;
    phase = Phase.awaiting_catalog;
    catalog = Catalog.default;
    summary = no_summary;
    sent = 0;
    skipped = 0;
    failed = 0;
    nomination = no_nomination;
    sends = [];
    order = [];
    uploads = [];
  }

  unfoldable pub freeze : Session S → Catalog → Session S
  freeze session catalog = record session { catalog = catalog; phase = Phase.catalog_frozen }

  unfoldable pub begin_classifying : Session S → Session S
  begin_classifying session = record session { phase = Phase.classifying no_inputs }

  unfoldable pub begin_rebuilding : Session S → Session S
  unfolding rebuilding_phase
  begin_rebuilding session = record session { phase = rebuilding_phase session.phase }

  unfoldable pub record_input : Session S → Input → Session S × Bool
  unfolding record_input_phase
  record_input session input =
      let (phase, complete) = record_input_phase session.phase input in
      (record session { phase = phase }, complete)

  -- Each `take` leaves `None` behind, also where the other answer is missing.
  unfoldable pub take_inputs : Session S → Option Answers × Session S
  unfolding waiting_inputs both_answers emptied
  take_inputs session = elim (waiting_inputs session.phase) [
    | none ↦ (none, session)
    | some inputs ↦ elim (both_answers inputs.staged inputs.imported) [
      | none ↦ (none, record session { phase = emptied session.phase })
      | some answers ↦ (some answers, record session { phase = Phase.measuring_space })
    ]
  ]

  unfoldable pub plan : Session S → Classification → Session S
  plan session classification = record session {
    summary = classification.summary;
    order = map (λ send. send.file) classification.to_send;
    sends = collect (map (λ send. (send.file, send)) classification.to_send);
  }

  unfoldable pub in_order : Session S → List PlannedSend
  in_order session = filter_map (λ file. lookup file session.sends) session.order

  unfoldable pub to_send_bytes : Session S → ℕ
  to_send_bytes session = session.summary.to_send_bytes
