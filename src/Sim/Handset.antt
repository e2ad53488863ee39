-- ===== src/Sim/Handset.antt =====
-- desktop/crates/sim/src/phone.rs: a phone, what it can talk to, and how it reads the answers.
use photo_sync.Prelude.{ℕ, List, [], ◌∷◌, map, length, Option, none, some, Bool, list_ord, nat_ord}
use photo_sync.Prelude.Int.{int_ord}
use photo_sync.Prelude.Map.{Map, insert}
use photo_sync.Prelude.Word.{add_u64}
use photo_sync.Id.{DeviceId, DevicePath, Sha256, Text, Timestamp}
use photo_sync.Catalog.{CatalogEntry}
use photo_sync.Digest
use photo_sync.Digest.{Hasher}
use photo_sync.Effect.{DeletionCandidate, Effect, RejectReason, SessionSummary, ToSend}
use photo_sync.Event.{Event}

-- The trait `Driver`: what a phone can talk to.
pub record Driver (D : Type 0) : Type 0 where
  pub deliver : Event → D → D
  pub take_log : D → List Effect × D
  pub power_cycle : D → Bool × D

-- `CHUNK_BYTES`
abbrev pub chunk_bytes : ℕ
chunk_bytes = 524288

pub record PhoneFile : Type 0 where
  pub mtime : Timestamp
  pub content : List ℕ

-- `PhoneFile::size`
abbrev pub size : PhoneFile → ℕ
size file = length file.content

unfoldable pub digest : {S : Type 0} → Hasher S → PhoneFile → Sha256
digest h file = Digest.peek ⦃h = h⦄ (Digest.update ⦃h = h⦄ (Digest.new ⦃h = h⦄) file.content)

pub record SessionOutcome : Type 0 where
  pub summary : Option SessionSummary
  pub uploaded : List DevicePath
  pub offered : List DeletionCandidate
  pub deleted : List DevicePath
  pub kept : List DevicePath
  pub rejected : Option RejectReason

-- `SessionOutcome::default`
abbrev pub no_outcome : SessionOutcome
no_outcome = record {
  summary = none;
  uploaded = [];
  offered = [];
  deleted = [];
  kept = [];
  rejected = none;
}

pub record Phone : Type 0 where
  pub edit_after_diff : Option (DevicePath × PhoneFile)
  pub edit_before_deleting : Option (DevicePath × PhoneFile)
  pub device : DeviceId
  pub name : Text
  pub files : Map DevicePath PhoneFile

-- `Phone::new`
abbrev pub phone_new : DeviceId → Text → Phone
phone_new device name = record {
  edit_after_diff = none;
  edit_before_deleting = none;
  device = device;
  name = name;
  files = [];
}

unfoldable pub holding : DevicePath → PhoneFile → Phone → Phone
holding path file phone = record phone { files = insert path file phone.files }

unfoldable pub catalog : Phone → List CatalogEntry
catalog phone = map (λ e. record { path = e.0; size = size e.1; mtime = e.1.mtime }) phone.files

-- `sum`
abbrev pub total_size : List CatalogEntry → ℕ
total_size [] = 0
total_size (entry ∷ entries) = add_u64 entry.size (total_size entries)

-- `find_map` over a log, for the four messages a phone waits for
abbrev pub to_send : List Effect → List ToSend
to_send [] = []
to_send (Effect.send_diff device plan summary ∷ log) = plan
to_send (effect ∷ log) = to_send log

abbrev pub candidates : List Effect → List DeletionCandidate
candidates [] = []
candidates (Effect.send_candidates device offered summary ∷ log) = offered
candidates (effect ∷ log) = candidates log

abbrev pub summary : List Effect → Option SessionSummary
summary [] = none
summary (Effect.send_session_summary device summed ∷ log) = some summed
summary (effect ∷ log) = summary log

abbrev pub refusal : List Effect → Option RejectReason
refusal [] = none
refusal (Effect.reject_session device reason ∷ log) = some reason
refusal (effect ∷ log) = refusal log
