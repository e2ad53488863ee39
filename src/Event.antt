-- ===== src/Event.antt =====
-- desktop/crates/core/src/event.rs: everything that can happen to the core.
use photo_sync.Prelude.{ℕ, List, Bool}
use photo_sync.Id.{Text, DeviceId, DevicePath, FileId, OpId, Sha256, Timestamp}
use photo_sync.Catalog.{CatalogEntry}
use photo_sync.Naming.Civil.{CivilTime, Moment}
use photo_sync.Port.{StorageError}
use photo_sync.Store.{StoreError, StoreResponse}

pub data StorageOutcome : Type 0 where
  done : StorageOutcome
  vault_file : (present : Bool) (size : ℕ) → StorageOutcome
  name_sources : List CivilTime → StorageOutcome
  staging_file : (present : Bool) → StorageOutcome
  bytes : List ℕ → StorageOutcome

pub data DeletionResult : Type 0 where
  deleted kept_changed kept_user failed : DeletionResult

pub record DeletionOutcome : Type 0 where
  pub path : DevicePath
  pub result : DeletionResult

-- `Result<T, E>`
pub data Result {ℓ} (A E : Type ℓ) : Type ℓ where
  ok : A → Result A E
  err : E → Result A E

pub data Event : Type 0 where
  started : (now : Timestamp) → Event
  timer_fired : OpId → (now : Timestamp) → Event
  peer_connected : DeviceId → (name : Text) → Event
  peer_disconnected : DeviceId → Event
  catalog_submitted : DeviceId → (entries : List CatalogEntry) (total_bytes : ℕ) → Event
  diff_requested : DeviceId → Event
  upload_opened :
      DeviceId → FileId → DevicePath → (size : ℕ) (mtime : Timestamp) (offset : ℕ) → Event
  chunk_arrived : DeviceId → FileId → (offset : ℕ) (bytes : List ℕ) → Event
  upload_closed : DeviceId → FileId → (digest : Sha256) → Event
  upload_aborted : DeviceId → FileId → Event
  finish_requested : DeviceId → Event
  deletions_reported : DeviceId → List DeletionOutcome → Event
  manual_commit_requested : DeviceId → Event
  force_reimport_requested : DeviceId → DevicePath → Event
  storage_op_completed : OpId → Result StorageOutcome StorageError → Event
  store_op_completed : OpId → Result StoreResponse StoreError → Event
  free_space_measured : OpId → (available_bytes : ℕ) → Event
  clock_read : OpId → Moment → Event
  shutdown_requested : Event
