-- ===== src/Store.antt =====
-- desktop/crates/core/src/store.rs: what the core asks of durable storage, and the rows it holds.
use photo_sync.Prelude.{ℕ, List, Option, Bool, is_some}
use photo_sync.Id.{Text, DeviceId, DevicePath, FileId, Sha256, Timestamp, VaultName}
use photo_sync.Naming.Civil.{CivilTime}

pub record StagingEntry : Type 0 where
  pub file : FileId
  pub path : DevicePath
  pub size : ℕ
  pub mtime : Timestamp
  pub durable_bytes : ℕ
  pub digest : Option Sha256
  pub name_sources : List CivilTime

unfoldable pub is_verified : StagingEntry → Bool
is_verified entry = is_some entry.digest

pub data PlanAction : Type 0 where
  import : VaultName → PlanAction
  duplicate : VaultName → PlanAction

pub record PlanEntry : Type 0 where
  pub file : FileId
  pub action : PlanAction
  pub done : Bool

pub record ContentRow : Type 0 where
  pub digest : Sha256
  pub vault_name : VaultName

pub record DeviceFileRow : Type 0 where
  pub device : DeviceId
  pub path : DevicePath
  pub size : ℕ
  pub mtime : Timestamp
  pub digest : Sha256
  pub vault_name : VaultName
  pub committed_at : Timestamp

pub data StoreRequest : Type 0 where
  list_staging_devices : StoreRequest
  list_staging_entries : DeviceId → StoreRequest
  highest_staging_file_id : StoreRequest
  begin_staging_entry : DeviceId → StagingEntry → StoreRequest
  advance_watermark : (file : FileId) (durable_bytes : ℕ) → StoreRequest
  mark_staging_entry_verified :
      (file : FileId) (digest : Sha256) (name_sources : List CivilTime) → StoreRequest
  drop_staging_entry : FileId → StoreRequest
  seal_commit_plan : DeviceId → List PlanEntry → StoreRequest
  load_commit_plan : DeviceId → StoreRequest
  mark_plan_entries_done : DeviceId → List FileId → StoreRequest
  clear_commit_plan : DeviceId → StoreRequest
  clear_staging_manifest : DeviceId → StoreRequest
  lookup_content : List Sha256 → StoreRequest
  taken_vault_names : List Text → StoreRequest
  lookup_device_files : DeviceId → List DevicePath → StoreRequest
  insert_committed_batch : List ContentRow → List DeviceFileRow → StoreRequest
  forget_device_file : DeviceId → DevicePath → StoreRequest

pub data StoreResponse : Type 0 where
  done : StoreResponse
  devices : List DeviceId → StoreResponse
  highest_staging_file_id : Option FileId → StoreResponse
  staging_entries : List StagingEntry → StoreResponse
  commit_plan : Option (List PlanEntry) → StoreResponse
  content : List ContentRow → StoreResponse
  vault_names : List VaultName → StoreResponse
  device_files : List DeviceFileRow → StoreResponse

pub data StoreError : Type 0 where
  no_space : StoreError
  failed : Text → StoreError
