-- ===== src/Sim/Durable.antt =====
-- desktop/crates/sim/src/storage.rs: what a group of a commit leaves on the disk after a crash.
pub mod Group
pub mod Round
pub mod Planned
pub mod Groups
pub mod Whole
use photo_sync.Prelude.{
  ℕ, List, [], ◌∷◌, Option, none, some, Bool, true, false, ◌≡◌, ◌≢◌, refl, sym, ap, ◌∙◌, ◌==◌,
  eq_iff, eq_refl, All, arith, Option-cases, inl, inr, list_ord, nat_ord, if◌then◌else◌,
}
use photo_sync.Prelude.Map.{
  contains, elem-keys, insert, insert_each, keys, lookup, lookup-insert, lookup-insert_each,
  lookup-insert_self, lookup-remove, map_laws, remove, retain,
}
use photo_sync.Id.{DeviceId, FileId, VaultName}
use photo_sync.Store.{PlanAction, PlanEntry}
use photo_sync.Sim.Storage.{
  crash, link_each, move_time, remove_file, rename_into_vault, sync_staging_directory,
  sync_vault_directory,
}
use photo_sync.Sim.Disk.{Bytes, StagedFile, Storage, or_empty, stage_live}

-- A staged file whose bytes its own sync proved.
pub record IsSynced (s : Storage) (file : FileId) (bytes : Bytes) : Type 0 where
  pub staged : StagedFile
  pub found : lookup file s.live.staging ≡ some staged
  pub proved : lookup file s.synced ≡ some bytes

-- A file in the vault whose bytes were proved, whether or not its name is durable.
pub record InVault (s : Storage) (name : VaultName) (bytes : Bytes) : Type 0 where
  pub named : contains name s.live.vault ≡ true
  pub proved : lookup name s.synced_vault ≡ some bytes

rename_names :
    (file : FileId) (name : VaultName) (staged : StagedFile) (s : Storage)
    → lookup file s.live.staging ≡ some staged
    → (rename_into_vault file name s).live.vault ≡ insert name staged.bytes s.live.vault
unfolding rename_into_vault
rename_names file name staged s h = ground arith

rename_proves :
    (file : FileId) (name : VaultName) (staged : StagedFile) (s : Storage)
    → lookup file s.live.staging ≡ some staged
    → (rename_into_vault file name s).synced_vault
      ≡ insert name (or_empty (lookup file s.synced)) s.synced_vault
unfolding rename_into_vault
rename_proves file name staged s h = ground arith

pub rename-InVault :
    (file : FileId) (name : VaultName) (bytes : Bytes) (s : Storage)
    → IsSynced s file bytes
    → InVault (rename_into_vault file name s) name bytes
unfolding contains
rename-InVault file name bytes s h = record {
  named = ground (
    arith,
    rename_names file name h.staged s h.found,
    lookup-insert_self name h.staged.bytes s.live.vault,
  );
  proved = ground (
    arith,
    h.proved,
    rename_proves file name h.staged s h.found,
    lookup-insert_self name (or_empty (lookup file s.synced)) s.synced_vault,
  );
}

pub rename_keeps-InVault :
    (file : FileId) (name other : VaultName) (bytes : Bytes) (s : Storage)
    → name ≢ other
    → IsSynced s file bytes
    → {theirs : Bytes} → InVault s other theirs
    → InVault (rename_into_vault file name s) other theirs
unfolding contains
rename_keeps-InVault file name other bytes s n f h = record {
  named = ground (
    arith,
    n,
    h.named,
    rename_names file name f.staged s f.found,
    lookup-insert name other f.staged.bytes s.live.vault,
    eq_iff name other,
  );
  proved = ground (
    arith,
    n,
    h.proved,
    rename_proves file name f.staged s f.found,
    lookup-insert name other (or_empty (lookup file s.synced)) s.synced_vault,
    eq_iff name other,
  );
}

pub rename_keeps-IsSynced :
    (file : FileId) (name : VaultName) (other : FileId) (bytes : Bytes) (s : Storage)
    → file ≢ other
    → IsSynced s other bytes
    → IsSynced (rename_into_vault file name s) other bytes
unfolding rename_into_vault
rename_keeps-IsSynced file name other bytes s n h = record {
  staged = h.staged;
  found = ground (arith, n, h.found, lookup-remove file other s.live.staging, eq_iff file other);
  proved = ground (arith, n, h.proved, lookup-remove file other s.synced, eq_iff file other);
}

pub remove_keeps-IsSynced :
    (file other : FileId) (bytes : Bytes) (s : Storage)
    → file ≢ other
    → IsSynced s other bytes
    → IsSynced (remove_file file s) other bytes
unfolding remove_file
remove_keeps-IsSynced file other bytes s n h = record {
  staged = h.staged;
  found = ground (arith, n, h.found, lookup-remove file other s.live.staging, eq_iff file other);
  proved = ground (arith, n, h.proved, lookup-remove file other s.synced, eq_iff file other);
}

pub remove_keeps-InVault :
    (file : FileId) (name : VaultName) (bytes : Bytes) (s : Storage)
    → InVault s name bytes
    → InVault (remove_file file s) name bytes
unfolding remove_file
remove_keeps-InVault file name bytes s h = record { named = h.named; proved = h.proved }

-- What a vault sync and then a crash leave.
pub synced_survives :
    (device : DeviceId) (name : VaultName) (bytes : Bytes) (s : Storage)
    → InVault s name bytes
    → lookup name (crash (sync_staging_directory device (sync_vault_directory s))).live.vault
      ≡ some bytes
unfolding crash sync_staging_directory sync_vault_directory
synced_survives device name bytes s h = ground (
  arith,
  h.named,
  h.proved,
  lookup-insert_each (λ name. or_empty (lookup name s.synced_vault)) name (keys s.live.vault)
      (retain (λ name bytes. contains name s.live.vault) s.durable.vault),
  elem-keys name s.live.vault,
)
