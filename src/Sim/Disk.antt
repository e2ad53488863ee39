-- ===== src/Sim/Disk.antt =====
-- desktop/crates/sim/src/storage.rs: the state of the simulated files.
use photo_sync.Prelude.{
  ℕ, ◌-◌, List, [], ◌++◌, length, take, replicate, Option, none, some, Bool, list_ord, nat_ord,
}
use photo_sync.Prelude.Map.{Map}
use photo_sync.Id.{DeviceId, FileId, Timestamp, VaultName}
use photo_sync.Naming.Civil.{CivilTime}

abbrev pub Bytes : Type 0
Bytes = List ℕ

-- `Vec::resize` with zeroes
unfoldable pub resize : ℕ → Bytes → Bytes
resize n bytes = take n bytes ++ replicate (n - length bytes) 0

-- `unwrap_or_default` on bytes
abbrev pub or_empty : Option Bytes → Bytes
or_empty none = []
or_empty (some bytes) = bytes

pub record StagedFile : Type 0 where
  pub device : DeviceId
  pub bytes : Bytes
  pub finalized : Bool

pub record Picture : Type 0 where
  pub staging : Map FileId StagedFile
  pub vault : Map VaultName Bytes

abbrev pub empty_picture : Picture
empty_picture = record { staging = []; vault = [] }

pub record Storage : Type 0 where
  pub live : Picture
  pub durable : Picture
  pub synced : Map FileId Bytes
  pub synced_vault : Map VaultName Bytes
  pub mtimes : Map FileId Timestamp
  pub vault_mtimes : Map VaultName Timestamp
  pub name_sources : Map Bytes (List CivilTime)
  pub default_name_sources : List CivilTime

-- `Storage::new`
abbrev pub storage_new : Storage
storage_new = record {
  live = empty_picture;
  durable = empty_picture;
  synced = [];
  synced_vault = [];
  mtimes = [];
  vault_mtimes = [];
  name_sources = [];
  default_name_sources = [];
}

abbrev pub stage_live : Map FileId StagedFile → Storage → Storage
stage_live staging s = record s { live = record s.live { staging = staging } }

abbrev pub stage_durable : Map FileId StagedFile → Storage → Storage
stage_durable staging s = record s { durable = record s.durable { staging = staging } }
