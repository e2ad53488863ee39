-- ===== src/Sim/Storage.antt =====
-- desktop/crates/sim/src/storage.rs: files, as a reader sees them and as a crash would leave them.
use photo_sync.Prelude.{
  ℕ, ◌-◌, List, [], ◌∷◌, ◌++◌, map, length, take, drop, min, Option, none, some, Bool, true, false,
  not, ◌||◌, ◌==◌, ltb, list_ord, nat_ord, if◌then◌else◌,
}
use photo_sync.Prelude.Map.{Map, lookup, insert, insert_each, remove, contains, keys, retain}
use photo_sync.Prelude.Word.{add_u64}
use photo_sync.Id.{DeviceId, FileId, Timestamp, VaultName}
use photo_sync.Naming.Calendar.{civil_from_unix}
use photo_sync.Naming.Civil.{CivilTime}
use photo_sync.Effect.{Directory}
use photo_sync.Sim.Disk.{Bytes, resize, or_empty, StagedFile, Storage, stage_live, stage_durable}

unfoldable pub create : DeviceId → FileId → Storage → Storage
create device file s =
    record (stage_live
      (insert file (record { device = device; bytes = []; finalized = false }) s.live.staging) s) {
        synced = insert file [] s.synced;
      }

-- The bytes of a file after a write: padded up to the offset, and cut there.
unfoldable pub written : Bytes → ℕ → Bytes → Bytes
written bytes at written_bytes =
    take at (if ltb (length bytes) at then resize at bytes else bytes) ++ written_bytes

unfoldable pub write_at : FileId → ℕ → Bytes → Storage → Storage
write_at file offset bytes s = elim (lookup file s.live.staging) [
  | none ↦ s
  | some staged ↦
      stage_live
        (insert file (record staged { bytes = written staged.bytes offset bytes }) s.live.staging) s
]

-- A durable file's bytes replaced, where the file has a durable name.
unfoldable pub keep_bytes : FileId → Bytes → Storage → Storage
keep_bytes file bytes s = elim (lookup file s.durable.staging) [
  | none ↦ s
  | some kept ↦ stage_durable (insert file (record kept { bytes = bytes }) s.durable.staging) s
]

unfoldable pub sync_file : FileId → Storage → Storage
sync_file file s = elim (lookup file s.live.staging) [
  | none ↦ s
  | some staged ↦
      keep_bytes file staged.bytes (record s { synced = insert file staged.bytes s.synced })
]

-- What a staged file becomes on the disk once its directory is synced: its bytes are those that
-- the file's own sync proved.
abbrev pub linked : Storage → FileId → StagedFile → StagedFile
linked s file staged = record {
  device = staged.device;
  bytes = or_empty (lookup file s.synced);
  finalized = staged.finalized;
}

-- The loop over the live files of a device.
unfoldable pub link_each :
    Storage → DeviceId → List (FileId × StagedFile) → Map FileId StagedFile → Map FileId StagedFile
link_each s device [] durable = durable
link_each s device ((file, staged) ∷ files) durable =
    link_each s device files
      (if staged.device == device then insert file (linked s file staged) durable else durable)

unfoldable pub sync_staging_directory : DeviceId → Storage → Storage
sync_staging_directory device s =
    stage_durable
      (link_each s device s.live.staging (
        retain (λ file kept. not (kept.device == device) || contains file s.live.staging)
          s.durable.staging))
      s

unfoldable pub sync_vault_directory : Storage → Storage
sync_vault_directory s = record s {
  durable = record s.durable {
    vault =
        insert_each (λ name. or_empty (lookup name s.synced_vault)) (keys s.live.vault)
          (retain (λ name bytes. contains name s.live.vault) s.durable.vault);
  };
}

unfoldable pub sync_directory : Directory → Storage → Storage
sync_directory Directory.vault s = sync_vault_directory s
sync_directory (Directory.staging device) s = sync_staging_directory device s

abbrev pub cut_staged :
    ℕ → Option StagedFile → FileId → Map FileId StagedFile → Map FileId StagedFile
cut_staged n none file staging = staging
cut_staged n (some staged) file staging =
    insert file (record staged { bytes = take n staged.bytes }) staging

abbrev pub cut_synced : ℕ → Option Bytes → FileId → Map FileId Bytes → Map FileId Bytes
cut_synced n none file synced = synced
cut_synced n (some bytes) file synced = insert file (take n bytes) synced

unfoldable pub truncate : FileId → ℕ → Storage → Storage
truncate file n s = record s {
  live = record s.live { staging = cut_staged n (lookup file s.live.staging) file s.live.staging };
  synced = cut_synced n (lookup file s.synced) file s.synced;
  durable = record s.durable {
    staging = cut_staged n (lookup file s.durable.staging) file s.durable.staging;
  };
}

unfoldable pub finalize : FileId → Storage → Storage
finalize file s = elim (lookup file s.live.staging) [
  | none ↦ s
  | some staged ↦ stage_live (insert file (record staged { finalized = true }) s.live.staging) s
]

unfoldable pub set_modified_time : FileId → Timestamp → Storage → Storage
set_modified_time file mtime s =
    if contains file s.live.staging then record s { mtimes = insert file mtime s.mtimes } else s

-- The time that travels with a rename.
unfoldable pub move_time : FileId → VaultName → Storage → Storage
move_time file name s = elim (lookup file s.mtimes) [
  | none ↦ s
  | some mtime ↦ record s {
    mtimes = remove file s.mtimes;
    vault_mtimes = insert name mtime s.vault_mtimes;
  }
]

unfoldable pub rename_into_vault : FileId → VaultName → Storage → Storage
rename_into_vault file name s = elim (lookup file s.live.staging) [
  | none ↦ s
  | some staged ↦ record (move_time file name s) {
    live = record {
      staging = remove file s.live.staging;
      vault = insert name staged.bytes s.live.vault;
    };
    synced = remove file s.synced;
    synced_vault = insert name (or_empty (lookup file s.synced)) s.synced_vault;
  }
]

-- `Storage::remove`
unfoldable pub remove_file : FileId → Storage → Storage
remove_file file s = record (stage_live (remove file s.live.staging) s) {
  mtimes = remove file s.mtimes;
  synced = remove file s.synced;
}

-- The side effects of `clear_staging`'s filter, file by file.
unfoldable pub forget_each : DeviceId → List (FileId × StagedFile) → Storage → Storage
forget_each device [] s = s
forget_each device ((file, staged) ∷ files) s = forget_each device files (
    if staged.device == device
    then record s { synced = remove file s.synced; mtimes = remove file s.mtimes }
    else s)

unfoldable pub clear_staging : DeviceId → Storage → Storage
clear_staging device s =
    forget_each device s.live.staging
      (stage_live (retain (λ file staged. not (staged.device == device)) s.live.staging) s)

-- A durable file comes back as long as the live one was, with zeroes past what was proved.
abbrev pub padded_to : Option StagedFile → StagedFile → StagedFile
padded_to none staged = staged
padded_to (some was) staged =
    if ltb (length staged.bytes) (length was.bytes)
    then record staged { bytes = resize (length was.bytes) staged.bytes }
    else staged

unfoldable pub crash : Storage → Storage
crash s = record s {
  live = record s.durable {
    staging = map (λ e. (e.0, padded_to (lookup e.0 s.live.staging) e.1)) s.durable.staging;
  };
  synced =
      insert_each
        (λ file. elim (lookup file s.durable.staging) [ none ↦ [] | some kept ↦ kept.bytes ])
        (keys s.durable.staging) (retain (λ file bytes. contains file s.durable.staging) s.synced);
  synced_vault = retain (λ name bytes. contains name s.durable.vault) s.synced_vault;
}

unfoldable pub stat_vault : VaultName → Storage → Option ℕ
stat_vault name s = elim (lookup name s.live.vault) [
  | none ↦ none
  | some bytes ↦ some (length bytes)
]

unfoldable pub read_range : FileId → ℕ → ℕ → Storage → Bytes
read_range file offset n s = elim (lookup file s.live.staging) [
  | none ↦ []
  | some staged ↦
      let from = min offset (length staged.bytes) in
      let to = min (add_u64 from n) (length staged.bytes) in
      take (to - from) (drop from staged.bytes)
]

unfoldable pub holds : FileId → Storage → Bool
holds file s = contains file s.live.staging

unfoldable pub sources_of : FileId → Timestamp → Storage → List CivilTime
sources_of file mtime s = elim (lookup file s.live.staging) [
  | none ↦ []
  | some staged ↦ elim (lookup staged.bytes s.name_sources) [
    | none ↦ s.default_name_sources ++ civil_from_unix mtime ∷ []
    | some sources ↦ sources ++ civil_from_unix mtime ∷ []
  ]
]

unfoldable pub set_capture_time : Bytes → CivilTime → Storage → Storage
set_capture_time content captured s = record s {
  name_sources = insert content (captured ∷ []) s.name_sources;
}

unfoldable pub set_default_name_sources : List CivilTime → Storage → Storage
set_default_name_sources sources s = record s { default_name_sources = sources }

unfoldable pub vault_mtime : VaultName → Storage → Option Timestamp
vault_mtime name s = lookup name s.vault_mtimes

unfoldable pub put_in_vault : VaultName → Bytes → Storage → Storage
put_in_vault name bytes s = record s {
  live = record s.live { vault = insert name bytes s.live.vault };
  synced_vault = insert name bytes s.synced_vault;
  durable = record s.durable { vault = insert name bytes s.durable.vault };
}

unfoldable pub curate : VaultName → Storage → Storage
curate name s = record s {
  live = record s.live { vault = remove name s.live.vault };
  durable = record s.durable { vault = remove name s.durable.vault };
  synced_vault = remove name s.synced_vault;
}
