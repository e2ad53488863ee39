-- ===== src/Oracle.antt =====
-- desktop/crates/model/src/lib.rs: an independent account of what the desktop should hold, worked
-- out from what the phone did.
use photo_sync.Prelude.{
  ℕ, List, [], ◌∷◌, ◌++◌, map, filter, Option, none, some, not, ◌||◌, ◌==◌, take, list_ord, nat_ord,
  pair_ord, if◌then◌else◌,
}
use photo_sync.Prelude.Int.{int_ord}
use photo_sync.Prelude.Map.{Map, Set, add, collect, contains, insert, lookup, remove}
use photo_sync.Id.{DeviceId, DevicePath, FileId, Sha256, Timestamp}
use photo_sync.Catalog.{CatalogEntry}
use photo_sync.Digest
use photo_sync.Digest.{Hasher, RunningDigest}
use photo_sync.Event.{Event}

pub record Recorded : Type 0 where
  pub digest : Sha256
  pub size : ℕ
  pub mtime : Timestamp

abbrev pub FileKey : Type 0
FileKey = DeviceId × DevicePath

pub record Expected : Type 0 where
  pub vault : Set Sha256
  pub content : Set Sha256
  pub device_files : Map FileKey Recorded
  pub undecided : Set Sha256
  pub undecided_files : Set FileKey

pub record Staged : Type 0 where
  pub path : DevicePath
  pub digest : Sha256
  pub size : ℕ
  pub mtime : Timestamp

pub record Arriving : Type 0 where
  pub device : DeviceId
  pub path : DevicePath
  pub size : ℕ
  pub mtime : Timestamp

pub record Model : Type 0 where
  pub catalogs : Map DeviceId (Map DevicePath CatalogEntry)
  pub arriving : Map FileId Arriving
  pub partials : Map FileKey (List ℕ)
  pub refused : Set FileId
  pub staged : Map DeviceId (List Staged)
  pub at_risk : Map DeviceId (List Staged)
  pub expected : Expected

abbrev pub expected_nothing : Expected
expected_nothing = record {
  vault = [];
  content = [];
  device_files = [];
  undecided = [];
  undecided_files = [];
}

-- `Model::new`
abbrev pub model_new : Model
model_new = record {
  catalogs = [];
  arriving = [];
  partials = [];
  refused = [];
  staged = [];
  at_risk = [];
  expected = expected_nothing;
}

-- `unwrap_or_default` on lists
abbrev pub or_nil {ℓ} : {A : Type ℓ} → Option (List A) → List A
or_nil none = []
or_nil (some xs) = xs

-- `staged.retain(|held| held.path != path)`
abbrev pub without_path : DevicePath → List Staged → List Staged
without_path path staged = filter (λ (held : Staged). not (held.path == path)) staged

unfoldable pub recorded_of : Staged → Recorded
recorded_of staged = record { digest = staged.digest; size = staged.size; mtime = staged.mtime }

-- One file of a batch becomes part of the archive.
unfoldable pub expect_staged : DeviceId → Staged → Expected → Expected
expect_staged device staged e = record {
  vault = if not (contains staged.digest e.content) then add staged.digest e.vault else e.vault;
  content = add staged.digest e.content;
  device_files = insert (device, staged.path) (recorded_of staged) e.device_files;
  undecided = remove staged.digest e.undecided;
  undecided_files = remove (device, staged.path) e.undecided_files;
}

-- The loop of `commit`.
unfoldable pub commit_each : DeviceId → List Staged → Model → Model
commit_each device [] m = m
commit_each device (staged ∷ batch) m = commit_each device batch (record m {
  partials = remove (device, staged.path) m.partials;
  expected = expect_staged device staged m.expected;
})

-- `Model::commit`
unfoldable pub commit : DeviceId → Model → Model
commit device m =
    let batch = or_nil (lookup device m.staged) in
    commit_each device batch
      (record m { staged = remove device m.staged; at_risk = insert device batch m.at_risk })

unfoldable pub doubt_each : DeviceId → List Staged → Expected → Expected
doubt_each device [] e = e
doubt_each device (staged ∷ batch) e = doubt_each device batch (record e {
  undecided = add staged.digest e.undecided;
  undecided_files = add (device, staged.path) e.undecided_files;
})

-- The loop of `reopen_interrupted_commits`.
unfoldable pub reopen_each : List (DeviceId × List Staged) → Model → Model
reopen_each [] m = m
reopen_each ((device, batch) ∷ rest) m = reopen_each rest (record m {
  expected = doubt_each device batch m.expected;
  staged = insert device (or_nil (lookup device m.staged) ++ batch) m.staged;
})

unfoldable pub reopen_interrupted_commits : Model → Model
reopen_interrupted_commits m = reopen_each m.at_risk (record m { at_risk = [] })

unfoldable pub observe_catalog : DeviceId → List CatalogEntry → Model → Model
observe_catalog device entries m = record m {
  catalogs =
      insert device (collect (map (λ (entry : CatalogEntry). (entry.path, entry)) entries))
        m.catalogs;
}

unfoldable pub observe_open :
    DeviceId → FileId → DevicePath → (size : ℕ) (mtime : Timestamp) (offset : ℕ) → Model → Model
observe_open device file path size mtime offset m = record m {
  arriving =
      insert file (record { device = device; path = path; size = size; mtime = mtime }) m.arriving;
  partials =
      insert (device, path) (take offset (or_nil (lookup (device, path) m.partials))) m.partials;
}

unfoldable pub observe_chunk : FileId → List ℕ → Model → Model
observe_chunk file bytes m = elim (lookup file m.arriving) [
  | none ↦ m
  | some arriving ↦ elim (lookup (arriving.device, arriving.path) m.partials) [
    | none ↦ m
    | some seen ↦ record m {
      partials = insert (arriving.device, arriving.path) (seen ++ bytes) m.partials;
    }
  ]
]

-- The entry of the frozen catalog for an arriving file.
unfoldable pub listed_entry : Arriving → Model → Option CatalogEntry
listed_entry arriving m = elim (lookup arriving.device m.catalogs) [
  | none ↦ none
  | some catalog ↦ lookup arriving.path catalog
]

-- A file that arrived whole replaces the one of its path.
unfoldable pub stage_arrived : Arriving → Sha256 → CatalogEntry → Model → Model
stage_arrived arriving claimed entry m = record m {
  staged =
      insert arriving.device
        (without_path arriving.path (or_nil (lookup arriving.device m.staged))
          ++ record {
            path = arriving.path;
            digest = claimed;
            size = entry.size;
            mtime = entry.mtime;
          }
            ∷ [])
        m.staged;
}

unfoldable pub upload_refused : FileId → Model → Model
upload_refused file m =
    let m' = record m { refused = add file m.refused } in
    elim (lookup file m.arriving) [
      | none ↦ m'
      | some arriving ↦ elim (lookup arriving.device m.staged) [
        | none ↦ m'
        | some staged ↦ record m' {
          staged = insert arriving.device (without_path arriving.path staged) m.staged;
        }
      ]
    ]

unfoldable pub model_started : Model → Model
model_started m =
    reopen_interrupted_commits (record m { arriving = []; catalogs = []; refused = [] })

unfoldable pub forget_file : DeviceId → DevicePath → Model → Model
forget_file device path m = record m {
  expected = record m.expected {
    device_files = remove (device, path) m.expected.device_files;
    undecided_files = remove (device, path) m.expected.undecided_files;
  };
}

-- `Model::remember_import`
unfoldable pub expect_import :
    DeviceId → DevicePath → Sha256 → (size : ℕ) → Timestamp → Model → Model
expect_import device path digest size mtime m = record m {
  expected = record m.expected {
    content = add digest m.expected.content;
    device_files =
        insert (device, path) (record { digest = digest; size = size; mtime = mtime })
          m.expected.device_files;
  };
}

unfoldable pub remember_vault_copy : Sha256 → Model → Model
remember_vault_copy digest m = record m {
  expected = record m.expected { vault = add digest m.expected.vault };
}

unfoldable pub forget_vault_copy : Sha256 → Model → Model
forget_vault_copy digest m = record m {
  expected = record m.expected { vault = remove digest m.expected.vault };
}

module _ {S : Type 0} (h : Hasher S) where
  -- `close`, for a file that is arriving. It is no longer, whatever comes of it.
  unfoldable pub close_arriving : FileId → Arriving → Sha256 → Model → Model
  close_arriving file arriving claimed m =
      let seen = or_nil (lookup (arriving.device, arriving.path) m.partials) in
      let computed = Digest.peek ⦃h = h⦄ (Digest.update ⦃h = h⦄ (Digest.new ⦃h = h⦄) seen) in
      if contains file m.refused || not (computed == claimed)
      then m
      else elim (listed_entry arriving m) [
        | none ↦ m
        | some entry ↦
            if not (entry.size == arriving.size) || not (entry.mtime == arriving.mtime)
            then m
            else stage_arrived arriving claimed entry m
      ]

  unfoldable pub close : FileId → Sha256 → Model → Model
  close file claimed m = elim (lookup file m.arriving) [
    | none ↦ m
    | some arriving ↦
        close_arriving file arriving claimed (record m { arriving = remove file m.arriving })
  ]

  unfoldable pub observe : Event → Model → Model
  observe (Event.catalog_submitted device entries total_bytes) m = observe_catalog device entries m
  observe (Event.upload_opened device file path size mtime offset) m =
      observe_open device file path size mtime offset m
  observe (Event.chunk_arrived device file offset bytes) m = observe_chunk file bytes m
  observe (Event.upload_closed device file digest) m = close file digest m
  observe (Event.upload_aborted device file) m = record m { arriving = remove file m.arriving }
  observe (Event.finish_requested device) m = commit device m
  observe (Event.manual_commit_requested device) m = commit device m
  observe (Event.deletions_reported device outcomes) m = record m {
    at_risk = remove device m.at_risk;
  }
  observe (Event.force_reimport_requested device path) m = forget_file device path m
  observe (Event.started now) m = model_started m
  observe event m = m
