-- ===== src/Sim/Store.antt =====
-- desktop/crates/sim/src/store.rs: the manifest, the index and the commit write-log in memory.
use photo_sync.Prelude.{
  List, [], ◌∷◌, map, filter, filter_map, any, Option, none, some, Bool, true, false, not, ◌&&◌,
  ◌==◌, eqb, list_ord, nat_ord, pair_ord, if◌then◌else◌,
}
use photo_sync.Prelude.Map.{Map, Set, add, elem, insert, keys, lookup, remove, retain, values}
use photo_sync.Id.{Text, DeviceId, DevicePath, FileId, Sha256, VaultName}
use photo_sync.Store.{
  ContentRow, DeviceFileRow, PlanEntry, StagingEntry, StoreRequest, StoreResponse,
}

pub record Store : Type 0 where
  pub manifest : Map FileId (DeviceId × StagingEntry)
  pub content : Map Sha256 VaultName
  pub device_files : Map (DeviceId × DevicePath) DeviceFileRow
  pub plans : Map DeviceId (List PlanEntry)
  pub done : Map DeviceId (Set FileId)

-- `Store::new`
abbrev pub store_new : Store
store_new = record { manifest = []; content = []; device_files = []; plans = []; done = [] }

-- `keys().next_back()`
unfoldable pub last : List FileId → Option FileId
last [] = none
last (file ∷ []) = some file
last (file ∷ next ∷ files) = last (next ∷ files)

-- `Vec::dedup`, which drops an item that follows its equal.
unfoldable pub dedup_after : DeviceId → List DeviceId → List DeviceId
dedup_after device [] = []
dedup_after device (next ∷ devices) =
    let rest = dedup_after next devices in if next == device then rest else next ∷ rest

unfoldable pub dedup : List DeviceId → List DeviceId
dedup [] = []
dedup (device ∷ devices) = device ∷ dedup_after device devices

unfoldable pub starts_with : Text → Text → Bool
starts_with [] text = true
starts_with (c ∷ prefix) [] = false
starts_with (c ∷ prefix) (x ∷ text) = eqb c x && starts_with prefix text

-- A write to a manifest row through `get_mut`.
unfoldable pub update_entry : FileId → (StagingEntry → StagingEntry) → Store → Store
update_entry file f s = elim (lookup file s.manifest) [
  | none ↦ s
  | some row ↦ record s { manifest = insert file (row.0, f row.1) s.manifest }
]

-- `or_default` on a plan and on a set of marks
abbrev pub plan_or_empty : Option (List PlanEntry) → List PlanEntry
plan_or_empty none = []
plan_or_empty (some plan) = plan

abbrev pub marks_or_empty : Option (Set FileId) → Set FileId
marks_or_empty none = []
marks_or_empty (some marks) = marks

unfoldable pub add_each : List FileId → Set FileId → Set FileId
add_each [] marks = marks
add_each (file ∷ files) marks = add_each files (add file marks)

unfoldable pub mark_entry : List FileId → PlanEntry → PlanEntry
mark_entry files entry = if elem entry.file files then record entry { done = true } else entry

-- `MarkPlanEntriesDone`, which leaves a device with a plan and marks, were they empty.
unfoldable pub mark_done : DeviceId → List FileId → Store → Store
mark_done device files s = record s {
  done = insert device (add_each files (marks_or_empty (lookup device s.done))) s.done;
  plans = insert device (map (mark_entry files) (plan_or_empty (lookup device s.plans))) s.plans;
}

abbrev pub unmarked : PlanEntry → PlanEntry
unmarked entry = record entry { done = false }

unfoldable pub seal_plan : DeviceId → List PlanEntry → Store → Store
seal_plan device plan s = record s {
  plans = insert device (map unmarked plan) s.plans;
  done = insert device [] s.done;
}

unfoldable pub insert_contents : List ContentRow → Map Sha256 VaultName → Map Sha256 VaultName
insert_contents [] content = content
insert_contents (row ∷ rows) content =
    insert_contents rows (insert row.digest row.vault_name content)

unfoldable pub insert_rows :
    List DeviceFileRow
    → Map (DeviceId × DevicePath) DeviceFileRow
    → Map (DeviceId × DevicePath) DeviceFileRow
insert_rows [] table = table
insert_rows (row ∷ rows) table = insert_rows rows (insert (row.device, row.path) row table)

unfoldable pub insert_batch : List ContentRow → List DeviceFileRow → Store → Store
insert_batch contents rows s = record s {
  content = insert_contents contents s.content;
  device_files = insert_rows rows s.device_files;
}

unfoldable pub content_row : Store → Sha256 → Option ContentRow
content_row s digest = elim (lookup digest s.content) [
  | none ↦ none
  | some name ↦ some (record { digest = digest; vault_name = name })
]

-- What a request changes.
unfoldable pub change : StoreRequest → Store → Store
change (StoreRequest.begin_staging_entry device entry) s = record s {
  manifest = insert entry.file (device, entry) s.manifest;
}
change (StoreRequest.advance_watermark file durable_bytes) s =
    update_entry file (λ entry. record entry { durable_bytes = durable_bytes }) s
change (StoreRequest.mark_staging_entry_verified file digest name_sources) s =
    update_entry file (λ entry. record entry { digest = some digest; name_sources = name_sources })
      s
change (StoreRequest.drop_staging_entry file) s = record s { manifest = remove file s.manifest }
change (StoreRequest.seal_commit_plan device plan) s = seal_plan device plan s
change (StoreRequest.mark_plan_entries_done device files) s = mark_done device files s
change (StoreRequest.clear_commit_plan device) s = record s { plans = remove device s.plans }
change (StoreRequest.clear_staging_manifest device) s = record s {
  manifest = retain (λ file row. not (row.0 == device)) s.manifest;
}
change (StoreRequest.insert_committed_batch contents rows) s = insert_batch contents rows s
change (StoreRequest.forget_device_file device path) s = record s {
  device_files = remove (device, path) s.device_files;
}
change _ s = s

-- What a request is answered with.
unfoldable pub answer : StoreRequest → Store → StoreResponse
answer StoreRequest.highest_staging_file_id s =
    StoreResponse.highest_staging_file_id (last (keys s.manifest))
answer StoreRequest.list_staging_devices s =
    StoreResponse.devices (dedup (map (λ row. row.0) (values s.manifest)))
answer (StoreRequest.list_staging_entries device) s =
    StoreResponse.staging_entries
      (map (λ row. row.1) (filter (λ row. row.0 == device) (values s.manifest)))
answer (StoreRequest.load_commit_plan device) s = StoreResponse.commit_plan (lookup device s.plans)
answer (StoreRequest.lookup_content digests) s =
    StoreResponse.content (filter_map (content_row s) digests)
answer (StoreRequest.taken_vault_names stems) s =
    StoreResponse.vault_names
      (filter (λ name. any (λ stem. starts_with stem name) stems) (values s.content))
answer (StoreRequest.lookup_device_files device paths) s =
    StoreResponse.device_files (filter_map (λ path. lookup (device, path) s.device_files) paths)
answer _ s = StoreResponse.done

-- `Store::run`
unfoldable pub run : StoreRequest → Store → StoreResponse × Store
run request s = (answer request s, change request s)

-- `Store::remember_import`
unfoldable pub remember_row : DeviceFileRow → Store → Store
remember_row row s = record s {
  content = insert row.digest row.vault_name s.content;
  device_files = insert (row.device, row.path) row s.device_files;
}
