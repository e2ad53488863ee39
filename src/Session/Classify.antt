-- ===== src/Session/Classify.antt =====
-- desktop/crates/core/src/session.rs: identifiers, and the partition of a frozen catalog into what
-- is imported, what is already staged and what the phone has to send.
use photo_sync.Prelude.{
  ℕ, List, [], ◌∷◌, ◌++◌, map, Option, none, some, Bool, false, ◌==◌, ◌&&◌, not, leb, filter, head?,
  if◌then◌else◌, nat_ord, list_ord,
}
use photo_sync.Prelude.Int.{int_ord}
use photo_sync.Prelude.Map.{Map, Set, lookup, collect, contains}
use photo_sync.Prelude.Word.{add_u64, saturating_sub}
use photo_sync.Id.{DevicePath, FileId, Timestamp}
use photo_sync.Catalog.{Catalog, CatalogEntry}
use photo_sync.Effect.{DiffSummary}
use photo_sync.Store.{DeviceFileRow, StagingEntry, is_verified}

-- The counter of staging identifiers.
pub record FileIds : Type 0 where
  pub next : ℕ

unfoldable pub starting_above : Option FileId → FileIds
starting_above none = record { next = 0 }
starting_above (some highest) = record { next = add_u64 highest 1 }

unfoldable pub allocate : FileIds → FileId × FileIds
allocate ids = (ids.next, record { next = add_u64 ids.next 1 })

pub record PlannedSend : Type 0 where
  pub file : FileId
  pub path : DevicePath
  pub size : ℕ
  pub mtime : Timestamp
  pub resume_offset : ℕ
  pub attempts : ℕ

pub record Classification : Type 0 where
  pub to_send : List PlannedSend
  pub superseded : List FileId
  pub summary : DiffSummary

abbrev pub no_summary : DiffSummary
no_summary = record {
  to_send_count = 0;
  to_send_bytes = 0;
  already_imported = 0;
  already_staged = 0;
}

-- `Classification::default`
abbrev pub nothing : Classification
nothing = record { to_send = []; superseded = []; summary = no_summary }

-- Whether an index row holds this version of the file.
unfoldable pub is_imported : Option DeviceFileRow → CatalogEntry → Bool
is_imported none entry = false
is_imported (some row) entry = row.size == entry.size && row.mtime == entry.mtime

-- Whether a staging entry holds the version of the file that the catalog describes.
unfoldable pub describes : StagingEntry → CatalogEntry → Bool
describes staged entry = staged.size == entry.size && staged.mtime == entry.mtime

-- `sort_by_key(|entry| entry.file)`, a stable sort.
unfoldable pub insert_by_file : StagingEntry → List StagingEntry → List StagingEntry
insert_by_file e [] = e ∷ []
insert_by_file e (x ∷ xs) = if leb e.file x.file then e ∷ x ∷ xs else x ∷ insert_by_file e xs

unfoldable pub sort_by_file : List StagingEntry → List StagingEntry
unfolding insert_by_file
sort_by_file [] = []
sort_by_file (e ∷ es) = insert_by_file e (sort_by_file es)

-- One path's list of `group_by_path`.
unfoldable pub group_by_path : List StagingEntry → DevicePath → List StagingEntry
group_by_path staged path = sort_by_file (filter (λ entry. entry.path == path) staged)

-- The send that an entry becomes, with the counter after it.
unfoldable pub planned_send : CatalogEntry → Option StagingEntry → FileIds → PlannedSend × FileIds
unfolding allocate
planned_send entry (some staged) ids = (
  record {
    file = staged.file;
    path = entry.path;
    size = entry.size;
    mtime = entry.mtime;
    resume_offset = staged.durable_bytes;
    attempts = 0;
  },
  ids,
)
planned_send entry none ids =
    let (file, ids') = allocate ids in
    (
      record {
        file = file;
        path = entry.path;
        size = entry.size;
        mtime = entry.mtime;
        resume_offset = 0;
        attempts = 0;
      },
      ids',
    )

unfoldable pub push_send : Classification → PlannedSend → Classification
push_send into send = record into {
  to_send = into.to_send ++ send ∷ [];
  summary = record into.summary {
    to_send_count = add_u64 into.summary.to_send_count 1;
    to_send_bytes =
        add_u64 into.summary.to_send_bytes (saturating_sub send.size send.resume_offset);
  };
}

unfoldable pub send_entry :
    CatalogEntry → Option StagingEntry → FileIds → Classification → Classification × FileIds
unfolding planned_send push_send
send_entry entry resume ids into =
    let (send, ids') = planned_send entry resume ids in (push_send into send, ids')

unfoldable pub classify_entry :
    CatalogEntry
    → Option StagingEntry
    → Set FileId
    → FileIds
    → Classification
    → Classification × FileIds
unfolding send_entry
classify_entry entry none resumable ids into = send_entry entry none ids into
classify_entry entry (some staged) resumable ids into =
    if is_verified staged
    then (
      record into {
        summary = record into.summary { already_staged = add_u64 into.summary.already_staged 1 };
      },
      ids,
    )
    else if contains staged.file resumable
    then send_entry entry (some staged) ids into
    else send_entry entry none ids
        (record into { superseded = into.superseded ++ staged.file ∷ [] })

-- One round of the loop of `classify`.
unfoldable pub classify_one :
    List StagingEntry
    → Map DevicePath DeviceFileRow
    → Set FileId
    → CatalogEntry
    → FileIds
    → Classification
    → Classification × FileIds
unfolding classify_entry
classify_one staged imported_by_path resumable entry ids into =
    if is_imported (lookup entry.path imported_by_path) entry
    then (
      record into {
        summary = record into.summary {
          already_imported = add_u64 into.summary.already_imported 1;
        };
      },
      ids,
    )
    else let here = group_by_path staged entry.path in
      let current = filter (λ s. describes s entry) here in
      let stale = filter (λ s. not (describes s entry)) here in
      classify_entry entry (head? current) resumable ids
        (record into { superseded = into.superseded ++ map (λ s. s.file) stale })

unfoldable pub classify_loop :
    List StagingEntry
    → Map DevicePath DeviceFileRow
    → Set FileId
    → List CatalogEntry
    → FileIds
    → Classification
    → Classification × FileIds
unfolding classify_one
classify_loop staged imported_by_path resumable [] ids into = (into, ids)
classify_loop staged imported_by_path resumable (entry ∷ entries) ids into =
    let (into', ids') = classify_one staged imported_by_path resumable entry ids into in
    classify_loop staged imported_by_path resumable entries ids' into'

unfoldable pub classify :
    Catalog
    → List StagingEntry
    → List DeviceFileRow
    → Set FileId
    → FileIds
    → Classification × FileIds
unfolding classify_loop
classify catalog staged imported resumable ids =
    let imported_by_path = collect (map (λ row. (row.path, row)) imported) in
    classify_loop staged imported_by_path resumable catalog.entries ids nothing
