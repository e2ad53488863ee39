-- ===== src/Session/Partition.antt =====
-- desktop/crates/core/src/session.rs, `classify`: what the phone is asked to send.
use photo_sync.Prelude.{
  ℕ, List, [], ◌∷◌, ◌++◌, map, append_assoc, append-nil, filter, head?, not, ◌||◌, ◌&&◌, ◌==◌,
  is_some, arith, Option, none, some, Bool, false, Bool-cases, inl, inr, ◌≡◌, refl, ap, ◌∙◌, sym,
  nat_ord, list_ord, if◌then◌else◌,
}
use photo_sync.Prelude.Int.{int_ord}
use photo_sync.Prelude.Map.{
  Map, Set, collect, collect_onto, contains, insert, lookup, lookup-insert,
}
use photo_sync.Id.{DevicePath, FileId, Timestamp}
use photo_sync.Catalog.{Catalog, CatalogEntry}
use photo_sync.Store.{DeviceFileRow, StagingEntry, is_verified}
use photo_sync.Session.Sorting.{head-sort_by_file, lowest}
use photo_sync.Session.Classify.{
  Classification, FileIds, PlannedSend, classify, classify_entry, classify_loop, classify_one,
  describes, group_by_path, is_imported, planned_send, push_send, send_entry,
}

-- A version of a file on the phone.
abbrev pub Version : Type 0
Version = DevicePath × ℕ × Timestamp

abbrev pub version_of : CatalogEntry → Version
version_of entry = (entry.path, entry.size, entry.mtime)

abbrev pub version_sent : PlannedSend → Version
version_sent send = (send.path, send.size, send.mtime)

abbrev pub versions : Classification → List Version
versions c = map version_sent c.to_send

-- Whether a staging entry, and a row of the index, is of the version.
abbrev pub is_version : CatalogEntry → StagingEntry → Bool
is_version entry s = s.path == entry.path && (s.size == entry.size && s.mtime == entry.mtime)

-- What counts of a version in staging is its entry of the lowest identifier, verified or not.
abbrev pub is_staged : Option StagingEntry → Bool
is_staged none = false
is_staged (some s) = is_some s.digest

-- The last of the rows of a path: the index has one at most.
abbrev pub last_row : DevicePath → List DeviceFileRow → Option DeviceFileRow
last_row path [] = none
last_row path (row ∷ rows) = elim (last_row path rows) [
  | some later ↦ some later
  | none ↦ if row.path == path then some row else none
]

abbrev pub is_recorded : CatalogEntry → Option DeviceFileRow → Bool
is_recorded entry none = false
is_recorded entry (some row) = row.size == entry.size && row.mtime == entry.mtime

-- Whether the desktop already has the version, in the vault or verified in staging.
abbrev pub is_had : List StagingEntry → List DeviceFileRow → CatalogEntry → Bool
is_had staged rows entry =
    is_recorded entry (last_row entry.path rows)
    || is_staged (lowest (filter (is_version entry) staged))

-- The same, in the words of the loop.
abbrev current : List StagingEntry → CatalogEntry → Option StagingEntry
current staged entry = head? (filter (λ s. describes s entry) (group_by_path staged entry.path))

abbrev is_settled : List StagingEntry → Map DevicePath DeviceFileRow → CatalogEntry → Bool
is_settled staged imported entry =
    is_imported (lookup entry.path imported) entry || is_staged (current staged entry)

abbrev one_if : {A : Type 0} → Bool → A → List A
one_if settled x = if settled then [] else x ∷ []

map-append : {A B : Type 0} (f : A → B) (xs ys : List A) → map f (xs ++ ys) ≡ map f xs ++ map f ys
map-append f [] ys = refl
map-append f (x ∷ xs) ys = ap (λ zs. f x ∷ zs) (map-append f xs ys)

send_entry-versions :
    (entry : CatalogEntry) (resume : Option StagingEntry) (ids : FileIds) (into : Classification)
    → versions (send_entry entry resume ids into).0 ≡ versions into ++ version_of entry ∷ []
unfolding send_entry planned_send push_send
send_entry-versions entry none ids into = map-append version_sent into.to_send _
send_entry-versions entry (some staged) ids into = map-append version_sent into.to_send _

classify_entry-versions :
    (entry : CatalogEntry) (here : Option StagingEntry) (resumable : Set FileId) (ids : FileIds)
    (into : Classification)
    → versions (classify_entry entry here resumable ids into).0
      ≡ versions into ++ one_if (is_staged here) (version_of entry)
unfolding classify_entry is_verified
classify_entry-versions entry none resumable ids into = send_entry-versions entry none ids into
classify_entry-versions entry (some staged) resumable ids into =
    elim (Bool-cases (is_some staged.digest)) [
      | inl v ↦ rw (classify_entry, v) (sym (append-nil (versions into)))
      | inr f ↦ elim (Bool-cases (contains staged.file resumable)) [
        | inl t ↦ rw (classify_entry, f, t) (send_entry-versions entry (some staged) ids into)
        | inr g ↦
            rw (classify_entry, f, g)
              (send_entry-versions entry none ids
                (record into { superseded = into.superseded ++ staged.file ∷ [] }))
      ]
    ]

classify_one-versions :
    (staged : List StagingEntry) (imported : Map DevicePath DeviceFileRow) (resumable : Set FileId)
    (entry : CatalogEntry) (ids : FileIds) (into : Classification)
    → versions (classify_one staged imported resumable entry ids into).0
      ≡ versions into ++ one_if (is_settled staged imported entry) (version_of entry)
unfolding classify_one
classify_one-versions staged imported resumable entry ids into =
    elim (Bool-cases (is_imported (lookup entry.path imported) entry)) [
      | inl t ↦ rw (classify_one, t) (sym (append-nil (versions into)))
      | inr f ↦
          rw (classify_one, f)
            (classify_entry-versions entry (current staged entry) resumable ids (record into {
              superseded =
                  into.superseded
                  ++ map (λ s. s.file)
                      (filter (λ s. not (describes s entry)) (group_by_path staged entry.path));
            }))
    ]

abbrev unsettled :
    List StagingEntry → Map DevicePath DeviceFileRow → List CatalogEntry → List Version
unsettled staged imported entries =
    map version_of (filter (λ entry. not (is_settled staged imported entry)) entries)

unsettled-cons :
    (staged : List StagingEntry) (imported : Map DevicePath DeviceFileRow) (entry : CatalogEntry)
    (entries : List CatalogEntry)
    → unsettled staged imported (entry ∷ entries)
      ≡ one_if (is_settled staged imported entry) (version_of entry)
        ++ unsettled staged imported entries
unsettled-cons staged imported entry entries =
    elim (Bool-cases (is_settled staged imported entry)) [ inl t ↦ rw t refl | inr f ↦ rw f refl ]

classify_loop-versions :
    (staged : List StagingEntry) (imported : Map DevicePath DeviceFileRow) (resumable : Set FileId)
    (entries : List CatalogEntry) (ids : FileIds) (into : Classification)
    → versions (classify_loop staged imported resumable entries ids into).0
      ≡ versions into ++ unsettled staged imported entries
unfolding classify_loop
classify_loop-versions staged imported resumable [] ids into = sym (append-nil (versions into))
classify_loop-versions staged imported resumable (entry ∷ entries) ids into =
    let r = classify_one staged imported resumable entry ids into in
    let own = one_if (is_settled staged imported entry) (version_of entry) in
    classify_loop-versions staged imported resumable entries r.1 r.0
    ∙ (ap (λ v. v ++ unsettled staged imported entries)
          (classify_one-versions staged imported resumable entry ids into)
        ∙ (append_assoc (versions into) own (unsettled staged imported entries)
            ∙ ap (λ v. versions into ++ v) (sym (unsettled-cons staged imported entry entries))))

filter-filter :
    (p q : StagingEntry → Bool) (xs : List StagingEntry)
    → filter p (filter q xs) ≡ filter (λ x. q x && p x) xs
filter-filter p q [] = refl
filter-filter p q (x ∷ xs) = ground (arith, filter-filter p q xs)

current-lowest :
    (staged : List StagingEntry) (entry : CatalogEntry)
    → current staged entry ≡ lowest (filter (is_version entry) staged)
unfolding group_by_path describes
current-lowest staged entry =
    head-sort_by_file (λ s. describes s entry) (filter (λ s. s.path == entry.path) staged)
    ∙ ap lowest (filter-filter (λ s. describes s entry) (λ s. s.path == entry.path) staged)

abbrev by_path : List DeviceFileRow → Map DevicePath DeviceFileRow
by_path rows = collect (map (λ row. (row.path, row)) rows)

abbrev latest : Option DeviceFileRow → Option DeviceFileRow → Option DeviceFileRow
latest none earlier = earlier
latest (some row) earlier = some row

lookup-rows_onto :
    (path : DevicePath) (rows : List DeviceFileRow) (m : Map DevicePath DeviceFileRow)
    → lookup path (collect_onto (map (λ row. (row.path, row)) rows) m)
      ≡ latest (last_row path rows) (lookup path m)
unfolding collect_onto
lookup-rows_onto path [] m = refl
lookup-rows_onto path (row ∷ rows) m =
    lookup-rows_onto path rows (insert row.path row m)
    ∙ ground (arith, lookup-insert row.path path row m)

lookup-by_path :
    (path : DevicePath) (rows : List DeviceFileRow)
    → lookup path (by_path rows) ≡ last_row path rows
unfolding collect lookup
lookup-by_path path rows = lookup-rows_onto path rows [] ∙ ground arith

is_imported-recorded :
    (row : Option DeviceFileRow) (entry : CatalogEntry)
    → is_imported row entry ≡ is_recorded entry row
unfolding is_imported
is_imported-recorded none entry = refl
is_imported-recorded (some row) entry = refl

is_settled-had :
    (staged : List StagingEntry) (rows : List DeviceFileRow) (entry : CatalogEntry)
    → is_settled staged (by_path rows) entry ≡ is_had staged rows entry
is_settled-had staged rows entry =
    ap (λ found. found || is_staged (current staged entry))
      (ap (λ row. is_imported row entry) (lookup-by_path entry.path rows)
        ∙ is_imported-recorded (last_row entry.path rows) entry)
    ∙ ap (λ s. is_recorded entry (last_row entry.path rows) || is_staged s)
        (current-lowest staged entry)

-- The versions of a catalog that the desktop does not have, in the catalog's order.
abbrev pub lacking : List StagingEntry → List DeviceFileRow → List CatalogEntry → List Version
lacking staged rows [] = []
lacking staged rows (entry ∷ entries) =
    if is_had staged rows entry
    then lacking staged rows entries
    else version_of entry ∷ lacking staged rows entries

unsettled-lacking :
    (staged : List StagingEntry) (rows : List DeviceFileRow) (entries : List CatalogEntry)
    → unsettled staged (by_path rows) entries ≡ lacking staged rows entries
unsettled-lacking staged rows [] = refl
unsettled-lacking staged rows (entry ∷ entries) =
    ground (arith, is_settled-had staged rows entry, unsettled-lacking staged rows entries)

-- The phone is asked for exactly the versions of its catalog that the desktop does not have, once
-- for each entry of the catalog and in its order. A version is had where the last row of the
-- index with its path has its size and time, or where the staging entry with its path, size and
-- time that has the lowest identifier is verified.
pub classify-versions :
    (catalog : Catalog) (staged : List StagingEntry) (rows : List DeviceFileRow)
    (resumable : Set FileId) (ids : FileIds)
    → versions (classify catalog staged rows resumable ids).0 ≡ lacking staged rows catalog.entries
unfolding classify
classify-versions catalog staged rows resumable ids =
    classify_loop-versions staged (by_path rows) resumable catalog.entries ids _
    ∙ unsettled-lacking staged rows catalog.entries
