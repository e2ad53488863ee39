-- ===== src/Commit/Files.antt =====
-- desktop/crates/core/src/commit.rs: the files of a plan, each of them once.
use photo_sync.Prelude.{
  List, [], ◌∷◌, map, ◌≢◌, sym, subst, All, AllDifferent, AllDifferent-filter, inl, inr, Bool-cases,
  leb, filter,
}
use photo_sync.Id.{FileId}
use photo_sync.Session.Classify.{insert_by_file, sort_by_file}
use photo_sync.Store.{PlanEntry, StagingEntry, is_verified}
use photo_sync.Commit.{Inputs, in_arrival_order, plan}
use photo_sync.Commit.Rows.{is_present, plan-Covers}

abbrev pub staged_files : List StagingEntry → List FileId
staged_files = map (λ (e : StagingEntry). e.file)

insert-All :
    (file : FileId) (entry : StagingEntry) (xs : List StagingEntry)
    → file ≢ entry.file
    → All (λ f. file ≢ f) (staged_files xs)
    → All (λ f. file ≢ f) (staged_files (insert_by_file entry xs))
unfolding insert_by_file
insert-All file entry [] n h = (n, tt)
insert-All file entry (x ∷ xs) n h = elim (Bool-cases (leb entry.file x.file)) [
  | inl e ↦ rw e (n, h)
  | inr e ↦ rw e (h.0, insert-All file entry xs n h.1)
]

insert-AllDifferent :
    (entry : StagingEntry) (xs : List StagingEntry)
    → All (λ f. entry.file ≢ f) (staged_files xs)
    → AllDifferent (staged_files xs)
    → AllDifferent (staged_files (insert_by_file entry xs))
unfolding insert_by_file
insert-AllDifferent entry [] n h = (tt, tt)
insert-AllDifferent entry (x ∷ xs) n h = elim (Bool-cases (leb entry.file x.file)) [
  | inl e ↦ rw e (n, h)
  | inr e ↦ rw e (
    insert-All x.file entry xs (λ same. n.0 (sym same)) h.0,
    insert-AllDifferent entry xs n.1 h.1,
  )
]

sort-All :
    (file : FileId) (xs : List StagingEntry)
    → All (λ f. file ≢ f) (staged_files xs)
    → All (λ f. file ≢ f) (staged_files (sort_by_file xs))
unfolding sort_by_file
sort-All file [] h = tt
sort-All file (x ∷ xs) h = insert-All file x (sort_by_file xs) h.0 (sort-All file xs h.1)

pub sort-AllDifferent :
    (xs : List StagingEntry)
    → AllDifferent (staged_files xs)
    → AllDifferent (staged_files (sort_by_file xs))
unfolding sort_by_file
sort-AllDifferent [] h = tt
sort-AllDifferent (x ∷ xs) h =
    insert-AllDifferent x (sort_by_file xs) (sort-All x.file xs h.0) (sort-AllDifferent xs h.1)

-- A manifest that has a file once gives a plan that has it once.
pub plan_files-AllDifferent :
    (inputs : Inputs)
    → AllDifferent (staged_files inputs.entries)
    → AllDifferent (map (λ (e : PlanEntry). e.file) (plan inputs).entries)
unfolding in_arrival_order
plan_files-AllDifferent inputs h = subst AllDifferent (sym (plan-Covers inputs).files) (
    AllDifferent-filter _ (is_present inputs) (in_arrival_order inputs.entries) (
      sort-AllDifferent (filter is_verified inputs.entries)
        (AllDifferent-filter _ is_verified inputs.entries h)))
