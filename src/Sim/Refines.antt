-- ===== src/Sim/Refines.antt =====
-- desktop/crates/core/src/commit.rs against desktop/crates/model/src/lib.rs: the index that a commit
-- leaves is the one that the oracle works out.
use photo_sync.Prelude.{
  List, [], ◌∷◌, ◌++◌, filter_map, Option, none, some, ◌≡◌, refl, sym, ap, ◌∙◌, subst, arith,
  list_ord, nat_ord, pair_ord, eq_iff, All, if◌then◌else◌,
}
use photo_sync.Prelude.Map.{Map, add, contains, insert, lookup, lookup-insert, remove}
use photo_sync.Id.{DeviceId, Sha256, VaultName}
use photo_sync.Store.{ContentRow, DeviceFileRow, PlanAction, StagingEntry, StoreRequest}
use photo_sync.Commit.{
  Building, Inputs, count_duplicate, count_import, drop_entry, in_arrival_order, name_of, no_plan,
  plan, plan_entry, plan_loop, plan_present, push_entry, row_of,
}
use photo_sync.Commit.Cases.{fresh_name, plan_entry_cases, plan_present_cases}
use photo_sync.Oracle.{
  Expected, FileKey, Model, Recorded, Staged, commit_each, expect_staged, recorded_of,
}
use photo_sync.Sim.Agree.{row_recorded}
use photo_sync.Sim.Store.{Store, change, insert_batch, insert_contents, insert_rows}

-- What the oracle saw arrive, of an entry whose file is there.
abbrev pub staged_of : StagingEntry → Sha256 → Staged
staged_of entry digest = record {
  path = entry.path;
  digest = digest;
  size = entry.size;
  mtime = entry.mtime;
}

abbrev pub arrived : Inputs → StagingEntry → Option Staged
arrived inputs entry = elim entry.digest [
  | none ↦ none
  | some digest ↦ if contains entry.file inputs.missing then none else some (staged_of entry digest)
]

abbrev pub batch_of : Inputs → List Staged
batch_of inputs = filter_map (arrived inputs) (in_arrival_order inputs.entries)

abbrev pub found_row : Option DeviceFileRow → Option Recorded
found_row none = none
found_row (some row) = some (row_recorded row)

-- The index holds what the oracle expects of it: the same contents, and a row for the same files
-- with the same digest, size and time.
pub record IsIndexOf (e : Expected) (s : Store) : Type 0 where
  pub rows : (key : FileKey) → found_row (lookup key s.device_files) ≡ lookup key e.device_files
  pub contents : (digest : Sha256) → contains digest s.content ≡ contains digest e.content

insert_contents-snoc :
    (rows : List ContentRow) (row : ContentRow) (m : Map Sha256 VaultName)
    → insert_contents (rows ++ row ∷ []) m
      ≡ insert row.digest row.vault_name (insert_contents rows m)
unfolding insert_contents
insert_contents-snoc [] row m = refl
insert_contents-snoc (r ∷ rows) row m =
    insert_contents-snoc rows row (insert r.digest r.vault_name m)

insert_rows-snoc :
    (rows : List DeviceFileRow) (row : DeviceFileRow) (m : Map FileKey DeviceFileRow)
    → insert_rows (rows ++ row ∷ []) m ≡ insert (row.device, row.path) row (insert_rows rows m)
unfolding insert_rows
insert_rows-snoc [] row m = refl
insert_rows-snoc (r ∷ rows) row m = insert_rows-snoc rows row (insert (r.device, r.path) r m)

-- A row put in the table and an expectation of it.
row-expected :
    (key other : FileKey) (row : DeviceFileRow) (r : Recorded) (m : Map FileKey DeviceFileRow)
    (e : Map FileKey Recorded)
    → row_recorded row ≡ r
    → found_row (lookup other m) ≡ lookup other e
    → found_row (lookup other (insert key row m)) ≡ lookup other (insert key r e)
row-expected key other row r m e same h =
    ground (arith, lookup-insert key other row m, lookup-insert key other r e, eq_iff key other)

-- The loop of `plan` and the oracle in step: the store with the rows so far, and what is assigned
-- to the contents of the batch.
pub record InStep (s : Store) (InBatch : Sha256 → Type 0) (b : Building) (e : Expected)
    : Type 0 where
  pub index : IsIndexOf e (insert_batch b.plan.contents b.plan.device_files s)
  pub assigned :
      (digest : Sha256) → InBatch digest → contains digest b.assigned ≡ contains digest e.content

module _ (inputs : Inputs) (s : Store) (InBatch : Sha256 → Type 0) where
  import-InStep :
      (entry : StagingEntry) (digest : Sha256) (name : VaultName) (b : Building) (e : Expected)
      → InStep s InBatch b e
      → InStep s InBatch
          (push_entry inputs entry digest
            (PlanAction.import name)
            (count_import entry digest name b))
          (expect_staged inputs.device (staged_of entry digest) e)
  unfolding push_entry count_import expect_staged insert_batch recorded_of row_recorded contains
      name_of add
  import-InStep entry digest name b e h = record {
    index = record {
      rows = λ key. ground (
        arith,
        insert_rows-snoc b.plan.device_files
            (row_of inputs.device entry digest name inputs.imported_at.at) s.device_files,
        row-expected (inputs.device, entry.path) key
            (row_of inputs.device entry digest name inputs.imported_at.at)
            (recorded_of (staged_of entry digest)) (insert_rows b.plan.device_files s.device_files)
            e.device_files refl (h.index.rows key),
      );
      contents = λ d. ground (
        arith,
        insert_contents-snoc b.plan.contents (record { digest = digest; vault_name = name })
            s.content,
        lookup-insert digest d name (insert_contents b.plan.contents s.content),
        lookup-insert digest d tt e.content,
        h.index.contents d,
      );
    };
    assigned = λ d k. ground (
      arith,
      lookup-insert digest d name b.assigned,
      lookup-insert digest d tt e.content,
      h.assigned d k,
    );
  }

  duplicate-InStep :
      (entry : StagingEntry) (digest : Sha256) (name : VaultName) (b : Building) (e : Expected)
      → InBatch digest
      → lookup digest b.assigned ≡ some name
      → InStep s InBatch b e
      → InStep s InBatch
          (push_entry inputs entry digest (PlanAction.duplicate name) (count_duplicate b))
          (expect_staged inputs.device (staged_of entry digest) e)
  unfolding push_entry count_duplicate expect_staged insert_batch recorded_of row_recorded contains
      name_of add
  duplicate-InStep entry digest name b e inside old h = record {
    index = record {
      rows = λ key. ground (
        arith,
        insert_rows-snoc b.plan.device_files
            (row_of inputs.device entry digest name inputs.imported_at.at) s.device_files,
        row-expected (inputs.device, entry.path) key
            (row_of inputs.device entry digest name inputs.imported_at.at)
            (recorded_of (staged_of entry digest)) (insert_rows b.plan.device_files s.device_files)
            e.device_files refl (h.index.rows key),
      );
      contents = λ d. ground (
        arith,
        old,
        h.assigned digest inside,
        lookup-insert digest d tt e.content,
        eq_iff digest d,
        h.index.contents d,
      );
    };
    assigned = λ d k. ground (
      arith,
      old,
      h.assigned digest inside,
      lookup-insert digest d tt e.content,
      eq_iff digest d,
      h.assigned d k,
    );
  }

-- What the oracle expects after a batch, by its entries.
abbrev expect_each : DeviceId → List Staged → Expected → Expected
expect_each device [] e = e
expect_each device (staged ∷ batch) e = expect_each device batch (expect_staged device staged e)

commit_each-expected :
    (device : DeviceId) (batch : List Staged) (m : Model)
    → (commit_each device batch m).expected ≡ expect_each device batch m.expected
unfolding commit_each
commit_each-expected device [] m = refl
commit_each-expected device (staged ∷ batch) m = commit_each-expected device batch (record m {
  partials = remove (device, staged.path) m.partials;
  expected = expect_staged device staged m.expected;
})

abbrev expect_arrived : DeviceId → Option Staged → Expected → Expected
expect_arrived device none e = e
expect_arrived device (some staged) e = expect_staged device staged e

expect_each-arrived :
    (inputs : Inputs) (entry : StagingEntry) (entries : List StagingEntry) (e : Expected)
    → expect_each inputs.device (filter_map (arrived inputs) (entry ∷ entries)) e
      ≡ expect_each inputs.device
          (filter_map (arrived inputs) entries)
          (expect_arrived inputs.device (arrived inputs entry) e)
expect_each-arrived inputs entry entries e = by_arrival (arrived inputs entry)
  where
    rest : List Staged
    rest = filter_map (arrived inputs) entries

    by_arrival :
        (found : Option Staged)
        → expect_each inputs.device (elim found [ none ↦ rest | some y ↦ y ∷ rest ]) e
          ≡ expect_each inputs.device rest (expect_arrived inputs.device found e)
    by_arrival none = refl
    by_arrival (some staged) = refl

module _ (inputs : Inputs) (s : Store) (InBatch : Sha256 → Type 0) where
  plan_present-InStep :
      (entry : StagingEntry) (digest : Sha256) (b : Building) (e : Expected)
      → InBatch digest
      → InStep s InBatch b e
      → InStep s InBatch
          (plan_present inputs entry digest b)
          (expect_staged inputs.device (staged_of entry digest) e)
  plan_present-InStep entry digest b e inside h =
      plan_present_cases inputs entry b
        (λ c. InStep s InBatch c (expect_staged inputs.device (staged_of entry digest) e)) digest
        (λ _. import-InStep inputs s InBatch entry digest (fresh_name inputs entry b) b e h)
        (λ name old. duplicate-InStep inputs s InBatch entry digest name b e inside old h)

  plan_entry-InStep :
      (entry : StagingEntry) (b : Building) (e : Expected)
      → ((digest : Sha256) → entry.digest ≡ some digest → InBatch digest)
      → InStep s InBatch b e
      → InStep s InBatch
          (plan_entry inputs entry b)
          (expect_arrived inputs.device (arrived inputs entry) e)
  unfolding drop_entry
  plan_entry-InStep entry b e inside h =
      plan_entry_cases inputs entry b
        (λ c. InStep s InBatch c (expect_arrived inputs.device (arrived inputs entry) e))
        (λ none_yet.
          let nothing : arrived inputs entry ≡ none = ground arith in
          subst (λ x. InStep s InBatch b (expect_arrived inputs.device x e)) (sym nothing) h)
        (λ digest known gone.
          let nothing : arrived inputs entry ≡ none = ground arith in
          subst (λ x. InStep s InBatch (drop_entry entry b) (expect_arrived inputs.device x e))
            (sym nothing)
            (record {
              index = record { rows = h.index.rows; contents = h.index.contents };
              assigned = h.assigned;
            }))
        (λ digest known there.
          let something : arrived inputs entry ≡ some (staged_of entry digest) = ground arith in
          subst
            (λ x.
              InStep s InBatch (plan_present inputs entry digest b)
                (expect_arrived inputs.device x e))
            (sym something) (plan_present-InStep entry digest b e (inside digest known) h))

  plan_loop-InStep :
      (entries : List StagingEntry) (b : Building) (e : Expected)
      → All
          (λ (x : StagingEntry). (digest : Sha256) → x.digest ≡ some digest → InBatch digest)
          entries
      → InStep s InBatch b e
      → InStep s InBatch
          (plan_loop inputs entries b)
          (expect_each inputs.device (filter_map (arrived inputs) entries) e)
  unfolding plan_loop
  plan_loop-InStep [] b e inside h = h
  plan_loop-InStep (entry ∷ entries) b e inside h =
      subst (InStep s InBatch (plan_loop inputs entries (plan_entry inputs entry b)))
        (sym (expect_each-arrived inputs entry entries e))
        (plan_loop-InStep entries (plan_entry inputs entry b)
          (expect_arrived inputs.device (arrived inputs entry) e) inside.1
          (plan_entry-InStep entry b e inside.0 h))

-- Where the index holds what the oracle expects, and the plan was told of the batch's contents what
-- the index knows of them, inserting the plan's rows leaves the index with what the oracle expects
-- after it commits the batch of the files that arrived: the same contents are known, and the same
-- files have a row, with the same digest, size and time.
pub commit-IsIndexOf :
    (inputs : Inputs) (s : Store) (m : Model)
    → IsIndexOf m.expected s
    → All
        (λ (x : StagingEntry).
          (digest : Sha256)
          → x.digest ≡ some digest
          → contains digest inputs.known_content ≡ contains digest s.content)
        (in_arrival_order inputs.entries)
    → IsIndexOf (commit_each inputs.device (batch_of inputs) m).expected (
        change
          (StoreRequest.insert_committed_batch (plan inputs).contents (plan inputs).device_files)
          s)
unfolding plan change insert_batch insert_contents insert_rows
commit-IsIndexOf inputs s m h told =
    let start : Building = record {
      plan = no_plan;
      assigned = inputs.known_content;
      taken = inputs.taken_names;
    } in
    let entries = in_arrival_order inputs.entries in
    let step =
      plan_loop-InStep inputs s
        (λ digest. contains digest inputs.known_content ≡ contains digest s.content) entries start
        m.expected told
        (record {
          index = record { rows = h.rows; contents = h.contents };
          assigned = λ digest known. known ∙ h.contents digest;
        }) in
    let result = sym (commit_each-expected inputs.device (batch_of inputs) m) in
    record {
      rows = λ key. step.index.rows key ∙ ap (λ (x : Expected). lookup key x.device_files) result;
      contents = λ digest.
          step.index.contents digest ∙ ap (λ (x : Expected). contains digest x.content) result;
    }
