-- ===== src/Commit/Rows.antt =====
-- desktop/crates/core/src/commit.rs: which files a plan covers, and the rows it leaves for them.
use mathlib.Core.List.{append-nil, append_assoc, map-append}
use photo_sync.Prelude.{
  ℕ, List, [], ◌∷◌, ◌++◌, map, filter, Option, none, some, Bool, true, false, ◌&&◌, not, ◌≡◌, refl,
  sym, inl, inr, Bool-cases, is_some, nat_ord, list_ord, arith,
}
use photo_sync.Prelude.Map.{contains}
use photo_sync.Id.{DeviceId, DevicePath, FileId, Sha256, Timestamp}
use photo_sync.Store.{DeviceFileRow, PlanAction, PlanEntry, StagingEntry}
use photo_sync.Commit.Cases.{plan_entry_cases, plan_present_cases}
use photo_sync.Commit.{
  Building, Inputs, Plan, count_duplicate, count_import, drop_entry, in_arrival_order, no_plan,
  plan, plan_entry, plan_loop, plan_present, push_entry,
}

-- A verified entry is planned where its staged file is there, and dropped where it is not.
abbrev pub is_present : Inputs → StagingEntry → Bool
is_present inputs entry = is_some entry.digest && not (contains entry.file inputs.missing)

abbrev pub is_gone : Inputs → StagingEntry → Bool
is_gone inputs entry = is_some entry.digest && contains entry.file inputs.missing

abbrev pub file_of : StagingEntry → FileId
file_of entry = entry.file

abbrev pub planned_file : PlanEntry → FileId
planned_file entry = entry.file

-- What a row says of a file on a phone, and what an entry of the manifest says of it.
pub record Described : Type 0 where
  pub device : DeviceId
  pub path : DevicePath
  pub size : ℕ
  pub mtime : Timestamp
  pub digest : Option Sha256
  pub committed_at : Timestamp

abbrev pub row_describes : DeviceFileRow → Described
row_describes row = record {
  device = row.device;
  path = row.path;
  size = row.size;
  mtime = row.mtime;
  digest = some row.digest;
  committed_at = row.committed_at;
}

abbrev pub entry_describes : Inputs → StagingEntry → Described
entry_describes inputs entry = record {
  device = inputs.device;
  path = entry.path;
  size = entry.size;
  mtime = entry.mtime;
  digest = entry.digest;
  committed_at = inputs.imported_at.at;
}

pub record Covers (inputs : Inputs) (before : Plan) (entries : List StagingEntry) (after : Plan)
    : Type 0 where
  pub files :
      map planned_file after.entries
      ≡ map planned_file before.entries ++ map file_of (filter (is_present inputs) entries)
  pub rows :
      map row_describes after.device_files
      ≡ map row_describes before.device_files
        ++ map (entry_describes inputs) (filter (is_present inputs) entries)
  pub dropped : after.dropped ≡ before.dropped ++ map file_of (filter (is_gone inputs) entries)

filter_head {ℓ} :
    {A : Type ℓ} (p : A → Bool) (x : A) (xs : List A)
    → filter p (x ∷ xs) ≡ filter p (x ∷ []) ++ filter p xs
filter_head p x xs = elim (Bool-cases (p x)) [ inl e ↦ rw e refl | inr e ↦ rw e refl ]

module _ (inputs : Inputs) where
  is_present_lem :
      (entry : StagingEntry) {digest : Sha256}
      → entry.digest ≡ some digest
      → contains entry.file inputs.missing ≡ false
      → (is_present inputs entry ≡ true) × (is_gone inputs entry ≡ false)
  is_present_lem entry e there = ground arith

  -- A round adds to the plan's lists what it adds for its entry, whatever is counted before.
  push_counted-Covers :
      (entry : StagingEntry) (action : PlanAction) (b c : Building) {digest : Sha256}
      → entry.digest ≡ some digest
      → contains entry.file inputs.missing ≡ false
      → c.plan.entries ≡ b.plan.entries
      → c.plan.device_files ≡ b.plan.device_files
      → c.plan.dropped ≡ b.plan.dropped
      → Covers inputs b.plan (entry ∷ []) (push_entry inputs entry digest action c).plan
  unfolding push_entry
  push_counted-Covers entry action b c e there same_entries same_rows same_dropped =
      let (present, gone) = is_present_lem entry e there in
      record {
        files = rw (present, map-append, same_entries) refl;
        rows = rw (present, map-append, same_rows, e) refl;
        dropped = rw (gone, same_dropped) (sym (append-nil _));
      }

  plan_present-Covers :
      (entry : StagingEntry) (b : Building) (digest : Sha256)
      → entry.digest ≡ some digest
      → contains entry.file inputs.missing ≡ false
      → Covers inputs b.plan (entry ∷ []) (plan_present inputs entry digest b).plan
  unfolding count_import count_duplicate
  plan_present-Covers entry b digest e there =
      plan_present_cases inputs entry b (λ c. Covers inputs b.plan (entry ∷ []) c.plan) digest
        (λ _. push_counted-Covers entry _ b (count_import entry digest _ b) e there refl refl refl)
        (λ name _. push_counted-Covers entry _ b (count_duplicate b) e there refl refl refl)

  unverified-Covers :
      (entry : StagingEntry) (p : Plan) → entry.digest ≡ none → Covers inputs p (entry ∷ []) p
  unverified-Covers entry p e =
      let absent : is_present inputs entry ≡ false = ground arith in
      let kept : is_gone inputs entry ≡ false = ground arith in
      record {
        files = rw absent (sym (append-nil _));
        rows = rw absent (sym (append-nil _));
        dropped = rw kept (sym (append-nil _));
      }

  gone-Covers :
      (entry : StagingEntry) (b : Building) (digest : Sha256)
      → entry.digest ≡ some digest
      → contains entry.file inputs.missing ≡ true
      → Covers inputs b.plan (entry ∷ []) (drop_entry entry b).plan
  unfolding drop_entry
  gone-Covers entry b digest e m =
      let absent : is_present inputs entry ≡ false = ground arith in
      let gone : is_gone inputs entry ≡ true = ground arith in
      record {
        files = rw absent (sym (append-nil _));
        rows = rw absent (sym (append-nil _));
        dropped = rw gone refl;
      }

  plan_entry-Covers :
      (entry : StagingEntry) (b : Building)
      → Covers inputs b.plan (entry ∷ []) (plan_entry inputs entry b).plan
  plan_entry-Covers entry b =
      plan_entry_cases inputs entry b (λ c. Covers inputs b.plan (entry ∷ []) c.plan)
        (unverified-Covers entry b.plan) (gone-Covers entry b) (plan_present-Covers entry b)

  Covers-trans :
      {p q r : Plan} (x : StagingEntry) (xs : List StagingEntry)
      → Covers inputs p (x ∷ []) q
      → Covers inputs q xs r
      → Covers inputs p (x ∷ xs) r
  Covers-trans x xs c d = record {
    files =
        rw (d.files, c.files, filter_head (is_present inputs) x xs)
          (simp (map-append, append_assoc));
    rows =
        rw (d.rows, c.rows, filter_head (is_present inputs) x xs) (simp (map-append, append_assoc));
    dropped =
        rw (d.dropped, c.dropped, filter_head (is_gone inputs) x xs)
          (simp (map-append, append_assoc));
  }

  plan_loop-Covers :
      (entries : List StagingEntry) (b : Building)
      → Covers inputs b.plan entries (plan_loop inputs entries b).plan
  unfolding plan_loop
  plan_loop-Covers [] b = record {
    files = sym (append-nil _);
    rows = sym (append-nil _);
    dropped = sym (append-nil _);
  }
  plan_loop-Covers (entry ∷ entries) b =
      Covers-trans entry entries (plan_entry-Covers entry b)
        (plan_loop-Covers entries (plan_entry inputs entry b))

  pub plan-Covers : Covers inputs no_plan (in_arrival_order inputs.entries) (plan inputs)
  unfolding plan
  plan-Covers = plan_loop-Covers (in_arrival_order inputs.entries) _
