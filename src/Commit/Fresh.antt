-- ===== src/Commit/Fresh.antt =====
-- desktop/crates/core/src/commit.rs: the vault names that a plan gives out.
use photo_sync.Prelude.{
  ◌+◌, ◌^◌, ◌≤◌, ◌<◌, List, [], ◌∷◌, length, Option, none, some, true, false, ◌≡◌, ◌≢◌, sym, ap,
  ◌∙◌, subst, All, All-append, All-map, AllDifferent, filter_map, nat_ord, list_ord, eq_refl, suc,
  append-nil, arith, filter_map-append, AllDifferent-snoc,
}
use photo_sync.Prelude.Map.{Set, add, contains, contains-add, length-add}
use photo_sync.Id.{Sha256, VaultName}
use photo_sync.Naming.Free.{assign_free}
use photo_sync.Store.{PlanAction, PlanEntry, StagingEntry}
use photo_sync.Commit.Cases.{fresh_name, plan_entry_cases, plan_present_cases}
use photo_sync.Commit.{
  Building, Inputs, count_duplicate, count_import, drop_entry, in_arrival_order, no_plan, plan,
  plan_entry, plan_loop, push_entry,
}

-- The name that an entry imports its file under.
abbrev pub imported_as : PlanAction → Option VaultName
imported_as (PlanAction.import name) = some name
imported_as (PlanAction.duplicate name) = none

abbrev pub import_names : List PlanEntry → List VaultName
import_names entries = filter_map (λ (e : PlanEntry). imported_as e.action) entries

-- The names given out so far are all different, reserved, and were free before.
pub record IsFresh (taken : Set VaultName) (b : Building) : Type 0 where
  pub apart : AllDifferent (import_names b.plan.entries)
  pub reserved : All (λ n. contains n b.taken ≡ true) (import_names b.plan.entries)
  pub free : All (λ n. contains n taken ≡ false) (import_names b.plan.entries)
  pub grows : (n : VaultName) → contains n taken ≡ true → contains n b.taken ≡ true

module _ (inputs : Inputs) where
  push_duplicate-IsFresh :
      (entry : StagingEntry) (digest : Sha256) (name : VaultName) (b : Building)
      → IsFresh inputs.taken_names b
      → IsFresh inputs.taken_names
          (push_entry inputs entry digest (PlanAction.duplicate name) (count_duplicate b))
  unfolding push_entry count_duplicate
  push_duplicate-IsFresh entry digest name b h =
      let same = sym (
        filter_map-append (λ (e : PlanEntry). imported_as e.action) b.plan.entries _
        ∙ append-nil (import_names b.plan.entries)) in
      record {
        apart = subst AllDifferent same h.apart;
        reserved = subst (All (λ n. contains n b.taken ≡ true)) same h.reserved;
        free = subst (All (λ n. contains n inputs.taken_names ≡ false)) same h.free;
        grows = h.grows;
      }

  push_import-IsFresh :
      (entry : StagingEntry) (digest : Sha256) (name : VaultName) (b : Building)
      → contains name b.taken ≡ false
      → IsFresh inputs.taken_names b
      → IsFresh inputs.taken_names (
          push_entry inputs entry digest
            (PlanAction.import name)
            (count_import entry digest name b))
  unfolding push_entry count_import
  push_import-IsFresh entry digest name b new h =
      let names = import_names b.plan.entries in
      let differs : All (λ n. n ≢ name) names =
        All-map _ _ (λ n r e. ground (arith, ap (λ x. contains x b.taken) e)) names h.reserved in
      let grows : (n : VaultName)
          → contains n b.taken ≡ true
          → contains n (add name b.taken) ≡ true =
        λ n r. ground (arith, contains-add name n b.taken) in
      let itself : contains name (add name b.taken) ≡ true =
        ground (arith, contains-add name name b.taken, eq_refl name) in
      let unused : contains name inputs.taken_names ≡ false = ground (arith, h.grows name) in
      let same =
        sym (filter_map-append (λ (e : PlanEntry). imported_as e.action) b.plan.entries _) in
      record {
        apart = subst AllDifferent same (AllDifferent-snoc names name h.apart differs);
        reserved =
            subst (All (λ n. contains n (add name b.taken) ≡ true)) same
              (All-append _ names (name ∷ []) (All-map _ _ grows names h.reserved) (itself, tt));
        free =
            subst (All (λ n. contains n inputs.taken_names ≡ false)) same
              (All-append _ names (name ∷ []) h.free (unused, tt));
        grows = λ n r. grows n (h.grows n r);
      }

  -- What a round does to the names: they stay fresh, and at most one more is taken.
  plan_entry-IsFresh :
      (entry : StagingEntry) (b : Building)
      → length b.taken + 1 < 2 ^ 32
      → IsFresh inputs.taken_names b
      → IsFresh inputs.taken_names (plan_entry inputs entry b)
        × (length (plan_entry inputs entry b).taken ≤ suc (length b.taken))
  unfolding drop_entry push_entry count_duplicate count_import
  plan_entry-IsFresh entry b few h =
      let P : Building → Type 0 =
        λ c. IsFresh inputs.taken_names c × (length c.taken ≤ suc (length b.taken)) in
      plan_entry_cases inputs entry b P (λ _. (h, omega arith))
        (λ digest _ _. (
          record { apart = h.apart; reserved = h.reserved; free = h.free; grows = h.grows },
          omega arith,
        ))
        (λ digest _ _.
          plan_present_cases inputs entry b P digest
            (λ _. (
              push_import-IsFresh entry digest (fresh_name inputs entry b) b
                  (assign_free entry.name_sources inputs.imported_at.local entry.path b.taken few)
                  h,
              length-add (fresh_name inputs entry b) b.taken,
            ))
            (λ name _. (push_duplicate-IsFresh entry digest name b h, omega arith)))

  plan_loop-IsFresh :
      (entries : List StagingEntry) (b : Building)
      → length b.taken + length entries < 2 ^ 32
      → IsFresh inputs.taken_names b
      → IsFresh inputs.taken_names (plan_loop inputs entries b)
  unfolding plan_loop
  plan_loop-IsFresh [] b few h = h
  plan_loop-IsFresh (entry ∷ entries) b few h =
      let (fresh, grown) = plan_entry-IsFresh entry b (omega (arith, few)) h in
      plan_loop-IsFresh entries (plan_entry inputs entry b) (omega (arith, few, grown)) fresh

  -- The names that a plan imports files under are all different, and none of them is taken
  -- already, when the names taken and the verified files are fewer than a 32-bit suffix counts.
  pub plan-IsFresh :
      length inputs.taken_names + length (in_arrival_order inputs.entries) < 2 ^ 32
      → AllDifferent (import_names (plan inputs).entries)
        × All (λ n. contains n inputs.taken_names ≡ false) (import_names (plan inputs).entries)
  unfolding plan
  plan-IsFresh few =
      let start : Building = record {
        plan = no_plan;
        assigned = inputs.known_content;
        taken = inputs.taken_names;
      } in
      let h =
        plan_loop-IsFresh (in_arrival_order inputs.entries) start few
          (record { apart = tt; reserved = tt; free = tt; grows = λ n r. r }) in
      (h.apart, h.free)
