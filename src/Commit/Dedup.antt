-- ===== src/Commit/Dedup.antt =====
-- desktop/crates/core/src/commit.rs: deduplication. Content has one name, and a name one content.
use photo_sync.Prelude.{
  List, [], ◌∷◌, none, some, ◌≡◌, All, All-append, All-map, nat_ord, list_ord, eq_iff, arith,
}
use photo_sync.Prelude.Map.{Map, lookup, insert, lookup-insert}
use photo_sync.Id.{Sha256, VaultName}
use photo_sync.Store.{DeviceFileRow, PlanAction, StagingEntry}
use photo_sync.Commit.Cases.{fresh_name, plan_entry_cases, plan_present_cases}
use photo_sync.Commit.{
  Building, Inputs, count_duplicate, count_import, drop_entry, in_arrival_order, name_of, no_plan,
  plan, plan_entry, plan_loop, plan_present, push_entry,
}

-- A row names the content's vault copy, by what is assigned.
abbrev pub Named : Map Sha256 VaultName → DeviceFileRow → Type 0
Named assigned row = lookup row.digest assigned ≡ some row.vault_name

-- One map knows all that another knows.
pub record Extends (before after : Map Sha256 VaultName) : Type 0 where
  pub kept :
      (digest : Sha256) (name : VaultName)
      → lookup digest before ≡ some name
      → lookup digest after ≡ some name

-- What a round keeps: every row names what is assigned to its content.
pub record IsNamed (known : Map Sha256 VaultName) (b : Building) : Type 0 where
  pub extends : Extends known b.assigned
  pub rows : All (Named b.assigned) b.plan.device_files

insert-Extends :
    (digest : Sha256) (name : VaultName) (m : Map Sha256 VaultName)
    → lookup digest m ≡ none
    → Extends m (insert digest name m)
insert-Extends digest name m new = record {
  kept = λ d n e. ground (arith, lookup-insert digest d name m, eq_iff digest d);
}

Extends-trans : {a b c : Map Sha256 VaultName} → Extends a b → Extends b c → Extends a c
Extends-trans x y = record { kept = λ d n e. y.kept d n (x.kept d n e) }

module _ (inputs : Inputs) (known : Map Sha256 VaultName) where
  push_entry-IsNamed :
      (entry : StagingEntry) (digest : Sha256) (action : PlanAction) (b : Building)
      → IsNamed known b
      → lookup digest b.assigned ≡ some (name_of action)
      → IsNamed known (push_entry inputs entry digest action b)
  unfolding push_entry
  push_entry-IsNamed entry digest action b h named = record {
    extends = h.extends;
    rows = All-append (Named b.assigned) _ _ h.rows (named, tt);
  }

  count_import-IsNamed :
      (entry : StagingEntry) (digest : Sha256) (name : VaultName) (b : Building)
      → lookup digest b.assigned ≡ none
      → IsNamed known b
      → IsNamed known (count_import entry digest name b)
  unfolding count_import
  count_import-IsNamed entry digest name b new h =
      let grows = insert-Extends digest name b.assigned new in
      record {
        extends = Extends-trans h.extends grows;
        rows = All-map _ _ (λ row e. grows.kept row.digest row.vault_name e) _ h.rows;
      }

  plan_present-IsNamed :
      (entry : StagingEntry) (digest : Sha256) (b : Building)
      → IsNamed known b
      → IsNamed known (plan_present inputs entry digest b)
  unfolding count_duplicate count_import name_of
  plan_present-IsNamed entry digest b h =
      plan_present_cases inputs entry b (IsNamed known) digest
        (λ new. push_entry-IsNamed entry digest _ _ (count_import-IsNamed entry digest _ b new h) (
          ground (
            arith,
            lookup-insert digest digest (fresh_name inputs entry b) b.assigned,
            eq_iff digest digest,
          )))
        (λ name old.
          push_entry-IsNamed entry digest _ _ (record { extends = h.extends; rows = h.rows }) old)

  plan_entry-IsNamed :
      (entry : StagingEntry) (b : Building)
      → IsNamed known b
      → IsNamed known (plan_entry inputs entry b)
  unfolding drop_entry
  plan_entry-IsNamed entry b h =
      plan_entry_cases inputs entry b (IsNamed known) (λ _. h)
        (λ digest _ _. record { extends = h.extends; rows = h.rows })
        (λ digest _ _. plan_present-IsNamed entry digest b h)

  plan_loop-IsNamed :
      (entries : List StagingEntry) (b : Building)
      → IsNamed known b
      → IsNamed known (plan_loop inputs entries b)
  unfolding plan_loop
  plan_loop-IsNamed [] b h = h
  plan_loop-IsNamed (entry ∷ entries) b h =
      plan_loop-IsNamed entries (plan_entry inputs entry b) (plan_entry-IsNamed entry b h)

pub plan_one_name :
    (inputs : Inputs)
    → (assigned : Map Sha256 VaultName) × Extends inputs.known_content assigned
      × All (Named assigned) (plan inputs).device_files
unfolding plan
plan_one_name inputs =
    let start : Building = record {
      plan = no_plan;
      assigned = inputs.known_content;
      taken = inputs.taken_names;
    } in
    let h =
      plan_loop-IsNamed inputs inputs.known_content (in_arrival_order inputs.entries) start
        (record { extends = record { kept = λ d n e. e }; rows = tt }) in
    ((plan_loop inputs (in_arrival_order inputs.entries) start).assigned, h.extends, h.rows)
