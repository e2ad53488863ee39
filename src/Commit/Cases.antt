-- ===== src/Commit/Cases.antt =====
-- desktop/crates/core/src/commit.rs: the branches of one round of `plan`, as rules for what holds
-- after it.
use photo_sync.Prelude.{
  none, some, true, false, ◌≡◌, inl, inr, Bool-cases, Option-cases, nat_ord, list_ord, arith,
}
use photo_sync.Prelude.Map.{lookup, contains}
use photo_sync.Id.{Sha256, VaultName}
use photo_sync.Naming.{assign}
use photo_sync.Store.{PlanAction, StagingEntry}
use photo_sync.Commit.{
  Building, Inputs, count_duplicate, count_import, drop_entry, plan_entry, plan_present, push_entry,
}

module _ (inputs : Inputs) (entry : StagingEntry) (b : Building) where
  plan_entry-none : entry.digest ≡ none → plan_entry inputs entry b ≡ b
  unfolding plan_entry
  plan_entry-none e = rw (e, plan_entry)

  plan_entry_gone :
      {digest : Sha256}
      → entry.digest ≡ some digest
      → contains entry.file inputs.missing ≡ true
      → plan_entry inputs entry b ≡ drop_entry entry b
  unfolding plan_entry
  plan_entry_gone e gone = ground arith

  plan_entry_present :
      {digest : Sha256}
      → entry.digest ≡ some digest
      → contains entry.file inputs.missing ≡ false
      → plan_entry inputs entry b ≡ plan_present inputs entry digest b
  unfolding plan_entry
  plan_entry_present e there = ground arith

  pub plan_entry_cases {ℓ} :
      (P : Building → Type ℓ)
      → (entry.digest ≡ none → P b)
      → ((digest : Sha256)
          → entry.digest ≡ some digest
          → contains entry.file inputs.missing ≡ true
          → P (drop_entry entry b))
      → ((digest : Sha256)
          → entry.digest ≡ some digest
          → contains entry.file inputs.missing ≡ false
          → P (plan_present inputs entry digest b))
      → P (plan_entry inputs entry b)
  plan_entry_cases P unverified gone present = elim (Option-cases entry.digest) [
    | inl e ↦ rw (plan_entry-none e) (unverified e)
    | inr (digest, e) ↦ elim (Bool-cases (contains entry.file inputs.missing)) [
      | inl m ↦ rw (plan_entry_gone e m) (gone digest e m)
      | inr m ↦ rw (plan_entry_present e m) (present digest e m)
    ]
  ]

  -- The name that a new content is given.
  abbrev pub fresh_name : VaultName
  fresh_name = assign entry.name_sources inputs.imported_at.local entry.path b.taken

  pub plan_present_cases {ℓ} :
      (P : Building → Type ℓ) (digest : Sha256)
      → (lookup digest b.assigned ≡ none
          → P (
              push_entry inputs entry digest
                (PlanAction.import fresh_name)
                (count_import entry digest fresh_name b)))
      → ((name : VaultName)
          → lookup digest b.assigned ≡ some name
          → P (push_entry inputs entry digest (PlanAction.duplicate name) (count_duplicate b)))
      → P (plan_present inputs entry digest b)
  unfolding plan_present
  plan_present_cases P digest new old = elim (Option-cases (lookup digest b.assigned)) [
    | inl e ↦ rw (e, plan_present) (new e)
    | inr (name, e) ↦ rw (e, plan_present) (old name e)
  ]
