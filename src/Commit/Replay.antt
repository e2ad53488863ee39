-- ===== src/Commit/Replay.antt =====
-- desktop/crates/core/src/commit.rs: a sealed plan that nothing of was done replays as itself.
use photo_sync.Prelude.{
  List, [], ◌∷◌, ◌++◌, map, map-append, some, ◌≡◌, ◌≢◌, refl, ap, ◌∙◌, All, All-filter, nat_ord,
  list_ord, eq_iff, eq_refl, arith,
}
use photo_sync.Prelude.Map.{Map, lookup, insert, collect, collect_onto, contains, lookup-insert}
use photo_sync.Id.{FileId, Sha256, Timestamp, VaultName}
use photo_sync.Session.Sorting.{sort_by_file-All}
use photo_sync.Store.{DeviceFileRow, PlanAction, PlanEntry, StagingEntry, is_verified}
use photo_sync.Commit.Cases.{plan_entry_cases, plan_present_cases}
use photo_sync.Commit.{
  Building, Inputs, Plan, count_duplicate, count_import, drop_entry, in_arrival_order, name_of,
  no_plan, plan, plan_entry, plan_loop, push_entry, replay, replay_action, replay_entry,
  replay_loop, replay_verified,
}

-- No two entries of the manifest have one identifier.
abbrev pub HasDistinctFiles : List StagingEntry → Type 0
HasDistinctFiles [] = Unit
HasDistinctFiles (e ∷ es) = All (λ x. x.file ≢ e.file) es × HasDistinctFiles es

abbrev by_file : List StagingEntry → List (FileId × StagingEntry)
by_file = map (λ e. (e.file, e))

abbrev IsKnown : Map FileId StagingEntry → StagingEntry → Type 0
IsKnown known e = lookup e.file known ≡ some e

collect_onto-other :
    (e : StagingEntry) (es : List StagingEntry) (m : Map FileId StagingEntry)
    → All (λ x. x.file ≢ e.file) es
    → lookup e.file (collect_onto (by_file es) m) ≡ lookup e.file m
unfolding collect_onto
collect_onto-other e [] m h = refl
collect_onto-other e (x ∷ es) m h =
    collect_onto-other e es (insert x.file x m) h.1
    ∙ ground (arith, h.0, lookup-insert x.file e.file x m, eq_iff x.file e.file)

collect_onto-IsKnown :
    (es : List StagingEntry) (m : Map FileId StagingEntry)
    → HasDistinctFiles es
    → All (IsKnown (collect_onto (by_file es) m)) es
unfolding collect_onto
collect_onto-IsKnown [] m h = tt
collect_onto-IsKnown (e ∷ es) m h = (
  collect_onto-other e es (insert e.file e m) h.0
      ∙ ground (arith, lookup-insert e.file e.file e m, eq_refl e.file),
  collect_onto-IsKnown es (insert e.file e m) h.1,
)

-- A plan whose rows carry another time, and that dropped nothing.
abbrev pub stamped : Timestamp → DeviceFileRow → DeviceFileRow
stamped at row = record row { committed_at = at }

abbrev pub restamped : Timestamp → Plan → Plan
restamped at p = record p { device_files = map (stamped at) p.device_files; dropped = [] }

module _ (inputs : Inputs) (known : Map FileId StagingEntry) (at : Timestamp) where
  -- The replay of a plan, on a machine where no staged file is missing.
  abbrev replayed : List PlanEntry → Plan → Plan
  replayed = replay_loop inputs.device known [] at

  replay_loop-append :
      (xs ys : List PlanEntry) (p : Plan) → replayed (xs ++ ys) p ≡ replayed ys (replayed xs p)
  unfolding replay_loop
  replay_loop-append [] ys p = refl
  replay_loop-append (x ∷ xs) ys p = replay_loop-append xs ys _

  -- The plan built so far is what its own entries replay to, but for the time and what was dropped.
  abbrev Replays : Building → Type 0
  Replays b = replayed b.plan.entries no_plan ≡ restamped at b.plan

  abbrev step : PlanEntry → Plan → Plan
  step = replay_entry inputs.device known [] at

  -- One more entry at the end of the plan.
  replayed-push :
      (xs : List PlanEntry) (p : Plan) (e : PlanEntry)
      → replayed xs no_plan ≡ p
      → replayed (xs ++ e ∷ []) no_plan ≡ step e p
  unfolding replay_loop
  replayed-push xs p e h = replay_loop-append xs (e ∷ []) no_plan ∙ ap (step e) h

  step_known :
      (e : PlanEntry) (entry : StagingEntry) (p : Plan) {digest : Sha256}
      → lookup e.file known ≡ some entry
      → entry.digest ≡ some digest
      → step e p ≡ replay_verified inputs.device [] at e entry digest p
  unfolding replay_entry
  step_known e entry p k d = ground arith

  push_entry-Replays :
      (entry : StagingEntry) (digest : Sha256) (name : VaultName) (b : Building)
      → lookup entry.file known ≡ some entry
      → entry.digest ≡ some digest
      → Replays b
      → Replays (
          push_entry inputs entry digest
            (PlanAction.import name)
            (count_import entry digest name b))
  unfolding push_entry count_import
  push_entry-Replays entry digest name b k d h =
      replayed-push b.plan.entries _ _ h
      ∙ step_known _ entry _ k d
      ∙ unfold replay_verified replay_action name_of contains lookup in rw map-append refl

  push_duplicate-Replays :
      (entry : StagingEntry) (digest : Sha256) (name : VaultName) (b : Building)
      → lookup entry.file known ≡ some entry
      → entry.digest ≡ some digest
      → Replays b
      → Replays (push_entry inputs entry digest (PlanAction.duplicate name) (count_duplicate b))
  unfolding push_entry count_duplicate
  push_duplicate-Replays entry digest name b k d h =
      replayed-push b.plan.entries _ _ h
      ∙ step_known _ entry _ k d
      ∙ unfold replay_verified replay_action name_of contains lookup in rw map-append refl

  plan_entry-Replays :
      (entry : StagingEntry) (b : Building)
      → lookup entry.file known ≡ some entry
      → Replays b
      → Replays (plan_entry inputs entry b)
  unfolding drop_entry
  plan_entry-Replays entry b k h =
      plan_entry_cases inputs entry b Replays (λ _. h) (λ digest _ _. h)
        λ digest d _.
          plan_present_cases inputs entry b Replays digest
            (λ _. push_entry-Replays entry digest _ b k d h)
            (λ name _. push_duplicate-Replays entry digest name b k d h)

  plan_loop-Replays :
      (entries : List StagingEntry) (b : Building)
      → All (IsKnown known) entries
      → Replays b
      → Replays (plan_loop inputs entries b)
  unfolding plan_loop
  plan_loop-Replays [] b k h = h
  plan_loop-Replays (entry ∷ entries) b k h =
      plan_loop-Replays entries (plan_entry inputs entry b) k.1 (plan_entry-Replays entry b k.0 h)

-- Replaying a sealed plan of which nothing was done, over the manifest that it was built from and
-- with every staged file in place, gives the plan again: the same entries to carry out, the same
-- content rows and counts, and the same device rows but for their time, which is that of the
-- replay. What was dropped before the plan was sealed is not reported again. The manifest's
-- identifiers are distinct.
pub replay-plan :
    (inputs : Inputs) (at : Timestamp)
    → HasDistinctFiles inputs.entries
    → replay inputs.device (plan inputs).entries inputs.entries [] at ≡ restamped at (plan inputs)
unfolding replay plan collect in_arrival_order
replay-plan inputs at distinct =
    plan_loop-Replays inputs (collect (by_file inputs.entries)) at (in_arrival_order inputs.entries)
      _
      (sort_by_file-All (IsKnown _) _
        (All-filter (IsKnown _) is_verified _ (collect_onto-IsKnown inputs.entries [] distinct)))
      (unfold replay_loop in refl)
