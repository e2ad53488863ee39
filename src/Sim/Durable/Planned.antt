-- ===== src/Sim/Durable/Planned.antt =====
-- desktop/crates/core/src/commit.rs and desktop/crates/sim/src/storage.rs: the groups of a plan,
-- carried out on a disk that then loses power.
use photo_sync.Prelude.{
  ℕ, zero, suc, ◌+◌, ◌^◌, ◌<◌, List, [], ◌∷◌, drop, length, map, take, none, some, ◌≡◌, ◌≢◌, sym,
  subst, All, All-take, AllDifferent, list_ord, nat_ord,
}
use photo_sync.Id.{FileId, VaultName}
use photo_sync.Digest.{Hasher}
use photo_sync.Store.{PlanAction, PlanEntry}
use photo_sync.Commit.{Inputs, Plan, in_arrival_order, plan}
use photo_sync.Commit.Files.{plan_files-AllDifferent, staged_files}
use photo_sync.Commit.Fresh.{import_names, imported_as, plan-IsFresh}
use photo_sync.Desktop.State.{Desktop, Running}
use photo_sync.Desktop.Rounds.{next_group}
use photo_sync.Desktop.Rounds.Order.{round}
use photo_sync.Sim.Storage.{crash}
use photo_sync.Sim.Disk.{Bytes}
use photo_sync.Sim.World.{Simulation}
use photo_sync.Sim.Durable.Group.{AreApart, AreReady, IsFound, NamesApart}
use photo_sync.Sim.Durable.Round.{IsHonest, perform_all, round-survives}

AreApart-take : (n : ℕ) (entries : List PlanEntry) → AreApart entries → AreApart (take n entries)
AreApart-take zero entries h = tt
AreApart-take (suc n) [] h = tt
AreApart-take (suc n) (e ∷ es) h = (All-take _ n es h.0, AreApart-take n es h.1)

pub AreApart-drop :
    (n : ℕ) (entries : List PlanEntry) → AreApart entries → AreApart (drop n entries)
AreApart-drop zero entries h = h
AreApart-drop (suc n) [] h = tt
AreApart-drop (suc n) (e ∷ es) h = AreApart-drop n es h.1

-- A name that is given out is none of these.
abbrev Spares : PlanAction → List VaultName → Type 0
Spares (PlanAction.import name) names = All (λ n. name ≢ n) names
Spares (PlanAction.duplicate name) names = Unit

abbrev with_name : PlanAction → List VaultName → List VaultName
with_name action names = elim (imported_as action) [ none ↦ names | some name ↦ name ∷ names ]

first-Spares :
    (action : PlanAction) (names : List VaultName)
    → AllDifferent (with_name action names)
    → Spares action names × AllDifferent names
first-Spares (PlanAction.import name) names h = h
first-Spares (PlanAction.duplicate name) names h = (tt, h)

next-Spares :
    (action other : PlanAction) (names : List VaultName)
    → Spares action (with_name other names)
    → NamesApart action other × Spares action names
next-Spares (PlanAction.import name) (PlanAction.import theirs) names h = h
next-Spares (PlanAction.import name) (PlanAction.duplicate theirs) names h = (tt, h)
next-Spares (PlanAction.duplicate name) other names h = (tt, tt)

apart_from :
    (file : FileId) (action : PlanAction) (entries : List PlanEntry)
    → All (λ f. file ≢ f) (map (λ (e : PlanEntry). e.file) entries)
    → Spares action (import_names entries)
    → All (λ (e : PlanEntry). (file ≢ e.file) × NamesApart action e.action) entries
apart_from file action [] h k = tt
apart_from file action (e ∷ es) h k =
    let (apart, rest) = next-Spares action e.action (import_names es) k in
    ((h.0, apart), apart_from file action es h.1 rest)

AreApart-of :
    (entries : List PlanEntry)
    → AllDifferent (map (λ (e : PlanEntry). e.file) entries)
    → AllDifferent (import_names entries)
    → AreApart entries
AreApart-of [] h k = tt
AreApart-of (e ∷ es) h k =
    let (spares, rest) = first-Spares e.action (import_names es) k in
    (apart_from e.file e.action es h.0 spares, AreApart-of es h.1 rest)

-- The entries of a plan have all different files, and its imports all different names.
pub plan-AreApart :
    (inputs : Inputs)
    → AllDifferent (staged_files inputs.entries)
    → length inputs.taken_names + length (in_arrival_order inputs.entries) < 2 ^ 32
    → AreApart (plan inputs).entries
plan-AreApart inputs h few =
    AreApart-of (plan inputs).entries (plan_files-AllDifferent inputs h) (plan-IsFresh inputs few).0

module _ {S : Type 0} ⦃h : Hasher S⦄ where
  pub planned-survives :
      (inputs : Inputs) (running : Running) (d : Desktop S) (sim : Simulation S)
      (contents : FileId → Bytes)
      → AllDifferent (staged_files inputs.entries)
      → length inputs.taken_names + length (in_arrival_order inputs.entries) < 2 ^ 32
      → running.plan ≡ plan inputs
      → running.next < length running.plan.entries
      → IsHonest sim.faults
      → AreReady contents (next_group running) sim.storage
      → All
          (λ (e : PlanEntry).
            IsFound
              (crash (perform_all (round running d).0 sim).storage)
              e.action
              (contents e.file))
          (next_group running)
  planned-survives inputs running d sim contents once few runs more honest ready =
      let apart : AreApart running.plan.entries =
        subst (λ (p : Plan). AreApart p.entries) (sym runs) (plan-AreApart inputs once few) in
      round-survives running d sim contents more honest
        (AreApart-take _ _ (AreApart-drop running.next running.plan.entries apart)) ready
