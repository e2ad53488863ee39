-- ===== src/Sim/Durable/Whole.antt =====
-- desktop/crates/core/src/desktop/commit.rs and desktop/crates/sim/src/storage.rs: a whole commit,
-- carried out on a disk that then loses power.
use photo_sync.Prelude.{
  ◌+◌, ◌^◌, ◌<◌, List, [], ◌∷◌, ◌++◌, drop, length, map, ◌≡◌, ◌≢◌, refl, sym, ap, ◌∙◌, subst, arith,
  All, All-append, All-map, AllDifferent, list_ord, nat_ord,
}
use photo_sync.Prelude.Map.{lookup}
use photo_sync.Id.{DeviceId, FileId}
use photo_sync.Digest.{Hasher}
use photo_sync.Store.{PlanAction, PlanEntry}
use photo_sync.Commit.{Inputs, Plan, in_arrival_order, plan}
use photo_sync.Commit.Files.{staged_files}
use photo_sync.Desktop.State.{Desktop, Running}
use photo_sync.Desktop.Rounds.{Task, closing_tasks, entry_task, task_of}
use photo_sync.Desktop.Rounds.Carrying.{concat_groups, ending_tasks, group_tasks}
use photo_sync.Desktop.Rounds.Whole.{Concludes, sealed, sealed-Concludes}
use photo_sync.Sim.Storage.{clear_staging, crash, forget_each}
use photo_sync.Sim.Disk.{Bytes, StagedFile, Storage}
use photo_sync.Sim.World.{Simulation}
use photo_sync.Sim.Durable.Group.{AreApart, AreReady, IsFound, carry_all}
use photo_sync.Sim.Durable.Groups.{after_groups, groups-AreFound, synced_all}
use photo_sync.Sim.Durable.Round.{
  IsHonest, do-entry_tasks, do_tasks, do_tasks-append, perform_all, perform_all-tasks, round_known,
}
use photo_sync.Sim.Durable.Planned.{AreApart-drop, plan-AreApart}

do-group_tasks :
    (device : DeviceId) (groups : List (List PlanEntry)) (s : Storage)
    → do_tasks (group_tasks device groups) s ≡ after_groups device groups s
do-group_tasks device [] s = refl
do-group_tasks device (group ∷ groups) s =
    do_tasks-append (map entry_task group ++ closing_tasks device group) (group_tasks device groups)
      s
    ∙ (ap (do_tasks (group_tasks device groups)) (
          do_tasks-append (map entry_task group) (closing_tasks device group) s
          ∙ ap (synced_all device) (do-entry_tasks group s))
        ∙ do-group_tasks device groups (synced_all device (carry_all group s)))

groups_known :
    (device : DeviceId) (groups : List (List PlanEntry))
    → All (λ task. task ≢ Task.other) (group_tasks device groups)
groups_known device [] = tt
groups_known device (group ∷ groups) =
    All-append _ (map entry_task group ++ closing_tasks device group) (group_tasks device groups)
      (round_known device group) (groups_known device groups)

ending_known : (running : Running) → All (λ task. task ≢ Task.other) (ending_tasks running)
ending_known running = ((λ e. cc), ((λ e. cc), ((λ e. cc), ((λ e. cc), tt))))

-- Clearing what is staged leaves the names of the vault that are durable.
forget_each-durable :
    (device : DeviceId) (files : List (FileId × StagedFile)) (s : Storage)
    → (forget_each device files s).durable ≡ s.durable
unfolding forget_each
forget_each-durable device [] s = refl
forget_each-durable device ((file, staged) ∷ files) s =
    forget_each-durable device files _ ∙ ground arith

cleared-durable : (device : DeviceId) (s : Storage) → (clear_staging device s).durable ≡ s.durable
unfolding clear_staging
cleared-durable device s = forget_each-durable device s.live.staging _

cleared-IsFound :
    (device : DeviceId) (action : PlanAction) (bytes : Bytes) (s : Storage)
    → IsFound (crash s) action bytes
    → IsFound (crash (clear_staging device s)) action bytes
unfolding crash
cleared-IsFound device (PlanAction.import name) bytes s h =
    ap (λ p. lookup name p.vault) (cleared-durable device s) ∙ h
cleared-IsFound device (PlanAction.duplicate name) bytes s h = tt

-- The files after the tasks of a commit's groups and of its end.
tasks-AreFound :
    (running : Running) (groups : List (List PlanEntry)) (contents : FileId → Bytes) (s : Storage)
    → AreApart (concat_groups groups)
    → AreReady contents (concat_groups groups) s
    → All
        (λ (e : PlanEntry).
          IsFound
            (crash (do_tasks (group_tasks running.device groups ++ ending_tasks running) s))
            e.action
            (contents e.file))
        (concat_groups groups)
tasks-AreFound running groups contents s apart ready =
    let same =
      do_tasks-append (group_tasks running.device groups) (ending_tasks running) s
      ∙ ap (clear_staging running.device) (do-group_tasks running.device groups s) in
    subst
      (λ x.
        All (λ (e : PlanEntry). IsFound (crash x) e.action (contents e.file))
          (concat_groups groups))
      (sym same)
      (All-map _ _
        (λ e k.
          cleared-IsFound running.device e.action (contents e.file)
            (after_groups running.device groups s) k)
        (concat_groups groups) (groups-AreFound running.device contents groups s apart ready))

module _ {S : Type 0} ⦃h : Hasher S⦄ where
  pub commit-survives :
      (inputs : Inputs) (running : Running) (d : Desktop S) (sim : Simulation S)
      (contents : FileId → Bytes)
      → AllDifferent (staged_files inputs.entries)
      → length inputs.taken_names + length (in_arrival_order inputs.entries) < 2 ^ 32
      → running.plan ≡ plan inputs
      → IsHonest sim.faults
      → AreReady contents (drop running.next running.plan.entries) sim.storage
      → (whole : Concludes running (sealed running d)) × All
          (λ (e : PlanEntry).
            IsFound
              (crash (perform_all ((sealed running d).0 ++ whole.emitted) sim).storage)
              e.action
              (contents e.file))
          (drop running.next running.plan.entries)
  commit-survives inputs running d sim contents once few runs honest ready =
      let whole = sealed-Concludes running d in
      let effects = (sealed running d).0 ++ whole.emitted in
      let out = whole.out in
      let apart : AreApart (drop running.next running.plan.entries) =
        AreApart-drop running.next running.plan.entries
          (subst (λ (p : Plan). AreApart p.entries) (sym runs) (plan-AreApart inputs once few)) in
      let found =
        tasks-AreFound running out.groups contents sim.storage (subst AreApart (sym out.rest) apart)
          (subst (λ es. AreReady contents es sim.storage) (sym out.rest) ready) in
      let known : All (λ task. task ≢ Task.other) (map task_of effects) =
        subst (All (λ task. task ≢ Task.other)) (sym out.done) (
          All-append _ (group_tasks running.device out.groups) (ending_tasks running)
            (groups_known running.device out.groups) (ending_known running)) in
      let same =
        perform_all-tasks effects sim honest known ∙ ap (λ t. do_tasks t sim.storage) out.done in
      (
        whole,
        subst
            (λ es.
              All
                (λ (e : PlanEntry).
                  IsFound (crash (perform_all effects sim).storage) e.action (contents e.file))
                es)
            out.rest
            (subst
              (λ x.
                All (λ (e : PlanEntry). IsFound (crash x) e.action (contents e.file))
                  (concat_groups out.groups))
              (sym same) found),
      )
