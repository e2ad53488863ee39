-- ===== src/Desktop/Rounds/Carrying.antt =====
-- desktop/crates/core/src/desktop/commit.rs: the tasks of a commit that carries out the rest of its plan.
use photo_sync.Prelude.{
  ◌-◌, ◌≤◌, ◌<◌, ◌≢◌, List, [], ◌∷◌, ◌++◌, map, length, length-take, append_assoc, drop,
  take-drop-drop, All, ◌≡◌, sym, ap, ◌∙◌, arith, nat_ord, list_ord,
}
use photo_sync.Id.{DeviceId}
use photo_sync.Store.{PlanEntry}
use photo_sync.Desktop.State.{Running}
use photo_sync.Desktop.Rounds.{
  Task, awaiting, closing_tasks, entry_task, group_end, grouped, next_group, next_group-more,
}

-- The running commit after a round.
abbrev pub advanced : Running → Running
advanced running = awaiting 0 (grouped (next_group running) running)

-- What a commit does for its groups, and after the last of them.
abbrev pub group_tasks : DeviceId → List (List PlanEntry) → List Task
group_tasks device [] = []
group_tasks device (group ∷ groups) =
    (map entry_task group ++ closing_tasks device group) ++ group_tasks device groups

abbrev pub ending_tasks : Running → List Task
ending_tasks running =
    Task.recorded running.plan.contents running.plan.device_files
    ∷ Task.log_cleared running.device
    ∷ Task.manifest_cleared running.device
    ∷ Task.staging_cleared running.device
    ∷ []

abbrev pub concat_groups : List (List PlanEntry) → List PlanEntry
concat_groups [] = []
concat_groups (group ∷ groups) = group ++ concat_groups groups

-- The tasks of a commit that carries out the rest of its plan.
pub record CarriesOut (running : Running) (tasks : List Task) : Type 0 where
  pub groups : List (List PlanEntry)
  pub rest : concat_groups groups ≡ drop running.next running.plan.entries
  pub bounded : All (λ group. (group ≢ []) × (length group ≤ 64)) groups
  pub done : tasks ≡ group_tasks running.device groups ++ ending_tasks running

next_group-bounded : (running : Running) → length (next_group running) ≤ 64
next_group-bounded running =
    let long =
      length-take (group_end running - running.next) (drop running.next running.plan.entries) in
    omega (arith, long)

-- A round and the rest of a commit.
pub round-CarriesOut :
    (running : Running) (tasks more_tasks : List Task)
    → running.next < length running.plan.entries
    → tasks
      ≡ map entry_task (next_group running) ++ closing_tasks running.device (next_group running)
    → CarriesOut (advanced running) more_tasks
    → CarriesOut running (tasks ++ more_tasks)
round-CarriesOut running tasks more_tasks more this later = record {
  groups = next_group running ∷ later.groups;
  rest =
      ap (λ xs. next_group running ++ xs) later.rest
      ∙ take-drop-drop running.next (group_end running) (group_end running - running.next)
          running.plan.entries (omega (arith, more));
  bounded = ((next_group-more running more, next_group-bounded running), later.bounded);
  done =
      ap (λ t. t ++ more_tasks) this
      ∙ (ap
            (λ t.
              (map entry_task (next_group running)
                ++ closing_tasks running.device (next_group running))
              ++ t)
            later.done
          ∙ sym (
              append_assoc
                (map entry_task (next_group running)
                  ++ closing_tasks running.device (next_group running))
                (group_tasks running.device later.groups) (ending_tasks running)));
}
