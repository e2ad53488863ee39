-- ===== src/Desktop/Rounds.antt =====
-- desktop/crates/core/src/desktop/commit.rs: one group of a commit, from its renames to its marks.
pub mod Order
pub mod Answering
pub mod Carrying
pub mod Whole
use photo_sync.Prelude.{
  ℕ, zero, suc, length-map, map-append, ◌≢◌, ◌+◌, ◌-◌, ◌<◌, ◌≤◌, min, lt→ltb, List, [], ◌∷◌, ◌++◌,
  map, length, take, drop, some, true, false, ◌≡◌, refl, ap, ◌∙◌, sym, ltb, leb, arith, nat_ord,
  list_ord,
}
use photo_sync.Prelude.Word.{saturating_sub}
use photo_sync.Id.{DeviceId, FileId, OpId, VaultName}
use photo_sync.Digest.{Hasher}
use photo_sync.Effect.{Directory, Effect}
use photo_sync.Store.{ContentRow, DeviceFileRow, PlanAction, PlanEntry, StoreRequest, StoreResponse}
use photo_sync.Desktop.State.{
  Answered, Desktop, Pending, Running, Step, also, begin, group_size, issue, issue_each, quiet,
}
use photo_sync.Desktop.Commit.{Answer, advance, answer_step, commit_step, take_answer}
use photo_sync.Desktop.Commit.Execute.{
  clear, entry_executed, insert_rows, execute_effect, execute_entries, execute_group,
  mark_group_done, sync_staging, sync_vault,
}

-- What an effect of a group does, whatever its operation's identifier is.
pub data Task : Type 0 where
  renamed : FileId → VaultName → Task
  removed : FileId → Task
  vault_synced : Task
  staging_synced : DeviceId → Task
  marked : DeviceId → List FileId → Task
  recorded : List ContentRow → List DeviceFileRow → Task
  log_cleared manifest_cleared staging_cleared : DeviceId → Task
  other : Task

abbrev pub task_of : Effect → Task
task_of (Effect.rename_into_vault op file name) = Task.renamed file name
task_of (Effect.remove_staging_file op file) = Task.removed file
task_of (Effect.sync_directory op Directory.vault) = Task.vault_synced
task_of (Effect.sync_directory op (Directory.staging device)) = Task.staging_synced device
task_of (Effect.store op (StoreRequest.mark_plan_entries_done device files)) =
    Task.marked device files
task_of (Effect.store op (StoreRequest.insert_committed_batch contents rows)) =
    Task.recorded contents rows
task_of (Effect.store op (StoreRequest.clear_commit_plan device)) = Task.log_cleared device
task_of (Effect.store op (StoreRequest.clear_staging_manifest device)) =
    Task.manifest_cleared device
task_of (Effect.clear_staging_directory op device) = Task.staging_cleared device
task_of _ = Task.other

-- What carrying out an entry of a plan asks for.
abbrev pub entry_task : PlanEntry → Task
entry_task entry = elim entry.action [
  | PlanAction.import name ↦ Task.renamed entry.file name
  | PlanAction.duplicate name ↦ Task.removed entry.file
]

-- The entries that the next group holds.
abbrev pub group_end : Running → ℕ
group_end running = min (running.next + group_size) (length running.plan.entries)

abbrev pub next_group : Running → List PlanEntry
next_group running =
    take (group_end running - running.next) (drop running.next running.plan.entries)

drop-more : {A : Type 0} (n : ℕ) (xs : List A) → n < length xs → 0 < length (drop n xs)
drop-more zero xs h = h
drop-more (suc n) [] h = absurd (omega (arith, h))
drop-more (suc n) (x ∷ xs) h = drop-more n xs (omega (arith, h))

take-more : {A : Type 0} (n : ℕ) (xs : List A) → 0 < n → 0 < length xs → take n xs ≢ []
take-more zero xs h k = absurd (omega (arith, h))
take-more (suc n) [] h k = absurd (omega (arith, k))
take-more (suc n) (x ∷ xs) h k = λ e. cc

pub next_group-more :
    (running : Running) → running.next < length running.plan.entries → next_group running ≢ []
next_group-more running more =
    take-more (group_end running - running.next) (drop running.next running.plan.entries)
      (omega (arith, more)) (drop-more running.next running.plan.entries more)

abbrev pub files_of : List PlanEntry → List FileId
files_of = map (λ (e : PlanEntry). e.file)

abbrev pub awaiting : ℕ → Running → Running
awaiting n running = record running { group_awaited = n }

-- What closes a group.
abbrev pub closing_tasks : DeviceId → List PlanEntry → List Task
closing_tasks device group =
    Task.vault_synced ∷ Task.staging_synced device ∷ Task.marked device (files_of group) ∷ []

-- A running commit that has come to the end of a group.
abbrev pub grouped : List PlanEntry → Running → Running
grouped group running = record running {
  next = group_end running;
  group = files_of group;
  group_awaited = length group;
}

execute_effect-task :
    (entry : PlanEntry) (op : OpId) → task_of (execute_effect entry op) ≡ entry_task entry
unfolding execute_effect
execute_effect-task entry op = action_cases entry.action
  where
    action_cases :
        (action : PlanAction)
        → task_of (elim action as (λ x. Effect) [
          | PlanAction.import name ↦ Effect.rename_into_vault op entry.file name
          | PlanAction.duplicate name ↦ Effect.remove_staging_file op entry.file
        ])
          ≡ (elim action as (λ x. Task) [
            | PlanAction.import name ↦ Task.renamed entry.file name
            | PlanAction.duplicate name ↦ Task.removed entry.file
          ])
    action_cases (PlanAction.import name) = refl
    action_cases (PlanAction.duplicate name) = refl

module _ {S : Type 0} where
  abbrev pub with_running : Running → Desktop S → Desktop S
  with_running running d = record d { running = some running }

  pub issue_each-tasks :
      (pending : PlanEntry → Pending S) (entries : List PlanEntry) (d : Desktop S)
      → map task_of (issue_each pending execute_effect entries d).0 ≡ map entry_task entries
  unfolding issue_each
  issue_each-tasks pending [] d = refl
  issue_each-tasks pending (e ∷ es) d =
      ap (λ t. t ∷ map task_of (issue_each pending execute_effect es (begin (pending e) d)).0)
        (execute_effect-task e d.next_op)
      ∙ ap (λ ts. entry_task e ∷ ts) (issue_each-tasks pending es (begin (pending e) d))

  -- Operations begun leave the running commit alone: the state after them, with its commit.
  pub issue_each-running :
      (pending : PlanEntry → Pending S) (entries : List PlanEntry) (running : Running)
      (d : Desktop S)
      → (e : Desktop S) × ((issue_each pending execute_effect entries (with_running running d)).1
          ≡ with_running running e)
  unfolding issue_each begin
  issue_each-running pending [] running d = (d, refl)
  issue_each-running pending (e ∷ es) running d =
      issue_each-running pending es running (begin (pending e) (with_running running d))
