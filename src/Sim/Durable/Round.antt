-- ===== src/Sim/Durable/Round.antt =====
-- desktop/crates/sim/src/run.rs: the effects of a round of a commit, performed one after another.
use photo_sync.Prelude.{
  List, [], ◌∷◌, ◌++◌, ◌<◌, length, map, false, ◌≡◌, ◌≢◌, refl, sym, ap, ◌∙◌, subst, All,
  All-append, arith, list_ord, nat_ord,
}
use photo_sync.Id.{DeviceId, FileId, OpId}
use photo_sync.Digest.{Hasher}
use photo_sync.Effect.{Directory, Effect}
use photo_sync.Store.{PlanAction, PlanEntry, StoreRequest}
use photo_sync.Desktop.State.{Desktop, Running}
use photo_sync.Desktop.Rounds.{Task, closing_tasks, entry_task, next_group, task_of}
use photo_sync.Desktop.Rounds.Order.{round, round-tasks}
use photo_sync.Sim.Storage.{
  clear_staging, crash, remove_file, rename_into_vault, sync_directory, sync_staging_directory,
  sync_vault_directory,
}
use photo_sync.Sim.Disk.{Bytes, Storage}
use photo_sync.Sim.Run.{apply, perform}
use photo_sync.Sim.World.{Faults, Simulation}
use photo_sync.Sim.Durable.Group.{
  AreApart, AreReady, IsFound, carry, carry_out, carry_all, group-AreFound,
}

-- What a task does to the files.
abbrev pub do_task : Task → Storage → Storage
do_task (Task.renamed file name) s = rename_into_vault file name s
do_task (Task.removed file) s = remove_file file s
do_task Task.vault_synced s = sync_vault_directory s
do_task (Task.staging_synced device) s = sync_staging_directory device s
do_task (Task.staging_cleared device) s = clear_staging device s
do_task task s = s

abbrev pub do_tasks : List Task → Storage → Storage
do_tasks [] s = s
do_tasks (task ∷ tasks) s = do_tasks tasks (do_task task s)

pub do_tasks-append :
    (tasks more : List Task) (s : Storage)
    → do_tasks (tasks ++ more) s ≡ do_tasks more (do_tasks tasks s)
do_tasks-append [] more s = refl
do_tasks-append (task ∷ tasks) more s = do_tasks-append tasks more (do_task task s)

do-entry_task : (entry : PlanEntry) (s : Storage) → do_task (entry_task entry) s ≡ carry entry s
do-entry_task entry s = by_action entry.action
  where
    by_action :
        (action : PlanAction)
        → do_task
            (elim action as (λ x. Task) [
              | PlanAction.import name ↦ Task.renamed entry.file name
              | PlanAction.duplicate name ↦ Task.removed entry.file
            ])
            s
          ≡ carry_out action entry.file s
    by_action (PlanAction.import name) = refl
    by_action (PlanAction.duplicate name) = refl

pub do-entry_tasks :
    (entries : List PlanEntry) (s : Storage)
    → do_tasks (map entry_task entries) s ≡ carry_all entries s
do-entry_tasks [] s = refl
do-entry_tasks (e ∷ es) s =
    ap (do_tasks (map entry_task es)) (do-entry_task e s) ∙ do-entry_tasks es (carry e s)

-- The disk neither refuses a rename nor reports a sync that it did not do.
pub record IsHonest (faults : Faults) : Type 0 where
  pub renames : faults.refuse_renames ≡ false
  pub syncs : faults.lying_fsync ≡ false

module _ {S : Type 0} where
  -- Effects performed one after another, whatever is done with their completions.
  abbrev pub perform_all : List Effect → Simulation S → Simulation S
  perform_all [] sim = sim
  perform_all (effect ∷ effects) sim = perform_all effects (perform effect sim).1

  stores :
      (op : OpId) (request : StoreRequest) (sim : Simulation S)
      → ((perform (Effect.store op request) sim).1.storage ≡ sim.storage)
        × ((perform (Effect.store op request) sim).1.faults ≡ sim.faults)
  unfolding perform apply
  stores op request sim = (ground arith, ground arith)

  performs :
      (effect : Effect) (sim : Simulation S)
      → IsHonest sim.faults
      → task_of effect ≢ Task.other
      → ((perform effect sim).1.storage ≡ do_task (task_of effect) sim.storage)
        × ((perform effect sim).1.faults ≡ sim.faults)
  unfolding perform apply sync_directory
  performs (Effect.rename_into_vault op file name) sim honest n =
      (ground (arith, honest.renames), ground arith)
  performs (Effect.remove_staging_file op file) sim honest n = (refl, refl)
  performs (Effect.clear_staging_directory op device) sim honest n = (refl, refl)
  performs (Effect.sync_directory op Directory.vault) sim honest n =
      (ground (arith, honest.syncs), ground arith)
  performs (Effect.sync_directory op (Directory.staging device)) sim honest n =
      (ground (arith, honest.syncs), ground arith)
  performs (Effect.store op (StoreRequest.mark_plan_entries_done d l)) sim honest n =
      stores op (StoreRequest.mark_plan_entries_done d l) sim
  performs (Effect.store op (StoreRequest.clear_commit_plan d)) sim honest n =
      stores op (StoreRequest.clear_commit_plan d) sim
  performs (Effect.store op (StoreRequest.clear_staging_manifest d)) sim honest n =
      stores op (StoreRequest.clear_staging_manifest d) sim
  performs (Effect.store op (StoreRequest.insert_committed_batch c r)) sim honest n =
      stores op (StoreRequest.insert_committed_batch c r) sim
  performs (Effect.store op StoreRequest.list_staging_devices) sim honest _ =
      stores op StoreRequest.list_staging_devices sim
  performs (Effect.store op (StoreRequest.list_staging_entries d)) sim honest _ =
      stores op (StoreRequest.list_staging_entries d) sim
  performs (Effect.store op StoreRequest.highest_staging_file_id) sim honest _ =
      stores op StoreRequest.highest_staging_file_id sim
  performs (Effect.store op (StoreRequest.begin_staging_entry d e)) sim honest _ =
      stores op (StoreRequest.begin_staging_entry d e) sim
  performs (Effect.store op (StoreRequest.advance_watermark f n)) sim honest _ =
      stores op (StoreRequest.advance_watermark f n) sim
  performs (Effect.store op (StoreRequest.mark_staging_entry_verified f g x)) sim honest _ =
      stores op (StoreRequest.mark_staging_entry_verified f g x) sim
  performs (Effect.store op (StoreRequest.drop_staging_entry f)) sim honest _ =
      stores op (StoreRequest.drop_staging_entry f) sim
  performs (Effect.store op (StoreRequest.seal_commit_plan d e)) sim honest _ =
      stores op (StoreRequest.seal_commit_plan d e) sim
  performs (Effect.store op (StoreRequest.load_commit_plan d)) sim honest _ =
      stores op (StoreRequest.load_commit_plan d) sim
  performs (Effect.store op (StoreRequest.lookup_content l)) sim honest _ =
      stores op (StoreRequest.lookup_content l) sim
  performs (Effect.store op (StoreRequest.taken_vault_names l)) sim honest _ =
      stores op (StoreRequest.taken_vault_names l) sim
  performs (Effect.store op (StoreRequest.lookup_device_files d l)) sim honest _ =
      stores op (StoreRequest.lookup_device_files d l) sim
  performs (Effect.store op (StoreRequest.forget_device_file d p)) sim honest _ =
      stores op (StoreRequest.forget_device_file d p) sim
  performs (Effect.create_staging_file op device file) sim honest excluded =
      elim (excluded refl) [ ]
  performs (Effect.write_chunk op file offset bytes) sim honest excluded = elim (excluded refl) [ ]
  performs (Effect.sync_file op file) sim honest excluded = elim (excluded refl) [ ]
  performs (Effect.truncate_file op file n) sim honest excluded = elim (excluded refl) [ ]
  performs (Effect.read_clock op) sim honest excluded = elim (excluded refl) [ ]
  performs (Effect.read_staged_range op file offset n) sim honest excluded =
      elim (excluded refl) [ ]
  performs (Effect.stat_staging_file op file) sim honest excluded = elim (excluded refl) [ ]
  performs (Effect.read_name_sources op file at) sim honest excluded = elim (excluded refl) [ ]
  performs (Effect.set_modified_time op file at) sim honest excluded = elim (excluded refl) [ ]
  performs (Effect.finalize_staging_file op file) sim honest excluded = elim (excluded refl) [ ]
  performs (Effect.stat_vault_file op name) sim honest excluded = elim (excluded refl) [ ]
  performs (Effect.measure_free_space op) sim honest excluded = elim (excluded refl) [ ]
  performs (Effect.set_timer op at) sim honest excluded = elim (excluded refl) [ ]
  performs (Effect.send_diff device plan summary) sim honest excluded = elim (excluded refl) [ ]
  performs (Effect.send_upload_result device file outcome) sim honest excluded =
      elim (excluded refl) [ ]
  performs (Effect.send_candidates device candidates summary) sim honest excluded =
      elim (excluded refl) [ ]
  performs (Effect.send_session_summary device summary) sim honest excluded =
      elim (excluded refl) [ ]
  performs (Effect.reject_session device reason) sim honest excluded = elim (excluded refl) [ ]
  performs (Effect.log level message) sim honest excluded = elim (excluded refl) [ ]
  performs (Effect.notify_ui update) sim honest excluded = elim (excluded refl) [ ]

  pub perform_all-tasks :
      (effects : List Effect) (sim : Simulation S)
      → IsHonest sim.faults
      → All (λ task. task ≢ Task.other) (map task_of effects)
      → (perform_all effects sim).storage ≡ do_tasks (map task_of effects) sim.storage
  perform_all-tasks [] sim honest known = refl
  perform_all-tasks (e ∷ es) sim honest (k, ks) =
      let (moved, same) = performs e sim honest k in
      perform_all-tasks es (perform e sim).1 (subst IsHonest (sym same) honest) ks
      ∙ ap (do_tasks (map task_of es)) moved

pub known_entries :
    (entries : List PlanEntry) → All (λ task. task ≢ Task.other) (map entry_task entries)
known_entries [] = tt
known_entries (entry ∷ entries) = (by_action entry.action, known_entries entries)
  where
    by_action :
        (action : PlanAction)
        → (elim action as (λ x. Task) [
          | PlanAction.import name ↦ Task.renamed entry.file name
          | PlanAction.duplicate name ↦ Task.removed entry.file
        ])
          ≢ Task.other
    by_action (PlanAction.import name) = λ e. cc
    by_action (PlanAction.duplicate name) = λ e. cc

pub round_known :
    (device : DeviceId) (group : List PlanEntry)
    → All (λ task. task ≢ Task.other) (map entry_task group ++ closing_tasks device group)
round_known device group =
    All-append _ (map entry_task group) (closing_tasks device group) (known_entries group)
      ((λ e. cc), ((λ e. cc), ((λ e. cc), tt)))

module _ {S : Type 0} ⦃h : Hasher S⦄ where
  -- The files after the effects of a round, on a disk that does what it says.
  pub round-storage :
      (running : Running) (d : Desktop S) (sim : Simulation S)
      → running.next < length running.plan.entries
      → IsHonest sim.faults
      → (perform_all (round running d).0 sim).storage
        ≡ sync_staging_directory running.device
            (sync_vault_directory (carry_all (next_group running) sim.storage))
  round-storage running d sim more honest =
      let group = next_group running in
      let tasks = round-tasks running d more in
      perform_all-tasks (round running d).0 sim honest
        (subst (All (λ task. task ≢ Task.other)) (sym tasks) (round_known running.device group))
      ∙ (ap (λ t. do_tasks t sim.storage) tasks
          ∙ (do_tasks-append (map entry_task group) (closing_tasks running.device group) sim.storage
              ∙ ap (do_tasks (closing_tasks running.device group))
                  (do-entry_tasks group sim.storage)))

  -- Perform the effects of a round of a commit on a disk that does what it says, and lose power:
  -- every file the round's group imports is in the vault, under its name and with its bytes, when
  -- the files and the names of the group are all different and each imported file's bytes were
  -- proved by its own sync before the round.
  pub round-survives :
      (running : Running) (d : Desktop S) (sim : Simulation S) (contents : FileId → Bytes)
      → running.next < length running.plan.entries
      → IsHonest sim.faults
      → AreApart (next_group running)
      → AreReady contents (next_group running) sim.storage
      → All
          (λ (e : PlanEntry).
            IsFound
              (crash (perform_all (round running d).0 sim).storage)
              e.action
              (contents e.file))
          (next_group running)
  round-survives running d sim contents more honest apart ready =
      subst
        (λ s.
          All (λ (e : PlanEntry). IsFound (crash s) e.action (contents e.file))
            (next_group running))
        (sym (round-storage running d sim more honest))
        (group-AreFound running.device contents (next_group running) sim.storage apart ready)
