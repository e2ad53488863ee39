-- ===== src/Desktop/Commit/Execute.antt =====
-- desktop/crates/core/src/desktop/commit.rs: executing a plan group by group, and the order in
-- which the rows go in and staging is cleared.
use photo_sync.Prelude.{
  ℕ, ◌+◌, ◌-◌, List, map, take, drop, length, min, none, some, ltb, leb, nat_ord, if◌then◌else◌,
}
use photo_sync.Prelude.Word.{saturating_sub}
use photo_sync.Id.{FileId}
use photo_sync.Effect.{Directory, Effect}
use photo_sync.Store.{PlanAction, PlanEntry, StoreRequest}
use photo_sync.Desktop.State.{
  Answered, Desktop, Pending, Running, Step, group_size, issue, issue_each, quiet,
}

-- The effect that carries a plan entry out.
unfoldable pub execute_effect : PlanEntry → FileId → Effect
execute_effect entry op = elim entry.action [
  | PlanAction.import name ↦ Effect.rename_into_vault op entry.file name
  | PlanAction.duplicate name ↦ Effect.remove_staging_file op entry.file
]

module _ {S : Type 0} where
  unfoldable pub insert_rows : Desktop S → Answered S
  insert_rows d = elim d.running [
    | none ↦ quiet d
    | some running ↦
        issue (Pending.commit Step.insert_rows)
          (λ op.
            Effect.store op
              (StoreRequest.insert_committed_batch running.plan.contents running.plan.device_files))
          d
  ]

  -- A group that is not empty: `running` is told of it and its entries are carried out.
  unfoldable pub execute_entries : Running → ℕ → List PlanEntry → Desktop S → Answered S
  execute_entries running end group d =
      issue_each (λ entry. Pending.commit (Step.execute entry.file)) execute_effect group
        (record d {
          running = some (record running {
            next = end;
            group = map (λ (e : PlanEntry). e.file) group;
            group_awaited = length group;
          });
        })

  unfoldable pub execute_group : Desktop S → Answered S
  execute_group d = elim d.running [
    | none ↦ quiet d
    | some running ↦
        let start = running.next in
        let end = min (start + group_size) (length running.plan.entries) in
        if leb end start
        then insert_rows d
        else execute_entries running end (take (end - start) (drop start running.plan.entries)) d
  ]

  unfoldable pub sync_vault : Desktop S → Answered S
  sync_vault d =
      issue (Pending.commit Step.sync_vault) (λ op. Effect.sync_directory op Directory.vault) d

  unfoldable pub entry_executed : Desktop S → Answered S
  entry_executed d = elim d.running [
    | none ↦ quiet d
    | some running ↦
        let left = saturating_sub running.group_awaited 1 in
        let d' = record d { running = some (record running { group_awaited = left }) } in
        if ltb 0 left then quiet d' else sync_vault d'
  ]

  unfoldable pub sync_staging : Desktop S → Answered S
  sync_staging d = elim d.running [
    | none ↦ quiet d
    | some running ↦
        issue (Pending.commit Step.sync_staging)
          (λ op. Effect.sync_directory op (Directory.staging running.device)) d
  ]

  unfoldable pub mark_group_done : Desktop S → Answered S
  mark_group_done d = elim d.running [
    | none ↦ quiet d
    | some running ↦
        issue (Pending.commit Step.mark_done)
          (λ op. Effect.store op (StoreRequest.mark_plan_entries_done running.device running.group))
          d
  ]

  -- `clear`: the log, the manifest, and the files for every other step.
  unfoldable pub clear : Step → Desktop S → Answered S
  clear step d = elim d.running [
    | none ↦ quiet d
    | some running ↦ elim step [
      | Step.clear_log ↦
          issue (Pending.commit Step.clear_log)
            (λ op. Effect.store op (StoreRequest.clear_commit_plan running.device)) d
      | Step.clear_manifest ↦
          issue (Pending.commit Step.clear_manifest)
            (λ op. Effect.store op (StoreRequest.clear_staging_manifest running.device)) d
      | _ ↦
          issue (Pending.commit Step.clear_files)
            (λ op. Effect.clear_staging_directory op running.device) d
    ]
  ]
