-- ===== src/Desktop/Rounds/Order.antt =====
-- desktop/crates/core/src/desktop/commit.rs: the order of what a commit does, over its groups and at its
-- end.
use photo_sync.Prelude.{
  ℕ, suc, length-map, map-append, ◌≢◌, ◌<◌, ◌≤◌, lt→ltb, List, [], ◌∷◌, ◌++◌, map, length, true,
  false, ◌≡◌, refl, ap, ◌∙◌, sym, ltb, leb, arith, nat_ord, list_ord,
}
use photo_sync.Prelude.Word.{saturating_sub}
use photo_sync.Id.{FileId}
use photo_sync.Digest.{Hasher}
use photo_sync.Store.{PlanEntry, StoreResponse}
use photo_sync.Desktop.State.{
  Answered, Desktop, Pending, Running, Step, also, begin, issue, issue_each, quiet,
}
use photo_sync.Desktop.Commit.{Answer, advance, answer_step, commit_step, take_answer}
use photo_sync.Desktop.Commit.Execute.{
  clear, entry_executed, insert_rows, execute_effect, execute_entries, execute_group,
  mark_group_done, sync_staging, sync_vault,
}
use photo_sync.Desktop.Rounds.{
  Task, awaiting, closing_tasks, entry_task, files_of, group_end, grouped, issue_each-running,
  issue_each-tasks, next_group, next_group-more, task_of, with_running,
}

module _ {S : Type 0} ⦃h : Hasher S⦄ where
  -- The entries of a group complete one after another.
  abbrev pub settle : List FileId → Desktop S → Answered S
  settle [] d = quiet d
  settle (file ∷ files) d =
      let r = commit_step (Step.execute file) Answer.done d in also r.0 (settle files r.1)

  pub executed-waits :
      (file : FileId) (n : ℕ) (running : Running) (d : Desktop S)
      → commit_step
          (Step.execute file)
          Answer.done
          (with_running (awaiting (suc (suc n)) running) d)
        ≡ quiet (with_running (awaiting (suc n) running) d)
  unfolding commit_step answer_step advance entry_executed
  executed-waits file n running d =
      let left : saturating_sub (suc (suc n)) 1 ≡ suc n = omega arith in
      let more : ltb 0 (suc n) ≡ true = lt→ltb 0 (suc n) (omega arith) in rw (left, more) refl

  pub executed-syncs :
      (file : FileId) (running : Running) (d : Desktop S)
      → commit_step (Step.execute file) Answer.done (with_running (awaiting 1 running) d)
        ≡ sync_vault (with_running (awaiting 0 running) d)
  unfolding commit_step answer_step advance entry_executed
  executed-syncs file running d = refl

  pub settle-syncs :
      (file : FileId) (files : List FileId) (running : Running) (d : Desktop S)
      → settle (file ∷ files) (with_running (awaiting (suc (length files)) running) d)
        ≡ sync_vault (with_running (awaiting 0 running) d)
  unfolding sync_vault issue
  settle-syncs file [] running d = ap (λ r. also r.0 (quiet r.1)) (executed-syncs file running d)
  settle-syncs file (next ∷ files) running d =
      ap (λ r. also r.0 (settle (next ∷ files) r.1)) (executed-waits file (length files) running d)
      ∙ settle-syncs next files running d

  -- The rest of a group's round, after its entries were asked for: they complete, and then the
  -- two directories are synced and the group is marked.
  abbrev pub close : List FileId → Desktop S → Answered S
  close files d =
      let settled = settle files d in
      let vault = commit_step Step.sync_vault Answer.done settled.1 in
      let staging = commit_step Step.sync_staging Answer.done vault.1 in
      (settled.0 ++ (vault.0 ++ staging.0), staging.1)

  close-tasks :
      (file : FileId) (files : List FileId) (running : Running) (d : Desktop S)
      → map task_of
          (close (file ∷ files) (with_running (awaiting (suc (length files)) running) d)).0
        ≡ Task.vault_synced
          ∷ Task.staging_synced running.device
          ∷ Task.marked running.device running.group
          ∷ []
  unfolding commit_step answer_step advance sync_vault sync_staging mark_group_done issue begin
  close-tasks file files running d =
      ap
        (λ settled.
          let vault = commit_step Step.sync_vault Answer.done settled.1 in
          let staging = commit_step Step.sync_staging Answer.done vault.1 in
          map task_of (settled.0 ++ (vault.0 ++ staging.0)))
        (settle-syncs file files running d)

  -- A whole round: the next group is asked for, and then closed.
  abbrev pub round : Running → Desktop S → Answered S
  round running d =
      let asked = execute_group (with_running running d) in
      let closed = close (files_of (next_group running)) asked.1 in (asked.0 ++ closed.0, closed.1)

  pub execute_group-asks :
      (running : Running) (d : Desktop S)
      → running.next < length running.plan.entries
      → execute_group (with_running running d)
        ≡ issue_each
            (λ entry. Pending.commit (Step.execute entry.file))
            execute_effect
            (next_group running)
            (with_running (grouped (next_group running) running) d)
  unfolding execute_group execute_entries
  execute_group-asks running d more =
      let goes_on : leb (group_end running) running.next ≡ false = ground (arith, more) in
      rw (execute_group, goes_on) refl

  pub execute_group-ends :
      (running : Running) (d : Desktop S)
      → length running.plan.entries ≤ running.next
      → execute_group (with_running running d) ≡ insert_rows (with_running running d)
  unfolding execute_group
  execute_group-ends running d all =
      let done : leb (group_end running) running.next ≡ true = ground (arith, all) in
      rw (execute_group, done)

  -- The operations of a group.
  abbrev pub asked : List PlanEntry → Running → Desktop S → Answered S
  asked group running d =
      issue_each (λ entry. Pending.commit (Step.execute entry.file)) execute_effect group
        (with_running (grouped group running) d)

  group-closes :
      (entry : PlanEntry) (entries : List PlanEntry) (running : Running) (d : Desktop S)
      → map task_of (close (files_of (entry ∷ entries)) (asked (entry ∷ entries) running d).1).0
        ≡ closing_tasks running.device (entry ∷ entries)
  group-closes entry entries running d =
      let group = entry ∷ entries in
      let (e, same) =
        issue_each-running (λ x. Pending.commit (Step.execute x.file)) group (grouped group running)
          d in
      ap (λ x. map task_of (close (files_of group) x).0)
        (same
          ∙ ap (λ n. with_running (awaiting (suc n) (grouped group running)) e)
              (sym (length-map (λ (x : PlanEntry). x.file) entries)))
      ∙ close-tasks entry.file (files_of entries) (grouped group running) e

  group-tasks :
      (group : List PlanEntry) (running : Running) (d : Desktop S)
      → group ≢ []
      → map task_of
          ((asked group running d).0 ++ (close (files_of group) (asked group running d).1).0)
        ≡ map entry_task group ++ closing_tasks running.device group
  group-tasks [] running d n = elim (n refl) [ ]
  group-tasks (entry ∷ entries) running d n =
      let group = entry ∷ entries in
      map-append task_of (asked group running d).0
        (close (files_of group) (asked group running d).1).0
      ∙ (ap (λ t. t ++ map task_of (close (files_of group) (asked group running d).1).0)
            (issue_each-tasks _ group (with_running (grouped group running) d))
          ∙ ap (λ t. map entry_task group ++ t) (group-closes entry entries running d))

  pub round-tasks :
      (running : Running) (d : Desktop S)
      → running.next < length running.plan.entries
      → map task_of (round running d).0
        ≡ map entry_task (next_group running) ++ closing_tasks running.device (next_group running)
  round-tasks running d more =
      ap (λ r. map task_of (r.0 ++ (close (files_of (next_group running)) r.1).0))
        (execute_group-asks running d more)
      ∙ group-tasks (next_group running) running d (next_group-more running more)

  abbrev stored : Step → Desktop S → Answered S
  stored step d = commit_step step (Answer.store StoreResponse.done) d

  -- The end of a commit whose groups are done.
  abbrev pub conclude : Running → Desktop S → Answered S
  conclude running d =
      let rows = execute_group (with_running running d) in
      let log = stored Step.insert_rows rows.1 in
      let manifest = stored Step.clear_log log.1 in
      let files = stored Step.clear_manifest manifest.1 in
      (rows.0 ++ (log.0 ++ (manifest.0 ++ files.0)), files.1)

  pub conclude-tasks :
      (running : Running) (d : Desktop S)
      → length running.plan.entries ≤ running.next
      → map task_of (conclude running d).0
        ≡ Task.recorded running.plan.contents running.plan.device_files
          ∷ Task.log_cleared running.device
          ∷ Task.manifest_cleared running.device
          ∷ Task.staging_cleared running.device
          ∷ []
  unfolding commit_step answer_step take_answer advance insert_rows clear issue begin
  conclude-tasks running d all =
      ap
        (λ rows.
          let log = stored Step.insert_rows rows.1 in
          let manifest = stored Step.clear_log log.1 in
          let files = stored Step.clear_manifest manifest.1 in
          map task_of (rows.0 ++ (log.0 ++ (manifest.0 ++ files.0))))
        (execute_group-ends running d all)
