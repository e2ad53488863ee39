-- ===== src/Desktop/Rounds/Whole.antt =====
-- desktop/crates/core/src/desktop/commit.rs: a commit from its sealed plan to its end.
use photo_sync.Prelude.{
  ℕ, zero, suc, ◌+◌, ◌≤◌, ◌<◌, ◌≢◌, List, [], ◌∷◌, ◌++◌, map, length, map-append, append_assoc, ◌≡◌,
  refl, sym, ap, subst, drop-length, ◌∙◌, ltb, arith, inl, inr, Bool-cases, nat_ord, list_ord,
}
use photo_sync.Digest.{Hasher}
use photo_sync.Effect.{Effect, UiUpdate}
use photo_sync.Id.{DeviceId, OpId}
use photo_sync.Commit.{Plan}
use photo_sync.Store.{PlanEntry, StoreRequest, StoreResponse}
use photo_sync.Desktop.State.{Answered, Desktop, Pending, Running, Step, begin, issue}
use photo_sync.Desktop.Commit.{Answer, advance, answer_step, commit_step, finish, take_answer}
use photo_sync.Desktop.Commit.Execute.{
  clear, execute_group, insert_rows, mark_group_done, sync_staging, sync_vault,
}
use photo_sync.Desktop.Rounds.{
  awaiting, closing_tasks, entry_task, files_of, grouped, issue_each-running, issue_each-tasks,
  next_group, next_group-more, task_of, with_running,
}
use photo_sync.Desktop.Rounds.Answering.{Runs, Runs-trans, settles, succeeded}
use photo_sync.Desktop.Rounds.Carrying.{CarriesOut, advanced, round-CarriesOut}
use photo_sync.Desktop.Rounds.Order.{asked, execute_group-asks, execute_group-ends}

-- What a group leads to once it was asked for, up to the mark of its files.
record Closes {S : Type 0} ⦃h : Hasher S⦄ (running : Running) (group : List PlanEntry)
    (start : Answered S) : Type 0 where
  emitted : List Effect
  op : OpId
  after : Desktop S
  runs :
      Runs
        (Effect.store op (StoreRequest.mark_plan_entries_done running.device (files_of group)) ∷ [])
        (with_running (awaiting 0 (grouped group running)) after)
        start.0
        start.1
        emitted
  tasks : map task_of emitted ≡ closing_tasks running.device group

-- The run of a commit from the effects it has just emitted: they and all that the core emits for
-- them are answered, until the clearing of the staging directory is asked for.
pub record Concludes {S : Type 0} ⦃h : Hasher S⦄ (running : Running) (start : Answered S)
    : Type 0 where
  pub emitted : List Effect
  pub op : OpId
  pub ending : Running
  pub last : Desktop S
  pub runs :
      Runs
        (Effect.clear_staging_directory op running.device ∷ [])
        (with_running ending last)
        start.0
        start.1
        emitted
  pub same : (ending.device ≡ running.device) × (ending.plan ≡ running.plan)
  pub out : CarriesOut running (map task_of (start.0 ++ emitted))

module _ {S : Type 0} ⦃h : Hasher S⦄ where
  -- What the core answers when the plan of a running commit has been sealed.
  abbrev pub sealed : Running → Desktop S → Answered S
  sealed running d =
      commit_step Step.seal_plan (Answer.store StoreResponse.done) (with_running running d)

  -- A commit that comes to its end, and what the core does when its last operation has succeeded.
  pub record Finishes (running : Running) (d : Desktop S) : Type 0 where
    pub whole : Concludes running (sealed running d)
    pub more : List Effect
    pub told :
        (succeeded
          (Effect.clear_staging_directory whole.op running.device)
          (with_running whole.ending whole.last)).0
        ≡ Effect.notify_ui (UiUpdate.commit_finished running.device running.plan.summary) ∷ more

module _ {S : Type 0} ⦃h : Hasher S⦄ where
  group-Closes :
      (group : List PlanEntry) (running : Running) (d : Desktop S)
      → group ≢ []
      → Closes running group (asked group running d)
  unfolding commit_step answer_step advance sync_vault sync_staging mark_group_done issue begin
  group-Closes [] running d n = elim (n refl) [ ]
  group-Closes (entry ∷ entries) running d n =
      let group = entry ∷ entries in
      let pending = λ (x : PlanEntry). Pending.commit (Step.execute x.file) in
      let (e, same) = issue_each-running pending group (grouped group running) d in
      let vault = sync_vault (with_running (awaiting 0 (grouped group running)) e) in
      let staging = commit_step Step.sync_vault Answer.done vault.1 in
      let mark = commit_step Step.sync_staging Answer.done staging.1 in
      let out = vault.0 ++ (staging.0 ++ (mark.0 ++ [])) in
      record {
        emitted = out;
        op = staging.1.next_op;
        after = mark.1;
        runs =
            subst
              (λ at.
                Runs mark.0 (with_running (awaiting 0 (grouped group running)) mark.1)
                  (asked group running d).0 at out)
              (sym same)
              (settles pending entry entries (with_running (grouped group running) d)
                (grouped group running) e (Runs.go (Runs.go Runs.stop)));
        tasks = refl;
      }

  -- No entry is left: the rows are recorded, and everything is cleared.
  ends-Concludes :
      (running : Running) (d : Desktop S)
      → length running.plan.entries ≤ running.next
      → Concludes running (execute_group (with_running running d))
  unfolding commit_step answer_step take_answer advance insert_rows clear issue begin
  ends-Concludes running d all =
      let rows = insert_rows (with_running running d) in
      let log = commit_step Step.insert_rows (Answer.store StoreResponse.done) rows.1 in
      let manifest = commit_step Step.clear_log (Answer.store StoreResponse.done) log.1 in
      let files = commit_step Step.clear_manifest (Answer.store StoreResponse.done) manifest.1 in
      subst (Concludes running) (sym (execute_group-ends running d all)) (record {
        emitted = log.0 ++ (manifest.0 ++ (files.0 ++ []));
        op = manifest.1.next_op;
        ending = running;
        last = files.1;
        runs = Runs.go (Runs.go (Runs.go Runs.stop));
        same = (refl, refl);
        out = record {
          groups = [];
          rest = sym (drop-length running.next running.plan.entries all);
          bounded = tt;
          done = refl;
        };
      })

  -- A group, its mark, and the rest of the commit.
  group-Concludes :
      (running : Running) (d : Desktop S)
      → running.next < length running.plan.entries
      → ((e : Desktop S)
          → Concludes (advanced running) (execute_group (with_running (advanced running) e)))
      → Concludes running (execute_group (with_running running d))
  unfolding commit_step answer_step take_answer advance
  group-Concludes running d more later =
      let group = next_group running in
      let start = asked group running d in
      let this = group-Closes group running d (next_group-more running more) in
      let next = later this.after in
      let again = execute_group (with_running (advanced running) this.after) in
      let tasks : map task_of (start.0 ++ this.emitted)
          ≡ map entry_task group ++ closing_tasks running.device group =
        map-append task_of start.0 this.emitted
        ∙ (ap (λ t. t ++ map task_of this.emitted)
              (issue_each-tasks _ group (with_running (grouped group running) d))
            ∙ ap (λ t. map entry_task group ++ t) this.tasks) in
      let out = again.0 ++ next.emitted in
      subst (Concludes running) (sym (execute_group-asks running d more)) (record {
        emitted = this.emitted ++ out;
        op = next.op;
        ending = next.ending;
        last = next.last;
        runs = Runs-trans this.runs (Runs.go next.runs);
        same = next.same;
        out =
            subst (CarriesOut running)
              (sym (map-append task_of (start.0 ++ this.emitted) out)
                ∙ ap (map task_of) (append_assoc start.0 this.emitted out))
              (round-CarriesOut running (map task_of (start.0 ++ this.emitted)) (map task_of out)
                more tasks next.out);
      })

  goes_on-Concludes :
      (left : ℕ) (running : Running) (d : Desktop S)
      → length running.plan.entries ≤ running.next + left
      → Concludes running (execute_group (with_running running d))
  goes_on-Concludes zero running d enough = ends-Concludes running d (omega (arith, enough))
  goes_on-Concludes (suc left) running d enough =
      elim (Bool-cases (ltb running.next (length running.plan.entries))) [
        | inr over ↦ ends-Concludes running d (ground (arith, over))
        | inl on ↦
            let more : running.next < length running.plan.entries = ground (arith, on) in
            group-Concludes running d more
              (λ e. goes_on-Concludes left (advanced running) e (omega (arith, enough, more)))
      ]

  pub sealed-Concludes : (running : Running) (d : Desktop S) → Concludes running (sealed running d)
  unfolding commit_step answer_step take_answer advance
  sealed-Concludes running d =
      goes_on-Concludes (length running.plan.entries) running d (omega arith)

  -- The clearing of the staging directory has succeeded: the commit is reported as finished.
  reports :
      (running : Running) (op : OpId) (device : DeviceId) (d : Desktop S)
      → (more : List Effect) × ((succeeded
            (Effect.clear_staging_directory op device)
            (with_running running d)).0
          ≡ Effect.notify_ui (UiUpdate.commit_finished running.device running.plan.summary) ∷ more)
  unfolding commit_step answer_step advance finish
  reports running op device d = (_, refl)

  pub sealed-Finishes : (running : Running) (d : Desktop S) → Finishes running d
  sealed-Finishes running d =
      let whole = sealed-Concludes running d in
      let (more, told) = reports whole.ending whole.op running.device whole.last in
      record {
        whole = whole;
        more = more;
        told =
            told
            ∙ ap
                (λ device.
                  Effect.notify_ui (UiUpdate.commit_finished device whole.ending.plan.summary)
                  ∷ more)
                whole.same.0
            ∙ ap
                (λ (p : Plan).
                  Effect.notify_ui (UiUpdate.commit_finished running.device p.summary) ∷ more)
                whole.same.1;
      }
