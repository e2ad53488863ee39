-- ===== src/Desktop/Rounds/Answering.antt =====
-- desktop/crates/core/src/desktop/commit.rs: the effects of a commit, answered one after another.
use photo_sync.Prelude.{
  suc, List, [], ◌∷◌, ◌++◌, append-nil, append_assoc, length, ◌≡◌, refl, sym, subst, ◌∙◌, list_ord,
  nat_ord,
}
use photo_sync.Id.{OpId}
use photo_sync.Digest.{Hasher}
use photo_sync.Effect.{Directory, Effect}
use photo_sync.Store.{PlanAction, PlanEntry, StoreRequest, StoreResponse}
use photo_sync.Desktop.State.{Answered, Desktop, Pending, Running, Step, begin, issue_each, quiet}
use photo_sync.Desktop.Commit.{Answer, commit_step}
use photo_sync.Desktop.Commit.Execute.{execute_effect, sync_vault}
use photo_sync.Desktop.Rounds.{awaiting, with_running}
use photo_sync.Desktop.Rounds.Order.{executed-syncs, executed-waits}

module _ {S : Type 0} ⦃h : Hasher S⦄ where
  -- The core's step when the operation of an effect has succeeded.
  abbrev pub succeeded : Effect → Desktop S → Answered S
  succeeded (Effect.rename_into_vault op file name) d =
      commit_step (Step.execute file) Answer.done d
  succeeded (Effect.remove_staging_file op file) d = commit_step (Step.execute file) Answer.done d
  succeeded (Effect.sync_directory op Directory.vault) d = commit_step Step.sync_vault Answer.done d
  succeeded (Effect.sync_directory op (Directory.staging device)) d =
      commit_step Step.sync_staging Answer.done d
  succeeded (Effect.store op (StoreRequest.mark_plan_entries_done device files)) d =
      commit_step Step.mark_done (Answer.store StoreResponse.done) d
  succeeded (Effect.store op (StoreRequest.insert_committed_batch contents rows)) d =
      commit_step Step.insert_rows (Answer.store StoreResponse.done) d
  succeeded (Effect.store op (StoreRequest.clear_commit_plan device)) d =
      commit_step Step.clear_log (Answer.store StoreResponse.done) d
  succeeded (Effect.store op (StoreRequest.clear_staging_manifest device)) d =
      commit_step Step.clear_manifest (Answer.store StoreResponse.done) d
  succeeded (Effect.clear_staging_directory op device) d =
      commit_step Step.clear_files Answer.done d
  succeeded _ d = quiet d

  -- Effects answered in the order in which the core emitted them: what it emits while they are, and
  -- what is left to answer at the end. Nothing but the core's own answers adds an effect.
  pub data Runs (left : List Effect) (last : Desktop S)
      : List Effect → Desktop S → List Effect → Type 0 where
    stop : Runs left last left last []
    go :
        {e : Effect} {es : List Effect} {d : Desktop S} {out : List Effect}
        → Runs left last (es ++ (succeeded e d).0) (succeeded e d).1 out
        → Runs left last (e ∷ es) d ((succeeded e d).0 ++ out)

  pub go_as :
      {left : List Effect} {last : Desktop S} {e : Effect} {es : List Effect} {d : Desktop S}
      (r : Answered S) {out : List Effect}
      → succeeded e d ≡ r
      → Runs left last (es ++ r.0) r.1 out
      → Runs left last (e ∷ es) d (r.0 ++ out)
  go_as {left} {last} {e} {es} {d} r {out} same k =
      subst (λ x. Runs left last (es ++ x.0) x.1 out → Runs left last (e ∷ es) d (x.0 ++ out)) same
        (λ m. Runs.go m) k

  -- A run and the run from where it ends.
  pub Runs-trans :
      {left middle : List Effect} {last between : Desktop S} {q : List Effect} {d : Desktop S}
      {out more : List Effect}
      → Runs middle between q d out
      → Runs left last middle between more
      → Runs left last q d (out ++ more)
  Runs-trans Runs.stop k = k
  Runs-trans {left} {last} {more = more} (Runs.go {e} {es} {d} {out} m) k =
      subst (λ o. Runs left last (e ∷ es) d o) (sym (append_assoc (succeeded e d).0 out more))
        (Runs.go (Runs-trans m k))

  executes :
      (entry : PlanEntry) (op : OpId) (d : Desktop S)
      → succeeded (execute_effect entry op) d ≡ commit_step (Step.execute entry.file) Answer.done d
  unfolding execute_effect
  executes entry op d =
      elim entry.action
        as (λ action.
          succeeded
            (elim action as (λ x. Effect) [
              | PlanAction.import name ↦ Effect.rename_into_vault op entry.file name
              | PlanAction.duplicate name ↦ Effect.remove_staging_file op entry.file
            ])
            d
          ≡ commit_step (Step.execute entry.file) Answer.done d) [
            | PlanAction.import name ↦ refl
            | PlanAction.duplicate name ↦ refl
          ]

  -- The operations of a group complete, and the last completion leads to the vault's sync.
  pub settles :
      {left : List Effect} {last : Desktop S} {out : List Effect} (pending : PlanEntry → Pending S)
      (entry : PlanEntry) (entries : List PlanEntry) (asking : Desktop S) (running : Running)
      (d : Desktop S)
      → Runs left last
          (sync_vault (with_running (awaiting 0 running) d)).0
          (sync_vault (with_running (awaiting 0 running) d)).1
          out
      → Runs left last
          (issue_each pending execute_effect (entry ∷ entries) asking).0
          (with_running (awaiting (suc (length entries)) running) d)
          ((sync_vault (with_running (awaiting 0 running) d)).0 ++ out)
  unfolding issue_each
  settles pending entry [] asking running d k =
      go_as (sync_vault (with_running (awaiting 0 running) d))
        (executes entry asking.next_op _ ∙ executed-syncs entry.file running d) k
  settles {left} {last} {out} pending entry (next ∷ entries) asking running d k =
      go_as (quiet (with_running (awaiting (suc (length entries)) running) d))
        (executes entry asking.next_op _ ∙ executed-waits entry.file (length entries) running d)
        (subst
          (λ q.
            Runs left last q (with_running (awaiting (suc (length entries)) running) d)
              ((sync_vault (with_running (awaiting 0 running) d)).0 ++ out))
          (sym (append-nil _))
          (settles pending next entries (begin (pending entry) asking) running d k))
