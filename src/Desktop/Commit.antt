-- ===== src/Desktop/Commit.antt =====
-- desktop/crates/core/src/desktop/commit.rs: a step of the running commit is answered.
pub mod Execute
pub mod Queue
pub mod Gather
use photo_sync.Prelude.{
  List, [], ◌∷◌, ◌++◌, map, Option, none, some, Bool, true, false, list_ord, nat_ord, if◌then◌else◌,
}
use photo_sync.Prelude.Map.{Map, remove, add, collect, of_list}
use photo_sync.Prelude.Word.{saturating_sub}
use photo_sync.Id.{FileId, DevicePath}
use photo_sync.Digest.{RunningDigest}
use photo_sync.Naming.Civil.{Moment}
use photo_sync.Effect.{Effect, Message, Reason, StepName, UiUpdate}
use photo_sync.Session.{Nomination}
use photo_sync.Store.{ContentRow, DeviceFileRow, PlanEntry, StoreResponse}
use photo_sync.Desktop.State.{
  Answered, Desktop, Running, Step, also, error_log, info, only, quiet, warn,
}
use photo_sync.Desktop.Deletion.{nominate}
use Execute.{clear, entry_executed, execute_group, mark_group_done, sync_staging}
use Gather.{gather, set_running}
use Queue.{start_next_commit}

-- What a completed commit step answered with.
pub data Answer : Type 0 where
  done : Answer
  present : Bool → Answer
  store : StoreResponse → Answer
  failed : Reason → Answer

unfoldable pub describe_step : Step → StepName
describe_step Step.read_clock = StepName.reading_the_clock
describe_step Step.list_batch = StepName.reading_the_manifest
describe_step (Step.stat_staged file) = StepName.looking_for_the_staged file
describe_step Step.lookup_content = StepName.looking_content_up
describe_step Step.lookup_names = StepName.looking_up_the_names
describe_step Step.seal_plan = StepName.sealing_the_log
describe_step (Step.execute file) = StepName.moving_into_the_vault file
describe_step Step.sync_vault = StepName.making_the_vault_durable
describe_step Step.sync_staging = StepName.making_staging_durable
describe_step Step.mark_done = StepName.recording_a_group
describe_step Step.insert_rows = StepName.writing_the_rows
describe_step Step.clear_log = StepName.clearing_the_log
describe_step Step.clear_manifest = StepName.clearing_the_manifest
describe_step Step.clear_files = StepName.clearing_the_directory

abbrev pub nomination_of : Running → Nomination
nomination_of running = record {
  committed = of_list (map (λ (row : DeviceFileRow). row.path) running.plan.device_files);
  commit = running.plan.summary;
  awaited = 0;
  candidates = [];
}

module _ {S : Type 0} where
  -- The digests of a finished batch are forgotten.
  unfoldable pub forget_digests :
      List PlanEntry → Map FileId (RunningDigest S) → Map FileId (RunningDigest S)
  forget_digests [] digests = digests
  forget_digests (e ∷ es) digests = forget_digests es (remove e.file digests)

  unfoldable pub finish : Desktop S → Answered S
  finish d = elim d.running [
    | none ↦ quiet d
    | some running ↦
        let d' = record d {
          running = none;
          durable_digests = forget_digests running.plan.entries d.durable_digests;
        } in
        let nominated = nominate running.device (nomination_of running) d' in
        also
          (Effect.notify_ui (UiUpdate.commit_finished running.device running.plan.summary)
            ∷ nominated.0)
          (start_next_commit nominated.1)
  ]

  unfoldable pub halt : Step → Reason → Desktop S → Answered S
  halt step reason d = elim d.running [
    | none ↦ quiet d
    | some running ↦
        also
          (error_log (Message.commit_stopped running.device (describe_step step) reason)
            ∷ Effect.notify_ui (UiUpdate.error running.device (Message.import_stopped reason))
            ∷ info (Message.stays_locked running.device)
            ∷ [])
          (start_next_commit (record d { running = none; halted = add running.device d.halted }))
  ]

  unfoldable pub advance : Step → Desktop S → Answered S
  advance Step.seal_plan d = execute_group d
  advance (Step.execute file) d = entry_executed d
  advance Step.sync_vault d = sync_staging d
  advance Step.sync_staging d = mark_group_done d
  advance Step.mark_done d = execute_group d
  advance Step.insert_rows d = clear Step.clear_log d
  advance Step.clear_files d = finish d
  advance Step.clear_log d = clear Step.clear_manifest d
  advance Step.clear_manifest d = clear Step.clear_files d
  advance _ d = quiet d

  -- `take_answer`, while a commit runs.
  unfoldable pub take_answer : Running → Step → StoreResponse → Desktop S → Answered S
  take_answer running Step.list_batch (StoreResponse.staging_entries entries) d =
      gather (set_running (record running { entries = some entries }) d)
  take_answer running Step.lookup_content (StoreResponse.content rows) d = gather (
      set_running
        (record running {
          known_content = some (collect (map (λ (r : ContentRow). (r.digest, r.vault_name)) rows));
        })
        d)
  take_answer running Step.lookup_names (StoreResponse.vault_names names) d =
      gather (set_running (record running { taken = some (of_list names) }) d)
  take_answer running step response d = advance step d

  -- `record_stat`, while a commit runs.
  unfoldable pub record_stat : Running → Step → Bool → Desktop S → Answered S
  record_stat running (Step.stat_staged file) found d = gather (
      set_running
        (record running {
          missing = if found then running.missing else add file running.missing;
          stats_awaited = saturating_sub running.stats_awaited 1;
        })
        d)
  record_stat running step found d = quiet d

  unfoldable pub answer_step : Running → Step → Answer → Desktop S → Answered S
  answer_step running step (Answer.failed reason) d = halt step reason d
  answer_step running step Answer.done d = advance step d
  answer_step running step (Answer.store response) d = take_answer running step response d
  answer_step running step (Answer.present found) d = record_stat running step found d

  unfoldable pub commit_step : Step → Answer → Desktop S → Answered S
  commit_step step answer d = elim d.running [
    | none ↦ only (warn Message.step_for_no_commit) d
    | some running ↦ answer_step running step answer d
  ]

  unfoldable pub clock_read : Moment → Desktop S → Answered S
  clock_read moment d = elim d.running [
    | none ↦ only (warn Message.clock_for_no_commit) d
    | some running ↦ gather (set_running (record running { moment = some moment }) d)
  ]
