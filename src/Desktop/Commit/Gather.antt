-- ===== src/Desktop/Commit/Gather.antt =====
-- desktop/crates/core/src/desktop/commit.rs: the answers that a plan is built from, and sealing it.
use photo_sync.Prelude.{
  List, [], ◌++◌, map, filter, filter_map, length, none, some, Bool, true, ◌&&◌, eqb, is_some,
  list_ord, nat_ord, if◌then◌else◌,
}
use photo_sync.Prelude.Map.{Map, Set, contains, keys, of_list}
use photo_sync.Id.{Text, Sha256, VaultName}
use photo_sync.Naming
use photo_sync.Naming.Civil.{Moment}
use photo_sync.Effect.{Effect, Message}
use photo_sync.Store.{PlanEntry, StagingEntry, StoreRequest, is_verified}
use photo_sync.Commit
use photo_sync.Commit.{Plan}
use photo_sync.Desktop.State.{
  Answered, Desktop, Pending, Running, Step, also, issue, issue_each, quiet, warn,
}
use photo_sync.Desktop.Commit.Execute.{execute_group}

unfoldable pub is_gathered : Running → Bool
is_gathered running =
    running.asked
    && eqb running.stats_awaited 0
    && is_some running.known_content
    && is_some running.taken

-- The staged files that a sealed plan names.
unfoldable pub replay_batch : List PlanEntry → List StagingEntry → List StagingEntry
replay_batch sealed entries =
    let known = of_list (map (λ (e : PlanEntry). e.file) sealed) in
    filter (λ entry. contains entry.file known) entries

-- The names' stems, without repetition and in order.
unfoldable pub stems_of : List StagingEntry → Moment → List Text
stems_of batch moment =
    keys (of_list (map (λ (e : StagingEntry). Naming.stem e.name_sources moment.local) batch))

module _ {S : Type 0} where
  abbrev pub set_running : Running → Desktop S → Desktop S
  set_running running d = record d { running = some running }

  unfoldable pub stat_each : List StagingEntry → Desktop S → Answered S
  stat_each batch d =
      issue_each (λ entry. Pending.commit (Step.stat_staged entry.file))
        (λ entry op. Effect.stat_staging_file op entry.file) batch d

  unfoldable pub ask_about : List StagingEntry → Moment → Desktop S → Answered S
  ask_about batch moment d =
      let digests = filter_map (λ (e : StagingEntry). e.digest) batch in
      let stats = stat_each batch d in
      let content =
        issue (Pending.commit Step.lookup_content)
          (λ op. Effect.store op (StoreRequest.lookup_content digests)) stats.1 in
      let names =
        issue (Pending.commit Step.lookup_names)
          (λ op. Effect.store op (StoreRequest.taken_vault_names (stems_of batch moment)))
          content.1 in
      (stats.0 ++ (content.0 ++ names.0), names.1)

  -- Finishing a plan that is already sealed.
  unfoldable pub seal_replay :
      Running → List PlanEntry → Moment → List StagingEntry → Desktop S → Answered S
  seal_replay running sealed moment entries d =
      let plan = Commit.replay running.device sealed entries running.missing moment.at in
      also (map (λ file. warn (Message.no_row_left file)) plan.dropped)
        (execute_group (set_running (record running { plan = plan }) d))

  -- Building the plan and asking for it to be sealed.
  unfoldable pub seal_new :
      Running
      → Moment
      → List StagingEntry
      → Map Sha256 VaultName
      → Set VaultName
      → Desktop S
      → Answered S
  seal_new running moment entries known_content taken d =
      let plan = Commit.plan (record {
        device = running.device;
        entries = entries;
        missing = running.missing;
        known_content = known_content;
        taken_names = taken;
        imported_at = moment;
      }) in
      also (map (λ file. warn (Message.dropped_without_file file)) plan.dropped) (
        issue (Pending.commit Step.seal_plan)
          (λ op. Effect.store op (StoreRequest.seal_commit_plan running.device plan.entries))
          (set_running (record running { plan = plan }) d))

  -- `seal`, once its four answers are bound.
  unfoldable pub seal_with :
      Running
      → Moment
      → List StagingEntry
      → Map Sha256 VaultName
      → Set VaultName
      → Desktop S
      → Answered S
  seal_with running moment entries known_content taken d = elim running.replaying [
    | some sealed ↦ seal_replay running sealed moment entries d
    | none ↦ seal_new running moment entries known_content taken d
  ]

  -- `seal`; a plan waits for the content known and the names taken.
  unfoldable pub seal : Running → Moment → List StagingEntry → Desktop S → Answered S
  seal running moment entries d = elim running.known_content [
    | none ↦ quiet d
    | some known_content ↦ elim running.taken [
      | none ↦ quiet d
      | some taken ↦ seal_with running moment entries known_content taken d
    ]
  ]

  -- The branch of `gather` that asks the questions.
  unfoldable pub ask : Running → Moment → List StagingEntry → Desktop S → Answered S
  ask running moment entries d = elim running.replaying [
    | some sealed ↦
        let batch = replay_batch sealed entries in
        stat_each batch (
          set_running
            (record running {
              asked = true;
              stats_awaited = length batch;
              known_content = some [];
              taken = some [];
            })
            d)
    | none ↦
        let batch = filter is_verified entries in
        ask_about batch moment
          (set_running (record running { asked = true; stats_awaited = length batch }) d)
  ]

  -- `gather`, once the clock and the manifest are in hand.
  unfoldable pub gather_with : Running → Moment → List StagingEntry → Desktop S → Answered S
  gather_with running moment entries d =
      if running.asked
      then (if is_gathered running then seal running moment entries d else quiet d)
      else ask running moment entries d

  unfoldable pub gather : Desktop S → Answered S
  gather d = elim d.running [
    | none ↦ quiet d
    | some running ↦ elim running.moment [
      | none ↦ quiet d
      | some moment ↦ elim running.entries [
        | none ↦ quiet d
        | some entries ↦ gather_with running moment entries d
      ]
    ]
  ]
