-- ===== src/Desktop/Commit/Queue.antt =====
-- desktop/crates/core/src/desktop/commit.rs: who may commit, and which commit runs next.
use photo_sync.Prelude.{
  List, [], ◌∷◌, ◌++◌, length, Option, none, some, Bool, false, ◌||◌, ◌==◌, list_ord, nat_ord,
  if◌then◌else◌,
}
use photo_sync.Prelude.Map.{lookup, remove, add, contains}
use photo_sync.Id.{DeviceId}
use photo_sync.Effect.{Effect, Message, RejectReason, UiUpdate}
use photo_sync.Store.{PlanEntry, StagingEntry, StoreRequest}
use photo_sync.Desktop.State.{
  Answered, Desktop, Pending, Running, Step, also, info, issue, only, quiet, running_new, warn,
}

-- Whether the running commit is this device's.
unfoldable pub is_running : DeviceId → Option Running → Bool
is_running device none = false
is_running device (some running) = running.device == device

abbrev pub or_none : Option (List StagingEntry) → List StagingEntry
or_none none = []
or_none (some entries) = entries

module _ {S : Type 0} where
  unfoldable pub is_committing : DeviceId → Desktop S → Bool
  is_committing device d =
      contains device d.halted || contains device d.queued || is_running device d.running

  unfoldable pub refuse_while_committing : DeviceId → Desktop S → Answered S
  refuse_while_committing device d = (
    info (Message.connected_while_finishing device)
        ∷ Effect.reject_session device RejectReason.commit_in_progress
        ∷ [],
    d,
  )

  unfoldable pub start_replay : DeviceId → List PlanEntry → Desktop S → Answered S
  start_replay device sealed d =
      let running = record (running_new device) {
        replaying = some sealed;
        entries = some (or_none (lookup device d.recovered));
      } in
      also (Effect.notify_ui (UiUpdate.commit_started device) ∷ []) (
        issue (Pending.commit Step.read_clock) Effect.read_clock
          (record d { recovered = remove device d.recovered; running = some running }))

  -- A commit of the device's own staging.
  unfoldable pub start_commit : DeviceId → Desktop S → Answered S
  start_commit device d =
      let clock =
        issue (Pending.commit Step.read_clock) Effect.read_clock
          (record d { queued = remove device d.queued; running = some (running_new device) }) in
      also (Effect.notify_ui (UiUpdate.commit_started device) ∷ clock.0) (
        issue (Pending.commit Step.list_batch)
          (λ op. Effect.store op (StoreRequest.list_staging_entries device)) clock.1)

  -- `self.order.pop_front()`
  unfoldable pub start_queued : List DeviceId → Desktop S → Answered S
  start_queued [] d = quiet d
  start_queued (device ∷ rest) d = start_commit device (record d { order = rest })

  -- `self.to_replay.pop_front()`
  unfoldable pub start_waiting : List (DeviceId × List PlanEntry) → Desktop S → Answered S
  start_waiting [] d = start_queued d.order d
  start_waiting ((device, sealed) ∷ rest) d =
      start_replay device sealed (record d { to_replay = rest })

  unfoldable pub start_next_commit : Desktop S → Answered S
  start_next_commit d = elim d.running [
    | some running ↦ quiet d
    | none ↦ start_waiting d.to_replay d
  ]

  unfoldable pub enqueue_commit : DeviceId → Desktop S → Answered S
  enqueue_commit device d =
      if is_committing device d
      then only (warn (Message.asked_to_finish_twice device)) d
      else start_next_commit
          (record d { queued = add device d.queued; order = d.order ++ device ∷ [] })

  unfoldable pub plan_recovered : DeviceId → Option (List PlanEntry) → Desktop S → Answered S
  plan_recovered device none d = quiet (record d { recovered = remove device d.recovered })
  plan_recovered device (some plan) d =
      also (info (Message.part_way_through device (length plan)) ∷ [])
        (start_next_commit (record d { to_replay = d.to_replay ++ (device, plan) ∷ [] }))
