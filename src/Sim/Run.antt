-- ===== src/Sim/Run.antt =====
-- desktop/crates/sim/src/run.rs: the core driven by simulated storage, one effect after another.
use photo_sync.Prelude.{
  ℕ, zero, suc, List, [], ◌∷◌, ◌++◌, Option, none, some, Bool, true, false, ◌||◌, is_some, list_ord,
  nat_ord, pair_ord, if◌then◌else◌,
}
use photo_sync.Prelude.Int.{int_ord}
use photo_sync.Prelude.Word.{add_u64}
use photo_sync.Id.{DeviceId, Sha256}
use photo_sync.Digest
use photo_sync.Digest.{Hasher}
use photo_sync.Port.{StorageError}
use photo_sync.Store.{DeviceFileRow, StagingEntry, StoreError, StoreRequest}
use photo_sync.Effect.{Effect}
use photo_sync.Event.{Event, Result, StorageOutcome}
use photo_sync.Oracle.{expect_import, observe, remember_vault_copy, upload_refused}
use photo_sync.Desktop.{handle}
use photo_sync.Desktop.State.{desktop_new}
use photo_sync.Sim.Storage
use photo_sync.Sim.Storage.{holds, read_range, sources_of, stat_vault}
use photo_sync.Sim.Disk.{Bytes, Storage}
use photo_sync.Sim.Store
use photo_sync.Sim.Store.{Store, remember_row, store_new}
use photo_sync.Sim.World.{
  Faults, Simulation, op_done, op_gave, op_failed, unreadable, is_full, is_verified_outcome,
  size_or_zero,
}

module _ {S : Type 0} where
  abbrev pub with_storage : (Storage → Storage) → Simulation S → Simulation S
  with_storage f sim = record sim { storage = f sim.storage }

  abbrev pub unless : Bool → (Storage → Storage) → Simulation S → Simulation S
  unless refused f sim = if refused then sim else with_storage f sim

  unfoldable pub refuses_write : Simulation S → Bool
  refuses_write sim = sim.faults.refuse_writes || is_full sim.faults.refuse_write_after sim.writes

  -- What performing an effect changes.
  unfoldable pub apply : Effect → Simulation S → Simulation S
  apply (Effect.create_staging_file op device file) sim =
      with_storage (Storage.create device file) sim
  apply (Effect.write_chunk op file offset bytes) sim =
      if refuses_write sim
      then sim
      else record (with_storage (Storage.write_at file offset bytes) sim) {
        writes = add_u64 sim.writes 1;
      }
  apply (Effect.sync_file op file) sim = unless sim.faults.lying_fsync (Storage.sync_file file) sim
  apply (Effect.sync_directory op directory) sim =
      unless sim.faults.lying_fsync (Storage.sync_directory directory) sim
  apply (Effect.truncate_file op file n) sim = with_storage (Storage.truncate file n) sim
  apply (Effect.finalize_staging_file op file) sim = with_storage (Storage.finalize file) sim
  apply (Effect.rename_into_vault op file name) sim =
      unless sim.faults.refuse_renames (Storage.rename_into_vault file name) sim
  apply (Effect.remove_staging_file op file) sim = with_storage (Storage.remove_file file) sim
  apply (Effect.clear_staging_directory op device) sim =
      with_storage (Storage.clear_staging device) sim
  apply (Effect.set_modified_time op file mtime) sim =
      with_storage (Storage.set_modified_time file mtime) sim
  apply (Effect.store op request) sim =
      if sim.faults.refuse_store then sim else record sim { store = Store.change request sim.store }
  apply (Effect.send_upload_result device file outcome) sim =
      if is_verified_outcome outcome
      then sim
      else record sim { model = upload_refused file sim.model }
  apply effect sim = sim

  -- The event that performing an effect answers with.
  unfoldable pub completion : Effect → Simulation S → Option Event
  completion (Effect.create_staging_file op device file) sim = op_done op
  completion (Effect.write_chunk op file offset bytes) sim =
      if refuses_write sim then op_failed op StorageError.no_space else op_done op
  completion (Effect.sync_file op file) sim = op_done op
  completion (Effect.sync_directory op directory) sim = op_done op
  completion (Effect.truncate_file op file n) sim = op_done op
  completion (Effect.finalize_staging_file op file) sim = op_done op
  completion (Effect.read_name_sources op file mtime) sim =
      if sim.faults.refuse_name_sources
      then op_failed op unreadable
      else op_gave op (StorageOutcome.name_sources (sources_of file mtime sim.storage))
  completion (Effect.rename_into_vault op file name) sim =
      if sim.faults.refuse_renames then op_failed op StorageError.no_space else op_done op
  completion (Effect.remove_staging_file op file) sim = op_done op
  completion (Effect.clear_staging_directory op device) sim = op_done op
  completion (Effect.set_modified_time op file mtime) sim = op_done op
  completion (Effect.read_staged_range op file offset n) sim =
      if sim.faults.refuse_staged_reads
      then op_failed op unreadable
      else op_gave op (StorageOutcome.bytes (read_range file offset n sim.storage))
  completion (Effect.stat_staging_file op file) sim =
      op_gave op (StorageOutcome.staging_file (holds file sim.storage))
  completion (Effect.stat_vault_file op name) sim =
      if sim.faults.refuse_vault_stats
      then op_failed op unreadable
      else let found = stat_vault name sim.storage in
        op_gave op (StorageOutcome.vault_file (is_some found) (size_or_zero found))
  completion (Effect.store op request) sim =
      if sim.faults.refuse_store
      then some (Event.store_op_completed op (Result.err StoreError.no_space))
      else some (Event.store_op_completed op (Result.ok (Store.answer request sim.store)))
  completion (Effect.measure_free_space op) sim = some (Event.free_space_measured op sim.free_space)
  completion (Effect.read_clock op) sim = some (Event.clock_read op sim.now)
  completion (Effect.set_timer op at) sim = some (Event.timer_fired op at)
  completion effect sim = none

  -- `perform`, and the effect in the log.
  unfoldable pub perform : Effect → Simulation S → Option Event × Simulation S
  perform effect sim =
      let after = apply effect sim in
      (completion effect sim, record after { log = after.log ++ effect ∷ [] })

abbrev pub is_held : Faults → Effect → Bool
is_held faults (Effect.stat_staging_file op file) = faults.answer_stats_last
is_held faults effect = false

-- `digest`
unfoldable pub digest_of : {S : Type 0} → Hasher S → Bytes → Sha256
digest_of h bytes = Digest.peek ⦃h = h⦄ (Digest.update ⦃h = h⦄ (Digest.new ⦃h = h⦄) bytes)

module _ {S : Type 0} ⦃h : Hasher S⦄ where
  -- An event handed to the core, and the effects it leads to.
  unfoldable pub react : Event → Simulation S → List Effect × Simulation S
  react event sim =
      let (effects, desktop) = handle event sim.desktop in
      (effects, record sim { desktop = desktop })

  -- The loop of `deliver`, on fuel: the queue of effects, and the completions held back. The
  -- result is what is left of both.
  unfoldable pub drain :
      ℕ → List Effect → List Event → Simulation S → (List Effect × List Event) × Simulation S
  drain zero queue held sim = ((queue, held), sim)
  drain (suc fuel) [] [] sim = (([], []), sim)
  drain (suc fuel) [] (deferred ∷ held) sim =
      let (effects, sim') = react deferred sim in drain fuel effects held sim'
  drain (suc fuel) (effect ∷ queue) held sim =
      let (answered, sim') = perform effect sim in
      elim answered [
        | none ↦ drain fuel queue held sim'
        | some event ↦
            let reacted = react event sim' in
            elim (is_held sim.faults effect) [
              | true ↦ drain fuel queue (held ++ event ∷ []) sim'
              | false ↦ drain fuel (queue ++ reacted.0) held reacted.1
            ]
      ]

  unfoldable pub deliver : ℕ → Event → Simulation S → (List Effect × List Event) × Simulation S
  deliver fuel event sim =
      let (effects, sim') = react event (record sim { model = observe h event sim.model }) in
      drain fuel effects [] sim'

  -- The machine after a power loss, before it starts again.
  unfoldable pub power_lost : Simulation S → Simulation S
  power_lost sim = record sim {
    storage = Storage.crash sim.storage;
    desktop = desktop_new;
    log = [];
  }

  unfoldable pub start : ℕ → Simulation S → (List Effect × List Event) × Simulation S
  start fuel sim = deliver fuel (Event.started sim.now.at) sim

  unfoldable pub restart : ℕ → Simulation S → (List Effect × List Event) × Simulation S
  restart fuel sim = start fuel (power_lost sim)

  -- `deliver_stopping_after`: the first effects alone.
  unfoldable pub drain_some : ℕ → List Effect → Simulation S → Simulation S
  drain_some zero queue sim = sim
  drain_some (suc count) [] sim = sim
  drain_some (suc count) (effect ∷ queue) sim =
      let (answered, sim') = perform effect sim in
      elim answered [
        | none ↦ drain_some count queue sim'
        | some event ↦
            let reacted = react event sim' in drain_some count (queue ++ reacted.0) reacted.1
      ]

  unfoldable pub deliver_stopping_after : Event → ℕ → Simulation S → Simulation S
  deliver_stopping_after event count sim =
      let (effects, sim') = react event (record sim { model = observe h event sim.model }) in
      drain_some count effects sim'

  -- The loop of `deliver_until`, on fuel: what is left of the queue where it stops.
  unfoldable pub drain_until :
      (Effect → Bool) → ℕ → List Effect → Simulation S → List Effect × Simulation S
  drain_until stop zero queue sim = (queue, sim)
  drain_until stop (suc fuel) [] sim = ([], sim)
  drain_until stop (suc fuel) (effect ∷ queue) sim =
      let (answered, sim') = perform effect sim in
      elim (stop effect) [
        | true ↦ (effect ∷ queue, sim)
        | false ↦ elim answered [
          | none ↦ drain_until stop fuel queue sim'
          | some event ↦
              let reacted = react event sim' in drain_until stop fuel (queue ++ reacted.0) reacted.1
        ]
      ]

  unfoldable pub deliver_until :
      (Effect → Bool) → ℕ → Event → Simulation S → List Effect × Simulation S
  deliver_until stop fuel event sim =
      let (effects, sim') = react event (record sim { model = observe h event sim.model }) in
      drain_until stop fuel effects sim'

  -- `Simulation::step`: the effects asked for, none of them performed.
  unfoldable pub step : Event → Simulation S → List Effect × Simulation S
  step event sim =
      let (effects, sim') = react event (record sim { model = observe h event sim.model }) in
      (effects, record sim' { log = sim'.log ++ effects })

module _ {S : Type 0} where
  unfoldable pub take_log : Simulation S → List Effect × Simulation S
  take_log sim = (sim.log, record sim { log = [] })

  -- A photograph of an earlier session, in every account at once.
  unfoldable pub remember_import : DeviceFileRow → Option Bytes → Simulation S → Simulation S
  remember_import row copy sim =
      let model = expect_import row.device row.path row.digest row.size row.mtime sim.model in
      let store = remember_row row sim.store in
      elim copy [
        | none ↦ record sim { model = model; store = store }
        | some bytes ↦ record sim {
          model = remember_vault_copy row.digest model;
          store = store;
          storage = Storage.put_in_vault row.vault_name bytes sim.storage;
        }
      ]

  -- `Simulation::stage`
  unfoldable pub stage : DeviceId → StagingEntry → Bytes → Simulation S → Simulation S
  stage device entry bytes sim = record sim {
    storage =
        Storage.sync_file entry.file
          (Storage.write_at entry.file 0 bytes (Storage.create device entry.file sim.storage));
    store = Store.change (StoreRequest.begin_staging_entry device entry) sim.store;
  }
