-- ===== src/Sim/World.antt =====
-- desktop/crates/sim/src/run.rs: the simulation, its faults, and the answers to an operation.
use photo_sync.Prelude.{
  ℕ, ◌-◌, List, [], ◌∷◌, Option, none, some, Bool, true, false, leb, list_ord, nat_ord, pair_ord,
}
use photo_sync.Prelude.Int.{int_ord}
use photo_sync.Prelude.Word.{u64_mod}
use photo_sync.Id.{OpId}
use photo_sync.Naming.Civil.{Moment}
use photo_sync.Port.{StorageError}
use photo_sync.Effect.{Effect, UploadOutcome}
use photo_sync.Event.{Event, Result, StorageOutcome}
use photo_sync.Oracle.{Model, model_new}
use photo_sync.Desktop.State.{Desktop, desktop_new}
use photo_sync.Sim.Disk.{Storage, storage_new}
use photo_sync.Sim.Store.{Store, store_new}

pub record Faults : Type 0 where
  pub refuse_writes : Bool
  pub refuse_renames : Bool
  pub refuse_vault_stats : Bool
  pub refuse_name_sources : Bool
  pub refuse_store : Bool
  pub refuse_staged_reads : Bool
  pub answer_stats_last : Bool
  pub refuse_write_after : Option ℕ
  pub lying_fsync : Bool

-- `Faults::default`
abbrev pub no_faults : Faults
no_faults = record {
  refuse_writes = false;
  refuse_renames = false;
  refuse_vault_stats = false;
  refuse_name_sources = false;
  refuse_store = false;
  refuse_staged_reads = false;
  answer_stats_last = false;
  refuse_write_after = none;
  lying_fsync = false;
}

pub record Simulation (S : Type 0) : Type 0 where
  pub desktop : Desktop S
  pub model : Model
  pub storage : Storage
  pub store : Store
  pub faults : Faults
  pub now : Moment
  pub free_space : ℕ
  pub log : List Effect
  pub writes : ℕ

-- `Simulation::new`, with the environment's word on the filesystem.
abbrev pub simulation_new : {S : Type 0} → Bool → Moment → Simulation S
simulation_new lying now = record {
  desktop = desktop_new;
  model = model_new;
  storage = storage_new;
  store = store_new;
  faults = record no_faults { lying_fsync = lying };
  now = now;
  free_space = u64_mod - 1;
  log = [];
  writes = 0;
}

-- `done` and `failed`
abbrev pub op_done : OpId → Option Event
op_done op = some (Event.storage_op_completed op (Result.ok StorageOutcome.done))

abbrev pub op_gave : OpId → StorageOutcome → Option Event
op_gave op outcome = some (Event.storage_op_completed op (Result.ok outcome))

abbrev pub op_failed : OpId → StorageError → Option Event
op_failed op e = some (Event.storage_op_completed op (Result.err e))

abbrev pub unreadable : StorageError
unreadable =
    StorageError.failed (b'u' ∷ b'n' ∷ b'r' ∷ b'e' ∷ b'a' ∷ b'd' ∷ b'a' ∷ b'b' ∷ b'l' ∷ b'e' ∷ [])

-- `refuse_write_after.is_some_and(|after| writes >= after)`
unfoldable pub is_full : Option ℕ → ℕ → Bool
is_full none writes = false
is_full (some after) writes = leb after writes

abbrev pub is_verified_outcome : UploadOutcome → Bool
is_verified_outcome (UploadOutcome.verified _) = true
is_verified_outcome _ = false

abbrev pub size_or_zero : Option ℕ → ℕ
size_or_zero none = 0
size_or_zero (some n) = n
