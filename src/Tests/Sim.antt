-- ===== src/Tests/Sim.antt =====
-- The theorems on the simulated disk and the oracle, at concrete inputs.
use photo_sync.Prelude.{
  drop, ◌++◌, ℕ, ◌+◌, ◌^◌, ◌<◌, ◌≡◌, ◌↔◌, refl, List, [], ◌∷◌, length, true, false, All,
  AllDifferent, arith, nat_ord, list_ord, ◌==◌, cmp_list,
}
use photo_sync.Prelude.Int.{ℤ}
use photo_sync.Prelude.Map.{contains, insert, lookup}
use photo_sync.Id.{FileId}
use photo_sync.Store.{DeviceFileRow, PlanEntry, StoreRequest, is_verified}
use photo_sync.Session.Classify.{insert_by_file, sort_by_file}
use photo_sync.Commit.{
  count_duplicate, count_import, in_arrival_order, plan, plan_entry, plan_loop, plan_present,
  push_entry,
}
use photo_sync.Commit.Fresh.{import_names, plan-IsFresh}
use photo_sync.Commit.Files.{staged_files}
use photo_sync.Desktop.State.{Running, running_new}
use photo_sync.Desktop.Rounds.{next_group}
use photo_sync.Desktop.Rounds.Order.{round}
use photo_sync.Oracle.{Recorded, commit_each, model_new}
use photo_sync.Sim.Agree.{agree}
use photo_sync.Sim.Agree.Meaning.{IsAgreed, agree_iff}
use photo_sync.Sim.Refines.{IsIndexOf, batch_of, commit-IsIndexOf}
use photo_sync.Sim.Storage.{crash}
use photo_sync.Sim.Disk.{Bytes, StagedFile, Storage, storage_new}
use photo_sync.Sim.Store.{change, store_new}
use photo_sync.Sim.World.{Simulation, simulation_new}
use photo_sync.Sim.Durable.Group.{AreReady, IsFound}
use photo_sync.Sim.Durable.Round.{perform_all}
use photo_sync.Sim.Durable.Planned.{planned-survives}
use photo_sync.Sim.Durable.Whole.{commit-survives}
use photo_sync.Desktop.Rounds.Whole.{Concludes, sealed}
use photo_sync.Tests.{
  batch, batch_inputs, desk_receiving, now, phone, transparent, photo_path, first_name,
}

batch-few : length batch_inputs.taken_names + length (in_arrival_order batch) < 2 ^ 32
unfolding in_arrival_order sort_by_file insert_by_file is_verified
batch-few = omega arith

batch-AllDifferent : AllDifferent (staged_files batch)
batch-AllDifferent = (((λ e. cc), ((λ e. cc), tt)), (((λ e. cc), tt), (tt, tt)))

plan-IsFresh_example :
    AllDifferent (import_names (plan batch_inputs).entries)
    × All
        (λ n. contains n batch_inputs.taken_names ≡ false)
        (import_names (plan batch_inputs).entries)
plan-IsFresh_example = plan-IsFresh batch_inputs batch-few

store-IsIndexOf : IsIndexOf model_new.expected store_new
unfolding lookup contains
store-IsIndexOf = record { rows = λ key. refl; contents = λ digest. refl }

commit-IsIndexOf_example :
    IsIndexOf (commit_each phone (batch_of batch_inputs) model_new).expected (
      change
        (StoreRequest.insert_committed_batch
          (plan batch_inputs).contents
          (plan batch_inputs).device_files)
        store_new)
unfolding in_arrival_order sort_by_file insert_by_file is_verified
commit-IsIndexOf_example =
    commit-IsIndexOf batch_inputs store_new model_new store-IsIndexOf
      ((λ digest e. refl), ((λ digest e. refl), tt))

abbrev new_sim : Simulation (List ℕ)
new_sim = simulation_new false now

-- One photo in the vault, in the index, and expected there.
abbrev photo_row : DeviceFileRow
photo_row = record {
  device = phone;
  path = photo_path;
  size = 2;
  mtime = ℤ.pos 7;
  digest = 1 ∷ 2 ∷ [];
  vault_name = first_name;
  committed_at = now.at;
}

abbrev photo_recorded : Recorded
photo_recorded = record { digest = 1 ∷ 2 ∷ []; size = 2; mtime = ℤ.pos 7 }

abbrev photo_sim : Simulation (List ℕ)
photo_sim = record new_sim {
  storage = record storage_new {
    live = record { staging = []; vault = (first_name, 1 ∷ 2 ∷ []) ∷ [] };
  };
  store = record store_new {
    content = (1 ∷ 2 ∷ [], first_name) ∷ [];
    device_files = ((phone, photo_path), photo_row) ∷ [];
  };
  model = record model_new {
    expected = record model_new.expected {
      vault = (1 ∷ 2 ∷ [], tt) ∷ [];
      content = (1 ∷ 2 ∷ [], tt) ∷ [];
      device_files = ((phone, photo_path), photo_recorded) ∷ [];
    };
  };
}

agree_iff_example : (agree photo_sim ≡ []) ↔ IsAgreed photo_sim
agree_iff_example = agree_iff photo_sim (tt, tt) (tt, tt)

-- The batch on the disk, each file synced.
abbrev staged_bytes : StagedFile
staged_bytes = record { device = phone; bytes = 1 ∷ 2 ∷ []; finalized = true }

abbrev batch_storage : Storage
batch_storage = record storage_new {
  live = record { staging = (3, staged_bytes) ∷ (4, staged_bytes) ∷ []; vault = [] };
  synced = (3, 1 ∷ 2 ∷ []) ∷ (4, 1 ∷ 2 ∷ []) ∷ [];
}

abbrev batch_sim : Simulation (List ℕ)
batch_sim = record new_sim { storage = batch_storage }

abbrev batch_running : Running
batch_running = record (running_new phone) { plan = plan batch_inputs }

abbrev contents : FileId → Bytes
contents file = 1 ∷ 2 ∷ []

batch-AreReady : AreReady contents (next_group batch_running) batch_storage
unfolding plan plan_loop plan_entry plan_present push_entry count_import count_duplicate
    in_arrival_order sort_by_file insert_by_file is_verified lookup contains insert ◌==◌ list_ord
    cmp_list nat_ord
batch-AreReady = (record { staged = staged_bytes; found = refl; proved = refl }, (tt, tt))

batch-more : batch_running.next < length batch_running.plan.entries
unfolding plan plan_loop plan_entry plan_present push_entry count_import count_duplicate
    in_arrival_order sort_by_file insert_by_file is_verified lookup contains insert ◌==◌ list_ord
    cmp_list nat_ord
batch-more = omega arith

planned-survives_example :
    All
      (λ (e : PlanEntry).
        IsFound
          (crash (perform_all (round batch_running desk_receiving).0 batch_sim).storage)
          e.action
          (contents e.file))
      (next_group batch_running)
planned-survives_example =
    planned-survives batch_inputs batch_running desk_receiving batch_sim contents batch-AllDifferent
      batch-few refl batch-more (record { renames = refl; syncs = refl }) batch-AreReady

batch-left : AreReady contents (drop batch_running.next batch_running.plan.entries) batch_storage
unfolding plan plan_loop plan_entry plan_present push_entry count_import count_duplicate
    in_arrival_order sort_by_file insert_by_file is_verified lookup contains insert ◌==◌ list_ord
    cmp_list nat_ord
batch-left = (record { staged = staged_bytes; found = refl; proved = refl }, (tt, tt))

commit-survives_example :
    (whole : Concludes batch_running (sealed batch_running desk_receiving)) × All
      (λ (e : PlanEntry).
        IsFound
          (crash
            (perform_all
              ((sealed batch_running desk_receiving).0 ++ whole.emitted)
              batch_sim).storage)
          e.action
          (contents e.file))
      (drop batch_running.next batch_running.plan.entries)
commit-survives_example =
    commit-survives batch_inputs batch_running desk_receiving batch_sim contents batch-AllDifferent
      batch-few refl (record { renames = refl; syncs = refl }) batch-left
