-- ===== src/Commit.antt =====
-- desktop/crates/core/src/commit.rs: the plan a commit follows, and the rows it leaves behind.
pub mod Cases
pub mod Rows
pub mod Arrivals
pub mod Dedup
pub mod Fresh
pub mod Files
pub mod Replay
use photo_sync.Prelude.{
  List, [], ◌∷◌, ◌++◌, map, filter, none, some, false, ◌&&◌, not, nat_ord, list_ord, if◌then◌else◌,
}
use photo_sync.Prelude.Map.{Map, Set, lookup, insert, add, collect, contains}
use photo_sync.Prelude.Word.{add_u64}
use photo_sync.Id.{DeviceId, FileId, Sha256, Timestamp, VaultName}
use photo_sync.Naming.{assign}
use photo_sync.Naming.Civil.{Moment}
use photo_sync.Effect.{CommitSummary}
use photo_sync.Session.{no_commit}
use photo_sync.Session.Classify.{sort_by_file}
use photo_sync.Store.{ContentRow, DeviceFileRow, PlanAction, PlanEntry, StagingEntry, is_verified}

pub record Inputs : Type 0 where
  pub device : DeviceId
  pub entries : List StagingEntry
  pub missing : Set FileId
  pub known_content : Map Sha256 VaultName
  pub taken_names : Set VaultName
  pub imported_at : Moment

pub record Plan : Type 0 where
  pub entries : List PlanEntry
  pub contents : List ContentRow
  pub device_files : List DeviceFileRow
  pub dropped : List FileId
  pub summary : CommitSummary

-- `Plan::default`
abbrev pub no_plan : Plan
no_plan = record {
  entries = [];
  contents = [];
  device_files = [];
  dropped = [];
  summary = no_commit;
}

unfoldable pub name_of : PlanAction → VaultName
name_of (PlanAction.import name) = name
name_of (PlanAction.duplicate name) = name

unfoldable pub in_arrival_order : List StagingEntry → List StagingEntry
in_arrival_order entries = sort_by_file (filter is_verified entries)

-- The loop's variables: the plan so far, the content known and the names taken.
pub record Building : Type 0 where
  pub plan : Plan
  pub assigned : Map Sha256 VaultName
  pub taken : Set VaultName

-- The row that a batch entry leaves.
abbrev pub row_of : DeviceId → StagingEntry → Sha256 → VaultName → Timestamp → DeviceFileRow
row_of device entry digest name committed_at = record {
  device = device;
  path = entry.path;
  size = entry.size;
  mtime = entry.mtime;
  digest = digest;
  vault_name = name;
  committed_at = committed_at;
}

-- The two pushes that end a round.
unfoldable pub push_entry : Inputs → StagingEntry → Sha256 → PlanAction → Building → Building
push_entry inputs entry digest action b = record b {
  plan = record b.plan {
    device_files =
        b.plan.device_files
        ++ row_of inputs.device entry digest (name_of action) inputs.imported_at.at ∷ [];
    entries = b.plan.entries ++ record { file = entry.file; action = action; done = false } ∷ [];
  };
}

unfoldable pub count_duplicate : Building → Building
count_duplicate b = record b {
  plan = record b.plan {
    summary = record b.plan.summary { duplicates = add_u64 b.plan.summary.duplicates 1 };
  };
}

-- A fresh name is reserved, and the content is recorded under it.
unfoldable pub count_import : StagingEntry → Sha256 → VaultName → Building → Building
count_import entry digest name b = record {
  plan = record b.plan {
    contents = b.plan.contents ++ record { digest = digest; vault_name = name } ∷ [];
    summary = record b.plan.summary {
      imported = add_u64 b.plan.summary.imported 1;
      bytes_committed = add_u64 b.plan.summary.bytes_committed entry.size;
    };
  };
  assigned = insert digest name b.assigned;
  taken = add name b.taken;
}

-- The rest of a round, once the entry has a digest and a file.
unfoldable pub plan_present : Inputs → StagingEntry → Sha256 → Building → Building
plan_present inputs entry digest b = elim (lookup digest b.assigned) [
  | some name ↦ push_entry inputs entry digest (PlanAction.duplicate name) (count_duplicate b)
  | none ↦
      let name = assign entry.name_sources inputs.imported_at.local entry.path b.taken in
      push_entry inputs entry digest (PlanAction.import name) (count_import entry digest name b)
]

unfoldable pub drop_entry : StagingEntry → Building → Building
drop_entry entry b = record b {
  plan = record b.plan { dropped = b.plan.dropped ++ entry.file ∷ [] };
}

-- One round of the loop of `plan`.
unfoldable pub plan_entry : Inputs → StagingEntry → Building → Building
plan_entry inputs entry b = elim entry.digest [
  | none ↦ b
  | some digest ↦
      if contains entry.file inputs.missing
      then drop_entry entry b
      else plan_present inputs entry digest b
]

unfoldable pub plan_loop : Inputs → List StagingEntry → Building → Building
plan_loop inputs [] b = b
plan_loop inputs (entry ∷ entries) b = plan_loop inputs entries (plan_entry inputs entry b)

unfoldable pub plan : Inputs → Plan
plan inputs =
    (plan_loop inputs (in_arrival_order inputs.entries)
      (record { plan = no_plan; assigned = inputs.known_content; taken = inputs.taken_names })).plan

-- What a replay adds for an import, and for a duplicate.
unfoldable pub replay_action : StagingEntry → Sha256 → PlanAction → Plan → Plan
replay_action entry digest (PlanAction.import name) p = record p {
  contents = p.contents ++ record { digest = digest; vault_name = name } ∷ [];
  summary = record p.summary {
    imported = add_u64 p.summary.imported 1;
    bytes_committed = add_u64 p.summary.bytes_committed entry.size;
  };
}
replay_action entry digest (PlanAction.duplicate name) p = record p {
  summary = record p.summary { duplicates = add_u64 p.summary.duplicates 1 };
}

-- The rest of a round of `replay`, once the manifest row has a digest.
unfoldable pub replay_verified :
    DeviceId → Set FileId → Timestamp → PlanEntry → StagingEntry → Sha256 → Plan → Plan
replay_verified device missing committed_at sealed_entry entry digest p =
    let q = replay_action entry digest sealed_entry.action p in
    record q {
      device_files =
          q.device_files
          ++ row_of device entry digest (name_of sealed_entry.action) committed_at ∷ [];
      entries =
          if not sealed_entry.done && not (contains sealed_entry.file missing)
          then q.entries ++ sealed_entry ∷ []
          else q.entries;
    }

unfoldable pub replay_entry :
    DeviceId → Map FileId StagingEntry → Set FileId → Timestamp → PlanEntry → Plan → Plan
replay_entry device known missing committed_at sealed_entry p =
    elim (lookup sealed_entry.file known) [
      | none ↦ record p { dropped = p.dropped ++ sealed_entry.file ∷ [] }
      | some entry ↦ elim entry.digest [
        | none ↦ p
        | some digest ↦ replay_verified device missing committed_at sealed_entry entry digest p
      ]
    ]

unfoldable pub replay_loop :
    DeviceId → Map FileId StagingEntry → Set FileId → Timestamp → List PlanEntry → Plan → Plan
replay_loop device known missing committed_at [] p = p
replay_loop device known missing committed_at (e ∷ es) p =
    replay_loop device known missing committed_at es
      (replay_entry device known missing committed_at e p)

unfoldable pub replay :
    DeviceId → List PlanEntry → List StagingEntry → Set FileId → Timestamp → Plan
replay device sealed entries missing committed_at =
    replay_loop device (collect (map (λ entry. (entry.file, entry)) entries)) missing committed_at
      sealed no_plan
