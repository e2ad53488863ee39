-- ===== src/Desktop/State.antt =====
-- desktop/crates/core/src/desktop.rs: the state of the desktop, what an outstanding operation was
-- for, and `begin`. `Step` and `Running` are those of desktop/crates/core/src/desktop/commit.rs.
-- A method of `&mut self` takes the state last and returns its effects beside the new state.
use photo_sync.Prelude.{ℕ, List, [], ◌∷◌, ◌++◌, Option, none, some, Bool, false, nat_ord, list_ord}
use photo_sync.Prelude.Map.{Map, Set, lookup, insert}
use photo_sync.Prelude.Word.{add_u64}
use photo_sync.Id.{DeviceId, DevicePath, FileId, OpId, Sha256, VaultName}
use photo_sync.Digest.{RunningDigest}
use photo_sync.Naming.Civil.{Moment}
use photo_sync.Effect.{Effect, Message, LogLevel, UploadOutcome}
use photo_sync.Session.{Session, Upload, Phase}
use photo_sync.Session.Classify.{FileIds}
use photo_sync.Store.{DeviceFileRow, PlanEntry, StagingEntry}
use photo_sync.Commit.{Plan, no_plan}

abbrev pub sync_interval_bytes : ℕ
sync_interval_bytes = 16777216

abbrev pub rebuild_chunk_bytes : ℕ
rebuild_chunk_bytes = 1048576

abbrev pub max_attempts : ℕ
max_attempts = 2

abbrev pub group_size : ℕ
group_size = 64

pub data AfterWatermark : Type 0 where
  continue verify stop : AfterWatermark

pub record Sync (S : Type 0) : Type 0 where
  pub device : DeviceId
  pub file : FileId
  pub through : ℕ
  pub snapshot : RunningDigest S
  pub then : AfterWatermark

pub data Step : Type 0 where
  read_clock list_batch : Step
  stat_staged : FileId → Step
  lookup_content lookup_names seal_plan : Step
  execute : FileId → Step
  sync_vault sync_staging mark_done insert_rows clear_log clear_manifest clear_files : Step

pub data Pending (S : Type 0) : Type 0 where
  seed_file_ids recover_devices : Pending S
  recover_staging recover_plan : DeviceId → Pending S
  rebuild_digest : DeviceId → FileId → (read_to prefix : ℕ) → Pending S
  truncate_partial : FileId → (length : ℕ) → Pending S
  list_staging lookup_imported free_space : DeviceId → Pending S
  drop_superseded remove_superseded : FileId → Pending S
  begin_entry create_file write_chunk : DeviceId → FileId → Pending S
  sync_file advance_watermark : Sync S → Pending S
  finalize_file read_name_sources apply_mtime : DeviceId → FileId → Sha256 → Pending S
  mark_verified : DeviceId → FileId → Pending S
  drop_mismatched : DeviceId → FileId → UploadOutcome → Pending S
  remove_mismatched : FileId → Pending S
  nomination_rows : DeviceId → Pending S
  forget_row : DeviceId → DevicePath → Pending S
  nomination_stat : DeviceId → DeviceFileRow → Pending S
  commit : Step → Pending S

-- A commit in progress.
pub record Running : Type 0 where
  pub device : DeviceId
  pub moment : Option Moment
  pub entries : Option (List StagingEntry)
  pub missing : Set FileId
  pub asked : Bool
  pub replaying : Option (List PlanEntry)
  pub stats_awaited : ℕ
  pub known_content : Option (Map Sha256 VaultName)
  pub taken : Option (Set VaultName)
  pub plan : Plan
  pub next : ℕ
  pub group : List FileId
  pub group_awaited : ℕ

-- `Running::new`
abbrev pub running_new : DeviceId → Running
running_new device = record {
  device = device;
  moment = none;
  entries = none;
  missing = [];
  asked = false;
  replaying = none;
  stats_awaited = 0;
  known_content = none;
  taken = none;
  plan = no_plan;
  next = 0;
  group = [];
  group_awaited = 0;
}

pub record Desktop (S : Type 0) : Type 0 where
  pub sessions : Map DeviceId (Session S)
  pub durable_digests : Map FileId (RunningDigest S)
  pub pending : Map OpId (Pending S)
  pub rebuilding : Map FileId (RunningDigest S)
  pub unreadable : Set FileId
  pub files : Option FileIds
  pub awaiting_ids : Set DeviceId
  pub running : Option Running
  pub queued : Set DeviceId
  pub order : List DeviceId
  pub recovered : Map DeviceId (List StagingEntry)
  pub to_replay : List (DeviceId × List PlanEntry)
  pub halted : Set DeviceId
  pub next_op : ℕ

-- `Desktop::new`
abbrev pub desktop_new : {S : Type 0} → Desktop S
desktop_new = record {
  sessions = [];
  durable_digests = [];
  pending = [];
  rebuilding = [];
  unreadable = [];
  files = none;
  awaiting_ids = [];
  running = none;
  queued = [];
  order = [];
  recovered = [];
  to_replay = [];
  halted = [];
  next_op = 0;
}

abbrev pub warn : Message → Effect
warn message = Effect.log LogLevel.warn message

abbrev pub info : Message → Effect
info message = Effect.log LogLevel.info message

abbrev pub error_log : Message → Effect
error_log message = Effect.log LogLevel.error message

abbrev pub unknown_session : DeviceId → Effect
unknown_session device = warn (Message.unknown_session device)

abbrev pub Answered : Type 0 → Type 0
Answered S = List Effect × Desktop S

module _ {S : Type 0} where
  -- `vec![effect]`, `Vec::new()`, and effects put in front of those of a later call.
  abbrev pub only : Effect → Desktop S → Answered S
  only effect d = (effect ∷ [], d)

  abbrev pub quiet : Desktop S → Answered S
  quiet d = ([], d)

  abbrev pub also : List Effect → Answered S → Answered S
  also effects r = (effects ++ r.0, r.1)

  -- `begin`: the operation's identifier is the counter before the call.
  unfoldable pub begin : Pending S → Desktop S → Desktop S
  begin pending d = record d {
    next_op = add_u64 d.next_op 1;
    pending = insert d.next_op pending d.pending;
  }

  -- One operation begun and its effect emitted.
  unfoldable pub issue : Pending S → (OpId → Effect) → Desktop S → Answered S
  unfolding begin
  issue pending effect d = only (effect d.next_op) (begin pending d)

  -- `map(|x| { let op = self.begin(..); effect })` and `collect`.
  unfoldable pub issue_each {ℓ} :
      {A : Type ℓ} → (A → Pending S) → (A → OpId → Effect) → List A → Desktop S → Answered S
  unfolding begin
  issue_each pending effect [] d = quiet d
  issue_each pending effect (x ∷ xs) d =
      also (effect x d.next_op ∷ []) (issue_each pending effect xs (begin (pending x) d))

  unfoldable pub put_session : DeviceId → Session S → Desktop S → Desktop S
  put_session device session d = record d { sessions = insert device session d.sessions }

  abbrev pub set_phase : Phase → Session S → Session S
  set_phase phase session = record session { phase = phase }

  -- `upload`, and `upload_mut` for reading
  unfoldable pub upload : DeviceId → FileId → Desktop S → Option (Upload S)
  upload device file d = elim (lookup device d.sessions) [
    | none ↦ none
    | some session ↦ lookup file session.uploads
  ]

  -- A write through `upload_mut`.
  unfoldable pub put_upload : DeviceId → FileId → Upload S → Desktop S → Desktop S
  unfolding put_session
  put_upload device file u d = elim (lookup device d.sessions) [
    | none ↦ d
    | some session ↦
        put_session device (record session { uploads = insert file u session.uploads }) d
  ]
