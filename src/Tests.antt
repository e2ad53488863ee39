-- ===== src/Tests.antt =====
-- The theorems at concrete inputs, and runs of the definitions.
mod Sim
mod Phone
mod Shell
use photo_sync.Prelude.{
  ℕ, ◌+◌, ◌≡◌, refl, List, [], ◌∷◌, ◌++◌, map, Option, none, some, false, All, arith, append_assoc,
  append-nil, nat_ord, list_ord, ◌==◌, cmp_list,
}
use photo_sync.Prelude.Int.{ℤ}
use photo_sync.Prelude.Map.{Map, Set, add, contains, insert, lookup, remove}
use photo_sync.Id.{DeviceId, DevicePath, Text}
use photo_sync.Catalog.{Catalog}
use photo_sync.Digest
use photo_sync.Digest.{Hasher, IsStreaming, RunningDigest}
use photo_sync.Naming.{assign}
use photo_sync.Naming.Civil.{CivilTime, Moment}
use photo_sync.Naming.Free.{assign_free}
use photo_sync.Naming.Safe.{IsPlain, assign-IsPlain}
use photo_sync.Store.{DeviceFileRow, PlanAction, StagingEntry, StoreResponse}
use photo_sync.Effect.{Effect}
use photo_sync.Event.{Event, Result}
use photo_sync.Session.{
  Phase, Session, Upload, UploadState, begin_classifying, connected, take_inputs,
}
use photo_sync.Session.Answering.{
  CompletesOnce, answers-CompletesOnce, early_take-loses, imported_answer, staged_answer,
}
use photo_sync.Session.Classify.{classify}
use photo_sync.Session.Partition.{classify-versions, lacking, versions}
use photo_sync.Commit.{Inputs, no_plan, plan, replay}
use photo_sync.Commit.Dedup.{Extends, Named, plan_one_name}
use photo_sync.Commit.Replay.{HasDistinctFiles, replay-plan, restamped}
use photo_sync.Commit.Arrivals.{AreArrivals, plan-Covers_arrivals}
use photo_sync.Commit.Rows.{Covers}
use photo_sync.Desktop.{handle}
use photo_sync.Desktop.State.{
  AfterWatermark, Desktop, Pending, Running, Sync, desktop_new, running_new, upload,
}
use photo_sync.Desktop.Content.{IsReceiving, receive, receive-digest}
use photo_sync.Desktop.Nomination.{check_all, check_all-sends, offered}
use photo_sync.Desktop.Ordinary.{IsOrdinary}
use photo_sync.Desktop.Transfers.{handle-IsOrdinary}
use photo_sync.Desktop.Rounds.{Task, closing_tasks, entry_task, next_group, task_of, with_running}
use photo_sync.Desktop.Rounds.Whole.{Finishes, sealed-Finishes}
use photo_sync.Desktop.Rounds.Order.{conclude, conclude-tasks, round, round-tasks}
use photo_sync.Desktop.Verified.{IsJustified, handle-AreJustified}

-- A hasher whose digest is the bytes themselves.
instance abbrev transparent : Hasher (List ℕ)
transparent = record { new = []; update = λ s bytes. s ++ bytes; finalize = λ s. s }

transparent-IsStreaming : IsStreaming transparent
transparent-IsStreaming = record { update-nil = append-nil; update-update = append_assoc }

abbrev phone : DeviceId
phone = b'p' ∷ []

abbrev pub photo_path : DevicePath
photo_path = b'D' ∷ b'/' ∷ b'a' ∷ b'.' ∷ b'J' ∷ b'P' ∷ b'G' ∷ []

abbrev noon : CivilTime
noon = record { year = ℤ.pos 2024; month = 5; day = 17; hour = 12; minute = 0; second = 0 }

abbrev now : Moment
now = record { at = ℤ.pos 1715947200; local = noon }

abbrev first_name : Text
first_name = assign [] noon photo_path []

abbrev first_taken : Set Text
first_taken = add first_name []

-- Naming.
assign_free_example : contains (assign [] noon photo_path first_taken) first_taken ≡ false
unfolding add insert
assign_free_example = assign_free [] noon photo_path first_taken (omega arith)

assign-IsPlain_example : All IsPlain (assign [] noon photo_path [])
assign-IsPlain_example = assign-IsPlain [] noon photo_path []

-- A batch of three: two copies of one photo, and a partial.
abbrev staged_photo : ℕ → Option (List ℕ) → StagingEntry
staged_photo file digest = record {
  file = file;
  path = photo_path;
  size = 2;
  mtime = ℤ.pos 7;
  durable_bytes = 2;
  digest = digest;
  name_sources = [];
}

abbrev batch : List StagingEntry
batch =
    staged_photo 4 (some (1 ∷ 2 ∷ []))
    ∷ staged_photo 3 (some (1 ∷ 2 ∷ []))
    ∷ staged_photo 5 none
    ∷ []

abbrev batch_inputs : Inputs
batch_inputs = record {
  device = phone;
  entries = batch;
  missing = [];
  known_content = [];
  taken_names = [];
  imported_at = now;
}

plan-Covers_arrivals_example :
    (order : List StagingEntry) × AreArrivals batch order
    × Covers batch_inputs no_plan order (plan batch_inputs)
plan-Covers_arrivals_example = plan-Covers_arrivals batch_inputs

plan_one_name_example :
    (assigned : Map (List ℕ) Text) × Extends [] assigned
    × All (Named assigned) (plan batch_inputs).device_files
plan_one_name_example = plan_one_name batch_inputs

batch-HasDistinctFiles : HasDistinctFiles batch
batch-HasDistinctFiles = ((omega arith, (omega arith, tt)), ((omega arith, tt), (tt, tt)))

replay-plan_example :
    replay phone (plan batch_inputs).entries batch [] (ℤ.pos 1715947999)
    ≡ restamped (ℤ.pos 1715947999) (plan batch_inputs)
replay-plan_example = replay-plan batch_inputs (ℤ.pos 1715947999) batch-HasDistinctFiles

-- Diffs.
abbrev listed : Catalog
listed = record {
  entries =
      record { path = photo_path; size = 2; mtime = ℤ.pos 7 }
      ∷ record { path = phone; size = 9; mtime = ℤ.pos 8 }
      ∷ [];
  total_bytes = 11;
}

classify-versions_example :
    versions (classify listed batch [] [] (record { next = 6 })).0 ≡ lacking batch [] listed.entries
classify-versions_example = classify-versions listed batch [] [] (record { next = 6 })

-- Answers.
abbrev fresh : Session (List ℕ)
fresh = record (connected phone) { phase = Phase.transferring }

answers-CompletesOnce_example : CompletesOnce (begin_classifying fresh) batch []
answers-CompletesOnce_example = answers-CompletesOnce fresh batch []

early_take-loses_example :
    ((take_inputs (staged_answer batch (begin_classifying fresh)).0).0 ≡ none)
    × ((imported_answer [] (take_inputs (staged_answer batch (begin_classifying fresh)).0).1).1
        ≡ false)
early_take-loses_example = early_take-loses fresh batch []

-- A desktop that receives a file of five bytes, of which two came before.
abbrev photo_upload : Upload (List ℕ)
photo_upload = record {
  size = 5;
  mtime = ℤ.pos 7;
  received = 2;
  durable = 2;
  unsynced = 0;
  digest = record { hasher = 8 ∷ 9 ∷ []; bytes = 2 };
  state = UploadState.receiving;
}

abbrev desk_with : Session (List ℕ) → Desktop (List ℕ)
desk_with session = record desktop_new { sessions = (phone, session) ∷ [] }

abbrev desk_receiving : Desktop (List ℕ)
desk_receiving = desk_with (record fresh { uploads = (3, photo_upload) ∷ [] })

desk-IsReceiving : IsReceiving phone 3 photo_upload desk_receiving
unfolding upload lookup ◌==◌ list_ord cmp_list nat_ord
desk-IsReceiving = record { found = refl; receiving = refl; bounded = omega arith }

abbrev chunks : List (List ℕ)
chunks = (1 ∷ []) ∷ (2 ∷ 3 ∷ []) ∷ []

receive-digest_example :
    (u : Upload (List ℕ)) × (upload phone 3 (receive phone 3 2 chunks desk_receiving) ≡ some u)
    × (u.state ≡ UploadState.receiving)
    × (u.received ≡ 2 + 3)
    × (Digest.peek u.digest ≡ 8 ∷ 9 ∷ 1 ∷ 2 ∷ 3 ∷ [])
receive-digest_example =
    receive-digest transparent-IsStreaming phone 3 photo_upload (8 ∷ 9 ∷ []) chunks desk_receiving
      desk-IsReceiving refl (omega arith)

handle-IsOrdinary_example :
    IsOrdinary desk_receiving (handle (Event.chunk_arrived phone 3 2 (1 ∷ [])) desk_receiving)
handle-IsOrdinary_example =
    handle-IsOrdinary (Event.chunk_arrived phone 3 2 (1 ∷ [])) desk_receiving tt

-- The watermark of a closed upload.
abbrev photo_sync_done : Sync (List ℕ)
photo_sync_done = record {
  device = phone;
  file = 3;
  through = 2;
  snapshot = photo_upload.digest;
  then = AfterWatermark.verify;
}

abbrev desk_closing : Desktop (List ℕ)
desk_closing =
    record (desk_with (record fresh {
      uploads = (3, record photo_upload { state = UploadState.closing (8 ∷ 9 ∷ []) }) ∷ [];
    })) { pending = (0, Pending.advance_watermark photo_sync_done) ∷ [] }

handle-AreJustified_example :
    All
      (IsJustified photo_sync_done (record desk_closing { pending = [] }))
      (handle (Event.store_op_completed 0 (Result.ok StoreResponse.done)) desk_closing).0
unfolding lookup remove ◌==◌ nat_ord
handle-AreJustified_example =
    handle-AreJustified 0 (Result.ok StoreResponse.done) photo_sync_done desk_closing refl

-- Two answers about vault copies, one of which is gone.
abbrev vault_row : DeviceFileRow
vault_row = record {
  device = phone;
  path = photo_path;
  size = 2;
  mtime = ℤ.pos 7;
  digest = 1 ∷ 2 ∷ [];
  vault_name = first_name;
  committed_at = ℤ.pos 1715947200;
}

abbrev nominating : Session (List ℕ)
nominating = record (connected phone) {
  phase = Phase.nominating;
  nomination = record {
    committed = [];
    commit = record { imported = 1; duplicates = 0; bytes_committed = 2 };
    awaited = 2;
    candidates = [];
  };
}

check_all-sends_example :
    (check_all phone ((vault_row, some 2) ∷ (vault_row, none) ∷ []) (desk_with nominating)).0
    ≡ Effect.send_candidates phone
        (offered nominating.nomination ((vault_row, some 2) ∷ (vault_row, none) ∷ []))
        nominating.nomination.commit
      ∷ []
unfolding lookup ◌==◌ list_ord cmp_list
check_all-sends_example =
    check_all-sends phone vault_row (some 2) ((vault_row, none) ∷ []) nominating
      (desk_with nominating) refl refl

-- A commit of two entries.
abbrev two_entries : Running
two_entries = record (running_new phone) {
  plan = record no_plan {
    entries =
        record { file = 3; action = PlanAction.import first_name; done = false }
        ∷ record { file = 4; action = PlanAction.duplicate first_name; done = false }
        ∷ [];
    device_files = vault_row ∷ [];
  };
}

round-tasks_example :
    map task_of (round two_entries desk_receiving).0
    ≡ map entry_task (next_group two_entries) ++ closing_tasks phone (next_group two_entries)
round-tasks_example = round-tasks two_entries desk_receiving (omega arith)

conclude-tasks_example :
    map task_of (conclude (record two_entries { next = 2 }) desk_receiving).0
    ≡ Task.recorded [] (vault_row ∷ [])
      ∷ Task.log_cleared phone
      ∷ Task.manifest_cleared phone
      ∷ Task.staging_cleared phone
      ∷ []
conclude-tasks_example =
    conclude-tasks (record two_entries { next = 2 }) desk_receiving (omega arith)

sealed-Finishes_example : Finishes two_entries desk_receiving
sealed-Finishes_example = sealed-Finishes two_entries desk_receiving
