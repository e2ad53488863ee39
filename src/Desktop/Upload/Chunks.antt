-- ===== src/Desktop/Upload/Chunks.antt =====
-- desktop/crates/core/src/desktop.rs: the chunks of a transfer, and its end.
use photo_sync.Prelude.{
  ℕ, List, length, Option, none, some, not, eqb, ltb, leb, list_ord, nat_ord, if◌then◌else◌,
}
use photo_sync.Prelude.Int.{int_ord}
use photo_sync.Prelude.Map.{lookup}
use photo_sync.Prelude.Word.{add_u64, saturating_add}
use photo_sync.Id.{DeviceId, FileId, Sha256}
use photo_sync.Digest
use photo_sync.Digest.{Hasher, RunningDigest}
use photo_sync.Effect.{Effect, Message}
use photo_sync.Session.{Upload, UploadState, is_receiving}
use photo_sync.Desktop.State.{
  AfterWatermark, Answered, Desktop, Pending, Sync, also, error_log, info, issue, max_attempts,
  only, put_session, put_upload, quiet, sync_interval_bytes, upload, warn,
}
use photo_sync.Desktop.State
use photo_sync.Desktop.Upload.Refusal.{close_upload, fail_upload}

-- Why a chunk cannot be taken.
pub data ChunkRefusal : Type 0 where
  unknown_session unknown_upload not_receiving : ChunkRefusal
  out_of_order : (expected : ℕ) → ChunkRefusal
  past_end : (size : ℕ) → ChunkRefusal

module _ {S : Type 0} where
  unfoldable pub inspect_chunk : DeviceId → FileId → ℕ → ℕ → Desktop S → Option ChunkRefusal
  inspect_chunk device file offset length d = elim (lookup device d.sessions) [
    | none ↦ some ChunkRefusal.unknown_session
    | some session ↦ elim (lookup file session.uploads) [
      | none ↦ some ChunkRefusal.unknown_upload
      | some u ↦
          if not (is_receiving u.state)
          then some ChunkRefusal.not_receiving
          else if not (eqb offset u.received)
          then some (ChunkRefusal.out_of_order u.received)
          else if ltb u.size (saturating_add offset length)
          then some (ChunkRefusal.past_end u.size)
          else none
    ]
  ]

  -- `sync_partial`, for an upload that is there.
  unfoldable pub sync_upload :
      DeviceId → FileId → Upload S → AfterWatermark → Desktop S → Answered S
  sync_upload device file u after d =
      issue
        (Pending.sync_file (record {
          device = device;
          file = file;
          through = u.received;
          snapshot = u.digest;
          then = after;
        }))
        (λ op. Effect.sync_file op file) (put_upload device file (record u { unsynced = 0 }) d)

  unfoldable pub sync_partial : DeviceId → FileId → AfterWatermark → Desktop S → Answered S
  sync_partial device file after d = elim (upload device file d) [
    | none ↦ quiet d
    | some u ↦ sync_upload device file u after d
  ]

  unfoldable pub upload_closed : DeviceId → FileId → Sha256 → Desktop S → Answered S
  upload_closed device file digest d = elim (upload device file d) [
    | none ↦ only (warn (Message.closed_but_never_opened file)) d
    | some u ↦
        if is_receiving u.state
        then sync_partial device file AfterWatermark.verify
            (put_upload device file (record u { state = UploadState.closing digest }) d)
        else only (warn (Message.closed_twice file)) d
  ]

  unfoldable pub upload_aborted : DeviceId → FileId → Desktop S → Answered S
  upload_aborted device file d = elim (upload device file d) [
    | none ↦ only (warn (Message.aborted_but_never_opened file)) d
    | some u ↦
        if is_receiving u.state
        then sync_partial device file AfterWatermark.stop
            (put_upload device file (close_upload u) d)
        else quiet d
  ]

module _ {S : Type 0} ⦃h : Hasher S⦄ where
  -- The upload after a chunk.
  unfoldable pub take_chunk : Upload S → List ℕ → Upload S
  take_chunk u bytes = record u {
    digest = Digest.update u.digest bytes;
    received = add_u64 u.received (length bytes);
    unsynced = add_u64 u.unsynced (length bytes);
  }

  unfoldable pub accept_chunk : DeviceId → FileId → ℕ → List ℕ → Desktop S → Answered S
  accept_chunk device file offset bytes d = elim (upload device file d) [
    | none ↦ quiet d
    | some u ↦
        let u' = take_chunk u bytes in
        let written =
          issue (Pending.write_chunk device file) (λ op. Effect.write_chunk op file offset bytes)
            (put_upload device file u' d) in
        if leb sync_interval_bytes u'.unsynced
        then also written.0 (sync_partial device file AfterWatermark.continue written.1)
        else written
  ]

  -- What a refused chunk leads to.
  unfoldable pub refuse_chunk : DeviceId → FileId → ℕ → ChunkRefusal → Desktop S → Answered S
  refuse_chunk device file offset refusal d = elim refusal [
    | ChunkRefusal.unknown_session ↦ only (State.unknown_session device) d
    | ChunkRefusal.unknown_upload ↦ only (warn (Message.chunk_for_unopened file)) d
    | ChunkRefusal.not_receiving ↦ only (warn (Message.chunk_for_closed file)) d
    | ChunkRefusal.out_of_order expected ↦
        fail_upload device file (Message.out_of_order file expected offset) d
    | ChunkRefusal.past_end size ↦ fail_upload device file (Message.past_end file size) d
  ]

  unfoldable pub chunk_arrived : DeviceId → FileId → ℕ → List ℕ → Desktop S → Answered S
  chunk_arrived device file offset bytes d =
      elim (inspect_chunk device file offset (length bytes) d) [
        | none ↦ accept_chunk device file offset bytes d
        | some refusal ↦ refuse_chunk device file offset refusal d
      ]
