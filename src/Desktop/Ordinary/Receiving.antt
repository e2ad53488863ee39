-- ===== src/Desktop/Ordinary/Receiving.antt =====
-- desktop/crates/core/src/desktop.rs: receiving a file is ordinary, but for the request that moves
-- a watermark and for the effect that finishes a verified file.
use photo_sync.Prelude.{
  ℕ, List, [], ◌∷◌, refl, ◌∙◌, arith, nat_ord, list_ord, length, eqb, not, ◌||◌, ◌==◌,
}
use photo_sync.Prelude.Int.{int_ord}
use photo_sync.Prelude.Map.{lookup}
use photo_sync.Id.{DeviceId, DevicePath, FileId, Sha256, Timestamp}
use photo_sync.Digest.{Hasher, RunningDigest}
use photo_sync.Naming.Civil.{CivilTime}
use photo_sync.Effect.{Effect, Message}
use photo_sync.Session.{Session}
use photo_sync.Session.Classify.{PlannedSend}
use photo_sync.Desktop.State.{
  AfterWatermark, Desktop, Pending, Sync, issue, put_session, put_upload, upload, warn,
}
use photo_sync.Desktop.Upload.{
  ChunkRefusal, accept_chunk, chunk_arrived, close_at, create_upload, fail_upload, force_reimport,
  inspect_chunk, mismatch_at, mtime_applied, open_planned, open_upload, prefix_digest,
  record_verified, refuse_chunk, refuse_upload, reject_changed, reject_content,
  staging_file_finalized, sync_partial, sync_upload, take_chunk, update_session, upload_aborted,
  upload_closed, upload_opened, upload_verified, watermark_moved,
}
use photo_sync.Desktop.Ordinary.{
  IsOrdinary, SameCommits, after-IsOrdinary, also-IsOrdinary, from-IsOrdinary, if-IsOrdinary,
  issue-IsOrdinary, only-IsOrdinary, option-IsOrdinary, put_upload-SameCommits, quiet-IsOrdinary,
}

module _ {S : Type 0} where
  update_session-SameCommits :
      (device : DeviceId) (f : Session S → Session S) (d : Desktop S)
      → SameCommits d (update_session device f d)
  unfolding update_session put_session
  update_session-SameCommits device f d = ground arith

  close_at-SameCommits :
      (device : DeviceId) (file : FileId) (d : Desktop S) → SameCommits d (close_at device file d)
  unfolding close_at upload put_upload put_session
  close_at-SameCommits device file d = ground arith

  mismatch_at-SameCommits :
      (device : DeviceId) (file : FileId) (d : Desktop S)
      → SameCommits d (mismatch_at device file d).0
  unfolding mismatch_at put_session
  mismatch_at-SameCommits device file d = ground arith

  pub fail_upload-IsOrdinary :
      (device : DeviceId) (file : FileId) (reason : Message) (d : Desktop S)
      → IsOrdinary d (fail_upload device file reason d)
  unfolding fail_upload
  fail_upload-IsOrdinary device file reason d = record {
    effects = (tt, (tt, tt));
    same =
        update_session-SameCommits device _ (close_at device file d)
        ∙ close_at-SameCommits device file d;
  }

  refuse_upload-IsOrdinary :
      (device : DeviceId) (file : FileId) (reason : Message) (d : Desktop S)
      → IsOrdinary d (refuse_upload device file reason d)
  unfolding refuse_upload
  refuse_upload-IsOrdinary device file reason d = record { effects = (tt, (tt, tt)); same = refl }

  reject_changed-IsOrdinary :
      (device : DeviceId) (file : FileId) (size : ℕ) (mtime : Timestamp) (d : Desktop S)
      → IsOrdinary d (reject_changed device file size mtime d)
  unfolding reject_changed
  reject_changed-IsOrdinary device file size mtime d =
      also-IsOrdinary (warn _ ∷ []) _ (tt, tt) (update_session-SameCommits device _ _)
        (issue-IsOrdinary _ _ _ tt)

  pub reject_content-IsOrdinary :
      (device : DeviceId) (file : FileId) (d : Desktop S)
      → IsOrdinary d (reject_content device file d)
  unfolding reject_content
  reject_content-IsOrdinary device file d =
      also-IsOrdinary (warn _ ∷ []) _ (tt, tt)
        (mismatch_at-SameCommits device file _ ∙ close_at-SameCommits device file _)
        (issue-IsOrdinary _ _ _ tt)

  sync_partial-IsOrdinary :
      (device : DeviceId) (file : FileId) (after : AfterWatermark) (d : Desktop S)
      → IsOrdinary d (sync_partial device file after d)
  unfolding sync_partial sync_upload
  sync_partial-IsOrdinary device file after d =
      option-IsOrdinary (upload device file d) _ _ (quiet-IsOrdinary d refl) (λ u.
        from-IsOrdinary _ (put_upload-SameCommits device file (record u { unsynced = 0 }) d)
          (issue-IsOrdinary _ _ _ tt))

  pub upload_closed-IsOrdinary :
      (device : DeviceId) (file : FileId) (digest : Sha256) (d : Desktop S)
      → IsOrdinary d (upload_closed device file digest d)
  unfolding upload_closed
  upload_closed-IsOrdinary device file digest d =
      option-IsOrdinary (upload device file d) _ _ (only-IsOrdinary _ d tt refl) (λ u.
        if-IsOrdinary _ _ _
          (from-IsOrdinary _ (put_upload-SameCommits device file _ d)
            (sync_partial-IsOrdinary device file _ _))
          (only-IsOrdinary _ d tt refl))

  pub upload_aborted-IsOrdinary :
      (device : DeviceId) (file : FileId) (d : Desktop S)
      → IsOrdinary d (upload_aborted device file d)
  unfolding upload_aborted
  upload_aborted-IsOrdinary device file d =
      option-IsOrdinary (upload device file d) _ _ (only-IsOrdinary _ d tt refl) (λ u.
        if-IsOrdinary _ _ _
          (from-IsOrdinary _ (put_upload-SameCommits device file _ d)
            (sync_partial-IsOrdinary device file _ _))
          (quiet-IsOrdinary d refl))

  pub record_verified-IsOrdinary :
      (device : DeviceId) (file : FileId) (digest : Sha256) (names : List CivilTime) (d : Desktop S)
      → IsOrdinary d (record_verified device file digest names d)
  unfolding record_verified
  record_verified-IsOrdinary device file digest names d = issue-IsOrdinary _ _ d tt

  pub staging_file_finalized-IsOrdinary :
      (device : DeviceId) (file : FileId) (digest : Sha256) (d : Desktop S)
      → IsOrdinary d (staging_file_finalized device file digest d)
  unfolding staging_file_finalized
  staging_file_finalized-IsOrdinary device file digest d =
      option-IsOrdinary (upload device file d) _ _
        (record_verified-IsOrdinary device file digest [] d) (λ u. issue-IsOrdinary _ _ d tt)

  pub mtime_applied-IsOrdinary :
      (device : DeviceId) (file : FileId) (digest : Sha256) (d : Desktop S)
      → IsOrdinary d (mtime_applied device file digest d)
  unfolding mtime_applied
  mtime_applied-IsOrdinary device file digest d =
      option-IsOrdinary (upload device file d) _ _
        (record_verified-IsOrdinary device file digest [] d) (λ u. issue-IsOrdinary _ _ d tt)

  pub upload_verified-IsOrdinary :
      (device : DeviceId) (file : FileId) (d : Desktop S)
      → IsOrdinary d (upload_verified device file d)
  unfolding upload_verified
  upload_verified-IsOrdinary device file d =
      option-IsOrdinary (upload device file _) _ _ (only-IsOrdinary _ _ tt refl) (λ u.
        only-IsOrdinary _ _ tt
          (update_session-SameCommits device _ _ ∙ put_upload-SameCommits device file _ _))

  pub force_reimport-IsOrdinary :
      (device : DeviceId) (path : DevicePath) (d : Desktop S)
      → IsOrdinary d (force_reimport device path d)
  unfolding force_reimport
  force_reimport-IsOrdinary device path d = issue-IsOrdinary _ _ d tt

  create_upload-IsOrdinary :
      (device : DeviceId) (file : FileId) (planned : PlannedSend) (d : Desktop S)
      → IsOrdinary d (create_upload device file planned d)
  unfolding create_upload issue
  create_upload-IsOrdinary device file planned d = record {
    effects = (tt, (tt, (tt, tt)));
    same = refl;
  }

  open_upload-IsOrdinary :
      (device : DeviceId) (file : FileId) (planned : PlannedSend) (offset : ℕ)
      (digest : RunningDigest S) (d : Desktop S)
      → IsOrdinary d (open_upload device file planned offset digest d)
  unfolding open_upload
  open_upload-IsOrdinary device file planned offset digest d =
      if-IsOrdinary _ _ _ (quiet-IsOrdinary _ (update_session-SameCommits device _ d)) (
        from-IsOrdinary _ (update_session-SameCommits device _ d)
          (create_upload-IsOrdinary device file planned _))

module _ {S : Type 0} ⦃h : Hasher S⦄ where
  pub watermark_moved-SameCommits :
      (sync : Sync S) (d : Desktop S) → SameCommits d (watermark_moved sync d)
  unfolding watermark_moved upload put_upload put_session
  watermark_moved-SameCommits sync d = ground arith

  open_planned-IsOrdinary :
      (device : DeviceId) (file : FileId) (planned : PlannedSend) (path : DevicePath)
      (offset size : ℕ) (mtime : Timestamp) (d : Desktop S)
      → IsOrdinary d (open_planned device file planned path offset size mtime d)
  unfolding open_planned
  open_planned-IsOrdinary device file planned path offset size mtime d =
      if-IsOrdinary (not (planned.path == path)) _ _
        (refuse_upload-IsOrdinary device file (Message.assigned_to_another file planned.path path)
          d)
        (if-IsOrdinary (not (size == planned.size) || not (mtime == planned.mtime)) _ _
          (reject_changed-IsOrdinary device file size mtime d)
          (if-IsOrdinary (not (eqb offset planned.resume_offset)) _ _
            (refuse_upload-IsOrdinary device file
              (Message.offered_from file planned.resume_offset offset) d)
            (option-IsOrdinary (prefix_digest file offset d) _ _
              (refuse_upload-IsOrdinary device file (Message.no_digest_covering file offset) d)
              (λ digest. open_upload-IsOrdinary device file planned offset digest d))))

  pub upload_opened-IsOrdinary :
      (device : DeviceId) (file : FileId) (path : DevicePath) (offset size : ℕ) (mtime : Timestamp)
      (d : Desktop S)
      → IsOrdinary d (upload_opened device file path offset size mtime d)
  unfolding upload_opened
  upload_opened-IsOrdinary device file path offset size mtime d =
      option-IsOrdinary (lookup device d.sessions) _ _ (only-IsOrdinary _ d tt refl) (λ session.
        if-IsOrdinary _ _ _
          (option-IsOrdinary (lookup file session.sends) _ _
            (refuse_upload-IsOrdinary device file _ d)
            (λ planned. open_planned-IsOrdinary device file planned path offset size mtime d))
          (only-IsOrdinary _ d tt refl))

  accept_chunk-IsOrdinary :
      (device : DeviceId) (file : FileId) (offset : ℕ) (bytes : List ℕ) (d : Desktop S)
      → IsOrdinary d (accept_chunk device file offset bytes d)
  unfolding accept_chunk
  accept_chunk-IsOrdinary device file offset bytes d =
      option-IsOrdinary (upload device file d) _ _ (quiet-IsOrdinary d refl) (λ u.
        let written =
          from-IsOrdinary _ (put_upload-SameCommits device file (take_chunk u bytes) d) (
            issue-IsOrdinary (Pending.write_chunk device file)
              (λ op. Effect.write_chunk op file offset bytes) _ tt) in
        if-IsOrdinary _ _ _ (after-IsOrdinary _ _ written (sync_partial-IsOrdinary device file _ _))
          written)

  refuse_chunk-IsOrdinary :
      (device : DeviceId) (file : FileId) (offset : ℕ) (refusal : ChunkRefusal) (d : Desktop S)
      → IsOrdinary d (refuse_chunk device file offset refusal d)
  unfolding refuse_chunk
  refuse_chunk-IsOrdinary device file offset ChunkRefusal.unknown_session d =
      only-IsOrdinary _ d tt refl
  refuse_chunk-IsOrdinary device file offset ChunkRefusal.unknown_upload d =
      only-IsOrdinary _ d tt refl
  refuse_chunk-IsOrdinary device file offset ChunkRefusal.not_receiving d =
      only-IsOrdinary _ d tt refl
  refuse_chunk-IsOrdinary device file offset (ChunkRefusal.out_of_order expected) d =
      fail_upload-IsOrdinary device file _ d
  refuse_chunk-IsOrdinary device file offset (ChunkRefusal.past_end size) d =
      fail_upload-IsOrdinary device file _ d

  pub chunk_arrived-IsOrdinary :
      (device : DeviceId) (file : FileId) (offset : ℕ) (bytes : List ℕ) (d : Desktop S)
      → IsOrdinary d (chunk_arrived device file offset bytes d)
  unfolding chunk_arrived
  chunk_arrived-IsOrdinary device file offset bytes d =
      option-IsOrdinary (inspect_chunk device file offset (length bytes) d) _ _
        (accept_chunk-IsOrdinary device file offset bytes d)
        (λ refusal. refuse_chunk-IsOrdinary device file offset refusal d)
