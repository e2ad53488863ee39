-- ===== src/Desktop/Content.antt =====
-- desktop/crates/core/src/desktop.rs, `chunk_arrived`: a file that arrives in chunks has the digest
-- of its bytes, however they were cut.
use photo_sync.Prelude.{
  ℕ, ◌+◌, ◌≤◌, ◌<◌, List, [], ◌∷◌, ◌++◌, length, length-append, none, some, ◌≡◌, refl, ap, ◌∙◌, sym,
  subst, Bool-cases, Option-cases, inl, inr, arith, nat_ord, list_ord, leb,
}
use photo_sync.Prelude.Map.{lookup, insert, lookup-insert_self}
use photo_sync.Prelude.Word.{add_u64_exact, saturating_add, u64_mod}
use photo_sync.Id.{DeviceId, FileId}
use photo_sync.Digest
use photo_sync.Digest.{Hasher, IsStreaming, RunningDigest}
use photo_sync.Effect.{Effect}
use photo_sync.Event.{Event}
use photo_sync.Session.{Session, Upload, UploadState}
use photo_sync.Desktop.{handle}
use photo_sync.Desktop.State.{
  AfterWatermark, Answered, Desktop, Pending, begin, issue, put_session, put_upload,
  sync_interval_bytes, upload,
}
use photo_sync.Desktop.Upload.{
  accept_chunk, chunk_arrived, inspect_chunk, sync_partial, sync_upload, take_chunk,
}

abbrev pub concat : List (List ℕ) → List ℕ
concat [] = []
concat (chunk ∷ chunks) = chunk ++ concat chunks

module _ {S : Type 0} where
  put_session-upload :
      (device : DeviceId) (file : FileId) (session : Session S) (d : Desktop S)
      → upload device file (put_session device session d) ≡ lookup file session.uploads
  unfolding upload put_session
  put_session-upload device file session d =
      rw (upload, put_session, lookup-insert_self device session d.sessions) refl

  put_upload-upload :
      (device : DeviceId) (file : FileId) (u v : Upload S) (d : Desktop S)
      → upload device file d ≡ some u
      → upload device file (put_upload device file v d) ≡ some v
  unfolding upload put_upload
  put_upload-upload device file u v d e = elim (Option-cases (lookup device d.sessions)) [
    | inl n ↦ ground (arith, n, e)
    | inr (session, q) ↦
        rw (q, put_upload)
          (put_session-upload device file
              (record session { uploads = insert file v session.uploads }) d
            ∙ lookup-insert_self file v session.uploads)
  ]

  issue-upload :
      (device : DeviceId) (file : FileId) (p : Pending S) (effect : ℕ → Effect) (d : Desktop S)
      → upload device file (issue p effect d).1 ≡ upload device file d
  unfolding issue begin upload
  issue-upload device file p effect d = refl

  sync_partial-upload :
      (device : DeviceId) (file : FileId) (after : AfterWatermark) (u : Upload S) (d : Desktop S)
      → upload device file d ≡ some u
      → upload device file (sync_partial device file after d).1 ≡ some (record u { unsynced = 0 })
  unfolding sync_partial sync_upload
  sync_partial-upload device file after u d e =
      rw (e, sync_partial)
        (issue-upload device file _ _ (put_upload device file (record u { unsynced = 0 }) d)
          ∙ put_upload-upload device file u (record u { unsynced = 0 }) d e)

-- A reading upload that its digest covers.
pub record IsReceiving {S : Type 0} (device : DeviceId) (file : FileId) (u : Upload S)
    (d : Desktop S) : Type 0 where
  pub found : upload device file d ≡ some u
  pub receiving : u.state ≡ UploadState.receiving
  pub bounded : u.size < u64_mod

module _ {S : Type 0} ⦃h : Hasher S⦄ where
  -- A chunk at the offset that the upload has reached, and that does not pass its end, is taken.
  inspect_chunk-accepts :
      (device : DeviceId) (file : FileId) (u : Upload S) (n : ℕ) (d : Desktop S)
      → IsReceiving device file u d
      → u.received + n ≤ u.size
      → inspect_chunk device file u.received n d ≡ none
  unfolding inspect_chunk upload saturating_add
  inspect_chunk-accepts device file u n d r b = ground (arith, r.found, r.receiving, r.bounded)

  -- The chunk's write, which every accepted chunk begins with.
  abbrev written : DeviceId → FileId → Upload S → ℕ → List ℕ → Desktop S → Answered S
  written device file u offset bytes d =
      issue (Pending.write_chunk device file) (λ op. Effect.write_chunk op file offset bytes)
        (put_upload device file (take_chunk u bytes) d)

  written-upload :
      (device : DeviceId) (file : FileId) (u : Upload S) (offset : ℕ) (bytes : List ℕ)
      (d : Desktop S)
      → upload device file d ≡ some u
      → upload device file (written device file u offset bytes d).1 ≡ some (take_chunk u bytes)
  written-upload device file u offset bytes d e =
      issue-upload device file _ _ (put_upload device file (take_chunk u bytes) d)
      ∙ put_upload-upload device file u (take_chunk u bytes) d e

  accept_chunk-upload :
      (device : DeviceId) (file : FileId) (u : Upload S) (offset : ℕ) (bytes : List ℕ)
      (d : Desktop S)
      → upload device file d ≡ some u
      → (n : ℕ) × (upload device file (accept_chunk device file offset bytes d).1
          ≡ some (record (take_chunk u bytes) { unsynced = n }))
  unfolding accept_chunk
  accept_chunk-upload device file u offset bytes d e =
      let w = written-upload device file u offset bytes d e in
      elim (Bool-cases (leb sync_interval_bytes (take_chunk u bytes).unsynced)) [
        | inl t ↦ (0, rw (e, accept_chunk, t) (sync_partial-upload device file _ _ _ w))
        | inr f ↦ ((take_chunk u bytes).unsynced, rw (e, accept_chunk, f) w)
      ]

  -- Chunks handed to `handle` one after another, each at the offset the last one ended at.
  abbrev pub receive : DeviceId → FileId → ℕ → List (List ℕ) → Desktop S → Desktop S
  receive device file offset [] d = d
  receive device file offset (chunk ∷ chunks) d =
      receive device file (offset + length chunk) chunks
        (handle (Event.chunk_arrived device file offset chunk) d).1

  -- What the upload holds after `content` has arrived behind `u`.
  record Holds (device : DeviceId) (file : FileId) (u : Upload S) (content : List ℕ) (d : Desktop S)
      : Type 0 where
    now : Upload S
    found : upload device file d ≡ some now
    receiving : now.state ≡ UploadState.receiving
    size : now.size ≡ u.size
    received : now.received ≡ u.received + length content
    hasher : now.digest.hasher ≡ h.update u.digest.hasher content

  chunk_arrived-accepts :
      (device : DeviceId) (file : FileId) (u : Upload S) (chunk : List ℕ) (d : Desktop S)
      → IsReceiving device file u d
      → u.received + length chunk ≤ u.size
      → handle (Event.chunk_arrived device file u.received chunk) d
        ≡ accept_chunk device file u.received chunk d
  unfolding handle chunk_arrived
  chunk_arrived-accepts device file u chunk d r b =
      rw (handle, chunk_arrived, inspect_chunk-accepts device file u (length chunk) d r b)

  chunk_arrived-Holds :
      (device : DeviceId) (file : FileId) (u : Upload S) (chunk : List ℕ) (d : Desktop S)
      → IsReceiving device file u d
      → u.received + length chunk ≤ u.size
      → Holds device file u chunk (handle (Event.chunk_arrived device file u.received chunk) d).1
  unfolding take_chunk Digest.update
  chunk_arrived-Holds device file u chunk d r b =
      let (n, e) = accept_chunk-upload device file u u.received chunk d r.found in
      record {
        now = record (take_chunk u chunk) { unsynced = n };
        found =
            ap (λ a. upload device file a.1) (chunk_arrived-accepts device file u chunk d r b) ∙ e;
        receiving = r.receiving;
        size = refl;
        received = add_u64_exact u.received (length chunk) (omega (arith, r.bounded));
        hasher = refl;
      }

  nothing-Holds :
      IsStreaming h
      → (device : DeviceId) (file : FileId) (u : Upload S) (d : Desktop S)
      → IsReceiving device file u d
      → Holds device file u [] d
  nothing-Holds law device file u d r = record {
    now = u;
    found = r.found;
    receiving = r.receiving;
    size = refl;
    received = omega arith;
    hasher = sym (law.update-nil u.digest.hasher);
  }

  Holds-trans :
      IsStreaming h
      → (device : DeviceId) (file : FileId) (u : Upload S) (a b : List ℕ) (d e : Desktop S)
      → (first : Holds device file u a d) → Holds device file first.now b e
      → Holds device file u (a ++ b) e
  Holds-trans law device file u a b d e first rest = record {
    now = rest.now;
    found = rest.found;
    receiving = rest.receiving;
    size = rest.size ∙ first.size;
    received = omega (arith, rest.received, first.received, length-append a b);
    hasher =
        rest.hasher ∙ (ap (λ s. h.update s b) first.hasher ∙ law.update-update u.digest.hasher a b);
  }

  receive-Holds :
      IsStreaming h
      → (device : DeviceId) (file : FileId) (u : Upload S) (chunks : List (List ℕ)) (d : Desktop S)
      → IsReceiving device file u d
      → u.received + length (concat chunks) ≤ u.size
      → Holds device file u (concat chunks) (receive device file u.received chunks d)
  receive-Holds law device file u [] d r b = nothing-Holds law device file u d r
  receive-Holds law device file u (chunk ∷ chunks) d r b =
      let total = length-append chunk (concat chunks) in
      let first = chunk_arrived-Holds device file u chunk d r (omega (arith, b, total)) in
      let rest =
        receive-Holds law device file first.now chunks _
          (record {
            found = first.found;
            receiving = first.receiving;
            bounded = subst (λ n. n < u64_mod) (sym first.size) r.bounded;
          })
          (omega (arith, b, total, first.received, first.size)) in
      Holds-trans law device file u chunk (concat chunks) _ _ first (
        subst
          (λ n. Holds device file first.now (concat chunks) (
            receive device file n chunks
              (handle (Event.chunk_arrived device file u.received chunk) d).1))
          first.received rest)

  -- Chunks that arrive one after another, each where the last one ended and none past the file's
  -- end, leave the upload receiving, having received as many bytes as they hold, and with the
  -- digest of the prefix it was opened with and of the chunks' bytes, however they were cut. The
  -- upload is receiving, its size fits 64 bits, and the hasher streams.
  pub receive-digest :
      IsStreaming h
      → (device : DeviceId) (file : FileId) (u : Upload S) (prefix : List ℕ)
        (chunks : List (List ℕ)) (d : Desktop S)
      → IsReceiving device file u d
      → u.digest.hasher ≡ h.update h.new prefix
      → u.received + length (concat chunks) ≤ u.size
      → (now : Upload S) × (upload device file (receive device file u.received chunks d) ≡ some now)
        × (now.state ≡ UploadState.receiving)
        × (now.received ≡ u.received + length (concat chunks))
        × (Digest.peek now.digest ≡ h.finalize (h.update h.new (prefix ++ concat chunks)))
  unfolding Digest.peek
  receive-digest law device file u prefix chunks d r e b =
      let all = receive-Holds law device file u chunks d r b in
      (
        all.now,
        all.found,
        all.receiving,
        all.received,
        ap h.finalize (
            all.hasher
            ∙ (ap (λ s. h.update s (concat chunks)) e
                ∙ law.update-update h.new prefix (concat chunks))),
      )
