-- ===== src/Desktop/Verified.antt =====
-- desktop/crates/core/src/desktop.rs, `watermark_advanced` and `verify`: which uploads are finished.
use photo_sync.Prelude.{
  some, ◌≡◌, refl, ap, ◌∙◌, sym, ◌==◌, eq_iff, All, All-map, Bool-cases, Option-cases, inl, inr,
  nat_ord, list_ord,
}
use photo_sync.Prelude.Map.{lookup, remove}
use photo_sync.Id.{DeviceId, FileId, OpId, Sha256}
use photo_sync.Digest
use photo_sync.Digest.{Hasher}
use photo_sync.Effect.{Effect, Message}
use photo_sync.Event.{Event, Result}
use photo_sync.Session.{Upload, UploadState}
use photo_sync.Store.{StoreError, StoreResponse}
use photo_sync.Desktop.{handle}
use photo_sync.Desktop.State.{
  AfterWatermark, Answered, Desktop, Pending, Sync, issue, only, quiet, upload, warn,
}
use photo_sync.Desktop.Completions.{store_completed, store_failed, store_succeeded}
use photo_sync.Desktop.Upload.{verify, verify_claim, watermark_advanced, watermark_moved}
use photo_sync.Desktop.Ordinary.{IsBenign, IsOrdinary}
use photo_sync.Desktop.Ordinary.Receiving.{fail_upload-IsOrdinary, reject_content-IsOrdinary}

module _ {S : Type 0} ⦃h : Hasher S⦄ where
  -- An upload that stated the very digest its bytes have.
  pub record IsClaimed (device : DeviceId) (file : FileId) (d : Desktop S) : Type 0 where
    claimant : Upload S
    found : upload device file d ≡ some claimant
    claims : claimant.state ≡ UploadState.closing (Digest.peek claimant.digest)

  -- What justifies an effect that finishes a file.
  abbrev pub IsJustified : Sync S → Desktop S → Effect → Type 0
  IsJustified sync d (Effect.finalize_staging_file op file) =
      (file ≡ sync.file)
      × (sync.then ≡ AfterWatermark.verify)
      × IsClaimed sync.device sync.file (watermark_moved sync d)
  IsJustified sync d _ = Unit

  IsBenign-IsJustified :
      (sync : Sync S) (d : Desktop S) (effect : Effect)
      → IsBenign effect
      → IsJustified sync d effect
  IsBenign-IsJustified sync d (Effect.finalize_staging_file op file) b = elim b [ ]
  IsBenign-IsJustified sync d _ b = tt

  benign-AreJustified :
      (sync : Sync S) (d : Desktop S) {e : Desktop S} (r : Answered S)
      → IsOrdinary e r
      → All (IsJustified sync d) r.0
  benign-AreJustified sync d r o =
      All-map IsBenign (IsJustified sync d) (IsBenign-IsJustified sync d) r.0 o.effects

  verify_claim-AreJustified :
      (sync : Sync S) (d : Desktop S) (u : Upload S) (claimed : Sha256)
      → sync.then ≡ AfterWatermark.verify
      → upload sync.device sync.file (watermark_moved sync d) ≡ some u
      → u.state ≡ UploadState.closing claimed
      → All
          (IsJustified sync d)
          (verify_claim sync.device sync.file u claimed (watermark_moved sync d)).0
  unfolding verify_claim issue
  verify_claim-AreJustified sync d u claimed v e c =
      elim (Bool-cases (Digest.peek u.digest == claimed)) [
        | inl t ↦ rw t (
          (
            refl,
            v,
            record {
              claimant = u;
              found = e;
              claims =
                  c ∙ ap UploadState.closing (sym ((eq_iff (Digest.peek u.digest) claimed).0 t));
            },
          ),
          tt,
        )
        | inr f ↦ rw f (
            benign-AreJustified sync d _
              (reject_content-IsOrdinary sync.device sync.file (watermark_moved sync d)))
      ]

  verify-AreJustified :
      (sync : Sync S) (d : Desktop S)
      → sync.then ≡ AfterWatermark.verify
      → All (IsJustified sync d) (verify sync.device sync.file (watermark_moved sync d)).0
  unfolding verify
  verify-AreJustified sync d v =
      elim (Option-cases (upload sync.device sync.file (watermark_moved sync d))) [
        | inl n ↦ rw (n, verify) tt
        | inr (u, e) ↦ rw (e, verify) (state_cases u u.state refl e)
      ]
    where
      state_cases :
          (u : Upload S) (state : UploadState)
          → u.state ≡ state
          → upload sync.device sync.file (watermark_moved sync d) ≡ some u
          → All
              (IsJustified sync d)
              (elim state as (λ x. Answered S) [
                | UploadState.closing claimed ↦
                    verify_claim sync.device sync.file u claimed (watermark_moved sync d)
                | _ ↦ only (warn (Message.verified_twice sync.file)) (watermark_moved sync d)
              ]).0
      state_cases u UploadState.receiving q e = (tt, tt)
      state_cases u (UploadState.closing claimed) q e =
          (verify_claim-AreJustified sync d u claimed v e q)
      state_cases u UploadState.closed q e = (tt, tt)

  watermark_advanced-AreJustified :
      (sync : Sync S) (d : Desktop S) → All (IsJustified sync d) (watermark_advanced sync d).0
  unfolding watermark_advanced
  watermark_advanced-AreJustified sync d = after_cases sync.then refl
    where
      after_cases :
          (a : AfterWatermark)
          → sync.then ≡ a
          → All
              (IsJustified sync d)
              (elim a as (λ x. Answered S) [
                | AfterWatermark.verify ↦ verify sync.device sync.file (watermark_moved sync d)
                | _ ↦ quiet (watermark_moved sync d)
              ]).0
      after_cases AfterWatermark.continue q = tt
      after_cases AfterWatermark.verify q = verify-AreJustified sync d q
      after_cases AfterWatermark.stop q = tt

  -- When the store answers that a watermark moved, or that it could not, every effect that
  -- finishes a file as verified names the file of that watermark, which was closed by the phone,
  -- and finds its upload with the digest that the phone claimed equal to the digest of the bytes
  -- received.
  pub handle-AreJustified :
      (op : OpId) (result : Result StoreResponse StoreError) (sync : Sync S) (d : Desktop S)
      → lookup op d.pending ≡ some (Pending.advance_watermark sync)
      → All
          (IsJustified sync (record d { pending = remove op d.pending }))
          (handle (Event.store_op_completed op result) d).0
  unfolding handle store_completed store_succeeded store_failed
  handle-AreJustified op (Result.ok response) sync d e =
      rw (handle, store_completed, e)
        (watermark_advanced-AreJustified sync (record d { pending = remove op d.pending }))
  handle-AreJustified op (Result.err error) sync d e =
      rw (handle, store_completed, e)
        (benign-AreJustified sync (record d { pending = remove op d.pending }) _
          (fail_upload-IsOrdinary sync.device sync.file _ _))
