-- ===== src/Shell/Pinning/Admitting.antt =====
-- desktop/crates/shell/src/pinning.rs: pairing, unpairing and what each lets in.
use photo_sync.Prelude.{
  ℕ, List, Option, some, Bool, not, ◌==◌, ◌≡◌, ◌≢◌, arith, eq_iff, inl, inr, Option-cases, list_ord,
  nat_ord,
}
use photo_sync.Prelude.Map.{lookup-insert_self, lookup-retain_passes}
use photo_sync.Id.{DeviceId, Text}
use photo_sync.Digest.{Hasher}
use photo_sync.Shell.Pinning.{
  Admission, Paired, PairedPhone, admit, digest_of, pair, phone_for, to_hex, unpair,
}

module _ {S : Type 0} (h : Hasher S) (public_key_of : List ℕ → Option (List ℕ)) where
  -- Who is let in as a known phone has a key that is paired with that phone.
  admit-known :
      (paired : Paired) (pairing_open : Bool) (certificate : List ℕ) (device : DeviceId)
      → admit h public_key_of paired pairing_open certificate ≡ Admission.known device
      → (key : List ℕ) × (phone : PairedPhone) × (phone_for h key paired ≡ some phone)
        × (phone.device ≡ device)
  unfolding admit
  admit-known paired pairing_open certificate device e =
      elim (Option-cases (public_key_of certificate)) [
        | inl none_read ↦ ground arith
        | inr (key, read) ↦ elim (Option-cases (phone_for h key paired)) [
          | inl unknown ↦ ground arith
          | inr (phone, found) ↦ (key, phone, found, ground arith)
        ]
      ]

  -- Once a phone is unpaired, no certificate is let in as that phone, whatever key it carries and
  -- whether or not pairing is open.
  pub unpair-admits_none :
      (paired : Paired) (pairing_open : Bool) (certificate : List ℕ) (device : DeviceId)
      → admit h public_key_of (unpair device paired) pairing_open certificate
        ≢ Admission.known device
  unfolding unpair phone_for
  unpair-admits_none paired pairing_open certificate device e =
      let (key, phone, found, same) =
        admit-known (unpair device paired) pairing_open certificate device e in
      let passes =
        lookup-retain_passes (λ k (p : PairedPhone). not (p.device == device))
          (to_hex (digest_of h key)) phone paired.phones found in
      ground (arith, passes, same, eq_iff phone.device device)

  -- A phone that is paired with a key is let in as itself when its certificate carries that key.
  pub pair-admits :
      (paired : Paired) (pairing_open : Bool) (certificate key : List ℕ) (device : DeviceId)
      (name : Text)
      → public_key_of certificate ≡ some key
      → admit h public_key_of (pair h key device name paired) pairing_open certificate
        ≡ Admission.known device
  unfolding admit pair phone_for
  pair-admits paired pairing_open certificate key device name e = ground (
    arith,
    lookup-insert_self (to_hex (digest_of h key)) (record { device = device; name = name })
        paired.phones,
  )
