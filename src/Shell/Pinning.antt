-- ===== src/Shell/Pinning.antt =====
-- desktop/crates/shell/src/pinning.rs: which phones the desktop talks to. Reading a certificate is
-- the `x509_parser` crate's, and a parameter; the file that keeps the paired phones is left out.
pub mod Admitting
use photo_sync.Prelude.{
  ℕ, ◌+◌, ◌-◌, ◌/◌, ◌%◌, List, [], ◌∷◌, Option, none, some, Bool, not, ltb, ◌==◌, list_ord, nat_ord,
  if◌then◌else◌,
}
use photo_sync.Prelude.Map.{Map, insert, lookup, retain}
use photo_sync.Id.{DeviceId, Sha256, Text}
use photo_sync.Digest
use photo_sync.Digest.{Hasher}

-- One hexadecimal digit of `{byte:02x}`
abbrev pub hex_digit : ℕ → ℕ
hex_digit n = if ltb n 10 then b'0' + n else b'a' + (n - 10)

-- `Sha256::to_hex`
unfoldable pub to_hex : Sha256 → Text
to_hex [] = []
to_hex (byte ∷ bytes) = hex_digit (byte / 16) ∷ hex_digit (byte % 16) ∷ to_hex bytes

pub record PairedPhone : Type 0 where
  pub device : Text
  pub name : Text

pub record Paired : Type 0 where
  pub phones : Map Text PairedPhone

-- `Paired::new`
abbrev pub nobody_paired : Paired
nobody_paired = record { phones = [] }

pub data Admission : Type 0 where
  known : DeviceId → Admission
  offered : (key : List ℕ) → Admission
  refused : Admission

unfoldable pub unpair : DeviceId → Paired → Paired
unpair device paired = record {
  phones = retain (λ key (phone : PairedPhone). not (phone.device == device)) paired.phones;
}

module _ {S : Type 0} (h : Hasher S) where
  unfoldable pub digest_of : List ℕ → Sha256
  digest_of key = Digest.peek ⦃h = h⦄ (Digest.update ⦃h = h⦄ (Digest.new ⦃h = h⦄) key)

  unfoldable pub pair : List ℕ → DeviceId → Text → Paired → Paired
  pair key device name paired = record {
    phones =
        insert (to_hex (digest_of key)) (record { device = device; name = name }) paired.phones;
  }

  unfoldable pub phone_for : List ℕ → Paired → Option PairedPhone
  phone_for key paired = lookup (to_hex (digest_of key)) paired.phones

  unfoldable pub admit :
      (public_key_of : List ℕ → Option (List ℕ)) → Paired → Bool → List ℕ → Admission
  admit public_key_of paired pairing_open certificate = elim (public_key_of certificate) [
    | none ↦ Admission.refused
    | some key ↦ elim (phone_for key paired) [
      | some phone ↦ Admission.known phone.device
      | none ↦ if pairing_open then Admission.offered key else Admission.refused
    ]
  ]
