-- ===== src/Shell/Wire.antt =====
-- proto/photosync/v1/sync.proto and pairing.proto: the messages between a phone and the desktop, as
-- far as the shell reads and writes them; and `u64` as text, which they carry file identifiers as.
pub mod Numbers
use photo_sync.Prelude.{
  ℕ, ◌+◌, ◌-◌, ◌*◌, List, [], ◌∷◌, Option, none, some, Bool, ◌&&◌, leb, ltb, eqb, if◌then◌else◌,
}
use photo_sync.Prelude.Word.{u64_mod}
use photo_sync.Id.{Sha256, Text, Timestamp}
use photo_sync.Catalog.{CatalogEntry}
use photo_sync.Effect.{CommitSummary, DiffSummary}

-- `PROTOCOL_VERSION`
abbrev pub protocol_version : ℕ
protocol_version = 1

pub record HandshakeRequest : Type 0 where
  pub protocol_version : ℕ
  pub device_id : Text
  pub device_name : Text

pub record HandshakeResponse : Type 0 where
  pub protocol_version : ℕ
  pub desktop_name : Text
  pub commit_in_progress : Bool

pub record CatalogChunk : Type 0 where
  pub entries : List CatalogEntry
  pub last : Bool
  pub total_bytes : ℕ

pub record WireToSend : Type 0 where
  pub path : Text
  pub file_id : Text
  pub resume_offset : ℕ

pub record DiffChunk : Type 0 where
  pub to_send : List WireToSend
  pub last : Bool
  pub summary : Option DiffSummary

pub record FileHeader : Type 0 where
  pub file_id : Text
  pub path : Text
  pub size : ℕ
  pub mtime : Timestamp
  pub offset : ℕ

-- The oneof of `FileChunk`, which may be missing.
pub data Kind : Type 0 where
  header : FileHeader → Kind
  bytes : List ℕ → Kind
  trailer : (sha256 : List ℕ) → Kind

pub record UploadResult : Type 0 where
  pub status : ℕ
  pub durable_bytes : ℕ

pub record WireCandidate : Type 0 where
  pub path : Text
  pub size : ℕ
  pub mtime : Timestamp
  pub expected_sha256 : List ℕ
  pub origin : ℕ

pub record FinishChunk : Type 0 where
  pub candidates : List WireCandidate
  pub last : Bool
  pub commit : Option CommitSummary

pub record WireOutcome : Type 0 where
  pub path : Text
  pub result : ℕ

pub record PairRequest : Type 0 where
  pub protocol_version : ℕ
  pub device_id : Text
  pub device_name : Text

pub record PairResponse : Type 0 where
  pub accepted : Bool
  pub desktop_name : Text

-- A call's error, by its code and what its text says.
pub data Status : Type 0 where
  transport : Text → Status
  no_key not_paired no_diff no_candidates no_summary : Status
  other_version : (ours : ℕ) → Status
  too_many_entries : (most : ℕ) → Status
  not_enough_space : (required_bytes available_bytes : ℕ) → Status
  finishing_previous_import : Status
  not_a_number bytes_before_header digest_before_header empty_message bad_digest : Status
  not_finished pairing_closed : Status
  not_written : Text → Status

-- `str::parse::<u64>`: digits, after a plus sign that may be there.
abbrev pub is_decimal : ℕ → Bool
is_decimal c = leb b'0' c && leb c b'9'

unfoldable pub parse_digits : ℕ → Text → Option ℕ
parse_digits v [] = some v
parse_digits v (c ∷ cs) =
    let next = v * 10 + (c - b'0') in
    let rest = parse_digits next cs in if is_decimal c && ltb next u64_mod then rest else none

abbrev pub parse_number : Text → Option ℕ
parse_number [] = none
parse_number (c ∷ cs) = parse_digits 0 (c ∷ cs)

unfoldable pub parse_u64 : Text → Option ℕ
parse_u64 [] = none
parse_u64 (c ∷ cs) = if eqb c b'+' then parse_number cs else parse_number (c ∷ cs)
