-- ===== src/Id.antt =====
-- desktop/crates/core/src/id.rs: identifiers and small values.
-- The newtypes around a string are texts, as their UTF-8 bytes; `FileId` and `OpId` are the `u64`
-- inside them, `Timestamp` the `i64`, and a digest is its bytes.
use photo_sync.Prelude.{ℕ, List}
use photo_sync.Prelude.Int.{ℤ}

abbrev pub Text : Type 0
Text = List ℕ

abbrev pub DeviceId : Type 0
DeviceId = Text

abbrev pub DevicePath : Type 0
DevicePath = Text

abbrev pub VaultName : Type 0
VaultName = Text

abbrev pub FileId : Type 0
FileId = ℕ

abbrev pub OpId : Type 0
OpId = ℕ

abbrev pub Timestamp : Type 0
Timestamp = ℤ

abbrev pub Sha256 : Type 0
Sha256 = List ℕ
