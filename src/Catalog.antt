-- ===== src/Catalog.antt =====
-- desktop/crates/core/src/catalog.rs: the phone's listing of the files it holds.
use photo_sync.Prelude.{ℕ, List, []}
use photo_sync.Id.{DevicePath, Timestamp}

pub record CatalogEntry : Type 0 where
  pub path : DevicePath
  pub size : ℕ
  pub mtime : Timestamp

pub record Catalog : Type 0 where
  pub entries : List CatalogEntry
  pub total_bytes : ℕ

-- `Catalog::default`
abbrev pub default : Catalog
default = record { entries = []; total_bytes = 0 }

-- `Catalog::new`
abbrev pub new : List CatalogEntry → ℕ → Catalog
new entries total_bytes = record { entries = entries; total_bytes = total_bytes }
