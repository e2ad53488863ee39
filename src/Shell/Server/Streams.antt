-- ===== src/Shell/Server/Streams.antt =====
-- desktop/crates/shell/src/server.rs, `submit_catalog`: how much of a catalog a desktop reads.
use photo_sync.Prelude.{
  ℕ, ◌+◌, ◌-◌, ◌≤◌, ◌<◌, List, [], ◌∷◌, ◌++◌, length, length-append, map, min, leb, ◌≡◌, sym, ap,
  ◌∙◌, arith, append_assoc, append-nil, inl, inr, Bool-cases, if◌then◌else◌,
}
use photo_sync.Prelude.Word.{saturating_add, u64_mod}
use photo_sync.Catalog.{CatalogEntry}
use photo_sync.Event.{Result}
use photo_sync.Shell.Wire.{CatalogChunk, Status}
use photo_sync.Shell.Server.{catalog_ceiling, read_catalog, take_under}

abbrev pub all_entries : List CatalogChunk → List CatalogEntry
all_entries [] = []
all_entries (chunk ∷ chunks) = chunk.entries ++ all_entries chunks

-- The total of the last message marked as the last.
abbrev pub last_total : ℕ → List CatalogChunk → ℕ
last_total total [] = total
last_total total (chunk ∷ chunks) =
    last_total (if chunk.last then chunk.total_bytes else total) chunks

abbrev pub within : List CatalogEntry → ℕ → Result (List CatalogEntry × ℕ) Status
within entries total =
    if leb (length entries) catalog_ceiling
    then Result.ok (entries, total)
    else Result.err (Status.too_many_entries catalog_ceiling)

take_under-fits :
    (held arrived : ℕ)
    → held + arrived ≤ catalog_ceiling
    → take_under catalog_ceiling held arrived ≡ Result.ok (held + arrived)
unfolding take_under saturating_add
take_under-fits held arrived h =
    let now : min (held + arrived) (u64_mod - 1) ≡ held + arrived = omega (arith, h) in
    rw now (ground (arith, h))

take_under-refuses :
    (held arrived : ℕ)
    → catalog_ceiling < held + arrived
    → take_under catalog_ceiling held arrived ≡ Result.err (Status.too_many_entries catalog_ceiling)
unfolding take_under saturating_add
take_under-refuses held arrived h = ground (arith, h)

read-within :
    (entries : List CatalogEntry) (total : ℕ) (chunks : List CatalogChunk)
    → length entries ≤ catalog_ceiling
    → read_catalog (length entries) entries total (map Result.ok chunks)
      ≡ within (entries ++ all_entries chunks) (last_total total chunks)
unfolding read_catalog
read-within entries total [] h = rw (append-nil entries) (ground (arith, h))
read-within entries total (chunk ∷ chunks) h =
    let both = entries ++ chunk.entries in
    let long = length-append entries chunk.entries in
    elim (Bool-cases (leb (length entries + length chunk.entries) catalog_ceiling)) [
      | inl fits ↦
          rw (read_catalog, take_under-fits (length entries) (length chunk.entries) (ground arith))
            (ap
                (λ n.
                  read_catalog n both (if chunk.last then chunk.total_bytes else total)
                    (map Result.ok chunks))
                (sym long)
              ∙ (read-within both (if chunk.last then chunk.total_bytes else total) chunks
                    (ground (arith, long))
                  ∙ ap
                      (λ xs.
                        within xs
                          (last_total (if chunk.last then chunk.total_bytes else total) chunks))
                      (append_assoc entries chunk.entries (all_entries chunks))))
      | inr over ↦
          rw
            (
              read_catalog,
              take_under-refuses (length entries) (length chunk.entries) (ground arith),
            )
            (ground (
              arith,
              length-append entries (chunk.entries ++ all_entries chunks),
              length-append chunk.entries (all_entries chunks),
            ))
    ]

-- A catalog that comes in messages, none of them broken, is read whole and in order when it has at
-- most a million entries, with the total of the last message marked as the last, and is refused
-- otherwise, however it was cut into messages.
pub read_catalog-within :
    (chunks : List CatalogChunk)
    → read_catalog 0 [] 0 (map Result.ok chunks) ≡ within (all_entries chunks) (last_total 0 chunks)
read_catalog-within chunks = read-within [] 0 chunks (omega arith)
