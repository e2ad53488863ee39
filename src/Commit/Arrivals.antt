-- ===== src/Commit/Arrivals.antt =====
-- desktop/crates/core/src/commit.rs: a plan over its batch, in the order in which the files arrived.
use mathlib.Core.List.{Perm}
use photo_sync.Prelude.{List, filter, is_some}
use photo_sync.Session.Sorting.{AreOrdered, sort_by_file-AreOrdered, sort_by_file-Perm}
use photo_sync.Store.{StagingEntry, is_verified}
use photo_sync.Commit.{Inputs, in_arrival_order, no_plan, plan}
use photo_sync.Commit.Rows.{Covers, plan-Covers}

-- The entries of a manifest that have a digest, by rising identifier.
pub record AreArrivals (entries order : List StagingEntry) : Type 0 where
  pub same : Perm order (filter (λ entry. is_some entry.digest) entries)
  pub rising : AreOrdered order

in_arrival_order-AreArrivals :
    (entries : List StagingEntry) → AreArrivals entries (in_arrival_order entries)
unfolding in_arrival_order is_verified
in_arrival_order-AreArrivals entries = record {
  same = sort_by_file-Perm _;
  rising = sort_by_file-AreOrdered _;
}

-- A plan names exactly the manifest's verified entries whose staged file is there, by rising
-- identifier, which is the order they arrived in; it leaves one row for each of them, duplicates
-- included, with the phone's own path, size and time and the digest of the manifest; and it drops
-- exactly the verified entries whose file is missing.
pub plan-Covers_arrivals :
    (inputs : Inputs)
    → (order : List StagingEntry) × AreArrivals inputs.entries order
      × Covers inputs no_plan order (plan inputs)
plan-Covers_arrivals inputs = (
  in_arrival_order inputs.entries,
  in_arrival_order-AreArrivals inputs.entries,
  plan-Covers inputs,
)
