-- ===== src/Naming/Civil.antt =====
-- desktop/crates/core/src/naming.rs: wall-clock readings and their order.
use photo_sync.Prelude.{ℕ, compare, Ordering, then}
use photo_sync.Prelude.Int.{ℤ, cmp_ℤ}
use photo_sync.Id.{Timestamp}

-- Years are `i32`; the other fields are `u8`.
pub record CivilTime : Type 0 where
  pub year : ℤ
  pub month : ℕ
  pub day : ℕ
  pub hour : ℕ
  pub minute : ℕ
  pub second : ℕ

pub record Moment : Type 0 where
  pub at : Timestamp
  pub local : CivilTime

-- The derived order: the fields in their order.
unfoldable pub cmp_civil : CivilTime → CivilTime → Ordering
cmp_civil a b = then (cmp_ℤ a.year b.year) (
    then (compare a.month b.month) (
      then (compare a.day b.day) (
        then (compare a.hour b.hour)
          (then (compare a.minute b.minute) (compare a.second b.second)))))
