-- ===== src/Naming/Calendar.antt =====
-- desktop/crates/core/src/naming.rs: seconds since the epoch as a reading in UTC.
use photo_sync.Prelude.{ℕ, ◌+◌, ◌-◌, ◌*◌, ◌/◌, ◌%◌, ◌^◌, ◌≡◌, refl, leb, ltb, if◌then◌else◌}
use photo_sync.Prelude.Int.{ℤ, ◌+ℤ◌, scale, div_euclid, rem_euclid}
use photo_sync.Naming.Civil.{CivilTime}

-- `i32::try_from(_).unwrap_or(0)` and `u8::try_from(_).unwrap_or(d)`
unfoldable pub to_i32 : ℤ → ℤ
to_i32 (ℤ.pos n) = if ltb n (2 ^ 31) then ℤ.pos n else ℤ.pos 0
to_i32 (ℤ.negsuc n) = if ltb n (2 ^ 31) then ℤ.negsuc n else ℤ.pos 0

unfoldable pub to_u8 : ℕ → ℕ → ℕ
to_u8 n default = if ltb n 256 then n else default

unfoldable pub year_of_era : ℕ → ℕ
year_of_era day_of_era =
    (day_of_era - day_of_era / 1460 + day_of_era / 36524 - day_of_era / 146096) / 365

unfoldable pub day_of_year : ℕ → ℕ
day_of_year day_of_era = let y = year_of_era day_of_era in day_of_era - (365 * y + y / 4 - y / 100)

unfoldable pub civil_from_unix : ℤ → CivilTime
unfolding ◌+ℤ◌ scale div_euclid rem_euclid to_i32 to_u8 year_of_era day_of_year
civil_from_unix seconds =
    let days = div_euclid seconds 86400 in
    let rest = rem_euclid seconds 86400 in
    let shifted = days +ℤ ℤ.pos 719468 in
    let era = div_euclid shifted 146097 in
    let day_of_era = rem_euclid shifted 146097 in
    let year = ℤ.pos (year_of_era day_of_era) +ℤ scale 400 era in
    let shifted_month = (5 * day_of_year day_of_era + 2) / 153 in
    let day = day_of_year day_of_era - (153 * shifted_month + 2) / 5 + 1 in
    let month = if ltb shifted_month 10 then shifted_month + 3 else shifted_month - 9 in
    record {
      year = to_i32 (year +ℤ (if leb month 2 then ℤ.pos 1 else ℤ.pos 0));
      month = to_u8 month 1;
      day = to_u8 day 1;
      hour = to_u8 (rest / 3600) 0;
      minute = to_u8 (rest % 3600 / 60) 0;
      second = to_u8 (rest % 60) 0;
    }

-- `a_known_instant_reads_as_its_published_time`
known_instant :
    civil_from_unix (ℤ.pos 1787563800)
    ≡ record { year = ℤ.pos 2026; month = 8; day = 24; hour = 9; minute = 30; second = 0 }
unfolding civil_from_unix
known_instant = refl

-- `the_last_second_before_a_leap_year_reads_correctly`
before_leap_year :
    civil_from_unix (ℤ.negsuc 31536000)
    ≡ record { year = ℤ.pos 1968; month = 12; day = 31; hour = 23; minute = 59; second = 59 }
unfolding civil_from_unix
before_leap_year = refl
