-- ===== src/Naming.antt =====
-- desktop/crates/core/src/naming.rs: the name a photo takes in the vault.
pub mod Civil
pub mod Decimal
pub mod Calendar
pub mod Free
pub mod Safe
use photo_sync.Prelude.{
  ℕ, zero, suc, ◌+◌, ◌%◌, ◌^◌, List, [], ◌∷◌, ◌++◌, map, find, all, Option, none, some, Bool, true,
  false, Ordering, ◌&&◌, ◌||◌, not, leb, ltb, eqb, length, is_empty, list_ord, if◌then◌else◌,
}
use photo_sync.Prelude.Int.{ℤ, cmp_ℤ}
use photo_sync.Prelude.Map.{Set, contains}
use photo_sync.Id.{Text, DevicePath, VaultName}
use Civil.{CivilTime, cmp_civil}
use Decimal.{decimal, padded, padded_ℤ}

abbrev pub earliest_plausible_year : ℤ
earliest_plausible_year = ℤ.pos 2000

-- `a <= b` by a derived order.
abbrev not_greater : Ordering → Bool
not_greater Ordering.gt = false
not_greater _ = true

unfoldable pub is_plausible : CivilTime → CivilTime → Bool
is_plausible reading imported_at =
    not_greater (cmp_ℤ earliest_plausible_year reading.year)
    && not_greater (cmp_civil reading imported_at)

unfoldable pub render : CivilTime → Text
render t =
    padded_ℤ 4 t.year
    ++ (b'-' ∷ padded 2 t.month)
    ++ (b'-' ∷ padded 2 t.day)
    ++ (b'_' ∷ padded 2 t.hour)
    ++ padded 2 t.minute
    ++ padded 2 t.second

abbrev or_else {ℓ} : {A : Type ℓ} → Option A → A → A
or_else none d = d
or_else (some a) d = a

unfoldable pub choose : List CivilTime → CivilTime → CivilTime
choose candidates imported_at =
    or_else (find (λ candidate. is_plausible candidate imported_at) candidates) imported_at

unfoldable pub stem : List CivilTime → CivilTime → Text
stem candidates imported_at = render (choose candidates imported_at)

-- The part of a text after the last `c`, if there is one.
unfoldable pub after_last : ℕ → Text → Option Text
after_last c [] = none
after_last c (x ∷ xs) = elim (after_last c xs) [
  | some rest ↦ some rest
  | none ↦ if eqb x c then some xs else none
]

unfoldable pub is_ascii_alphanumeric : ℕ → Bool
is_ascii_alphanumeric c =
    (leb b'0' c && leb c b'9') || (leb b'A' c && leb c b'Z') || (leb b'a' c && leb c b'z')

unfoldable pub to_ascii_lowercase : ℕ → ℕ
to_ascii_lowercase c = if leb b'A' c && leb c b'Z' then c + 32 else c

unfoldable pub usable : Text → Bool
usable extension =
    not (is_empty extension) && leb (length extension) 16 && all is_ascii_alphanumeric extension

unfoldable pub extension_of : DevicePath → Option Text
extension_of path = elim (after_last b'.' (or_else (after_last b'/' path) path)) [
  | none ↦ none
  | some extension ↦ if usable extension then some (map to_ascii_lowercase extension) else none
]

abbrev pub suffix_part : Option ℕ → Text
suffix_part none = []
suffix_part (some suffix) = b'_' ∷ decimal suffix

abbrev pub extension_part : Option Text → Text
extension_part none = []
extension_part (some extension) = b'.' ∷ extension

unfoldable pub join : Text → Option ℕ → Option Text → Text
join stem suffix extension = stem ++ (suffix_part suffix ++ extension_part extension)

-- `for suffix in 1u32..`, on fuel: the first suffix whose name is free.
unfoldable pub first_free : (ℕ → VaultName) → Set VaultName → ℕ → ℕ → VaultName
first_free name taken zero suffix = name suffix
first_free name taken (suc fuel) suffix =
    let rest = first_free name taken fuel ((suffix + 1) % 2 ^ 32) in
    if contains (name suffix) taken then rest else name suffix

-- Among one more suffixes than names are taken, one is free.
unfoldable pub assign : List CivilTime → CivilTime → DevicePath → Set VaultName → VaultName
assign candidates imported_at path taken =
    let stem = render (choose candidates imported_at) in
    let extension = extension_of path in
    let plain = join stem none extension in
    if contains plain taken
    then first_free (λ suffix. join stem (some suffix) extension) taken (length taken) 1
    else plain
