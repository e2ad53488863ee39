-- ===== src/Naming/Free.antt =====
-- desktop/crates/core/src/naming.rs: the name that `assign` finds is free, and the search for it
-- ends before the suffix can wrap.
use mathlib.Core.List.{append_cancel_left, append_cancel_right}
use photo_sync.Prelude.{
  ℕ, zero, suc, ◌+◌, ◌%◌, ◌^◌, ◌≤◌, ◌<◌, ◌≡◌, refl, ap, List, [], ◌∷◌, Option, none, some, true,
  false, ◌==◌, eq_iff, Bool-cases, inl, inr, length, drop, list_ord, arith,
}
use photo_sync.Prelude.Map.{Set, contains, lookup, remove, contains-remove}
use photo_sync.Id.{Text, DevicePath, VaultName}
use photo_sync.Naming.{first_free, assign, choose, extension_of, join, render}
use photo_sync.Naming.Decimal.{decimal-injective}
use photo_sync.Naming.Civil.{CivilTime}

length-remove-le : (k : VaultName) (s : Set VaultName) → length (remove k s) ≤ length s
unfolding remove
length-remove-le k [] = omega arith
length-remove-le k ((j, v) ∷ s) = ground (arith, length-remove-le k s)

length-remove-lt :
    (k : VaultName) (s : Set VaultName) → contains k s ≡ true → length (remove k s) < length s
unfolding remove contains lookup
length-remove-lt k [] h = cc
length-remove-lt k ((j, v) ∷ s) h = elim (Bool-cases (j == k)) [
  | inl same ↦ rw same (omega (arith, length-remove-le k s))
  | inr other ↦ rw other (ground (arith, length-remove-lt k s))
]

module _ (name : ℕ → VaultName) (name-injective : (a b : ℕ) → name a ≡ name b → a ≡ b) where
  -- A name of a suffix not below `s`.
  abbrev Named : ℕ → VaultName → Type 0
  Named s r = (t : ℕ) × (s ≤ t) × (r ≡ name t)

  Named-weaken : (s : ℕ) (r : VaultName) → Named (s + 1) r → Named s r
  Named-weaken s r (t, above, e) = (t, omega arith, e)

  -- What the search returns is the name of a suffix not below the first.
  first_free-Named :
      (taken : Set VaultName) (fuel s : ℕ)
      → s + fuel < 2 ^ 32
      → Named s (first_free name taken fuel s)
  unfolding first_free
  first_free-Named taken zero s h = (s, omega arith, refl)
  first_free-Named taken (suc fuel) s h =
      let wraps : (s + 1) % 2 ^ 32 ≡ s + 1 = omega arith in
      elim (Bool-cases (contains (name s) taken)) [
        | inr free ↦ rw free (s, omega arith, refl)
        | inl used ↦
            rw (used, wraps) (Named-weaken s _ (first_free-Named taken fuel (s + 1) (omega arith)))
      ]

  -- A name below the first suffix plays no part in the search.
  first_free-remove :
      (taken : Set VaultName) (r fuel s : ℕ)
      → r < s
      → s + fuel < 2 ^ 32
      → first_free name taken fuel s ≡ first_free name (remove (name r) taken) fuel s
  unfolding first_free
  first_free-remove taken r zero s below h = refl
  first_free-remove taken r (suc fuel) s below h =
      let wraps : (s + 1) % 2 ^ 32 ≡ s + 1 = omega arith in
      ground (
        arith,
        wraps,
        contains-remove (name r) (name s) taken,
        eq_iff (name r) (name s),
        name-injective r s,
        first_free-remove taken r fuel (s + 1),
      )

  -- With as much fuel as there are names taken, the name found is not taken.
  first_free-free :
      (taken : Set VaultName) (fuel s : ℕ)
      → length taken ≤ fuel
      → s + fuel < 2 ^ 32
      → contains (first_free name taken fuel s) taken ≡ false
  unfolding first_free
  first_free-free [] zero s small h = unfold contains lookup in refl
  first_free-free (e ∷ taken) zero s small h = absurd (omega arith)
  first_free-free taken (suc fuel) s small h =
      let wraps : (s + 1) % 2 ^ 32 ≡ s + 1 = omega arith in
      elim (Bool-cases (contains (name s) taken)) [
        | inr free ↦ rw free free
        | inl used ↦
            let found = first_free-Named (remove (name s) taken) fuel (s + 1) (omega arith) in
            rw (used, wraps, first_free-remove taken s fuel (s + 1) (omega arith) (omega arith))
              (ground (
                arith,
                first_free-free (remove (name s) taken) fuel (s + 1)
                    (omega (arith, length-remove-lt (name s) taken used)) (omega arith),
                contains-remove (name s) (first_free name (remove (name s) taken) fuel (s + 1))
                    taken,
                eq_iff (name s) (first_free name (remove (name s) taken) fuel (s + 1)),
                name-injective s found.0,
              ))
      ]

-- Two suffixes make two names.
join-injective :
    (stem : Text) (extension : Option Text) (a b : ℕ)
    → join stem (some a) extension ≡ join stem (some b) extension
    → a ≡ b
unfolding join
join-injective stem none a b h =
    decimal-injective a b (append_cancel_right _ _ [] (ap (drop 1) (append_cancel_left stem _ _ h)))
join-injective stem (some e) a b h =
    decimal-injective a b
      (append_cancel_right _ _ (b'.' ∷ e) (ap (drop 1) (append_cancel_left stem _ _ h)))

-- The name that a file is assigned is not taken, whatever is taken, as long as the taken names
-- can be counted by the suffix.
pub assign_free :
    (candidates : List CivilTime) (imported_at : CivilTime) (path : DevicePath)
    (taken : Set VaultName)
    → length taken + 1 < 2 ^ 32
    → contains (assign candidates imported_at path taken) taken ≡ false
unfolding assign
assign_free candidates imported_at path taken h =
    let stem = render (choose candidates imported_at) in
    let extension = extension_of path in
    elim (Bool-cases (contains (join stem none extension) taken)) [
      | inr free ↦ rw free free
      | inl used ↦ rw used (
          first_free-free (λ suffix. join stem (some suffix) extension)
            (join-injective stem extension) taken (length taken) 1 (omega arith) (omega arith))
    ]
