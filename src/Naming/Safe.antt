-- ===== src/Naming/Safe.antt =====
-- desktop/crates/core/src/naming.rs: a vault name decides what a file is called and not where it
-- lands.
use photo_sync.Prelude.{
  ℕ, zero, suc, ◌-◌, ◌/◌, ◌≡◌, ◌≢◌, List, [], ◌∷◌, ◌++◌, Option, none, some, true, map, all, ltb,
  length, list_ord, Bool-cases, inl, inr, arith, All, All-append, if◌then◌else◌,
}
use photo_sync.Prelude.Map.{Set, contains}
use photo_sync.Prelude.Int.{ℤ}
use photo_sync.Id.{Text, DevicePath, VaultName}
use photo_sync.Naming.{
  after_last, assign, choose, extension_of, first_free, is_ascii_alphanumeric, join, render,
  to_ascii_lowercase, usable, suffix_part, extension_part,
}
use photo_sync.Naming.Civil.{CivilTime}
use photo_sync.Naming.Decimal.{decimal, decimal_onto, padded, padded_ℤ, zeros, digit}

-- A character that separates no directories.
abbrev pub IsPlain : ℕ → Type 0
IsPlain c = c ≢ b'/'

decimal_onto-IsPlain : (f n : ℕ) (acc : Text) → All IsPlain acc → All IsPlain (decimal_onto f n acc)
unfolding decimal_onto digit
decimal_onto-IsPlain zero n acc h = h
decimal_onto-IsPlain (suc f) n acc h = elim (Bool-cases (ltb n 10)) [
  | inl small ↦ rw small (omega arith, h)
  | inr large ↦ rw large (decimal_onto-IsPlain f (n / 10) _ (omega arith, h))
]

decimal-IsPlain : (n : ℕ) → All IsPlain (decimal n)
unfolding decimal
decimal-IsPlain n = decimal_onto-IsPlain (suc n) n [] tt

zeros-IsPlain : (n : ℕ) → All IsPlain (zeros n)
unfolding zeros
zeros-IsPlain zero = tt
zeros-IsPlain (suc n) = (omega arith, zeros-IsPlain n)

padded-IsPlain : (w n : ℕ) → All IsPlain (padded w n)
unfolding padded
padded-IsPlain w n = All-append IsPlain _ _ (zeros-IsPlain _) (decimal-IsPlain n)

padded_ℤ-IsPlain : (w : ℕ) (n : ℤ) → All IsPlain (padded_ℤ w n)
unfolding padded_ℤ
padded_ℤ-IsPlain w (ℤ.pos n) = padded-IsPlain w n
padded_ℤ-IsPlain w (ℤ.negsuc n) = (omega arith, padded-IsPlain (w - 1) (suc n))

dashed : (c n : ℕ) → IsPlain c → All IsPlain (c ∷ padded 2 n)
dashed c n h = (h, padded-IsPlain 2 n)

joined : (xs ys : Text) → All IsPlain xs → All IsPlain ys → All IsPlain (xs ++ ys)
joined = All-append IsPlain

render-IsPlain : (t : CivilTime) → All IsPlain (render t)
unfolding render
render-IsPlain t =
    let date =
      joined _ _ (joined _ _ (padded_ℤ-IsPlain 4 t.year) (dashed b'-' t.month (omega arith)))
        (dashed b'-' t.day (omega arith)) in
    joined _ _
      (joined _ _ (joined _ _ date (dashed b'_' t.hour (omega arith))) (padded-IsPlain 2 t.minute))
      (padded-IsPlain 2 t.second)

lowercase-IsPlain : (c : ℕ) → is_ascii_alphanumeric c ≡ true → IsPlain (to_ascii_lowercase c)
unfolding is_ascii_alphanumeric to_ascii_lowercase
lowercase-IsPlain c h = ground arith

map-lowercase-IsPlain :
    (cs : Text) → all is_ascii_alphanumeric cs ≡ true → All IsPlain (map to_ascii_lowercase cs)
map-lowercase-IsPlain [] h = tt
map-lowercase-IsPlain (c ∷ cs) h =
    (lowercase-IsPlain c (ground arith), map-lowercase-IsPlain cs (ground arith))

abbrev OptionPlain : Option Text → Type 0
OptionPlain none = Unit
OptionPlain (some e) = All IsPlain e

usable-all : (e : Text) → usable e ≡ true → all is_ascii_alphanumeric e ≡ true
unfolding usable
usable-all e h = ground arith

usable-IsPlain :
    (e : Text) → OptionPlain (if usable e then some (map to_ascii_lowercase e) else none)
usable-IsPlain e = elim (Bool-cases (usable e)) [
  | inl good ↦ rw good (map-lowercase-IsPlain e (usable-all e good))
  | inr bad ↦ rw bad tt
]

extension_of-IsPlain : (path : DevicePath) → OptionPlain (extension_of path)
unfolding extension_of
extension_of-IsPlain path = after_dot (after_last b'.' _)
  where
    after_dot :
        (o : Option Text)
        → OptionPlain (elim o [
          | none ↦ none
          | some e ↦ if usable e then some (map to_ascii_lowercase e) else none
        ])
    after_dot none = tt
    after_dot (some e) = usable-IsPlain e

suffix_part-IsPlain : (suffix : Option ℕ) → All IsPlain (suffix_part suffix)
suffix_part-IsPlain none = tt
suffix_part-IsPlain (some n) = (omega arith, decimal-IsPlain n)

extension_part-IsPlain : (e : Option Text) → OptionPlain e → All IsPlain (extension_part e)
extension_part-IsPlain none h = tt
extension_part-IsPlain (some e) h = (omega arith, h)

join-IsPlain :
    (stem : Text) (suffix : Option ℕ) (extension : Option Text)
    → All IsPlain stem
    → OptionPlain extension
    → All IsPlain (join stem suffix extension)
unfolding join
join-IsPlain stem suffix extension h k =
    All-append IsPlain _ _ h
      (All-append IsPlain _ _ (suffix_part-IsPlain suffix) (extension_part-IsPlain extension k))

first_free-IsPlain :
    (name : ℕ → VaultName) (taken : Set VaultName) (fuel s : ℕ)
    → ((n : ℕ) → All IsPlain (name n))
    → All IsPlain (first_free name taken fuel s)
unfolding first_free
first_free-IsPlain name taken zero s h = h s
first_free-IsPlain name taken (suc fuel) s h = elim (Bool-cases (contains (name s) taken)) [
  | inl used ↦ rw used (first_free-IsPlain name taken fuel _ h)
  | inr free ↦ rw free (h s)
]

-- Whatever path the phone chose, the name a file is assigned holds no path separator.
pub assign-IsPlain :
    (candidates : List CivilTime) (imported_at : CivilTime) (path : DevicePath)
    (taken : Set VaultName)
    → All IsPlain (assign candidates imported_at path taken)
unfolding assign
assign-IsPlain candidates imported_at path taken =
    let stem = render (choose candidates imported_at) in
    let extension = extension_of path in
    let plain : (suffix : Option ℕ) → All IsPlain (join stem suffix extension) =
      λ suffix. join-IsPlain stem suffix extension (render-IsPlain _) (extension_of-IsPlain path) in
    elim (Bool-cases (contains (join stem none extension) taken)) [
      | inr free ↦ rw free (plain none)
      | inl used ↦
          rw used (first_free-IsPlain _ taken (length taken) 1 (λ suffix. plain (some suffix)))
    ]
