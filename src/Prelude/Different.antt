-- ===== src/Prelude/Different.antt =====
-- Lists whose items are all different, and what is true of every item of a part of a list.
use Prim.Native.Nat.{ℕ, zero, suc}
use mathlib.Core.Path.{◌≡◌, refl}
use mathlib.Core.Logic.{◌≢◌, inl, inr}
use mathlib.Core.Bool.{Bool}
use mathlib.Core.Option.{Option}
use mathlib.Core.List.{List, [], ◌∷◌, ◌++◌, map}
use native.Mathlib.Omega.{arith}
use photo_sync.Prelude.Tests.{Bool-cases}
use photo_sync.Prelude.Lists.{All, All-append, drop, filter, filter_map, take}

module _ {ℓ} {A : Type ℓ} where
  abbrev pub AllDifferent : List A → Type ℓ
  AllDifferent [] = Unit
  AllDifferent (x ∷ xs) = All (λ y. x ≢ y) xs × AllDifferent xs

  pub AllDifferent-snoc :
      (xs : List A) (y : A) → AllDifferent xs → All (λ x. x ≢ y) xs → AllDifferent (xs ++ y ∷ [])
  AllDifferent-snoc [] y h k = (tt, tt)
  AllDifferent-snoc (x ∷ xs) y h k =
      (All-append (λ z. x ≢ z) xs (y ∷ []) h.0 (k.0, tt), AllDifferent-snoc xs y h.1 k.1)

  pub All-take {κ} : (P : A → Type κ) (n : ℕ) (xs : List A) → All P xs → All P (take n xs)
  All-take P zero xs h = tt
  All-take P (suc n) [] h = tt
  All-take P (suc n) (x ∷ xs) h = (h.0, All-take P n xs h.1)

  pub All-drop {κ} : (P : A → Type κ) (n : ℕ) (xs : List A) → All P xs → All P (drop n xs)
  All-drop P zero xs h = h
  All-drop P (suc n) [] h = tt
  All-drop P (suc n) (x ∷ xs) h = All-drop P n xs h.1

  pub All-filter {κ} :
      (P : A → Type κ) (p : A → Bool) (xs : List A) → All P xs → All P (filter p xs)
  All-filter P p [] h = tt
  All-filter P p (x ∷ xs) h = elim (Bool-cases (p x)) [
    | inl e ↦ rw e (h.0, All-filter P p xs h.1)
    | inr e ↦ rw e (All-filter P p xs h.1)
  ]

module _ {ℓ κ} {A : Type ℓ} {B : Type κ} where
  pub filter_map-append :
      (f : A → Option B) (xs ys : List A)
      → filter_map f (xs ++ ys) ≡ filter_map f xs ++ filter_map f ys
  filter_map-append f [] ys = refl
  filter_map-append f (x ∷ xs) ys = ground (arith, filter_map-append f xs ys)

  pub AllDifferent-filter :
      (f : A → B) (p : A → Bool) (xs : List A)
      → AllDifferent (map f xs)
      → AllDifferent (map f (filter p xs))
  AllDifferent-filter f p [] h = tt
  AllDifferent-filter f p (x ∷ xs) h = elim (Bool-cases (p x)) [
    | inl e ↦ rw e (differs xs h.0, AllDifferent-filter f p xs h.1)
    | inr e ↦ rw e (AllDifferent-filter f p xs h.1)
  ]
    where
      differs :
          (ys : List A) → All (λ z. f x ≢ z) (map f ys) → All (λ z. f x ≢ z) (map f (filter p ys))
      differs [] k = tt
      differs (y ∷ ys) k = elim (Bool-cases (p y)) [
        | inl e ↦ rw e (k.0, differs ys k.1)
        | inr e ↦ rw e (differs ys k.1)
      ]
