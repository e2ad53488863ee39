-- ===== src/Prelude/Order.antt =====
-- Rust's derived `Ord` and `Eq`: a three-way comparison whose `eq` is equality.
use Prim.Native.Nat.{ℕ, compare, Ordering}
use mathlib.Core.Path.{◌≡◌, refl, ap, ◌∙◌}
use mathlib.Core.Logic.{◌↔◌}
use mathlib.Core.Bool.{Bool, true, false}
use mathlib.Core.List.{List, [], ◌∷◌}
use native.Mathlib.Omega.{arith}

pub record Ord {ℓ} (K : Type ℓ) : Type ℓ where
  pub cmp : K → K → Ordering
  pub cmp_refl : (a : K) → cmp a a ≡ Ordering.eq
  pub eq_of_cmp : (a b : K) → cmp a b ≡ Ordering.eq → a ≡ b

abbrev pub is_eq : Ordering → Bool
is_eq Ordering.eq = true
is_eq _ = false

infix 50 ◌==◌
unfoldable pub ◌==◌ {ℓ} : {K : Type ℓ} ⦃o : Ord K⦄ → K → K → Bool
◌==◌ ⦃o⦄ a b = is_eq (o.cmp a b)

eq_of_is_eq : (c : Ordering) → is_eq c ≡ true → c ≡ Ordering.eq
eq_of_is_eq c h = ground arith

module _ {ℓ} {K : Type ℓ} ⦃o : Ord K⦄ where
  pub eq_iff : (a b : K) → ((a == b) ≡ true) ↔ (a ≡ b)
  unfolding ◌==◌
  eq_iff a b = (λ h. o.eq_of_cmp a b (eq_of_is_eq (o.cmp a b) h), λ e. rw e (rw (o.cmp_refl b)))

  pub eq_refl : (a : K) → (a == a) ≡ true
  eq_refl a = (eq_iff a a).1 refl

abbrev pub then : Ordering → Ordering → Ordering
then Ordering.eq second = second
then first _ = first

pub compare_refl : (a : ℕ) → compare a a ≡ Ordering.eq
compare_refl a = ground arith

pub eq_of_compare : (a b : ℕ) → compare a b ≡ Ordering.eq → a ≡ b
eq_of_compare a b h = ground arith

instance unfoldable pub nat_ord : Ord ℕ
nat_ord = record { cmp = compare; cmp_refl = compare_refl; eq_of_cmp = eq_of_compare }

-- Strings and byte arrays compare lexicographically.
unfoldable pub cmp_list : List ℕ → List ℕ → Ordering
cmp_list [] [] = Ordering.eq
cmp_list [] (y ∷ ys) = Ordering.lt
cmp_list (x ∷ xs) [] = Ordering.gt
cmp_list (x ∷ xs) (y ∷ ys) = then (compare x y) (cmp_list xs ys)

pub cmp_list_refl : (xs : List ℕ) → cmp_list xs xs ≡ Ordering.eq
unfolding cmp_list
cmp_list_refl [] = refl
cmp_list_refl (x ∷ xs) = rw (compare_refl x) (cmp_list_refl xs)

pub eq_of_cmp_list : (xs ys : List ℕ) → cmp_list xs ys ≡ Ordering.eq → xs ≡ ys
unfolding cmp_list
eq_of_cmp_list [] [] h = refl
eq_of_cmp_list [] (y ∷ ys) h = cc
eq_of_cmp_list (x ∷ xs) [] h = cc
eq_of_cmp_list (x ∷ xs) (y ∷ ys) h = ground (arith, eq_of_cmp_list xs ys)

instance unfoldable pub list_ord : Ord (List ℕ)
list_ord = record { cmp = cmp_list; cmp_refl = cmp_list_refl; eq_of_cmp = eq_of_cmp_list }

then_eq : (c d : Ordering) → then c d ≡ Ordering.eq → (c ≡ Ordering.eq) × (d ≡ Ordering.eq)
then_eq c d h = ground arith

-- Pairs compare by their first component, and then by their second.
module _ {ℓ κ} {K : Type ℓ} {L : Type κ} ⦃o : Ord K⦄ ⦃p : Ord L⦄ where
  unfoldable pub cmp_pair : K × L → K × L → Ordering
  cmp_pair a b = then (o.cmp a.0 b.0) (p.cmp a.1 b.1)

  pub cmp_pair_refl : (a : K × L) → cmp_pair a a ≡ Ordering.eq
  unfolding cmp_pair
  cmp_pair_refl a = rw (o.cmp_refl a.0) (p.cmp_refl a.1)

  pub eq_of_cmp_pair : (a b : K × L) → cmp_pair a b ≡ Ordering.eq → a ≡ b
  unfolding cmp_pair
  eq_of_cmp_pair a b h =
      let (first, second) = then_eq (o.cmp a.0 b.0) (p.cmp a.1 b.1) h in
      ap (λ x. (x, a.1)) (o.eq_of_cmp a.0 b.0 first)
      ∙ ap (λ y. (b.0, y)) (p.eq_of_cmp a.1 b.1 second)

  instance unfoldable pub pair_ord : Ord (K × L)
  pair_ord = record { cmp = cmp_pair; cmp_refl = cmp_pair_refl; eq_of_cmp = eq_of_cmp_pair }
