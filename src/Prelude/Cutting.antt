-- ===== src/Prelude/Cutting.antt =====
-- Lists cut in two: `take`, `drop`, and what is left together.
use Prim.Native.Nat.{ℕ, zero, suc, ◌+◌, ◌-◌, ◌≤◌, min}
use mathlib.Core.Path.{◌≡◌, refl, ap}
use mathlib.Core.List.{List, [], ◌∷◌, ◌++◌}
use native.Mathlib.Omega.{arith}
use photo_sync.Prelude.Lists.{drop, length, take}

pub take-drop : {A : Type 0} (n : ℕ) (xs : List A) → take n xs ++ drop n xs ≡ xs
take-drop zero xs = refl
take-drop (suc n) [] = refl
take-drop (suc n) (x ∷ xs) = ap (λ ys. x ∷ ys) (take-drop n xs)

pub length-take : {A : Type 0} (n : ℕ) (xs : List A) → length (take n xs) ≡ min n (length xs)
length-take zero xs = omega arith
length-take (suc n) [] = omega arith
length-take (suc n) (x ∷ xs) = omega (arith, length-take n xs)

pub length-drop : {A : Type 0} (n : ℕ) (xs : List A) → length (drop n xs) ≡ length xs - n
length-drop zero xs = omega arith
length-drop (suc n) [] = omega arith
length-drop (suc n) (x ∷ xs) = omega (arith, length-drop n xs)

pub drop-length : {A : Type 0} (n : ℕ) (xs : List A) → length xs ≤ n → drop n xs ≡ []
drop-length zero [] h = refl
drop-length zero (x ∷ xs) h = absurd (omega (arith, h))
drop-length (suc n) [] h = refl
drop-length (suc n) (x ∷ xs) h = drop-length n xs (omega (arith, h))

-- A piece and the rest of a list from its end on.
pub take-drop-drop :
    {A : Type 0} (from to n : ℕ) (xs : List A)
    → to ≡ from + n
    → take n (drop from xs) ++ drop to xs ≡ drop from xs
take-drop-drop zero zero zero xs e = refl
take-drop-drop zero zero (suc n) xs e = absurd (omega (arith, e))
take-drop-drop zero (suc to) zero xs e = absurd (omega (arith, e))
take-drop-drop zero (suc to) (suc n) [] e = refl
take-drop-drop zero (suc to) (suc n) (x ∷ xs) e =
    ap (λ ys. x ∷ ys) (take-drop-drop zero to n xs (omega (arith, e)))
take-drop-drop (suc from) zero n xs e = absurd (omega (arith, e))
take-drop-drop (suc from) (suc to) zero [] e = refl
take-drop-drop (suc from) (suc to) (suc n) [] e = refl
take-drop-drop (suc from) (suc to) n (x ∷ xs) e = take-drop-drop from to n xs (omega (arith, e))

pub length-take-drop :
    {A : Type 0} (from n : ℕ) (xs : List A)
    → from + n ≤ length xs
    → length (take n (drop from xs)) ≡ n
length-take-drop from zero xs h = refl
length-take-drop zero (suc n) [] h = absurd (omega (arith, h))
length-take-drop zero (suc n) (x ∷ xs) h = ap suc (length-take-drop zero n xs (omega (arith, h)))
length-take-drop (suc from) (suc n) [] h = absurd (omega (arith, h))
length-take-drop (suc from) (suc n) (x ∷ xs) h = length-take-drop from (suc n) xs (omega (arith, h))
