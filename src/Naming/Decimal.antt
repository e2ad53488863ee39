-- ===== src/Naming/Decimal.antt =====
-- desktop/crates/core/src/naming.rs: how `format!` writes numbers.
use photo_sync.Prelude.{
  ℕ, zero, suc, ◌+◌, ◌-◌, ◌*◌, ◌/◌, ◌%◌, ◌<◌, ◌≡◌, ◌∙◌, sym, ap, [], ◌∷◌, ◌++◌, Bool-cases, inl,
  inr, arith, ltb, length, if◌then◌else◌,
}
use photo_sync.Prelude.Int.{ℤ}
use photo_sync.Id.{Text}

unfoldable pub digit : ℕ → ℕ
digit n = b'0' + n % 10

-- The digits of a number in front of a text, on fuel.
unfoldable pub decimal_onto : ℕ → ℕ → Text → Text
decimal_onto zero n acc = acc
decimal_onto (suc f) n acc =
    let rest = decimal_onto f (n / 10) (digit n ∷ acc) in if ltb n 10 then digit n ∷ acc else rest

-- `n.to_string()`; there are at most `n + 1` digits.
unfoldable pub decimal : ℕ → Text
decimal n = decimal_onto (suc n) n []

unfoldable pub zeros : ℕ → Text
zeros zero = []
zeros (suc n) = b'0' ∷ zeros n

-- `{:0w}` of an unsigned number, and of a signed one, where the sign counts.
unfoldable pub padded : ℕ → ℕ → Text
padded w n = zeros (w - length (decimal n)) ++ decimal n

unfoldable pub padded_ℤ : ℕ → ℤ → Text
padded_ℤ w (ℤ.pos n) = padded w n
padded_ℤ w (ℤ.negsuc n) = b'-' ∷ padded (w - 1) (suc n)

-- Reading digits back.
read_onto : ℕ → Text → ℕ
read_onto v [] = v
read_onto v (c ∷ cs) = read_onto (v * 10 + (c - b'0')) cs

read_onto-decimal_onto :
    (f n : ℕ) (acc : Text) → n < f → read_onto 0 (decimal_onto f n acc) ≡ read_onto n acc
unfolding read_onto decimal_onto digit
read_onto-decimal_onto zero n acc h = absurd (omega arith)
read_onto-decimal_onto (suc f) n acc h = elim (Bool-cases (ltb n 10)) [
  | inl small ↦ rw small (ap (λ v. read_onto v acc) (ground arith))
  | inr large ↦ rw large (
      read_onto-decimal_onto f (n / 10) (digit n ∷ acc) (ground arith)
      ∙ ap (λ v. read_onto v acc) (omega arith))
]

-- Two numbers that are written alike are equal.
pub decimal-injective : (m n : ℕ) → decimal m ≡ decimal n → m ≡ n
unfolding decimal read_onto
decimal-injective m n h =
    sym (read_onto-decimal_onto (suc m) m [] (omega arith))
    ∙ ap (read_onto 0) h
    ∙ read_onto-decimal_onto (suc n) n [] (omega arith)
