-- ===== src/Shell/Wire/Numbers.antt =====
-- desktop/crates/shell/src/server.rs: file identifiers go to the phone and come back as text.
use photo_sync.Prelude.{
  ℕ, zero, suc, ◌+◌, ◌-◌, ◌*◌, ◌/◌, ◌%◌, ◌<◌, ◌≤◌, [], ◌∷◌, some, ◌≡◌, sym, ap, ◌∙◌, arith, inl,
  inr, Bool-cases, ltb,
}
use photo_sync.Prelude.Word.{u64_mod}
use photo_sync.Id.{Text}
use photo_sync.Naming.Decimal.{decimal, decimal_onto, digit}
use photo_sync.Shell.Wire.{parse_digits, parse_u64}

parse-step :
    (v d : ℕ) (acc : Text)
    → d < 10
    → v * 10 + d < u64_mod
    → parse_digits v ((b'0' + d) ∷ acc) ≡ parse_digits (v * 10 + d) acc
unfolding parse_digits
parse-step v d acc small fits =
    let same : v * 10 + ((b'0' + d) - b'0') ≡ v * 10 + d = omega arith in
    rw same (ground (arith, small, fits))

parse-decimal_onto :
    (f n : ℕ) (acc : Text)
    → n < f
    → n < u64_mod
    → parse_digits 0 (decimal_onto f n acc) ≡ parse_digits n acc
unfolding decimal_onto digit
parse-decimal_onto zero n acc h fits = absurd (omega arith)
parse-decimal_onto (suc f) n acc h fits = elim (Bool-cases (ltb n 10)) [
  | inl small ↦
      let below : n < 10 = ground arith in
      rw small (
        parse-step 0 (n % 10) acc (omega arith) (omega (arith, fits))
        ∙ ap (λ v. parse_digits v acc) (omega (arith, below)))
  | inr large ↦
      let above : 10 ≤ n = ground arith in
      rw large (
        parse-decimal_onto f (n / 10) (digit n ∷ acc) (omega (arith, h, above))
          (omega (arith, fits))
        ∙ (parse-step (n / 10) (n % 10) acc (omega arith) (omega (arith, fits))
            ∙ ap (λ v. parse_digits v acc) (omega arith)))
]

-- The text of a number starts with a digit.
head-decimal_onto :
    (f n : ℕ) (acc : Text)
    → n < f
    → (c : ℕ) × (cs : Text) × (decimal_onto f n acc ≡ c ∷ cs) × (b'0' ≤ c)
unfolding decimal_onto digit
head-decimal_onto zero n acc h = absurd (omega arith)
head-decimal_onto (suc f) n acc h = elim (Bool-cases (ltb n 10)) [
  | inl small ↦ (b'0' + n % 10, acc, ground arith, omega arith)
  | inr large ↦
      let (c, cs, e, low) = head-decimal_onto f (n / 10) (digit n ∷ acc) (ground arith) in
      (c, cs, rw large e, low)
]

parse_u64-cons : (c : ℕ) (cs : Text) → b'0' ≤ c → parse_u64 (c ∷ cs) ≡ parse_digits 0 (c ∷ cs)
unfolding parse_u64
parse_u64-cons c cs h = ground (arith, h)

pub parse_u64-decimal : (n : ℕ) → n < u64_mod → parse_u64 (decimal n) ≡ some n
unfolding decimal parse_digits
parse_u64-decimal n fits =
    let (c, cs, e, low) = head-decimal_onto (suc n) n [] (omega arith) in
    ap parse_u64 e
    ∙ (parse_u64-cons c cs low
        ∙ (ap (parse_digits 0) (sym e) ∙ parse-decimal_onto (suc n) n [] (omega arith) fits))
