-- ===== src/FiscalScope/Digits.antt =====
-- Decimal numbers in front of a byte that is no digit can be read back.
use drenyra_engram.Base.{
  ℕ, zero, suc, ◌+◌, ◌<◌, ◌/◌, ◌%◌, ◌≡◌, refl, sym, ap, ◌∙◌, inl, inr, Str, true, false, [], ◌∷◌,
  ◌++◌, all, is_digit, ltb, Bool-cases, arith,
}
use drenyra_engram.Fiscal.Period.{value, value_from}
use drenyra_engram.FiscalScope.{digits_onto, itoa}

value-digits :
    (fuel n : ℕ) (acc : Str) → n < fuel → value_from 0 (digits_onto fuel n acc) ≡ value_from n acc
unfolding digits_onto
value-digits zero n acc h = absurd (omega arith)
value-digits (suc fuel) n acc h = elim (Bool-cases (ltb n 10)) [
  | inl e ↦ rw e (ap (λ k. value_from k acc) (ground arith))
  | inr e ↦ rw e (
      value-digits fuel (n / 10) ((b'0' + n % 10) ∷ acc) (ground arith)
      ∙ ap (λ k. value_from k acc) (ground arith))
]

digits-all :
    (fuel n : ℕ) (acc : Str)
    → all is_digit acc ≡ true
    → all is_digit (digits_onto fuel n acc) ≡ true
unfolding digits_onto all
digits-all zero n acc h = h
digits-all (suc fuel) n acc h = elim (Bool-cases (ltb n 10)) [
  | inl e ↦ rw e (ground arith)
  | inr e ↦ rw e (digits-all fuel (n / 10) ((b'0' + n % 10) ∷ acc) (ground arith))
]

pub itoa-digits : (n : ℕ) → all is_digit (itoa n) ≡ true
unfolding itoa all
itoa-digits n = digits-all (n + 1) n [] refl

-- The printed number has the value it was printed from.
pub value-itoa : (n : ℕ) → value (itoa n) ≡ n
unfolding itoa
value-itoa n = value-digits (n + 1) n [] (omega arith)

pub itoa_inj : (m n : ℕ) → itoa m ≡ itoa n → m ≡ n
itoa_inj m n e = sym (value-itoa m) ∙ ap value e ∙ value-itoa n

-- Two digit strings, each in front of the same byte that is no digit.
pub digits_split :
    (c : ℕ) (s t x y : Str)
    → is_digit c ≡ false
    → all is_digit s ≡ true
    → all is_digit t ≡ true
    → s ++ c ∷ x ≡ t ++ c ∷ y
    → (s ≡ t) × (x ≡ y)
unfolding all
digits_split c [] [] x y n h k e = (refl, ground arith)
digits_split c [] (b ∷ t) x y n h k e = absurd (ground arith)
digits_split c (a ∷ s) [] x y n h k e = absurd (ground arith)
digits_split c (a ∷ s) (b ∷ t) x y n h k e =
    let (p, q) = digits_split c s t x y n (ground arith) (ground arith) (ground arith) in
    let head : a ≡ b = ground arith in (cc (head, p), q)
