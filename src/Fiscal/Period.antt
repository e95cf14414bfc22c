-- ===== src/Fiscal/Period.antt =====
-- Fiscal periods in time (internal/core/types.go): the order of strings is the order of months.
use drenyra_engram.Base.{
  ℕ, ◌+◌, ◌-◌, ◌*◌, ◌≤◌, ◌<◌, ◌≡◌, sym, subst, ◌↔◌, ◌⊎◌, inl, inr, Str, true, [], ◌∷◌, length, all,
  str_lt, str_le, is_digit, arith,
}
use drenyra_engram.Fiscal.{is_valid_period}

-- The decimal value of a string of digits, most significant first.
abbrev pub value_from : ℕ → Str → ℕ
value_from acc [] = acc
value_from acc (b ∷ s) = value_from (acc * 10 + (b - b'0')) s

abbrev pub value : Str → ℕ
value s = value_from 0 s

-- Digits in front decide: of two accumulators the smaller one stays behind after as many digits.
value_from-lt :
    (a b : ℕ) (s t : Str)
    → length s ≡ length t
    → all is_digit s ≡ true
    → all is_digit t ≡ true
    → a < b
    → value_from a s < value_from b t
unfolding all
value_from-lt a b [] [] n d e h = h
value_from-lt a b [] (y ∷ t) n d e h = absurd (omega arith)
value_from-lt a b (x ∷ s) [] n d e h = absurd (omega arith)
value_from-lt a b (x ∷ s) (y ∷ t) n d e h =
    value_from-lt (a * 10 + (x - b'0')) (b * 10 + (y - b'0')) s t (omega arith) (ground arith)
      (ground arith) (ground arith)

-- The order of digit strings of one length is the order of their values.
str_lt_value :
    (a : ℕ) (s t : Str)
    → length s ≡ length t
    → all is_digit s ≡ true
    → all is_digit t ≡ true
    → (str_lt s t ≡ true) ↔ (value_from a s < value_from a t)
unfolding all str_lt
str_lt_value a [] [] n d e = ((λ h. cc), (λ h. absurd (omega arith)))
str_lt_value a [] (y ∷ t) n d e = absurd (omega arith)
str_lt_value a (x ∷ s) [] n d e = absurd (omega arith)
str_lt_value a (x ∷ s) (y ∷ t) n d e =
    by_head (str_lt_value (a * 10 + (x - b'0')) s t (omega arith) (ground arith) (ground arith))
      (omega arith)
  where
    Tails : ℕ → Type 0
    Tails z = value_from (a * 10 + (x - b'0')) s < value_from (a * 10 + (z - b'0')) t

    by_head :
        (str_lt s t ≡ true) ↔ Tails x
        → (x < y) ⊎ ((x ≡ y) ⊎ (y < x))
        → (str_lt (x ∷ s) (y ∷ t) ≡ true) ↔ (value_from a (x ∷ s) < value_from a (y ∷ t))
    by_head ih (inl p) = (
      (λ _.
          value_from-lt (a * 10 + (x - b'0')) (a * 10 + (y - b'0')) s t (omega arith) (ground arith)
            (ground arith) (ground arith)),
      (λ _. ground arith),
    )
    by_head ih (inr (inl p)) = (
      (λ h. subst Tails p (ih.0 (ground arith))),
      (λ h. ground (arith, ih.1 (subst Tails (sym p) h))),
    )
    by_head ih (inr (inr p)) = (
      (λ h. ground arith),
      (λ h. absurd (
          omega (
            arith,
            value_from-lt (a * 10 + (y - b'0')) (a * 10 + (x - b'0')) t s (omega arith)
                (ground arith) (ground arith) (ground arith),
          ))),
    )

-- For two valid periods, which are written YYYYMM, the order of the strings is the order of their
-- values as numbers, hence of the months that they name.
pub str_le-period :
    (p q : Str)
    → is_valid_period p ≡ true
    → is_valid_period q ≡ true
    → (str_le p q ≡ true) ↔ (value p ≤ value q)
unfolding is_valid_period
str_le-period p q hp hq =
    let lt = str_lt_value 0 q p (ground arith) (ground arith) (ground arith) in
    ((λ h. ground (arith, lt.1)), (λ h. ground (arith, lt.0)))
