-- ===== src/Reconstruct/Percentage.antt =====
-- The integer percentage (ReconstructibilityPercentage, internal/core/reconstructibility.go).
use native.Mathlib.Nat.{div-add-mod', mod-lt, div-lt_iff_lt-mul, mul-add-div_right, zero-div}
use drenyra_engram.Base.{
  ℕ, zero, suc, ◌+◌, ◌*◌, ◌/◌, ◌%◌, ◌^◌, ◌≤◌, ◌<◌, ◌≡◌, sym, ap, ◌∙◌, some, ltb, false, arith,
}
use drenyra_engram.Base.Int.{pos}
use drenyra_engram.Reconstruct.{
  wrap, quot, add_wrapped, max_int, percentage_of, reconstructibility_percentage,
}

wrap_small : (x : ℕ) → x < 2 ^ 63 → wrap x ≡ pos x
unfolding wrap
wrap_small x h = ground arith

-- The decomposition into quotient and remainder is exact.
decomposed : (n d : ℕ) → 0 < d → n / d * 100 + n % d * 100 / d ≡ n * 100 / d
decomposed n d h =
    sym (mul-add-div_right h (n / d * 100) (n % d * 100))
    ∙ ap (λ k. k / d) (omega (arith, div-add-mod' n d, product (n / d) (n % d) d))
  where
    product : (q r d : ℕ) → q * 100 * d + r * 100 ≡ (q * d + r) * 100
    product q r d = omega arith

part_small : (r d : ℕ) → r < d → r * 100 / d < 100
part_small r d h = (div-lt_iff_lt-mul {k = d} {x = r * 100} {y = 100} (omega arith)).1 (omega arith)

exact :
    (n d : ℕ)
    → 0 < d
    → d ≤ max_int / 100
    → n / d < max_int / 100
    → percentage_of n d ≡ some (pos (n * 100 / d))
unfolding percentage_of quot add_wrapped
exact n d h k l =
    let r = mod-lt n h in
    let part : wrap (n % d * 100) ≡ pos (n % d * 100) = wrap_small (n % d * 100) (omega arith) in
    let sum : wrap (n / d * 100 + n % d * 100 / d) ≡ pos (n / d * 100 + n % d * 100 / d) =
      wrap_small (n / d * 100 + n % d * 100 / d) (omega (arith, part_small (n % d) d r)) in
    let small : ltb (max_int / 100) (n / d) ≡ false = ground arith in
    rw small (rw part (ap some (sum ∙ ap pos (decomposed n d h))))

-- For a positive denominator of at most a hundredth of the largest `int`, and a numerator whose quotient
-- by it stays below that too, the percentage is floor(100 * numerator / denominator): nothing wraps.
pub percentage_exact :
    (n d : ℕ)
    → 0 < d
    → d ≤ max_int / 100
    → n / d < max_int / 100
    → reconstructibility_percentage (pos n) (pos d) ≡ some (pos (n * 100 / d))
unfolding reconstructibility_percentage
percentage_exact n zero h k l = absurd (omega arith)
percentage_exact zero (suc d) h k l = ap (λ z. some (pos z)) (sym (zero-div (suc d)))
percentage_exact (suc n) (suc d) h k l = exact (suc n) (suc d) h k l
