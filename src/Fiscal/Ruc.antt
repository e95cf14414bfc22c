-- ===== src/Fiscal/Ruc.antt =====
-- The check digit of a RUC (internal/core/ruc.go).
use drenyra_engram.Base.{
  ℕ, suc, ◌+◌, ◌-◌, ◌*◌, ◌%◌, ◌≡◌, refl, ap, ◌∙◌, ◌↔◌, Str, true, some, List, [], ◌∷◌, ◌++◌, length,
  all, is_digit, arith,
}
use drenyra_engram.Fiscal.{classify_ruc, valid, weigh, ruc_weights, last_byte, expected_digit}

-- The weighted sum of the digits.
abbrev pub weighted : List ℕ → Str → ℕ
weighted [] s = 0
weighted (w ∷ ws) [] = 0
weighted (w ∷ ws) (b ∷ s) = (b - b'0') * w + weighted ws s

weigh-weighted :
    (ws ds r : List ℕ) (acc : ℕ)
    → length ds ≡ length ws
    → all is_digit ds ≡ true
    → weigh ws (ds ++ r) acc ≡ some (acc + weighted ws ds)
unfolding weigh all
weigh-weighted [] [] r acc h d = ap some (omega arith)
weigh-weighted [] (b ∷ ds) r acc h d = absurd (omega arith)
weigh-weighted (w ∷ ws) [] r acc h d = absurd (omega arith)
weigh-weighted (w ∷ ws) (b ∷ ds) r acc h d =
    let digit : is_digit b ≡ true = ground arith in
    rw digit (
      weigh-weighted ws ds r (acc + (b - b'0') * w) (omega arith) (ground arith)
      ∙ ap some (omega arith))

last_byte-append : (ds : Str) (b : ℕ) → length ds ≡ 10 → last_byte (ds ++ b ∷ []) ≡ b
unfolding last_byte
last_byte-append (_ ∷ _ ∷ _ ∷ _ ∷ _ ∷ _ ∷ _ ∷ _ ∷ _ ∷ _ ∷ []) b h = refl
last_byte-append [] b h = absurd (omega arith)
last_byte-append (_ ∷ []) b h = absurd (omega arith)
last_byte-append (_ ∷ _ ∷ []) b h = absurd (omega arith)
last_byte-append (_ ∷ _ ∷ _ ∷ []) b h = absurd (omega arith)
last_byte-append (_ ∷ _ ∷ _ ∷ _ ∷ []) b h = absurd (omega arith)
last_byte-append (_ ∷ _ ∷ _ ∷ _ ∷ _ ∷ []) b h = absurd (omega arith)
last_byte-append (_ ∷ _ ∷ _ ∷ _ ∷ _ ∷ _ ∷ []) b h = absurd (omega arith)
last_byte-append (_ ∷ _ ∷ _ ∷ _ ∷ _ ∷ _ ∷ _ ∷ []) b h = absurd (omega arith)
last_byte-append (_ ∷ _ ∷ _ ∷ _ ∷ _ ∷ _ ∷ _ ∷ _ ∷ []) b h = absurd (omega arith)
last_byte-append (_ ∷ _ ∷ _ ∷ _ ∷ _ ∷ _ ∷ _ ∷ _ ∷ _ ∷ []) b h = absurd (omega arith)
last_byte-append (_ ∷ _ ∷ _ ∷ _ ∷ _ ∷ _ ∷ _ ∷ _ ∷ _ ∷ _ ∷ _ ∷ _) b h = absurd (omega arith)

length-snoc : (ds : Str) (b : ℕ) → length (ds ++ b ∷ []) ≡ suc (length ds)
length-snoc [] b = refl
length-snoc (d ∷ ds) b = ap suc (length-snoc ds b)

expected_digit_lem : (sum : ℕ) → expected_digit sum ≡ (11 - sum % 11) % 10
unfolding expected_digit
expected_digit_lem sum = ground arith

-- Behind the shape checks a RUC is valid when its last byte is the expected digit.
classified :
    (ruc : Str) (sum : ℕ)
    → length ruc ≡ 11
    → weigh ruc_weights ruc 0 ≡ some sum
    → (classify_ruc ruc ≡ valid)
      ↔ ((is_digit (last_byte ruc) ≡ true) × (expected_digit sum ≡ last_byte ruc - b'0'))
unfolding classify_ruc
classified ruc sum h w = ((λ k. (ground arith, ground arith)), (λ k. ground arith))

expected_digit-is_digit :
    (sum b : ℕ)
    → ((is_digit b ≡ true) × (expected_digit sum ≡ b - b'0')) ↔ (b ≡ b'0' + (11 - sum % 11) % 10)
expected_digit-is_digit sum b = (
  (λ h. ground (arith, expected_digit_lem sum)),
  (λ h. (ground arith, ground (arith, expected_digit_lem sum))),
)

-- Ten digits have exactly one check digit: the eleven-byte string of ten digits and a byte is a valid
-- RUC exactly when the byte is the digit (11 - s mod 11) mod 10, for `s` the sum of the ten digits
-- under the weights 5 4 3 2 7 6 5 4 3 2.
pub check_digit :
    (ds : Str) (b : ℕ)
    → length ds ≡ 10
    → all is_digit ds ≡ true
    → (classify_ruc (ds ++ b ∷ []) ≡ valid) ↔ (b ≡ b'0' + (11 - weighted ruc_weights ds % 11) % 10)
check_digit ds b h d = (
  (λ k. omega (arith, last, shape.0 (parts.0 k))),
  (λ k. parts.1 (shape.1 (omega (arith, last, k)))),
)
  where
    sum : ℕ
    sum = 0 + weighted ruc_weights ds

    last : last_byte (ds ++ b ∷ []) ≡ b
    last = last_byte-append ds b h

    parts : (classify_ruc (ds ++ b ∷ []) ≡ valid) ↔ (
        (is_digit (last_byte (ds ++ b ∷ [])) ≡ true)
        × (expected_digit sum ≡ last_byte (ds ++ b ∷ []) - b'0'))
    parts =
        classified (ds ++ b ∷ []) sum (omega (arith, length-snoc ds b))
          (weigh-weighted ruc_weights ds (b ∷ []) 0 h d)

    shape :
        ((is_digit (last_byte (ds ++ b ∷ [])) ≡ true)
          × (expected_digit sum ≡ last_byte (ds ++ b ∷ []) - b'0'))
        ↔ (last_byte (ds ++ b ∷ []) ≡ b'0' + (11 - sum % 11) % 10)
    shape = expected_digit-is_digit sum (last_byte (ds ++ b ∷ []))
