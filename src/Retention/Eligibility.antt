-- ===== src/Retention/Eligibility.antt =====
-- When a period makes an object eligible (evaluateRetentionEligibility, internal/core/retention_policy.go).
use drenyra_engram.Base.{◌≡◌, ◌↔◌, ◌≤◌, Str, true, str_le, arith}
use drenyra_engram.Fiscal.{is_valid_period}
use drenyra_engram.Fiscal.Period.{value, str_le-period}
use drenyra_engram.Retention.{RetentionPolicy, eligible, evaluate_retention_eligibility}

eligible-tests :
    (p : RetentionPolicy) (period : Str)
    → (evaluate_retention_eligibility p period ≡ eligible) ↔ (
        (is_valid_period p.min_period ≡ true)
        × (is_valid_period period ≡ true)
        × (str_le p.min_period period ≡ true))
unfolding evaluate_retention_eligibility
eligible-tests p period = ((λ h. (ground arith, ground arith, ground arith)), (λ h. ground arith))

-- A policy makes an object eligible exactly when both its minimum period and the object's period are
-- valid periods and the minimum period, read as the number YYYYMM, is at most the object's.
pub eligible_iff_reached :
    (p : RetentionPolicy) (period : Str)
    → (evaluate_retention_eligibility p period ≡ eligible) ↔ (
        (is_valid_period p.min_period ≡ true)
        × (is_valid_period period ≡ true)
        × (value p.min_period ≤ value period))
eligible_iff_reached p period = (
  (λ h.
      let (a, b, c) = (eligible-tests p period).0 h in
      (a, b, (str_le-period p.min_period period a b).0 c)),
  (λ (a, b, c). (eligible-tests p period).1 (a, b, (str_le-period p.min_period period a b).1 c)),
)
