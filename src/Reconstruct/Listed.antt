-- ===== src/Reconstruct/Listed.antt =====
-- Which decisions the aggregate of the metric counts, and under which reason it lists which of them
-- (AggregateReconstructibility, internal/core/reconstructibility.go).
use drenyra_engram.Base.{ℕ, Str, str_eq, Bool, false, Option, none, some, List, ◌&&◌, count}
use drenyra_engram.Memory.{AccountingMemory, Scope}
use drenyra_engram.Verify.{VerificationReport}
use drenyra_engram.Reconstruct.{ReconstructibilityReason, verdict, reason_eq}
use drenyra_engram.Reconstruct.Aggregate.{eligible}

module _ (reports : Str → Option VerificationReport) (scope : Scope) where
  module _ (reason : ReconstructibilityReason) (id : Str) where
    is_reason : Option ReconstructibilityReason → Bool
    is_reason none = false
    is_reason (some r) = reason_eq reason r

    -- The test of what is listed under the reason by the id.
    under : AccountingMemory → Bool
    under h = eligible scope h && (is_reason (verdict reports h) && str_eq h.identity.id id)

    by_id : List Str → ℕ
    by_id = count (λ x. str_eq x id)
