-- ===== src/Purge/Blockers.antt =====
-- The blockers that RequestPurge and ApprovePurge of internal/store/purge_store.go run before they
-- authorize.
use drenyra_engram.Base.{Str, str_eq, Bool, true, false, Option, none, some, List, [], ◌∷◌}
use drenyra_engram.Memory.{Scope}
use drenyra_engram.Retention.{
  RetentionPolicy, RetentionEligibility, eligible, not_due, evaluate_retention_eligibility,
}
use drenyra_engram.Purge.{
  LifecycleHoldRef, LifecycleSnapshot, unknown_retention_state, retention_not_due, hold_active,
  lifecycle_version_mismatch, Attempt, done, failed, ◌>>=◌, ◌>>◌, require,
}
use drenyra_engram.Purge.Snapshot.{compute_lifecycle_snapshot_hash}
use drenyra_engram.Purge.Tables.{PurgeStore, Platform}
use drenyra_engram.Purge.Reads.{current_purge_snapshot_on}

unfoldable pub assert_eligible : RetentionEligibility → Attempt (Unit {0})
assert_eligible eligible = done tt
assert_eligible not_due = failed retention_not_due
assert_eligible _ = failed unknown_retention_state

unfoldable pub found_policy : Option RetentionPolicy → Attempt RetentionPolicy
found_policy none = failed unknown_retention_state
found_policy (some p) = done p

unfoldable pub no_holds : List LifecycleHoldRef → Bool
no_holds [] = true
no_holds (_ ∷ _) = false

-- The blockers from the resolved policy on: eligibility, holds, and the expected hash.
unfoldable pub check_blockers :
    Platform
    → PurgeStore
    → Scope
    → Str
    → Str
    → Option RetentionPolicy
    → Attempt (RetentionPolicy × LifecycleSnapshot)
check_blockers x s scope object_id expected_hash matched = do
  p ← found_policy matched
  assert_eligible (evaluate_retention_eligibility p scope.period)
  current ← current_purge_snapshot_on s object_id scope p.blocking_hold_kinds
  require (no_holds current.blocking_holds) hold_active
  require (str_eq (compute_lifecycle_snapshot_hash x.digest current) expected_hash)
      lifecycle_version_mismatch
  done (p, current)
