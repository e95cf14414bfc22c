-- ===== src/Purge/Snapshot.antt =====
-- The canonical lifecycle snapshot and its hash (internal/core/purge_lifecycle.go, §3.8;
-- assembleSnapshot of internal/store/purge_store.go).
use drenyra_engram.Base.{Str, str_lt, List, [], ◌∷◌, if◌then◌else◌}
use drenyra_engram.Base.Int.{ℤ}
use drenyra_engram.Base.Sorted.{sort_strings}
use drenyra_engram.Memory.{Scope}
use drenyra_engram.Retention.{RetentionEligibility}
use drenyra_engram.Purge.{LifecycleHoldRef, LifecycleSnapshot, PurgeLifecycleState}

unfoldable pub insert_hold : LifecycleHoldRef → List LifecycleHoldRef → List LifecycleHoldRef
insert_hold a [] = a ∷ []
insert_hold a (h ∷ hs) =
    let rest = insert_hold a hs in if str_lt h.hold_id a.hold_id then h ∷ rest else a ∷ h ∷ hs

-- `sort.Slice` by the hold id, as an insertion; the ids of the rows are unique.
unfoldable pub sorted_lifecycle_holds : List LifecycleHoldRef → List LifecycleHoldRef
unfolding insert_hold
sorted_lifecycle_holds [] = []
sorted_lifecycle_holds (h ∷ hs) = insert_hold h (sorted_lifecycle_holds hs)

unfoldable pub sorted_approval_ids : List Str → List Str
unfolding sort_strings
sorted_approval_ids ids = sort_strings ids

-- The snapshot whose members are written, in the order of its fields.
unfoldable pub canonical_lifecycle_snapshot : LifecycleSnapshot → LifecycleSnapshot
unfolding sorted_lifecycle_holds sorted_approval_ids
canonical_lifecycle_snapshot s = record s {
  blocking_holds = sorted_lifecycle_holds s.blocking_holds;
  approval_ids = sorted_approval_ids s.approval_ids;
}

-- `digest` stands for encoding/json and crypto/sha256 on the canonical members.
unfoldable pub compute_lifecycle_snapshot_hash : (LifecycleSnapshot → Str) → LifecycleSnapshot → Str
unfolding canonical_lifecycle_snapshot
compute_lifecycle_snapshot_hash digest s = digest (canonical_lifecycle_snapshot s)

unfoldable pub assemble_snapshot :
    Str
    → Scope
    → PurgeLifecycleState
    → RetentionEligibility
    → Str
    → Str
    → ℤ
    → List LifecycleHoldRef
    → Str
    → List Str
    → LifecycleSnapshot
assemble_snapshot object_id scope lifecycle retention policy_id category policy_version holds
      request_id approval_ids =
    record {
      object_id = object_id;
      tenant_id = scope.organization_id;
      company_id = scope.company_id;
      ruc = scope.ruc;
      period = scope.period;
      lifecycle_state = lifecycle;
      retention_state = retention;
      policy_id = policy_id;
      policy_version = policy_version;
      category = category;
      blocking_holds = holds;
      request_id = request_id;
      approval_ids = approval_ids;
    }
