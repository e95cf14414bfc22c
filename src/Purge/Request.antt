-- ===== src/Purge/Request.antt =====
-- RequestPurge of internal/store/purge_store.go.
use drenyra_engram.Base.{
  Str, str, Bool, true, false, not, Option, none, some, List, [], ◌∷◌, is_empty, if◌then◌else◌,
}
use drenyra_engram.Base.Int.{pos}
use drenyra_engram.Memory.{Scope, ScopeKind}
use drenyra_engram.Auth.{VerifiedApprovalPrincipal, principal_snapshot}
use drenyra_engram.Authz.Evidence.{LifecycleAction}
use drenyra_engram.Retention.{RetentionPolicy, RetentionEligibility, evaluate_retention_eligibility}
use drenyra_engram.Purge.{
  PurgeLifecycleState, stored, purge_requested, PurgeRequestStatus, requested, withdrawn, cancelled,
  event_retention_bound, event_requested, EvidencePurgeRequest, LifecycleSnapshot,
  RequestPurgeCommand, RequestPurgeResult, object_not_found, invalid_transition, persistence,
  Attempt, done, failed, ◌>>=◌, ◌>>◌, require,
}
use drenyra_engram.Purge.Snapshot.{compute_lifecycle_snapshot_hash, assemble_snapshot}
use drenyra_engram.Purge.Validate.{assert_valid_request_purge_command, assert_valid_purge_request}
use drenyra_engram.Purge.Tables.{EvidenceObject, PurgeStore, Fresh, Platform}
use drenyra_engram.Purge.Reads.{
  resolve_retention_policy_on, purge_request_by_object_on, read_object, assert_period_writable,
  replay_purge_idempotency_on,
}
use drenyra_engram.Purge.Blockers.{no_holds, check_blockers}
use drenyra_engram.Purge.Writes.{
  insert_purge_request, update_purge_request, insert_lifecycle_event_on, upsert_retention_state_on,
  reserve_key, complete_purge_idempotency_on, lifecycle_policy_version, purge_receipt_payload,
  emit_receipt, authorize_purge_act,
}

-- The scope of the object's row.
unfoldable pub scope_of_object : Option EvidenceObject → Attempt Scope
scope_of_object none = failed object_not_found
scope_of_object (some o) = done (record {
  kind = ScopeKind.company;
  organization_id = o.tenant_id;
  company_id = o.company_id;
  ruc = o.ruc;
  period = o.period;
})

-- The members of the command's fingerprint.
unfoldable pub request_purge_members : RequestPurgeCommand → List (Str × Str)
request_purge_members cmd =
    (str "objectId", cmd.object_id)
    ∷ (str "jurisdiction", cmd.jurisdiction)
    ∷ (str "legislation", cmd.legislation)
    ∷ (str "category", cmd.category)
    ∷ (str "expectedLifecycleHash", cmd.expected_lifecycle_hash)
    ∷ (str "reason", cmd.reason)
    ∷ []

unfoldable pub is_stored : PurgeLifecycleState → Bool
is_stored stored = true
is_stored _ = false

unfoldable pub is_retracted : PurgeRequestStatus → Bool
is_retracted cancelled = true
is_retracted withdrawn = true
is_retracted _ = false

-- The row of a first request of the object.
unfoldable pub new_request :
    RequestPurgeCommand
    → VerifiedApprovalPrincipal
    → Fresh
    → Scope
    → RetentionPolicy
    → EvidencePurgeRequest
new_request cmd principal fresh scope p = record {
  request_id = fresh.request_uuid;
  object_id = cmd.object_id;
  tenant_id = scope.organization_id;
  company_id = scope.company_id;
  ruc = scope.ruc;
  period = scope.period;
  category = p.category;
  policy_id = p.policy_id;
  retention_state_snapshot = evaluate_retention_eligibility p scope.period;
  reviewed_lifecycle_hash = cmd.expected_lifecycle_hash;
  status = requested;
  requested_at = fresh.now;
  requested_by = principal.subject_id;
  approved_at = [];
  execution_id = [];
}

-- The row of a request that was cancelled or withdrawn, requested again.
unfoldable pub renewed_request :
    EvidencePurgeRequest
    → RequestPurgeCommand
    → VerifiedApprovalPrincipal
    → Fresh
    → Scope
    → RetentionPolicy
    → EvidencePurgeRequest
renewed_request existing cmd principal fresh scope p = record existing {
  category = p.category;
  policy_id = p.policy_id;
  retention_state_snapshot = evaluate_retention_eligibility p scope.period;
  reviewed_lifecycle_hash = cmd.expected_lifecycle_hash;
  status = requested;
  requested_at = fresh.now;
  requested_by = principal.subject_id;
  approved_at = [];
}

-- The one row of the object, opened or opened again.
unfoldable pub open_request :
    Platform
    → PurgeStore
    → RequestPurgeCommand
    → VerifiedApprovalPrincipal
    → Fresh
    → Scope
    → RetentionPolicy
    → Option EvidencePurgeRequest
    → Attempt (EvidencePurgeRequest × PurgeStore)
open_request x s cmd principal fresh scope p (some existing) = do
  require (is_retracted existing.status) invalid_transition
  let request = renewed_request existing cmd principal fresh scope p
  t ← update_purge_request s request
  done (request, t)
open_request x s cmd principal fresh scope p none = do
  let request = new_request cmd principal fresh scope p
  assert_valid_purge_request x.parses request
  t ← insert_purge_request s request
  done (request, t)

-- The event and the receipt of a policy that the object was not bound to.
unfoldable pub bind_retention :
    Platform
    → PurgeStore
    → RequestPurgeCommand
    → VerifiedApprovalPrincipal
    → Fresh
    → Scope
    → RetentionPolicy
    → Str
    → Attempt PurgeStore
bind_retention x s cmd principal fresh scope p request_id =
    let bound = compute_lifecycle_snapshot_hash x.digest in
    let pre = bound (
      assemble_snapshot cmd.object_id scope stored (RetentionEligibility.other (str "unmanaged")) []
        [] (pos 0) [] [] []) in
    let post = bound (
      assemble_snapshot cmd.object_id scope stored (evaluate_retention_eligibility p scope.period)
        p.policy_id p.category p.version [] [] []) in
    do
      t ← insert_lifecycle_event_on s (record {
        event_id = fresh.binding_uuid;
        object_id = cmd.object_id;
        request_id = request_id;
        action = event_retention_bound;
        from_state = stored;
        to_state = stored;
        reviewed_hash = pre;
        resulting_hash = post;
        principal_snapshot = principal_snapshot principal;
        reason = cmd.reason;
        policy_version = lifecycle_policy_version;
        created_at = fresh.now;
      })
      emit_receipt x.signs t (
          purge_receipt_payload scope cmd.object_id pre post cmd.reason principal
            (str "retention_bound") fresh.now)

-- The event, the receipt, the projection and the completed key of the request.
unfoldable pub record_request :
    Platform
    → PurgeStore
    → RequestPurgeCommand
    → VerifiedApprovalPrincipal
    → Fresh
    → Scope
    → RetentionPolicy
    → LifecycleSnapshot
    → EvidencePurgeRequest
    → Attempt PurgeStore
record_request x s cmd principal fresh scope p current request =
    let eligibility = evaluate_retention_eligibility p scope.period in
    let reviewed = compute_lifecycle_snapshot_hash x.digest current in
    let resulting = compute_lifecycle_snapshot_hash x.digest (
      assemble_snapshot cmd.object_id scope purge_requested eligibility p.policy_id p.category
        p.version current.blocking_holds request.request_id []) in
    do
      t ← insert_lifecycle_event_on s (record {
        event_id = fresh.event_uuid;
        object_id = cmd.object_id;
        request_id = request.request_id;
        action = event_requested;
        from_state = stored;
        to_state = purge_requested;
        reviewed_hash = reviewed;
        resulting_hash = resulting;
        principal_snapshot = principal_snapshot principal;
        reason = cmd.reason;
        policy_version = lifecycle_policy_version;
        created_at = fresh.now;
      })
      u ← emit_receipt x.signs t (
          purge_receipt_payload scope cmd.object_id reviewed resulting cmd.reason principal
            (str "purge_requested") fresh.now)
      let v = upsert_retention_state_on u (record {
        object_id = cmd.object_id;
        lifecycle_state = purge_requested;
        retention_state = eligibility;
        policy_id = p.policy_id;
        category = p.category;
        has_active_blocking_hold = not (no_holds current.blocking_holds);
        current_hash = resulting;
        updated_at = fresh.now;
      })
      done (
          complete_purge_idempotency_on v scope.organization_id cmd.request_id request.request_id
            (x.encode_request request) fresh.now)

-- The command on a fresh key.
unfoldable pub request_fresh :
    Platform
    → PurgeStore
    → RequestPurgeCommand
    → VerifiedApprovalPrincipal
    → Fresh
    → Scope
    → Attempt (RequestPurgeResult × PurgeStore)
request_fresh x s cmd principal fresh scope = do
  a ←
      reserve_key s scope.organization_id cmd.request_id (x.fingerprint (request_purge_members cmd))
        principal.subject_id fresh.now
  assert_period_writable a scope
  matched ← resolve_retention_policy_on a scope cmd.jurisdiction cmd.legislation cmd.category
  (p, current) ← check_blockers x a scope cmd.object_id cmd.expected_lifecycle_hash matched
  require (is_stored current.lifecycle_state) invalid_transition
  authorize_purge_act principal scope LifecycleAction.request_purge p.category
      p.dual_approval_required [] []
  (request, b) ←
      open_request x a cmd principal fresh scope p (purge_request_by_object_on a cmd.object_id)
  c ←
      if is_empty current.policy_id
      then bind_retention x b cmd principal fresh scope p request.request_id
      else done b
  d ← record_request x c cmd principal fresh scope p current request
  done (record { request = request; created = true; idempotent_replay = false }, d)

unfoldable pub replay_request :
    Platform → PurgeStore → Str → Attempt (RequestPurgeResult × PurgeStore)
replay_request x s json = elim (x.decode_request json) [
  | none ↦ failed persistence
  | some r ↦ done (record { request = r; created = false; idempotent_replay = true }, s)
]

unfoldable pub request_purge :
    Platform
    → PurgeStore
    → RequestPurgeCommand
    → VerifiedApprovalPrincipal
    → Fresh
    → Attempt (RequestPurgeResult × PurgeStore)
request_purge x s cmd principal fresh = do
  assert_valid_request_purge_command cmd
  scope ← scope_of_object (read_object s cmd.object_id)
  replayed ←
      replay_purge_idempotency_on s scope.organization_id cmd.request_id
        (x.fingerprint (request_purge_members cmd)) principal.subject_id
  elim replayed [
    | some json ↦ replay_request x s json
    | none ↦ request_fresh x s cmd principal fresh scope
  ]
