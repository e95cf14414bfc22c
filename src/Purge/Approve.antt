-- ===== src/Purge/Approve.antt =====
-- ApprovePurge of internal/store/purge_store.go.
use drenyra_engram.Base.{
  Str, str, Bool, true, false, not, ◌||◌, none, some, List, [], ◌∷◌, ◌++◌, if◌then◌else◌,
}
use drenyra_engram.Base.Int.{ℤ, pos, eq_ℤ}
use drenyra_engram.Memory.{Scope, ScopeKind}
use drenyra_engram.Auth.{VerifiedApprovalPrincipal, principal_snapshot}
use drenyra_engram.Authz.Evidence.{LifecycleAction}
use drenyra_engram.Retention.{RetentionPolicy, evaluate_retention_eligibility}
use drenyra_engram.Purge.{
  PurgeLifecycleState, purge_requested, purge_approved, PurgeRequestStatus, requested, approved,
  decision_approved, event_approved, EvidencePurgeRequest, EvidencePurgeApproval, LifecycleSnapshot,
  ApprovePurgeCommand, ApprovePurgeResult, object_not_found, invalid_transition, already_decided,
  persistence, Attempt, done, failed, ◌>>=◌, ◌>>◌, require,
}
use drenyra_engram.Purge.Snapshot.{compute_lifecycle_snapshot_hash, assemble_snapshot}
use drenyra_engram.Purge.Validate.{assert_valid_approve_purge_command}
use drenyra_engram.Purge.Tables.{PurgeStore, Fresh, Platform}
use drenyra_engram.Purge.Reads.{
  resolve_retention_policy_on, approval_ids_on, purge_approval_by_id_on, retention_policy_by_id_on,
  purge_request_by_id_on, read_object, assert_period_writable, replay_purge_idempotency_on,
}
use drenyra_engram.Purge.Writes.{
  update_purge_request, insert_purge_approval_on, insert_lifecycle_event_on,
  upsert_retention_state_on, reserve_key, complete_purge_idempotency_on, lifecycle_policy_version,
  purge_receipt_payload, emit_receipt, authorize_purge_act,
}
use drenyra_engram.Purge.Blockers.{found_policy, no_holds, check_blockers}

unfoldable pub purge_request_scope : EvidencePurgeRequest → Scope
purge_request_scope r = record {
  kind = ScopeKind.company;
  organization_id = r.tenant_id;
  company_id = r.company_id;
  ruc = r.ruc;
  period = r.period;
}

unfoldable pub approve_purge_members : ApprovePurgeCommand → List (Str × Str)
approve_purge_members cmd =
    (str "requestId", cmd.request_id)
    ∷ (str "expectedLifecycleHash", cmd.expected_lifecycle_hash)
    ∷ (str "reason", cmd.reason)
    ∷ []

-- The state gate.
unfoldable pub assert_open : PurgeRequestStatus → Attempt (Unit {0})
assert_open requested = done tt
assert_open approved = failed already_decided
assert_open _ = failed invalid_transition

-- Which approval this is, from the decision rows stored for the request.
pub record ApprovalTurn : Type 0 where
  pub action : LifecycleAction
  pub order : ℤ
  pub first_approver_subject : Str

unfoldable pub approval_turn : PurgeStore → List Str → Attempt ApprovalTurn
approval_turn s [] =
    done (record {
      action = LifecycleAction.approve_purge;
      order = pos 1;
      first_approver_subject = [];
    })
approval_turn s (id ∷ []) = do
  first_approver ← purge_approval_by_id_on s id
  done (record {
    action = LifecycleAction.second_approve;
    order = pos 2;
    first_approver_subject = first_approver.principal_snapshot.subject_id;
  })
approval_turn s (_ ∷ _ ∷ _) = failed invalid_transition

-- `complete`
unfoldable pub is_complete : RetentionPolicy → ℤ → Bool
is_complete p order = not p.dual_approval_required || eq_ℤ order (pos 2)

unfoldable pub post_lifecycle : Bool → PurgeLifecycleState
post_lifecycle complete = if complete then purge_approved else purge_requested

unfoldable pub approved_request : Bool → EvidencePurgeRequest → Str → EvidencePurgeRequest
approved_request complete r now =
    if complete then record r { status = approved; approved_at = now } else r

-- The row of an approval.
unfoldable pub approval_row :
    EvidencePurgeRequest
    → ApprovePurgeCommand
    → VerifiedApprovalPrincipal
    → Fresh
    → ℤ
    → Str
    → Str
    → EvidencePurgeApproval
approval_row request cmd principal fresh order reviewed resulting = record {
  approval_id = fresh.approval_uuid;
  request_id = request.request_id;
  approval_order = order;
  decision = decision_approved;
  reviewed_hash = reviewed;
  resulting_hash = resulting;
  principal_snapshot = principal_snapshot principal;
  reason = cmd.reason;
  policy_version = lifecycle_policy_version;
  created_at = fresh.now;
}

-- The approval row, the status where the approval is complete, the event, the receipt, the projection
-- and the completed key.
unfoldable pub record_approval :
    Platform
    → PurgeStore
    → ApprovePurgeCommand
    → VerifiedApprovalPrincipal
    → Fresh
    → EvidencePurgeRequest
    → RetentionPolicy
    → LifecycleSnapshot
    → ℤ
    → Attempt (ApprovePurgeResult × PurgeStore)
record_approval x s cmd principal fresh request p current order =
    let scope = purge_request_scope request in
    let complete = is_complete p order in
    let eligibility = evaluate_retention_eligibility p scope.period in
    let reviewed = compute_lifecycle_snapshot_hash x.digest current in
    let resulting = compute_lifecycle_snapshot_hash x.digest (
      assemble_snapshot request.object_id scope (post_lifecycle complete) eligibility p.policy_id
        p.category p.version current.blocking_holds request.request_id
        (approval_ids_on s request.request_id ++ (fresh.approval_uuid ∷ []))) in
    let approval = approval_row request cmd principal fresh order reviewed resulting in
    let request' = approved_request complete request fresh.now in
    do
      t ← insert_purge_approval_on s approval
      u ← if complete then update_purge_request t request' else done t
      v ← insert_lifecycle_event_on u (record {
        event_id = fresh.event_uuid;
        object_id = request.object_id;
        request_id = request.request_id;
        action = event_approved;
        from_state = purge_requested;
        to_state = post_lifecycle complete;
        reviewed_hash = reviewed;
        resulting_hash = resulting;
        principal_snapshot = principal_snapshot principal;
        reason = cmd.reason;
        policy_version = lifecycle_policy_version;
        created_at = fresh.now;
      })
      w ← emit_receipt x.signs v (
          purge_receipt_payload scope request.object_id reviewed resulting cmd.reason principal
            (str "purge_approved") fresh.now)
      let result : ApprovePurgeResult = record {
        request = request';
        approval = approval;
        approval_order = order;
        idempotent_replay = false;
      }
      let y = upsert_retention_state_on w (record {
        object_id = request.object_id;
        lifecycle_state = post_lifecycle complete;
        retention_state = eligibility;
        policy_id = p.policy_id;
        category = p.category;
        has_active_blocking_hold = not (no_holds current.blocking_holds);
        current_hash = resulting;
        updated_at = fresh.now;
      })
      done (
        result,
        complete_purge_idempotency_on y request.tenant_id cmd.request_id_key request.request_id
            (x.encode_approve result) fresh.now,
      )

-- The command on a fresh key.
unfoldable pub approve_fresh :
    Platform
    → PurgeStore
    → ApprovePurgeCommand
    → VerifiedApprovalPrincipal
    → Fresh
    → EvidencePurgeRequest
    → Attempt (ApprovePurgeResult × PurgeStore)
approve_fresh x s cmd principal fresh request = do
  a ←
      reserve_key s request.tenant_id cmd.request_id_key (x.fingerprint (approve_purge_members cmd))
        principal.subject_id fresh.now
  assert_open request.status
  let scope = purge_request_scope request
  assert_period_writable a scope
  bound ← found_policy (retention_policy_by_id_on a request.policy_id)
  matched ←
      resolve_retention_policy_on a scope bound.jurisdiction bound.legislation request.category
  (p, current) ← check_blockers x a scope request.object_id cmd.expected_lifecycle_hash matched
  turn ← approval_turn a (approval_ids_on a request.request_id)
  authorize_purge_act principal scope turn.action p.category p.dual_approval_required
      request.requested_by turn.first_approver_subject
  record_approval x a cmd principal fresh request p current turn.order

unfoldable pub replay_approve :
    Platform → PurgeStore → Str → Attempt (ApprovePurgeResult × PurgeStore)
replay_approve x s json = elim (x.decode_approve json) [
  | none ↦ failed persistence
  | some r ↦ done (record r { idempotent_replay = true }, s)
]

unfoldable pub object_exists : PurgeStore → Str → Bool
object_exists s object_id = elim (read_object s object_id) [ none ↦ false | some _ ↦ true ]

unfoldable pub approve_purge :
    Platform
    → PurgeStore
    → ApprovePurgeCommand
    → VerifiedApprovalPrincipal
    → Fresh
    → Attempt (ApprovePurgeResult × PurgeStore)
approve_purge x s cmd principal fresh = do
  assert_valid_approve_purge_command cmd
  request ← purge_request_by_id_on s cmd.request_id
  require (object_exists s request.object_id) object_not_found
  replayed ←
      replay_purge_idempotency_on s request.tenant_id cmd.request_id_key
        (x.fingerprint (approve_purge_members cmd)) principal.subject_id
  elim replayed [
    | some json ↦ replay_approve x s json
    | none ↦ approve_fresh x s cmd principal fresh request
  ]
