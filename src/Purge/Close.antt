-- ===== src/Purge/Close.antt =====
-- closePurgeTransition of internal/store/purge_store.go, with the gates and the transitions that
-- RejectPurge, CancelPurge and WithdrawPurge hand to it.
use drenyra_engram.Base.{Str, str, not, Option, none, some, List, [], ◌∷◌}
use drenyra_engram.Base.Int.{ℤ, pos}
use drenyra_engram.Auth.{VerifiedApprovalPrincipal, principal_snapshot}
use drenyra_engram.Purge.{
  PurgeLifecycleState, stored, purge_requested, purge_approved, purge_rejected, PurgeRequestStatus,
  requested, approved, rejected, withdrawn, cancelled, PurgeApprovalDecision, decision_rejected,
  decision_withdrawn, PurgeLifecycleEventAction, event_rejected, event_cancelled, event_withdrawn,
  EvidencePurgeRequest, EvidencePurgeApproval, EvidenceLifecycleEvent, LifecycleSnapshot,
  invalid_transition, already_decided, PurgeError, Attempt, done, failed, ◌>>=◌, ◌>>◌,
}
use drenyra_engram.Purge.Snapshot.{compute_lifecycle_snapshot_hash, assemble_snapshot}
use drenyra_engram.Purge.Tables.{PurgeStore, Fresh, Platform}
use drenyra_engram.Purge.Reads.{current_purge_snapshot_on}
use drenyra_engram.Purge.Writes.{
  update_purge_request, insert_purge_approval_on, insert_lifecycle_event_on,
  upsert_retention_state_on, reserve_key, lifecycle_policy_version, purge_receipt_payload,
  emit_receipt,
}
use drenyra_engram.Purge.Blockers.{no_holds}
use drenyra_engram.Purge.Approve.{purge_request_scope}

-- What a transition callback answers.
pub record Transition : Type 0 where
  pub post_state : PurgeLifecycleState
  pub resulting_hash : Str
  pub decision : Option EvidencePurgeApproval
  pub event : EvidenceLifecycleEvent
  pub receipt_action : Str

-- The guarded status flip: by the status of the request, then by the event.
unfoldable pub closed_status :
    PurgeRequestStatus → PurgeLifecycleEventAction → Option PurgeRequestStatus
closed_status requested event_cancelled = some cancelled
closed_status requested _ = some rejected
closed_status approved _ = some withdrawn
closed_status _ _ = none

unfoldable pub flip_status :
    PurgeStore
    → EvidencePurgeRequest
    → Option PurgeRequestStatus
    → Attempt (EvidencePurgeRequest × PurgeStore)
flip_status s request none = done (request, s)
flip_status s request (some status) = do
  let request' : EvidencePurgeRequest = record request { status = status }
  t ← update_purge_request s request'
  done (request', t)

unfoldable pub insert_decision : PurgeStore → Option EvidencePurgeApproval → Attempt PurgeStore
insert_decision s none = done s
insert_decision s (some a) = insert_purge_approval_on s a

-- `none` is a gate that passes.
unfoldable pub pass : Option PurgeError → Attempt (Unit {0})
pass none = done tt
pass (some e) = failed e

unfoldable pub close_purge_transition :
    Platform
    → PurgeStore
    → EvidencePurgeRequest
    → Str
    → Str
    → VerifiedApprovalPrincipal
    → Fresh
    → List Str
    → Attempt (Unit {0})
    → (PurgeRequestStatus → Option PurgeError)
    → (LifecycleSnapshot → Transition)
    → Attempt (EvidencePurgeRequest × Option EvidencePurgeApproval × PurgeStore)
close_purge_transition x s request request_id_key command_hash principal fresh kinds authorized
      state_gate transition =
    do
      let scope = purge_request_scope request
      a ← reserve_key s request.tenant_id request_id_key command_hash principal.subject_id fresh.now
      authorized
      pass (state_gate request.status)
      current ← current_purge_snapshot_on a request.object_id scope kinds
      let closing = transition current
      (request', b) ← flip_status a request (closed_status request.status closing.event.action)
      c ← insert_decision b closing.decision
      d ← insert_lifecycle_event_on c closing.event
      e ← emit_receipt x.signs d (
          purge_receipt_payload scope request.object_id
            (compute_lifecycle_snapshot_hash x.digest current) closing.resulting_hash
            closing.event.reason principal closing.receipt_action fresh.now)
      done (
        request',
        closing.decision,
        upsert_retention_state_on e (record {
          object_id = request.object_id;
          lifecycle_state = closing.post_state;
          retention_state = current.retention_state;
          policy_id = current.policy_id;
          category = current.category;
          has_active_blocking_hold = not (no_holds current.blocking_holds);
          current_hash = closing.resulting_hash;
          updated_at = fresh.now;
        }),
      )

unfoldable pub next_decision_order : List Str → ℤ
next_decision_order [] = pos 1
next_decision_order (_ ∷ _) = pos 2

-- The state gates: which status a command closes, and which it reports as already decided.
unfoldable pub reject_gate : PurgeRequestStatus → Option PurgeError
reject_gate requested = none
reject_gate rejected = some already_decided
reject_gate _ = some invalid_transition

unfoldable pub cancel_gate : PurgeRequestStatus → Option PurgeError
cancel_gate requested = none
cancel_gate cancelled = some already_decided
cancel_gate _ = some invalid_transition

unfoldable pub withdraw_gate : PurgeRequestStatus → Option PurgeError
withdraw_gate approved = none
withdraw_gate withdrawn = some already_decided
withdraw_gate _ = some invalid_transition

-- The snapshot a transition leaves: the current one in its new state, with the decision rows as they
-- were.
unfoldable pub closed_hash :
    Platform → EvidencePurgeRequest → List Str → PurgeLifecycleState → LifecycleSnapshot → Str
closed_hash x r ids post current = compute_lifecycle_snapshot_hash x.digest (
    assemble_snapshot r.object_id (purge_request_scope r) post current.retention_state
      current.policy_id current.category current.policy_version current.blocking_holds r.request_id
      ids)

-- The decision row of a rejection or a withdrawal.
unfoldable pub decision_row :
    Platform
    → EvidencePurgeRequest
    → VerifiedApprovalPrincipal
    → Fresh
    → Str
    → List Str
    → PurgeApprovalDecision
    → LifecycleSnapshot
    → Str
    → EvidencePurgeApproval
decision_row x r principal fresh reason ids decision current resulting = record {
  approval_id = fresh.approval_uuid;
  request_id = r.request_id;
  approval_order = next_decision_order ids;
  decision = decision;
  reviewed_hash = compute_lifecycle_snapshot_hash x.digest current;
  resulting_hash = resulting;
  principal_snapshot = principal_snapshot principal;
  reason = reason;
  policy_version = lifecycle_policy_version;
  created_at = fresh.now;
}

-- The event of a transition.
unfoldable pub closing_event :
    Platform
    → EvidencePurgeRequest
    → VerifiedApprovalPrincipal
    → Fresh
    → Str
    → PurgeLifecycleEventAction
    → PurgeLifecycleState
    → PurgeLifecycleState
    → LifecycleSnapshot
    → Str
    → EvidenceLifecycleEvent
closing_event x r principal fresh reason action from post current resulting = record {
  event_id = fresh.event_uuid;
  object_id = r.object_id;
  request_id = r.request_id;
  action = action;
  from_state = from;
  to_state = post;
  reviewed_hash = compute_lifecycle_snapshot_hash x.digest current;
  resulting_hash = resulting;
  principal_snapshot = principal_snapshot principal;
  reason = reason;
  policy_version = lifecycle_policy_version;
  created_at = fresh.now;
}

unfoldable pub reject_transition :
    Platform
    → EvidencePurgeRequest
    → VerifiedApprovalPrincipal
    → Fresh
    → Str
    → List Str
    → LifecycleSnapshot
    → Transition
reject_transition x r principal fresh reason ids current =
    let h2 = closed_hash x r ids purge_rejected current in
    record {
      post_state = purge_rejected;
      resulting_hash = h2;
      decision = some (decision_row x r principal fresh reason ids decision_rejected current h2);
      event =
          closing_event x r principal fresh reason event_rejected purge_requested purge_rejected
            current h2;
      receipt_action = str "purge_rejected";
    }

unfoldable pub cancel_transition :
    Platform
    → EvidencePurgeRequest
    → VerifiedApprovalPrincipal
    → Fresh
    → List Str
    → LifecycleSnapshot
    → Transition
cancel_transition x r principal fresh ids current =
    let h2 = closed_hash x r ids stored current in
    record {
      post_state = stored;
      resulting_hash = h2;
      decision = none;
      event =
          closing_event x r principal fresh (str "requester retraction") event_cancelled
            purge_requested stored current h2;
      receipt_action = str "purge_cancelled";
    }

unfoldable pub withdraw_transition :
    Platform
    → EvidencePurgeRequest
    → VerifiedApprovalPrincipal
    → Fresh
    → Str
    → List Str
    → LifecycleSnapshot
    → Transition
withdraw_transition x r principal fresh reason ids current =
    let h2 = closed_hash x r ids stored current in
    record {
      post_state = stored;
      resulting_hash = h2;
      decision = some (decision_row x r principal fresh reason ids decision_withdrawn current h2);
      event =
          closing_event x r principal fresh reason event_withdrawn purge_approved stored current h2;
      receipt_action = str "purge_withdrawn";
    }
