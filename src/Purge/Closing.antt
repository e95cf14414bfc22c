-- ===== src/Purge/Closing.antt =====
-- RejectPurge, CancelPurge and WithdrawPurge of internal/store/purge_store.go.
use drenyra_engram.Base.{Str, str, str_eq, true, false, Option, none, some, List, [], ◌∷◌}
use drenyra_engram.Auth.{VerifiedApprovalPrincipal, ReasonCode}
use drenyra_engram.Authz.Evidence.{LifecycleAction}
use drenyra_engram.Purge.{
  EvidencePurgeRequest, EvidencePurgeApproval, RejectPurgeCommand, CancelPurgeCommand,
  WithdrawPurgeCommand, RejectPurgeResult, CancelPurgeResult, WithdrawPurgeResult, persistence,
  policy, Attempt, done, failed, ◌>>=◌, ◌>>◌, require,
}
use drenyra_engram.Purge.Validate.{
  assert_valid_reject_purge_command, assert_valid_cancel_purge_command,
  assert_valid_withdraw_purge_command,
}
use drenyra_engram.Purge.Tables.{PurgeStore, Fresh, Platform}
use drenyra_engram.Purge.Reads.{
  approval_ids_on, retention_policy_by_id_on, purge_request_by_id_on, replay_purge_idempotency_on,
}
use drenyra_engram.Purge.Writes.{complete_purge_idempotency_on, authorize_purge_act}
use drenyra_engram.Purge.Blockers.{found_policy}
use drenyra_engram.Purge.Approve.{purge_request_scope}
use drenyra_engram.Purge.Close.{
  close_purge_transition, reject_gate, cancel_gate, withdraw_gate, reject_transition,
  cancel_transition, withdraw_transition,
}

-- `*decision`; no caller meets a nil pointer.
unfoldable pub dereference : Option EvidencePurgeApproval → Attempt EvidencePurgeApproval
dereference none = failed persistence
dereference (some a) = done a

unfoldable pub reject_purge_members : RejectPurgeCommand → List (Str × Str)
reject_purge_members cmd = (str "requestId", cmd.request_id) ∷ (str "reason", cmd.reason) ∷ []

unfoldable pub reject_fresh :
    Platform
    → PurgeStore
    → RejectPurgeCommand
    → VerifiedApprovalPrincipal
    → Fresh
    → EvidencePurgeRequest
    → Attempt (RejectPurgeResult × PurgeStore)
reject_fresh x s cmd principal fresh request = do
  bound ← found_policy (retention_policy_by_id_on s request.policy_id)
  (updated, decision, t) ←
      close_purge_transition x s request cmd.request_id_key
        (x.fingerprint (reject_purge_members cmd)) principal fresh bound.blocking_hold_kinds
        (authorize_purge_act principal (purge_request_scope request) LifecycleAction.reject_purge
          request.category false [] [])
        reject_gate
        (reject_transition x request principal fresh cmd.reason
          (approval_ids_on s request.request_id))
  approval ← dereference decision
  let result : RejectPurgeResult = record {
    request = updated;
    approval = approval;
    idempotent_replay = false;
  }
  done (
    result,
    complete_purge_idempotency_on t request.tenant_id cmd.request_id_key request.request_id
        (x.encode_reject result) fresh.now,
  )

unfoldable pub replay_reject :
    Platform → PurgeStore → Str → Attempt (RejectPurgeResult × PurgeStore)
replay_reject x s json = elim (x.decode_reject json) [
  | none ↦ failed persistence
  | some r ↦ done (record r { idempotent_replay = true }, s)
]

unfoldable pub reject_purge :
    Platform
    → PurgeStore
    → RejectPurgeCommand
    → VerifiedApprovalPrincipal
    → Fresh
    → Attempt (RejectPurgeResult × PurgeStore)
reject_purge x s cmd principal fresh = do
  assert_valid_reject_purge_command cmd
  request ← purge_request_by_id_on s cmd.request_id
  replayed ←
      replay_purge_idempotency_on s request.tenant_id cmd.request_id_key
        (x.fingerprint (reject_purge_members cmd)) principal.subject_id
  elim replayed [
    | some json ↦ replay_reject x s json
    | none ↦ reject_fresh x s cmd principal fresh request
  ]

unfoldable pub cancel_purge_members : CancelPurgeCommand → List (Str × Str)
cancel_purge_members cmd = (str "requestId", cmd.request_id) ∷ []

-- The gate of the original requester.
unfoldable pub authorize_cancel :
    VerifiedApprovalPrincipal → EvidencePurgeRequest → Attempt (Unit {0})
authorize_cancel principal request = do
  authorize_purge_act principal (purge_request_scope request) LifecycleAction.request_purge
      request.category false [] []
  require (str_eq principal.subject_id request.requested_by) (policy ReasonCode.role_not_authorized)

unfoldable pub cancel_fresh :
    Platform
    → PurgeStore
    → CancelPurgeCommand
    → VerifiedApprovalPrincipal
    → Fresh
    → EvidencePurgeRequest
    → Attempt (CancelPurgeResult × PurgeStore)
cancel_fresh x s cmd principal fresh request = do
  bound ← found_policy (retention_policy_by_id_on s request.policy_id)
  (updated, decision, t) ←
      close_purge_transition x s request cmd.request_id_key
        (x.fingerprint (cancel_purge_members cmd)) principal fresh bound.blocking_hold_kinds
        (authorize_cancel principal request) cancel_gate
        (cancel_transition x request principal fresh (approval_ids_on s request.request_id))
  let result : CancelPurgeResult = record { request = updated; idempotent_replay = false }
  done (
    result,
    complete_purge_idempotency_on t request.tenant_id cmd.request_id_key request.request_id
        (x.encode_cancel result) fresh.now,
  )

unfoldable pub replay_cancel :
    Platform → PurgeStore → Str → Attempt (CancelPurgeResult × PurgeStore)
replay_cancel x s json = elim (x.decode_cancel json) [
  | none ↦ failed persistence
  | some r ↦ done (record r { idempotent_replay = true }, s)
]

unfoldable pub cancel_purge :
    Platform
    → PurgeStore
    → CancelPurgeCommand
    → VerifiedApprovalPrincipal
    → Fresh
    → Attempt (CancelPurgeResult × PurgeStore)
cancel_purge x s cmd principal fresh = do
  assert_valid_cancel_purge_command cmd
  request ← purge_request_by_id_on s cmd.request_id
  replayed ←
      replay_purge_idempotency_on s request.tenant_id cmd.request_id_key
        (x.fingerprint (cancel_purge_members cmd)) principal.subject_id
  elim replayed [
    | some json ↦ replay_cancel x s json
    | none ↦ cancel_fresh x s cmd principal fresh request
  ]

unfoldable pub withdraw_purge_members : WithdrawPurgeCommand → List (Str × Str)
withdraw_purge_members cmd = (str "requestId", cmd.request_id) ∷ (str "reason", cmd.reason) ∷ []

unfoldable pub withdraw_fresh :
    Platform
    → PurgeStore
    → WithdrawPurgeCommand
    → VerifiedApprovalPrincipal
    → Fresh
    → EvidencePurgeRequest
    → Attempt (WithdrawPurgeResult × PurgeStore)
withdraw_fresh x s cmd principal fresh request = do
  bound ← found_policy (retention_policy_by_id_on s request.policy_id)
  (updated, decision, t) ←
      close_purge_transition x s request cmd.request_id_key
        (x.fingerprint (withdraw_purge_members cmd)) principal fresh bound.blocking_hold_kinds
        (authorize_purge_act principal (purge_request_scope request)
          LifecycleAction.withdraw_approval request.category false [] [])
        withdraw_gate
        (withdraw_transition x request principal fresh cmd.reason
          (approval_ids_on s request.request_id))
  approval ← dereference decision
  let result : WithdrawPurgeResult = record {
    request = updated;
    approval = approval;
    idempotent_replay = false;
  }
  done (
    result,
    complete_purge_idempotency_on t request.tenant_id cmd.request_id_key request.request_id
        (x.encode_withdraw result) fresh.now,
  )

unfoldable pub replay_withdraw :
    Platform → PurgeStore → Str → Attempt (WithdrawPurgeResult × PurgeStore)
replay_withdraw x s json = elim (x.decode_withdraw json) [
  | none ↦ failed persistence
  | some r ↦ done (record r { idempotent_replay = true }, s)
]

unfoldable pub withdraw_purge :
    Platform
    → PurgeStore
    → WithdrawPurgeCommand
    → VerifiedApprovalPrincipal
    → Fresh
    → Attempt (WithdrawPurgeResult × PurgeStore)
withdraw_purge x s cmd principal fresh = do
  assert_valid_withdraw_purge_command cmd
  request ← purge_request_by_id_on s cmd.request_id
  replayed ←
      replay_purge_idempotency_on s request.tenant_id cmd.request_id_key
        (x.fingerprint (withdraw_purge_members cmd)) principal.subject_id
  elim replayed [
    | some json ↦ replay_withdraw x s json
    | none ↦ withdraw_fresh x s cmd principal fresh request
  ]
