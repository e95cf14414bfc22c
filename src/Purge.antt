-- ===== src/Purge.antt =====
-- The purge pipeline: the types of internal/core/purge_lifecycle.go, and in the modules below the
-- commands of internal/store/purge_store.go that use them.
pub mod Snapshot
pub mod Validate
pub mod Tables
pub mod Reads
pub mod Writes
pub mod Blockers
pub mod Request
pub mod Approve
pub mod Close
pub mod Closing
pub mod Commands
pub mod Rows
pub mod Agreement
pub mod Frames
pub mod Steps
pub mod RequestSteps
pub mod ApproveSteps
pub mod CloseSteps
pub mod ClosingSteps
pub mod Sound
pub mod History
pub mod Gates
pub mod Approvals
pub mod Granted
pub mod Idempotency
pub mod Keys
pub mod Repeats
pub mod Answers
pub mod RequestAnswers
pub mod Decoding
pub mod Answered
pub mod AnsweredClosing
pub mod Replay
use drenyra_engram.Base.{Str, Bool, true, false, List, if◌then◌else◌}
use drenyra_engram.Base.Int.{ℤ}
use drenyra_engram.Auth.{PrincipalSnapshot, ReasonCode}
use drenyra_engram.Holds.{HoldError}
use drenyra_engram.Retention.{RetentionEligibility, RetentionError}

pub data PurgeLifecycleState : Type 0 where
  stored purge_requested purge_approved purge_rejected purged : PurgeLifecycleState
  other : Str → PurgeLifecycleState

pub data PurgeRequestStatus : Type 0 where
  requested approved rejected withdrawn cancelled executed : PurgeRequestStatus
  other : Str → PurgeRequestStatus

pub data PurgeApprovalDecision : Type 0 where
  decision_approved decision_rejected decision_withdrawn : PurgeApprovalDecision
  other : Str → PurgeApprovalDecision

pub data PurgeLifecycleEventAction : Type 0 where
  event_retention_bound event_requested event_approved event_rejected : PurgeLifecycleEventAction
  event_cancelled event_withdrawn event_intent event_executed : PurgeLifecycleEventAction
  other : Str → PurgeLifecycleEventAction

unfoldable pub is_valid_purge_lifecycle_state : PurgeLifecycleState → Bool
is_valid_purge_lifecycle_state (PurgeLifecycleState.other _) = false
is_valid_purge_lifecycle_state _ = true

unfoldable pub is_valid_purge_request_status : PurgeRequestStatus → Bool
is_valid_purge_request_status (PurgeRequestStatus.other _) = false
is_valid_purge_request_status _ = true

unfoldable pub is_valid_purge_approval_decision : PurgeApprovalDecision → Bool
is_valid_purge_approval_decision (PurgeApprovalDecision.other _) = false
is_valid_purge_approval_decision _ = true

unfoldable pub is_valid_purge_lifecycle_event_action : PurgeLifecycleEventAction → Bool
is_valid_purge_lifecycle_event_action (PurgeLifecycleEventAction.other _) = false
is_valid_purge_lifecycle_event_action _ = true

pub record EvidencePurgeRequest : Type 0 where
  pub request_id : Str
  pub object_id : Str
  pub tenant_id : Str
  pub company_id : Str
  pub ruc : Str
  pub period : Str
  pub category : Str
  pub policy_id : Str
  pub retention_state_snapshot : RetentionEligibility
  pub reviewed_lifecycle_hash : Str
  pub status : PurgeRequestStatus
  pub requested_at : Str
  pub requested_by : Str
  pub approved_at : Str
  pub execution_id : Str

pub record EvidencePurgeApproval : Type 0 where
  pub approval_id : Str
  pub request_id : Str
  pub approval_order : ℤ
  pub decision : PurgeApprovalDecision
  pub reviewed_hash : Str
  pub resulting_hash : Str
  pub principal_snapshot : PrincipalSnapshot
  pub reason : Str
  pub policy_version : Str
  pub created_at : Str

-- The two states by their tokens.
pub record EvidenceLifecycleEvent : Type 0 where
  pub event_id : Str
  pub object_id : Str
  pub request_id : Str
  pub action : PurgeLifecycleEventAction
  pub from_state : PurgeLifecycleState
  pub to_state : PurgeLifecycleState
  pub reviewed_hash : Str
  pub resulting_hash : Str
  pub principal_snapshot : PrincipalSnapshot
  pub reason : Str
  pub policy_version : Str
  pub created_at : Str

pub record EvidenceRetentionState : Type 0 where
  pub object_id : Str
  pub lifecycle_state : PurgeLifecycleState
  pub retention_state : RetentionEligibility
  pub policy_id : Str
  pub category : Str
  pub has_active_blocking_hold : Bool
  pub current_hash : Str
  pub updated_at : Str

pub record LifecycleHoldRef : Type 0 where
  pub hold_id : Str
  pub kind : Str
  pub placed_at : Str

pub record LifecycleSnapshot : Type 0 where
  pub object_id : Str
  pub tenant_id : Str
  pub company_id : Str
  pub ruc : Str
  pub period : Str
  pub lifecycle_state : PurgeLifecycleState
  pub retention_state : RetentionEligibility
  pub policy_id : Str
  pub policy_version : ℤ
  pub category : Str
  pub blocking_holds : List LifecycleHoldRef
  pub request_id : Str
  pub approval_ids : List Str

pub record RequestPurgeCommand : Type 0 where
  pub object_id : Str
  pub jurisdiction : Str
  pub legislation : Str
  pub category : Str
  pub expected_lifecycle_hash : Str
  pub reason : Str
  pub request_id : Str

pub record ApprovePurgeCommand : Type 0 where
  pub request_id : Str
  pub expected_lifecycle_hash : Str
  pub reason : Str
  pub request_id_key : Str

pub record RejectPurgeCommand : Type 0 where
  pub request_id : Str
  pub reason : Str
  pub request_id_key : Str

pub record CancelPurgeCommand : Type 0 where
  pub request_id : Str
  pub request_id_key : Str

pub record WithdrawPurgeCommand : Type 0 where
  pub request_id : Str
  pub reason : Str
  pub request_id_key : Str

pub record RequestPurgeResult : Type 0 where
  pub request : EvidencePurgeRequest
  pub created : Bool
  pub idempotent_replay : Bool

pub record ApprovePurgeResult : Type 0 where
  pub request : EvidencePurgeRequest
  pub approval : EvidencePurgeApproval
  pub approval_order : ℤ
  pub idempotent_replay : Bool

pub record RejectPurgeResult : Type 0 where
  pub request : EvidencePurgeRequest
  pub approval : EvidencePurgeApproval
  pub idempotent_replay : Bool

pub record CancelPurgeResult : Type 0 where
  pub request : EvidencePurgeRequest
  pub idempotent_replay : Bool

pub record WithdrawPurgeResult : Type 0 where
  pub request : EvidencePurgeRequest
  pub approval : EvidencePurgeApproval
  pub idempotent_replay : Bool

-- The errors by their codes; `persistence` is a failed statement, and `policy` a denial of the
-- evidence-lifecycle policy.
pub data PurgeError : Type 0 where
  invalid_purge_object_id invalid_purge_jurisdiction invalid_purge_legislation : PurgeError
  invalid_purge_category invalid_purge_expected_hash reason_required : PurgeError
  invalid_purge_request_id invalid_purge_policy_id : PurgeError
  invalid_purge_retention_snapshot invalid_purge_reviewed_hash invalid_purge_status : PurgeError
  invalid_purge_requested_by invalid_purge_requested_at invalid_purge_approved_at : PurgeError
  invalid_purge_completion : PurgeError
  object_scope : HoldError → PurgeError
  retention_scope : RetentionError → PurgeError
  object_not_found purge_request_not_found : PurgeError
  idempotency_conflict period_closed not_purgeable unknown_retention_state : PurgeError
  retention_not_due retention_policy_ambiguous hold_active : PurgeError
  lifecycle_version_mismatch invalid_transition already_decided persistence : PurgeError
  policy : ReasonCode → PurgeError

-- What a statement or a command comes to.
pub data Attempt (A : Type 0) : Type 0 where
  failed : PurgeError → Attempt A
  done : A → Attempt A

infixl 5 ◌>>=◌ ◌>>◌
unfoldable pub ◌>>=◌ : {A B : Type 0} → Attempt A → (A → Attempt B) → Attempt B
failed why >>= next = failed why
done value >>= next = next value

unfoldable pub ◌>>◌ : {B : Type 0} → Attempt (Unit {0}) → Attempt B → Attempt B
unfolding ◌>>=◌
now >> later = now >>= (λ _. later)

-- `if !test { return e }`
abbrev pub require : Bool → PurgeError → Attempt (Unit {0})
require test why = if test then done tt else failed why
