-- ===== src/Purge/Tables.antt =====
-- The rows that the purge commands read and write (schema v11 of internal/store/purge_store.go, and the
-- tables of objects, policies, holds and period closures beside it), and what a call takes from the
-- outside.
use drenyra_engram.Base.{Str, Bool, Option, none, some, List, [], ◌∷◌, if◌then◌else◌}
use drenyra_engram.Auth.{AssuranceLevel}
use drenyra_engram.Holds.{EvidenceHold}
use drenyra_engram.Retention.{RetentionPolicy}
use drenyra_engram.Purge.{
  EvidencePurgeRequest, EvidencePurgeApproval, EvidenceLifecycleEvent, EvidenceRetentionState,
  LifecycleSnapshot, ApprovePurgeResult, RejectPurgeResult, CancelPurgeResult, WithdrawPurgeResult,
}

-- The columns of `evidence_objects` that the commands read.
pub record EvidenceObject : Type 0 where
  pub object_id : Str
  pub tenant_id : Str
  pub company_id : Str
  pub ruc : Str
  pub period : Str

-- A row of `period_closures`.
pub record PeriodClosure : Type 0 where
  pub tenant_id : Str
  pub company_id : Str
  pub fiscal_period_id : Str
  pub close_memory_id : Str
  pub status : Str

-- A row of `evidence_purge_idempotency_keys`; `none` is NULL.
pub record IdempotencyKey : Type 0 where
  pub tenant_id : Str
  pub request_id : Str
  pub command_hash : Str
  pub actor_binding : Str
  pub entity_id : Option Str
  pub result_json : Option Str
  pub created_at : Str
  pub completed_at : Option Str

-- The members of a receipt payload that the purge commands set.
pub record PurgeReceiptPayload : Type 0 where
  pub version : Str
  pub subject_type : Str
  pub subject_id : Str
  pub action : Str
  pub tenant_id : Str
  pub company_id : Str
  pub fiscal_period_id : Str
  pub reviewed_lifecycle_hash : Str
  pub resulting_lifecycle_hash : Str
  pub evidence_ref : Str
  pub reason : Str
  pub principal_id : Str
  pub membership_id : Str
  pub principal_roles : List Str
  pub authentication_method : Str
  pub assurance_level : AssuranceLevel
  pub principal_authenticated_at : Str
  pub policy_version : Str
  pub execution_attempt_id : Str
  pub issued_at : Str

-- The tables, and the payloads handed to the signer.
pub record PurgeStore : Type 0 where
  pub objects : List EvidenceObject
  pub policies : List RetentionPolicy
  pub holds : List EvidenceHold
  pub closures : List PeriodClosure
  pub requests : List EvidencePurgeRequest
  pub approvals : List EvidencePurgeApproval
  pub events : List EvidenceLifecycleEvent
  pub states : List EvidenceRetentionState
  pub keys : List IdempotencyKey
  pub receipts : List PurgeReceiptPayload

-- What a call is given: the clock (`nowISO`), and the ids that `newUUID` mints for the rows it may
-- write.
pub record Fresh : Type 0 where
  pub now : Str
  pub request_uuid : Str
  pub binding_uuid : Str
  pub approval_uuid : Str
  pub event_uuid : Str

-- The standard library: encoding/json with crypto/sha256 on a snapshot (`digest`) and on the members of
-- a command (`fingerprint`), encoding/json on the stored results, and `time.Parse` as a test. `signs` is
-- the receipt signer of the store, if it has one: whether it signs a payload.
pub record Platform : Type 0 where
  pub digest : LifecycleSnapshot → Str
  pub fingerprint : List (Str × Str) → Str
  pub encode_request : EvidencePurgeRequest → Str
  pub decode_request : Str → Option EvidencePurgeRequest
  pub encode_approve : ApprovePurgeResult → Str
  pub decode_approve : Str → Option ApprovePurgeResult
  pub encode_reject : RejectPurgeResult → Str
  pub decode_reject : Str → Option RejectPurgeResult
  pub encode_cancel : CancelPurgeResult → Str
  pub decode_cancel : Str → Option CancelPurgeResult
  pub encode_withdraw : WithdrawPurgeResult → Str
  pub decode_withdraw : Str → Option WithdrawPurgeResult
  pub parses : Str → Str → Bool
  pub signs : Option (PurgeReceiptPayload → Bool)

module _ {ℓ} {A : Type ℓ} where
  -- The row that a SELECT by a key answers.
  unfoldable pub first : (A → Bool) → List A → Option A
  first p [] = none
  first p (x ∷ xs) = if p x then some x else first p xs

  -- The rows of a SELECT.
  unfoldable pub select : (A → Bool) → List A → List A
  select p [] = []
  select p (x ∷ xs) = let rest = select p xs in if p x then x ∷ rest else rest
