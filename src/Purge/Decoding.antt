-- ===== src/Purge/Decoding.antt =====
-- What a command of internal/store/purge_store.go that succeeded from a stored result has shown, and the
-- tenant of a command from its row.
use drenyra_engram.Base.{Str, Option, none, some, ◌≡◌, refl, Option-cases, inl, inr, arith}
use drenyra_engram.Memory.{Scope}
use drenyra_engram.Purge.{
  object_not_found, EvidencePurgeRequest, RequestPurgeCommand, RequestPurgeResult,
  ApprovePurgeCommand, ApprovePurgeResult, RejectPurgeCommand, RejectPurgeResult,
  CancelPurgeCommand, CancelPurgeResult, WithdrawPurgeCommand, WithdrawPurgeResult, done, ◌>>=◌,
  ◌>>◌, require,
}
use drenyra_engram.Purge.Validate.{
  assert_valid_request_purge_command, assert_valid_approve_purge_command,
  assert_valid_reject_purge_command, assert_valid_cancel_purge_command,
  assert_valid_withdraw_purge_command,
}
use drenyra_engram.Purge.Tables.{PurgeStore, Platform}
use drenyra_engram.Purge.Reads.{purge_request_by_id_on, read_object}
use drenyra_engram.Purge.Request.{scope_of_object, replay_request}
use drenyra_engram.Purge.Approve.{object_exists, replay_approve}
use drenyra_engram.Purge.Closing.{replay_reject, replay_cancel, replay_withdraw}
use drenyra_engram.Purge.Commands.{requesting, approving, rejecting, cancelling, withdrawing}
use drenyra_engram.Purge.Idempotency.{tenant_of}

pub some_decodes : {A : Type 0} (o : Option A) (a : A) → o ≡ some a → ¬ (o ≡ none)
some_decodes o a e n = absurd (cc (e, n))

pub replay_request-decodes :
    (x : Platform) (s t : PurgeStore) (json : Str) (res : RequestPurgeResult)
    → replay_request x s json ≡ done (res, t)
    → ¬ (x.decode_request json ≡ none)
unfolding replay_request
replay_request-decodes x s t json res h = elim (Option-cases (x.decode_request json)) [
  | inl e ↦ absurd (ground arith)
  | inr (a, e) ↦ some_decodes (x.decode_request json) a e
]

pub replay_approve-decodes :
    (x : Platform) (s t : PurgeStore) (json : Str) (res : ApprovePurgeResult)
    → replay_approve x s json ≡ done (res, t)
    → ¬ (x.decode_approve json ≡ none)
unfolding replay_approve
replay_approve-decodes x s t json res h = elim (Option-cases (x.decode_approve json)) [
  | inl e ↦ absurd (ground arith)
  | inr (a, e) ↦ some_decodes (x.decode_approve json) a e
]

pub replay_reject-decodes :
    (x : Platform) (s t : PurgeStore) (json : Str) (res : RejectPurgeResult)
    → replay_reject x s json ≡ done (res, t)
    → ¬ (x.decode_reject json ≡ none)
unfolding replay_reject
replay_reject-decodes x s t json res h = elim (Option-cases (x.decode_reject json)) [
  | inl e ↦ absurd (ground arith)
  | inr (a, e) ↦ some_decodes (x.decode_reject json) a e
]

pub replay_cancel-decodes :
    (x : Platform) (s t : PurgeStore) (json : Str) (res : CancelPurgeResult)
    → replay_cancel x s json ≡ done (res, t)
    → ¬ (x.decode_cancel json ≡ none)
unfolding replay_cancel
replay_cancel-decodes x s t json res h = elim (Option-cases (x.decode_cancel json)) [
  | inl e ↦ absurd (ground arith)
  | inr (a, e) ↦ some_decodes (x.decode_cancel json) a e
]

pub replay_withdraw-decodes :
    (x : Platform) (s t : PurgeStore) (json : Str) (res : WithdrawPurgeResult)
    → replay_withdraw x s json ≡ done (res, t)
    → ¬ (x.decode_withdraw json ≡ none)
unfolding replay_withdraw
replay_withdraw-decodes x s t json res h = elim (Option-cases (x.decode_withdraw json)) [
  | inl e ↦ absurd (ground arith)
  | inr (a, e) ↦ some_decodes (x.decode_withdraw json) a e
]

pub tenant_requesting :
    (s : PurgeStore) (cmd : RequestPurgeCommand) (scope : Scope)
    → assert_valid_request_purge_command cmd ≡ done tt
    → scope_of_object (read_object s cmd.object_id) ≡ done scope
    → tenant_of s (requesting cmd) ≡ done scope.organization_id
unfolding tenant_of ◌>>=◌ ◌>>◌
tenant_requesting s cmd scope valid found = rw (valid, found) refl

pub tenant_approving :
    (s : PurgeStore) (cmd : ApprovePurgeCommand) (r : EvidencePurgeRequest)
    → assert_valid_approve_purge_command cmd ≡ done tt
    → purge_request_by_id_on s cmd.request_id ≡ done r
    → require (object_exists s r.object_id) object_not_found ≡ done tt
    → tenant_of s (approving cmd) ≡ done r.tenant_id
unfolding tenant_of ◌>>=◌ ◌>>◌
tenant_approving s cmd r valid found exists = rw (valid, found, exists) refl

pub tenant_rejecting :
    (s : PurgeStore) (cmd : RejectPurgeCommand) (r : EvidencePurgeRequest)
    → assert_valid_reject_purge_command cmd ≡ done tt
    → purge_request_by_id_on s cmd.request_id ≡ done r
    → tenant_of s (rejecting cmd) ≡ done r.tenant_id
unfolding tenant_of ◌>>=◌ ◌>>◌
tenant_rejecting s cmd r valid found = rw (valid, found) refl

pub tenant_cancelling :
    (s : PurgeStore) (cmd : CancelPurgeCommand) (r : EvidencePurgeRequest)
    → assert_valid_cancel_purge_command cmd ≡ done tt
    → purge_request_by_id_on s cmd.request_id ≡ done r
    → tenant_of s (cancelling cmd) ≡ done r.tenant_id
unfolding tenant_of ◌>>=◌ ◌>>◌
tenant_cancelling s cmd r valid found = rw (valid, found) refl

pub tenant_withdrawing :
    (s : PurgeStore) (cmd : WithdrawPurgeCommand) (r : EvidencePurgeRequest)
    → assert_valid_withdraw_purge_command cmd ≡ done tt
    → purge_request_by_id_on s cmd.request_id ≡ done r
    → tenant_of s (withdrawing cmd) ≡ done r.tenant_id
unfolding tenant_of ◌>>=◌ ◌>>◌
tenant_withdrawing s cmd r valid found = rw (valid, found) refl

-- An object is there as long as the objects are.
pub exists_still :
    (s t : PurgeStore) (o o' : Str)
    → t.objects ≡ s.objects
    → o' ≡ o
    → require (object_exists s o) object_not_found ≡ done tt
    → require (object_exists t o') object_not_found ≡ done tt
unfolding object_exists read_object
exists_still s t o o' e i h = rw (e, i) h

-- So is its scope.
pub found_still :
    (s t : PurgeStore) (object_id : Str) (scope : Scope)
    → t.objects ≡ s.objects
    → scope_of_object (read_object s object_id) ≡ done scope
    → scope_of_object (read_object t object_id) ≡ done scope
unfolding read_object
found_still s t object_id scope e h = rw e h
