-- ===== src/Purge/Idempotency.antt =====
-- The idempotency keys of the commands of internal/store/purge_store.go.
use drenyra_engram.Base.{
  Str, str_eq, true, false, ◌&&◌, ◌||◌, Option, some, List, ◌≡◌, refl, ◌⊎◌, inl, inr, is_empty,
  Bool-cases,
}
use drenyra_engram.Auth.{VerifiedApprovalPrincipal}
use drenyra_engram.Purge.{
  idempotency_conflict, object_not_found, PurgeError, Attempt, done, failed, ◌>>=◌, ◌>>◌, require,
}
use drenyra_engram.Purge.Validate.{
  assert_valid_request_purge_command, assert_valid_approve_purge_command,
  assert_valid_reject_purge_command, assert_valid_cancel_purge_command,
  assert_valid_withdraw_purge_command,
}
use drenyra_engram.Purge.Tables.{IdempotencyKey, PurgeStore, Fresh, Platform}
use drenyra_engram.Purge.Reads.{
  purge_request_by_id_on, read_object, null_string, replay_key, find_key,
  replay_purge_idempotency_on,
}
use drenyra_engram.Purge.Request.{scope_of_object, request_purge_members, request_purge}
use drenyra_engram.Purge.Approve.{approve_purge_members, object_exists, approve_purge}
use drenyra_engram.Purge.Closing.{
  reject_purge_members, reject_purge, cancel_purge_members, cancel_purge, withdraw_purge_members,
  withdraw_purge,
}
use drenyra_engram.Purge.Commands.{
  PurgeCommand, requesting, approving, rejecting, cancelling, withdrawing, committed, execute,
  after,
}
use drenyra_engram.Purge.Rows.{>>=-done, >>-done, done-eq}

-- The idempotency key of a command, and the members of its fingerprint.
unfoldable pub key_of : PurgeCommand → Str
key_of (requesting cmd) = cmd.request_id
key_of (approving cmd) = cmd.request_id_key
key_of (rejecting cmd) = cmd.request_id_key
key_of (cancelling cmd) = cmd.request_id_key
key_of (withdrawing cmd) = cmd.request_id_key

unfoldable pub members_of : PurgeCommand → List (Str × Str)
members_of (requesting cmd) = request_purge_members cmd
members_of (approving cmd) = approve_purge_members cmd
members_of (rejecting cmd) = reject_purge_members cmd
members_of (cancelling cmd) = cancel_purge_members cmd
members_of (withdrawing cmd) = withdraw_purge_members cmd

-- The tenant whose keys a command is looked up among: a well-formed command on a row that is there.
unfoldable pub tenant_of : PurgeStore → PurgeCommand → Attempt Str
tenant_of s (requesting cmd) = do
  assert_valid_request_purge_command cmd
  scope ← scope_of_object (read_object s cmd.object_id)
  done scope.organization_id
tenant_of s (approving cmd) = do
  assert_valid_approve_purge_command cmd
  r ← purge_request_by_id_on s cmd.request_id
  require (object_exists s r.object_id) object_not_found
  done r.tenant_id
tenant_of s (rejecting cmd) = do
  assert_valid_reject_purge_command cmd
  r ← purge_request_by_id_on s cmd.request_id
  done r.tenant_id
tenant_of s (cancelling cmd) = do
  assert_valid_cancel_purge_command cmd
  r ← purge_request_by_id_on s cmd.request_id
  done r.tenant_id
tenant_of s (withdrawing cmd) = do
  assert_valid_withdraw_purge_command cmd
  r ← purge_request_by_id_on s cmd.request_id
  done r.tenant_id

-- What a key in use answers, for a command with its fingerprint and principal.
unfoldable pub answer_of :
    Platform → PurgeStore → PurgeCommand → VerifiedApprovalPrincipal → Str → Attempt (Option Str)
answer_of x s cmd principal tenant =
    replay_purge_idempotency_on s tenant (key_of cmd) (x.fingerprint (members_of cmd))
      principal.subject_id

-- A refusal by the key is the refusal of the command.
pub refused :
    (x : Platform) (s : PurgeStore) (cmd : PurgeCommand) (principal : VerifiedApprovalPrincipal)
    (fresh : Fresh) (tenant : Str) (e : PurgeError)
    → tenant_of s cmd ≡ done tenant
    → answer_of x s cmd principal tenant ≡ failed e
    → execute x s cmd principal fresh ≡ failed e
unfolding tenant_of answer_of key_of members_of execute committed request_purge approve_purge
    reject_purge cancel_purge withdraw_purge ◌>>=◌ ◌>>◌
refused x s (requesting cmd) principal fresh tenant e h k =
    let (valid, h1) = >>-done (assert_valid_request_purge_command cmd) _ h in
    let (scope, found, h2) = >>=-done (scope_of_object (read_object s cmd.object_id)) _ h1 in
    rw (valid, found, done-eq _ _ h2, k) refl
refused x s (approving cmd) principal fresh tenant e h k =
    let (valid, h1) = >>-done (assert_valid_approve_purge_command cmd) _ h in
    let (r, found, h2) = >>=-done (purge_request_by_id_on s cmd.request_id) _ h1 in
    let (exists, h3) = >>-done (require (object_exists s r.object_id) object_not_found) _ h2 in
    rw (valid, found, exists, done-eq _ _ h3, k) refl
refused x s (rejecting cmd) principal fresh tenant e h k =
    let (valid, h1) = >>-done (assert_valid_reject_purge_command cmd) _ h in
    let (r, found, h2) = >>=-done (purge_request_by_id_on s cmd.request_id) _ h1 in
    rw (valid, found, done-eq _ _ h2, k) refl
refused x s (cancelling cmd) principal fresh tenant e h k =
    let (valid, h1) = >>-done (assert_valid_cancel_purge_command cmd) _ h in
    let (r, found, h2) = >>=-done (purge_request_by_id_on s cmd.request_id) _ h1 in
    rw (valid, found, done-eq _ _ h2, k) refl
refused x s (withdrawing cmd) principal fresh tenant e h k =
    let (valid, h1) = >>-done (assert_valid_withdraw_purge_command cmd) _ h in
    let (r, found, h2) = >>=-done (purge_request_by_id_on s cmd.request_id) _ h1 in
    rw (valid, found, done-eq _ _ h2, k) refl

-- A key of another command or principal, or one that was never completed.
abbrev pub Conflicts : IdempotencyKey → Str → Str → Type 0
Conflicts k hash actor =
    ((str_eq k.command_hash hash && str_eq k.actor_binding actor) ≡ false)
    ⊎ ((is_empty (null_string k.entity_id) || is_empty (null_string k.result_json)) ≡ true)

replay_key-conflict :
    (k : IdempotencyKey) (hash actor : Str)
    → Conflicts k hash actor
    → replay_key k hash actor ≡ failed idempotency_conflict
unfolding replay_key ◌>>=◌ ◌>>◌
replay_key-conflict k hash actor (inl e) = rw e refl
replay_key-conflict k hash actor (inr e) =
    elim (Bool-cases (str_eq k.command_hash hash && str_eq k.actor_binding actor)) [
      | inl a ↦ rw (a, e) refl
      | inr a ↦ rw a refl
    ]

answer_of-conflict :
    (x : Platform) (s : PurgeStore) (cmd : PurgeCommand) (principal : VerifiedApprovalPrincipal)
    (tenant : Str) (k : IdempotencyKey)
    → find_key s tenant (key_of cmd) ≡ some k
    → Conflicts k (x.fingerprint (members_of cmd)) principal.subject_id
    → answer_of x s cmd principal tenant ≡ failed idempotency_conflict
unfolding answer_of replay_purge_idempotency_on ◌>>=◌
answer_of-conflict x s cmd principal tenant k f c =
    rw (f, replay_purge_idempotency_on) (rw (replay_key-conflict k _ _ c) refl)

-- Each of the five commands, well-formed and on a row that is there, whose key is in use in the tenant
-- fails with IDEMPOTENCY_CONFLICT when the key was reserved by another fingerprint or another
-- principal, or was never completed; the store is then as it was.
pub execute-conflict :
    (x : Platform) (s : PurgeStore) (cmd : PurgeCommand) (principal : VerifiedApprovalPrincipal)
    (fresh : Fresh) (tenant : Str) (k : IdempotencyKey)
    → tenant_of s cmd ≡ done tenant
    → find_key s tenant (key_of cmd) ≡ some k
    → Conflicts k (x.fingerprint (members_of cmd)) principal.subject_id
    → (execute x s cmd principal fresh ≡ failed idempotency_conflict)
      × (after s (execute x s cmd principal fresh) ≡ s)
unfolding after
execute-conflict x s cmd principal fresh tenant k h f c =
    let e =
      refused x s cmd principal fresh tenant idempotency_conflict h
        (answer_of-conflict x s cmd principal tenant k f c) in
    (e, rw e refl)
