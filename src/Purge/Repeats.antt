-- ===== src/Purge/Repeats.antt =====
-- A command of internal/store/purge_store.go whose key is completed answers from the key.
use drenyra_engram.Base.{Str, none, some, ◌≡◌, refl, inl, inr, Option-cases}
use drenyra_engram.Auth.{VerifiedApprovalPrincipal}
use drenyra_engram.Purge.{object_not_found, done, ◌>>=◌, ◌>>◌, require}
use drenyra_engram.Purge.Validate.{
  assert_valid_request_purge_command, assert_valid_approve_purge_command,
  assert_valid_reject_purge_command, assert_valid_cancel_purge_command,
  assert_valid_withdraw_purge_command,
}
use drenyra_engram.Purge.Tables.{PurgeStore, Fresh, Platform}
use drenyra_engram.Purge.Reads.{purge_request_by_id_on, read_object}
use drenyra_engram.Purge.Request.{scope_of_object, replay_request, request_purge}
use drenyra_engram.Purge.Approve.{object_exists, replay_approve, approve_purge}
use drenyra_engram.Purge.Closing.{
  replay_reject, reject_purge, replay_cancel, cancel_purge, replay_withdraw, withdraw_purge,
}
use drenyra_engram.Purge.Commands.{
  PurgeCommand, requesting, approving, rejecting, cancelling, withdrawing, committed, execute,
}
use drenyra_engram.Purge.Rows.{>>=-done, >>-done, done-eq}
use drenyra_engram.Purge.Idempotency.{key_of, members_of, tenant_of, answer_of}

-- The stored result is one that the command decodes.
abbrev pub Decodes : Platform → PurgeCommand → Str → Type 0
Decodes x (requesting _) json = ¬ (x.decode_request json ≡ none)
Decodes x (approving _) json = ¬ (x.decode_approve json ≡ none)
Decodes x (rejecting _) json = ¬ (x.decode_reject json ≡ none)
Decodes x (cancelling _) json = ¬ (x.decode_cancel json ≡ none)
Decodes x (withdrawing _) json = ¬ (x.decode_withdraw json ≡ none)

-- The command then succeeds, and commits the store it found.
pub repeated :
    (x : Platform) (s : PurgeStore) (cmd : PurgeCommand) (principal : VerifiedApprovalPrincipal)
    (fresh : Fresh) (tenant json : Str)
    → tenant_of s cmd ≡ done tenant
    → answer_of x s cmd principal tenant ≡ done (some json)
    → Decodes x cmd json
    → execute x s cmd principal fresh ≡ done s
unfolding tenant_of answer_of key_of members_of execute committed request_purge approve_purge
    reject_purge cancel_purge withdraw_purge replay_request replay_approve replay_reject
    replay_cancel replay_withdraw ◌>>=◌ ◌>>◌
repeated x s (requesting cmd) principal fresh tenant json h k d =
    let (valid, h1) = >>-done (assert_valid_request_purge_command cmd) _ h in
    let (scope, found, h2) = >>=-done (scope_of_object (read_object s cmd.object_id)) _ h1 in
    elim (Option-cases (x.decode_request json)) [
      | inl e ↦ absurd (d e)
      | inr (a, e) ↦ rw (valid, found, done-eq _ _ h2, k, e, replay_request) refl
    ]
repeated x s (approving cmd) principal fresh tenant json h k d =
    let (valid, h1) = >>-done (assert_valid_approve_purge_command cmd) _ h in
    let (r, found, h2) = >>=-done (purge_request_by_id_on s cmd.request_id) _ h1 in
    let (exists, h3) = >>-done (require (object_exists s r.object_id) object_not_found) _ h2 in
    elim (Option-cases (x.decode_approve json)) [
      | inl e ↦ absurd (d e)
      | inr (a, e) ↦ rw (valid, found, exists, done-eq _ _ h3, k, e, replay_approve) refl
    ]
repeated x s (rejecting cmd) principal fresh tenant json h k d =
    let (valid, h1) = >>-done (assert_valid_reject_purge_command cmd) _ h in
    let (r, found, h2) = >>=-done (purge_request_by_id_on s cmd.request_id) _ h1 in
    elim (Option-cases (x.decode_reject json)) [
      | inl e ↦ absurd (d e)
      | inr (a, e) ↦ rw (valid, found, done-eq _ _ h2, k, e, replay_reject) refl
    ]
repeated x s (cancelling cmd) principal fresh tenant json h k d =
    let (valid, h1) = >>-done (assert_valid_cancel_purge_command cmd) _ h in
    let (r, found, h2) = >>=-done (purge_request_by_id_on s cmd.request_id) _ h1 in
    elim (Option-cases (x.decode_cancel json)) [
      | inl e ↦ absurd (d e)
      | inr (a, e) ↦ rw (valid, found, done-eq _ _ h2, k, e, replay_cancel) refl
    ]
repeated x s (withdrawing cmd) principal fresh tenant json h k d =
    let (valid, h1) = >>-done (assert_valid_withdraw_purge_command cmd) _ h in
    let (r, found, h2) = >>=-done (purge_request_by_id_on s cmd.request_id) _ h1 in
    elim (Option-cases (x.decode_withdraw json)) [
      | inl e ↦ absurd (d e)
      | inr (a, e) ↦ rw (valid, found, done-eq _ _ h2, k, e, replay_withdraw) refl
    ]
