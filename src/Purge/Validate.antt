-- ===== src/Purge/Validate.antt =====
-- The checks of purge commands and of a stored request (AssertValid… of internal/core/purge_lifecycle.go).
use mathlib.Core.Option
use drenyra_engram.Base.{Str, Bool, true, false, not, ◌||◌, Option, none, some, is_empty, is_blank}
use drenyra_engram.Memory.{ScopeKind}
use drenyra_engram.Fiscal.{is_hash64, jurisdiction_ok, policy_id_pattern}
use drenyra_engram.Holds.{assert_valid_object_scope, parse_date_time}
use drenyra_engram.Retention.{is_valid_retention_eligibility}
use drenyra_engram.Purge.{
  PurgeRequestStatus, requested, cancelled, EvidencePurgeRequest, RequestPurgeCommand,
  ApprovePurgeCommand, RejectPurgeCommand, CancelPurgeCommand, WithdrawPurgeCommand, PurgeError,
  invalid_purge_object_id, invalid_purge_jurisdiction, invalid_purge_legislation,
  invalid_purge_category, invalid_purge_expected_hash, reason_required, invalid_purge_request_id,
  invalid_purge_policy_id, invalid_purge_retention_snapshot, invalid_purge_reviewed_hash,
  invalid_purge_status, invalid_purge_requested_by, invalid_purge_requested_at,
  invalid_purge_approved_at, invalid_purge_completion, object_scope, idempotency_conflict, Attempt,
  done, failed, ◌>>◌, require, is_valid_purge_request_status,
}

unfoldable pub assert_valid_request_purge_command : RequestPurgeCommand → Attempt (Unit {0})
assert_valid_request_purge_command cmd = do
  require (is_hash64 cmd.object_id) invalid_purge_object_id
  require (jurisdiction_ok cmd.jurisdiction) invalid_purge_jurisdiction
  require (not (is_blank cmd.legislation)) invalid_purge_legislation
  require (not (is_blank cmd.category)) invalid_purge_category
  require (is_hash64 cmd.expected_lifecycle_hash) invalid_purge_expected_hash
  require (not (is_blank cmd.reason)) reason_required
  require (not (is_blank cmd.request_id)) idempotency_conflict

unfoldable pub assert_valid_approve_purge_command : ApprovePurgeCommand → Attempt (Unit {0})
assert_valid_approve_purge_command cmd = do
  require (policy_id_pattern cmd.request_id) invalid_purge_request_id
  require (is_hash64 cmd.expected_lifecycle_hash) invalid_purge_expected_hash
  require (not (is_blank cmd.reason)) reason_required
  require (not (is_blank cmd.request_id_key)) idempotency_conflict

unfoldable pub assert_valid_reject_purge_command : RejectPurgeCommand → Attempt (Unit {0})
assert_valid_reject_purge_command cmd = do
  require (policy_id_pattern cmd.request_id) invalid_purge_request_id
  require (not (is_blank cmd.reason)) reason_required
  require (not (is_blank cmd.request_id_key)) idempotency_conflict

unfoldable pub assert_valid_cancel_purge_command : CancelPurgeCommand → Attempt (Unit {0})
assert_valid_cancel_purge_command cmd = do
  require (policy_id_pattern cmd.request_id) invalid_purge_request_id
  require (not (is_blank cmd.request_id_key)) idempotency_conflict

unfoldable pub assert_valid_withdraw_purge_command : WithdrawPurgeCommand → Attempt (Unit {0})
assert_valid_withdraw_purge_command cmd = do
  require (policy_id_pattern cmd.request_id) invalid_purge_request_id
  require (not (is_blank cmd.reason)) reason_required
  require (not (is_blank cmd.request_id_key)) idempotency_conflict

-- A status that carries no approval time: an open request, or a cancelled one.
has_no_approval : PurgeRequestStatus → Bool
has_no_approval requested = true
has_no_approval cancelled = true
has_no_approval _ = false

-- `none` is a scope that passes.
lift_scope : Option PurgeError → Attempt (Unit {0})
lift_scope none = done tt
lift_scope (some e) = failed e

-- `parses` stands for `time.Parse` of the standard library, as a test.
module _ (parses : Str → Str → Bool) where
  unfoldable pub assert_valid_purge_request : EvidencePurgeRequest → Attempt (Unit {0})
  unfolding has_no_approval lift_scope
  assert_valid_purge_request r = do
    require (is_empty r.request_id || policy_id_pattern r.request_id) invalid_purge_request_id
    require (is_hash64 r.object_id) invalid_purge_object_id
    lift_scope (
        Option.map object_scope (
          assert_valid_object_scope (record {
            kind = ScopeKind.company;
            organization_id = r.tenant_id;
            company_id = r.company_id;
            ruc = r.ruc;
            period = r.period;
          })))
    require (not (is_blank r.category)) invalid_purge_category
    require (policy_id_pattern r.policy_id) invalid_purge_policy_id
    require (is_valid_retention_eligibility r.retention_state_snapshot)
        invalid_purge_retention_snapshot
    require (is_hash64 r.reviewed_lifecycle_hash) invalid_purge_reviewed_hash
    require (is_valid_purge_request_status r.status) invalid_purge_status
    require (not (is_blank r.requested_by)) invalid_purge_requested_by
    require (is_empty r.requested_at || parse_date_time parses r.requested_at)
        invalid_purge_requested_at
    require (is_empty r.approved_at || parse_date_time parses r.approved_at)
        invalid_purge_approved_at
    require (has_no_approval r.status || not (is_empty r.approved_at)) invalid_purge_completion
