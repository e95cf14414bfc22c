-- ===== src/Examples/PurgeStores.antt =====
-- A store with one object, one policy of two approvals and one purge request.
use drenyra_engram.Base.{Str, str, true, false, some, [], ◌∷◌}
use drenyra_engram.Base.Int.{pos}
use drenyra_engram.Auth.{records_compliance_officer, PrincipalSnapshot, standard}
use drenyra_engram.Retention.{RetentionPolicy, eligible}
use drenyra_engram.Purge.{
  requested, rejected, purge_requested, purge_rejected, decision_approved, EvidencePurgeRequest,
  EvidencePurgeApproval, EvidenceRetentionState, ApprovePurgeCommand, RejectPurgeCommand,
  ApprovePurgeResult,
}
use drenyra_engram.Examples.Data.{policy}
use drenyra_engram.Purge.Tables.{PurgeStore, Platform, Fresh}

abbrev pub hash : Str
hash = str "0000000000000000000000000000000000000000000000000000000000000000"

abbrev pub uuid : Str
uuid = str "00000000-0000-0000-0000-000000000001"

abbrev pub opened : EvidencePurgeRequest
opened = record {
  request_id = uuid;
  object_id = hash;
  tenant_id = str "org";
  company_id = str "acme";
  ruc = str "20100070970";
  period = str "202401";
  category = str "invoices";
  policy_id = uuid;
  retention_state_snapshot = eligible;
  reviewed_lifecycle_hash = hash;
  status = requested;
  requested_at = str "t0";
  requested_by = str "rita";
  approved_at = [];
  execution_id = [];
}

abbrev pub officer_snapshot : PrincipalSnapshot
officer_snapshot = record {
  subject_id = str "rosa";
  membership_id = str "m";
  roles = records_compliance_officer ∷ [];
  authentication_method = str "session";
  assurance_level = standard;
  authenticated_at = str "2024-01-11";
}

abbrev pub in_force : RetentionPolicy
in_force = record policy { policy_id = uuid; blocking_hold_kinds = str "legal" ∷ [] }

abbrev pub projected_open : EvidenceRetentionState
projected_open = record {
  object_id = hash;
  lifecycle_state = purge_requested;
  retention_state = eligible;
  policy_id = uuid;
  category = str "invoices";
  has_active_blocking_hold = false;
  current_hash = hash;
  updated_at = str "t0";
}

abbrev pub with_open : PurgeStore
with_open = record {
  objects =
      record {
        object_id = hash;
        tenant_id = str "org";
        company_id = str "acme";
        ruc = str "20100070970";
        period = str "202401";
      }
      ∷ [];
  policies = in_force ∷ [];
  holds = [];
  closures = [];
  requests = opened ∷ [];
  approvals = [];
  events = [];
  states = projected_open ∷ [];
  keys = [];
  receipts = [];
}

-- A rejected request.
abbrev pub with_rejected : PurgeStore
with_rejected = record with_open {
  requests = record opened { status = rejected } ∷ [];
  states = record projected_open { lifecycle_state = purge_rejected } ∷ [];
}

abbrev pub approving_cmd : ApprovePurgeCommand
approving_cmd = record {
  request_id = uuid;
  expected_lifecycle_hash = hash;
  reason = str "due";
  request_id_key = str "k1";
}

abbrev pub rejecting_cmd : RejectPurgeCommand
rejecting_cmd = record { request_id = uuid; reason = str "no"; request_id_key = str "k1" }

abbrev pub fresh_ids : Fresh
fresh_ids = record {
  now = str "t1";
  request_uuid = str "r2";
  binding_uuid = str "e2";
  approval_uuid = str "a1";
  event_uuid = str "e1";
}

-- An approval row and the results that the platform below decodes.
abbrev pub approval_one : EvidencePurgeApproval
approval_one = record {
  approval_id = str "a1";
  request_id = uuid;
  approval_order = pos 1;
  decision = decision_approved;
  reviewed_hash = hash;
  resulting_hash = hash;
  principal_snapshot = officer_snapshot;
  reason = str "due";
  policy_version = str "evidence-lifecycle-policy/v0.8.0";
  created_at = str "t1";
}

abbrev pub answered : ApprovePurgeResult
answered = record {
  request = opened;
  approval = approval_one;
  approval_order = pos 1;
  idempotent_replay = false;
}

-- A platform whose digests are one hash and whose results are one text; its signer signs everything.
abbrev pub platform : Platform
platform = record {
  digest = λ _. hash;
  fingerprint = λ _. str "f";
  encode_request = λ _. str "j";
  decode_request = λ _. some opened;
  encode_approve = λ _. str "j";
  decode_approve = λ _. some answered;
  encode_reject = λ _. str "j";
  decode_reject =
      λ _. some (record { request = opened; approval = approval_one; idempotent_replay = false });
  encode_cancel = λ _. str "j";
  decode_cancel = λ _. some (record { request = opened; idempotent_replay = false });
  encode_withdraw = λ _. str "j";
  decode_withdraw =
      λ _. some (record { request = opened; approval = approval_one; idempotent_replay = false });
  parses = λ _ _. true;
  signs = some (λ _. true);
}
