-- ===== src/Purge/Writes.antt =====
-- What the purge commands write: the inserts, the guarded updates and the receipts of
-- internal/store/purge_store.go, with the constraints of its schema that a statement can fail on, and
-- emitReceipt of internal/store/store.go.
use drenyra_engram.Base.{
  Str, str, str_eq, Bool, true, false, not, ◌&&◌, ◌||◌, Option, none, some, List, [], ◌∷◌, ◌++◌,
  map, any, is_empty, if◌then◌else◌,
}
use drenyra_engram.Base.Int.{pos, eq_ℤ}
use drenyra_engram.Memory.{Scope, human}
use drenyra_engram.Auth.{VerifiedApprovalPrincipal, ReasonCode, role_token, principal_snapshot}
use drenyra_engram.Authz.Evidence.{LifecycleAction, authorize}
use drenyra_engram.Purge.{
  PurgeRequestStatus, requested, approved, rejected, withdrawn, cancelled, executed,
  EvidencePurgeRequest, EvidencePurgeApproval, EvidenceLifecycleEvent, EvidenceRetentionState,
  persistence, policy, Attempt, done, failed, ◌>>◌, require,
}
use drenyra_engram.Purge.Tables.{PurgeReceiptPayload, PurgeStore, first}

-- `evidence_purge_requests_status_guard`
unfoldable pub legal_status_change : PurgeRequestStatus → PurgeRequestStatus → Bool
legal_status_change requested approved = true
legal_status_change requested rejected = true
legal_status_change requested withdrawn = true
legal_status_change requested cancelled = true
legal_status_change requested executed = true
legal_status_change approved withdrawn = true
legal_status_change approved executed = true
legal_status_change cancelled requested = true
legal_status_change withdrawn requested = true
legal_status_change _ _ = false

-- `id TEXT PRIMARY KEY` and `UNIQUE(object_id)`
unfoldable pub insert_purge_request : PurgeStore → EvidencePurgeRequest → Attempt PurgeStore
insert_purge_request s r =
    if any (λ q. str_eq q.request_id r.request_id || str_eq q.object_id r.object_id) s.requests
    then failed persistence
    else done (record s { requests = r ∷ s.requests })

unfoldable pub replace_request :
    EvidencePurgeRequest → List EvidencePurgeRequest → List EvidencePurgeRequest
replace_request r [] = []
replace_request r (q ∷ qs) =
    (if str_eq q.request_id r.request_id then r else q) ∷ replace_request r qs

-- An UPDATE of a row with a new status, under the status guard; it is no error to update no row.
unfoldable pub update_purge_request : PurgeStore → EvidencePurgeRequest → Attempt PurgeStore
update_purge_request s r = elim (first (λ q. str_eq q.request_id r.request_id) s.requests) [
  | none ↦ done s
  | some q ↦ do
    require (legal_status_change q.status r.status) persistence
    done (record s { requests = replace_request r s.requests })
]

-- `id TEXT PRIMARY KEY` and `CHECK(approval_order IN (1,2))`
unfoldable pub insert_purge_approval_on : PurgeStore → EvidencePurgeApproval → Attempt PurgeStore
insert_purge_approval_on s a = do
  require (not (any (λ b. str_eq b.approval_id a.approval_id) s.approvals)) persistence
  require (eq_ℤ a.approval_order (pos 1) || eq_ℤ a.approval_order (pos 2)) persistence
  done (record s { approvals = s.approvals ++ a ∷ [] })

-- `id TEXT PRIMARY KEY`
unfoldable pub insert_lifecycle_event_on : PurgeStore → EvidenceLifecycleEvent → Attempt PurgeStore
insert_lifecycle_event_on s e = do
  require (not (any (λ f. str_eq f.event_id e.event_id) s.events)) persistence
  done (record s { events = s.events ++ e ∷ [] })

unfoldable pub upsert_state :
    EvidenceRetentionState → List EvidenceRetentionState → List EvidenceRetentionState
upsert_state p [] = p ∷ []
upsert_state p (q ∷ qs) =
    let rest = upsert_state p qs in if str_eq q.object_id p.object_id then p ∷ qs else q ∷ rest

unfoldable pub upsert_retention_state_on : PurgeStore → EvidenceRetentionState → PurgeStore
unfolding upsert_state
upsert_retention_state_on s p = record s { states = upsert_state p s.states }

-- The INSERT of a reservation, `PRIMARY KEY(tenant_id,request_id)`.
unfoldable pub reserve_key : PurgeStore → Str → Str → Str → Str → Str → Attempt PurgeStore
reserve_key s tenant_id request_id command_hash actor_binding now =
    if any (λ k. str_eq k.tenant_id tenant_id && str_eq k.request_id request_id) s.keys
    then failed persistence
    else done (record s {
      keys =
          record {
            tenant_id = tenant_id;
            request_id = request_id;
            command_hash = command_hash;
            actor_binding = actor_binding;
            entity_id = none;
            result_json = none;
            created_at = now;
            completed_at = none;
          }
          ∷ s.keys;
    })

unfoldable pub complete_purge_idempotency_on : PurgeStore → Str → Str → Str → Str → Str → PurgeStore
complete_purge_idempotency_on s tenant_id request_id_key entity_id serialized now = record s {
  keys =
      map
        (λ k.
          if str_eq k.tenant_id tenant_id && str_eq k.request_id request_id_key
          then record k {
            entity_id = some entity_id;
            result_json = some serialized;
            completed_at = some now;
          }
          else k)
        s.keys;
}

abbrev pub lifecycle_policy_version : Str
lifecycle_policy_version = str "evidence-lifecycle-policy/v0.8.0"

-- The payload of a lifecycle receipt that is no intent, as `emitReceipt` completes it.
unfoldable pub purge_receipt_payload :
    Scope → Str → Str → Str → Str → VerifiedApprovalPrincipal → Str → Str → PurgeReceiptPayload
unfolding principal_snapshot
purge_receipt_payload scope object_id reviewed_hash resulting_hash reason principal action now =
    let snapshot = principal_snapshot principal in
    record {
      version = str "receipt-payload/v0.9.0";
      subject_type = str "evidence_object";
      subject_id = object_id;
      action = action;
      tenant_id = scope.organization_id;
      company_id = scope.company_id;
      fiscal_period_id = scope.period;
      reviewed_lifecycle_hash = reviewed_hash;
      resulting_lifecycle_hash = resulting_hash;
      evidence_ref = object_id;
      reason = reason;
      principal_id = snapshot.subject_id;
      membership_id = snapshot.membership_id;
      principal_roles = map role_token snapshot.roles;
      authentication_method = snapshot.authentication_method;
      assurance_level = snapshot.assurance_level;
      principal_authenticated_at = snapshot.authenticated_at;
      policy_version = lifecycle_policy_version;
      execution_attempt_id = [];
      issued_at = now;
    }

-- A store with no signer emits nothing.
unfoldable pub emit_receipt :
    Option (PurgeReceiptPayload → Bool) → PurgeStore → PurgeReceiptPayload → Attempt PurgeStore
emit_receipt none s payload = done s
emit_receipt (some signs) s payload = do
  require (signs payload) persistence
  done (record s { receipts = s.receipts ++ payload ∷ [] })

-- A denial by the evidence-lifecycle policy of a human, first, then the separation of duties against
-- the stored subjects; an empty subject is not compared.
unfoldable pub authorize_purge_act :
    VerifiedApprovalPrincipal
    → Scope
    → LifecycleAction
    → Str
    → Bool
    → Str
    → Str
    → Attempt (Unit {0})
authorize_purge_act principal scope action category dual requester_subject first_approver_subject =
    let decision = authorize (record {
      action = action;
      principal = principal;
      actor_kind = human;
      tenant_id = scope.organization_id;
      company_id = scope.company_id;
      category = category;
      dual_approval_required = dual;
      requester = none;
      first_approver = none;
    }) in
    do
      require decision.allowed (policy decision.reason_code)
      require (is_empty requester_subject || not (str_eq principal.subject_id requester_subject))
          (policy ReasonCode.approver_is_requester)
      require
          (is_empty first_approver_subject
            || not (str_eq principal.subject_id first_approver_subject))
          (policy ReasonCode.same_principal_second_approval)
