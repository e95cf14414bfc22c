-- ===== src/Purge/Reads.antt =====
-- What the purge commands read (the `…On` functions of internal/store/purge_store.go, and
-- assertPeriodWritable of internal/store/store.go).
use drenyra_engram.Base.{
  Str, str, str_eq, str_lt, Bool, false, not, ◌&&◌, ◌||◌, Option, none, some, List, [], ◌∷◌, map,
  any, is_empty, is_blank, if◌then◌else◌,
}
use drenyra_engram.Base.Int.{ℤ, pos, ltb_ℤ, eq_ℤ}
use drenyra_engram.Memory.{Scope, is_company, is_institutional}
use drenyra_engram.Fiscal.{jurisdiction_ok}
use drenyra_engram.Holds.{EvidenceHold, kind_token}
use drenyra_engram.Retention.{
  RetentionPolicy, RetentionEligibility, assert_valid_retention_scope, resolve_retention_policy,
}
use drenyra_engram.Purge.{
  stored, EvidencePurgeRequest, EvidencePurgeApproval, EvidenceRetentionState, LifecycleHoldRef,
  LifecycleSnapshot, retention_scope, purge_request_not_found, idempotency_conflict, period_closed,
  not_purgeable, unknown_retention_state, retention_policy_ambiguous, persistence, Attempt, done,
  failed, ◌>>=◌, ◌>>◌, require,
}
use drenyra_engram.Purge.Snapshot.{sorted_lifecycle_holds, assemble_snapshot}
use drenyra_engram.Purge.Tables.{EvidenceObject, IdempotencyKey, PurgeStore, first, select}

unfoldable pub insert_version : RetentionPolicy → List RetentionPolicy → List RetentionPolicy
insert_version a [] = a ∷ []
insert_version a (p ∷ ps) =
    let rest = insert_version a ps in if ltb_ℤ a.version p.version then p ∷ rest else a ∷ p ∷ ps

-- `ORDER BY version DESC`
unfoldable pub by_version : List RetentionPolicy → List RetentionPolicy
unfolding insert_version
by_version [] = []
by_version (p ∷ ps) = insert_version p (by_version ps)

-- The WHERE clause of the resolution.
unfoldable pub in_tuple : Scope → Str → Str → Str → RetentionPolicy → Bool
in_tuple scope jurisdiction legislation category p =
    str_eq p.tenant_id scope.organization_id
    && str_eq p.company_id scope.company_id
    && str_eq p.ruc scope.ruc
    && str_eq p.period scope.period
    && str_eq p.jurisdiction jurisdiction
    && str_eq p.legislation legislation
    && str_eq p.category category
    && p.enabled

-- The answer from the enabled rows: no policy in force is an error only where some row is enabled.
unfoldable pub resolve_rows :
    List RetentionPolicy → Option RetentionPolicy → Attempt (Option RetentionPolicy)
resolve_rows enabled (some p) = done (some p)
resolve_rows [] none = done none
resolve_rows (_ ∷ _) none = failed retention_policy_ambiguous

unfoldable pub resolve_retention_policy_on :
    PurgeStore → Scope → Str → Str → Str → Attempt (Option RetentionPolicy)
unfolding by_version in_tuple resolve_rows
resolve_retention_policy_on s scope jurisdiction legislation category = do
  require (not (is_institutional scope.kind)) not_purgeable
  elim (assert_valid_retention_scope scope) [ none ↦ done tt | some e ↦ failed (retention_scope e) ]
  require (jurisdiction_ok jurisdiction && not (is_blank legislation) && not (is_blank category))
      unknown_retention_state
  let enabled = by_version (select (in_tuple scope jurisdiction legislation category) s.policies)
  resolve_rows enabled (resolve_retention_policy enabled scope jurisdiction legislation category)

-- An active hold of the object whose kind blocks.
unfoldable pub blocks : Str → List Str → EvidenceHold → Bool
blocks object_id kinds h =
    str_eq h.object_id object_id
    && is_empty h.lifted_at
    && any (λ k. str_eq k (kind_token h.kind)) kinds

unfoldable pub hold_ref : EvidenceHold → LifecycleHoldRef
hold_ref h = record { hold_id = h.hold_id; kind = kind_token h.kind; placed_at = h.placed_at }

unfoldable pub active_blocking_hold_refs_on : PurgeStore → Str → List Str → List LifecycleHoldRef
unfolding hold_ref
active_blocking_hold_refs_on s object_id kinds =
    sorted_lifecycle_holds (map hold_ref (select (blocks object_id kinds) s.holds))

row_before : EvidencePurgeApproval → EvidencePurgeApproval → Bool
row_before a b =
    ltb_ℤ a.approval_order b.approval_order
    || (eq_ℤ a.approval_order b.approval_order && str_lt a.approval_id b.approval_id)

unfoldable pub insert_row :
    EvidencePurgeApproval → List EvidencePurgeApproval → List EvidencePurgeApproval
unfolding row_before
insert_row a [] = a ∷ []
insert_row a (b ∷ bs) =
    let rest = insert_row a bs in if row_before b a then b ∷ rest else a ∷ b ∷ bs

-- `ORDER BY approval_order, id`
unfoldable pub by_order : List EvidencePurgeApproval → List EvidencePurgeApproval
unfolding insert_row
by_order [] = []
by_order (a ∷ rows) = insert_row a (by_order rows)

-- Every decision row of the request, whatever its decision.
unfoldable pub approval_ids_on : PurgeStore → Str → List Str
unfolding by_order
approval_ids_on s request_id =
    map (λ a. a.approval_id) (by_order (select (λ a. str_eq a.request_id request_id) s.approvals))

unfoldable pub purge_approval_by_id_on : PurgeStore → Str → Attempt EvidencePurgeApproval
purge_approval_by_id_on s approval_id =
    elim (first (λ a. str_eq a.approval_id approval_id) s.approvals) [
      | none ↦ failed persistence
      | some a ↦ done a
    ]

unfoldable pub retention_policy_by_id_on : PurgeStore → Str → Option RetentionPolicy
retention_policy_by_id_on s policy_id = first (λ p. str_eq p.policy_id policy_id) s.policies

unfoldable pub retention_state_on : PurgeStore → Str → Option EvidenceRetentionState
retention_state_on s object_id = first (λ p. str_eq p.object_id object_id) s.states

unfoldable pub purge_request_by_id_on : PurgeStore → Str → Attempt EvidencePurgeRequest
purge_request_by_id_on s request_id =
    elim (first (λ r. str_eq r.request_id request_id) s.requests) [
      | none ↦ failed purge_request_not_found
      | some r ↦ done r
    ]

unfoldable pub purge_request_by_object_on : PurgeStore → Str → Option EvidencePurgeRequest
purge_request_by_object_on s object_id = first (λ r. str_eq r.object_id object_id) s.requests

unfoldable pub read_object : PurgeStore → Str → Option EvidenceObject
read_object s object_id = first (λ o. str_eq o.object_id object_id) s.objects

-- The projection of an object that has none.
unfoldable pub unmanaged : Str → EvidenceRetentionState
unmanaged object_id = record {
  object_id = object_id;
  lifecycle_state = stored;
  retention_state = RetentionEligibility.other (str "unmanaged");
  policy_id = [];
  category = [];
  has_active_blocking_hold = false;
  current_hash = [];
  updated_at = [];
}

unfoldable pub projection_of : Str → Option EvidenceRetentionState → EvidenceRetentionState
unfolding unmanaged
projection_of object_id none = unmanaged object_id
projection_of object_id (some p) = p

-- The id of the request row, when there is one.
unfoldable pub id_of : Option EvidencePurgeRequest → Str
id_of none = []
id_of (some r) = r.request_id

-- The version of the bound policy, which must be readable.
unfoldable pub bound_version : PurgeStore → Str → Attempt ℤ
bound_version s policy_id =
    if is_empty policy_id then done (pos 0) else elim (retention_policy_by_id_on s policy_id) [
      | none ↦ failed persistence
      | some p ↦ done p.version
    ]

-- The snapshot; its hash is taken by the caller.
unfoldable pub current_purge_snapshot_on :
    PurgeStore → Str → Scope → List Str → Attempt LifecycleSnapshot
unfolding projection_of bound_version id_of
current_purge_snapshot_on s object_id scope kinds =
    let p = projection_of object_id (retention_state_on s object_id) in
    let request_id = id_of (purge_request_by_object_on s object_id) in
    do
      version ← bound_version s p.policy_id
      done (
          assemble_snapshot object_id scope p.lifecycle_state p.retention_state p.policy_id
            p.category version (active_blocking_hold_refs_on s object_id kinds) request_id
            (approval_ids_on s request_id))

unfoldable pub assert_period_writable : PurgeStore → Scope → Attempt (Unit {0})
assert_period_writable s scope =
    if not (is_company scope.kind) || is_empty scope.period
    then done tt
    else elim (first
        (λ c.
          str_eq c.tenant_id scope.organization_id
          && str_eq c.company_id scope.company_id
          && str_eq c.fiscal_period_id scope.period)
        s.closures) [
          | none ↦ done tt
          | some c ↦ require (not (str_eq c.status (str "closed"))) period_closed
        ]

-- `sql.NullString.String`: the empty string for NULL.
unfoldable pub null_string : Option Str → Str
null_string none = []
null_string (some s) = s

-- The stored result of a completed key, once the command and the actor are the stored ones.
unfoldable pub replay_key : IdempotencyKey → Str → Str → Attempt Str
unfolding null_string
replay_key k command_hash actor_binding = do
  require (str_eq k.command_hash command_hash && str_eq k.actor_binding actor_binding)
      idempotency_conflict
  require (not (is_empty (null_string k.entity_id) || is_empty (null_string k.result_json)))
      idempotency_conflict
  done (null_string k.result_json)

unfoldable pub find_key : PurgeStore → Str → Str → Option IdempotencyKey
find_key s tenant_id request_id =
    first (λ k. str_eq k.tenant_id tenant_id && str_eq k.request_id request_id) s.keys

-- `none` is a fresh key.
unfoldable pub replay_purge_idempotency_on :
    PurgeStore → Str → Str → Str → Str → Attempt (Option Str)
unfolding replay_key
replay_purge_idempotency_on s tenant_id request_id_key command_hash actor_binding =
    elim (find_key s tenant_id request_id_key) [
      | none ↦ done none
      | some k ↦ do json ← replay_key k command_hash actor_binding; done (some json)
    ]
