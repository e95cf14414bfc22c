-- ===== src/Purge/Approvals.antt =====
-- The conditions of an approval that ApprovePurge of internal/store/purge_store.go records.
use drenyra_engram.Base.{
  Str, str_eq, str_eq_iff, Bool, true, false, not, ◌||◌, Option, none, some, List, [], ◌∷◌, ◌≡◌,
  ◌≢◌, refl, sym, ap, subst, ◌∙◌, ◌⊎◌, inl, inr, is_empty, if◌then◌else◌, Bool-cases, arith,
}
use drenyra_engram.Base.Int.{ℤ}
use drenyra_engram.Memory.{Scope, human}
use drenyra_engram.Auth.{VerifiedApprovalPrincipal}
use drenyra_engram.Authz.Evidence.{LifecycleAction, authorize}
use drenyra_engram.Retention.{RetentionPolicy}
use drenyra_engram.Purge.{
  requested, approved, EvidencePurgeRequest, LifecycleSnapshot, ApprovePurgeCommand,
  ApprovePurgeResult, done,
}
use drenyra_engram.Purge.Tables.{IdempotencyKey, PurgeStore, Fresh, Platform}
use drenyra_engram.Purge.Reads.{
  resolve_retention_policy_on, active_blocking_hold_refs_on, approval_ids_on,
  retention_policy_by_id_on, retention_state_on, purge_request_by_object_on,
  purge_approval_by_id_on, current_purge_snapshot_on, assert_period_writable, bound_version,
}
use drenyra_engram.Purge.Writes.{reserve_key, authorize_purge_act}
use drenyra_engram.Purge.Blockers.{found_policy}
use drenyra_engram.Purge.Approve.{
  purge_request_scope, ApprovalTurn, approval_turn, is_complete, approved_request, record_approval,
  approve_fresh,
}
use drenyra_engram.Purge.Rows.{>>=-done, >>-done, done-eq}
use drenyra_engram.Purge.ApproveSteps.{assert_open-requested}
use drenyra_engram.Purge.Gates.{IsClear, check_blockers-IsClear, require-true}

-- The store with other keys.
abbrev with_keys : PurgeStore → List IdempotencyKey → PurgeStore
with_keys s ks = record s { keys = ks }

reserve_key-keys :
    (s a : PurgeStore) (tenant id hash actor now : Str)
    → reserve_key s tenant id hash actor now ≡ done a
    → (ks : List IdempotencyKey) × (with_keys s ks ≡ a)
unfolding reserve_key
reserve_key-keys s a tenant id hash actor now h = (a.keys, ground arith)

-- The policy's answer to a human of the act.
abbrev pub allowed : VerifiedApprovalPrincipal → Scope → LifecycleAction → Str → Bool → Bool
allowed principal scope action category dual =
    (authorize (record {
      action = action;
      principal = principal;
      actor_kind = human;
      tenant_id = scope.organization_id;
      company_id = scope.company_id;
      category = category;
      dual_approval_required = dual;
      requester = none;
      first_approver = none;
    })).allowed

-- An empty subject is not compared.
abbrev pub Distinct : Str → Str → Type 0
Distinct subject other = (is_empty other ≡ true) ⊎ (subject ≢ other)

Distinct-from :
    (subject other : Str)
    → (is_empty other || not (str_eq subject other)) ≡ true
    → Distinct subject other
Distinct-from subject other h = elim (Bool-cases (is_empty other)) [
  | inl n ↦ inl n
  | inr n ↦ inr (λ e.
      let f : str_eq subject other ≡ true = (str_eq_iff subject other).1 e in absurd (ground arith))
]

pub authorize_purge_act-allowed :
    (principal : VerifiedApprovalPrincipal) (scope : Scope) (action : LifecycleAction)
    (category : Str) (dual : Bool) (requester first_approver : Str)
    → authorize_purge_act principal scope action category dual requester first_approver ≡ done tt
    → (allowed principal scope action category dual ≡ true)
      × Distinct principal.subject_id requester
      × Distinct principal.subject_id first_approver
unfolding authorize_purge_act
authorize_purge_act-allowed principal scope action category dual requester first_approver h =
    let (a, h1) = >>-done _ _ h in
    let (b, c) = >>-done _ _ h1 in
    (
      require-true _ _ a,
      Distinct-from _ _ (require-true _ _ b),
      Distinct-from _ _ (require-true _ _ c),
    )

-- What an approval rests on.
pub record IsGranted (x : Platform) (s : PurgeStore) (cmd : ApprovePurgeCommand)
    (principal : VerifiedApprovalPrincipal) (r : EvidencePurgeRequest) (res : ApprovePurgeResult)
    : Type 0 where
  pub bound : RetentionPolicy
  pub policy : RetentionPolicy
  pub current : LifecycleSnapshot
  pub turn : ApprovalTurn
  pub still_open : r.status ≡ requested
  pub writable : assert_period_writable s (purge_request_scope r) ≡ done tt
  pub bound_by : retention_policy_by_id_on s r.policy_id ≡ some bound
  pub resolved :
      resolve_retention_policy_on s
        (purge_request_scope r)
        bound.jurisdiction
        bound.legislation
        r.category
      ≡ done (some policy)
  pub clear :
      IsClear x s (purge_request_scope r) r.object_id cmd.expected_lifecycle_hash policy current
  pub in_turn : approval_turn s (approval_ids_on s r.request_id) ≡ done turn
  pub permitted :
      allowed principal
        (purge_request_scope r)
        turn.action
        policy.category
        policy.dual_approval_required
      ≡ true
  pub not_requester : Distinct principal.subject_id r.requested_by
  pub not_first : Distinct principal.subject_id turn.first_approver_subject
  pub ordered : res.approval_order ≡ turn.order
  pub settled : res.request.status ≡ (if is_complete policy turn.order then approved else requested)

found_policy-some :
    (o : Option RetentionPolicy) (p : RetentionPolicy) → found_policy o ≡ done p → o ≡ some p
unfolding found_policy
found_policy-some o p h = ground arith

approved_status :
    (c : Bool) (r : EvidencePurgeRequest) (now : Str)
    → r.status ≡ requested
    → (approved_request c r now).status ≡ (if c then approved else requested)
unfolding approved_request
approved_status true r now q = refl
approved_status false r now q = q

record_approval-result :
    (x : Platform) (s t : PurgeStore) (cmd : ApprovePurgeCommand)
    (principal : VerifiedApprovalPrincipal) (fresh : Fresh) (r : EvidencePurgeRequest)
    (p : RetentionPolicy) (current : LifecycleSnapshot) (order : ℤ) (res : ApprovePurgeResult)
    → record_approval x s cmd principal fresh r p current order ≡ done (res, t)
    → (res.approval_order ≡ order)
      × (res.request ≡ approved_request (is_complete p order) r fresh.now)
unfolding record_approval
record_approval-result x s t cmd principal fresh r p current order res h =
    let (_, _, h1) = >>=-done _ _ h in
    let (_, _, h2) = >>=-done _ _ h1 in
    let (_, _, h3) = >>=-done _ _ h2 in
    let (_, _, h4) = >>=-done _ _ h3 in
    let same = done-eq _ _ h4 in
    (ap (λ z. z.0.approval_order) (sym same), ap (λ z. z.0.request) (sym same))

-- The reads do not see the keys.
IsGranted-keys :
    (x : Platform) (s : PurgeStore) (ks : List IdempotencyKey) (cmd : ApprovePurgeCommand)
    (principal : VerifiedApprovalPrincipal) (r : EvidencePurgeRequest) (res : ApprovePurgeResult)
    → IsGranted x (with_keys s ks) cmd principal r res
    → IsGranted x s cmd principal r res
unfolding resolve_retention_policy_on active_blocking_hold_refs_on approval_ids_on approval_turn
    purge_approval_by_id_on retention_policy_by_id_on retention_state_on purge_request_by_object_on
    current_purge_snapshot_on assert_period_writable bound_version
IsGranted-keys x s ks cmd principal r res g = record {
  bound = g.bound;
  policy = g.policy;
  current = g.current;
  turn = g.turn;
  still_open = g.still_open;
  writable = g.writable;
  bound_by = g.bound_by;
  resolved = g.resolved;
  clear = record {
    due = g.clear.due;
    read = g.clear.read;
    free = g.clear.free;
    reviewed = g.clear.reviewed;
  };
  in_turn = turn_keys (approval_ids_on s r.request_id) g.in_turn;
  permitted = g.permitted;
  not_requester = g.not_requester;
  not_first = g.not_first;
  ordered = g.ordered;
  settled = g.settled;
}
  where
    turn_keys :
        (ids : List Str)
        → approval_turn (with_keys s ks) ids ≡ done g.turn
        → approval_turn s ids ≡ done g.turn
    turn_keys [] h = h
    turn_keys (i ∷ []) h = h
    turn_keys (i ∷ j ∷ ids) h = h

pub approve_fresh-IsGranted :
    (x : Platform) (s t : PurgeStore) (cmd : ApprovePurgeCommand)
    (principal : VerifiedApprovalPrincipal) (fresh : Fresh) (r : EvidencePurgeRequest)
    (res : ApprovePurgeResult)
    → approve_fresh x s cmd principal fresh r ≡ done (res, t)
    → IsGranted x s cmd principal r res
unfolding approve_fresh
approve_fresh-IsGranted x s t cmd principal fresh r res h =
    let (a, ha, h1) = >>=-done _ _ h in
    let (gated, h2) = >>-done _ _ h1 in
    let (writable, h3) = >>-done _ _ h2 in
    let (bound, hb, h4) = >>=-done _ _ h3 in
    let (matched, hm, h5) = >>=-done _ _ h4 in
    let ((p, current), hc, h6) = >>=-done _ _ h5 in
    let (turn, ht, h7) = >>=-done _ _ h6 in
    let (auth, h8) = >>-done _ _ h7 in
    let (ks, same) = reserve_key-keys s a _ _ _ _ _ ha in
    let (em, clear) = check_blockers-IsClear x a _ _ _ matched p current hc in
    let (permitted, nr, nf) = authorize_purge_act-allowed principal _ _ _ _ _ _ auth in
    let (ordered, rq) = record_approval-result x a t cmd principal fresh r p current _ res h8 in
    let open_status = assert_open-requested _ gated in
    IsGranted-keys x s ks cmd principal r res (
      subst (λ z. IsGranted x z cmd principal r res) (sym same)
        (record {
          bound = bound;
          policy = p;
          current = current;
          turn = turn;
          still_open = open_status;
          writable = writable;
          bound_by = found_policy-some _ bound hb;
          resolved = hm ∙ ap done em;
          clear = clear;
          in_turn = ht;
          permitted = permitted;
          not_requester = nr;
          not_first = nf;
          ordered = ordered;
          settled =
              ap (λ z. z.status) rq
              ∙ approved_status (is_complete p turn.order) r fresh.now open_status;
        }))
