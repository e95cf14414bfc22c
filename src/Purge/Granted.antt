-- ===== src/Purge/Granted.antt =====
-- When ApprovePurge of internal/store/purge_store.go records an approval, and which one.
use drenyra_engram.Base.{
  Str, true, false, Option, none, some, List, [], ◌∷◌, ◌≡◌, refl, sym, ap, ◌∙◌, ◌⊎◌, inl, inr,
  if◌then◌else◌, Option-cases, arith,
}
use drenyra_engram.Base.Int.{ℤ, pos}
use drenyra_engram.Auth.{VerifiedApprovalPrincipal}
use drenyra_engram.Authz.Evidence.{LifecycleAction}
use drenyra_engram.Retention.{RetentionPolicy}
use drenyra_engram.Purge.{
  requested, approved, EvidencePurgeRequest, ApprovePurgeCommand, ApprovePurgeResult, done,
}
use drenyra_engram.Purge.Tables.{PurgeStore, Fresh, Platform}
use drenyra_engram.Purge.Reads.{approval_ids_on, purge_request_by_id_on}
use drenyra_engram.Purge.Approve.{
  ApprovalTurn, approval_turn, is_complete, approve_fresh, replay_approve, approve_purge,
}
use drenyra_engram.Purge.Rows.{>>=-done, >>-done, done-eq}
use drenyra_engram.Purge.Approvals.{IsGranted, approve_fresh-IsGranted}

replay_approve-flag :
    (x : Platform) (s t : PurgeStore) (json : Str) (res : ApprovePurgeResult)
    → replay_approve x s json ≡ done (res, t)
    → res.idempotent_replay ≡ true
unfolding replay_approve
replay_approve-flag x s t json res h = elim (Option-cases (x.decode_approve json)) [
  | inl e ↦ absurd (ground arith)
  | inr (a, e) ↦ ground arith
]

-- An approval that is no replay rests on all the conditions of `IsGranted`, read in the store before
-- the command: the request of that id is open; its period is writable; its bound policy is readable and
-- resolves to one policy in force, under which the object is due; no active hold of a kind that policy
-- blocks on stands on the object; the expected hash is the hash of the current snapshot; the lifecycle
-- policy permits the act that is next; the principal is neither the requester nor, for a second approval,
-- the principal of the first decision row, where these subjects are not empty; and the order of the
-- approval and the status of the request in the result are those of that turn.
pub approve_purge-IsGranted :
    (x : Platform) (s t : PurgeStore) (cmd : ApprovePurgeCommand)
    (principal : VerifiedApprovalPrincipal) (fresh : Fresh) (res : ApprovePurgeResult)
    → approve_purge x s cmd principal fresh ≡ done (res, t)
    → res.idempotent_replay ≡ false
    → (r : EvidencePurgeRequest) × (purge_request_by_id_on s cmd.request_id ≡ done r)
      × IsGranted x s cmd principal r res
unfolding approve_purge
approve_purge-IsGranted x s t cmd principal fresh res h n =
    let (_, h1) = >>-done _ _ h in
    let (r, found, h2) = >>=-done _ _ h1 in
    let (_, h3) = >>-done _ _ h2 in
    let (replayed, _, h4) = >>=-done _ _ h3 in (r, found, go r replayed h4)
  where
    go :
        (r : EvidencePurgeRequest) (o : Option Str)
        → (elim o [
          | some json ↦ replay_approve x s json
          | none ↦ approve_fresh x s cmd principal fresh r
        ])
          ≡ done (res, t)
        → IsGranted x s cmd principal r res
    go r (some json) h = absurd (cc (replay_approve-flag x s t json res h, n))
    go r none h = approve_fresh-IsGranted x s t cmd principal fresh r res h

-- The order of an approval, and whether it completes the request, by the number of decision rows stored
-- for the request, whatever their decisions.
turn_order :
    (s : PurgeStore) (ids : List Str) (turn : ApprovalTurn)
    → approval_turn s ids ≡ done turn
    → ((ids ≡ []) × (turn.order ≡ pos 1) × (turn.action ≡ LifecycleAction.approve_purge))
      ⊎ ((id : Str) × (ids ≡ id ∷ [])
          × (turn.order ≡ pos 2)
          × (turn.action ≡ LifecycleAction.second_approve))
unfolding approval_turn
turn_order s [] turn h =
    let e = done-eq _ _ h in inl (refl, ap (λ z. z.order) (sym e), ap (λ z. z.action) (sym e))
turn_order s (id ∷ []) turn h =
    let (a, _, h1) = >>=-done _ _ h in
    let e = done-eq _ _ h1 in inr (id, refl, ap (λ z. z.order) (sym e), ap (λ z. z.action) (sym e))
turn_order s (_ ∷ _ ∷ _) turn h = absurd (cc h)

-- An approval that is no replay is of order 1 exactly when no decision row is stored for the request,
-- and then leaves the request open if the policy in force asks for two approvals and approves it if not.
-- Otherwise exactly one row is stored, of whatever decision and pipeline, the approval is of order 2, and
-- the request is approved.
pub approval_order_by_rows :
    (x : Platform) (s t : PurgeStore) (cmd : ApprovePurgeCommand)
    (principal : VerifiedApprovalPrincipal) (fresh : Fresh) (res : ApprovePurgeResult)
    → approve_purge x s cmd principal fresh ≡ done (res, t)
    → res.idempotent_replay ≡ false
    → (r : EvidencePurgeRequest) × (g : IsGranted x s cmd principal r res) × (((approval_ids_on s
              r.request_id
            ≡ [])
          × (res.approval_order ≡ pos 1)
          × (res.request.status
              ≡ (if g.policy.dual_approval_required then requested else approved)))
        ⊎ ((id : Str) × (approval_ids_on s r.request_id ≡ id ∷ [])
            × (res.approval_order ≡ pos 2)
            × (res.request.status ≡ approved)))
approval_order_by_rows x s t cmd principal fresh res h n =
    let (r, _, g) = approve_purge-IsGranted x s t cmd principal fresh res h n in
    (
      r,
      g,
      elim (turn_order s (approval_ids_on s r.request_id) g.turn g.in_turn) [
        | inl (e, o, _) ↦ inl (e, g.ordered ∙ o, g.settled ∙ first_status g.policy g.turn.order o)
        | inr (id, e, o, _) ↦
            inr (id, e, g.ordered ∙ o, g.settled ∙ second_status g.policy g.turn.order o)
      ],
    )
  where
    first_status :
        (p : RetentionPolicy) (o : ℤ)
        → o ≡ pos 1
        → (if is_complete p o then approved else requested)
          ≡ (if p.dual_approval_required then requested else approved)
    first_status p o e = rw e (unfold is_complete in ground arith)

    second_status :
        (p : RetentionPolicy) (o : ℤ)
        → o ≡ pos 2
        → (if is_complete p o then approved else requested) ≡ approved
    second_status p o e = rw e (unfold is_complete in ground arith)
