-- ===== src/Purge/ApproveSteps.antt =====
-- ApprovePurge of internal/store/purge_store.go makes a step.
use drenyra_engram.Base.{
  Str, Bool, true, false, ◌≡◌, refl, sym, ap, subst, In, if◌then◌else◌, arith,
}
use drenyra_engram.Base.Int.{ℤ}
use drenyra_engram.Auth.{VerifiedApprovalPrincipal}
use drenyra_engram.Retention.{RetentionPolicy}
use drenyra_engram.Purge.{
  PurgeRequestStatus, requested, EvidencePurgeRequest, LifecycleSnapshot, ApprovePurgeCommand,
  ApprovePurgeResult, done,
}
use drenyra_engram.Purge.Tables.{PurgeStore, Fresh, Platform}
use drenyra_engram.Purge.Writes.{
  upsert_state, update_purge_request, upsert_retention_state_on, complete_purge_idempotency_on,
}
use drenyra_engram.Purge.Approve.{
  assert_open, is_complete, post_lifecycle, approved_request, record_approval, approve_fresh,
}
use drenyra_engram.Purge.Rows.{state_of, >>=-done, >>-done, done-eq}
use drenyra_engram.Purge.Agreement.{IsSound}
use drenyra_engram.Purge.Frames.{
  Projects, Frame-trans, reserve_key-Frame, event-Frame, approval-Frame, receipt-Frame,
  update-replaces,
}
use drenyra_engram.Purge.Steps.{Step, projecting, moving, Step-after, Frame-IsSound}

-- The state gate lets only an open request through.
pub assert_open-requested : (st : PurgeRequestStatus) → assert_open st ≡ done tt → st ≡ requested
unfolding assert_open
assert_open-requested st h = ground arith

-- The status of the request and the projection, where the approval is complete and where it is not.
settled-Step :
    (complete : Bool) (s t u : PurgeStore) (request : EvidencePurgeRequest) (now : Str)
    → IsSound s
    → In request s.requests
    → request.status ≡ requested
    → (if complete then update_purge_request s (approved_request complete request now) else done s)
      ≡ done t
    → Projects t u request.object_id (post_lifecycle complete)
    → Step s u
unfolding approved_request post_lifecycle state_of
settled-Step true s t u request now v m q h w =
    let (l, tr, ts) = update-replaces s t _ request v.apart m refl h in
    moving t (approved_request true request now) request m refl refl refl l tr ts w
settled-Step false s t u request now v m q h w =
    let same : s ≡ t = done-eq _ _ h in
    projecting request m (
      subst (λ z. Projects s u request.object_id (state_of z)) (sym q)
        (subst (λ z. Projects z u request.object_id (post_lifecycle false)) (sym same) w))

module _ (x : Platform) (principal : VerifiedApprovalPrincipal) (fresh : Fresh) where
  record_approval-Step :
      (s t : PurgeStore) (cmd : ApprovePurgeCommand) (request : EvidencePurgeRequest)
      (p : RetentionPolicy) (current : LifecycleSnapshot) (order : ℤ) (res : ApprovePurgeResult)
      → IsSound s
      → In request s.requests
      → request.status ≡ requested
      → record_approval x s cmd principal fresh request p current order ≡ done (res, t)
      → Step s t
  unfolding record_approval upsert_retention_state_on complete_purge_idempotency_on
  record_approval-Step s t cmd request p current order res v m q h =
      let (a, ha, h1) = >>=-done _ _ h in
      let (b, hb, h2) = >>=-done _ _ h1 in
      let (c, hc, h3) = >>=-done _ _ h2 in
      let (d, hd, h4) = >>=-done _ _ h3 in
      let (fr, fs) = approval-Frame s a _ ha in
      let (gr, gs) = Frame-trans b c d (event-Frame b c _ hc) (receipt-Frame x.signs c d _ hd) in
      Step-after s a t (fr, fs)
        (settled-Step (is_complete p order) a b t request fresh.now (Frame-IsSound s a (fr, fs) v)
          (subst (In request) (sym fr) m) q hb
          (subst (λ z. Projects b z request.object_id (post_lifecycle (is_complete p order)))
            (ap (λ z. z.1) (done-eq _ _ h4)) (_, gr, ap (upsert_state _) gs, refl, refl)))

  pub approve_fresh-Step :
      (s t : PurgeStore) (cmd : ApprovePurgeCommand) (request : EvidencePurgeRequest)
      (res : ApprovePurgeResult)
      → IsSound s
      → In request s.requests
      → approve_fresh x s cmd principal fresh request ≡ done (res, t)
      → Step s t
  unfolding approve_fresh
  approve_fresh-Step s t cmd request res v m h =
      let (a, ha, h1) = >>=-done _ _ h in
      let (gated, h2) = >>-done _ _ h1 in
      let (_, h3) = >>-done _ _ h2 in
      let (_, _, h4) = >>=-done _ _ h3 in
      let (_, _, h5) = >>=-done _ _ h4 in
      let ((p, current), _, h6) = >>=-done _ _ h5 in
      let (turn, _, h7) = >>=-done _ _ h6 in
      let (_, h8) = >>-done _ _ h7 in
      let (fr, fs) = reserve_key-Frame s a _ _ _ _ _ ha in
      Step-after s a t (fr, fs)
        (record_approval-Step a t cmd request p current turn.order res
          (Frame-IsSound s a (fr, fs) v) (subst (In request) (sym fr) m)
          (assert_open-requested _ gated) h8)
