-- ===== src/Purge/CloseSteps.antt =====
-- closePurgeTransition of internal/store/purge_store.go makes a step, whenever the state that
-- the transition projects is the one of the status it flips to.
use drenyra_engram.Base.{Str, Option, none, some, List, ◌≡◌, refl, sym, ap, subst, In, arith}
use drenyra_engram.Auth.{VerifiedApprovalPrincipal}
use drenyra_engram.Purge.{
  PurgeRequestStatus, EvidencePurgeRequest, EvidencePurgeApproval, PurgeError, LifecycleSnapshot,
  Attempt, done,
}
use drenyra_engram.Purge.Tables.{PurgeStore, Fresh, Platform}
use drenyra_engram.Purge.Writes.{upsert_state, upsert_retention_state_on}
use drenyra_engram.Purge.Close.{
  Transition, closed_status, flip_status, insert_decision, pass, close_purge_transition,
}
use drenyra_engram.Purge.Rows.{state_of, >>=-done, >>-done, done-eq}
use drenyra_engram.Purge.Agreement.{IsSound}
use drenyra_engram.Purge.Frames.{
  Frame, Projects, Frame-trans, reserve_key-Frame, event-Frame, approval-Frame, receipt-Frame,
  update-replaces,
}
use drenyra_engram.Purge.Steps.{Step, moving, Step-after, Frame-IsSound}

decision-Frame :
    (s t : PurgeStore) (a : Option EvidencePurgeApproval) → insert_decision s a ≡ done t → Frame s t
unfolding insert_decision
decision-Frame s t none h = ground arith
decision-Frame s t (some a) h = approval-Frame s t a h

flip_status-Step :
    (s t u : PurgeStore) (request updated : EvidencePurgeRequest) (st : PurgeRequestStatus)
    → IsSound s
    → In request s.requests
    → flip_status s request (some st) ≡ done (updated, t)
    → Projects t u request.object_id (state_of st)
    → Step s u
unfolding flip_status
flip_status-Step s t u request updated st v m h w =
    let (t', ht, h1) = >>=-done _ _ h in
    let same : t' ≡ t = ap (λ z. z.1) (done-eq _ _ h1) in
    let (l, tr, ts) = update-replaces s t' _ request v.apart m refl ht in
    moving t' (record request { status = st }) request m refl refl refl l tr ts
      (subst (λ z. Projects z u request.object_id (state_of st)) (sym same) w)

pub close-Step :
    (x : Platform) (s t : PurgeStore) (request updated : EvidencePurgeRequest) (key hash : Str)
    (principal : VerifiedApprovalPrincipal) (fresh : Fresh) (kinds : List Str)
    (authorized : Attempt (Unit {0})) (gate : PurgeRequestStatus → Option PurgeError)
    (transition : LifecycleSnapshot → Transition) (decision : Option EvidencePurgeApproval)
    → IsSound s
    → In request s.requests
    → ((current : LifecycleSnapshot)
        → gate request.status ≡ none
        → (st : PurgeRequestStatus) × (closed_status request.status
              (transition current).event.action
            ≡ some st)
          × ((transition current).post_state ≡ state_of st))
    → close_purge_transition x s request key hash principal fresh kinds authorized gate transition
      ≡ done (updated, decision, t)
    → Step s t
unfolding close_purge_transition upsert_retention_state_on
close-Step x s t request updated key hash principal fresh kinds authorized gate transition decision
      v m settles h =
    let (a, ha, h1) = >>=-done _ _ h in
    let (_, h2) = >>-done _ _ h1 in
    let (gated, h3) = >>-done _ _ h2 in
    let (current, _, h4) = >>=-done _ _ h3 in
    let ((r, b), hb, h5) = >>=-done _ _ h4 in
    let (c, hc, h6) = >>=-done _ _ h5 in
    let (d, hd, h7) = >>=-done _ _ h6 in
    let (e, he, h8) = >>=-done _ _ h7 in
    let (fr, fs) = reserve_key-Frame s a _ _ _ _ _ ha in
    let (gr, gs) =
      Frame-trans b c e (decision-Frame b c _ hc)
        (Frame-trans c d e (event-Frame c d _ hd) (receipt-Frame x.signs d e _ he)) in
    let (st, cl, ps) = settles current (passed _ gated) in
    Step-after s a t (fr, fs)
      (flip_status-Step a b t request r st (Frame-IsSound s a (fr, fs) v)
        (subst (In request) (sym fr) m) (subst (λ z. flip_status a request z ≡ done (r, b)) cl hb)
        (subst (λ z. Projects b z request.object_id (state_of st)) (ap (λ z. z.2) (done-eq _ _ h8))
          (_, gr, ap (upsert_state _) gs, refl, ps)))
  where
    passed : (o : Option PurgeError) → pass o ≡ done tt → o ≡ none
    passed none h = refl
    passed (some e) h = absurd (unfold pass in cc)
