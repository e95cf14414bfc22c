-- ===== src/Purge/RequestSteps.antt =====
-- RequestPurge of internal/store/purge_store.go makes a step.
use drenyra_engram.Base.{
  Str, str_eq_iff, Bool, true, false, Option, none, some, ◌≡◌, refl, sym, ap, subst, is_empty,
  if◌then◌else◌, arith,
}
use drenyra_engram.Memory.{Scope}
use drenyra_engram.Auth.{VerifiedApprovalPrincipal}
use drenyra_engram.Retention.{RetentionPolicy}
use drenyra_engram.Purge.{
  purge_requested, EvidencePurgeRequest, LifecycleSnapshot, RequestPurgeCommand, RequestPurgeResult,
  done,
}
use drenyra_engram.Purge.Tables.{PurgeStore, Fresh, Platform}
use drenyra_engram.Purge.Reads.{purge_request_by_object_on}
use drenyra_engram.Purge.Writes.{
  upsert_state, upsert_retention_state_on, complete_purge_idempotency_on,
}
use drenyra_engram.Purge.Request.{
  new_request, renewed_request, open_request, bind_retention, record_request, request_fresh,
}
use drenyra_engram.Purge.Rows.{state_of, >>=-done, >>-done, done-eq, first-found}
use drenyra_engram.Purge.Agreement.{IsSound}
use drenyra_engram.Purge.Frames.{
  Frame, Projects, Frame-trans, Projects-after, reserve_key-Frame, event-Frame, receipt-Frame,
  update-replaces, insert-adds,
}
use drenyra_engram.Purge.Steps.{Step, opening, moving, Step-after, Frame-IsSound}

module _ (x : Platform) (principal : VerifiedApprovalPrincipal) (fresh : Fresh) where
  bind_retention-Frame :
      (s t : PurgeStore) (cmd : RequestPurgeCommand) (scope : Scope) (p : RetentionPolicy)
      (id : Str)
      → bind_retention x s cmd principal fresh scope p id ≡ done t
      → Frame s t
  unfolding bind_retention
  bind_retention-Frame s t cmd scope p id h =
      let (a, ha, h') = >>=-done _ _ h in
      Frame-trans s a t (event-Frame s a _ ha) (receipt-Frame x.signs a t _ h')

  -- The binding, where there is one.
  pub bound-Frame :
      (c : Bool) (s t : PurgeStore) (cmd : RequestPurgeCommand) (scope : Scope)
      (p : RetentionPolicy) (id : Str)
      → (if c then bind_retention x s cmd principal fresh scope p id else done s) ≡ done t
      → Frame s t
  bound-Frame true s t cmd scope p id h = bind_retention-Frame s t cmd scope p id h
  bound-Frame false s t cmd scope p id h = ground arith

  record_request-Projects :
      (s t : PurgeStore) (cmd : RequestPurgeCommand) (scope : Scope) (p : RetentionPolicy)
      (current : LifecycleSnapshot) (request : EvidencePurgeRequest)
      → record_request x s cmd principal fresh scope p current request ≡ done t
      → Projects s t cmd.object_id purge_requested
  unfolding record_request upsert_retention_state_on complete_purge_idempotency_on
  record_request-Projects s t cmd scope p current request h =
      let (a, ha, h1) = >>=-done _ _ h in
      let (b, hb, h2) = >>=-done _ _ h1 in
      let (fr, fs) = Frame-trans s a b (event-Frame s a _ ha) (receipt-Frame x.signs a b _ hb) in
      subst (λ z. Projects s z cmd.object_id purge_requested) (done-eq _ _ h2)
        (_, fr, ap (upsert_state _) fs, refl, refl)

  -- The row is opened, and its object then projected to `purge_requested`.
  open_request-Step :
      (s t u : PurgeStore) (cmd : RequestPurgeCommand) (scope : Scope) (p : RetentionPolicy)
      (existing : Option EvidencePurgeRequest) (request : EvidencePurgeRequest)
      → IsSound s
      → purge_request_by_object_on s cmd.object_id ≡ existing
      → open_request x s cmd principal fresh scope p existing ≡ done (request, t)
      → Projects t u cmd.object_id purge_requested
      → Step s u
  unfolding open_request purge_request_by_object_on new_request renewed_request state_of
  open_request-Step s t u cmd scope p none request v e h w =
      let (_, h1) = >>-done _ _ h in
      let (t', ht, h2) = >>=-done _ _ h1 in
      let same : t' ≡ t = ap (λ z. z.1) (done-eq _ _ h2) in
      let (n, tr, ts) = insert-adds s t' _ ht in
      opening t' (new_request cmd principal fresh scope p) n refl tr ts
        (subst (λ z. Projects z u cmd.object_id purge_requested) (sym same) w)
  open_request-Step s t u cmd scope p (some r) request v e h w =
      let (_, h1) = >>-done _ _ h in
      let (t', ht, h2) = >>=-done _ _ h1 in
      let same : t' ≡ t = ap (λ z. z.1) (done-eq _ _ h2) in
      let (m, o) = first-found _ s.requests r e in
      let o' : cmd.object_id ≡ r.object_id = sym ((str_eq_iff _ _).0 o) in
      let (l, tr, ts) = update-replaces s t' _ r v.apart m refl ht in
      moving t' (renewed_request r cmd principal fresh scope p) r m refl refl refl l tr ts (
        subst (λ z. Projects t' u z purge_requested) o'
          (subst (λ z. Projects z u cmd.object_id purge_requested) (sym same) w))

  pub request_fresh-Step :
      (s t : PurgeStore) (cmd : RequestPurgeCommand) (scope : Scope) (res : RequestPurgeResult)
      → IsSound s
      → request_fresh x s cmd principal fresh scope ≡ done (res, t)
      → Step s t
  unfolding request_fresh
  request_fresh-Step s t cmd scope res v h =
      let (a, ha, h1) = >>=-done _ _ h in
      let (_, h2) = >>-done _ _ h1 in
      let (m, _, h3) = >>=-done _ _ h2 in
      let ((p, current), _, h4) = >>=-done _ _ h3 in
      let (_, h5) = >>-done _ _ h4 in
      let (_, h6) = >>-done _ _ h5 in
      let ((request, b), hb, h7) = >>=-done _ _ h6 in
      let (c, hc, h8) = >>=-done _ _ h7 in
      let (d, hd, h9) = >>=-done _ _ h8 in
      let same : d ≡ t = ap (λ z. z.1) (done-eq _ _ h9) in
      let f = reserve_key-Frame s a _ _ _ _ _ ha in
      subst (Step s) same
        (Step-after s a d f (opened a b c d p current request (Frame-IsSound s a f v) hb hc hd))
    where
      opened :
          (a b c d : PurgeStore) (p : RetentionPolicy) (current : LifecycleSnapshot)
          (request : EvidencePurgeRequest)
          → IsSound a
          → open_request x a cmd principal fresh scope p
              (purge_request_by_object_on a cmd.object_id)
            ≡ done (request, b)
          → (if is_empty current.policy_id
              then bind_retention x b cmd principal fresh scope p request.request_id
              else done b)
            ≡ done c
          → record_request x c cmd principal fresh scope p current request ≡ done d
          → Step a d
      opened a b c d p current request v hb hc hd =
          open_request-Step a b d cmd scope p _ request v refl hb (
            Projects-after b c d _ _ (bound-Frame (is_empty current.policy_id) b c cmd scope p _ hc)
              (record_request-Projects c d cmd scope p current request hd))
