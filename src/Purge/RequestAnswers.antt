-- ===== src/Purge/RequestAnswers.antt =====
-- The key that RequestPurge of internal/store/purge_store.go on a fresh key leaves behind.
use drenyra_engram.Base.{
  Str, Bool, true, false, Option, none, some, List, [], ◌∷◌, ◌≡◌, refl, sym, subst, inl, inr, All,
  In, is_empty, if◌then◌else◌, arith,
}
use drenyra_engram.Memory.{Scope}
use drenyra_engram.Auth.{VerifiedApprovalPrincipal}
use drenyra_engram.Retention.{RetentionPolicy}
use drenyra_engram.Purge.{
  EvidencePurgeRequest, LifecycleSnapshot, RequestPurgeCommand, RequestPurgeResult, done,
}
use drenyra_engram.Purge.Tables.{PurgeStore, Fresh, Platform}
use drenyra_engram.Purge.Reads.{purge_request_by_object_on}
use drenyra_engram.Purge.Writes.{
  upsert_retention_state_on, complete_purge_idempotency_on, reserve_key,
}
use drenyra_engram.Purge.Request.{
  request_purge_members, new_request, renewed_request, open_request, bind_retention, record_request,
  request_fresh,
}
use drenyra_engram.Purge.Rows.{>>=-done, >>-done, done-eq, first-found}
use drenyra_engram.Purge.Frames.{reserve_key-Frame}
use drenyra_engram.Purge.Keys.{
  Context, Context-trans, event-Context, receipt-Context, update-Context, insert-Context,
}
use drenyra_engram.Purge.Answers.{IsReadable, Answers, answers}

-- Every row has an id.
abbrev pub Named : List EvidencePurgeRequest → Type 0
Named = All (λ r. is_empty r.request_id ≡ false)

pub Named-at :
    (rs : List EvidencePurgeRequest) (r : EvidencePurgeRequest)
    → Named rs
    → In r rs
    → is_empty r.request_id ≡ false
Named-at [] r n m = absurd m
Named-at (q ∷ qs) r n (inl m) = subst (λ z. is_empty z.request_id ≡ false) m n.0
Named-at (q ∷ qs) r n (inr m) = Named-at qs r n.1 m

module _ (x : Platform) (laws : IsReadable x) (principal : VerifiedApprovalPrincipal)
    (fresh : Fresh) where
  open_request-Named :
      (s t : PurgeStore) (cmd : RequestPurgeCommand) (scope : Scope) (p : RetentionPolicy)
      (existing : Option EvidencePurgeRequest) (request : EvidencePurgeRequest)
      → is_empty fresh.request_uuid ≡ false
      → Named s.requests
      → purge_request_by_object_on s cmd.object_id ≡ existing
      → open_request x s cmd principal fresh scope p existing ≡ done (request, t)
      → (is_empty request.request_id ≡ false) × Context s t
  unfolding open_request purge_request_by_object_on new_request renewed_request
  open_request-Named s t cmd scope p none request u n e h =
      let (_, h1) = >>-done _ _ h in
      let (t', ht, h2) = >>=-done _ _ h1 in
      let same = done-eq _ _ h2 in
      (
        subst (λ z. is_empty z.0.request_id ≡ false) same u,
        subst (λ z. Context s z.1) same (insert-Context s t' _ ht),
      )
  open_request-Named s t cmd scope p (some r) request u n e h =
      let (_, h1) = >>-done _ _ h in
      let (t', ht, h2) = >>=-done _ _ h1 in
      let same = done-eq _ _ h2 in
      let (m, _) = first-found _ s.requests r e in
      (
        subst (λ z. is_empty z.0.request_id ≡ false) same (Named-at s.requests r n m),
        subst (λ z. Context s z.1) same (update-Context s t' _ ht),
      )

  bind_retention-Context :
      (c : Bool) (s t : PurgeStore) (cmd : RequestPurgeCommand) (scope : Scope)
      (p : RetentionPolicy) (id : Str)
      → (if c then bind_retention x s cmd principal fresh scope p id else done s) ≡ done t
      → Context s t
  unfolding bind_retention
  bind_retention-Context true s t cmd scope p id h =
      let (a, ha, h') = >>=-done _ _ h in
      Context-trans s a t (event-Context s a _ ha) (receipt-Context x.signs a t _ h')
  bind_retention-Context false s t cmd scope p id h = ground arith

  record_request-completes :
      (a t : PurgeStore) (cmd : RequestPurgeCommand) (scope : Scope) (p : RetentionPolicy)
      (current : LifecycleSnapshot) (request : EvidencePurgeRequest)
      → record_request x a cmd principal fresh scope p current request ≡ done t
      → (b : PurgeStore) × Context a b
        × (complete_purge_idempotency_on b scope.organization_id cmd.request_id request.request_id
              (x.encode_request request)
              fresh.now
            ≡ t)
  unfolding record_request upsert_retention_state_on
  record_request-completes a t cmd scope p current request h =
      let (b, hb, i1) = >>=-done _ _ h in
      let (c, hc, i2) = >>=-done _ _ i1 in
      (
        _,
        Context-trans a b c (event-Context a b _ hb) (receipt-Context x.signs b c _ hc),
        done-eq _ _ i2,
      )

  pub request_fresh-Answers :
      (s t : PurgeStore) (cmd : RequestPurgeCommand) (scope : Scope) (res : RequestPurgeResult)
      → is_empty fresh.request_uuid ≡ false
      → Named s.requests
      → request_fresh x s cmd principal fresh scope ≡ done (res, t)
      → Answers s t scope.organization_id cmd.request_id
          (x.fingerprint (request_purge_members cmd))
          principal.subject_id
          (x.encode_request res.request)
  unfolding request_fresh
  request_fresh-Answers s t cmd scope res u n h =
      let (a, ha, h1) = >>=-done _ _ h in
      let (_, h2) = >>-done _ _ h1 in
      let (m, _, h3) = >>=-done _ _ h2 in
      let ((p, current), _, h4) = >>=-done _ _ h3 in
      let (_, h5) = >>-done _ _ h4 in
      let (_, h6) = >>-done _ _ h5 in
      let ((request, b), hb, h7) = >>=-done _ _ h6 in
      let (c, hc, h8) = >>=-done _ _ h7 in
      let (d, hd, h9) = >>=-done _ _ h8 in
      subst
        (λ z.
          Answers s z.1 scope.organization_id cmd.request_id
            (x.fingerprint (request_purge_members cmd)) principal.subject_id
            (x.encode_request z.0.request))
        (done-eq _ _ h9)
        (opened a b c d p current request ha
          (subst Named (sym (reserve_key-Frame s a _ _ _ _ _ ha).0) n) hb hc hd)
    where
      opened :
          (a b c d : PurgeStore) (p : RetentionPolicy) (current : LifecycleSnapshot)
          (request : EvidencePurgeRequest)
          → reserve_key s scope.organization_id cmd.request_id
              (x.fingerprint (request_purge_members cmd))
              principal.subject_id
              fresh.now
            ≡ done a
          → Named a.requests
          → open_request x a cmd principal fresh scope p
              (purge_request_by_object_on a cmd.object_id)
            ≡ done (request, b)
          → (if is_empty current.policy_id
              then bind_retention x b cmd principal fresh scope p request.request_id
              else done b)
            ≡ done c
          → record_request x c cmd principal fresh scope p current request ≡ done d
          → Answers s d scope.organization_id cmd.request_id
              (x.fingerprint (request_purge_members cmd))
              principal.subject_id
              (x.encode_request request)
      opened a b c d p current request ha n hb hc hd =
          let (e, w) = open_request-Named a b cmd scope p _ request u n refl hb in
          let w' = bind_retention-Context (is_empty current.policy_id) b c cmd scope p _ hc in
          let (f, w'', same) = record_request-completes c d cmd scope p current request hd in
          subst
            (λ z.
              Answers s z scope.organization_id cmd.request_id
                (x.fingerprint (request_purge_members cmd)) principal.subject_id
                (x.encode_request request))
            same
            (answers s a f scope.organization_id cmd.request_id
              (x.fingerprint (request_purge_members cmd)) principal.subject_id fresh.now
              request.request_id (x.encode_request request) ha
              (Context-trans a b f w (Context-trans b c f w' w'')) e (laws.request_json request))
