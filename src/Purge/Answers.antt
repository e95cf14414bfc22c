-- ===== src/Purge/Answers.antt =====
-- The key that a command of internal/store/purge_store.go on a fresh key leaves behind.
use drenyra_engram.Base.{
  Str, Bool, true, false, Option, none, some, List, ◌≡◌, refl, sym, ap, subst, ◌∙◌, is_empty,
  if◌then◌else◌, arith,
}
use drenyra_engram.Base.Int.{ℤ}
use drenyra_engram.Auth.{VerifiedApprovalPrincipal}
use drenyra_engram.Retention.{RetentionPolicy}
use drenyra_engram.Purge.{
  PurgeRequestStatus, EvidencePurgeRequest, EvidencePurgeApproval, LifecycleSnapshot, PurgeError,
  ApprovePurgeCommand, ApprovePurgeResult, RejectPurgeCommand, RejectPurgeResult,
  CancelPurgeCommand, CancelPurgeResult, WithdrawPurgeCommand, WithdrawPurgeResult, Attempt, done,
}
use drenyra_engram.Purge.Tables.{PurgeStore, Fresh, Platform}
use drenyra_engram.Purge.Reads.{replay_purge_idempotency_on}
use drenyra_engram.Purge.Writes.{
  reserve_key, update_purge_request, upsert_retention_state_on, complete_purge_idempotency_on,
}
use drenyra_engram.Purge.Approve.{
  approve_purge_members, is_complete, record_approval, approve_fresh,
}
use drenyra_engram.Purge.Close.{Transition, flip_status, close_purge_transition}
use drenyra_engram.Purge.Closing.{
  reject_purge_members, reject_fresh, cancel_purge_members, cancel_fresh, withdraw_purge_members,
  withdraw_fresh,
}
use drenyra_engram.Purge.Rows.{>>=-done, >>-done, done-eq}
use drenyra_engram.Purge.Keys.{
  Context, Context-trans, event-Context, approval-Context, decision-Context, receipt-Context,
  update-Context, reserve_key-adds, completed-answers,
}

-- encoding/json decodes what it wrote, and never writes the empty string.
pub record IsReadable (x : Platform) : Type 0 where
  pub reads_request : (r : EvidencePurgeRequest) → ¬ (x.decode_request (x.encode_request r) ≡ none)
  pub reads_approve : (r : ApprovePurgeResult) → ¬ (x.decode_approve (x.encode_approve r) ≡ none)
  pub reads_reject : (r : RejectPurgeResult) → ¬ (x.decode_reject (x.encode_reject r) ≡ none)
  pub reads_cancel : (r : CancelPurgeResult) → ¬ (x.decode_cancel (x.encode_cancel r) ≡ none)
  pub reads_withdraw :
      (r : WithdrawPurgeResult) → ¬ (x.decode_withdraw (x.encode_withdraw r) ≡ none)
  pub request_json : (r : EvidencePurgeRequest) → is_empty (x.encode_request r) ≡ false
  pub approve_json : (r : ApprovePurgeResult) → is_empty (x.encode_approve r) ≡ false
  pub reject_json : (r : RejectPurgeResult) → is_empty (x.encode_reject r) ≡ false
  pub cancel_json : (r : CancelPurgeResult) → is_empty (x.encode_cancel r) ≡ false
  pub withdraw_json : (r : WithdrawPurgeResult) → is_empty (x.encode_withdraw r) ≡ false

-- The key answers a result, and the objects are as they were.
abbrev pub Answers : PurgeStore → PurgeStore → Str → Str → Str → Str → Str → Type 0
Answers s t tenant id hash actor json =
    (replay_purge_idempotency_on t tenant id hash actor ≡ done (some json))
    × (t.objects ≡ s.objects)

-- The key that is completed after writes elsewhere.
pub answers :
    (s a b : PurgeStore) (tenant id hash actor now entity json : Str)
    → reserve_key s tenant id hash actor now ≡ done a
    → Context a b
    → is_empty entity ≡ false
    → is_empty json ≡ false
    → Answers s
        (complete_purge_idempotency_on b tenant id entity json now)
        tenant
        id
        hash
        actor
        json
unfolding complete_purge_idempotency_on
answers s a b tenant id hash actor now entity json h c e j = (
  unfold complete_purge_idempotency_on in
      completed-answers s a b tenant id hash actor now entity json h c e j,
  c.1 ∙ (reserve_key-adds s a tenant id hash actor now h).1,
)

flip_status-Context :
    (s t : PurgeStore) (r q : EvidencePurgeRequest) (st : Option PurgeRequestStatus)
    → flip_status s r st ≡ done (q, t)
    → Context s t
unfolding flip_status
flip_status-Context s t r q none h =
    let same : s ≡ t = ap (λ z. z.1) (done-eq _ _ h) in
    (ap (λ z. z.keys) (sym same), ap (λ z. z.objects) (sym same))
flip_status-Context s t r q (some st) h =
    let (u, hu, h1) = >>=-done _ _ h in
    let same : u ≡ t = ap (λ z. z.1) (done-eq _ _ h1) in
    subst (Context s) same (update-Context s u _ hu)

completing-Context :
    (c : Bool) (s t : PurgeStore) (r : EvidencePurgeRequest)
    → (if c then update_purge_request s r else done s) ≡ done t
    → Context s t
completing-Context true s t r h = update-Context s t r h
completing-Context false s t r h = ground arith

close-reserved :
    (x : Platform) (s t : PurgeStore) (request updated : EvidencePurgeRequest) (key hash : Str)
    (principal : VerifiedApprovalPrincipal) (fresh : Fresh) (kinds : List Str)
    (authorized : Attempt (Unit {0})) (gate : PurgeRequestStatus → Option PurgeError)
    (transition : LifecycleSnapshot → Transition) (decision : Option EvidencePurgeApproval)
    → close_purge_transition x s request key hash principal fresh kinds authorized gate transition
      ≡ done (updated, decision, t)
    → (a : PurgeStore) × (reserve_key s request.tenant_id key hash principal.subject_id fresh.now
        ≡ done a)
      × Context a t
unfolding close_purge_transition upsert_retention_state_on
close-reserved x s t request updated key hash principal fresh kinds authorized gate transition
      decision h =
    let (a, ha, h1) = >>=-done _ _ h in
    let (_, h2) = >>-done _ _ h1 in
    let (_, h3) = >>-done _ _ h2 in
    let (current, _, h4) = >>=-done _ _ h3 in
    let ((r, b), hb, h5) = >>=-done _ _ h4 in
    let (c, hc, h6) = >>=-done _ _ h5 in
    let (d, hd, h7) = >>=-done _ _ h6 in
    let (e, he, h8) = >>=-done _ _ h7 in
    let w = Context-trans a b e (flip_status-Context a b request r _ hb) (
      Context-trans b c e (decision-Context b c _ hc)
        (Context-trans c d e (event-Context c d _ hd) (receipt-Context x.signs d e _ he))) in
    (a, ha, subst (Context a) (ap (λ z. z.2) (done-eq _ _ h8)) w)

module _ (x : Platform) (laws : IsReadable x) (principal : VerifiedApprovalPrincipal)
    (fresh : Fresh) where
  -- What `record_approval` completes.
  record_approval-completes :
      (a t : PurgeStore) (cmd : ApprovePurgeCommand) (r : EvidencePurgeRequest)
      (p : RetentionPolicy) (current : LifecycleSnapshot) (order : ℤ) (res : ApprovePurgeResult)
      → record_approval x a cmd principal fresh r p current order ≡ done (res, t)
      → (b : PurgeStore) × Context a b
        × (complete_purge_idempotency_on b r.tenant_id cmd.request_id_key r.request_id
              (x.encode_approve res)
              fresh.now
            ≡ t)
  unfolding record_approval upsert_retention_state_on
  record_approval-completes a t cmd r p current order res h =
      let (b, hb, i1) = >>=-done _ _ h in
      let (c, hc, i2) = >>=-done _ _ i1 in
      let (d, hd, i3) = >>=-done _ _ i2 in
      let (f, hf, i4) = >>=-done _ _ i3 in
      let same = done-eq _ _ i4 in
      let w = Context-trans a b f (approval-Context a b _ hb) (
        Context-trans b c f (completing-Context (is_complete p order) b c _ hc)
          (Context-trans c d f (event-Context c d _ hd) (receipt-Context x.signs d f _ hf))) in
      subst
        (λ z.
          (b : PurgeStore) × Context a b
          × (complete_purge_idempotency_on b r.tenant_id cmd.request_id_key r.request_id
                (x.encode_approve z.0) fresh.now
              ≡ z.1))
        same (_, w, refl)

  pub approve_fresh-Answers :
      (s t : PurgeStore) (cmd : ApprovePurgeCommand) (r : EvidencePurgeRequest)
      (res : ApprovePurgeResult)
      → is_empty r.request_id ≡ false
      → approve_fresh x s cmd principal fresh r ≡ done (res, t)
      → Answers s t r.tenant_id cmd.request_id_key
          (x.fingerprint (approve_purge_members cmd))
          principal.subject_id
          (x.encode_approve res)
  unfolding approve_fresh
  approve_fresh-Answers s t cmd r res e h =
      let (a, ha, h1) = >>=-done _ _ h in
      let (_, h2) = >>-done _ _ h1 in
      let (_, h3) = >>-done _ _ h2 in
      let (_, _, h4) = >>=-done _ _ h3 in
      let (_, _, h5) = >>=-done _ _ h4 in
      let ((p, current), _, h6) = >>=-done _ _ h5 in
      let (turn, _, h7) = >>=-done _ _ h6 in
      let (_, h8) = >>-done _ _ h7 in
      let (b, w, same) = record_approval-completes a t cmd r p current turn.order res h8 in
      subst
        (λ z.
          Answers s z r.tenant_id cmd.request_id_key (x.fingerprint (approve_purge_members cmd))
            principal.subject_id (x.encode_approve res))
        same
        (answers s a b r.tenant_id cmd.request_id_key (x.fingerprint (approve_purge_members cmd))
          principal.subject_id fresh.now r.request_id (x.encode_approve res) ha w e
          (laws.approve_json res))

  pub reject_fresh-Answers :
      (s t : PurgeStore) (cmd : RejectPurgeCommand) (r : EvidencePurgeRequest)
      (res : RejectPurgeResult)
      → is_empty r.request_id ≡ false
      → reject_fresh x s cmd principal fresh r ≡ done (res, t)
      → Answers s t r.tenant_id cmd.request_id_key
          (x.fingerprint (reject_purge_members cmd))
          principal.subject_id
          (x.encode_reject res)
  unfolding reject_fresh
  reject_fresh-Answers s t cmd r res e h =
      let (_, _, h1) = >>=-done _ _ h in
      let ((updated, decision, b), hb, h2) = >>=-done _ _ h1 in
      let (_, _, h3) = >>=-done _ _ h2 in
      let (a, ha, w) = close-reserved x s b r updated _ _ principal fresh _ _ _ _ decision hb in
      subst
        (λ z.
          Answers s z.1 r.tenant_id cmd.request_id_key (x.fingerprint (reject_purge_members cmd))
            principal.subject_id (x.encode_reject z.0))
        (done-eq _ _ h3)
        (answers s a b r.tenant_id cmd.request_id_key _ principal.subject_id fresh.now r.request_id
          _ ha w e (laws.reject_json _))

  pub cancel_fresh-Answers :
      (s t : PurgeStore) (cmd : CancelPurgeCommand) (r : EvidencePurgeRequest)
      (res : CancelPurgeResult)
      → is_empty r.request_id ≡ false
      → cancel_fresh x s cmd principal fresh r ≡ done (res, t)
      → Answers s t r.tenant_id cmd.request_id_key
          (x.fingerprint (cancel_purge_members cmd))
          principal.subject_id
          (x.encode_cancel res)
  unfolding cancel_fresh
  cancel_fresh-Answers s t cmd r res e h =
      let (_, _, h1) = >>=-done _ _ h in
      let ((updated, decision, b), hb, h2) = >>=-done _ _ h1 in
      let (a, ha, w) = close-reserved x s b r updated _ _ principal fresh _ _ _ _ decision hb in
      subst
        (λ z.
          Answers s z.1 r.tenant_id cmd.request_id_key (x.fingerprint (cancel_purge_members cmd))
            principal.subject_id (x.encode_cancel z.0))
        (done-eq _ _ h2)
        (answers s a b r.tenant_id cmd.request_id_key _ principal.subject_id fresh.now r.request_id
          _ ha w e (laws.cancel_json _))

  pub withdraw_fresh-Answers :
      (s t : PurgeStore) (cmd : WithdrawPurgeCommand) (r : EvidencePurgeRequest)
      (res : WithdrawPurgeResult)
      → is_empty r.request_id ≡ false
      → withdraw_fresh x s cmd principal fresh r ≡ done (res, t)
      → Answers s t r.tenant_id cmd.request_id_key
          (x.fingerprint (withdraw_purge_members cmd))
          principal.subject_id
          (x.encode_withdraw res)
  unfolding withdraw_fresh
  withdraw_fresh-Answers s t cmd r res e h =
      let (_, _, h1) = >>=-done _ _ h in
      let ((updated, decision, b), hb, h2) = >>=-done _ _ h1 in
      let (_, _, h3) = >>=-done _ _ h2 in
      let (a, ha, w) = close-reserved x s b r updated _ _ principal fresh _ _ _ _ decision hb in
      subst
        (λ z.
          Answers s z.1 r.tenant_id cmd.request_id_key (x.fingerprint (withdraw_purge_members cmd))
            principal.subject_id (x.encode_withdraw z.0))
        (done-eq _ _ h3)
        (answers s a b r.tenant_id cmd.request_id_key _ principal.subject_id fresh.now r.request_id
          _ ha w e (laws.withdraw_json _))
