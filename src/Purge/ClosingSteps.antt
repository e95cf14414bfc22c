-- ===== src/Purge/ClosingSteps.antt =====
-- RejectPurge, CancelPurge and WithdrawPurge of internal/store/purge_store.go make steps.
use drenyra_engram.Base.{
  Str, str_eq, true, none, some, ◌≡◌, refl, ap, subst, inl, inr, In, Option-cases, arith,
}
use drenyra_engram.Auth.{VerifiedApprovalPrincipal}
use drenyra_engram.Purge.{
  PurgeRequestStatus, rejected, withdrawn, cancelled, EvidencePurgeRequest, event_rejected,
  event_cancelled, event_withdrawn, RejectPurgeCommand, RejectPurgeResult, CancelPurgeCommand,
  CancelPurgeResult, WithdrawPurgeCommand, WithdrawPurgeResult, done,
}
use drenyra_engram.Purge.Tables.{PurgeStore, Fresh, Platform, first}
use drenyra_engram.Purge.Reads.{purge_request_by_id_on}
use drenyra_engram.Purge.Writes.{complete_purge_idempotency_on}
use drenyra_engram.Purge.Close.{
  closed_status, reject_gate, cancel_gate, withdraw_gate, reject_transition, cancel_transition,
  withdraw_transition, closing_event,
}
use drenyra_engram.Purge.Closing.{reject_fresh, cancel_fresh, withdraw_fresh}
use drenyra_engram.Purge.Rows.{state_of, >>=-done, done-eq, first-found}
use drenyra_engram.Purge.Agreement.{IsSound}
use drenyra_engram.Purge.Steps.{Step, idle, projecting, opening, moving}
use drenyra_engram.Purge.CloseSteps.{close-Step}

-- The completed key leaves requests and projection as they are.
completed-Step :
    (s t : PurgeStore) (a b c d e : Str)
    → Step s t
    → Step s (complete_purge_idempotency_on t a b c d e)
unfolding complete_purge_idempotency_on
completed-Step s t a b c d e (idle f) = idle f
completed-Step s t a b c d e (projecting r m w) = projecting r m w
completed-Step s t a b c d e (opening u r n q ur us w) = opening u r n q ur us w
completed-Step s t a b c d e (moving u r r0 m i o n l ur us w) = moving u r r0 m i o n l ur us w

pub by_id-In :
    (s : PurgeStore) (id : Str) (r : EvidencePurgeRequest)
    → purge_request_by_id_on s id ≡ done r
    → In r s.requests × (str_eq r.request_id id ≡ true)
unfolding purge_request_by_id_on
by_id-In s id r h = elim (Option-cases (first (λ r. str_eq r.request_id id) s.requests)) [
  | inl n ↦ absurd (ground arith)
  | inr (q, e) ↦ first-found (λ r. str_eq r.request_id id) s.requests r (ground arith)
]

-- A gate that passes, and the status that the transition then flips to.
reject-flips :
    (st : PurgeRequestStatus)
    → reject_gate st ≡ none
    → closed_status st event_rejected ≡ some rejected
unfolding reject_gate closed_status
reject-flips st h = ground arith

cancel-flips :
    (st : PurgeRequestStatus)
    → cancel_gate st ≡ none
    → closed_status st event_cancelled ≡ some cancelled
unfolding cancel_gate closed_status
cancel-flips st h = ground arith

withdraw-flips :
    (st : PurgeRequestStatus)
    → withdraw_gate st ≡ none
    → closed_status st event_withdrawn ≡ some withdrawn
unfolding withdraw_gate closed_status
withdraw-flips st h = ground arith

module _ (x : Platform) (principal : VerifiedApprovalPrincipal) (fresh : Fresh) where
  pub reject_fresh-Step :
      (s t : PurgeStore) (cmd : RejectPurgeCommand) (r : EvidencePurgeRequest)
      (res : RejectPurgeResult)
      → IsSound s
      → In r s.requests
      → reject_fresh x s cmd principal fresh r ≡ done (res, t)
      → Step s t
  unfolding reject_fresh reject_transition closing_event state_of
  reject_fresh-Step s t cmd r res v m h =
      let (bound, _, h1) = >>=-done _ _ h in
      let ((updated, decision, a), ha, h2) = >>=-done _ _ h1 in
      let (approval, _, h3) = >>=-done _ _ h2 in
      subst (Step s) (ap (λ z. z.1) (done-eq _ _ h3)) (
        completed-Step s a _ _ _ _ _ (
          close-Step x s a r updated _ _ principal fresh _ _ _ _ decision v m
            (λ current g. (rejected, reject-flips r.status g, refl)) ha))

  pub cancel_fresh-Step :
      (s t : PurgeStore) (cmd : CancelPurgeCommand) (r : EvidencePurgeRequest)
      (res : CancelPurgeResult)
      → IsSound s
      → In r s.requests
      → cancel_fresh x s cmd principal fresh r ≡ done (res, t)
      → Step s t
  unfolding cancel_fresh cancel_transition closing_event state_of
  cancel_fresh-Step s t cmd r res v m h =
      let (bound, _, h1) = >>=-done _ _ h in
      let ((updated, decision, a), ha, h2) = >>=-done _ _ h1 in
      subst (Step s) (ap (λ z. z.1) (done-eq _ _ h2)) (
        completed-Step s a _ _ _ _ _ (
          close-Step x s a r updated _ _ principal fresh _ _ _ _ decision v m
            (λ current g. (cancelled, cancel-flips r.status g, refl)) ha))

  pub withdraw_fresh-Step :
      (s t : PurgeStore) (cmd : WithdrawPurgeCommand) (r : EvidencePurgeRequest)
      (res : WithdrawPurgeResult)
      → IsSound s
      → In r s.requests
      → withdraw_fresh x s cmd principal fresh r ≡ done (res, t)
      → Step s t
  unfolding withdraw_fresh withdraw_transition closing_event state_of
  withdraw_fresh-Step s t cmd r res v m h =
      let (bound, _, h1) = >>=-done _ _ h in
      let ((updated, decision, a), ha, h2) = >>=-done _ _ h1 in
      let (approval, _, h3) = >>=-done _ _ h2 in
      subst (Step s) (ap (λ z. z.1) (done-eq _ _ h3)) (
        completed-Step s a _ _ _ _ _ (
          close-Step x s a r updated _ _ principal fresh _ _ _ _ decision v m
            (λ current g. (withdrawn, withdraw-flips r.status g, refl)) ha))
