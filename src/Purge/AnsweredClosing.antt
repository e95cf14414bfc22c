-- ===== src/Purge/AnsweredClosing.antt =====
-- RejectPurge, CancelPurge and WithdrawPurge of internal/store/purge_store.go leave a key that answers
-- them.
use drenyra_engram.Base.{Str, Option, none, some, ◌≡◌, sym, subst}
use drenyra_engram.Auth.{VerifiedApprovalPrincipal}
use drenyra_engram.Purge.{
  EvidencePurgeRequest, RejectPurgeCommand, RejectPurgeResult, CancelPurgeCommand,
  CancelPurgeResult, WithdrawPurgeCommand, WithdrawPurgeResult, done,
}
use drenyra_engram.Purge.Validate.{
  assert_valid_reject_purge_command, assert_valid_cancel_purge_command,
  assert_valid_withdraw_purge_command,
}
use drenyra_engram.Purge.Tables.{PurgeStore, Fresh, Platform}
use drenyra_engram.Purge.Reads.{purge_request_by_id_on}
use drenyra_engram.Purge.Closing.{
  reject_fresh, replay_reject, reject_purge, cancel_fresh, replay_cancel, cancel_purge,
  withdraw_fresh, replay_withdraw, withdraw_purge,
}
use drenyra_engram.Purge.Commands.{rejecting, cancelling, withdrawing}
use drenyra_engram.Purge.Rows.{>>=-done, >>-done}
use drenyra_engram.Purge.Agreement.{IsSound}
use drenyra_engram.Purge.ClosingSteps.{
  by_id-In, reject_fresh-Step, cancel_fresh-Step, withdraw_fresh-Step,
}
use drenyra_engram.Purge.Sound.{replay_reject-same, replay_cancel-same, replay_withdraw-same}
use drenyra_engram.Purge.Idempotency.{key_of, members_of, answer_of}
use drenyra_engram.Purge.Keys.{still_found}
use drenyra_engram.Purge.Answers.{
  IsReadable, reject_fresh-Answers, cancel_fresh-Answers, withdraw_fresh-Answers,
}
use drenyra_engram.Purge.RequestAnswers.{Named, Named-at}
use drenyra_engram.Purge.Decoding.{
  replay_reject-decodes, replay_cancel-decodes, replay_withdraw-decodes, tenant_rejecting,
  tenant_cancelling, tenant_withdrawing,
}
use drenyra_engram.Purge.Answered.{IsAnswered}

module _ (x : Platform) (laws : IsReadable x) (principal : VerifiedApprovalPrincipal)
    (fresh : Fresh) where
  pub reject_purge-IsAnswered :
      (s t : PurgeStore) (cmd : RejectPurgeCommand) (res : RejectPurgeResult)
      → IsSound s
      → Named s.requests
      → reject_purge x s cmd principal fresh ≡ done (res, t)
      → IsAnswered x t (rejecting cmd) principal
  unfolding reject_purge answer_of key_of members_of
  reject_purge-IsAnswered s t cmd res v n h =
      let (valid, h1) = >>-done _ _ h in
      let (r, found, h2) = >>=-done _ _ h1 in
      let (replayed, k, h3) = >>=-done _ _ h2 in go valid r found replayed k h3
    where
      go :
          assert_valid_reject_purge_command cmd ≡ done tt
          → (r : EvidencePurgeRequest) → purge_request_by_id_on s cmd.request_id ≡ done r
          → (o : Option Str) → answer_of x s (rejecting cmd) principal r.tenant_id ≡ done o
          → (elim o [
            | some json ↦ replay_reject x s json
            | none ↦ reject_fresh x s cmd principal fresh r
          ])
            ≡ done (res, t)
          → IsAnswered x t (rejecting cmd) principal
      go valid r found (some json) k h =
          subst (λ z. IsAnswered x z (rejecting cmd) principal)
            (replay_reject-same x principal fresh s t json res h)
            (
              r.tenant_id,
              json,
              tenant_rejecting s cmd r valid found,
              k,
              replay_reject-decodes x s t json res h,
            )
      go valid r found none k h =
          let (m, _) = by_id-In s cmd.request_id r found in
          let (a, o) =
            reject_fresh-Answers x laws principal fresh s t cmd r res (Named-at s.requests r n m)
              h in
          let w = reject_fresh-Step x principal fresh s t cmd r res v m h in
          let (q, f, e, i) = still_found s t cmd.request_id r v w found in
          (
            q.tenant_id,
            x.encode_reject res,
            tenant_rejecting t cmd q valid f,
            subst
                (λ z. answer_of x t (rejecting cmd) principal z ≡ done (some (x.encode_reject res)))
                (sym e) a,
            laws.reads_reject res,
          )

  pub cancel_purge-IsAnswered :
      (s t : PurgeStore) (cmd : CancelPurgeCommand) (res : CancelPurgeResult)
      → IsSound s
      → Named s.requests
      → cancel_purge x s cmd principal fresh ≡ done (res, t)
      → IsAnswered x t (cancelling cmd) principal
  unfolding cancel_purge answer_of key_of members_of
  cancel_purge-IsAnswered s t cmd res v n h =
      let (valid, h1) = >>-done _ _ h in
      let (r, found, h2) = >>=-done _ _ h1 in
      let (replayed, k, h3) = >>=-done _ _ h2 in go valid r found replayed k h3
    where
      go :
          assert_valid_cancel_purge_command cmd ≡ done tt
          → (r : EvidencePurgeRequest) → purge_request_by_id_on s cmd.request_id ≡ done r
          → (o : Option Str) → answer_of x s (cancelling cmd) principal r.tenant_id ≡ done o
          → (elim o [
            | some json ↦ replay_cancel x s json
            | none ↦ cancel_fresh x s cmd principal fresh r
          ])
            ≡ done (res, t)
          → IsAnswered x t (cancelling cmd) principal
      go valid r found (some json) k h =
          subst (λ z. IsAnswered x z (cancelling cmd) principal)
            (replay_cancel-same x principal fresh s t json res h)
            (
              r.tenant_id,
              json,
              tenant_cancelling s cmd r valid found,
              k,
              replay_cancel-decodes x s t json res h,
            )
      go valid r found none k h =
          let (m, _) = by_id-In s cmd.request_id r found in
          let (a, o) =
            cancel_fresh-Answers x laws principal fresh s t cmd r res (Named-at s.requests r n m)
              h in
          let w = cancel_fresh-Step x principal fresh s t cmd r res v m h in
          let (q, f, e, i) = still_found s t cmd.request_id r v w found in
          (
            q.tenant_id,
            x.encode_cancel res,
            tenant_cancelling t cmd q valid f,
            subst
                (λ z.
                  answer_of x t (cancelling cmd) principal z ≡ done (some (x.encode_cancel res)))
                (sym e) a,
            laws.reads_cancel res,
          )

  pub withdraw_purge-IsAnswered :
      (s t : PurgeStore) (cmd : WithdrawPurgeCommand) (res : WithdrawPurgeResult)
      → IsSound s
      → Named s.requests
      → withdraw_purge x s cmd principal fresh ≡ done (res, t)
      → IsAnswered x t (withdrawing cmd) principal
  unfolding withdraw_purge answer_of key_of members_of
  withdraw_purge-IsAnswered s t cmd res v n h =
      let (valid, h1) = >>-done _ _ h in
      let (r, found, h2) = >>=-done _ _ h1 in
      let (replayed, k, h3) = >>=-done _ _ h2 in go valid r found replayed k h3
    where
      go :
          assert_valid_withdraw_purge_command cmd ≡ done tt
          → (r : EvidencePurgeRequest) → purge_request_by_id_on s cmd.request_id ≡ done r
          → (o : Option Str) → answer_of x s (withdrawing cmd) principal r.tenant_id ≡ done o
          → (elim o [
            | some json ↦ replay_withdraw x s json
            | none ↦ withdraw_fresh x s cmd principal fresh r
          ])
            ≡ done (res, t)
          → IsAnswered x t (withdrawing cmd) principal
      go valid r found (some json) k h =
          subst (λ z. IsAnswered x z (withdrawing cmd) principal)
            (replay_withdraw-same x principal fresh s t json res h)
            (
              r.tenant_id,
              json,
              tenant_withdrawing s cmd r valid found,
              k,
              replay_withdraw-decodes x s t json res h,
            )
      go valid r found none k h =
          let (m, _) = by_id-In s cmd.request_id r found in
          let (a, o) =
            withdraw_fresh-Answers x laws principal fresh s t cmd r res (Named-at s.requests r n m)
              h in
          let w = withdraw_fresh-Step x principal fresh s t cmd r res v m h in
          let (q, f, e, i) = still_found s t cmd.request_id r v w found in
          (
            q.tenant_id,
            x.encode_withdraw res,
            tenant_withdrawing t cmd q valid f,
            subst
                (λ z.
                  answer_of x t (withdrawing cmd) principal z ≡ done (some (x.encode_withdraw res)))
                (sym e) a,
            laws.reads_withdraw res,
          )
