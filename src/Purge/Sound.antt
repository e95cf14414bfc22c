-- ===== src/Purge/Sound.antt =====
-- Every command of internal/store/purge_store.go keeps the store sound, and so does every run of them.
use drenyra_engram.Base.{
  Str, Option, none, some, List, [], ◌∷◌, ◌≡◌, refl, sym, ap, inl, inr, In, Option-cases, arith,
}
use drenyra_engram.Memory.{Scope}
use drenyra_engram.Auth.{VerifiedApprovalPrincipal}
use drenyra_engram.Purge.{
  EvidencePurgeRequest, RequestPurgeCommand, RequestPurgeResult, ApprovePurgeCommand,
  ApprovePurgeResult, RejectPurgeCommand, RejectPurgeResult, CancelPurgeCommand, CancelPurgeResult,
  WithdrawPurgeCommand, WithdrawPurgeResult, Attempt, done, failed, ◌>>=◌,
}
use drenyra_engram.Purge.Tables.{PurgeStore, Fresh, Platform}
use drenyra_engram.Purge.Request.{replay_request, request_fresh, request_purge}
use drenyra_engram.Purge.Approve.{replay_approve, approve_fresh, approve_purge}
use drenyra_engram.Purge.Closing.{
  reject_fresh, replay_reject, reject_purge, cancel_fresh, replay_cancel, cancel_purge,
  withdraw_fresh, replay_withdraw, withdraw_purge,
}
use drenyra_engram.Purge.Commands.{
  PurgeCommand, requesting, approving, rejecting, cancelling, withdrawing, Call, committed, execute,
  after, run,
}
use drenyra_engram.Purge.Rows.{>>=-done, >>-done, done-eq}
use drenyra_engram.Purge.Agreement.{IsSound}
use drenyra_engram.Purge.Frames.{Frame}
use drenyra_engram.Purge.Steps.{Step, idle, Step-IsSound}
use drenyra_engram.Purge.RequestSteps.{request_fresh-Step}
use drenyra_engram.Purge.ApproveSteps.{approve_fresh-Step}
use drenyra_engram.Purge.ClosingSteps.{
  by_id-In, reject_fresh-Step, cancel_fresh-Step, withdraw_fresh-Step,
}

same-Frame : (s t : PurgeStore) → s ≡ t → Frame s t
same-Frame s t e = (ap (λ z. z.requests) (sym e), ap (λ z. z.states) (sym e))

module _ (x : Platform) (principal : VerifiedApprovalPrincipal) (fresh : Fresh) where
  pub replay_request-same :
      (s t : PurgeStore) (json : Str) (res : RequestPurgeResult)
      → replay_request x s json ≡ done (res, t)
      → s ≡ t
  unfolding replay_request
  replay_request-same s t json res h = elim (Option-cases (x.decode_request json)) [
    | inl e ↦ absurd (ground arith)
    | inr (a, e) ↦ ground arith
  ]

  request_purge-Step :
      (s t : PurgeStore) (cmd : RequestPurgeCommand) (res : RequestPurgeResult)
      → IsSound s
      → request_purge x s cmd principal fresh ≡ done (res, t)
      → Step s t
  unfolding request_purge
  request_purge-Step s t cmd res v h =
      let (_, h1) = >>-done _ _ h in
      let (scope, _, h2) = >>=-done _ _ h1 in
      let (replayed, _, h3) = >>=-done _ _ h2 in go scope replayed h3
    where
      go :
          (scope : Scope)
          → (o : Option Str)
          → (elim o [
            | some json ↦ replay_request x s json
            | none ↦ request_fresh x s cmd principal fresh scope
          ])
            ≡ done (res, t)
          → Step s t
      go scope (some json) h = idle (same-Frame s t (replay_request-same s t json res h))
      go scope none h = request_fresh-Step x principal fresh s t cmd scope res v h

  pub replay_approve-same :
      (s t : PurgeStore) (json : Str) (res : ApprovePurgeResult)
      → replay_approve x s json ≡ done (res, t)
      → s ≡ t
  unfolding replay_approve
  replay_approve-same s t json res h = elim (Option-cases (x.decode_approve json)) [
    | inl e ↦ absurd (ground arith)
    | inr (a, e) ↦ ground arith
  ]

  approve_purge-Step :
      (s t : PurgeStore) (cmd : ApprovePurgeCommand) (res : ApprovePurgeResult)
      → IsSound s
      → approve_purge x s cmd principal fresh ≡ done (res, t)
      → Step s t
  unfolding approve_purge
  approve_purge-Step s t cmd res v h =
      let (_, h1) = >>-done _ _ h in
      let (r, found, h2) = >>=-done _ _ h1 in
      let (_, h2') = >>-done _ _ h2 in
      let (replayed, _, h3) = >>=-done _ _ h2' in
      go r (by_id-In s cmd.request_id r found).0 replayed h3
    where
      go :
          (r : EvidencePurgeRequest)
          → In r s.requests
          → (o : Option Str)
          → (elim o [
            | some json ↦ replay_approve x s json
            | none ↦ approve_fresh x s cmd principal fresh r
          ])
            ≡ done (res, t)
          → Step s t
      go r m (some json) h = idle (same-Frame s t (replay_approve-same s t json res h))
      go r m none h = approve_fresh-Step x principal fresh s t cmd r res v m h

  pub replay_reject-same :
      (s t : PurgeStore) (json : Str) (res : RejectPurgeResult)
      → replay_reject x s json ≡ done (res, t)
      → s ≡ t
  unfolding replay_reject
  replay_reject-same s t json res h = elim (Option-cases (x.decode_reject json)) [
    | inl e ↦ absurd (ground arith)
    | inr (a, e) ↦ ground arith
  ]

  reject_purge-Step :
      (s t : PurgeStore) (cmd : RejectPurgeCommand) (res : RejectPurgeResult)
      → IsSound s
      → reject_purge x s cmd principal fresh ≡ done (res, t)
      → Step s t
  unfolding reject_purge
  reject_purge-Step s t cmd res v h =
      let (_, h1) = >>-done _ _ h in
      let (r, found, h2) = >>=-done _ _ h1 in
      let (replayed, _, h3) = >>=-done _ _ h2 in
      go r (by_id-In s cmd.request_id r found).0 replayed h3
    where
      go :
          (r : EvidencePurgeRequest)
          → In r s.requests
          → (o : Option Str)
          → (elim o [
            | some json ↦ replay_reject x s json
            | none ↦ reject_fresh x s cmd principal fresh r
          ])
            ≡ done (res, t)
          → Step s t
      go r m (some json) h = idle (same-Frame s t (replay_reject-same s t json res h))
      go r m none h = reject_fresh-Step x principal fresh s t cmd r res v m h

  pub replay_cancel-same :
      (s t : PurgeStore) (json : Str) (res : CancelPurgeResult)
      → replay_cancel x s json ≡ done (res, t)
      → s ≡ t
  unfolding replay_cancel
  replay_cancel-same s t json res h = elim (Option-cases (x.decode_cancel json)) [
    | inl e ↦ absurd (ground arith)
    | inr (a, e) ↦ ground arith
  ]

  cancel_purge-Step :
      (s t : PurgeStore) (cmd : CancelPurgeCommand) (res : CancelPurgeResult)
      → IsSound s
      → cancel_purge x s cmd principal fresh ≡ done (res, t)
      → Step s t
  unfolding cancel_purge
  cancel_purge-Step s t cmd res v h =
      let (_, h1) = >>-done _ _ h in
      let (r, found, h2) = >>=-done _ _ h1 in
      let (replayed, _, h3) = >>=-done _ _ h2 in
      go r (by_id-In s cmd.request_id r found).0 replayed h3
    where
      go :
          (r : EvidencePurgeRequest)
          → In r s.requests
          → (o : Option Str)
          → (elim o [
            | some json ↦ replay_cancel x s json
            | none ↦ cancel_fresh x s cmd principal fresh r
          ])
            ≡ done (res, t)
          → Step s t
      go r m (some json) h = idle (same-Frame s t (replay_cancel-same s t json res h))
      go r m none h = cancel_fresh-Step x principal fresh s t cmd r res v m h

  pub replay_withdraw-same :
      (s t : PurgeStore) (json : Str) (res : WithdrawPurgeResult)
      → replay_withdraw x s json ≡ done (res, t)
      → s ≡ t
  unfolding replay_withdraw
  replay_withdraw-same s t json res h = elim (Option-cases (x.decode_withdraw json)) [
    | inl e ↦ absurd (ground arith)
    | inr (a, e) ↦ ground arith
  ]

  withdraw_purge-Step :
      (s t : PurgeStore) (cmd : WithdrawPurgeCommand) (res : WithdrawPurgeResult)
      → IsSound s
      → withdraw_purge x s cmd principal fresh ≡ done (res, t)
      → Step s t
  unfolding withdraw_purge
  withdraw_purge-Step s t cmd res v h =
      let (_, h1) = >>-done _ _ h in
      let (r, found, h2) = >>=-done _ _ h1 in
      let (replayed, _, h3) = >>=-done _ _ h2 in
      go r (by_id-In s cmd.request_id r found).0 replayed h3
    where
      go :
          (r : EvidencePurgeRequest)
          → In r s.requests
          → (o : Option Str)
          → (elim o [
            | some json ↦ replay_withdraw x s json
            | none ↦ withdraw_fresh x s cmd principal fresh r
          ])
            ≡ done (res, t)
          → Step s t
      go r m (some json) h = idle (same-Frame s t (replay_withdraw-same s t json res h))
      go r m none h = withdraw_fresh-Step x principal fresh s t cmd r res v m h

  pub committed-done :
      {A : Type 0} (m : Attempt (A × PurgeStore)) (t : PurgeStore)
      → committed m ≡ done t
      → (a : A) × (m ≡ done (a, t))
  unfolding committed ◌>>=◌
  committed-done (done (a, u)) t h = (a, ap (λ z. done (a, z)) (done-eq u t h))
  committed-done (failed e) t h = cc

  pub execute-Step :
      (s t : PurgeStore) (cmd : PurgeCommand)
      → IsSound s
      → execute x s cmd principal fresh ≡ done t
      → Step s t
  unfolding execute
  execute-Step s t (requesting cmd) v h =
      let (res, h1) = committed-done _ t h in request_purge-Step s t cmd res v h1
  execute-Step s t (approving cmd) v h =
      let (res, h1) = committed-done _ t h in approve_purge-Step s t cmd res v h1
  execute-Step s t (rejecting cmd) v h =
      let (res, h1) = committed-done _ t h in reject_purge-Step s t cmd res v h1
  execute-Step s t (cancelling cmd) v h =
      let (res, h1) = committed-done _ t h in cancel_purge-Step s t cmd res v h1
  execute-Step s t (withdrawing cmd) v h =
      let (res, h1) = committed-done _ t h in withdraw_purge-Step s t cmd res v h1

after-IsSound :
    (s : PurgeStore) (m : Attempt PurgeStore)
    → IsSound s
    → ((t : PurgeStore) → m ≡ done t → Step s t)
    → IsSound (after s m)
unfolding after
after-IsSound s (done t) v k = Step-IsSound s t v (k t refl)
after-IsSound s (failed e) v k = v

-- A store in which the requests have ids and objects of their own, and in which the projection of each
-- request's object is in the state of the request's status (purge_requested, purge_approved,
-- purge_rejected, purged; stored for a withdrawn or cancelled one), stays so through every sequence of
-- the five commands, a failed command rolling its transaction back.
pub run-IsSound :
    (x : Platform) (s : PurgeStore) (calls : List Call) → IsSound s → IsSound (run x s calls)
unfolding run
run-IsSound x s [] v = v
run-IsSound x s ((cmd, principal, fresh) ∷ calls) v =
    run-IsSound x (after s (execute x s cmd principal fresh)) calls (
      after-IsSound s (execute x s cmd principal fresh) v
        (λ t h. execute-Step x principal fresh s t cmd v h))
