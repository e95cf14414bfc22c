-- ===== src/Purge/Commands.antt =====
-- The five commands of the purge pipeline, one after the other. A command that fails rolls its
-- transaction back.
use drenyra_engram.Base.{List, [], ◌∷◌}
use drenyra_engram.Auth.{VerifiedApprovalPrincipal}
use drenyra_engram.Purge.{
  RequestPurgeCommand, ApprovePurgeCommand, RejectPurgeCommand, CancelPurgeCommand,
  WithdrawPurgeCommand, Attempt, done, failed, ◌>>=◌,
}
use drenyra_engram.Purge.Tables.{PurgeStore, Fresh, Platform}
use drenyra_engram.Purge.Request.{request_purge}
use drenyra_engram.Purge.Approve.{approve_purge}
use drenyra_engram.Purge.Closing.{reject_purge, cancel_purge, withdraw_purge}

pub data PurgeCommand : Type 0 where
  requesting : RequestPurgeCommand → PurgeCommand
  approving : ApprovePurgeCommand → PurgeCommand
  rejecting : RejectPurgeCommand → PurgeCommand
  cancelling : CancelPurgeCommand → PurgeCommand
  withdrawing : WithdrawPurgeCommand → PurgeCommand

-- A command, its principal, and what the clock and the generator of ids give it.
abbrev pub Call : Type 0
Call = PurgeCommand × VerifiedApprovalPrincipal × Fresh

-- The store that a command commits.
unfoldable pub committed : {A : Type 0} → Attempt (A × PurgeStore) → Attempt PurgeStore
committed m = m >>= λ (_, t). done t

unfoldable pub execute :
    Platform → PurgeStore → PurgeCommand → VerifiedApprovalPrincipal → Fresh → Attempt PurgeStore
unfolding committed
execute x s (requesting cmd) principal fresh = committed (request_purge x s cmd principal fresh)
execute x s (approving cmd) principal fresh = committed (approve_purge x s cmd principal fresh)
execute x s (rejecting cmd) principal fresh = committed (reject_purge x s cmd principal fresh)
execute x s (cancelling cmd) principal fresh = committed (cancel_purge x s cmd principal fresh)
execute x s (withdrawing cmd) principal fresh = committed (withdraw_purge x s cmd principal fresh)

-- The transaction around a command: ROLLBACK on an error.
unfoldable pub after : PurgeStore → Attempt PurgeStore → PurgeStore
after s (done t) = t
after s (failed _) = s

unfoldable pub run : Platform → PurgeStore → List Call → PurgeStore
unfolding after
run x s [] = s
run x s ((cmd, principal, fresh) ∷ calls) = run x (after s (execute x s cmd principal fresh)) calls
