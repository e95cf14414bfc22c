-- ===== src/Purge/Replay.antt =====
-- A command of internal/store/purge_store.go that succeeded, sent again.
use drenyra_engram.Base.{false, ◌≡◌, is_empty}
use drenyra_engram.Auth.{VerifiedApprovalPrincipal}
use drenyra_engram.Purge.{done}
use drenyra_engram.Purge.Tables.{PurgeStore, Fresh, Platform}
use drenyra_engram.Purge.Commands.{
  PurgeCommand, requesting, approving, rejecting, cancelling, withdrawing, execute,
}
use drenyra_engram.Purge.Agreement.{IsSound}
use drenyra_engram.Purge.Sound.{committed-done}
use drenyra_engram.Purge.Answers.{IsReadable}
use drenyra_engram.Purge.RequestAnswers.{Named}
use drenyra_engram.Purge.Repeats.{repeated}
use drenyra_engram.Purge.Answered.{IsAnswered, request_purge-IsAnswered, approve_purge-IsAnswered}
use drenyra_engram.Purge.AnsweredClosing.{
  reject_purge-IsAnswered, cancel_purge-IsAnswered, withdraw_purge-IsAnswered,
}

module _ (x : Platform) (laws : IsReadable x) (principal : VerifiedApprovalPrincipal)
    (fresh : Fresh) where
  execute-IsAnswered :
      (s t : PurgeStore) (cmd : PurgeCommand)
      → IsSound s
      → Named s.requests
      → is_empty fresh.request_uuid ≡ false
      → execute x s cmd principal fresh ≡ done t
      → IsAnswered x t cmd principal
  unfolding execute
  execute-IsAnswered s t (requesting cmd) v n u h =
      let (res, h1) = committed-done x principal fresh _ t h in
      request_purge-IsAnswered x laws principal fresh s t cmd res u n h1
  execute-IsAnswered s t (approving cmd) v n u h =
      let (res, h1) = committed-done x principal fresh _ t h in
      approve_purge-IsAnswered x laws principal fresh s t cmd res v n h1
  execute-IsAnswered s t (rejecting cmd) v n u h =
      let (res, h1) = committed-done x principal fresh _ t h in
      reject_purge-IsAnswered x laws principal fresh s t cmd res v n h1
  execute-IsAnswered s t (cancelling cmd) v n u h =
      let (res, h1) = committed-done x principal fresh _ t h in
      cancel_purge-IsAnswered x laws principal fresh s t cmd res v n h1
  execute-IsAnswered s t (withdrawing cmd) v n u h =
      let (res, h1) = committed-done x principal fresh _ t h in
      withdraw_purge-IsAnswered x laws principal fresh s t cmd res v n h1

-- A command that succeeded, sent again by the same principal with whatever clock and ids, succeeds from
-- its key and commits the store as it finds it. It is asked that the requests of the store have ids and
-- objects of their own and agree with the projection, that no row and no id minted for a request has an
-- empty id, and that encoding/json decodes what it wrote, which is never
-- empty.
pub execute-repeated :
    (x : Platform) (laws : IsReadable x) (principal : VerifiedApprovalPrincipal)
    (fresh again : Fresh) (s t : PurgeStore) (cmd : PurgeCommand)
    → IsSound s
    → Named s.requests
    → is_empty fresh.request_uuid ≡ false
    → execute x s cmd principal fresh ≡ done t
    → execute x t cmd principal again ≡ done t
execute-repeated x laws principal fresh again s t cmd v n u h =
    let (tenant, json, e, k, d) = execute-IsAnswered x laws principal fresh s t cmd v n u h in
    repeated x t cmd principal again tenant json e k d
