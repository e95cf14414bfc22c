-- ===== src/Purge/Answered.antt =====
-- RequestPurge and ApprovePurge of internal/store/purge_store.go leave a key that answers them.
use drenyra_engram.Base.{Str, false, Option, none, some, ◌≡◌, sym, subst, is_empty}
use drenyra_engram.Memory.{Scope}
use drenyra_engram.Auth.{VerifiedApprovalPrincipal}
use drenyra_engram.Purge.{
  object_not_found, EvidencePurgeRequest, RequestPurgeCommand, RequestPurgeResult,
  ApprovePurgeCommand, ApprovePurgeResult, done, require,
}
use drenyra_engram.Purge.Validate.{
  assert_valid_request_purge_command, assert_valid_approve_purge_command,
}
use drenyra_engram.Purge.Tables.{PurgeStore, Fresh, Platform}
use drenyra_engram.Purge.Reads.{purge_request_by_id_on, read_object}
use drenyra_engram.Purge.Request.{scope_of_object, request_fresh, replay_request, request_purge}
use drenyra_engram.Purge.Approve.{object_exists, approve_fresh, replay_approve, approve_purge}
use drenyra_engram.Purge.Commands.{PurgeCommand, requesting, approving}
use drenyra_engram.Purge.Rows.{>>=-done, >>-done}
use drenyra_engram.Purge.Agreement.{IsSound}
use drenyra_engram.Purge.ApproveSteps.{approve_fresh-Step}
use drenyra_engram.Purge.ClosingSteps.{by_id-In}
use drenyra_engram.Purge.Sound.{replay_request-same, replay_approve-same}
use drenyra_engram.Purge.Idempotency.{key_of, members_of, tenant_of, answer_of}
use drenyra_engram.Purge.Keys.{still_found}
use drenyra_engram.Purge.Answers.{IsReadable, approve_fresh-Answers}
use drenyra_engram.Purge.RequestAnswers.{Named, Named-at, request_fresh-Answers}
use drenyra_engram.Purge.Repeats.{Decodes}
use drenyra_engram.Purge.Decoding.{
  replay_request-decodes, replay_approve-decodes, tenant_requesting, tenant_approving, exists_still,
  found_still,
}

-- The key of the command answers a result that the command decodes.
abbrev pub IsAnswered : Platform → PurgeStore → PurgeCommand → VerifiedApprovalPrincipal → Type 0
IsAnswered x s cmd principal =
    (tenant : Str) × (json : Str) × (tenant_of s cmd ≡ done tenant)
    × (answer_of x s cmd principal tenant ≡ done (some json))
    × Decodes x cmd json

module _ (x : Platform) (laws : IsReadable x) (principal : VerifiedApprovalPrincipal)
    (fresh : Fresh) where
  pub request_purge-IsAnswered :
      (s t : PurgeStore) (cmd : RequestPurgeCommand) (res : RequestPurgeResult)
      → is_empty fresh.request_uuid ≡ false
      → Named s.requests
      → request_purge x s cmd principal fresh ≡ done (res, t)
      → IsAnswered x t (requesting cmd) principal
  unfolding request_purge answer_of key_of members_of
  request_purge-IsAnswered s t cmd res u n h =
      let (valid, h1) = >>-done _ _ h in
      let (scope, found, h2) = >>=-done _ _ h1 in
      let (replayed, k, h3) = >>=-done _ _ h2 in go valid scope found replayed k h3
    where
      go :
          assert_valid_request_purge_command cmd ≡ done tt
          → (scope : Scope) → scope_of_object (read_object s cmd.object_id) ≡ done scope
          → (o : Option Str)
          → answer_of x s (requesting cmd) principal scope.organization_id ≡ done o
          → (elim o [
            | some json ↦ replay_request x s json
            | none ↦ request_fresh x s cmd principal fresh scope
          ])
            ≡ done (res, t)
          → IsAnswered x t (requesting cmd) principal
      go valid scope found (some json) k h =
          subst (λ z. IsAnswered x z (requesting cmd) principal)
            (replay_request-same x principal fresh s t json res h)
            (
              scope.organization_id,
              json,
              tenant_requesting s cmd scope valid found,
              k,
              replay_request-decodes x s t json res h,
            )
      go valid scope found none k h =
          let (a, o) = request_fresh-Answers x laws principal fresh s t cmd scope res u n h in
          (
            scope.organization_id,
            x.encode_request res.request,
            tenant_requesting t cmd scope valid (found_still s t cmd.object_id scope o found),
            a,
            laws.reads_request res.request,
          )

  pub approve_purge-IsAnswered :
      (s t : PurgeStore) (cmd : ApprovePurgeCommand) (res : ApprovePurgeResult)
      → IsSound s
      → Named s.requests
      → approve_purge x s cmd principal fresh ≡ done (res, t)
      → IsAnswered x t (approving cmd) principal
  unfolding approve_purge answer_of key_of members_of
  approve_purge-IsAnswered s t cmd res v n h =
      let (valid, h1) = >>-done _ _ h in
      let (r, found, h2) = >>=-done _ _ h1 in
      let (exists, h3) = >>-done _ _ h2 in
      let (replayed, k, h4) = >>=-done _ _ h3 in go valid r found exists replayed k h4
    where
      go :
          assert_valid_approve_purge_command cmd ≡ done tt
          → (r : EvidencePurgeRequest) → purge_request_by_id_on s cmd.request_id ≡ done r
          → require (object_exists s r.object_id) object_not_found ≡ done tt
          → (o : Option Str) → answer_of x s (approving cmd) principal r.tenant_id ≡ done o
          → (elim o [
            | some json ↦ replay_approve x s json
            | none ↦ approve_fresh x s cmd principal fresh r
          ])
            ≡ done (res, t)
          → IsAnswered x t (approving cmd) principal
      go valid r found exists (some json) k h =
          subst (λ z. IsAnswered x z (approving cmd) principal)
            (replay_approve-same x principal fresh s t json res h)
            (
              r.tenant_id,
              json,
              tenant_approving s cmd r valid found exists,
              k,
              replay_approve-decodes x s t json res h,
            )
      go valid r found exists none k h =
          let (m, _) = by_id-In s cmd.request_id r found in
          let (a, o) =
            approve_fresh-Answers x laws principal fresh s t cmd r res (Named-at s.requests r n m)
              h in
          let w = approve_fresh-Step x principal fresh s t cmd r res v m h in
          let (q, f, e, i) = still_found s t cmd.request_id r v w found in
          (
            q.tenant_id,
            x.encode_approve res,
            tenant_approving t cmd q valid f (exists_still s t _ _ o i exists),
            subst
                (λ z.
                  answer_of x t (approving cmd) principal z ≡ done (some (x.encode_approve res)))
                (sym e) a,
            laws.reads_approve res,
          )
