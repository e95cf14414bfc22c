-- ===== src/Examples/Purges.antt =====
-- The theorems on the purge pipeline, at a store with one request.
use drenyra_engram.Base.{
  Str, str, str_eq, str_lt, any, all, is_blank, false, some, List, [], ◌∷◌, ◌≡◌, ◌⊎◌, refl, ap, inl,
  In, if◌then◌else◌,
}
use drenyra_engram.Base.Int.{pos}
use drenyra_engram.Purge.{
  requested, approved, rejected, purge_rejected, EvidencePurgeRequest, ApprovePurgeResult, Attempt,
  done, failed, idempotency_conflict, ◌>>=◌, ◌>>◌,
}
use drenyra_engram.Fiscal
use drenyra_engram.Retention
use drenyra_engram.Authz.Evidence
use drenyra_engram.Purge.Tables
use drenyra_engram.Purge.Reads
use drenyra_engram.Purge.Writes
use drenyra_engram.Purge.Approve
use drenyra_engram.Purge.Validate
use drenyra_engram.Purge.Blockers
use drenyra_engram.Purge.Snapshot
use drenyra_engram.Purge.Tables.{PurgeStore, IdempotencyKey}
use drenyra_engram.Purge.Reads.{purge_request_by_id_on, approval_ids_on, find_key}
use drenyra_engram.Purge.Approve.{approve_purge}
use drenyra_engram.Purge.Commands.{approving, rejecting, Call, execute, after, run, committed}
use drenyra_engram.Purge.Rows.{projected, state_of}
use drenyra_engram.Purge.Agreement.{IsSound}
use drenyra_engram.Purge.Approvals.{IsGranted}
use drenyra_engram.Purge.Granted.{approve_purge-IsGranted, approval_order_by_rows}
use drenyra_engram.Purge.History.{Reaches, run-Successor, run_rejected}
use drenyra_engram.Purge.Sound.{run-IsSound}
use drenyra_engram.Purge.Idempotency.{key_of, members_of, tenant_of, execute-conflict}
use drenyra_engram.Purge.Replay.{execute-repeated}
use drenyra_engram.Purge.Answers.{IsReadable}
use drenyra_engram.Examples.Data.{rosa}
use drenyra_engram.Examples.PurgeStores.{
  hash, uuid, opened, with_open, with_rejected, approving_cmd, rejecting_cmd, fresh_ids, platform,
  answered,
}

abbrev calls : List Call
calls = (approving approving_cmd, rosa, fresh_ids) ∷ (rejecting rejecting_cmd, rosa, fresh_ids) ∷ []

with_open-IsSound : IsSound with_open
unfolding projected state_of Tables.first str_eq
with_open-IsSound = record { apart = (tt, tt); agreed = (refl, tt) }

with_rejected-IsSound : IsSound with_rejected
unfolding projected state_of Tables.first str_eq
with_rejected-IsSound = record { apart = (tt, tt); agreed = (refl, tt) }

run-IsSound_example : IsSound (run platform with_open calls)
run-IsSound_example = run-IsSound platform with_open calls with_open-IsSound

-- What a command answers, with a value for the case that it fails.
abbrev result_of : {A : Type 0} → Attempt A → A → A
result_of (done a) d = a
result_of (failed _) d = d

abbrev outcome : Attempt (ApprovePurgeResult × PurgeStore)
outcome = approve_purge platform with_open approving_cmd rosa fresh_ids

abbrev recorded : ApprovePurgeResult × PurgeStore
recorded = result_of outcome (answered, with_open)

-- The first approval of two is recorded.
outcome-recorded : (outcome ≡ done recorded) × (recorded.0.idempotent_replay ≡ false)
unfolding approve_purge ◌>>=◌ ◌>>◌ Validate.assert_valid_approve_purge_command
    Fiscal.policy_id_pattern Fiscal.is_hash64 Fiscal.is_hex is_blank purge_request_by_id_on
    Tables.first Tables.select str_eq Approve.object_exists Reads.read_object
    Reads.replay_purge_idempotency_on find_key Approve.approve_fresh Writes.reserve_key any all
    Approve.assert_open Reads.assert_period_writable Blockers.found_policy
    Reads.retention_policy_by_id_on Reads.resolve_retention_policy_on Reads.in_tuple
    Reads.by_version Reads.insert_version Reads.resolve_rows Retention.assert_valid_retention_scope
    Retention.resolve_retention_policy Fiscal.jurisdiction_ok Blockers.check_blockers
    Blockers.assert_eligible Blockers.no_holds Retention.evaluate_retention_eligibility
    Reads.current_purge_snapshot_on Reads.bound_version Reads.projection_of Reads.id_of
    Reads.active_blocking_hold_refs_on Reads.retention_state_on Reads.purge_request_by_object_on
    approval_ids_on Reads.by_order Snapshot.sorted_lifecycle_holds
    Snapshot.compute_lifecycle_snapshot_hash Snapshot.assemble_snapshot Approve.approval_turn
    Writes.authorize_purge_act Evidence.authorize Approve.record_approval
    Approve.purge_request_scope Approve.is_complete Approve.post_lifecycle Approve.approval_row
    Writes.insert_purge_approval_on Writes.insert_lifecycle_event_on Writes.emit_receipt
    Fiscal.is_valid_period Fiscal.assert_valid_scope Fiscal.is_valid_ruc str_lt
outcome-recorded = (refl, refl)

approve_purge-IsGranted_example :
    (r : EvidencePurgeRequest) × (purge_request_by_id_on with_open uuid ≡ done r)
    × IsGranted platform with_open approving_cmd rosa r recorded.0
approve_purge-IsGranted_example =
    approve_purge-IsGranted platform with_open recorded.1 approving_cmd rosa fresh_ids recorded.0
      outcome-recorded.0 outcome-recorded.1

approval_order_by_rows_example :
    (r : EvidencePurgeRequest) × (g : IsGranted platform with_open approving_cmd rosa r recorded.0)
    × (((approval_ids_on with_open r.request_id ≡ [])
          × (recorded.0.approval_order ≡ pos 1)
          × (recorded.0.request.status
              ≡ (if g.policy.dual_approval_required then requested else approved)))
        ⊎ ((id : Str) × (approval_ids_on with_open r.request_id ≡ id ∷ [])
            × (recorded.0.approval_order ≡ pos 2)
            × (recorded.0.request.status ≡ approved)))
approval_order_by_rows_example =
    approval_order_by_rows platform with_open recorded.1 approving_cmd rosa fresh_ids recorded.0
      outcome-recorded.0 outcome-recorded.1

run-Successor_example :
    (q : EvidencePurgeRequest) × In q (run platform with_open calls).requests
    × (q.request_id ≡ uuid)
    × (q.object_id ≡ hash)
    × (q.tenant_id ≡ str "org")
    × Reaches requested q.status
run-Successor_example = run-Successor platform with_open calls opened with_open-IsSound (inl refl)

run_rejected_example :
    (q : EvidencePurgeRequest) × In q (run platform with_rejected calls).requests
    × (q.request_id ≡ uuid)
    × (q.object_id ≡ hash)
    × (q.status ≡ rejected)
    × (projected (run platform with_rejected calls).states hash ≡ some purge_rejected)
run_rejected_example =
    run_rejected platform with_rejected calls (record opened { status = rejected })
      with_rejected-IsSound (inl refl) refl

-- A key that another command has used.
abbrev used_key : IdempotencyKey
used_key = record {
  tenant_id = str "org";
  request_id = str "k1";
  command_hash = str "g";
  actor_binding = str "rosa";
  entity_id = some uuid;
  result_json = some (str "j");
  created_at = str "t0";
  completed_at = some (str "t0");
}

abbrev with_key : PurgeStore
with_key = record with_open { keys = used_key ∷ [] }

execute-conflict_example :
    (execute platform with_key (approving approving_cmd) rosa fresh_ids
      ≡ failed idempotency_conflict)
    × (after with_key (execute platform with_key (approving approving_cmd) rosa fresh_ids)
        ≡ with_key)
unfolding tenant_of find_key key_of members_of ◌>>=◌ ◌>>◌
    Validate.assert_valid_approve_purge_command Fiscal.policy_id_pattern Fiscal.is_hash64
    Fiscal.is_hex is_blank all purge_request_by_id_on Tables.first str_eq Approve.object_exists
    Reads.read_object
execute-conflict_example =
    execute-conflict platform with_key (approving approving_cmd) rosa fresh_ids (str "org") used_key
      refl refl (inl refl)

platform-IsReadable : IsReadable platform
platform-IsReadable = record {
  reads_request = λ _ e. cc e;
  reads_approve = λ _ e. cc e;
  reads_reject = λ _ e. cc e;
  reads_cancel = λ _ e. cc e;
  reads_withdraw = λ _ e. cc e;
  request_json = λ _. refl;
  approve_json = λ _. refl;
  reject_json = λ _. refl;
  cancel_json = λ _. refl;
  withdraw_json = λ _. refl;
}

execute-repeated_example :
    execute platform recorded.1 (approving approving_cmd) rosa fresh_ids ≡ done recorded.1
unfolding execute committed ◌>>=◌
execute-repeated_example =
    execute-repeated platform platform-IsReadable rosa fresh_ids fresh_ids with_open recorded.1
      (approving approving_cmd) with_open-IsSound (refl, tt) refl
      (ap (λ m. m >>= λ (_, t). done t) outcome-recorded.0)
