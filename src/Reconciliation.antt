-- ===== src/Reconciliation.antt =====
-- The reconciliation machine of internal/core/reconciliation.go. A function that mutates the reconciliation
-- it is given and returns an `error` returns the reconciliation and an optional error.
pub mod Machine
use drenyra_engram.Base.{
  ℕ, Str, Bool, true, false, ◌||◌, Option, none, some, List, [], ◌∷◌, is_blank, if◌then◌else◌,
}
use drenyra_engram.Base.Int.{ℤ}
use drenyra_engram.Memory.{Source}
use drenyra_engram.Auth.{PrincipalSnapshot}

pub data ReconciliationStatus : Type 0 where
  proposed confirmed rejected withdrawn superseded : ReconciliationStatus
  other : Str → ReconciliationStatus

pub record Reconciliation : Type 0 where
  pub id : Str
  pub tenant_id : Str
  pub company_id : Str
  pub fiscal_period_id : Str
  pub left_memory_id : Str
  pub right_memory_id : Str
  pub method : Str
  pub currency : Str
  pub left_amount_cents : ℤ
  pub right_amount_cents : ℤ
  pub variance_cents : ℤ
  pub tolerance_cents : ℤ
  pub status : ReconciliationStatus
  pub proposer : Source
  pub proposal_reason : Str
  pub resolution : Str
  pub adjudicator : Option PrincipalSnapshot
  pub policy_version : Str
  pub predecessor_id : Str
  pub supersedes_id : Str
  pub proposed_at : Str
  pub decided_at : Str

pub data ReconciliationError : Type 0 where
  -- The reconciliation's id, the status aimed at, and the status it has.
  invalid_transition : Str → ReconciliationStatus → ReconciliationStatus → ReconciliationError
  resolution_required authentication_required : ReconciliationError

unfoldable pub can_confirm_reconciliation : ReconciliationStatus → Bool
can_confirm_reconciliation proposed = true
can_confirm_reconciliation _ = false

unfoldable pub can_reject_reconciliation : ReconciliationStatus → Bool
can_reject_reconciliation proposed = true
can_reject_reconciliation _ = false

unfoldable pub can_withdraw_reconciliation : ReconciliationStatus → Bool
can_withdraw_reconciliation proposed = true
can_withdraw_reconciliation _ = false

unfoldable pub can_supersede_reconciliation : ReconciliationStatus → Bool
can_supersede_reconciliation confirmed = true
can_supersede_reconciliation _ = false

unfoldable pub is_legal_reconciliation_transition :
    ReconciliationStatus → ReconciliationStatus → Bool
is_legal_reconciliation_transition proposed confirmed = true
is_legal_reconciliation_transition proposed rejected = true
is_legal_reconciliation_transition proposed withdrawn = true
is_legal_reconciliation_transition proposed superseded = true
is_legal_reconciliation_transition confirmed superseded = true
is_legal_reconciliation_transition _ _ = false

abbrev pub Outcome : Type 0
Outcome = Reconciliation × Option ReconciliationError

-- The guards and the writes that confirm and reject share, behind the guard on the status.
decide :
    Reconciliation → ReconciliationStatus → Str → Option PrincipalSnapshot → Str → Str → Outcome
decide j to resolution adjudicator policy_version decided_at =
    if is_blank resolution then (j, some resolution_required) else elim adjudicator [
      | none ↦ (j, some authentication_required)
      | some who ↦ (
        record j {
          status = to;
          resolution = resolution;
          adjudicator = some who;
          policy_version = policy_version;
          decided_at = decided_at;
        },
        none,
      )
    ]

unfoldable pub confirm_reconciliation :
    Reconciliation → Str → Option PrincipalSnapshot → Str → Str → Outcome
unfolding can_confirm_reconciliation decide
confirm_reconciliation j resolution adjudicator policy_version decided_at =
    if can_confirm_reconciliation j.status
    then decide j confirmed resolution adjudicator policy_version decided_at
    else (j, some (invalid_transition j.id confirmed j.status))

unfoldable pub reject_reconciliation :
    Reconciliation → Str → Option PrincipalSnapshot → Str → Str → Outcome
unfolding can_reject_reconciliation decide
reject_reconciliation j reason adjudicator policy_version decided_at =
    if can_reject_reconciliation j.status
    then decide j rejected reason adjudicator policy_version decided_at
    else (j, some (invalid_transition j.id rejected j.status))

unfoldable pub withdraw_reconciliation : Reconciliation → Str → Outcome
unfolding can_withdraw_reconciliation
withdraw_reconciliation j at =
    if can_withdraw_reconciliation j.status
    then (record j { status = withdrawn; decided_at = at }, none)
    else (j, some (invalid_transition j.id withdrawn j.status))

unfoldable pub supersede_reconciliation : Reconciliation → Str → Str → Outcome
unfolding can_supersede_reconciliation
supersede_reconciliation j successor_id at =
    if can_supersede_reconciliation j.status
    then (record j { status = superseded; supersedes_id = successor_id }, none)
    else (j, some (invalid_transition j.id superseded j.status))

-- Any of the four operations, with its arguments.
pub data Act : Type 0 where
  confirming rejecting : Str → Option PrincipalSnapshot → Str → Str → Act
  withdrawing : Str → Act
  superseding : Str → Str → Act

unfoldable pub act : Reconciliation → Act → Outcome
unfolding confirm_reconciliation reject_reconciliation withdraw_reconciliation
    supersede_reconciliation
act j (confirming r a v t) = confirm_reconciliation j r a v t
act j (rejecting r a v t) = reject_reconciliation j r a v t
act j (withdrawing t) = withdraw_reconciliation j t
act j (superseding s t) = supersede_reconciliation j s t

unfoldable pub run : Reconciliation → List Act → Reconciliation
run j [] = j
run j (a ∷ acts) = run (act j a).0 acts
