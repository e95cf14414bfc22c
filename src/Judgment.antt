-- ===== src/Judgment.antt =====
-- The judgment machine of internal/core/judgment.go. A function that mutates the judgment it is given
-- and returns an `error` returns the judgment and an optional error.
pub mod Machine
use drenyra_engram.Base.{
  ℕ, Str, Bool, true, false, ◌||◌, Option, none, some, List, [], ◌∷◌, is_blank, if◌then◌else◌,
}
use drenyra_engram.Memory.{ActorKind, agent, system, Source}
use drenyra_engram.Auth.{PrincipalSnapshot}

pub data JudgmentStatus : Type 0 where
  proposed confirmed rejected withdrawn superseded : JudgmentStatus
  other : Str → JudgmentStatus

pub data Relation : Type 0 where
  supports contradicts explains reconciles reverses supersedes : Relation
  other : Str → Relation

pub record AccountingJudgment : Type 0 where
  pub id : Str
  pub tenant_id : Str
  pub company_id : Str
  pub fiscal_period_id : Str
  pub from_id : Str
  pub to_id : Str
  pub relation : Relation
  pub status : JudgmentStatus
  pub proposer : Source
  pub proposal_reason : Str
  pub resolution : Str
  pub adjudicator : Option PrincipalSnapshot
  pub policy_version : Str
  pub predecessor_id : Str
  pub supersedes_id : Str
  pub proposed_at : Str
  pub updated_at : Str
  pub decided_at : Str

pub data JudgmentError : Type 0 where
  -- The judgment's id, the status aimed at, and the status it has.
  invalid_transition : Str → JudgmentStatus → JudgmentStatus → JudgmentError
  resolution_required authentication_required : JudgmentError

unfoldable pub is_proposable_relation : Relation → Bool
is_proposable_relation (Relation.other _) = false
is_proposable_relation _ = true

unfoldable pub can_propose : Source → Bool
can_propose source = elim source.actor_kind [ agent ↦ true | system ↦ true | _ ↦ false ]

unfoldable pub can_confirm : JudgmentStatus → Bool
can_confirm proposed = true
can_confirm _ = false

unfoldable pub can_reject_judgment : JudgmentStatus → Bool
can_reject_judgment proposed = true
can_reject_judgment _ = false

unfoldable pub can_withdraw : JudgmentStatus → Bool
can_withdraw proposed = true
can_withdraw _ = false

unfoldable pub can_supersede_confirmed : JudgmentStatus → Bool
can_supersede_confirmed confirmed = true
can_supersede_confirmed _ = false

unfoldable pub is_legal_judgment_transition : JudgmentStatus → JudgmentStatus → Bool
is_legal_judgment_transition proposed confirmed = true
is_legal_judgment_transition proposed rejected = true
is_legal_judgment_transition proposed withdrawn = true
is_legal_judgment_transition proposed superseded = true
is_legal_judgment_transition confirmed superseded = true
is_legal_judgment_transition _ _ = false

abbrev pub Outcome : Type 0
Outcome = AccountingJudgment × Option JudgmentError

-- The guards and the writes that confirm and reject share, behind the guard on the status.
decide : AccountingJudgment → JudgmentStatus → Str → Option PrincipalSnapshot → Str → Str → Outcome
decide j to resolution adjudicator policy_version decided_at =
    if is_blank resolution then (j, some resolution_required) else elim adjudicator [
      | none ↦ (j, some authentication_required)
      | some who ↦ (
        record j {
          status = to;
          resolution = resolution;
          adjudicator = some who;
          policy_version = policy_version;
          updated_at = decided_at;
          decided_at = decided_at;
        },
        none,
      )
    ]

unfoldable pub confirm_judgment :
    AccountingJudgment → Str → Option PrincipalSnapshot → Str → Str → Outcome
unfolding can_confirm decide
confirm_judgment j resolution adjudicator policy_version decided_at =
    if can_confirm j.status
    then decide j confirmed resolution adjudicator policy_version decided_at
    else (j, some (invalid_transition j.id confirmed j.status))

unfoldable pub reject_judgment :
    AccountingJudgment → Str → Option PrincipalSnapshot → Str → Str → Outcome
unfolding can_reject_judgment decide
reject_judgment j reason adjudicator policy_version decided_at =
    if can_reject_judgment j.status
    then decide j rejected reason adjudicator policy_version decided_at
    else (j, some (invalid_transition j.id rejected j.status))

unfoldable pub withdraw_judgment : AccountingJudgment → Str → Outcome
unfolding can_withdraw
withdraw_judgment j at =
    if can_withdraw j.status
    then (record j { status = withdrawn; updated_at = at }, none)
    else (j, some (invalid_transition j.id withdrawn j.status))

unfoldable pub supersede_judgment : AccountingJudgment → Str → Str → Outcome
unfolding can_supersede_confirmed
supersede_judgment j successor_id at =
    if can_supersede_confirmed j.status
    then (record j { status = superseded; supersedes_id = successor_id; updated_at = at }, none)
    else (j, some (invalid_transition j.id superseded j.status))

-- Any of the four operations, with its arguments.
pub data Act : Type 0 where
  confirming rejecting : Str → Option PrincipalSnapshot → Str → Str → Act
  withdrawing : Str → Act
  superseding : Str → Str → Act

unfoldable pub act : AccountingJudgment → Act → Outcome
unfolding confirm_judgment reject_judgment withdraw_judgment supersede_judgment
act j (confirming r a v t) = confirm_judgment j r a v t
act j (rejecting r a v t) = reject_judgment j r a v t
act j (withdrawing t) = withdraw_judgment j t
act j (superseding s t) = supersede_judgment j s t

unfoldable pub run : AccountingJudgment → List Act → AccountingJudgment
run j [] = j
run j (a ∷ acts) = run (act j a).0 acts
