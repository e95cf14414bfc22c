-- ===== src/Reconciliation/Machine.antt =====
-- What the reconciliation operations do, and what holds after any history of them.
use drenyra_engram.Base.{◌≡◌, Bool, true, false, Option, none, some, List, [], ◌∷◌, is_blank, arith}
use drenyra_engram.Auth.{PrincipalSnapshot}
use drenyra_engram.Reconciliation.{
  ReconciliationStatus, proposed, confirmed, rejected, withdrawn, superseded, Reconciliation, Act,
  confirming, rejecting, withdrawing, superseding, act, run,
}

abbrev pub target : Act → ReconciliationStatus
target (confirming _ _ _ _) = confirmed
target (rejecting _ _ _ _) = rejected
target (withdrawing _) = withdrawn
target (superseding _ _) = superseded

-- What an operation wants besides the status: a decision carries a resolution and an adjudicator.
abbrev pub Documented : Act → Type 0
Documented (confirming r a _ _) = (is_blank r ≡ false) × (¬ (a ≡ none))
Documented (rejecting r a _ _) = (is_blank r ≡ false) × (¬ (a ≡ none))
Documented (withdrawing _) = Unit
Documented (superseding _ _) = Unit

abbrev pub is_decided : ReconciliationStatus → Bool
is_decided confirmed = true
is_decided rejected = true
is_decided superseded = true
is_decided _ = false

abbrev pub has_adjudicator : Option PrincipalSnapshot → Bool
has_adjudicator none = false
has_adjudicator (some _) = true

-- A confirmed, rejected or superseded reconciliation has a resolution and an adjudicator.
pub record IsSound (j : Reconciliation) : Type 0 where
  pub resolved : is_decided j.status ≡ true → is_blank j.resolution ≡ false
  pub adjudicated : is_decided j.status ≡ true → has_adjudicator j.adjudicator ≡ true

-- What no operation after the decision may change: the decision, the amounts and the proposal.
pub record SameDecision (j k : Reconciliation) : Type 0 where
  pub same_left : k.left_amount_cents ≡ j.left_amount_cents
  pub same_right : k.right_amount_cents ≡ j.right_amount_cents
  pub same_variance : k.variance_cents ≡ j.variance_cents
  pub same_proposer : k.proposer ≡ j.proposer
  pub same_reason : k.proposal_reason ≡ j.proposal_reason
  pub same_resolution : k.resolution ≡ j.resolution
  pub same_adjudicator : k.adjudicator ≡ j.adjudicator
  pub same_policy : k.policy_version ≡ j.policy_version
  pub same_time : k.decided_at ≡ j.decided_at

-- Settled: no operation decides it any more.
abbrev pub IsSettled : ReconciliationStatus → Type 0
IsSettled s = ¬ (s ≡ proposed)

act-IsSettled :
    (j : Reconciliation) (a : Act)
    → IsSettled j.status
    → IsSettled (act j a).0.status × SameDecision j (act j a).0
unfolding act
act-IsSettled j (confirming r x v t) h = ground arith
act-IsSettled j (rejecting r x v t) h = ground arith
act-IsSettled j (withdrawing t) h = ground arith
act-IsSettled j (superseding s t) h = ground arith

SameDecision-trans :
    (i j k : Reconciliation) → SameDecision i j → SameDecision j k → SameDecision i k
SameDecision-trans i j k h l = ground arith

-- A decision is final: after a reconciliation has left the proposed status, no history of operations changes
-- its amounts, proposer, proposal reason, resolution, adjudicator, policy version or time of decision,
-- nor makes it a proposal again.
pub run_final :
    (j : Reconciliation) (acts : List Act)
    → IsSettled j.status
    → IsSettled (run j acts).status × SameDecision j (run j acts)
unfolding run
run_final j [] h = (h, ground arith)
run_final j (a ∷ acts) h =
    let (k, same) = act-IsSettled j a h in
    let (l, rest) = run_final (act j a).0 acts k in
    (l, SameDecision-trans j (act j a).0 (run (act j a).0 acts) same rest)
