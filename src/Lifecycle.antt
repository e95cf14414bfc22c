-- ===== src/Lifecycle.antt =====
-- The memory lifecycle machine of internal/core/lifecycle.go. A function that mutates the memory it is
-- given and returns an `error` returns the memory and an optional error.
pub mod Transitions
pub mod Runs
use drenyra_engram.Base.{Str, Bool, true, false, Option, none, some, List, [], ◌∷◌, if◌then◌else◌}
use drenyra_engram.Memory.{
  MemoryStatus, active, pending_review, approved, rejected, returned, superseded, voided,
  FiscalEffect, none_effect, ActorKind, human, agent, Source, AccountingMemory,
}

pub data LifecycleError : Type 0 where
  gate_requires_human : LifecycleError
  gate_agent_cannot_void : LifecycleError
  -- The memory's id, the status aimed at, and the status it has.
  invalid_transition : Str → MemoryStatus → MemoryStatus → LifecycleError

unfoldable pub is_gated : FiscalEffect → Bool
is_gated none_effect = false
is_gated _ = true

unfoldable pub initial_status : FiscalEffect → MemoryStatus
initial_status none_effect = active
initial_status _ = pending_review

unfoldable pub can_approve : MemoryStatus → Bool
can_approve pending_review = true
can_approve _ = false

unfoldable pub can_reject : MemoryStatus → Bool
can_reject pending_review = true
can_reject _ = false

unfoldable pub can_return : MemoryStatus → Bool
can_return pending_review = true
can_return _ = false

unfoldable pub can_void : MemoryStatus → Bool
can_void active = true
can_void pending_review = true
can_void approved = true
can_void _ = false

-- The adjacency table that imports and sync replays are checked against.
unfoldable pub is_legal_v2_transition : MemoryStatus → MemoryStatus → Bool
is_legal_v2_transition pending_review approved = true
is_legal_v2_transition pending_review rejected = true
is_legal_v2_transition pending_review returned = true
is_legal_v2_transition pending_review voided = true
is_legal_v2_transition pending_review superseded = true
is_legal_v2_transition returned superseded = true
is_legal_v2_transition active voided = true
is_legal_v2_transition active superseded = true
is_legal_v2_transition approved voided = true
is_legal_v2_transition approved superseded = true
is_legal_v2_transition _ _ = false

unfoldable pub assert_human_approval : Source → Option LifecycleError
assert_human_approval actor = elim actor.actor_kind [ human ↦ none | _ ↦ some gate_requires_human ]

abbrev pub Outcome : Type 0
Outcome = AccountingMemory × Option LifecycleError

refuse : AccountingMemory → MemoryStatus → Outcome
refuse m to = (m, some (invalid_transition m.identity.id to m.status))

-- The second half of approve, reject and return: the gate, then the new status.
decide : AccountingMemory → Source → MemoryStatus → Outcome
unfolding assert_human_approval
decide m actor to = elim (assert_human_approval actor) [
  | some e ↦ (m, some e)
  | none ↦ (record m { status = to }, none)
]

unfoldable pub approve : AccountingMemory → Source → Outcome
unfolding can_approve refuse decide
approve m actor = if can_approve m.status then decide m actor approved else refuse m approved

unfoldable pub reject : AccountingMemory → Source → Outcome
unfolding can_reject refuse decide
reject m actor = if can_reject m.status then decide m actor rejected else refuse m rejected

-- `Return`
unfoldable pub return_memory : AccountingMemory → Source → Outcome
unfolding can_return refuse decide
return_memory m actor = if can_return m.status then decide m actor returned else refuse m returned

unfoldable pub void : AccountingMemory → Source → Outcome
unfolding can_void refuse
void m actor =
    if can_void m.status
    then (elim actor.actor_kind [
      | agent ↦ (m, some gate_agent_cannot_void)
      | _ ↦ (record m { status = voided }, none)
    ])
    else refuse m voided

can_supersede : MemoryStatus → Bool
can_supersede active = true
can_supersede pending_review = true
can_supersede approved = true
can_supersede returned = true
can_supersede _ = false

unfoldable pub supersede_prev : AccountingMemory → Str → Outcome
unfolding can_supersede refuse
supersede_prev prev successor_id =
    if can_supersede prev.status
    then (record prev { status = superseded; supersedes_id = successor_id }, none)
    else refuse prev superseded

-- Any of the five operations, with the actor or the successor that it is given.
pub data Act : Type 0 where
  approving rejecting returning voiding : Source → Act
  superseding : Str → Act

unfoldable pub act : AccountingMemory → Act → Outcome
unfolding approve reject return_memory void supersede_prev
act m (approving a) = approve m a
act m (rejecting a) = reject m a
act m (returning a) = return_memory m a
act m (voiding a) = void m a
act m (superseding s) = supersede_prev m s

-- A history of operations; one that fails leaves the memory as it was returned.
unfoldable pub run : AccountingMemory → List Act → AccountingMemory
run m [] = m
run m (a ∷ as') = run (act m a).0 as'
