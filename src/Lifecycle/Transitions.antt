-- ===== src/Lifecycle/Transitions.antt =====
-- What one lifecycle operation does, against the adjacency table.
use drenyra_engram.Base.{◌≡◌, ◌↔◌, true, none, some, arith}
use drenyra_engram.Memory.{MemoryStatus, human, agent, AccountingMemory}
use drenyra_engram.Lifecycle.{
  Act, approving, rejecting, returning, voiding, superseding, LifecycleError, act,
  is_legal_v2_transition,
}

-- The status that an operation aims at.
abbrev pub target : Act → MemoryStatus
target (approving _) = MemoryStatus.approved
target (rejecting _) = MemoryStatus.rejected
target (returning _) = MemoryStatus.returned
target (voiding _) = MemoryStatus.voided
target (superseding _) = MemoryStatus.superseded

-- Who may perform an operation: a human decides, anybody but an agent voids, anybody supersedes.
abbrev pub Permitted : Act → Type 0
Permitted (approving a) = a.actor_kind ≡ human
Permitted (rejecting a) = a.actor_kind ≡ human
Permitted (returning a) = a.actor_kind ≡ human
Permitted (voiding a) = ¬ (a.actor_kind ≡ agent)
Permitted (superseding _) = Unit

-- The memory after an operation that succeeds: the new status, and the route of a superseded one.
abbrev pub advanced : AccountingMemory → Act → AccountingMemory
advanced m (superseding s) = record m { status = MemoryStatus.superseded; supersedes_id = s }
advanced m a = record m { status = target a }

abbrev pub Legal : AccountingMemory → Act → Type 0
Legal m a = (is_legal_v2_transition m.status (target a) ≡ true) × Permitted a

act_sound : (m : AccountingMemory) (a : Act) → (act m a).1 ≡ none → Legal m a
unfolding act is_legal_v2_transition
act_sound m (approving s) h = ground arith
act_sound m (rejecting s) h = ground arith
act_sound m (returning s) h = ground arith
act_sound m (voiding s) h = ground arith
act_sound m (superseding s) h = ground arith

act_complete : (m : AccountingMemory) (a : Act) → Legal m a → (act m a).1 ≡ none
unfolding act is_legal_v2_transition
act_complete m (approving s) h = ground arith
act_complete m (rejecting s) h = ground arith
act_complete m (returning s) h = ground arith
act_complete m (voiding s) h = ground arith
act_complete m (superseding s) h = ground arith

-- A lifecycle operation (approve, reject, return, void, supersede) succeeds exactly when the
-- adjacency table has the transition from the memory's status to the operation's status and the
-- actor may perform it: a human for approve, reject and return, anybody but an agent for void.
pub act_iff_Legal : (m : AccountingMemory) (a : Act) → ((act m a).1 ≡ none) ↔ Legal m a
act_iff_Legal m a = (act_sound m a, act_complete m a)

-- An operation that succeeds changes the status to its own and nothing else, but for supersede, which
-- also writes the successor's id; an operation that fails leaves the whole memory as it was.
pub act_effect :
    (m : AccountingMemory) (a : Act)
    → ((act m a).1 ≡ none → (act m a).0 ≡ advanced m a)
      × ((e : LifecycleError) → (act m a).1 ≡ some e → (act m a).0 ≡ m)
unfolding act
act_effect m (approving s) = ((λ h. ground arith), (λ e h. ground arith))
act_effect m (rejecting s) = ((λ h. ground arith), (λ e h. ground arith))
act_effect m (returning s) = ((λ h. ground arith), (λ e h. ground arith))
act_effect m (voiding s) = ((λ h. ground arith), (λ e h. ground arith))
act_effect m (superseding s) = ((λ h. ground arith), (λ e h. ground arith))
