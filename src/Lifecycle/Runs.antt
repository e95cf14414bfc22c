-- ===== src/Lifecycle/Runs.antt =====
-- What holds after any history of lifecycle operations.
use drenyra_engram.Base.{
  ◌≡◌, refl, sym, subst, ◌∙◌, ◌++◌, ◌⊎◌, inl, inr, ◌↔◌, true, List, [], ◌∷◌, Any, All, Option-cases,
  arith,
}
use drenyra_engram.Memory.{
  MemoryStatus, approved, rejected, returned, superseded, voided, FiscalEffect, human, agent,
  Source, AccountingMemory,
}
use drenyra_engram.Lifecycle.{
  Act, approving, rejecting, returning, voiding, superseding, act, run, initial_status,
  is_legal_v2_transition,
}
use drenyra_engram.Lifecycle.Transitions.{target, Permitted, advanced, act_iff_Legal, act_effect}

-- Reachable in the adjacency table.
infix 40 ◌⟶*◌
pub data ◌⟶*◌ (s : MemoryStatus) : MemoryStatus → Type 0 where
  here : s ⟶* s
  next : {t u : MemoryStatus} → s ⟶* t → is_legal_v2_transition t u ≡ true → s ⟶* u

prepend : {s t u : MemoryStatus} → is_legal_v2_transition s t ≡ true → t ⟶* u → s ⟶* u
prepend e here = next here e
prepend e (next r k) = next (prepend e r) k

advanced-status : (m : AccountingMemory) (a : Act) → (advanced m a).status ≡ target a
advanced-status m (approving _) = refl
advanced-status m (rejecting _) = refl
advanced-status m (returning _) = refl
advanced-status m (voiding _) = refl
advanced-status m (superseding _) = refl

-- One operation takes one edge of the table, or leaves the memory alone.
act-cases :
    (m : AccountingMemory) (a : Act)
    → ((act m a).0 ≡ m)
      ⊎ ((is_legal_v2_transition m.status (target a) ≡ true)
          × Permitted a
          × ((act m a).0 ≡ advanced m a))
act-cases m a = elim (Option-cases (act m a).1) [
  | inl e ↦ let (legal, may) = (act_iff_Legal m a).0 e in inr (legal, may, (act_effect m a).0 e)
  | inr (x, e) ↦ inl ((act_effect m a).1 x e)
]

run-cons-reach :
    (m : AccountingMemory) (a : Act) (u : MemoryStatus) → (act m a).0.status ⟶* u → m.status ⟶* u
run-cons-reach m a u r = elim (act-cases m a) [
  | inl e ↦ subst (λ n. n.status ⟶* u) e r
  | inr (legal, may, e) ↦
      prepend legal (subst (λ s. s ⟶* u) (advanced-status m a) (subst (λ n. n.status ⟶* u) e r))
]

run-reach : (m : AccountingMemory) (acts : List Act) → m.status ⟶* (run m acts).status
unfolding run
run-reach m [] = here
run-reach m (a ∷ acts) = run-cons-reach m a _ (run-reach (act m a).0 acts)

run-append : (m : AccountingMemory) (xs ys : List Act) → run m (xs ++ ys) ≡ run (run m xs) ys
unfolding run
run-append m [] ys = refl
run-append m (x ∷ xs) ys = run-append (act m x).0 xs ys

-- The operation by which a human reaches a status that some edge of the table leads to.
abbrev act_to : Source → MemoryStatus → Act
act_to by approved = approving by
act_to by rejected = rejecting by
act_to by returned = returning by
act_to by voided = voiding by
act_to by _ = superseding []

act_to_lem :
    (by : Source) (m : AccountingMemory) (u : MemoryStatus)
    → by.actor_kind ≡ human
    → is_legal_v2_transition m.status u ≡ true
    → (act m (act_to by u)).0.status ≡ u
unfolding act is_legal_v2_transition
act_to_lem by m approved h e = ground arith
act_to_lem by m rejected h e = ground arith
act_to_lem by m returned h e = ground arith
act_to_lem by m voided h e = ground arith
act_to_lem by m superseded h e = ground arith
act_to_lem by m _ h e = ground arith

reach-run :
    (by : Source) (m : AccountingMemory) {t : MemoryStatus}
    → by.actor_kind ≡ human
    → m.status ⟶* t
    → (acts : List Act) × ((run m acts).status ≡ t)
unfolding run
reach-run by m h here = ([], refl)
reach-run by m h (next {t} {u} r e) =
    let (acts, p) = reach-run by m h r in
    (
      acts ++ act_to by u ∷ [],
      rw (run-append m acts (act_to by u ∷ [])) (act_to_lem by (run m acts) u h (rw p e)),
    )

-- Given a human who may act, the statuses that some history of lifecycle operations brings a memory to are
-- exactly those that the adjacency table reaches from its status.
pub run_reach_iff :
    (by : Source) (m : AccountingMemory) (t : MemoryStatus)
    → by.actor_kind ≡ human
    → (m.status ⟶* t) ↔ ((acts : List Act) × ((run m acts).status ≡ t))
run_reach_iff by m t h =
    ((λ r. reach-run by m h r), (λ p. subst (λ s. m.status ⟶* s) p.1 (run-reach m p.0)))

abbrev pub IsHumanApproval : Act → Type 0
IsHumanApproval (approving a) = a.actor_kind ≡ human
IsHumanApproval _ = ⊥

act_approves :
    (m : AccountingMemory) (a : Act)
    → ¬ (m.status ≡ approved)
    → IsHumanApproval a ⊎ (¬ ((act m a).0.status ≡ approved))
unfolding act
act_approves m (approving s) h = elim (act-cases m (approving s)) [
  | inl e ↦ inr (λ k. h (subst (λ n. n.status ≡ approved) e k))
  | inr (_, may, _) ↦ inl may
]
act_approves m (rejecting s) h = inr (λ k. ground arith)
act_approves m (returning s) h = inr (λ k. ground arith)
act_approves m (voiding s) h = inr (λ k. ground arith)
act_approves m (superseding s) h = inr (λ k. ground arith)

run_approves :
    (m : AccountingMemory) (acts : List Act)
    → ¬ (m.status ≡ approved)
    → (run m acts).status ≡ approved
    → Any IsHumanApproval acts
unfolding run
run_approves m [] h e = h e
run_approves m (a ∷ acts) h e = elim (act_approves m a h) [
  | inl q ↦ inl q
  | inr k ↦ inr (run_approves (act m a).0 acts k e)
]

initial_status-ne-approved : (fe : FiscalEffect) → ¬ (initial_status fe ≡ approved)
unfolding initial_status
initial_status-ne-approved fe h = ground arith

-- The approval gate: a memory saved with any fiscal effect is approved after a history of lifecycle
-- operations only if the history holds an approval by a human.
pub approved_needs_human :
    (fe : FiscalEffect) (m : AccountingMemory) (acts : List Act)
    → m.status ≡ initial_status fe
    → (run m acts).status ≡ approved
    → Any IsHumanApproval acts
approved_needs_human fe m acts e =
    run_approves m acts (λ k. initial_status-ne-approved fe (sym e ∙ k))

abbrev pub IsTerminal : MemoryStatus → Type 0
IsTerminal s = (s ≡ rejected) ⊎ ((s ≡ superseded) ⊎ (s ≡ voided))

act_terminal : (m : AccountingMemory) (a : Act) → IsTerminal m.status → (act m a).0 ≡ m
unfolding act
act_terminal m (approving s) h = ground arith
act_terminal m (rejecting s) h = ground arith
act_terminal m (returning s) h = ground arith
act_terminal m (voiding s) h = ground arith
act_terminal m (superseding s) h = ground arith

-- A rejected, superseded or voided memory never reopens: no history of operations changes it at all.
pub run_terminal : (m : AccountingMemory) (acts : List Act) → IsTerminal m.status → run m acts ≡ m
unfolding run
run_terminal m [] h = refl
run_terminal m (a ∷ acts) h = rw (act_terminal m a h) (run_terminal m acts h)

-- An operation whose actor is an agent. A supersession names no actor.
abbrev pub ByAgent : Act → Type 0
ByAgent (approving a) = a.actor_kind ≡ agent
ByAgent (rejecting a) = a.actor_kind ≡ agent
ByAgent (returning a) = a.actor_kind ≡ agent
ByAgent (voiding a) = a.actor_kind ≡ agent
ByAgent (superseding _) = Unit

act_agent :
    (m : AccountingMemory) (a : Act)
    → ByAgent a
    → ((act m a).0 ≡ m) ⊎ ((act m a).0.status ≡ superseded)
unfolding act
act_agent m (approving s) h = inl (ground arith)
act_agent m (rejecting s) h = inl (ground arith)
act_agent m (returning s) h = inl (ground arith)
act_agent m (voiding s) h = inl (ground arith)
act_agent m (superseding s) h = ground arith

-- Agents never decide: after any history of operations by agents the memory is as it was, or superseded.
pub run_agents :
    (m : AccountingMemory) (acts : List Act)
    → All ByAgent acts
    → (run m acts ≡ m) ⊎ ((run m acts).status ≡ superseded)
unfolding run
run_agents m [] h = inl refl
run_agents m (a ∷ acts) (h, hs) = elim (act_agent m a h) [
  | inl e ↦
      subst (λ n. (run n acts ≡ m) ⊎ ((run n acts).status ≡ superseded)) (sym e)
        (run_agents m acts hs)
  | inr e ↦ inr (rw (run_terminal (act m a).0 acts (inr (inl e))) e)
]
