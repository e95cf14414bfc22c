-- ===== src/Examples/Machines.antt =====
-- The theorems on the three state machines, at concrete histories.
use drenyra_engram.Base.{◌≡◌, refl, ◌↔◌, ◌⊎◌, inl, str, none, some, List, [], ◌∷◌, Any}
use drenyra_engram.Memory.{MemoryStatus, FiscalEffect}
use drenyra_engram.Lifecycle
use drenyra_engram.Lifecycle.{initial_status}
use drenyra_engram.Lifecycle.Transitions.{Legal, act_iff_Legal, act_effect, advanced}
use drenyra_engram.Lifecycle.Runs.{
  ◌⟶*◌, IsHumanApproval, run_reach_iff, approved_needs_human, run_terminal, run_agents,
}
use drenyra_engram.Judgment
use drenyra_engram.Reconciliation
use drenyra_engram.Examples.Data.{ana, bot, entry, snapshot, judgment, reconciliation}

-- An agent tries first, then a human approves.
abbrev history : List Lifecycle.Act
history = Lifecycle.Act.approving bot ∷ Lifecycle.Act.approving ana ∷ []

approved_needs_human_example : Any IsHumanApproval history
unfolding Lifecycle.run Lifecycle.act initial_status
approved_needs_human_example =
    approved_needs_human FiscalEffect.journal_entry entry history refl refl

run_reach_iff_example :
    (MemoryStatus.pending_review ⟶* MemoryStatus.voided)
    ↔ ((acts : List Lifecycle.Act) × ((Lifecycle.run entry acts).status ≡ MemoryStatus.voided))
run_reach_iff_example = run_reach_iff ana entry MemoryStatus.voided refl

run_terminal_example :
    Lifecycle.run (record entry { status = MemoryStatus.rejected }) history
    ≡ record entry { status = MemoryStatus.rejected }
run_terminal_example =
    run_terminal (record entry { status = MemoryStatus.rejected }) history (inl refl)

run_agents_example :
    (Lifecycle.run entry (Lifecycle.Act.approving bot ∷ []) ≡ entry)
    ⊎ ((Lifecycle.run entry (Lifecycle.Act.approving bot ∷ [])).status ≡ MemoryStatus.superseded)
run_agents_example = run_agents entry (Lifecycle.Act.approving bot ∷ []) (refl, tt)

act_iff_Legal_example :
    ((Lifecycle.act entry (Lifecycle.Act.approving ana)).1 ≡ none)
    ↔ Legal entry (Lifecycle.Act.approving ana)
act_iff_Legal_example = act_iff_Legal entry (Lifecycle.Act.approving ana)

act_effect_example :
    ((Lifecycle.act entry (Lifecycle.Act.approving ana)).1 ≡ none
      → (Lifecycle.act entry (Lifecycle.Act.approving ana)).0
        ≡ advanced entry (Lifecycle.Act.approving ana))
    × ((e : Lifecycle.LifecycleError)
        → (Lifecycle.act entry (Lifecycle.Act.approving ana)).1 ≡ some e
        → (Lifecycle.act entry (Lifecycle.Act.approving ana)).0 ≡ entry)
act_effect_example = act_effect entry (Lifecycle.Act.approving ana)

abbrev confirm : Judgment.Act
confirm = Judgment.Act.confirming (str "they agree") (some snapshot) (str "v1") (str "2024-01-12")

abbrev confirmed_judgment : Judgment.AccountingJudgment
confirmed_judgment = record judgment { status = Judgment.JudgmentStatus.confirmed }

run-IsSettled_example :
    Judgment.Machine.IsSettled (Judgment.run confirmed_judgment (confirm ∷ [])).status
    × Judgment.Machine.SameDecision confirmed_judgment
        (Judgment.run confirmed_judgment (confirm ∷ []))
run-IsSettled_example = Judgment.Machine.run-IsSettled confirmed_judgment (confirm ∷ []) (λ e. cc e)

abbrev confirmation : Reconciliation.Act
confirmation =
    Reconciliation.Act.confirming (str "they agree") (some snapshot) (str "v1") (str "2024-01-12")

abbrev confirmed_reconciliation : Reconciliation.Reconciliation
confirmed_reconciliation = record reconciliation {
  status = Reconciliation.ReconciliationStatus.confirmed;
}

run_final_example :
    Reconciliation.Machine.IsSettled
      (Reconciliation.run confirmed_reconciliation (confirmation ∷ [])).status
    × Reconciliation.Machine.SameDecision confirmed_reconciliation
        (Reconciliation.run confirmed_reconciliation (confirmation ∷ []))
run_final_example =
    Reconciliation.Machine.run_final confirmed_reconciliation (confirmation ∷ []) (λ e. cc e)
