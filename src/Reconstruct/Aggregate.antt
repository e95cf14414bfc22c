-- ===== src/Reconstruct/Aggregate.antt =====
-- What the aggregate of the metric counts (AggregateReconstructibility, internal/core/reconstructibility.go).
use drenyra_engram.Base.{
  ℕ, suc, ◌+◌, ◌≡◌, ◌↔◌, inl, inr, refl, ap, ◌∙◌, Str, Bool, true, false, Option, none, some, List,
  [], ◌∷◌, ◌++◌, length, count, Bool-cases, if◌then◌else◌, arith,
}
use drenyra_engram.Base.Sorted.{sort_strings, length-sort_strings}
use drenyra_engram.Memory.{AccountingMemory, Scope}
use drenyra_engram.Verify.{VerificationReport}
use drenyra_engram.Reconstruct.{
  ReconstructibilityReason, ReconstructibilityAggregate, not_approved, receipt_failed,
  missing_evidence, evidence_missing_object, rule_unresolved, rule_version_failed,
  is_material_decision, verdict, record_verdict, head_step, note, sort_heads, insert_head,
  aggregate_loop, aggregate_reconstructibility, reason_eq,
}

count-insert_head :
    (c : AccountingMemory → Bool) (a : AccountingMemory) (hs : List AccountingMemory)
    → count c (insert_head a hs) ≡ count c (a ∷ hs)
unfolding insert_head
count-insert_head c a [] = refl
count-insert_head c a (h ∷ hs) = ground (arith, count-insert_head c a hs)

pub count-sort_heads :
    (c : AccountingMemory → Bool) (hs : List AccountingMemory)
    → count c (sort_heads hs) ≡ count c hs
unfolding sort_heads
count-sort_heads c [] = refl
count-sort_heads c (h ∷ hs) =
    count-insert_head c h (sort_heads hs) ∙ (ground (arith, count-sort_heads c hs))

-- The decisions listed under the six reasons.
abbrev pub listed : (ReconstructibilityReason → List Str) → ℕ
listed r =
    length (r not_approved)
    + length (r receipt_failed)
    + length (r missing_evidence)
    + length (r evidence_missing_object)
    + length (r rule_unresolved)
    + length (r rule_version_failed)

length-snoc : (xs : List Str) (x : Str) → length (xs ++ x ∷ []) ≡ suc (length xs)
length-snoc [] x = refl
length-snoc (y ∷ xs) x = ap suc (length-snoc xs x)

listed-note :
    (reason : ReconstructibilityReason) (id : Str) (agg : ReconstructibilityAggregate)
    → listed (note reason id agg).reasons ≡ suc (listed agg.reasons)
unfolding note reason_eq
listed-note not_approved id agg = omega (arith, length-snoc (agg.reasons not_approved) id)
listed-note receipt_failed id agg = omega (arith, length-snoc (agg.reasons receipt_failed) id)
listed-note missing_evidence id agg = omega (arith, length-snoc (agg.reasons missing_evidence) id)
listed-note evidence_missing_object id agg =
    omega (arith, length-snoc (agg.reasons evidence_missing_object) id)
listed-note rule_unresolved id agg = omega (arith, length-snoc (agg.reasons rule_unresolved) id)
listed-note rule_version_failed id agg =
    omega (arith, length-snoc (agg.reasons rule_version_failed) id)

abbrev pub eligible : Scope → AccountingMemory → Bool
eligible scope h = is_material_decision h scope true

module _ (reports : Str → Option VerificationReport) (scope : Scope) where
  is_none : Option ReconstructibilityReason → Bool
  is_none none = true
  is_none (some _) = false

  -- An eligible head that no check rejects.
  unfoldable pub reconstructible : AccountingMemory → Bool
  unfolding is_none
  reconstructible h = if eligible scope h then is_none (verdict reports h) else false

  pub reconstructible-verdict :
      (h : AccountingMemory)
      → (reconstructible h ≡ true) ↔ ((eligible scope h ≡ true) × (verdict reports h ≡ none))
  unfolding reconstructible is_none
  reconstructible-verdict h = ground arith

  -- One eligible head is counted once: in the numerator, or under one reason.
  record_verdict-counts :
      (h : AccountingMemory) (o : Option ReconstructibilityReason)
      (agg : ReconstructibilityAggregate)
      → ((record_verdict h o agg).denominator ≡ agg.denominator)
        × ((record_verdict h o agg).numerator + listed (record_verdict h o agg).reasons
            ≡ suc (agg.numerator + listed agg.reasons))
        × ((record_verdict h o agg).numerator
            ≡ (if is_none o then suc agg.numerator else agg.numerator))
  unfolding record_verdict is_none
  record_verdict-counts h none agg = (refl, omega arith, omega arith)
  record_verdict-counts h (some reason) agg = (unfold note in refl, number, unfold note in refl)
    where
      number :
          (note reason h.identity.id agg).numerator + listed (note reason h.identity.id agg).reasons
          ≡ suc (agg.numerator + listed agg.reasons)
      number = omega (arith, listed-note reason h.identity.id agg, same)
        where
          same : (note reason h.identity.id agg).numerator ≡ agg.numerator
          same = unfold note in refl

  bit : Bool → ℕ
  bit true = 1
  bit false = 0

  count-cons :
      (c : AccountingMemory → Bool) (h : AccountingMemory) (hs : List AccountingMemory)
      → count c (h ∷ hs) ≡ bit (c h) + count c hs
  unfolding bit
  count-cons c h hs = ground arith

  -- What `n` more eligible heads, `m` of them reconstructible, do to an aggregate.
  abbrev pub Counts : ReconstructibilityAggregate → ReconstructibilityAggregate → ℕ → ℕ → Type 0
  Counts agg end n m =
      (end.denominator ≡ agg.denominator + n)
      × (end.numerator + listed end.reasons ≡ agg.numerator + listed agg.reasons + n)
      × (end.numerator ≡ agg.numerator + m)

  head_step-Counts :
      (h : AccountingMemory) (agg : ReconstructibilityAggregate)
      → Counts agg
          (head_step reports scope h agg)
          (bit (eligible scope h))
          (bit (reconstructible h))
  unfolding head_step reconstructible bit
  head_step-Counts h agg = elim (Bool-cases (eligible scope h)) [
    | inr e ↦ rw e (omega arith, omega arith, omega arith)
    | inl e ↦ rw e (
        counted (verdict reports h) (
          record_verdict-counts h (verdict reports h)
            (record agg { denominator = agg.denominator + 1 })))
  ]
    where
      next : ReconstructibilityAggregate
      next = record agg { denominator = agg.denominator + 1 }

      counted :
          (o : Option ReconstructibilityReason)
          → ((record_verdict h o next).denominator ≡ next.denominator)
            × ((record_verdict h o next).numerator + listed (record_verdict h o next).reasons
                ≡ suc (next.numerator + listed next.reasons))
            × ((record_verdict h o next).numerator
                ≡ (if is_none o then suc next.numerator else next.numerator))
          → Counts agg (record_verdict h o next) 1 (bit (is_none o))
      counted o (p, q, r) = (omega (arith, p), omega (arith, q), ground (arith, r))

  loop-Counts :
      (hs : List AccountingMemory) (agg : ReconstructibilityAggregate)
      → Counts agg
          (aggregate_loop reports scope hs agg)
          (count (eligible scope) hs)
          (count reconstructible hs)
  unfolding aggregate_loop
  loop-Counts [] agg = (omega arith, omega arith, omega arith)
  loop-Counts (h ∷ hs) agg =
      let (a, b, c) = loop-Counts hs (head_step reports scope h agg) in
      let (p, q, r) = head_step-Counts h agg in
      let m = count-cons (eligible scope) h hs in
      let n = count-cons reconstructible h hs in
      (omega (arith, a, p, m), omega (arith, b, q, m), omega (arith, c, r, n))

unfoldable pub start : ReconstructibilityAggregate
start = record { denominator = 0; numerator = 0; reasons = λ _. [] }

sorted_reasons : ReconstructibilityAggregate → ReconstructibilityAggregate
sorted_reasons agg = record agg { reasons = λ r. sort_strings (agg.reasons r) }

sorted-listed :
    (agg : ReconstructibilityAggregate) → listed (sorted_reasons agg).reasons ≡ listed agg.reasons
unfolding sorted_reasons
sorted-listed agg = omega (
  arith,
  length-sort_strings (agg.reasons not_approved),
  length-sort_strings (agg.reasons receipt_failed),
  length-sort_strings (agg.reasons missing_evidence),
  length-sort_strings (agg.reasons evidence_missing_object),
  length-sort_strings (agg.reasons rule_unresolved),
  length-sort_strings (agg.reasons rule_version_failed),
)

-- The three numbers of the aggregate, by the tests of the code.
pub aggregate_counts :
    (heads : List AccountingMemory) (reports : Str → Option VerificationReport) (scope : Scope)
    → ((aggregate_reconstructibility heads reports scope).denominator
        ≡ count (eligible scope) heads)
      × ((aggregate_reconstructibility heads reports scope).numerator
          ≡ count (reconstructible reports scope) heads)
      × ((aggregate_reconstructibility heads reports scope).numerator
            + listed (aggregate_reconstructibility heads reports scope).reasons
          ≡ (aggregate_reconstructibility heads reports scope).denominator)
unfolding aggregate_reconstructibility start sorted_reasons
aggregate_counts heads reports scope =
    let (a, b, c) = loop-Counts reports scope (sort_heads heads) start in
    let m = count-sort_heads (eligible scope) heads in
    let n = count-sort_heads (reconstructible reports scope) heads in
    let l = sorted-listed (aggregate_loop reports scope (sort_heads heads) start) in
    (omega (arith, a, m), omega (arith, c, n), omega (arith, l, a, b))
