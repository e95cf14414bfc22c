-- ===== src/Reconstruct/Verdicts.antt =====
-- The verdict on a head against what it stands for (AggregateReconstructibility,
-- internal/core/reconstructibility.go).
use drenyra_engram.Base.{
  ◌≡◌, ◌↔◌, ◌⊎◌, inl, inr, refl, sym, ap, ◌∙◌, Str, true, Option, none, some, Option-cases,
}
use drenyra_engram.Memory.{AccountingMemory, Scope}
use drenyra_engram.Verify.{VerificationReport}
use drenyra_engram.Reconstruct.{
  ReconstructibilityReason, receipt_failed, classify_reconstructibility, verdict,
}
use drenyra_engram.Reconstruct.Classes.{Decision, FailsAt, Passes, is_material_decision-Decision}
use drenyra_engram.Reconstruct.Classify.{
  classify_reconstructibility-FailsAt, classify_reconstructibility-Passes,
}
use drenyra_engram.Reconstruct.Aggregate.{reconstructible, reconstructible-verdict}

pub some-eq : {A : Type 0} (a b : A) → some a ≡ some b → a ≡ b
some-eq a b h = cc

-- No report, where the reason is the failed receipt; or a report, of which the reason is the first.
abbrev pub Rejected :
    (Str → Option VerificationReport) → ReconstructibilityReason → AccountingMemory → Type 0
Rejected reports reason h =
    ((reports h.identity.id ≡ none) × (reason ≡ receipt_failed))
    ⊎ ((report : VerificationReport) × (reports h.identity.id ≡ some report)
        × FailsAt reason h report)

-- A report that meets none of the reasons.
abbrev pub Reconstructible : (Str → Option VerificationReport) → AccountingMemory → Type 0
Reconstructible reports h =
    (report : VerificationReport) × (reports h.identity.id ≡ some report) × Passes h report

module _ (reports : Str → Option VerificationReport) where
  verdict_missing :
      (h : AccountingMemory)
      → reports h.identity.id ≡ none
      → verdict reports h ≡ some receipt_failed
  unfolding verdict
  verdict_missing h e = rw (e, verdict) refl

  verdict_reported :
      (h : AccountingMemory) (report : VerificationReport)
      → reports h.identity.id ≡ some report
      → verdict reports h ≡ classify_reconstructibility h report
  unfolding verdict
  verdict_reported h report e = rw (e, verdict) refl

  pub verdict-Rejected :
      (reason : ReconstructibilityReason) (h : AccountingMemory)
      → (verdict reports h ≡ some reason) ↔ Rejected reports reason h
  verdict-Rejected reason h = (
    (λ v. elim (Option-cases (reports h.identity.id)) [
      | inl e ↦ inl (e, some-eq _ _ (sym v ∙ verdict_missing h e))
      | inr (report, e) ↦ inr (
        report,
        e,
        (classify_reconstructibility-FailsAt reason h report).0
            (sym (verdict_reported h report e) ∙ v),
      )
    ]),
    (λ r. elim r [
      | inl (e, q) ↦ verdict_missing h e ∙ ap some (sym q)
      | inr (report, e, f) ↦
          verdict_reported h report e ∙ (classify_reconstructibility-FailsAt reason h report).1 f
    ]),
  )

  verdict-Reconstructible :
      (h : AccountingMemory) → (verdict reports h ≡ none) ↔ Reconstructible reports h
  verdict-Reconstructible h = (
    (λ v. elim (Option-cases (reports h.identity.id)) [
      | inl e ↦ let f = verdict_missing h e in absurd (cc)
      | inr (report, e) ↦ (
        report,
        e,
        (classify_reconstructibility-Passes h report).0 (sym (verdict_reported h report e) ∙ v),
      )
    ]),
    (λ (report, e, p).
        verdict_reported h report e ∙ (classify_reconstructibility-Passes h report).1 p),
  )

module _ (reports : Str → Option VerificationReport) (scope : Scope) where
  pub reconstructible_iff :
      (h : AccountingMemory)
      → (reconstructible reports scope h ≡ true) ↔ (Decision scope h × Reconstructible reports h)
  reconstructible_iff h =
      let d = is_material_decision-Decision scope h in
      let v = verdict-Reconstructible reports h in
      let t = reconstructible-verdict reports scope h in
      ((λ e. let (a, b) = t.0 e in (d.0 a, v.0 b)), (λ (a, b). t.1 (d.1 a, v.1 b)))
