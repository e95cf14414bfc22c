-- ===== src/Reconstruct/Classify.antt =====
-- The classifier answers the first reason that is met (ClassifyReconstructibility,
-- internal/core/reconstructibility.go).
use drenyra_engram.Base.{
  ◌≡◌, ◌↔◌, inl, inr, refl, sym, subst, ap, ◌∙◌, Str, str_eq, str_eq_iff, Bool, true, false, ◌||◌,
  none, some, List, [], ◌∷◌, ◌++◌, All, In, any, any→Any, Any→any, All-mono, Bool-cases, &&_iff,
  not, arith,
}
use drenyra_engram.Memory.{AccountingMemory}
use drenyra_engram.Verify.{
  VerificationLayer, VerificationReport, VerificationStatus, failed, is_failed,
  layer_payload_canonicalization, layer_envelope_integrity, layer_signature,
  layer_signing_key_validity, layer_tenant_company_scope, layer_chain_link,
  layer_principal_provenance, layer_evidence_availability, layer_object_availability,
  layer_rule_availability, layer_rule_version_vigencia,
}
use drenyra_engram.Reconstruct.{
  ReconstructibilityReason, not_approved, receipt_failed, missing_evidence, evidence_missing_object,
  rule_unresolved, rule_version_failed, is_approved, is_receipt_layer, receipt_chain_failed,
  layer_failed_in, report_layer_failed, classify_reconstructibility,
}
use drenyra_engram.Reconstruct.Classes.{
  receipt_layers, FailsFirst, Fails, all_reasons, earlier, FailsAt, Passes, approved_iff,
}

failed_iff : (s : VerificationStatus) → (is_failed s ≡ true) ↔ (s ≡ failed)
unfolding is_failed
failed_iff s = ground arith

or_chain :
    (a b c d e f g : Bool)
    → (a || b || c || d || e || f || g) ≡ (a || (b || (c || (d || (e || (f || (g || false)))))))
or_chain true b c d e f g = refl
or_chain false true c d e f g = refl
or_chain false false true d e f g = refl
or_chain false false false true e f g = refl
or_chain false false false false true f g = refl
or_chain false false false false false true g = refl
or_chain false false false false false false true = refl
or_chain false false false false false false false = refl

is_receipt_layer-any :
    (name : Str) → is_receipt_layer name ≡ any (λ x. str_eq name x) receipt_layers
unfolding is_receipt_layer any
is_receipt_layer-any name =
    or_chain (str_eq name layer_payload_canonicalization) (str_eq name layer_envelope_integrity)
      (str_eq name layer_signature) (str_eq name layer_signing_key_validity)
      (str_eq name layer_tenant_company_scope) (str_eq name layer_chain_link)
      (str_eq name layer_principal_provenance)

receipt_layer_iff : (name : Str) → (is_receipt_layer name ≡ true) ↔ In name receipt_layers
receipt_layer_iff name =
    let same = is_receipt_layer-any name in
    (
      (λ h. any→Any _ receipt_layers (λ x e. sym ((str_eq_iff name x).0 e)) (sym same ∙ h)),
      (λ i. same ∙ Any→any _ receipt_layers (λ x e. (str_eq_iff name x).1 (sym e)) i),
    )

receipt_chain_iff :
    (h : AccountingMemory) (report : VerificationReport)
    → (receipt_chain_failed report ≡ true) ↔ Fails receipt_failed h report
unfolding receipt_chain_failed
receipt_chain_iff h report = (
  any→Any _ report.layers (λ l e.
      let (a, b) = (&&_iff (is_receipt_layer l.name) (is_failed l.status)).0 e in
      ((receipt_layer_iff l.name).0 a, (failed_iff l.status).0 b)),
  Any→any _ report.layers (λ l (a, b).
      (&&_iff (is_receipt_layer l.name) (is_failed l.status)).1
        ((receipt_layer_iff l.name).1 a, (failed_iff l.status).1 b)),
)

fails_first :
    (name : Str) (ls : List VerificationLayer) → layer_failed_in ls name ≡ true → FailsFirst name ls
unfolding layer_failed_in
fails_first name [] h = cc
fails_first name (l ∷ ls) h = elim (Bool-cases (str_eq l.name name)) [
  | inl e ↦
      ([], l, ls, refl, tt, (str_eq_iff l.name name).0 e, (failed_iff l.status).0 (ground arith))
  | inr e ↦
      let (before, x, after, q, others, n, f) = fails_first name ls (ground arith) in
      (l ∷ before, x, after, ap (◌∷◌ l) q, ((λ k. cc ((str_eq_iff l.name name).1 k)), others), n, f)
]

first_fails :
    (name : Str) (before : List VerificationLayer) (l : VerificationLayer)
    (after : List VerificationLayer)
    → All (λ x. ¬ (x.name ≡ name)) before
    → l.name ≡ name
    → l.status ≡ failed
    → layer_failed_in (before ++ l ∷ after) name ≡ true
unfolding layer_failed_in
first_fails name [] l after others n f = ground (arith, str_eq_iff l.name name, failed_iff l.status)
first_fails name (x ∷ before) l after others n f =
    ground (arith, str_eq_iff x.name name, first_fails name before l after others.1 n f)

report_layer_iff :
    (report : VerificationReport) (name : Str)
    → (report_layer_failed report name ≡ true) ↔ FailsFirst name report.layers
unfolding report_layer_failed
report_layer_iff report name = (
  fails_first name report.layers,
  (λ (before, l, after, q, others, n, f).
      subst (λ ls. layer_failed_in ls name ≡ true) (sym q)
        (first_fails name before l after others n f)),
)

-- The test of a reason.
fails : ReconstructibilityReason → AccountingMemory → VerificationReport → Bool
fails not_approved h report = not (is_approved h.status)
fails receipt_failed h report = receipt_chain_failed report
fails missing_evidence h report = report_layer_failed report layer_evidence_availability
fails evidence_missing_object h report = report_layer_failed report layer_object_availability
fails rule_unresolved h report = report_layer_failed report layer_rule_availability
fails rule_version_failed h report = report_layer_failed report layer_rule_version_vigencia

fails-Fails :
    (r : ReconstructibilityReason) (h : AccountingMemory) (report : VerificationReport)
    → (fails r h report ≡ true) ↔ Fails r h report
unfolding fails
fails-Fails not_approved h report = ground (arith, approved_iff h.status)
fails-Fails receipt_failed h report = receipt_chain_iff h report
fails-Fails missing_evidence h report = report_layer_iff report layer_evidence_availability
fails-Fails evidence_missing_object h report = report_layer_iff report layer_object_availability
fails-Fails rule_unresolved h report = report_layer_iff report layer_rule_availability
fails-Fails rule_version_failed h report = report_layer_iff report layer_rule_version_vigencia

-- No earlier test fails, and the reason's own does.
fails_at :
    (r : ReconstructibilityReason) (h : AccountingMemory) (report : VerificationReport)
    → (classify_reconstructibility h report ≡ some r)
      ↔ ((fails r h report ≡ true) × All (λ q. fails q h report ≡ false) (earlier r))
unfolding fails classify_reconstructibility
fails_at not_approved h report = ground arith
fails_at receipt_failed h report = ground arith
fails_at missing_evidence h report = ground arith
fails_at evidence_missing_object h report = ground arith
fails_at rule_unresolved h report = ground arith
fails_at rule_version_failed h report = ground arith

passes :
    (h : AccountingMemory) (report : VerificationReport)
    → (classify_reconstructibility h report ≡ none)
      ↔ All (λ q. fails q h report ≡ false) all_reasons
unfolding fails classify_reconstructibility
passes h report = ground arith

none_fails :
    (h : AccountingMemory) (report : VerificationReport) (rs : List ReconstructibilityReason)
    → All (λ q. fails q h report ≡ false) rs ↔ All (λ q. ¬ Fails q h report) rs
none_fails h report rs = (
  All-mono rs (λ q e k. cc ((fails-Fails q h report).1 k)),
  All-mono rs (λ q n. elim (Bool-cases (fails q h report)) [
    | inl e ↦ absurd (n ((fails-Fails q h report).0 e))
    | inr e ↦ e
  ]),
)

-- The classifier answers the first reason that is met, in the order of the six.
pub classify_reconstructibility-FailsAt :
    (r : ReconstructibilityReason) (h : AccountingMemory) (report : VerificationReport)
    → (classify_reconstructibility h report ≡ some r) ↔ FailsAt r h report
classify_reconstructibility-FailsAt r h report =
    let at = fails_at r h report in
    let own = fails-Fails r h report in
    let before = none_fails h report (earlier r) in
    ((λ e. let (a, b) = at.0 e in (own.0 a, before.0 b)), (λ (a, b). at.1 (own.1 a, before.1 b)))

-- It answers none where none of them is met.
pub classify_reconstructibility-Passes :
    (h : AccountingMemory) (report : VerificationReport)
    → (classify_reconstructibility h report ≡ none) ↔ Passes h report
classify_reconstructibility-Passes h report =
    let all = none_fails h report all_reasons in
    ((λ e. all.0 ((passes h report).0 e)), (λ p. (passes h report).1 (all.1 p)))
