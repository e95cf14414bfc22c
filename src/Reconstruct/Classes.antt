-- ===== src/Reconstruct/Classes.antt =====
-- What a material decision is, and what each reason says of one, beside the eligibility test
-- (IsMaterialDecision, internal/core/reconstructibility.go).
use drenyra_engram.Base.{
  ◌≡◌, ◌↔◌, ◌⊎◌, Str, str_eq_iff, true, Option, some, List, [], ◌∷◌, ◌++◌, Any, All, In, arith,
}
use drenyra_engram.Memory.{
  Scope, ScopeKind, scope_equals, is_company, is_institutional, AccountingMemory, MemoryStatus,
  FiscalEffect, MaterialityLevel, material, critical,
}
use drenyra_engram.Verify.{
  VerificationLayer, VerificationReport, failed, layer_payload_canonicalization,
  layer_envelope_integrity, layer_signature, layer_signing_key_validity, layer_tenant_company_scope,
  layer_chain_link, layer_principal_provenance, layer_evidence_availability,
  layer_object_availability, layer_rule_availability, layer_rule_version_vigencia,
}
use drenyra_engram.Reconstruct.{
  ReconstructibilityReason, not_approved, receipt_failed, missing_evidence, evidence_missing_object,
  rule_unresolved, rule_version_failed, is_approved, is_fiscal, is_material_level,
  is_material_decision,
}

-- Both institutional, or company scopes that agree in every part.
abbrev pub SameScope : Scope → Scope → Type 0
SameScope a b =
    ((a.kind ≡ ScopeKind.institutional) × (b.kind ≡ ScopeKind.institutional))
    ⊎ ((a.kind ≡ ScopeKind.company)
        × (b.kind ≡ ScopeKind.company)
        × (a.organization_id ≡ b.organization_id)
        × (a.company_id ≡ b.company_id)
        × (a.ruc ≡ b.ruc)
        × (a.period ≡ b.period))

abbrev pub fiscal_effects : List FiscalEffect
fiscal_effects =
    FiscalEffect.journal_entry ∷ FiscalEffect.adjustment ∷ FiscalEffect.reclassification
    ∷ FiscalEffect.declaration ∷ FiscalEffect.closing ∷ FiscalEffect.sunat_filing ∷ []

-- A material decision of the scope.
abbrev pub Decision : Scope → AccountingMemory → Type 0
Decision scope h =
    SameScope h.scope scope
    × (h.status ≡ MemoryStatus.approved)
    × In h.fiscal_effect fiscal_effects
    × In h.materiality_level (some material ∷ some critical ∷ [])

-- The layers of the receipt chain, the provenance of the approval among them.
abbrev pub receipt_layers : List Str
receipt_layers =
    layer_payload_canonicalization ∷ layer_envelope_integrity ∷ layer_signature
    ∷ layer_signing_key_validity ∷ layer_tenant_company_scope ∷ layer_chain_link
    ∷ layer_principal_provenance ∷ []

-- The first layer of that name has failed.
abbrev pub FailsFirst : Str → List VerificationLayer → Type 0
FailsFirst name layers =
    (before : List VerificationLayer) × (l : VerificationLayer) × (after : List VerificationLayer)
    × (layers ≡ before ++ l ∷ after)
    × All (λ x. ¬ (x.name ≡ name)) before
    × (l.name ≡ name)
    × (l.status ≡ failed)

-- What each of the six reasons says of a memory and its report.
abbrev pub Fails : ReconstructibilityReason → AccountingMemory → VerificationReport → Type 0
Fails not_approved h report = ¬ (h.status ≡ MemoryStatus.approved)
Fails receipt_failed h report =
    Any (λ l. In l.name receipt_layers × (l.status ≡ failed)) report.layers
Fails missing_evidence h report = FailsFirst layer_evidence_availability report.layers
Fails evidence_missing_object h report = FailsFirst layer_object_availability report.layers
Fails rule_unresolved h report = FailsFirst layer_rule_availability report.layers
Fails rule_version_failed h report = FailsFirst layer_rule_version_vigencia report.layers

-- The reasons in the order in which they are asked, and those asked before one of them.
abbrev pub all_reasons : List ReconstructibilityReason
all_reasons =
    not_approved ∷ receipt_failed ∷ missing_evidence ∷ evidence_missing_object ∷ rule_unresolved
    ∷ rule_version_failed ∷ []

abbrev pub earlier : ReconstructibilityReason → List ReconstructibilityReason
earlier not_approved = []
earlier receipt_failed = not_approved ∷ []
earlier missing_evidence = not_approved ∷ receipt_failed ∷ []
earlier evidence_missing_object = not_approved ∷ receipt_failed ∷ missing_evidence ∷ []
earlier rule_unresolved =
    not_approved ∷ receipt_failed ∷ missing_evidence ∷ evidence_missing_object ∷ []
earlier rule_version_failed =
    not_approved ∷ receipt_failed ∷ missing_evidence ∷ evidence_missing_object ∷ rule_unresolved
    ∷ []

-- The reason is the first that the memory and its report meet.
abbrev pub FailsAt : ReconstructibilityReason → AccountingMemory → VerificationReport → Type 0
FailsAt reason h report = Fails reason h report × All (λ r. ¬ Fails r h report) (earlier reason)

abbrev pub Passes : AccountingMemory → VerificationReport → Type 0
Passes h report = All (λ r. ¬ Fails r h report) all_reasons

company_iff : (k : ScopeKind) → (is_company k ≡ true) ↔ (k ≡ ScopeKind.company)
unfolding is_company
company_iff k = ground arith

institutional_iff : (k : ScopeKind) → (is_institutional k ≡ true) ↔ (k ≡ ScopeKind.institutional)
unfolding is_institutional
institutional_iff k = ground arith

scope_equals-SameScope : (a b : Scope) → (scope_equals a b ≡ true) ↔ SameScope a b
unfolding scope_equals
scope_equals-SameScope a b = ground (
  arith,
  company_iff a.kind,
  company_iff b.kind,
  institutional_iff a.kind,
  institutional_iff b.kind,
  str_eq_iff a.organization_id b.organization_id,
  str_eq_iff a.company_id b.company_id,
  str_eq_iff a.ruc b.ruc,
  str_eq_iff a.period b.period,
)

pub approved_iff : (s : MemoryStatus) → (is_approved s ≡ true) ↔ (s ≡ MemoryStatus.approved)
unfolding is_approved
approved_iff s = ground arith

fiscal_iff : (e : FiscalEffect) → (is_fiscal e ≡ true) ↔ In e fiscal_effects
unfolding is_fiscal
fiscal_iff e = ground arith

level_iff :
    (m : Option MaterialityLevel)
    → (is_material_level m ≡ true) ↔ In m (some material ∷ some critical ∷ [])
unfolding is_material_level
level_iff m = ground arith

pub is_material_decision-Decision :
    (scope : Scope) (h : AccountingMemory)
    → (is_material_decision h scope true ≡ true) ↔ Decision scope h
unfolding is_material_decision
is_material_decision-Decision scope h = ground (
  arith,
  scope_equals-SameScope h.scope scope,
  approved_iff h.status,
  fiscal_iff h.fiscal_effect,
  level_iff h.materiality_level,
)
