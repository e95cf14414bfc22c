-- ===== src/Reconstruct.antt =====
-- The reconstructibility metric, internal/core/reconstructibility.go.
pub mod Percentage
pub mod Classes
pub mod Classify
pub mod Aggregate
pub mod Verdicts
pub mod Listed
use drenyra_engram.Base.{
  ℕ, zero, suc, ◌+◌, ◌-◌, ◌*◌, ◌/◌, ◌%◌, ◌^◌, Str, str_eq, Bool, true, false, not, ◌&&◌, ◌||◌,
  Option, none, some, List, [], ◌∷◌, ◌++◌, ltb, leb, any, str_lt, if◌then◌else◌,
}
use drenyra_engram.Base.Int.{ℤ, pos, negsuc, ltb_ℤ}
use drenyra_engram.Base.Sorted.{sort_strings}
use drenyra_engram.Memory.{
  Scope, scope_equals, AccountingMemory, MemoryStatus, FiscalEffect, MaterialityLevel, material,
  critical,
}
use drenyra_engram.Verify.{
  VerificationLayer, VerificationReport, is_failed, layer_payload_canonicalization,
  layer_envelope_integrity, layer_signature, layer_signing_key_validity, layer_tenant_company_scope,
  layer_chain_link, layer_principal_provenance, layer_evidence_availability,
  layer_object_availability, layer_rule_availability, layer_rule_version_vigencia,
}

pub data ReconstructibilityReason : Type 0 where
  not_approved receipt_failed missing_evidence : ReconstructibilityReason
  evidence_missing_object rule_unresolved rule_version_failed : ReconstructibilityReason

unfoldable pub is_approved : MemoryStatus → Bool
is_approved MemoryStatus.approved = true
is_approved _ = false

unfoldable pub is_fiscal : FiscalEffect → Bool
is_fiscal FiscalEffect.journal_entry = true
is_fiscal FiscalEffect.adjustment = true
is_fiscal FiscalEffect.reclassification = true
is_fiscal FiscalEffect.declaration = true
is_fiscal FiscalEffect.closing = true
is_fiscal FiscalEffect.sunat_filing = true
is_fiscal _ = false

unfoldable pub is_material_level : Option MaterialityLevel → Bool
is_material_level (some material) = true
is_material_level (some critical) = true
is_material_level _ = false

unfoldable pub is_material_decision : AccountingMemory → Scope → Bool → Bool
unfolding scope_equals is_approved is_fiscal is_material_level
is_material_decision memory requested is_latest =
    if not is_latest
    then false
    else if not (scope_equals memory.scope requested)
    then false
    else if not (is_approved memory.status)
    then false
    else if not (is_fiscal memory.fiscal_effect)
    then false
    else is_material_level memory.materiality_level

unfoldable pub is_receipt_layer : Str → Bool
unfolding str_eq
is_receipt_layer name =
    str_eq name layer_payload_canonicalization
    || str_eq name layer_envelope_integrity
    || str_eq name layer_signature
    || str_eq name layer_signing_key_validity
    || str_eq name layer_tenant_company_scope
    || str_eq name layer_chain_link
    || str_eq name layer_principal_provenance

unfoldable pub receipt_chain_failed : VerificationReport → Bool
receipt_chain_failed report = any (λ l. is_receipt_layer l.name && is_failed l.status) report.layers

-- The first layer of that name decides.
unfoldable pub layer_failed_in : List VerificationLayer → Str → Bool
layer_failed_in [] name = false
layer_failed_in (l ∷ ls) name =
    let rest = layer_failed_in ls name in if str_eq l.name name then is_failed l.status else rest

unfoldable pub report_layer_failed : VerificationReport → Str → Bool
unfolding layer_failed_in
report_layer_failed report name = layer_failed_in report.layers name

-- `none` is `"", true`.
unfoldable pub classify_reconstructibility :
    AccountingMemory → VerificationReport → Option ReconstructibilityReason
classify_reconstructibility memory report =
    if not (is_approved memory.status)
    then some not_approved
    else if receipt_chain_failed report
    then some receipt_failed
    else if report_layer_failed report layer_evidence_availability
    then some missing_evidence
    else if report_layer_failed report layer_object_availability
    then some evidence_missing_object
    else if report_layer_failed report layer_rule_availability
    then some rule_unresolved
    else if report_layer_failed report layer_rule_version_vigencia
    then some rule_version_failed
    else none

-- An `int` of 64 bits: what a sum or a product of numbers wraps to.
unfoldable pub wrap : ℕ → ℤ
wrap x = let m = x % 2 ^ 64 in if ltb m (2 ^ 63) then pos m else negsuc (2 ^ 64 - m - 1)

-- Division by a positive number, towards zero.
unfoldable pub quot : ℤ → ℕ → ℤ
quot (pos a) d = pos (a / d)
quot (negsuc a) zero = pos 0
quot (negsuc a) (suc d) = elim ((a + 1) / suc d) [ zero ↦ pos 0 | suc q ↦ negsuc q ]

-- `q*100 + t` on 64 bits, for a `q` with no wrap in the product: the two's complement of `t` is added.
unfoldable pub add_wrapped : ℕ → ℤ → ℤ
unfolding wrap
add_wrapped x (pos t) = wrap (x + t)
add_wrapped x (negsuc t) = wrap (x + (2 ^ 64 - (t + 1)))

abbrev pub max_int : ℕ
max_int = 2 ^ 63 - 1

unfoldable pub percentage_of : ℕ → ℕ → Option ℤ
percentage_of n d =
    let q = n / d in
    let r = n % d in
    if ltb (max_int / 100) q then none else some (add_wrapped (q * 100) (quot (wrap (r * 100)) d))

-- On two values of `int`; a negative or zero denominator has no percentage.
unfoldable pub reconstructibility_percentage : ℤ → ℤ → Option ℤ
unfolding percentage_of wrap quot add_wrapped
reconstructibility_percentage numerator (negsuc _) = none
reconstructibility_percentage numerator (pos zero) = none
reconstructibility_percentage (negsuc _) (pos (suc d)) = some (pos 0)
reconstructibility_percentage (pos zero) (pos (suc d)) = some (pos 0)
reconstructibility_percentage (pos (suc n)) (pos (suc d)) = percentage_of (suc n) (suc d)

-- `BuildReconstructibilityCounts`
pub record ReconstructibilityCounts : Type 0 where
  pub denominator : ℤ
  pub numerator : ℤ
  pub ratio : ℤ × ℤ
  pub percentage : Option ℤ
  pub zero_denominator : Bool

unfoldable pub build_reconstructibility_counts : ℤ → ℤ → ReconstructibilityCounts
unfolding reconstructibility_percentage
build_reconstructibility_counts denominator numerator =
    if not (ltb_ℤ (pos 0) denominator)
    then record {
      denominator = pos 0;
      numerator = pos 0;
      ratio = (pos 0, pos 0);
      percentage = none;
      zero_denominator = true;
    }
    else record {
      denominator = denominator;
      numerator = numerator;
      ratio = (numerator, denominator);
      percentage = reconstructibility_percentage numerator denominator;
      zero_denominator = false;
    }

abbrev pub Reasons : Type 0
Reasons = ReconstructibilityReason → List Str

pub record ReconstructibilityAggregate : Type 0 where
  pub denominator : ℕ
  pub numerator : ℕ
  pub reasons : Reasons

unfoldable pub reason_eq : ReconstructibilityReason → ReconstructibilityReason → Bool
reason_eq not_approved not_approved = true
reason_eq receipt_failed receipt_failed = true
reason_eq missing_evidence missing_evidence = true
reason_eq evidence_missing_object evidence_missing_object = true
reason_eq rule_unresolved rule_unresolved = true
reason_eq rule_version_failed rule_version_failed = true
reason_eq _ _ = false

-- `agg.Reasons[reason] = append(agg.Reasons[reason], id)`
unfoldable pub note :
    ReconstructibilityReason → Str → ReconstructibilityAggregate → ReconstructibilityAggregate
unfolding reason_eq
note reason id agg = record agg {
  reasons = λ r. if reason_eq r reason then agg.reasons r ++ id ∷ [] else agg.reasons r;
}

-- `sort.Slice` by the decision id, as an insertion.
unfoldable pub insert_head : AccountingMemory → List AccountingMemory → List AccountingMemory
insert_head a [] = a ∷ []
insert_head a (h ∷ hs) =
    let rest = insert_head a hs in
    if str_lt h.identity.id a.identity.id then h ∷ rest else a ∷ h ∷ hs

unfoldable pub sort_heads : List AccountingMemory → List AccountingMemory
unfolding insert_head
sort_heads [] = []
sort_heads (h ∷ hs) = insert_head h (sort_heads hs)

-- The report of a head, and its class; an eligible head with no report has failed its receipt.
unfoldable pub verdict :
    (Str → Option VerificationReport) → AccountingMemory → Option ReconstructibilityReason
verdict reports head = elim (reports head.identity.id) [
  | none ↦ some receipt_failed
  | some report ↦ classify_reconstructibility head report
]

unfoldable pub record_verdict :
    AccountingMemory
    → Option ReconstructibilityReason
    → ReconstructibilityAggregate
    → ReconstructibilityAggregate
unfolding note
record_verdict head none agg = record agg { numerator = agg.numerator + 1 }
record_verdict head (some reason) agg = note reason head.identity.id agg

-- The body of the loop.
unfoldable pub head_step :
    (Str → Option VerificationReport)
    → Scope
    → AccountingMemory
    → ReconstructibilityAggregate
    → ReconstructibilityAggregate
head_step reports scope head agg =
    if not (is_material_decision head scope true)
    then agg
    else record_verdict head (verdict reports head)
        (record agg { denominator = agg.denominator + 1 })

unfoldable pub aggregate_loop :
    (Str → Option VerificationReport)
    → Scope
    → List AccountingMemory
    → ReconstructibilityAggregate
    → ReconstructibilityAggregate
aggregate_loop reports scope [] agg = agg
aggregate_loop reports scope (head ∷ heads) agg =
    aggregate_loop reports scope heads (head_step reports scope head agg)

unfoldable pub aggregate_reconstructibility :
    List AccountingMemory → (Str → Option VerificationReport) → Scope → ReconstructibilityAggregate
aggregate_reconstructibility heads reports scope =
    let agg =
      aggregate_loop reports scope (sort_heads heads)
        (record { denominator = 0; numerator = 0; reasons = λ _. [] }) in
    record agg { reasons = λ r. sort_strings (agg.reasons r) }
