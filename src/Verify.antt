-- ===== src/Verify.antt =====
-- The pure verification layers of internal/core/verify.go: what one check answers, how the instances of
-- a layer are merged, and how a report is closed.
pub mod Outcome
pub mod Supersession
pub mod Walk
use drenyra_engram.Base.{
  ℕ, zero, suc, Str, str, str_eq, Bool, true, false, not, ◌&&◌, ◌||◌, Option, none, some, List, [],
  ◌∷◌, ◌++◌, length, ◌==◌, is_empty, if◌then◌else◌,
}
use drenyra_engram.Base.Sorted.{member}
use drenyra_engram.FiscalScope.{itoa}

pub data VerificationStatus : Type 0 where
  passed failed skipped : VerificationStatus
  other : Str → VerificationStatus

pub record VerificationLayer : Type 0 where
  pub name : Str
  pub status : VerificationStatus
  pub detail : Str

pub record ReceiptVerification : Type 0 where
  pub receipt_hash : Str
  pub action : Str
  pub layers : List VerificationLayer

pub data VerificationOutcome : Type 0 where
  outcome_passed outcome_failed : VerificationOutcome

-- `RuleVersions`, the traces of the rule links, is written by the services only.
pub record VerificationReport : Type 0 where
  pub subject_type : Str
  pub subject_id : Str
  pub outcome : VerificationOutcome
  pub receipts : List ReceiptVerification
  pub layers : List VerificationLayer
  pub accounting_correctness : Str

abbrev pub accounting_correctness_not_asserted : Str
accounting_correctness_not_asserted = str "Accounting correctness: NOT ASSERTED"

abbrev pub layer_payload_canonicalization : Str
layer_payload_canonicalization = str "payload canonicalization"

abbrev pub layer_envelope_integrity : Str
layer_envelope_integrity = str "envelope integrity"

abbrev pub layer_signature : Str
layer_signature = str "signature"

abbrev pub layer_signing_key_validity : Str
layer_signing_key_validity = str "signing-key validity"

abbrev pub layer_tenant_company_scope : Str
layer_tenant_company_scope = str "tenant/company scope"

abbrev pub layer_chain_link : Str
layer_chain_link = str "chain link"

abbrev pub layer_principal_provenance : Str
layer_principal_provenance = str "principal provenance"

abbrev pub layer_supersession_chain : Str
layer_supersession_chain = str "supersession chain"

abbrev pub layer_evidence_availability : Str
layer_evidence_availability = str "evidence availability"

abbrev pub layer_object_availability : Str
layer_object_availability = str "object availability"

abbrev pub layer_rule_availability : Str
layer_rule_availability = str "rule availability"

abbrev pub layer_rule_version_vigencia : Str
layer_rule_version_vigencia = str "rule version/vigencia"

abbrev pub layer_judgment_hash : Str
layer_judgment_hash = str "judgment hash"

unfoldable pub layer_passed : Str → Str → VerificationLayer
layer_passed name detail = record { name = name; status = passed; detail = detail }

unfoldable pub layer_failed : Str → Str → VerificationLayer
layer_failed name detail = record { name = name; status = failed; detail = detail }

unfoldable pub layer_skipped : Str → Str → VerificationLayer
layer_skipped name detail = record { name = name; status = skipped; detail = detail }

pub record SubjectScope : Type 0 where
  pub tenant_id : Str
  pub company_id : Str
  pub fiscal_period_id : Str

unfoldable pub scope_eq : SubjectScope → SubjectScope → Bool
unfolding str_eq
scope_eq a b =
    str_eq a.tenant_id b.tenant_id
    && str_eq a.company_id b.company_id
    && str_eq a.fiscal_period_id b.fiscal_period_id

pub record SupersessionLink : Type 0 where
  pub subject_id : Str
  pub successor_id : Str
  pub is_superseded : Bool
  pub scope : SubjectScope

-- The bytes of the dash in two of the details.
abbrev dash : Str
dash = 0xE2 ∷ 0x80 ∷ 0x94 ∷ []

-- `links[len(links)-1].SubjectID`, which is asked of a list that is not empty.
last_subject : List SupersessionLink → Str
last_subject [] = []
last_subject (l ∷ []) = l.subject_id
last_subject (_ ∷ l ∷ ls) = last_subject (l ∷ ls)

-- The loop of `VerifySupersessionChain`; `none` is the end of the loop. A link is the last of the walk
-- when nothing is behind it.
unfoldable pub walk_chain : SubjectScope → List Str → List SupersessionLink → Option Str
walk_chain scope seen [] = none
walk_chain scope seen (link ∷ links) =
    let rest = walk_chain scope (link.subject_id ∷ seen) links in
    if not (scope_eq link.scope scope)
    then some (
        str "supersession link at "
        ++ link.subject_id
        ++ str " crosses scope (tenant/company/fiscal period)")
    else if member link.subject_id seen
    then some (str "supersession cycle detected at " ++ link.subject_id)
    else if not (is_empty link.successor_id)
    then if not link.is_superseded
      then some (
          str "status of "
          ++ link.subject_id
          ++ str " disagrees with its successor relation to "
          ++ link.successor_id
          ++ str " (row is not superseded)")
      else rest
    else if link.is_superseded
    then some (
        str "status of "
        ++ link.subject_id
        ++ str " is superseded but no successor relation resolves (missing successor)")
    else if not (length links == 0)
    then some (str "the terminal subject is not the last step of the walk")
    else rest

unfoldable pub verify_supersession_chain : List SupersessionLink → SubjectScope → VerificationLayer
unfolding last_subject layer_failed layer_passed
verify_supersession_chain [] scope =
    layer_failed layer_supersession_chain
      (str "no subject row to walk " ++ dash ++ str " supersession chain cannot be established")
verify_supersession_chain (l ∷ ls) scope = elim (walk_chain scope [] (l ∷ ls)) [
  | some detail ↦ layer_failed layer_supersession_chain detail
  | none ↦
      layer_passed layer_supersession_chain
        (str "supersession chain is current at " ++ last_subject (l ∷ ls))
]

unfoldable pub is_failed : VerificationStatus → Bool
is_failed failed = true
is_failed _ = false

unfoldable pub is_skipped : VerificationStatus → Bool
is_skipped skipped = true
is_skipped _ = false

-- The loop of `AggregateLayers`: the detail of the first instance that failed, or whether all were skipped.
pub data Scan : Type 0 where
  failed_with : Str → Scan
  all_skipped : Bool → Scan

unfoldable pub scan : Bool → List VerificationLayer → Scan
unfolding is_failed is_skipped
scan skips [] = all_skipped skips
scan skips (l ∷ ls) =
    let rest = scan (if not (is_skipped l.status) then false else skips) ls in
    if is_failed l.status then failed_with l.detail else rest

unfoldable pub merge : Str → VerificationLayer → ℕ → Scan → VerificationLayer
unfolding layer_failed layer_passed itoa
merge name first n (failed_with detail) = layer_failed name detail
merge name first n (all_skipped true) = record first { name = name; status = skipped }
merge name first n (all_skipped false) =
    layer_passed name (str "all " ++ itoa n ++ str " receipts passed")

unfoldable pub aggregate_layers : Str → List VerificationLayer → VerificationLayer
unfolding layer_skipped merge
aggregate_layers name [] = layer_skipped name (str "inapplicable")
aggregate_layers name (l ∷ []) = record l { name = name }
aggregate_layers name (l ∷ m ∷ ls) = merge name l (length (l ∷ m ∷ ls)) (scan true (l ∷ m ∷ ls))

unfoldable pub new_report : Str → Str → VerificationReport
new_report subject_type subject_id = record {
  subject_type = subject_type;
  subject_id = subject_id;
  outcome = outcome_passed;
  receipts = [];
  layers = [];
  accounting_correctness = [];
}

unfoldable pub outcome_of : List VerificationLayer → VerificationOutcome
unfolding is_failed
outcome_of [] = outcome_passed
outcome_of (l ∷ ls) =
    let rest = outcome_of ls in if is_failed l.status then outcome_failed else rest

unfoldable pub finalize : VerificationReport → VerificationReport
unfolding outcome_of
finalize r = record r {
  outcome = outcome_of r.layers;
  accounting_correctness = accounting_correctness_not_asserted;
}
