-- ===== src/Authz/Approval.antt =====
-- The approval policy of internal/authz/approval_policy.go.
pub mod Matrix
use drenyra_engram.Base.{
  ◌≡◌, refl, ◌↔◌, ◌⊎◌, inl, inr, Str, str_eq, str_eq_iff, Bool, true, false, not, ◌&&◌, ◌||◌,
  Option, none, some, List, [], Any, subst, sym, In, Any-mono, is_empty, Bool-cases, if◌then◌else◌,
  arith,
}
use drenyra_engram.Base.Int.{ltb_ℤ}
use mathlib.Core.Option
use drenyra_engram.Memory.{
  FiscalEffect, journal_entry, declaration, closing, adjustment, reclassification, approval,
  sunat_filing, MaterialityLevel, normal, material, critical, ScopeKind, AccountingMemory,
  is_company,
}
use drenyra_engram.Auth.{
  AccountingRole, accountant, senior_accountant, controller, tax_reviewer,
  authorized_tax_professional, AssuranceLevel, standard, strong, VerifiedApprovalPrincipal,
  ReasonCode, role_eq,
}
use drenyra_engram.Authz.Roles.{
  Decision, approval_policy, denied, granted, role_eq_iff, IsAsked, satisfies, assurance_rank,
  contains, Dominates, satisfies→Dominates, Dominates→satisfies, contains_iff,
}

unfoldable pub base_role : FiscalEffect → Option AccountingRole
base_role journal_entry = some accountant
base_role adjustment = some accountant
base_role reclassification = some accountant
base_role approval = some senior_accountant
base_role closing = some controller
base_role declaration = some tax_reviewer
base_role sunat_filing = some authorized_tax_professional
base_role _ = none

-- The declared materiality raises the base role, inside the accounting ladder only.
unfoldable pub required_role : AccountingRole → Option MaterialityLevel → AccountingRole
required_role accountant (some critical) = controller
required_role senior_accountant (some critical) = controller
required_role accountant (some material) = senior_accountant
required_role base _ = base

unfoldable pub min_assurance : FiscalEffect → AssuranceLevel
min_assurance sunat_filing = strong
min_assurance _ = standard

-- Steps 4 to 6 of `Authorize`: role, assurance, materiality.
role_steps : VerifiedApprovalPrincipal → AccountingMemory → Option AccountingRole → Decision
unfolding denied granted required_role min_assurance assurance_rank role_eq
role_steps p m none = denied approval_policy ReasonCode.role_not_authorized
role_steps p m (some base) =
    if not (satisfies p.roles base)
    then denied approval_policy ReasonCode.role_not_authorized
    else if ltb_ℤ (assurance_rank p.assurance_level)
        (assurance_rank (min_assurance m.fiscal_effect))
    then denied approval_policy ReasonCode.assurance_too_low
    else let raised = required_role base m.materiality_level in
      if not (role_eq raised base) && not (satisfies p.roles raised)
      then denied approval_policy ReasonCode.materiality_limit_exceeded
      else granted approval_policy

unfoldable pub authorize : VerifiedApprovalPrincipal → AccountingMemory → Decision
unfolding role_steps base_role is_company denied
authorize p m =
    if not (str_eq p.tenant_id m.scope.organization_id)
    then denied approval_policy ReasonCode.tenant_scope_mismatch
    else if not (is_company m.scope.kind) || not (contains p.company_scopes m.scope.company_id)
    then denied approval_policy ReasonCode.company_scope_denied
    else if is_empty p.membership_id
    then denied approval_policy ReasonCode.membership_inactive
    else role_steps p m (base_role m.fiscal_effect)

-- Separation of duties: the reviewer is the one who recorded the pending revision.
unfoldable pub sod_violation : Str → Str → Bool
sod_violation proposer_recorded_by reviewer_subject_id =
    not (is_empty proposer_recorded_by) && str_eq proposer_recorded_by reviewer_subject_id

unfoldable pub review_checks_required : Option MaterialityLevel → Bool
review_checks_required (some material) = true
review_checks_required (some critical) = true
review_checks_required _ = false

pub record ReviewChecks : Type 0 where
  pub evidence_inspected : Bool
  pub rule_inspected : Bool

-- An acknowledgement that may be omitted.
pub record ReviewAcknowledgement : Type 0 where
  pub present : Bool
  pub value : Bool

pub record ReviewChecksV1 : Type 0 where
  pub evidence_inspected : ReviewAcknowledgement
  pub rule_inspected : ReviewAcknowledgement

-- `none` is `nil`; the one error is REVIEW_CHECKS_REQUIRED.
unfoldable pub validate_review_checks : Option MaterialityLevel → ReviewChecks → Option ReasonCode
unfolding review_checks_required
validate_review_checks level checks =
    if review_checks_required level && not (checks.evidence_inspected && checks.rule_inspected)
    then some ReasonCode.review_checks_required
    else none

unfoldable pub validate_review_checks_v1 :
    Option MaterialityLevel → ReviewChecksV1 → Option ReasonCode
unfolding review_checks_required
validate_review_checks_v1 level checks =
    let evidence_ok = checks.evidence_inspected.present && checks.evidence_inspected.value in
    let rule_ok = checks.rule_inspected.present && checks.rule_inspected.value in
    if review_checks_required level && not (evidence_ok && rule_ok)
    then some ReasonCode.review_checks_required
    else none
