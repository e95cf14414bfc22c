-- ===== src/Authz/Evidence.antt =====
-- The evidence-lifecycle policy of internal/authz/evidence_lifecycle_policy.go.
pub mod Decides
pub mod Grants
use drenyra_engram.Base.{
  Str, str, str_eq, Bool, true, false, not, ◌&&◌, ◌||◌, Option, none, some, List, [], ◌∷◌, ◌==◌,
  any, is_empty, if◌then◌else◌,
}
use drenyra_engram.Base.Int.{pos, ltb_ℤ}
use drenyra_engram.Memory.{ActorKind, human}
use drenyra_engram.Auth.{
  AccountingRole, accountant, controller, records_compliance_officer, tenant_records_owner,
  tax_responsible, operational_accountant, standard, VerifiedApprovalPrincipal, ReasonCode, role_eq,
  role_token,
}
use drenyra_engram.Authz.Roles.{
  Decision, evidence_lifecycle_policy, denied, granted, satisfies, assurance_rank, contains,
}

pub data LifecycleAction : Type 0 where
  request_purge approve_purge second_approve reject_purge : LifecycleAction
  withdraw_approval execute_purge place_hold lift_hold : LifecycleAction
  other : Str → LifecycleAction

pub record LifecycleAuthorizationRequest : Type 0 where
  pub action : LifecycleAction
  pub principal : VerifiedApprovalPrincipal
  pub actor_kind : ActorKind
  pub tenant_id : Str
  pub company_id : Str
  pub category : Str
  pub dual_approval_required : Bool
  pub requester : Option VerifiedApprovalPrincipal
  pub first_approver : Option VerifiedApprovalPrincipal

-- `strings.Contains(s, t)`
starts_with : Str → Str → Bool
starts_with s [] = true
starts_with [] (_ ∷ _) = false
starts_with (a ∷ s) (b ∷ t) = a == b && starts_with s t

str_contains : Str → Str → Bool
unfolding starts_with
str_contains [] t = starts_with [] t
str_contains (a ∷ s) t = starts_with (a ∷ s) t || str_contains s t

-- The deny-list: `operational_accountant`, and any role token that contains "admin".
unfoldable pub is_denied : AccountingRole → Bool
unfolding role_eq str_contains role_token
is_denied r = role_eq r operational_accountant || str_contains (role_token r) (str "admin")

unfoldable pub role_denied : List AccountingRole → Bool
unfolding any is_denied
role_denied roles = any is_denied roles

-- Any of the roles, matched explicitly.
unfoldable pub has_any_role : List AccountingRole → List AccountingRole → Bool
unfolding any role_eq
has_any_role roles required = any (λ r. any (λ want. role_eq r want) required) roles

unfoldable pub same_principal : VerifiedApprovalPrincipal → VerifiedApprovalPrincipal → Bool
same_principal a b = not (is_empty a.subject_id) && str_eq a.subject_id b.subject_id

abbrev pub default_approvers : List AccountingRole
default_approvers = records_compliance_officer ∷ tenant_records_owner ∷ []

abbrev pub second_approvers : List AccountingRole
second_approvers = controller ∷ tax_responsible ∷ []

unfoldable pub lifecycle_role_allowed : LifecycleAction → List AccountingRole → Bool
unfolding satisfies has_any_role
lifecycle_role_allowed request_purge roles = satisfies roles accountant
lifecycle_role_allowed approve_purge roles = has_any_role roles default_approvers
lifecycle_role_allowed reject_purge roles = has_any_role roles default_approvers
lifecycle_role_allowed second_approve roles = has_any_role roles second_approvers
lifecycle_role_allowed withdraw_approval roles =
    has_any_role roles (records_compliance_officer ∷ tenant_records_owner ∷ second_approvers)
lifecycle_role_allowed execute_purge roles =
    has_any_role roles (records_compliance_officer ∷ tenant_records_owner ∷ second_approvers)
lifecycle_role_allowed place_hold roles = has_any_role roles default_approvers
lifecycle_role_allowed lift_hold roles = has_any_role roles default_approvers
lifecycle_role_allowed _ roles = false

unfoldable pub is_human : ActorKind → Bool
is_human human = true
is_human _ = false

unfoldable pub is_second_approve : LifecycleAction → Bool
is_second_approve second_approve = true
is_second_approve _ = false

-- `other != nil && samePrincipal(p, *other)`
unfoldable pub is_principal : VerifiedApprovalPrincipal → Option VerifiedApprovalPrincipal → Bool
unfolding same_principal
is_principal p none = false
is_principal p (some q) = same_principal p q

unfoldable pub authorize : LifecycleAuthorizationRequest → Decision
unfolding denied granted contains role_denied lifecycle_role_allowed assurance_rank is_human
    is_second_approve is_principal
authorize req =
    let p = req.principal in
    let deny = denied evidence_lifecycle_policy in
    if not (str_eq p.tenant_id req.tenant_id)
    then deny ReasonCode.tenant_scope_mismatch
    else if not (contains p.company_scopes req.company_id)
    then deny ReasonCode.company_scope_denied
    else if is_empty p.membership_id
    then deny ReasonCode.membership_inactive
    else if not (is_human req.actor_kind)
    then deny ReasonCode.role_denied
    else if role_denied p.roles
    then deny ReasonCode.role_denied
    else if not (lifecycle_role_allowed req.action p.roles)
    then deny ReasonCode.role_not_authorized
    else if ltb_ℤ (assurance_rank p.assurance_level) (assurance_rank standard)
    then deny ReasonCode.assurance_too_low
    else if is_principal p req.requester
    then deny ReasonCode.approver_is_requester
    else if is_second_approve req.action && not req.dual_approval_required
    then deny ReasonCode.dual_approval_required
    else if is_second_approve req.action && is_principal p req.first_approver
    then deny ReasonCode.same_principal_second_approval
    else granted evidence_lifecycle_policy
