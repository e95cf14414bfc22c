-- ===== src/Auth.antt =====
-- The verified principal of internal/auth/types.go, and the frozen reason codes of internal/auth/errors.go
-- that the policies answer with.
use drenyra_engram.Base.{
  Str, str, str_eq, str_lt, Bool, true, false, List, [], ◌∷◌, ◌++◌, any, if◌then◌else◌,
}

pub data AccountingRole : Type 0 where
  accountant senior_accountant controller : AccountingRole
  tax_reviewer authorized_tax_professional : AccountingRole
  records_compliance_officer tenant_records_owner : AccountingRole
  tax_responsible operational_accountant : AccountingRole
  other : Str → AccountingRole

pub data AssuranceLevel : Type 0 where
  low standard strong : AssuranceLevel
  other : Str → AssuranceLevel

pub record VerifiedApprovalPrincipal : Type 0 where
  pub subject_id : Str
  pub tenant_id : Str
  pub membership_id : Str
  pub company_scopes : List Str
  pub roles : List AccountingRole
  pub authentication_method : Str
  pub assurance_level : AssuranceLevel
  pub authenticated_at : Str
  pub session_id : Str

pub data ReasonCode : Type 0 where
  authorized : ReasonCode
  tenant_scope_mismatch company_scope_denied membership_inactive : ReasonCode
  role_not_authorized role_denied assurance_too_low : ReasonCode
  materiality_limit_exceeded approver_is_requester : ReasonCode
  dual_approval_required same_principal_second_approval : ReasonCode
  review_checks_required : ReasonCode

-- `==` on roles.
unfoldable pub role_eq : AccountingRole → AccountingRole → Bool
role_eq accountant accountant = true
role_eq senior_accountant senior_accountant = true
role_eq controller controller = true
role_eq tax_reviewer tax_reviewer = true
role_eq authorized_tax_professional authorized_tax_professional = true
role_eq records_compliance_officer records_compliance_officer = true
role_eq tenant_records_owner tenant_records_owner = true
role_eq tax_responsible tax_responsible = true
role_eq operational_accountant operational_accountant = true
role_eq (AccountingRole.other s) (AccountingRole.other t) = str_eq s t
role_eq _ _ = false

-- The token of a role.
unfoldable pub role_token : AccountingRole → Str
role_token accountant = str "accountant"
role_token senior_accountant = str "senior_accountant"
role_token controller = str "controller"
role_token tax_reviewer = str "tax_reviewer"
role_token authorized_tax_professional = str "authorized_tax_professional"
role_token records_compliance_officer = str "records_compliance_officer"
role_token tenant_records_owner = str "tenant_records_owner"
role_token tax_responsible = str "tax_responsible"
role_token operational_accountant = str "operational_accountant"
role_token (AccountingRole.other s) = s

pub record PrincipalSnapshot : Type 0 where
  pub subject_id : Str
  pub membership_id : Str
  pub roles : List AccountingRole
  pub authentication_method : Str
  pub assurance_level : AssuranceLevel
  pub authenticated_at : Str

-- The loop of `canonicalRoles`; what it has seen is what it has put out.
distinct_roles : List AccountingRole → List AccountingRole → List AccountingRole
unfolding any str_eq role_token
distinct_roles out [] = out
distinct_roles out (r ∷ rs) =
    distinct_roles
      (if any (λ q. str_eq (role_token q) (role_token r)) out then out else out ++ r ∷ []) rs

insert_role : AccountingRole → List AccountingRole → List AccountingRole
unfolding str_lt role_token
insert_role r [] = r ∷ []
insert_role r (q ∷ qs) =
    let rest = insert_role r qs in
    if str_lt (role_token q) (role_token r) then q ∷ rest else r ∷ q ∷ qs

-- `sort.Slice` by the token, as an insertion.
sort_roles : List AccountingRole → List AccountingRole
unfolding insert_role
sort_roles [] = []
sort_roles (r ∷ rs) = insert_role r (sort_roles rs)

unfoldable pub canonical_roles : List AccountingRole → List AccountingRole
unfolding distinct_roles sort_roles
canonical_roles roles = sort_roles (distinct_roles [] roles)

unfoldable pub principal_snapshot : VerifiedApprovalPrincipal → PrincipalSnapshot
unfolding canonical_roles
principal_snapshot p = record {
  subject_id = p.subject_id;
  membership_id = p.membership_id;
  roles = canonical_roles p.roles;
  authentication_method = p.authentication_method;
  assurance_level = p.assurance_level;
  authenticated_at = p.authenticated_at;
}
