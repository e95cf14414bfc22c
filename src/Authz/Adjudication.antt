-- ===== src/Authz/Adjudication.antt =====
-- The judgment and reconciliation policies (internal/authz/judgment_policy.go, reconciliation_policy.go).
use drenyra_engram.Base.{
  ◌≡◌, ◌∙◌, subst, ◌↔◌, ◌⊎◌, str_eq, str_eq_iff, Str, true, not, ◌||◌, [], Any, In, Any-mono,
  is_empty, if◌then◌else◌, arith,
}
use drenyra_engram.Base.Int.{ltb_ℤ}
use drenyra_engram.Auth.{
  AccountingRole, senior_accountant, controller, standard, strong, VerifiedApprovalPrincipal,
  ReasonCode,
}
use drenyra_engram.Judgment.{AccountingJudgment}
use drenyra_engram.Reconciliation.{Reconciliation}
use drenyra_engram.Authz.Roles.{
  Decision, judgment_policy, reconciliation_policy, denied, granted, satisfies, assurance_rank,
  contains, contains_iff, Dominates, satisfies→Dominates, Dominates→satisfies,
}

unfoldable pub authorize_judgment : VerifiedApprovalPrincipal → AccountingJudgment → Decision
unfolding denied granted satisfies assurance_rank contains
authorize_judgment p j =
    let deny = denied judgment_policy in
    if not (str_eq p.tenant_id j.tenant_id)
    then deny ReasonCode.tenant_scope_mismatch
    else if is_empty j.company_id || not (contains p.company_scopes j.company_id)
    then deny ReasonCode.company_scope_denied
    else if is_empty p.membership_id
    then deny ReasonCode.membership_inactive
    else if not (satisfies p.roles senior_accountant)
    then deny ReasonCode.role_not_authorized
    else if ltb_ℤ (assurance_rank p.assurance_level) (assurance_rank standard)
    then deny ReasonCode.assurance_too_low
    else granted judgment_policy

unfoldable pub authorize_reconciliation : VerifiedApprovalPrincipal → Reconciliation → Decision
unfolding denied granted satisfies assurance_rank contains
authorize_reconciliation p r =
    let deny = denied reconciliation_policy in
    if not (str_eq p.tenant_id r.tenant_id)
    then deny ReasonCode.tenant_scope_mismatch
    else if is_empty r.company_id || not (contains p.company_scopes r.company_id)
    then deny ReasonCode.company_scope_denied
    else if is_empty p.membership_id
    then deny ReasonCode.membership_inactive
    else if not (satisfies p.roles controller)
    then deny ReasonCode.role_not_authorized
    else if ltb_ℤ (assurance_rank p.assurance_level) (assurance_rank standard)
    then deny ReasonCode.assurance_too_low
    else granted reconciliation_policy

-- A principal may adjudicate for a tenant and a company with a role that dominates `required`.
pub record Adjudicates (p : VerifiedApprovalPrincipal) (tenant company : Str)
    (required : AccountingRole) : Type 0 where
  pub tenant_matches : p.tenant_id ≡ tenant
  pub named : ¬ (company ≡ [])
  pub scoped : In company p.company_scopes
  pub member : ¬ (p.membership_id ≡ [])
  pub role : Any (λ r. Dominates r required) p.roles
  pub assured : (p.assurance_level ≡ standard) ⊎ (p.assurance_level ≡ strong)

authorize_judgment_sound :
    (p : VerifiedApprovalPrincipal) (j : AccountingJudgment)
    → (authorize_judgment p j).allowed ≡ true
    → Adjudicates p j.tenant_id j.company_id senior_accountant
unfolding authorize_judgment
authorize_judgment_sound p j h = record {
  tenant_matches = (str_eq_iff _ _).0 (ground arith);
  named = λ e. ground arith;
  scoped = (contains_iff _ _).0 (ground arith);
  member = λ e. ground arith;
  role = satisfies→Dominates p.roles senior_accountant tt (ground arith);
  assured = ground arith;
}

authorize_judgment_complete :
    (p : VerifiedApprovalPrincipal) (j : AccountingJudgment)
    → Adjudicates p j.tenant_id j.company_id senior_accountant
    → (authorize_judgment p j).allowed ≡ true
unfolding authorize_judgment
authorize_judgment_complete p j a =
    let t = (str_eq_iff _ _).1 a.tenant_matches in
    let s = (contains_iff _ _).1 a.scoped in
    let r = Dominates→satisfies p.roles senior_accountant tt a.role in ground (arith, t, s, r)

authorize_reconciliation_sound :
    (p : VerifiedApprovalPrincipal) (r : Reconciliation)
    → (authorize_reconciliation p r).allowed ≡ true
    → Adjudicates p r.tenant_id r.company_id controller
unfolding authorize_reconciliation
authorize_reconciliation_sound p r h = record {
  tenant_matches = (str_eq_iff _ _).0 (ground arith);
  named = λ e. ground arith;
  scoped = (contains_iff _ _).0 (ground arith);
  member = λ e. ground arith;
  role = satisfies→Dominates p.roles controller tt (ground arith);
  assured = ground arith;
}

authorize_reconciliation_complete :
    (p : VerifiedApprovalPrincipal) (r : Reconciliation)
    → Adjudicates p r.tenant_id r.company_id controller
    → (authorize_reconciliation p r).allowed ≡ true
unfolding authorize_reconciliation
authorize_reconciliation_complete p r a =
    let t = (str_eq_iff _ _).1 a.tenant_matches in
    let s = (contains_iff _ _).1 a.scoped in
    let d = Dominates→satisfies p.roles controller tt a.role in ground (arith, t, s, d)

-- A principal may adjudicate a judgment exactly when it is of the judgment's tenant, the judgment names a
-- company of the membership, the membership is named, some role dominates senior accountant on the
-- ladder, and the assurance is standard or strong; a reconciliation exactly when the same holds of its
-- tenant and company with controller for senior accountant.
pub adjudication_iff :
    (p : VerifiedApprovalPrincipal) (j : AccountingJudgment) (r : Reconciliation)
    → (((authorize_judgment p j).allowed ≡ true)
        ↔ Adjudicates p j.tenant_id j.company_id senior_accountant)
      × (((authorize_reconciliation p r).allowed ≡ true)
          ↔ Adjudicates p r.tenant_id r.company_id controller)
adjudication_iff p j r = (
  (authorize_judgment_sound p j, authorize_judgment_complete p j),
  (authorize_reconciliation_sound p r, authorize_reconciliation_complete p r),
)

-- Who may settle a reconciliation may settle every judgment of the same tenant and company.
controller_settles_both :
    (p : VerifiedApprovalPrincipal) (j : AccountingJudgment) (r : Reconciliation)
    → r.tenant_id ≡ j.tenant_id
    → r.company_id ≡ j.company_id
    → (authorize_reconciliation p r).allowed ≡ true
    → (authorize_judgment p j).allowed ≡ true
controller_settles_both p j r t c h =
    let a = authorize_reconciliation_sound p r h in
    authorize_judgment_complete p j (record {
      tenant_matches = a.tenant_matches ∙ t;
      named = λ e. a.named (c ∙ e);
      scoped = subst (λ x. In x p.company_scopes) c a.scoped;
      member = a.member;
      role = Any-mono p.roles (λ x d. ground arith) a.role;
      assured = a.assured;
    })
