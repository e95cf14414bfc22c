-- ===== src/Authz/Approval/Matrix.antt =====
-- The approval policy decides the frozen matrix (internal/authz/approval_policy.go).
use drenyra_engram.Base.{
  ◌≡◌, refl, ◌↔◌, ◌⊎◌, str_eq_iff, true, false, Option, none, some, List, [], Any, subst, sym, ap,
  ◌∙◌, In, Any-mono, arith,
}
use drenyra_engram.Base.Int.{ltb_ℤ}
use mathlib.Core.Option
use drenyra_engram.Memory.{
  FiscalEffect, journal_entry, declaration, closing, adjustment, reclassification, approval,
  sunat_filing, MaterialityLevel, material, critical, ScopeKind, AccountingMemory,
}
use drenyra_engram.Authz.Approval.{base_role, required_role, min_assurance, role_steps, authorize}
use drenyra_engram.Auth.{
  AccountingRole, accountant, senior_accountant, controller, tax_reviewer,
  authorized_tax_professional, AssuranceLevel, standard, strong, VerifiedApprovalPrincipal,
}
use drenyra_engram.Authz.Roles.{
  role_eq_iff, IsAsked, satisfies, assurance_rank, Dominates, satisfies→Dominates,
  Dominates→satisfies, contains_iff,
}

-- The frozen matrix: the role that an effect at a declared materiality asks for.
abbrev pub needed : FiscalEffect → Option MaterialityLevel → Option AccountingRole
needed journal_entry (some material) = some senior_accountant
needed journal_entry (some critical) = some controller
needed journal_entry _ = some accountant
needed adjustment (some material) = some senior_accountant
needed adjustment (some critical) = some controller
needed adjustment _ = some accountant
needed reclassification (some material) = some senior_accountant
needed reclassification (some critical) = some controller
needed reclassification _ = some accountant
needed approval (some critical) = some controller
needed approval _ = some senior_accountant
needed closing _ = some controller
needed declaration _ = some tax_reviewer
needed sunat_filing _ = some authorized_tax_professional
needed _ _ = none

abbrev pub Holds : List AccountingRole → Option AccountingRole → Type 0
Holds roles none = ⊥
Holds roles (some q) = Any (λ r. Dominates r q) roles

abbrev pub Assured : FiscalEffect → AssuranceLevel → Type 0
Assured sunat_filing level = level ≡ strong
Assured _ level = (level ≡ standard) ⊎ (level ≡ strong)

-- What the matrix grants, with no order of checks.
pub record Authorized (p : VerifiedApprovalPrincipal) (m : AccountingMemory) : Type 0 where
  pub tenant : p.tenant_id ≡ m.scope.organization_id
  pub company : m.scope.kind ≡ ScopeKind.company
  pub scoped : In m.scope.company_id p.company_scopes
  pub member : ¬ (p.membership_id ≡ [])
  pub role : Holds p.roles (needed m.fiscal_effect m.materiality_level)
  pub assured : Assured m.fiscal_effect p.assurance_level

-- A role that meets the raised requirement meets the base one.
raised-base :
    (roles : List AccountingRole) (base : AccountingRole) (level : Option MaterialityLevel)
    → Any (λ r. Dominates r (required_role base level)) roles
    → Any (λ r. Dominates r base) roles
unfolding required_role
raised-base roles accountant (some critical) h = Any-mono roles (λ r k. ground arith) h
raised-base roles senior_accountant (some critical) h = Any-mono roles (λ r k. ground arith) h
raised-base roles accountant (some material) h = Any-mono roles (λ r k. ground arith) h
raised-base roles base level h = h

IsAsked-raised :
    (base : AccountingRole) (level : Option MaterialityLevel)
    → IsAsked base
    → IsAsked (required_role base level)
unfolding required_role
IsAsked-raised accountant (some critical) a = tt
IsAsked-raised senior_accountant (some critical) a = tt
IsAsked-raised accountant (some material) a = tt
IsAsked-raised base level a = a

role_steps-satisfies :
    (p : VerifiedApprovalPrincipal) (m : AccountingMemory) (base : AccountingRole)
    → (role_steps p m (some base)).allowed ≡ true
    → (satisfies p.roles (required_role base m.materiality_level) ≡ true)
      × (ltb_ℤ (assurance_rank p.assurance_level) (assurance_rank (min_assurance m.fiscal_effect))
          ≡ false)
unfolding role_steps
role_steps-satisfies p m base h =
    ground (arith, role_eq_iff (required_role base m.materiality_level) base)

satisfies-role_steps :
    (p : VerifiedApprovalPrincipal) (m : AccountingMemory) (base : AccountingRole)
    → satisfies p.roles base ≡ true
    → satisfies p.roles (required_role base m.materiality_level) ≡ true
    → ltb_ℤ (assurance_rank p.assurance_level) (assurance_rank (min_assurance m.fiscal_effect))
      ≡ false
    → (role_steps p m (some base)).allowed ≡ true
unfolding role_steps
satisfies-role_steps p m base h k l = ground arith

-- The matrix is the base role of the effect, raised by the materiality.
needed_lem :
    (e : FiscalEffect) (level : Option MaterialityLevel)
    → needed e level ≡ Option.map (λ b. required_role b level) (base_role e)
unfolding base_role required_role
needed_lem journal_entry level = ground arith
needed_lem adjustment level = ground arith
needed_lem reclassification level = ground arith
needed_lem approval level = ground arith
needed_lem _ level = ground arith

base_role-IsAsked : (e : FiscalEffect) (b : AccountingRole) → base_role e ≡ some b → IsAsked b
unfolding base_role
base_role-IsAsked e accountant h = tt
base_role-IsAsked e senior_accountant h = tt
base_role-IsAsked e controller h = tt
base_role-IsAsked e tax_reviewer h = tt
base_role-IsAsked e authorized_tax_professional h = tt
base_role-IsAsked e _ h = ground arith

Assured-iff :
    (e : FiscalEffect) (level : AssuranceLevel)
    → (ltb_ℤ (assurance_rank level) (assurance_rank (min_assurance e)) ≡ false) ↔ Assured e level
unfolding assurance_rank min_assurance
Assured-iff sunat_filing level = ((λ h. ground arith), (λ h. ground arith))
Assured-iff _ level = ((λ h. ground arith), (λ h. ground arith))

authorize-role_steps :
    (p : VerifiedApprovalPrincipal) (m : AccountingMemory)
    → (authorize p m).allowed ≡ true
    → (p.tenant_id ≡ m.scope.organization_id)
      × (m.scope.kind ≡ ScopeKind.company)
      × In m.scope.company_id p.company_scopes
      × (¬ (p.membership_id ≡ []))
      × ((role_steps p m (base_role m.fiscal_effect)).allowed ≡ true)
unfolding authorize
authorize-role_steps p m h = (
  (str_eq_iff p.tenant_id m.scope.organization_id).0 (ground arith),
  ground arith,
  (contains_iff p.company_scopes m.scope.company_id).0 (ground arith),
  (λ e. ground arith),
  ground arith,
)

needed-some :
    (e : FiscalEffect) (level : Option MaterialityLevel) (b : AccountingRole)
    → base_role e ≡ some b
    → needed e level ≡ some (required_role b level)
needed-some e level b h = needed_lem e level ∙ ap (Option.map (λ r. required_role r level)) h

role_steps-authorize :
    (p : VerifiedApprovalPrincipal) (m : AccountingMemory)
    → p.tenant_id ≡ m.scope.organization_id
    → m.scope.kind ≡ ScopeKind.company
    → In m.scope.company_id p.company_scopes
    → ¬ (p.membership_id ≡ [])
    → (role_steps p m (base_role m.fiscal_effect)).allowed ≡ true
    → (authorize p m).allowed ≡ true
unfolding authorize
role_steps-authorize p m t c s k r =
    let te = (str_eq_iff p.tenant_id m.scope.organization_id).1 t in
    let se = (contains_iff p.company_scopes m.scope.company_id).1 s in ground (arith, te, se)

role_steps-none :
    (p : VerifiedApprovalPrincipal) (m : AccountingMemory) → (role_steps p m none).allowed ≡ false
unfolding role_steps
role_steps-none p m = refl

role_steps-Holds :
    (p : VerifiedApprovalPrincipal) (m : AccountingMemory)
    → (role_steps p m (base_role m.fiscal_effect)).allowed ≡ true
    → Holds p.roles (needed m.fiscal_effect m.materiality_level)
      × Assured m.fiscal_effect p.assurance_level
role_steps-Holds p m h = go (base_role m.fiscal_effect) refl h
  where
    go :
        (o : Option AccountingRole)
        → base_role m.fiscal_effect ≡ o
        → (role_steps p m o).allowed ≡ true
        → Holds p.roles (needed m.fiscal_effect m.materiality_level)
          × Assured m.fiscal_effect p.assurance_level
    go none e k = cc (role_steps-none p m)
    go (some b) e k =
        let asked = base_role-IsAsked m.fiscal_effect b e in
        let (held, assured) = role_steps-satisfies p m b k in
        (
          subst (Holds p.roles) (sym (needed-some m.fiscal_effect m.materiality_level b e)) (
              satisfies→Dominates p.roles (required_role b m.materiality_level)
                (IsAsked-raised b m.materiality_level asked) held),
          (Assured-iff m.fiscal_effect p.assurance_level).0 assured,
        )

Holds-role_steps :
    (p : VerifiedApprovalPrincipal) (m : AccountingMemory)
    → Holds p.roles (needed m.fiscal_effect m.materiality_level)
    → Assured m.fiscal_effect p.assurance_level
    → (role_steps p m (base_role m.fiscal_effect)).allowed ≡ true
Holds-role_steps p m held assured = go (base_role m.fiscal_effect) refl
  where
    go :
        (o : Option AccountingRole)
        → base_role m.fiscal_effect ≡ o
        → (role_steps p m o).allowed ≡ true
    go none e = absurd (
        subst (Holds p.roles)
          (needed_lem m.fiscal_effect m.materiality_level
            ∙ ap (Option.map (λ b. required_role b m.materiality_level)) e)
          held)
    go (some b) e =
        let asked = base_role-IsAsked m.fiscal_effect b e in
        let raised = IsAsked-raised b m.materiality_level asked in
        let h = subst (Holds p.roles) (needed-some m.fiscal_effect m.materiality_level b e) held in
        satisfies-role_steps p m b
          (Dominates→satisfies p.roles b asked (raised-base p.roles b m.materiality_level h))
          (Dominates→satisfies p.roles (required_role b m.materiality_level) raised h)
          ((Assured-iff m.fiscal_effect p.assurance_level).1 assured)

-- The approval policy allows a principal to approve a memory exactly when the frozen matrix grants it:
-- the same tenant, a company memory inside the membership's companies, an active membership, a role
-- that dominates the one which the fiscal effect asks for at the declared materiality, and the
-- assurance that the effect asks for.
pub approval_iff_Authorized :
    (p : VerifiedApprovalPrincipal) (m : AccountingMemory)
    → ((authorize p m).allowed ≡ true) ↔ Authorized p m
approval_iff_Authorized p m = (fwd, bwd)
  where
    fwd : (authorize p m).allowed ≡ true → Authorized p m
    fwd h =
        let (t, c, s, k, r) = authorize-role_steps p m h in
        let (held, assured) = role_steps-Holds p m r in
        record { tenant = t; company = c; scoped = s; member = k; role = held; assured = assured }

    bwd : Authorized p m → (authorize p m).allowed ≡ true
    bwd a =
        role_steps-authorize p m a.tenant a.company a.scoped a.member
          (Holds-role_steps p m a.role a.assured)
