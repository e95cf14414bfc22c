-- ===== src/Authz/Evidence/Decides.antt =====
-- What the evidence-lifecycle policy grants.
use drenyra_engram.Base.{
  Str, Any-mono, ◌≡◌, refl, sym, ◌↔◌, ◌⊎◌, inl, inr, str_eq, str_eq_iff, true, false, Option, none,
  some, List, [], ◌∷◌, Any, In, any, any→Any, Any→any, Bool-cases, arith,
}
use drenyra_engram.Base.Int.{ltb_ℤ}
use drenyra_engram.Memory.{human}
use drenyra_engram.Auth.{
  AccountingRole, accountant, controller, records_compliance_officer, tenant_records_owner,
  tax_responsible, AssuranceLevel, standard, strong, VerifiedApprovalPrincipal, role_eq,
}
use drenyra_engram.Authz.Roles.{
  assurance_rank, contains, role_eq_iff, Dominates, satisfies→Dominates, Dominates→satisfies,
}
use drenyra_engram.Authz.Evidence.{
  LifecycleAction, request_purge, approve_purge, second_approve, reject_purge, withdraw_approval,
  execute_purge, place_hold, lift_hold, LifecycleAuthorizationRequest, is_denied, role_denied,
  has_any_role, same_principal, lifecycle_role_allowed, is_principal, authorize, default_approvers,
  second_approvers,
}

-- The role matrix: who may perform an action.
abbrev pub MayPerform : LifecycleAction → AccountingRole → Type 0
MayPerform request_purge r = Dominates r accountant
MayPerform approve_purge r = (r ≡ records_compliance_officer) ⊎ (r ≡ tenant_records_owner)
MayPerform reject_purge r = (r ≡ records_compliance_officer) ⊎ (r ≡ tenant_records_owner)
MayPerform second_approve r = (r ≡ controller) ⊎ (r ≡ tax_responsible)
MayPerform withdraw_approval r =
    (r ≡ records_compliance_officer)
    ⊎ ((r ≡ tenant_records_owner) ⊎ ((r ≡ controller) ⊎ (r ≡ tax_responsible)))
MayPerform execute_purge r =
    (r ≡ records_compliance_officer)
    ⊎ ((r ≡ tenant_records_owner) ⊎ ((r ≡ controller) ⊎ (r ≡ tax_responsible)))
MayPerform place_hold r = (r ≡ records_compliance_officer) ⊎ (r ≡ tenant_records_owner)
MayPerform lift_hold r = (r ≡ records_compliance_officer) ⊎ (r ≡ tenant_records_owner)
MayPerform _ r = ⊥

-- Not the same human as the one named, if any is named.
abbrev pub IsOther : VerifiedApprovalPrincipal → Option VerifiedApprovalPrincipal → Type 0
IsOther p none = Unit
IsOther p (some q) = (p.subject_id ≡ []) ⊎ (¬ (p.subject_id ≡ q.subject_id))

abbrev pub SecondApproval : LifecycleAuthorizationRequest → LifecycleAction → Type 0
SecondApproval req second_approve =
    (req.dual_approval_required ≡ true) × IsOther req.principal req.first_approver
SecondApproval req _ = Unit

pub record Permitted (req : LifecycleAuthorizationRequest) : Type 0 where
  pub tenant : req.principal.tenant_id ≡ req.tenant_id
  pub scoped : In req.company_id req.principal.company_scopes
  pub member : ¬ (req.principal.membership_id ≡ [])
  pub by_human : req.actor_kind ≡ human
  pub not_denied : ¬ (Any (λ r. is_denied r ≡ true) req.principal.roles)
  pub role : Any (MayPerform req.action) req.principal.roles
  pub assured :
      (req.principal.assurance_level ≡ standard) ⊎ (req.principal.assurance_level ≡ strong)
  pub not_requester : IsOther req.principal req.requester
  pub second : SecondApproval req req.action

pub IsOther-iff :
    (p : VerifiedApprovalPrincipal) (o : Option VerifiedApprovalPrincipal)
    → (is_principal p o ≡ false) ↔ IsOther p o
unfolding is_principal
IsOther-iff p none = ((λ _. tt), (λ _. refl))
IsOther-iff p (some q) = (fwd (Bool-cases (str_eq p.subject_id q.subject_id)), bwd)
  where
    fwd :
        (str_eq p.subject_id q.subject_id ≡ true) ⊎ (str_eq p.subject_id q.subject_id ≡ false)
        → same_principal p q ≡ false
        → IsOther p (some q)
    fwd (inl e) h = inl (ground arith)
    fwd (inr e) h = inr (λ k. ground (arith, (str_eq_iff p.subject_id q.subject_id).1 k))

    bwd : IsOther p (some q) → same_principal p q ≡ false
    bwd (inl e) = ground arith
    bwd (inr e) = ground (arith, str_eq_iff p.subject_id q.subject_id)

has_one :
    (wanted : List AccountingRole) (r : AccountingRole)
    → (any (λ w. role_eq r w) wanted ≡ true) ↔ In r wanted
unfolding any
has_one wanted r = (
  any→Any _ wanted (λ w e. sym ((role_eq_iff r w).0 e)),
  Any→any _ wanted (λ w e. (role_eq_iff r w).1 (sym e)),
)

has_any_role_iff :
    (roles wanted : List AccountingRole)
    → (has_any_role roles wanted ≡ true) ↔ Any (λ r. In r wanted) roles
unfolding has_any_role
has_any_role_iff roles wanted = (
  any→Any _ roles (λ r e. (has_one wanted r).0 e),
  Any→any _ roles (λ r e. (has_one wanted r).1 e),
)

-- An explicit role list grants an action when its members are the roles that may perform it.
by_list :
    (action : LifecycleAction) (roles wanted : List AccountingRole)
    → ((r : AccountingRole) → In r wanted → MayPerform action r)
    → ((r : AccountingRole) → MayPerform action r → In r wanted)
    → (has_any_role roles wanted ≡ true) ↔ Any (MayPerform action) roles
by_list action roles wanted f g = (
  (λ h. Any-mono roles f ((has_any_role_iff roles wanted).0 h)),
  (λ h. (has_any_role_iff roles wanted).1 (Any-mono roles g h)),
)

none_may :
    (action : Str) (roles : List AccountingRole)
    → ¬ Any (MayPerform (LifecycleAction.other action)) roles
none_may action [] h = h
none_may action (r ∷ roles) (inl h) = h
none_may action (r ∷ roles) (inr h) = none_may action roles h

pub MayPerform-iff :
    (action : LifecycleAction) (roles : List AccountingRole)
    → (lifecycle_role_allowed action roles ≡ true) ↔ Any (MayPerform action) roles
unfolding lifecycle_role_allowed
MayPerform-iff request_purge roles =
    (satisfies→Dominates roles accountant tt, Dominates→satisfies roles accountant tt)
MayPerform-iff approve_purge roles =
    by_list approve_purge roles default_approvers (λ r h. ground arith) (λ r h. ground arith)
MayPerform-iff reject_purge roles =
    by_list reject_purge roles default_approvers (λ r h. ground arith) (λ r h. ground arith)
MayPerform-iff second_approve roles =
    by_list second_approve roles second_approvers (λ r h. ground arith) (λ r h. ground arith)
MayPerform-iff withdraw_approval roles =
    by_list withdraw_approval roles
      (records_compliance_officer ∷ tenant_records_owner ∷ second_approvers) (λ r h. ground arith)
      (λ r h. ground arith)
MayPerform-iff execute_purge roles =
    by_list execute_purge roles
      (records_compliance_officer ∷ tenant_records_owner ∷ second_approvers) (λ r h. ground arith)
      (λ r h. ground arith)
MayPerform-iff place_hold roles =
    by_list place_hold roles default_approvers (λ r h. ground arith) (λ r h. ground arith)
MayPerform-iff lift_hold roles =
    by_list lift_hold roles default_approvers (λ r h. ground arith) (λ r h. ground arith)
MayPerform-iff (LifecycleAction.other a) roles = ((λ h. cc), (λ h. absurd (none_may a roles h)))

pub role_denied_iff :
    (roles : List AccountingRole) → (role_denied roles ≡ true) ↔ Any (λ r. is_denied r ≡ true) roles
unfolding role_denied
role_denied_iff roles = (any→Any _ roles (λ r e. e), Any→any _ roles (λ r e. e))

pub Standard_iff :
    (level : AssuranceLevel)
    → (ltb_ℤ (assurance_rank level) (assurance_rank standard) ≡ false)
      ↔ ((level ≡ standard) ⊎ (level ≡ strong))
unfolding assurance_rank
Standard_iff level = ((λ h. ground arith), (λ h. ground arith))

-- The checks of `Authorize` as tests, with the callees shut.
unfoldable pub Checks : LifecycleAuthorizationRequest → Type 0
Checks req =
    (str_eq req.principal.tenant_id req.tenant_id ≡ true)
    × (contains req.principal.company_scopes req.company_id ≡ true)
    × (¬ (req.principal.membership_id ≡ []))
    × (req.actor_kind ≡ human)
    × (role_denied req.principal.roles ≡ false)
    × (lifecycle_role_allowed req.action req.principal.roles ≡ true)
    × (ltb_ℤ (assurance_rank req.principal.assurance_level) (assurance_rank standard) ≡ false)
    × (is_principal req.principal req.requester ≡ false)
    × (req.action ≡ second_approve
        → (req.dual_approval_required ≡ true)
          × (is_principal req.principal req.first_approver ≡ false))

pub authorize-Checks :
    (req : LifecycleAuthorizationRequest) → (authorize req).allowed ≡ true → Checks req
unfolding authorize Checks
authorize-Checks req h = (
  ground arith,
  ground arith,
  (λ e. ground arith),
  ground arith,
  ground arith,
  ground arith,
  ground arith,
  ground arith,
  (λ e. (ground arith, ground arith)),
)

pub Checks-authorize :
    (req : LifecycleAuthorizationRequest) → Checks req → (authorize req).allowed ≡ true
unfolding authorize Checks
Checks-authorize req h = ground arith

pub second-SecondApproval :
    (req : LifecycleAuthorizationRequest) (a : LifecycleAction)
    → (a ≡ second_approve
        → (req.dual_approval_required ≡ true)
          × (is_principal req.principal req.first_approver ≡ false))
      ↔ SecondApproval req a
second-SecondApproval req second_approve = (
  (λ f. ((f refl).0, (IsOther-iff req.principal req.first_approver).0 (f refl).1)),
  (λ s _. (s.0, (IsOther-iff req.principal req.first_approver).1 s.1)),
)
second-SecondApproval req _ = ((λ _. tt), (λ _ e. cc))
