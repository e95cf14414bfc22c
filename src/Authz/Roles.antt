-- ===== src/Authz/Roles.antt =====
-- What the policies share (internal/authz/approval_policy.go): decisions, role dominance, assurance.
use drenyra_engram.Base.{
  ◌≡◌, ◌↔◌, ◌⊎◌, Str, str_eq, str_eq_iff, Bool, true, false, List, ℕ, Any, any, any→Any, Any→any,
  In, leb, if◌then◌else◌, arith,
}
use drenyra_engram.Base.Int.{ℤ, pos, negsuc}
use drenyra_engram.Auth.{
  AccountingRole, accountant, senior_accountant, controller, tax_reviewer,
  authorized_tax_professional, records_compliance_officer, tenant_records_owner, tax_responsible,
  operational_accountant, AssuranceLevel, low, standard, strong, ReasonCode, role_eq,
}

-- The policy version stamped on a decision: one constant for each policy.
pub data PolicyVersion : Type 0 where
  approval_policy judgment_policy reconciliation_policy evidence_lifecycle_policy : PolicyVersion

pub record Decision : Type 0 where
  pub allowed : Bool
  pub policy_version : PolicyVersion
  pub reason_code : ReasonCode

unfoldable pub denied : PolicyVersion → ReasonCode → Decision
denied v code = record { allowed = false; policy_version = v; reason_code = code }

unfoldable pub granted : PolicyVersion → Decision
granted v = record { allowed = true; policy_version = v; reason_code = ReasonCode.authorized }

-- The rank in the accounting ladder; 0 is outside it.
unfoldable pub ladder_rank : AccountingRole → ℕ
ladder_rank accountant = 1
ladder_rank senior_accountant = 2
ladder_rank controller = 3
ladder_rank _ = 0

is_tax_role : AccountingRole → Bool
is_tax_role tax_reviewer = true
is_tax_role authorized_tax_professional = true
is_tax_role _ = false

-- Some role dominates the required one: a tax role only itself, any other by its rank.
unfoldable pub satisfies : List AccountingRole → AccountingRole → Bool
unfolding any ladder_rank is_tax_role role_eq
satisfies roles required =
    if is_tax_role required
    then any (λ r. role_eq r required) roles
    else any (λ r. leb (ladder_rank required) (ladder_rank r)) roles

unfoldable pub assurance_rank : AssuranceLevel → ℤ
assurance_rank low = pos 0
assurance_rank standard = pos 1
assurance_rank strong = pos 2
assurance_rank _ = negsuc 0

unfoldable pub contains : List Str → Str → Bool
unfolding any
contains scopes target = any (λ s. str_eq s target) scopes

pub role_eq_iff : (a b : AccountingRole) → (role_eq a b ≡ true) ↔ (a ≡ b)
unfolding role_eq
role_eq_iff (AccountingRole.other s) (AccountingRole.other t) = ground (arith, str_eq_iff s t)
role_eq_iff (AccountingRole.other s) b = ground arith
role_eq_iff accountant b = ground arith
role_eq_iff senior_accountant b = ground arith
role_eq_iff controller b = ground arith
role_eq_iff tax_reviewer b = ground arith
role_eq_iff authorized_tax_professional b = ground arith
role_eq_iff records_compliance_officer b = ground arith
role_eq_iff tenant_records_owner b = ground arith
role_eq_iff tax_responsible b = ground arith
role_eq_iff operational_accountant b = ground arith

-- The frozen dominance relation: a principal with role `r` may act where `required` is asked for. It
-- holds between the three rungs of the accounting ladder, and between a role and itself.
abbrev pub Dominates : AccountingRole → AccountingRole → Type 0
Dominates r accountant = (r ≡ accountant) ⊎ ((r ≡ senior_accountant) ⊎ (r ≡ controller))
Dominates r senior_accountant = (r ≡ senior_accountant) ⊎ (r ≡ controller)
Dominates r required = r ≡ required

-- The roles that some policy asks for.
abbrev pub IsAsked : AccountingRole → Type 0
IsAsked accountant = Unit
IsAsked senior_accountant = Unit
IsAsked controller = Unit
IsAsked tax_reviewer = Unit
IsAsked authorized_tax_professional = Unit
IsAsked _ = ⊥

pub satisfies→Dominates :
    (roles : List AccountingRole) (q : AccountingRole)
    → IsAsked q
    → satisfies roles q ≡ true
    → Any (λ r. Dominates r q) roles
unfolding satisfies
satisfies→Dominates roles accountant a h = any→Any _ roles (λ r e. ground arith) h
satisfies→Dominates roles senior_accountant a h = any→Any _ roles (λ r e. ground arith) h
satisfies→Dominates roles controller a h = any→Any _ roles (λ r e. ground arith) h
satisfies→Dominates roles tax_reviewer a h = any→Any _ roles (λ r e. ground arith) h
satisfies→Dominates roles authorized_tax_professional a h = any→Any _ roles (λ r e. ground arith) h
satisfies→Dominates roles _ a h = absurd a

pub Dominates→satisfies :
    (roles : List AccountingRole) (q : AccountingRole)
    → IsAsked q
    → Any (λ r. Dominates r q) roles
    → satisfies roles q ≡ true
unfolding satisfies
Dominates→satisfies roles accountant a h = Any→any _ roles (λ r e. ground arith) h
Dominates→satisfies roles senior_accountant a h = Any→any _ roles (λ r e. ground arith) h
Dominates→satisfies roles controller a h = Any→any _ roles (λ r e. ground arith) h
Dominates→satisfies roles tax_reviewer a h = Any→any _ roles (λ r e. ground arith) h
Dominates→satisfies roles authorized_tax_professional a h = Any→any _ roles (λ r e. ground arith) h
Dominates→satisfies roles _ a h = absurd a

pub contains_iff : (xs : List Str) (a : Str) → (contains xs a ≡ true) ↔ In a xs
unfolding contains
contains_iff xs a =
    (any→Any _ xs (λ x e. (str_eq_iff x a).0 e), Any→any _ xs (λ x e. (str_eq_iff x a).1 e))
