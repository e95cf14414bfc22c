-- ===== src/Retention.antt =====
-- The pure retention-policy model of internal/core/retention_policy.go.
pub mod Tokens
pub mod Resolve
pub mod Eligibility
use mathlib.Core.Option
use drenyra_engram.Base.{
  ℕ, zero, suc, ◌+◌, Str, str, str_eq, str_lt, str_le, Bool, true, false, not, ◌&&◌, ◌||◌, Option,
  none, some, List, [], ◌∷◌, ◌++◌, ◌==◌, is_empty, is_blank, if◌then◌else◌,
}
use drenyra_engram.Base.Int.{ℤ, pos, ltb_ℤ, eq_ℤ}
use drenyra_engram.Base.Sorted.{sort_strings, member}
use drenyra_engram.Memory.{Scope, ScopeKind, is_company}
use drenyra_engram.Fiscal.{
  ScopeError, assert_valid_scope, is_valid_period, jurisdiction_ok, policy_id_pattern,
}

pub data RetentionEligibility : Type 0 where
  eligible not_due unknown : RetentionEligibility
  other : Str → RetentionEligibility

pub record RetentionPolicy : Type 0 where
  pub policy_id : Str
  pub tenant_id : Str
  pub company_id : Str
  pub ruc : Str
  pub period : Str
  pub jurisdiction : Str
  pub legislation : Str
  pub authority : Str
  pub source : Str
  pub category : Str
  pub min_period : Str
  pub version : ℤ
  pub supersedes_policy_id : Str
  pub dual_approval_required : Bool
  pub dual_approver_roles : List Str
  pub blocking_hold_kinds : List Str
  pub enabled : Bool
  pub created_at : Str
  pub created_by : Str

-- The tokens of the closed sets.
abbrev pub default_dual_approver_roles : List Str
default_dual_approver_roles = str "controller" ∷ str "tax_responsible" ∷ []

abbrev pub default_blocking_hold_kinds : List Str
default_blocking_hold_kinds = str "legal" ∷ str "audit" ∷ str "dispute" ∷ str "fiscalization" ∷ []

unfoldable pub is_valid_retention_eligibility : RetentionEligibility → Bool
is_valid_retention_eligibility (RetentionEligibility.other _) = false
is_valid_retention_eligibility _ = true

unfoldable pub is_valid_retention_dual_approval_role : Str → Bool
unfolding str_eq
is_valid_retention_dual_approval_role r =
    str_eq r (str "controller") || str_eq r (str "tax_responsible")

unfoldable pub is_valid_retention_hold_kind : Str → Bool
unfolding str_eq
is_valid_retention_hold_kind k =
    str_eq k (str "legal")
    || str_eq k (str "audit")
    || str_eq k (str "dispute")
    || str_eq k (str "fiscalization")
    || str_eq k (str "other")

-- The loop of `canonicalRoleList`; what it has seen is what it has put out. `none` is its error.
unfoldable pub collect : (Str → Bool) → List Str → List Str → Option (List Str)
unfolding member
collect valid out [] = some out
collect valid out (t ∷ ts) =
    let rest = collect valid (if member t out then out else out ++ t ∷ []) ts in
    if valid t then rest else none

unfoldable pub canonical_role_list : List Str → List Str → (Str → Bool) → Option (List Str)
unfolding collect sort_strings
canonical_role_list [] defaults valid = some (sort_strings defaults)
canonical_role_list (t ∷ ts) defaults valid = Option.map sort_strings (collect valid [] (t ∷ ts))

-- `evaluateRetentionEligibility`: the order of strings stands for the order of periods.
unfoldable pub evaluate_retention_eligibility : RetentionPolicy → Str → RetentionEligibility
evaluate_retention_eligibility p object_period =
    if not (is_valid_period p.min_period) || not (is_valid_period object_period)
    then unknown
    else if str_le p.min_period object_period
    then eligible
    else not_due

-- A row that takes part in the resolution: enabled, of the exact key, with a version of at least 1.
unfoldable pub is_candidate : Scope → Str → Str → Str → RetentionPolicy → Bool
unfolding str_eq
is_candidate scope jurisdiction legislation category p =
    p.enabled
    && str_eq p.tenant_id scope.organization_id
    && str_eq p.company_id scope.company_id
    && str_eq p.ruc scope.ruc
    && str_eq p.period scope.period
    && str_eq p.jurisdiction jurisdiction
    && str_eq p.legislation legislation
    && str_eq p.category category
    && not (ltb_ℤ p.version (pos 1))

-- The three variables of the loop; `none` is the zero value of `best`.
pub record Search : Type 0 where
  pub best : Option RetentionPolicy
  pub best_version : ℤ
  pub matches : ℕ

unfoldable pub consider : Search → RetentionPolicy → Search
consider s p =
    if ltb_ℤ s.best_version p.version
    then record { best = some p; best_version = p.version; matches = 1 }
    else if eq_ℤ p.version s.best_version
    then record s { matches = s.matches + 1 }
    else s

unfoldable pub search_policies : (RetentionPolicy → Bool) → Search → List RetentionPolicy → Search
unfolding consider
search_policies candidate s [] = s
search_policies candidate s (p ∷ ps) =
    search_policies candidate (if candidate p then consider s p else s) ps

abbrev pub start : Search
start = record { best = none; best_version = pos 0; matches = 0 }

-- `none` is `RetentionPolicy{}, false`.
unfoldable pub resolve_retention_policy :
    List RetentionPolicy → Scope → Str → Str → Str → Option RetentionPolicy
unfolding search_policies is_candidate
resolve_retention_policy policies scope jurisdiction legislation category =
    let s = search_policies (is_candidate scope jurisdiction legislation category) start policies in
    if s.matches == 1 then s.best else none

pub data RetentionError : Type 0 where
  invalid_retention_scope : RetentionError
  scope_error : ScopeError → RetentionError
  invalid_jurisdiction policy_evidence_required invalid_category : RetentionError
  invalid_min_period invalid_version invalid_policy_id : RetentionError
  invalid_dual_approver_roles invalid_blocking_hold_kinds : RetentionError

unfoldable pub assert_valid_retention_scope : Scope → Option RetentionError
unfolding is_company assert_valid_scope
assert_valid_retention_scope s =
    if not (is_company s.kind)
    then some invalid_retention_scope
    else if is_empty s.organization_id
    then some invalid_retention_scope
    else if is_empty s.company_id && is_empty s.ruc && is_empty s.period
    then none
    else Option.map scope_error (assert_valid_scope s)

-- The last step: the two closed-enum lists are written back in canonical form, one after the other, so
-- a bad second list leaves the first one rewritten.
normalize_lists : RetentionPolicy → RetentionPolicy × Option RetentionError
unfolding canonical_role_list is_valid_retention_dual_approval_role is_valid_retention_hold_kind
normalize_lists p =
    elim (canonical_role_list p.dual_approver_roles default_dual_approver_roles
      is_valid_retention_dual_approval_role) [
        | none ↦ (record p { dual_approver_roles = [] }, some invalid_dual_approver_roles)
        | some roles ↦
            elim (canonical_role_list p.blocking_hold_kinds default_blocking_hold_kinds
              is_valid_retention_hold_kind) [
                | none ↦ (
                  record p { dual_approver_roles = roles; blocking_hold_kinds = [] },
                  some invalid_blocking_hold_kinds,
                )
                | some kinds ↦
                    (record p { dual_approver_roles = roles; blocking_hold_kinds = kinds }, none)
              ]
      ]

unfoldable pub assert_valid_retention_policy :
    RetentionPolicy → RetentionPolicy × Option RetentionError
unfolding assert_valid_retention_scope jurisdiction_ok is_blank is_valid_period policy_id_pattern
    normalize_lists
assert_valid_retention_policy p =
    elim (assert_valid_retention_scope (record {
      kind = ScopeKind.company;
      organization_id = p.tenant_id;
      company_id = p.company_id;
      ruc = p.ruc;
      period = p.period;
    })) [
      | some e ↦ (p, some e)
      | none ↦
          if not (jurisdiction_ok p.jurisdiction)
          then (p, some invalid_jurisdiction)
          else if is_blank p.legislation || is_blank p.authority || is_blank p.source
          then (p, some policy_evidence_required)
          else if is_blank p.category
          then (p, some invalid_category)
          else if not (is_valid_period p.min_period)
          then (p, some invalid_min_period)
          else if ltb_ℤ p.version (pos 1)
          then (p, some invalid_version)
          else if not (is_empty p.policy_id) && not (policy_id_pattern p.policy_id)
          then (p, some invalid_policy_id)
          else normalize_lists p
    ]
