-- ===== src/FiscalScope/Operations.antt =====
-- Which operations a valid binding may execute (ValidateFiscalScopeBinding, internal/core/fiscal_scope.go).
use drenyra_engram.Base.{
  ◌≡◌, ◌↔◌, inl, inr, refl, sym, subst, ◌∙◌, Str, str, str_eq, str_eq_iff, Bool, true, false, not,
  Option, none, some, List, [], ◌∷◌, In, any, any→Any, Any→any, Bool-cases, Option-cases, arith,
}
use drenyra_engram.FiscalScope.{
  AuthorityLevel, FiscalScopeBinding, level_token, level_eq, fiscal_operations, lookup,
  operation_matches, validate_fiscal_scope_binding,
}

abbrev pub executing : List Str
executing =
    str "memory.approve" ∷ str "close.approve" ∷ str "period.reopen" ∷ str "period.write-check" ∷ []

executes : Str → Bool
executes op = any (λ x. str_eq x op) executing

-- A row of the table executes by its level exactly when it does by its name.
agrees : Str → AuthorityLevel → Bool
unfolding executes str_eq
agrees op level = elim (str_eq (level_token level) (str "EXECUTE")) [
  | true ↦ executes op
  | false ↦ not (executes op)
]

all_agree : List (Str × AuthorityLevel) → Bool
unfolding agrees
all_agree [] = true
all_agree ((k, v) ∷ ops) = elim (agrees k v) [ true ↦ all_agree ops | false ↦ false ]

table_agrees : all_agree fiscal_operations ≡ true
unfolding all_agree agrees executes any str_eq level_token
table_agrees = refl

lookup-agrees :
    (op : Str) (level : AuthorityLevel) (ops : List (Str × AuthorityLevel))
    → all_agree ops ≡ true
    → lookup op ops ≡ some level
    → agrees op level ≡ true
unfolding all_agree lookup
lookup-agrees op level [] h e = absurd (ground arith)
lookup-agrees op level ((k, v) ∷ ops) h e = elim (Bool-cases (str_eq k op)) [
  | inl q ↦
      let same : v ≡ level = ground arith in
      let here : agrees k v ≡ true = ground arith in
      subst (λ z. agrees z level ≡ true) ((str_eq_iff k op).0 q)
        (subst (λ z. agrees k z ≡ true) same here)
  | inr q ↦ lookup-agrees op level ops (ground arith) (ground arith)
]

execute_agrees :
    (op : Str) (level : AuthorityLevel)
    → agrees op level ≡ true
    → (str_eq (level_token level) (str "EXECUTE") ≡ true) ↔ (executes op ≡ true)
unfolding agrees
execute_agrees op level h = elim (Bool-cases (str_eq (level_token level) (str "EXECUTE"))) [
  | inl e ↦ ((λ _. ground arith), (λ _. e))
  | inr e ↦ ((λ k. cc), (λ k. absurd (ground arith)))
]

executes_iff : (op : Str) → (executes op ≡ true) ↔ In op executing
unfolding executes
executes_iff op = (
  any→Any _ executing (λ x e. (str_eq_iff x op).0 e),
  Any→any _ executing (λ x e. (str_eq_iff x op).1 e),
)

matched :
    (b : FiscalScopeBinding)
    → operation_matches b ≡ true
    → (level : AuthorityLevel) × (lookup b.operation_type fiscal_operations ≡ some level)
      × (level_token level ≡ level_token b.authority_level)
unfolding operation_matches
matched b h = elim (Option-cases (lookup b.operation_type fiscal_operations)) [
  | inl e ↦ absurd (no_level (subst Matches e h))
  | inr (level, e) ↦ (level, e, (str_eq_iff _ _).0 (unfold level_eq in (subst Matches e h)))
]
  where
    Matches : Option AuthorityLevel → Type 0
    Matches o = (elim o [ none ↦ false | some level ↦ level_eq level b.authority_level ]) ≡ true

    no_level : ¬ (false ≡ true)
    no_level e = cc

valid-operation_matches :
    (valid_utf8 : Str → Bool) (b : FiscalScopeBinding)
    → validate_fiscal_scope_binding valid_utf8 b ≡ none
    → operation_matches b ≡ true
unfolding validate_fiscal_scope_binding
valid-operation_matches valid_utf8 b h = ground arith

-- A binding that validation lets through has the authority level EXECUTE exactly when its operation is
-- one of the four that act on the books: memory.approve, close.approve, period.reopen and
-- period.write-check.
pub execute_iff_acting :
    (valid_utf8 : Str → Bool) (b : FiscalScopeBinding)
    → validate_fiscal_scope_binding valid_utf8 b ≡ none
    → (level_token b.authority_level ≡ str "EXECUTE") ↔ In b.operation_type executing
execute_iff_acting valid_utf8 b h =
    let (level, found, same) = matched b (valid-operation_matches valid_utf8 b h) in
    let agree =
      execute_agrees b.operation_type level
        (lookup-agrees b.operation_type level fiscal_operations table_agrees found) in
    let test = str_eq_iff (level_token level) (str "EXECUTE") in
    let ops = executes_iff b.operation_type in
    ((λ e. ops.0 (agree.0 (test.1 (same ∙ e)))), (λ i. sym same ∙ test.0 (agree.1 (ops.1 i))))
