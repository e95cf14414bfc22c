-- ===== src/FiscalScope.antt =====
-- The fiscal-scope binding and its canonical bytes, internal/core/fiscal_scope.go.
pub mod Digits
pub mod Injective
pub mod Operations
use drenyra_engram.Base.{
  ℕ, zero, suc, ◌+◌, ◌/◌, ◌%◌, Str, str, str_eq, Bool, true, false, not, ◌&&◌, ◌||◌, Option, none,
  some, List, [], ◌∷◌, ◌++◌, length, ltb, ◌==◌, is_empty, is_blank, any, all, leb, if◌then◌else◌,
}
use drenyra_engram.Fiscal.{is_valid_period, is_valid_fiscal_ruc, is_hex}

pub data AuthorityLevel : Type 0 where
  ask analyze prepare execute : AuthorityLevel
  other : Str → AuthorityLevel

-- `string(level)`
unfoldable pub level_token : AuthorityLevel → Str
level_token ask = str "ASK"
level_token analyze = str "ANALYZE"
level_token prepare = str "PREPARE"
level_token execute = str "EXECUTE"
level_token (AuthorityLevel.other s) = s

pub record FiscalScopeBinding : Type 0 where
  pub version : Str
  pub tenant : Str
  pub organization : Str
  pub company : Str
  pub fiscal_period : Str
  pub ledger_book : Str
  pub operation_type : Str
  pub source_snapshot : Str
  pub policy_version : Str
  pub actor : Str
  pub authority_level : AuthorityLevel

-- `strconv.Itoa` of a length: the digits of `n` in front of those written already. A number has at most
-- as many digits as its own value, so `n + 1` steps are enough.
unfoldable pub digits_onto : ℕ → ℕ → Str → Str
digits_onto zero n acc = acc
digits_onto (suc fuel) n acc =
    let rest = digits_onto fuel (n / 10) ((b'0' + n % 10) ∷ acc) in
    if ltb n 10 then (b'0' + n % 10) ∷ acc else rest

unfoldable pub itoa : ℕ → Str
unfolding digits_onto
itoa n = digits_onto (n + 1) n []

-- One round of the loop: `key=length:value` and a zero byte, in front of the rest.
unfoldable pub field : Str → Str → Str → Str
unfolding itoa
field key value rest = key ++ (b'=' ∷ (itoa (length value) ++ (b':' ∷ (value ++ (0 ∷ rest)))))

unfoldable pub canonical_fiscal_scope_bytes : FiscalScopeBinding → Str
unfolding field level_token
canonical_fiscal_scope_bytes b =
    (str "drenyra:fiscal-scope:v1" ++ 0 ∷ [])
    ++ field (str "tenant") b.tenant (
        field (str "organization") b.organization (
          field (str "company") b.company (
            field (str "fiscalPeriod") b.fiscal_period (
              field (str "ledgerBook") b.ledger_book (
                field (str "operationType") b.operation_type (
                  field (str "sourceSnapshot") b.source_snapshot (
                    field (str "policyVersion") b.policy_version (
                      field (str "actor") b.actor
                        (field (str "authorityLevel") (level_token b.authority_level) [])))))))))

pub data ScopeBindingError : Type 0 where
  scope_binding_required unsupported_scope_version scope_binding_invalid : ScopeBindingError

unfoldable pub level_eq : AuthorityLevel → AuthorityLevel → Bool
unfolding level_token str_eq
level_eq a b = str_eq (level_token a) (level_token b)

abbrev pub fiscal_operations : List (Str × AuthorityLevel)
fiscal_operations =
    (str "memory.save", prepare)
    ∷ (str "memory.supersede", prepare)
    ∷ (str "evidence.store", prepare)
    ∷ (str "evidence.link", prepare)
    ∷ (str "rule.link", prepare)
    ∷ (str "close.create", prepare)
    ∷ (str "context.read", ask)
    ∷ (str "review.queue", ask)
    ∷ (str "review.detail", ask)
    ∷ (str "timeline.read", ask)
    ∷ (str "evidence.get", ask)
    ∷ (str "reconstruct.read", analyze)
    ∷ (str "verify.read", analyze)
    ∷ (str "memory.approve", execute)
    ∷ (str "close.approve", execute)
    ∷ (str "period.reopen", execute)
    ∷ (str "period.write-check", execute)
    ∷ []

unfoldable pub lookup : Str → List (Str × AuthorityLevel) → Option AuthorityLevel
unfolding str_eq
lookup key [] = none
lookup key ((k, v) ∷ ops) = if str_eq k key then some v else lookup key ops

-- The level of an operation is the one the table gives it.
unfoldable pub operation_matches : FiscalScopeBinding → Bool
unfolding lookup level_eq
operation_matches b = elim (lookup b.operation_type fiscal_operations) [
  | none ↦ false
  | some level ↦ level_eq level b.authority_level
]

-- `hex.DecodeString` of 64 bytes, which takes capital digits too, and the comparison with the lower case.
hex_digit : ℕ → Bool
unfolding is_hex
hex_digit b = is_hex b || (leb b'A' b && leb b b'F')

unfoldable pub lower_sha256 : Str → Bool
unfolding all hex_digit is_hex
lower_sha256 s = length s == 64 && all hex_digit s && all is_hex s

-- `valid_utf8` stands for `utf8.ValidString` of the standard library.
module _ (valid_utf8 : Str → Bool) where
  unfoldable pub is_bad_value : Str → Bool
  unfolding any is_blank
  is_bad_value v = not (valid_utf8 v) || is_blank v || any (λ b. b == 0) v

  -- The loop over the ten values, which the source visits in no fixed order: each has the same error.
  unfoldable pub validate_fiscal_scope_binding : FiscalScopeBinding → Option ScopeBindingError
  validate_fiscal_scope_binding b =
      if is_empty b.version
      then some scope_binding_required
      else if not (str_eq b.version (str "v1"))
      then some unsupported_scope_version
      else if any is_bad_value (
          b.tenant
          ∷ b.organization
          ∷ b.company
          ∷ b.fiscal_period
          ∷ b.ledger_book
          ∷ b.operation_type
          ∷ b.source_snapshot
          ∷ b.policy_version
          ∷ b.actor
          ∷ level_token b.authority_level
          ∷ [])
      then some scope_binding_invalid
      else if not (is_valid_fiscal_ruc b.company)
      then some scope_binding_invalid
      else if not (is_valid_period b.fiscal_period)
      then some scope_binding_invalid
      else if not (lower_sha256 b.source_snapshot)
      then some scope_binding_invalid
      else if not (operation_matches b)
      then some scope_binding_invalid
      else none
