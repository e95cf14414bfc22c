-- ===== src/Fiscal.antt =====
-- Fiscal identifiers: RUC (internal/core/ruc.go, types.go), periods and scopes (types.go), and the
-- two frozen syntaxes for jurisdictions, hashes and ids (retention_policy.go, purge_lifecycle.go).
pub mod Ruc
pub mod Period
pub mod Ids
use drenyra_engram.Base.{
  ℕ, ◌+◌, ◌-◌, ◌*◌, ◌%◌, Str, Bool, true, false, not, ◌&&◌, ◌||◌, Option, none, some, List, [], ◌∷◌,
  length, all, ltb, leb, ◌==◌, is_digit, is_empty, if◌then◌else◌,
}
use drenyra_engram.Memory.{ScopeKind, Scope, is_company, is_institutional}

pub data RucClassification : Type 0 where
  valid invalid_shape invalid_checksum : RucClassification

-- The digit loop of `ClassifyRUC` over the ten weights; `none` is a byte that is no digit. `'0'` is
-- taken off a digit only, so truncated `-` is exact.
unfoldable pub weigh : List ℕ → Str → ℕ → Option ℕ
weigh [] s sum = some sum
weigh (w ∷ ws) [] sum = none
weigh (w ∷ ws) (b ∷ s) sum =
    let rest = weigh ws s (sum + (b - b'0') * w) in if is_digit b then rest else none

abbrev pub ruc_weights : List ℕ
ruc_weights = 5 ∷ 4 ∷ 3 ∷ 2 ∷ 7 ∷ 6 ∷ 5 ∷ 4 ∷ 3 ∷ 2 ∷ []

-- `ruc[10]`, which exists behind the length check.
unfoldable pub last_byte : Str → ℕ
last_byte (_ ∷ _ ∷ _ ∷ _ ∷ _ ∷ _ ∷ _ ∷ _ ∷ _ ∷ _ ∷ b ∷ _) = b
last_byte _ = 0

unfoldable pub expected_digit : ℕ → ℕ
expected_digit sum = let e = 11 - sum % 11 in if e == 10 || e == 11 then e - 10 else e

unfoldable pub classify_ruc : Str → RucClassification
classify_ruc ruc =
    if not (length ruc == 11) then invalid_shape else elim (weigh ruc_weights ruc 0) [
      | none ↦ invalid_shape
      | some sum ↦
          if not (is_digit (last_byte ruc))
          then invalid_shape
          else if not (expected_digit sum == last_byte ruc - b'0')
          then invalid_checksum
          else valid
    ]

unfoldable pub is_valid_fiscal_ruc : Str → Bool
is_valid_fiscal_ruc ruc = elim (classify_ruc ruc) [ valid ↦ true | _ ↦ false ]

-- `IsValidRUC`: eleven digits, with no checksum.
unfoldable pub is_valid_ruc : Str → Bool
unfolding all
is_valid_ruc ruc = length ruc == 11 && all is_digit ruc

-- Six digits with month 01 to 12. The month is computed on bytes, which do not wrap: it is at most 99.
month_ok : Str → Bool
month_ok (_ ∷ _ ∷ _ ∷ _ ∷ c ∷ d ∷ _) =
    let month = ((c - b'0') * 10 + (d - b'0')) % 256 in leb 1 month && leb month 12
month_ok _ = false

unfoldable pub is_valid_period : Str → Bool
unfolding all month_ok
is_valid_period period = length period == 6 && all is_digit period && month_ok period

pub data ScopeError : Type 0 where
  unknown_scope_kind no_organization no_company invalid_ruc invalid_period : ScopeError

unfoldable pub assert_valid_scope : Scope → Option ScopeError
unfolding is_institutional is_company is_valid_ruc is_valid_period
assert_valid_scope s =
    if is_institutional s.kind
    then none
    else if not (is_company s.kind)
    then some unknown_scope_kind
    else if is_empty s.organization_id
    then some no_organization
    else if is_empty s.company_id
    then some no_company
    else if not (is_valid_ruc s.ruc)
    then some invalid_ruc
    else if not (is_empty s.period) && not (is_valid_period s.period)
    then some invalid_period
    else none

is_upper : ℕ → Bool
is_upper b = leb b'A' b && leb b b'Z'

unfoldable pub is_hex : ℕ → Bool
is_hex b = is_digit b || (leb b'a' b && leb b b'f')

-- `^[A-Z][A-Z0-9-]{1,15}$`
unfoldable pub jurisdiction_ok : Str → Bool
unfolding all is_upper
jurisdiction_ok [] = false
jurisdiction_ok (b ∷ s) =
    is_upper b
    && leb 1 (length s)
    && leb (length s) 15
    && all (λ c. is_upper c || is_digit c || c == b'-') s

-- `^[0-9a-f]{64}$`
unfoldable pub is_hash64 : Str → Bool
unfolding all is_hex
is_hash64 s = length s == 64 && all is_hex s

-- The loop of `policyIDPattern` from index `i`.
id_bytes : ℕ → Str → Bool
id_bytes i [] = true
id_bytes i (b ∷ s) =
    ((b == b'-' && (i == 8 || i == 13 || i == 18 || i == 23)) || is_hex b) && id_bytes (i + 1) s

unfoldable pub policy_id_pattern : Str → Bool
unfolding id_bytes is_hex
policy_id_pattern id = length id == 36 && id_bytes 0 id
