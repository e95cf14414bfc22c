-- ===== src/Examples/Bindings.antt =====
-- The theorems on fiscal-scope bindings and evidence holds, at concrete records.
use drenyra_engram.Base.{
  ◌≡◌, refl, ◌↔◌, ◌⊎◌, Str, str, str_eq, Bool, true, false, [], ◌∷◌, In, any, is_empty, is_blank,
  length, ◌==◌,
}
use drenyra_engram.Fiscal.{
  is_hash64, is_valid_period, is_valid_fiscal_ruc, classify_ruc, weigh, last_byte, expected_digit,
}
use drenyra_engram.FiscalScope.{
  FiscalScopeBinding, AuthorityLevel, canonical_fiscal_scope_bytes, level_token,
  validate_fiscal_scope_binding, is_bad_value, lower_sha256, operation_matches,
}
use drenyra_engram.FiscalScope.Injective.{canonical_bytes_inj}
use drenyra_engram.Holds.{
  EvidenceHold, HoldKind, kind_token, assert_valid_evidence_hold, assert_valid_object_scope,
  assert_valid_hold_fields, is_valid_hold_kind, lift_is_consistent, parse_date_time,
  has_active_blocking_hold,
}
use drenyra_engram.Holds.Lift.{valid_hold_state}
use drenyra_engram.FiscalScope.Operations.{executing, execute_iff_acting}

abbrev binding : FiscalScopeBinding
binding = record {
  version = str "v1";
  tenant = str "org";
  organization = str "org";
  company = str "20100070970";
  fiscal_period = str "202401";
  ledger_book = str "main";
  operation_type = str "memory.approve";
  source_snapshot = str "00";
  policy_version = str "v1";
  actor = str "ana";
  authority_level = AuthorityLevel.execute;
}

-- The version stays out of the bytes.
abbrev unversioned : FiscalScopeBinding
unversioned = record binding { version = [] }

canonical_bytes_inj_example :
    (binding.tenant ≡ unversioned.tenant)
    × (binding.organization ≡ unversioned.organization)
    × (binding.company ≡ unversioned.company)
    × (binding.fiscal_period ≡ unversioned.fiscal_period)
    × (binding.ledger_book ≡ unversioned.ledger_book)
    × (binding.operation_type ≡ unversioned.operation_type)
    × (binding.source_snapshot ≡ unversioned.source_snapshot)
    × (binding.policy_version ≡ unversioned.policy_version)
    × (binding.actor ≡ unversioned.actor)
    × (level_token binding.authority_level ≡ level_token unversioned.authority_level)
unfolding canonical_fiscal_scope_bytes
canonical_bytes_inj_example = canonical_bytes_inj binding unversioned refl

abbrev full : FiscalScopeBinding
full = record binding {
  source_snapshot = str "0123456789abcdef0123456789abcdef0123456789abcdef0123456789abcdef";
}

abbrev any_bytes : Str → Bool
any_bytes _ = true

execute_iff_acting_example :
    (level_token full.authority_level ≡ str "EXECUTE") ↔ In full.operation_type executing
unfolding validate_fiscal_scope_binding is_valid_period str_eq any is_bad_value level_token
    is_valid_fiscal_ruc classify_ruc weigh last_byte expected_digit lower_sha256 operation_matches
execute_iff_acting_example = execute_iff_acting any_bytes full refl

abbrev hold : EvidenceHold
hold = record {
  hold_id = [];
  object_id = str "0123456789abcdef0123456789abcdef0123456789abcdef0123456789abcdef";
  tenant_id = str "org";
  company_id = str "acme";
  ruc = str "20100070970";
  period = str "202401";
  kind = HoldKind.legal;
  reason = str "court order";
  owner_subject_id = str "ana";
  placed_at = str "2024-01-12";
  placed_by = str "rosa";
  lifted_at = [];
  lifted_by = [];
  lift_reason = [];
}

-- A string is a time in a layout when it has the layout's length.
abbrev long_as : Str → Str → Bool
long_as layout s = length layout == length s

valid_hold_state_example :
    ((is_empty hold.lifted_at ≡ true)
      × (is_empty hold.lifted_by ≡ true)
      × (is_empty hold.lift_reason ≡ true)
      × ((has_active_blocking_hold hold (str "legal" ∷ []) ≡ true)
          ↔ In (kind_token hold.kind) (str "legal" ∷ [])))
    ⊎ ((is_empty hold.lifted_at ≡ false)
        × (is_empty hold.lifted_by ≡ false)
        × (is_blank hold.lift_reason ≡ false)
        × (has_active_blocking_hold hold (str "legal" ∷ []) ≡ false))
unfolding assert_valid_evidence_hold is_hash64 assert_valid_object_scope assert_valid_hold_fields
    is_valid_hold_kind is_blank lift_is_consistent parse_date_time any
valid_hold_state_example = valid_hold_state long_as hold (str "legal" ∷ []) refl
