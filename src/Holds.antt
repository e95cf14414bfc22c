-- ===== src/Holds.antt =====
-- Evidence holds, internal/core/hold.go, with the scope and date checks they use (evidence_object.go,
-- types.go).
pub mod Lift
use drenyra_engram.Base.{
  Str, str, str_eq, Bool, true, false, not, ◌&&◌, ◌||◌, Option, none, some, List, [], ◌∷◌, any,
  is_empty, is_blank, if◌then◌else◌,
}
use mathlib.Core.Option
use drenyra_engram.Memory.{Scope, ScopeKind, is_company}
use drenyra_engram.Fiscal.{ScopeError, assert_valid_scope, is_hash64, policy_id_pattern}
use drenyra_engram.Retention.{is_valid_retention_hold_kind}

pub data HoldKind : Type 0 where
  legal audit dispute fiscalization other_hold : HoldKind
  unknown_kind : Str → HoldKind

-- `string(kind)`
unfoldable pub kind_token : HoldKind → Str
kind_token legal = str "legal"
kind_token audit = str "audit"
kind_token dispute = str "dispute"
kind_token fiscalization = str "fiscalization"
kind_token other_hold = str "other"
kind_token (unknown_kind s) = s

unfoldable pub is_valid_hold_kind : HoldKind → Bool
unfolding is_valid_retention_hold_kind kind_token
is_valid_hold_kind k = is_valid_retention_hold_kind (kind_token k)

pub record EvidenceHold : Type 0 where
  pub hold_id : Str
  pub object_id : Str
  pub tenant_id : Str
  pub company_id : Str
  pub ruc : Str
  pub period : Str
  pub kind : HoldKind
  pub reason : Str
  pub owner_subject_id : Str
  pub placed_at : Str
  pub placed_by : Str
  pub lifted_at : Str
  pub lifted_by : Str
  pub lift_reason : Str

pub record PlaceHoldCommand : Type 0 where
  pub object_id : Str
  pub kind : HoldKind
  pub reason : Str
  pub owner_subject_id : Str
  pub request_id : Str

pub record LiftHoldCommand : Type 0 where
  pub hold_id : Str
  pub reason : Str
  pub request_id : Str

pub data HoldError : Type 0 where
  invalid_hold_id invalid_hold_object_id invalid_hold_kind reason_required : HoldError
  invalid_hold_owner invalid_hold_placed_by invalid_hold_placed_at : HoldError
  invalid_hold_lift invalid_hold_lifted_at idempotency_conflict invalid_object_scope : HoldError
  scope_error : ScopeError → HoldError

unfoldable pub assert_valid_place_hold_command : PlaceHoldCommand → Option HoldError
assert_valid_place_hold_command cmd =
    if not (is_hash64 cmd.object_id)
    then some invalid_hold_object_id
    else if not (is_valid_hold_kind cmd.kind)
    then some invalid_hold_kind
    else if is_blank cmd.reason
    then some reason_required
    else if is_blank cmd.owner_subject_id
    then some invalid_hold_owner
    else if is_blank cmd.request_id
    then some idempotency_conflict
    else none

unfoldable pub assert_valid_lift_hold_command : LiftHoldCommand → Option HoldError
assert_valid_lift_hold_command cmd =
    if is_blank cmd.hold_id
    then some invalid_hold_id
    else if is_blank cmd.reason
    then some reason_required
    else if is_blank cmd.request_id
    then some idempotency_conflict
    else none

unfoldable pub assert_valid_object_scope : Scope → Option HoldError
unfolding is_company assert_valid_scope
assert_valid_object_scope s =
    if not (is_company s.kind)
    then some invalid_object_scope
    else Option.map scope_error (assert_valid_scope s)

bool_eq : Bool → Bool → Bool
bool_eq true b = b
bool_eq false b = not b

-- The three lift fields are all empty or all set.
unfoldable pub lift_is_consistent : EvidenceHold → Bool
unfolding bool_eq
lift_is_consistent h =
    let has_lifted_at = not (is_empty h.lifted_at) in
    bool_eq has_lifted_at (not (is_empty h.lifted_by))
    && bool_eq has_lifted_at (not (is_empty h.lift_reason))

-- The test of one hold by one loop over the blocking kinds.
unfoldable pub has_active_blocking_hold : EvidenceHold → List Str → Bool
has_active_blocking_hold h kinds =
    if not (is_empty h.lifted_at) then false else any (λ k. str_eq k (kind_token h.kind)) kinds

-- `timeLayouts`: `time.RFC3339Nano`, `time.RFC3339` and the two fallbacks.
abbrev pub time_layouts : List Str
time_layouts =
    str "2006-01-02T15:04:05.999999999Z07:00"
    ∷ str "2006-01-02T15:04:05Z07:00"
    ∷ str "2006-01-02 15:04:05"
    ∷ str "2006-01-02"
    ∷ []

-- `parses` stands for `time.Parse` of the standard library, with a layout and a string, as a test.
module _ (parses : Str → Str → Bool) where
  -- `ParseDateTime`, as a test: some layout takes the string.
  unfoldable pub parse_date_time : Str → Bool
  parse_date_time s = any (λ layout. parses layout s) time_layouts

  -- The checks of a stored hold from the kind on.
  unfoldable pub assert_valid_hold_fields : EvidenceHold → Option HoldError
  assert_valid_hold_fields h =
      if not (is_valid_hold_kind h.kind)
      then some invalid_hold_kind
      else if is_blank h.reason
      then some reason_required
      else if is_blank h.owner_subject_id
      then some invalid_hold_owner
      else if is_blank h.placed_by
      then some invalid_hold_placed_by
      else if not (is_empty h.placed_at) && not (parse_date_time h.placed_at)
      then some invalid_hold_placed_at
      else if not (lift_is_consistent h)
      then some invalid_hold_lift
      else if not (is_empty h.lifted_at) && not (parse_date_time h.lifted_at)
      then some invalid_hold_lifted_at
      else if not (is_empty h.lifted_at) && is_blank h.lift_reason
      then some reason_required
      else none

  unfoldable pub assert_valid_evidence_hold : EvidenceHold → Option HoldError
  assert_valid_evidence_hold h =
      if not (is_empty h.hold_id) && not (policy_id_pattern h.hold_id)
      then some invalid_hold_id
      else if not (is_hash64 h.object_id)
      then some invalid_hold_object_id
      else elim (assert_valid_object_scope (record {
        kind = ScopeKind.company;
        organization_id = h.tenant_id;
        company_id = h.company_id;
        ruc = h.ruc;
        period = h.period;
      })) [ some e ↦ some e | none ↦ assert_valid_hold_fields h ]
