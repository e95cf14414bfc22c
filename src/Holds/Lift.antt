-- ===== src/Holds/Lift.antt =====
-- What a valid hold blocks (AssertValidEvidenceHold and HasActiveBlockingHold, internal/core/hold.go).
use drenyra_engram.Base.{
  ◌≡◌, ◌↔◌, ◌⊎◌, inl, inr, refl, ◌∙◌, Str, str_eq_iff, Bool, true, false, none, List, In, any→Any,
  Any→any, is_empty, is_blank, Bool-cases, arith,
}
use drenyra_engram.Holds.{
  EvidenceHold, kind_token, lift_is_consistent, has_active_blocking_hold, assert_valid_hold_fields,
  assert_valid_evidence_hold,
}

active-blocks :
    (h : EvidenceHold) (kinds : List Str)
    → is_empty h.lifted_at ≡ true
    → (has_active_blocking_hold h kinds ≡ true) ↔ In (kind_token h.kind) kinds
unfolding has_active_blocking_hold
active-blocks h kinds e = rw e (
  any→Any _ kinds (λ k q. (str_eq_iff k (kind_token h.kind)).0 q),
  Any→any _ kinds (λ k q. (str_eq_iff k (kind_token h.kind)).1 q),
)

lifted-blocks :
    (h : EvidenceHold) (kinds : List Str)
    → is_empty h.lifted_at ≡ false
    → has_active_blocking_hold h kinds ≡ false
unfolding has_active_blocking_hold
lifted-blocks h kinds e = rw e refl

consistent_fields :
    (parses : Str → Str → Bool) (h : EvidenceHold)
    → assert_valid_hold_fields parses h ≡ none
    → (lift_is_consistent h ≡ true)
      × (is_empty h.lifted_at ≡ false → is_blank h.lift_reason ≡ false)
unfolding assert_valid_hold_fields
consistent_fields parses h v = (ground arith, (λ e. ground arith))

valid_fields :
    (parses : Str → Str → Bool) (h : EvidenceHold)
    → assert_valid_evidence_hold parses h ≡ none
    → assert_valid_hold_fields parses h ≡ none
unfolding assert_valid_evidence_hold
valid_fields parses h v = ground arith

consistent-all :
    (h : EvidenceHold)
    → lift_is_consistent h ≡ true
    → (is_empty h.lifted_by ≡ is_empty h.lifted_at)
      × (is_empty h.lift_reason ≡ is_empty h.lifted_at)
unfolding lift_is_consistent
consistent-all h e = (ground arith, ground arith)

-- A hold that validation lets through is in one of two states. Either it is placed: no lift field is set,
-- and it blocks a purge exactly when its kind is among the blocking kinds. Or it is lifted: all three lift
-- fields are set, the reason is not blank, and it blocks nothing whatever the blocking kinds are.
pub valid_hold_state :
    (parses : Str → Str → Bool) (h : EvidenceHold) (kinds : List Str)
    → assert_valid_evidence_hold parses h ≡ none
    → ((is_empty h.lifted_at ≡ true)
        × (is_empty h.lifted_by ≡ true)
        × (is_empty h.lift_reason ≡ true)
        × ((has_active_blocking_hold h kinds ≡ true) ↔ In (kind_token h.kind) kinds))
      ⊎ ((is_empty h.lifted_at ≡ false)
          × (is_empty h.lifted_by ≡ false)
          × (is_blank h.lift_reason ≡ false)
          × (has_active_blocking_hold h kinds ≡ false))
valid_hold_state parses h kinds v =
    let (c, r) = consistent_fields parses h (valid_fields parses h v) in
    let (b, l) = consistent-all h c in
    elim (Bool-cases (is_empty h.lifted_at)) [
      | inl e ↦ inl (e, b ∙ e, l ∙ e, active-blocks h kinds e)
      | inr e ↦ inr (e, b ∙ e, r e, lifted-blocks h kinds e)
    ]
