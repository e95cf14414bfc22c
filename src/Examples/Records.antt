-- ===== src/Examples/Records.antt =====
-- The theorems on identifiers, retention and rules, at concrete records.
use drenyra_engram.Base.{
  ◌≡◌, refl, ◌↔◌, ◌⊎◌, inl, inr, ◌≤◌, ◌+◌, ◌-◌, ◌%◌, Str, str, str_lt, true, false, some, List, [],
  ◌∷◌, ◌++◌, all, is_empty, is_blank, All,
}
use drenyra_engram.Memory.{MemoryStatus, StatusTransitionRecord, human}
use drenyra_engram.Fiscal
use drenyra_engram.Fiscal.{is_valid_period, is_hex, policy_id_pattern, ruc_weights}
use drenyra_engram.Fiscal.Ruc.{weighted, check_digit}
use drenyra_engram.Fiscal.Period.{value}
use drenyra_engram.Fiscal.Ids.{IdShape, policy_id_pattern-IdShape}
use drenyra_engram.Retention.{
  evaluate_retention_eligibility, RetentionEligibility, resolve_retention_policy, is_candidate,
}
use drenyra_engram.Retention.Eligibility.{eligible_iff_reached}
use drenyra_engram.Retention.Resolve.{Latest, resolve_iff_Latest}
use drenyra_engram.Rules.{
  intervals_overlap, interval, RuleLinkConsuming, resolve_rule_version_from_chain, status_as_of,
}
use drenyra_engram.Rules.Overlap.{InWindow, overlap_iff_shared, undeclared_iff}
use drenyra_engram.Rules.Versions.{OnlyInForce, resolve_version_iff, Applied, status_as_of_last}
use drenyra_engram.Examples.Data.{lima, entry, policy, newer}

check_digit_example :
    (Fiscal.classify_ruc (str "20100070970") ≡ Fiscal.RucClassification.valid)
    ↔ (b'0' ≡ b'0' + (11 - weighted ruc_weights (str "2010007097") % 11) % 10)
unfolding all
check_digit_example = check_digit (str "2010007097") b'0' refl refl

-- Two of the four hyphens, and digits in the places of the others.
abbrev id_of_digits : Str
id_of_digits = str "01234567-89ab0cdef-01234567890abcdef"

id_of_digits_passes : policy_id_pattern id_of_digits ≡ true
unfolding policy_id_pattern
id_of_digits_passes = refl

policy_id_pattern-IdShape_example : (policy_id_pattern id_of_digits ≡ true) ↔ IdShape id_of_digits
policy_id_pattern-IdShape_example = policy_id_pattern-IdShape id_of_digits

eligible_iff_reached_example :
    (evaluate_retention_eligibility policy (str "202401") ≡ RetentionEligibility.eligible) ↔ (
      (is_valid_period (str "202312") ≡ true)
      × (is_valid_period (str "202401") ≡ true)
      × (value (str "202312") ≤ value (str "202401")))
eligible_iff_reached_example = eligible_iff_reached policy (str "202401")

resolve_iff_Latest_example :
    (resolve_retention_policy
        (newer ∷ policy ∷ [])
        lima
        (str "PE")
        (str "tax code")
        (str "invoices")
      ≡ some newer)
    ↔ Latest
        (is_candidate lima (str "PE") (str "tax code") (str "invoices"))
        (newer ∷ policy ∷ [])
        newer
resolve_iff_Latest_example =
    resolve_iff_Latest (newer ∷ policy ∷ []) lima (str "PE") (str "tax code") (str "invoices") newer

overlap_iff_shared_example :
    (intervals_overlap (str "2024-01-01") (str "2024-02-01") (str "2024-01-15") [] ≡ true) ↔ (
      (t : Str) × InWindow (str "2024-01-01") (str "2024-02-01") t
      × InWindow (str "2024-01-15") [] t)
unfolding str_lt
overlap_iff_shared_example =
    overlap_iff_shared (str "2024-01-01") (str "2024-02-01") (str "2024-01-15") [] refl refl
      (inl refl)

-- A decision at the first instant of the changed window.
abbrev consuming : RuleLinkConsuming
consuming = record {
  memory_id = str "m1";
  ref = str "rule";
  linked_version = [];
  link_effective_at = [];
  consuming_topic_key = str "t";
  consuming_kind = str "decision";
  consuming_status = MemoryStatus.approved;
  decision_time = str "2024-01-01";
  consuming_validity_start = [];
  consuming_validity_end = [];
}

abbrev unbounded : Str
unbounded = []

undeclared_iff_example :
    (intervals_overlap (interval consuming).0 (interval consuming).1 (str "2024-01-01") [] ≡ true)
    ↔ ((str_lt (str "2024-01-01") (str "2024-01-01") ≡ true)
        × (is_empty unbounded ≡ true ⊎ (str_lt (str "2024-01-01") unbounded ≡ true)))
undeclared_iff_example = undeclared_iff consuming (str "2024-01-01") [] refl refl

resolve_version_iff_example :
    (resolve_rule_version_from_chain (entry ∷ []) (str "m1") (str "2024-06-01") ≡ inr entry) ↔ (
      (is_blank (str "m1") ≡ false)
      × (is_blank (str "2024-06-01") ≡ false)
      × OnlyInForce (entry ∷ []) (str "2024-06-01") entry
      × (entry.identity.id ≡ str "m1"))
resolve_version_iff_example = resolve_version_iff (entry ∷ []) (str "m1") (str "2024-06-01") entry

abbrev approval_record : StatusTransitionRecord
approval_record = record {
  memory_id = str "m1";
  from = MemoryStatus.pending_review;
  to = MemoryStatus.approved;
  actor = str "ana";
  actor_kind = human;
  timestamp = str "2024-01-12";
}

status_as_of_last_example :
    (All (λ r. ¬ Applied r (str "2024-02-01")) (approval_record ∷ [])
      × (status_as_of MemoryStatus.pending_review (approval_record ∷ []) (str "2024-02-01")
          ≡ MemoryStatus.pending_review))
    ⊎ ((before after : List StatusTransitionRecord) × (r : StatusTransitionRecord)
        × (approval_record ∷ [] ≡ before ++ r ∷ after)
        × Applied r (str "2024-02-01")
        × All (λ x. ¬ Applied x (str "2024-02-01")) after
        × (status_as_of MemoryStatus.pending_review (approval_record ∷ []) (str "2024-02-01")
            ≡ r.to))
status_as_of_last_example =
    status_as_of_last MemoryStatus.pending_review (approval_record ∷ []) (str "2024-02-01")
