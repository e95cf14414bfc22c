-- ===== src/Rules.antt =====
-- Rule versions and their windows of validity, internal/core/rules.go. Instants are RFC3339 strings in
-- one fixed form, which the source compares as strings.
pub mod Overlap
pub mod Versions
use drenyra_engram.Base.{
  ◌⊎◌, inl, inr, Str, str, str_eq, str_lt, str_le, Bool, true, false, not, ◌&&◌, ◌||◌, Option, none,
  some, List, [], ◌∷◌, is_empty, is_blank, if◌then◌else◌,
}
use drenyra_engram.Base.Int.{ℤ}
use drenyra_engram.Memory.{AccountingMemory, MemoryStatus, StatusTransitionRecord}

pub record RuleImpactItem : Type 0 where
  pub memory_id : Str
  pub topic_key : Str
  pub kind : Str
  pub status : MemoryStatus
  pub decision_time : Str
  pub linked_version : Str
  pub resolved_version : Str
  pub jurisdiction : Str
  pub overlaps_changed_window : Bool
  pub outcome : Str
  pub detail : Str

abbrev pub rule_impact_resolved : Str
rule_impact_resolved = str "resolved"

abbrev pub rule_impact_legacy_unpinned : Str
rule_impact_legacy_unpinned = str "legacy unversioned ref"

-- `intervalsOverlap`: an empty end of the first interval makes it the point at its start.
unfoldable pub intervals_overlap : Str → Str → Str → Str → Bool
intervals_overlap d_start d_end r_start r_end =
    if is_empty d_start
    then false
    else if is_empty d_end
    then if not (is_empty r_start) && str_lt d_start r_start
      then false
      else if not (is_empty r_end) && str_le r_end d_start
      then false
      else true
    else if not (is_empty r_start) && str_le d_end r_start
    then false
    else if not (is_empty r_end) && str_le r_end d_start
    then false
    else true

unfoldable pub classify_rule_impact_item : RuleImpactItem → Str → Str → Str → Str → RuleImpactItem
unfolding intervals_overlap
classify_rule_impact_item item d_start d_end changed_start changed_end = record item {
  overlaps_changed_window = intervals_overlap d_start d_end changed_start changed_end;
}

pub record RuleLinkConsuming : Type 0 where
  pub memory_id : Str
  pub ref : Str
  pub linked_version : Str
  pub link_effective_at : Str
  pub consuming_topic_key : Str
  pub consuming_kind : Str
  pub consuming_status : MemoryStatus
  pub decision_time : Str
  pub consuming_validity_start : Str
  pub consuming_validity_end : Str

unfoldable pub interval : RuleLinkConsuming → Str × Str
interval c =
    if not (is_empty c.consuming_validity_start)
    then (c.consuming_validity_start, c.consuming_validity_end)
    else (c.decision_time, c.decision_time)

-- The second test reads the outcome that the first one wrote.
unfoldable pub normalize_outcome : Str → Str → Str
unfolding str_eq is_blank
normalize_outcome linked_version outcome =
    let o = if is_blank outcome then rule_impact_resolved else outcome in
    if is_empty linked_version && str_eq o rule_impact_resolved
    then rule_impact_legacy_unpinned
    else o

unfoldable pub normalize_rule_impact_item : RuleImpactItem → RuleImpactItem
unfolding normalize_outcome
normalize_rule_impact_item item = record item {
  outcome = normalize_outcome item.linked_version item.outcome;
}

-- The test of the loop of `ruleInForceAt`: a memory with no window is in force from its own effective
-- instant on.
unfoldable pub is_in_force : AccountingMemory → Str → Bool
is_in_force m instant = elim m.validity [
  | none ↦ not (is_empty m.effective_at) && str_le m.effective_at instant
  | some v ↦
      if is_empty v.effective_at
      then not (is_empty m.effective_at) && str_le m.effective_at instant
      else if str_lt instant v.effective_at
      then false
      else if not (is_empty v.expires_at) && str_le v.expires_at instant
      then false
      else true
]

unfoldable pub rule_in_force_at : List AccountingMemory → Str → List AccountingMemory
unfolding is_in_force
rule_in_force_at [] instant = []
rule_in_force_at (m ∷ chain) instant =
    let rest = rule_in_force_at chain instant in if is_in_force m instant then m ∷ rest else rest

pub data RuleVersionError : Type 0 where
  target_invalid not_in_force overlap mismatch : RuleVersionError

unfoldable pub sole_match : List AccountingMemory → Str → RuleVersionError ⊎ AccountingMemory
unfolding str_eq
sole_match [] pinned = inl not_in_force
sole_match (m ∷ []) pinned = if not (str_eq m.identity.id pinned) then inl mismatch else inr m
sole_match (_ ∷ _ ∷ _) pinned = inl overlap

unfoldable pub resolve_rule_version_from_chain :
    List AccountingMemory → Str → Str → RuleVersionError ⊎ AccountingMemory
unfolding is_blank rule_in_force_at sole_match
resolve_rule_version_from_chain chain pinned decision_time =
    if is_blank pinned || is_blank decision_time
    then inl target_invalid
    else sole_match (rule_in_force_at chain decision_time) pinned

unfoldable pub status_as_of : MemoryStatus → List StatusTransitionRecord → Str → MemoryStatus
unfolding str_lt
status_as_of status [] instant = status
status_as_of status (t ∷ ts) instant =
    status_as_of (if not (is_empty t.timestamp) && str_le t.timestamp instant then t.to else status)
      ts instant
