-- ===== src/Rules/Versions.antt =====
-- Which revision of a rule chain is in force, and a status as of an instant (internal/core/rules.go).
use drenyra_engram.Base.{
  ◌≡◌, ◌↔◌, ◌⊎◌, inl, inr, refl, sym, subst, Str, true, false, not, ◌&&◌, List, [], ◌∷◌, ◌++◌,
  str_eq, str_eq_iff, str_le, is_empty, is_blank, All, Bool-cases, arith,
}
use drenyra_engram.Memory.{AccountingMemory, MemoryStatus, StatusTransitionRecord}
use drenyra_engram.Rules.{
  is_in_force, rule_in_force_at, sole_match, resolve_rule_version_from_chain, status_as_of,
}

-- The entry of a chain that is in force, with none before it and none after it.
abbrev pub OnlyInForce : List AccountingMemory → Str → AccountingMemory → Type 0
OnlyInForce chain t m =
    (before after : List AccountingMemory) × (chain ≡ before ++ m ∷ after)
    × (is_in_force m t ≡ true)
    × All (λ x. is_in_force x t ≡ false) before
    × All (λ x. is_in_force x t ≡ false) after

none_in_force :
    (chain : List AccountingMemory) (t : Str)
    → (rule_in_force_at chain t ≡ []) ↔ All (λ x. is_in_force x t ≡ false) chain
unfolding rule_in_force_at
none_in_force [] t = ((λ _. tt), (λ _. refl))
none_in_force (m ∷ chain) t = elim (Bool-cases (is_in_force m t)) [
  | inl e ↦ ((λ h. absurd (ground arith)), (λ h. absurd (cc (e, h.0))))
  | inr e ↦ rw e ((λ h. (refl, (none_in_force chain t).0 h)), (λ h. (none_in_force chain t).1 h.1))
]

one_in_force :
    (chain : List AccountingMemory) (t : Str) (m : AccountingMemory)
    → rule_in_force_at chain t ≡ m ∷ []
    → OnlyInForce chain t m
unfolding rule_in_force_at
one_in_force [] t m h = absurd (ground arith)
one_in_force (x ∷ chain) t m h = elim (Bool-cases (is_in_force x t)) [
  | inl e ↦
      let rest : rule_in_force_at chain t ≡ [] = ground arith in
      let same : x ≡ m = ground arith in
      subst (OnlyInForce (x ∷ chain) t) same
        ([], chain, refl, e, tt, (none_in_force chain t).0 rest)
  | inr e ↦
      let rest : rule_in_force_at chain t ≡ m ∷ [] = ground arith in
      let (before, after, split, i, b, a) = one_in_force chain t m rest in
      (x ∷ before, after, cc split, i, (e, b), a)
]

only_in_force :
    (before after : List AccountingMemory) (t : Str) (m : AccountingMemory)
    → is_in_force m t ≡ true
    → All (λ x. is_in_force x t ≡ false) before
    → All (λ x. is_in_force x t ≡ false) after
    → rule_in_force_at (before ++ m ∷ after) t ≡ m ∷ []
unfolding rule_in_force_at
only_in_force [] after t m i b a = rw i (cc ((none_in_force after t).1 a))
only_in_force (x ∷ before) after t m i b a = rw b.0 (only_in_force before after t m i b.1 a)

sole-inr :
    (ms : List AccountingMemory) (pinned : Str) (m : AccountingMemory)
    → sole_match ms pinned ≡ inr m
    → (ms ≡ m ∷ []) × (m.identity.id ≡ pinned)
unfolding sole_match
sole-inr [] pinned m h = absurd (ground arith)
sole-inr (x ∷ []) pinned m h =
    let e : str_eq x.identity.id pinned ≡ true = ground arith in
    let same : x ≡ m = ground arith in
    (cc same, subst (λ y. y.identity.id ≡ pinned) same ((str_eq_iff _ _).0 e))
sole-inr (x ∷ y ∷ ms) pinned m h = absurd (ground arith)

inr-sole :
    (m : AccountingMemory) (pinned : Str)
    → m.identity.id ≡ pinned
    → sole_match (m ∷ []) pinned ≡ inr m
unfolding sole_match
inr-sole m pinned e = ground (arith, (str_eq_iff m.identity.id pinned).1 e)

-- Resolving a pinned rule version answers a revision `m` exactly when the pin and the decision instant
-- are not blank, `m` is in force at the instant and no other entry of the chain is, and the pin is the id
-- of `m`. In every other case the answer is an error.
pub resolve_version_iff :
    (chain : List AccountingMemory) (pinned t : Str) (m : AccountingMemory)
    → (resolve_rule_version_from_chain chain pinned t ≡ inr m) ↔ (
        (is_blank pinned ≡ false)
        × (is_blank t ≡ false)
        × OnlyInForce chain t m
        × (m.identity.id ≡ pinned))
unfolding resolve_rule_version_from_chain
resolve_version_iff chain pinned t m = (fwd, bwd)
  where
    fwd :
        resolve_rule_version_from_chain chain pinned t ≡ inr m
        → (is_blank pinned ≡ false)
          × (is_blank t ≡ false)
          × OnlyInForce chain t m
          × (m.identity.id ≡ pinned)
    fwd h =
        let p : is_blank pinned ≡ false = ground arith in
        let q : is_blank t ≡ false = ground arith in
        let (one, id) = sole-inr (rule_in_force_at chain t) pinned m (ground arith) in
        (p, q, one_in_force chain t m one, id)

    bwd :
        (is_blank pinned ≡ false)
          × (is_blank t ≡ false)
          × OnlyInForce chain t m
          × (m.identity.id ≡ pinned)
        → resolve_rule_version_from_chain chain pinned t ≡ inr m
    bwd (p, q, (before, after, split, i, b, a), id) =
        let found : rule_in_force_at chain t ≡ m ∷ [] =
          subst (λ c. rule_in_force_at c t ≡ m ∷ []) (sym split)
            (only_in_force before after t m i b a) in
        let answer : sole_match (rule_in_force_at chain t) pinned ≡ inr m =
          subst (λ l. sole_match l pinned ≡ inr m) (sym found) (inr-sole m pinned id) in
        ground arith

-- A transition that has happened by the instant.
abbrev pub Applied : StatusTransitionRecord → Str → Type 0
Applied r t = (is_empty r.timestamp ≡ false) × (str_le r.timestamp t ≡ true)

-- The status as of an instant is the target of the last entry of the list whose timestamp is not empty
-- and not after the instant, and the initial status when there is none.
pub status_as_of_last :
    (initial : MemoryStatus) (ts : List StatusTransitionRecord) (t : Str)
    → (All (λ r. ¬ Applied r t) ts × (status_as_of initial ts t ≡ initial))
      ⊎ ((before after : List StatusTransitionRecord) × (r : StatusTransitionRecord) × (ts
            ≡ before ++ r ∷ after)
          × Applied r t
          × All (λ x. ¬ Applied x t) after
          × (status_as_of initial ts t ≡ r.to))
unfolding status_as_of
status_as_of_last initial [] t = inl (tt, refl)
status_as_of_last initial (r ∷ ts) t =
    elim (Bool-cases (not (is_empty r.timestamp) && str_le r.timestamp t)) [
      | inl e ↦ rw e (elim (status_as_of_last r.to ts t) [
        | inl (n, k) ↦ inr ([], ts, r, refl, (ground arith, ground arith), n, k)
        | inr (b, a, x, s, p, n, k) ↦ inr (r ∷ b, a, x, cc s, p, n, k)
      ])
      | inr e ↦ rw e (elim (status_as_of_last initial ts t) [
        | inl (n, k) ↦ inl (((λ h. ground arith), n), k)
        | inr (b, a, x, s, p, n, k) ↦ inr (r ∷ b, a, x, cc s, p, n, k)
      ])
    ]
