-- ===== src/Retention/Tokens.antt =====
-- The canonical token lists of a retention policy (canonicalRoleList, internal/core/retention_policy.go).
use drenyra_engram.Base.{
  ◌≡◌, refl, sym, ap, ◌∙◌, ◌⊎◌, inl, inr, Str, Bool, true, false, none, some, List, [], ◌∷◌, ◌++◌,
  All, Any, if◌then◌else◌, Bool-cases,
}
use mathlib.Core.Option
use drenyra_engram.Base.Sorted.{member, sort_strings, dedup_onto, canonical, Ascending}
use drenyra_engram.Base.Canonical.{SameMembers, canonical-Ascending, in-canonical, canonical_unique}
use drenyra_engram.Retention.{collect, canonical_role_list}

collect-valid :
    (valid : Str → Bool) (out ts : List Str)
    → All (λ t. valid t ≡ true) ts
    → collect valid out ts ≡ some (dedup_onto out ts)
unfolding collect dedup_onto
collect-valid valid out [] h = refl
collect-valid valid out (t ∷ ts) h =
    rw h.0 (collect-valid valid (if member t out then out else out ++ t ∷ []) ts h.1)

collect-invalid :
    (valid : Str → Bool) (out ts : List Str)
    → Any (λ t. valid t ≡ false) ts
    → collect valid out ts ≡ none
unfolding collect
collect-invalid valid out [] h = absurd h
collect-invalid valid out (t ∷ ts) (inl h) = rw h refl
collect-invalid valid out (t ∷ ts) (inr h) = elim (Bool-cases (valid t)) [
  | inl e ↦ rw e (collect-invalid valid (if member t out then out else out ++ t ∷ []) ts h)
  | inr e ↦ rw e refl
]

valid-cases :
    (valid : Str → Bool) (ts : List Str)
    → (All (λ t. valid t ≡ true) ts) ⊎ (Any (λ t. valid t ≡ false) ts)
valid-cases valid [] = inl tt
valid-cases valid (t ∷ ts) = elim (Bool-cases (valid t)) [
  | inr e ↦ inr (inl e)
  | inl e ↦ elim (valid-cases valid ts) [ inl h ↦ inl (e, h) | inr h ↦ inr (inr h) ]
]

-- A list of accepted tokens that is not empty is answered with its canonical form.
role_list-canonical :
    (valid : Str → Bool) (t : Str) (ts defaults : List Str)
    → All (λ t. valid t ≡ true) (t ∷ ts)
    → canonical_role_list (t ∷ ts) defaults valid ≡ some (canonical (t ∷ ts))
unfolding canonical_role_list canonical
role_list-canonical valid t ts defaults h =
    ap (Option.map sort_strings) (collect-valid valid [] (t ∷ ts) h)

-- For a list of tokens that is not empty: if every token is accepted, the list is answered in strictly
-- ascending order with exactly the tokens given as its members; if some token is not, the answer is the
-- error.
role_list_cases :
    (valid : Str → Bool) (t : Str) (ts defaults : List Str)
    → (All (λ t. valid t ≡ true) (t ∷ ts)
        × ((out : List Str) × (canonical_role_list (t ∷ ts) defaults valid ≡ some out)
            × Ascending out
            × SameMembers out (t ∷ ts)))
      ⊎ (Any (λ t. valid t ≡ false) (t ∷ ts) × (canonical_role_list (t ∷ ts) defaults valid ≡ none))
unfolding canonical_role_list
role_list_cases valid t ts defaults = elim (valid-cases valid (t ∷ ts)) [
  | inl h ↦ inl (
    h,
    (
      canonical (t ∷ ts),
      role_list-canonical valid t ts defaults h,
      canonical-Ascending (t ∷ ts),
      in-canonical (t ∷ ts),
    ),
  )
  | inr h ↦ inr (h, ap (Option.map sort_strings) (collect-invalid valid [] (t ∷ ts) h))
]

-- Two lists of accepted tokens, neither of them empty, that have the same members are stored as
-- the same list.
role_list_order :
    (valid : Str → Bool) (t u : Str) (ts us defaults : List Str)
    → All (λ t. valid t ≡ true) (t ∷ ts)
    → All (λ t. valid t ≡ true) (u ∷ us)
    → SameMembers (t ∷ ts) (u ∷ us)
    → canonical_role_list (t ∷ ts) defaults valid ≡ canonical_role_list (u ∷ us) defaults valid
role_list_order valid t u ts us defaults h k m =
    role_list-canonical valid t ts defaults h
    ∙ ap some (canonical_unique (t ∷ ts) (u ∷ us) m)
    ∙ sym (role_list-canonical valid u us defaults k)
