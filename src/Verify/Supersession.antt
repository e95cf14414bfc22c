-- ===== src/Verify/Supersession.antt =====
-- What a passed supersession chain says of its links (VerifySupersessionChain, internal/core/verify.go).
use drenyra_engram.Base.{
  ◌≡◌, ◌↔◌, ◌⊎◌, inl, inr, refl, ap, Str, true, false, none, List, [], ◌∷◌, length, is_empty,
  str_eq_iff, In, Bool-cases, Option-cases, arith,
}
use drenyra_engram.Base.Sorted.{member, member_iff}
use drenyra_engram.Verify.{
  passed, SubjectScope, scope_eq, SupersessionLink, walk_chain, verify_supersession_chain,
}

-- A walk on from rows already seen: each row is new and of the scope, is superseded exactly when it has a
-- successor, and nothing follows a row that has none.
abbrev pub Walk : SubjectScope → List Str → List SupersessionLink → Type 0
Walk scope seen [] = Unit
Walk scope seen (l ∷ ls) =
    (l.scope ≡ scope)
    × (¬ In l.subject_id seen)
    × (((is_empty l.successor_id ≡ false) × (l.is_superseded ≡ true))
        ⊎ ((is_empty l.successor_id ≡ true) × (l.is_superseded ≡ false) × (ls ≡ [])))
    × Walk scope (l.subject_id ∷ seen) ls

scope_eq_iff : (a b : SubjectScope) → (scope_eq a b ≡ true) ↔ (a ≡ b)
unfolding scope_eq
scope_eq_iff a b = ground (
  arith,
  str_eq_iff a.tenant_id b.tenant_id,
  str_eq_iff a.company_id b.company_id,
  str_eq_iff a.fiscal_period_id b.fiscal_period_id,
)

Walk-iff :
    (scope : SubjectScope) (seen : List Str) (ls : List SupersessionLink)
    → (walk_chain scope seen ls ≡ none) ↔ Walk scope seen ls
unfolding walk_chain
Walk-iff scope seen [] = ((λ _. tt), (λ _. refl))
Walk-iff scope seen (l ∷ ls) =
    let ih = Walk-iff scope (l.subject_id ∷ seen) ls in
    let s = scope_eq_iff l.scope scope in
    let m = member_iff l.subject_id seen in
    (
      (λ h. (
        s.0 (ground arith),
        (λ k. ground (arith, m.1 k)),
        row (Bool-cases (is_empty l.successor_id)) h,
        ih.0 (ground arith),
      )),
      (λ (a, b, c, d).
          back (s.1 a) (Bool-cases (member l.subject_id seen)) (λ k. b (m.0 k)) c (ih.1 d)),
    )
  where
    Row : Type 0
    Row =
        ((is_empty l.successor_id ≡ false) × (l.is_superseded ≡ true))
        ⊎ ((is_empty l.successor_id ≡ true) × (l.is_superseded ≡ false) × (ls ≡ []))

    row :
        (is_empty l.successor_id ≡ true) ⊎ (is_empty l.successor_id ≡ false)
        → walk_chain scope seen (l ∷ ls) ≡ none
        → Row
    row (inl e) h = inr (e, ground arith, no_more ls (ground arith))
      where
        no_more : (xs : List SupersessionLink) → length xs ≡ 0 → xs ≡ []
        no_more [] n = refl
        no_more (x ∷ xs) n = absurd (omega arith)
    row (inr e) h = inl (e, ground arith)

    back :
        scope_eq l.scope scope ≡ true
        → (member l.subject_id seen ≡ true) ⊎ (member l.subject_id seen ≡ false)
        → ¬ (member l.subject_id seen ≡ true)
        → Row
        → walk_chain scope (l.subject_id ∷ seen) ls ≡ none
        → walk_chain scope seen (l ∷ ls) ≡ none
    back a (inl k) b c d = absurd (b k)
    back a (inr k) b (inl (e, f)) d = ground arith
    back a (inr k) b (inr (e, f, z)) d = let n : length ls ≡ 0 = ap length z in ground arith

chain_cons :
    (l : SupersessionLink) (ls : List SupersessionLink) (scope : SubjectScope)
    → ((verify_supersession_chain (l ∷ ls) scope).status ≡ passed)
      ↔ (walk_chain scope [] (l ∷ ls) ≡ none)
unfolding verify_supersession_chain
chain_cons l ls scope = elim (Option-cases (walk_chain scope [] (l ∷ ls))) [
  | inl e ↦ ((λ _. e), (λ _. ground arith))
  | inr (d, e) ↦ ((λ h. absurd (ground arith)), (λ h. absurd (ground arith)))
]

-- The supersession layer passes exactly when there is a link and the links form a walk: every link is of
-- the subject's scope, no row occurs twice, every row is superseded exactly when it names a successor,
-- and nothing follows a row that names none. (A last row that names a successor is let through.)
pub supersession_iff_Walk :
    (ls : List SupersessionLink) (scope : SubjectScope)
    → ((verify_supersession_chain ls scope).status ≡ passed) ↔ ((¬ (ls ≡ [])) × Walk scope [] ls)
unfolding verify_supersession_chain
supersession_iff_Walk [] scope = ((λ h. absurd (ground arith)), (λ (n, _). absurd (n refl)))
supersession_iff_Walk (l ∷ ls) scope = (
  (λ h. ((λ e. ground arith), (Walk-iff scope [] (l ∷ ls)).0 ((chain_cons l ls scope).0 h))),
  (λ (_, w). (chain_cons l ls scope).1 ((Walk-iff scope [] (l ∷ ls)).1 w)),
)
