-- ===== src/Verify/Walk/Ends.antt =====
-- The walk along a successor relation comes to an end.
use drenyra_engram.Base.{
  ℕ, zero, suc, ◌≤◌, ◌<◌, ◌≡◌, refl, sym, ◌∙◌, subst, ap, inl, inr, Str, Bool, true, false, Option,
  none, some, List, [], ◌∷◌, length, In, Bool-cases, Option-cases, arith, if◌then◌else◌,
}
use drenyra_engram.Base.Sorted.{member, member_iff}
use mathlib.Core.Option
use drenyra_engram.Verify.{SubjectScope, SupersessionLink}
use drenyra_engram.Verify.Walk.{link_of, links_from}

-- The ids of the list that a walk has not seen.
unfoldable pub unseen : List Str → List Str → ℕ
unseen seen [] = 0
unseen seen (x ∷ xs) = if member x seen then unseen seen xs else suc (unseen seen xs)

pub unseen-length : (seen ids : List Str) → unseen seen ids ≤ length ids
unfolding unseen
unseen-length seen [] = ground arith
unseen-length seen (x ∷ xs) = ground (arith, unseen-length seen xs)

member_cons : (x a : Str) (seen : List Str) → member x seen ≡ true → member x (a ∷ seen) ≡ true
member_cons x a seen h = (member_iff x (a ∷ seen)).1 (inr ((member_iff x seen).0 h))

unseen_shrinks : (a : Str) (seen ids : List Str) → unseen (a ∷ seen) ids ≤ unseen seen ids
unfolding unseen
unseen_shrinks a seen [] = ground arith
unseen_shrinks a seen (x ∷ xs) = elim (Bool-cases (member x seen)) [
  | inl e ↦ ground (arith, unseen_shrinks a seen xs, member_cons x a seen e)
  | inr e ↦ ground (arith, unseen_shrinks a seen xs)
]

-- A row that the walk has not seen is one less to see.
unseen_falls :
    (a : Str) (seen ids : List Str)
    → member a seen ≡ false
    → In a ids
    → unseen (a ∷ seen) ids < unseen seen ids
unfolding unseen
unseen_falls a seen [] n i = absurd i
unseen_falls a seen (x ∷ xs) n (inl e) =
    let now : member x (a ∷ seen) ≡ true = (member_iff x (a ∷ seen)).1 (inl (sym e)) in
    let before : member x seen ≡ false = subst (λ y. member y seen ≡ false) (sym e) n in
    ground (arith, unseen_shrinks a seen xs)
unseen_falls a seen (x ∷ xs) n (inr i) = elim (Bool-cases (member x seen)) [
  | inl e ↦ ground (arith, unseen_falls a seen xs n i, member_cons x a seen e)
  | inr e ↦ ground (arith, unseen_falls a seen xs n i)
]

module _ {A : Type 0} (id_of : A → Str) (is_superseded : A → Bool) (scope_of : A → SubjectScope)
    (next : Str → Option A) where
  abbrev link : A → Str → SupersessionLink
  link = link_of id_of is_superseded scope_of next

  abbrev links : ℕ → List Str → A → Option (List SupersessionLink)
  links = links_from id_of is_superseded scope_of next

  -- The three ways of a round of the loop.
  pub links_at_end :
      (fuel : ℕ) (seen : List Str) (cur : A)
      → next (id_of cur) ≡ none
      → links (suc fuel) seen cur ≡ some (link cur [] ∷ [])
  unfolding links_from
  links_at_end fuel seen cur e = rw (e, links_from) refl

  pub links_again :
      (fuel : ℕ) (seen : List Str) (cur y : A)
      → next (id_of cur) ≡ some y
      → member (id_of cur) seen ≡ true
      → links (suc fuel) seen cur ≡ some (link cur (id_of y) ∷ [])
  unfolding links_from
  links_again fuel seen cur y e m = rw (e, links_from) (rw m refl)

  pub links_on :
      (fuel : ℕ) (seen : List Str) (cur y : A)
      → next (id_of cur) ≡ some y
      → member (id_of cur) seen ≡ false
      → links (suc fuel) seen cur
        ≡ Option.map (λ ls. link cur (id_of y) ∷ ls) (links fuel (id_of cur ∷ seen) y)
  unfolding links_from
  links_on fuel seen cur y e m = rw (e, links_from) (rw m refl)

  module _ (ids : List Str) (stored : (x : Str) (y : A) → next x ≡ some y → In (id_of y) ids) where
    -- A walk ends when it has fuel for the stored rows it has not seen.
    pub links_from_end :
        (fuel : ℕ) (seen : List Str) (cur : A)
        → In (id_of cur) ids
        → unseen seen ids < fuel
        → (ls : List SupersessionLink) × (links fuel seen cur ≡ some ls)
    links_from_end zero seen cur i h = absurd (omega arith)
    links_from_end (suc fuel) seen cur i h = elim (Option-cases (next (id_of cur))) [
      | inl e ↦ (_, links_at_end fuel seen cur e)
      | inr (y, e) ↦ elim (Bool-cases (member (id_of cur) seen)) [
        | inl m ↦ (_, links_again fuel seen cur y e m)
        | inr m ↦
            let (ls, q) =
              links_from_end fuel (id_of cur ∷ seen) y (stored _ y e)
                (let f = unseen_falls (id_of cur) seen ids m i in omega arith) in
            (_, links_on fuel seen cur y e m ∙ ap (Option.map _) q)
      ]
    ]
