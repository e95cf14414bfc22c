-- ===== src/Verify/Walk/Current.antt =====
-- A supersession layer passes exactly when the walk comes to a current row.
use drenyra_engram.Base.{
  ℕ, zero, suc, ◌<◌, ◌≡◌, ◌⊎◌, refl, sym, subst, ap, ◌∙◌, inl, inr, Str, Bool, true, false, Option,
  none, some, List, [], ◌∷◌, is_empty, All, All-mono, In, Bool-cases, Option-cases, arith,
}
use drenyra_engram.Base.Sorted.{member, member_iff, at-all}
use mathlib.Core.Option
use drenyra_engram.Verify.{SubjectScope, SupersessionLink}
use drenyra_engram.Verify.Supersession.{Walk}
use drenyra_engram.Verify.Walk.{link_of, links_from}
use drenyra_engram.Verify.Walk.Ends.{links_at_end, links_again, links_on}

some-eq : {A : Type 0} (a b : A) → some a ≡ some b → a ≡ b
some-eq a b h = cc

none-map :
    {A B : Type 0} (f : A → B) (o : Option A) (b : B) → o ≡ none → ¬ (Option.map f o ≡ some b)
none-map f none b e h = cc
none-map f (some a) b e h = cc

module _ {A : Type 0} (id_of : A → Str) (is_superseded : A → Bool) (scope_of : A → SubjectScope)
    (next : Str → Option A) (scope : SubjectScope) where
  abbrev link : A → Str → SupersessionLink
  link = link_of id_of is_superseded scope_of next

  abbrev links : ℕ → List Str → A → Option (List SupersessionLink)
  links = links_from id_of is_superseded scope_of next

  -- So many successors on there is a row that has none and is not superseded; every row before it is
  -- superseded, and all are of the scope.
  abbrev pub Current : ℕ → A → Type 0
  Current zero cur =
      (next (id_of cur) ≡ none) × (is_superseded cur ≡ false) × (scope_of cur ≡ scope)
  Current (suc n) cur =
      (y : A) × (next (id_of cur) ≡ some y)
      × (is_superseded cur ≡ true)
      × (scope_of cur ≡ scope)
      × Current n y

  Current-steps : (n m : ℕ) (a b : A) → id_of a ≡ id_of b → Current n a → Current m b → n ≡ m
  Current-steps zero zero a b e p q = refl
  Current-steps zero (suc m) a b e p (y, h, _, _, _) =
      let f : next (id_of a) ≡ next (id_of b) = ap next e in let g = p.0 in absurd (ground arith)
  Current-steps (suc n) zero a b e (y, h, _, _, _) q =
      let f : next (id_of a) ≡ next (id_of b) = ap next e in let g = q.0 in absurd (ground arith)
  Current-steps (suc n) (suc m) a b e (y, h, _, _, p) (z, k, _, _, q) =
      let same : y ≡ z = some-eq y z (sym h ∙ ap next e ∙ k) in
      ap suc (Current-steps n m y z (ap id_of same) p q)

  -- A row with the id is further from its current row.
  abbrev Further : ℕ → Str → Type 0
  Further n x = (k : ℕ) × (b : A) × (id_of b ≡ x) × (n < k) × Current k b

  new_row :
      (n : ℕ) (seen : List Str) (cur : A)
      → All (Further n) seen
      → Current n cur
      → ¬ In (id_of cur) seen
  new_row n seen cur past c i =
      let (k, b, e, lt, d) = at-all (Further n) seen (id_of cur) past i in
      let same : k ≡ n = Current-steps k n b cur e d c in absurd (omega arith)

  module _ (named : (x : Str) (y : A) → next x ≡ some y → is_empty (id_of y) ≡ false) where
    -- What a walk that answered says of its first round.
    abbrev Round : ℕ → List Str → A → List SupersessionLink → Type 0
    Round fuel seen cur ls =
        ((next (id_of cur) ≡ none) × (link cur [] ∷ [] ≡ ls))
        ⊎ ((y : A) × (next (id_of cur) ≡ some y)
            × (member (id_of cur) seen ≡ true)
            × (link cur (id_of y) ∷ [] ≡ ls))
        ⊎ ((y : A) × (next (id_of cur) ≡ some y)
            × (member (id_of cur) seen ≡ false)
            × (rest : List SupersessionLink) × (links fuel (id_of cur ∷ seen) y ≡ some rest)
            × (link cur (id_of y) ∷ rest ≡ ls))

    links_from-Round :
        (fuel : ℕ) (seen : List Str) (cur : A) (ls : List SupersessionLink)
        → links (suc fuel) seen cur ≡ some ls
        → Round fuel seen cur ls
    links_from-Round fuel seen cur ls h = elim (Option-cases (next (id_of cur))) [
      | inl e ↦ inl (e, some-eq _ _ (sym (links_at_end _ _ _ _ fuel seen cur e) ∙ h))
      | inr (y, e) ↦ elim (Bool-cases (member (id_of cur) seen)) [
        | inl m ↦
            inr (inl (y, e, m, some-eq _ _ (sym (links_again _ _ _ _ fuel seen cur y e m) ∙ h)))
        | inr m ↦ elim (Option-cases (links fuel (id_of cur ∷ seen) y)) [
          | inl none_left ↦
              let q = sym (links_on _ _ _ _ fuel seen cur y e m) ∙ h in
              absurd (none-map _ _ _ none_left q)
          | inr (rest, f) ↦ inr (
              inr (
                y,
                e,
                m,
                rest,
                f,
                some-eq _ _ (sym (links_on _ _ _ _ fuel seen cur y e m ∙ ap (Option.map _) f) ∙ h),
              ))
        ]
      ]
    ]

    -- A walk has at least the link of its first row.
    pub links_not_empty :
        (fuel : ℕ) (seen : List Str) (cur : A) (ls : List SupersessionLink)
        → links fuel seen cur ≡ some ls
        → ¬ (ls ≡ [])
    unfolding links_from
    links_not_empty zero seen cur ls h e = cc
    links_not_empty (suc fuel) seen cur ls h e = elim (links_from-Round fuel seen cur ls h) [
      | inl (_, q) ↦ cc
      | inr (inl (_, _, _, q)) ↦ cc
      | inr (inr (_, _, _, _, _, q)) ↦ cc
    ]

    -- Links that form a walk lead to a current row.
    pub Current-Walk :
        (fuel : ℕ) (seen : List Str) (cur : A) (ls : List SupersessionLink)
        → links fuel seen cur ≡ some ls
        → Walk scope seen ls
        → (n : ℕ) × Current n cur
    unfolding links_from link_of
    Current-Walk zero seen cur ls h w = cc
    Current-Walk (suc fuel) seen cur ls h w =
        from (λ seen y rest. Current-Walk fuel seen y rest) (links_from-Round fuel seen cur ls h)
      where
        from :
            ((seen : List Str) (y : A) (rest : List SupersessionLink)
              → links fuel seen y ≡ some rest
              → Walk scope seen rest
              → (n : ℕ) × Current n y)
            → Round fuel seen cur ls
            → (n : ℕ) × Current n cur
        from ih (inl (e, q)) =
            let (a, b, c, _) = subst (Walk scope seen) (sym q) w in
            (zero, (e, elim c [ inl (absent, _) ↦ cc | inr (_, current, _) ↦ current ], a))
        from ih (inr (inl (y, e, m, q))) =
            let (a, b, c, _) = subst (Walk scope seen) (sym q) w in
            absurd (b ((member_iff _ _).0 m))
        from ih (inr (inr (y, e, m, rest, f, q))) =
            let (a, b, c, d) = subst (Walk scope seen) (sym q) w in
            let (n, onward) = ih (id_of cur ∷ seen) y rest f d in
            let full = named _ y e in
            (
              suc n,
              (
                y,
                e,
                elim c [ inl (_, marked) ↦ marked | inr (unnamed, _, _) ↦ ground arith ],
                a,
                onward,
              ),
            )

    -- From a row that leads to a current row, the links form a walk.
    pub Walk-Current :
        (fuel n : ℕ) (seen : List Str) (cur : A) (ls : List SupersessionLink)
        → links fuel seen cur ≡ some ls
        → All (Further n) seen
        → Current n cur
        → Walk scope seen ls
    unfolding links_from link_of
    Walk-Current zero n seen cur ls h past c = cc
    Walk-Current (suc fuel) n seen cur ls h past c =
        from (λ n seen y rest. Walk-Current fuel n seen y rest) n
          (links_from-Round fuel seen cur ls h) past c (new_row n seen cur past c)
      where
        from :
            ((n : ℕ) (seen : List Str) (y : A) (rest : List SupersessionLink)
              → links fuel seen y ≡ some rest
              → All (Further n) seen
              → Current n y
              → Walk scope seen rest)
            → (n : ℕ) → Round fuel seen cur ls
            → All (Further n) seen
            → Current n cur
            → ¬ In (id_of cur) seen
            → Walk scope seen ls
        from ih zero (inl (e, q)) past c new =
            subst (Walk scope seen) q (c.2, new, inr (refl, c.1, refl), tt)
        from ih (suc n) (inl (e, q)) past (y, f, _, _, _) new = absurd (ground arith)
        from ih n (inr (inl (y, e, m, q))) past c new = absurd (new ((member_iff _ _).0 m))
        from ih zero (inr (inr (y, e, m, rest, f, q))) past c new =
            let g = c.0 in absurd (ground arith)
        from ih (suc n) (inr (inr (y, e, m, rest, f, q))) past (z, k, marked, same, onward) new =
            let there : z ≡ y = some-eq z y (sym k ∙ e) in
            subst (Walk scope seen) q (
              same,
              new,
              inl (named _ y e, marked),
              ih n (id_of cur ∷ seen) y rest f
                  (
                    (suc n, cur, refl, omega arith, (z, k, marked, same, onward)),
                    All-mono seen (λ x (j, b, i, lt, d). (j, b, i, omega arith, d)) past,
                  )
                  (subst (Current n) there onward),
            )
