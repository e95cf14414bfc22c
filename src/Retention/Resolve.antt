-- ===== src/Retention/Resolve.antt =====
-- Which policy of a list is in force (resolveRetentionPolicy, internal/core/retention_policy.go).
use drenyra_engram.Base.{
  ℕ, suc, ◌+◌, ◌≤◌, ◌≡◌, ◌↔◌, ◌⊎◌, inl, inr, refl, sym, subst, ◌∙◌, Str, Bool, true, false, ◌&&◌,
  Option, none, some, List, [], ◌∷◌, ◌==◌, if◌then◌else◌, All, In, Bool-cases, arith,
}
use drenyra_engram.Base.Int.{ℤ, pos, ltb_ℤ, eq_ℤ, eq_ℤ_iff}
use drenyra_engram.Memory.{Scope}
use drenyra_engram.Retention.{
  RetentionPolicy, Search, consider, search_policies, start, is_candidate, resolve_retention_policy,
}

module _ (c : RetentionPolicy → Bool) where
  -- No candidate has a version above `v`.
  abbrev pub Bounded : ℤ → List RetentionPolicy → Type 0
  Bounded v ps = All (λ p. c p ≡ true → ltb_ℤ v p.version ≡ false) ps

  -- The candidates of one version.
  abbrev pub count : ℤ → List RetentionPolicy → ℕ
  count v [] = 0
  count v (p ∷ ps) = if c p && eq_ℤ p.version v then suc (count v ps) else count v ps

  -- How the loop ends, seen from the state it starts in: either nothing is above the version it starts
  -- with, or the best of the list takes over.
  Kept : Search → Search → List RetentionPolicy → Type 0
  Kept s e ps =
      Bounded s.best_version ps
      × (e.best ≡ s.best)
      × (e.matches ≡ s.matches + count s.best_version ps)

  Beaten : Search → Search → List RetentionPolicy → Type 0
  Beaten s e ps =
      (b : RetentionPolicy) × In b ps
      × (c b ≡ true)
      × (ltb_ℤ s.best_version b.version ≡ true)
      × Bounded b.version ps
      × (e.best ≡ some b)
      × (e.matches ≡ count b.version ps)

  skip :
      (s e : Search) (p : RetentionPolicy) (ps : List RetentionPolicy)
      → (c p ≡ true → ltb_ℤ p.version s.best_version ≡ true)
      → (Kept s e ps ⊎ Beaten s e ps)
      → Kept s e (p ∷ ps) ⊎ Beaten s e (p ∷ ps)
  unfolding Kept Beaten
  skip s e p ps h (inl (k, m, n)) = inl (((λ q. ground (arith, h q)), k), m, ground arith)
  skip s e p ps h (inr (b, i, q, l, k, m, n)) =
      inr (b, inr i, q, l, ((λ r. ground (arith, h r)), k), m, ground arith)

  equal :
      (s e : Search) (p : RetentionPolicy) (ps : List RetentionPolicy)
      → c p ≡ true
      → p.version ≡ s.best_version
      → (Kept (record s { matches = s.matches + 1 }) e ps
          ⊎ Beaten (record s { matches = s.matches + 1 }) e ps)
      → Kept s e (p ∷ ps) ⊎ Beaten s e (p ∷ ps)
  unfolding Kept Beaten
  equal s e p ps q v (inl (k, m, n)) = inl (
    ((λ _. rw v (ground arith)), k),
    m,
    rw v (ground (arith, eq_ℤ_iff s.best_version s.best_version)),
  )
  equal s e p ps q v (inr (b, i, r, l, k, m, n)) =
      inr (b, inr i, r, l, ((λ _. rw v (ground arith)), k), m, rw v (ground arith))

  above :
      (s e : Search) (p : RetentionPolicy) (ps : List RetentionPolicy)
      → c p ≡ true
      → ltb_ℤ s.best_version p.version ≡ true
      → (Kept (record { best = some p; best_version = p.version; matches = 1 }) e ps
          ⊎ Beaten (record { best = some p; best_version = p.version; matches = 1 }) e ps)
      → Beaten s e (p ∷ ps)
  unfolding Kept Beaten
  above s e p ps q v (inl (k, m, n)) =
      (p, inl refl, q, v, ((λ _. ground arith), k), m, ground (arith, eq_ℤ_iff p.version p.version))
  above s e p ps q v (inr (b, i, r, l, k, m, n)) =
      (b, inr i, r, ground arith, ((λ _. ground arith), k), m, ground arith)

  search-ends :
      (s : Search) (ps : List RetentionPolicy)
      → Kept s (search_policies c s ps) ps ⊎ Beaten s (search_policies c s ps) ps
  unfolding search_policies consider
  search-ends s [] = inl (unfold Kept in (tt, refl, ground arith))
  search-ends s (p ∷ ps) =
      go (λ x. search-ends x ps) (Bool-cases (c p)) (Bool-cases (ltb_ℤ s.best_version p.version))
        (Bool-cases (eq_ℤ p.version s.best_version))
    where
      End : Search → Type 0
      End x = Kept s (search_policies c x ps) (p ∷ ps) ⊎ Beaten s (search_policies c x ps) (p ∷ ps)

      go :
          ((x : Search) → Kept x (search_policies c x ps) ps ⊎ Beaten x (search_policies c x ps) ps)
          → (c p ≡ true) ⊎ (c p ≡ false)
          → (ltb_ℤ s.best_version p.version ≡ true) ⊎ (ltb_ℤ s.best_version p.version ≡ false)
          → (eq_ℤ p.version s.best_version ≡ true) ⊎ (eq_ℤ p.version s.best_version ≡ false)
          → End (if c p then consider s p else s)
      go ih (inr n) _ _ = rw n (skip s _ p ps (λ q. cc) (ih s))
      go ih (inl y) (inl l) _ = rw y (rw l (inr (above s _ p ps y l (ih _))))
      go ih (inl y) (inr l) (inl q) =
          rw y (rw l (rw q (equal s _ p ps y ((eq_ℤ_iff _ _).0 q) (ih _))))
      go ih (inl y) (inr l) (inr q) = rw y (rw l (rw q (skip s _ p ps (λ _. ground arith) (ih s))))

  -- A candidate of the list, with its version, is counted.
  counted :
      (v : ℤ) (a : RetentionPolicy) (ps : List RetentionPolicy)
      → In a ps
      → c a ≡ true
      → a.version ≡ v
      → 1 ≤ count v ps
  counted v a [] i q e = absurd i
  counted v a (p ∷ ps) (inl i) q e =
      let here : (c p && eq_ℤ p.version v) ≡ true =
        subst (λ x. (c x && eq_ℤ x.version v) ≡ true) (sym i)
          (ground (arith, eq_ℤ_iff a.version v)) in
      ground arith
  counted v a (p ∷ ps) (inr i) q e = ground (arith, counted v a ps i q e)

  one_of_version :
      (v : ℤ) (a b : RetentionPolicy) (ps : List RetentionPolicy)
      → In a ps
      → c a ≡ true
      → a.version ≡ v
      → In b ps
      → c b ≡ true
      → b.version ≡ v
      → count v ps ≡ 1
      → a ≡ b
  one_of_version v a b [] i q e j r f n = absurd i
  one_of_version v a b (p ∷ ps) (inl i) q e (inl j) r f n = sym i ∙ j
  one_of_version v a b (p ∷ ps) (inl i) q e (inr j) r f n =
      let here : (c p && eq_ℤ p.version v) ≡ true =
        subst (λ x. (c x && eq_ℤ x.version v) ≡ true) (sym i)
          (ground (arith, eq_ℤ_iff a.version v)) in
      absurd (ground (arith, counted v b ps j r f))
  one_of_version v a b (p ∷ ps) (inr i) q e (inl j) r f n =
      let here : (c p && eq_ℤ p.version v) ≡ true =
        subst (λ x. (c x && eq_ℤ x.version v) ≡ true) (sym j)
          (ground (arith, eq_ℤ_iff b.version v)) in
      absurd (ground (arith, counted v a ps i q e))
  one_of_version v a b (p ∷ ps) (inr i) q e (inr j) r f n =
      one_of_version v a b ps i q e j r f (ground (arith, counted v a ps i q e))

  bound_at :
      (v : ℤ) (a : RetentionPolicy) (ps : List RetentionPolicy)
      → Bounded v ps
      → In a ps
      → c a ≡ true
      → ltb_ℤ v a.version ≡ false
  bound_at v a [] b i q = absurd i
  bound_at v a (p ∷ ps) b (inl i) q = subst (λ x. c x ≡ true → ltb_ℤ v x.version ≡ false) i b.0 q
  bound_at v a (p ∷ ps) b (inr i) q = bound_at v a ps b.1 i q

  -- The unique latest candidate of the list.
  pub record Latest (ps : List RetentionPolicy) (p : RetentionPolicy) : Type 0 where
    pub listed : In p ps
    pub candidate : c p ≡ true
    pub latest : Bounded p.version ps
    pub alone : count p.version ps ≡ 1

candidate_version :
    (scope : Scope) (jurisdiction legislation category : Str) (p : RetentionPolicy)
    → is_candidate scope jurisdiction legislation category p ≡ true
    → ltb_ℤ (pos 0) p.version ≡ true
unfolding is_candidate
candidate_version scope jurisdiction legislation category p h =
    let one : ltb_ℤ p.version (pos 1) ≡ false = ground arith in one_up p.version one
  where
    one_up : (v : ℤ) → ltb_ℤ v (pos 1) ≡ false → ltb_ℤ (pos 0) v ≡ true
    one_up v e = ground arith

-- The policy resolved for a key is exactly the unique latest candidate: a policy `p` is answered if and
-- only if it is in the list, is a candidate (enabled, of that scope, jurisdiction, legislation and
-- category, with a version of at least 1), no candidate has a version above its own, and it is the only
-- entry of the list that is a candidate of that version.
pub resolve_iff_Latest :
    (ps : List RetentionPolicy) (scope : Scope) (jurisdiction legislation category : Str)
    (p : RetentionPolicy)
    → (resolve_retention_policy ps scope jurisdiction legislation category ≡ some p)
      ↔ Latest (is_candidate scope jurisdiction legislation category) ps p
unfolding resolve_retention_policy Kept Beaten
resolve_iff_Latest ps scope jurisdiction legislation category p =
    go (search_policies c start ps) (search-ends c start ps)
  where
    c : RetentionPolicy → Bool
    c = is_candidate scope jurisdiction legislation category

    found : Search → Option RetentionPolicy
    found s = if s.matches == 1 then s.best else none

    go : (e : Search) → Kept c start e ps ⊎ Beaten c start e ps → (found e ≡ some p) ↔ Latest c ps p
    go e (inl (k, m, n)) = (
      (λ h. absurd (ground arith)),
      (λ l. absurd (
          cc (
            candidate_version scope jurisdiction legislation category p l.candidate,
            bound_at c (pos 0) p ps k l.listed l.candidate,
          ))),
    )
    go e (inr (b, i, q, l, k, m, n)) = (
      (λ h.
          let same : b ≡ p = ground arith in
          subst (Latest c ps) same
            (record { listed = i; candidate = q; latest = k; alone = ground arith })),
      (λ t.
          let v : b.version ≡ p.version = ground (
            arith,
            bound_at c b.version p ps k t.listed t.candidate,
            bound_at c p.version b ps t.latest i q,
          ) in
          let one : count c b.version ps ≡ 1 = subst (λ x. count c x ps ≡ 1) (sym v) t.alone in
          let same : b ≡ p =
            one_of_version c p.version b p ps i q v t.listed t.candidate refl t.alone in
          ground arith),
    )
