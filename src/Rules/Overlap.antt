-- ===== src/Rules/Overlap.antt =====
-- What the overlap test answers (intervalsOverlap and Interval, internal/core/rules.go).
use drenyra_engram.Base.{
  ◌≡◌, ◌↔◌, ◌⊎◌, inl, inr, refl, sym, subst, if◌then◌else◌, Str, Bool, true, false, not, [], ◌∷◌,
  str_lt, is_empty, Bool-cases, arith,
}
use drenyra_engram.Base.Order.{str_lt_irrefl, str_lt_trans, str_lt_total}
use drenyra_engram.Rules.{intervals_overlap, interval, RuleLinkConsuming}

-- An instant of the half-open window [start, end); an empty bound is unbounded.
abbrev pub InWindow : Str → Str → Str → Type 0
InWindow start end t = (str_lt t start ≡ false) × (is_empty end ≡ true ⊎ (str_lt t end ≡ true))

empty_least : (t : Str) → str_lt t [] ≡ false
unfolding str_lt
empty_least [] = refl
empty_least (_ ∷ _) = refl

point_iff :
    (d r_start r_end : Str)
    → is_empty d ≡ false
    → (intervals_overlap d [] r_start r_end ≡ true) ↔ InWindow r_start r_end d
unfolding intervals_overlap
point_iff d [] r_end n = ((λ h. (empty_least d, ground arith)), (λ h. ground arith))
point_iff d (r ∷ rs) r_end n = ((λ h. (ground arith, ground arith)), (λ h. ground arith))

window_tests :
    (d e r_start r_end : Str)
    → is_empty d ≡ false
    → is_empty e ≡ false
    → (intervals_overlap d e r_start r_end ≡ true)
      ↔ ((str_lt r_start e ≡ true) × (is_empty r_end ≡ true ⊎ (str_lt d r_end ≡ true)))
unfolding intervals_overlap str_lt
window_tests [] e r_start r_end n m = absurd (ground arith)
window_tests (x ∷ d) [] r_start r_end n m = absurd (ground arith)
window_tests (x ∷ d) (y ∷ e) [] r_end n m = ((λ h. (refl, ground arith)), (λ h. ground arith))
window_tests (x ∷ d) (y ∷ e) (r ∷ rs) r_end n m =
    ((λ h. (ground arith, ground arith)), (λ h. ground arith))

shared_instant :
    (d e r_start r_end : Str)
    → str_lt d e ≡ true
    → is_empty r_end ≡ true ⊎ (str_lt r_start r_end ≡ true)
    → str_lt r_start e ≡ true
    → is_empty r_end ≡ true ⊎ (str_lt d r_end ≡ true)
    → (t : Str) × InWindow d e t × InWindow r_start r_end t
shared_instant d e r_start r_end w v a b = elim (Bool-cases (str_lt d r_start)) [
  | inl l ↦ (
    r_start,
    (ground (arith, str_lt_trans d r_start d, str_lt_irrefl d), inr a),
    (str_lt_irrefl r_start, v),
  )
  | inr l ↦ (d, (str_lt_irrefl d, inr w), (l, b))
]

-- An instant not before `a` and before `b` puts `a` before `b`.
between : (a b t : Str) → str_lt t a ≡ false → str_lt t b ≡ true → str_lt a b ≡ true
between a b t h k = ground (
  arith,
  str_lt_total a b,
  str_lt_total t a,
  str_lt_trans b a t,
  str_lt_trans a t b,
  str_lt_trans t b a,
  str_lt_irrefl b,
)

-- For a consuming interval with a start before its end and a changed window with a start before its end
-- or no end, the overlap test answers true exactly when some instant lies in both half-open windows.
pub overlap_iff_shared :
    (d e r_start r_end : Str)
    → is_empty d ≡ false
    → str_lt d e ≡ true
    → is_empty r_end ≡ true ⊎ (str_lt r_start r_end ≡ true)
    → (intervals_overlap d e r_start r_end ≡ true)
      ↔ ((t : Str) × InWindow d e t × InWindow r_start r_end t)
overlap_iff_shared d [] r_start r_end n w v = absurd (cc (empty_least d))
overlap_iff_shared d (y ∷ e) r_start r_end n w v = (fwd, bwd)
  where
    fwd :
        intervals_overlap d (y ∷ e) r_start r_end ≡ true
        → (t : Str) × InWindow d (y ∷ e) t × InWindow r_start r_end t
    fwd h =
        let (a, b) = (window_tests d (y ∷ e) r_start r_end n refl).0 h in
        shared_instant d (y ∷ e) r_start r_end w v a b

    bwd :
        (t : Str) × InWindow d (y ∷ e) t × InWindow r_start r_end t
        → intervals_overlap d (y ∷ e) r_start r_end ≡ true
    bwd (t, (a, b), (p, q)) = (window_tests d (y ∷ e) r_start r_end n refl).1 (
      between r_start (y ∷ e) t p (ground arith),
      elim q [ inl k ↦ inl k | inr k ↦ inr (between d r_end t a k) ],
    )

-- A consuming memory that declares no window is tested at its decision instant alone, and counts as
-- affected exactly when that instant lies strictly after the changed window's start and before its end
-- (an empty end is no end).
pub undeclared_iff :
    (c : RuleLinkConsuming) (r_start r_end : Str)
    → is_empty c.consuming_validity_start ≡ true
    → is_empty c.decision_time ≡ false
    → (intervals_overlap (interval c).0 (interval c).1 r_start r_end ≡ true) ↔ (
        (str_lt r_start c.decision_time ≡ true)
        × (is_empty r_end ≡ true ⊎ (str_lt c.decision_time r_end ≡ true)))
unfolding interval
undeclared_iff c r_start r_end u n =
    subst (λ b. (intervals_overlap (ends b).0 (ends b).1 r_start r_end ≡ true) ↔ Tests) (sym u)
      (window_tests c.decision_time c.decision_time r_start r_end n n)
  where
    ends : Bool → Str × Str
    ends b =
        if not b
        then (c.consuming_validity_start, c.consuming_validity_end)
        else (c.decision_time, c.decision_time)

    Tests : Type 0
    Tests =
        (str_lt r_start c.decision_time ≡ true)
        × (is_empty r_end ≡ true ⊎ (str_lt c.decision_time r_end ≡ true))
