-- ===== src/Verify/Outcome.antt =====
-- How merged layers decide a report (AggregateLayers and Finalize, internal/core/verify.go).
use drenyra_engram.Base.{
  ◌≡◌, ◌↔◌, ◌⊎◌, inl, inr, refl, sym, subst, Str, Bool, true, false, List, [], ◌∷◌, length, Any,
  All, Bool-cases, if◌then◌else◌, not, arith,
}
use drenyra_engram.Verify.{
  VerificationStatus, failed, skipped, VerificationLayer, VerificationReport, outcome_failed, Scan,
  failed_with, all_skipped, scan, merge, aggregate_layers, outcome_of, finalize, is_failed,
  is_skipped,
}

scan-failed :
    (skips : Bool) (ls : List VerificationLayer)
    → Any (λ l. l.status ≡ failed) ls
    → (d : Str) × (scan skips ls ≡ failed_with d)
unfolding scan
scan-failed skips [] h = absurd h
scan-failed skips (l ∷ ls) (inl h) = (l.detail, ground arith)
scan-failed skips (l ∷ ls) (inr h) = elim (Bool-cases (is_failed l.status)) [
  | inl e ↦ (l.detail, rw e refl)
  | inr e ↦ rw e (scan-failed (if not (is_skipped l.status) then false else skips) ls h)
]

-- Without a failed instance the loop says whether all were skipped.
scan-rest :
    (skips : Bool) (ls : List VerificationLayer)
    → (Any (λ l. l.status ≡ failed) ls)
      ⊎ (((scan skips ls ≡ all_skipped true) × (skips ≡ true) × All (λ l. l.status ≡ skipped) ls)
          ⊎ ((scan skips ls ≡ all_skipped false)
              × ((skips ≡ false) ⊎ (¬ All (λ l. l.status ≡ skipped) ls))))
unfolding scan
scan-rest true [] = inr (inl (refl, refl, tt))
scan-rest false [] = inr (inr (refl, inl refl))
scan-rest skips (l ∷ ls) = go l.status refl (λ b. scan-rest b ls)
  where
    Goal : Type 0
    Goal =
        (Any (λ l. l.status ≡ failed) (l ∷ ls))
        ⊎ (((scan skips (l ∷ ls) ≡ all_skipped true)
              × (skips ≡ true)
              × All (λ l. l.status ≡ skipped) (l ∷ ls))
            ⊎ ((scan skips (l ∷ ls) ≡ all_skipped false)
                × ((skips ≡ false) ⊎ (¬ All (λ l. l.status ≡ skipped) (l ∷ ls)))))

    Rest : Bool → Type 0
    Rest b =
        (Any (λ l. l.status ≡ failed) ls)
        ⊎ (((scan b ls ≡ all_skipped true) × (b ≡ true) × All (λ l. l.status ≡ skipped) ls)
            ⊎ ((scan b ls ≡ all_skipped false)
                × ((b ≡ false) ⊎ (¬ All (λ l. l.status ≡ skipped) ls))))

    go : (s : VerificationStatus) → l.status ≡ s → ((b : Bool) → Rest b) → Goal
    go failed e ih = inl (inl e)
    go skipped e ih = elim (ih skips) [
      | inl k ↦ inl (inr k)
      | inr k ↦ inr (elim k [
        | inl (a, b, c) ↦ inl (ground arith, b, (e, c))
        | inr (a, b) ↦ inr (ground arith, elim b [ inl q ↦ inl q | inr q ↦ inr (λ z. q z.1) ])
      ])
    ]
    go _ e ih = elim (ih false) [
      | inl k ↦ inl (inr k)
      | inr k ↦ inr (elim k [
        | inl (a, b, c) ↦ absurd (cc b)
        | inr (a, b) ↦ inr (ground arith, inr (λ z. ground arith))
      ])
    ]

-- The merged result of a layer has failed exactly when one of its instances has, and is skipped exactly
-- when all of them are (none at all counts as skipped).
aggregate_status :
    (name : Str) (ls : List VerificationLayer)
    → (((aggregate_layers name ls).status ≡ failed) ↔ Any (λ l. l.status ≡ failed) ls)
      × (((aggregate_layers name ls).status ≡ skipped) ↔ All (λ l. l.status ≡ skipped) ls)
unfolding aggregate_layers
aggregate_status name [] =
    (((λ h. absurd (ground arith)), (λ h. absurd h)), ((λ _. tt), (λ _. refl)))
aggregate_status name (l ∷ []) =
    (((λ h. inl h), (λ h. elim h [ inl k ↦ k | inr k ↦ absurd k ])), ((λ h. (h, tt)), (λ h. h.0)))
aggregate_status name (l ∷ m ∷ ls) =
    go (scan true (l ∷ m ∷ ls)) (scan-failed true (l ∷ m ∷ ls)) (scan-rest true (l ∷ m ∷ ls))
  where
    xs : List VerificationLayer
    xs = l ∷ m ∷ ls

    all_any :
        (xs : List VerificationLayer)
        → All (λ l. l.status ≡ skipped) xs
        → ¬ Any (λ l. l.status ≡ failed) xs
    all_any [] h k = k
    all_any (x ∷ xs) h (inl k) = absurd (ground arith)
    all_any (x ∷ xs) h (inr k) = all_any xs h.1 k

    go :
        (s : Scan)
        → (Any (λ l. l.status ≡ failed) xs → (d : Str) × (s ≡ failed_with d))
        → (Any (λ l. l.status ≡ failed) xs)
          ⊎ (((s ≡ all_skipped true) × (true ≡ true) × All (λ l. l.status ≡ skipped) xs)
              ⊎ ((s ≡ all_skipped false) × ((true ≡ false) ⊎ (¬ All (λ l. l.status ≡ skipped) xs))))
        → (((merge name l (length xs) s).status ≡ failed) ↔ Any (λ l. l.status ≡ failed) xs)
          × (((merge name l (length xs) s).status ≡ skipped) ↔ All (λ l. l.status ≡ skipped) xs)
    go s f (inl k) =
        let (d, e) = f k in
        rw e
          (((λ _. k), (λ _. refl)), ((λ h. absurd (ground arith)), (λ h. absurd (all_any xs h k))))
    go s f (inr (inl (e, _, a))) =
        rw e
          (((λ h. absurd (ground arith)), (λ h. absurd (all_any xs a h))), ((λ _. a), (λ _. refl)))
    go s f (inr (inr (e, n))) = rw e (
      ((λ h. absurd (ground arith)), (λ h. let (d, g) = f h in absurd (ground arith))),
      (
        (λ h. absurd (ground arith)),
        (λ h. elim n [ inl q ↦ absurd (ground arith) | inr q ↦ absurd (q h) ]),
      ),
    )

-- A report's outcome is failed exactly when some layer has failed; a skipped layer fails nothing.
outcome_failed_iff :
    (ls : List VerificationLayer)
    → (outcome_of ls ≡ outcome_failed) ↔ Any (λ l. l.status ≡ failed) ls
unfolding outcome_of
outcome_failed_iff [] = ((λ h. absurd (ground arith)), (λ h. absurd h))
outcome_failed_iff (l ∷ ls) = ground (arith, outcome_failed_iff ls)

-- The instances of a layer, with the layer's name.
abbrev pub Group : Type 0
Group = Str × List VerificationLayer

abbrev pub merged : List Group → List VerificationLayer
merged [] = []
merged ((name, ls) ∷ gs) = aggregate_layers name ls ∷ merged gs

merged_iff :
    (gs : List Group)
    → Any (λ l. l.status ≡ failed) (merged gs) ↔ Any (λ g. Any (λ l. l.status ≡ failed) g.1) gs
merged_iff [] = ((λ h. h), (λ h. h))
merged_iff ((name, ls) ∷ gs) = (
  (λ h. elim h [
    | inl k ↦ inl ((aggregate_status name ls).0.0 k)
    | inr k ↦ inr ((merged_iff gs).0 k)
  ]),
  (λ h. elim h [
    | inl k ↦ inl ((aggregate_status name ls).0.1 k)
    | inr k ↦ inr ((merged_iff gs).1 k)
  ]),
)

-- A report whose layers are the merged results of groups of instances closes as failed exactly when some
-- instance of some group has failed.
pub report_fails_iff :
    (r : VerificationReport) (gs : List Group)
    → r.layers ≡ merged gs
    → ((finalize r).outcome ≡ outcome_failed) ↔ Any (λ g. Any (λ l. l.status ≡ failed) g.1) gs
unfolding finalize
report_fails_iff r gs e = (
  (λ h.
      (merged_iff gs).0
        ((outcome_failed_iff (merged gs)).0 (subst (λ l. outcome_of l ≡ outcome_failed) e h))),
  (λ h.
      subst (λ l. outcome_of l ≡ outcome_failed) (sym e)
        ((outcome_failed_iff (merged gs)).1 ((merged_iff gs).1 h))),
)
