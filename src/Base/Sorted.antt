-- ===== src/Base/Sorted.antt =====
-- The idiom "deduplicate by a seen-set, then `sort.Strings`", which gives a list its canonical form.
-- `sort.Strings` is modelled by insertion: any sort by a total order answers the same.
use drenyra_engram.Base.Tests.{if◌then◌else◌, Bool-cases}
use Prim.Native.Nat.{suc}
use drenyra_engram.Base.Lists.{length, count, All, In, any, any→Any, Any→any, All-mono}
use drenyra_engram.Base.Text.{Str, str_eq, str_lt, str_eq_iff}
use drenyra_engram.Base.Order.{str_lt_trans, str_lt_total, str_lt_asymm, str_le_trans}
use mathlib.Core.Path.{◌≡◌, refl, sym, ap, subst, ◌∙◌}
use mathlib.Core.Logic.{◌↔◌, ◌⊎◌, inl, inr}
use mathlib.Core.Bool.{Bool, true, false}
use mathlib.Core.List.{List, [], ◌∷◌, ◌++◌}
use native.Mathlib.Omega.{arith}

insert : Str → List Str → List Str
insert a [] = a ∷ []
insert a (x ∷ xs) = if str_lt x a then x ∷ insert a xs else a ∷ x ∷ xs

-- `sort.Strings`
unfoldable pub sort_strings : List Str → List Str
unfolding insert
sort_strings [] = []
sort_strings (x ∷ xs) = insert x (sort_strings xs)

unfoldable pub member : Str → List Str → Bool
unfolding any str_eq
member a xs = any (λ x. str_eq x a) xs

-- The loop that appends what it has not seen; what it has seen is what it has put out.
unfoldable pub dedup_onto : List Str → List Str → List Str
unfolding member
dedup_onto out [] = out
dedup_onto out (t ∷ ts) = dedup_onto (if member t out then out else out ++ t ∷ []) ts

unfoldable pub canonical : List Str → List Str
unfolding sort_strings dedup_onto
canonical xs = sort_strings (dedup_onto [] xs)

-- Strictly ascending: sorted, with no entry twice.
abbrev pub Ascending : List Str → Type 0
Ascending [] = Unit
Ascending (x ∷ xs) = All (λ y. str_lt x y ≡ true) xs × Ascending xs

abbrev pub Distinct : List Str → Type 0
Distinct [] = Unit
Distinct (x ∷ xs) = (¬ In x xs) × Distinct xs

pub member_iff : (a : Str) (xs : List Str) → (member a xs ≡ true) ↔ In a xs
unfolding member
member_iff a xs =
    (any→Any _ xs (λ x e. (str_eq_iff x a).0 e), Any→any _ xs (λ x e. (str_eq_iff x a).1 e))

in-insert : (b a : Str) (xs : List Str) → In b (insert a xs) ↔ In b (a ∷ xs)
unfolding insert
in-insert b a [] = ((λ h. h), (λ h. h))
in-insert b a (x ∷ xs) = go (in-insert b a xs) (Bool-cases (str_lt x a))
  where
    go :
        In b (insert a xs) ↔ In b (a ∷ xs)
        → (str_lt x a ≡ true) ⊎ (str_lt x a ≡ false)
        → In b (insert a (x ∷ xs)) ↔ In b (a ∷ x ∷ xs)
    go ih (inl e) = rw e (
      (λ h. elim h [
        | inl q ↦ inr (inl q)
        | inr k ↦ elim (ih.0 k) [ inl q ↦ inl q | inr l ↦ inr (inr l) ]
      ]),
      (λ h. elim h [
        | inl q ↦ inr (ih.1 (inl q))
        | inr k ↦ elim k [ inl q ↦ inl q | inr l ↦ inr (ih.1 (inr l)) ]
      ]),
    )
    go ih (inr e) = rw e ((λ h. h), (λ h. h))

pub in-sort_strings : (b : Str) (xs : List Str) → In b (sort_strings xs) ↔ In b xs
unfolding sort_strings
in-sort_strings b [] = ((λ h. h), (λ h. h))
in-sort_strings b (x ∷ xs) =
    let at = in-insert b x (sort_strings xs) in
    let ih = in-sort_strings b xs in
    (
      (λ h. elim (at.0 h) [ inl q ↦ inl q | inr k ↦ inr (ih.0 k) ]),
      (λ h. elim h [ inl q ↦ at.1 (inl q) | inr k ↦ at.1 (inr (ih.1 k)) ]),
    )

pub All-at : {P : Str → Type 0} (xs : List Str) → ((y : Str) → In y xs → P y) → All P xs
All-at [] h = tt
All-at (x ∷ xs) h = (h x (inl refl), All-at xs (λ y k. h y (inr k)))

pub at-all : (P : Str → Type 0) (xs : List Str) (y : Str) → All P xs → In y xs → P y
at-all P [] y h k = absurd k
at-all P (x ∷ xs) y h (inl e) = subst P e h.0
at-all P (x ∷ xs) y h (inr k) = at-all P xs y h.1 k

insert-Ascending : (a : Str) (xs : List Str) → ¬ In a xs → Ascending xs → Ascending (insert a xs)
unfolding insert
insert-Ascending a [] n h = (tt, tt)
insert-Ascending a (x ∷ xs) n h = elim (Bool-cases (str_lt x a)) [
  | inl e ↦ rw e (
    All-at (insert a xs) (λ y k. elim ((in-insert y a xs).0 k) [
      | inl q ↦ subst (λ z. str_lt x z ≡ true) q e
      | inr l ↦ at-all _ xs y h.0 l
    ]),
    insert-Ascending a xs (λ k. n (inr k)) h.1,
  )
  | inr e ↦
      let below : str_lt a x ≡ true = above a x (λ q. n (inl q)) e in
      rw e ((below, All-mono xs (λ y k. str_lt_trans a x y below k) h.0), h)
]
  where
    above : (a x : Str) → ¬ (x ≡ a) → str_lt x a ≡ false → str_lt a x ≡ true
    above a x n e = elim (str_lt_total a x) [
      | inl l ↦ l
      | inr r ↦ elim r [ inl q ↦ absurd (n (sym q)) | inr g ↦ absurd (cc) ]
    ]

pub sort_strings-Ascending : (xs : List Str) → Distinct xs → Ascending (sort_strings xs)
unfolding sort_strings
sort_strings-Ascending [] h = tt
sort_strings-Ascending (x ∷ xs) h =
    insert-Ascending x (sort_strings xs) (λ k. h.0 ((in-sort_strings x xs).0 k))
      (sort_strings-Ascending xs h.1)

in-snoc : (b t : Str) (xs : List Str) → In b (xs ++ t ∷ []) ↔ ((t ≡ b) ⊎ In b xs)
in-snoc b t [] = ((λ h. h), (λ h. h))
in-snoc b t (x ∷ xs) =
    let ih = in-snoc b t xs in
    (
      (λ h. elim h [
        | inl q ↦ inr (inl q)
        | inr k ↦ elim (ih.0 k) [ inl q ↦ inl q | inr l ↦ inr (inr l) ]
      ]),
      (λ h. elim h [
        | inl q ↦ inr (ih.1 (inl q))
        | inr k ↦ elim k [ inl q ↦ inl q | inr l ↦ inr (ih.1 (inr l)) ]
      ]),
    )

snoc-Distinct : (t : Str) (xs : List Str) → ¬ In t xs → Distinct xs → Distinct (xs ++ t ∷ [])
snoc-Distinct t [] n h = ((λ k. k), tt)
snoc-Distinct t (x ∷ xs) n h = (
  (λ k. elim ((in-snoc x t xs).0 k) [ inl q ↦ n (inl (sym q)) | inr l ↦ h.0 l ]),
  snoc-Distinct t xs (λ k. n (inr k)) h.1,
)

pub dedup_onto-Distinct : (out ts : List Str) → Distinct out → Distinct (dedup_onto out ts)
unfolding dedup_onto
dedup_onto-Distinct out [] h = h
dedup_onto-Distinct out (t ∷ ts) h = elim (Bool-cases (member t out)) [
  | inl e ↦ rw e (dedup_onto-Distinct out ts h)
  | inr e ↦ rw e (
      dedup_onto-Distinct (out ++ t ∷ []) ts
        (snoc-Distinct t out (λ k. cc ((member_iff t out).1 k)) h))
]

pub in-dedup_onto : (b : Str) (out ts : List Str) → In b (dedup_onto out ts) ↔ (In b out ⊎ In b ts)
unfolding dedup_onto
in-dedup_onto b out [] = ((λ h. inl h), (λ h. elim h [ inl k ↦ k | inr k ↦ absurd k ]))
in-dedup_onto b out (t ∷ ts) =
    go (Bool-cases (member t out)) (in-dedup_onto b out ts) (in-dedup_onto b (out ++ t ∷ []) ts)
  where
    go :
        (member t out ≡ true) ⊎ (member t out ≡ false)
        → In b (dedup_onto out ts) ↔ (In b out ⊎ In b ts)
        → In b (dedup_onto (out ++ t ∷ []) ts) ↔ (In b (out ++ t ∷ []) ⊎ In b ts)
        → In b (dedup_onto out (t ∷ ts)) ↔ (In b out ⊎ In b (t ∷ ts))
    go (inl e) ih _ = rw e (
      (λ h. elim (ih.0 h) [ inl k ↦ inl k | inr k ↦ inr (inr k) ]),
      (λ h. elim h [
        | inl k ↦ ih.1 (inl k)
        | inr k ↦ elim k [
          | inl q ↦ ih.1 (inl (subst (λ z. In z out) q ((member_iff t out).0 e)))
          | inr l ↦ ih.1 (inr l)
        ]
      ]),
    )
    go (inr e) _ ih = rw e (
      (λ h. elim (ih.0 h) [
        | inl k ↦ elim ((in-snoc b t out).0 k) [ inl q ↦ inr (inl q) | inr l ↦ inl l ]
        | inr k ↦ inr (inr k)
      ]),
      (λ h. elim h [
        | inl k ↦ ih.1 (inl ((in-snoc b t out).1 (inr k)))
        | inr k ↦ elim k [ inl q ↦ ih.1 (inl ((in-snoc b t out).1 (inl q))) | inr l ↦ ih.1 (inr l) ]
      ]),
    )

length-insert : (a : Str) (xs : List Str) → length (insert a xs) ≡ suc (length xs)
unfolding insert
length-insert a [] = refl
length-insert a (x ∷ xs) = ground (arith, length-insert a xs)

pub length-sort_strings : (xs : List Str) → length (sort_strings xs) ≡ length xs
unfolding sort_strings
length-sort_strings [] = refl
length-sort_strings (x ∷ xs) = length-insert x (sort_strings xs) ∙ ap suc (length-sort_strings xs)

count-insert : (c : Str → Bool) (a : Str) (xs : List Str) → count c (insert a xs) ≡ count c (a ∷ xs)
unfolding insert
count-insert c a [] = refl
count-insert c a (x ∷ xs) = ground (arith, count-insert c a xs)

-- Sorting loses no entry and adds none.
pub count-sort_strings : (c : Str → Bool) (xs : List Str) → count c (sort_strings xs) ≡ count c xs
unfolding sort_strings
count-sort_strings c [] = refl
count-sort_strings c (x ∷ xs) =
    count-insert c x (sort_strings xs) ∙ ground (arith, count-sort_strings c xs)

-- Ascending, with entries that may occur twice.
abbrev pub Ordered : List Str → Type 0
Ordered [] = Unit
Ordered (x ∷ xs) = All (λ y. str_lt y x ≡ false) xs × Ordered xs

insert-Ordered : (a : Str) (xs : List Str) → Ordered xs → Ordered (insert a xs)
unfolding insert
insert-Ordered a [] h = (tt, tt)
insert-Ordered a (x ∷ xs) h = elim (Bool-cases (str_lt x a)) [
  | inl e ↦ rw e (
    All-at (insert a xs) (λ y k. elim ((in-insert y a xs).0 k) [
      | inl q ↦ subst (λ z. str_lt z x ≡ false) q (str_lt_asymm x a e)
      | inr l ↦ at-all _ xs y h.0 l
    ]),
    insert-Ordered a xs h.1,
  )
  | inr e ↦ rw e ((e, All-mono xs (λ y k. str_le_trans a x y e k) h.0), h)
]

pub sort_strings-Ordered : (xs : List Str) → Ordered (sort_strings xs)
unfolding sort_strings
sort_strings-Ordered [] = tt
sort_strings-Ordered (x ∷ xs) = insert-Ordered x (sort_strings xs) (sort_strings-Ordered xs)
