-- ===== src/Base/Canonical.antt =====
-- The canonical form of a list of strings depends on its members only.
use drenyra_engram.Base.Lists.{In}
use drenyra_engram.Base.Text.{Str, str_lt}
use drenyra_engram.Base.Order.{str_lt_irrefl, str_lt_trans}
use drenyra_engram.Base.Sorted.{
  Ascending, canonical, at-all, in-sort_strings, sort_strings-Ascending, dedup_onto,
  dedup_onto-Distinct, in-dedup_onto,
}
use mathlib.Core.Path.{◌≡◌, refl, sym, subst, ◌∙◌}
use mathlib.Core.Logic.{◌↔◌, inl, inr}
use mathlib.Core.Bool.{true}
use mathlib.Core.List.{List, [], ◌∷◌}

abbrev pub SameMembers : List Str → List Str → Type 0
SameMembers xs ys = (a : Str) → In a xs ↔ In a ys

pub canonical-Ascending : (xs : List Str) → Ascending (canonical xs)
unfolding canonical
canonical-Ascending xs = sort_strings-Ascending (dedup_onto [] xs) (dedup_onto-Distinct [] xs tt)

pub in-canonical : (xs : List Str) → SameMembers (canonical xs) xs
unfolding canonical
in-canonical xs a =
    let s = in-sort_strings a (dedup_onto [] xs) in
    let d = in-dedup_onto a [] xs in
    ((λ h. elim (d.0 (s.0 h)) [ inl k ↦ absurd k | inr k ↦ k ]), (λ h. s.1 (d.1 (inr h))))

not-below_self : (x : Str) → ¬ (str_lt x x ≡ true)
not-below_self x h = cc (str_lt_irrefl x)

-- The least entry of two ascending lists with the same members is the same.
same-head :
    (x y : Str) (xs ys : List Str)
    → Ascending (x ∷ xs)
    → Ascending (y ∷ ys)
    → SameMembers (x ∷ xs) (y ∷ ys)
    → x ≡ y
same-head x y xs ys h k m = elim ((m x).0 (inl refl)) [
  | inl e ↦ sym e
  | inr l ↦ elim ((m y).1 (inl refl)) [
    | inl e ↦ e
    | inr r ↦
        absurd (not-below_self x (str_lt_trans x y x (at-all _ xs y h.0 r) (at-all _ ys x k.0 l)))
  ]
]

same-tail :
    (x y : Str) (xs ys : List Str)
    → Ascending (x ∷ xs)
    → x ≡ y
    → ((a : Str) → In a (x ∷ xs) → In a (y ∷ ys))
    → (a : Str) → In a xs
    → In a ys
same-tail x y xs ys h e m a k = elim (m a (inr k)) [
  | inl q ↦
      absurd (not-below_self x (subst (λ z. str_lt x z ≡ true) (sym (e ∙ q)) (at-all _ xs a h.0 k)))
  | inr l ↦ l
]

pub Ascending-unique :
    (xs ys : List Str) → Ascending xs → Ascending ys → SameMembers xs ys → xs ≡ ys
Ascending-unique [] [] h k m = refl
Ascending-unique [] (y ∷ ys) h k m = absurd ((m y).1 (inl refl))
Ascending-unique (x ∷ xs) [] h k m = absurd ((m x).0 (inl refl))
Ascending-unique (x ∷ xs) (y ∷ ys) h k m =
    let e = same-head x y xs ys h k m in
    let rest = Ascending-unique xs ys h.1 k.1 (λ a.
      (same-tail x y xs ys h e (λ b. (m b).0) a, same-tail y x ys xs k (sym e) (λ b. (m b).1) a)) in
    cc (e, rest)

pub canonical_unique : (xs ys : List Str) → SameMembers xs ys → canonical xs ≡ canonical ys
canonical_unique xs ys m =
    Ascending-unique (canonical xs) (canonical ys) (canonical-Ascending xs) (canonical-Ascending ys)
      (λ a. (
        (λ h. (in-canonical ys a).1 ((m a).0 ((in-canonical xs a).0 h))),
        (λ h. (in-canonical xs a).1 ((m a).1 ((in-canonical ys a).0 h))),
      ))
