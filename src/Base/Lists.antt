-- ===== src/Base/Lists.antt =====
-- Lists measured by native numbers, and the predicates "some entry" and "every entry" by recursion,
-- which the tactics read.
use Prim.Native.Nat.{ℕ, suc}
use mathlib.Core.Path.{◌≡◌, refl}
use mathlib.Core.Logic.{◌↔◌, ◌⊎◌, inl, inr}
use mathlib.Core.Bool.{Bool, true, false, ◌&&◌, ◌||◌}
use mathlib.Core.List.{List, [], ◌∷◌}
use native.Mathlib.Omega.{arith}
use drenyra_engram.Base.Tests.{Bool-cases, if◌then◌else◌}

module _ {ℓ} {A : Type ℓ} where
  abbrev pub length : List A → ℕ
  length [] = 0
  length (x ∷ xs) = suc (length xs)

  -- Some entry satisfies `P`.
  abbrev pub Any : (A → Type 0) → List A → Type 0
  Any P [] = ⊥
  Any P (x ∷ xs) = P x ⊎ Any P xs

  -- Every entry satisfies `P`.
  abbrev pub All : (A → Type 0) → List A → Type 0
  All P [] = Unit
  All P (x ∷ xs) = P x × All P xs

  unfoldable pub any : (A → Bool) → List A → Bool
  any p [] = false
  any p (x ∷ xs) = p x || any p xs

  unfoldable pub all : (A → Bool) → List A → Bool
  all p [] = true
  all p (x ∷ xs) = p x && all p xs

  -- A test that decides the predicate at each entry decides "some entry" and "every entry".
  pub any→Any :
      {P : A → Type 0} (p : A → Bool) (xs : List A)
      → ((x : A) → p x ≡ true → P x)
      → any p xs ≡ true
      → Any P xs
  unfolding any
  any→Any p [] h e = cc
  any→Any p (x ∷ xs) h e = elim (Bool-cases (p x)) [
    | inl q ↦ inl (h x q)
    | inr q ↦ inr (any→Any p xs h (ground arith))
  ]

  pub Any→any :
      {P : A → Type 0} (p : A → Bool) (xs : List A)
      → ((x : A) → P x → p x ≡ true)
      → Any P xs
      → any p xs ≡ true
  unfolding any
  Any→any p [] h e = absurd e
  Any→any p (x ∷ xs) h (inl q) = ground (arith, h x q)
  Any→any p (x ∷ xs) h (inr q) = ground (arith, Any→any p xs h q)

  pub all→All :
      {P : A → Type 0} (p : A → Bool) (xs : List A)
      → ((x : A) → p x ≡ true → P x)
      → all p xs ≡ true
      → All P xs
  unfolding all
  all→All p [] h e = tt
  all→All p (x ∷ xs) h e = (h x (ground arith), all→All p xs h (ground arith))

  pub All→all :
      {P : A → Type 0} (p : A → Bool) (xs : List A)
      → ((x : A) → P x → p x ≡ true)
      → All P xs
      → all p xs ≡ true
  unfolding all
  All→all p [] h e = refl
  All→all p (x ∷ xs) h e = ground (arith, h x e.0, All→all p xs h e.1)

  pub Any-mono : {P Q : A → Type 0} (xs : List A) → ((x : A) → P x → Q x) → Any P xs → Any Q xs
  Any-mono [] h e = e
  Any-mono (x ∷ xs) h (inl q) = inl (h x q)
  Any-mono (x ∷ xs) h (inr q) = inr (Any-mono xs h q)

  pub All-mono : {P Q : A → Type 0} (xs : List A) → ((x : A) → P x → Q x) → All P xs → All Q xs
  All-mono [] h e = tt
  All-mono (x ∷ xs) h e = (h x e.0, All-mono xs h e.1)

-- Membership.
abbrev pub In : {A : Type 0} → A → List A → Type 0
In a xs = Any (λ x. x ≡ a) xs

module _ {ℓ} {A : Type ℓ} where
  -- The number of entries that pass a test.
  abbrev pub count : (A → Bool) → List A → ℕ
  count p [] = 0
  count p (x ∷ xs) = if p x then suc (count p xs) else count p xs

  -- So many entries satisfy `P`.
  abbrev pub Tally : (A → Type 0) → List A → ℕ → Type 0
  Tally P [] n = n ≡ 0
  Tally P (x ∷ xs) n = ((P x) × (m : ℕ) × (n ≡ suc m) × Tally P xs m) ⊎ ((¬ P x) × Tally P xs n)

  -- A test that decides the predicate at each entry counts the entries that satisfy it.
  pub count-Tally :
      {P : A → Type 0} (p : A → Bool) (xs : List A)
      → ((x : A) → (p x ≡ true) ↔ P x)
      → Tally P xs (count p xs)
  count-Tally p [] h = refl
  count-Tally p (x ∷ xs) h = elim (Bool-cases (p x)) [
    | inl e ↦ inl ((h x).0 e, count p xs, rw e refl, count-Tally p xs h)
    | inr e ↦ inr ((λ q. cc ((h x).1 q)), rw e (count-Tally p xs h))
  ]
