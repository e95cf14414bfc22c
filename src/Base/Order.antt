-- ===== src/Base/Order.antt =====
-- The order of strings is total.
use drenyra_engram.Base.Text.{Str, str_lt}
use mathlib.Core.Path.{◌≡◌, refl}
use mathlib.Core.Logic.{◌⊎◌, inl, inr}
use mathlib.Core.Bool.{true, false}
use mathlib.Core.List.{[], ◌∷◌}
use native.Mathlib.Omega.{arith}

pub str_lt_irrefl : (s : Str) → str_lt s s ≡ false
unfolding str_lt
str_lt_irrefl [] = refl
str_lt_irrefl (a ∷ s) = ground (arith, str_lt_irrefl s)

pub str_lt_trans : (s t u : Str) → str_lt s t ≡ true → str_lt t u ≡ true → str_lt s u ≡ true
unfolding str_lt
str_lt_trans [] [] u h k = cc
str_lt_trans [] (b ∷ t) [] h k = cc
str_lt_trans [] (b ∷ t) (c ∷ u) h k = refl
str_lt_trans (a ∷ s) [] u h k = cc
str_lt_trans (a ∷ s) (b ∷ t) [] h k = cc
str_lt_trans (a ∷ s) (b ∷ t) (c ∷ u) h k = ground (arith, str_lt_trans s t u)

pub str_lt_total : (s t : Str) → (str_lt s t ≡ true) ⊎ ((s ≡ t) ⊎ (str_lt t s ≡ true))
unfolding str_lt
str_lt_total [] [] = inr (inl refl)
str_lt_total [] (b ∷ t) = inl refl
str_lt_total (a ∷ s) [] = inr (inr refl)
str_lt_total (a ∷ s) (b ∷ t) = ground (arith, str_lt_total s t)

-- What is not below is above or equal, and a chain may use either.
pub str_lt_asymm : (s t : Str) → str_lt s t ≡ true → str_lt t s ≡ false
str_lt_asymm s t h = ground (arith, str_lt_trans s t s, str_lt_irrefl s)

pub str_le_trans : (s t u : Str) → str_lt t s ≡ false → str_lt u t ≡ false → str_lt u s ≡ false
str_le_trans s t u h k =
    ground (arith, str_lt_total s t, str_lt_total t u, str_lt_trans u s t, str_lt_irrefl u)

pub str_le_antisymm : (s t : Str) → str_lt s t ≡ false → str_lt t s ≡ false → s ≡ t
str_le_antisymm s t h k = ground (arith, str_lt_total s t)
