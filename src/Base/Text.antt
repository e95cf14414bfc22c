-- ===== src/Base/Text.antt =====
-- Go strings as lists of bytes.
use Prim.Native.Nat.{ℕ}
use Prim.Native.Char.{code}
use Prim.Native.String.{String}
use mathlib.Core.Path.{◌≡◌, refl}
use mathlib.Core.Logic.{◌↔◌}
use mathlib.Core.Bool.{Bool, true, false, not, ◌&&◌, ◌||◌}
use mathlib.Core.List.{List, [], ◌∷◌}
use native.Mathlib.Omega.{arith}
use drenyra_engram.Base.Tests.{ltb, leb, ◌==◌}

abbrev pub Str : Type 0
Str = List ℕ

-- A literal of ASCII characters, as its bytes.
abbrev pub str : String → Str
str String.[] = []
str (String.◌∷◌ c s) = code c ∷ str s

-- `s == t` on strings.
unfoldable pub str_eq : Str → Str → Bool
str_eq [] [] = true
str_eq [] (_ ∷ _) = false
str_eq (_ ∷ _) [] = false
str_eq (a ∷ s) (b ∷ t) = a == b && str_eq s t

pub str_eq_iff : (s t : Str) → (str_eq s t ≡ true) ↔ (s ≡ t)
unfolding str_eq
str_eq_iff [] [] = ((λ _. refl), (λ _. refl))
str_eq_iff [] (_ ∷ _) = ((λ e. cc), (λ e. cc))
str_eq_iff (_ ∷ _) [] = ((λ e. cc), (λ e. cc))
str_eq_iff (a ∷ s) (b ∷ t) = ground (arith, str_eq_iff s t)

pub str_eq_refl : (s : Str) → str_eq s s ≡ true
str_eq_refl s = (str_eq_iff s s).1 refl

-- `s == ""` on strings.
abbrev pub is_empty : Str → Bool
is_empty [] = true
is_empty (_ ∷ _) = false

-- `s < t` on strings: bytewise, a proper prefix first.
unfoldable pub str_lt : Str → Str → Bool
str_lt [] [] = false
str_lt [] (_ ∷ _) = true
str_lt (_ ∷ _) [] = false
str_lt (a ∷ s) (b ∷ t) = ltb a b || (a == b && str_lt s t)

-- `s <= t` on strings.
abbrev pub str_le : Str → Str → Bool
str_le s t = not (str_lt t s)

-- `'0' <= b && b <= '9'`.
abbrev pub is_digit : ℕ → Bool
is_digit b = leb b'0' b && leb b b'9'

-- The white space of one, two and three bytes that `strings.TrimSpace` cuts off.
space1 : ℕ → Bool
space1 a = (leb 9 a && leb a 13) || a == 32

space2 : ℕ → ℕ → Bool
space2 a b = a == 0xC2 && (b == 0x85 || b == 0xA0)

space3 : ℕ → ℕ → ℕ → Bool
space3 a b c =
    (a == 0xE1 && b == 0x9A && c == 0x80)
    || (a == 0xE2
        && b == 0x80
        && ((leb 0x80 c && leb c 0x8A) || c == 0xA8 || c == 0xA9 || c == 0xAF))
    || (a == 0xE2 && b == 0x81 && c == 0x9F)
    || (a == 0xE3 && b == 0x80 && c == 0x80)

-- `strings.TrimSpace(s) == ""`.
unfoldable pub is_blank : Str → Bool
unfolding space1 space2 space3
is_blank [] = true
is_blank (a ∷ []) = space1 a
is_blank (a ∷ b ∷ []) = (space1 a && space1 b) || space2 a b
is_blank (a ∷ b ∷ c ∷ r) = elim (space1 a) [
  | true ↦ is_blank (b ∷ c ∷ r)
  | false ↦ elim (space2 a b) [
    | true ↦ is_blank (c ∷ r)
    | false ↦ elim (space3 a b c) [ true ↦ is_blank r | false ↦ false ]
  ]
]

blank_tests : (is_blank (str " \t \n") ≡ true) × (is_blank (str " ok ") ≡ false)
unfolding is_blank
blank_tests = (refl, refl)
