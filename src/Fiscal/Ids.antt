-- ===== src/Fiscal/Ids.antt =====
-- The id syntax of `policyIDPattern` (internal/core/retention_policy.go).
use drenyra_engram.Base.{
  ℕ, zero, suc, ◌+◌, ◌≤◌, ◌<◌, ◌≡◌, ◌↔◌, ◌⊎◌, inl, inr, refl, sym, subst, ap, ◌∙◌, Str, true, [],
  ◌∷◌, ◌++◌, length, All, leb_iff, &&_iff, ==_iff, arith,
}
use drenyra_engram.Fiscal.{is_hex, id_bytes, policy_id_pattern}

-- A hexadecimal digit in lower case.
abbrev pub Hex : ℕ → Type 0
Hex c = ((b'0' ≤ c) × (c ≤ b'9')) ⊎ ((b'a' ≤ c) × (c ≤ b'f'))

-- What may stand between two groups.
abbrev pub Separator : ℕ → Type 0
Separator c = (c ≡ b'-') ⊎ Hex c

-- A group of so many digits.
abbrev pub Group : ℕ → Str → Type 0
Group n s = (length s ≡ n) × All Hex s

-- Groups of 8, 4, 4, 4 and 12 digits with a separator between any two.
abbrev pub IdShape : Str → Type 0
IdShape s =
    (a b c d e : Str) × (w x y z : ℕ) × (s ≡ a ++ w ∷ (b ++ x ∷ (c ++ y ∷ (d ++ z ∷ e))))
    × (Group 8 a × Group 4 b × Group 4 c × Group 4 d × Group 12 e)
    × (Separator w × Separator x × Separator y × Separator z)

abbrev Place : ℕ → Type 0
Place i = (i ≡ 8) ⊎ ((i ≡ 13) ⊎ ((i ≡ 18) ⊎ (i ≡ 23)))

abbrev ByteAt : ℕ → ℕ → Type 0
ByteAt i c = ((c ≡ b'-') × Place i) ⊎ Hex c

abbrev BytesAt : ℕ → Str → Type 0
BytesAt i [] = Unit
BytesAt i (c ∷ s) = ByteAt i c × BytesAt (i + 1) s

is_hex-Hex : (c : ℕ) → (is_hex c ≡ true) ↔ Hex c
unfolding is_hex
is_hex-Hex c = ground (arith, leb_iff b'0' c, leb_iff c b'9', leb_iff b'a' c, leb_iff c b'f')

id_bytes-BytesAt : (i : ℕ) (s : Str) → (id_bytes i s ≡ true) ↔ BytesAt i s
unfolding id_bytes
id_bytes-BytesAt i [] = ((λ _. tt), (λ _. refl))
id_bytes-BytesAt i (c ∷ s) = ground (arith, id_bytes-BytesAt (i + 1) s, is_hex-Hex c)

-- The bytes after a group of digits, the first of them a separator that stands at a place.
grouped :
    (i n : ℕ) (s : Str)
    → n < length s
    → ((j : ℕ) → i ≤ j → j < i + n → ¬ Place j)
    → BytesAt i s
    → (a : Str) × (c : ℕ) × (t : Str) × (s ≡ a ++ c ∷ t)
      × Group n a
      × Separator c
      × (length s ≡ n + suc (length t))
      × BytesAt (i + n + 1) t
grouped i n [] h free b = absurd (omega arith)
grouped i zero (c ∷ s) h free (b, bs) = (
  [],
  c,
  s,
  refl,
  (refl, tt),
  elim b [ inl (e, _) ↦ inl e | inr x ↦ inr x ],
  omega arith,
  subst (λ j. BytesAt j s) (omega arith) bs,
)
grouped i (suc n) (c ∷ s) h free (b, bs) =
    let (a, x, t, e, g, sep, l, rest) =
      grouped (i + 1) n s (omega arith) (λ j p q. free j (omega arith) (omega arith)) bs in
    (
      c ∷ a,
      x,
      t,
      ap (◌∷◌ c) e,
      (
        ap suc g.0,
        (elim b [ inl (_, p) ↦ absurd (free i (omega arith) (omega arith) p) | inr d ↦ d ], g.1),
      ),
      sep,
      omega arith,
      subst (λ j. BytesAt j t) (omega arith) rest,
    )

last_group : (i : ℕ) (s : Str) → ((j : ℕ) → i ≤ j → ¬ Place j) → BytesAt i s → All Hex s
last_group i [] free b = tt
last_group i (c ∷ s) free (b, bs) = (
  elim b [ inl (_, p) ↦ absurd (free i (omega arith) p) | inr d ↦ d ],
  last_group (i + 1) s (λ j p. free j (omega arith)) bs,
)

digits-BytesAt : (i : ℕ) (s : Str) → All Hex s → BytesAt i s
digits-BytesAt i [] h = tt
digits-BytesAt i (c ∷ s) h = (inr h.0, digits-BytesAt (i + 1) s h.1)

-- A group, a separator at a place, and what follows.
onward-BytesAt :
    (i n : ℕ) (a : Str) (c : ℕ) (t : Str)
    → Group n a
    → Separator c
    → Place (i + n)
    → BytesAt (i + n + 1) t
    → BytesAt i (a ++ c ∷ t)
onward-BytesAt i n [] c t g sep p b =
    let here : i + n ≡ i = (let e = g.0 in omega arith) in
    (
      elim sep [ inl e ↦ inl (e, subst Place here p) | inr x ↦ inr x ],
      subst (λ j. BytesAt (j + 1) t) here b,
    )
onward-BytesAt i n (d ∷ a) c t g sep p b =
    let there : i + n ≡ i + 1 + length a = (let e = g.0 in omega arith) in
    (
      inr g.1.0,
      onward-BytesAt (i + 1) (length a) a c t (refl, g.1.1) sep (subst Place there p)
          (subst (λ j. BytesAt (j + 1) t) there b),
    )

length-join : (a : Str) (c : ℕ) (t : Str) → length (a ++ c ∷ t) ≡ length a + suc (length t)
length-join [] c t = omega arith
length-join (x ∷ a) c t = ground (arith, length-join a c t)

joined :
    (s s1 s2 s3 a b c d e : Str) (w x y z : ℕ)
    → s ≡ a ++ w ∷ s1
    → s1 ≡ b ++ x ∷ s2
    → s2 ≡ c ++ y ∷ s3
    → s3 ≡ d ++ z ∷ e
    → s ≡ a ++ w ∷ (b ++ x ∷ (c ++ y ∷ (d ++ z ∷ e)))
joined s s1 s2 s3 a b c d e w x y z e1 e2 e3 e4 =
    e1 ∙ ap (λ t. a ++ w ∷ t) (e2 ∙ ap (λ t. b ++ x ∷ t) (e3 ∙ ap (λ t. c ++ y ∷ t) e4))

length-shape :
    (a b c d e : Str) (w x y z : ℕ)
    → length a ≡ 8
    → length b ≡ 4
    → length c ≡ 4
    → length d ≡ 4
    → length e ≡ 12
    → length (a ++ w ∷ (b ++ x ∷ (c ++ y ∷ (d ++ z ∷ e)))) ≡ 36
length-shape a b c d e w x y z h1 h2 h3 h4 h5 = omega (
  arith,
  length-join a w (b ++ x ∷ (c ++ y ∷ (d ++ z ∷ e))),
  length-join b x (c ++ y ∷ (d ++ z ∷ e)),
  length-join c y (d ++ z ∷ e),
  length-join d z e,
)

-- An id passes the check exactly when it is five groups of 8, 4, 4, 4 and 12 hexadecimal digits in lower
-- case, with one byte between any two of them that is a hyphen or another such digit: the hyphens of a
-- UUID are not required.
pub policy_id_pattern-IdShape : (s : Str) → (policy_id_pattern s ≡ true) ↔ IdShape s
unfolding policy_id_pattern
policy_id_pattern-IdShape s = (
  (λ h.
      let n : length s ≡ 36 = ground (arith, ==_iff (length s) 36) in
      let (a, w, s1, e1, g1, p1, n1, b1) =
        grouped 0 8 s (omega arith) (λ j p q r. omega arith)
          ((id_bytes-BytesAt 0 s).0 (ground arith)) in
      let (b, x, s2, e2, g2, p2, n2, b2) =
        grouped 9 4 s1 (omega arith) (λ j p q r. omega arith) b1 in
      let (c, y, s3, e3, g3, p3, n3, b3) =
        grouped 14 4 s2 (omega arith) (λ j p q r. omega arith) b2 in
      let (d, z, e, e4, g4, p4, n4, b4) =
        grouped 19 4 s3 (omega arith) (λ j p q r. omega arith) b3 in
      let last = last_group 24 e (λ j p r. omega arith) b4 in
      (
        a,
        b,
        c,
        d,
        e,
        w,
        x,
        y,
        z,
        joined s s1 s2 s3 a b c d e w x y z e1 e2 e3 e4,
        (g1, g2, g3, g4, (omega arith, last)),
        (p1, p2, p3, p4),
      )),
  (λ (a, b, c, d, e, w, x, y, z, q, (g1, g2, g3, g4, g5), (p1, p2, p3, p4)).
      let t4 : Str = d ++ z ∷ e in
      let t3 : Str = c ++ y ∷ t4 in
      let t2 : Str = b ++ x ∷ t3 in
      let n : length (a ++ w ∷ t2) ≡ 36 =
        length-shape a b c d e w x y z (g1.0) (g2.0) (g3.0) (g4.0) (g5.0) in
      let b4 : BytesAt 19 t4 =
        onward-BytesAt 19 4 d z e g4 p4 (omega arith) (digits-BytesAt 24 e g5.1) in
      let b3 : BytesAt 14 t3 = onward-BytesAt 14 4 c y t4 g3 p3 (omega arith) b4 in
      let b2 : BytesAt 9 t2 = onward-BytesAt 9 4 b x t3 g2 p2 (omega arith) b3 in
      let b1 : BytesAt 0 (a ++ w ∷ t2) = onward-BytesAt 0 8 a w t2 g1 p1 (omega arith) b2 in
      subst (λ t. policy_id_pattern t ≡ true) (sym q)
        ((&&_iff _ _).1 ((==_iff _ 36).1 n, (id_bytes-BytesAt 0 _).1 b1))),
)
