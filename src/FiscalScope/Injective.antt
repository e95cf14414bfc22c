-- ===== src/FiscalScope/Injective.antt =====
-- The canonical bytes of a fiscal scope tell its parts apart (internal/core/fiscal_scope.go).
use drenyra_engram.Base.{ℕ, ◌≡◌, refl, Str, str, [], ◌∷◌, ◌++◌, length, arith}
use drenyra_engram.FiscalScope.{
  FiscalScopeBinding, itoa, field, level_token, canonical_fiscal_scope_bytes,
}
use drenyra_engram.FiscalScope.Digits.{itoa-digits, itoa_inj, digits_split}

cancel : (k x y : Str) → k ++ x ≡ k ++ y → x ≡ y
cancel [] x y e = e
cancel (a ∷ k) x y e = cancel k x y (ground arith)

-- Two values of one length, each followed by the same byte.
same_length :
    (c : ℕ) (v w x y : Str) → length v ≡ length w → v ++ c ∷ x ≡ w ++ c ∷ y → (v ≡ w) × (x ≡ y)
same_length c [] [] x y n e = (refl, ground arith)
same_length c [] (b ∷ w) x y n e = absurd (omega arith)
same_length c (a ∷ v) [] x y n e = absurd (omega arith)
same_length c (a ∷ v) (b ∷ w) x y n e =
    let (p, q) = same_length c v w x y (omega arith) (ground arith) in
    let head : a ≡ b = ground arith in (cc (head, p), q)

-- One field in front of any rest determines its value and the rest, whatever bytes the value holds.
field_inj : (key v w x y : Str) → field key v x ≡ field key w y → (v ≡ w) × (x ≡ y)
unfolding field
field_inj key v w x y e =
    let tail =
      cancel key (b'=' ∷ (itoa (length v) ++ (b':' ∷ (v ++ (0 ∷ x)))))
        (b'=' ∷ (itoa (length w) ++ (b':' ∷ (w ++ (0 ∷ y))))) e in
    let (n, rest) =
      digits_split b':' (itoa (length v)) (itoa (length w)) (v ++ (0 ∷ x)) (w ++ (0 ∷ y)) refl
        (itoa-digits (length v)) (itoa-digits (length w)) (behind tail) in
    same_length 0 v w x y (itoa_inj (length v) (length w) n) rest
  where
    behind : {a : ℕ} {p q : Str} → a ∷ p ≡ a ∷ q → p ≡ q
    behind h = ground arith

-- Two bindings with the same canonical bytes agree in tenant, organization, company, fiscal period, ledger
-- book, operation, source snapshot, policy version, actor and the token of the authority level,
-- whatever bytes these hold. The version is not among the bytes.
pub canonical_bytes_inj :
    (a b : FiscalScopeBinding)
    → canonical_fiscal_scope_bytes a ≡ canonical_fiscal_scope_bytes b
    → (a.tenant ≡ b.tenant)
      × (a.organization ≡ b.organization)
      × (a.company ≡ b.company)
      × (a.fiscal_period ≡ b.fiscal_period)
      × (a.ledger_book ≡ b.ledger_book)
      × (a.operation_type ≡ b.operation_type)
      × (a.source_snapshot ≡ b.source_snapshot)
      × (a.policy_version ≡ b.policy_version)
      × (a.actor ≡ b.actor)
      × (level_token a.authority_level ≡ level_token b.authority_level)
unfolding canonical_fiscal_scope_bytes
canonical_bytes_inj a b e =
    let (p1, e1) =
      field_inj (str "tenant") _ _ _ _ (cancel (str "drenyra:fiscal-scope:v1" ++ 0 ∷ []) _ _ e) in
    let (p2, e2) = field_inj (str "organization") _ _ _ _ e1 in
    let (p3, e3) = field_inj (str "company") _ _ _ _ e2 in
    let (p4, e4) = field_inj (str "fiscalPeriod") _ _ _ _ e3 in
    let (p5, e5) = field_inj (str "ledgerBook") _ _ _ _ e4 in
    let (p6, e6) = field_inj (str "operationType") _ _ _ _ e5 in
    let (p7, e7) = field_inj (str "sourceSnapshot") _ _ _ _ e6 in
    let (p8, e8) = field_inj (str "policyVersion") _ _ _ _ e7 in
    let (p9, e9) = field_inj (str "actor") _ _ _ _ e8 in
    let (p10, _) = field_inj (str "authorityLevel") _ _ _ _ e9 in
    (p1, p2, p3, p4, p5, p6, p7, p8, p9, p10)
