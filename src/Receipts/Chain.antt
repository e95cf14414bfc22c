-- ===== src/Receipts/Chain.antt =====
-- A chain of receipts is determined by the hash of its last one.
use drenyra_engram.Base.{
  ◌≡◌, refl, sym, ap, ◌∙◌, ◌↔◌, ◌⊎◌, inl, inr, Str, str_eq_iff, true, List, [], ◌∷◌, ◌++◌, In, All,
  arith,
}
use drenyra_engram.Verify.{passed, layer_passed, layer_failed}
use drenyra_engram.Receipts.{
  SignedReceipt, verify_chain_link, receipt_hash, chain_layers, chain_head,
}

-- Inside a chain, where the predecessor is at hand, a link passes exactly when it names that hash.
link_iff :
    (r : SignedReceipt) (prev : Str)
    → ((verify_chain_link r prev true).status ≡ passed) ↔ (r.previous_receipt_hash ≡ prev)
unfolding verify_chain_link layer_passed layer_failed
link_iff r prev = go r.previous_receipt_hash prev refl
  where
    go :
        (p q : Str)
        → r.previous_receipt_hash ≡ p
        → ((verify_chain_link r q true).status ≡ passed) ↔ (r.previous_receipt_hash ≡ q)
    go p q e = ground (arith, str_eq_iff r.previous_receipt_hash q)

-- Newest first.
abbrev rev_onto : List SignedReceipt → List SignedReceipt → List SignedReceipt
rev_onto acc [] = acc
rev_onto acc (r ∷ rs) = rev_onto (r ∷ acc) rs

rev_onto_twice : (a b xs : List SignedReceipt) → rev_onto b (rev_onto a xs) ≡ rev_onto (xs ++ b) a
rev_onto_twice a b [] = refl
rev_onto_twice a b (x ∷ xs) = rev_onto_twice (x ∷ a) b xs

append_nil : (xs : List SignedReceipt) → xs ++ [] ≡ xs
append_nil [] = refl
append_nil (x ∷ xs) = ap (λ l. x ∷ l) (append_nil xs)

rev_onto_inj : (xs ys : List SignedReceipt) → rev_onto [] xs ≡ rev_onto [] ys → xs ≡ ys
rev_onto_inj xs ys e =
    sym (append_nil xs)
    ∙ sym (rev_onto_twice [] [] xs)
    ∙ ap (rev_onto []) e
    ∙ rev_onto_twice [] [] ys
    ∙ append_nil ys

in-rev_onto :
    (r : SignedReceipt) (acc xs : List SignedReceipt) → In r (rev_onto acc xs) → In r acc ⊎ In r xs
in-rev_onto r acc [] h = inl h
in-rev_onto r acc (x ∷ xs) h = elim (in-rev_onto r (x ∷ acc) xs h) [
  | inl k ↦ elim k [ inl e ↦ inr (inl e) | inr l ↦ inl l ]
  | inr l ↦ inr (inr l)
]

module _ (json : List (Str × Str) → Str) (sha256_hex : Str → Str) where
  hash : SignedReceipt → Str
  hash = receipt_hash json sha256_hex

  top : List SignedReceipt → Str
  top [] = []
  top (r ∷ _) = hash r

  Linked : List SignedReceipt → Type 0
  Linked [] = Unit
  Linked (r ∷ older) = (r.previous_receipt_hash ≡ top older) × Linked older

  -- The loop that passes everywhere links what it reads to what it has read.
  loop-Linked :
      (acc rs : List SignedReceipt)
      → Linked acc
      → All (λ l. l.status ≡ passed) (chain_layers json sha256_hex (top acc) rs)
      → Linked (rev_onto acc rs)
  unfolding chain_layers Linked hash top
  loop-Linked acc [] h k = h
  loop-Linked acc (r ∷ rs) h k = loop-Linked (r ∷ acc) rs ((link_iff r (top acc)).0 k.0, h) k.1

  loop-top :
      (acc rs : List SignedReceipt)
      → top (rev_onto acc rs) ≡ chain_head json sha256_hex (top acc) rs
  unfolding chain_head hash top
  loop-top acc [] = refl
  loop-top acc (r ∷ rs) = loop-top (r ∷ acc) rs

  -- From the newest receipt down, equal hashes force equal receipts.
  same_chain :
      (xs ys : List SignedReceipt)
      → ((s : Str) → ¬ (sha256_hex s ≡ []))
      → ((r s : SignedReceipt) → In r xs → In s ys → hash r ≡ hash s → r ≡ s)
      → Linked xs
      → Linked ys
      → top xs ≡ top ys
      → xs ≡ ys
  unfolding Linked top hash receipt_hash
  same_chain [] [] n c h k e = refl
  same_chain [] (y ∷ ys) n c h k e = absurd (n _ (sym e))
  same_chain (x ∷ xs) [] n c h k e = absurd (n _ e)
  same_chain (x ∷ xs) (y ∷ ys) n c h k e =
      let same : x ≡ y = c x y (inl refl) (inl refl) e in
      let below : top xs ≡ top ys = sym h.0 ∙ ap (λ r. r.previous_receipt_hash) same ∙ k.0 in
      let rest = same_chain xs ys n (λ r s i j. c r s (inr i) (inr j)) h.1 k.1 below in
      cc (same, rest)

-- The last receipt's hash pins the whole chain: if the chain-link layer passes for every receipt of two
-- chains, read oldest first from the genesis, and the hashes of their last receipts are equal, then the
-- two chains are the same receipts in the same order. The digest is assumed never empty, and no two
-- different receipts, one of each chain, are assumed to have the same hash.
pub chain_pinned :
    (json : List (Str × Str) → Str) (sha256_hex : Str → Str) (rs us : List SignedReceipt)
    → ((s : Str) → ¬ (sha256_hex s ≡ []))
    → ((r u : SignedReceipt)
        → In r rs
        → In u us
        → receipt_hash json sha256_hex r ≡ receipt_hash json sha256_hex u
        → r ≡ u)
    → All (λ l. l.status ≡ passed) (chain_layers json sha256_hex [] rs)
    → All (λ l. l.status ≡ passed) (chain_layers json sha256_hex [] us)
    → chain_head json sha256_hex [] rs ≡ chain_head json sha256_hex [] us
    → rs ≡ us
unfolding hash top Linked
chain_pinned json sha256_hex rs us n c h k e = rev_onto_inj rs us (
    same_chain json sha256_hex (rev_onto [] rs) (rev_onto [] us) n
      (λ r u i j. c r u (behind r rs i) (behind u us j)) (loop-Linked json sha256_hex [] rs tt h)
      (loop-Linked json sha256_hex [] us tt k)
      (loop-top json sha256_hex [] rs ∙ e ∙ sym (loop-top json sha256_hex [] us)))
  where
    behind : (r : SignedReceipt) (xs : List SignedReceipt) → In r (rev_onto [] xs) → In r xs
    behind r xs i = elim (in-rev_onto r [] xs i) [ inl a ↦ absurd a | inr b ↦ b ]
