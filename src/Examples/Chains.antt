-- ===== src/Examples/Chains.antt =====
-- The theorem on receipt chains, at a chain of two receipts with a stand-in for the digest.
use drenyra_engram.Base.{
  ◌≡◌, refl, sym, ◌∙◌, inl, inr, Str, str, str_eq, List, [], ◌∷◌, ◌++◌, In, length, ap, arith,
}
use drenyra_engram.Receipts.{
  SignedReceipt, receipt_hash, chain_layers, verify_chain_link, complete_members,
}
use drenyra_engram.Receipts.Chain.{chain_pinned}
use drenyra_engram.Verify.{layer_passed}

-- All values one behind the other, and a byte in front.
abbrev joined : List (Str × Str) → Str
joined [] = []
joined ((k, v) ∷ ms) = v ++ joined ms

abbrev digest : Str → Str
digest s = b'#' ∷ s

abbrev genesis : SignedReceipt
genesis = record {
  subject_type = str "memory";
  subject_id = str "m1";
  action = str "memory_recorded";
  tenant_id = str "org";
  company_id = str "acme";
  fiscal_period_id = str "202401";
  payload_hash = str "p1";
  previous_receipt_hash = [];
  principal_id = str "ana";
  membership_id = [];
  policy_version = [];
  algorithm = str "Ed25519";
  key_id = str "k";
  signature = str "s1";
  issued_at = str "t1";
}

abbrev approval : SignedReceipt
approval = record genesis {
  action = str "memory_approved";
  payload_hash = str "p2";
  previous_receipt_hash = str "#memorym1memory_recordedorgacme202401p1anaEd25519ks1t1";
  signature = str "s2";
  issued_at = str "t2";
}

abbrev chain : List SignedReceipt
chain = genesis ∷ approval ∷ []

digest_nonempty : (s : Str) → ¬ (digest s ≡ [])
digest_nonempty s e = cc e

differ : ¬ (receipt_hash joined digest genesis ≡ receipt_hash joined digest approval)
unfolding receipt_hash complete_members
differ e = let n = ap length e in absurd (omega arith)

no_collision :
    (r u : SignedReceipt)
    → In r chain
    → In u chain
    → receipt_hash joined digest r ≡ receipt_hash joined digest u
    → r ≡ u
no_collision r u (inl i) (inl j) e = sym i ∙ j
no_collision r u (inr (inl i)) (inr (inl j)) e = sym i ∙ j
no_collision r u (inl i) (inr (inl j)) e =
    absurd
      (differ (ap (receipt_hash joined digest) i ∙ e ∙ sym (ap (receipt_hash joined digest) j)))
no_collision r u (inr (inl i)) (inl j) e =
    absurd
      (differ (ap (receipt_hash joined digest) j ∙ sym e ∙ sym (ap (receipt_hash joined digest) i)))
no_collision r u (inr (inr i)) j e = absurd i
no_collision r u (inl i) (inr (inr j)) e = absurd j
no_collision r u (inr (inl i)) (inr (inr j)) e = absurd j

chain_pinned_example : chain ≡ chain
unfolding chain_layers verify_chain_link receipt_hash complete_members layer_passed str_eq
chain_pinned_example =
    chain_pinned joined digest chain chain digest_nonempty no_collision (refl, (refl, tt))
      (refl, (refl, tt)) refl
