-- ===== src/Receipts.antt =====
-- Signed receipts and their chain: internal/core/receipt.go (the envelope and its hash), verify.go
-- (VerifyChainLink) and the loop of internal/server/verify_service.go that runs it along a chain.
pub mod Chain
use drenyra_engram.Base.{
  Str, str, str_eq, Bool, true, false, not, List, [], ◌∷◌, ◌++◌, is_empty, if◌then◌else◌,
}
use drenyra_engram.Verify.{VerificationLayer, layer_passed, layer_failed, layer_chain_link}

-- The subject type and the action by their tokens.
pub record SignedReceipt : Type 0 where
  pub subject_type : Str
  pub subject_id : Str
  pub action : Str
  pub tenant_id : Str
  pub company_id : Str
  pub fiscal_period_id : Str
  pub payload_hash : Str
  pub previous_receipt_hash : Str
  pub principal_id : Str
  pub membership_id : Str
  pub policy_version : Str
  pub algorithm : Str
  pub key_id : Str
  pub signature : Str
  pub issued_at : Str

-- The members of the complete receipt in their canonical order, with their keys.
unfoldable pub complete_members : SignedReceipt → List (Str × Str)
complete_members r =
    (str "subjectType", r.subject_type)
    ∷ (str "subjectId", r.subject_id)
    ∷ (str "action", r.action)
    ∷ (str "tenantId", r.tenant_id)
    ∷ (str "companyId", r.company_id)
    ∷ (str "fiscalPeriodId", r.fiscal_period_id)
    ∷ (str "payloadHash", r.payload_hash)
    ∷ (str "previousReceiptHash", r.previous_receipt_hash)
    ∷ (str "principalId", r.principal_id)
    ∷ (str "membershipId", r.membership_id)
    ∷ (str "policyVersion", r.policy_version)
    ∷ (str "algorithm", r.algorithm)
    ∷ (str "keyId", r.key_id)
    ∷ (str "signature", r.signature)
    ∷ (str "issuedAt", r.issued_at)
    ∷ []

unfoldable pub verify_chain_link : SignedReceipt → Str → Bool → VerificationLayer
verify_chain_link receipt prev_computed_hash predecessor_resolved =
    if is_empty receipt.previous_receipt_hash
    then if is_empty prev_computed_hash
      then layer_passed layer_chain_link (str "genesis receipt has an empty previousReceiptHash")
      else layer_failed layer_chain_link
          (str "chain gap: previousReceiptHash is empty but the receipt is not first in the chain")
    else if not predecessor_resolved
    then layer_failed layer_chain_link (
        str "previousReceiptHash "
        ++ receipt.previous_receipt_hash
        ++ str " does not resolve to a stored predecessor receipt")
    else if is_empty prev_computed_hash
    then layer_failed layer_chain_link
        (str "genesis receipt must have an empty previousReceiptHash")
    else if not (str_eq receipt.previous_receipt_hash prev_computed_hash)
    then layer_failed layer_chain_link (
        str "previousReceiptHash "
        ++ receipt.previous_receipt_hash
        ++ str " does not reference the immediately preceding receipt hash "
        ++ prev_computed_hash)
    else layer_passed layer_chain_link
        (str "chain link references the immediately preceding receipt hash")

-- `json` stands for the compact encoding of an object of strings by encoding/json, `sha256_hex` for the
-- lowercase hexadecimal digest of crypto/sha256.
module _ (json : List (Str × Str) → Str) (sha256_hex : Str → Str) where
  -- `sha256HexBytes(CompleteReceiptBytes(r))`
  unfoldable pub receipt_hash : SignedReceipt → Str
  receipt_hash r = sha256_hex (json (complete_members r))

  -- The loop along the receipts of a subject, oldest first.
  unfoldable pub chain_layers : Str → List SignedReceipt → List VerificationLayer
  chain_layers prev_computed [] = []
  chain_layers prev_computed (r ∷ rs) =
      verify_chain_link r prev_computed true ∷ chain_layers (receipt_hash r) rs

  -- The hash that the next receipt of the chain has to name.
  unfoldable pub chain_head : Str → List SignedReceipt → Str
  chain_head prev_computed [] = prev_computed
  chain_head prev_computed (r ∷ rs) = chain_head (receipt_hash r) rs
