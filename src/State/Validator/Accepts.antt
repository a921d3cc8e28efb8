-- ===== src/State/Validator/Accepts.antt =====
-- What it takes for a transaction to pass.
use sarafu_core.Base.{ℕ, ◌≤◌, ◌≡◌, ◌≢◌, ◌↔◌, true, none, arith}
use sarafu_core.Base.Word.{add64}
use sarafu_core.Crypto.{Primitives}
use sarafu_core.State.Types.{Transaction}
use sarafu_core.State.Accounts.{Accounts, get_account, validate_nonce, has_sufficient_balance}
use sarafu_core.State.Validator.{
  has_valid_nonce, sufficient_balance, verify_signature, validate_transaction,
}

-- The conditions, as a specification that does not follow the order of the tests.
pub record Acceptable (p : Primitives) (chain_id : ℕ) (tx : Transaction) (key : ℕ) (m : Accounts)
    : Type 0 where
  pub sender : tx.from ≢ 0
  pub recipient : tx.to ≢ 0
  pub chain : tx.chain_id ≡ chain_id
  pub signed : verify_signature p tx key ≡ true
  pub next_nonce : tx.nonce ≡ (get_account m tx.from).nonce
  pub covered : add64 tx.amount tx.fee ≤ (get_account m tx.from).balance

-- A transaction passes exactly when all the conditions hold: neither address is zero, the chain is
-- this one, the signature verifies, the nonce is the sender's, and the sum of amount and fee, as it
-- wraps, is within the balance.
pub validate_transaction_iff :
    (p : Primitives) (chain_id : ℕ) (tx : Transaction) (key : ℕ) (m : Accounts)
    → (validate_transaction p chain_id tx key m ≡ none) ↔ Acceptable p chain_id tx key m
unfolding validate_transaction has_valid_nonce sufficient_balance validate_nonce
    has_sufficient_balance
validate_transaction_iff p chain_id tx key m = (λ h. ground arith, λ h. ground arith)
