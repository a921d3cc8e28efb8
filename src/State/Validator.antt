-- ===== src/State/Validator.antt =====
-- src/state/transaction_validator.cpp, and the signature check of src/state/transaction.cpp.
pub mod Accepts
use sarafu_core.Base.{ℕ, Bool, true, Option, none, some, List, ◌==◌, if◌then◌else◌}
use sarafu_core.Base.Word.{add64}
use sarafu_core.Codec.{be_bytes}
use sarafu_core.Crypto.{Primitives}
use sarafu_core.State.Types.{Address, Hash, Transaction}
use sarafu_core.State.Codec.{serialize_for_signing}
use sarafu_core.State.Accounts.{
  Accounts, get_nonce, get_balance, validate_nonce, has_sufficient_balance,
}
use sarafu_core.State.Messages.{
  TxError, zero_from, zero_to, negative_amount, bad_chain_id, bad_signature, bad_nonce,
  insufficient,
}

abbrev pub is_zero_address : Address → Bool
is_zero_address address = address == 0

-- Of unsigned amounts this is always so, as the source notes.
abbrev pub has_non_negative_amounts : Transaction → Bool
has_non_negative_amounts tx = true

abbrev pub has_valid_chain_id : Transaction → ℕ → Bool
has_valid_chain_id tx chain_id = tx.chain_id == chain_id

unfoldable pub has_valid_nonce : Transaction → Accounts → Bool
has_valid_nonce tx accounts = validate_nonce accounts tx.from tx.nonce

-- The sum of amount and fee wraps at 2^64.
unfoldable pub sufficient_balance : Transaction → Accounts → Bool
sufficient_balance tx accounts = has_sufficient_balance accounts tx.from (add64 tx.amount tx.fee)

module _ (p : Primitives) where
  unfoldable pub tx_hash : Transaction → Hash
  tx_hash tx = p.blake3 (serialize_for_signing tx)

  unfoldable pub verify_signature : Transaction → ℕ → Bool
  verify_signature tx public_key = p.verify tx.signature (be_bytes 32 (tx_hash tx)) public_key

  unfoldable pub validate_transaction : ℕ → Transaction → ℕ → Accounts → Option TxError
  validate_transaction chain_id tx public_key accounts =
      if is_zero_address tx.from
      then some zero_from
      else (if is_zero_address tx.to
          then some zero_to
          else (if has_non_negative_amounts tx
              then (if has_valid_chain_id tx chain_id
                  then (if verify_signature tx public_key
                      then (if has_valid_nonce tx accounts
                          then (if sufficient_balance tx accounts
                              then none
                              else some (
                                  insufficient (get_balance accounts tx.from)
                                    (add64 tx.amount tx.fee)))
                          else some (bad_nonce (get_nonce accounts tx.from) tx.nonce))
                      else some bad_signature)
                  else some (bad_chain_id chain_id tx.chain_id))
              else some negative_amount))
