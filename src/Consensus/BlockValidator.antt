-- ===== src/Consensus/BlockValidator.antt =====
-- src/consensus/block_validator.cpp. An error string is a constructor with the numbers that it names.
pub mod Chain
mod Tests
use sarafu_core.Base.{
  ℕ, suc, ◌+◌, Bool, true, false, not, Option, none, some, List, [], ◌∷◌, map, ◌==◌, leb, ◌||◌,
  if◌then◌else◌,
}
use sarafu_core.Base.Word.{add64}
use sarafu_core.Crypto.{Primitives, hash_pair}
use sarafu_core.Crypto.Merkle.{build_tree}
use sarafu_core.State.Types.{Hash, Transaction}
use sarafu_core.State.Accounts.{Accounts}
use sarafu_core.State.Validator.{
  is_zero_address, has_non_negative_amounts, has_valid_chain_id, tx_hash,
}
use sarafu_core.State.Machine.{compute_state_root}
use sarafu_core.Consensus.Types.{Block, Validator, ValidatorId, ValidatorStatus}
use sarafu_core.Consensus.ValidatorSet.{find_validator, is_active_status}
use sarafu_core.Consensus.Codec.{block_hash}

pub data BlockError : Type 0 where
  invalid_height invalid_previous_hash invalid_timestamp : ℕ → ℕ → BlockError
  proposer_not_active : ValidatorId → ValidatorStatus → BlockError
  proposer_not_in_set : ValidatorId → BlockError
  transactions_root_mismatch state_root_mismatch : Hash → Hash → BlockError
  zero_address negative_amount wrong_chain_id : ℕ → BlockError

unfoldable pub verify_block_height : Block → Block → Option BlockError
verify_block_height b parent =
    let expected = add64 parent.header.height 1 in
    if not (b.header.height == expected)
    then some (invalid_height expected b.header.height)
    else none

unfoldable pub verify_timestamp : Block → Block → Option BlockError
verify_timestamp b parent =
    if leb b.header.timestamp parent.header.timestamp
    then some (invalid_timestamp b.header.timestamp parent.header.timestamp)
    else none

-- The chain id is 1.
unfoldable pub verify_transactions_from : ℕ → List Transaction → Option BlockError
verify_transactions_from i [] = none
verify_transactions_from i (tx ∷ txs) =
    if is_zero_address tx.from || is_zero_address tx.to
    then some (zero_address i)
    else (if not (has_non_negative_amounts tx)
        then some (negative_amount i)
        else (if not (has_valid_chain_id tx 1)
            then some (wrong_chain_id i)
            else verify_transactions_from (suc i) txs))

unfoldable pub verify_transactions : Block → Option BlockError
verify_transactions b = verify_transactions_from 0 b.transactions

-- The validators are those of the registry's current set.
unfoldable pub verify_proposer : List Validator → Block → Option BlockError
verify_proposer vs b = elim (find_validator b.header.proposer vs) [
  | none ↦ some (proposer_not_in_set b.header.proposer)
  | some v ↦
      if not (is_active_status v.status)
      then some (proposer_not_active b.header.proposer v.status)
      else none
]

module _ (p : Primitives) where
  unfoldable pub verify_block_hash_chain : Block → Block → Option BlockError
  verify_block_hash_chain b parent =
      let parent_hash = block_hash p parent in
      if not (b.header.previous_hash == parent_hash)
      then some (invalid_previous_hash parent_hash b.header.previous_hash)
      else none

  -- The state is compared as it stands, before the block's transactions.
  unfoldable pub verify_state_root : Accounts → Block → Option BlockError
  verify_state_root accounts b =
      let computed_root = compute_state_root p accounts in
      if not (b.header.state_root == computed_root)
      then some (state_root_mismatch computed_root b.header.state_root)
      else none

  unfoldable pub verify_transactions_root : Block → Option BlockError
  verify_transactions_root b = elim (map (tx_hash p) b.transactions) [
    | [] ↦
        if not (b.header.transactions_root == 0)
        then some (transactions_root_mismatch 0 b.header.transactions_root)
        else none
    | hash ∷ hashes ↦
        let computed_root = (build_tree (hash_pair p) (hash ∷ hashes)).root in
        if not (b.header.transactions_root == computed_root)
        then some (transactions_root_mismatch computed_root b.header.transactions_root)
        else none
  ]

  abbrev pub or_else : Option BlockError → Option BlockError → Option BlockError
  or_else (some error) next = some error
  or_else none next = next

  -- The checks in their order; the first error is returned.
  unfoldable pub validate_block :
      List Validator → Accounts → Block → Block → Bool → Option BlockError
  validate_block vs accounts b parent with_state_root = or_else (verify_block_height b parent) (
      or_else (verify_block_hash_chain b parent) (
        or_else (verify_timestamp b parent) (
          or_else (verify_proposer vs b) (
            or_else (verify_transactions_root b) (
              or_else (verify_transactions b)
                (if with_state_root then verify_state_root accounts b else none))))))
