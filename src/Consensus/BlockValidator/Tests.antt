-- ===== src/Consensus/BlockValidator/Tests.antt =====
-- Two empty blocks, to which the theorems on block validation apply.
use sarafu_core.Base.{ℕ, ◌≡◌, ◌⊎◌, ◌<◌, refl, arith, [], ◌∷◌, All}
use sarafu_core.Codec.{le_bytes, be_bytes}
use sarafu_core.Consensus.Types.{Block}
use sarafu_core.Consensus.ValidatorSet.{find_validator}
use sarafu_core.Consensus.Codec.{serialize_header, block_hash}
use sarafu_core.Consensus.Codec.Ranges.{HeaderFits}
use sarafu_core.Consensus.BlockValidator.{
  validate_block, verify_block_height, verify_timestamp, verify_transactions_from,
  verify_transactions, verify_proposer, verify_block_hash_chain, verify_transactions_root,
}
use sarafu_core.Consensus.BlockValidator.Chain.{Collision, headers, validated_chains_agree}
use sarafu_core.Consensus.Tests.{toy, qc, three}

abbrev empty : ℕ → ℕ → ℕ → Block
empty height time previous = record {
  header = record {
    height = height;
    timestamp = time;
    previous_hash = previous;
    state_root = 0;
    transactions_root = 0;
    validator_set_root = 0;
    proposer = 1;
    epoch = 2;
  };
  transactions = [];
  justify = qc;
}

empty-Fits :
    (height time previous : ℕ)
    → height < 9
    → time < 999
    → previous < 999
    → HeaderFits (empty height time previous).header
empty-Fits height time previous h t v = record {
  height_fits = omega arith;
  timestamp_fits = omega arith;
  previous_hash_fits = omega arith;
  state_root_fits = omega arith;
  transactions_root_fits = omega arith;
  validator_set_root_fits = omega arith;
  proposer_fits = omega arith;
  epoch_fits = omega arith;
}

two-Fits : All (λ (b : Block). HeaderFits b.header) (empty 1 120 103 ∷ empty 0 100 0 ∷ [])
two-Fits = (
  empty-Fits 1 120 103 (omega arith) (omega arith) (omega arith),
  (empty-Fits 0 100 0 (omega arith) (omega arith) (omega arith), tt),
)

validated_chains_agree_example :
    (headers (empty 1 120 103 ∷ empty 0 100 0 ∷ [])
      ≡ headers (empty 1 120 103 ∷ empty 0 100 0 ∷ []))
    ⊎ Collision toy
unfolding validate_block verify_block_height verify_timestamp verify_transactions_from
    verify_transactions verify_proposer verify_block_hash_chain verify_transactions_root block_hash
    serialize_header le_bytes be_bytes find_validator
validated_chains_agree_example =
    validated_chains_agree toy three.validators three.validators [] [] (empty 1 120 103)
      (empty 1 120 103) (empty 0 100 0 ∷ []) (empty 0 100 0 ∷ []) (refl, tt) (refl, tt) two-Fits
      two-Fits refl refl
