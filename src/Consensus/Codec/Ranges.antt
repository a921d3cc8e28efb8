-- ===== src/Consensus/Codec/Ranges.antt =====
-- The ranges of the fields of include/sarafu/consensus/block.h and validator.h.
use sarafu_core.Base.{◌^◌, ◌<◌, length, All}
use sarafu_core.Base.Word.{u64_mod, u32_mod}
use sarafu_core.State.Types.{TransactionFits}
use sarafu_core.Consensus.Types.{QuorumCertificate, BlockHeader, Block, Validator, ValidatorSet}

pub record QcFits (qc : QuorumCertificate) : Type 0 where
  pub block_height_fits : qc.block_height < u64_mod
  pub block_hash_fits : qc.block_hash < 256 ^ 32
  pub view_number_fits : qc.view_number < u64_mod
  pub signature_fits : qc.aggregated_signature < 256 ^ 96
  pub count_fits : length qc.signers < u64_mod
  pub signers_fit : All (λ s. s < 256 ^ 32) qc.signers
  pub stake_fits : qc.total_stake_signed < u64_mod

pub record HeaderFits (h : BlockHeader) : Type 0 where
  pub height_fits : h.height < u64_mod
  pub timestamp_fits : h.timestamp < u64_mod
  pub previous_hash_fits : h.previous_hash < 256 ^ 32
  pub state_root_fits : h.state_root < 256 ^ 32
  pub transactions_root_fits : h.transactions_root < 256 ^ 32
  pub validator_set_root_fits : h.validator_set_root < 256 ^ 32
  pub proposer_fits : h.proposer < 256 ^ 32
  pub epoch_fits : h.epoch < u64_mod

pub record BlockFits (b : Block) : Type 0 where
  pub header_fits : HeaderFits b.header
  pub count_fits : length b.transactions < u64_mod
  pub transactions_fit : All TransactionFits b.transactions
  pub justify_fits : QcFits b.justify

pub record ValidatorFits (v : Validator) : Type 0 where
  pub id_fits : v.id < 256 ^ 32
  pub consensus_key_fits : v.consensus_key < 256 ^ 48
  pub withdrawal_key_fits : v.withdrawal_key < 256 ^ 32
  pub stake_fits : v.bonded_stake < u64_mod
  pub jailed_fits : v.jailed_until_epoch < u64_mod
  pub downtime_fits : v.consecutive_downtime_epochs < u64_mod
  pub signed_fits : v.blocks_signed_this_epoch < u64_mod
  pub missed_fits : v.blocks_missed_this_epoch < u64_mod

pub record ValidatorSetFits (s : ValidatorSet) : Type 0 where
  pub epoch_fits : s.epoch < u64_mod
  pub stake_fits : s.total_stake < u64_mod
  pub root_fits : s.merkle_root < 256 ^ 32
  pub count_fits : length s.validators < u32_mod
  pub validators_fit : All ValidatorFits s.validators
