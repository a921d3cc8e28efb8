-- ===== src/Consensus/Types.antt =====
-- The data of include/sarafu/consensus/block.h, validator.h, slashing_detector.h and,
-- of genesis_builder.h, the allocations that the state machine reads.
use sarafu_core.Base.{ℕ, List, Option}
use sarafu_core.State.Types.{Address, Hash, Transaction}

abbrev pub ValidatorId : Type 0
ValidatorId = Address

pub record QuorumCertificate : Type 0 where
  pub block_height : ℕ
  pub block_hash : Hash
  pub view_number : ℕ
  pub aggregated_signature : ℕ
  pub signers : List ValidatorId
  pub total_stake_signed : ℕ

pub record BlockHeader : Type 0 where
  pub height : ℕ
  pub timestamp : ℕ
  pub previous_hash : Hash
  pub state_root : Hash
  pub transactions_root : Hash
  pub validator_set_root : Hash
  pub proposer : ValidatorId
  pub epoch : ℕ

pub record Block : Type 0 where
  pub header : BlockHeader
  pub transactions : List Transaction
  pub justify : QuorumCertificate

pub data ValidatorStatus : Type 0 where
  active standby jailed tombstoned : ValidatorStatus

pub record Validator : Type 0 where
  pub id : ValidatorId
  pub consensus_key : ℕ
  pub withdrawal_key : ℕ
  pub bonded_stake : ℕ
  pub status : ValidatorStatus
  pub jailed_until_epoch : ℕ
  pub consecutive_downtime_epochs : ℕ
  pub blocks_signed_this_epoch : ℕ
  pub blocks_missed_this_epoch : ℕ

pub record ValidatorSet : Type 0 where
  pub epoch : ℕ
  pub validators : List Validator
  pub total_stake : ℕ
  pub merkle_root : Hash

pub record Vote : Type 0 where
  pub validator_id : ValidatorId
  pub block_height : ℕ
  pub block_hash : Hash
  pub view_number : ℕ
  pub signature : ℕ

pub record VestingSchedule : Type 0 where
  pub total_amount : ℕ
  pub vested_amount : ℕ
  pub start_timestamp : ℕ
  pub duration_seconds : ℕ

-- The category is the bytes of its text.
pub record GenesisAllocation : Type 0 where
  pub address : Address
  pub amount : ℕ
  pub category : List ℕ
  pub vesting_schedule : Option VestingSchedule
