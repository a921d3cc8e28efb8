-- ===== src/Consensus/Tests.antt =====
-- Certificates, votes and a registry of three validators, to which the theorems on src/consensus apply.
use sarafu_core.Base.{ℕ, ◌+◌, ◌*◌, ◌≡◌, ◌≤◌, ◌<◌, refl, true, some, List, [], ◌∷◌, arith}
use sarafu_core.Base.Word.{u64_mod}
use sarafu_core.Crypto.{Primitives, bls_aggregate}
use sarafu_core.State.Types.{Transaction, TransactionFits}
use sarafu_core.Consensus.Types.{
  Block, QuorumCertificate, Validator, ValidatorSet, Vote, ValidatorStatus, active,
}
use sarafu_core.Consensus.Codec.{serialize_block, deserialize_block}
use sarafu_core.Consensus.Codec.Ranges.{QcFits, ValidatorFits}
use sarafu_core.Consensus.Codec.RoundTrip.{deserialize_block-serialize}
use sarafu_core.Consensus.ValidatorSet.{find_validator, required_stake}
use sarafu_core.Consensus.ValidatorSet.Stake.{stake_where}
use sarafu_core.Consensus.Votes.{
  VoteAggregator, aggregate_votes, add_vote, is_active_validator, get_validator_stake,
}
use sarafu_core.Consensus.Votes.Tally.{IsTallied, run-IsTallied, run, empty_aggregator, Call}
use sarafu_core.Consensus.Votes.Quorum.{IsSound, common_stake, aggregate_votes_overlap}
use sarafu_core.Consensus.Certificate.{verify_qc, calculate_signer_stake}
use sarafu_core.Consensus.Certificate.Forged.{verify_qc_one_signer}

abbrev sum_bytes : List ℕ → ℕ
sum_bytes [] = 0
sum_bytes (b ∷ bs) = b + sum_bytes bs

-- A hash that adds bytes up, and signatures that always verify.
abbrev pub toy : Primitives
toy = record {
  blake3 = sum_bytes;
  verify = λ _ _ _. true;
  aggregate = sum_bytes;
  well_formed = λ _. true;
  verify_aggregated = λ _ _ _. true;
}

abbrev pub validator : ℕ → ℕ → ValidatorStatus → Validator
validator id stake status = record {
  id = id;
  consensus_key = 100 + id;
  withdrawal_key = 200 + id;
  bonded_stake = stake;
  status = status;
  jailed_until_epoch = 0;
  consecutive_downtime_epochs = 0;
  blocks_signed_this_epoch = 8;
  blocks_missed_this_epoch = 2;
}

abbrev pub three : ValidatorSet
three = record {
  epoch = 2;
  validators = validator 1 60 active ∷ validator 2 30 active ∷ validator 3 10 active ∷ [];
  total_stake = 100;
  merkle_root = 99;
}

abbrev pub qc : QuorumCertificate
qc = record {
  block_height = 7;
  block_hash = 70;
  view_number = 3;
  aggregated_signature = 12;
  signers = 1 ∷ 2 ∷ [];
  total_stake_signed = 90;
}

abbrev pub payment : Transaction
payment = record {
  from = 1;
  to = 2;
  amount = 100;
  nonce = 4;
  fee = 30;
  gas_limit = 5;
  chain_id = 9;
  signature = 3;
}

abbrev pub block : Block
block = record {
  header = record {
    height = 8;
    timestamp = 1700;
    previous_hash = 70;
    state_root = 12;
    transactions_root = 13;
    validator_set_root = 14;
    proposer = 3;
    epoch = 2;
  };
  transactions = payment ∷ record payment { nonce = 5 } ∷ [];
  justify = qc;
}

pub qc-QcFits : QcFits qc
qc-QcFits = record {
  block_height_fits = omega arith;
  block_hash_fits = omega arith;
  view_number_fits = omega arith;
  signature_fits = omega arith;
  count_fits = omega arith;
  signers_fit = (omega arith, (omega arith, tt));
  stake_fits = omega arith;
}

payment-Fits : (n : ℕ) → n < u64_mod → TransactionFits (record payment { nonce = n })
payment-Fits n h = record {
  from_fits = omega arith;
  to_fits = omega arith;
  amount_fits = omega arith;
  nonce_fits = h;
  fee_fits = omega arith;
  gas_limit_fits = omega arith;
  chain_id_fits = omega arith;
  signature_fits = omega arith;
}

deserialize_block-serialize_example : deserialize_block (serialize_block block) ≡ some block
deserialize_block-serialize_example = deserialize_block-serialize block (record {
  header_fits = record {
    height_fits = omega arith;
    timestamp_fits = omega arith;
    previous_hash_fits = omega arith;
    state_root_fits = omega arith;
    transactions_root_fits = omega arith;
    validator_set_root_fits = omega arith;
    proposer_fits = omega arith;
    epoch_fits = omega arith;
  };
  count_fits = omega arith;
  transactions_fit = (payment-Fits 4 (omega arith), (payment-Fits 5 (omega arith), tt));
  justify_fits = qc-QcFits;
})

pub validator-Fits :
    (id stake : ℕ) (status : ValidatorStatus)
    → id < 1000
    → stake < u64_mod
    → ValidatorFits (validator id stake status)
validator-Fits id stake status h k = record {
  id_fits = omega arith;
  consensus_key_fits = omega arith;
  withdrawal_key_fits = omega arith;
  stake_fits = k;
  jailed_fits = omega arith;
  downtime_fits = omega arith;
  signed_fits = omega arith;
  missed_fits = omega arith;
}

abbrev pub vote : ℕ → Vote
vote id = record {
  validator_id = id;
  block_height = 7;
  block_hash = 70;
  view_number = 3;
  signature = id;
}

abbrev votes : List Call
votes =
    Call.adds (vote 1)
    ∷ Call.adds (vote 1)
    ∷ Call.adds (vote 4)
    ∷ Call.adds (vote 2)
    ∷ Call.clears 5
    ∷ []

pub empty-IsTallied : IsTallied (empty_aggregator three)
empty-IsTallied = record { distinct_ids = (refl, (refl, (refl, tt))); tallied = tt }

run-IsTallied_example :
    ((run (empty_aggregator three) votes).validator_set ≡ three)
    × IsTallied (run (empty_aggregator three) votes)
run-IsTallied_example = run-IsTallied (empty_aggregator three) votes empty-IsTallied

abbrev voted : VoteAggregator
voted = run (empty_aggregator three) (Call.adds (vote 1) ∷ Call.adds (vote 2) ∷ [])

abbrev voted_qc : QuorumCertificate
voted_qc = record qc { aggregated_signature = 3 }

voted-IsTallied : IsTallied voted
voted-IsTallied =
    (run-IsTallied (empty_aggregator three) (Call.adds (vote 1) ∷ Call.adds (vote 2) ∷ [])
      empty-IsTallied).1

pub three-IsSound : IsSound three
unfolding stake_where
three-IsSound = record { distinct = (refl, (refl, (refl, tt))); total = refl; room = omega arith }

voted-qc : aggregate_votes toy voted 7 70 3 ≡ some (some voted_qc)
unfolding bls_aggregate aggregate_votes run add_vote is_active_validator get_validator_stake
    find_validator required_stake
voted-qc = refl

voted-set : voted.validator_set ≡ three
unfolding run add_vote is_active_validator get_validator_stake find_validator
voted-set = refl

aggregate_votes_overlap_example :
    voted.validator_set.total_stake
    ≤ common_stake voted_qc voted_qc voted.validator_set.validators * 3
unfolding run add_vote is_active_validator get_validator_stake find_validator
aggregate_votes_overlap_example =
    aggregate_votes_overlap toy voted voted 7 7 70 70 3 3 voted_qc voted_qc voted-IsTallied
      voted-IsTallied three-IsSound refl voted-qc voted-qc

-- Validator 3, with a tenth of the stake, signs alone.
abbrev forged : QuorumCertificate
forged = record qc { signers = 3 ∷ []; total_stake_signed = 67 }

verify_qc_one_signer_example :
    (verify_qc toy forged three ≡ some true) × (calculate_signer_stake forged three ≡ 10)
unfolding find_validator required_stake
verify_qc_one_signer_example =
    verify_qc_one_signer toy three (validator 3 10 active) forged refl refl refl refl

abbrev unsigned : QuorumCertificate
unsigned = record qc { signers = [] }
