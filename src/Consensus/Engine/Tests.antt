-- ===== src/Consensus/Engine/Tests.antt =====
-- An engine over three validators, to which the theorems on the consensus engine apply.
use sarafu_core.Base.{inl, ◌*◌, ◌≡◌, ◌≤◌, ◌↔◌, refl, true, false, none, some, List, [], ◌∷◌, arith}
use sarafu_core.State.Machine.{new_machine}
use sarafu_core.State.Mempool
use sarafu_core.State.Mempool.{Mempool, new_mempool}
use sarafu_core.Crypto.{Primitives, all_of, bls_aggregate}
use sarafu_core.Consensus.ValidatorSet.Stake.{stake_where}
use sarafu_core.Consensus.Types.{ValidatorSet, active, Block, QuorumCertificate}
use sarafu_core.Consensus.ValidatorSet.{find_validator, is_active, get_active_validators}
use sarafu_core.Consensus.Votes.{
  add_vote, has_supermajority, aggregate_votes, is_active_validator, get_validator_stake,
}
use sarafu_core.Consensus.ValidatorSet.{required_stake}
use sarafu_core.Consensus.Votes.Tally.{empty_aggregator}
use sarafu_core.Consensus.Votes.Quorum.{IsSound, signed_stake}
use sarafu_core.Consensus.Certificate.{
  verify_qc, check_supermajority, verify_signers_in_set, verify_aggregated_signature, signer_keys,
  bls_verify_aggregated,
}
use sarafu_core.Consensus.Engine.{
  Engine, verify_block, on_receive_vote, is_current_leader, get_current_leader, select_leader,
  mark_finalized,
}
use sarafu_core.Consensus.Engine.Accepts.{Extends, verify_block_iff}
use sarafu_core.Consensus.Engine.Finality.{Since, Call, run, run-Since}
use sarafu_core.Consensus.Engine.Votes.{
  on_receive_vote_throws, signatures_for, on_receive_vote_quorum,
}
use sarafu_core.Consensus.Tests.{toy, validator, three, qc, vote, block}

abbrev genesis : Block
genesis = record block {
  header = record block.header { height = 0; proposer = 3 };
  transactions = [];
}

abbrev no_qc : QuorumCertificate
no_qc = record qc { block_height = 0; signers = []; total_stake_signed = 0 }

-- At view 2 the leader is the third of the three.
abbrev engine : Engine
engine = record {
  config = record { max_block_gas = 30000000; max_transactions_per_block = 10000 };
  current_set = three;
  state_machine = new_machine 9;
  vote_aggregator = empty_aggregator three;
  current_view = 2;
  highest_qc = no_qc;
  finalized_height = 0;
  current_height = 0;
  block_store = [];
  height_index = [];
  finalized_blocks = [];
}

engine-Since : Since toy engine engine
engine-Since = record {
  same_set = refl;
  height = refl;
  certified = inl refl;
  final_grows = omega arith;
  grows = omega arith;
  filed = tt;
}

leader_3 : is_current_leader engine 3 ≡ true
unfolding is_current_leader get_current_leader select_leader get_active_validators
leader_3 = refl

active_3 : is_active 3 three.validators ≡ true
unfolding is_active find_validator
active_3 = refl

verify_block_iff_example : (verify_block toy engine block ≡ some true) ↔ Extends toy engine block
verify_block_iff_example = verify_block_iff toy engine block (omega arith)

abbrev limits : Mempool.Config
limits = record { max_transactions_per_account = 2; max_nonce_gap = 10; max_age_seconds = 60 }

abbrev calls : List Call
calls =
    Call.receives_block genesis
    ∷ Call.receives_vote (vote 1)
    ∷ Call.receives_vote (vote 2)
    ∷ Call.changes_view
    ∷ Call.proposes 1 (new_mempool limits) none 1 1800
    ∷ []

run-Since_example : Since toy engine (run toy engine calls)
run-Since_example = run-Since toy engine engine calls engine-Since

-- A set in which the first validator alone has two thirds of the stake.
abbrev two : ValidatorSet
two = record {
  epoch = 2;
  validators = validator 1 80 active ∷ validator 2 20 active ∷ [];
  total_stake = 100;
  merkle_root = 99;
}

abbrev light_engine : Engine
light_engine = record engine { current_set = two; vote_aggregator = empty_aggregator two }

abbrev lone_qc : QuorumCertificate
lone_qc = record qc { aggregated_signature = 1; signers = 1 ∷ []; total_stake_signed = 80 }

lone_vote : (on_receive_vote toy light_engine (vote 1)).1 ≡ some (some lone_qc)
unfolding bls_aggregate on_receive_vote add_vote is_active_validator get_validator_stake
    find_validator aggregate_votes required_stake mark_finalized verify_qc check_supermajority
    verify_signers_in_set verify_aggregated_signature signer_keys bls_verify_aggregated
lone_vote = refl

two-IsSound : IsSound two
unfolding stake_where
two-IsSound = record { distinct = (refl, (refl, tt)); total = refl; room = omega arith }

on_receive_vote_quorum_example :
    (lone_qc.block_hash ≡ 70)
    × (lone_qc.block_height ≡ 7)
    × (two.total_stake * 2 ≤ signed_stake lone_qc two.validators * 3)
on_receive_vote_quorum_example =
    on_receive_vote_quorum toy light_engine (vote 1) lone_qc
      (record { distinct_ids = (refl, (refl, tt)); tallied = tt }) two-IsSound lone_vote

-- No bytes are a signature.
abbrev malformed : Primitives
malformed = record toy { well_formed = λ s. false }

on_receive_vote_throws_example :
    let (a, added) = add_vote light_engine.vote_aggregator (vote 1) in
    ((on_receive_vote malformed light_engine (vote 1)).1 ≡ none) ↔ (
      (added ≡ true)
      × (has_supermajority a 7 70 ≡ true)
      × (all_of (λ s. false) (signatures_for a 7 70) ≡ false))
on_receive_vote_throws_example = on_receive_vote_throws malformed light_engine (vote 1)

lone_vote_throws : (on_receive_vote malformed light_engine (vote 1)).1 ≡ none
unfolding on_receive_vote add_vote is_active_validator get_validator_stake find_validator
    aggregate_votes required_stake bls_aggregate
lone_vote_throws = refl
