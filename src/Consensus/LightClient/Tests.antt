-- ===== src/Consensus/LightClient/Tests.antt =====
-- A light client that follows two headers, to which the theorems on light clients apply.
use sarafu_core.Base.{ℕ, ◌+◌, ◌≡◌, ◌<◌, ◌⊎◌, inl, refl, arith, true, some, [], ◌∷◌, length}
use sarafu_core.Codec.{le_bytes, be_bytes, write_many}
use sarafu_core.Consensus.Types.{BlockHeader, active}
use sarafu_core.Consensus.Codec.{serialize_header, serialize_qc}
use sarafu_core.Consensus.LightClient.{
  LightClientState, HeaderProof, serialize_proof, deserialize_proof, stakes_from,
  calculate_total_stake, has_supermajority, verify_aggregated_signature, verify_header,
  update_epoch,
}
use sarafu_core.Consensus.LightClient.RoundTrip.{deserialize_proof-serialize}
use sarafu_core.Consensus.LightClient.Trust.{
  Call, alone, run, accepted_headers_chain, verify_header_believes_anyone,
}
use sarafu_core.Consensus.Tests.{toy, validator, qc, qc-QcFits, validator-Fits}

abbrev header : ℕ → ℕ → BlockHeader
header height previous = record {
  height = height;
  timestamp = 1000;
  previous_hash = previous;
  state_root = 1;
  transactions_root = 2;
  validator_set_root = 3;
  proposer = 1;
  epoch = 4;
}

abbrev proof : ℕ → ℕ → HeaderProof
proof height previous = record {
  header = header height previous;
  qc = qc;
  validator_set_merkle_proof = 8 ∷ 9 ∷ [];
  signing_validators = validator 1 60 active ∷ validator 2 30 active ∷ [];
  total_validator_set_stake = 100;
}

abbrev trusted : LightClientState
trusted = record {
  current_epoch = 4;
  validator_set_root = 5;
  finalized_height = 10;
  finalized_block_hash = 50;
}

accepted_headers_chain_example :
    (11 < 12) × ((11 + 1 < 12) ⊎ (307 ≡ toy.blake3 (serialize_header (header 11 50))))
unfolding run verify_header has_supermajority calculate_total_stake stakes_from
    verify_aggregated_signature serialize_header update_epoch le_bytes be_bytes
accepted_headers_chain_example =
    accepted_headers_chain toy (record { state = trusted; initialized = true }) (proof 11 50)
      (proof 12 307) (Call.updates 9 1 qc ∷ []) refl refl (omega arith)

verify_header_believes_anyone_example :
    let (c', accepts) =
      verify_header toy
        (record { state = trusted; initialized = true })
        (alone (header 40 0) qc (validator 66 1 active)) in
    (accepts ≡ true) × (c'.state.finalized_height ≡ 40)
unfolding verify_header
verify_header_believes_anyone_example =
    verify_header_believes_anyone toy trusted (header 40 0) qc (validator 66 1 active) refl
      (omega arith) (inl (λ e. absurd (omega (arith, e)))) refl refl

qc_size : length (serialize_qc qc) < 4294967296
unfolding serialize_qc be_bytes le_bytes write_many
qc_size = omega arith

deserialize_proof-serialize_example :
    deserialize_proof (serialize_proof (proof 11 50)) ≡ some (proof 11 50)
deserialize_proof-serialize_example = deserialize_proof-serialize (proof 11 50) (record {
  header_fits = record {
    height_fits = omega arith;
    timestamp_fits = omega arith;
    previous_hash_fits = omega arith;
    state_root_fits = omega arith;
    transactions_root_fits = omega arith;
    validator_set_root_fits = omega arith;
    proposer_fits = omega arith;
    epoch_fits = omega arith;
  };
  qc_fits = qc-QcFits;
  qc_size_fits = qc_size;
  siblings_count_fits = omega arith;
  siblings_fit = (omega arith, (omega arith, tt));
  validators_count_fits = omega arith;
  validators_fit = (
    validator-Fits 1 60 active (omega arith) (omega arith),
    (validator-Fits 2 30 active (omega arith) (omega arith), tt),
  );
  stake_fits = omega arith;
})
