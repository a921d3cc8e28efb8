-- ===== src/Consensus/LightClient.antt =====
-- src/consensus/light_client.cpp. Where `HeaderProof::deserialize` reads past the end of its data, which
-- has no defined meaning, the model throws.
pub mod RoundTrip
pub mod Trust
mod Tests
use sarafu_core.Base.{
  ℕ, ◌+◌, ◌*◌, Bool, true, false, not, Option, none, some, List, [], ◌∷◌, ◌++◌, map, ◌==◌, ltb, leb,
  ◌&&◌, if◌then◌else◌, length,
}
use sarafu_core.Base.Word.{add64, mul64}
use sarafu_core.Codec.{
  Decoder, pure, ◌>>=◌, result, le_bytes, be_bytes, read_bytes, read_le, read_be, read_many,
  write_many,
}
use sarafu_core.Crypto.{Primitives, hash_pair}
use sarafu_core.Crypto.Merkle.{verify_proof}
use sarafu_core.State.Types.{Hash}
use sarafu_core.Consensus.Types.{BlockHeader, QuorumCertificate, Validator}
use sarafu_core.Consensus.Codec.{
  serialize_header, deserialize_header, serialize_qc, deserialize_qc, serialize_validator,
  decode_cut_validator, validator_hash, or_throw,
}

pub record LightClientState : Type 0 where
  pub current_epoch : ℕ
  pub validator_set_root : Hash
  pub finalized_height : ℕ
  pub finalized_block_hash : Hash

pub record HeaderProof : Type 0 where
  pub header : BlockHeader
  pub qc : QuorumCertificate
  pub validator_set_merkle_proof : List Hash
  pub signing_validators : List Validator
  pub total_validator_set_stake : ℕ

pub record LightClient : Type 0 where
  pub state : LightClientState
  pub initialized : Bool

unfoldable pub new_light_client : LightClient
new_light_client = record {
  state = record {
    current_epoch = 0;
    validator_set_root = 0;
    finalized_height = 0;
    finalized_block_hash = 0;
  };
  initialized = false;
}

unfoldable pub serialize_state : LightClientState → List ℕ
serialize_state s =
    le_bytes 8 s.current_epoch
    ++ (be_bytes 32 s.validator_set_root
        ++ (le_bytes 8 s.finalized_height ++ be_bytes 32 s.finalized_block_hash))

decode_state : Decoder LightClientState
decode_state = do
  current_epoch ← read_le 8
  validator_set_root ← read_be 32
  finalized_height ← read_le 8
  finalized_block_hash ← read_be 32
  pure (record {
    current_epoch = current_epoch;
    validator_set_root = validator_set_root;
    finalized_height = finalized_height;
    finalized_block_hash = finalized_block_hash;
  })

unfoldable pub deserialize_state : List ℕ → Option LightClientState
unfolding decode_state
deserialize_state bs = if ltb (length bs) 80 then none else result (decode_state bs)

-- Sizes and counts are cast to uint32_t.
unfoldable pub serialize_proof : HeaderProof → List ℕ
serialize_proof p =
    le_bytes 4 (length (serialize_header p.header))
    ++ (serialize_header p.header
        ++ (le_bytes 4 (length (serialize_qc p.qc))
            ++ (serialize_qc p.qc
                ++ (le_bytes 4 (length p.validator_set_merkle_proof)
                    ++ (write_many (be_bytes 32) p.validator_set_merkle_proof
                        ++ (le_bytes 4 (length p.signing_validators)
                            ++ (write_many serialize_validator p.signing_validators
                                ++ le_bytes 8 p.total_validator_set_stake)))))))

decode_proof : Decoder HeaderProof
decode_proof = do
  header_size ← read_le 4
  header_data ← read_bytes header_size
  header ← or_throw (deserialize_header header_data)
  qc_size ← read_le 4
  qc_data ← read_bytes qc_size
  qc ← or_throw (deserialize_qc qc_data)
  proof_count ← read_le 4
  merkle_proof ← read_many proof_count (read_be 32)
  validator_count ← read_le 4
  signers ← read_many validator_count decode_cut_validator
  total_stake ← read_le 8
  pure (record {
    header = header;
    qc = qc;
    validator_set_merkle_proof = merkle_proof;
    signing_validators = signers;
    total_validator_set_stake = total_stake;
  })

unfoldable pub deserialize_proof : List ℕ → Option HeaderProof
unfolding decode_proof
deserialize_proof bs = if ltb (length bs) 16 then none else result (decode_proof bs)

unfoldable pub validators_size : List Validator → ℕ
validators_size [] = 0
validators_size (v ∷ vs) = length (serialize_validator v) + validators_size vs

-- The sizes are those of lists in memory, far below 2^64.
unfoldable pub size_bytes : HeaderProof → ℕ
size_bytes p =
    length (serialize_header p.header)
    + length (serialize_qc p.qc)
    + length p.validator_set_merkle_proof * 32
    + validators_size p.signing_validators
    + 16

unfoldable pub initialize : LightClient → LightClientState → LightClient × Bool
initialize c checkpoint =
    if c.initialized then (c, false) else (record { state = checkpoint; initialized = true }, true)

unfoldable pub stakes_from : ℕ → List Validator → ℕ
stakes_from total [] = total
stakes_from total (v ∷ vs) = stakes_from (add64 total v.bonded_stake) vs

unfoldable pub calculate_total_stake : List Validator → ℕ
calculate_total_stake vs = stakes_from 0 vs

unfoldable pub has_supermajority : List Validator → ℕ → Bool
has_supermajority signers total_stake =
    if total_stake == 0
    then false
    else leb (mul64 2 total_stake) (mul64 3 (calculate_total_stake signers))

module _ (p : Primitives) where
  unfoldable pub verify_aggregated_signature : ℕ → Hash → List ℕ → Bool
  verify_aggregated_signature signature message [] = false
  verify_aggregated_signature signature message (k ∷ ks) =
      p.verify_aggregated signature (be_bytes 32 message) (k ∷ ks)

  unfoldable pub verify_merkle_proof : Hash → List Hash → Hash → Bool
  verify_merkle_proof leaf proof root =
      verify_proof (hash_pair p)
        (record { leaf_index = 0; leaf_hash = leaf; sibling_hashes = proof }) root

  -- Step 4 asks `verify_merkle_proof` of every signing validator, and goes on whatever it answers.
  unfoldable pub verify_header : LightClient → HeaderProof → LightClient × Bool
  verify_header c proof =
      if not c.initialized
      then (c, false)
      else (if not (proof.header.epoch == c.state.current_epoch)
          then (c, false)
          else (if leb proof.header.height c.state.finalized_height
              then (c, false)
              else (if proof.header.height == add64 c.state.finalized_height 1
                    && not (proof.header.previous_hash == c.state.finalized_block_hash)
                  then (c, false)
                  else (if not
                        (has_supermajority proof.signing_validators proof.total_validator_set_stake)
                      then (c, false)
                      else (let block_hash = p.blake3 (serialize_header proof.header) in
                          let public_keys =
                            map (λ (v : Validator). v.consensus_key) proof.signing_validators in
                          if not (
                            verify_aggregated_signature proof.qc.aggregated_signature block_hash
                              public_keys)
                          then (c, false)
                          else (
                            record c {
                              state = record c.state {
                                finalized_height = proof.header.height;
                                finalized_block_hash = block_hash;
                              };
                            },
                            true,
                          ))))))

unfoldable pub update_epoch : LightClient → ℕ → Hash → QuorumCertificate → LightClient × Bool
update_epoch c new_epoch new_validator_set_root transition_qc =
    if not c.initialized
    then (c, false)
    else (if not (new_epoch == add64 c.state.current_epoch 1)
        then (c, false)
        else (if transition_qc.total_stake_signed == 0 then (c, false) else (
          record c {
            state = record c.state {
              current_epoch = new_epoch;
              validator_set_root = new_validator_set_root;
            };
          },
          true,
        )))
