-- ===== src/Consensus/Checkpoint.antt =====
-- src/consensus/checkpoint_manager.cpp: weak subjectivity checkpoints, which most of the stake signs.
pub mod RoundTrip
pub mod Signed
mod Tests
use sarafu_core.Base.{
  ℕ, ◌+◌, ◌-◌, ◌%◌, Bool, true, false, not, Option, none, some, List, [], ◌∷◌, ◌++◌, ◌==◌, ltb, leb,
  ◌&&◌, if◌then◌else◌, length,
}
use sarafu_core.Base.Word.{add64}
use sarafu_core.Base.Map.{Map}
use sarafu_core.Codec.{
  Decoder, pure, ◌>>=◌, result, le_bytes, be_bytes, read_le, read_be, read_many, write_many,
}
use sarafu_core.Crypto.{Primitives, bls_aggregate}
use sarafu_core.State.Types.{Hash}
use sarafu_core.Consensus.Types.{Block, Validator, ValidatorId, ValidatorSet}
use sarafu_core.Consensus.ValidatorSet.{find_validator, required_stake}
use sarafu_core.Consensus.Codec.{block_hash}
use sarafu_core.Consensus.Certificate.{bls_verify_aggregated}

pub record Checkpoint : Type 0 where
  pub block_height : ℕ
  pub block_hash : Hash
  pub epoch : ℕ
  pub timestamp : ℕ
  pub state_root : Hash
  pub validator_set_root : Hash
  pub aggregated_signature : ℕ
  pub signers : List ValidatorId
  pub total_stake_signed : ℕ

pub record Config : Type 0 where
  pub checkpoint_interval : ℕ
  pub max_checkpoint_age : ℕ

-- The fields that `hash` and `serialize` both write first.
unfoldable pub serialize_contents : Checkpoint → List ℕ
serialize_contents c =
    le_bytes 8 c.block_height
    ++ (be_bytes 32 c.block_hash
        ++ (le_bytes 8 c.epoch
            ++ (le_bytes 8 c.timestamp
                ++ (be_bytes 32 c.state_root ++ be_bytes 32 c.validator_set_root))))

unfoldable pub checkpoint_hash : Primitives → Checkpoint → Hash
checkpoint_hash p c = p.blake3 (serialize_contents c)

unfoldable pub serialize_checkpoint : Checkpoint → List ℕ
serialize_checkpoint c =
    serialize_contents c
    ++ (be_bytes 96 c.aggregated_signature
        ++ (le_bytes 8 (length c.signers)
            ++ (write_many (be_bytes 32) c.signers ++ le_bytes 8 c.total_stake_signed)))

decode_checkpoint : Decoder Checkpoint
decode_checkpoint = do
  block_height ← read_le 8
  block_hash ← read_be 32
  epoch ← read_le 8
  timestamp ← read_le 8
  state_root ← read_be 32
  validator_set_root ← read_be 32
  aggregated_signature ← read_be 96
  signers_count ← read_le 8
  signers ← read_many signers_count (read_be 32)
  total_stake_signed ← read_le 8
  pure (record {
    block_height = block_height;
    block_hash = block_hash;
    epoch = epoch;
    timestamp = timestamp;
    state_root = state_root;
    validator_set_root = validator_set_root;
    aggregated_signature = aggregated_signature;
    signers = signers;
    total_stake_signed = total_stake_signed;
  })

unfoldable pub deserialize_checkpoint : List ℕ → Option Checkpoint
unfolding decode_checkpoint
deserialize_checkpoint bs = if ltb (length bs) 232 then none else result (decode_checkpoint bs)

unfoldable pub should_produce_checkpoint : Config → ℕ → Bool
should_produce_checkpoint config block_height =
    ltb 0 block_height && block_height % config.checkpoint_interval == 0

unfoldable pub produce_checkpoint : Primitives → Block → Checkpoint
produce_checkpoint p b = record {
  block_height = b.header.height;
  block_hash = block_hash p b;
  epoch = b.header.epoch;
  timestamp = b.header.timestamp;
  state_root = b.header.state_root;
  validator_set_root = b.header.validator_set_root;
  aggregated_signature = 0;
  signers = [];
  total_stake_signed = 0;
}

-- `sign` is BLS12_381::sign.
unfoldable pub sign_checkpoint : Primitives → (List ℕ → ℕ → ℕ) → Checkpoint → ℕ → ℕ
sign_checkpoint p sign c private_key = sign (be_bytes 32 (checkpoint_hash p c)) private_key

-- The loop over the signatures, in the order of the ids: those of the set's validators, the signers, and
-- their stake.
unfoldable pub collect_signatures : ℕ → Map ℕ → List Validator → List ℕ × List ValidatorId × ℕ
collect_signatures total [] vs = ([], [], total)
collect_signatures total ((id, signature) ∷ rest) vs = elim (find_validator id vs) [
  | none ↦ collect_signatures total rest vs
  | some v ↦
      let (sig_list, signer_list, stake) =
        collect_signatures (add64 total v.bonded_stake) rest vs in
      (signature ∷ sig_list, id ∷ signer_list, stake)
]

pub data Aggregation : Type 0 where
  throws too_little_stake : Aggregation
  signed : Checkpoint → Aggregation

abbrev pub with_signature : Checkpoint → List ValidatorId → ℕ → Option ℕ → Aggregation
with_signature c signer_list stake none = throws
with_signature c signer_list stake (some aggregated) = signed (record c {
  aggregated_signature = aggregated;
  signers = signer_list;
  total_stake_signed = stake;
})

unfoldable pub aggregate_signatures : Primitives → Checkpoint → Map ℕ → ValidatorSet → Aggregation
aggregate_signatures p c signatures vs =
    let (sig_list, signer_list, total_stake) = collect_signatures 0 signatures vs.validators in
    if ltb total_stake (required_stake vs.total_stake)
    then too_little_stake
    else with_signature c signer_list total_stake (bls_aggregate p sig_list)

-- The keys of the signers and their stake, where all are in the set.
unfoldable pub collect_keys : ℕ → List ValidatorId → List Validator → Option (List ℕ × ℕ)
collect_keys total [] vs = some ([], total)
collect_keys total (id ∷ ids) vs = elim (find_validator id vs) [
  | none ↦ none
  | some v ↦ elim (collect_keys (add64 total v.bonded_stake) ids vs) [
    | none ↦ none
    | some (keys, stake) ↦ some (v.consensus_key ∷ keys, stake)
  ]
]

-- `none` is the exception for an empty list of keys.
unfoldable pub verify_checkpoint : Primitives → Checkpoint → ValidatorSet → Option Bool
verify_checkpoint p c vs =
    if ltb c.total_stake_signed (required_stake vs.total_stake)
    then some false
    else elim (collect_keys 0 c.signers vs.validators) [
      | none ↦ some false
      | some (keys, verified_stake) ↦
          if not (verified_stake == c.total_stake_signed)
          then some false
          else bls_verify_aggregated p c.aggregated_signature (be_bytes 32 (checkpoint_hash p c))
              keys
    ]

unfoldable pub check_checkpoint_age : Config → ℕ → ℕ → Bool
check_checkpoint_age config checkpoint_height current_height =
    if ltb current_height checkpoint_height
    then false
    else ltb (current_height - checkpoint_height) config.max_checkpoint_age

unfoldable pub verify_chain_includes_checkpoint : Primitives → Checkpoint → Block → Bool
verify_chain_includes_checkpoint p c b =
    if not (b.header.height == c.block_height)
    then false
    else (if not (block_hash p b == c.block_hash)
        then false
        else (if not (b.header.state_root == c.state_root)
            then false
            else (if not (b.header.validator_set_root == c.validator_set_root)
                then false
                else true)))

unfoldable pub reject_chain_without_checkpoint : Primitives → Checkpoint → Block → Bool
reject_chain_without_checkpoint p c b = not (verify_chain_includes_checkpoint p c b)
