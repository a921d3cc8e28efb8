-- ===== src/Consensus/Checkpoint/RoundTrip.antt =====
-- What `deserialize` reads back of a checkpoint.
use sarafu_core.Base.{
  ℕ, ◌^◌, ◌<◌, ◌≤◌, ◌≡◌, ap, subst, some, List, [], ◌++◌, arith, append_assoc, append-nil, length,
  length-append, All,
}
use sarafu_core.Base.Word.{u64_mod}
use sarafu_core.Codec.{
  ◌>>=◌, result, read_le-append, read_be-append, length-le_bytes, length-be_bytes,
}
use sarafu_core.Consensus.Codec.RoundTrip.{not_short, signers_back}
use sarafu_core.Consensus.Checkpoint.{
  Checkpoint, serialize_contents, serialize_checkpoint, decode_checkpoint, deserialize_checkpoint,
}

pub record CheckpointFits (c : Checkpoint) : Type 0 where
  pub height_fits : c.block_height < u64_mod
  pub hash_fits : c.block_hash < 256 ^ 32
  pub epoch_fits : c.epoch < u64_mod
  pub timestamp_fits : c.timestamp < u64_mod
  pub state_root_fits : c.state_root < 256 ^ 32
  pub validator_set_root_fits : c.validator_set_root < 256 ^ 32
  pub signature_fits : c.aggregated_signature < 256 ^ 96
  pub count_fits : length c.signers < u64_mod
  pub signers_fit : All (λ s. s < 256 ^ 32) c.signers
  pub stake_fits : c.total_stake_signed < u64_mod

decode_checkpoint-serialize :
    (c : Checkpoint) (rest : List ℕ)
    → CheckpointFits c
    → decode_checkpoint (serialize_checkpoint c ++ rest) ≡ some (c, rest)
unfolding serialize_contents serialize_checkpoint decode_checkpoint
decode_checkpoint-serialize c rest h = simp (
  append_assoc, ◌>>=◌, read_be-append, read_le-append, signers_back, h.height_fits, h.hash_fits,
  h.epoch_fits, h.timestamp_fits, h.state_root_fits, h.validator_set_root_fits, h.signature_fits,
  h.count_fits, h.signers_fit, h.stake_fits,
)

length-serialize_checkpoint : (c : Checkpoint) → 232 ≤ length (serialize_checkpoint c)
unfolding serialize_contents serialize_checkpoint
length-serialize_checkpoint c = omega (arith, length-append {0}, length-be_bytes, length-le_bytes)

-- A checkpoint whose fields fit their types, signed by however many, is read back from its bytes.
pub deserialize_checkpoint-serialize :
    (c : Checkpoint) → CheckpointFits c → deserialize_checkpoint (serialize_checkpoint c) ≡ some c
unfolding deserialize_checkpoint
deserialize_checkpoint-serialize c h =
    rw (not_short (length (serialize_checkpoint c)) 232 (length-serialize_checkpoint c)) (
      ap result (
        subst (λ bs. decode_checkpoint bs ≡ some (c, [])) (append-nil _)
          (decode_checkpoint-serialize c [] h)))
