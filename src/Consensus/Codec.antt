-- ===== src/Consensus/Codec.antt =====
-- serialize, deserialize and hash of src/consensus/block.cpp and src/consensus/validator.cpp.
pub mod Ranges
pub mod RoundTrip
pub mod Validators
use sarafu_core.Base.{
  ℕ, ◌+◌, ◌*◌, Bool, true, false, Option, none, some, List, [], ◌∷◌, ◌++◌, ◌==◌, ltb, if◌then◌else◌,
  length,
}
use sarafu_core.Codec.{
  Decoder, pure, ◌>>=◌, result, le_bytes, be_bytes, read_bytes, read_le, read_be, read_byte,
  read_many, write_many,
}
use sarafu_core.Crypto.{Primitives}
use sarafu_core.State.Types.{Hash, Transaction}
use sarafu_core.State.Codec.{serialize_tx, deserialize_tx}
use sarafu_core.Consensus.Types.{
  QuorumCertificate, BlockHeader, Block, Validator, ValidatorSet, ValidatorStatus, active, standby,
  jailed, tombstoned,
}

unfoldable pub serialize_qc : QuorumCertificate → List ℕ
serialize_qc qc =
    le_bytes 8 qc.block_height
    ++ (be_bytes 32 qc.block_hash
        ++ (le_bytes 8 qc.view_number
            ++ (be_bytes 96 qc.aggregated_signature
                ++ (le_bytes 8 (length qc.signers)
                    ++ (write_many (be_bytes 32) qc.signers ++ le_bytes 8 qc.total_stake_signed)))))

decode_qc : Decoder QuorumCertificate
decode_qc = do
  block_height ← read_le 8
  block_hash ← read_be 32
  view_number ← read_le 8
  aggregated_signature ← read_be 96
  signers_count ← read_le 8
  signers ← read_many signers_count (read_be 32)
  total_stake_signed ← read_le 8
  pure (record {
    block_height = block_height;
    block_hash = block_hash;
    view_number = view_number;
    aggregated_signature = aggregated_signature;
    signers = signers;
    total_stake_signed = total_stake_signed;
  })

unfoldable pub deserialize_qc : List ℕ → Option QuorumCertificate
unfolding decode_qc
deserialize_qc bs = if ltb (length bs) 160 then none else result (decode_qc bs)

unfoldable pub serialize_header : BlockHeader → List ℕ
serialize_header h =
    le_bytes 8 h.height
    ++ (le_bytes 8 h.timestamp
        ++ (be_bytes 32 h.previous_hash
            ++ (be_bytes 32 h.state_root
                ++ (be_bytes 32 h.transactions_root
                    ++ (be_bytes 32 h.validator_set_root
                        ++ (be_bytes 32 h.proposer ++ le_bytes 8 h.epoch))))))

decode_header : Decoder BlockHeader
decode_header = do
  height ← read_le 8
  timestamp ← read_le 8
  previous_hash ← read_be 32
  state_root ← read_be 32
  transactions_root ← read_be 32
  validator_set_root ← read_be 32
  proposer ← read_be 32
  epoch ← read_le 8
  pure (record {
    height = height;
    timestamp = timestamp;
    previous_hash = previous_hash;
    state_root = state_root;
    transactions_root = transactions_root;
    validator_set_root = validator_set_root;
    proposer = proposer;
    epoch = epoch;
  })

unfoldable pub deserialize_header : List ℕ → Option BlockHeader
unfolding decode_header
deserialize_header bs = if ltb (length bs) 184 then none else result (decode_header bs)

-- `Block::hash` is the hash of its header.
unfoldable pub block_hash : Primitives → Block → Hash
block_hash p b = p.blake3 (serialize_header b.header)

abbrev pub sized_tx : Transaction → List ℕ
sized_tx tx = le_bytes 8 (length (serialize_tx tx)) ++ serialize_tx tx

unfoldable pub serialize_block : Block → List ℕ
serialize_block b =
    serialize_header b.header
    ++ (le_bytes 8 (length b.transactions)
        ++ (write_many sized_tx b.transactions ++ serialize_qc b.justify))

-- A decoding step that another `deserialize` makes of the bytes cut out for it.
abbrev pub or_throw : {A : Type 0} → Option A → Decoder A
or_throw none rest = none
or_throw (some a) rest = some (a, rest)

pub decode_sized_tx : Decoder Transaction
decode_sized_tx = do
  tx_size ← read_le 8
  tx_bytes ← read_bytes tx_size
  or_throw (deserialize_tx tx_bytes)

unfoldable pub read_rest : Decoder (List ℕ)
read_rest rest = some (rest, [])

decode_block : Decoder Block
decode_block = do
  header_bytes ← read_bytes 184
  header ← or_throw (deserialize_header header_bytes)
  tx_count ← read_le 8
  transactions ← read_many tx_count decode_sized_tx
  qc_bytes ← read_rest
  justify ← or_throw (deserialize_qc qc_bytes)
  pure (record { header = header; transactions = transactions; justify = justify })

unfoldable pub deserialize_block : List ℕ → Option Block
unfolding decode_block
deserialize_block bs = if ltb (length bs) 192 then none else result (decode_block bs)

abbrev pub status_byte : ValidatorStatus → ℕ
status_byte active = 0
status_byte standby = 1
status_byte jailed = 2
status_byte tombstoned = 3

-- `static_cast<ValidatorStatus>`, behind the test `> 3`.
abbrev pub status_of_byte : ℕ → Option ValidatorStatus
status_of_byte b =
    if b == 0
    then some active
    else (if b == 1
        then some standby
        else (if b == 2 then some jailed else (if b == 3 then some tombstoned else none)))

unfoldable pub serialize_validator : Validator → List ℕ
serialize_validator v =
    be_bytes 32 v.id
    ++ (be_bytes 48 v.consensus_key
        ++ (be_bytes 32 v.withdrawal_key
            ++ (le_bytes 8 v.bonded_stake
                ++ (status_byte v.status
                    ∷ (le_bytes 8 v.jailed_until_epoch
                        ++ (le_bytes 8 v.consecutive_downtime_epochs
                            ++ (le_bytes 8 v.blocks_signed_this_epoch
                                ++ le_bytes 8 v.blocks_missed_this_epoch)))))))

decode_validator : Decoder Validator
decode_validator = do
  id ← read_be 32
  consensus_key ← read_be 48
  withdrawal_key ← read_be 32
  bonded_stake ← read_le 8
  status_value ← read_byte
  status ← or_throw (status_of_byte status_value)
  jailed_until_epoch ← read_le 8
  consecutive_downtime_epochs ← read_le 8
  blocks_signed_this_epoch ← read_le 8
  blocks_missed_this_epoch ← read_le 8
  pure (record {
    id = id;
    consensus_key = consensus_key;
    withdrawal_key = withdrawal_key;
    bonded_stake = bonded_stake;
    status = status;
    jailed_until_epoch = jailed_until_epoch;
    consecutive_downtime_epochs = consecutive_downtime_epochs;
    blocks_signed_this_epoch = blocks_signed_this_epoch;
    blocks_missed_this_epoch = blocks_missed_this_epoch;
  })

unfoldable pub deserialize_validator : List ℕ → Option Validator
unfolding decode_validator
deserialize_validator bs = if ltb (length bs) 153 then none else result (decode_validator bs)

unfoldable pub validator_hash : Primitives → Validator → Hash
validator_hash p v = p.blake3 (serialize_validator v)

-- The number of validators is cast to uint32_t.
unfoldable pub serialize_validator_set : ValidatorSet → List ℕ
serialize_validator_set s =
    le_bytes 8 s.epoch
    ++ (le_bytes 8 s.total_stake
        ++ (be_bytes 32 s.merkle_root
            ++ (le_bytes 4 (length s.validators) ++ write_many serialize_validator s.validators)))

pub decode_cut_validator : Decoder Validator
decode_cut_validator = do
  validator_bytes ← read_bytes 153
  or_throw (deserialize_validator validator_bytes)

decode_validator_set : Decoder ValidatorSet
decode_validator_set = do
  epoch ← read_le 8
  total_stake ← read_le 8
  merkle_root ← read_be 32
  num_validators ← read_le 4
  validators ← read_many num_validators decode_cut_validator
  pure (record {
    epoch = epoch;
    validators = validators;
    total_stake = total_stake;
    merkle_root = merkle_root;
  })

unfoldable pub deserialize_validator_set : List ℕ → Option ValidatorSet
unfolding decode_validator_set
deserialize_validator_set bs = if ltb (length bs) 52 then none else result (decode_validator_set bs)
