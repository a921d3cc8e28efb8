-- ===== src/Network/Messages.antt =====
-- The messages of src/network/message_handler.cpp and NetworkMessage of src/network/network_layer.cpp.
-- network::Vote has the fields of consensus::Vote, which stands for it.
pub mod RoundTrip
use sarafu_core.Base.{
  ℕ, ◌%◌, Bool, true, false, not, Option, none, some, List, [], ◌∷◌, ◌++◌, ◌==◌, ltb, if◌then◌else◌,
  length,
}
use sarafu_core.Codec.{
  Decoder, pure, ◌>>=◌, result, le_bytes, be_bytes, read_bytes, read_be, read_byte, read_many,
  write_many,
}
use sarafu_core.Crypto.{Primitives}
use sarafu_core.State.Types.{Hash}
use sarafu_core.Consensus.Types.{Block, QuorumCertificate, ValidatorId, Vote}
use sarafu_core.Consensus.Codec.{
  serialize_qc, deserialize_qc, serialize_block, deserialize_block, or_throw, read_rest,
}

unfoldable pub serialize_vote : Vote → List ℕ
serialize_vote v =
    be_bytes 8 v.block_height
    ++ (be_bytes 32 v.block_hash
        ++ (be_bytes 8 v.view_number ++ (be_bytes 32 v.validator_id ++ be_bytes 96 v.signature)))

-- The bytes of the signature are read, and a default signature, of zeros, is returned.
decode_vote : Decoder Vote
decode_vote = do
  height ← read_be 8
  hash ← read_be 32
  view ← read_be 8
  validator ← read_be 32
  sig_bytes ← read_bytes 96
  pure (record {
    validator_id = validator;
    block_height = height;
    block_hash = hash;
    view_number = view;
    signature = 0;
  })

unfoldable pub deserialize_vote : List ℕ → Option Vote
unfolding decode_vote
deserialize_vote bs = if ltb (length bs) 176 then none else result (decode_vote bs)

-- The type is an enumeration of two, cast to and from a byte: 0 by height, 1 by hash.
pub record BlockRequest : Type 0 where
  pub request_type : ℕ
  pub height : ℕ
  pub hash : Hash
  pub requester_id : ValidatorId

unfoldable pub by_height : ℕ → ValidatorId → BlockRequest
by_height h requester = record { request_type = 0; height = h; hash = 0; requester_id = requester }

unfoldable pub by_hash : Hash → ValidatorId → BlockRequest
by_hash hash requester = record {
  request_type = 1;
  height = 0;
  hash = hash;
  requester_id = requester;
}

unfoldable pub serialize_block_request : BlockRequest → List ℕ
serialize_block_request q =
    (q.request_type % 256)
    ∷ (be_bytes 8 q.height ++ (be_bytes 32 q.hash ++ be_bytes 32 q.requester_id))

decode_block_request : Decoder BlockRequest
decode_block_request = do
  req_type ← read_byte
  h ← read_be 8
  req_hash ← read_be 32
  requester ← read_be 32
  pure (record { request_type = req_type; height = h; hash = req_hash; requester_id = requester })

unfoldable pub deserialize_block_request : List ℕ → Option BlockRequest
unfolding decode_block_request
deserialize_block_request bs = if ltb (length bs) 73 then none else result (decode_block_request bs)

-- The error is the bytes of the std::string.
pub record BlockResponse : Type 0 where
  pub block : Block
  pub found : Bool
  pub error : List ℕ

abbrev pub default_block : Block
default_block = record {
  header = record {
    height = 0;
    timestamp = 0;
    previous_hash = 0;
    state_root = 0;
    transactions_root = 0;
    validator_set_root = 0;
    proposer = 0;
    epoch = 0;
  };
  transactions = [];
  justify = record {
    block_height = 0;
    block_hash = 0;
    view_number = 0;
    aggregated_signature = 0;
    signers = [];
    total_stake_signed = 0;
  };
}

abbrev pub flag : Bool → ℕ
flag true = 1
flag false = 0

unfoldable pub serialize_block_response : BlockResponse → List ℕ
serialize_block_response r =
    flag r.found
    ∷ (be_bytes 4 (length r.error)
        ++ (r.error ++ (if r.found then serialize_block r.block else [])))

decode_block_response : Decoder BlockResponse
decode_block_response = do
  found_byte ← read_byte
  error_len ← read_be 4
  err ← read_bytes error_len
  block_bytes ← read_rest
  blk ← or_throw (if found_byte == 0 then some default_block else deserialize_block block_bytes)
  pure (record { block = blk; found = not (found_byte == 0); error = err })

unfoldable pub deserialize_block_response : List ℕ → Option BlockResponse
unfolding decode_block_response
deserialize_block_response bs =
    if ltb (length bs) 5 then none else result (decode_block_response bs)

pub record ValidatorInfo : Type 0 where
  pub validator_id : ValidatorId
  pub consensus_key : ℕ
  pub bonded_stake : ℕ
  pub is_active : Bool

unfoldable pub serialize_validator_info : ValidatorInfo → List ℕ
serialize_validator_info v =
    be_bytes 32 v.validator_id
    ++ (be_bytes 48 v.consensus_key ++ (be_bytes 8 v.bonded_stake ++ flag v.is_active ∷ []))

decode_validator_info : Decoder ValidatorInfo
decode_validator_info = do
  id ← read_be 32
  key ← read_be 48
  stake ← read_be 8
  active_byte ← read_byte
  pure (record {
    validator_id = id;
    consensus_key = key;
    bonded_stake = stake;
    is_active = not (active_byte == 0);
  })

unfoldable pub deserialize_validator_info : List ℕ → Option ValidatorInfo
unfolding decode_validator_info
deserialize_validator_info bs =
    if ltb (length bs) 89 then none else result (decode_validator_info bs)

pub record ValidatorSetUpdate : Type 0 where
  pub epoch : ℕ
  pub validators : List ValidatorInfo
  pub total_stake : ℕ
  pub validator_set_root : Hash
  pub transition_qc : QuorumCertificate

unfoldable pub serialize_validator_set_update : ValidatorSetUpdate → List ℕ
serialize_validator_set_update u =
    be_bytes 8 u.epoch
    ++ (be_bytes 4 (length u.validators)
        ++ (write_many serialize_validator_info u.validators
            ++ (be_bytes 8 u.total_stake
                ++ (be_bytes 32 u.validator_set_root ++ serialize_qc u.transition_qc))))

pub decode_cut_info : Decoder ValidatorInfo
decode_cut_info = do
  validator_bytes ← read_bytes 89
  or_throw (deserialize_validator_info validator_bytes)

decode_validator_set_update : Decoder ValidatorSetUpdate
decode_validator_set_update = do
  ep ← read_be 8
  validator_count ← read_be 4
  vals ← read_many validator_count decode_cut_info
  stake ← read_be 8
  root ← read_be 32
  qc_bytes ← read_rest
  qc ← or_throw (deserialize_qc qc_bytes)
  pure (record {
    epoch = ep;
    validators = vals;
    total_stake = stake;
    validator_set_root = root;
    transition_qc = qc;
  })

unfoldable pub deserialize_validator_set_update : List ℕ → Option ValidatorSetUpdate
unfolding decode_validator_set_update
deserialize_validator_set_update bs =
    if ltb (length bs) 12 then none else result (decode_validator_set_update bs)

-- The type is a byte that no one checks against the six types there are.
pub record NetworkMessage : Type 0 where
  pub message_type : ℕ
  pub payload : List ℕ
  pub hash : Hash

unfoldable pub serialize_message : NetworkMessage → List ℕ
serialize_message m =
    m.message_type ∷ (be_bytes 4 (length m.payload) ++ (m.payload ++ be_bytes 32 m.hash))

module _ (p : Primitives) where
  unfoldable pub new_message : ℕ → List ℕ → NetworkMessage
  new_message msg_type payload = record {
    message_type = msg_type;
    payload = payload;
    hash = p.blake3 payload;
  }

  decode_message : Decoder NetworkMessage
  decode_message = do
    msg_type ← read_byte
    payload_len ← read_be 4
    payload ← read_bytes payload_len
    msg_hash ← read_be 32
    or_throw (if p.blake3 payload == msg_hash then some (new_message msg_type payload) else none)

  unfoldable pub deserialize_message : List ℕ → Option NetworkMessage
  unfolding decode_message
  deserialize_message bs = if ltb (length bs) 37 then none else result (decode_message bs)
