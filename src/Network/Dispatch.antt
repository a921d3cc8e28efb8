-- ===== src/Network/Dispatch.antt =====
-- MessageHandlerRegistry of src/network/message_handler.cpp: what it makes of a payload, and of a peer
-- whose payloads are malformed.
pub mod Malformed
use sarafu_core.Base.{ℕ, Bool, true, false, Option, none, some, List, ◌==◌, if◌then◌else◌}
use sarafu_core.State.Types.{Transaction}
use sarafu_core.State.Codec.{deserialize_tx}
use sarafu_core.Consensus.Types.{Block, Vote}
use sarafu_core.Consensus.Codec.{deserialize_block}
use sarafu_core.Network.Messages.{
  BlockRequest, BlockResponse, ValidatorSetUpdate, NetworkMessage, deserialize_vote,
  deserialize_block_request, deserialize_block_response, deserialize_validator_set_update,
}
use sarafu_core.Network.Layer.{NetworkLayer, PeerId, Delta, loss, update_reputation}

pub data Incoming : Type 0 where
  transaction : Transaction → Incoming
  block : Block → Incoming
  vote : Vote → Incoming
  block_request : BlockRequest → Incoming
  block_response : BlockResponse → Incoming
  validator_set_update : ValidatorSetUpdate → Incoming

abbrev pub as_incoming : {A : Type 0} → (A → Incoming) → Option A → Option Incoming
as_incoming f none = none
as_incoming f (some a) = some (f a)

-- By the type of the message, 0 to 5.
unfoldable pub decode_payload : ℕ → List ℕ → Option Incoming
decode_payload msg_type payload =
    if msg_type == 0
    then as_incoming transaction (deserialize_tx payload)
    else (if msg_type == 1
        then as_incoming block (deserialize_block payload)
        else (if msg_type == 2
            then as_incoming vote (deserialize_vote payload)
            else (if msg_type == 3
                then as_incoming block_request (deserialize_block_request payload)
                else (if msg_type == 4
                    then as_incoming block_response (deserialize_block_response payload)
                    else (if msg_type == 5
                        then as_incoming validator_set_update
                            (deserialize_validator_set_update payload)
                        else none)))))

-- The handlers that are registered, for each type, and what a handler does with a message: `false` for an
-- exception.
pub record Handlers : Type 0 where
  pub registered : ℕ → Bool
  pub accepts : Incoming → Bool

-- The six handle functions, by type; what is delivered to a handler, and a loss of ten where the payload
-- or the handler throws. A type for which no handler is registered is ignored.
unfoldable pub handle_typed :
    Handlers → NetworkLayer → NetworkMessage → PeerId → ℕ → NetworkLayer × Option Incoming
handle_typed h n msg sender now =
    if h.registered msg.message_type
    then (elim (decode_payload msg.message_type msg.payload) [
      | none ↦ (update_reputation n sender (loss 10) now, none)
      | some x ↦
          if h.accepts x then (n, some x) else (update_reputation n sender (loss 10) now, some x)
    ])
    else (n, none)
