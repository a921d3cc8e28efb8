-- ===== src/Network/Messages/RoundTrip.antt =====
-- What `deserialize` reads back of the network's messages.
use sarafu_core.Base.{
  ℕ, ◌%◌, ◌^◌, ◌<◌, ◌≤◌, ◌≡◌, refl, ap, subst, ◌∙◌, Bool, true, false, not, some, List, [], ◌∷◌,
  ◌++◌, arith, append_assoc, append-nil, length, length-append, All, ◌==◌,
}
use sarafu_core.Base.Word.{u64_mod, u32_mod}
use sarafu_core.Codec.{
  ◌>>=◌, result, be_bytes, read_byte, read_byte-cons, read_be-append, read_bytes-append,
  length-be_bytes, read_many, read_many-append, write_many,
}
use sarafu_core.Crypto.{Primitives}
use sarafu_core.Consensus.Types.{Vote, Block}
use sarafu_core.Consensus.Codec.{serialize_block, or_throw, read_rest}
use sarafu_core.Consensus.Codec.Ranges.{BlockFits, QcFits}
use sarafu_core.Consensus.Codec.RoundTrip.{
  not_short, deserialize_block-serialize, deserialize_qc-serialize,
}
use sarafu_core.Network.Messages.{
  BlockRequest, BlockResponse, ValidatorInfo, ValidatorSetUpdate, NetworkMessage, serialize_vote,
  decode_vote, deserialize_vote, serialize_block_request, decode_block_request,
  deserialize_block_request, serialize_block_response, decode_block_response,
  deserialize_block_response, default_block, flag, serialize_validator_info, decode_validator_info,
  deserialize_validator_info, serialize_validator_set_update, decode_cut_info,
  decode_validator_set_update, deserialize_validator_set_update, new_message, serialize_message,
  decode_message, deserialize_message,
}

pub record VoteFits (v : Vote) : Type 0 where
  pub height_fits : v.block_height < u64_mod
  pub hash_fits : v.block_hash < 256 ^ 32
  pub view_fits : v.view_number < u64_mod
  pub id_fits : v.validator_id < 256 ^ 32
  pub signature_fits : v.signature < 256 ^ 96

decode_vote-serialize :
    (v : Vote) (rest : List ℕ)
    → VoteFits v
    → decode_vote (serialize_vote v ++ rest) ≡ some (record v { signature = 0 }, rest)
unfolding serialize_vote decode_vote
decode_vote-serialize v rest h = simp (
  append_assoc,
  ◌>>=◌,
  read_be-append,
  read_bytes-append 96 (be_bytes 96 v.signature) rest (length-be_bytes 96 v.signature),
  h.height_fits,
  h.hash_fits,
  h.view_fits,
  h.id_fits,
)

length-serialize_vote : (v : Vote) → length (serialize_vote v) ≡ 176
unfolding serialize_vote
length-serialize_vote v = simp (length-append, length-be_bytes)

-- A vote comes over the network without its signature: what is read back has every other field, and the
-- signature of zeros.
pub deserialize_vote_drops_signature :
    (v : Vote)
    → VoteFits v
    → deserialize_vote (serialize_vote v) ≡ some (record v { signature = 0 })
unfolding deserialize_vote
deserialize_vote_drops_signature v h = rw (length-serialize_vote v) (
    ap result (
      subst (λ bs. decode_vote bs ≡ some (record v { signature = 0 }, [])) (append-nil _)
        (decode_vote-serialize v [] h)))

pub record RequestFits (q : BlockRequest) : Type 0 where
  pub type_fits : q.request_type < 256
  pub height_fits : q.height < u64_mod
  pub hash_fits : q.hash < 256 ^ 32
  pub requester_fits : q.requester_id < 256 ^ 32

type_back : (t : ℕ) (rest : List ℕ) → t < 256 → read_byte ((t % 256) ∷ rest) ≡ some (t, rest)
type_back t rest h = read_byte-cons (t % 256) rest ∙ ap (λ n. some (n, rest)) (omega (arith, h))

decode_block_request-serialize :
    (q : BlockRequest) (rest : List ℕ)
    → RequestFits q
    → decode_block_request (serialize_block_request q ++ rest) ≡ some (q, rest)
unfolding serialize_block_request decode_block_request
decode_block_request-serialize q rest h = simp (
  append_assoc, ◌>>=◌, type_back, read_be-append, h.type_fits, h.height_fits, h.hash_fits,
  h.requester_fits,
)

length-serialize_block_request : (q : BlockRequest) → length (serialize_block_request q) ≡ 73
unfolding serialize_block_request
length-serialize_block_request q = omega (arith, length-append {0}, length-be_bytes)

pub deserialize_block_request-serialize :
    (q : BlockRequest)
    → RequestFits q
    → deserialize_block_request (serialize_block_request q) ≡ some q
unfolding deserialize_block_request
deserialize_block_request-serialize q h = rw (length-serialize_block_request q) (
    ap result (
      subst (λ bs. decode_block_request bs ≡ some (q, [])) (append-nil _)
        (decode_block_request-serialize q [] h)))

pub record InfoFits (v : ValidatorInfo) : Type 0 where
  pub id_fits : v.validator_id < 256 ^ 32
  pub key_fits : v.consensus_key < 256 ^ 48
  pub stake_fits : v.bonded_stake < u64_mod

flag_back : (b : Bool) → not (flag b == 0) ≡ b
flag_back true = refl
flag_back false = refl

decode_validator_info-serialize :
    (v : ValidatorInfo) (rest : List ℕ)
    → InfoFits v
    → decode_validator_info (serialize_validator_info v ++ rest) ≡ some (v, rest)
unfolding serialize_validator_info decode_validator_info
decode_validator_info-serialize v rest h = simp (
  append_assoc, ◌>>=◌, read_byte-cons, flag_back, read_be-append, h.id_fits, h.key_fits,
  h.stake_fits,
)

length-serialize_validator_info : (v : ValidatorInfo) → length (serialize_validator_info v) ≡ 89
unfolding serialize_validator_info
length-serialize_validator_info v = omega (arith, length-append {0}, length-be_bytes)

cut_info_back :
    (v : ValidatorInfo) (rest : List ℕ)
    → InfoFits v
    → decode_cut_info (serialize_validator_info v ++ rest) ≡ some (v, rest)
unfolding decode_cut_info deserialize_validator_info
cut_info_back v rest h =
    let alone =
      subst (λ bs. decode_validator_info bs ≡ some (v, []))
        (append-nil (serialize_validator_info v)) (decode_validator_info-serialize v [] h) in
    simp (
      ◌>>=◌,
      read_bytes-append 89 (serialize_validator_info v) rest (length-serialize_validator_info v),
      length-serialize_validator_info v,
      alone,
      or_throw,
      result,
    )

infos_back :
    (vs : List ValidatorInfo) (rest : List ℕ)
    → All InfoFits vs
    → read_many (length vs) decode_cut_info (write_many serialize_validator_info vs ++ rest)
      ≡ some (vs, rest)
infos_back = read_many-append InfoFits serialize_validator_info decode_cut_info cut_info_back

pub record UpdateFits (u : ValidatorSetUpdate) : Type 0 where
  pub epoch_fits : u.epoch < u64_mod
  pub count_fits : length u.validators < u32_mod
  pub validators_fit : All InfoFits u.validators
  pub stake_fits : u.total_stake < u64_mod
  pub root_fits : u.validator_set_root < 256 ^ 32
  pub qc_fits : QcFits u.transition_qc

decode_validator_set_update-serialize :
    (u : ValidatorSetUpdate)
    → UpdateFits u
    → decode_validator_set_update (serialize_validator_set_update u) ≡ some (u, [])
unfolding serialize_validator_set_update decode_validator_set_update read_rest
decode_validator_set_update-serialize u h = simp (
  ◌>>=◌,
  read_be-append,
  infos_back,
  deserialize_qc-serialize u.transition_qc h.qc_fits,
  or_throw,
  h.epoch_fits,
  h.count_fits,
  h.validators_fit,
  h.stake_fits,
  h.root_fits,
)

length-serialize_validator_set_update :
    (u : ValidatorSetUpdate) → 12 ≤ length (serialize_validator_set_update u)
unfolding serialize_validator_set_update
length-serialize_validator_set_update u = omega (arith, length-append {0}, length-be_bytes)

pub deserialize_validator_set_update-serialize :
    (u : ValidatorSetUpdate)
    → UpdateFits u
    → deserialize_validator_set_update (serialize_validator_set_update u) ≡ some u
unfolding deserialize_validator_set_update
deserialize_validator_set_update-serialize u h =
    rw
      (not_short (length (serialize_validator_set_update u)) 12
        (length-serialize_validator_set_update u))
      (ap result (decode_validator_set_update-serialize u h))

pub record ResponseFits (r : BlockResponse) : Type 0 where
  pub error_fits : length r.error < u32_mod
  pub block_fits : BlockFits r.block

-- What is left of a response on the other side: the block only where it was found.
abbrev pub block_if_found : Bool → Block → Block
block_if_found true b = b
block_if_found false b = default_block

decode_block_response-serialize :
    (b : Block) (found : Bool) (error : List ℕ)
    → length error < u32_mod
    → BlockFits b
    → decode_block_response
        (serialize_block_response (record { block = b; found = found; error = error }))
      ≡ some (record { block = block_if_found found b; found = found; error = error }, [])
unfolding serialize_block_response decode_block_response read_rest
decode_block_response-serialize b true error h k = simp (
  ◌>>=◌,
  read_byte-cons,
  read_be-append,
  read_bytes-append (length error) error (serialize_block b) refl,
  deserialize_block-serialize b k,
  or_throw,
  h,
)
decode_block_response-serialize b false error h k = simp (
  ◌>>=◌,
  read_byte-cons,
  read_be-append,
  read_bytes-append (length error) error [] refl,
  or_throw,
  h,
)

length-serialize_block_response : (r : BlockResponse) → 5 ≤ length (serialize_block_response r)
unfolding serialize_block_response
length-serialize_block_response r = omega (arith, length-append {0}, length-be_bytes)

pub deserialize_block_response-serialize :
    (r : BlockResponse)
    → ResponseFits r
    → deserialize_block_response (serialize_block_response r)
      ≡ some (record r { block = block_if_found r.found r.block })
unfolding deserialize_block_response
deserialize_block_response-serialize r h =
    rw (not_short (length (serialize_block_response r)) 5 (length-serialize_block_response r)) (
      ap result (decode_block_response-serialize r.block r.found r.error h.error_fits h.block_fits))

module _ (p : Primitives) where
  decode_message-serialize :
      (msg_type : ℕ) (payload : List ℕ) (rest : List ℕ)
      → length payload < u32_mod
      → p.blake3 payload < 256 ^ 32
      → decode_message p (serialize_message (new_message p msg_type payload) ++ rest)
        ≡ some (new_message p msg_type payload, rest)
  unfolding serialize_message decode_message new_message
  decode_message-serialize msg_type payload rest h k =
      let equal : (p.blake3 payload == p.blake3 payload) ≡ true = ground arith in
      simp (
        append_assoc,
        ◌>>=◌,
        read_byte-cons,
        read_be-append,
        read_bytes-append (length payload) payload (be_bytes 32 (p.blake3 payload) ++ rest) refl,
        or_throw,
        equal,
        h,
        k,
      )

  length-serialize_message : (m : NetworkMessage) → 37 ≤ length (serialize_message m)
  unfolding serialize_message
  length-serialize_message m = omega (arith, length-append {0}, length-be_bytes)

  pub deserialize_message-serialize :
      (msg_type : ℕ) (payload : List ℕ)
      → length payload < u32_mod
      → p.blake3 payload < 256 ^ 32
      → let m = new_message p msg_type payload in
        deserialize_message p (serialize_message m) ≡ some m
  unfolding deserialize_message
  deserialize_message-serialize msg_type payload h k =
      let m = new_message p msg_type payload in
      rw (not_short (length (serialize_message m)) 37 (length-serialize_message m)) (
        ap result (
          subst (λ bs. decode_message p bs ≡ some (m, [])) (append-nil _)
            (decode_message-serialize msg_type payload [] h k)))
