-- ===== src/State/Codec.antt =====
-- serialize and deserialize of src/state/account.cpp and src/state/transaction.cpp.
pub mod RoundTrip
use sarafu_core.Base.{
  ℕ, ◌%◌, ◌≡◌, refl, Option, none, some, Bool, true, false, not, List, [], ◌∷◌, ◌++◌, arith, ◌==◌,
  ltb, if◌then◌else◌, length,
}
use sarafu_core.Base.Word.{u32_mod}
use sarafu_core.Codec.{
  Decoder, pure, ◌>>=◌, result, le_bytes, be_bytes, read_le, read_be, read_byte,
}
use sarafu_core.State.Types.{Account, Transaction, TransactionReceipt}

unfoldable pub serialize_account : Account → List ℕ
serialize_account a =
    be_bytes 32 a.address
    ++ (le_bytes 8 a.balance ++ (le_bytes 8 a.nonce ++ be_bytes 32 a.code_hash))

pub decode_account : Decoder Account
decode_account = do
  address ← read_be 32
  balance ← read_le 8
  nonce ← read_le 8
  code_hash ← read_be 32
  pure (record { address = address; balance = balance; nonce = nonce; code_hash = code_hash })

unfoldable pub deserialize_account : List ℕ → Option Account
unfolding decode_account
deserialize_account bs = if length bs == 80 then result (decode_account bs) else none

-- `Transaction::serialize_for_signing`.
unfoldable pub serialize_for_signing : Transaction → List ℕ
serialize_for_signing tx =
    be_bytes 32 tx.from
    ++ (be_bytes 32 tx.to
        ++ (le_bytes 8 tx.amount
            ++ (le_bytes 8 tx.nonce
                ++ (le_bytes 8 tx.fee ++ (le_bytes 8 tx.gas_limit ++ le_bytes 4 tx.chain_id)))))

-- `Transaction::serialize` writes the same fields again, then the signature.
unfoldable pub serialize_tx : Transaction → List ℕ
unfolding serialize_for_signing
serialize_tx tx = serialize_for_signing tx ++ be_bytes 64 tx.signature

pub decode_tx : Decoder Transaction
decode_tx = do
  from ← read_be 32
  to ← read_be 32
  amount ← read_le 8
  nonce ← read_le 8
  fee ← read_le 8
  gas_limit ← read_le 8
  chain_id ← read_le 4
  signature ← read_be 64
  pure (record {
    from = from;
    to = to;
    amount = amount;
    nonce = nonce;
    fee = fee;
    gas_limit = gas_limit;
    chain_id = chain_id;
    signature = signature;
  })

unfoldable pub deserialize_tx : List ℕ → Option Transaction
unfolding decode_tx
deserialize_tx bs = if length bs == 164 then result (decode_tx bs) else none

abbrev pub success_byte : Bool → ℕ
success_byte true = 1
success_byte false = 0

-- The length of the message is cast to uint32_t.
unfoldable pub serialize_receipt : TransactionReceipt → List ℕ
serialize_receipt r =
    be_bytes 32 r.tx_hash
    ++ (le_bytes 8 r.block_height
        ++ (success_byte r.success
            ∷ (le_bytes 8 r.gas_used
                ++ (le_bytes 4 (length r.error_message % u32_mod) ++ r.error_message))))

-- The message is all that is left, and its length must be the one written.
read_message : ℕ → Decoder (List ℕ)
read_message n rest = if n == length rest then some (rest, []) else none

decode_receipt : Decoder TransactionReceipt
unfolding read_message
decode_receipt = do
  tx_hash ← read_be 32
  block_height ← read_le 8
  success ← read_byte
  gas_used ← read_le 8
  error_len ← read_le 4
  error_message ← read_message error_len
  pure (record {
    tx_hash = tx_hash;
    block_height = block_height;
    success = not (success == 0);
    gas_used = gas_used;
    error_message = error_message;
  })

unfoldable pub deserialize_receipt : List ℕ → Option TransactionReceipt
unfolding decode_receipt
deserialize_receipt bs = if ltb (length bs) 53 then none else result (decode_receipt bs)
