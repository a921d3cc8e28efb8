-- ===== src/State/Codec/RoundTrip.antt =====
-- What `deserialize` reads back of `serialize`.
use sarafu_core.Base.{
  ℕ, ◌+◌, ◌%◌, ◌≡◌, refl, ap, subst, some, Bool, true, false, List, [], ◌++◌, arith, append_assoc,
  append-nil, length, length-append, ◌==◌, not, ltb,
}
use sarafu_core.Base.Word.{u32_mod}
use sarafu_core.Codec.{
  ◌>>=◌, result, read_le-append, read_be-append, length-le_bytes, length-be_bytes, read_byte-cons,
}
use sarafu_core.State.Types.{
  Account, Transaction, TransactionReceipt, AccountFits, TransactionFits, ReceiptFits,
}
use sarafu_core.State.Codec.{
  serialize_account, decode_account, deserialize_account, serialize_tx, decode_tx, deserialize_tx,
  serialize_receipt, decode_receipt, deserialize_receipt, read_message, success_byte,
}

pub decode_account-serialize :
    (a : Account) (rest : List ℕ)
    → AccountFits a
    → decode_account (serialize_account a ++ rest) ≡ some (a, rest)
unfolding serialize_account decode_account
decode_account-serialize a rest h = simp (
  append_assoc, ◌>>=◌, read_be-append, read_le-append, h.address_fits, h.balance_fits, h.nonce_fits,
  h.code_hash_fits,
)

length-serialize_account : (a : Account) → length (serialize_account a) ≡ 80
unfolding serialize_account
length-serialize_account a = simp (length-append, length-be_bytes, length-le_bytes)

-- An account whose fields fit their types is read back from its 80 bytes.
pub deserialize_account-serialize :
    (a : Account) → AccountFits a → deserialize_account (serialize_account a) ≡ some a
unfolding deserialize_account
deserialize_account-serialize a h = rw (length-serialize_account a) (
    ap result (
      subst (λ bs. decode_account bs ≡ some (a, [])) (append-nil _)
        (decode_account-serialize a [] h)))

pub decode_tx-serialize :
    (tx : Transaction) (rest : List ℕ)
    → TransactionFits tx
    → decode_tx (serialize_tx tx ++ rest) ≡ some (tx, rest)
unfolding serialize_tx decode_tx
decode_tx-serialize tx rest h = simp (
  append_assoc, ◌>>=◌, read_be-append, read_le-append, h.from_fits, h.to_fits, h.amount_fits,
  h.nonce_fits, h.fee_fits, h.gas_limit_fits, h.chain_id_fits, h.signature_fits,
)

pub length-serialize_tx : (tx : Transaction) → length (serialize_tx tx) ≡ 164
unfolding serialize_tx
length-serialize_tx tx = simp (length-append, length-be_bytes, length-le_bytes)

-- A transaction whose fields fit their types is read back from its 164 bytes.
pub deserialize_tx-serialize :
    (tx : Transaction) → TransactionFits tx → deserialize_tx (serialize_tx tx) ≡ some tx
unfolding deserialize_tx
deserialize_tx-serialize tx h = rw (length-serialize_tx tx) (
    ap result
      (subst (λ bs. decode_tx bs ≡ some (tx, [])) (append-nil _) (decode_tx-serialize tx [] h)))

length-serialize_receipt :
    (r : TransactionReceipt) → length (serialize_receipt r) ≡ 53 + length r.error_message
unfolding serialize_receipt
length-serialize_receipt r = omega (arith, length-append {0}, length-be_bytes, length-le_bytes)

read_message_self : (m : List ℕ) → read_message (length m) m ≡ some (m, [])
unfolding read_message
read_message_self m = ground arith

success_byte_back : (b : Bool) → not (success_byte b == 0) ≡ b
success_byte_back true = refl
success_byte_back false = refl

decode_receipt-serialize :
    (r : TransactionReceipt) → ReceiptFits r → decode_receipt (serialize_receipt r) ≡ some (r, [])
unfolding serialize_receipt decode_receipt
decode_receipt-serialize r h =
    let short : length r.error_message % u32_mod ≡ length r.error_message =
      omega (arith, h.message_fits) in
    rw short (
      simp (
        ◌>>=◌, read_be-append, read_le-append, read_byte-cons, read_message_self, success_byte_back,
        h.tx_hash_fits, h.block_height_fits, h.gas_used_fits, h.message_fits,
      ))

-- A receipt whose fields fit, its message shorter than 4 GiB, is read back whatever its message.
pub deserialize_receipt-serialize :
    (r : TransactionReceipt) → ReceiptFits r → deserialize_receipt (serialize_receipt r) ≡ some r
unfolding deserialize_receipt
deserialize_receipt-serialize r h =
    rw (lt-add_left (length (serialize_receipt r)) (length-serialize_receipt r))
      (ap result (decode_receipt-serialize r h))
  where
    lt-add_left : (n : ℕ) → n ≡ 53 + length r.error_message → ltb n 53 ≡ false
    lt-add_left n e = ground arith
