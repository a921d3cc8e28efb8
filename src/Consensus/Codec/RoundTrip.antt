-- ===== src/Consensus/Codec/RoundTrip.antt =====
-- What `deserialize` reads back of `serialize`.
use sarafu_core.Base.{
  ℕ, ◌^◌, ◌<◌, ◌≤◌, ◌≡◌, ap, subst, some, false, List, [], ◌++◌, arith, append_assoc, append-nil,
  length, length-append, All, ltb,
}
use sarafu_core.Codec.{
  ◌>>=◌, result, be_bytes, read_le-append, read_be-append, length-le_bytes, length-be_bytes,
  read_bytes-append, read_many, read_many-append, write_many, read_be,
}
use sarafu_core.State.Types.{Transaction, TransactionFits}
use sarafu_core.State.Codec.{serialize_tx}
use sarafu_core.State.Codec.RoundTrip.{length-serialize_tx, deserialize_tx-serialize}
use sarafu_core.Consensus.Types.{QuorumCertificate, BlockHeader, Block}
use sarafu_core.Consensus.Codec.Ranges.{QcFits, HeaderFits, BlockFits}
use sarafu_core.Consensus.Codec.{
  serialize_qc, decode_qc, deserialize_qc, serialize_header, decode_header, deserialize_header,
  serialize_block, sized_tx, decode_sized_tx, read_rest, or_throw, decode_block, deserialize_block,
}

pub signers_back :
    (ids : List ℕ) (rest : List ℕ)
    → All (λ s. s < 256 ^ 32) ids
    → read_many (length ids) (read_be 32) (write_many (be_bytes 32) ids ++ rest) ≡ some (ids, rest)
signers_back ids rest h =
    read_many-append (λ s. s < 256 ^ 32) (be_bytes 32) (read_be 32)
      (λ s r f. read_be-append 32 s r f) ids rest h

decode_qc-serialize :
    (qc : QuorumCertificate) (rest : List ℕ)
    → QcFits qc
    → decode_qc (serialize_qc qc ++ rest) ≡ some (qc, rest)
unfolding serialize_qc decode_qc
decode_qc-serialize qc rest h = simp (
  append_assoc, ◌>>=◌, read_be-append, read_le-append, signers_back, h.block_height_fits,
  h.block_hash_fits, h.view_number_fits, h.signature_fits, h.count_fits, h.signers_fit,
  h.stake_fits,
)

length-serialize_qc : (qc : QuorumCertificate) → 160 ≤ length (serialize_qc qc)
unfolding serialize_qc
length-serialize_qc qc = omega (arith, length-append {0}, length-be_bytes, length-le_bytes)

pub not_short : (n k : ℕ) → k ≤ n → ltb n k ≡ false
not_short n k h = ground arith

-- A certificate whose fields fit their types is read back, whatever its signers.
pub deserialize_qc-serialize :
    (qc : QuorumCertificate) → QcFits qc → deserialize_qc (serialize_qc qc) ≡ some qc
unfolding deserialize_qc
deserialize_qc-serialize qc h =
    rw (not_short (length (serialize_qc qc)) 160 (length-serialize_qc qc)) (
      ap result
        (subst (λ bs. decode_qc bs ≡ some (qc, [])) (append-nil _) (decode_qc-serialize qc [] h)))

decode_header-serialize :
    (b : BlockHeader) (rest : List ℕ)
    → HeaderFits b
    → decode_header (serialize_header b ++ rest) ≡ some (b, rest)
unfolding serialize_header decode_header
decode_header-serialize b rest h = simp (
  append_assoc, ◌>>=◌, read_be-append, read_le-append, h.height_fits, h.timestamp_fits,
  h.previous_hash_fits, h.state_root_fits, h.transactions_root_fits, h.validator_set_root_fits,
  h.proposer_fits, h.epoch_fits,
)

pub length-serialize_header : (b : BlockHeader) → length (serialize_header b) ≡ 184
unfolding serialize_header
length-serialize_header b = simp (length-append, length-be_bytes, length-le_bytes)

pub deserialize_header-serialize :
    (b : BlockHeader) → HeaderFits b → deserialize_header (serialize_header b) ≡ some b
unfolding deserialize_header
deserialize_header-serialize b h = rw (length-serialize_header b) (
    ap result (
      subst (λ bs. decode_header bs ≡ some (b, [])) (append-nil _)
        (decode_header-serialize b [] h)))

sized_tx_back :
    (tx : Transaction) (rest : List ℕ)
    → TransactionFits tx
    → decode_sized_tx (sized_tx tx ++ rest) ≡ some (tx, rest)
unfolding decode_sized_tx
sized_tx_back tx rest h = rw (length-serialize_tx tx) (
    simp (
      append_assoc,
      ◌>>=◌,
      read_le-append 8 164 (serialize_tx tx ++ rest) (omega arith),
      read_bytes-append 164 (serialize_tx tx) rest (length-serialize_tx tx),
      deserialize_tx-serialize tx h,
      or_throw,
    ))

transactions_back :
    (txs : List Transaction) (rest : List ℕ)
    → All TransactionFits txs
    → read_many (length txs) decode_sized_tx (write_many sized_tx txs ++ rest) ≡ some (txs, rest)
transactions_back = read_many-append TransactionFits sized_tx decode_sized_tx sized_tx_back

decode_block-serialize : (b : Block) → BlockFits b → decode_block (serialize_block b) ≡ some (b, [])
unfolding serialize_block decode_block read_rest
decode_block-serialize b h = simp (
  ◌>>=◌,
  read_bytes-append 184 (serialize_header b.header) _ (length-serialize_header b.header),
  deserialize_header-serialize b.header h.header_fits,
  or_throw,
  read_le-append,
  transactions_back,
  deserialize_qc-serialize b.justify h.justify_fits,
  h.count_fits,
  h.transactions_fit,
)

length-serialize_block : (b : Block) → 192 ≤ length (serialize_block b)
unfolding serialize_block
length-serialize_block b =
    omega (arith, length-append {0}, length-serialize_header b.header, length-le_bytes)

-- A block whose parts fit their types is read back: header, transactions in order, certificate.
pub deserialize_block-serialize :
    (b : Block) → BlockFits b → deserialize_block (serialize_block b) ≡ some b
unfolding deserialize_block
deserialize_block-serialize b h =
    rw (not_short (length (serialize_block b)) 192 (length-serialize_block b))
      (ap result (decode_block-serialize b h))
