-- ===== src/Crypto/Merkle/Bytes.antt =====
-- MerkleProof::serialize and deserialize of src/crypto/merkle_tree.cpp.
use sarafu_core.Base.{
  ℕ, ◌*◌, ◌+◌, ◌^◌, ◌<◌, ◌≡◌, refl, ap, subst, Bool, true, false, Option, none, some, List, [], ◌∷◌,
  ◌++◌, ◌==◌, ltb, if◌then◌else◌, arith, append_assoc, append-nil, length, length-append, All,
}
use sarafu_core.Base.Word.{add64, mul64, u64_mod}
use sarafu_core.Codec.{
  Decoder, pure, ◌>>=◌, result, le_bytes, be_bytes, read_le, read_be, read_many, write_many,
  read_le-append, read_be-append, read_many-append, length-le_bytes, length-be_bytes,
}
use sarafu_core.Crypto.Merkle.{MerkleProof}

unfoldable pub serialize_merkle_proof : MerkleProof → List ℕ
serialize_merkle_proof proof =
    le_bytes 8 proof.leaf_index
    ++ (be_bytes 32 proof.leaf_hash
        ++ (le_bytes 8 (length proof.sibling_hashes)
            ++ write_many (be_bytes 32) proof.sibling_hashes))

-- Going on only where the test holds.
abbrev require : Bool → Decoder Bool
require true bs = some (true, bs)
require false bs = none

-- The test of the size wraps: after it, the loop of the source reads past the end, which is undefined
-- behaviour, where `num_siblings * 32` is not below 2 ^ 64. That is `none` here.
unfoldable pub decode_merkle_proof : ℕ → Decoder MerkleProof
decode_merkle_proof size = do
  leaf_index ← read_le 8
  leaf_hash ← read_be 32
  num_siblings ← read_le 8
  passed ← require (size == add64 48 (mul64 num_siblings 32))
  sibling_hashes ← read_many num_siblings (read_be 32)
  pure (record { leaf_index = leaf_index; leaf_hash = leaf_hash; sibling_hashes = sibling_hashes })

unfoldable pub deserialize_merkle_proof : List ℕ → Option MerkleProof
deserialize_merkle_proof bs =
    if ltb (length bs) 48 then none else result (decode_merkle_proof (length bs) bs)

record ProofFits (proof : MerkleProof) : Type 0 where
  index_fits : proof.leaf_index < u64_mod
  hash_fits : proof.leaf_hash < 256 ^ 32
  siblings_fit : All (λ s. s < 256 ^ 32) proof.sibling_hashes
  size_fits : 48 + length proof.sibling_hashes * 32 < u64_mod

length-write_hashes :
    (hashes : List ℕ) → length (write_many (be_bytes 32) hashes) ≡ length hashes * 32
unfolding write_many
length-write_hashes [] = refl
length-write_hashes (x ∷ xs) =
    omega (arith, length-write_hashes xs, length-append {0}, length-be_bytes)

length-serialize_merkle_proof :
    (proof : MerkleProof)
    → length (serialize_merkle_proof proof) ≡ 48 + length proof.sibling_hashes * 32
unfolding serialize_merkle_proof
length-serialize_merkle_proof proof =
    let hashes = length-write_hashes proof.sibling_hashes in
    omega (arith, hashes, length-append {0}, length-be_bytes, length-le_bytes)

siblings_back :
    (hashes : List ℕ) (rest : List ℕ)
    → All (λ s. s < 256 ^ 32) hashes
    → read_many (length hashes) (read_be 32) (write_many (be_bytes 32) hashes ++ rest)
      ≡ some (hashes, rest)
siblings_back hashes rest h =
    read_many-append (λ s. s < 256 ^ 32) (be_bytes 32) (read_be 32)
      (λ s r f. read_be-append 32 s r f) hashes rest h

right_size : (n : ℕ) → 48 + n * 32 < u64_mod → ((48 + n * 32) == add64 48 (mul64 n 32)) ≡ true
right_size n h = ground arith

count_fits : (n : ℕ) → 48 + n * 32 < u64_mod → n < u64_mod
count_fits n h = omega arith

not_too_short : (n : ℕ) → ltb (48 + n * 32) 48 ≡ false
not_too_short n = ground arith

decode_merkle_proof-serialize :
    (proof : MerkleProof) (rest : List ℕ)
    → ProofFits proof
    → decode_merkle_proof
        (48 + length proof.sibling_hashes * 32)
        (serialize_merkle_proof proof ++ rest)
      ≡ some (proof, rest)
unfolding serialize_merkle_proof decode_merkle_proof
decode_merkle_proof-serialize proof rest h = simp (
  append_assoc,
  ◌>>=◌,
  read_be-append,
  read_le-append,
  siblings_back,
  h.index_fits,
  h.hash_fits,
  h.siblings_fit,
  count_fits (length proof.sibling_hashes) h.size_fits,
  right_size (length proof.sibling_hashes) h.size_fits,
)

-- A Merkle proof whose fields fit their types, and its bytes the memory, is read back from its bytes.
deserialize_merkle_proof-serialize :
    (proof : MerkleProof)
    → ProofFits proof
    → deserialize_merkle_proof (serialize_merkle_proof proof) ≡ some proof
unfolding deserialize_merkle_proof
deserialize_merkle_proof-serialize proof h =
    rw (length-serialize_merkle_proof proof, not_too_short (length proof.sibling_hashes))
      (ap result (
        subst
          (λ bs. decode_merkle_proof (48 + length proof.sibling_hashes * 32) bs ≡ some (proof, []))
          (append-nil _) (decode_merkle_proof-serialize proof [] h)))

-- 48 bytes pass the test of the size with 2 ^ 59 hashes still to be read.
wrapped_size_passes : (48 == add64 48 (mul64 (2 ^ 59) 32)) ≡ true
wrapped_size_passes = refl
