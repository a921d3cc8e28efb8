-- ===== src/Consensus/LightClient/RoundTrip.antt =====
-- What `deserialize` reads back of a light client's state and of a header proof.
use sarafu_core.Base.{
  ℕ, ◌+◌, ◌*◌, ◌^◌, ◌<◌, ◌≤◌, ◌≡◌, refl, ap, subst, some, List, [], ◌∷◌, ◌++◌, arith, append_assoc,
  append-nil, length, length-append, All,
}
use sarafu_core.Base.Word.{u64_mod, u32_mod}
use sarafu_core.Codec.{
  ◌>>=◌, result, read_le, le_bytes, be_bytes, read_le-append, read_be-append, read_bytes-append,
  length-le_bytes, length-be_bytes, write_many,
}
use sarafu_core.Consensus.Types.{Validator}
use sarafu_core.Consensus.Codec.{serialize_header, serialize_qc, serialize_validator, or_throw}
use sarafu_core.Consensus.Codec.Ranges.{HeaderFits, QcFits, ValidatorFits}
use sarafu_core.Consensus.Codec.RoundTrip.{
  not_short, signers_back, deserialize_header-serialize, deserialize_qc-serialize,
  length-serialize_header,
}
use sarafu_core.Consensus.Codec.Validators.{validators_back}
use sarafu_core.Consensus.LightClient.{
  LightClientState, HeaderProof, serialize_state, decode_state, deserialize_state, serialize_proof,
  decode_proof, deserialize_proof, size_bytes, validators_size,
}

pub record StateFits (s : LightClientState) : Type 0 where
  pub epoch_fits : s.current_epoch < u64_mod
  pub root_fits : s.validator_set_root < 256 ^ 32
  pub height_fits : s.finalized_height < u64_mod
  pub hash_fits : s.finalized_block_hash < 256 ^ 32

pub record ProofFits (p : HeaderProof) : Type 0 where
  pub header_fits : HeaderFits p.header
  pub qc_fits : QcFits p.qc
  pub qc_size_fits : length (serialize_qc p.qc) < u32_mod
  pub siblings_count_fits : length p.validator_set_merkle_proof < u32_mod
  pub siblings_fit : All (λ s. s < 256 ^ 32) p.validator_set_merkle_proof
  pub validators_count_fits : length p.signing_validators < u32_mod
  pub validators_fit : All ValidatorFits p.signing_validators
  pub stake_fits : p.total_validator_set_stake < u64_mod

decode_state-serialize :
    (s : LightClientState) (rest : List ℕ)
    → StateFits s
    → decode_state (serialize_state s ++ rest) ≡ some (s, rest)
unfolding serialize_state decode_state
decode_state-serialize s rest h = simp (
  append_assoc, ◌>>=◌, read_be-append, read_le-append, h.epoch_fits, h.root_fits, h.height_fits,
  h.hash_fits,
)

length-serialize_state : (s : LightClientState) → length (serialize_state s) ≡ 80
unfolding serialize_state
length-serialize_state s = simp (length-append, length-be_bytes, length-le_bytes)

pub deserialize_state-serialize :
    (s : LightClientState) → StateFits s → deserialize_state (serialize_state s) ≡ some s
unfolding deserialize_state
deserialize_state-serialize s h = rw (length-serialize_state s) (
    ap result
      (subst (λ bs. decode_state bs ≡ some (s, [])) (append-nil _) (decode_state-serialize s [] h)))

header_size_back : (rest : List ℕ) → read_le 4 (le_bytes 4 184 ++ rest) ≡ some (184, rest)
header_size_back rest = read_le-append 4 184 rest (omega arith)

decode_proof-serialize :
    (p : HeaderProof) (rest : List ℕ)
    → ProofFits p
    → decode_proof (serialize_proof p ++ rest) ≡ some (p, rest)
unfolding serialize_proof decode_proof
decode_proof-serialize p rest h = rw (length-serialize_header p.header) (
    simp (
      append_assoc,
      ◌>>=◌,
      header_size_back,
      read_le-append,
      read_bytes-append 184 (serialize_header p.header) _ (length-serialize_header p.header),
      deserialize_header-serialize p.header h.header_fits,
      or_throw,
      h.qc_size_fits,
      read_bytes-append (length (serialize_qc p.qc)) (serialize_qc p.qc) _ refl,
      deserialize_qc-serialize p.qc h.qc_fits,
      h.siblings_count_fits,
      signers_back,
      h.siblings_fit,
      h.validators_count_fits,
      validators_back,
      h.validators_fit,
      h.stake_fits,
    ))

length-serialize_proof : (p : HeaderProof) → 16 ≤ length (serialize_proof p)
unfolding serialize_proof
length-serialize_proof p =
    omega (arith, length-append {0}, length-serialize_header p.header, length-le_bytes)

-- A header proof whose parts fit their types, and its sizes and counts 32 bits, is read back from its bytes:
-- header, certificate, Merkle path and signing validators in order.
pub deserialize_proof-serialize :
    (p : HeaderProof) → ProofFits p → deserialize_proof (serialize_proof p) ≡ some p
unfolding deserialize_proof
deserialize_proof-serialize p h =
    rw (not_short (length (serialize_proof p)) 16 (length-serialize_proof p)) (
      ap result (
        subst (λ bs. decode_proof bs ≡ some (p, [])) (append-nil _)
          (decode_proof-serialize p [] h)))

length-hashes : (xs : List ℕ) → length (write_many (be_bytes 32) xs) ≡ length xs * 32
unfolding write_many
length-hashes [] = refl
length-hashes (x ∷ xs) = omega (
  arith,
  length-append (be_bytes 32 x) (write_many (be_bytes 32) xs),
  length-be_bytes 32 x,
  length-hashes xs,
)

length-validators :
    (vs : List Validator) → length (write_many serialize_validator vs) ≡ validators_size vs
unfolding write_many validators_size
length-validators [] = refl
length-validators (v ∷ vs) = omega (
  arith,
  length-append (serialize_validator v) (write_many serialize_validator vs),
  length-validators vs,
)

-- The size that a proof reports is eight bytes less than it takes: the total stake is not counted.
pub size_bytes_short : (p : HeaderProof) → length (serialize_proof p) ≡ size_bytes p + 8
unfolding serialize_proof size_bytes
size_bytes_short p = omega (
  arith,
  length-append {0},
  length-le_bytes,
  length-hashes p.validator_set_merkle_proof,
  length-validators p.signing_validators,
)
