-- ===== src/Consensus/Codec/Validators.antt =====
-- What `deserialize` reads back of a validator and of a validator set.
use sarafu_core.Base.{
  ℕ, ◌≤◌, ◌≡◌, refl, ap, subst, some, List, [], ◌++◌, arith, append_assoc, append-nil, length,
  length-append, All,
}
use sarafu_core.Codec.{
  ◌>>=◌, result, read_le-append, read_be-append, length-le_bytes, length-be_bytes, read_byte-cons,
  read_bytes-append, read_many, read_many-append, write_many,
}
use sarafu_core.Consensus.Types.{
  Validator, ValidatorSet, ValidatorStatus, active, standby, jailed, tombstoned,
}
use sarafu_core.Consensus.Codec.Ranges.{ValidatorFits, ValidatorSetFits}
use sarafu_core.Consensus.Codec.RoundTrip.{not_short}
use sarafu_core.Consensus.Codec.{
  or_throw, status_byte, status_of_byte, serialize_validator, decode_validator,
  deserialize_validator, serialize_validator_set, decode_cut_validator, decode_validator_set,
  deserialize_validator_set,
}

status_back : (s : ValidatorStatus) → status_of_byte (status_byte s) ≡ some s
status_back active = refl
status_back standby = refl
status_back jailed = refl
status_back tombstoned = refl

decode_validator-serialize :
    (v : Validator) (rest : List ℕ)
    → ValidatorFits v
    → decode_validator (serialize_validator v ++ rest) ≡ some (v, rest)
unfolding serialize_validator decode_validator
decode_validator-serialize v rest h = simp (
  append_assoc, ◌>>=◌, read_be-append, read_le-append, read_byte-cons, status_back, or_throw,
  h.id_fits, h.consensus_key_fits, h.withdrawal_key_fits, h.stake_fits, h.jailed_fits,
  h.downtime_fits, h.signed_fits, h.missed_fits,
)

pub length-serialize_validator : (v : Validator) → length (serialize_validator v) ≡ 153
unfolding serialize_validator
length-serialize_validator v = omega (arith, length-append {0}, length-be_bytes, length-le_bytes)

-- A validator whose fields fit is read back from its 153 bytes, its status included.
pub deserialize_validator-serialize :
    (v : Validator) → ValidatorFits v → deserialize_validator (serialize_validator v) ≡ some v
unfolding deserialize_validator
deserialize_validator-serialize v h = rw (length-serialize_validator v) (
    ap result (
      subst (λ bs. decode_validator bs ≡ some (v, [])) (append-nil _)
        (decode_validator-serialize v [] h)))

cut_back :
    (v : Validator) (rest : List ℕ)
    → ValidatorFits v
    → decode_cut_validator (serialize_validator v ++ rest) ≡ some (v, rest)
unfolding decode_cut_validator
cut_back v rest h = simp (
  ◌>>=◌,
  read_bytes-append 153 (serialize_validator v) rest (length-serialize_validator v),
  deserialize_validator-serialize v h,
  or_throw,
)

pub validators_back :
    (vs : List Validator) (rest : List ℕ)
    → All ValidatorFits vs
    → read_many (length vs) decode_cut_validator (write_many serialize_validator vs ++ rest)
      ≡ some (vs, rest)
validators_back = read_many-append ValidatorFits serialize_validator decode_cut_validator cut_back

decode_validator_set-serialize :
    (s : ValidatorSet) (rest : List ℕ)
    → ValidatorSetFits s
    → decode_validator_set (serialize_validator_set s ++ rest) ≡ some (s, rest)
unfolding serialize_validator_set decode_validator_set
decode_validator_set-serialize s rest h = simp (
  append_assoc, ◌>>=◌, read_be-append, read_le-append, validators_back, h.epoch_fits, h.stake_fits,
  h.root_fits, h.count_fits, h.validators_fit,
)

length-serialize_validator_set : (s : ValidatorSet) → 52 ≤ length (serialize_validator_set s)
unfolding serialize_validator_set
length-serialize_validator_set s =
    omega (arith, length-append {0}, length-be_bytes, length-le_bytes)

-- A validator set whose fields fit is read back, its validators in order.
pub deserialize_validator_set-serialize :
    (s : ValidatorSet)
    → ValidatorSetFits s
    → deserialize_validator_set (serialize_validator_set s) ≡ some s
unfolding deserialize_validator_set
deserialize_validator_set-serialize s h =
    rw (not_short (length (serialize_validator_set s)) 52 (length-serialize_validator_set s)) (
      ap result (
        subst (λ bs. decode_validator_set bs ≡ some (s, [])) (append-nil _)
          (decode_validator_set-serialize s [] h)))
