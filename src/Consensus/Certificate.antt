-- ===== src/Consensus/Certificate.antt =====
-- src/consensus/qc_verifier.cpp. `none` is the exception that BLS12_381::verify_aggregated throws for
-- an empty list of keys.
pub mod Forged
use sarafu_core.Base.{ℕ, Bool, true, false, Option, none, some, List, [], ◌∷◌, leb, if◌then◌else◌}
use sarafu_core.Base.Word.{add64}
use sarafu_core.Codec.{be_bytes}
use sarafu_core.Crypto.{Primitives}
use sarafu_core.Consensus.Types.{Validator, ValidatorId, ValidatorSet, QuorumCertificate}
use sarafu_core.Consensus.ValidatorSet.{find_validator, required_stake}

unfoldable pub check_supermajority : QuorumCertificate → ValidatorSet → Bool
check_supermajority qc vs = leb (required_stake vs.total_stake) qc.total_stake_signed

-- The keys of the signers, or none if one is not in the set.
unfoldable pub signer_keys : List ValidatorId → List Validator → Option (List ℕ)
signer_keys [] vs = some []
signer_keys (id ∷ ids) vs = elim (find_validator id vs) [
  | none ↦ none
  | some v ↦ elim (signer_keys ids vs) [ none ↦ none | some keys ↦ some (v.consensus_key ∷ keys) ]
]

unfoldable pub verify_signers_in_set : List ValidatorId → List Validator → Bool
verify_signers_in_set [] vs = true
verify_signers_in_set (id ∷ ids) vs = elim (find_validator id vs) [
  | none ↦ false
  | some v ↦ verify_signers_in_set ids vs
]

-- `calculate_signer_stake`: 0 if a signer is not in the set.
unfoldable pub signer_stake_from : ℕ → List ValidatorId → List Validator → ℕ
signer_stake_from total [] vs = total
signer_stake_from total (id ∷ ids) vs = elim (find_validator id vs) [
  | none ↦ 0
  | some v ↦ signer_stake_from (add64 total v.bonded_stake) ids vs
]

unfoldable pub calculate_signer_stake : QuorumCertificate → ValidatorSet → ℕ
calculate_signer_stake qc vs = signer_stake_from 0 qc.signers vs.validators

module _ (p : Primitives) where
  unfoldable pub bls_verify_aggregated : ℕ → List ℕ → List ℕ → Option Bool
  bls_verify_aggregated signature message [] = none
  bls_verify_aggregated signature message (k ∷ ks) =
      some (p.verify_aggregated signature message (k ∷ ks))

  unfoldable pub verify_aggregated_signature : QuorumCertificate → ValidatorSet → Option Bool
  verify_aggregated_signature qc vs = elim (signer_keys qc.signers vs.validators) [
    | none ↦ some false
    | some keys ↦ bls_verify_aggregated qc.aggregated_signature (be_bytes 32 qc.block_hash) keys
  ]

  unfoldable pub verify_qc : QuorumCertificate → ValidatorSet → Option Bool
  verify_qc qc vs =
      if check_supermajority qc vs
      then (if verify_signers_in_set qc.signers vs.validators
          then verify_aggregated_signature qc vs
          else some false)
      else some false
