-- ===== src/Consensus/Certificate/Forged.antt =====
-- What `verify_qc` checks, and what it does not.
use sarafu_core.Base.{
  ℕ, ◌%◌, ◌≤◌, ◌≡◌, ◌↔◌, refl, arith, true, Option, none, some, List, [], ◌∷◌, Option-cases, inl,
  inr,
}
use sarafu_core.Base.Word.{u64_mod}
use sarafu_core.Codec.{be_bytes}
use sarafu_core.Crypto.{Primitives}
use sarafu_core.Consensus.Types.{Validator, ValidatorId, ValidatorSet, QuorumCertificate}
use sarafu_core.Consensus.ValidatorSet.{find_validator, required_stake}
use sarafu_core.Consensus.Certificate.{
  check_supermajority, signer_keys, verify_signers_in_set, calculate_signer_stake,
  signer_stake_from, bls_verify_aggregated, verify_aggregated_signature, verify_qc,
}

signers_known :
    (ids : List ValidatorId) (vs : List Validator) (keys : List ℕ)
    → signer_keys ids vs ≡ some keys
    → verify_signers_in_set ids vs ≡ true
unfolding signer_keys verify_signers_in_set
signers_known [] vs keys h = refl
signers_known (id ∷ ids) vs keys h = elim (Option-cases (signer_keys ids vs)) [
  | inl e ↦ ground arith
  | inr (ks, e) ↦ ground (arith, signers_known ids vs ks e)
]

no_signers :
    (ids : List ValidatorId) (vs : List Validator) → signer_keys ids vs ≡ some [] → ids ≡ []
unfolding signer_keys
no_signers [] vs h = refl
no_signers (id ∷ ids) vs h = ground arith

empty_keys :
    (ids : List ValidatorId) (vs : List Validator)
    → ids ≡ []
    → (signer_keys ids vs ≡ some []) × (verify_signers_in_set ids vs ≡ true)
unfolding signer_keys verify_signers_in_set
empty_keys [] vs h = (refl, refl)
empty_keys (id ∷ ids) vs h = cc

-- The keys of the signers: missing, none, or some.
keys_cases {ℓ} :
    {P : Type ℓ} (o : Option (List ℕ))
    → (o ≡ none → P)
    → (o ≡ some [] → P)
    → ((k : ℕ) (ks : List ℕ) → o ≡ some (k ∷ ks) → P)
    → P
keys_cases none a b c = a refl
keys_cases (some []) a b c = b refl
keys_cases (some (k ∷ ks)) a b c = c k ks refl

-- A certificate is accepted exactly when the stake that it claims is at least the required one of
-- the set, every signer is in the set, there is a signer, and the signature verifies under the
-- signers' keys.
pub verify_qc_iff :
    (p : Primitives) (qc : QuorumCertificate) (vs : ValidatorSet)
    → (verify_qc p qc vs ≡ some true) ↔ (
        (required_stake vs.total_stake ≤ qc.total_stake_signed)
        × ((k : ℕ) × (ks : List ℕ) × (signer_keys qc.signers vs.validators ≡ some (k ∷ ks))
            × (p.verify_aggregated qc.aggregated_signature (be_bytes 32 qc.block_hash) (k ∷ ks)
                ≡ true)))
unfolding verify_qc check_supermajority verify_aggregated_signature bls_verify_aggregated
verify_qc_iff p qc vs = (
  λ h.
      keys_cases (signer_keys qc.signers vs.validators) (λ e. absurd (ground arith))
        (λ e. absurd (ground arith)) (λ k ks e. (ground arith, (k, ks, e, ground arith))),
  λ h.
      let (claim, (k, ks, e, signed)) = h in
      ground (arith, signers_known qc.signers vs.validators (k ∷ ks) e),
)

-- A certificate that one validator of the set has signed alone and that claims just the required
-- stake is accepted, however little stake `calculate_signer_stake` finds, which is that validator's.
pub verify_qc_one_signer :
    (p : Primitives) (vs : ValidatorSet) (v : Validator) (qc : QuorumCertificate)
    → find_validator v.id vs.validators ≡ some v
    → qc.signers ≡ v.id ∷ []
    → p.verify_aggregated qc.aggregated_signature (be_bytes 32 qc.block_hash) (v.consensus_key ∷ [])
      ≡ true
    → qc.total_stake_signed ≡ required_stake vs.total_stake
    → (verify_qc p qc vs ≡ some true) × (calculate_signer_stake qc vs ≡ v.bonded_stake % u64_mod)
unfolding verify_qc check_supermajority verify_aggregated_signature bls_verify_aggregated
    signer_keys verify_signers_in_set calculate_signer_stake signer_stake_from
verify_qc_one_signer p vs v qc found one signed claim = ground arith

-- Verifying a certificate throws exactly when it claims the required stake and has no signers.
pub verify_qc_throws :
    (p : Primitives) (qc : QuorumCertificate) (vs : ValidatorSet)
    → (verify_qc p qc vs ≡ none)
      ↔ ((required_stake vs.total_stake ≤ qc.total_stake_signed) × (qc.signers ≡ []))
unfolding verify_qc check_supermajority verify_aggregated_signature bls_verify_aggregated
verify_qc_throws p qc vs = (
  λ h.
      keys_cases (signer_keys qc.signers vs.validators) (λ e. absurd (ground arith))
        (λ e. (ground arith, no_signers qc.signers vs.validators e))
        (λ k ks e. absurd (ground arith)),
  λ h. ground (arith, empty_keys qc.signers vs.validators h.1),
)
