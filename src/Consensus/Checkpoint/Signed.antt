-- ===== src/Consensus/Checkpoint/Signed.antt =====
-- What a signed checkpoint stands for, and that those who sign one can be believed to be accepted.
use sarafu_core.Base.{
  ℕ, ◌<◌, ◌≤◌, ◌≡◌, ◌⊎◌, refl, ap, sym, ◌∙◌, arith, true, false, some, List, [], ◌∷◌, map, ◌==◌,
  ltb, All, Bool-cases, Option-cases, inl, inr,
}
use sarafu_core.Base.Word.{add64}
use sarafu_core.Base.Map.{Map}
use sarafu_core.Codec.{be_bytes}
use sarafu_core.Crypto.{Primitives, all_of, bls_aggregate}
use sarafu_core.Consensus.Types.{Validator, ValidatorId, ValidatorSet}
use sarafu_core.Consensus.ValidatorSet.{find_validator, required_stake}
use sarafu_core.Consensus.Certificate.{bls_verify_aggregated}
use sarafu_core.Consensus.Checkpoint.{
  Checkpoint, signed, checkpoint_hash, serialize_contents, collect_signatures, aggregate_signatures,
  collect_keys, verify_checkpoint,
}

list-cases : (xs : List ℕ) → (xs ≡ []) ⊎ ((x : ℕ) × (ys : List ℕ) × (xs ≡ x ∷ ys))
list-cases [] = inl refl
list-cases (x ∷ xs) = inr (x, xs, refl)

-- The keys of the validators as BLS signatures have them, and what those promise: a signature that `sign`
-- makes is well formed, and the aggregate of one or more on one message verifies under their keys.
pub record Keyring : Type 0 where
  pub sign : List ℕ → ℕ → ℕ
  pub public_of : ℕ → ℕ
  pub secret_of : ValidatorId → ℕ

pub record IsBls (p : Primitives) (k : Keyring) : Type 0 where
  pub well_formed_sign : (message : List ℕ) (key : ℕ) → p.well_formed (k.sign message key) ≡ true
  pub aggregate_verifies :
      (message : List ℕ) (key : ℕ) (keys : List ℕ)
      → p.verify_aggregated
          (p.aggregate (map (k.sign message) (key ∷ keys)))
          message
          (map k.public_of (key ∷ keys))
        ≡ true

module _ (k : Keyring) where
  -- The set has the validators' own keys.
  abbrev pub HoldsKeys : List Validator → Type 0
  HoldsKeys vs = All (λ (v : Validator). v.consensus_key ≡ k.public_of (k.secret_of v.id)) vs

  -- Every signature is the one that the validator it is filed under makes.
  abbrev pub Honest : List ℕ → Map ℕ → Type 0
  Honest message signatures = All (λ (e : ℕ × ℕ). e.1 ≡ k.sign message (k.secret_of e.0)) signatures

  found_key :
      (id : ValidatorId) (vs : List Validator) (v : Validator)
      → HoldsKeys vs
      → find_validator id vs ≡ some v
      → v.consensus_key ≡ k.public_of (k.secret_of id)
  unfolding find_validator
  found_key id [] v h e = absurd (ground (arith, e))
  found_key id (w ∷ vs) v h e = elim (Bool-cases (w.id == id)) [
    | inl here ↦
        let same : w.id ≡ id = ground (arith, here) in
        let first : w ≡ v = ground (arith, here, e) in
        ap (λ (x : Validator). x.consensus_key) (sym first)
        ∙ h.0
        ∙ ap (λ i. k.public_of (k.secret_of i)) same
    | inr other ↦ found_key id vs v h.1 (ground (arith, other, e))
  ]

  collected :
      (message : List ℕ) (total : ℕ) (signatures : Map ℕ) (vs : List Validator)
      → HoldsKeys vs
      → Honest message signatures
      → let (sig_list, signer_list, stake) = collect_signatures total signatures vs in
        (sig_list ≡ map (k.sign message) (map k.secret_of signer_list))
        × (collect_keys total signer_list vs
            ≡ some (map k.public_of (map k.secret_of signer_list), stake))
  unfolding collect_signatures collect_keys
  collected message total [] vs h g = (refl, refl)
  collected message total ((id, s) ∷ rest) vs h g = elim (Option-cases (find_validator id vs)) [
    | inl missing ↦ rw (collect_signatures, missing) (collected message total rest vs h g.1)
    | inr (v, found) ↦
        let (sigs, keys) = collected message (add64 total v.bonded_stake) rest vs h g.1 in
        let own = found_key id vs v h found in
        rw (collect_signatures, found) (ground (arith, g.0, sigs), ground (arith, found, keys, own))
  ]

  all_well_formed :
      (p : Primitives) (message : List ℕ) (keys : List ℕ)
      → IsBls p k
      → all_of p.well_formed (map (k.sign message) keys) ≡ true
  all_well_formed p message [] b = refl
  all_well_formed p message (key ∷ keys) b =
      ground (arith, b.well_formed_sign message key, all_well_formed p message keys b)

  aggregated :
      (p : Primitives) (message : List ℕ) (key : ℕ) (keys : List ℕ)
      → IsBls p k
      → bls_aggregate p (map (k.sign message) (key ∷ keys))
        ≡ some (p.aggregate (map (k.sign message) (key ∷ keys)))
  unfolding bls_aggregate
  aggregated p message key keys b = ground (arith, all_well_formed p message (key ∷ keys) b)

  -- Where no signer is in the set, nothing is signed.
  no_signers :
      (total : ℕ) (signatures : Map ℕ) (vs : List Validator)
      → (collect_signatures total signatures vs).1 ≡ []
      → (collect_signatures total signatures vs).2 ≡ total
  unfolding collect_signatures
  no_signers total [] vs h = refl
  no_signers total ((id, s) ∷ rest) vs h = elim (Option-cases (find_validator id vs)) [
    | inl missing ↦
        rw (collect_signatures, missing) (no_signers total rest vs (ground (arith, h, missing)))
    | inr (v, found) ↦ absurd (ground (arith, h, found))
  ]

  -- A checkpoint that most of the stake signs is accepted by all: the validators of a set sign its hash, each
  -- with its own key, and the stake of those whose signatures came in is the required one, which is not zero.
  -- Then their aggregation is not refused, for lack of stake or for a malformed signature; it changes nothing
  -- of the checkpoint but its signature, and whoever has the same validator set verifies it.
  pub signed_checkpoint_verifies :
      (p : Primitives) (c : Checkpoint) (signatures : Map ℕ) (vs : ValidatorSet)
      → IsBls p k
      → HoldsKeys vs.validators
      → Honest (be_bytes 32 (checkpoint_hash p c)) signatures
      → 0 < required_stake vs.total_stake
      → required_stake vs.total_stake ≤ (collect_signatures 0 signatures vs.validators).2
      → (c' : Checkpoint) × (aggregate_signatures p c signatures vs ≡ signed c')
        × (serialize_contents c' ≡ serialize_contents c)
        × (verify_checkpoint p c' vs ≡ some true)
  unfolding aggregate_signatures verify_checkpoint checkpoint_hash serialize_contents
      bls_verify_aggregated
  signed_checkpoint_verifies p c signatures vs b h g some_stake enough =
      let message = be_bytes 32 (checkpoint_hash p c) in
      let vals = vs.validators in
      let signer_list = (collect_signatures 0 signatures vals).1 in
      let stake = (collect_signatures 0 signatures vals).2 in
      let (sigs, keys) = collected message 0 signatures vals h g in
      elim (list-cases signer_list) [
        | inl nobody ↦
            absurd (omega (arith, no_signers 0 signatures vals nobody, some_stake, enough))
        | inr (id, ids, e) ↦
            let aggregate = p.aggregate (map (k.sign message) (map k.secret_of (id ∷ ids))) in
            let c' = record c {
              aggregated_signature = aggregate;
              signers = signer_list;
              total_stake_signed = stake;
            } in
            let made : bls_aggregate p (collect_signatures 0 signatures vals).0 ≡ some aggregate =
              ap (bls_aggregate p) sigs
              ∙ ap (λ l. bls_aggregate p (map (k.sign message) (map k.secret_of l))) e
              ∙ aggregated p message (k.secret_of id) (map k.secret_of ids) b in
            let checked : bls_verify_aggregated p aggregate message
                  (map k.public_of (map k.secret_of signer_list))
                ≡ some true =
              ap
                (λ l.
                  bls_verify_aggregated p aggregate message (map k.public_of (map k.secret_of l)))
                e
              ∙ ap some (b.aggregate_verifies message (k.secret_of id) (map k.secret_of ids)) in
            let reached : ltb stake (required_stake vs.total_stake) ≡ false =
              ground (arith, enough) in
            let equal : (stake == stake) ≡ true = ground arith in
            (
              c',
              rw (aggregate_signatures, reached, made) refl,
              refl,
              rw (verify_checkpoint, reached, keys, equal) checked,
            )
      ]
