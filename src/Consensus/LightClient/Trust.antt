-- ===== src/Consensus/LightClient/Trust.antt =====
-- What a light client lets itself be told: it never goes back, and whom it believes.
use sarafu_core.Base.{
  ℕ, ◌+◌, ◌<◌, ◌≤◌, ◌≡◌, ◌≢◌, ◌⊎◌, refl, ◌∙◌, arith, true, false, List, [], ◌∷◌, ◌==◌, inl, inr,
}
use sarafu_core.Base.Word.{u64_mod, add64}
use sarafu_core.Codec.{be_bytes}
use sarafu_core.Crypto.{Primitives}
use sarafu_core.Consensus.Types.{BlockHeader, QuorumCertificate, Validator}
use sarafu_core.Consensus.Codec.{serialize_header}
use sarafu_core.Consensus.LightClient.{
  LightClientState, LightClient, HeaderProof, initialize, stakes_from, calculate_total_stake,
  has_supermajority, verify_aggregated_signature, verify_header, update_epoch,
}

-- A proof that one validator makes of a header, who says that no one else has any stake.
abbrev pub alone : BlockHeader → QuorumCertificate → Validator → HeaderProof
alone header qc v = record {
  header = header;
  qc = qc;
  validator_set_merkle_proof = [];
  signing_validators = v ∷ [];
  total_validator_set_stake = 1;
}

-- The calls that may change a light client.
pub data Call : Type 0 where
  initializes : LightClientState → Call
  verifies : HeaderProof → Call
  updates : ℕ → ℕ → QuorumCertificate → Call

module _ (p : Primitives) where
  abbrev pub after : LightClient → Call → LightClient
  after c (initializes s) = (initialize c s).0
  after c (verifies proof) = (verify_header p c proof).0
  after c (updates epoch root qc) = (update_epoch c epoch root qc).0

  unfoldable pub run : LightClient → List Call → LightClient
  run c [] = c
  run c (call ∷ calls) = run (after c call) calls

  -- The client stays initialized; its height does not go back, and while it stays so does the hash.
  record Onward (c c' : LightClient) : Type 0 where
    still : c'.initialized ≡ true
    height : c.state.finalized_height ≤ c'.state.finalized_height
    hash :
        (c.state.finalized_height < c'.state.finalized_height)
        ⊎ (c'.state.finalized_block_hash ≡ c.state.finalized_block_hash)

  after-Onward : (c : LightClient) (call : Call) → c.initialized ≡ true → Onward c (after c call)
  unfolding initialize verify_header update_epoch
  after-Onward c (initializes s) h = record {
    still = ground (arith, h);
    height = ground (arith, h);
    hash = ground (arith, h);
  }
  after-Onward c (verifies proof) h = record {
    still = ground (arith, h);
    height = ground (arith, h);
    hash = ground (arith, h);
  }
  after-Onward c (updates epoch root qc) h = record {
    still = ground (arith, h);
    height = ground (arith, h);
    hash = ground (arith, h);
  }

  Onward-trans : (a b c : LightClient) → Onward a b → Onward b c → Onward a c
  Onward-trans a b c f g = record {
    still = g.still;
    height = omega (arith, f.height, g.height);
    hash = later f.hash g.hash;
  }
    where
      later :
          (a.state.finalized_height < b.state.finalized_height)
            ⊎ (b.state.finalized_block_hash ≡ a.state.finalized_block_hash)
          → (b.state.finalized_height < c.state.finalized_height)
            ⊎ (c.state.finalized_block_hash ≡ b.state.finalized_block_hash)
          → (a.state.finalized_height < c.state.finalized_height)
            ⊎ (c.state.finalized_block_hash ≡ a.state.finalized_block_hash)
      later (inl up) _ = inl (omega (arith, up, g.height))
      later (inr _) (inl up) = inl (omega (arith, up, f.height))
      later (inr e) (inr e') = inr (e' ∙ e)

  run-Onward : (c : LightClient) (calls : List Call) → c.initialized ≡ true → Onward c (run c calls)
  unfolding run
  run-Onward c [] h = record { still = h; height = omega arith; hash = inr refl }
  run-Onward c (call ∷ calls) h =
      let first = after-Onward c call h in
      Onward-trans c (after c call) (run (after c call) calls) first
        (run-Onward (after c call) calls first.still)

  -- What the client finalizes with a header that it accepts.
  accepted :
      (c : LightClient) (proof : HeaderProof)
      → (verify_header p c proof).1 ≡ true
      → let s = (verify_header p c proof).0 in
        (s.initialized ≡ true)
        × (s.state.finalized_height ≡ proof.header.height)
        × (s.state.finalized_block_hash ≡ p.blake3 (serialize_header proof.header))
        × (c.state.finalized_height < proof.header.height)
        × (((proof.header.height == add64 c.state.finalized_height 1) ≡ false)
            ⊎ (proof.header.previous_hash ≡ c.state.finalized_block_hash))
  unfolding verify_header
  accepted c proof h = ground (arith, h)

  -- A light client finalizes one chain: of two headers that it accepts, with whatever calls between, the
  -- second is higher, and where it is the next one its previous hash is the hash of the first. Heights are of
  -- 64 bits.
  pub accepted_headers_chain :
      (c : LightClient) (first second : HeaderProof) (calls : List Call)
      → (verify_header p c first).1 ≡ true
      → (verify_header p (run (verify_header p c first).0 calls) second).1 ≡ true
      → second.header.height < u64_mod
      → (first.header.height < second.header.height)
        × ((first.header.height + 1 < second.header.height)
            ⊎ (second.header.previous_hash ≡ p.blake3 (serialize_header first.header)))
  accepted_headers_chain c first second calls h g fits =
      let c₁ = (verify_header p c first).0 in
      let c₂ = run c₁ calls in
      let (on, height, hash, _, _) = accepted c first h in
      let (_, _, _, above, links) = accepted c₂ second g in
      let between = run-Onward c₁ calls on in
      (omega (arith, height, between.height, above), linked links between.hash)
    where
      linked :
          ((second.header.height
                == add64 (run (verify_header p c first).0 calls).state.finalized_height 1)
              ≡ false)
            ⊎ (second.header.previous_hash
                ≡ (run (verify_header p c first).0 calls).state.finalized_block_hash)
          → ((verify_header p c first).0.state.finalized_height
              < (run (verify_header p c first).0 calls).state.finalized_height)
            ⊎ ((run (verify_header p c first).0 calls).state.finalized_block_hash
                ≡ (verify_header p c first).0.state.finalized_block_hash)
          → (first.header.height + 1 < second.header.height)
            ⊎ (second.header.previous_hash ≡ p.blake3 (serialize_header first.header))
      linked _ (inl up) = inl (
          omega (
            arith,
            up,
            (accepted c first h).1,
            (accepted (run (verify_header p c first).0 calls) second g).3,
          ))
      linked (inr previous) (inr kept) = inr (previous ∙ kept ∙ (accepted c first h).2)
      linked (inl far) (inr kept) = inl (
          ground (
            arith,
            far,
            fits,
            (accepted c first h).1,
            (run-Onward (verify_header p c first).0 calls (accepted c first h).0).height,
            (accepted (run (verify_header p c first).0 calls) second g).3,
          ))

  -- The total stake and the signing validators are the prover's own: whatever the validator set of the
  -- client's state, it finalizes a next header, or any later one of its epoch, that one validator of one
  -- unit of stake signed, who need not be in that set, with no Merkle path at all.
  pub verify_header_believes_anyone :
      (s : LightClientState) (header : BlockHeader) (qc : QuorumCertificate) (v : Validator)
      → header.epoch ≡ s.current_epoch
      → s.finalized_height < header.height
      → (header.height ≢ add64 s.finalized_height 1)
        ⊎ (header.previous_hash ≡ s.finalized_block_hash)
      → v.bonded_stake ≡ 1
      → p.verify_aggregated qc.aggregated_signature
          (be_bytes 32 (p.blake3 (serialize_header header)))
          (v.consensus_key ∷ [])
        ≡ true
      → let (c', accepts) =
          verify_header p (record { state = s; initialized = true }) (alone header qc v) in
        (accepts ≡ true) × (c'.state.finalized_height ≡ header.height)
  unfolding verify_header has_supermajority calculate_total_stake stakes_from
      verify_aggregated_signature
  verify_header_believes_anyone s header qc v e up links one signs =
      ground (arith, e, up, links, one, signs)
