-- ===== src/Crypto/Merkle/Tests.antt =====
-- Trees of five leaves over a small pairing, run and checked.
use sarafu_core.Base.{
  ℕ, ◌+◌, ◌*◌, ◌%◌, ◌^◌, ◌≡◌, ◌⊎◌, refl, true, false, some, List, [], ◌∷◌, arith, get_or,
}
use sarafu_core.Crypto.Merkle.{
  MerkleProof, generate_proof, build_tree, verify_proof, build_levels, top, next_level, siblings,
  get_sibling, climb,
}
use sarafu_core.Crypto.Merkle.Complete.{verify_proof-generate_proof}
use sarafu_core.Crypto.Merkle.Sound.{IsHash, Collides, verify_proof_sound}

abbrev toy_pair : ℕ → ℕ → ℕ
toy_pair a b = a + 2 * b + 1

abbrev five : List ℕ
five = 10 ∷ 20 ∷ 30 ∷ 40 ∷ 50 ∷ []

abbrev proof_4 : MerkleProof
proof_4 = record { leaf_index = 4; leaf_hash = 50; sibling_hashes = 50 ∷ 151 ∷ 274 ∷ [] }

proof-five : generate_proof (build_tree toy_pair five) 4 ≡ some proof_4
unfolding generate_proof build_tree build_levels next_level siblings get_sibling
proof-five = refl

verify_wrong_leaf :
    verify_proof toy_pair (record proof_4 { leaf_hash = 51 }) (build_tree toy_pair five).root
    ≡ false
unfolding verify_proof build_tree build_levels next_level top climb
verify_wrong_leaf = refl

verify_proof-generate_proof_example :
    (p : MerkleProof) × (generate_proof (build_tree toy_pair five) 4 ≡ some p)
    × (p.leaf_index ≡ 4)
    × (p.leaf_hash ≡ 50)
    × (verify_proof toy_pair p (build_tree toy_pair five).root ≡ true)
verify_proof-generate_proof_example = verify_proof-generate_proof toy_pair five 4 (omega arith)

-- A pairing that stays in 32 bytes, and the proof of the last of the five leaves.
abbrev short_pair : ℕ → ℕ → ℕ
short_pair a b = (a + 2 * b + 1) % 256 ^ 32

short_pair-IsHash : (a b : ℕ) → IsHash (short_pair a b)
short_pair-IsHash a b = omega arith

verify_proof_sound_example :
    (proof_4.leaf_hash ≡ get_or five 4 0)
    ⊎ Collides short_pair 50 50 4 (50 ∷ 151 ∷ 274 ∷ []) (50 ∷ 151 ∷ 274 ∷ [])
unfolding generate_proof build_tree build_levels next_level siblings get_sibling verify_proof top
    climb
verify_proof_sound_example =
    verify_proof_sound short_pair short_pair-IsHash five proof_4 proof_4
      (omega arith, (omega arith, (omega arith, (omega arith, (omega arith, tt))))) (omega arith)
      (omega arith, (omega arith, (omega arith, tt))) (omega arith) refl refl refl
