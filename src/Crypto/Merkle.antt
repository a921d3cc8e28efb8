-- ===== src/Crypto/Merkle.antt =====
-- src/crypto/merkle_tree.cpp.
pub mod Complete
pub mod Sound
mod Bytes
pub mod Tests
use sarafu_core.Base.{
  ℕ, zero, suc, ◌+◌, ◌-◌, ◌/◌, ◌%◌, Bool, Option, none, some, List, [], ◌∷◌, ◌==◌, ltb, leb,
  if◌then◌else◌, length, get_or,
}

pub record MerkleTree : Type 0 where
  pub root : ℕ
  pub leaves : List ℕ
  pub tree_levels : List (List ℕ)

pub record MerkleProof : Type 0 where
  pub leaf_index : ℕ
  pub leaf_hash : ℕ
  pub sibling_hashes : List ℕ

abbrev pub head_or_zero : List ℕ → ℕ
head_or_zero [] = 0
head_or_zero (x ∷ _) = x

-- The sibling of a node, or the node itself where it has none.
pub get_sibling : List ℕ → ℕ → ℕ
get_sibling nodes index =
    let sibling_index = if index % 2 == 0 then index + 1 else index - 1 in
    if ltb sibling_index (length nodes) then get_or nodes sibling_index 0 else get_or nodes index 0

-- The siblings on the way up: one for each level but the last.
pub siblings : List (List ℕ) → ℕ → List ℕ
siblings [] index = []
siblings (level ∷ []) index = []
siblings (level ∷ next ∷ levels) index =
    get_sibling level index ∷ siblings (next ∷ levels) (index / 2)

pub generate_proof : MerkleTree → ℕ → Option MerkleProof
generate_proof t index =
    if leb (length t.leaves) index
    then none
    else if length t.leaves == 1
    then some
        (record { leaf_index = index; leaf_hash = head_or_zero t.leaves; sibling_hashes = [] })
    else some (record {
      leaf_index = index;
      leaf_hash = get_or t.leaves index 0;
      sibling_hashes = siblings t.tree_levels index;
    })

-- `hash_pair` is a parameter of what follows: `Crypto.hash_pair` in the program.
module _ (hash_pair : ℕ → ℕ → ℕ) where
  -- One round of `build_internal_tree`: an odd last node is paired with itself.
  pub next_level : List ℕ → List ℕ
  next_level [] = []
  next_level (left ∷ []) = hash_pair left left ∷ []
  next_level (left ∷ right ∷ rest) = hash_pair left right ∷ next_level rest

  -- The levels that `build_internal_tree` pushes, the leaves first.
  pub build_levels : ℕ → List ℕ → List (List ℕ)
  build_levels zero level = level ∷ []
  build_levels (suc fuel) level = elim (ltb 1 (length level)) [
    | Bool.true ↦ level ∷ build_levels fuel (next_level level)
    | Bool.false ↦ level ∷ []
  ]

  -- `current_level[0]` when the loop ends.
  pub top : List (List ℕ) → ℕ
  top [] = 0
  top (level ∷ []) = head_or_zero level
  top (level ∷ next ∷ levels) = top (next ∷ levels)

  unfoldable pub build_tree : List ℕ → MerkleTree
  build_tree [] = record { root = 0; leaves = []; tree_levels = [] }
  build_tree (x ∷ []) = record { root = x; leaves = x ∷ []; tree_levels = (x ∷ []) ∷ [] }
  build_tree (x ∷ y ∷ rest) =
      let leaves = x ∷ y ∷ rest in
      let levels = build_levels (length leaves) leaves in
      record { root = top levels; leaves = leaves; tree_levels = levels }

  -- The loop of `verify_proof`.
  pub climb : ℕ → ℕ → List ℕ → ℕ
  climb current index [] = current
  climb current index (sibling ∷ rest) =
      climb (if index % 2 == 0 then hash_pair current sibling else hash_pair sibling current)
        (index / 2) rest

  pub verify_proof : MerkleProof → ℕ → Bool
  verify_proof p root = elim p.sibling_hashes [
    | [] ↦ p.leaf_hash == root
    | s ∷ rest ↦ climb p.leaf_hash p.leaf_index (s ∷ rest) == root
  ]
