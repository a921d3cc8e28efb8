-- ===== src/Crypto/Merkle/Complete.antt =====
-- A proof that the tree gives for a leaf is accepted against the tree's root.
use sarafu_core.Base.{
  ℕ, zero, suc, ◌+◌, ◌/◌, ◌%◌, ◌<◌, ◌≤◌, ◌≡◌, refl, ◌∙◌, Bool, true, false, some, List, [], ◌∷◌,
  ◌==◌, ltb, if◌then◌else◌, length, get_or, arith, Bool-cases, inl, inr, ltb→lt, ==_iff,
}
use sarafu_core.Crypto.Merkle.{
  MerkleProof, get_sibling, siblings, generate_proof, next_level, build_levels, top, build_tree,
  climb, verify_proof,
}

module _ (hash_pair : ℕ → ℕ → ℕ) where
  length-next_level :
      (level : List ℕ) → length (next_level hash_pair level) ≡ (length level + 1) / 2
  unfolding next_level
  length-next_level [] = refl
  length-next_level (x ∷ []) = refl
  length-next_level (x ∷ y ∷ rest) = omega (arith, length-next_level rest)

  get_sibling-suc :
      (x y : ℕ) (rest : List ℕ) (i : ℕ)
      → i < length rest
      → get_sibling (x ∷ y ∷ rest) (suc (suc i)) ≡ get_sibling rest i
  unfolding get_sibling
  get_sibling-suc x y rest zero h = ground arith
  get_sibling-suc x y rest (suc i) h = ground arith

  -- A node hashed with its sibling, in their order, is the node above.
  parent_node :
      (level : List ℕ) (i : ℕ)
      → i < length level
      → (if i % 2 == 0
          then hash_pair (get_or level i 0) (get_sibling level i)
          else hash_pair (get_sibling level i) (get_or level i 0))
        ≡ get_or (next_level hash_pair level) (i / 2) 0
  unfolding next_level
  parent_node [] i h = elim h [ ]
  parent_node (x ∷ []) zero h = unfold get_sibling in refl
  parent_node (x ∷ []) (suc i) h = absurd (omega arith)
  parent_node (x ∷ y ∷ rest) zero h = unfold get_sibling in ground arith
  parent_node (x ∷ y ∷ rest) (suc zero) h = unfold get_sibling in ground arith
  parent_node (x ∷ y ∷ rest) (suc (suc i)) h =
      let parity : suc (suc i) % 2 ≡ i % 2 = omega arith in
      let half : suc (suc i) / 2 ≡ suc (i / 2) = omega arith in
      rw (get_sibling-suc x y rest i (omega arith), parity, half) (parent_node rest i (omega arith))

  siblings-cons :
      (fuel : ℕ) (level next : List ℕ) (i : ℕ)
      → siblings (level ∷ build_levels hash_pair fuel next) i
        ≡ get_sibling level i ∷ siblings (build_levels hash_pair fuel next) (i / 2)
  unfolding siblings build_levels
  siblings-cons zero level next i = refl
  siblings-cons (suc fuel) level next i = elim (Bool-cases (ltb 1 (length next))) [
    | inl more ↦ rw (more, siblings)
    | inr last ↦ rw (last, siblings)
  ]

  top-cons :
      (fuel : ℕ) (level next : List ℕ)
      → top hash_pair (level ∷ build_levels hash_pair fuel next)
        ≡ top hash_pair (build_levels hash_pair fuel next)
  unfolding top build_levels
  top-cons zero level next = refl
  top-cons (suc fuel) level next = elim (Bool-cases (ltb 1 (length next))) [
    | inl more ↦ rw (more, top)
    | inr last ↦ rw (last, top)
  ]

  climb-single :
      (level : List ℕ) (i : ℕ)
      → length level ≤ 1
      → i < length level
      → climb hash_pair (get_or level i 0) i (siblings (level ∷ []) i) ≡ top hash_pair (level ∷ [])
  unfolding climb siblings top
  climb-single [] i m h = elim h [ ]
  climb-single (x ∷ []) zero m h = refl
  climb-single (x ∷ []) (suc i) m h = absurd (omega arith)
  climb-single (x ∷ y ∷ rest) i m h = absurd (omega arith)

  climb-cons :
      (current i s : ℕ) (rest : List ℕ)
      → climb hash_pair current i (s ∷ rest)
        ≡ climb hash_pair
            (if i % 2 == 0 then hash_pair current s else hash_pair s current)
            (i / 2)
            rest
  unfolding climb
  climb-cons current i s rest = refl

  build_levels_more :
      (fuel : ℕ) (level : List ℕ)
      → ltb 1 (length level) ≡ true
      → build_levels hash_pair (suc fuel) level
        ≡ level ∷ build_levels hash_pair fuel (next_level hash_pair level)
  unfolding build_levels
  build_levels_more fuel level more = rw (more, build_levels)

  build_levels_last :
      (fuel : ℕ) (level : List ℕ)
      → ltb 1 (length level) ≡ false
      → build_levels hash_pair (suc fuel) level ≡ level ∷ []
  unfolding build_levels
  build_levels_last fuel level last = rw (last, build_levels)

  climb-siblings :
      (fuel : ℕ) (level : List ℕ) (i : ℕ)
      → length level ≤ fuel
      → i < length level
      → climb hash_pair (get_or level i 0) i (siblings (build_levels hash_pair fuel level) i)
        ≡ top hash_pair (build_levels hash_pair fuel level)
  climb-siblings zero level i m h = absurd (omega arith)
  climb-siblings (suc fuel) level i m h = elim (Bool-cases (ltb 1 (length level))) [
    | inl more ↦
        let next = next_level hash_pair level in
        rw
          (
            build_levels_more fuel level more,
            siblings-cons fuel level next i,
            top-cons fuel level next,
          )
          (climb-cons _ i _ _
            ∙ rw (parent_node level i h) (
                climb-siblings fuel next (i / 2)
                  (omega (arith, length-next_level level, ltb→lt _ _ more))
                  (omega (arith, length-next_level level))))
    | inr last ↦ rw (build_levels_last fuel level last) (climb-single level i (ground arith) h)
  ]

  pub verify_proof_lem :
      (p : MerkleProof) (root : ℕ)
      → verify_proof hash_pair p root
        ≡ (climb hash_pair p.leaf_hash p.leaf_index p.sibling_hashes == root)
  unfolding verify_proof climb
  verify_proof_lem p root = by_siblings p.sibling_hashes
    where
      by_siblings :
          (ss : List ℕ)
          → (elim ss as (λ x. Bool) [
            | [] ↦ p.leaf_hash == root
            | s ∷ rest ↦ climb hash_pair p.leaf_hash p.leaf_index (s ∷ rest) == root
          ])
            ≡ (climb hash_pair p.leaf_hash p.leaf_index ss == root)
      by_siblings [] = refl
      by_siblings (s ∷ rest) = refl

  -- For every leaf the tree gives a proof, with that leaf's hash and index, and the proof is
  -- accepted against the tree's root.
  pub verify_proof-generate_proof :
      (leaves : List ℕ) (i : ℕ)
      → i < length leaves
      → (p : MerkleProof) × (generate_proof (build_tree hash_pair leaves) i ≡ some p)
        × (p.leaf_index ≡ i)
        × (p.leaf_hash ≡ get_or leaves i 0)
        × (verify_proof hash_pair p (build_tree hash_pair leaves).root ≡ true)
  unfolding build_tree generate_proof
  verify_proof-generate_proof [] i h = elim h [ ]
  verify_proof-generate_proof (x ∷ []) zero h =
      let p : MerkleProof = record { leaf_index = 0; leaf_hash = x; sibling_hashes = [] } in
      (p, refl, refl, refl, rw (verify_proof_lem p x) (unfold climb in ground arith))
  verify_proof-generate_proof (x ∷ []) (suc i) h = absurd (omega arith)
  verify_proof-generate_proof (x ∷ y ∷ rest) i h =
      let leaves : List ℕ = x ∷ y ∷ rest in
      let levels = build_levels hash_pair (length leaves) leaves in
      let p : MerkleProof = record {
        leaf_index = i;
        leaf_hash = get_or leaves i 0;
        sibling_hashes = siblings levels i;
      } in
      (
        p,
        ground arith,
        refl,
        refl,
        verify_proof_lem p (top hash_pair levels)
            ∙ (==_iff _ _).1 (climb-siblings (length leaves) leaves i (omega arith) h),
      )
