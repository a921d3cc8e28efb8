-- ===== src/Crypto/Merkle/Sound.antt =====
-- What an accepted proof shows. `hash_pair` maps 64 bytes to 32, so no hypothesis can say that it is
-- injective: a proof of another leaf yields two pairs of hashes of 32 bytes with one hash instead.
use sarafu_core.Base.{
  ℕ, zero, suc, ◌+◌, ◌-◌, ◌/◌, ◌%◌, ◌^◌, ◌<◌, ◌≡◌, ◌≢◌, ◌⊎◌, sym, ap, subst, refl, ◌∙◌, true, some,
  List, [], ◌∷◌, ◌==◌, if◌then◌else◌, length, get_or, arith, ltb, leb, All, Bool-cases, inl, inr,
  ==_iff,
}
use sarafu_core.Crypto.Merkle.{
  MerkleProof, get_sibling, siblings, generate_proof, next_level, build_levels, build_tree, climb,
  verify_proof,
}
use sarafu_core.Crypto.Merkle.Complete.{verify_proof_lem, verify_proof-generate_proof}

-- A hash of 32 bytes.
abbrev pub IsHash : ℕ → Type 0
IsHash h = h < 256 ^ 32

-- Two different pairs of hashes with one hash.
pub record Collision (hash_pair : ℕ → ℕ → ℕ) (a b c d : ℕ) : Type 0 where
  pub a_fits : IsHash a
  pub b_fits : IsHash b
  pub c_fits : IsHash c
  pub d_fits : IsHash d
  pub same : hash_pair a b ≡ hash_pair c d
  pub differ : (a ≢ c) ⊎ (b ≢ d)

-- A node and its sibling, in their order.
abbrev pub left : ℕ → ℕ → ℕ → ℕ
left i h s = if i % 2 == 0 then h else s

abbrev pub right : ℕ → ℕ → ℕ → ℕ
right i h s = if i % 2 == 0 then s else h

-- Two climbs from `h` and `h'` hash two different pairs of hashes to one, at one of their steps.
abbrev pub Collides : (ℕ → ℕ → ℕ) → ℕ → ℕ → ℕ → List ℕ → List ℕ → Type 0
Collides hash_pair h h' i (s ∷ ss) (s' ∷ ss') =
    Collision hash_pair (left i h s) (right i h s) (left i h' s') (right i h' s')
    ⊎ Collides hash_pair (hash_pair (left i h s) (right i h s))
        (hash_pair (left i h' s') (right i h' s')) (i / 2) ss ss'
Collides hash_pair h h' i _ _ = ⊥

get_or-IsHash : (hs : List ℕ) (i : ℕ) → All IsHash hs → IsHash (get_or hs i 0)
get_or-IsHash [] i h = omega arith
get_or-IsHash (x ∷ hs) zero h = h.0
get_or-IsHash (x ∷ hs) (suc i) h = get_or-IsHash hs i h.1

get_sibling-IsHash : (level : List ℕ) (i : ℕ) → All IsHash level → IsHash (get_sibling level i)
unfolding get_sibling
get_sibling-IsHash level i h =
    let sibling_index = if i % 2 == 0 then i + 1 else i - 1 in
    elim (Bool-cases (ltb sibling_index (length level))) [
      | inl there ↦ rw there (get_or-IsHash level sibling_index h)
      | inr missing ↦ rw missing (get_or-IsHash level i h)
    ]

siblings-IsHash :
    (levels : List (List ℕ)) (i : ℕ) → All (All IsHash) levels → All IsHash (siblings levels i)
unfolding siblings
siblings-IsHash [] i h = tt
siblings-IsHash (level ∷ []) i h = tt
siblings-IsHash (level ∷ next ∷ levels) i h =
    (get_sibling-IsHash level i h.0, siblings-IsHash (next ∷ levels) (i / 2) h.1)

module _ (hash_pair : ℕ → ℕ → ℕ) (hashes : (a b : ℕ) → IsHash (hash_pair a b)) where
  next_level-IsHash : (level : List ℕ) → All IsHash (next_level hash_pair level)
  unfolding next_level
  next_level-IsHash [] = tt
  next_level-IsHash (x ∷ []) = (hashes x x, tt)
  next_level-IsHash (x ∷ y ∷ rest) = (hashes x y, next_level-IsHash rest)

  build_levels-IsHash :
      (fuel : ℕ) (level : List ℕ)
      → All IsHash level
      → All (All IsHash) (build_levels hash_pair fuel level)
  unfolding build_levels
  build_levels-IsHash zero level h = (h, tt)
  build_levels-IsHash (suc fuel) level h = elim (Bool-cases (ltb 1 (length level))) [
    | inl more ↦
        rw (more, build_levels)
          (h, build_levels-IsHash fuel (next_level hash_pair level) (next_level-IsHash level))
    | inr last ↦ rw (last, build_levels) (h, tt)
  ]

  generate_proof-IsHash :
      (leaves : List ℕ) (i : ℕ) (q : MerkleProof)
      → All IsHash leaves
      → generate_proof (build_tree hash_pair leaves) i ≡ some q
      → All IsHash q.sibling_hashes
  unfolding generate_proof build_tree
  generate_proof-IsHash [] i q h e = absurd (ground (arith, e))
  generate_proof-IsHash (x ∷ []) i q h e = elim (Bool-cases (leb 1 i)) [
    | inl beyond ↦ absurd (ground (arith, e, beyond))
    | inr within ↦
        let none_there : q.sibling_hashes ≡ [] = ground (arith, e, within) in rw none_there tt
  ]
  generate_proof-IsHash (x ∷ y ∷ rest) i q h e =
      let leaves : List ℕ = x ∷ y ∷ rest in
      let levels = build_levels hash_pair (length leaves) leaves in
      elim (Bool-cases (leb (length leaves) i)) [
        | inl beyond ↦ absurd (ground (arith, e, beyond))
        | inr within ↦
            let those : q.sibling_hashes ≡ siblings levels i = ground (arith, e, within) in
            rw those (siblings-IsHash levels i (build_levels-IsHash (length leaves) leaves h))
      ]

  in_order :
      (h i s : ℕ)
      → (if i % 2 == 0 then hash_pair h s else hash_pair s h) ≡ hash_pair (left i h s) (right i h s)
  in_order h i s = elim (Bool-cases (i % 2 == 0)) [
    | inl even ↦ rw even refl
    | inr odd ↦ rw odd refl
  ]

  hash_up :
      (h h' i s s' : ℕ)
      → IsHash h
      → IsHash h'
      → IsHash s
      → IsHash s'
      → hash_pair (left i h s) (right i h s) ≡ hash_pair (left i h' s') (right i h' s')
      → (h ≡ h') ⊎ Collision hash_pair (left i h s) (right i h s) (left i h' s') (right i h' s')
  hash_up h h' i s s' f f' g g' e = elim (Bool-cases (h == h')) [
    | inl same ↦ inl ((==_iff h h').0 same)
    | inr other ↦ inr (record {
      a_fits = ground (arith, f, g);
      b_fits = ground (arith, f, g);
      c_fits = ground (arith, f', g');
      d_fits = ground (arith, f', g');
      same = e;
      differ = elim (Bool-cases (i % 2 == 0)) [
        | inl even ↦ inl (ground (arith, even, other))
        | inr odd ↦ inr (ground (arith, odd, other))
      ];
    })
  ]

  -- Two climbs of one height from one index that meet have one start, or collide.
  climb-meet :
      (ss ss' : List ℕ) (h h' i : ℕ)
      → All IsHash ss
      → All IsHash ss'
      → IsHash h
      → IsHash h'
      → length ss ≡ length ss'
      → climb hash_pair h i ss ≡ climb hash_pair h' i ss'
      → (h ≡ h') ⊎ Collides hash_pair h h' i ss ss'
  unfolding climb
  climb-meet [] [] h h' i a a' f f' n e = inl e
  climb-meet [] (s' ∷ ss') h h' i a a' f f' n e = absurd (omega arith)
  climb-meet (s ∷ ss) [] h h' i a a' f f' n e = absurd (omega arith)
  climb-meet (s ∷ ss) (s' ∷ ss') h h' i a a' f f' n e =
      let up = hash_pair (left i h s) (right i h s) in
      let up' = hash_pair (left i h' s') (right i h' s') in
      let met : climb hash_pair up (i / 2) ss ≡ climb hash_pair up' (i / 2) ss' =
        sym (ap (λ x. climb hash_pair x (i / 2) ss) (in_order h i s))
        ∙ (e ∙ ap (λ x. climb hash_pair x (i / 2) ss') (in_order h' i s')) in
      elim (climb-meet ss ss' up up' (i / 2) a.1 a'.1 (hashes _ _) (hashes _ _) (omega arith) met) [
        | inl same ↦ elim (hash_up h h' i s s' f f' a.0 a'.0 same) [
          | inl start ↦ inl start
          | inr collision ↦ inr (inl collision)
        ]
        | inr above ↦ inr (inr above)
      ]

  -- Over leaves that are hashes of 32 bytes: a proof of such hashes that is accepted against the root of the
  -- tree, at the index of a leaf and with as many siblings as the tree's own proof `q`, is for that leaf's
  -- hash, or at one of their steps the two proofs hash different pairs of hashes of 32 bytes to one.
  pub verify_proof_sound :
      (leaves : List ℕ) (p q : MerkleProof)
      → All IsHash leaves
      → IsHash p.leaf_hash
      → All IsHash p.sibling_hashes
      → p.leaf_index < length leaves
      → generate_proof (build_tree hash_pair leaves) p.leaf_index ≡ some q
      → length p.sibling_hashes ≡ length q.sibling_hashes
      → verify_proof hash_pair p (build_tree hash_pair leaves).root ≡ true
      → (p.leaf_hash ≡ get_or leaves p.leaf_index 0)
        ⊎ Collides hash_pair p.leaf_hash q.leaf_hash p.leaf_index p.sibling_hashes q.sibling_hashes
  verify_proof_sound leaves p q all_hashes leaf_fits siblings_fit bound found n accepted =
      let (own, e, index, leaf, ok) =
        verify_proof-generate_proof hash_pair leaves p.leaf_index bound in
      let own_root = (==_iff _ _).0 (sym (verify_proof_lem hash_pair own _) ∙ ok) in
      let root = (==_iff _ _).0 (sym (verify_proof_lem hash_pair p _) ∙ accepted) in
      let same : own ≡ q = cc in
      let n' : length p.sibling_hashes ≡ length own.sibling_hashes =
        n ∙ ap (λ (r : MerkleProof). length r.sibling_hashes) (sym same) in
      let meet : climb hash_pair p.leaf_hash p.leaf_index p.sibling_hashes
          ≡ climb hash_pair own.leaf_hash p.leaf_index own.sibling_hashes =
        root ∙ sym (rw index at own_root) in
      let own_fits = subst IsHash (sym leaf) (get_or-IsHash leaves p.leaf_index all_hashes) in
      elim (climb-meet p.sibling_hashes own.sibling_hashes p.leaf_hash own.leaf_hash p.leaf_index
        siblings_fit (generate_proof-IsHash leaves p.leaf_index own all_hashes e) leaf_fits own_fits
        n' meet) [
          | inl here ↦ inl (here ∙ leaf)
          | inr collides ↦ inr (
              subst
                (λ r.
                  Collides hash_pair p.leaf_hash r.leaf_hash p.leaf_index p.sibling_hashes
                    r.sibling_hashes)
                same collides)
        ]
