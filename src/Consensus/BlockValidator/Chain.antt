-- ===== src/Consensus/BlockValidator/Chain.antt =====
-- What a validated block is, and what a chain of them is bound to.
use sarafu_core.Base.{
  ℕ, suc, ◌<◌, ◌≡◌, ◌≢◌, ◌↔◌, ◌⊎◌, refl, ap, sym, subst, ◌∙◌, arith, Bool, true, false, Option,
  none, some, List, [], ◌∷◌, map, ◌==◌, ◌&&◌, if◌then◌else◌, All, length, Bool-cases, Option-cases,
  inl, inr,
}
use sarafu_core.Base.Word.{add64}
use sarafu_core.Crypto.{Primitives, hash_pair}
use sarafu_core.Crypto.Merkle.{build_tree}
use sarafu_core.State.Types.{Transaction, Hash}
use sarafu_core.State.Accounts.{Accounts}
use sarafu_core.State.Validator.{tx_hash}
use sarafu_core.State.Machine.{compute_state_root}
use sarafu_core.Consensus.Types.{Block, BlockHeader, QuorumCertificate, Validator}
use sarafu_core.Consensus.ValidatorSet.{find_validator, is_active_status}
use sarafu_core.Consensus.Codec.{block_hash, serialize_header, deserialize_header}
use sarafu_core.Consensus.Codec.Ranges.{HeaderFits}
use sarafu_core.Consensus.Codec.RoundTrip.{deserialize_header-serialize}
use sarafu_core.Consensus.BlockValidator.{
  verify_block_height, verify_block_hash_chain, verify_timestamp, verify_proposer,
  verify_transactions_root, verify_transactions_from, verify_transactions, verify_state_root,
  validate_block, or_else, BlockError,
}

-- The Merkle root of the transactions' hashes, zero for none.
abbrev pub root_of : Primitives → List Transaction → Hash
root_of p txs = (build_tree (hash_pair p) (map (tx_hash p) txs)).root

-- The structural conditions on a transaction.
abbrev pub WellFormed : Transaction → Type 0
WellFormed tx = (tx.from ≢ 0) × (tx.to ≢ 0) × (tx.chain_id ≡ 1)

-- What it takes for a block to pass, in no order.
pub record IsValid (p : Primitives) (vs : List Validator) (b parent : Block) : Type 0 where
  pub height : b.header.height ≡ add64 parent.header.height 1
  pub previous : b.header.previous_hash ≡ block_hash p parent
  pub timestamp : parent.header.timestamp < b.header.timestamp
  pub proposer :
      (v : Validator) × (find_validator b.header.proposer vs ≡ some v)
      × (is_active_status v.status ≡ true)
  pub root : b.header.transactions_root ≡ root_of p b.transactions
  pub transactions : All WellFormed b.transactions

module _ (p : Primitives) (vs : List Validator) where
  or_else-none :
      (o next : Option BlockError) → (or_else p o next ≡ none) ↔ ((o ≡ none) × (next ≡ none))
  or_else-none none next = (λ h. (refl, h), λ h. h.1)
  or_else-none (some e) next = (λ h. absurd (ground (arith, h)), λ h. absurd (ground (arith, h)))

  transactions_iff :
      (i : ℕ) (txs : List Transaction)
      → (verify_transactions_from i txs ≡ none) ↔ All WellFormed txs
  unfolding verify_transactions_from
  transactions_iff i [] = (λ h. tt, λ h. refl)
  transactions_iff i (tx ∷ txs) = (
    λ h. ground (arith, h, (transactions_iff (suc i) txs).0),
    λ h. ground (arith, h, (transactions_iff (suc i) txs).1),
  )

  root_iff :
      (header : BlockHeader) (txs : List Transaction) (justify : QuorumCertificate)
      → let b : Block = record { header = header; transactions = txs; justify = justify } in
        (verify_transactions_root p b ≡ none) ↔ (header.transactions_root ≡ root_of p txs)
  unfolding verify_transactions_root build_tree
  root_iff header [] justify = (λ h. ground (arith, h), λ h. ground (arith, h))
  root_iff header (tx ∷ txs) justify = (λ h. ground (arith, h), λ h. ground (arith, h))

  proposer_iff :
      (b : Block)
      → (verify_proposer vs b ≡ none) ↔ (
          (v : Validator) × (find_validator b.header.proposer vs ≡ some v)
          × (is_active_status v.status ≡ true))
  unfolding verify_proposer
  proposer_iff b = elim (Option-cases (find_validator b.header.proposer vs)) [
    | inl missing ↦
        (λ h. absurd (ground (arith, h, missing)), λ (v, e, a). absurd (ground (arith, e, missing)))
    | inr (v, found) ↦
        (λ h. (v, found, ground (arith, h, found)), λ (w, e, a). ground (arith, e, a))
  ]

  -- A block passes after a parent exactly when, the state root not asked for, it is one higher, names the
  -- parent's hash and a later time, its proposer is active in the set, its root is that of its transactions,
  -- and every transaction has two addresses that are not zero and the chain id 1; and where the state root is
  -- asked for, when that is the root of the accounts as they stand.
  pub validate_block_iff :
      (accounts : Accounts) (b parent : Block) (with_state_root : Bool)
      → (validate_block p vs accounts b parent with_state_root ≡ none) ↔ (
          IsValid p vs b parent
          × ((with_state_root ≡ false) ⊎ (b.header.state_root ≡ compute_state_root p accounts)))
  unfolding validate_block verify_block_height verify_block_hash_chain verify_timestamp
      verify_transactions verify_state_root
  validate_block_iff accounts b parent with_state_root =
      let root = root_iff b.header b.transactions b.justify in
      let txs = transactions_iff 0 b.transactions in
      let proposer = proposer_iff b in
      (
        λ h.
            let (h₁, r₁) = (or_else-none (verify_block_height b parent) _).0 h in
            let (h₂, r₂) = (or_else-none (verify_block_hash_chain p b parent) _).0 r₁ in
            let (h₃, r₃) = (or_else-none (verify_timestamp b parent) _).0 r₂ in
            let (h₄, r₄) = (or_else-none (verify_proposer vs b) _).0 r₃ in
            let (h₅, r₅) = (or_else-none (verify_transactions_root p b) _).0 r₄ in
            let (h₆, r₆) = (or_else-none (verify_transactions b) _).0 r₅ in
            (
              record {
                height = ground (arith, h₁);
                previous = ground (arith, h₂);
                timestamp = ground (arith, h₃);
                proposer = proposer.0 h₄;
                root = root.0 h₅;
                transactions = txs.0 h₆;
              },
              ground (arith, r₆),
            ),
        λ (v, s).
            let h₁ : verify_block_height b parent ≡ none = ground (arith, v.height) in
            let h₂ : verify_block_hash_chain p b parent ≡ none = ground (arith, v.previous) in
            let h₃ : verify_timestamp b parent ≡ none = ground (arith, v.timestamp) in
            let h₆ : (if with_state_root then verify_state_root p accounts b else none) ≡ none =
              ground (arith, s) in
            rw
              (
                validate_block,
                h₁,
                h₂,
                h₃,
                proposer.1 v.proposer,
                root.1 v.root,
                verify_transactions,
                txs.1 v.transactions,
                h₆,
              )
              refl,
      )

-- Two different headers with one hash.
abbrev pub Collision : Primitives → Type 0
Collision p =
    (a : BlockHeader) × (b : BlockHeader) × (p.blake3 (serialize_header a)
      ≡ p.blake3 (serialize_header b))
    × (serialize_header a ≢ serialize_header b)

same_list : List ℕ → List ℕ → Bool
same_list [] [] = true
same_list [] (y ∷ ys) = false
same_list (x ∷ xs) [] = false
same_list (x ∷ xs) (y ∷ ys) = x == y && same_list xs ys

same_list-eq : (xs ys : List ℕ) → same_list xs ys ≡ true → xs ≡ ys
unfolding same_list
same_list-eq [] [] h = refl
same_list-eq [] (y ∷ ys) h = absurd (ground (arith, h))
same_list-eq (x ∷ xs) [] h = absurd (ground (arith, h))
same_list-eq (x ∷ xs) (y ∷ ys) h = ground (arith, h, same_list-eq xs ys)

same_list_refl : (xs : List ℕ) → same_list xs xs ≡ true
unfolding same_list
same_list_refl [] = refl
same_list_refl (x ∷ xs) = ground (arith, same_list_refl xs)

-- Every block of a list, the newest first, passes after the one before it.
abbrev pub IsChain : Primitives → List Validator → Accounts → List Block → Type 0
IsChain p vs accounts [] = Unit
IsChain p vs accounts (b ∷ []) = Unit
IsChain p vs accounts (b ∷ c ∷ rest) =
    (validate_block p vs accounts b c false ≡ none) × IsChain p vs accounts (c ∷ rest)

abbrev pub headers : List Block → List BlockHeader
headers = map (λ (b : Block). b.header)

module _ (p : Primitives) (vs ws : List Validator) (m n : Accounts) where
  one_preimage :
      (a b : BlockHeader)
      → HeaderFits a
      → HeaderFits b
      → p.blake3 (serialize_header a) ≡ p.blake3 (serialize_header b)
      → (a ≡ b) ⊎ Collision p
  one_preimage a b f g e = elim (Bool-cases (same_list (serialize_header a) (serialize_header b))) [
    | inl same ↦
        let bytes = same_list-eq (serialize_header a) (serialize_header b) same in
        inl (
          some-inj (
            sym (deserialize_header-serialize a f)
            ∙ ap deserialize_header bytes
            ∙ deserialize_header-serialize b g))
    | inr other ↦ inr (
      a,
      b,
      e,
      λ bytes. absurd (
          ground (
            arith,
            other,
            subst (λ l. same_list (serialize_header a) l ≡ true) bytes
                (same_list_refl (serialize_header a)),
          )),
    )
  ]
    where
      some-inj : {x y : BlockHeader} → some x ≡ some y → x ≡ y
      some-inj h = ground (arith, h)

  -- The head of a chain settles its history: two chains of one length, each of blocks that pass one after
  -- the other, whatever validators and accounts each was checked with, and whose newest headers are the same,
  -- have the same headers throughout, or two different headers with one hash are at hand.
  pub validated_chains_agree :
      (b c : Block) (bs cs : List Block)
      → IsChain p vs m (b ∷ bs)
      → IsChain p ws n (c ∷ cs)
      → All (λ x. HeaderFits x.header) (b ∷ bs)
      → All (λ x. HeaderFits x.header) (c ∷ cs)
      → length bs ≡ length cs
      → b.header ≡ c.header
      → (headers (b ∷ bs) ≡ headers (c ∷ cs)) ⊎ Collision p
  unfolding block_hash
  validated_chains_agree b c [] [] h k f g l e = inl (ap (λ x. x ∷ []) e)
  validated_chains_agree b c [] (c' ∷ cs) h k f g l e = absurd (omega (arith, l))
  validated_chains_agree b c (b' ∷ bs) [] h k f g l e = absurd (omega (arith, l))
  validated_chains_agree b c (b' ∷ bs) (c' ∷ cs) h k f g l e =
      let left = ((validate_block_iff p vs m b b' false).0 h.0).0 in
      let right = ((validate_block_iff p ws n c c' false).0 k.0).0 in
      let hashes : p.blake3 (serialize_header b'.header) ≡ p.blake3 (serialize_header c'.header) =
        sym left.previous ∙ ap (λ (x : BlockHeader). x.previous_hash) e ∙ right.previous in
      elim (one_preimage b'.header c'.header f.1.0 g.1.0 hashes) [
        | inr collision ↦ inr collision
        | inl same ↦
            elim (validated_chains_agree b' c' bs cs h.1 k.1 f.1 g.1 (omega (arith, l)) same) [
              | inr collision ↦ inr collision
              | inl rest ↦ inl (ap (λ x. x ∷ headers (b' ∷ bs)) e ∙ ap (λ l. c.header ∷ l) rest)
            ]
      ]
