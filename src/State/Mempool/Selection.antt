-- ===== src/State/Mempool/Selection.antt =====
-- Which transactions go into a block.
use mathlib.Core.List.{reverse}
use sarafu_core.Base.{
  ℕ, zero, suc, ◌+◌, ◌<◌, ◌≤◌, ◌≡◌, ◌⊎◌, ap, refl, arith, true, Option, none, some, List, [], ◌∷◌,
  ◌==◌, if◌then◌else◌, length, All, Option-cases, Bool-cases, inl, inr,
}
use sarafu_core.Base.Word.{u64_mod, add64}
use sarafu_core.Base.Map
use sarafu_core.Base.Map.{Map, lookup, insert, lookup-insert}
use sarafu_core.State.Types.{Address, Hash, Transaction}
use sarafu_core.State.Accounts.{Accounts, get_nonce}
use sarafu_core.State.Mempool.{
  MempoolTransaction, AccountQueue, Mempool, next_nonces, pick, advance, select,
  get_transactions_for_block,
}

pub total_gas : List Transaction → ℕ
total_gas [] = 0
total_gas (tx ∷ txs) = tx.gas_limit + total_gas txs

-- Every pooled transaction's gas limit can be added to the block's without wrapping.
abbrev pub GasFits : ℕ → Map MempoolTransaction → Type 0
GasFits max_gas [] = Unit
GasFits max_gas ((k, mt) ∷ m) = (max_gas + mt.tx.gas_limit < u64_mod) × GasFits max_gas m

lookup-GasFits :
    (max_gas : ℕ) (k : Hash) (mt : MempoolTransaction) (m : Map MempoolTransaction)
    → GasFits max_gas m
    → lookup k m ≡ some mt
    → max_gas + mt.tx.gas_limit < u64_mod
lookup-GasFits max_gas k mt [] g e = ground arith
lookup-GasFits max_gas k mt ((j, n) ∷ m) g e = ground (arith, lookup-GasFits max_gas k mt m g.1)

-- The nonces of an account's transactions, in order.
pub nonces_from : Address → List Transaction → List ℕ
nonces_from a [] = []
nonces_from a (tx ∷ txs) = if tx.from == a then tx.nonce ∷ nonces_from a txs else nonces_from a txs

-- n, n + 1, ... : k numbers, as they wrap.
pub count_up : ℕ → ℕ → List ℕ
count_up n zero = []
count_up n (suc k) = n ∷ count_up (add64 n 1) k

lookup-advance :
    (a : Address) (m : Map ℕ) (tx : Transaction) (n : ℕ)
    → lookup a m ≡ some n
    → lookup a (advance m tx) ≡ some (if tx.from == a then add64 n 1 else n)
unfolding advance
lookup-advance a m tx n h = elim (Option-cases (lookup tx.from m)) [
  | inl missing ↦ ground arith
  | inr (k, e) ↦ ground (arith, lookup-insert a tx.from (add64 k 1) m)
]

next_nonce :
    (a : Address) (m : Map ℕ) (tx : Transaction) (txs : List Transaction) (n : ℕ)
    → (lookup tx.from m ≡ none) ⊎ (lookup tx.from m ≡ some tx.nonce)
    → ((k : ℕ)
        → lookup a (advance m tx) ≡ some k
        → nonces_from a txs ≡ count_up k (length (nonces_from a txs)))
    → lookup a m ≡ some n
    → nonces_from a (tx ∷ txs) ≡ count_up n (length (nonces_from a (tx ∷ txs)))
unfolding nonces_from count_up
next_nonce a m tx txs n known ih h = elim (Bool-cases (tx.from == a)) [
  | inl own ↦
      let rest = ih (add64 n 1) (ground (arith, lookup-advance a m tx n h)) in
      let first : tx.nonce ≡ n = ground arith in rw (own, first) (ap (◌∷◌ n) rest)
  | inr other ↦ rw other (ih n (ground (arith, lookup-advance a m tx n h)))
]

module _ (transactions : Map MempoolTransaction) (max_gas min_base_fee : ℕ) where
  -- What a turn of the loop has tested of the transaction that it adds.
  pick_passed :
      (hash gas_used : ℕ) (nonces : Map ℕ) (tx : Transaction)
      → pick transactions max_gas min_base_fee hash gas_used nonces ≡ some tx
      → (min_base_fee ≤ tx.fee)
        × (add64 gas_used tx.gas_limit ≤ max_gas)
        × ((lookup tx.from nonces ≡ none) ⊎ (lookup tx.from nonces ≡ some tx.nonce))
        × (GasFits max_gas transactions → max_gas + tx.gas_limit < u64_mod)
  unfolding pick
  pick_passed hash gas_used nonces tx e = elim (Option-cases (lookup hash transactions)) [
    | inl missing ↦ absurd (ground arith)
    | inr (mt, found) ↦ (
      ground arith,
      ground arith,
      ground arith,
      λ g. ground (arith, lookup-GasFits max_gas hash mt transactions g found),
    )
  ]

  select-skip :
      (e : ℕ × Hash) (es : List (ℕ × Hash)) (gas_used : ℕ) (nonces : Map ℕ)
      → pick transactions max_gas min_base_fee e.1 gas_used nonces ≡ none
      → select transactions max_gas min_base_fee (e ∷ es) gas_used nonces
        ≡ select transactions max_gas min_base_fee es gas_used nonces
  unfolding select
  select-skip e es gas_used nonces h = rw (h, select)

  select-take :
      (e : ℕ × Hash) (es : List (ℕ × Hash)) (gas_used : ℕ) (nonces : Map ℕ) (tx : Transaction)
      → pick transactions max_gas min_base_fee e.1 gas_used nonces ≡ some tx
      → select transactions max_gas min_base_fee (e ∷ es) gas_used nonces
        ≡ tx
          ∷ select transactions max_gas min_base_fee es
              (add64 gas_used tx.gas_limit)
              (advance nonces tx)
  unfolding select
  select-take e es gas_used nonces tx h = rw (h, select)

  -- A property of the list that holds of the empty one, and passes from the rest to what is picked.
  select-induct {ℓ} :
      (P : ℕ → Map ℕ → List Transaction → Type ℓ)
      → ((gas_used : ℕ) (nonces : Map ℕ) → P gas_used nonces [])
      → ((hash gas_used : ℕ) (nonces : Map ℕ) (tx : Transaction) (txs : List Transaction)
          → pick transactions max_gas min_base_fee hash gas_used nonces ≡ some tx
          → P (add64 gas_used tx.gas_limit) (advance nonces tx) txs
          → P gas_used nonces (tx ∷ txs))
      → (es : List (ℕ × Hash)) (gas_used : ℕ) (nonces : Map ℕ)
      → P gas_used nonces (select transactions max_gas min_base_fee es gas_used nonces)
  select-induct P base step [] gas_used nonces = unfold select in base gas_used nonces
  select-induct P base step (e ∷ es) gas_used nonces =
      elim (Option-cases (pick transactions max_gas min_base_fee e.1 gas_used nonces)) [
        | inl skip ↦
            rw (select-skip e es gas_used nonces skip)
              (select-induct P base step es gas_used nonces)
        | inr (tx, taken) ↦ rw (select-take e es gas_used nonces tx taken) (
            step e.1 gas_used nonces tx _ taken
              (select-induct P base step es (add64 gas_used tx.gas_limit) (advance nonces tx)))
      ]

  select-gas :
      (es : List (ℕ × Hash)) (gas_used : ℕ) (nonces : Map ℕ)
      → GasFits max_gas transactions
      → gas_used ≤ max_gas
      → gas_used + total_gas (select transactions max_gas min_base_fee es gas_used nonces) ≤ max_gas
  unfolding total_gas
  select-gas es gas_used nonces g =
      select-induct (λ gas _ txs. gas ≤ max_gas → gas + total_gas txs ≤ max_gas)
        (λ gas _ h. omega arith)
        (λ hash gas ns tx txs taken ih h.
          let (_, fits, _, small) = pick_passed hash gas ns tx taken in
          let room = small g in let rest = ih fits in omega arith)
        es gas_used nonces

  select-fee :
      (es : List (ℕ × Hash)) (gas_used : ℕ) (nonces : Map ℕ)
      → All
          (λ (tx : Transaction). min_base_fee ≤ tx.fee)
          (select transactions max_gas min_base_fee es gas_used nonces)
  select-fee =
      select-induct (λ _ _ txs. All (λ (tx : Transaction). min_base_fee ≤ tx.fee) txs) (λ _ _. tt)
        (λ hash gas ns tx txs taken ih. ((pick_passed hash gas ns tx taken).0, ih))

  select-nonces :
      (a : Address) (es : List (ℕ × Hash)) (gas_used : ℕ) (nonces : Map ℕ) (n : ℕ)
      → lookup a nonces ≡ some n
      → let ns = nonces_from a (select transactions max_gas min_base_fee es gas_used nonces) in
        ns ≡ count_up n (length ns)
  unfolding nonces_from count_up
  select-nonces a es gas_used nonces =
      select-induct
        (λ _ m txs.
          (n : ℕ)
          → lookup a m ≡ some n
          → nonces_from a txs ≡ count_up n (length (nonces_from a txs)))
        (λ _ _ n h. refl)
        (λ hash gas ns tx txs taken ih n h.
          let (_, _, known, _) = pick_passed hash gas ns tx taken in
          next_nonce a ns tx txs n known ih h)
        es gas_used nonces

lookup-next_nonces :
    (accounts : Accounts) (queues : Map AccountQueue) (a : Address)
    → Map.contains a queues ≡ true
    → lookup a (next_nonces (some accounts) queues) ≡ some (get_nonce accounts a)
unfolding next_nonces
lookup-next_nonces accounts [] a h = ground arith
lookup-next_nonces accounts ((b, q) ∷ queues) a h = ground (
  arith,
  lookup-insert a b (get_nonce accounts b) (next_nonces (some accounts) queues),
  lookup-next_nonces accounts queues a,
)

-- Every transaction chosen for a block pays the minimum fee, and their gas limits together stay
-- within the block's, where no pooled gas limit makes the sum wrap.
pub get_transactions_for_block_fits :
    (pool : Mempool) (manager : Option Accounts) (max_gas min_base_fee : ℕ)
    → GasFits max_gas pool.transactions
    → let txs = get_transactions_for_block pool manager max_gas min_base_fee in
      (total_gas txs ≤ max_gas) × All (λ (tx : Transaction). min_base_fee ≤ tx.fee) txs
unfolding get_transactions_for_block
get_transactions_for_block_fits pool manager max_gas min_base_fee g =
    let es = reverse pool.fee_index in
    let nonces = next_nonces manager pool.account_queues in
    (
      omega (arith, select-gas pool.transactions max_gas min_base_fee es 0 nonces g (omega arith)),
      select-fee pool.transactions max_gas min_base_fee es 0 nonces,
    )

-- With an account manager, the transactions chosen of an account that has a queue carry the nonces
-- that follow its own, in order and with no gap, as they wrap.
pub get_transactions_for_block_nonces :
    (pool : Mempool) (accounts : Accounts) (max_gas min_base_fee : ℕ) (a : Address)
    → Map.contains a pool.account_queues ≡ true
    → let ns =
        nonces_from a (get_transactions_for_block pool (some accounts) max_gas min_base_fee) in
      ns ≡ count_up (get_nonce accounts a) (length ns)
unfolding get_transactions_for_block
get_transactions_for_block_nonces pool accounts max_gas min_base_fee a h =
    select-nonces pool.transactions max_gas min_base_fee a (reverse pool.fee_index) 0
      (next_nonces (some accounts) pool.account_queues) (get_nonce accounts a)
      (lookup-next_nonces accounts pool.account_queues a h)

-- The sum of the gas so far and a gas limit wraps at 2^64: of a pool of two transactions, whose
-- gas limits add up to 2^64 and the first of which fits, both are chosen.
pub select_wraps :
    (pool : Mempool) (max_gas h₁ h₂ : ℕ) (mt₁ mt₂ : MempoolTransaction)
    → lookup h₁ pool.transactions ≡ some mt₁
    → lookup h₂ pool.transactions ≡ some mt₂
    → pool.fee_index ≡ (mt₂.total_fee, h₂) ∷ (mt₁.total_fee, h₁) ∷ []
    → mt₁.tx.gas_limit ≤ max_gas
    → max_gas < u64_mod
    → mt₁.tx.gas_limit + mt₂.tx.gas_limit ≡ u64_mod
    → get_transactions_for_block pool none max_gas 0 ≡ mt₁.tx ∷ mt₂.tx ∷ []
unfolding get_transactions_for_block next_nonces select pick advance
select_wraps pool max_gas h₁ h₂ mt₁ mt₂ e₁ e₂ index first small wraps = rw index (ground arith)
