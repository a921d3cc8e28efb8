-- ===== src/State/Machine/Replay.antt =====
-- Nonces only grow, so that a transaction takes effect once.
use sarafu_core.Base.{
  ℕ, ◌+◌, ◌<◌, ◌≤◌, ◌≡◌, arith, true, false, List, [], ◌∷◌, ◌==◌, ◌&&◌, if◌then◌else◌, length,
  Option-cases, inl, inr,
}
use sarafu_core.Base.Word.{u64_mod, add64}
use sarafu_core.Crypto.{Primitives}
use sarafu_core.State.Types.{Address, Transaction}
use sarafu_core.State.Accounts.{get_account}
use sarafu_core.State.Accounts.Laws.{IsValid}
use sarafu_core.State.Validator.{validate_transaction}
use sarafu_core.State.Validator.Accepts.{validate_transaction_iff}
use sarafu_core.State.Executor.Effects.{execute_transaction-IsValid, execute_transaction-nonce}
use sarafu_core.State.Machine.{Machine, store_receipt, process_transaction, process_transactions}

abbrev nonce_of : Machine → Address → ℕ
nonce_of s a = (get_account s.ledger.accounts a).nonce

module _ (p : Primitives) where
  module _ (s : Machine) (tx : Transaction) (key height base_fee : ℕ) (proposer : Address)
      (v : IsValid s.ledger.accounts) where
    process_transaction-IsValid :
        IsValid (process_transaction p s tx key height base_fee proposer).0.ledger.accounts
    unfolding process_transaction
    process_transaction-IsValid =
        ground (arith, execute_transaction-IsValid p s.ledger tx height base_fee proposer v)

    process_transaction-nonce :
        (b : Address)
        → let (s', receipt) = process_transaction p s tx key height base_fee proposer in
          (nonce_of s' b ≡ (
            if receipt.success && b == tx.from then add64 (nonce_of s tx.from) 1 else nonce_of s b))
    unfolding process_transaction
    process_transaction-nonce b =
        ground (arith, execute_transaction-nonce p s.ledger tx height base_fee proposer b v)

    success_nonce :
        (process_transaction p s tx key height base_fee proposer).1.success ≡ true
        → tx.nonce ≡ nonce_of s tx.from
    unfolding process_transaction
    success_nonce done =
        elim (Option-cases (validate_transaction p s.chain_id tx key s.ledger.accounts)) [
          | inl passed ↦
              ((validate_transaction_iff p s.chain_id tx key s.ledger.accounts).0 passed).next_nonce
          | inr (error, failed) ↦ ground arith
        ]

    -- A transaction whose nonce has been used is refused, and the machine stays as it was.
    stale_refused :
        tx.nonce < nonce_of s tx.from
        → let (s', receipt) = process_transaction p s tx key height base_fee proposer in
          (receipt.success ≡ false) × (s' ≡ s)
    unfolding process_transaction
    stale_refused old =
        elim (Option-cases (validate_transaction p s.chain_id tx key s.ledger.accounts)) [
          | inl passed ↦
              let ok = (validate_transaction_iff p s.chain_id tx key s.ledger.accounts).0 passed in
              absurd (omega (arith, ok.next_nonce))
          | inr (error, failed) ↦ ground arith
        ]

  -- Over any list of transactions, no nonce falls, and none rises by more than their number.
  process_transactions-nonce :
      (s : Machine) (txs : List Transaction) (height base_fee : ℕ) (proposer b : Address)
      → IsValid s.ledger.accounts
      → nonce_of s b + length txs < u64_mod
      → let s' = process_transactions p s txs height base_fee proposer in
        IsValid s'.ledger.accounts
        × (nonce_of s b ≤ nonce_of s' b)
        × (nonce_of s' b ≤ nonce_of s b + length txs)
  unfolding process_transactions store_receipt
  process_transactions-nonce s [] height base_fee proposer b v room = (v, omega arith, omega arith)
  process_transactions-nonce s (tx ∷ txs) height base_fee proposer b v room =
      let (s', receipt) = process_transaction p s tx 0 height base_fee proposer in
      let v' = process_transaction-IsValid s tx 0 height base_fee proposer v in
      let step = process_transaction-nonce s tx 0 height base_fee proposer v b in
      let bounds : (nonce_of s b ≤ nonce_of s' b) × (nonce_of s' b ≤ nonce_of s b + 1) =
        ground (arith, step) in
      let (v'', low, high) =
        process_transactions-nonce (store_receipt s' receipt) txs height base_fee proposer b v'
          (omega arith) in
      (v'', omega arith, omega arith)

  -- From valid accounts, a transaction that has succeeded once is refused from then on, after any
  -- further transactions and with any key, and leaves the machine as it was; unless its sender's
  -- nonce could reach 2^64.
  pub process_transaction_once :
      (s : Machine) (tx : Transaction) (key key' height base_fee : ℕ) (proposer : Address)
      (txs : List Transaction)
      → IsValid s.ledger.accounts
      → nonce_of s tx.from + 1 + length txs < u64_mod
      → (process_transaction p s tx key height base_fee proposer).1.success ≡ true
      → let s₁ = (process_transaction p s tx key height base_fee proposer).0 in
        let s₂ = process_transactions p s₁ txs height base_fee proposer in
        let (s₃, receipt) = process_transaction p s₂ tx key' height base_fee proposer in
        (receipt.success ≡ false) × (s₃ ≡ s₂)
  process_transaction_once s tx key key' height base_fee proposer txs v room done =
      let s₁ = (process_transaction p s tx key height base_fee proposer).0 in
      let v₁ = process_transaction-IsValid s tx key height base_fee proposer v in
      let used = success_nonce s tx key height base_fee proposer v done in
      let bumped : nonce_of s₁ tx.from ≡ nonce_of s tx.from + 1 =
        ground (arith, process_transaction-nonce s tx key height base_fee proposer v tx.from) in
      let (v₂, low, _) =
        process_transactions-nonce s₁ txs height base_fee proposer tx.from v₁ (omega arith) in
      stale_refused (process_transactions p s₁ txs height base_fee proposer) tx key' height base_fee
        proposer v₂ (omega arith)
