-- ===== src/State/Machine/Blocks.antt =====
-- What a whole block does: the supply, and the heights.
use sarafu_core.Base.{ℕ, ◌+◌, ◌<◌, ◌≡◌, ◌∙◌, refl, arith, List, [], ◌∷◌, All}
use sarafu_core.Base.Word.{u64_mod}
use sarafu_core.Crypto.{Primitives}
use sarafu_core.State.Types.{Address, Transaction}
use sarafu_core.State.Accounts.Laws.{IsValid}
use sarafu_core.State.Executor.Conserve.{supply, execute_transaction-supply}
use sarafu_core.Consensus.Types.{Block}
use sarafu_core.State.Machine.{
  Machine, store_receipt, process_transaction, process_transactions, execute_block,
  save_state_snapshot,
}

abbrev pub SumFits : Transaction → Type 0
SumFits tx = tx.amount + tx.fee < u64_mod

module _ (p : Primitives) where
  process_transaction-supply :
      (s : Machine) (tx : Transaction) (key height base_fee : ℕ) (proposer : Address)
      → IsValid s.ledger.accounts
      → supply s.ledger < u64_mod
      → SumFits tx
      → let s' = (process_transaction p s tx key height base_fee proposer).0 in
        IsValid s'.ledger.accounts × (supply s'.ledger ≡ supply s.ledger)
  unfolding process_transaction
  process_transaction-supply s tx key height base_fee proposer v small fits =
      ground (arith, execute_transaction-supply p s.ledger tx height base_fee proposer v small fits)

  process_transactions-supply :
      (s : Machine) (txs : List Transaction) (height base_fee : ℕ) (proposer : Address)
      → IsValid s.ledger.accounts
      → supply s.ledger < u64_mod
      → All SumFits txs
      → let s' = process_transactions p s txs height base_fee proposer in
        IsValid s'.ledger.accounts × (supply s'.ledger ≡ supply s.ledger)
  unfolding process_transactions store_receipt
  process_transactions-supply s [] height base_fee proposer v small fits = (v, refl)
  process_transactions-supply s (tx ∷ txs) height base_fee proposer v small fits =
      let (s', receipt) = process_transaction p s tx 0 height base_fee proposer in
      let (v', same) = process_transaction-supply s tx 0 height base_fee proposer v small fits.0 in
      let (v'', same') =
        process_transactions-supply (store_receipt s' receipt) txs height base_fee proposer v'
          (omega arith) fits.1 in
      (v'', same' ∙ same)

  -- From valid accounts and a supply that fits 64 bits, a block of any transactions, accepted or
  -- refused, whose sums of amount and fee fit 64 bits, keeps the accounts valid and the balances
  -- with what was burned at the same total, and sets the height.
  pub execute_block-supply :
      (s : Machine) (block : Block) (base_fee : ℕ) (proposer : Address)
      → IsValid s.ledger.accounts
      → supply s.ledger < u64_mod
      → All SumFits block.transactions
      → let s' = (execute_block p s block base_fee proposer).0 in
        IsValid s'.ledger.accounts
        × (supply s'.ledger ≡ supply s.ledger)
        × (s'.current_height ≡ block.header.height)
  unfolding execute_block save_state_snapshot
  execute_block-supply s block base_fee proposer v small fits =
      let (v', same) =
        process_transactions-supply (save_state_snapshot p s s.current_height) block.transactions
          block.header.height base_fee proposer v small fits in
      (v', same, refl)
