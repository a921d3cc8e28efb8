-- ===== src/State/Executor/Balances.antt =====
-- The balances after a payment between three accounts, and the payment whose cost wraps to nothing.
use sarafu_core.Base.{ℕ, ◌+◌, ◌<◌, ◌≤◌, ◌≡◌, ◌≢◌, arith, true, min}
use sarafu_core.Base.Word.{u64_mod, mul64}
use sarafu_core.Crypto.{Primitives}
use sarafu_core.State.Types.{Address, Transaction}
use sarafu_core.State.Accounts.{get_account}
use sarafu_core.State.Accounts.Laws.{IsValid}
use sarafu_core.State.Executor.{Ledger, execute_transaction}
use sarafu_core.State.Executor.Effects.{balance_after, fee_parts}

module _ (p : Primitives) (l : Ledger) (tx : Transaction) (height base_fee : ℕ) (proposer : Address)
    (v : IsValid l.accounts) (two : tx.from ≢ tx.to) (other_from : proposer ≢ tx.from)
    (other_to : proposer ≢ tx.to) where
  -- From valid accounts, a payment between three different accounts that the sender can cover,
  -- where no sum wraps, succeeds: the sender loses amount and fee, the recipient gains the
  -- amount, and the proposer gains the fee less the part that is burned.
  pub execute_transaction_pays :
      (get_account l.accounts tx.from).balance < u64_mod
      → tx.amount + tx.fee ≤ (get_account l.accounts tx.from).balance
      → (get_account l.accounts tx.to).balance + tx.amount < u64_mod
      → (get_account l.accounts proposer).balance + tx.fee < u64_mod
      → let (l', receipt) = execute_transaction p l tx height base_fee proposer in
        (receipt.success ≡ true)
        × ((get_account l'.accounts tx.from).balance + tx.amount + tx.fee
            ≡ (get_account l.accounts tx.from).balance)
        × ((get_account l'.accounts tx.to).balance
            ≡ (get_account l.accounts tx.to).balance + tx.amount)
        × ((get_account l'.accounts proposer).balance + min tx.fee (mul64 base_fee tx.gas_limit)
            ≡ (get_account l.accounts proposer).balance + tx.fee)
  execute_transaction_pays from_fits covered to_fits proposer_fits =
      let after = λ (b : Address).
        balance_after p l tx height base_fee proposer b v two other_from other_to (omega arith)
          (omega arith) in
      let parts = fee_parts tx base_fee in
      (
        (after tx.from).0,
        ground (arith, (after tx.from).1),
        ground (arith, (after tx.to).1),
        ground (arith, (after proposer).1, parts),
      )

  -- The sum of amount and fee is taken modulo 2^64: between three different accounts, a payment
  -- whose amount and fee add up to exactly 2^64 costs its sender nothing, succeeds from any
  -- balance, and gives the recipient the whole amount, where that balance does not wrap.
  pub execute_transaction_mints :
      (get_account l.accounts tx.from).balance < u64_mod
      → tx.amount + tx.fee ≡ u64_mod
      → (get_account l.accounts tx.to).balance + tx.amount < u64_mod
      → (get_account l.accounts proposer).balance < u64_mod
      → let (l', receipt) = execute_transaction p l tx height base_fee proposer in
        (receipt.success ≡ true)
        × ((get_account l'.accounts tx.from).balance ≡ (get_account l.accounts tx.from).balance)
        × ((get_account l'.accounts tx.to).balance
            ≡ (get_account l.accounts tx.to).balance + tx.amount)
  execute_transaction_mints from_fits wraps to_fits proposer_fits =
      let after = λ (b : Address).
        balance_after p l tx height base_fee proposer b v two other_from other_to (omega arith)
          (omega arith) in
      ((after tx.from).0, ground (arith, (after tx.from).1), ground (arith, (after tx.to).1))
