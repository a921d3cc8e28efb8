-- ===== src/State/Executor/Conserve.antt =====
-- No transaction makes or loses money: what leaves the balances is burned.
use sarafu_core.Base.{ℕ, ◌+◌, ◌<◌, ◌≤◌, ◌≡◌, ◌∙◌, refl, arith, ltb, Bool-cases, inl, inr}
use sarafu_core.Base.Word.{u64_mod, add64}
use sarafu_core.Crypto.{Primitives}
use sarafu_core.State.Types.{Address, Transaction}
use sarafu_core.State.Accounts.{get_account, deduct_balance, increment_nonce}
use sarafu_core.State.Accounts.Laws.{
  IsValid, total, increment_nonce-IsValid, deduct_balance-IsValid, add_balance-IsValid,
  total-increment_nonce, total-deduct_balance, total-add_balance,
}
use sarafu_core.State.Executor.Effects.{transfer-IsValid}
use sarafu_core.State.Executor.{
  Ledger, calculate_base_fee_amount, calculate_priority_fee_amount, transfer, pay_proposer,
  execute_transaction,
}

-- All the money there is or was: the balances and what has been burned.
abbrev pub supply : Ledger → ℕ
supply l = total l.accounts + l.total_burned

-- The fee is split into its two parts with nothing left.
fee_split :
    (tx : Transaction) (base_fee : ℕ)
    → let base = calculate_base_fee_amount tx base_fee in
      (base + calculate_priority_fee_amount tx base ≡ tx.fee)
unfolding calculate_base_fee_amount calculate_priority_fee_amount
fee_split tx base_fee = ground arith

module _ (l : Ledger) (tx : Transaction) (v : IsValid l.accounts) (small : supply l < u64_mod)
    (fits : tx.amount + tx.fee < u64_mod) where
  total-transfer :
      tx.amount + tx.fee ≤ (get_account l.accounts tx.from).balance
      → total (transfer l.accounts tx) + tx.fee ≡ total l.accounts
  unfolding transfer
  total-transfer h =
      let paid = add64 tx.amount tx.fee in
      let m₁ = deduct_balance l.accounts tx.from paid in
      let v₁ = deduct_balance-IsValid l.accounts tx.from v paid in
      let m₂ = increment_nonce m₁ tx.from in
      let v₂ = increment_nonce-IsValid m₁ tx.from v₁ in
      let after_pay = total-deduct_balance l.accounts tx.from v paid (omega arith) (omega arith) in
      let after_nonce = total-increment_nonce m₁ tx.from v₁ in
      let after_add = total-add_balance m₂ tx.to v₂ tx.amount (omega arith) in omega arith

module _ (l : Ledger) (proposer : Address) (x : ℕ) (v : IsValid l.accounts)
    (room : supply l + x < u64_mod) where
  pay_proposer-IsValid : IsValid (pay_proposer l proposer x).accounts
  unfolding pay_proposer
  pay_proposer-IsValid = ground (arith, add_balance-IsValid l.accounts proposer v x)

  supply-pay_proposer : supply (pay_proposer l proposer x) ≡ supply l + x
  unfolding pay_proposer
  supply-pay_proposer = ground (arith, total-add_balance l.accounts proposer v x)

-- Executing a transaction keeps the accounts valid and the supply as it was, whether it succeeds
-- or not, as long as amount and fee do not wrap and the supply fits 64 bits: what the sender loses
-- is what recipient and proposer gain and what is burned, also where these are one account.
pub execute_transaction-supply :
    (p : Primitives) (l : Ledger) (tx : Transaction) (height base_fee : ℕ) (proposer : Address)
    → IsValid l.accounts
    → supply l < u64_mod
    → tx.amount + tx.fee < u64_mod
    → let l' = (execute_transaction p l tx height base_fee proposer).0 in
      IsValid l'.accounts × (supply l' ≡ supply l)
unfolding execute_transaction
execute_transaction-supply p l tx height base_fee proposer v small fits =
    elim (Bool-cases (ltb (get_account l.accounts tx.from).balance (add64 tx.amount tx.fee))) [
      | inl short ↦ rw (short, execute_transaction) (v, refl)
      | inr covered ↦ rw (covered, execute_transaction) (paid (ground arith))
    ]
  where
    base : ℕ
    base = calculate_base_fee_amount tx base_fee

    priority : ℕ
    priority = calculate_priority_fee_amount tx base

    moved : Ledger
    moved = record l { accounts = transfer l.accounts tx; total_burned = add64 l.total_burned base }

    paid :
        tx.amount + tx.fee ≤ (get_account l.accounts tx.from).balance
        → IsValid (pay_proposer moved proposer priority).accounts
          × (supply (pay_proposer moved proposer priority) ≡ supply l)
    paid h =
        let split = fee_split tx base_fee in
        let sum = total-transfer l tx v small fits h in
        let valid = transfer-IsValid l.accounts tx v in
        let reach : supply moved + priority ≡ supply l = omega arith in
        (
          pay_proposer-IsValid moved proposer priority valid (omega arith),
          supply-pay_proposer moved proposer priority valid (omega arith) ∙ reach,
        )
