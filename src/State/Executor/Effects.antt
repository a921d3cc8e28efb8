-- ===== src/State/Executor/Effects.antt =====
-- What a transaction does to each account.
use sarafu_core.Base.{ℕ, ◌+◌, ◌<◌, ◌≤◌, ◌≡◌, ◌≢◌, arith, ◌==◌, ◌&&◌, if◌then◌else◌, true, min}
use sarafu_core.Base.Word.{u64_mod, add64, sub64, mul64}
use sarafu_core.Crypto.{Primitives}
use sarafu_core.State.Types.{Address, Transaction}
use sarafu_core.State.Accounts.{Accounts, get_account, deduct_balance, increment_nonce}
use sarafu_core.State.Accounts.Laws.{
  IsValid, increment_nonce-IsValid, deduct_balance-IsValid, get_account-deduct_balance,
  get_account-increment_nonce, get_account-add_balance, add_balance-IsValid,
}
use sarafu_core.State.Executor.{
  Ledger, calculate_base_fee_amount, calculate_priority_fee_amount, transfer, pay_proposer,
  execute_transaction,
}

pub transfer-IsValid : (m : Accounts) (tx : Transaction) → IsValid m → IsValid (transfer m tx)
unfolding transfer
transfer-IsValid m tx v =
    add_balance-IsValid _ tx.to
      (increment_nonce-IsValid _ tx.from (deduct_balance-IsValid m tx.from v _)) tx.amount

module _ (m : Accounts) (tx : Transaction) (v : IsValid m) (b : Address) where
  transfer-nonce :
      (get_account (transfer m tx) b).nonce
      ≡ (if b == tx.from then add64 (get_account m tx.from).nonce 1 else (get_account m b).nonce)
  unfolding transfer
  transfer-nonce =
      let paid = add64 tx.amount tx.fee in
      let v₁ = deduct_balance-IsValid m tx.from v paid in
      let m₁ = deduct_balance m tx.from paid in
      let m₂ = increment_nonce m₁ tx.from in
      let v₂ = increment_nonce-IsValid m₁ tx.from v₁ in
      ground (
        arith,
        get_account-deduct_balance m tx.from v paid b,
        get_account-deduct_balance m tx.from v paid tx.from,
        get_account-deduct_balance m tx.from v paid tx.to,
        get_account-increment_nonce m₁ tx.from v₁ b,
        get_account-increment_nonce m₁ tx.from v₁ tx.to,
        get_account-add_balance m₂ tx.to v₂ tx.amount b,
      )

  -- What the sender keeps and the recipient gets, where these are two accounts.
  transfer-balance :
      tx.from ≢ tx.to
      → (get_account (transfer m tx) b).balance ≡ (
          if b == tx.to
          then add64 (get_account m tx.to).balance tx.amount
          else (if b == tx.from
              then sub64 (get_account m tx.from).balance (add64 tx.amount tx.fee)
              else (get_account m b).balance))
  unfolding transfer
  transfer-balance ne =
      let paid = add64 tx.amount tx.fee in
      let v₁ = deduct_balance-IsValid m tx.from v paid in
      let m₁ = deduct_balance m tx.from paid in
      let m₂ = increment_nonce m₁ tx.from in
      let v₂ = increment_nonce-IsValid m₁ tx.from v₁ in
      ground (
        arith,
        get_account-deduct_balance m tx.from v paid b,
        get_account-deduct_balance m tx.from v paid tx.from,
        get_account-deduct_balance m tx.from v paid tx.to,
        get_account-increment_nonce m₁ tx.from v₁ b,
        get_account-increment_nonce m₁ tx.from v₁ tx.to,
        get_account-add_balance m₂ tx.to v₂ tx.amount b,
      )

module _ (l : Ledger) (v : IsValid l.accounts) (proposer : Address) (x : ℕ) (b : Address) where
  pay_proposer-nonce :
      (get_account (pay_proposer l proposer x).accounts b).nonce ≡ (get_account l.accounts b).nonce
  unfolding pay_proposer
  pay_proposer-nonce = ground (arith, get_account-add_balance l.accounts proposer v x b)

  pay_proposer-balance :
      (get_account l.accounts proposer).balance < u64_mod
      → (get_account (pay_proposer l proposer x).accounts b).balance ≡ (
          if b == proposer
          then add64 (get_account l.accounts proposer).balance x
          else (get_account l.accounts b).balance)
  unfolding pay_proposer
  pay_proposer-balance h = ground (arith, get_account-add_balance l.accounts proposer v x b)

-- From valid accounts, a transaction that succeeds moves its sender to the next nonce, and no
-- other account to any; one that fails moves none.
pub execute_transaction-nonce :
    (p : Primitives) (l : Ledger) (tx : Transaction) (height base_fee : ℕ) (proposer b : Address)
    → IsValid l.accounts
    → let (l', receipt) = execute_transaction p l tx height base_fee proposer in
      (get_account l'.accounts b).nonce ≡ (
        if receipt.success && b == tx.from
        then add64 (get_account l.accounts tx.from).nonce 1
        else (get_account l.accounts b).nonce)
unfolding execute_transaction
execute_transaction-nonce p l tx height base_fee proposer b v =
    let base = calculate_base_fee_amount tx base_fee in
    let moved : Ledger = record l {
      accounts = transfer l.accounts tx;
      total_burned = add64 l.total_burned base;
    } in
    ground (
      arith,
      pay_proposer-nonce moved (transfer-IsValid l.accounts tx v) proposer
          (calculate_priority_fee_amount tx base) b,
      transfer-nonce l.accounts tx v b,
    )

module _ (p : Primitives) (l : Ledger) (tx : Transaction) (height base_fee : ℕ)
    (proposer b : Address) (v : IsValid l.accounts) (two : tx.from ≢ tx.to)
    (other_from : proposer ≢ tx.from) (other_to : proposer ≢ tx.to)
    (proposer_fits : (get_account l.accounts proposer).balance < u64_mod) where
  base : ℕ
  base = calculate_base_fee_amount tx base_fee

  moved : Ledger
  moved = record l { accounts = transfer l.accounts tx; total_burned = add64 l.total_burned base }

  -- All balances after a success, the sums as they wrap.
  pub balance_after :
      add64 tx.amount tx.fee ≤ (get_account l.accounts tx.from).balance
      → let (l', receipt) = execute_transaction p l tx height base_fee proposer in
        (receipt.success ≡ true)
        × ((get_account l'.accounts b).balance ≡ (
            if b == proposer
            then add64
                (get_account l.accounts proposer).balance
                (calculate_priority_fee_amount tx (calculate_base_fee_amount tx base_fee))
            else (if b == tx.to
                then add64 (get_account l.accounts tx.to).balance tx.amount
                else (if b == tx.from
                    then sub64 (get_account l.accounts tx.from).balance (add64 tx.amount tx.fee)
                    else (get_account l.accounts b).balance))))
  unfolding execute_transaction moved base
  balance_after h =
      let same = transfer-balance l.accounts tx v proposer two in
      let keeps : (get_account moved.accounts proposer).balance
          ≡ (get_account l.accounts proposer).balance =
        ground arith in
      ground (
        arith,
        keeps,
        pay_proposer-balance moved (transfer-IsValid l.accounts tx v) proposer
            (calculate_priority_fee_amount tx base) b (omega arith),
        transfer-balance l.accounts tx v b two,
      )

-- The two parts of a fee.
pub fee_parts :
    (tx : Transaction) (base_fee : ℕ)
    → calculate_priority_fee_amount tx (calculate_base_fee_amount tx base_fee)
        + min tx.fee (mul64 base_fee tx.gas_limit)
      ≡ tx.fee
unfolding calculate_priority_fee_amount calculate_base_fee_amount
fee_parts tx base_fee = ground arith

-- Executing keeps the map valid, whatever wraps.
pub execute_transaction-IsValid :
    (p : Primitives) (l : Ledger) (tx : Transaction) (height base_fee : ℕ) (proposer : Address)
    → IsValid l.accounts
    → IsValid (execute_transaction p l tx height base_fee proposer).0.accounts
unfolding execute_transaction pay_proposer
execute_transaction-IsValid p l tx height base_fee proposer v =
    let v' = transfer-IsValid l.accounts tx v in
    ground (
      arith,
      add_balance-IsValid (transfer l.accounts tx) proposer v'
          (calculate_priority_fee_amount tx (calculate_base_fee_amount tx base_fee)),
    )
