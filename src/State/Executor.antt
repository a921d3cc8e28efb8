-- ===== src/State/Executor.antt =====
-- src/state/transaction_executor.cpp. The executor shares the account manager with its owner, so
-- the accounts stand in one record with its two counters.
pub mod Conserve
pub mod Effects
pub mod Balances
use sarafu_core.Base.{ℕ, ◌-◌, Bool, true, false, List, [], min, ltb, if◌then◌else◌}
use sarafu_core.Base.Word.{add64, mul64}
use sarafu_core.Crypto.{Primitives}
use sarafu_core.State.Types.{Address, Transaction, TransactionReceipt}
use sarafu_core.State.Accounts.{Accounts, get_account, deduct_balance, increment_nonce, add_balance}
use sarafu_core.State.Validator.{tx_hash}
use sarafu_core.State.Messages.{codes}

pub record Ledger : Type 0 where
  pub accounts : Accounts
  pub total_burned : ℕ
  pub total_priority_fees : ℕ

unfoldable pub calculate_base_fee_amount : Transaction → ℕ → ℕ
calculate_base_fee_amount tx base_fee = min tx.fee (mul64 base_fee tx.gas_limit)

unfoldable pub calculate_priority_fee_amount : Transaction → ℕ → ℕ
calculate_priority_fee_amount tx base_fee_amount =
    if ltb base_fee_amount tx.fee then tx.fee - base_fee_amount else 0

unfoldable pub reset_counters : Ledger → Ledger
reset_counters l = record l { total_burned = 0; total_priority_fees = 0 }

-- Steps 1 to 3: the sender pays amount and fee and moves to the next nonce, the recipient is paid.
unfoldable pub transfer : Accounts → Transaction → Accounts
transfer m tx =
    add_balance (increment_nonce (deduct_balance m tx.from (add64 tx.amount tx.fee)) tx.from) tx.to
      tx.amount

-- Step 5: the proposer is paid, if there is anything to pay.
unfoldable pub pay_proposer : Ledger → Address → ℕ → Ledger
pay_proposer l proposer priority =
    if ltb 0 priority
    then record l {
      accounts = add_balance l.accounts proposer priority;
      total_priority_fees = add64 l.total_priority_fees priority;
    }
    else l

module _ (p : Primitives) where
  unfoldable pub execute_transaction :
      Ledger → Transaction → ℕ → ℕ → Address → Ledger × TransactionReceipt
  execute_transaction l tx block_height base_fee proposer =
      let base = calculate_base_fee_amount tx base_fee in
      let priority = calculate_priority_fee_amount tx base in
      if ltb (get_account l.accounts tx.from).balance (add64 tx.amount tx.fee)
      then (
        l,
        record {
          tx_hash = tx_hash p tx;
          block_height = block_height;
          success = false;
          gas_used = 0;
          error_message = codes "Insufficient balance";
        },
      )
      else (
        pay_proposer
            (record l {
              accounts = transfer l.accounts tx;
              total_burned = add64 l.total_burned base;
            })
            proposer priority,
        record {
          tx_hash = tx_hash p tx;
          block_height = block_height;
          success = true;
          gas_used = tx.gas_limit;
          error_message = [];
        },
      )
