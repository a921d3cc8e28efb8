-- ===== src/State/Tests.antt =====
-- Accounts, payments, blocks and pools of small numbers, to which the theorems on src/state apply.
use sarafu_core.Base.{
  ℕ, ◌+◌, ◌-◌, ◌^◌, ◌≡◌, ◌≤◌, ◌↔◌, refl, true, false, none, some, List, [], ◌∷◌, arith, length, All,
}
use sarafu_core.Crypto.{Primitives}
use sarafu_core.State.Types.{Account, Transaction, TransactionReceipt}
use sarafu_core.State.Accounts.{
  Accounts, get_account, get_nonce, validate_nonce, has_sufficient_balance,
}
use sarafu_core.State.Accounts.Laws.{IsValid}
use sarafu_core.State.Validator.{
  validate_transaction, verify_signature, has_valid_nonce, sufficient_balance,
}
use sarafu_core.State.Validator.Accepts.{Acceptable, validate_transaction_iff}
use sarafu_core.State.Executor.{Ledger, execute_transaction}
use sarafu_core.State.Executor.Conserve.{supply, execute_transaction-supply}
use sarafu_core.State.Executor.Balances.{execute_transaction_mints}
use sarafu_core.State.Machine.{Machine, process_transaction, process_transactions}
use sarafu_core.State.Machine.Replay.{process_transaction_once}
use sarafu_core.Consensus.Types.{Block}
use sarafu_core.State.Mempool.{MempoolTransaction, Mempool, Config, get_transactions_for_block}
use sarafu_core.State.Mempool.Selection.{
  get_transactions_for_block_fits, get_transactions_for_block_nonces, total_gas, nonces_from,
  count_up,
}
use sarafu_core.State.Mempool.Queues.{QueuesOk, run-QueuesOk, run, Call}

abbrev sum_bytes : List ℕ → ℕ
sum_bytes [] = 0
sum_bytes (b ∷ bs) = b + sum_bytes bs

-- A hash that adds bytes up, and signatures that always verify.
abbrev toy : Primitives
toy = record {
  blake3 = sum_bytes;
  verify = λ _ _ _. true;
  aggregate = sum_bytes;
  well_formed = λ _. true;
  verify_aggregated = λ _ _ _. true;
}

abbrev alice : Account
alice = record { address = 1; balance = 1000; nonce = 4; code_hash = 0 }

abbrev bob : Account
bob = record { address = 2; balance = 50; nonce = 0; code_hash = 7 }

abbrev payment : Transaction
payment = record {
  from = 1;
  to = 2;
  amount = 100;
  nonce = 4;
  fee = 30;
  gas_limit = 5;
  chain_id = 9;
  signature = 3;
}

-- Amount and fee add up to 2^64.
abbrev wrapping : Transaction
wrapping = record payment { amount = 2 ^ 64 - 100; fee = 100 }

abbrev accounts : Accounts
accounts = (1, alice) ∷ (2, bob) ∷ []

abbrev ledger : Ledger
ledger = record { accounts = accounts; total_burned = 0; total_priority_fees = 0 }

accounts-IsValid : IsValid accounts
accounts-IsValid = record { ordered = (omega arith, (omega arith, tt)); keyed = (refl, (refl, tt)) }

abbrev refusal : TransactionReceipt
refusal = record {
  tx_hash = 77;
  block_height = 3;
  success = false;
  gas_used = 0;
  error_message = 110 ∷ 111 ∷ [];
}

validate_transaction_iff_example :
    (validate_transaction toy 9 payment 0 accounts ≡ none) ↔ Acceptable toy 9 payment 0 accounts
validate_transaction_iff_example = validate_transaction_iff toy 9 payment 0 accounts

execute_transaction-supply_example :
    let l' = (execute_transaction toy ledger payment 1 2 3).0 in
    IsValid l'.accounts × (supply l' ≡ supply ledger)
execute_transaction-supply_example =
    execute_transaction-supply toy ledger payment 1 2 3 accounts-IsValid (omega arith) (omega arith)

execute_transaction_mints_example :
    let (l', receipt) = execute_transaction toy ledger wrapping 1 2 3 in
    (receipt.success ≡ true)
    × ((get_account l'.accounts 1).balance ≡ (get_account accounts 1).balance)
    × ((get_account l'.accounts 2).balance ≡ (get_account accounts 2).balance + (2 ^ 64 - 100))
unfolding get_account
execute_transaction_mints_example =
    execute_transaction_mints toy ledger wrapping 1 2 3 accounts-IsValid (ground arith)
      (ground arith) (ground arith) (omega arith) (omega arith) (omega arith) (omega arith)

abbrev machine : Machine
machine = record {
  chain_id = 9;
  ledger = ledger;
  receipts = [];
  current_height = 0;
  state_snapshots = [];
}

process_transaction_once_example :
    let s₁ = (process_transaction toy machine payment 0 1 2 3).0 in
    let s₂ = process_transactions toy s₁ (record payment { nonce = 5 } ∷ []) 1 2 3 in
    let (s₃, receipt) = process_transaction toy s₂ payment 8 1 2 3 in
    (receipt.success ≡ false) × (s₃ ≡ s₂)
unfolding get_account process_transaction validate_transaction verify_signature has_valid_nonce
    validate_nonce sufficient_balance has_sufficient_balance execute_transaction
process_transaction_once_example =
    process_transaction_once toy machine payment 0 8 1 2 3 (record payment { nonce = 5 } ∷ [])
      accounts-IsValid (omega arith) refl

abbrev block : Block
block = record {
  header = record {
    height = 1;
    timestamp = 1700;
    previous_hash = 11;
    state_root = 12;
    transactions_root = 13;
    validator_set_root = 14;
    proposer = 3;
    epoch = 0;
  };
  transactions = payment ∷ record payment { nonce = 9 } ∷ [];
  justify = record {
    block_height = 0;
    block_hash = 11;
    view_number = 0;
    aggregated_signature = 5;
    signers = 1 ∷ 2 ∷ [];
    total_stake_signed = 30;
  };
}

abbrev pooled : Transaction → MempoolTransaction
pooled tx = record { tx = tx; received_timestamp = 100; total_fee = tx.fee }

abbrev second : Transaction
second = record payment { nonce = 5; fee = 20; gas_limit = 2 ^ 64 - 5 }

abbrev limits : Config
limits = record { max_transactions_per_account = 2; max_nonce_gap = 10; max_age_seconds = 3600 }

-- A pool of alice's payment and, after it, one whose gas limit wraps the sum.
abbrev pool : Mempool
pool = record {
  config = limits;
  account_queues =
      (
        1,
        record {
          account = 1;
          transactions = pooled payment ∷ pooled second ∷ [];
          next_expected_nonce = 4;
        },
      )
      ∷ [];
  fee_index = (20, 71) ∷ (30, 70) ∷ [];
  transactions = (70, pooled payment) ∷ (71, pooled second) ∷ [];
}

abbrev small_pool : Mempool
small_pool = record pool { fee_index = (30, 70) ∷ []; transactions = (70, pooled payment) ∷ [] }

pool-QueuesOk : QueuesOk 2 pool.account_queues
pool-QueuesOk = (
  record {
    rising = (omega arith, (omega arith, tt));
    within = omega arith;
    own = (refl, (refl, tt));
  },
  tt,
)

get_transactions_for_block_fits_example :
    let txs = get_transactions_for_block small_pool none 21000 10 in
    (total_gas txs ≤ 21000) × All (λ (tx : Transaction). 10 ≤ tx.fee) txs
get_transactions_for_block_fits_example =
    get_transactions_for_block_fits small_pool none 21000 10 (omega arith, tt)

get_transactions_for_block_nonces_example :
    let ns = nonces_from 1 (get_transactions_for_block small_pool (some accounts) 21000 10) in
    ns ≡ count_up (get_nonce accounts 1) (length ns)
get_transactions_for_block_nonces_example =
    get_transactions_for_block_nonces small_pool accounts 21000 10 1 refl

abbrev calls : List Call
calls =
    Call.adds none 120 (record payment { from = 2; to = 1 })
    ∷ Call.removes (71 ∷ [])
    ∷ Call.prunes 5000
    ∷ []

run-QueuesOk_example :
    QueuesOk
      (run toy pool calls).config.max_transactions_per_account
      (run toy pool calls).account_queues
run-QueuesOk_example = run-QueuesOk toy pool calls pool-QueuesOk
