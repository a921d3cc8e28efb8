-- ===== src/State/Machine.antt =====
-- src/state/state_machine.cpp.
pub mod Replay
pub mod Blocks
use sarafu_core.Base.{
  ℕ, Bool, true, false, Option, none, some, List, [], ◌∷◌, ◌==◌, ltb, ◌||◌, not, if◌then◌else◌,
  length,
}
use sarafu_core.Base.Map.{Map, lookup, insert}
use sarafu_core.Crypto.{Primitives, hash_pair}
use sarafu_core.Crypto.Merkle.{build_tree}
use sarafu_core.State.Types.{Address, Hash, Account, Transaction, TransactionReceipt}
use sarafu_core.State.Codec.{serialize_account}
use sarafu_core.State.Accounts.{Accounts, create_account, get_account}
use sarafu_core.State.Messages.{TxError, message}
use sarafu_core.State.Validator.{tx_hash, validate_transaction}
use sarafu_core.State.Executor.{Ledger, execute_transaction, reset_counters}
use sarafu_core.Consensus.Types.{Block, GenesisAllocation}

-- The chain id of the machine is also that of its validator.
pub record Machine : Type 0 where
  pub chain_id : ℕ
  pub ledger : Ledger
  pub receipts : Map TransactionReceipt
  pub current_height : ℕ
  pub state_snapshots : Map Hash

abbrev pub new_machine : ℕ → Machine
new_machine chain_id = record {
  chain_id = chain_id;
  ledger = record { accounts = []; total_burned = 0; total_priority_fees = 0 };
  receipts = [];
  current_height = 0;
  state_snapshots = [];
}

-- `std::sort` on hashes.
unfoldable pub insert_sorted : ℕ → List ℕ → List ℕ
insert_sorted x [] = x ∷ []
insert_sorted x (y ∷ ys) = if ltb y x then y ∷ insert_sorted x ys else x ∷ y ∷ ys

unfoldable pub sort : List ℕ → List ℕ
sort [] = []
sort (x ∷ xs) = insert_sorted x (sort xs)

-- The entries of a map that the test keeps.
retain {ℓ} : {V : Type ℓ} → (ℕ → V → Bool) → Map V → Map V
retain keep [] = []
retain keep ((k, v) ∷ m) = if keep k v then (k, v) ∷ retain keep m else retain keep m

unfoldable pub store_receipt : Machine → TransactionReceipt → Machine
store_receipt s r = record s { receipts = insert r.tx_hash r s.receipts }

unfoldable pub clear : Machine → Machine
unfolding reset_counters
clear s = record s {
  ledger = reset_counters (record s.ledger { accounts = [] });
  receipts = [];
  current_height = 0;
  state_snapshots = [];
}

unfoldable pub get_receipt : Machine → Hash → Option TransactionReceipt
get_receipt s hash = lookup hash s.receipts

-- The accounts are cleared, not restored, as the source says of itself.
unfoldable pub revert_to_height : Machine → ℕ → Machine × Bool
unfolding retain
revert_to_height s height = elim (lookup height s.state_snapshots) [
  | none ↦ (s, false)
  | some _ ↦ (
    record s {
      ledger = record s.ledger { accounts = [] };
      receipts = retain (λ _ r. not (ltb height r.block_height)) s.receipts;
      current_height = height;
      state_snapshots = retain (λ h _. not (ltb height h)) s.state_snapshots;
    },
    true,
  )
]

unfoldable pub create_accounts : Accounts → List GenesisAllocation → Accounts
create_accounts m [] = m
create_accounts m (a ∷ rest) = create_accounts (create_account m a.address a.amount) rest

module _ (p : Primitives) where
  unfoldable pub account_hashes : Accounts → List Hash
  account_hashes [] = []
  account_hashes ((_, a) ∷ m) = p.blake3 (serialize_account a) ∷ account_hashes m

  unfoldable pub compute_state_root : Accounts → Hash
  unfolding account_hashes sort insert_sorted
  compute_state_root [] = 0
  compute_state_root (e ∷ m) = (build_tree (hash_pair p) (sort (account_hashes (e ∷ m)))).root

  unfoldable pub save_state_snapshot : Machine → ℕ → Machine
  save_state_snapshot s height = record s {
    state_snapshots = insert height (compute_state_root s.ledger.accounts) s.state_snapshots;
  }

  -- `StateMachine::execute_transaction`: a refused transaction changes nothing but its receipt.
  unfoldable pub process_transaction :
      Machine → Transaction → ℕ → ℕ → ℕ → Address → Machine × TransactionReceipt
  process_transaction s tx public_key height base_fee proposer =
      elim (validate_transaction p s.chain_id tx public_key s.ledger.accounts) [
        | some error ↦ (
          s,
          record {
            tx_hash = tx_hash p tx;
            block_height = height;
            success = false;
            gas_used = 0;
            error_message = message error;
          },
        )
        | none ↦
            let (ledger, receipt) = execute_transaction p s.ledger tx height base_fee proposer in
            (record s { ledger = ledger }, receipt)
      ]

  -- The loop of `execute_block`. The public key is a default one, all zero bytes.
  unfoldable pub process_transactions : Machine → List Transaction → ℕ → ℕ → Address → Machine
  unfolding store_receipt
  process_transactions s [] height base_fee proposer = s
  process_transactions s (tx ∷ txs) height base_fee proposer =
      let (s', receipt) = process_transaction s tx 0 height base_fee proposer in
      process_transactions (store_receipt s' receipt) txs height base_fee proposer

  unfoldable pub execute_block : Machine → Block → ℕ → Address → Machine × Hash
  execute_block s block base_fee proposer =
      let s₁ = save_state_snapshot s s.current_height in
      let s₂ = process_transactions s₁ block.transactions block.header.height base_fee proposer in
      let s₃ : Machine = record s₂ { current_height = block.header.height } in
      (s₃, compute_state_root s₃.ledger.accounts)

  unfoldable pub initialize_from_genesis : Machine → Block → List GenesisAllocation → Machine × Bool
  initialize_from_genesis s genesis allocations =
      if not (genesis.header.height == 0) || not (genesis.header.epoch == 0)
      then (s, false)
      else let s₁ = clear s in
        let accounts = create_accounts s₁.ledger.accounts allocations in
        let s₂ : Machine = record s₁ { ledger = record s₁.ledger { accounts = accounts } } in
        if compute_state_root accounts == genesis.header.state_root
        then (save_state_snapshot (record s₂ { current_height = 0 }) 0, true)
        else (clear s₂, false)
