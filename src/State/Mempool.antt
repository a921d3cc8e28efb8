-- ===== src/State/Mempool.antt =====
-- src/state/mempool.cpp. The account manager is behind a pointer that may be null: the calls take
-- what it points to, if anything. The clock is an argument.
pub mod Selection
pub mod Queues
use mathlib.Core.List.{reverse}
use sarafu_core.Base.{
  ℕ, suc, ◌+◌, ◌-◌, Bool, true, false, not, Option, none, some, List, [], ◌∷◌, ◌++◌, map, ◌==◌, ltb,
  leb, ◌&&◌, if◌then◌else◌, length,
}
use sarafu_core.Base.Word.{add64, sub64}
use sarafu_core.Base.Map.{Map, lookup, insert, erase}
use sarafu_core.Base.Map
use sarafu_core.Crypto.{Primitives}
use sarafu_core.State.Types.{Address, Hash, Transaction}
use sarafu_core.State.Accounts.{Accounts, get_nonce, has_sufficient_balance}
use sarafu_core.State.Validator.{tx_hash}

pub record MempoolTransaction : Type 0 where
  pub tx : Transaction
  pub received_timestamp : ℕ
  pub total_fee : ℕ

pub record AccountQueue : Type 0 where
  pub account : Address
  pub transactions : List MempoolTransaction
  pub next_expected_nonce : ℕ

pub record Config : Type 0 where
  pub max_transactions_per_account : ℕ
  pub max_nonce_gap : ℕ
  pub max_age_seconds : ℕ

-- `fee_index` is the multimap in rising order of fees, equal fees in the order of insertion.
pub record Mempool : Type 0 where
  pub config : Config
  pub account_queues : Map AccountQueue
  pub fee_index : List (ℕ × Hash)
  pub transactions : Map MempoolTransaction

unfoldable pub new_mempool : Config → Mempool
new_mempool config = record {
  config = config;
  account_queues = [];
  fee_index = [];
  transactions = [];
}

unfoldable pub insert_in_nonce_order :
    List MempoolTransaction → MempoolTransaction → List MempoolTransaction
insert_in_nonce_order [] mt = mt ∷ []
insert_in_nonce_order (q ∷ qs) mt =
    if ltb q.tx.nonce mt.tx.nonce then q ∷ insert_in_nonce_order qs mt else mt ∷ q ∷ qs

unfoldable pub index_fee : ℕ → Hash → List (ℕ × Hash) → List (ℕ × Hash)
index_fee fee hash [] = (fee, hash) ∷ []
index_fee fee hash (e ∷ es) =
    if ltb fee e.0 then (fee, hash) ∷ e ∷ es else e ∷ index_fee fee hash es

-- The checks that need an account manager: balance, and the range of the nonce.
unfoldable pub admissible : Config → Option Accounts → Transaction → Bool
admissible config none tx = true
admissible config (some accounts) tx =
    let current_nonce = get_nonce accounts tx.from in
    has_sufficient_balance accounts tx.from (add64 tx.amount tx.fee)
    && (not (ltb tx.nonce current_nonce)
        && not (ltb (add64 current_nonce config.max_nonce_gap) tx.nonce))

-- `account_queues_[tx.from]`, filled in if it is new.
unfoldable pub queue_of : Mempool → Option Accounts → Address → AccountQueue
queue_of pool manager from =
    let queue : AccountQueue = elim (lookup from pool.account_queues) [
      | none ↦ record { account = 0; transactions = []; next_expected_nonce = 0 }
      | some q ↦ q
    ] in
    if queue.account == 0
    then record queue {
      account = from;
      next_expected_nonce = elim manager [
        | none ↦ queue.next_expected_nonce
        | some accounts ↦ get_nonce accounts from
      ];
    }
    else queue

module _ (p : Primitives) where
  -- A full queue refuses the transaction, but an entry made for it stays.
  unfoldable pub add_transaction : Mempool → Option Accounts → ℕ → Transaction → Mempool × Bool
  add_transaction pool manager now tx =
      let hash = tx_hash p tx in
      if Map.contains hash pool.transactions
      then (pool, false)
      else (if admissible pool.config manager tx
          then (let queue = queue_of pool manager tx.from in
              if leb pool.config.max_transactions_per_account (length queue.transactions)
              then (
                record pool { account_queues = insert tx.from queue pool.account_queues },
                false,
              )
              else (let mt : MempoolTransaction = record {
                tx = tx;
                received_timestamp = now;
                total_fee = tx.fee;
              } in
                  (
                    record pool {
                      account_queues =
                          insert tx.from
                            (record queue {
                              transactions = insert_in_nonce_order queue.transactions mt;
                            })
                            pool.account_queues;
                      fee_index = index_fee tx.fee hash pool.fee_index;
                      transactions = insert hash mt pool.transactions;
                    },
                    true,
                  )))
          else (pool, false))

-- `account_next_nonce`: one entry for each queue, if there is an account manager.
unfoldable pub next_nonces : Option Accounts → Map AccountQueue → Map ℕ
next_nonces none queues = []
next_nonces (some accounts) [] = []
next_nonces (some accounts) ((a, q) ∷ queues) =
    insert a (get_nonce accounts a) (next_nonces (some accounts) queues)

-- The tests of one turn of the loop: the transaction of an entry, if it is to be added. Without an
-- account manager, and for a sender that has no entry, nonces are not tested.
unfoldable pub pick : Map MempoolTransaction → ℕ → ℕ → Hash → ℕ → Map ℕ → Option Transaction
pick transactions max_gas min_base_fee hash gas_used nonces = elim (lookup hash transactions) [
  | none ↦ none
  | some mt ↦
      if ltb mt.tx.fee min_base_fee
      then none
      else (if ltb max_gas (add64 gas_used mt.tx.gas_limit)
          then none
          else elim (lookup mt.tx.from nonces) [
            | none ↦ some mt.tx
            | some expected ↦ if mt.tx.nonce == expected then some mt.tx else none
          ])
]

-- `nonce_it->second++`
unfoldable pub advance : Map ℕ → Transaction → Map ℕ
advance nonces tx = elim (lookup tx.from nonces) [
  | none ↦ nonces
  | some expected ↦ insert tx.from (add64 expected 1) nonces
]

unfoldable pub select :
    Map MempoolTransaction → ℕ → ℕ → List (ℕ × Hash) → ℕ → Map ℕ → List Transaction
select transactions max_gas min_base_fee [] gas_used nonces = []
select transactions max_gas min_base_fee (e ∷ es) gas_used nonces =
    elim (pick transactions max_gas min_base_fee e.1 gas_used nonces) [
      | none ↦ select transactions max_gas min_base_fee es gas_used nonces
      | some tx ↦
          tx
          ∷ select transactions max_gas min_base_fee es (add64 gas_used tx.gas_limit)
              (advance nonces tx)
    ]

unfoldable pub get_transactions_for_block : Mempool → Option Accounts → ℕ → ℕ → List Transaction
get_transactions_for_block pool manager max_gas min_base_fee =
    select pool.transactions max_gas min_base_fee (reverse pool.fee_index) 0
      (next_nonces manager pool.account_queues)

module _ (p : Primitives) where
  -- `remove_if` on the queue of an account.
  unfoldable pub without : Hash → List MempoolTransaction → List MempoolTransaction
  without hash [] = []
  without hash (q ∷ qs) = if tx_hash p q.tx == hash then without hash qs else q ∷ without hash qs

  -- The first entry of the fee and hash goes.
  unfoldable pub unindex_fee : ℕ → Hash → List (ℕ × Hash) → List (ℕ × Hash)
  unindex_fee fee hash [] = []
  unindex_fee fee hash (e ∷ es) =
      if e.0 == fee && e.1 == hash then es else e ∷ unindex_fee fee hash es

  unfoldable pub remove_from_queue : Address → Hash → Map AccountQueue → Map AccountQueue
  remove_from_queue from hash queues = elim (lookup from queues) [
    | none ↦ queues
    | some q ↦ elim (without hash q.transactions) [
      | [] ↦ erase from queues
      | (m ∷ ms) ↦ insert from (record q { transactions = m ∷ ms }) queues
    ]
  ]

  unfoldable pub remove_transaction : Mempool → Hash → Mempool
  remove_transaction pool hash = elim (lookup hash pool.transactions) [
    | none ↦ pool
    | some mt ↦ record pool {
      account_queues = remove_from_queue mt.tx.from hash pool.account_queues;
      fee_index = unindex_fee mt.total_fee hash pool.fee_index;
      transactions = erase hash pool.transactions;
    }
  ]

  unfoldable pub remove_transactions : Mempool → List Hash → Mempool
  remove_transactions pool [] = pool
  remove_transactions pool (hash ∷ hashes) =
      remove_transactions (remove_transaction pool hash) hashes

  -- The hashes whose age, as it wraps, is over the limit.
  expired : ℕ → ℕ → Map MempoolTransaction → List Hash
  expired now limit [] = []
  expired now limit ((hash, mt) ∷ m) =
      if ltb limit (sub64 now mt.received_timestamp)
      then hash ∷ expired now limit m
      else expired now limit m

  unfoldable pub prune_old_transactions : Mempool → ℕ → Mempool
  unfolding expired
  prune_old_transactions pool now =
      remove_transactions pool (expired now pool.config.max_age_seconds pool.transactions)

unfoldable pub clear : Mempool → Mempool
clear pool = record pool { account_queues = []; fee_index = []; transactions = [] }

unfoldable pub get_account_transactions : Mempool → Address → List Transaction
get_account_transactions pool addr = elim (lookup addr pool.account_queues) [
  | none ↦ []
  | some q ↦ map (λ (m : MempoolTransaction). m.tx) q.transactions
]
