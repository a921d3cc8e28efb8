-- ===== src/State/Mempool/Queues.antt =====
-- The account queues: in nonce order, within the limit, each with its own account's transactions.
use sarafu_core.Base.{
  ℕ, suc, ◌≤◌, ◌≡◌, refl, arith, Option, some, List, [], ◌∷◌, ◌==◌, ltb, leb, length, All,
  Option-cases, Bool-cases, inl, inr,
}
use sarafu_core.Base.Map.{Map, lookup, insert, erase}
use sarafu_core.Base.Map
use sarafu_core.Crypto.{Primitives}
use sarafu_core.State.Types.{Address, Hash, Transaction}
use sarafu_core.State.Accounts.{Accounts}
use sarafu_core.State.Validator.{tx_hash}
use sarafu_core.State.Mempool.{
  MempoolTransaction, AccountQueue, Mempool, insert_in_nonce_order, queue_of, admissible,
  add_transaction, without, remove_from_queue, remove_transaction, remove_transactions,
  prune_old_transactions, expired,
}

-- The nonces do not fall along the list, from `lo` on.
abbrev pub Rising : ℕ → List MempoolTransaction → Type 0
Rising lo [] = Unit
Rising lo (m ∷ ms) = (lo ≤ m.tx.nonce) × Rising m.tx.nonce ms

pub record QueueOk (limit : ℕ) (from : Address) (ms : List MempoolTransaction) : Type 0 where
  pub rising : Rising 0 ms
  pub within : length ms ≤ limit
  pub own : All (λ (m : MempoolTransaction). m.tx.from ≡ from) ms

abbrev pub QueuesOk : ℕ → Map AccountQueue → Type 0
QueuesOk limit [] = Unit
QueuesOk limit ((from, q) ∷ queues) = QueueOk limit from q.transactions × QueuesOk limit queues

insert_in_nonce_order-Rising :
    (lo : ℕ) (ms : List MempoolTransaction) (m : MempoolTransaction)
    → lo ≤ m.tx.nonce
    → Rising lo ms
    → Rising lo (insert_in_nonce_order ms m)
unfolding insert_in_nonce_order
insert_in_nonce_order-Rising lo [] m h r = (h, tt)
insert_in_nonce_order-Rising lo (q ∷ qs) m h r =
    ground (arith, insert_in_nonce_order-Rising q.tx.nonce qs m)

length-insert_in_nonce_order :
    (ms : List MempoolTransaction) (m : MempoolTransaction)
    → length (insert_in_nonce_order ms m) ≡ suc (length ms)
unfolding insert_in_nonce_order
length-insert_in_nonce_order [] m = refl
length-insert_in_nonce_order (q ∷ qs) m = ground (arith, length-insert_in_nonce_order qs m)

insert_in_nonce_order-own :
    (from : Address) (ms : List MempoolTransaction) (m : MempoolTransaction)
    → m.tx.from ≡ from
    → All (λ (n : MempoolTransaction). n.tx.from ≡ from) ms
    → All (λ (n : MempoolTransaction). n.tx.from ≡ from) (insert_in_nonce_order ms m)
unfolding insert_in_nonce_order
insert_in_nonce_order-own from [] m h a = (h, tt)
insert_in_nonce_order-own from (q ∷ qs) m h a =
    ground (arith, insert_in_nonce_order-own from qs m h a.1)

insert-QueuesOk :
    (limit : ℕ) (from : Address) (q : AccountQueue) (queues : Map AccountQueue)
    → QueueOk limit from q.transactions
    → QueuesOk limit queues
    → QueuesOk limit (insert from q queues)
insert-QueuesOk limit from q [] h a = (h, tt)
insert-QueuesOk limit from q ((j, w) ∷ queues) h a = elim (Bool-cases (ltb from j)) [
  | inl before ↦ rw before (h, a)
  | inr after ↦ elim (Bool-cases (from == j)) [
    | inl same ↦ rw (after, same) (h, a.1)
    | inr other ↦ rw (after, other) (a.0, insert-QueuesOk limit from q queues h a.1)
  ]
]

erase-QueuesOk :
    (limit : ℕ) (from : Address) (queues : Map AccountQueue)
    → QueuesOk limit queues
    → QueuesOk limit (erase from queues)
erase-QueuesOk limit from [] a = tt
erase-QueuesOk limit from ((j, w) ∷ queues) a = elim (Bool-cases (from == j)) [
  | inl same ↦ rw same (erase-QueuesOk limit from queues a.1)
  | inr other ↦ rw other (a.0, erase-QueuesOk limit from queues a.1)
]

lookup-QueuesOk :
    (limit : ℕ) (from : Address) (q : AccountQueue) (queues : Map AccountQueue)
    → QueuesOk limit queues
    → lookup from queues ≡ some q
    → QueueOk limit from q.transactions
lookup-QueuesOk limit from q [] a e = absurd (ground arith)
lookup-QueuesOk limit from q ((j, w) ∷ queues) a e = elim (Bool-cases (from == j)) [
  | inl same ↦
      let key : j ≡ from = ground arith in
      let value : w ≡ q = ground arith in rw (← key, ← value) a.0
  | inr other ↦ lookup-QueuesOk limit from q queues a.1 (rw other at e)
]

-- The transactions of `queue_of` are those of the queue, or none.
queue_of-QueueOk :
    (limit : ℕ) (pool : Mempool) (manager : Option Accounts) (from : Address)
    → QueuesOk limit pool.account_queues
    → QueueOk limit from (queue_of pool manager from).transactions
unfolding queue_of
queue_of-QueueOk limit pool manager from a = elim (Option-cases (lookup from pool.account_queues)) [
  | inl new ↦
      let nothing : (queue_of pool manager from).transactions ≡ [] = ground arith in
      rw nothing (record { rising = tt; within = omega arith; own = tt })
  | inr (q, e) ↦
      let same : (queue_of pool manager from).transactions ≡ q.transactions = ground arith in
      rw same (lookup-QueuesOk limit from q pool.account_queues a e)
]

module _ (p : Primitives) where
  -- Adding a transaction, accepted or not, leaves every queue in nonce order, within the limit of
  -- transactions for an account, and with that account's transactions only.
  pub add_transaction-QueuesOk :
      (pool : Mempool) (manager : Option Accounts) (now : ℕ) (tx : Transaction)
      → QueuesOk pool.config.max_transactions_per_account pool.account_queues
      → let (pool', _) = add_transaction p pool manager now tx in
        QueuesOk pool'.config.max_transactions_per_account pool'.account_queues
  unfolding add_transaction
  add_transaction-QueuesOk pool manager now tx a =
      let limit = pool.config.max_transactions_per_account in
      let queue = queue_of pool manager tx.from in
      let ok = queue_of-QueueOk limit pool manager tx.from a in
      let mt : MempoolTransaction = record {
        tx = tx;
        received_timestamp = now;
        total_fee = tx.fee;
      } in
      elim (Bool-cases (Map.contains (tx_hash p tx) pool.transactions)) [
        | inl known ↦ rw (known, add_transaction) a
        | inr new ↦ elim (Bool-cases (admissible pool.config manager tx)) [
          | inr refused ↦ rw (new, refused, add_transaction) a
          | inl passed ↦ elim (Bool-cases (leb limit (length queue.transactions))) [
            | inl full ↦
                rw (new, passed, full, add_transaction)
                  (insert-QueuesOk limit tx.from queue pool.account_queues ok a)
            | inr room ↦
                rw (new, passed, room, add_transaction)
                  (insert-QueuesOk limit tx.from _ pool.account_queues
                    (record {
                      rising =
                          insert_in_nonce_order-Rising 0 queue.transactions mt (omega arith)
                            ok.rising;
                      within = ground (arith, length-insert_in_nonce_order queue.transactions mt);
                      own = insert_in_nonce_order-own tx.from queue.transactions mt refl ok.own;
                    })
                    a)
          ]
        ]
      ]

  without-Rising :
      (hash lo lo' : ℕ) (ms : List MempoolTransaction)
      → lo' ≤ lo
      → Rising lo ms
      → Rising lo' (without p hash ms)
  unfolding without
  without-Rising hash lo lo' [] h r = tt
  without-Rising hash lo lo' (m ∷ ms) h r = elim (Bool-cases (tx_hash p m.tx == hash)) [
    | inl gone ↦ rw (gone, without) (without-Rising hash m.tx.nonce lo' ms (omega arith) r.1)
    | inr stays ↦
        rw (stays, without)
          (omega arith, without-Rising hash m.tx.nonce m.tx.nonce ms (omega arith) r.1)
  ]

  length-without :
      (hash : Hash) (ms : List MempoolTransaction) → length (without p hash ms) ≤ length ms
  unfolding without
  length-without hash [] = omega arith
  length-without hash (m ∷ ms) = ground (arith, length-without hash ms)

  without-own :
      (hash : Hash) (from : Address) (ms : List MempoolTransaction)
      → All (λ (n : MempoolTransaction). n.tx.from ≡ from) ms
      → All (λ (n : MempoolTransaction). n.tx.from ≡ from) (without p hash ms)
  unfolding without
  without-own hash from [] a = tt
  without-own hash from (m ∷ ms) a = ground (arith, without-own hash from ms a.1)

  remove_from_queue-QueuesOk :
      (limit : ℕ) (from : Address) (hash : Hash) (queues : Map AccountQueue)
      → QueuesOk limit queues
      → QueuesOk limit (remove_from_queue p from hash queues)
  unfolding remove_from_queue
  remove_from_queue-QueuesOk limit from hash queues a = elim (Option-cases (lookup from queues)) [
    | inl none_there ↦ rw (none_there, remove_from_queue) a
    | inr (q, e) ↦
        rw (e, remove_from_queue) (left q (without p hash q.transactions) refl (kept q e))
  ]
    where
      kept :
          (q : AccountQueue)
          → lookup from queues ≡ some q
          → QueueOk limit from (without p hash q.transactions)
      kept q e =
          let ok = lookup-QueuesOk limit from q queues a e in
          record {
            rising = without-Rising hash 0 0 q.transactions (omega arith) ok.rising;
            within = omega (arith, length-without hash q.transactions, ok.within);
            own = without-own hash from q.transactions ok.own;
          }

      left :
          (q : AccountQueue) (ms : List MempoolTransaction)
          → without p hash q.transactions ≡ ms
          → QueueOk limit from (without p hash q.transactions)
          → QueuesOk limit (elim ms as (λ x. Map AccountQueue) [
            | [] ↦ erase from queues
            | (m ∷ rest) ↦ insert from (record q { transactions = m ∷ rest }) queues
          ])
      left q [] e ok = erase-QueuesOk limit from queues a
      left q (m ∷ rest) e ok = insert-QueuesOk limit from _ queues (rw e at ok) a

  remove_transaction-QueuesOk :
      (pool : Mempool) (hash : Hash)
      → QueuesOk pool.config.max_transactions_per_account pool.account_queues
      → let pool' = remove_transaction p pool hash in
        (pool'.config ≡ pool.config)
        × QueuesOk pool'.config.max_transactions_per_account pool'.account_queues
  unfolding remove_transaction
  remove_transaction-QueuesOk pool hash a = elim (Option-cases (lookup hash pool.transactions)) [
    | inl missing ↦ rw (missing, remove_transaction) (refl, a)
    | inr (mt, e) ↦
        rw (e, remove_transaction)
          (
            refl,
            remove_from_queue-QueuesOk pool.config.max_transactions_per_account mt.tx.from hash
                pool.account_queues a,
          )
  ]

  remove_transactions-QueuesOk :
      (pool : Mempool) (hashes : List Hash)
      → QueuesOk pool.config.max_transactions_per_account pool.account_queues
      → let pool' = remove_transactions p pool hashes in
        QueuesOk pool'.config.max_transactions_per_account pool'.account_queues
  unfolding remove_transactions
  remove_transactions-QueuesOk pool [] a = a
  remove_transactions-QueuesOk pool (h ∷ hs) a =
      remove_transactions-QueuesOk (remove_transaction p pool h) hs
        (remove_transaction-QueuesOk pool h a).1

-- The calls that change the pool, with what they are given.
pub data Call : Type 0 where
  adds : Option Accounts → ℕ → Transaction → Call
  removes : List Hash → Call
  prunes : ℕ → Call

abbrev pub after : Primitives → Mempool → Call → Mempool
after p pool (adds manager now tx) = (add_transaction p pool manager now tx).0
after p pool (removes hashes) = remove_transactions p pool hashes
after p pool (prunes now) = prune_old_transactions p pool now

unfoldable pub run : Primitives → Mempool → List Call → Mempool
run p pool [] = pool
run p pool (c ∷ cs) = run p (after p pool c) cs

after-QueuesOk :
    (p : Primitives) (pool : Mempool) (c : Call)
    → QueuesOk pool.config.max_transactions_per_account pool.account_queues
    → QueuesOk (after p pool c).config.max_transactions_per_account (after p pool c).account_queues
unfolding prune_old_transactions
after-QueuesOk p pool (adds manager now tx) a = add_transaction-QueuesOk p pool manager now tx a
after-QueuesOk p pool (removes hashes) a = remove_transactions-QueuesOk p pool hashes a
after-QueuesOk p pool (prunes now) a =
    remove_transactions-QueuesOk p pool
      (expired p now pool.config.max_age_seconds pool.transactions) a

-- From a pool of which this holds, after any additions, removals and prunings, every account's
-- queue is in nonce order, within the limit, and holds that account's transactions only.
pub run-QueuesOk :
    (p : Primitives) (pool : Mempool) (cs : List Call)
    → QueuesOk pool.config.max_transactions_per_account pool.account_queues
    → QueuesOk (run p pool cs).config.max_transactions_per_account (run p pool cs).account_queues
unfolding run
run-QueuesOk p pool [] a = a
run-QueuesOk p pool (c ∷ cs) a = run-QueuesOk p (after p pool c) cs (after-QueuesOk p pool c a)
