-- ===== src/Consensus/Genesis/Start.antt =====
-- The state machine of src/state/state_machine.cpp starts from the block that the builder of
-- src/consensus/genesis_builder.cpp builds.
use sarafu_core.Base.{
  ℕ, ◌≡◌, ◌≢◌, refl, sym, ap, subst, ◌∙◌, arith, true, none, some, List, [], ◌∷◌, ◌++◌, ltb, ◌==◌,
  All, Bool-cases, inl, inr, append-nil,
}
use sarafu_core.Base.Map.{lookup, insert, lookup-insert_ne, lookup-insert_self}
use sarafu_core.Crypto.{Primitives, hash_pair}
use sarafu_core.Crypto.Merkle.{build_tree}
use sarafu_core.State.Types.{Hash, Account}
use sarafu_core.State.Codec.{serialize_account}
use sarafu_core.State.Accounts.{Accounts, create_account, new_account}
use sarafu_core.State.Machine.{
  Machine, insert_sorted, sort, account_hashes, compute_state_root, create_accounts, clear,
  initialize_from_genesis, save_state_snapshot,
}
use sarafu_core.Consensus.Types.{Block, GenesisAllocation}
use sarafu_core.Consensus.Genesis.{
  GenesisBuilder, Percentages, allocation_hashes, genesis_state_root, genesis_block, build,
}

same_number : (n : ℕ) → (n == n) ≡ true
same_number n = ground arith

insert_sorted_comm :
    (x y : ℕ) (l : List ℕ)
    → insert_sorted x (insert_sorted y l) ≡ insert_sorted y (insert_sorted x l)
unfolding insert_sorted
insert_sorted_comm x y [] = ground arith
insert_sorted_comm x y (z ∷ l) = ground (arith, insert_sorted_comm x y l)

sort-append : (h : ℕ) (xs ys : List ℕ) → sort (xs ++ h ∷ ys) ≡ insert_sorted h (sort (xs ++ ys))
unfolding sort
sort-append h [] ys = refl
sort-append h (x ∷ xs) ys =
    ap (insert_sorted x) (sort-append h xs ys) ∙ insert_sorted_comm x h (sort (xs ++ ys))

same_tail : (xs ys zs : List ℕ) → sort ys ≡ sort zs → sort (xs ++ ys) ≡ sort (xs ++ zs)
unfolding sort
same_tail [] ys zs e = e
same_tail (x ∷ xs) ys zs e = ap (insert_sorted x) (same_tail xs ys zs e)

-- No two allocations have one address.
abbrev pub AreDistinct : List GenesisAllocation → Type 0
AreDistinct [] = Unit
AreDistinct (a ∷ allocs) = All (λ b. b.address ≢ a.address) allocs × AreDistinct allocs

abbrev IsNew : Accounts → List GenesisAllocation → Type 0
IsNew m allocs = All (λ a. lookup a.address m ≡ none) allocs

IsNew-insert :
    (k : ℕ) (a : Account) (m : Accounts) (allocs : List GenesisAllocation)
    → IsNew m allocs
    → All (λ b. b.address ≢ k) allocs
    → IsNew (insert k a m) allocs
IsNew-insert k a m [] new other = tt
IsNew-insert k a m (b ∷ allocs) new other =
    (lookup-insert_ne b.address k a m other.0 ∙ new.0, IsNew-insert k a m allocs new.1 other.1)

empty-IsNew : (allocs : List GenesisAllocation) → IsNew [] allocs
empty-IsNew [] = tt
empty-IsNew (a ∷ allocs) = (refl, empty-IsNew allocs)

-- An account is kept where no later allocation has its address.
create_accounts-keeps :
    (k : ℕ) (m : Accounts) (allocs : List GenesisAllocation)
    → All (λ b. b.address ≢ k) allocs
    → lookup k (create_accounts m allocs) ≡ lookup k m
unfolding create_accounts create_account
create_accounts-keeps k m [] other = refl
create_accounts-keeps k m (a ∷ allocs) other =
    create_accounts-keeps k (insert a.address (new_account a.address a.amount) m) allocs other.1
    ∙ lookup-insert_ne k a.address (new_account a.address a.amount) m (λ e. other.0 (sym e))

each_funded :
    (m : Accounts) (allocs : List GenesisAllocation)
    → AreDistinct allocs
    → All
        (λ a. lookup a.address (create_accounts m allocs) ≡ some (new_account a.address a.amount))
        allocs
unfolding create_accounts create_account
each_funded m [] distinct = tt
each_funded m (a ∷ allocs) distinct =
    let m' = insert a.address (new_account a.address a.amount) m in
    (
      create_accounts-keeps a.address m' allocs distinct.0
          ∙ lookup-insert_self a.address (new_account a.address a.amount) m,
      each_funded m' allocs distinct.1,
    )

module _ (p : Primitives) where
  -- A new key adds its hash to the sorted hashes.
  account_hashes-insert :
      (k : ℕ) (a : Account) (m : Accounts)
      → lookup k m ≡ none
      → sort (account_hashes p (insert k a m))
        ≡ insert_sorted (p.blake3 (serialize_account a)) (sort (account_hashes p m))
  unfolding sort account_hashes
  account_hashes-insert k a [] e = refl
  account_hashes-insert k a ((j, b) ∷ m) e = ground (
    arith,
    account_hashes-insert k a m,
    insert_sorted_comm (p.blake3 (serialize_account b)) (p.blake3 (serialize_account a))
        (sort (account_hashes p m)),
  )

  -- The root of the tree over sorted hashes, zero where there are none.
  sorted_root : List Hash → Hash
  sorted_root [] = 0
  sorted_root (x ∷ xs) = (build_tree (hash_pair p) (x ∷ xs)).root

  sorted_root-insert_sorted :
      (x : ℕ) (l : List ℕ)
      → sorted_root (insert_sorted x l) ≡ (build_tree (hash_pair p) (insert_sorted x l)).root
  unfolding sorted_root insert_sorted
  sorted_root-insert_sorted x [] = refl
  sorted_root-insert_sorted x (y ∷ l) = elim (Bool-cases (ltb y x)) [
    | inl e ↦ rw e refl
    | inr e ↦ rw e refl
  ]

  compute_state_root_sorted :
      (m : Accounts) → compute_state_root p m ≡ sorted_root (sort (account_hashes p m))
  unfolding compute_state_root sort account_hashes sorted_root
  compute_state_root_sorted [] = refl
  compute_state_root_sorted ((_, a) ∷ m) =
      sym (sorted_root-insert_sorted (p.blake3 (serialize_account a)) (sort (account_hashes p m)))

  genesis_state_root_sorted :
      (allocs : List GenesisAllocation)
      → genesis_state_root p allocs ≡ sorted_root (sort (allocation_hashes p allocs))
  unfolding genesis_state_root sort allocation_hashes sorted_root
  genesis_state_root_sorted [] = refl
  genesis_state_root_sorted (a ∷ allocs) = sym (
      sorted_root-insert_sorted (p.blake3 (serialize_account (new_account a.address a.amount)))
        (sort (allocation_hashes p allocs)))

  create_accounts-hashes :
      (allocs : List GenesisAllocation) (m : Accounts)
      → IsNew m allocs
      → AreDistinct allocs
      → sort (account_hashes p (create_accounts m allocs))
        ≡ sort (allocation_hashes p allocs ++ account_hashes p m)
  unfolding create_accounts allocation_hashes sort create_account
  create_accounts-hashes [] m new distinct = refl
  create_accounts-hashes (a ∷ allocs) m new distinct =
      let k = a.address in
      let account = new_account k a.amount in
      let h = p.blake3 (serialize_account account) in
      create_accounts-hashes allocs (insert k account m)
        (IsNew-insert k account m allocs new.1 distinct.0) distinct.1
      ∙ (same_tail (allocation_hashes p allocs) (account_hashes p (insert k account m))
            (h ∷ account_hashes p m) (account_hashes-insert k account m new.0)
          ∙ sort-append h (allocation_hashes p allocs) (account_hashes p m))

  same_roots :
      (allocs : List GenesisAllocation)
      → AreDistinct allocs
      → compute_state_root p (create_accounts [] allocs) ≡ genesis_state_root p allocs
  unfolding account_hashes
  same_roots allocs distinct =
      compute_state_root_sorted (create_accounts [] allocs)
      ∙ (ap sorted_root (
            create_accounts-hashes allocs [] (empty-IsNew allocs) distinct
            ∙ ap sort (append-nil (allocation_hashes p allocs)))
          ∙ sym (genesis_state_root_sorted allocs))

  build_is :
      (rates : Percentages) (b : GenesisBuilder) (block : Block)
      → build p rates b ≡ some block
      → block ≡ genesis_block p b
  unfolding build
  build_is rates b block e = ground arith

  initialize_same_root :
      (s : Machine) (block : Block) (allocs : List GenesisAllocation)
      → block.header.height ≡ 0
      → block.header.epoch ≡ 0
      → compute_state_root p (create_accounts [] allocs) ≡ block.header.state_root
      → let (s', accepted) = initialize_from_genesis p s block allocs in
        (accepted ≡ true)
        × (s'.ledger.accounts ≡ create_accounts [] allocs)
        × (s'.current_height ≡ 0)
  unfolding initialize_from_genesis save_state_snapshot clear
  initialize_same_root s block allocs height epoch root =
      rw (height, epoch, root, same_number block.header.state_root) (refl, refl, refl)

  -- The block that a builder of epoch 0 gives, whose allocations are to distinct addresses, starts a
  -- state machine, whatever it held: the genesis is accepted at height 0, and each address has the
  -- account with its allocation as balance.
  pub genesis_starts :
      (rates : Percentages) (b : GenesisBuilder) (block : Block) (s : Machine)
      → build p rates b ≡ some block
      → b.config.initial_epoch ≡ 0
      → AreDistinct b.allocations
      → let (s', accepted) = initialize_from_genesis p s block b.allocations in
        (accepted ≡ true)
        × (s'.current_height ≡ 0)
        × All
            (λ a. lookup a.address s'.ledger.accounts ≡ some (new_account a.address a.amount))
            b.allocations
  unfolding genesis_block
  genesis_starts rates b block s built epoch distinct =
      let at = build_is rates b block built in
      let (accepted, accounts, height) =
        initialize_same_root s block b.allocations (ap (λ c. c.header.height) at)
          (ap (λ c. c.header.epoch) at ∙ epoch)
          (same_roots b.allocations distinct ∙ sym (ap (λ c. c.header.state_root) at)) in
      (
        accepted,
        height,
        subst
            (λ m.
              All (λ a. lookup a.address m ≡ some (new_account a.address a.amount)) b.allocations)
            (sym accounts) (each_funded [] b.allocations distinct),
      )
