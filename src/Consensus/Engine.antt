-- ===== src/Consensus/Engine.antt =====
-- src/consensus/consensus_engine.cpp, without its network calls. Of the registry the engine reads the
-- current set; the aggregator keeps the set that it was made with. A call that can throw returns none
-- for its result, with the engine as the exception leaves it.
pub mod Accepts
pub mod Finality
pub mod Proposal
pub mod Votes
pub mod Tests
use sarafu_core.Base.{
  ℕ, ◌+◌, ◌/◌, ◌%◌, Bool, true, false, not, Option, none, some, List, [], ◌∷◌, ◌==◌, ltb, leb, ◌&&◌,
  if◌then◌else◌, length, get_elem?, map, take,
}
use sarafu_core.Base.Word.{add64}
use sarafu_core.Base.Map.{Map, lookup, insert}
use sarafu_core.Crypto.{Primitives, hash_pair}
use sarafu_core.Crypto.Merkle.{build_tree}
use sarafu_core.State.Types.{Hash, Transaction}
use sarafu_core.State.Accounts.{Accounts}
use sarafu_core.State.Validator.{tx_hash}
use sarafu_core.State.Machine.{Machine, execute_block}
use sarafu_core.State.Mempool.{Mempool, get_transactions_for_block}
use sarafu_core.Consensus.Types.{
  Block, BlockHeader, QuorumCertificate, Validator, ValidatorId, ValidatorSet, Vote,
}
use sarafu_core.Consensus.Codec.{block_hash}
use sarafu_core.Consensus.ValidatorSet.{get_active_validators, is_active}
use sarafu_core.Consensus.Votes.{VoteAggregator, add_vote, aggregate_votes}
use sarafu_core.Consensus.Certificate.{verify_qc}
use sarafu_core.Consensus.Registry.Transition.{compute_validator_set_root}

pub record Config : Type 0 where
  pub max_block_gas : ℕ
  pub max_transactions_per_block : ℕ

pub record Engine : Type 0 where
  pub config : Config
  pub current_set : ValidatorSet
  pub state_machine : Machine
  pub vote_aggregator : VoteAggregator
  pub current_view : ℕ
  pub highest_qc : QuorumCertificate
  pub finalized_height : ℕ
  pub current_height : ℕ
  pub block_store : Map Block
  pub height_index : Map Hash
  pub finalized_blocks : Map Bool

unfoldable pub is_finalized : Engine → Hash → Bool
is_finalized e hash = elim (lookup hash e.finalized_blocks) [ none ↦ false | some b ↦ b ]

unfoldable pub select_leader : ValidatorSet → ℕ → Option ValidatorId
select_leader set view_number =
    let active_validators = get_active_validators set.validators in
    if length active_validators == 0
    then none
    else get_elem? (map (λ (w : Validator). w.id) active_validators)
        (view_number % length active_validators)

unfoldable pub get_current_leader : Engine → Option ValidatorId
get_current_leader e = select_leader e.current_set e.current_view

unfoldable pub is_current_leader : Engine → ValidatorId → Bool
is_current_leader e proposer = elim (get_current_leader e) [
  | none ↦ false
  | some leader ↦ leader == proposer
]

unfoldable pub get_block : Engine → Hash → Option Block
get_block e hash = lookup hash e.block_store

unfoldable pub get_block_by_height : Engine → ℕ → Option Block
get_block_by_height e height = elim (lookup height e.height_index) [
  | none ↦ none
  | some hash ↦ get_block e hash
]

unfoldable pub trigger_view_change : Engine → Engine × Bool
trigger_view_change e =
    let e₁ : Engine = record e { current_view = add64 e.current_view 1 } in
    (e₁, elim (get_current_leader e₁) [ none ↦ false | some _ ↦ true ])

unfoldable pub extends_highest_qc : Engine → Block → Bool
extends_highest_qc e b =
    if b.header.height == 0
    then true
    else (if b.justify.block_height == 0 && ltb 0 e.highest_qc.block_height
        then false
        else (if ltb b.justify.block_height e.highest_qc.block_height
            then false
            else ltb b.justify.block_height b.header.height))

-- The tests on the parent of a block of positive height.
unfoldable pub follows_parent : Engine → Block → Bool
follows_parent e b =
    if b.header.height == 0 then true else elim (get_block e b.header.previous_hash) [
      | none ↦ false
      | some parent ↦
          b.header.height == add64 parent.header.height 1
          && ltb parent.header.timestamp b.header.timestamp
    ]

module _ (p : Primitives) where
  unfoldable pub mark_finalized : Engine → Hash → QuorumCertificate → Engine × Option Bool
  mark_finalized e hash qc = elim (verify_qc p qc e.current_set) [
    | none ↦ (e, none)
    | some valid ↦
        if valid
        then (
          record e {
            highest_qc = if ltb e.highest_qc.block_height qc.block_height then qc else e.highest_qc;
            finalized_height =
                if ltb e.highest_qc.block_height qc.block_height
                then qc.block_height
                else e.finalized_height;
            finalized_blocks = insert hash true e.finalized_blocks;
          },
          some true,
        )
        else (e, some false)
  ]

  unfoldable pub store_block : Engine → Block → Engine
  store_block e b = record e {
    block_store = insert (block_hash p b) b e.block_store;
    height_index = insert b.header.height (block_hash p b) e.height_index;
  }

  unfoldable pub verify_block : Engine → Block → Option Bool
  verify_block e b =
      if extends_highest_qc e b
        && (is_current_leader e b.header.proposer
            && (follows_parent e b && is_active b.header.proposer e.current_set.validators))
      then (if b.header.height == 0 then some true else verify_qc p b.justify e.current_set)
      else some false

  unfoldable pub on_receive_block : Engine → Block → Engine × Option Bool
  on_receive_block e b = elim (verify_block e b) [
    | none ↦ (e, none)
    | some valid ↦
        if valid
        then (let e₁ = store_block e b in
            (
              record e₁ {
                current_height =
                    if ltb e.current_height b.header.height
                    then b.header.height
                    else e.current_height;
              },
              some true,
            ))
        else (e, some false)
  ]

  -- The result is what the call returns; the outer none is the exception.
  unfoldable pub on_receive_vote : Engine → Vote → Engine × Option (Option QuorumCertificate)
  on_receive_vote e vote =
      let (aggregator, added) = add_vote e.vote_aggregator vote in
      let e₁ : Engine = record e { vote_aggregator = aggregator } in
      if added
      then elim (aggregate_votes p aggregator vote.block_height vote.block_hash vote.view_number) [
        | none ↦ (e₁, none)
        | some none ↦ (e₁, some none)
        | some (some qc) ↦
            let (e₂, outcome) = mark_finalized e₁ vote.block_hash qc in
            (e₂, elim outcome [ none ↦ none | some _ ↦ some (some qc) ])
      ]
      else (e₁, some none)

  unfoldable pub set_genesis_block : Engine → Block → Engine × Option Bool
  set_genesis_block e genesis =
      if genesis.header.height == 0
      then (
        record (store_block e genesis) {
          current_height = 0;
          finalized_height = 0;
          finalized_blocks = insert (block_hash p genesis) true e.finalized_blocks;
          highest_qc = record {
            block_height = 0;
            block_hash = block_hash p genesis;
            view_number = 0;
            aggregated_signature = 0;
            signers = [];
            total_stake_signed = 0;
          };
        },
        some true,
      )
      else (e, none)

  unfoldable pub tx_hashes : List Transaction → List Hash
  tx_hashes [] = []
  tx_hashes (tx ∷ txs) = tx_hash p tx ∷ tx_hashes txs

  unfoldable pub transactions_root_of : List Transaction → Hash
  transactions_root_of [] = 0
  transactions_root_of (tx ∷ txs) = (build_tree (hash_pair p) (tx_hashes (tx ∷ txs))).root

  -- The block that is built on `previous_hash`, its state root left open.
  unfoldable pub proposal : Engine → ValidatorId → List Transaction → ℕ → Hash → Block
  proposal e proposer transactions now previous_hash =
      let height = add64 e.current_height 1 in
      record {
        header = record {
          height = height;
          timestamp = now;
          previous_hash = previous_hash;
          state_root = 0;
          transactions_root = transactions_root_of transactions;
          validator_set_root = compute_validator_set_root p e.current_set.validators;
          proposer = proposer;
          epoch = height / 10000;
        };
        transactions = transactions;
        justify = e.highest_qc;
      }

  -- The hash of the parent, or none where the block of the current height is missing.
  unfoldable pub parent_hash : Engine → Option Hash
  parent_hash e =
      if ltb 0 e.current_height
      then elim (get_block_by_height e e.current_height) [
        | none ↦ none
        | some parent ↦ some (block_hash p parent)
      ]
      else some 0

  unfoldable pub propose_block :
      Engine → ValidatorId → Mempool → Option Accounts → ℕ → ℕ → Engine × Option Block
  propose_block e proposer mempool manager base_fee now =
      if is_current_leader e proposer
      then elim (parent_hash e) [
        | none ↦ (e, none)
        | some previous_hash ↦
            let chosen =
              get_transactions_for_block mempool manager e.config.max_block_gas base_fee in
            let transactions = take e.config.max_transactions_per_block chosen in
            let draft = proposal e proposer transactions now previous_hash in
            let (machine, state_root) = execute_block p e.state_machine draft base_fee proposer in
            let block : Block = record draft {
              header = record draft.header { state_root = state_root };
            } in
            (store_block (record e { state_machine = machine }) block, some block)
      ]
      else (e, none)
