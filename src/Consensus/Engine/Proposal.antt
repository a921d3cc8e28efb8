-- ===== src/Consensus/Engine/Proposal.antt =====
-- What a proposed block is.
use sarafu_core.Base.{ℕ, ◌≤◌, ◌≡◌, refl, arith, true, Option, some, length, take, length-take}
use sarafu_core.Base.Word.{add64}
use sarafu_core.Base.Map.{lookup-insert_self}
use sarafu_core.Crypto.{Primitives}
use sarafu_core.State.Types.{Hash}
use sarafu_core.State.Accounts.{Accounts}
use sarafu_core.State.Mempool.{Mempool, get_transactions_for_block}
use sarafu_core.State.Machine.{execute_block}
use sarafu_core.Consensus.Types.{Block, ValidatorId}
use sarafu_core.Consensus.Codec.{block_hash}
use sarafu_core.Consensus.Engine.{
  Engine, is_current_leader, parent_hash, proposal, propose_block, store_block, get_block,
  get_block_by_height,
}

-- What holds of a proposed block `b` and of the engine `e₁` after the proposal.
pub record Proposed (p : Primitives) (e e₁ : Engine) (proposer : ValidatorId) (now : ℕ) (b : Block)
    : Type 0 where
  pub leader : is_current_leader e proposer ≡ true
  pub by_leader : b.header.proposer ≡ proposer
  pub next : b.header.height ≡ add64 e.current_height 1
  pub on_parent : parent_hash p e ≡ some b.header.previous_hash
  pub justified : b.justify ≡ e.highest_qc
  pub at_time : b.header.timestamp ≡ now
  pub within : length b.transactions ≤ e.config.max_transactions_per_block
  pub stored : get_block e₁ (block_hash p b) ≡ some b
  pub indexed : get_block_by_height e₁ b.header.height ≡ some b
  pub same_height : e₁.current_height ≡ e.current_height

store_block-get :
    (p : Primitives) (e : Engine) (b : Block)
    → (get_block (store_block p e b) (block_hash p b) ≡ some b)
      × (get_block_by_height (store_block p e b) b.header.height ≡ some b)
unfolding store_block get_block get_block_by_height
store_block-get p e b = ground (
  arith,
  lookup-insert_self (block_hash p b) b e.block_store,
  lookup-insert_self b.header.height (block_hash p b) e.height_index,
)

-- The current leader, where the block of the current height is known or that height is 0, gets a
-- block: of the next height, on that block, with the highest certificate, with no more
-- transactions than allowed; it can be looked up by hash and by height, and the current height
-- stays.
pub propose_block_lem :
    (p : Primitives) (e : Engine) (proposer : ValidatorId) (mempool : Mempool)
    (manager : Option Accounts) (base_fee now : ℕ) (hash : Hash)
    → is_current_leader e proposer ≡ true
    → parent_hash p e ≡ some hash
    → (b : Block) × ((propose_block p e proposer mempool manager base_fee now).1 ≡ some b)
      × Proposed p e (propose_block p e proposer mempool manager base_fee now).0 proposer now b
unfolding propose_block store_block proposal
propose_block_lem p e proposer mempool manager base_fee now hash leader there =
    let chosen = get_transactions_for_block mempool manager e.config.max_block_gas base_fee in
    let transactions = take e.config.max_transactions_per_block chosen in
    let draft = proposal p e proposer transactions now hash in
    let (machine, state_root) = execute_block p e.state_machine draft base_fee proposer in
    let b : Block = record draft { header = record draft.header { state_root = state_root } } in
    let e₂ : Engine = record e { state_machine = machine } in
    let found = store_block-get p e₂ b in
    rw (propose_block, leader, there)
      (
        b,
        refl,
        record {
          leader = leader;
          by_leader = refl;
          next = refl;
          on_parent = there;
          justified = refl;
          at_time = refl;
          within = omega (arith, length-take e.config.max_transactions_per_block chosen);
          stored = found.0;
          indexed = found.1;
          same_height = refl;
        },
      )
