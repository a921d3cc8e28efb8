-- ===== src/Consensus/Engine/Accepts.antt =====
-- Which blocks the engine accepts.
use sarafu_core.Base.{◌<◌, ◌≤◌, ◌≡◌, ◌≢◌, ◌↔◌, arith, true, some, Option-cases, inl, inr}
use sarafu_core.Base.Word.{add64}
use sarafu_core.Base.Map.{lookup, lookup-insert_self}
use sarafu_core.Crypto.{Primitives}
use sarafu_core.Consensus.Types.{Block}
use sarafu_core.Consensus.Codec.{block_hash}
use sarafu_core.Consensus.ValidatorSet.{is_active}
use sarafu_core.Consensus.Certificate.{verify_qc}
use sarafu_core.Consensus.Engine.{
  Engine, is_current_leader, get_block, extends_highest_qc, follows_parent, verify_block,
  on_receive_block, store_block,
}

-- The conditions on a block of positive height.
pub record Extends (p : Primitives) (e : Engine) (b : Block) : Type 0 where
  pub leader : is_current_leader e b.header.proposer ≡ true
  pub active_proposer : is_active b.header.proposer e.current_set.validators ≡ true
  pub not_behind : e.highest_qc.block_height ≤ b.justify.block_height
  pub justified_below : b.justify.block_height < b.header.height
  pub parent :
      (q : Block) × (get_block e b.header.previous_hash ≡ some q)
      × (b.header.height ≡ add64 q.header.height 1)
      × (q.header.timestamp < b.header.timestamp)
  pub certified : verify_qc p b.justify e.current_set ≡ some true

follows_parent_iff :
    (e : Engine) (b : Block)
    → b.header.height ≢ 0
    → (follows_parent e b ≡ true) ↔ (
        (q : Block) × (get_block e b.header.previous_hash ≡ some q)
        × (b.header.height ≡ add64 q.header.height 1)
        × (q.header.timestamp < b.header.timestamp))
unfolding follows_parent
follows_parent_iff e b h = elim (Option-cases (get_block e b.header.previous_hash)) [
  | inl missing ↦ (λ ok. ground (arith, h, missing, ok), λ x. ground (arith, missing, x.1))
  | inr (q, there) ↦ (
    λ ok. (q, there, ground (arith, h, there, ok), ground (arith, h, there, ok)),
    λ x. ground (arith, h, there, x.1, x.2, x.3),
  )
]

-- A block of positive height is accepted exactly when its proposer is the current leader and active, the block
-- that it follows is stored, one below it in height and earlier in time, and its certificate is
-- valid, below the block, and not below the highest known one. Its transactions and its state root are
-- not looked at.
pub verify_block_iff :
    (p : Primitives) (e : Engine) (b : Block)
    → b.header.height ≢ 0
    → (verify_block p e b ≡ some true) ↔ Extends p e b
unfolding verify_block extends_highest_qc
verify_block_iff p e b h = (
  λ ok. record {
    leader = ground (arith, ok, h);
    active_proposer = ground (arith, ok, h);
    not_behind = ground (arith, ok, h);
    justified_below = ground (arith, ok, h);
    parent = (follows_parent_iff e b h).0 (ground (arith, ok, h));
    certified = ground (arith, ok, h);
  },
  λ x.
      let follows = (follows_parent_iff e b h).1 x.parent in
      ground (
        arith, h, x.leader, x.active_proposer, x.not_behind, x.justified_below, x.certified,
        follows,
      ),
)

-- Any block of height 0 whose proposer is the current leader and active is accepted, whatever it holds, and takes the
-- place of the genesis block in the index of heights.
pub on_receive_block_replaces_genesis :
    (p : Primitives) (e : Engine) (b : Block)
    → b.header.height ≡ 0
    → is_current_leader e b.header.proposer ≡ true
    → is_active b.header.proposer e.current_set.validators ≡ true
    → let (e₁, outcome) = on_receive_block p e b in
      (outcome ≡ some true) × (lookup 0 e₁.height_index ≡ some (block_hash p b))
unfolding on_receive_block verify_block extends_highest_qc follows_parent store_block
on_receive_block_replaces_genesis p e b h leader act =
    ground (arith, h, leader, act, lookup-insert_self 0 (block_hash p b) e.height_index)
