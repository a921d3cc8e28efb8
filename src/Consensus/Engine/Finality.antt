-- ===== src/Consensus/Engine/Finality.antt =====
-- What finalizing keeps: the highest certificate, the heights, and the store of blocks.
use sarafu_core.Base.{
  ℕ, ◌⊎◌, ◌≤◌, ◌≡◌, refl, arith, true, false, Option, none, some, some, List, [], ◌∷◌, ltb,
  Option-cases, Bool-cases, inl, inr,
}
use sarafu_core.Base.Map.{Map, lookup, insert}
use sarafu_core.Crypto.{Primitives}
use sarafu_core.State.Types.{Hash}
use sarafu_core.State.Accounts.{Accounts}
use sarafu_core.State.Mempool.{Mempool}
use sarafu_core.Consensus.Types.{Block, QuorumCertificate, ValidatorId, Vote}
use sarafu_core.Consensus.Codec.{block_hash}
use sarafu_core.Consensus.Votes.{add_vote, aggregate_votes}
use sarafu_core.Consensus.Certificate.{verify_qc}
use sarafu_core.Consensus.Engine.{
  Engine, mark_finalized, verify_block, on_receive_block, on_receive_vote, store_block,
  trigger_view_change, propose_block, is_current_leader, parent_hash,
}

-- Every block is stored under its own hash.
abbrev pub Filed : Primitives → Map Block → Type 0
Filed p [] = Unit
Filed p ((h, b) ∷ m) = (h ≡ block_hash p b) × Filed p m

insert-Filed :
    (p : Primitives) (b : Block) (m : Map Block) → Filed p m → Filed p (insert (block_hash p b) b m)
insert-Filed p b [] f = (refl, tt)
insert-Filed p b ((h, c) ∷ m) f = ground (arith, f, insert-Filed p b m f.1)

pub lookup-Filed :
    (p : Primitives) (h : Hash) (b : Block) (m : Map Block)
    → Filed p m
    → lookup h m ≡ some b
    → block_hash p b ≡ h
lookup-Filed p h b [] f e = ground arith
lookup-Filed p h b ((k, c) ∷ m) f e = ground (arith, f, lookup-Filed p h b m f.1)

-- The engine's invariant, over the engine it started as: the finalized height is that of the highest
-- certificate, which is valid unless it is the one at the start; heights have not fallen; and blocks
-- are stored under their hashes.
pub record Since (p : Primitives) (e₀ e : Engine) : Type 0 where
  pub same_set : e.current_set ≡ e₀.current_set
  pub height : e.highest_qc.block_height ≡ e.finalized_height
  pub certified :
      (e.finalized_height ≡ e₀.finalized_height)
      ⊎ (verify_qc p e.highest_qc e.current_set ≡ some true)
  pub final_grows : e₀.finalized_height ≤ e.finalized_height
  pub grows : e₀.current_height ≤ e.current_height
  pub filed : Filed p e.block_store

-- The calls that the network and the timers make.
pub data Call : Type 0 where
  receives_block : Block → Call
  receives_vote : Vote → Call
  changes_view : Call
  proposes : ValidatorId → Mempool → Option Accounts → ℕ → ℕ → Call

abbrev pub after : Primitives → Engine → Call → Engine
after p e (receives_block b) = (on_receive_block p e b).0
after p e (receives_vote v) = (on_receive_vote p e v).0
after p e changes_view = (trigger_view_change e).0
after p e (proposes proposer mempool manager base_fee now) =
    (propose_block p e proposer mempool manager base_fee now).0

unfoldable pub run : Primitives → Engine → List Call → Engine
run p e [] = e
run p e (c ∷ cs) = run p (after p e c) cs

mark_finalized-Since :
    (p : Primitives) (e₀ e : Engine) (hash : Hash) (qc : QuorumCertificate)
    → Since p e₀ e
    → Since p e₀ (mark_finalized p e hash qc).0
unfolding mark_finalized
mark_finalized-Since p e₀ e hash qc s = elim (Option-cases (verify_qc p qc e.current_set)) [
  | inl throws ↦ rw (mark_finalized, throws) s
  | inr (false, known) ↦ rw (mark_finalized, known) s
  | inr (true, known) ↦ elim (Bool-cases (ltb e.highest_qc.block_height qc.block_height)) [
    | inl higher ↦
        rw (mark_finalized, known, higher)
          (record {
            same_set = s.same_set;
            height = refl;
            certified = inr known;
            final_grows = ground (arith, higher, s.height, s.final_grows);
            grows = s.grows;
            filed = s.filed;
          })
    | inr known_higher ↦
        rw (mark_finalized, known, known_higher)
          (record {
            same_set = s.same_set;
            height = s.height;
            certified = s.certified;
            final_grows = s.final_grows;
            grows = s.grows;
            filed = s.filed;
          })
  ]
]

store_block-Since :
    (p : Primitives) (e₀ e : Engine) (b : Block) → Since p e₀ e → Since p e₀ (store_block p e b)
unfolding store_block
store_block-Since p e₀ e b s = record {
  same_set = s.same_set;
  height = s.height;
  certified = s.certified;
  final_grows = s.final_grows;
  grows = s.grows;
  filed = insert-Filed p b e.block_store s.filed;
}

on_receive_block-Since :
    (p : Primitives) (e₀ e : Engine) (b : Block)
    → Since p e₀ e
    → Since p e₀ (on_receive_block p e b).0
unfolding on_receive_block
on_receive_block-Since p e₀ e b s = elim (Option-cases (verify_block p e b)) [
  | inl throws ↦ rw (on_receive_block, throws) s
  | inr (false, known) ↦ rw (on_receive_block, known) s
  | inr (true, known) ↦
      let t = store_block-Since p e₀ e b s in
      rw (on_receive_block, known)
        (record {
          same_set = t.same_set;
          height = t.height;
          certified = t.certified;
          final_grows = t.final_grows;
          grows = ground (arith, s.grows);
          filed = t.filed;
        })
]

on_receive_vote-Since :
    (p : Primitives) (e₀ e : Engine) (v : Vote)
    → Since p e₀ e
    → Since p e₀ (on_receive_vote p e v).0
unfolding on_receive_vote
on_receive_vote-Since p e₀ e v s =
    let (aggregator, added) = add_vote e.vote_aggregator v in
    let e₁ : Engine = record e { vote_aggregator = aggregator } in
    let s₁ : Since p e₀ e₁ = record {
      same_set = s.same_set;
      height = s.height;
      certified = s.certified;
      final_grows = s.final_grows;
      grows = s.grows;
      filed = s.filed;
    } in
    elim (Bool-cases added) [
      | inr refused ↦ rw (on_receive_vote, refused) s₁
      | inl counted ↦
          elim (Option-cases
            (aggregate_votes p aggregator v.block_height v.block_hash v.view_number)) [
              | inl throws ↦ rw (on_receive_vote, counted, throws) s₁
              | inr (none, few) ↦ rw (on_receive_vote, counted, few) s₁
              | inr (some qc, enough) ↦
                  rw (on_receive_vote, counted, enough)
                    (mark_finalized-Since p e₀ e₁ v.block_hash qc s₁)
            ]
    ]

propose_block-Since :
    (p : Primitives) (e₀ e : Engine) (proposer : ValidatorId) (mempool : Mempool)
    (manager : Option Accounts) (base_fee now : ℕ)
    → Since p e₀ e
    → Since p e₀ (propose_block p e proposer mempool manager base_fee now).0
unfolding propose_block
propose_block-Since p e₀ e proposer mempool manager base_fee now s =
    elim (Bool-cases (is_current_leader e proposer)) [
      | inr other ↦ rw (propose_block, other) s
      | inl leader ↦ elim (Option-cases (parent_hash p e)) [
        | inl missing ↦ rw (propose_block, leader, missing) s
        | inr (hash, there) ↦
            rw (propose_block, leader, there)
              (store_block-Since p e₀ _ _ (record {
                same_set = s.same_set;
                height = s.height;
                certified = s.certified;
                final_grows = s.final_grows;
                grows = s.grows;
                filed = s.filed;
              }))
      ]
    ]

after-Since : (p : Primitives) (e₀ e : Engine) (c : Call) → Since p e₀ e → Since p e₀ (after p e c)
unfolding trigger_view_change
after-Since p e₀ e (receives_block b) s = on_receive_block-Since p e₀ e b s
after-Since p e₀ e (receives_vote v) s = on_receive_vote-Since p e₀ e v s
after-Since p e₀ e changes_view s = record {
  same_set = s.same_set;
  height = s.height;
  certified = s.certified;
  final_grows = s.final_grows;
  grows = s.grows;
  filed = s.filed;
}
after-Since p e₀ e (proposes proposer mempool manager base_fee now) s =
    propose_block-Since p e₀ e proposer mempool manager base_fee now s

-- From an engine that keeps the invariant, whatever blocks and votes come in, views change and blocks are
-- proposed: neither the finalized nor the current height falls below where it started; the finalized
-- height is that of the highest certificate, which is valid where that height has changed; the
-- validator set stays; and every block is stored under its own hash.
pub run-Since :
    (p : Primitives) (e₀ e : Engine) (cs : List Call) → Since p e₀ e → Since p e₀ (run p e cs)
unfolding run
run-Since p e₀ e [] s = s
run-Since p e₀ e (c ∷ cs) s = run-Since p e₀ (after p e c) cs (after-Since p e₀ e c s)
