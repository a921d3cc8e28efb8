-- ===== src/Consensus/Votes/Quorum.antt =====
-- What a quorum certificate that the aggregator makes stands for.
use mathlib.Core.List.{reverse}
use sarafu_core.Base.{
  ℕ, ◌+◌, ◌*◌, ◌<◌, ◌≤◌, ◌≡◌, sym, ◌∙◌, arith, some, List, ◌&&◌, elem, Distinct, elem-reverse,
  Option-cases, inl, inr,
}
use sarafu_core.Base.Word.{u64_mod}
use sarafu_core.Crypto.{Primitives}
use sarafu_core.State.Types.{Hash}
use sarafu_core.Consensus.Types.{Validator, ValidatorSet, QuorumCertificate}
use sarafu_core.Consensus.ValidatorSet.{required_stake}
use sarafu_core.Consensus.ValidatorSet.Stake.{
  ids, active_stake, stake_where, sum_stakes-stake_where, stake_where_overlap, stake_where-cong,
  stake_where-le, required_stake_bounds,
}
use sarafu_core.Consensus.Votes.{VoteAggregator, BlockVotes, find_votes, aggregate_votes}
use sarafu_core.Consensus.Votes.Tally.{Tallied, IsTallied, find_votes-Tallied}

-- A validator set as an epoch transition leaves it: distinct ids, and the total of the active
-- stakes, small enough that two thirds of it are computed without wrapping.
pub record IsSound (vs : ValidatorSet) : Type 0 where
  pub distinct : Distinct (ids vs.validators)
  pub total : active_stake vs.validators ≡ vs.total_stake
  pub room : vs.total_stake * 2 + 2 < u64_mod

abbrev pub signed_stake : QuorumCertificate → List Validator → ℕ
signed_stake qc = stake_where (λ id. elem id qc.signers)

abbrev pub common_stake : QuorumCertificate → QuorumCertificate → List Validator → ℕ
common_stake q r = stake_where (λ id. elem id q.signers && elem id r.signers)

tally_stake :
    (vs : ValidatorSet) (bv : BlockVotes)
    → IsSound vs
    → Tallied vs.validators bv
    → bv.total_stake ≡ stake_where (λ id. elem id bv.voted) vs.validators
tally_stake vs bv s t = omega (
  arith,
  t.stake,
  sum_stakes-stake_where bv.voted vs.validators s.distinct t.distinct,
  stake_where-le (λ id. elem id bv.voted) vs.validators,
  s.total,
  s.room,
)

-- A certificate that an aggregator with right tallies gives over a sound validator set is for the
-- block and view asked for; its stake is the stake of the active validators that signed it, and
-- is at least two thirds of the total.
pub aggregate_votes_quorum :
    (p : Primitives) (a : VoteAggregator) (height : ℕ) (hash : Hash) (view : ℕ)
    (qc : QuorumCertificate)
    → IsTallied a
    → IsSound a.validator_set
    → aggregate_votes p a height hash view ≡ some (some qc)
    → (qc.block_height ≡ height)
      × (qc.block_hash ≡ hash)
      × (qc.view_number ≡ view)
      × (qc.total_stake_signed ≡ signed_stake qc a.validator_set.validators)
      × (a.validator_set.total_stake * 2 ≤ signed_stake qc a.validator_set.validators * 3)
unfolding aggregate_votes
aggregate_votes_quorum p a height hash view qc t s e =
    elim (Option-cases (find_votes height hash a.votes_by_block)) [
      | inl none_found ↦ ground arith
      | inr (bv, found) ↦
          let tv : Tallied a.validator_set.validators bv = rw found at (
            find_votes-Tallied a.validator_set.validators height hash a.votes_by_block t.tallied) in
          let counted = tally_stake a.validator_set bv s tv in
          let in_order =
            stake_where-cong (λ id. elem id (reverse bv.voted)) (λ id. elem id bv.voted)
              a.validator_set.validators (λ id. elem-reverse id bv.voted) in
          let bounds = required_stake_bounds a.validator_set.total_stake s.room in
          let enough : required_stake a.validator_set.total_stake ≤ bv.total_stake = ground arith in
          let total : qc.total_stake_signed ≡ bv.total_stake = ground arith in
          let signers : qc.signers ≡ reverse bv.voted = ground (arith, tv.recorded) in
          let signed : signed_stake qc a.validator_set.validators ≡ bv.total_stake =
            rw signers (in_order ∙ sym counted) in
          (ground arith, ground arith, ground arith, total ∙ sym signed, omega arith)
    ]

-- Any two certificates that two aggregators over one sound validator set give, both with right
-- tallies, for whatever blocks, share signers with at least a third of the stake.
pub aggregate_votes_overlap :
    (p : Primitives) (a b : VoteAggregator) (h₁ h₂ : ℕ) (x₁ x₂ : Hash) (w₁ w₂ : ℕ)
    (q r : QuorumCertificate)
    → IsTallied a
    → IsTallied b
    → IsSound a.validator_set
    → b.validator_set ≡ a.validator_set
    → aggregate_votes p a h₁ x₁ w₁ ≡ some (some q)
    → aggregate_votes p b h₂ x₂ w₂ ≡ some (some r)
    → a.validator_set.total_stake ≤ common_stake q r a.validator_set.validators * 3
aggregate_votes_overlap p a b h₁ h₂ x₁ x₂ w₁ w₂ q r ta tb s same eq er =
    let vs = a.validator_set.validators in
    let (_, _, _, _, large_q) = aggregate_votes_quorum p a h₁ x₁ w₁ q ta s eq in
    let (_, _, _, _, large_b) = aggregate_votes_quorum p b h₂ x₂ w₂ r tb (rw same s) er in
    let large_r : a.validator_set.total_stake * 2 ≤ signed_stake r vs * 3 = rw same at large_b in
    let overlap = stake_where_overlap (λ id. elem id q.signers) (λ id. elem id r.signers) vs in
    omega (arith, s.total)
