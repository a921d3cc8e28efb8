-- ===== src/Consensus/Votes.antt =====
-- src/consensus/vote_aggregator.cpp.
pub mod Tally
pub mod Quorum
use sarafu_core.Base.{
  ℕ, Bool, true, false, Option, none, some, List, [], ◌∷◌, ◌++◌, map, ◌==◌, ltb, leb, ◌&&◌,
  if◌then◌else◌, elem,
}
use sarafu_core.Base.Word.{add64}
use sarafu_core.Crypto.{Primitives, bls_aggregate}
use sarafu_core.State.Types.{Hash}
use sarafu_core.Consensus.Types.{Validator, ValidatorId, ValidatorSet, Vote, QuorumCertificate}
use sarafu_core.Consensus.ValidatorSet.{find_validator, is_active_status, required_stake}

-- The votes for one block: `voted` holds the ids that are marked true.
pub record BlockVotes : Type 0 where
  pub votes : List Vote
  pub voted : List ValidatorId
  pub total_stake : ℕ

-- A key of `votes_by_block_` with its entry.
pub record BlockEntry : Type 0 where
  pub height : ℕ
  pub hash : Hash
  pub votes : BlockVotes

pub record VoteAggregator : Type 0 where
  pub validator_set : ValidatorSet
  pub votes_by_block : List BlockEntry

abbrev pub no_votes : BlockVotes
no_votes = record { votes = []; voted = []; total_stake = 0 }

abbrev pub same_key : ℕ → Hash → BlockEntry → Bool
same_key height hash e = height == e.height && hash == e.hash

abbrev pub find_votes : ℕ → Hash → List BlockEntry → Option BlockVotes
find_votes height hash [] = none
find_votes height hash (e ∷ es) =
    if same_key height hash e then some e.votes else find_votes height hash es

-- The entries are found by key alone, so a new one may stand at the end.
abbrev pub put_votes : ℕ → Hash → BlockVotes → List BlockEntry → List BlockEntry
put_votes height hash bv [] = record { height = height; hash = hash; votes = bv } ∷ []
put_votes height hash bv (e ∷ es) =
    if same_key height hash e then record e { votes = bv } ∷ es else e ∷ put_votes height hash bv es

abbrev pub votes_or_new : Option BlockVotes → BlockVotes
votes_or_new none = no_votes
votes_or_new (some bv) = bv

abbrev pub stake_or_zero : Option Validator → ℕ
stake_or_zero none = 0
stake_or_zero (some v) = v.bonded_stake

unfoldable pub get_validator_stake : ValidatorSet → ValidatorId → ℕ
get_validator_stake vs id = stake_or_zero (find_validator id vs.validators)

-- Unlike ValidatorSet::is_active this goes on past an entry of the id that is not active.
unfoldable pub is_active_validator : ValidatorId → List Validator → Bool
is_active_validator id [] = false
is_active_validator id (v ∷ vs) =
    if v.id == id && is_active_status v.status then true else is_active_validator id vs

-- The first vote of an active validator for a block counts; the entry of the block is made either way.
unfoldable pub add_vote : VoteAggregator → Vote → VoteAggregator × Bool
add_vote a vote =
    let bv = votes_or_new (find_votes vote.block_height vote.block_hash a.votes_by_block) in
    let put = λ (b : BlockVotes). record a {
      votes_by_block = put_votes vote.block_height vote.block_hash b a.votes_by_block;
    } in
    if is_active_validator vote.validator_id a.validator_set.validators
    then (if elem vote.validator_id bv.voted then (put bv, false) else (
      put (record {
        votes = bv.votes ++ vote ∷ [];
        voted = vote.validator_id ∷ bv.voted;
        total_stake = add64 bv.total_stake (get_validator_stake a.validator_set vote.validator_id);
      }),
      true,
    ))
    else (a, false)

-- The outer none is the exception of BLS12_381::aggregate, the inner one too little stake.
unfoldable pub aggregate_votes :
    Primitives → VoteAggregator → ℕ → Hash → ℕ → Option (Option QuorumCertificate)
aggregate_votes p a block_height block_hash view_number =
    elim (find_votes block_height block_hash a.votes_by_block) [
      | none ↦ some none
      | some bv ↦
          if ltb bv.total_stake (required_stake a.validator_set.total_stake)
          then some none
          else elim (bls_aggregate p (map (λ (v : Vote). v.signature) bv.votes)) [
            | none ↦ none
            | some aggregated_sig ↦ some (
                some (record {
                  block_height = block_height;
                  block_hash = block_hash;
                  view_number = view_number;
                  aggregated_signature = aggregated_sig;
                  signers = map (λ (v : Vote). v.validator_id) bv.votes;
                  total_stake_signed = bv.total_stake;
                }))
          ]
    ]

unfoldable pub has_supermajority : VoteAggregator → ℕ → Hash → Bool
has_supermajority a block_height block_hash =
    elim (find_votes block_height block_hash a.votes_by_block) [
      | none ↦ false
      | some bv ↦ leb (required_stake a.validator_set.total_stake) bv.total_stake
    ]

unfoldable pub get_stake_for_block : VoteAggregator → ℕ → Hash → ℕ
get_stake_for_block a block_height block_hash =
    elim (find_votes block_height block_hash a.votes_by_block) [
      | none ↦ 0
      | some bv ↦ bv.total_stake
    ]

unfoldable pub drop_up_to : ℕ → List BlockEntry → List BlockEntry
drop_up_to height [] = []
drop_up_to height (e ∷ es) =
    if leb e.height height then drop_up_to height es else e ∷ drop_up_to height es

unfoldable pub clear_votes_up_to_height : VoteAggregator → ℕ → VoteAggregator
unfolding drop_up_to
clear_votes_up_to_height a height = record a { votes_by_block = drop_up_to height a.votes_by_block }

unfoldable pub update_validator_set : VoteAggregator → ValidatorSet → VoteAggregator
update_validator_set a vs = record a { validator_set = vs }
