-- ===== src/Consensus/Votes/Tally.antt =====
-- What the aggregator keeps for each block: one vote for each of several active validators, and
-- their stake.
use mathlib.Core.List.{reverse, reverse-cons, map-append}
use sarafu_core.Base.{
  ℕ, ◌+◌, ◌%◌, ◌≡◌, refl, sym, ap, ◌∙◌, arith, leb, true, false, List, [], ◌∷◌, ◌++◌, map, elem,
  Distinct, All, Bool-cases, inl, inr,
}
use sarafu_core.Base.Word.{u64_mod}
use sarafu_core.State.Types.{Hash}
use sarafu_core.Consensus.Types.{Validator, ValidatorId, ValidatorSet, Vote}
use sarafu_core.Consensus.ValidatorSet.{find_validator}
use sarafu_core.Consensus.ValidatorSet.Stake.{ids, active_stake_of, sum_stakes}
use sarafu_core.Consensus.Votes.{
  VoteAggregator, BlockVotes, BlockEntry, no_votes, same_key, find_votes, put_votes, votes_or_new,
  add_vote, get_validator_stake, is_active_validator, stake_or_zero, clear_votes_up_to_height,
  drop_up_to,
}

-- In a set with distinct ids, an active validator's stake is what the first entry of its id has.
active_stake-first :
    (id : ValidatorId) (vs : List Validator)
    → Distinct (ids vs)
    → is_active_validator id vs ≡ true
    → stake_or_zero (find_validator id vs) ≡ active_stake_of id vs
unfolding find_validator is_active_validator active_stake_of
active_stake-first id [] d h = ground arith
active_stake-first id (v ∷ vs) d h =
    ground (arith, active_stake-first id vs d.1, absent_inactive id vs)
  where
    absent_inactive :
        (x : ValidatorId) (ws : List Validator)
        → elem x (ids ws) ≡ false
        → is_active_validator x ws ≡ false
    absent_inactive x [] e = refl
    absent_inactive x (w ∷ ws) e = ground (arith, absent_inactive x ws)

abbrev pub voters : BlockVotes → List ValidatorId
voters bv = map (λ (v : Vote). v.validator_id) bv.votes

-- The invariant of one entry, over the validators `vs`.
pub record Tallied (vs : List Validator) (bv : BlockVotes) : Type 0 where
  pub distinct : Distinct bv.voted
  pub members : All (λ id. is_active_validator id vs ≡ true) bv.voted
  pub stake : bv.total_stake ≡ sum_stakes bv.voted vs % u64_mod
  pub recorded : voters bv ≡ reverse bv.voted

-- The invariant of the aggregator.
abbrev pub AllTallied : List Validator → List BlockEntry → Type 0
AllTallied vs [] = Unit
AllTallied vs (e ∷ es) = Tallied vs e.votes × AllTallied vs es

no_votes-Tallied : (vs : List Validator) → Tallied vs no_votes
unfolding sum_stakes
no_votes-Tallied vs = record { distinct = tt; members = tt; stake = refl; recorded = refl }

put_votes-AllTallied :
    (vs : List Validator) (height : ℕ) (hash : Hash) (bv : BlockVotes) (es : List BlockEntry)
    → Tallied vs bv
    → AllTallied vs es
    → AllTallied vs (put_votes height hash bv es)
put_votes-AllTallied vs height hash bv [] t a = (t, tt)
put_votes-AllTallied vs height hash bv (e ∷ es) t a = elim (Bool-cases (same_key height hash e)) [
  | inl same ↦ rw same (t, a.1)
  | inr other ↦ rw other (a.0, put_votes-AllTallied vs height hash bv es t a.1)
]

pub find_votes-Tallied :
    (vs : List Validator) (height : ℕ) (hash : Hash) (es : List BlockEntry)
    → AllTallied vs es
    → Tallied vs (votes_or_new (find_votes height hash es))
find_votes-Tallied vs height hash [] a = no_votes-Tallied vs
find_votes-Tallied vs height hash (e ∷ es) a = elim (Bool-cases (same_key height hash e)) [
  | inl same ↦ rw same a.0
  | inr other ↦ rw other (find_votes-Tallied vs height hash es a.1)
]

module _ (vs : ValidatorSet) (d : Distinct (ids vs.validators)) where
  count_vote :
      (bv : BlockVotes) (vote : Vote)
      → Tallied vs.validators bv
      → is_active_validator vote.validator_id vs.validators ≡ true
      → elem vote.validator_id bv.voted ≡ false
      → Tallied vs.validators (record {
        votes = bv.votes ++ vote ∷ [];
        voted = vote.validator_id ∷ bv.voted;
        total_stake = (bv.total_stake + get_validator_stake vs vote.validator_id) % u64_mod;
      })
  unfolding get_validator_stake sum_stakes
  count_vote bv vote t h new = record {
    distinct = (new, t.distinct);
    members = (h, t.members);
    stake = omega (arith, t.stake, active_stake-first vote.validator_id vs.validators d h);
    recorded =
        map-append _ bv.votes (vote ∷ [])
        ∙ ap (λ xs. xs ++ vote.validator_id ∷ []) t.recorded
        ∙ sym (reverse-cons vote.validator_id bv.voted);
  }

  -- Adding a vote, counted or not, keeps every block's tally right: distinct active voters in the
  -- order of their votes, and the sum of their stakes as it wraps.
  pub add_vote-AllTallied :
      (es : List BlockEntry) (vote : Vote)
      → AllTallied vs.validators es
      → let (a', _) = add_vote (record { validator_set = vs; votes_by_block = es }) vote in
        AllTallied a'.validator_set.validators a'.votes_by_block
  unfolding add_vote
  add_vote-AllTallied es vote a =
      let bv = votes_or_new (find_votes vote.block_height vote.block_hash es) in
      let t = find_votes-Tallied vs.validators vote.block_height vote.block_hash es a in
      let put = λ (b : BlockVotes) (tb : Tallied vs.validators b).
        put_votes-AllTallied vs.validators vote.block_height vote.block_hash b es tb a in
      elim (Bool-cases (is_active_validator vote.validator_id vs.validators)) [
        | inr outside ↦ rw (outside, add_vote) a
        | inl member ↦ elim (Bool-cases (elem vote.validator_id bv.voted)) [
          | inl again ↦ rw (member, again, add_vote) (put bv t)
          | inr first ↦ rw (member, first, add_vote) (put _ (count_vote bv vote t member first))
        ]
      ]

  clear-AllTallied :
      (height : ℕ) (es : List BlockEntry)
      → AllTallied vs.validators es
      → AllTallied vs.validators (drop_up_to height es)
  unfolding drop_up_to
  clear-AllTallied height [] a = tt
  clear-AllTallied height (e ∷ es) a = elim (Bool-cases (leb e.height height)) [
    | inl old ↦ rw (old, drop_up_to) (clear-AllTallied height es a.1)
    | inr recent ↦ rw (recent, drop_up_to) (a.0, clear-AllTallied height es a.1)
  ]

-- The calls that change the votes under one validator set.
pub data Call : Type 0 where
  adds : Vote → Call
  clears : ℕ → Call

abbrev pub after : VoteAggregator → Call → VoteAggregator
after a (adds vote) = (add_vote a vote).0
after a (clears height) = clear_votes_up_to_height a height

unfoldable pub run : VoteAggregator → List Call → VoteAggregator
run a [] = a
run a (c ∷ cs) = run (after a c) cs

abbrev pub empty_aggregator : ValidatorSet → VoteAggregator
empty_aggregator vs = record { validator_set = vs; votes_by_block = [] }

-- An aggregator over distinct ids whose tallies are right.
pub record IsTallied (a : VoteAggregator) : Type 0 where
  pub distinct_ids : Distinct (ids a.validator_set.validators)
  pub tallied : AllTallied a.validator_set.validators a.votes_by_block

after-set : (a : VoteAggregator) (c : Call) → (after a c).validator_set ≡ a.validator_set
unfolding add_vote clear_votes_up_to_height
after-set a (adds vote) = ground arith
after-set a (clears height) = refl

after-IsTallied : (a : VoteAggregator) (c : Call) → IsTallied a → IsTallied (after a c)
unfolding clear_votes_up_to_height
after-IsTallied a (adds vote) t = record {
  distinct_ids = rw (after-set a (adds vote)) t.distinct_ids;
  tallied = add_vote-AllTallied a.validator_set t.distinct_ids a.votes_by_block vote t.tallied;
}
after-IsTallied a (clears height) t = record {
  distinct_ids = t.distinct_ids;
  tallied = clear-AllTallied a.validator_set t.distinct_ids height a.votes_by_block t.tallied;
}

-- From right tallies, however votes come in and old ones are cleared, the validator set stays,
-- and every block's tally is that of distinct active validators, one recorded vote each, with the
-- sum of their stakes as it wraps.
pub run-IsTallied :
    (a : VoteAggregator) (cs : List Call)
    → IsTallied a
    → ((run a cs).validator_set ≡ a.validator_set) × IsTallied (run a cs)
unfolding run
run-IsTallied a [] t = (refl, t)
run-IsTallied a (c ∷ cs) t =
    let (same, t') = run-IsTallied (after a c) cs (after-IsTallied a c t) in
    (same ∙ after-set a c, t')
