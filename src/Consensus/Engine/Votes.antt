-- ===== src/Consensus/Engine/Votes.antt =====
-- What a vote does to the engine.
use sarafu_core.Base.{
  ℕ, ◌*◌, ◌≤◌, ◌≡◌, ◌≢◌, ◌↔◌, refl, sym, ap, subst, ◌∙◌, arith, true, false, none, some, List, [],
  ◌∷◌, ◌++◌, map, ltb, leb, if◌then◌else◌, Option-cases, Bool-cases, inl, inr, elem,
}
use sarafu_core.Base.Word.{add64}
use sarafu_core.Crypto.{Primitives, all_of, bls_aggregate}
use sarafu_core.State.Types.{Hash}
use sarafu_core.Consensus.Types.{QuorumCertificate, Vote}
use sarafu_core.Consensus.ValidatorSet.{required_stake}
use sarafu_core.Consensus.Votes.{
  VoteAggregator, BlockVotes, BlockEntry, find_votes, put_votes, votes_or_new, add_vote,
  has_supermajority, aggregate_votes, is_active_validator, get_validator_stake,
}
use sarafu_core.Consensus.Votes.Tally
use sarafu_core.Consensus.Votes.Tally.{IsTallied, run-IsTallied}
use sarafu_core.Consensus.Votes.Quorum.{IsSound, signed_stake, aggregate_votes_quorum}
use sarafu_core.Consensus.Certificate.{verify_qc}
use sarafu_core.Consensus.Certificate.Forged.{verify_qc_throws}
use sarafu_core.Consensus.Engine.{Engine, mark_finalized, on_receive_vote}

find_votes-put_votes :
    (height : ℕ) (hash : Hash) (bv : BlockVotes) (es : List BlockEntry)
    → find_votes height hash (put_votes height hash bv es) ≡ some bv
find_votes-put_votes height hash bv [] = ground arith
find_votes-put_votes height hash bv (e ∷ es) =
    ground (arith, find_votes-put_votes height hash bv es)

-- A vote that is counted stands last among the votes for its block.
add_vote_counted :
    (a : VoteAggregator) (v : Vote)
    → (add_vote a v).1 ≡ true
    → (bv : BlockVotes) × (find_votes v.block_height v.block_hash (add_vote a v).0.votes_by_block
        ≡ some bv)
      × (ms : List Vote) × (bv.votes ≡ ms ++ v ∷ [])
unfolding add_vote
add_vote_counted a v h =
    let old = votes_or_new (find_votes v.block_height v.block_hash a.votes_by_block) in
    let new : BlockVotes = record {
      votes = old.votes ++ v ∷ [];
      voted = v.validator_id ∷ old.voted;
      total_stake = add64 old.total_stake (get_validator_stake a.validator_set v.validator_id);
    } in
    elim (Bool-cases (is_active_validator v.validator_id a.validator_set.validators)) [
      | inr stranger ↦ absurd (ground (arith, h, stranger))
      | inl member ↦ elim (Bool-cases (elem v.validator_id old.voted)) [
        | inl again ↦ absurd (ground (arith, h, member, again))
        | inr first ↦
            rw (add_vote, member, first)
              (
                new,
                find_votes-put_votes v.block_height v.block_hash new a.votes_by_block,
                old.votes,
                refl,
              )
      ]
    ]

ids_some : (ms : List Vote) (v : Vote) → map (λ (w : Vote). w.validator_id) (ms ++ v ∷ []) ≢ []
ids_some [] v e = absurd (ground (arith, e))
ids_some (m ∷ ms) v e = absurd (ground (arith, e))

-- The signatures that an aggregator holds for a block.
abbrev pub signatures_for : VoteAggregator → ℕ → Hash → List ℕ
signatures_for a height hash =
    map (λ (w : Vote). w.signature) (votes_or_new (find_votes height hash a.votes_by_block)).votes

aggregate_signers :
    (p : Primitives) (a : VoteAggregator) (height : ℕ) (hash : Hash) (view : ℕ) (bv : BlockVotes)
    (qc : QuorumCertificate)
    → find_votes height hash a.votes_by_block ≡ some bv
    → aggregate_votes p a height hash view ≡ some (some qc)
    → map (λ (w : Vote). w.validator_id) bv.votes ≡ qc.signers
unfolding aggregate_votes
aggregate_signers p a height hash view bv qc found e = ground (arith, found, e)

signers_some :
    (p : Primitives) (a : VoteAggregator) (v : Vote) (qc : QuorumCertificate)
    → (add_vote a v).1 ≡ true
    → aggregate_votes p (add_vote a v).0 v.block_height v.block_hash v.view_number ≡ some (some qc)
    → qc.signers ≢ []
signers_some p a v qc h e none_there =
    let (bv, found, ms, last) = add_vote_counted a v h in
    ids_some ms v (
      ap (map (λ (w : Vote). w.validator_id)) (sym last)
      ∙ aggregate_signers p (add_vote a v).0 v.block_height v.block_hash v.view_number bv qc found e
      ∙ none_there)

-- Receiving a vote that counts returns what the aggregation returns.
vote_result :
    (p : Primitives) (e : Engine) (v : Vote)
    → let (a, added) = add_vote e.vote_aggregator v in
      (on_receive_vote p e v).1
      ≡ (if added then aggregate_votes p a v.block_height v.block_hash v.view_number else some none)
unfolding on_receive_vote mark_finalized
vote_result p e v =
    let a = (add_vote e.vote_aggregator v).0 in
    elim (Bool-cases (add_vote e.vote_aggregator v).1) [
      | inr refused ↦ rw (on_receive_vote, refused) refl
      | inl counted ↦
          elim (Option-cases (aggregate_votes p a v.block_height v.block_hash v.view_number)) [
            | inl throws ↦ rw (on_receive_vote, counted, throws) refl
            | inr (none, few) ↦ rw (on_receive_vote, counted, few) refl
            | inr (some qc, made) ↦ elim (Option-cases (verify_qc p qc e.current_set)) [
              | inl throws ↦ absurd (
                  signers_some p e.vote_aggregator v qc counted made
                    ((verify_qc_throws p qc e.current_set).0 throws).1)
              | inr (true, known) ↦ rw (on_receive_vote, counted, made, mark_finalized, known) refl
              | inr (false, known) ↦ rw (on_receive_vote, counted, made, mark_finalized, known) refl
            ]
          ]
    ]

bls_aggregate_throws :
    (p : Primitives) (signatures : List ℕ)
    → signatures ≢ []
    → (bls_aggregate p signatures ≡ none) ↔ (all_of p.well_formed signatures ≡ false)
unfolding bls_aggregate
bls_aggregate_throws p [] h = absurd (h refl)
bls_aggregate_throws p (s ∷ ss) h = elim (Bool-cases (all_of p.well_formed (s ∷ ss))) [
  | inl fine ↦ rw fine ((λ e. absurd (ground (arith, e))), (λ e. absurd (ground (arith, e))))
  | inr bad ↦ rw bad ((λ e. refl), (λ e. refl))
]

aggregate_throws :
    (p : Primitives) (a : VoteAggregator) (height : ℕ) (hash : Hash) (view : ℕ) (bv : BlockVotes)
    → find_votes height hash a.votes_by_block ≡ some bv
    → map (λ (w : Vote). w.signature) bv.votes ≢ []
    → (aggregate_votes p a height hash view ≡ none) ↔ (
        (has_supermajority a height hash ≡ true)
        × (all_of p.well_formed (signatures_for a height hash) ≡ false))
unfolding aggregate_votes has_supermajority
aggregate_throws p a height hash view bv found some_votes =
    let sigs = map (λ (w : Vote). w.signature) bv.votes in
    let (to, from) = bls_aggregate_throws p sigs some_votes in
    let required = required_stake a.validator_set.total_stake in
    elim (Bool-cases (ltb bv.total_stake required)) [
      | inl few ↦
          let below : leb required bv.total_stake ≡ false = ground (arith, few) in
          rw (aggregate_votes, has_supermajority, found, few, below)
            ((λ e. absurd (ground (arith, e))), (λ e. absurd (ground (arith, e.0))))
      | inr enough ↦
          let reached : leb required bv.total_stake ≡ true = ground (arith, enough) in
          elim (Option-cases (bls_aggregate p sigs)) [
            | inl throws ↦
                rw (aggregate_votes, has_supermajority, found, enough, reached, throws)
                  ((λ e. (refl, to throws)), (λ e. refl))
            | inr (sig, made) ↦
                rw (aggregate_votes, has_supermajority, found, enough, reached, made)
                  (
                    (λ e. absurd (ground (arith, e))),
                    (λ e. absurd (ground (arith, from e.1, made))),
                  )
          ]
    ]

signatures_some : (ms : List Vote) (v : Vote) → map (λ (w : Vote). w.signature) (ms ++ v ∷ []) ≢ []
signatures_some [] v e = absurd (ground (arith, e))
signatures_some (m ∷ ms) v e = absurd (ground (arith, e))

-- Receiving a vote throws exactly when the vote counts, the votes for its block then have the stake for a
-- certificate, and one of the signatures recorded for the block is malformed: add_vote looks at none.
pub on_receive_vote_throws :
    (p : Primitives) (e : Engine) (v : Vote)
    → let (a, added) = add_vote e.vote_aggregator v in
      ((on_receive_vote p e v).1 ≡ none) ↔ (
        (added ≡ true)
        × (has_supermajority a v.block_height v.block_hash ≡ true)
        × (all_of p.well_formed (signatures_for a v.block_height v.block_hash) ≡ false))
on_receive_vote_throws p e v =
    let a = (add_vote e.vote_aggregator v).0 in
    let result = vote_result p e v in
    elim (Bool-cases (add_vote e.vote_aggregator v).1) [
      | inr refused ↦
          let nothing : (on_receive_vote p e v).1 ≡ some none = rw refused at result in
          rw (nothing, refused)
            ((λ x. absurd (ground (arith, x))), (λ x. absurd (ground (arith, x.0))))
      | inl counted ↦
          let same : (on_receive_vote p e v).1
              ≡ aggregate_votes p a v.block_height v.block_hash v.view_number =
            rw counted at result in
          let (bv, found, ms, last) = add_vote_counted e.vote_aggregator v counted in
          let (to, from) =
            aggregate_throws p a v.block_height v.block_hash v.view_number bv found
              (rw last (signatures_some ms v)) in
          (
            (λ x. let (high, bad) = to (sym same ∙ x) in (counted, high, bad)),
            (λ x. same ∙ from (x.1, x.2)),
          )
    ]

-- Where receiving a vote completes a certificate, from right tallies over a sound set, it is for
-- the block of the vote, and the active validators of that set that it lists as signers have two thirds
-- of the stake. Whether they signed is not tested.
pub on_receive_vote_quorum :
    (p : Primitives) (e : Engine) (v : Vote) (qc : QuorumCertificate)
    → IsTallied e.vote_aggregator
    → IsSound e.vote_aggregator.validator_set
    → (on_receive_vote p e v).1 ≡ some (some qc)
    → (qc.block_hash ≡ v.block_hash)
      × (qc.block_height ≡ v.block_height)
      × (e.vote_aggregator.validator_set.total_stake * 2
          ≤ signed_stake qc e.vote_aggregator.validator_set.validators * 3)
unfolding Tally.run
on_receive_vote_quorum p e v qc t s h =
    let a = e.vote_aggregator in
    let (same, kept) = run-IsTallied a (Tally.Call.adds v ∷ []) t in
    let sound = subst IsSound (sym same) s in
    elim (Bool-cases (add_vote a v).1) [
      | inr refused ↦ absurd (ground (arith, h, vote_result p e v, refused))
      | inl counted ↦
          let certificate : aggregate_votes p (add_vote a v).0 v.block_height v.block_hash
                v.view_number
              ≡ some (some qc) =
            sym (rw counted at (vote_result p e v)) ∙ h in
          let quorum =
            aggregate_votes_quorum p (add_vote a v).0 v.block_height v.block_hash v.view_number qc
              kept sound certificate in
          (
            quorum.1,
            quorum.0,
            subst (λ set. set.total_stake * 2 ≤ signed_stake qc set.validators * 3) same quorum.4,
          )
    ]
