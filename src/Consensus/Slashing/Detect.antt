-- ===== src/Consensus/Slashing/Detect.antt =====
-- What src/consensus/slashing_detector.cpp finds of double votes and keeps of votes.
use sarafu_core.Base.{
  ◌∙◌, ◌⊎◌, ℕ, ◌+◌, ◌-◌, ◌≡◌, ◌≢◌, refl, ap, sym, subst, arith, true, some, List, [], ◌∷◌, ◌++◌,
  map, ◌==◌, elem, All, length, length-append, length-drop, min, Bool-cases, Option-cases, inl, inr,
}
use sarafu_core.Crypto.{Primitives}
use sarafu_core.State.Types.{Hash}
use sarafu_core.Consensus.Types.{ValidatorId, ValidatorSet, Vote, QuorumCertificate}
use sarafu_core.Consensus.Votes.{
  VoteAggregator, BlockVotes, BlockEntry, same_key, find_votes, put_votes, votes_or_new, add_vote,
  aggregate_votes, clear_votes_up_to_height, drop_up_to, is_active_validator,
}
use sarafu_core.Consensus.Votes.Tally.{Call, adds, clears, after, run, empty_aggregator}
use sarafu_core.Consensus.Slashing.{surround_vote, new_event, detect_surround_vote, push_limited}

push_limited-length :
    {A : Type 0} (limit : ℕ) (history : List A) (x : A)
    → length (push_limited limit history x) ≡ min limit (length history + 1)
unfolding push_limited
push_limited-length limit history x = ground (
  arith,
  length-append history (x ∷ []),
  length-drop (length (history ++ x ∷ []) - limit) (history ++ x ∷ []),
)

-- The votes that the calls hand in.
abbrev pub votes_of : List Call → List Vote
votes_of [] = []
votes_of (adds v ∷ cs) = v ∷ votes_of cs
votes_of (clears height ∷ cs) = votes_of cs

-- Every vote kept for a block is for that block, and one of those with the property `P`.
module _ (P : Vote → Type 0) where
  abbrev Kept : ℕ → Hash → Vote → Type 0
  Kept height hash v = (v.block_height ≡ height) × (v.block_hash ≡ hash) × P v

  abbrev AllKept : List BlockEntry → Type 0
  AllKept [] = Unit
  AllKept (e ∷ es) = All (Kept e.height e.hash) e.votes.votes × AllKept es

  abbrev Admitted : Call → Type 0
  Admitted (adds v) = P v
  Admitted (clears height) = Unit

  All-snoc : (Q : Vote → Type 0) (vs : List Vote) (v : Vote) → All Q vs → Q v → All Q (vs ++ v ∷ [])
  All-snoc Q [] v a q = (q, tt)
  All-snoc Q (w ∷ vs) v a q = (a.0, All-snoc Q vs v a.1 q)

  Kept-same :
      (height : ℕ) (hash : Hash) (e : BlockEntry) (vs : List Vote)
      → same_key height hash e ≡ true
      → (All (Kept e.height e.hash) vs → All (Kept height hash) vs)
        × (All (Kept height hash) vs → All (Kept e.height e.hash) vs)
  Kept-same height hash e vs here =
      let heights : e.height ≡ height = ground (arith, here) in
      let hashes : e.hash ≡ hash = ground (arith, here) in
      (
        λ k.
            subst (λ n. All (Kept n hash) vs) heights
              (subst (λ x. All (Kept e.height x) vs) hashes k),
        λ k.
            subst (λ n. All (Kept n e.hash) vs) (sym heights)
              (subst (λ x. All (Kept height x) vs) (sym hashes) k),
      )

  find-Kept :
      (height : ℕ) (hash : Hash) (es : List BlockEntry)
      → AllKept es
      → All (Kept height hash) (votes_or_new (find_votes height hash es)).votes
  find-Kept height hash [] a = tt
  find-Kept height hash (e ∷ es) a = elim (Bool-cases (same_key height hash e)) [
    | inl here ↦ rw here ((Kept-same height hash e e.votes.votes here).0 a.0)
    | inr other ↦ rw other (find-Kept height hash es a.1)
  ]

  put-Kept :
      (height : ℕ) (hash : Hash) (bv : BlockVotes) (es : List BlockEntry)
      → All (Kept height hash) bv.votes
      → AllKept es
      → AllKept (put_votes height hash bv es)
  put-Kept height hash bv [] k a = (k, tt)
  put-Kept height hash bv (e ∷ es) k a = elim (Bool-cases (same_key height hash e)) [
    | inl here ↦ rw here ((Kept-same height hash e bv.votes here).1 k, a.1)
    | inr other ↦ rw other (a.0, put-Kept height hash bv es k a.1)
  ]

  drop-Kept : (height : ℕ) (es : List BlockEntry) → AllKept es → AllKept (drop_up_to height es)
  unfolding drop_up_to
  drop-Kept height [] a = tt
  drop-Kept height (e ∷ es) a = ground (arith, drop-Kept height es a.1, a.0)

  after-Kept :
      (a : VoteAggregator) (c : Call)
      → Admitted c
      → AllKept a.votes_by_block
      → AllKept (after a c).votes_by_block
  unfolding add_vote clear_votes_up_to_height
  after-Kept a (clears height) p k = drop-Kept height a.votes_by_block k
  after-Kept a (adds v) p k =
      let bv = votes_or_new (find_votes v.block_height v.block_hash a.votes_by_block) in
      let old = find-Kept v.block_height v.block_hash a.votes_by_block k in
      elim (Bool-cases (is_active_validator v.validator_id a.validator_set.validators)) [
        | inr outside ↦ rw (after, add_vote, outside) k
        | inl member ↦ elim (Bool-cases (elem v.validator_id bv.voted)) [
          | inl again ↦
              rw (after, add_vote, member, again)
                (put-Kept v.block_height v.block_hash bv a.votes_by_block old k)
          | inr first ↦
              rw (after, add_vote, member, first)
                (put-Kept v.block_height v.block_hash _ a.votes_by_block
                  (All-snoc (Kept v.block_height v.block_hash) bv.votes v old (refl, refl, p)) k)
        ]
      ]

  run-Kept :
      (a : VoteAggregator) (cs : List Call)
      → All Admitted cs
      → AllKept a.votes_by_block
      → AllKept (run a cs).votes_by_block
  unfolding run
  run-Kept a [] p k = k
  run-Kept a (c ∷ cs) p k = run-Kept (after a c) cs p.1 (after-Kept a c p.0 k)

  find_vote :
      (Q : Vote → Type 0) (id : ValidatorId) (vs : List Vote)
      → All Q vs
      → elem id (map (λ (v : Vote). v.validator_id) vs) ≡ true
      → (v : Vote) × (v.validator_id ≡ id) × Q v
  find_vote Q id [] a h = absurd (ground (arith, h))
  find_vote Q id (v ∷ vs) a h = elim (Bool-cases (id == v.validator_id)) [
    | inl here ↦ (v, ground (arith, here), a.0)
    | inr other ↦ find_vote Q id vs a.1 (rw other at h)
  ]

  -- A signer of a certificate has a vote behind it.
  signer-vote :
      (p : Primitives) (a : VoteAggregator) (height : ℕ) (hash : Hash) (view : ℕ)
      (qc : QuorumCertificate) (id : ValidatorId)
      → AllKept a.votes_by_block
      → aggregate_votes p a height hash view ≡ some (some qc)
      → elem id qc.signers ≡ true
      → (v : Vote) × (v.validator_id ≡ id) × Kept height hash v
  unfolding aggregate_votes
  signer-vote p a height hash view qc id k e s =
      elim (Option-cases (find_votes height hash a.votes_by_block)) [
        | inl missing ↦ absurd (ground (arith, e, missing))
        | inr (bv, found) ↦
            let kept : All (Kept height hash) bv.votes =
              rw found at (find-Kept height hash a.votes_by_block k) in
            let signers : qc.signers ≡ map (λ (v : Vote). v.validator_id) bv.votes =
              ground (arith, e, found) in
            find_vote (Kept height hash) id bv.votes kept (rw signers at s)
      ]

-- One of the votes of a list.
abbrev pub Among : Vote → List Vote → Type 0
Among v [] = ⊥
Among v (w ∷ vs) = (v ≡ w) ⊎ Among v vs

All-weaken : (P Q : Vote → Type 0) (vs : List Vote) → ((v : Vote) → P v → Q v) → All P vs → All Q vs
All-weaken P Q [] f a = tt
All-weaken P Q (v ∷ vs) f a = (f v a.0, All-weaken P Q vs f a.1)

All-Among : (vs : List Vote) → All (λ v. Among v vs) vs
All-Among [] = tt
All-Among (v ∷ vs) = (
  inl refl,
  All-weaken (λ w. Among w vs) (λ w. Among w (v ∷ vs)) vs (λ w m. inr m) (All-Among vs),
)

All-Admitted : (P : Vote → Type 0) (cs : List Call) → All P (votes_of cs) → All (Admitted P) cs
All-Admitted P [] a = tt
All-Admitted P (adds v ∷ cs) a = (a.0, All-Admitted P cs a.1)
All-Admitted P (clears height ∷ cs) a = (tt, All-Admitted P cs a)

conflict_detected :
    (v w : Vote)
    → v.validator_id ≡ w.validator_id
    → v.block_height ≡ w.block_height
    → v.block_hash ≢ w.block_hash
    → detect_surround_vote v w ≡ some (new_event v.validator_id v.block_height surround_vote)
unfolding detect_surround_vote
conflict_detected v w i h x = ground (arith, i, h, x)

-- Two aggregators that start empty take in votes and clear old ones. Where they give certificates for
-- one height and different blocks, every validator that signed both handed in two votes, one to each,
-- for which the detector reports a slashing event of that validator at that height.
pub double_signer_is_detected :
    (p : Primitives) (vs ws : ValidatorSet) (cs ds : List Call) (height : ℕ) (x y : Hash)
    (w₁ w₂ : ℕ) (q r : QuorumCertificate) (id : ValidatorId)
    → aggregate_votes p (run (empty_aggregator vs) cs) height x w₁ ≡ some (some q)
    → aggregate_votes p (run (empty_aggregator ws) ds) height y w₂ ≡ some (some r)
    → x ≢ y
    → elem id q.signers ≡ true
    → elem id r.signers ≡ true
    → (v : Vote) × (w : Vote) × Among v (votes_of cs)
      × Among w (votes_of ds)
      × (detect_surround_vote v w ≡ some (new_event id height surround_vote))
double_signer_is_detected p vs ws cs ds height x y w₁ w₂ q r id eq er apart sq sr =
    let kept = λ (s : ValidatorSet) (es : List Call).
      run-Kept (λ v. Among v (votes_of es)) (empty_aggregator s) es
        (All-Admitted (λ v. Among v (votes_of es)) es (All-Among (votes_of es))) tt in
    let (v, v_id, (v_height, v_hash, v_in)) =
      signer-vote (λ v. Among v (votes_of cs)) p (run (empty_aggregator vs) cs) height x w₁ q id
        (kept vs cs) eq sq in
    let (w, w_id, (w_height, w_hash, w_in)) =
      signer-vote (λ v. Among v (votes_of ds)) p (run (empty_aggregator ws) ds) height y w₂ r id
        (kept ws ds) er sr in
    let found =
      conflict_detected v w (v_id ∙ sym w_id) (v_height ∙ sym w_height)
        (λ e. apart (sym v_hash ∙ e ∙ w_hash)) in
    (
      v,
      w,
      v_in,
      w_in,
      found
          ∙ ap (λ n. some (new_event n v.block_height surround_vote)) v_id
          ∙ ap (λ n. some (new_event id n surround_vote)) v_height,
    )
