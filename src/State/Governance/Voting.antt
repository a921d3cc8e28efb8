-- ===== src/State/Governance/Voting.antt =====
-- Over any calls: ids stay fresh, votes stay recorded, and what is over stays over.
use sarafu_core.Base.{
  ℕ, suc, ◌+◌, ◌-◌, ◌*◌, ◌^◌, ◌<◌, ◌≤◌, ◌≡◌, refl, sym, subst, arith, Bool, true, false, not,
  Option, none, some, List, [], ◌∷◌, ◌==◌, ltb, leb, ◌&&◌, length, Option-cases, Bool-cases, inl,
  inr,
}
use sarafu_core.Base.Word.{u64_mod, add64, mul64}
use sarafu_core.Base.Map.{Map, lookup, insert, lookup-insert, lookup-insert_self}
use sarafu_core.Base.Map
use sarafu_core.State.Governance.{
  Governance, Proposal, active, executed, Doubles, participation_low, approval_high,
  submit_proposal, vote, with_vote, finalize_voting, decided, execute_proposal, get_proposal,
  put_proposal, new_proposal, is_active_proposal, is_approved_proposal, validate_parameter_value,
  backing_from, calculate_timelock,
}
use sarafu_core.State.Governance.Lifecycle.{
  Life, Call, after, IsFresh, Below, with_new, put-IsFresh, lookup_fresh, insert-Below, Below-mono,
  life_of,
}

abbrev pub has_voted : ℕ → Option Proposal → Bool
has_voted voter none = false
has_voted voter (some q) = Map.contains voter q.votes

-- How a call changes the module.
data Change (g g₁ : Governance) : Type 0 where
  same : g₁ ≡ g → Change g g₁
  grown : (q : Proposal) → g₁ ≡ with_new g q → Change g g₁
  put :
      (id : ℕ) (p q : Proposal)
      → get_proposal g id ≡ some p
      → ((voter : ℕ) → has_voted voter (some p) ≡ true → has_voted voter (some q) ≡ true)
      → g₁ ≡ put_proposal g id q
      → Change g g₁

after-Change :
    (d : Doubles) (height : ℕ) (g : Governance) (c : Call) → Change g (after d height g c)
unfolding submit_proposal vote finalize_voting execute_proposal with_vote decided
after-Change d height g (Call.submits parameter value description proposer backers stakes total) =
    elim (Bool-cases (
      validate_parameter_value d parameter value
      && not (ltb (mul64 (backing_from 0 backers stakes) 1000) total))) [
        | inr refuse ↦ Change.same (rw (after, submit_proposal, refuse) refl)
        | inl accept ↦
            Change.grown
              (new_proposal g parameter value description proposer (backing_from 0 backers stakes)
                height)
              (rw (after, submit_proposal, accept) refl)
      ]
after-Change d height g (Call.votes id voter in_favor stake) =
    elim (Option-cases (get_proposal g id)) [
      | inl missing ↦ Change.same (rw (after, vote, missing) refl)
      | inr (p, e) ↦
          elim (Bool-cases (
            is_active_proposal p.status
            && (ltb height p.voting_ends_at_height
                && (not (Map.contains voter p.votes) && not (stake == 0))))) [
                  | inr refuse ↦ Change.same (rw (after, vote, e, refuse) refl)
                  | inl accept ↦
                      Change.put id p (with_vote p voter in_favor stake) e
                        (λ w h. ground (arith, h, lookup-insert w voter in_favor p.votes))
                        (rw (after, vote, e, accept) refl)
                ]
    ]
after-Change d height g (Call.finalizes id total) = elim (Option-cases (get_proposal g id)) [
  | inl missing ↦ Change.same (rw (after, finalize_voting, missing) refl)
  | inr (p, e) ↦
      elim (Bool-cases (is_active_proposal p.status && leb p.voting_ends_at_height height)) [
        | inr refuse ↦ Change.same (rw (after, finalize_voting, e, refuse) refl)
        | inl accept ↦
            Change.put id p (decided d g p total height) e (λ w h. ground (arith, h))
              (rw (after, finalize_voting, e, accept) refl)
      ]
]
after-Change d height g (Call.executes_one id) = elim (Option-cases (get_proposal g id)) [
  | inl missing ↦ Change.same (rw (after, execute_proposal, missing) refl)
  | inr (p, e) ↦
      elim (Bool-cases (
        is_approved_proposal p.status
        && (leb p.timelock_ends_at_height height
            && validate_parameter_value d p.parameter p.new_value))) [
              | inr refuse ↦ Change.same (rw (after, execute_proposal, e, refuse) refl)
              | inl accept ↦
                  Change.put id p (record p { status = executed }) e (λ w h. h)
                    (rw (after, execute_proposal, e, accept) refl)
            ]
]

Change-IsFresh :
    (g g₁ : Governance) (room : ℕ) → Change g g₁ → IsFresh g (suc room) → IsFresh g₁ room
Change-IsFresh g g₁ room (Change.same e) f =
    subst (λ x. IsFresh x room) (sym e) (record { below = f.below; fits = omega (arith, f.fits) })
Change-IsFresh g g₁ room (Change.grown q e) f =
    let next : add64 g.next_proposal_id 1 ≡ g.next_proposal_id + 1 = omega (arith, f.fits) in
    subst (λ x. IsFresh x room) (sym e)
      (record {
        below =
            subst (λ n. Below n (insert g.next_proposal_id q g.proposals)) (sym next)
              (insert-Below (g.next_proposal_id + 1) g.next_proposal_id q g.proposals (omega arith)
                (Below-mono g.next_proposal_id (g.next_proposal_id + 1) g.proposals (omega arith)
                  f.below));
        fits = omega (arith, next, f.fits);
      })
Change-IsFresh g g₁ room (Change.put id p q here keep e) f =
    subst (λ x. IsFresh x room) (sym e)
      (put-IsFresh g room id p q here (record { below = f.below; fits = omega (arith, f.fits) }))

Change-has_voted :
    (g g₁ : Governance) (id voter : ℕ)
    → Change g g₁
    → IsFresh g 0
    → has_voted voter (get_proposal g id) ≡ true
    → has_voted voter (get_proposal g₁ id) ≡ true
unfolding get_proposal
Change-has_voted g g₁ id voter (Change.same e) f h =
    subst (λ x. has_voted voter (get_proposal x id) ≡ true) (sym e) h
Change-has_voted g g₁ id voter (Change.grown q e) f h =
    subst (λ x. has_voted voter (get_proposal x id) ≡ true) (sym e)
      (ground (
        arith,
        h,
        lookup_fresh g.next_proposal_id g.proposals f.below,
        lookup-insert id g.next_proposal_id q g.proposals,
      ))
Change-has_voted g g₁ id voter (Change.put j p q here keep e) f h =
    subst (λ x. has_voted voter (get_proposal x id) ≡ true) (sym e)
      (ground (arith, h, here, keep voter, lookup-insert id j q g.proposals))

-- Calls with the heights at which they come.
unfoldable pub run : Doubles → Governance → List (ℕ × Call) → Governance
run d g [] = g
run d g (c ∷ cs) = run d (after d c.0 g c.1) cs

run-has_voted :
    (d : Doubles) (g : Governance) (cs : List (ℕ × Call)) (id voter : ℕ)
    → IsFresh g (length cs)
    → has_voted voter (get_proposal g id) ≡ true
    → has_voted voter (get_proposal (run d g cs) id) ≡ true
unfolding run
run-has_voted d g [] id voter f h = h
run-has_voted d g ((height, c) ∷ cs) id voter f h =
    let change = after-Change d height g c in
    let now : IsFresh g 0 = record { below = f.below; fits = omega (arith, f.fits) } in
    run-has_voted d (after d height g c) cs id voter
      (Change-IsFresh g (after d height g c) (length cs) change f)
      (Change-has_voted g (after d height g c) id voter change now h)

vote-has_voted :
    (g : Governance) (id voter : ℕ) (in_favor : Bool) (stake height : ℕ)
    → (vote g id voter in_favor stake height).1 ≡ true
    → has_voted voter (get_proposal (vote g id voter in_favor stake height).0 id) ≡ true
unfolding vote with_vote get_proposal
vote-has_voted g id voter in_favor stake height h = elim (Option-cases (get_proposal g id)) [
  | inl missing ↦ absurd (ground (arith, rw (vote, missing) at h))
  | inr (p, e) ↦
      elim (Bool-cases (
        is_active_proposal p.status
        && (ltb height p.voting_ends_at_height
            && (not (Map.contains voter p.votes) && not (stake == 0))))) [
              | inr refuse ↦ absurd (ground (arith, rw (vote, e, refuse) at h))
              | inl accept ↦
                  rw (vote, e, accept)
                    (ground (
                      arith,
                      lookup-insert id id (with_vote p voter in_favor stake) g.proposals,
                      lookup-insert voter voter in_favor p.votes,
                    ))
            ]
]

has_voted_refused :
    (g : Governance) (id voter : ℕ) (in_favor : Bool) (stake height : ℕ)
    → has_voted voter (get_proposal g id) ≡ true
    → vote g id voter in_favor stake height ≡ (g, false)
unfolding vote
has_voted_refused g id voter in_favor stake height h = elim (Option-cases (get_proposal g id)) [
  | inl missing ↦ rw (vote, missing) refl
  | inr (p, e) ↦
      let voted : Map.contains voter p.votes ≡ true = rw e at h in
      rw (vote, e) (ground (arith, voted))
]

-- A validator votes once: after a vote that is counted, whatever calls follow, any other vote of the
-- same validator on the same proposal is refused and changes nothing, while ids do not wrap.
pub vote_once :
    (d : Doubles) (g : Governance) (id voter stake height : ℕ) (in_favor : Bool)
    (cs : List (ℕ × Call)) (stake' height' : ℕ) (in_favor' : Bool)
    → IsFresh g (suc (length cs))
    → (vote g id voter in_favor stake height).1 ≡ true
    → let g₁ = run d (vote g id voter in_favor stake height).0 cs in
      vote g₁ id voter in_favor' stake' height' ≡ (g₁, false)
vote_once d g id voter stake height in_favor cs stake' height' in_favor' f h =
    let g₁ = (vote g id voter in_favor stake height).0 in
    let change = after-Change d height g (Call.votes id voter in_favor stake) in
    has_voted_refused (run d g₁ cs) id voter in_favor' stake' height' (
      run-has_voted d g₁ cs id voter (Change-IsFresh g g₁ (length cs) change f)
        (vote-has_voted g id voter in_favor stake height h))

-- The quotient a / b is below the decimal m / n, or above it, by more than a relative error of 2 ^ -50.
abbrev pub Under : ℕ → ℕ → ℕ → ℕ → Type 0
Under a b m n = a * n * 2 ^ 50 ≤ m * b * (2 ^ 50 - 1)

abbrev pub Over : ℕ → ℕ → ℕ → ℕ → Type 0
Over a b m n = m * b * (2 ^ 50 + 1) ≤ a * n * 2 ^ 50

-- What IEEE 754 says of a quotient of two 64-bit integers and a positive constant: each of the two
-- conversions, the division and the constant is rounded with a relative error of at most 2 ^ -53, so that the
-- comparison is right where the two are further apart than 2 ^ -50.
pub record IsRounded (d : Doubles) : Type 0 where
  pub under_lt :
      (a b m n : ℕ)
      → a < u64_mod
      → b < u64_mod
      → 0 < b
      → 0 < m
      → 0 < n
      → Under a b m n
      → d.lt (d.div (d.of_u64 a) (d.of_u64 b)) (d.literal m n) ≡ true
  pub over_lt :
      (a b m n : ℕ)
      → a < u64_mod
      → b < u64_mod
      → 0 < b
      → 0 < m
      → 0 < n
      → Over a b m n
      → d.lt (d.div (d.of_u64 a) (d.of_u64 b)) (d.literal m n) ≡ false
  pub under_le :
      (a b m n : ℕ)
      → a < u64_mod
      → b < u64_mod
      → 0 < b
      → 0 < m
      → 0 < n
      → Under a b m n
      → d.le (d.literal m n) (d.div (d.of_u64 a) (d.of_u64 b)) ≡ false
  pub over_le :
      (a b m n : ℕ)
      → a < u64_mod
      → b < u64_mod
      → 0 < b
      → 0 < m
      → 0 < n
      → Over a b m n
      → d.le (d.literal m n) (d.div (d.of_u64 a) (d.of_u64 b)) ≡ true

-- How a vote has come out: of a total stake, with so many votes for and in all.
pub data Count (votes_for total_votes total_stake : ℕ) : Type 0 where
  few_voted : Under total_votes total_stake 10 100 → Count votes_for total_votes total_stake
  disapproved :
      Over total_votes total_stake 10 100
      → Under votes_for total_votes 667 1000
      → Count votes_for total_votes total_stake
  carried :
      Over total_votes total_stake 10 100
      → Over votes_for total_votes 667 1000
      → Count votes_for total_votes total_stake

abbrev pub outcome : {f v s : ℕ} → Count f v s → ℕ → Life
outcome (few_voted _) ends = Life.refused
outcome (disapproved _ _) ends = Life.refused
outcome (carried _ _) ends = Life.locked ends

decided_life :
    (d : Doubles) (g : Governance) (p : Proposal) (total height : ℕ)
    → IsRounded d
    → 0 < total
    → total < u64_mod
    → p.votes_for + p.votes_against < u64_mod
    → (c : Count p.votes_for (p.votes_for + p.votes_against) total)
    → life_of (some (decided d g p total height))
      ≡ outcome c (add64 height (calculate_timelock g p.parameter))
unfolding decided participation_low approval_high
decided_life d g p total height r some_stake small fits (few_voted few) =
    let votes : add64 p.votes_for p.votes_against ≡ p.votes_for + p.votes_against = omega arith in
    let low = r.under_lt _ total 10 100 fits small some_stake (omega arith) (omega arith) few in
    rw (decided, participation_low, votes, low) refl
decided_life d g p total height r some_stake small fits (disapproved enough low) =
    let votes : add64 p.votes_for p.votes_against ≡ p.votes_for + p.votes_against = omega arith in
    let some_votes : 0 < p.votes_for + p.votes_against = omega (arith, enough, some_stake) in
    let quorum =
      r.over_lt _ total 10 100 fits small some_stake (omega arith) (omega arith) enough in
    let refused =
      r.under_le p.votes_for _ 667 1000 (omega (arith, fits)) fits some_votes (omega arith)
        (omega arith) low in
    rw (decided, participation_low, approval_high, votes, quorum, refused) refl
decided_life d g p total height r some_stake small fits (carried enough high) =
    let votes : add64 p.votes_for p.votes_against ≡ p.votes_for + p.votes_against = omega arith in
    let some_votes : 0 < p.votes_for + p.votes_against = omega (arith, enough, some_stake) in
    let quorum =
      r.over_lt _ total 10 100 fits small some_stake (omega arith) (omega arith) enough in
    let approved =
      r.over_le p.votes_for _ 667 1000 (omega (arith, fits)) fits some_votes (omega arith)
        (omega arith) high in
    rw (decided, participation_low, approval_high, votes, quorum, approved) refl

-- Where the voting of an active proposal has ended, finalizing it decides it by the count, where doubles are
-- rounded as IEEE 754 says and the counts fit 64 bits: with less than a tenth of the stake voting it is
-- rejected; with more, it is rejected where less than 0.667 of the votes are for it, which two thirds are,
-- and approved where more are, with its time lock. Counts within 2 ^ -50 of one of the two constants are left
-- out.
pub finalize_voting_decides :
    (d : Doubles) (g : Governance) (id total height : ℕ) (p : Proposal)
    → IsRounded d
    → get_proposal g id ≡ some p
    → p.status ≡ active
    → p.voting_ends_at_height ≤ height
    → 0 < total
    → total < u64_mod
    → p.votes_for + p.votes_against < u64_mod
    → (c : Count p.votes_for (p.votes_for + p.votes_against) total)
    → let (g₁, found) = finalize_voting d g id total height in
      (found ≡ true)
      × (life_of (get_proposal g₁ id) ≡ outcome c (add64 height (calculate_timelock g p.parameter)))
unfolding finalize_voting decided get_proposal
finalize_voting_decides d g id total height p r e a h some_stake small fits c =
    let accept : (is_active_proposal p.status && leb p.voting_ends_at_height height) ≡ true =
      ground (arith, a, h) in
    rw (finalize_voting, e, accept)
      (
        refl,
        rw (lookup-insert_self id (decided d g p total height) g.proposals)
            (decided_life d g p total height r some_stake small fits c),
      )
