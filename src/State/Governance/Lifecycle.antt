-- ===== src/State/Governance/Lifecycle.antt =====
-- The life of a proposal, as an abstract machine, and that every call makes one of its steps.
use sarafu_core.Base.{
  ℕ, ◌+◌, ◌<◌, ◌≤◌, ◌≡◌, refl, sym, ap, subst, ◌∙◌, arith, Bool, true, not, Option, none, some,
  List, [], ◌∷◌, ◌==◌, ltb, leb, ◌&&◌, if◌then◌else◌, Option-cases, Bool-cases, inl, inr,
}
use sarafu_core.Base.Word.{u64_mod, add64, mul64}
use sarafu_core.Base.Map.{Map, From, lookup, insert, insert-From, lookup-insert}
use sarafu_core.Base.Map
use sarafu_core.State.Governance.{
  Governance, Proposal, ProposalStatus, pending, active, approved, rejected, executed,
  ParameterType, Doubles, participation_low, approval_high, submit_proposal, vote, with_vote,
  finalize_voting, decided, execute_proposal, get_proposal, put_proposal, calculate_timelock,
  new_proposal, is_active_proposal, is_approved_proposal, validate_parameter_value, backing_from,
}

-- What matters of a proposal: until when it is voted on, and until when it is locked.
pub data Life : Type 0 where
  absent : Life
  voting : (ends : ℕ) → Life
  locked : (until : ℕ) → Life
  refused : Life
  done : Life

-- The steps that a life can make at a height, where the lock lasts for `wait` blocks.
pub data Step (height wait : ℕ) : Life → Life → Type 0 where
  stays : {l : Life} → Step height wait l l
  opens : {ends : ℕ} → Step height wait absent (voting ends)
  refuses : {ends : ℕ} → ends ≤ height → Step height wait (voting ends) refused
  approves :
      {ends until : ℕ}
      → ends ≤ height
      → until ≡ add64 height wait
      → Step height wait (voting ends) (locked until)
  executes : {until : ℕ} → until ≤ height → Step height wait (locked until) done

abbrev pub life_by : Proposal → ProposalStatus → Life
life_by q pending = absent
life_by q active = voting q.voting_ends_at_height
life_by q approved = locked q.timelock_ends_at_height
life_by q rejected = refused
life_by q executed = done

abbrev pub life_of : Option Proposal → Life
life_of none = absent
life_of (some q) = life_by q q.status

-- The days that a proposal would be locked for, as the module counts them.
abbrev pub wait_of : Governance → Option Proposal → ℕ
wait_of g none = 0
wait_of g (some q) = calculate_timelock g q.parameter

pub data Call : Type 0 where
  submits : ParameterType → List ℕ → List ℕ → List ℕ → List ℕ → Map ℕ → ℕ → Call
  votes : ℕ → ℕ → Bool → ℕ → Call
  finalizes : ℕ → ℕ → Call
  executes_one : ℕ → Call

abbrev pub after : Doubles → ℕ → Governance → Call → Governance
after d height g (submits parameter value description proposer backers stakes total) =
    (submit_proposal d g parameter value description proposer backers stakes total height).0
after d height g (votes id voter in_favor stake) = (vote g id voter in_favor stake height).0
after d height g (finalizes id total) = (finalize_voting d g id total height).0
after d height g (executes_one id) = (execute_proposal d g id height).0

-- Every key is below the bound.
abbrev pub Below {ℓ} : {V : Type ℓ} → ℕ → Map V → Type 0
Below n [] = Unit
Below n ((k, v) ∷ m) = (k < n) × Below n m

-- Ids are given out in order, and do not wrap.
pub record IsFresh (g : Governance) (room : ℕ) : Type 0 where
  pub below : Below g.next_proposal_id g.proposals
  pub fits : g.next_proposal_id + room < u64_mod

pub Below-mono {ℓ} : {V : Type ℓ} (a b : ℕ) (m : Map V) → a ≤ b → Below a m → Below b m
Below-mono a b [] h f = tt
Below-mono a b ((k, v) ∷ m) h f = (omega arith, Below-mono a b m h f.1)

pub insert-Below {ℓ} :
    {V : Type ℓ} (n k : ℕ) (v : V) (m : Map V) → k < n → Below n m → Below n (insert k v m)
insert-Below n k v [] h f = (h, tt)
insert-Below n k v ((j, w) ∷ m) h f = ground (arith, h, f, insert-Below n k v m h f.1)

pub lookup-Below {ℓ} :
    {V : Type ℓ} (n k : ℕ) (v : V) (m : Map V) → Below n m → lookup k m ≡ some v → k < n
lookup-Below n k v [] f e = absurd (ground arith)
lookup-Below n k v ((j, w) ∷ m) f e = ground (arith, f, lookup-Below n k v m f.1)

pub lookup_fresh {ℓ} : {V : Type ℓ} (n : ℕ) (m : Map V) → Below n m → lookup n m ≡ none
lookup_fresh n [] f = refl
lookup_fresh n ((j, w) ∷ m) f = ground (arith, f, lookup_fresh n m f.1)

pub get-put :
    (g : Governance) (id j : ℕ) (q : Proposal)
    → get_proposal (put_proposal g id q) j ≡ (if j == id then some q else get_proposal g j)
unfolding get_proposal
get-put g id j q = lookup-insert j id q g.proposals

-- The step that a proposal makes from one state of the module to another.
abbrev pub StepOf : ℕ → Governance → Governance → ℕ → Type 0
StepOf height g g₁ j =
    Step height (wait_of g (get_proposal g j)) (life_of (get_proposal g j))
      (life_of (get_proposal g₁ j))

Step-at :
    (height j : ℕ) (g g₁ : Governance) (a b : Option Proposal)
    → get_proposal g j ≡ a
    → get_proposal g₁ j ≡ b
    → Step height (wait_of g a) (life_of a) (life_of b)
    → StepOf height g g₁ j
Step-at height j g g₁ a b e e₁ s =
    subst (λ o. Step height (wait_of g o) (life_of o) (life_of (get_proposal g₁ j))) (sym e)
      (subst (λ o. Step height (wait_of g a) (life_of a) (life_of o)) (sym e₁) s)

-- A step of the proposal that a call changes is a step of every proposal.
put_steps :
    (height j : ℕ) (g : Governance) (id : ℕ) (p q : Proposal)
    → get_proposal g id ≡ some p
    → Step height (wait_of g (some p)) (life_of (some p)) (life_of (some q))
    → StepOf height g (put_proposal g id q) j
put_steps height j g id p q e s = elim (Bool-cases (j == id)) [
  | inl same ↦
      let here : get_proposal g j ≡ some p = ground (arith, same, e) in
      let there : get_proposal (put_proposal g id q) j ≡ some q =
        get-put g id j q ∙ ap (λ b. if b then some q else get_proposal g j) same in
      Step-at height j g (put_proposal g id q) (some p) (some q) here there s
  | inr other ↦
      Step-at height j g (put_proposal g id q) (get_proposal g j) (get_proposal g j) refl
        (get-put g id j q ∙ ap (λ b. if b then some q else get_proposal g j) other) Step.stays
]

status_active : (s : ProposalStatus) → is_active_proposal s ≡ true → s ≡ active
status_active active h = refl
status_active pending h = absurd (ground (arith, h))
status_active approved h = absurd (ground (arith, h))
status_active rejected h = absurd (ground (arith, h))
status_active executed h = absurd (ground (arith, h))

status_approved : (s : ProposalStatus) → is_approved_proposal s ≡ true → s ≡ approved
status_approved approved h = refl
status_approved pending h = absurd (ground (arith, h))
status_approved active h = absurd (ground (arith, h))
status_approved rejected h = absurd (ground (arith, h))
status_approved executed h = absurd (ground (arith, h))

abbrev pub with_new : Governance → Proposal → Governance
with_new g q = record g {
  proposals = insert g.next_proposal_id q g.proposals;
  next_proposal_id = add64 g.next_proposal_id 1;
}

submit_proposal-steps :
    (d : Doubles) (height : ℕ) (g : Governance) (parameter : ParameterType)
    (value description proposer backers : List ℕ) (stakes : Map ℕ) (total j : ℕ)
    → IsFresh g 0
    → StepOf height g
        (submit_proposal d g parameter value description proposer backers stakes total height).0
        j
unfolding submit_proposal get_proposal
submit_proposal-steps d height g parameter value description proposer backers stakes total j f =
    elim (Bool-cases (
      validate_parameter_value d parameter value
      && not (ltb (mul64 (backing_from 0 backers stakes) 1000) total))) [
        | inr refuse ↦ rw (submit_proposal, refuse) Step.stays
        | inl accept ↦ elim (Bool-cases (j == g.next_proposal_id)) [
          | inl same ↦
              let q =
                new_proposal g parameter value description proposer (backing_from 0 backers stakes)
                  height in
              let here : get_proposal g j ≡ none =
                ground (arith, same, lookup_fresh g.next_proposal_id g.proposals f.below) in
              let there : lookup j (insert g.next_proposal_id q g.proposals) ≡ some q =
                lookup-insert j g.next_proposal_id q g.proposals
                ∙ ap (λ b. if b then some q else lookup j g.proposals) same in
              rw (submit_proposal, accept)
                (Step-at height j g (with_new g q) none (some q) here there Step.opens)
          | inr other ↦
              let q =
                new_proposal g parameter value description proposer (backing_from 0 backers stakes)
                  height in
              let there : lookup j (insert g.next_proposal_id q g.proposals)
                  ≡ lookup j g.proposals =
                lookup-insert j g.next_proposal_id q g.proposals
                ∙ ap (λ b. if b then some q else lookup j g.proposals) other in
              rw (submit_proposal, accept)
                (Step-at height j g (with_new g q) (lookup j g.proposals) (lookup j g.proposals)
                  refl there Step.stays)
        ]
      ]

vote-steps :
    (height : ℕ) (g : Governance) (id voter : ℕ) (in_favor : Bool) (stake j : ℕ)
    → StepOf height g (vote g id voter in_favor stake height).0 j
unfolding vote with_vote
vote-steps height g id voter in_favor stake j = elim (Option-cases (get_proposal g id)) [
  | inl missing ↦ rw (vote, missing) Step.stays
  | inr (p, e) ↦
      elim (Bool-cases (
        is_active_proposal p.status
        && (ltb height p.voting_ends_at_height
            && (not (Map.contains voter p.votes) && not (stake == 0))))) [
              | inr refuse ↦ rw (vote, e, refuse) Step.stays
              | inl accept ↦
                  rw (vote, e, accept)
                    (put_steps height j g id p (with_vote p voter in_favor stake) e Step.stays)
            ]
]

decided-steps :
    (d : Doubles) (height : ℕ) (g : Governance) (p : Proposal) (total : ℕ)
    → p.voting_ends_at_height ≤ height
    → Step height
        (calculate_timelock g p.parameter)
        (voting p.voting_ends_at_height)
        (life_of (some (decided d g p total height)))
unfolding decided
decided-steps d height g p total h =
    elim (Bool-cases (participation_low d (add64 p.votes_for p.votes_against) total)) [
      | inl few ↦ rw (decided, few) (Step.refuses h)
      | inr enough ↦
          elim (Bool-cases (approval_high d p.votes_for (add64 p.votes_for p.votes_against))) [
            | inl high ↦ rw (decided, enough, high) (Step.approves h refl)
            | inr low ↦ rw (decided, enough, low) (Step.refuses h)
          ]
    ]

finalize_voting-steps :
    (d : Doubles) (height : ℕ) (g : Governance) (id total j : ℕ)
    → StepOf height g (finalize_voting d g id total height).0 j
unfolding finalize_voting
finalize_voting-steps d height g id total j = elim (Option-cases (get_proposal g id)) [
  | inl missing ↦ rw (finalize_voting, missing) Step.stays
  | inr (p, e) ↦
      elim (Bool-cases (is_active_proposal p.status && leb p.voting_ends_at_height height)) [
        | inr refuse ↦ rw (finalize_voting, e, refuse) Step.stays
        | inl accept ↦
            let open_still : p.status ≡ active = status_active p.status (ground (arith, accept)) in
            let q = decided d g p total height in
            rw (finalize_voting, e, accept)
              (put_steps height j g id p q e (
                subst
                  (λ s.
                    Step height (calculate_timelock g p.parameter) (life_by p s) (life_of (some q)))
                  (sym open_still) (decided-steps d height g p total (ground (arith, accept)))))
      ]
]

execute_proposal-steps :
    (d : Doubles) (height : ℕ) (g : Governance) (id j : ℕ)
    → StepOf height g (execute_proposal d g id height).0 j
unfolding execute_proposal
execute_proposal-steps d height g id j = elim (Option-cases (get_proposal g id)) [
  | inl missing ↦ rw (execute_proposal, missing) Step.stays
  | inr (p, e) ↦
      elim (Bool-cases (
        is_approved_proposal p.status
        && (leb p.timelock_ends_at_height height
            && validate_parameter_value d p.parameter p.new_value))) [
              | inr refuse ↦ rw (execute_proposal, e, refuse) Step.stays
              | inl accept ↦
                  let passed : p.status ≡ approved =
                    status_approved p.status (ground (arith, accept)) in
                  rw (execute_proposal, e, accept)
                    (put_steps height j g id p (record p { status = executed }) e
                      (subst
                        (λ s. Step height (calculate_timelock g p.parameter) (life_by p s) done)
                        (sym passed) (Step.executes (ground (arith, accept)))))
            ]
]

-- Whatever call is made at a height, every proposal makes a step of the abstract machine: it opens
-- once, is decided once its voting has ended, waits for its lock, and is executed only after that.
pub after_refines :
    (d : Doubles) (height : ℕ) (g : Governance) (c : Call) (j : ℕ)
    → IsFresh g 0
    → StepOf height g (after d height g c) j
after_refines d height g (submits parameter value description proposer backers stakes total) j f =
    submit_proposal-steps d height g parameter value description proposer backers stakes total j f
after_refines d height g (votes id voter in_favor stake) j f =
    vote-steps height g id voter in_favor stake j
after_refines d height g (finalizes id total) j f = finalize_voting-steps d height g id total j
after_refines d height g (executes_one id) j f = execute_proposal-steps d height g id j

pub put-IsFresh :
    (g : Governance) (room id : ℕ) (p q : Proposal)
    → get_proposal g id ≡ some p
    → IsFresh g room
    → IsFresh (put_proposal g id q) room
unfolding get_proposal
put-IsFresh g room id p q e f = record {
  below =
      insert-Below g.next_proposal_id id q g.proposals
        (lookup-Below g.next_proposal_id id p g.proposals f.below e) f.below;
  fits = f.fits;
}
