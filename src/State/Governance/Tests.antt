-- ===== src/State/Governance/Tests.antt =====
-- Proposals on a day of ten blocks, to which the theorems on governance apply.
use sarafu_core.Base.{
  ℕ, ◌+◌, ◌-◌, ◌*◌, ◌^◌, ◌<◌, ◌≤◌, ◌≡◌, refl, true, false, length, List, [], ◌∷◌, arith, ltb, leb,
}
use native.Mathlib.Nat.{mul-pos}
use sarafu_core.State.Governance.{
  Governance, Proposal, active, gas_limit, Doubles, vote, finalize_voting, get_proposal,
}
use sarafu_core.State.Governance.Lifecycle.{Life, Call, after, StepOf, life_of, after_refines}
use sarafu_core.State.Governance.Voting.{
  run, vote_once, IsRounded, disapproved, finalize_voting_decides,
}

-- Exact fractions in the place of doubles.
abbrev exact : Doubles
exact = record {
  Double = ℕ × ℕ;
  of_u64 = λ n. (n, 1);
  of_bytes = λ bs. (length bs, 1);
  literal = λ m n. (m, n);
  div = λ x y. (x.0 * y.1, x.1 * y.0);
  lt = λ x y. ltb (x.0 * y.1) (y.0 * x.1);
  le = λ x y. leb (x.0 * y.1) (y.0 * x.1);
}

under : (x y : ℕ) → 0 < y → x * 2 ^ 50 ≤ y * (2 ^ 50 - 1) → x < y
under x y h k = omega arith

over : (x y : ℕ) → y * (2 ^ 50 + 1) ≤ x * 2 ^ 50 → y ≤ x
over x y k = omega arith

exact-IsRounded : IsRounded exact
exact-IsRounded = record {
  under_lt = λ a b m n _ _ hb hm hn u.
      let less = under (a * n) (m * b) (mul-pos hm hb) u in ground (arith, less);
  over_lt = λ a b m n _ _ hb hm hn o. let more = over (a * n) (m * b) o in ground (arith, more);
  under_le = λ a b m n _ _ hb hm hn u.
      let less = under (a * n) (m * b) (mul-pos hm hb) u in ground (arith, less);
  over_le = λ a b m n _ _ hb hm hn o. let more = over (a * n) (m * b) o in ground (arith, more);
}

abbrev eight : List ℕ
eight = 64 ∷ 66 ∷ 15 ∷ 0 ∷ 0 ∷ 0 ∷ 0 ∷ 0 ∷ []

abbrev proposal : Proposal
proposal = record {
  id = 1;
  parameter = gas_limit;
  description = [];
  new_value = eight;
  proposer = [];
  stake_backing = 10;
  created_at_height = 100;
  voting_ends_at_height = 170;
  timelock_ends_at_height = 0;
  status = active;
  votes_for = 80;
  votes_against = 20;
  votes = (5, true) ∷ (6, false) ∷ [];
}

abbrev governance : Governance
governance = record { proposals = (1, proposal) ∷ []; next_proposal_id = 2; blocks_per_day = 10 }

abbrev more : List (ℕ × Call)
more =
    (150, Call.submits gas_limit eight [] [] (5 ∷ []) ((5, 9) ∷ []) 100)
    ∷ (170, Call.finalizes 1 500)
    ∷ []

after_refines_example : StepOf 170 governance (after exact 170 governance (Call.finalizes 1 500)) 1
after_refines_example =
    after_refines exact 170 governance (Call.finalizes 1 500) 1
      (record { below = (omega arith, tt); fits = omega arith })

vote_once_example :
    let g₁ = run exact (vote governance 1 7 true 12 120).0 more in
    vote g₁ 1 7 false 30 155 ≡ (g₁, false)
unfolding vote get_proposal
vote_once_example =
    vote_once exact governance 1 7 12 120 true more 30 155 false
      (record { below = (omega arith, tt); fits = omega arith }) refl

-- Exactly two thirds of the votes are for it.
abbrev two_thirds : Proposal
two_thirds = record proposal { votes_for = 80; votes_against = 40 }

abbrev with_two_thirds : Governance
with_two_thirds = record governance { proposals = (1, two_thirds) ∷ [] }

finalize_voting_decides_example :
    let (g₁, found) = finalize_voting exact with_two_thirds 1 500 175 in
    (found ≡ true) × (life_of (get_proposal g₁ 1) ≡ Life.refused)
unfolding get_proposal
finalize_voting_decides_example =
    finalize_voting_decides exact with_two_thirds 1 500 175 two_thirds exact-IsRounded refl refl
      (omega arith) (omega arith) (omega arith) (omega arith)
      (disapproved (omega arith) (omega arith))
