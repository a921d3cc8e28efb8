-- ===== src/State/Governance.antt =====
-- src/state/governance_module.cpp.
pub mod Lifecycle
pub mod Voting
pub mod Tests
use sarafu_core.Base.{
  ℕ, ◌+◌, ◌*◌, Bool, true, false, not, Option, none, some, List, [], ◌∷◌, ◌==◌, ltb, leb, ◌&&◌,
  if◌then◌else◌, length,
}
use sarafu_core.Base.Word.{add64, mul64}
use sarafu_core.Base.Map.{Map, lookup, insert}
use sarafu_core.Base.Map
use sarafu_core.Codec.{le_value}

pub data ParameterType : Type 0 where
  block_size gas_limit issuance_coefficient slashing_alpha slashing_beta : ParameterType
  validator_set_size minimum_self_bond base_fee_adjustment : ParameterType

pub data ProposalStatus : Type 0 where
  pending active approved rejected executed : ProposalStatus

pub record Proposal : Type 0 where
  pub id : ℕ
  pub parameter : ParameterType
  pub description : List ℕ
  pub new_value : List ℕ
  pub proposer : List ℕ
  pub stake_backing : ℕ
  pub created_at_height : ℕ
  pub voting_ends_at_height : ℕ
  pub timelock_ends_at_height : ℕ
  pub status : ProposalStatus
  pub votes_for : ℕ
  pub votes_against : ℕ
  pub votes : Map Bool

pub record Governance : Type 0 where
  pub proposals : Map Proposal
  pub next_proposal_id : ℕ
  pub blocks_per_day : ℕ

-- What the source does with doubles: `of_u64` is static_cast<double> of an integer, `of_bytes` the copy of
-- eight bytes into a double, `literal m n` the decimal constant m / n, `lt` and `le` the comparisons.
pub record Doubles : Type 1 where
  pub Double : Type 0
  pub of_u64 : ℕ → Double
  pub of_bytes : List ℕ → Double
  pub literal : ℕ → ℕ → Double
  pub div : Double → Double → Double
  pub lt : Double → Double → Bool
  pub le : Double → Double → Bool

-- `participation < QUORUM_THRESHOLD`, which is 0.10.
unfoldable pub participation_low : Doubles → ℕ → ℕ → Bool
participation_low d total_votes total_stake =
    d.lt (d.div (d.of_u64 total_votes) (d.of_u64 total_stake)) (d.literal 10 100)

-- `approval_rate >= APPROVAL_THRESHOLD`, which is 0.667.
unfoldable pub approval_high : Doubles → ℕ → ℕ → Bool
approval_high d votes_for total_votes =
    d.le (d.literal 667 1000) (d.div (d.of_u64 votes_for) (d.of_u64 total_votes))

abbrev pub new_governance : ℕ → Governance
new_governance blocks_per_day = record {
  proposals = [];
  next_proposal_id = 1;
  blocks_per_day = blocks_per_day;
}

-- What the bytes must hold, once there are eight of them.
abbrev pub in_bounds : Doubles → ParameterType → List ℕ → Bool
in_bounds d issuance_coefficient value =
    d.le (d.literal 5 100) (d.of_bytes value) && d.le (d.of_bytes value) (d.literal 2 10)
in_bounds d slashing_alpha value =
    d.lt (d.literal 0 10) (d.of_bytes value) && d.le (d.of_bytes value) (d.literal 10 10)
in_bounds d slashing_beta value =
    d.lt (d.literal 0 10) (d.of_bytes value) && d.le (d.of_bytes value) (d.literal 10 10)
in_bounds d base_fee_adjustment value =
    d.lt (d.literal 0 10) (d.of_bytes value) && d.le (d.of_bytes value) (d.literal 10 10)
in_bounds d validator_set_size value = leb 100 (le_value value) && leb (le_value value) 500
in_bounds d block_size value = ltb 0 (le_value value)
in_bounds d gas_limit value = ltb 0 (le_value value)
in_bounds d minimum_self_bond value = ltb 0 (le_value value)

unfoldable pub validate_parameter_value : Doubles → ParameterType → List ℕ → Bool
validate_parameter_value d type value = if length value == 8 then in_bounds d type value else false

-- Safety-critical parameters wait 14 days, administrative ones 7, performance ones 3.
abbrev pub timelock_days : ParameterType → ℕ
timelock_days issuance_coefficient = 14
timelock_days slashing_alpha = 14
timelock_days slashing_beta = 14
timelock_days validator_set_size = 7
timelock_days minimum_self_bond = 7
timelock_days block_size = 3
timelock_days gas_limit = 3
timelock_days base_fee_adjustment = 3

unfoldable pub calculate_timelock : Governance → ParameterType → ℕ
calculate_timelock g type = mul64 (timelock_days type) g.blocks_per_day

unfoldable pub backing_from : ℕ → List ℕ → Map ℕ → ℕ
backing_from total [] stakes = total
backing_from total (backer ∷ backers) stakes =
    backing_from (elim (lookup backer stakes) [ none ↦ total | some stake ↦ add64 total stake ])
      backers stakes

unfoldable pub get_proposal : Governance → ℕ → Option Proposal
get_proposal g proposal_id = lookup proposal_id g.proposals

abbrev pub is_active_proposal : ProposalStatus → Bool
is_active_proposal active = true
is_active_proposal _ = false

abbrev pub is_approved_proposal : ProposalStatus → Bool
is_approved_proposal approved = true
is_approved_proposal _ = false

-- Writing the proposal that a reference to the map's entry has changed.
abbrev pub put_proposal : Governance → ℕ → Proposal → Governance
put_proposal g proposal_id proposal = record g {
  proposals = insert proposal_id proposal g.proposals;
}

-- The proposal that `submit_proposal` makes.
abbrev pub new_proposal : Governance → ParameterType → List ℕ → List ℕ → List ℕ → ℕ → ℕ → Proposal
new_proposal g parameter new_value description proposer backing_stake current_height = record {
  id = g.next_proposal_id;
  parameter = parameter;
  description = description;
  new_value = new_value;
  proposer = proposer;
  stake_backing = backing_stake;
  created_at_height = current_height;
  voting_ends_at_height = add64 current_height (mul64 7 g.blocks_per_day);
  timelock_ends_at_height = 0;
  status = active;
  votes_for = 0;
  votes_against = 0;
  votes = [];
}

module _ (d : Doubles) where
  unfoldable pub submit_proposal :
      Governance
      → ParameterType
      → List ℕ
      → List ℕ
      → List ℕ
      → List ℕ
      → Map ℕ
      → ℕ
      → ℕ
      → Governance × Option ℕ
  submit_proposal g parameter new_value description proposer backers validator_stakes total_stake
        current_height =
      let backing_stake = backing_from 0 backers validator_stakes in
      if validate_parameter_value d parameter new_value
        && not (ltb (mul64 backing_stake 1000) total_stake)
      then (
        record g {
          proposals =
              insert g.next_proposal_id
                (new_proposal g parameter new_value description proposer backing_stake
                  current_height)
                g.proposals;
          next_proposal_id = add64 g.next_proposal_id 1;
        },
        some g.next_proposal_id,
      )
      else (g, none)

  unfoldable pub decided : Governance → Proposal → ℕ → ℕ → Proposal
  decided g proposal total_stake current_height =
      let total_votes = add64 proposal.votes_for proposal.votes_against in
      if participation_low d total_votes total_stake
      then record proposal { status = rejected }
      else (if approval_high d proposal.votes_for total_votes
          then record proposal {
            status = approved;
            timelock_ends_at_height =
                add64 current_height (calculate_timelock g proposal.parameter);
          }
          else record proposal { status = rejected })

  unfoldable pub finalize_voting : Governance → ℕ → ℕ → ℕ → Governance × Bool
  finalize_voting g proposal_id total_stake current_height = elim (get_proposal g proposal_id) [
    | none ↦ (g, false)
    | some proposal ↦
        if is_active_proposal proposal.status && leb proposal.voting_ends_at_height current_height
        then (put_proposal g proposal_id (decided g proposal total_stake current_height), true)
        else (g, false)
  ]

  unfoldable pub execute_proposal : Governance → ℕ → ℕ → Governance × Bool
  execute_proposal g proposal_id current_height = elim (get_proposal g proposal_id) [
    | none ↦ (g, false)
    | some proposal ↦
        if is_approved_proposal proposal.status
          && (leb proposal.timelock_ends_at_height current_height
              && validate_parameter_value d proposal.parameter proposal.new_value)
        then (put_proposal g proposal_id (record proposal { status = executed }), true)
        else (g, false)
  ]

unfoldable pub with_vote : Proposal → ℕ → Bool → ℕ → Proposal
with_vote proposal voter in_favor voter_stake = record proposal {
  votes = insert voter in_favor proposal.votes;
  votes_for = if in_favor then add64 proposal.votes_for voter_stake else proposal.votes_for;
  votes_against =
      if in_favor then proposal.votes_against else add64 proposal.votes_against voter_stake;
}

unfoldable pub vote : Governance → ℕ → ℕ → Bool → ℕ → ℕ → Governance × Bool
vote g proposal_id voter in_favor voter_stake current_height = elim (get_proposal g proposal_id) [
  | none ↦ (g, false)
  | some proposal ↦
      if is_active_proposal proposal.status
        && (ltb current_height proposal.voting_ends_at_height
            && (not (Map.contains voter proposal.votes) && not (voter_stake == 0)))
      then (put_proposal g proposal_id (with_vote proposal voter in_favor voter_stake), true)
      else (g, false)
]
