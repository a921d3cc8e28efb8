-- ===== src/Consensus/Genesis/Tests.antt =====
-- A builder with a small and a large allocation, to which the theorems on the genesis apply.
use sarafu_core.Base.{◌/◌, ◌≤◌, ◌≡◌, refl, arith, true, some, List, [], ◌∷◌, All}
use sarafu_core.Base.Map.{lookup}
use sarafu_core.State.Accounts.{new_account}
use sarafu_core.State.Machine.{new_machine, initialize_from_genesis}
use sarafu_core.Consensus.Types.{standby, VestingSchedule}
use sarafu_core.Consensus.Registry.Transition.{insert_ranked}
use sarafu_core.Consensus.ValidatorSet.{ranks_before}
use sarafu_core.Consensus.Tests.{toy, validator}
use sarafu_core.Consensus.Genesis.{
  GenesisConfig, GenesisBuilder, Percentages, new_builder, validate, build, genesis_block,
  create_genesis_validator_set, place_from, sort_validators, with_validators, add_allocation,
  add_vesting_allocation, exceeds_allocation_cap, requires_vesting, with_allocation, new_vesting,
  calculate_vested_amount, is_fully_vested,
}
use sarafu_core.Consensus.Genesis.Limits.{
  Call, allocate, allocate_vesting, create_set, call, run, build_returns,
}
use sarafu_core.Consensus.Genesis.Start.{genesis_starts}
use sarafu_core.Consensus.Genesis.Vesting.{vested_amount_rises}

abbrev config : GenesisConfig
config = record {
  total_supply = 1000;
  genesis_timestamp = 500;
  initial_epoch = 0;
  validator_set_size = 1;
  minimum_self_bond = 40;
  chain_id = 3;
}

abbrev rates : Percentages
rates = record { five_percent = λ n. n / 20; two_percent = λ n. n / 50 }

-- The second is more than two percent, the third more than five.
abbrev calls : List Call
calls =
    allocate 7 10 []
    ∷ allocate 8 30 (70 ∷ [])
    ∷ allocate 9 60 []
    ∷ allocate_vesting 9 40 [] 100
    ∷ create_set (validator 1 30 standby ∷ validator 2 60 standby ∷ [])
    ∷ []

abbrev builder : GenesisBuilder
builder = run toy rates (new_builder config) calls

total_allocated_test : builder.total_allocated ≡ 80
unfolding run call new_builder add_allocation add_vesting_allocation exceeds_allocation_cap
    requires_vesting with_allocation create_genesis_validator_set with_validators place_from
    sort_validators insert_ranked ranks_before
total_allocated_test = refl

build_returns_example :
    (validate rates builder ≡ true) × (build toy rates builder ≡ some (genesis_block toy builder))
unfolding run call new_builder add_allocation add_vesting_allocation exceeds_allocation_cap
    requires_vesting with_allocation create_genesis_validator_set with_validators place_from
    sort_validators insert_ranked ranks_before
build_returns_example = build_returns toy rates config calls refl

genesis_starts_example :
    let (s', accepted) =
      initialize_from_genesis toy (new_machine 3) (genesis_block toy builder) builder.allocations in
    (accepted ≡ true)
    × (s'.current_height ≡ 0)
    × All
        (λ a. lookup a.address s'.ledger.accounts ≡ some (new_account a.address a.amount))
        builder.allocations
unfolding run call new_builder add_allocation add_vesting_allocation exceeds_allocation_cap
    requires_vesting with_allocation create_genesis_validator_set with_validators place_from
    sort_validators insert_ranked ranks_before
genesis_starts_example =
    genesis_starts toy rates builder (genesis_block toy builder) (new_machine 3)
      build_returns_example.1 refl
      ((ground arith, (ground arith, tt)), ((ground arith, tt), (tt, tt)))

abbrev schedule : VestingSchedule
schedule = new_vesting 1000 500 200

vested_amount_rises_example :
    (calculate_vested_amount schedule 550 ≤ calculate_vested_amount schedule 600)
    × (calculate_vested_amount schedule 600 ≤ schedule.total_amount)
    × (is_fully_vested schedule 550 ≡ true
        → calculate_vested_amount schedule 550 ≡ schedule.total_amount)
unfolding new_vesting
vested_amount_rises_example =
    vested_amount_rises schedule 550 600 (omega arith) (omega arith) (omega arith)
