-- ===== src/Consensus/Registry/Tests.antt =====
-- A registry of three validators, to which the theorems on the registry apply.
use sarafu_core.Base.{◌⊎◌, ◌≡◌, ◌≤◌, refl, false, [], ◌∷◌, arith, All}
use sarafu_core.Base.Map.{sum_over}
use sarafu_core.Consensus.Types.{active, tombstoned}
use sarafu_core.Consensus.ValidatorSet.{is_active_status}
use sarafu_core.Consensus.Registry.Slashing.{slash_validator}
use sarafu_core.Consensus.Registry.{Registry, Config}
use sarafu_core.Consensus.Registry.Stakes.{IsTotalled, slash_validator-IsTotalled}
use sarafu_core.Consensus.Registry.Transition.{transition_epoch}
use sarafu_core.Consensus.Registry.Rewards.{
  distribute_rewards_proportional, distribute_rewards_proportional-sum,
}
use sarafu_core.Consensus.Registry.Epoch.{count_active, transition_epoch_active}
use sarafu_core.Consensus.Tests.{toy, validator, three}

abbrev config : Config
config = record {
  active_validator_count = 2;
  minimum_self_bond = 20;
  unbonding_period_blocks = 1000;
  signing_rate_low = λ signed total. false;
}

abbrev pub registry : Registry
registry = record {
  config = config;
  current_set = three;
  validators =
      (1, validator 1 60 active) ∷ (2, validator 2 30 active) ∷ (3, validator 3 10 tombstoned) ∷ [];
  unbonding_requests = record { validator_id = 1; amount = 5; completion_height = 40 } ∷ [];
}

slash_validator-IsTotalled_example : IsTotalled (slash_validator registry 2 45).0.current_set
slash_validator-IsTotalled_example =
    slash_validator-IsTotalled registry 2 45 (record { total = refl })

transition_epoch_active_example :
    let s = (transition_epoch toy registry 3 10).1 in
    (count_active s.validators ≤ 2)
    × All (λ v. (is_active_status v.status ≡ false) ⊎ (20 ≤ v.bonded_stake)) s.validators
transition_epoch_active_example = transition_epoch_active toy registry 3 10

distribute_rewards_proportional-sum_example :
    sum_over (λ n. n) (distribute_rewards_proportional registry 1001) ≡ 1001
distribute_rewards_proportional-sum_example =
    distribute_rewards_proportional-sum registry 1001 (record { total = refl })
      (refl, (refl, (refl, tt))) (omega arith) (omega arith)
