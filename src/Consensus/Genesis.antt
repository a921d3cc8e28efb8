-- ===== src/Consensus/Genesis.antt =====
-- src/consensus/genesis_builder.cpp: vesting schedules, and the builder of the genesis block.
pub mod Bytes
pub mod RoundTrip
pub mod Vesting
pub mod Limits
pub mod Start
mod Tests
use sarafu_core.Base.{
  ℕ, suc, ◌+◌, ◌-◌, ◌*◌, ◌/◌, ◌%◌, Bool, true, false, not, Option, none, some, List, [], ◌∷◌, ◌++◌,
  ltb, leb, ◌&&◌, ◌||◌, if◌then◌else◌, length, min,
}
use sarafu_core.Base.Word.{add64, u64_mod}
use sarafu_core.Crypto.{Primitives, hash_pair}
use sarafu_core.Crypto.Merkle.{build_tree}
use sarafu_core.State.Types.{Address, Hash, Account}
use sarafu_core.State.Codec.{serialize_account}
use sarafu_core.State.Machine.{sort}
use sarafu_core.Consensus.Types.{
  Block, GenesisAllocation, Validator, ValidatorSet, ValidatorStatus, VestingSchedule, active,
  standby,
}
use sarafu_core.Consensus.Registry.Transition.{insert_ranked, validator_hashes}

unfoldable pub new_vesting : ℕ → ℕ → ℕ → VestingSchedule
new_vesting total start_time duration = record {
  total_amount = total;
  vested_amount = 0;
  start_timestamp = start_time;
  duration_seconds = duration;
}

-- The product is of 128 bits, and the quotient is cut to 64.
unfoldable pub calculate_vested_amount : VestingSchedule → ℕ → ℕ
calculate_vested_amount s current_timestamp =
    if ltb current_timestamp s.start_timestamp
    then 0
    else (let elapsed = current_timestamp - s.start_timestamp in
        if leb s.duration_seconds elapsed
        then s.total_amount
        else (s.total_amount * elapsed / s.duration_seconds) % u64_mod)

unfoldable pub is_fully_vested : VestingSchedule → ℕ → Bool
is_fully_vested s current_timestamp =
    leb (add64 s.start_timestamp s.duration_seconds) current_timestamp

pub record GenesisConfig : Type 0 where
  pub total_supply : ℕ
  pub genesis_timestamp : ℕ
  pub initial_epoch : ℕ
  pub validator_set_size : ℕ
  pub minimum_self_bond : ℕ
  pub chain_id : ℕ

-- Two products with doubles, cut to whole numbers: `total_supply * 0.05` and `total_supply * 0.02`.
pub record Percentages : Type 0 where
  pub five_percent : ℕ → ℕ
  pub two_percent : ℕ → ℕ

pub record GenesisBuilder : Type 0 where
  pub config : GenesisConfig
  pub allocations : List GenesisAllocation
  pub validator_set : ValidatorSet
  pub total_allocated : ℕ
  pub validator_set_initialized : Bool

unfoldable pub new_builder : GenesisConfig → GenesisBuilder
new_builder config = record {
  config = config;
  allocations = [];
  validator_set = record { epoch = 0; validators = []; total_stake = 0; merkle_root = 0 };
  total_allocated = 0;
  validator_set_initialized = false;
}

abbrev pub twelve_months_seconds : ℕ
twelve_months_seconds = 31536000

abbrev pub has_value {ℓ} : {A : Type ℓ} → Option A → Bool
has_value none = false
has_value (some _) = true

-- One turn of the placing loop: the first validators are active, the others stand by.
unfoldable pub genesis_validator : Bool → Validator → Validator
genesis_validator chosen v = record v {
  status = if chosen then active else standby;
  jailed_until_epoch = 0;
  consecutive_downtime_epochs = 0;
  blocks_signed_this_epoch = 0;
  blocks_missed_this_epoch = 0;
}

-- The placing loop, from the index `i` on: `none` where an active validator has too little stake.
unfoldable pub place_from : ℕ → ℕ → ℕ → ℕ → List Validator → Option (List Validator × ℕ)
place_from minimum active_count i total [] = some ([], total)
place_from minimum active_count i total (v ∷ vs) =
    let chosen = ltb i active_count in
    let total' = if chosen then add64 total v.bonded_stake else total in
    let rest = place_from minimum active_count (suc i) total' vs in
    if chosen && ltb v.bonded_stake minimum
    then none
    else elim rest [ none ↦ none | some (ws, sum) ↦ some (genesis_validator chosen v ∷ ws, sum) ]

-- `std::sort` with the order of `Validator::operator<`.
unfoldable pub sort_validators : List Validator → List Validator
sort_validators [] = []
sort_validators (v ∷ vs) = insert_ranked v (sort_validators vs)

unfoldable pub with_allocation : GenesisBuilder → GenesisAllocation → GenesisBuilder
with_allocation b a = record b {
  allocations = b.allocations ++ (a ∷ []);
  total_allocated = add64 b.total_allocated a.amount;
}

module _ (rates : Percentages) where
  unfoldable pub exceeds_allocation_cap : GenesisBuilder → ℕ → Bool
  exceeds_allocation_cap b amount = ltb (rates.five_percent b.config.total_supply) amount

  unfoldable pub requires_vesting : GenesisBuilder → ℕ → Bool
  requires_vesting b amount = ltb (rates.two_percent b.config.total_supply) amount

  unfoldable pub add_vesting_allocation :
      GenesisBuilder → Address → ℕ → List ℕ → ℕ → GenesisBuilder × Bool
  unfolding exceeds_allocation_cap new_vesting
  add_vesting_allocation b address amount category vesting_duration_seconds =
      if exceeds_allocation_cap b amount
      then (b, false)
      else (if ltb b.config.total_supply (add64 b.total_allocated amount) then (b, false) else (
        with_allocation b (record {
          address = address;
          amount = amount;
          category = category;
          vesting_schedule =
              some (new_vesting amount b.config.genesis_timestamp vesting_duration_seconds);
        }),
        true,
      ))

  unfoldable pub add_allocation : GenesisBuilder → Address → ℕ → List ℕ → GenesisBuilder × Bool
  unfolding exceeds_allocation_cap requires_vesting
  add_allocation b address amount category =
      if exceeds_allocation_cap b amount
      then (b, false)
      else (if ltb b.config.total_supply (add64 b.total_allocated amount)
          then (b, false)
          else (if requires_vesting b amount
              then add_vesting_allocation b address amount category twelve_months_seconds
              else (
                with_allocation b (record {
                  address = address;
                  amount = amount;
                  category = category;
                  vesting_schedule = none;
                }),
                true,
              )))

  -- The test of one allocation in the loop of `validate`.
  unfoldable pub within_limits : GenesisConfig → GenesisAllocation → Bool
  within_limits config a =
      not (ltb (rates.five_percent config.total_supply) a.amount)
      && not (
          ltb (rates.two_percent config.total_supply) a.amount
          && not (has_value a.vesting_schedule))

  unfoldable pub all_within_limits : GenesisConfig → List GenesisAllocation → Bool
  all_within_limits config [] = true
  all_within_limits config (a ∷ rest) = within_limits config a && all_within_limits config rest

  unfoldable pub validate : GenesisBuilder → Bool
  validate b =
      if ltb b.config.total_supply b.total_allocated
      then false
      else all_within_limits b.config b.allocations

module _ (p : Primitives) where
  unfoldable pub with_validators :
      GenesisBuilder → Option (List Validator × ℕ) → GenesisBuilder × Bool
  with_validators b none = (b, false)
  with_validators b (some (all_validators, total_stake)) = (
    record b {
      validator_set = record {
        epoch = b.config.initial_epoch;
        validators = all_validators;
        total_stake = total_stake;
        merkle_root = (build_tree (hash_pair p) (validator_hashes p all_validators)).root;
      };
      validator_set_initialized = true;
    },
    true,
  )

  unfoldable pub create_genesis_validator_set :
      GenesisBuilder → List Validator → GenesisBuilder × Bool
  create_genesis_validator_set b [] = (b, false)
  create_genesis_validator_set b (v ∷ vs) =
      let sorted = sort_validators (v ∷ vs) in
      let active_count = min b.config.validator_set_size (length sorted) in
      with_validators b (place_from b.config.minimum_self_bond active_count 0 0 sorted)

  unfoldable pub allocation_hashes : List GenesisAllocation → List Hash
  allocation_hashes [] = []
  allocation_hashes (a ∷ rest) =
      let account : Account = record {
        address = a.address;
        balance = a.amount;
        nonce = 0;
        code_hash = 0;
      } in
      p.blake3 (serialize_account account) ∷ allocation_hashes rest

  unfoldable pub genesis_state_root : List GenesisAllocation → Hash
  unfolding allocation_hashes sort
  genesis_state_root [] = 0
  genesis_state_root (a ∷ rest) =
      (build_tree (hash_pair p) (sort (allocation_hashes (a ∷ rest)))).root

  unfoldable pub genesis_block : GenesisBuilder → Block
  genesis_block b = record {
    header = record {
      height = 0;
      timestamp = b.config.genesis_timestamp;
      previous_hash = 0;
      state_root = genesis_state_root b.allocations;
      transactions_root = (build_tree (hash_pair p) []).root;
      validator_set_root = b.validator_set.merkle_root;
      proposer = 0;
      epoch = b.config.initial_epoch;
    };
    transactions = [];
    justify = record {
      block_height = 0;
      block_hash = 0;
      view_number = 0;
      aggregated_signature = 0;
      signers = [];
      total_stake_signed = 0;
    };
  }

  -- `none` is one of the two exceptions.
  unfoldable pub build : Percentages → GenesisBuilder → Option Block
  build rates b =
      if not (validate rates b)
      then none
      else (if not b.validator_set_initialized then none else some (genesis_block b))
