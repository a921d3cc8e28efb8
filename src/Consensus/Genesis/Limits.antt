-- ===== src/Consensus/Genesis/Limits.antt =====
-- The limits on allocations hold of every builder that calls can make, so that it builds its block.
use sarafu_core.Base.{
  ℕ, ◌≤◌, ◌≡◌, refl, arith, true, false, Option, none, some, List, [], ◌∷◌, ◌++◌, ltb, Bool-cases,
  inl, inr,
}
use sarafu_core.Base.Word.{add64}
use sarafu_core.Crypto.{Primitives}
use sarafu_core.State.Types.{Address}
use sarafu_core.Consensus.Types.{GenesisAllocation, Validator}
use sarafu_core.Consensus.Genesis.{
  GenesisConfig, GenesisBuilder, Percentages, new_builder, add_allocation, add_vesting_allocation,
  create_genesis_validator_set, exceeds_allocation_cap, requires_vesting, within_limits,
  all_within_limits, validate, build, with_allocation, with_validators, genesis_block,
  twelve_months_seconds,
}

pub data Call : Type 0 where
  allocate : Address → ℕ → List ℕ → Call
  allocate_vesting : Address → ℕ → List ℕ → ℕ → Call
  create_set : List Validator → Call

module _ (p : Primitives) (rates : Percentages) where
  unfoldable pub call : GenesisBuilder → Call → GenesisBuilder
  call b (allocate address amount category) = (add_allocation rates b address amount category).0
  call b (allocate_vesting address amount category duration) =
      (add_vesting_allocation rates b address amount category duration).0
  call b (create_set validators) = (create_genesis_validator_set p b validators).0

  unfoldable pub run : GenesisBuilder → List Call → GenesisBuilder
  unfolding call
  run b [] = b
  run b (c ∷ cs) = run (call b c) cs

  record IsWithin (b : GenesisBuilder) : Type 0 where
    total_within : b.total_allocated ≤ b.config.total_supply
    each_within : all_within_limits rates b.config b.allocations ≡ true

  all_within_limits-append :
      (config : GenesisConfig) (xs : List GenesisAllocation) (a : GenesisAllocation)
      → all_within_limits rates config xs ≡ true
      → within_limits rates config a ≡ true
      → all_within_limits rates config (xs ++ a ∷ []) ≡ true
  unfolding all_within_limits
  all_within_limits-append config [] a h k = ground arith
  all_within_limits-append config (x ∷ xs) a h k =
      ground (arith, all_within_limits-append config xs a)

  with_allocation-IsWithin :
      (b : GenesisBuilder) (a : GenesisAllocation)
      → IsWithin b
      → ltb b.config.total_supply (add64 b.total_allocated a.amount) ≡ false
      → within_limits rates b.config a ≡ true
      → IsWithin (with_allocation b a)
  unfolding with_allocation
  with_allocation-IsWithin b a h fits limits = record {
    total_within = ground arith;
    each_within = all_within_limits-append b.config b.allocations a h.each_within limits;
  }

  add_vesting_allocation-IsWithin :
      (b : GenesisBuilder) (address amount : ℕ) (category : List ℕ) (duration : ℕ)
      → IsWithin b
      → IsWithin (add_vesting_allocation rates b address amount category duration).0
  unfolding add_vesting_allocation exceeds_allocation_cap within_limits
  add_vesting_allocation-IsWithin b address amount category duration h =
      elim (Bool-cases (ltb (rates.five_percent b.config.total_supply) amount)) [
        | inl e ↦ rw e h
        | inr cap ↦ elim (Bool-cases (ltb b.config.total_supply (add64 b.total_allocated amount))) [
          | inl e ↦ rw (cap, e) h
          | inr fits ↦ rw (cap, fits) (with_allocation-IsWithin b _ h fits (ground arith))
        ]
      ]

  add_allocation-IsWithin :
      (b : GenesisBuilder) (address amount : ℕ) (category : List ℕ)
      → IsWithin b
      → IsWithin (add_allocation rates b address amount category).0
  unfolding add_allocation exceeds_allocation_cap requires_vesting within_limits
  add_allocation-IsWithin b address amount category h =
      elim (Bool-cases (ltb (rates.five_percent b.config.total_supply) amount)) [
        | inl e ↦ rw e h
        | inr cap ↦ elim (Bool-cases (ltb b.config.total_supply (add64 b.total_allocated amount))) [
          | inl e ↦ rw (cap, e) h
          | inr fits ↦ elim (Bool-cases (ltb (rates.two_percent b.config.total_supply) amount)) [
            | inl large ↦
                rw (cap, fits, large)
                  (add_vesting_allocation-IsWithin b address amount category twelve_months_seconds
                    h)
            | inr small ↦ rw (cap, fits, small) (with_allocation-IsWithin b _ h fits (ground arith))
          ]
        ]
      ]

  with_validators-IsWithin :
      (b : GenesisBuilder) (placed : Option (List Validator × ℕ))
      → IsWithin b
      → IsWithin (with_validators p b placed).0
  unfolding with_validators
  with_validators-IsWithin b none h = h
  with_validators-IsWithin b (some (vs, total)) h = record {
    total_within = h.total_within;
    each_within = h.each_within;
  }

  create_genesis_validator_set-IsWithin :
      (b : GenesisBuilder) (vs : List Validator)
      → IsWithin b
      → IsWithin (create_genesis_validator_set p b vs).0
  unfolding create_genesis_validator_set
  create_genesis_validator_set-IsWithin b [] h = h
  create_genesis_validator_set-IsWithin b (v ∷ vs) h = with_validators-IsWithin b _ h

  call-IsWithin : (c : Call) (b : GenesisBuilder) → IsWithin b → IsWithin (call b c)
  unfolding call
  call-IsWithin (allocate address amount category) b h =
      add_allocation-IsWithin b address amount category h
  call-IsWithin (allocate_vesting address amount category duration) b h =
      add_vesting_allocation-IsWithin b address amount category duration h
  call-IsWithin (create_set vs) b h = create_genesis_validator_set-IsWithin b vs h

  run-IsWithin : (cs : List Call) (b : GenesisBuilder) → IsWithin b → IsWithin (run b cs)
  unfolding run
  run-IsWithin [] b h = h
  run-IsWithin (c ∷ cs) b h = run-IsWithin cs (call b c) (call-IsWithin c b h)

  new_builder-IsWithin : (config : GenesisConfig) → IsWithin (new_builder config)
  unfolding new_builder all_within_limits
  new_builder-IsWithin config = record { total_within = omega arith; each_within = refl }

  validate_within : (b : GenesisBuilder) → IsWithin b → validate rates b ≡ true
  unfolding validate
  validate_within b h =
      let total_within = h.total_within in let each_within = h.each_within in ground arith

  build_valid :
      (b : GenesisBuilder)
      → validate rates b ≡ true
      → b.validator_set_initialized ≡ true
      → build p rates b ≡ some (genesis_block p b)
  unfolding build
  build_valid b valid ready = rw (valid, ready) refl

  -- However allocations, with a schedule or without, are added to a new builder, refused or not, and
  -- validator sets made, the validation passes, and building gives the genesis block once a set is there.
  pub build_returns :
      (config : GenesisConfig) (cs : List Call)
      → let b = run (new_builder config) cs in
        b.validator_set_initialized ≡ true
        → (validate rates b ≡ true) × (build p rates b ≡ some (genesis_block p b))
  build_returns config cs ready =
      let b = run (new_builder config) cs in
      let valid = validate_within b (run-IsWithin cs _ (new_builder-IsWithin config)) in
      (valid, build_valid b valid ready)
