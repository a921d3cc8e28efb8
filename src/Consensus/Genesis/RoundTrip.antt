-- ===== src/Consensus/Genesis/RoundTrip.antt =====
-- What `deserialize` reads back of an allocation and of a configuration.
use sarafu_core.Base.{
  ℕ, ◌^◌, ◌<◌, ◌≤◌, ◌≡◌, refl, ap, subst, ◌∙◌, Option, none, some, List, [], ◌++◌, arith,
  append_assoc, append-nil, length, length-append,
}
use sarafu_core.Base.Word.{u64_mod, u32_mod}
use sarafu_core.Codec.{
  ◌>>=◌, result, read_le-append, read_be-append, read_bytes-append, length-le_bytes,
  length-be_bytes,
}
use sarafu_core.Consensus.Types.{GenesisAllocation, VestingSchedule}
use sarafu_core.Consensus.Codec.RoundTrip.{not_short}
use sarafu_core.Consensus.Genesis.{GenesisConfig}
use sarafu_core.Consensus.Genesis.Bytes.{
  serialize_vesting, decode_vesting, deserialize_vesting, serialize_flagged, serialize_allocation,
  read_flagged, decode_fields, decode_allocation, with_schedule, with_rest, deserialize_allocation,
  serialize_config, decode_config, deserialize_config,
}

pub record VestingFits (s : VestingSchedule) : Type 0 where
  pub total_fits : s.total_amount < u64_mod
  pub vested_fits : s.vested_amount < u64_mod
  pub start_fits : s.start_timestamp < u64_mod
  pub duration_fits : s.duration_seconds < u64_mod

abbrev pub ScheduleFits : Option VestingSchedule → Type 0
ScheduleFits none = Unit
ScheduleFits (some s) = VestingFits s

pub record AllocationFits (a : GenesisAllocation) : Type 0 where
  pub address_fits : a.address < 256 ^ 32
  pub amount_fits : a.amount < u64_mod
  pub category_fits : length a.category < u32_mod
  pub schedule_fits : ScheduleFits a.vesting_schedule

decode_vesting-serialize :
    (s : VestingSchedule) (rest : List ℕ)
    → VestingFits s
    → decode_vesting (serialize_vesting s ++ rest) ≡ some (s, rest)
unfolding serialize_vesting decode_vesting
decode_vesting-serialize s rest h = simp (
  append_assoc, ◌>>=◌, read_le-append, h.total_fits, h.vested_fits, h.start_fits, h.duration_fits,
)

length-serialize_vesting : (s : VestingSchedule) → 32 ≤ length (serialize_vesting s)
unfolding serialize_vesting
length-serialize_vesting s = omega (arith, length-append {0}, length-le_bytes)

deserialize_vesting-serialize :
    (s : VestingSchedule) → VestingFits s → deserialize_vesting (serialize_vesting s) ≡ some s
unfolding deserialize_vesting
deserialize_vesting-serialize s h =
    rw (not_short (length (serialize_vesting s)) 32 (length-serialize_vesting s)) (
      ap result (
        subst (λ bs. decode_vesting bs ≡ some (s, [])) (append-nil _)
          (decode_vesting-serialize s [] h)))

read_flagged-serialize :
    (s : Option VestingSchedule) → ScheduleFits s → read_flagged (serialize_flagged s) ≡ some s
unfolding read_flagged serialize_flagged
read_flagged-serialize none h = refl
read_flagged-serialize (some s) h = simp (deserialize_vesting-serialize s h)

decode_fields-serialize :
    (a : GenesisAllocation)
    → AllocationFits a
    → decode_fields (serialize_allocation a)
      ≡ some ((a.address, a.amount, a.category), serialize_flagged a.vesting_schedule)
unfolding serialize_allocation decode_fields
decode_fields-serialize a h = simp (
  append_assoc, ◌>>=◌, read_be-append, read_le-append, read_bytes-append, h.address_fits,
  h.amount_fits, h.category_fits,
)

length-serialize_flagged : (s : Option VestingSchedule) → 1 ≤ length (serialize_flagged s)
unfolding serialize_flagged
length-serialize_flagged none = omega arith
length-serialize_flagged (some s) = omega arith

length-serialize_allocation : (a : GenesisAllocation) → 45 ≤ length (serialize_allocation a)
unfolding serialize_allocation
length-serialize_allocation a =
    let flagged = length-serialize_flagged a.vesting_schedule in
    omega (arith, length-append {0}, length-be_bytes, length-le_bytes)

decode_allocation-serialize :
    (a : GenesisAllocation) → AllocationFits a → decode_allocation (serialize_allocation a) ≡ some a
unfolding decode_allocation with_rest with_schedule
decode_allocation-serialize a h =
    ap with_rest (decode_fields-serialize a h)
    ∙ ap (with_schedule (a.address, a.amount, a.category))
        (read_flagged-serialize a.vesting_schedule h.schedule_fits)

-- A genesis allocation whose fields fit their types, with a schedule or without, and with any text as
-- its category, is read back from its bytes.
pub deserialize_allocation-serialize :
    (a : GenesisAllocation)
    → AllocationFits a
    → deserialize_allocation (serialize_allocation a) ≡ some a
unfolding deserialize_allocation
deserialize_allocation-serialize a h =
    rw (not_short (length (serialize_allocation a)) 45 (length-serialize_allocation a))
      (decode_allocation-serialize a h)

pub record ConfigFits (c : GenesisConfig) : Type 0 where
  pub supply_fits : c.total_supply < u64_mod
  pub timestamp_fits : c.genesis_timestamp < u64_mod
  pub epoch_fits : c.initial_epoch < u64_mod
  pub size_fits : c.validator_set_size < u64_mod
  pub bond_fits : c.minimum_self_bond < u64_mod
  pub chain_id_fits : c.chain_id < u32_mod

decode_config-serialize :
    (c : GenesisConfig) (rest : List ℕ)
    → ConfigFits c
    → decode_config (serialize_config c ++ rest) ≡ some (c, rest)
unfolding serialize_config decode_config
decode_config-serialize c rest h = simp (
  append_assoc, ◌>>=◌, read_le-append, h.supply_fits, h.timestamp_fits, h.epoch_fits, h.size_fits,
  h.bond_fits, h.chain_id_fits,
)

length-serialize_config : (c : GenesisConfig) → 44 ≤ length (serialize_config c)
unfolding serialize_config
length-serialize_config c = omega (arith, length-append {0}, length-le_bytes)

-- A genesis configuration whose fields fit their types is read back from its bytes.
pub deserialize_config-serialize :
    (c : GenesisConfig) → ConfigFits c → deserialize_config (serialize_config c) ≡ some c
unfolding deserialize_config
deserialize_config-serialize c h =
    rw (not_short (length (serialize_config c)) 44 (length-serialize_config c)) (
      ap result (
        subst (λ bs. decode_config bs ≡ some (c, [])) (append-nil _)
          (decode_config-serialize c [] h)))
