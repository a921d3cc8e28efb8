-- ===== src/Consensus/Genesis/Bytes.antt =====
-- The bytes of a vesting schedule, an allocation and a configuration in src/consensus/genesis_builder.cpp.
use sarafu_core.Base.{ℕ, Option, none, some, List, [], ◌∷◌, ◌++◌, ◌==◌, ltb, if◌then◌else◌, length}
use sarafu_core.Codec.{
  Decoder, pure, ◌>>=◌, result, le_bytes, be_bytes, read_le, read_be, read_bytes,
}
use sarafu_core.Consensus.Types.{GenesisAllocation, VestingSchedule}
use sarafu_core.Consensus.Genesis.{GenesisConfig}

unfoldable pub serialize_vesting : VestingSchedule → List ℕ
serialize_vesting s =
    le_bytes 8 s.total_amount
    ++ (le_bytes 8 s.vested_amount
        ++ (le_bytes 8 s.start_timestamp ++ le_bytes 8 s.duration_seconds))

unfoldable pub decode_vesting : Decoder VestingSchedule
decode_vesting = do
  total ← read_le 8
  vested ← read_le 8
  start ← read_le 8
  duration ← read_le 8
  pure (record {
    total_amount = total;
    vested_amount = vested;
    start_timestamp = start;
    duration_seconds = duration;
  })

unfoldable pub deserialize_vesting : List ℕ → Option VestingSchedule
deserialize_vesting bs = if ltb (length bs) 32 then none else result (decode_vesting bs)

unfoldable pub serialize_flagged : Option VestingSchedule → List ℕ
serialize_flagged none = 0 ∷ []
serialize_flagged (some s) = 1 ∷ serialize_vesting s

unfoldable pub serialize_allocation : GenesisAllocation → List ℕ
unfolding serialize_flagged
serialize_allocation a =
    be_bytes 32 a.address
    ++ (le_bytes 8 a.amount
        ++ (le_bytes 4 (length a.category) ++ (a.category ++ serialize_flagged a.vesting_schedule)))

-- What follows the category: no schedule where nothing is left or the flag is not 1.
unfoldable pub read_flagged : List ℕ → Option (Option VestingSchedule)
read_flagged [] = some none
read_flagged (flag ∷ rest) =
    if flag == 1
    then elim (deserialize_vesting rest) [ none ↦ none | some s ↦ some (some s) ]
    else some none

-- The fields before the flag. A category that reaches past the end of the bytes is undefined behaviour
-- in the source: `none` here.
unfoldable pub decode_fields : Decoder (ℕ × ℕ × List ℕ)
decode_fields = do
  address ← read_be 32
  amount ← read_le 8
  cat_len ← read_le 4
  category ← read_bytes cat_len
  pure (address, amount, category)

unfoldable pub with_schedule :
    ℕ × ℕ × List ℕ → Option (Option VestingSchedule) → Option GenesisAllocation
with_schedule fields none = none
with_schedule (address, amount, category) (some schedule) = some (record {
  address = address;
  amount = amount;
  category = category;
  vesting_schedule = schedule;
})

unfoldable pub with_rest : Option ((ℕ × ℕ × List ℕ) × List ℕ) → Option GenesisAllocation
with_rest none = none
with_rest (some (fields, rest)) = with_schedule fields (read_flagged rest)

unfoldable pub decode_allocation : List ℕ → Option GenesisAllocation
decode_allocation bs = with_rest (decode_fields bs)

unfoldable pub deserialize_allocation : List ℕ → Option GenesisAllocation
deserialize_allocation bs = if ltb (length bs) 45 then none else decode_allocation bs

unfoldable pub serialize_config : GenesisConfig → List ℕ
serialize_config c =
    le_bytes 8 c.total_supply
    ++ (le_bytes 8 c.genesis_timestamp
        ++ (le_bytes 8 c.initial_epoch
            ++ (le_bytes 8 c.validator_set_size
                ++ (le_bytes 8 c.minimum_self_bond ++ le_bytes 4 c.chain_id))))

unfoldable pub decode_config : Decoder GenesisConfig
decode_config = do
  supply ← read_le 8
  timestamp ← read_le 8
  epoch ← read_le 8
  size ← read_le 8
  bond ← read_le 8
  chain_id ← read_le 4
  pure (record {
    total_supply = supply;
    genesis_timestamp = timestamp;
    initial_epoch = epoch;
    validator_set_size = size;
    minimum_self_bond = bond;
    chain_id = chain_id;
  })

unfoldable pub deserialize_config : List ℕ → Option GenesisConfig
deserialize_config bs = if ltb (length bs) 44 then none else result (decode_config bs)
