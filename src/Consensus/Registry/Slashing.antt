-- ===== src/Consensus/Registry/Slashing.antt =====
-- `slash_validator` of src/consensus/validator_registry.cpp.
use sarafu_core.Base.{ℕ, ◌-◌, Bool, true, false, Option, none, some, ltb, if◌then◌else◌}
use sarafu_core.Base.Map.{lookup, insert}
use sarafu_core.Consensus.Types.{Validator, ValidatorId}
use sarafu_core.Consensus.ValidatorSet.{is_active_status, find_validator}
use sarafu_core.Consensus.Registry.{Registry, update_first, minus_or_zero}

-- What is taken of the entry of the current set, given what was taken of the registry's.
abbrev pub set_slash : Option Validator → ℕ → ℕ
set_slash none actual = 0
set_slash (some w) actual = if ltb w.bonded_stake actual then w.bonded_stake else actual

abbrev pub total_after_slash : Option Validator → ℕ → ℕ → ℕ
total_after_slash none actual total = total
total_after_slash (some w) actual total =
    if is_active_status w.status then minus_or_zero total (set_slash (some w) actual) else total

unfoldable pub slash_validator : Registry → ValidatorId → ℕ → Registry × Bool
slash_validator r id amount = elim (lookup id r.validators) [
  | none ↦ (r, false)
  | some v ↦
      let actual = if ltb v.bonded_stake amount then v.bonded_stake else amount in
      let set = r.current_set in
      let entry = find_validator id set.validators in
      (
        record r {
          validators = insert id (record v { bonded_stake = v.bonded_stake - actual }) r.validators;
          current_set = record set {
            validators =
                update_first id
                  (λ w. record w { bonded_stake = w.bonded_stake - set_slash (some w) actual })
                  set.validators;
            total_stake = total_after_slash entry actual set.total_stake;
          };
        },
        true,
      )
]
