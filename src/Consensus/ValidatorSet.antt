-- ===== src/Consensus/ValidatorSet.antt =====
-- ValidatorSet of src/consensus/validator.cpp.
pub mod Stake
use sarafu_core.Base.{
  ℕ, ◌+◌, ◌*◌, ◌/◌, Bool, true, false, Option, none, some, List, [], ◌∷◌, ◌==◌, ltb, if◌then◌else◌,
  keep_if,
}
use sarafu_core.Base.Word.{add64, mul64}
use sarafu_core.Consensus.Types.{
  Validator, ValidatorId, ValidatorSet, ValidatorStatus, active, standby, jailed, tombstoned,
}

abbrev pub is_active_status : ValidatorStatus → Bool
is_active_status active = true
is_active_status _ = false

abbrev pub is_standby_status : ValidatorStatus → Bool
is_standby_status standby = true
is_standby_status _ = false

-- `Validator::operator<`: more stake first, then the lower id.
unfoldable pub ranks_before : Validator → Validator → Bool
ranks_before a b =
    if a.bonded_stake == b.bonded_stake then ltb a.id b.id else ltb b.bonded_stake a.bonded_stake

unfoldable pub get_active_validators : List Validator → List Validator
get_active_validators = keep_if (λ v. is_active_status v.status)

unfoldable pub get_standby_validators : List Validator → List Validator
get_standby_validators = keep_if (λ v. is_standby_status v.status)

unfoldable pub find_validator : ValidatorId → List Validator → Option Validator
find_validator id [] = none
find_validator id (v ∷ vs) = if v.id == id then some v else find_validator id vs

unfoldable pub is_active : ValidatorId → List Validator → Bool
unfolding find_validator
is_active id vs = elim (find_validator id vs) [ none ↦ false | some v ↦ is_active_status v.status ]

-- `(total_stake * 2 + 2) / 3`, in 64 bits: two thirds, rounded up, where nothing wraps.
unfoldable pub required_stake : ℕ → ℕ
required_stake total_stake = add64 (mul64 total_stake 2) 2 / 3
