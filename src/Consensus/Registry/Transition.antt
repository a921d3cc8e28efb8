-- ===== src/Consensus/Registry/Transition.antt =====
-- src/consensus/validator_registry.cpp: downtime penalties and the transition to a new epoch.
use sarafu_core.Base.{
  ℕ, ◌+◌, ◌-◌, ◌/◌, not, List, [], ◌∷◌, ◌==◌, ltb, leb, ◌&&◌, if◌then◌else◌, elem,
}
use sarafu_core.Base.Word.{add64, sub64, mul64}
use sarafu_core.Base.Map.{Map, insert}
use sarafu_core.Crypto.{Primitives, hash_pair}
use sarafu_core.Crypto.Merkle.{build_tree}
use sarafu_core.State.Types.{Hash}
use sarafu_core.Consensus.Types.{Validator, ValidatorId, ValidatorSet, active, standby, jailed}
use sarafu_core.Consensus.ValidatorSet.{is_active_status, ranks_before, get_active_validators}
use sarafu_core.Consensus.Codec.{validator_hash}
use sarafu_core.Consensus.Registry.{Registry, Config, is_tombstoned, is_jailed}

-- `std::sort` by `Validator::operator<`.
unfoldable pub insert_ranked : Validator → List Validator → List Validator
insert_ranked v [] = v ∷ []
insert_ranked v (w ∷ ws) = if ranks_before w v then w ∷ insert_ranked v ws else v ∷ w ∷ ws

unfoldable pub rank : Map Validator → List Validator
rank [] = []
rank ((_, v) ∷ m) = insert_ranked v (rank m)

unfoldable pub rank_by_stake : Registry → List Validator
rank_by_stake r = rank r.validators

-- Resetting the counters, and release from jail.
unfoldable pub renewed : ℕ → Validator → Validator
renewed new_epoch v =
    let w : Validator = record v { blocks_signed_this_epoch = 0; blocks_missed_this_epoch = 0 } in
    if is_jailed v.status && leb v.jailed_until_epoch new_epoch
    then record w { status = standby; jailed_until_epoch = 0 }
    else w

-- The status of the validator at place `i` of the ranking.
unfoldable pub placed : Config → ℕ → Validator → Validator
placed config i v =
    if is_tombstoned v.status
    then v
    else (if ltb i config.active_validator_count
          && (leb config.minimum_self_bond v.bonded_stake && not (is_jailed v.status))
        then record v { status = active }
        else (if is_active_status v.status then record v { status = standby } else v))

unfoldable pub place_all : Config → ℕ → ℕ → List Validator → List Validator
place_all config new_epoch i [] = []
place_all config new_epoch i (v ∷ vs) =
    placed config i (renewed new_epoch v) ∷ place_all config new_epoch (i + 1) vs

-- `new_total_stake`: what is added for each validator that becomes active.
unfoldable pub active_total : ℕ → List Validator → ℕ
active_total total [] = total
active_total total (v ∷ vs) =
    active_total (if is_active_status v.status then add64 total v.bonded_stake else total) vs

unfoldable pub store_all : List Validator → Map Validator → Map Validator
store_all [] m = m
store_all (v ∷ vs) m = store_all vs (insert v.id v m)

-- The penalty for one more epoch of downtime.
unfoldable pub penalized : ℕ → Validator → Validator
penalized epoch v =
    if ltb 0 v.consecutive_downtime_epochs
      && (is_jailed v.status && v.jailed_until_epoch == add64 epoch 1)
    then v
    else (if v.consecutive_downtime_epochs == 0
        then record v {
          status = jailed;
          jailed_until_epoch = add64 epoch 1;
          consecutive_downtime_epochs = 1;
        }
        else (if v.consecutive_downtime_epochs == 1
            then record v {
              bonded_stake = sub64 v.bonded_stake (mul64 v.bonded_stake 5 / 1000);
              status = standby;
              consecutive_downtime_epochs = 2;
            }
            else record v {
              bonded_stake = sub64 v.bonded_stake (v.bonded_stake / 100);
              status = standby;
              consecutive_downtime_epochs = add64 v.consecutive_downtime_epochs 1;
            }))

abbrev pub ids_of : List Validator → List ValidatorId
ids_of [] = []
ids_of (v ∷ vs) = v.id ∷ ids_of vs

unfoldable pub checked : Config → List ValidatorId → ℕ → ℕ → Validator → Validator
checked config active_ids epoch total_blocks v =
    if elem v.id active_ids
    then (if config.signing_rate_low v.blocks_signed_this_epoch total_blocks
        then penalized epoch v
        else record v { consecutive_downtime_epochs = 0 })
    else v

unfoldable pub check_all : Config → List ValidatorId → ℕ → ℕ → Map Validator → Map Validator
check_all config active_ids epoch total_blocks [] = []
check_all config active_ids epoch total_blocks ((k, v) ∷ m) =
    (k, checked config active_ids epoch total_blocks v)
    ∷ check_all config active_ids epoch total_blocks m

unfoldable pub violators : Config → List ValidatorId → ℕ → Map Validator → List ValidatorId
violators config active_ids total_blocks [] = []
violators config active_ids total_blocks ((k, v) ∷ m) =
    if elem v.id active_ids && config.signing_rate_low v.blocks_signed_this_epoch total_blocks
    then v.id ∷ violators config active_ids total_blocks m
    else violators config active_ids total_blocks m

unfoldable pub check_downtime : Registry → ℕ → ℕ → Registry × List ValidatorId
check_downtime r epoch total_blocks =
    if total_blocks == 0
    then (r, [])
    else (let active_ids = ids_of (get_active_validators r.current_set.validators) in
        (
          record r { validators = check_all r.config active_ids epoch total_blocks r.validators },
          violators r.config active_ids total_blocks r.validators,
        ))

-- Downtime is checked before the counters are reset, from the second epoch on.
unfoldable pub downtime_checked : Registry → ℕ → ℕ → Registry
downtime_checked r new_epoch total_blocks =
    if ltb 1 new_epoch then (check_downtime r (new_epoch - 1) total_blocks).0 else r

module _ (p : Primitives) where
  unfoldable pub validator_hashes : List Validator → List Hash
  validator_hashes [] = []
  validator_hashes (v ∷ vs) = validator_hash p v ∷ validator_hashes vs

  unfoldable pub compute_validator_set_root : List Validator → Hash
  unfolding validator_hashes
  compute_validator_set_root [] = 0
  compute_validator_set_root (v ∷ vs) = (build_tree (hash_pair p) (validator_hashes (v ∷ vs))).root

  unfoldable pub transition_epoch : Registry → ℕ → ℕ → Registry × ValidatorSet
  transition_epoch r new_epoch total_blocks =
      let r₁ = downtime_checked r new_epoch total_blocks in
      let new_validators = place_all r₁.config new_epoch 0 (rank_by_stake r₁) in
      let new_set : ValidatorSet = record {
        epoch = new_epoch;
        validators = new_validators;
        total_stake = active_total 0 new_validators;
        merkle_root = compute_validator_set_root new_validators;
      } in
      (
        record r₁ { validators = store_all new_validators r₁.validators; current_set = new_set },
        new_set,
      )
