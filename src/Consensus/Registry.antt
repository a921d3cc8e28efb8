-- ===== src/Consensus/Registry.antt =====
-- src/consensus/validator_registry.cpp: the registry's state, its validators' stakes, slashing.
pub mod Transition
pub mod Slashing
pub mod Rewards
pub mod Stakes
pub mod Epoch
pub mod Tests
use sarafu_core.Base.{
  ℕ, suc, ◌+◌, ◌-◌, ◌*◌, ◌/◌, Bool, true, false, not, Option, none, some, List, [], ◌∷◌, ◌++◌, map,
  ◌==◌, ltb, leb, ◌&&◌, if◌then◌else◌, length, elem,
}
use sarafu_core.Base.Word.{add64, sub64, mul64}
use sarafu_core.Base.Map.{Map, lookup, insert}
use sarafu_core.Base.Map
use sarafu_core.Crypto.{Primitives, hash_pair}
use sarafu_core.Crypto.Merkle.{build_tree}
use sarafu_core.State.Types.{Hash}
use sarafu_core.Consensus.Types.{
  Validator, ValidatorId, ValidatorSet, ValidatorStatus, active, standby, jailed, tombstoned,
  QuorumCertificate,
}
use sarafu_core.Consensus.ValidatorSet.{
  is_active_status, ranks_before, get_active_validators, find_validator, required_stake,
}
use sarafu_core.Consensus.Codec.{validator_hash}

pub record UnbondingRequest : Type 0 where
  pub validator_id : ValidatorId
  pub amount : ℕ
  pub completion_height : ℕ

-- `signing_rate_low signed total` is the test of two doubles that the source makes,
-- `signed / total < config_.downtime_threshold`.
pub record Config : Type 0 where
  pub active_validator_count : ℕ
  pub minimum_self_bond : ℕ
  pub unbonding_period_blocks : ℕ
  pub signing_rate_low : ℕ → ℕ → Bool

pub record Registry : Type 0 where
  pub config : Config
  pub current_set : ValidatorSet
  pub validators : Map Validator
  pub unbonding_requests : List UnbondingRequest

abbrev pub is_tombstoned : ValidatorStatus → Bool
is_tombstoned tombstoned = true
is_tombstoned _ = false

abbrev pub is_jailed : ValidatorStatus → Bool
is_jailed jailed = true
is_jailed _ = false

-- `total_stake -= x`, but 0 where x is more.
abbrev pub minus_or_zero : ℕ → ℕ → ℕ
minus_or_zero total x = if leb x total then total - x else 0

unfoldable pub add_validator : Registry → ValidatorId → ℕ → ℕ → ℕ → Registry × Bool
add_validator r id consensus_key withdrawal_key initial_stake =
    if Map.contains id r.validators then (r, false) else (
      record r {
        validators =
            insert id
              (record {
                id = id;
                consensus_key = consensus_key;
                withdrawal_key = withdrawal_key;
                bonded_stake = initial_stake;
                status = standby;
                jailed_until_epoch = 0;
                consecutive_downtime_epochs = 0;
                blocks_signed_this_epoch = 0;
                blocks_missed_this_epoch = 0;
              })
              r.validators;
      },
      true,
    )

abbrev pub or_keep {ℓ} : {A : Type ℓ} → Option A → A → A
or_keep none a = a
or_keep (some b) a = b

abbrev pub with_changes : Validator → Option ℕ → Option ℕ → Option ValidatorStatus → Validator
with_changes v consensus_key withdrawal_key new_status = record v {
  consensus_key = or_keep consensus_key v.consensus_key;
  withdrawal_key = or_keep withdrawal_key v.withdrawal_key;
  status = or_keep new_status v.status;
}

-- The first entry of the id in the current set changes.
unfoldable pub update_first :
    ValidatorId → (Validator → Validator) → List Validator → List Validator
update_first id f [] = []
update_first id f (v ∷ vs) = if v.id == id then f v ∷ vs else v ∷ update_first id f vs

-- The total of the current set when the status of its entry `v` becomes `new_status`.
abbrev pub total_after_status : Option Validator → Option ValidatorStatus → ℕ → ℕ
total_after_status (some v) (some s) total =
    if is_tombstoned s && is_active_status v.status
    then minus_or_zero total v.bonded_stake
    else total
total_after_status _ _ total = total

unfoldable pub update_validator :
    Registry → ValidatorId → Option ℕ → Option ℕ → Option ValidatorStatus → Registry × Bool
update_validator r id consensus_key withdrawal_key new_status = elim (lookup id r.validators) [
  | none ↦ (r, false)
  | some v ↦
      let set = r.current_set in
      (
        record r {
          validators =
              insert id (with_changes v consensus_key withdrawal_key new_status) r.validators;
          current_set = record set {
            validators =
                update_first id (λ w. with_changes w consensus_key withdrawal_key new_status)
                  set.validators;
            total_stake =
                total_after_status (find_validator id set.validators) new_status set.total_stake;
          };
        },
        true,
      )
]

abbrev pub total_after_bond : Option Validator → ℕ → ℕ → ℕ
total_after_bond none amount total = total
total_after_bond (some v) amount total =
    if is_active_status v.status then add64 total amount else total

unfoldable pub bond_stake : Registry → ValidatorId → ℕ → Registry × Bool
bond_stake r id amount = elim (lookup id r.validators) [
  | none ↦ (r, false)
  | some v ↦
      let set = r.current_set in
      (
        record r {
          validators =
              insert id (record v { bonded_stake = add64 v.bonded_stake amount }) r.validators;
          current_set = record set {
            validators =
                update_first id (λ w. record w { bonded_stake = add64 w.bonded_stake amount })
                  set.validators;
            total_stake =
                total_after_bond (find_validator id set.validators) amount set.total_stake;
          };
        },
        true,
      )
]

-- The current set is not touched.
unfoldable pub unbond_stake : Registry → ValidatorId → ℕ → ℕ → Registry × Bool
unbond_stake r id amount current_height = elim (lookup id r.validators) [
  | none ↦ (r, false)
  | some v ↦
      if ltb v.bonded_stake amount
      then (r, false)
      else (let remaining = v.bonded_stake - amount in
          if ltb 0 remaining && ltb remaining r.config.minimum_self_bond then (r, false) else (
            record r {
              validators =
                  insert id
                    (record v {
                      bonded_stake = remaining;
                      status = if remaining == 0 then standby else v.status;
                    })
                    r.validators;
              unbonding_requests =
                  r.unbonding_requests
                  ++ record {
                    validator_id = id;
                    amount = amount;
                    completion_height = add64 current_height r.config.unbonding_period_blocks;
                  }
                    ∷ [];
            },
            true,
          ))
]

unfoldable pub split_requests :
    ℕ → List UnbondingRequest → List UnbondingRequest × List UnbondingRequest
split_requests current_height [] = ([], [])
split_requests current_height (q ∷ qs) =
    let (done, waiting) = split_requests current_height qs in
    if leb q.completion_height current_height then (q ∷ done, waiting) else (done, q ∷ waiting)

unfoldable pub process_unbonding : Registry → ℕ → Registry × List UnbondingRequest
process_unbonding r current_height =
    let (done, waiting) = split_requests current_height r.unbonding_requests in
    (record r { unbonding_requests = waiting }, done)

unfoldable pub record_signature : Registry → ValidatorId → Registry × Bool
record_signature r id = elim (lookup id r.validators) [
  | none ↦ (r, false)
  | some v ↦ (
    record r {
      validators =
          insert id (record v { blocks_signed_this_epoch = add64 v.blocks_signed_this_epoch 1 })
            r.validators;
    },
    true,
  )
]

-- The stake of the active signers, as `require_epoch_transition_qc` counts it.
unfoldable pub epoch_stake : ℕ → List ValidatorId → List Validator → ℕ
epoch_stake total [] vs = total
epoch_stake total (id ∷ ids) vs =
    epoch_stake
      (elim (find_validator id vs) [
        | none ↦ total
        | some v ↦ if is_active_status v.status then add64 total v.bonded_stake else total
      ])
      ids vs

unfoldable pub require_epoch_transition_qc : QuorumCertificate → ValidatorSet → Bool
require_epoch_transition_qc qc vs =
    leb (required_stake vs.total_stake) (epoch_stake 0 qc.signers vs.validators)
