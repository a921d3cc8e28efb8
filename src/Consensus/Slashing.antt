-- ===== src/Consensus/Slashing.antt =====
-- src/consensus/slashing_detector.cpp.
pub mod Detect
pub mod Apply
pub mod Tests
use sarafu_core.Base.{
  ℕ, suc, ◌+◌, ◌-◌, ◌*◌, ◌/◌, ◌%◌, max, min, Bool, true, false, not, Option, none, some, List, [],
  ◌∷◌, ◌++◌, ◌==◌, ltb, leb, ◌&&◌, ◌||◌, if◌then◌else◌, length, drop, keep_if,
}
use sarafu_core.Base.Word.{u64_mod, add64, sub64}
use sarafu_core.Base.Map.{Map, lookup, insert}
use sarafu_core.State.Types.{Hash}
use sarafu_core.Consensus.Types.{Validator, ValidatorId, ValidatorStatus, tombstoned, Vote}
use sarafu_core.Consensus.ValidatorSet.{get_active_validators}
use sarafu_core.Consensus.Registry.{Registry, bond_stake, update_validator}
use sarafu_core.Consensus.Registry.Slashing.{slash_validator}

pub data SlashReason : Type 0 where
  double_sign surround_vote downtime : SlashReason

pub record SignatureRecord : Type 0 where
  pub validator_id : ValidatorId
  pub block_height : ℕ
  pub block_hash : Hash
  pub signature : ℕ
  pub timestamp : ℕ

pub record SlashingEvent : Type 0 where
  pub validator_id : ValidatorId
  pub block_height : ℕ
  pub reason : SlashReason
  pub penalty_amount : ℕ
  pub co_violators : List ValidatorId

-- `penalty_of stake total violating` is what the source computes in doubles,
-- `min(1, alpha * stake / total + beta * stake * violating / total²) * stake`, cast to 64 bits.
pub record Config : Type 0 where
  pub penalty_of : ℕ → ℕ → ℕ → ℕ
  pub max_signature_history : ℕ

pub record Detector : Type 0 where
  pub config : Config
  pub signature_history : Map (List SignatureRecord)
  pub vote_history : Map (List Vote)

abbrev pub new_event : ValidatorId → ℕ → SlashReason → SlashingEvent
new_event id height reason = record {
  validator_id = id;
  block_height = height;
  reason = reason;
  penalty_amount = 0;
  co_violators = [];
}

unfoldable pub detect_double_sign : SignatureRecord → SignatureRecord → Option SlashingEvent
detect_double_sign sig1 sig2 =
    if not (sig1.validator_id == sig2.validator_id)
    then none
    else (if not (sig1.block_height == sig2.block_height)
        then none
        else (if sig1.block_hash == sig2.block_hash
            then none
            else some (new_event sig1.validator_id sig1.block_height double_sign)))

unfoldable pub detect_surround_vote : Vote → Vote → Option SlashingEvent
detect_surround_vote vote1 vote2 =
    if not (vote1.validator_id == vote2.validator_id)
    then none
    else (if vote1.block_height == vote2.block_height && not (vote1.block_hash == vote2.block_hash)
        then some (new_event vote1.validator_id vote1.block_height surround_vote)
        else (if vote1.view_number == vote2.view_number
              && (not (vote1.block_height == vote2.block_height)
                  && not (vote1.block_hash == vote2.block_hash))
            then some (
                new_event vote1.validator_id (max vote1.block_height vote2.block_height)
                  surround_vote)
            else none))

unfoldable pub total_from : ℕ → List ℕ → ℕ
total_from total [] = total
total_from total (stake ∷ stakes) = total_from (add64 total stake) stakes

unfoldable pub calculate_penalty : Config → ℕ → ℕ → List ℕ → ℕ
calculate_penalty config validator_stake total_stake co_violator_stakes =
    if total_stake == 0 || validator_stake == 0
    then 0
    else min (config.penalty_of validator_stake total_stake (total_from 0 co_violator_stakes))
        validator_stake

-- A history with an entry more; the oldest go where there are more than `limit`.
unfoldable pub push_limited {ℓ} : {A : Type ℓ} → ℕ → List A → A → List A
push_limited limit history x =
    let grown = history ++ x ∷ [] in
    if ltb limit (length grown) then drop (length grown - limit) grown else grown

abbrev pub history_of {ℓ} : {A : Type ℓ} → Option (List A) → List A
history_of none = []
history_of (some history) = history

unfoldable pub record_signature : Detector → SignatureRecord → Detector
record_signature d r = record d {
  signature_history =
      insert r.validator_id
        (push_limited d.config.max_signature_history
          (history_of (lookup r.validator_id d.signature_history)) r)
        d.signature_history;
}

unfoldable pub record_vote : Detector → Vote → Detector
record_vote d v = record d {
  vote_history =
      insert v.validator_id
        (push_limited d.config.max_signature_history
          (history_of (lookup v.validator_id d.vote_history)) v)
        d.vote_history;
}

unfoldable pub get_signature_history : Detector → ValidatorId → List SignatureRecord
get_signature_history d id = history_of (lookup id d.signature_history)

unfoldable pub get_vote_history : Detector → ValidatorId → List Vote
get_vote_history d id = history_of (lookup id d.vote_history)

-- What each history keeps.
unfoldable pub prune_all {ℓ} : {A : Type ℓ} → (A → Bool) → Map (List A) → Map (List A)
prune_all keep [] = []
prune_all keep ((id, history) ∷ m) = (id, keep_if keep history) ∷ prune_all keep m

unfoldable pub prune_old_signatures : Detector → ℕ → ℕ → Detector
prune_old_signatures d current_height retention_period =
    if ltb current_height retention_period then d else record d {
      signature_history =
          prune_all
            (λ (r : SignatureRecord). not (ltb r.block_height (current_height - retention_period)))
            d.signature_history;
    }

unfoldable pub prune_old_votes : Detector → ℕ → ℕ → Detector
prune_old_votes d current_height retention_period =
    if ltb current_height retention_period then d else record d {
      vote_history =
          prune_all (λ (v : Vote). not (ltb v.block_height (current_height - retention_period)))
            d.vote_history;
    }

unfoldable pub stake_from : ℕ → List Validator → ℕ
stake_from total [] = total
stake_from total (v ∷ vs) = stake_from (add64 total v.bonded_stake) vs

-- The loop that pays the validators other than the slashed one, the last of them what is left.
unfoldable pub share_out : ℕ → ℕ → List Validator → ℕ → Registry → Registry
share_out total_stake amount [] distributed r = r
share_out total_stake amount (v ∷ []) distributed r =
    let reward = sub64 amount distributed in
    if ltb 0 reward then (bond_stake r v.id reward).0 else r
share_out total_stake amount (v ∷ w ∷ vs) distributed r =
    let reward = (v.bonded_stake * amount / total_stake) % u64_mod in
    share_out total_stake amount (w ∷ vs)
      (if ltb 0 reward then add64 distributed reward else distributed)
      (if ltb 0 reward then (bond_stake r v.id reward).0 else r)

abbrev pub is_safety_violation : SlashReason → Bool
is_safety_violation double_sign = true
is_safety_violation surround_vote = true
is_safety_violation downtime = false

unfoldable pub others_than : ValidatorId → Registry → List Validator
others_than id r =
    keep_if (λ (v : Validator). not (v.id == id)) (get_active_validators r.current_set.validators)

unfoldable pub distribute : Registry → ValidatorId → ℕ → Registry
distribute r id amount =
    let others = others_than id r in
    let total = stake_from 0 others in
    if ltb 0 total && ltb 0 amount then share_out total amount others 0 r else r

-- The registry and the total supply after the call, and its result.
unfoldable pub apply_slashing : Registry → SlashingEvent → ℕ → Registry × ℕ × Bool
apply_slashing r event total_supply = elim (lookup event.validator_id r.validators) [
  | none ↦ (r, total_supply, false)
  | some v ↦
      if event.penalty_amount == 0
      then (r, total_supply, false)
      else (let penalty =
            if ltb v.bonded_stake event.penalty_amount
            then v.bonded_stake
            else event.penalty_amount in
          let burn_amount = penalty / 2 in
          let r₁ = distribute r event.validator_id (penalty - burn_amount) in
          let (r₂, slashed) = slash_validator r₁ event.validator_id penalty in
          if slashed
          then (
            if is_safety_violation event.reason
                then (update_validator r₂ event.validator_id none none (some tombstoned)).0
                else r₂,
            if leb burn_amount total_supply then total_supply - burn_amount else 0,
            true,
          )
          else (r₂, total_supply, false))
]
