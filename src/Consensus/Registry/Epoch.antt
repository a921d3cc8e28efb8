-- ===== src/Consensus/Registry/Epoch.antt =====
-- The transition of src/consensus/validator_registry.cpp to a new epoch: who is active after it.
use sarafu_core.Base.{
  ℕ, ◌⊎◌, ◌+◌, ◌-◌, ◌<◌, ◌≤◌, ◌≡◌, ◌↔◌, subst, true, false, some, List, [], ◌∷◌, if◌then◌else◌,
  arith, Bool-cases, inl, inr, All,
}
use sarafu_core.Base.Word.{u64_mod, add64, add64-eq}
use sarafu_core.Base.Map.{lookup, lookup-insert_self}
use sarafu_core.Crypto.{Primitives}
use sarafu_core.Consensus.Types.{Validator, active, standby, jailed, tombstoned}
use sarafu_core.Consensus.ValidatorSet.{is_active_status}
use sarafu_core.Consensus.Registry.{
  Registry, Config, is_tombstoned, is_jailed, bond_stake, unbond_stake,
}
use sarafu_core.Consensus.Registry.Stakes.{active_stake, IsTotalled}
use sarafu_core.Consensus.Registry.Transition.{
  renewed, placed, penalized, place_all, rank_by_stake, downtime_checked, check_downtime,
  active_total, transition_epoch,
}

abbrev pub count_active : List Validator → ℕ
count_active [] = 0
count_active (v ∷ vs) = (if is_active_status v.status then 1 else 0) + count_active vs

-- A validator is active after it is placed exactly when it is neither tombstoned nor in jail, its place is
-- among the first of the configured number, and its stake is at least the minimum bond.
pub placed_active_iff :
    (c : Config) (i : ℕ) (v : Validator)
    → is_active_status (placed c i v).status ≡ true ↔ (
        is_tombstoned v.status ≡ false
        × (is_jailed v.status ≡ false
            × ((i < c.active_validator_count) × (c.minimum_self_bond ≤ v.bonded_stake))))
unfolding placed
placed_active_iff c i v = ground arith

-- Being placed changes no stake.
placed-stake : (c : Config) (i : ℕ) (v : Validator) → (placed c i v).bonded_stake ≡ v.bonded_stake
unfolding placed
placed-stake c i v = ground arith

HasBond : Config → Validator → Type 0
HasBond c v = (is_active_status v.status ≡ false) ⊎ (c.minimum_self_bond ≤ v.bonded_stake)

count_active-place_all :
    (c : Config) (epoch i : ℕ) (vs : List Validator)
    → count_active (place_all c epoch i vs) ≤ c.active_validator_count - i
unfolding place_all
count_active-place_all c epoch i [] = omega arith
count_active-place_all c epoch i (v ∷ vs) =
    ground (
      arith,
      count_active-place_all c epoch (i + 1) vs,
      (placed_active_iff c i (renewed epoch v)).0,
    )

place_all-HasBond :
    (c : Config) (epoch i : ℕ) (vs : List Validator) → All (HasBond c) (place_all c epoch i vs)
unfolding place_all HasBond
place_all-HasBond c epoch i [] = tt
place_all-HasBond c epoch i (v ∷ vs) =
    let w = renewed epoch v in
    (
      elim (Bool-cases (is_active_status (placed c i w).status)) [
        | inl act ↦ inr (ground (arith, placed_active_iff c i w, placed-stake c i w, act))
        | inr idle ↦ inl idle
      ],
      place_all-HasBond c epoch (i + 1) vs,
    )

active_total-eq :
    (t : ℕ) (vs : List Validator)
    → t + active_stake vs < u64_mod
    → active_total t vs ≡ t + active_stake vs
unfolding active_total
active_total-eq t [] h = omega arith
active_total-eq t (v ∷ vs) h = elim (Bool-cases (is_active_status v.status)) [
  | inl e ↦
      rw (e, active_total)
        (ground (arith, e, h, add64-eq t v.bonded_stake, active_total-eq (t + v.bonded_stake) vs))
  | inr e ↦ rw (e, active_total) (ground (arith, e, h, active_total-eq t vs))
]

downtime_checked-config :
    (r : Registry) (epoch total : ℕ) → (downtime_checked r epoch total).config ≡ r.config
unfolding downtime_checked check_downtime
downtime_checked-config r epoch total = ground arith

-- After the transition to any epoch, at most the configured number of validators is active, and each
-- of them has at least the minimum bond.
pub transition_epoch_active :
    (p : Primitives) (r : Registry) (epoch total_blocks : ℕ)
    → let s = (transition_epoch p r epoch total_blocks).1 in
      (count_active s.validators ≤ r.config.active_validator_count)
      × All
          (λ v. (is_active_status v.status ≡ false) ⊎ (r.config.minimum_self_bond ≤ v.bonded_stake))
          s.validators
unfolding transition_epoch HasBond
transition_epoch_active p r epoch total_blocks =
    let r₁ = downtime_checked r epoch total_blocks in
    subst
      (λ c.
        (count_active (place_all r₁.config epoch 0 (rank_by_stake r₁)) ≤ c.active_validator_count)
        × All (HasBond c) (place_all r₁.config epoch 0 (rank_by_stake r₁)))
      (downtime_checked-config r epoch total_blocks)
      (
        omega (arith, count_active-place_all r₁.config epoch 0 (rank_by_stake r₁)),
        place_all-HasBond r₁.config epoch 0 (rank_by_stake r₁),
      )

-- After the transition to any epoch, the total stake of the new set is the stake of its active
-- validators, where that sum fits 64 bits.
pub transition_epoch-IsTotalled :
    (p : Primitives) (r : Registry) (epoch total_blocks : ℕ)
    → active_stake (transition_epoch p r epoch total_blocks).1.validators < u64_mod
    → IsTotalled (transition_epoch p r epoch total_blocks).1
unfolding transition_epoch
transition_epoch-IsTotalled p r epoch total_blocks h =
    let r₁ = downtime_checked r epoch total_blocks in
    let vs = place_all r₁.config epoch 0 (rank_by_stake r₁) in
    record { total = omega (arith, active_total-eq 0 vs (omega (arith, h))) }

-- The jail of a first downtime violation ends as it begins: a validator that the transition to `epoch + 1`
-- sends to jail is released by the same transition, and is active after it if its place and its stake
-- allow.
pub jail_released :
    (c : Config) (epoch i : ℕ) (v : Validator)
    → v.consecutive_downtime_epochs ≡ 0
    → epoch + 1 < u64_mod
    → i < c.active_validator_count
    → c.minimum_self_bond ≤ v.bonded_stake
    → ((penalized epoch v).status ≡ jailed)
      × ((placed c i (renewed (epoch + 1) (penalized epoch v))).status ≡ active)
unfolding penalized renewed placed
jail_released c epoch i v z h k l = ground arith

bond_stake-lookup :
    (r : Registry) (id amount : ℕ) (v : Validator)
    → lookup id r.validators ≡ some v
    → lookup id (bond_stake r id amount).0.validators
      ≡ some (record v { bonded_stake = add64 v.bonded_stake amount })
unfolding bond_stake
bond_stake-lookup r id amount v e =
    rw (bond_stake, e)
      (lookup-insert_self id (record v { bonded_stake = add64 v.bonded_stake amount }) r.validators)

unbond_stake-lookup :
    (r : Registry) (id height : ℕ) (v : Validator)
    → lookup id r.validators ≡ some v
    → lookup id (unbond_stake r id v.bonded_stake height).0.validators
      ≡ some (record v { bonded_stake = v.bonded_stake - v.bonded_stake; status = standby })
unfolding unbond_stake
unbond_stake-lookup r id height v e =
    rw (unbond_stake, e)
      (ground (
        arith,
        lookup-insert_self id
            (record v { bonded_stake = v.bonded_stake - v.bonded_stake; status = standby })
            r.validators,
      ))

-- A tombstoned validator can be active again: it unbonds all its stake, bonds the minimum or more, and the next
-- transition that ranks it high enough places it among the active.
pub unbond_stake_revives :
    (r : Registry) (id amount height epoch i : ℕ) (v : Validator)
    → lookup id r.validators ≡ some v
    → v.status ≡ tombstoned
    → amount < u64_mod
    → i < r.config.active_validator_count
    → r.config.minimum_self_bond ≤ amount
    → (w : Validator) × (lookup id
          (bond_stake (unbond_stake r id v.bonded_stake height).0 id amount).0.validators
        ≡ some w)
      × ((placed r.config i (renewed epoch w)).status ≡ active)
unfolding bond_stake unbond_stake placed renewed
unbond_stake_revives r id amount height epoch i v e t h k l =
    let w = record v {
      bonded_stake = add64 (v.bonded_stake - v.bonded_stake) amount;
      status = standby;
    } in
    (
      w,
      bond_stake-lookup (unbond_stake r id v.bonded_stake height).0 id amount
          (record v { bonded_stake = v.bonded_stake - v.bonded_stake; status = standby })
          (unbond_stake-lookup r id height v e),
      ground (arith, h, k, l),
    )
