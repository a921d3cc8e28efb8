-- ===== src/Consensus/Registry/Stakes.antt =====
-- The stakes of src/consensus/validator_registry.cpp: what bonding, unbonding and slashing keep.
use sarafu_core.Base.{
  ℕ, ◌+◌, ◌-◌, ◌<◌, ◌≤◌, ◌≡◌, refl, ap, Option, none, some, List, [], ◌∷◌, ◌++◌, ◌==◌, ltb,
  if◌then◌else◌, arith, Option-cases, Bool-cases, inl, inr, All,
}
use sarafu_core.Base.Word.{add64}
use sarafu_core.Base.Map.{From, lookup, sum_over, sum_over-insert, weight_of}
use sarafu_core.Consensus.Types.{Validator, ValidatorSet, standby}
use sarafu_core.Consensus.ValidatorSet.{is_active_status, find_validator}
use sarafu_core.Consensus.Registry.Slashing.{slash_validator, set_slash, total_after_slash}
use sarafu_core.Consensus.Registry.{
  Registry, UnbondingRequest, update_first, unbond_stake, split_requests, process_unbonding,
}

-- The stake of the entries that are active, as a number that does not wrap.
abbrev pub active_stake : List Validator → ℕ
active_stake [] = 0
active_stake (v ∷ vs) = (if is_active_status v.status then v.bonded_stake else 0) + active_stake vs

-- The total that the set keeps is the stake of its active validators.
pub record IsTotalled (s : ValidatorSet) : Type 0 where
  pub total : s.total_stake ≡ active_stake s.validators

abbrev slashed_stake : Option Validator → ℕ → ℕ
slashed_stake none actual = 0
slashed_stake (some w) actual = if is_active_status w.status then set_slash (some w) actual else 0

total_after_slash-eq :
    (o : Option Validator) (actual total : ℕ)
    → total_after_slash o actual total ≡ total - slashed_stake o actual
total_after_slash-eq none actual total = omega arith
total_after_slash-eq (some w) actual total = ground arith

active_stake-slash :
    (id actual : ℕ) (vs : List Validator)
    → active_stake (
          update_first id
            (λ w. record w { bonded_stake = w.bonded_stake - set_slash (some w) actual })
            vs)
        + slashed_stake (find_validator id vs) actual
      ≡ active_stake vs
unfolding update_first find_validator
active_stake-slash id actual [] = refl
active_stake-slash id actual (v ∷ vs) = elim (Bool-cases (v.id == id)) [
  | inl e ↦ rw (e, update_first, find_validator) (ground arith)
  | inr e ↦ rw (e, update_first, find_validator) (ground (arith, active_stake-slash id actual vs))
]

-- Where the total of the current set is the stake of its active validators, slashing a validator,
-- by whatever amount, leaves it so.
pub slash_validator-IsTotalled :
    (r : Registry) (id amount : ℕ)
    → IsTotalled r.current_set
    → IsTotalled (slash_validator r id amount).0.current_set
unfolding slash_validator
slash_validator-IsTotalled r id amount t = elim (Option-cases (lookup id r.validators)) [
  | inl e ↦ rw (slash_validator, e) t
  | inr (v, e) ↦
      let actual = if ltb v.bonded_stake amount then v.bonded_stake else amount in
      let vs = r.current_set.validators in
      record {
        total =
            rw
              (
                slash_validator,
                e,
                total_after_slash-eq (find_validator id vs) actual r.current_set.total_stake,
                t.total,
              )
              (omega (arith, active_stake-slash id actual vs));
      }
]

-- The stake that the registry holds: bonded, and waiting in unbonding requests.
abbrev pub bonded : Registry → ℕ
bonded r = sum_over (λ v. v.bonded_stake) r.validators

abbrev pub pending : List UnbondingRequest → ℕ
pending [] = 0
pending (q ∷ qs) = q.amount + pending qs

pending-append :
    (qs : List UnbondingRequest) (q : UnbondingRequest)
    → pending (qs ++ q ∷ []) ≡ pending qs + q.amount
pending-append [] q = omega arith
pending-append (p ∷ qs) q = ground (arith, pending-append qs q)

-- In a registry in the order of its ids, unbonding stake moves it from the validator to a
-- request: the stake bonded and the stake waiting have the same sum after the call as before,
-- whether the call succeeds or fails.
pub unbond_stake_conserves :
    (r : Registry) (id amount height : ℕ)
    → From 0 r.validators
    → let r₁ = (unbond_stake r id amount height).0 in
      bonded r₁ + pending r₁.unbonding_requests ≡ bonded r + pending r.unbonding_requests
unfolding unbond_stake
unbond_stake_conserves r id amount height f = elim (Option-cases (lookup id r.validators)) [
  | inl e ↦ rw (e, unbond_stake)
  | inr (v, e) ↦
      let v₁ = record v {
        bonded_stake = v.bonded_stake - amount;
        status = if v.bonded_stake - amount == 0 then standby else v.status;
      } in
      rw (e, unbond_stake)
        (ground (
          arith,
          ap (weight_of (λ w. w.bonded_stake)) e,
          sum_over-insert (λ w. w.bonded_stake) 0 id v₁ r.validators f,
          pending-append r.unbonding_requests (record {
            validator_id = id;
            amount = amount;
            completion_height = add64 height r.config.unbonding_period_blocks;
          }),
        ))
]

splits :
    (height : ℕ) (qs : List UnbondingRequest)
    → let (done, waiting) = split_requests height qs in
      All (λ q. q.completion_height ≤ height) done
      × (All (λ q. height < q.completion_height) waiting
          × (pending done + pending waiting ≡ pending qs))
unfolding split_requests
splits height [] = (tt, (tt, refl))
splits height (q ∷ qs) = ground (arith, splits height qs)

-- Completing unbonding requests gives out exactly those whose height has come, keeps exactly the others,
-- and loses no amount.
pub process_unbonding_splits :
    (r : Registry) (height : ℕ)
    → let (r₁, done) = process_unbonding r height in
      All (λ q. q.completion_height ≤ height) done
      × (All (λ q. height < q.completion_height) r₁.unbonding_requests
          × (pending done + pending r₁.unbonding_requests ≡ pending r.unbonding_requests))
unfolding process_unbonding
process_unbonding_splits r height = splits height r.unbonding_requests
