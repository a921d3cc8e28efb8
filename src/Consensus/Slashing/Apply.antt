-- ===== src/Consensus/Slashing/Apply.antt =====
-- apply_slashing of src/consensus/slashing_detector.cpp: where the slashed stake goes.
use sarafu_core.Base.{
  ℕ, ◌+◌, ◌-◌, ◌*◌, ◌/◌, ◌<◌, ◌≤◌, ◌≡◌, refl, ap, ◌∙◌, arith, true, false, none, some, List, [],
  ◌∷◌, ◌==◌, ltb, leb, not, ◌&&◌, All, if◌then◌else◌, elem, min, keep_if, Bool-cases, Option-cases,
  inl, inr,
}
use sarafu_core.Base.Word.{u64_mod, add64, sub64}
use sarafu_core.Base.Map.{
  Map, From, lookup, insert, insert-From, lookup-insert_self, sum_over, sum_over-insert, weight_of,
  contains, lookup-insert,
}
use sarafu_core.Base.Map
use sarafu_core.Consensus.Types.{Validator, ValidatorStatus, tombstoned}
use sarafu_core.Consensus.ValidatorSet.{get_active_validators, is_active_status}
use sarafu_core.Consensus.ValidatorSet.Stake.{ids}
use sarafu_core.Consensus.Registry.{Registry, bond_stake, update_validator}
use sarafu_core.Consensus.Registry.Slashing.{slash_validator}
use sarafu_core.Consensus.Registry.Stakes.{bonded}
use sarafu_core.Consensus.Registry.Rewards.{stakes, share_fits}
use sarafu_core.Consensus.Slashing.{
  SlashingEvent, stake_from, share_out, others_than, distribute, apply_slashing,
  is_safety_violation,
}

-- The ids of a list of validators are all in the registry.
abbrev pub Known : Registry → List Validator → Type 0
Known r [] = Unit
Known r (v ∷ vs) = (Map.contains v.id r.validators ≡ true) × Known r vs

-- What a call leaves as it was: the order of the registry, who is in it, and every validator but `ids`.
abbrev stake_of : ℕ → Registry → ℕ
stake_of id r = weight_of (λ v. v.bonded_stake) (lookup id r.validators)

module _ (r : Registry) (id amount : ℕ) (f : From 0 r.validators)
    (k : Map.contains id r.validators ≡ true) where
  bond_stake-bonded :
      bonded r + amount < u64_mod → bonded (bond_stake r id amount).0 ≡ bonded r + amount
  unfolding bond_stake
  bond_stake-bonded room = elim (Option-cases (lookup id r.validators)) [
    | inl e ↦ absurd (ground (arith, k, e))
    | inr (v, e) ↦
        rw (bond_stake, e)
          (ground (
            arith,
            ap (weight_of (λ (w : Validator). w.bonded_stake)) e,
            room,
            sum_over-insert (λ (w : Validator). w.bonded_stake) 0 id
                (record v { bonded_stake = add64 v.bonded_stake amount }) r.validators f,
          ))
  ]

  bond_stake-From : From 0 (bond_stake r id amount).0.validators
  unfolding bond_stake
  bond_stake-From = elim (Option-cases (lookup id r.validators)) [
    | inl e ↦ absurd (ground (arith, k, e))
    | inr (v, e) ↦ rw (bond_stake, e) (insert-From 0 id _ r.validators (omega arith) f)
  ]

  bond_stake-lookup :
      (j : ℕ)
      → (j == id) ≡ false
      → lookup j (bond_stake r id amount).0.validators ≡ lookup j r.validators
  unfolding bond_stake
  bond_stake-lookup j other = elim (Option-cases (lookup id r.validators)) [
    | inl e ↦ absurd (ground (arith, k, e))
    | inr (v, e) ↦
        rw (bond_stake, e)
          (ground (
            arith,
            other,
            lookup-insert j id (record v { bonded_stake = add64 v.bonded_stake amount })
                r.validators,
          ))
  ]

  bond_stake-contains :
      (j : ℕ)
      → Map.contains j r.validators ≡ true
      → Map.contains j (bond_stake r id amount).0.validators ≡ true
  unfolding bond_stake
  bond_stake-contains j there = elim (Option-cases (lookup id r.validators)) [
    | inl e ↦ absurd (ground (arith, k, e))
    | inr (v, e) ↦
        rw (bond_stake, e)
          (ground (
            arith,
            there,
            lookup-insert j id (record v { bonded_stake = add64 v.bonded_stake amount })
                r.validators,
          ))
  ]

  bond_stake-Known : (vs : List Validator) → Known r vs → Known (bond_stake r id amount).0 vs
  bond_stake-Known [] a = tt
  bond_stake-Known (v ∷ vs) a = (bond_stake-contains v.id a.0, bond_stake-Known vs a.1)

bond_if :
    (r : Registry) (id reward : ℕ) (other : ℕ) (vs : List Validator)
    → From 0 r.validators
    → Map.contains id r.validators ≡ true
    → (other == id) ≡ false
    → bonded r + reward < u64_mod
    → Known r vs
    → let r' = if ltb 0 reward then (bond_stake r id reward).0 else r in
      (bonded r' ≡ bonded r + reward)
      × From 0 r'.validators
      × (lookup other r'.validators ≡ lookup other r.validators)
      × Known r' vs
bond_if r id reward other vs f k apart room known = elim (Bool-cases (ltb 0 reward)) [
  | inl paid ↦ rw paid (
    bond_stake-bonded r id reward f k room,
    bond_stake-From r id reward f k,
    bond_stake-lookup r id reward f k other apart,
    bond_stake-Known r id reward f k vs known,
  )
  | inr nothing ↦ rw nothing (ground (arith, nothing), f, refl, known)
]

-- What paying out an amount does to a registry: it is all added to the stakes, and one validator that is
-- not paid keeps what it has.
Paid : ℕ → ℕ → Registry → Registry → Type 0
Paid other amount r r' =
    (bonded r' ≡ bonded r + amount)
    × From 0 r'.validators
    × (lookup other r'.validators ≡ lookup other r.validators)

share_out_pays :
    (T A : ℕ) (v : Validator) (vs : List Validator) (d : ℕ) (r : Registry) (other : ℕ)
    → 0 < T
    → A < u64_mod
    → d * T + stakes (v ∷ vs) * A ≤ T * A
    → d ≤ A
    → From 0 r.validators
    → Known r (v ∷ vs)
    → elem other (ids (v ∷ vs)) ≡ false
    → bonded r + (A - d) < u64_mod
    → Paid other (A - d) r (share_out T A (v ∷ vs) d r)
unfolding Paid share_out
share_out_pays T A v [] d r other h k b le f known apart room =
    let (sum, order, kept, _) =
      bond_if r v.id (A - d) other [] f known.0 (ground (arith, apart)) room tt in
    let last : sub64 A d ≡ A - d = omega (arith, le, k) in rw last (sum, order, kept)
share_out_pays T A v (w ∷ vs) d r other h k b le f known apart room =
    let q = v.bonded_stake * A / T in
    let (fits, next, within) = share_fits T A v.bonded_stake (stakes (w ∷ vs)) d h k b in
    let (sum, order, kept, known') =
      bond_if r v.id q other (w ∷ vs) f known.0 (ground (arith, apart))
        (omega (arith, within, room)) known.1 in
    let r' = if ltb 0 q then (bond_stake r v.id q).0 else r in
    let grown : (if ltb 0 q then add64 d q else d) ≡ d + q = ground (arith, within, k) in
    let (sum', order', kept') =
      share_out_pays T A w vs (d + q) r' other h k next within order known' (ground (arith, apart))
        (omega (arith, sum, within, room)) in
    rw (share_out, fits, grown) (omega (arith, sum, sum', within), order', kept' ∙ kept)

stake_from-eq :
    (total : ℕ) (vs : List Validator)
    → total + stakes vs < u64_mod
    → stake_from total vs ≡ total + stakes vs
unfolding stake_from
stake_from-eq total [] h = omega arith
stake_from-eq total (v ∷ vs) h =
    let grown : add64 total v.bonded_stake ≡ total + v.bonded_stake = omega (arith, h) in
    rw grown (stake_from-eq (total + v.bonded_stake) vs (omega (arith, h)) ∙ omega arith)

others-Known :
    (r : Registry) (id : ℕ) (vs : List Validator)
    → Known r vs
    → Known r (keep_if (λ (v : Validator). not (v.id == id)) (get_active_validators vs))
unfolding get_active_validators
others-Known r id [] k = tt
others-Known r id (v ∷ vs) k = ground (arith, others-Known r id vs k.1, k.0)

others-apart :
    (id : ℕ) (vs : List Validator)
    → elem id (ids (keep_if (λ (v : Validator). not (v.id == id)) vs)) ≡ false
others-apart id [] = refl
others-apart id (v ∷ vs) = ground (arith, others-apart id vs)

share_out_all :
    (A : ℕ) (vs : List Validator) (r : Registry) (other : ℕ)
    → 0 < stakes vs
    → A < u64_mod
    → From 0 r.validators
    → Known r vs
    → elem other (ids vs) ≡ false
    → bonded r + A < u64_mod
    → Paid other A r (share_out (stakes vs) A vs 0 r)
share_out_all A [] r other h k f known apart room = absurd (omega (arith, h))
share_out_all A (v ∷ vs) r other h k f known apart room =
    let whole : A - 0 ≡ A = omega arith in
    rw whole at (
      share_out_pays (stakes (v ∷ vs)) A v vs 0 r other h k (omega arith) (omega arith) f known
        apart (omega (arith, room)))

distribute_pays :
    (r : Registry) (id amount other : ℕ)
    → From 0 r.validators
    → Known r r.current_set.validators
    → stakes (others_than id r) < u64_mod
    → 0 < stakes (others_than id r)
    → bonded r + amount < u64_mod
    → elem other (ids (others_than id r)) ≡ false
    → Paid other amount r (distribute r id amount)
unfolding Paid distribute others_than
distribute_pays r id amount other f known fits some_stake room apart =
    let others = others_than id r in
    let total : stake_from 0 others ≡ stakes others =
      omega (arith, stake_from-eq 0 others (omega (arith, fits))) in
    elim (Bool-cases (ltb 0 amount)) [
      | inr nothing ↦ rw (distribute, total, nothing) (ground (arith, nothing, some_stake, f))
      | inl paid ↦
          let positive : ltb 0 (stakes others) ≡ true = ground (arith, some_stake) in
          rw (distribute, total, paid, positive)
            (share_out_all amount others r other some_stake (omega (arith, room)) f
              (others-Known r id r.current_set.validators known) apart room)
    ]

-- Without the stake of another active validator nothing is paid.
distribute_nothing :
    (r : Registry) (id amount : ℕ) → stakes (others_than id r) ≡ 0 → distribute r id amount ≡ r
unfolding distribute
distribute_nothing r id amount none_staked =
    let total : stake_from 0 (others_than id r) ≡ 0 =
      omega (arith, none_staked, stake_from-eq 0 (others_than id r) (omega (arith, none_staked))) in
    rw (distribute, total)

slash_takes :
    (r : Registry) (id amount : ℕ) (v : Validator)
    → From 0 r.validators
    → lookup id r.validators ≡ some v
    → amount ≤ v.bonded_stake
    → let (r', slashed) = slash_validator r id amount in
      (slashed ≡ true)
      × (bonded r' + amount ≡ bonded r)
      × From 0 r'.validators
      × (lookup id r'.validators ≡ some (record v { bonded_stake = v.bonded_stake - amount }))
unfolding slash_validator
slash_takes r id amount v f e le =
    let v' = record v { bonded_stake = v.bonded_stake - amount } in
    let actual : (if ltb v.bonded_stake amount then v.bonded_stake else amount) ≡ amount =
      ground (arith, le) in
    rw (slash_validator, e, actual)
      (
        refl,
        omega (
          arith,
          le,
          ap (weight_of (λ (w : Validator). w.bonded_stake)) e,
          sum_over-insert (λ (w : Validator). w.bonded_stake) 0 id v' r.validators f,
        ),
        insert-From 0 id v' r.validators (omega arith) f,
        lookup-insert_self id v' r.validators,
      )

slash_keeps :
    (r : Registry) (id amount other : ℕ) (v : Validator)
    → lookup id r.validators ≡ some v
    → (other == id) ≡ false
    → lookup other (slash_validator r id amount).0.validators ≡ lookup other r.validators
unfolding slash_validator
slash_keeps r id amount other v e apart =
    let taken = if ltb v.bonded_stake amount then v.bonded_stake else amount in
    rw (slash_validator, e)
      (lookup-insert other id (record v { bonded_stake = v.bonded_stake - taken }) r.validators
        ∙ rw apart refl)

status_keeps :
    (r : Registry) (id other : ℕ) (status : ValidatorStatus) (v : Validator)
    → lookup id r.validators ≡ some v
    → (other == id) ≡ false
    → lookup other (update_validator r id none none (some status)).0.validators
      ≡ lookup other r.validators
unfolding update_validator
status_keeps r id other status v e apart =
    rw (update_validator, e)
      (lookup-insert other id (record v { status = status }) r.validators ∙ rw apart refl)

status_changes :
    (r : Registry) (id : ℕ) (status : ValidatorStatus) (v : Validator)
    → From 0 r.validators
    → lookup id r.validators ≡ some v
    → let r' = (update_validator r id none none (some status)).0 in
      (bonded r' ≡ bonded r) × (lookup id r'.validators ≡ some (record v { status = status }))
unfolding update_validator
status_changes r id status v f e =
    let v' = record v { status = status } in
    rw (update_validator, e)
      (
        omega (
          arith,
          ap (weight_of (λ (w : Validator). w.bonded_stake)) e,
          sum_over-insert (λ (w : Validator). w.bonded_stake) 0 id v' r.validators f,
        ),
        lookup-insert_self id v' r.validators,
      )

-- The stake that leaves the registry: the part that is burned, and the other part too where no other
-- active validator has stake.
abbrev pub leaves : ℕ → ℕ → ℕ
leaves penalty others = if ltb 0 others then penalty / 2 else penalty

-- The stake of the active validators of a set other than one.
abbrev pub others_stake : ℕ → List Validator → ℕ
others_stake id [] = 0
others_stake id (v ∷ vs) =
    if is_active_status v.status && not (v.id == id)
    then v.bonded_stake + others_stake id vs
    else others_stake id vs

others_stake-stakes :
    (id : ℕ) (vs : List Validator)
    → stakes (keep_if (λ (v : Validator). not (v.id == id)) (get_active_validators vs))
      ≡ others_stake id vs
unfolding get_active_validators
others_stake-stakes id [] = refl
others_stake-stakes id (v ∷ vs) = ground (arith, others_stake-stakes id vs)

-- No entry of the id is active.
abbrev pub Inactive : ℕ → List Validator → Type 0
Inactive other vs = All (λ (v : Validator). (v.id == other && is_active_status v.status) ≡ false) vs

Inactive-apart :
    (id other : ℕ) (vs : List Validator)
    → Inactive other vs
    → elem other (ids (keep_if (λ (v : Validator). not (v.id == id)) (get_active_validators vs)))
      ≡ false
unfolding get_active_validators
Inactive-apart id other [] h = refl
Inactive-apart id other (v ∷ vs) h = ground (arith, h.0, Inactive-apart id other vs h.1)

distributed :
    (r : Registry) (id penalty other : ℕ)
    → From 0 r.validators
    → Known r r.current_set.validators
    → stakes (others_than id r) < u64_mod
    → bonded r + penalty < u64_mod
    → elem other (ids (others_than id r)) ≡ false
    → let r₁ = distribute r id (penalty - penalty / 2) in
      (bonded r₁ + leaves penalty (stakes (others_than id r)) ≡ bonded r + penalty)
      × From 0 r₁.validators
      × (lookup other r₁.validators ≡ lookup other r.validators)
unfolding Paid
distributed r id penalty other f known fits room apart =
    elim (Bool-cases (ltb 0 (stakes (others_than id r)))) [
      | inl others ↦
          let (sum, order, kept) =
            distribute_pays r id (penalty - penalty / 2) other f known fits (ground (arith, others))
              (omega (arith, room)) apart in
          rw others (omega (arith, sum), order, kept)
      | inr nobody ↦
          let same = distribute_nothing r id (penalty - penalty / 2) (ground (arith, nobody)) in
          rw (nobody, same) (refl, f, refl)
    ]

-- What is left of the registry, for an id, after the three changes of `apply_slashing`.
all_keep :
    (r : Registry) (id penalty other : ℕ) (v : Validator) (status : ValidatorStatus)
    → From 0 r.validators
    → Known r r.current_set.validators
    → stakes (others_than id r) < u64_mod
    → bonded r + penalty < u64_mod
    → lookup id r.validators ≡ some v
    → penalty ≤ v.bonded_stake
    → Inactive other r.current_set.validators
    → (other == id) ≡ false
    → let r₁ = distribute r id (penalty - penalty / 2) in
      let r₂ = (slash_validator r₁ id penalty).0 in
      (lookup other r₂.validators ≡ lookup other r.validators)
      × (lookup other (update_validator r₂ id none none (some status)).0.validators
          ≡ lookup other r.validators)
unfolding others_than
all_keep r id penalty other v status f known fits room e le inactive apart =
    let vs = r.current_set.validators in
    let (_, order, kept) =
      distributed r id penalty id f known fits room (others-apart id (get_active_validators vs)) in
    let (_, _, same) =
      distributed r id penalty other f known fits room (Inactive-apart id other vs inactive) in
    let r₁ = distribute r id (penalty - penalty / 2) in
    let r₂ = (slash_validator r₁ id penalty).0 in
    let (_, _, _, found) = slash_takes r₁ id penalty v order (kept ∙ e) le in
    let slashed = slash_keeps r₁ id penalty other v (kept ∙ e) apart ∙ same in
    (slashed, status_keeps r₂ id other status _ found apart ∙ slashed)

-- Applying a slashing event with a penalty to a validator of the registry succeeds and loses no stake but
-- what it should. The penalty, at most the validator's stake, is taken from it, and it is tombstoned
-- exactly for a safety violation; half of the penalty, rounded down, is burned: it leaves the total supply,
-- down to zero at least. The other half is added in full to the stakes of the other active validators of
-- the current set: the stake of all falls by the burned half only, or by the whole penalty where those have
-- no stake, and a validator that is not active in the set, and not the slashed one, keeps its entry.
-- The registry is in the order of its ids and holds the current set's, and the sums fit 64 bits.
pub apply_slashing_conserves :
    (r : Registry) (event : SlashingEvent) (supply : ℕ) (v : Validator) (other : ℕ)
    → From 0 r.validators
    → Known r r.current_set.validators
    → others_stake event.validator_id r.current_set.validators < u64_mod
    → bonded r + event.penalty_amount < u64_mod
    → lookup event.validator_id r.validators ≡ some v
    → 0 < event.penalty_amount
    → Inactive other r.current_set.validators
    → (other == event.validator_id) ≡ false
    → let penalty = min event.penalty_amount v.bonded_stake in
      let (r', supply', slashed) = apply_slashing r event supply in
      (slashed ≡ true)
      × (supply' ≡ supply - penalty / 2)
      × (bonded r' + leaves penalty (others_stake event.validator_id r.current_set.validators)
          ≡ bonded r)
      × (lookup event.validator_id r'.validators
          ≡ some (record v {
            bonded_stake = v.bonded_stake - penalty;
            status = if is_safety_violation event.reason then tombstoned else v.status;
          }))
      × (lookup other r'.validators ≡ lookup other r.validators)
unfolding apply_slashing others_than
apply_slashing_conserves r event supply v other f known small room e some_penalty idle apart =
    let id = event.validator_id in
    let vs = r.current_set.validators in
    let penalty = min event.penalty_amount v.bonded_stake in
    let stake : stakes (others_than id r) ≡ others_stake id vs = others_stake-stakes id vs in
    let fits : stakes (others_than id r) < u64_mod = omega (arith, stake, small) in
    let taken : (if ltb v.bonded_stake event.penalty_amount
          then v.bonded_stake
          else event.penalty_amount)
        ≡ penalty =
      ground arith in
    let nonzero : (event.penalty_amount == 0) ≡ false = ground (arith, some_penalty) in
    let burned : (if leb (penalty / 2) supply then supply - penalty / 2 else 0)
        ≡ supply - penalty / 2 =
      ground arith in
    let less : bonded r + penalty < u64_mod = omega (arith, room) in
    let (sum, order, kept) =
      distributed r id penalty id f known fits less (others-apart id (get_active_validators vs)) in
    let left = ap (leaves penalty) stake in
    let r₁ = distribute r id (penalty - penalty / 2) in
    let (slashed, sum', order', found) =
      slash_takes r₁ id penalty v order (kept ∙ e) (omega arith) in
    let r₂ = (slash_validator r₁ id penalty).0 in
    let (sum'', stored) = status_changes r₂ id tombstoned _ order' found in
    let (slash_kept, all_kept) =
      all_keep r id penalty other v tombstoned f known fits less e (omega arith) idle apart in
    elim (Bool-cases (is_safety_violation event.reason)) [
      | inl safety ↦
          rw (apply_slashing, e, nonzero, taken, slashed, safety, burned)
            (refl, refl, omega (arith, left, sum, sum', sum''), stored, all_kept)
      | inr liveness ↦
          rw (apply_slashing, e, nonzero, taken, slashed, liveness, burned)
            (refl, refl, omega (arith, left, sum, sum'), found, slash_kept)
    ]
