-- ===== src/Consensus/Registry/Rewards.antt =====
-- The rewards of src/consensus/validator_registry.cpp, `distribute_rewards_proportional`.
use sarafu_core.Base.{
  ℕ, ◌+◌, ◌*◌, ◌/◌, ◌%◌, ◌<◌, ◌≤◌, ◌≡◌, refl, ap, subst, sym, ◌∙◌, arith, false, none, List, [],
  ◌∷◌, ◌==◌, ltb, ◌||◌, if◌then◌else◌, elem, Distinct, Bool-cases, inl, inr,
}
use sarafu_core.Base.Word.{u64_mod, add64, sub64}
use sarafu_core.Base.Map.{
  Map, From, lookup, insert, insert-From, lookup-insert, sum_over, sum_over-insert, weight_of,
}
use sarafu_core.Consensus.Types.{Validator, ValidatorId}
use sarafu_core.Consensus.ValidatorSet.{get_active_validators}
use native.Mathlib.Nat.{add-mul, mul_comm, div-mul-le_self, le_of_mul-le-mul_right}
use sarafu_core.Consensus.ValidatorSet.Stake.{ids}
use sarafu_core.Consensus.Registry.{Registry}
use sarafu_core.Consensus.Registry.Stakes.{IsTotalled, active_stake}

-- The loop. The product of two 64-bit numbers is taken in 128 bits, where it fits; the quotient is cast to 64.
unfoldable pub reward_all : ℕ → ℕ → List Validator → ℕ → Map ℕ → Map ℕ
reward_all total_stake total_amount [] distributed rewards = rewards
reward_all total_stake total_amount (v ∷ []) distributed rewards =
    let reward = sub64 total_amount distributed in
    if ltb 0 reward then insert v.id reward rewards else rewards
reward_all total_stake total_amount (v ∷ w ∷ vs) distributed rewards =
    let reward = (v.bonded_stake * total_amount / total_stake) % u64_mod in
    reward_all total_stake total_amount (w ∷ vs)
      (if ltb 0 reward then add64 distributed reward else distributed)
      (if ltb 0 reward then insert v.id reward rewards else rewards)

unfoldable pub distribute_rewards_proportional : Registry → ℕ → Map ℕ
distribute_rewards_proportional r total_amount =
    if total_amount == 0 || r.current_set.total_stake == 0
    then []
    else reward_all r.current_set.total_stake total_amount
        (get_active_validators r.current_set.validators) 0 []

-- The stake of a list of validators, as a number that does not wrap.
abbrev pub stakes : List Validator → ℕ
stakes [] = 0
stakes (v ∷ vs) = v.bonded_stake + stakes vs

get_active_validators-stakes :
    (vs : List Validator) → stakes (get_active_validators vs) ≡ active_stake vs
unfolding get_active_validators
get_active_validators-stakes [] = refl
get_active_validators-stakes (v ∷ vs) = ground (arith, get_active_validators-stakes vs)

elem-active :
    (x : ValidatorId) (vs : List Validator)
    → elem x (ids vs) ≡ false
    → elem x (ids (get_active_validators vs)) ≡ false
unfolding get_active_validators
elem-active x [] h = refl
elem-active x (v ∷ vs) h = ground (arith, h, elem-active x vs)

get_active_validators-Distinct :
    (vs : List Validator) → Distinct (ids vs) → Distinct (ids (get_active_validators vs))
unfolding get_active_validators
get_active_validators-Distinct [] d = tt
get_active_validators-Distinct (v ∷ vs) d =
    ground (arith, d, get_active_validators-Distinct vs d.1, elem-active v.id vs)

-- No reward is filed yet for a validator of the list.
abbrev Unpaid : Map ℕ → List Validator → Type 0
Unpaid m [] = Unit
Unpaid m (v ∷ vs) = (lookup v.id m ≡ none) × Unpaid m vs

Unpaid-insert :
    (x r : ℕ) (m : Map ℕ) (vs : List Validator)
    → elem x (ids vs) ≡ false
    → Unpaid m vs
    → Unpaid (insert x r m) vs
Unpaid-insert x r m [] h u = tt
Unpaid-insert x r m (v ∷ vs) h u =
    ground (arith, h, u, lookup-insert v.id x r m, Unpaid-insert x r m vs)

pub share_fits :
    (T A s rest d : ℕ)
    → 0 < T
    → A < u64_mod
    → d * T + (s + rest) * A ≤ T * A
    → ((s * A / T) % u64_mod ≡ s * A / T)
      × ((d + s * A / T) * T + rest * A ≤ T * A)
      × (d + s * A / T ≤ A)
share_fits T A s rest d h k b =
    let q = s * A / T in
    let share = div-mul-le_self (s * A) T in
    let split = add-mul s rest A in
    let grown = add-mul d q T in
    let next : (d + q) * T + rest * A ≤ T * A = omega (arith, share, split, grown, b) in
    let within : d + q ≤ A = le_of_mul-le-mul_right (omega (arith, next, mul_comm T A)) h in
    (omega (arith, within, k), next, within)

sum-insert :
    (x r : ℕ) (m : Map ℕ)
    → From 0 m
    → lookup x m ≡ none
    → sum_over (λ n. n) (insert x r m) ≡ sum_over (λ n. n) m + r
sum-insert x r m f absent =
    omega (arith, sum_over-insert (λ n. n) 0 x r m f, ap (weight_of (λ n. n)) absent)

reward_all-sum :
    (T A : ℕ) (v : Validator) (vs : List Validator) (d : ℕ) (m : Map ℕ)
    → 0 < T
    → A < u64_mod
    → Distinct (ids (v ∷ vs))
    → d * T + stakes (v ∷ vs) * A ≤ T * A
    → d ≤ A
    → From 0 m
    → sum_over (λ n. n) m ≡ d
    → Unpaid m (v ∷ vs)
    → sum_over (λ n. n) (reward_all T A (v ∷ vs) d m) ≡ A
unfolding reward_all
reward_all-sum T A v [] d m h k dis b le f sum u = elim (Bool-cases (ltb 0 (sub64 A d))) [
  | inl some_left ↦
      rw (some_left, reward_all) (omega (arith, sum-insert v.id (sub64 A d) m f u.0, sum, le, k))
  | inr nothing ↦ rw (nothing, reward_all) (ground (arith, nothing, le, sum, k))
]
reward_all-sum T A v (w ∷ vs) d m h k dis b le f sum u =
    let q = v.bonded_stake * A / T in
    let (fits, next, within) = share_fits T A v.bonded_stake (stakes (w ∷ vs)) d h k b in
    elim (Bool-cases (ltb 0 q)) [
      | inl paid ↦
          rw (reward_all, fits, paid)
            (reward_all-sum T A w vs (add64 d q) (insert v.id q m) h k dis.1
              (subst (λ n. n * T + stakes (w ∷ vs) * A ≤ T * A) (omega (arith, within, k)) next)
              (omega (arith, within, k)) (insert-From 0 v.id q m (omega arith) f)
              (omega (arith, sum-insert v.id q m f u.0, sum, within, k))
              (Unpaid-insert v.id q m (w ∷ vs) dis.0 u.1))
      | inr nothing ↦
          rw (reward_all, fits, nothing)
            (reward_all-sum T A w vs d m h k dis.1
              (subst (λ n. n * T + stakes (w ∷ vs) * A ≤ T * A) (ground (arith, nothing)) next) le f
              sum u.1)
    ]

positive : (n : ℕ) → 0 < n → (n == 0) ≡ false
positive n h = ground (arith, h)

Unpaid-nil : (vs : List Validator) → Unpaid [] vs
Unpaid-nil [] = tt
Unpaid-nil (v ∷ vs) = (refl, Unpaid-nil vs)

reward_all_pays :
    (T A : ℕ) (vs : List Validator)
    → 0 < T
    → A < u64_mod
    → Distinct (ids vs)
    → stakes vs ≡ T
    → sum_over (λ n. n) (reward_all T A vs 0 []) ≡ A
reward_all_pays T A [] h k d e = absurd (omega arith)
reward_all_pays T A (v ∷ vs) h k d e =
    reward_all-sum T A v vs 0 [] h k d (subst (λ n. 0 * T + n * A ≤ T * A) (sym e) (omega arith))
      (omega arith) tt refl (Unpaid-nil (v ∷ vs))

-- Where the total of the current set is the stake of its active validators, whose ids are
-- distinct, and is not zero, the rewards that are given out add up to the whole amount, of 64
-- bits.
pub distribute_rewards_proportional-sum :
    (r : Registry) (amount : ℕ)
    → IsTotalled r.current_set
    → Distinct (ids r.current_set.validators)
    → 0 < r.current_set.total_stake
    → amount < u64_mod
    → sum_over (λ n. n) (distribute_rewards_proportional r amount) ≡ amount
unfolding distribute_rewards_proportional
distribute_rewards_proportional-sum r amount t dis h k =
    let vs = r.current_set.validators in
    elim (Bool-cases (amount == 0)) [
      | inl zero_amount ↦
          rw (distribute_rewards_proportional, zero_amount) (ground (arith, zero_amount))
      | inr some_amount ↦
          rw (distribute_rewards_proportional, some_amount, positive r.current_set.total_stake h)
            (reward_all_pays r.current_set.total_stake amount (get_active_validators vs) h k
              (get_active_validators-Distinct vs dis)
              (get_active_validators-stakes vs ∙ sym t.total))
    ]
