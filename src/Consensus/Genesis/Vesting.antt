-- ===== src/Consensus/Genesis/Vesting.antt =====
-- How a vesting schedule pays out.
use sarafu_core.Base.{ℕ, ◌+◌, ◌-◌, ◌*◌, ◌/◌, ◌≤◌, ◌<◌, ◌≡◌, arith, true}
use sarafu_core.Base.Word.{u64_mod}
use sarafu_core.Consensus.Types.{VestingSchedule}
use sarafu_core.Consensus.Genesis.{calculate_vested_amount, is_fully_vested}
use native.Mathlib.Nat.{
  le-div_iff_mul-le, div-mul-le_self, mul-le-mul_left, div-le_of_le-mul, mul_comm,
}

-- The share of `t` after the time `a` of `d`.
share_mono : (t a b d : ℕ) → a ≤ b → 0 < d → t * a / d ≤ t * b / d
share_mono t a b d h k =
    let less = mul-le-mul_left t h in
    let cut = div-mul-le_self (t * a) d in (le-div_iff_mul-le k).1 (omega (arith, less, cut))

share_below : (t a d : ℕ) → a ≤ d → t * a / d ≤ t
share_below t a d h =
    let less = mul-le-mul_left t h in div-le_of_le-mul d (omega (arith, less, mul_comm t d))

calculate_vested_amount-le :
    (s : VestingSchedule) (t : ℕ)
    → s.total_amount < u64_mod
    → calculate_vested_amount s t ≤ s.total_amount
unfolding calculate_vested_amount
calculate_vested_amount-le s t small =
    let below = share_below s.total_amount (t - s.start_timestamp) s.duration_seconds in
    ground (arith, below)

-- What a schedule has released never falls with time and never exceeds its total, where the total fits
-- 64 bits; from the moment that it counts as fully vested, it is the total, where the end fits 64 bits.
pub vested_amount_rises :
    (s : VestingSchedule) (t u : ℕ)
    → t ≤ u
    → s.total_amount < u64_mod
    → s.start_timestamp + s.duration_seconds < u64_mod
    → (calculate_vested_amount s t ≤ calculate_vested_amount s u)
      × (calculate_vested_amount s u ≤ s.total_amount)
      × (is_fully_vested s t ≡ true → calculate_vested_amount s t ≡ s.total_amount)
unfolding calculate_vested_amount is_fully_vested
vested_amount_rises s t u later small ends =
    let a = t - s.start_timestamp in
    let b = u - s.start_timestamp in
    let below = share_below s.total_amount a s.duration_seconds in
    let below' = share_below s.total_amount b s.duration_seconds in
    let rises = share_mono s.total_amount a b s.duration_seconds in
    (
      ground (arith, below, below', rises),
      calculate_vested_amount-le s u small,
      λ full. ground arith,
    )
