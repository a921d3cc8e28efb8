-- ===== src/Consensus/ValidatorSet/Stake.antt =====
-- Sums of stake over a validator list, and how much two large sets of ids must share.
use sarafu_core.Base.{
  ℕ, ◌+◌, ◌*◌, ◌<◌, ◌≤◌, ◌≡◌, refl, arith, Bool, true, false, List, [], ◌∷◌, ◌==◌, ◌&&◌,
  if◌then◌else◌, elem, Distinct,
}
use sarafu_core.Base.Word.{u64_mod}
use sarafu_core.Consensus.Types.{Validator, ValidatorId}
use sarafu_core.Consensus.ValidatorSet.{is_active_status, required_stake}

abbrev pub ids : List Validator → List ValidatorId
ids [] = []
ids (v ∷ vs) = v.id ∷ ids vs

-- The stake of the active validators whose id passes the test.
unfoldable pub stake_where : (ValidatorId → Bool) → List Validator → ℕ
stake_where test [] = 0
stake_where test (v ∷ vs) =
    (if is_active_status v.status && test v.id then v.bonded_stake else 0) + stake_where test vs

abbrev pub active_stake : List Validator → ℕ
active_stake = stake_where (λ _. true)

-- The stake of the first active validator of an id.
unfoldable pub active_stake_of : ValidatorId → List Validator → ℕ
active_stake_of id [] = 0
active_stake_of id (v ∷ vs) =
    if is_active_status v.status && v.id == id then v.bonded_stake else active_stake_of id vs

unfoldable pub sum_stakes : List ValidatorId → List Validator → ℕ
sum_stakes [] vs = 0
sum_stakes (id ∷ rest) vs = active_stake_of id vs + sum_stakes rest vs

stake_where-none : (vs : List Validator) → stake_where (λ id. elem id []) vs ≡ 0
unfolding stake_where
stake_where-none [] = refl
stake_where-none (v ∷ vs) = ground (arith, stake_where-none vs)

stake_where-cons_absent :
    (x : ValidatorId) (s : List ValidatorId) (vs : List Validator)
    → elem x (ids vs) ≡ false
    → stake_where (λ id. elem id (x ∷ s)) vs ≡ stake_where (λ id. elem id s) vs
unfolding stake_where
stake_where-cons_absent x s [] h = refl
stake_where-cons_absent x s (v ∷ vs) h = ground (arith, stake_where-cons_absent x s vs)

active_stake_of_absent :
    (x : ValidatorId) (vs : List Validator) → elem x (ids vs) ≡ false → active_stake_of x vs ≡ 0
unfolding active_stake_of
active_stake_of_absent x [] h = refl
active_stake_of_absent x (v ∷ vs) h = ground (arith, active_stake_of_absent x vs)

stake_where-cons :
    (x : ValidatorId) (s : List ValidatorId) (vs : List Validator)
    → Distinct (ids vs)
    → elem x s ≡ false
    → stake_where (λ id. elem id (x ∷ s)) vs
      ≡ active_stake_of x vs + stake_where (λ id. elem id s) vs
unfolding stake_where active_stake_of
stake_where-cons x s [] d h = omega arith
stake_where-cons x s (v ∷ vs) d h = ground (
  arith,
  stake_where-cons x s vs d.1 h,
  stake_where-cons_absent x s vs,
  active_stake_of_absent x vs,
)

-- The sum over distinct ids is the stake of the validators among them.
pub sum_stakes-stake_where :
    (s : List ValidatorId) (vs : List Validator)
    → Distinct (ids vs)
    → Distinct s
    → sum_stakes s vs ≡ stake_where (λ id. elem id s) vs
unfolding sum_stakes
sum_stakes-stake_where [] vs d e = rw (stake_where-none vs)
sum_stakes-stake_where (x ∷ s) vs d e =
    omega (arith, stake_where-cons x s vs d e.0, sum_stakes-stake_where s vs d e.1)

-- What two tests pass, and what both pass, is within all there is.
pub stake_where_overlap :
    (f g : ValidatorId → Bool) (vs : List Validator)
    → stake_where f vs + stake_where g vs ≤ active_stake vs + stake_where (λ id. f id && g id) vs
unfolding stake_where
stake_where_overlap f g [] = omega arith
stake_where_overlap f g (v ∷ vs) = ground (arith, stake_where_overlap f g vs)

-- Where nothing wraps, the required stake is two thirds, rounded up.
pub required_stake_bounds :
    (total : ℕ)
    → total * 2 + 2 < u64_mod
    → (total * 2 ≤ required_stake total * 3) × (required_stake total * 3 ≤ total * 2 + 2)
unfolding required_stake
required_stake_bounds total h = omega arith

pub stake_where-cong :
    (f g : ValidatorId → Bool) (vs : List Validator)
    → ((id : ValidatorId) → f id ≡ g id)
    → stake_where f vs ≡ stake_where g vs
unfolding stake_where
stake_where-cong f g [] h = refl
stake_where-cong f g (v ∷ vs) h = ground (arith, h v.id, stake_where-cong f g vs h)

pub stake_where-le :
    (f : ValidatorId → Bool) (vs : List Validator) → stake_where f vs ≤ active_stake vs
unfolding stake_where
stake_where-le f [] = omega arith
stake_where-le f (v ∷ vs) = ground (arith, stake_where-le f vs)
