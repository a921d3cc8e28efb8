-- ===== src/Consensus/Checkpoint/Tests.antt =====
-- A checkpoint that two of three validators sign, to which the theorems on checkpoints apply.
use sarafu_core.Base.{ℕ, ◌+◌, ◌≡◌, ◌==◌, refl, arith, true, some, List, [], ◌∷◌, map}
use sarafu_core.Crypto.{Primitives}
use sarafu_core.Consensus.ValidatorSet.{find_validator, required_stake}
use sarafu_core.Consensus.Checkpoint.{
  Checkpoint, signed, serialize_contents, aggregate_signatures, collect_signatures,
  verify_checkpoint,
}
use sarafu_core.Consensus.Checkpoint.Signed.{Keyring, IsBls, signed_checkpoint_verifies}
use sarafu_core.Consensus.Tests.{toy, three}

abbrev total : List ℕ → ℕ
total [] = 0
total (x ∷ xs) = x + total xs

-- A signature is the key, and an aggregate the sum.
abbrev sums : Primitives
sums = record toy { aggregate = total; verify_aggregated = λ s message keys. s == total keys }

abbrev keyring : Keyring
keyring = record { sign = λ message key. key; public_of = λ key. key; secret_of = λ id. 100 + id }

same_total : (xs : List ℕ) → (total (map (λ x. x) xs) == total (map (λ x. x) xs)) ≡ true
same_total xs = ground arith

sums-IsBls : IsBls sums keyring
sums-IsBls = record {
  well_formed_sign = λ message key. refl;
  aggregate_verifies = λ message key keys. same_total (key ∷ keys);
}

abbrev checkpoint : Checkpoint
checkpoint = record {
  block_height = 7;
  block_hash = 70;
  epoch = 2;
  timestamp = 1000;
  state_root = 71;
  validator_set_root = 72;
  aggregated_signature = 0;
  signers = [];
  total_stake_signed = 0;
}

signed_checkpoint_verifies_example :
    (c' : Checkpoint) × (aggregate_signatures sums checkpoint ((1, 101) ∷ (2, 102) ∷ []) three
      ≡ signed c')
    × (serialize_contents c' ≡ serialize_contents checkpoint)
    × (verify_checkpoint sums c' three ≡ some true)
unfolding collect_signatures find_validator required_stake
signed_checkpoint_verifies_example =
    signed_checkpoint_verifies keyring sums checkpoint ((1, 101) ∷ (2, 102) ∷ []) three sums-IsBls
      (refl, (refl, (refl, tt))) (refl, (refl, tt)) (omega arith) (omega arith)
