-- ===== src/Consensus/Slashing/Tests.antt =====
-- A registry and two conflicting certificates, to which the theorems on slashing apply.
use sarafu_core.Base.{ℕ, ◌+◌, ◌≡◌, refl, arith, true, some, List, [], ◌∷◌}
use sarafu_core.Base.Map.{lookup}
use sarafu_core.Crypto.{bls_aggregate}
use sarafu_core.Consensus.Types.{Vote, QuorumCertificate, active, standby, tombstoned}
use sarafu_core.Consensus.ValidatorSet.{find_validator, required_stake}
use sarafu_core.Consensus.Votes.{
  aggregate_votes, add_vote, is_active_validator, get_validator_stake,
}
use sarafu_core.Consensus.Votes.Tally.{run, Call}
use sarafu_core.Consensus.Registry.{Registry}
use sarafu_core.Consensus.Registry.Stakes.{bonded}
use sarafu_core.Consensus.Registry.Tests.{registry}
use sarafu_core.Consensus.Slashing.{
  SlashingEvent, double_sign, surround_vote, new_event, detect_surround_vote, apply_slashing,
}
use sarafu_core.Consensus.Slashing.Detect.{Among, votes_of, double_signer_is_detected}
use sarafu_core.Consensus.Slashing.Apply.{leaves, apply_slashing_conserves}
use sarafu_core.Consensus.Tests.{toy, validator, three}

abbrev event : SlashingEvent
event = record (new_event 1 7 double_sign) { penalty_amount = 25 }

-- The third validator stands by, and is not paid.
abbrev mixed : Registry
mixed = record registry {
  current_set = record three {
    validators = validator 1 60 active ∷ validator 2 30 active ∷ validator 3 10 standby ∷ [];
    total_stake = 90;
  };
}

apply_slashing_conserves_example :
    let (r', supply', slashed) = apply_slashing mixed event 1000 in
    (slashed ≡ true)
    × (supply' ≡ 988)
    × (bonded r' + leaves 25 30 ≡ bonded mixed)
    × (lookup 1 r'.validators ≡ some (validator 1 35 tombstoned))
    × (lookup 3 r'.validators ≡ some (validator 3 10 tombstoned))
apply_slashing_conserves_example =
    apply_slashing_conserves mixed event 1000 (validator 1 60 active) 3
      (omega arith, (omega arith, (omega arith, tt))) (refl, (refl, (refl, tt))) (omega arith)
      (omega arith) refl (omega arith) (refl, (refl, (refl, tt))) refl

abbrev vote_for : ℕ → ℕ → Vote
vote_for id block = record {
  validator_id = id;
  block_height = 7;
  block_hash = block;
  view_number = 3;
  signature = id;
}

abbrev calls : ℕ → List Call
calls block = Call.adds (vote_for 1 block) ∷ Call.adds (vote_for 2 block) ∷ []

abbrev certificate : ℕ → QuorumCertificate
certificate block = record {
  block_height = 7;
  block_hash = block;
  view_number = 3;
  aggregated_signature = 3;
  signers = 1 ∷ 2 ∷ [];
  total_stake_signed = 90;
}

double_signer_is_detected_example :
    (v : Vote) × (w : Vote) × Among v (votes_of (calls 70))
    × Among w (votes_of (calls 71))
    × (detect_surround_vote v w ≡ some (new_event 2 7 surround_vote))
unfolding bls_aggregate aggregate_votes run add_vote is_active_validator get_validator_stake
    find_validator required_stake
double_signer_is_detected_example =
    double_signer_is_detected toy three three (calls 70) (calls 71) 7 70 71 3 3 (certificate 70)
      (certificate 71) 2 refl refl (λ e. absurd (omega (arith, e))) refl refl
