-- ===== src/Sim.antt =====
-- sim/reward.py, sim/rollout_buffer.py and sim/arrival_process.py: what an episode is made of.
pub mod Rollout
pub mod Arrivals
use orion_v.Prelude.{ℤ, pos, neg_ℤ, Bool, Option, none, some, ◌+ℤ◌, if◌then◌else◌}
use orion_v.Types.Mdo.{RewardComponents, total}
use orion_v.Verifier.{GroundTruthVerdict, hard_penalty_fired}

pub record RewardWeights : Type 0 where
  pub mu : ℤ
  pub alpha : ℤ
  pub lambda_viol : ℤ
  pub eta : ℤ

abbrev pub hard_penalty_of : RewardWeights → Option GroundTruthVerdict → ℤ
hard_penalty_of w none = pos 0
hard_penalty_of w (some v) = if hard_penalty_fired v then neg_ℤ w.lambda_viol else pos 0

unfoldable pub finalize_reward :
    RewardComponents → Bool → Option GroundTruthVerdict → RewardWeights → ℤ × RewardComponents
unfolding hard_penalty_fired
finalize_reward mdo_components admitted verdict w =
    let finalised : RewardComponents = record {
      admission = if admitted then mdo_components.admission else pos 0;
      efficiency = if admitted then mdo_components.efficiency else pos 0;
      hard_penalty = hard_penalty_of w verdict;
      quality_shaping = if admitted then mdo_components.quality_shaping else pos 0;
    } in
    (total finalised, finalised)
