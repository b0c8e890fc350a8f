-- ===== src/Sim/Rollout.antt =====
-- sim/rollout_buffer.py: the transitions of an episode, without their tensors.
use orion_v.Prelude.{ℕ, ◌+◌, ℤ, List, [], ◌∷◌, ◌++◌, Bool, length}
use orion_v.Prelude.Dict.{Dict, nat_eq, get_or, put, values}
use orion_v.Types.{Ident}

pub record MdoTransition : Type 0 where
  pub request_id : Ident
  pub trial_index : ℕ
  pub action : List ℕ
  pub terminal_reward : ℤ
  pub committed : Bool
  pub e2e_delay : ℤ
  pub cost : ℤ
  pub suggested : List ℕ

pub record DomainActorTransition : Type 0 where
  pub request_id : Ident
  pub trial_index : ℕ
  pub domain_id : ℕ
  pub accepted : Bool
  pub intra_delay : ℤ
  pub resource_cost : ℤ
  pub terminal_reward : ℤ

pub record MultiAgentRollout : Type 0 where
  pub mdo : List MdoTransition
  pub domain_actor : Dict ℕ (List DomainActorTransition)

abbrev pub empty_rollout : MultiAgentRollout
empty_rollout = record { mdo = []; domain_actor = [] }

unfoldable pub append_mdo : MdoTransition → MultiAgentRollout → MultiAgentRollout
append_mdo t r = record r { mdo = r.mdo ++ t ∷ [] }

unfoldable pub append_domain_actor : DomainActorTransition → MultiAgentRollout → MultiAgentRollout
append_domain_actor t r = record r {
  domain_actor = put t.domain_id (get_or t.domain_id [] r.domain_actor ++ t ∷ []) r.domain_actor;
}

unfoldable pub clear : MultiAgentRollout → MultiAgentRollout
clear r = empty_rollout

pub num_mdo_transitions : MultiAgentRollout → ℕ
num_mdo_transitions r = length r.mdo

abbrev sum_lengths : List (List DomainActorTransition) → ℕ
sum_lengths [] = 0
sum_lengths (ts ∷ rest) = length ts + sum_lengths rest

pub num_domain_actor_transitions : MultiAgentRollout → ℕ
num_domain_actor_transitions r = sum_lengths (values r.domain_actor)
