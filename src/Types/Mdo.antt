-- ===== src/Types/Mdo.antt =====
-- actors/types.py and mdo/types.py: what the coordinator and the domain actors exchange. The
-- tensors of the learning side (log-probabilities, step records) are no part of the model.
use orion_v.Prelude.{ℕ, ℤ, pos, ◌+ℤ◌, List, [], Bool, true, ◌||◌, length, ◌==◌}
use orion_v.Prelude.Dict.{Dict}
use orion_v.Types.{Ident, FlowKey, InfrastructureTier, FlowEdge}

pub record VnfAssignment : Type 0 where
  pub vnf_id : Ident
  pub vnf_type : Ident
  pub cpu_demand : ℤ
  pub ram_demand : ℤ
  pub required_tier : InfrastructureTier
  pub computational_intensity : ℤ
  pub vcr : ℤ
  pub bandwidth_in : ℤ
  pub permitted_nodes : List Ident
  pub position_in_sfc : ℕ
  pub sfc_length : ℕ
  pub adjacent_domain_ids : List ℕ

pub record PlanFragment : Type 0 where
  pub domain_id : ℕ
  pub vnf_assignments : List VnfAssignment
  pub intra_flows : List FlowEdge
  pub delay_budget_ms : ℤ
  pub target_domain_ids : List ℕ

abbrev pub is_empty : PlanFragment → Bool
is_empty f = length f.vnf_assignments == 0

pub record DomainResponse : Type 0 where
  pub domain_id : ℕ
  pub feasible : Bool
  pub placements : Dict Ident Ident
  pub routes : Dict FlowKey (List Ident)
  pub bw_allocated : Dict FlowKey ℤ
  pub intra_delay : ℤ
  pub resource_cost : ℤ

-- `DomainResponse(domain_id=d, feasible=z)`: the other fields at their defaults.
abbrev pub bare_response : ℕ → Bool → DomainResponse
bare_response d z = record {
  domain_id = d;
  feasible = z;
  placements = [];
  routes = [];
  bw_allocated = [];
  intra_delay = pos 0;
  resource_cost = pos 0;
}

-- `DomainResponse.empty`
abbrev pub empty_response : ℕ → DomainResponse
empty_response d = bare_response d true

pub record DomainSummary : Type 0 where
  pub domain_id : ℕ
  pub dominant_tier : InfrastructureTier
  pub cpu_residual : ℤ
  pub ram_residual : ℤ
  pub cpu_capacity : ℤ
  pub ram_capacity : ℤ
  pub supported_tiers : List InfrastructureTier
  pub active_slice_count : ℕ
  pub tier_cpu_residual : InfrastructureTier → ℤ
  pub tier_ram_residual : InfrastructureTier → ℤ
  pub tier_max_node_cpu : InfrastructureTier → ℤ
  pub tier_max_node_ram : InfrastructureTier → ℤ

pub record InterDomainLink : Type 0 where
  pub source_domain : ℕ
  pub target_domain : ℕ
  pub bw_residual : ℤ
  pub bw_capacity : ℤ
  pub propagation_delay : ℤ

pub record PlanSummary : Type 0 where
  pub vnf_ids : List Ident
  pub required_tiers : List InfrastructureTier
  pub suggested_domains : List ℕ
  pub cpu_demands : List ℤ
  pub ram_demands : List ℤ
  pub vcrs : List ℤ
  pub bw_demands : List ℤ

abbrev pub num_vnfs : PlanSummary → ℕ
num_vnfs p = length p.vnf_ids

pub record ViolationInfo : Type 0 where
  pub c5b_violated : Bool
  pub c7_violated : Bool
  pub c9_violated : Bool
  pub actor_infeasible : Bool
  pub cross_domain_infeasible : Bool
  pub chain_order_violated : Bool
  pub e2e_delay : ℤ
  pub e2e_budget : ℤ
  pub total_bw : ℤ
  pub min_bw : ℤ
  pub inter_domain_hops : ℕ
  pub max_inter_domain_hops : ℕ

abbrev pub has_violation : ViolationInfo → Bool
has_violation v =
    v.c5b_violated || v.c7_violated || v.c9_violated || v.actor_infeasible
    || v.cross_domain_infeasible || v.chain_order_violated

pub record RewardComponents : Type 0 where
  pub admission : ℤ
  pub efficiency : ℤ
  pub hard_penalty : ℤ
  pub quality_shaping : ℤ

-- `RewardComponents.total`
abbrev pub total : RewardComponents → ℤ
total r = r.admission +ℤ r.efficiency +ℤ r.hard_penalty +ℤ r.quality_shaping
