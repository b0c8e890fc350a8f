-- ===== src/Greedy/Tests.antt =====
-- greedy_domain_actor.py on domain 0 of the sample network.
use mathlib.Core.List.{Memᴰ}
use orion_v.Prelude.{
  ℤ, pos, ◌+ℤ◌, ◌-ℤ◌, ◌*ℤ◌, ◌≡◌, refl, List, [], ◌∷◌, true, false, some, arith, All,
}
use orion_v.Prelude.Adjust.{adjust}
use orion_v.Prelude.Dict.{get, nat_eq}
use orion_v.Prelude.Fail.{ok}
use orion_v.Types.{Ident, edge}
use orion_v.Types.Mdo.{VnfAssignment, PlanFragment, DomainResponse, bare_response}
use orion_v.Samples.{network, graph, nx}
use orion_v.Substrate.{SubstrateNetwork, nodes_in_domain}
use orion_v.Routing.{
  route_flow, select, consider, score, walk, allocate_route_bw, deallocate_route_bw,
}
use orion_v.Greedy.{
  GreedyDomainActor, select_node, candidates, place_all, route_all, place_and_route, act,
}
use orion_v.Greedy.Choice.{Choice, select_node-Choice}
use orion_v.Greedy.Rollback.{act-infeasible}
use orion_v.Greedy.Seating.{NodesFit}
use orion_v.Greedy.Safety.{act-NodesFit, act-placements}

program : Unit {0}
unfolding act place_and_route place_all route_all select_node candidates nodes_in_domain route_flow
    select consider score walk allocate_route_bw deallocate_route_bw adjust ◌+ℤ◌ ◌-ℤ◌ ◌*ℤ◌
program = tt

abbrev assignment : Ident → ℤ → VnfAssignment
assignment v cpu = record {
  vnf_id = v;
  vnf_type = 0;
  cpu_demand = cpu;
  ram_demand = pos 2;
  required_tier = edge;
  computational_intensity = pos 1;
  vcr = pos 1;
  bandwidth_in = pos 5;
  permitted_nodes = [];
  position_in_sfc = 0;
  sfc_length = 2;
  adjacent_domain_ids = [];
}

abbrev fragment : List VnfAssignment → PlanFragment
fragment vs = record {
  domain_id = 0;
  vnf_assignments = vs;
  intra_flows = record { source_vnf = 21; target_vnf = 22; bandwidth_demand = pos 5 } ∷ [];
  delay_budget_ms = pos 40;
  target_domain_ids = [];
}

abbrev actor : GreedyDomainActor
actor = record { domain_id = 0; k_paths = 3 }

-- The two VNFs do not fit on one node.
abbrev fits : PlanFragment
fits = fragment (assignment 21 (pos 7) ∷ assignment 22 (pos 6) ∷ [])

-- The third VNF finds no node with room.
abbrev too_much : PlanFragment
too_much = fragment (assignment 21 (pos 7) ∷ assignment 22 (pos 6) ∷ assignment 23 (pos 5) ∷ [])

abbrev answer : DomainResponse
answer = bare_response 0 false

act-too_much : act nx actor too_much network ≡ (ok answer, network)
unfolding program
act-too_much = refl

act-infeasible_example : network ≡ network
act-infeasible_example = act-infeasible nx actor too_much network network answer act-too_much refl

network-NodesFit : NodesFit graph
network-NodesFit n x h = ground arith

abbrev answer_fits : DomainResponse
answer_fits = record {
  domain_id = 0;
  feasible = true;
  placements = (21, 1) ∷ (22, 2) ∷ [];
  routes = ((21, 22), 12 ∷ []) ∷ [];
  bw_allocated = ((21, 22), pos 5) ∷ [];
  intra_delay = pos 4;
  resource_cost = pos 17;
}

abbrev network_after : SubstrateNetwork
network_after = (act nx actor fits network).1

act-fits : act nx actor fits network ≡ (ok answer_fits, network_after)
unfolding program
act-fits = refl

act-NodesFit_example : NodesFit network_after.graph
act-NodesFit_example =
    act-NodesFit nx actor fits network network_after answer_fits act-fits network-NodesFit

act-placements_example :
    All
      (λ v.
        (n : Ident) × (get v.vnf_id answer_fits.placements ≡ some n)
        × Memᴰ n (nodes_in_domain network 0))
      fits.vnf_assignments
act-placements_example =
    act-placements nx actor fits network network_after answer_fits act-fits refl

selection : select_node graph (assignment 21 (pos 7)) (1 ∷ 2 ∷ []) ≡ ok (some 1)
unfolding program
selection = refl

select_node-Choice_example : Choice graph (assignment 21 (pos 7)) (1 ∷ 2 ∷ []) (some 1)
select_node-Choice_example =
    select_node-Choice graph (assignment 21 (pos 7)) (1 ∷ 2 ∷ []) (some 1) selection
