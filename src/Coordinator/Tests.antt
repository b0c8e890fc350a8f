-- ===== src/Coordinator/Tests.antt =====
-- coordinator.py with greedy actors on the sample network: a chain over two domains.

use orion_v.Prelude.{
  ℕ, ℤ, pos, ◌+ℤ◌, ◌-ℤ◌, ◌*ℤ◌, ◌≡◌, refl, ap, sym, ◌∙◌, subst, List, [], ◌∷◌, true, false, some,
  none, arith, All, inl, inr, Bool-cases, ◌==◌, ==_iff,
}
use orion_v.Prelude.Adjust.{adjust}
use orion_v.Prelude.Dict.{Dict, nat_eq, values}
use orion_v.Prelude.Fail.{Result, ok, err}
use orion_v.Types.{edge, central_cloud, FlowEdge}
use orion_v.Types.Mdo.{PlanFragment, DomainResponse, DomainSummary, PlanSummary}
use orion_v.Samples.{network, request, nx, summary}
use orion_v.ChainOrder.{mode, enabled, violates, is_contiguous, run_count}
use orion_v.Substrate.{SubstrateNetwork, nodes_in_domain}
use orion_v.Routing.{
  route_flow, route_cross_domain_flow, select, consider, score, walk, allocate_route_bw,
  deallocate_route_bw,
}
use orion_v.Greedy.{
  GreedyDomainActor, select_node, candidates, place_all, route_all, place_and_route, act,
}
use orion_v.Coordinator.{
  MdoCoordinator, dispatch_to_actors, snapshot_node_residuals, restore_node_residuals,
  route_cross_flows, gather_placements,
}
use orion_v.Coordinator.Fragments.{assign, split_flows, build_fragments}
use orion_v.Coordinator.Resolve.{
  MdoResult, connect_domains, attempt, judge, frame_check, rollback_attempt, resolve_partition,
}
use orion_v.Coordinator.Contract.{IsContained, AllContained, NoRepeat, Answered}
use orion_v.Coordinator.Cross.{HasEnds}
use orion_v.Coordinator.Unchanged.{PlacesEnds, resolve_partition-unchanged}
use orion_v.Coordinator.Greed.{act-Answered, greedy_actor, greedy_actor-IsContained}
use orion_v.Coordinator.Verdict.{Verdict}

program : Unit {0}
unfolding resolve_partition attempt connect_domains judge frame_check rollback_attempt
    build_fragments assign split_flows dispatch_to_actors snapshot_node_residuals
    restore_node_residuals route_cross_flows act place_and_route place_all route_all select_node
    candidates nodes_in_domain route_flow route_cross_domain_flow select consider score walk
    allocate_route_bw deallocate_route_bw violates enabled mode is_contiguous run_count adjust ◌+ℤ◌
    ◌-ℤ◌ ◌*ℤ◌
program = tt

abbrev greedy : ℕ → GreedyDomainActor
greedy d = record { domain_id = d; k_paths = 3 }

abbrev coordinator : MdoCoordinator
coordinator = record {
  domain_actors = (0, greedy_actor nx (greedy 0)) ∷ (1, greedy_actor nx (greedy 1)) ∷ [];
  config = record { max_inter_domain_hops = 3; gamma_inter = pos 1 };
}

abbrev plan : PlanSummary
plan = record {
  vnf_ids = 21 ∷ 22 ∷ [];
  required_tiers = edge ∷ central_cloud ∷ [];
  suggested_domains = 0 ∷ 1 ∷ [];
  cpu_demands = pos 4 ∷ pos 3 ∷ [];
  ram_demands = pos 2 ∷ pos 2 ∷ [];
  vcrs = pos 1 ∷ pos 1 ∷ [];
  bw_demands = pos 5 ∷ [];
}

abbrev summaries : List DomainSummary
summaries = summary 0 edge (pos 20) ∷ summary 1 central_cloud (pos 10) ∷ []

abbrev resolved : Result MdoResult × SubstrateNetwork
resolved = resolve_partition nx none false coordinator summaries plan request (0 ∷ 1 ∷ []) network

abbrev answer : ℕ → Dict ℕ ℕ → ℤ → DomainResponse
answer d placements cost = record {
  domain_id = d;
  feasible = true;
  placements = placements;
  routes = [];
  bw_allocated = [];
  intra_delay = pos 1;
  resource_cost = cost;
}

abbrev outcome : MdoResult
outcome = record {
  request_id = 7;
  admitted = true;
  partition = some (0 ∷ 1 ∷ []);
  domain_responses =
      (0, answer 0 ((21, 1) ∷ []) (pos 6)) ∷ (1, answer 1 ((22, 3) ∷ []) (pos 5)) ∷ [];
  cross_domain_routes = ((21, 22), 12 ∷ 13 ∷ []) ∷ [];
  cross_domain_bw = ((21, 22), pos 5) ∷ [];
  e2e_delay = pos 7;
  total_cost = pos 16;
  violation = none;
}

resolved_ok : resolved ≡ (ok outcome, network)
unfolding program
resolved_ok = refl

laws : AllContained coordinator.domain_actors
laws d actor h = elim (Bool-cases (d == 0)) [
  | inl first ↦
      let e : actor ≡ greedy_actor nx (greedy 0) = ground arith in
      let e' : d ≡ 0 = (==_iff d 0).0 first in
      subst (λ a. IsContained d a) (sym e)
        (subst (λ k. IsContained k (greedy_actor nx (greedy 0))) (sym e')
          (greedy_actor-IsContained nx (greedy 0)))
  | inr next ↦ elim (Bool-cases (d == 1)) [
    | inl second ↦
        let e : actor ≡ greedy_actor nx (greedy 1) = ground arith in
        let e' : d ≡ 1 = (==_iff d 1).0 second in
        subst (λ a. IsContained d a) (sym e)
          (subst (λ k. IsContained k (greedy_actor nx (greedy 1))) (sym e')
            (greedy_actor-IsContained nx (greedy 1)))
    | inr neither ↦ absurd (ground arith)
  ]
]

abbrev built_of : Result (Dict ℕ PlanFragment × List FlowEdge) → Dict ℕ PlanFragment × List FlowEdge
built_of (ok x) = x
built_of (err x) = ([], [])

abbrev responses_of : Result (Dict ℕ DomainResponse) × SubstrateNetwork → Dict ℕ DomainResponse
responses_of (ok x, s) = x
responses_of (err x, s) = []

abbrev built : Dict ℕ PlanFragment × List FlowEdge
built = built_of (build_fragments plan (0 ∷ 1 ∷ []) request)

abbrev answers : Dict ℕ PlanFragment → Dict ℕ DomainResponse
answers fragments = responses_of (dispatch_to_actors coordinator.domain_actors fragments [] network)

answers_place : All (HasEnds (gather_placements [] (values (answers built.0)))) built.1
unfolding program
answers_place = ((1, 3, refl, refl), tt)

ends : PlacesEnds coordinator plan (0 ∷ 1 ∷ []) request network
ends fragments flows responses s1 made sent feasible =
    let pair : built ≡ (fragments, flows) = ap built_of made in
    let same : answers built.0 ≡ responses = ap (λ x. answers x.0) pair ∙ ap responses_of sent in
    subst (λ r. All (HasEnds (gather_placements [] (values r))) flows) same
      (subst (λ x. All (HasEnds (gather_placements [] (values (answers built.0)))) x.1) pair
        answers_place)

resolve_partition-unchanged_example : network ≡ network
resolve_partition-unchanged_example =
    resolve_partition-unchanged nx none false coordinator summaries plan request (0 ∷ 1 ∷ [])
      network laws (tt, tt) ends outcome network resolved_ok

abbrev first_fragment : Dict ℕ PlanFragment → PlanFragment
first_fragment ((d, f) ∷ fs) = f
first_fragment [] = record {
  domain_id = 0;
  vnf_assignments = [];
  intra_flows = [];
  delay_budget_ms = pos 0;
  target_domain_ids = [];
}

abbrev placed_network : SubstrateNetwork
placed_network = (act nx (greedy 0) (first_fragment built.0) network).1

first_act :
    act nx (greedy 0) (first_fragment built.0) network
    ≡ (ok (answer 0 ((21, 1) ∷ []) (pos 6)), placed_network)
unfolding program
first_act = refl

first_flows : NoRepeat (first_fragment built.0).intra_flows
unfolding program
first_flows = tt

act-Answered_example : Answered 0 (answer 0 ((21, 1) ∷ []) (pos 6)) network placed_network
act-Answered_example =
    act-Answered nx (greedy 0) (first_fragment built.0) network placed_network
      (answer 0 ((21, 1) ∷ []) (pos 6)) first_flows first_act
