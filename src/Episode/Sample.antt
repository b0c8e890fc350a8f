-- ===== src/Episode/Sample.antt =====
-- A sample episode on the sample network, with the modelled coordinator and greedy actors: two slices
-- that are admitted and depart, and one whose delay is over its bound.
use orion_v.Prelude.{
  All, subst, sym, inl, inr, Bool-cases, ==_iff, ℕ, ℤ, pos, ◌+ℤ◌, ◌-ℤ◌, ◌*ℤ◌, ◌≡◌, refl, [], ◌∷◌,
  true, none, arith, ◌==◌, if◌then◌else◌,
}
use orion_v.Prelude.Adjust.{adjust}
use orion_v.Prelude.Dict.{nat_eq}
use orion_v.Prelude.Fail.{ok, Result}
use orion_v.Prelude.Fraction.{◌+ᶠ◌, lt_fraction}
use orion_v.Types.{edge, central_cloud, Ident, SliceRequest}
use orion_v.Samples.{network, request, nx, summary}
use orion_v.Substrate.{allocate, deallocate, reset}
use orion_v.Substrate.Balance.{IsBalanced, reset-IsBalanced}
use orion_v.Delay.{mm1_sojourn, node_sojourn, link_sojourn, exceeds}
use orion_v.Verifier.{
  hard_penalty_fired, check_node_capacities, check_link_capacities, node_delays, path_delays,
  flow_delays, compute_ground_truth_e2e, flow_ratios, worst_ratio_of, check_c5b, path_hops,
  count_link_hops, verify_committed_plan,
}
use orion_v.Ffd.{
  required_tier, candidates, select_node, place_all, debit_all, shortest_bw_feasible_path,
  route_one, route_all, run_greedy_ffd, compute_cost_greedy,
}
use orion_v.Sim.{finalize_reward}
use orion_v.Sim.Rollout.{append_mdo, append_domain_actor, empty_rollout}
use orion_v.Sim.Arrivals.{events_from, generate, has_next, next_event, num_remaining}
use orion_v.Episode.{
  add_placements, add_routes, add_responses, build_placement_plan, infer_required_tier,
  domain_of_tier, seats_for, default_plan_builder,
}
use orion_v.Episode.Runner.{
  Episode, no_stats, update_stats, append_rollout, handle_departure, Setup, allocate_and_verify,
  realise, record_outcome, settle, decide, handle_arrival, handle_event, event_loop, run_episode,
}
use orion_v.ChainOrder.{mode, enabled, violates, is_contiguous, run_count}
use orion_v.Routing.{
  route_flow, route_cross_domain_flow, consider, score, walk, allocate_route_bw,
  deallocate_route_bw,
}
use orion_v.Routing
use orion_v.Greedy.{GreedyDomainActor, place_and_route, act}
use orion_v.Greedy
use orion_v.Coordinator.{
  dispatch_to_actors, snapshot_node_residuals, restore_node_residuals, route_cross_flows,
}
use orion_v.Coordinator.Fragments.{assign, split_flows, build_fragments}
use orion_v.Coordinator.Resolve.{
  connect_domains, attempt, judge, frame_check, rollback_attempt, resolve_partition,
}
use orion_v.Coordinator.Contract.{IsContained, AllContained}
use orion_v.Coordinator.Greed.{greedy_actor, greedy_actor-IsContained}
use orion_v.Coordinator.Placed.{IsPlacer, AllPlace, greedy_actor-IsPlacer}
use orion_v.Substrate.{nodes_in_domain}
use orion_v.Episode.Coordinated.{Coordination, coordinated, resolve_arrival}
use orion_v.Episode.Run.{IsClean}

unfoldable pub program : Unit {0}
unfolding run_episode event_loop handle_event handle_arrival decide settle record_outcome realise
    allocate_and_verify handle_departure append_rollout update_stats default_plan_builder seats_for
    domain_of_tier infer_required_tier build_placement_plan add_responses add_routes add_placements
    num_remaining next_event has_next generate events_from append_mdo append_domain_actor
    finalize_reward compute_cost_greedy run_greedy_ffd route_all route_one shortest_bw_feasible_path
    debit_all place_all select_node candidates required_tier verify_committed_plan count_link_hops
    path_hops check_c5b worst_ratio_of flow_ratios compute_ground_truth_e2e flow_delays path_delays
    node_delays check_link_capacities check_node_capacities hard_penalty_fired exceeds link_sojourn
    node_sojourn mm1_sojourn ◌+ᶠ◌ lt_fraction allocate deallocate reset adjust ◌+ℤ◌ ◌-ℤ◌ ◌*ℤ◌
    resolve_partition attempt connect_domains judge frame_check rollback_attempt build_fragments
    assign split_flows dispatch_to_actors snapshot_node_residuals restore_node_residuals
    route_cross_flows act place_and_route Greedy.place_all Greedy.route_all Greedy.select_node
    Greedy.candidates nodes_in_domain route_flow route_cross_domain_flow Routing.select consider
    score walk allocate_route_bw deallocate_route_bw violates enabled mode is_contiguous run_count
program = tt

-- Two greedy actors, and the partition that the policy always decides on.
abbrev greedy : ℕ → GreedyDomainActor
greedy d = record { domain_id = d; k_paths = 3 }

abbrev pub coordination : Coordination
coordination = record {
  nx = nx;
  env = none;
  node_based = true;
  coordinator = record {
    domain_actors = (0, greedy_actor nx (greedy 0)) ∷ (1, greedy_actor nx (greedy 1)) ∷ [];
    config = record { max_inter_domain_hops = 3; gamma_inter = pos 1 };
  };
  summaries = λ req plan s. summary 0 edge (pos 20) ∷ summary 1 central_cloud (pos 10) ∷ [];
  partition = λ req plan s. 0 ∷ 1 ∷ [];
  decision = λ r. none;
  reward = λ r. record {
    admission = pos 100;
    efficiency = pos 0;
    hard_penalty = pos 0;
    quality_shaping = pos 0;
  };
}

abbrev pub setup : Setup
setup = record {
  plan_builder = default_plan_builder;
  resolve_arrival = resolve_arrival coordination;
  shortest_path = λ passes g u v. none;
  greedy = record { alpha = pos 1; gamma_intra = pos 1; gamma_inter = pos 1 };
  scale = record { one_intensity = pos 1; one_over = pos 1 };
  max_inter_domain_hops = 3;
  reward_weights = record { mu = pos 100; alpha = pos 1; lambda_viol = pos 10; eta = pos 1 };
}

pub actors-AllContained : AllContained coordination.coordinator.domain_actors
actors-AllContained d actor h = elim (Bool-cases (d == 0)) [
  | inl first ↦
      let e : actor ≡ greedy_actor nx (greedy 0) = ground arith in
      let e' : d ≡ 0 = (==_iff d 0).0 first in
      subst (λ a. IsContained d a) (sym e)
        (subst (λ k. IsContained k (greedy_actor nx (greedy 0))) (sym e')
          (greedy_actor-IsContained nx (greedy 0)))
  | inr next ↦ elim (Bool-cases (d == 1)) [
    | inl second ↦
        let e : actor ≡ greedy_actor nx (greedy 1) = ground arith in
        let e' : d ≡ 1 = (==_iff d 1).0 second in
        subst (λ a. IsContained d a) (sym e)
          (subst (λ k. IsContained k (greedy_actor nx (greedy 1))) (sym e')
            (greedy_actor-IsContained nx (greedy 1)))
    | inr neither ↦ absurd (ground arith)
  ]
]

pub actors-AllPlace : AllPlace coordination.coordinator.domain_actors
actors-AllPlace d actor h = elim (Bool-cases (d == 0)) [
  | inl first ↦
      let e : actor ≡ greedy_actor nx (greedy 0) = ground arith in
      subst IsPlacer (sym e) (greedy_actor-IsPlacer nx (greedy 0))
  | inr next ↦ elim (Bool-cases (d == 1)) [
    | inl second ↦
        let e : actor ≡ greedy_actor nx (greedy 1) = ground arith in
        subst IsPlacer (sym e) (greedy_actor-IsPlacer nx (greedy 1))
    | inr neither ↦ absurd (ground arith)
  ]
]

-- The third request allows a delay of 2.
abbrev slice : Ident → ℤ → ℤ → SliceRequest
slice i t lifetime = record request {
  request_id = i;
  qos = record { max_e2e_delay = if i == 2 then pos 2 else pos 40; min_throughput = pos 5 };
  arrival_time = t;
  lifetime = lifetime;
}

abbrev pub start : Episode
start = record {
  substrate = network;
  arrivals = generate slice (pos 0) ((pos 1, pos 2) ∷ (pos 3, pos 99) ∷ (pos 1, pos 1) ∷ []);
  active_plans = [];
  active_requests = [];
  stats = no_stats;
  rollout = empty_rollout;
  mdo_results = [];
}

abbrev pub ended : Result (Unit {0}) × Episode
ended = run_episode (coordinated setup coordination) start

pub run-start : ended ≡ (ok tt, ended.1)
unfolding program
run-start = refl

pub network-IsBalanced : IsBalanced network
unfolding reset
network-IsBalanced = reset-IsBalanced network

pub starts_at_zero : start.arrivals.event_idx ≡ 0
unfolding generate
starts_at_zero = refl

pub start-IsClean : All IsClean start.arrivals.events
unfolding program
start-IsClean = ((tt, tt), (tt, ((tt, tt), ((tt, tt), (tt, (tt, tt))))))
