-- ===== src/Lib.antt =====
-- ORION: a multi-domain orchestrator that admits network slices. A request is a chain of VNFs with
-- flows between them. A planner and a policy propose for each VNF a domain; the coordinator splits the
-- chain into fragments, the domain actors place and route their fragments on the substrate network, the
-- coordinator routes the flows between domains, judges the outcome, and takes every provisional charge
-- back; an admitted plan is then allocated for good on the network, and deallocated at departure.
--
-- The files, and the code they are about (paths from the repository's root):
-- - Types, Types/Mdo: src/orion/types.py, src/orion/actors/types.py, src/orion/mdo/types.py. The
--   dataclasses as records, the enums as data types.
-- - Substrate: src/orion/substrate/graph_model.py. SubstrateNetwork is a record of the graph (its nodes
--   and directed edges with their residuals) and the registry of active slices; allocate, deallocate and
--   reset are state transformers with the code's KeyError and ValueError.
-- - Routing: src/orion/actors/routing.py. RoutingSelector.score, route_flow, route_cross_domain_flow,
--   allocate_route_bw, deallocate_route_bw. `walk` is the scan of one path, `consider` the loop's body.
-- - ChainOrder: src/orion/mdo/chain_order.py. The variable of the environment is an argument.
-- - Precommit: src/orion/mdo/precommit_check.py, every function.
-- - Admissibility: src/orion/mdo/admissibility.py. minimal_committable_partition and, in
--   Admissibility/Reseat, repair_partition, with the guard's counters passed as state;
--   EXACT_REPAIR_BUDGET is the argument `budget`. `none` stands for the return of the input itself.
-- - Greedy: src/orion/actors/greedy_domain_actor.py. GreedyDomainActor.act as two loops (place_all,
--   route_all) with the rollback of each failure; `_select_node` is select_node.
-- - Plans: src/orion/llm/plan_cache.py. The signature of a request, AbstractPlan, instantiate_plan and
--   revalidate_plan; Plans/Cache has PlanCache (get is get_plan, put is put_plan, _touch is touch, the
--   loop of _enforce_size_invariant is evict), for any type of keys and plans.
-- - Coordinator: src/orion/mdo/coordinator.py. Coordinator/Fragments has _build_fragments, Coordinator
--   the dispatch, the snapshot and the routing between domains, and Coordinator/Resolve has
--   resolve_arrival from the partition on (resolve_partition). Domain actors are a record with the
--   operation act; Coordinator/Contract states what the coordinator relies on of them, and
--   Coordinator/Greed and Coordinator/Placed have the greedy actor as one of them.
-- - Delay: src/orion/sim/delay_model.py. A delay is a fraction or infinite.
-- - Verifier: src/orion/sim/verifier.py, every function; Verifier/Verdict says what a verdict stands for.
-- - Ffd: src/orion/baselines/greedy_ffd.py. _run_greedy_ffd is run_greedy_ffd, with the loops place_all
--   and route_all over the running residuals (PlacementState); the plan is allocated by
--   greedy_place_on_substrate.
-- - Sim: src/orion/sim/reward.py; Sim/Rollout: src/orion/sim/rollout_buffer.py; Sim/Arrivals:
--   src/orion/sim/arrival_process.py, the draws of the random generator being a list.
-- - Episode: src/orion/sim/episode_runner.py, build_placement_plan and _default_plan_builder;
--   Episode/Runner has EpisodeRunner with the state of an episode: the network, the event stream, the
--   two registers of active slices, the counters, the rollout and the results. The coordinator's
--   resolve_arrival and the plan builder are fields of Setup; IsCareful in Episode/Books says what the
--   loop needs of the coordinator, and Episode/Coordinated shows it of resolve_partition, where what the
--   policy decides is an argument. A departure calls Substrate.deallocate, an arrival the plan builder,
--   Ffd.compute_cost_greedy, the coordinator, Substrate.allocate and the verifier.
-- - Acceptance: src/orion/sim/acceptance.py, the report of an episode.
-- - Structural: src/orion/llm/structural_checker.py. Structural has the breadth-first search
--   domains_reachable, Structural/Data the dicts of a plan as records, Structural/Plan check_plan.
-- - Oracle: src/orion/sim/partition_oracle.py. Oracle has feasible_partitions, of an argument `view` that
--   stands for _PartitionView, and Oracle/Delays predicted_e2e and best_feasible_partition;
--   MAX_PARTITIONS is an argument.
-- - Monitor: src/orion/monitor/page_hinkley.py and src/orion/monitor/strategy_monitor.py; update is
--   accumulate and then drifts.
-- - Prelude: numbers, lists, dicts, errors, sorting and their lemmas. Samples: a network for the tests.
--
-- How values are represented. Identifiers are texts that the code compares and sorts: they are numbers.
-- Amounts are exact integers of a unit, so the rounding of floats is not modelled; where the code has a
-- constant, the unit is the constant's (ms, Mbps). A dict is an association list in insertion order. A
-- set of domains is walked in increasing order. An exception ends a run with an error and the state
-- reached so far.
--
-- Loops are structural recursions over lists, but for two that run on fuel: the event loop of an
-- episode, with the number of events that remain, and the search over domains, with one round more than
-- there are neighbours listed. The searches of the exact repair and of the oracle are bounded by the
-- code's own tests of the size of the search space.
--
-- networkx and math.log are parameters (Routing.Networkx): the subgraph of a domain, whether a path
-- exists, the simple paths in order of delay, and the logarithm. Nothing is assumed of them. Ffd takes
-- networkx.shortest_path as a parameter, of which IsPathFinder in Ffd/Paths asks that the path it gives
-- uses links that pass the filter and meets no node twice; `none` stands for its NetworkXNoPath and
-- NodeNotFound. The handlers of NetworkXNoPath in routing.py are not modelled, since a path has been
-- found to exist before.
--
-- Not modelled: the neural policies, observations and training (numeric code over torch), the agents
-- that call language models and their retrieval, the random generators of topologies and slices, the
-- environment, the load levels and the QoS gate, the co-locating baseline, the reward's efficiency (a
-- ratio of floats), the condition part of the cache key (rounded fractions), the texts and files of the
-- graph, scripts.
pub mod Prelude
pub mod Types
pub mod Substrate
pub mod Routing
pub mod ChainOrder
pub mod Precommit
pub mod Admissibility
pub mod Greedy
pub mod Plans
pub mod Coordinator
pub mod Delay
pub mod Verifier
pub mod Ffd
pub mod Sim
pub mod Episode
pub mod Acceptance
pub mod Structural
pub mod Oracle
pub mod Monitor
mod Samples
