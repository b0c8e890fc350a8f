-- ===== src/Ffd/Tests.antt =====
-- greedy_ffd.py on the sample network, where a path is a direct link.
use orion_v.Prelude.{
  pos, ◌+ℤ◌, ◌-ℤ◌, ◌*ℤ◌, ◌≡◌, refl, [], ◌∷◌, List, Bool, true, false, Option, none, some, arith,
  ◌&&◌, not, ◌==◌, if◌then◌else◌, Option-cases, Bool-cases, inl, inr,
}
use orion_v.Prelude.Adjust.{adjust}
use orion_v.Prelude.Fail.{ok}
use orion_v.Types.{Ident, Link, PlacementPlan}
use orion_v.Samples.{network, graph, request}
use orion_v.Substrate.{Graph, SubstrateNetwork, find_edge, allocate}
use orion_v.Ffd.{
  GreedyConfig, GreedyResult, no_failure, required_tier, candidates, select_node, place_all,
  debit_all, shortest_bw_feasible_path, route_one, route_all, run_greedy_ffd, compute_cost_greedy,
  greedy_place_on_substrate,
}
use orion_v.Ffd.Links.{IsSimple}
use orion_v.Ffd.Paths.{IsPathFinder}
use orion_v.Ffd.Safety.{NothingOver, greedy_place_on_substrate-NothingOver}

program : Unit {0}
unfolding greedy_place_on_substrate run_greedy_ffd compute_cost_greedy place_all select_node
    candidates required_tier route_all route_one shortest_bw_feasible_path debit_all allocate adjust
    ◌+ℤ◌ ◌-ℤ◌ ◌*ℤ◌
program = tt

abbrev direct : (Link → Bool) → Graph → Ident → Ident → Option (List Ident)
direct passes g u v = elim (find_edge g u v) [
  | none ↦ none
  | some l ↦ if passes l && not (u == v) then some (u ∷ v ∷ []) else none
]

direct-IsPathFinder : IsPathFinder direct
direct-IsPathFinder passes g u v path h = elim (Option-cases (find_edge g u v)) [
  | inl e ↦ absurd (ground arith)
  | inr (l, e) ↦ elim (Bool-cases (passes l && not (u == v))) [
    | inr no_path ↦ absurd (ground arith)
    | inl found ↦
        let here : u ∷ v ∷ [] ≡ path = ground arith in
        rw (← here) (((l, e, ground arith), tt), ((ground arith, tt), (tt, tt)))
  ]
]

abbrev config : GreedyConfig
config = record { alpha = pos 1; gamma_intra = pos 1; gamma_inter = pos 1 }

graph-IsSimple : IsSimple graph
graph-IsSimple = record { by_ends = λ u v l h. ground arith; by_id = λ id l h. ground arith }

network-NothingOver : NothingOver network
network-NothingOver = record { nodes = λ id x h. ground arith; links = λ id x h. ground arith }

abbrev seated : PlacementPlan
seated = record {
  plan_id = (7, "greedy");
  vnf_placements = (21, 1) ∷ (22, 2) ∷ [];
  cpu_allocations = (21, pos 4) ∷ (22, pos 3) ∷ [];
  ram_allocations = (21, pos 2) ∷ (22, pos 2) ∷ [];
  flow_routes = ((21, 22), 12 ∷ []) ∷ [];
  bw_allocations = ((21, 22), (12, pos 5) ∷ []) ∷ [];
  is_structurally_valid = true;
  origin = "greedy";
}

abbrev result : GreedyResult
result = record {
  feasible = true;
  cost = some (pos 16);
  plan = some seated;
  intra_bw = pos 0;
  inter_bw = pos 5;
  resource_cost = pos 11;
  fail_reason = no_failure;
}

run-request : run_greedy_ffd direct network request config ≡ ok result
unfolding program
run-request = refl

cost-request : compute_cost_greedy direct network request config ≡ ok (some (pos 16))
unfolding program
cost-request = refl

greedy_place_on_substrate-NothingOver_example :
    (s' : SubstrateNetwork) × (greedy_place_on_substrate direct request config network
      ≡ (ok result, s'))
    × NothingOver s'
    × (result.feasible ≡ false → s' ≡ network)
greedy_place_on_substrate-NothingOver_example =
    greedy_place_on_substrate-NothingOver direct direct-IsPathFinder request config network
      graph-IsSimple ((refl, tt), (tt, tt)) (tt, tt) refl network-NothingOver result run-request
