-- ===== src/Ffd.antt =====
-- baselines/greedy_ffd.py: the tier-aware first-fit-decreasing baseline. `nx.shortest_path` on the
-- filtered view of the graph is the parameter `shortest_path`: the filter, the graph, the two ends, and
-- `none` for its two exceptions. A cost of `none` is `inf`.
mod Tests
pub mod Ledger
pub mod Nodes
pub mod Links
pub mod Paths
pub mod Seats
pub mod Safety
use Prim.Native.String.{String}
use orion_v.Prelude.{
  ℕ, ℤ, pos, negsuc, ◌+ℤ◌, ◌-ℤ◌, ◌*ℤ◌, neg_ℤ, List, [], ◌∷◌, Bool, true, false, not, ◌&&◌, ◌||◌,
  Option, none, some, length, ◌==◌, ltb, ltb_ℤ, if◌then◌else◌, all,
}
use orion_v.Prelude.Dict.{Dict, nat_eq, pair_eq, get, get_or, put}
use orion_v.Prelude.Fail.{Result, ok, err, key_error, Action}
use orion_v.Prelude.Sort.{sort}
use orion_v.Prelude.Adjust.{find}
use orion_v.Types.{
  Ident, FlowKey, InfrastructureTier, tier_beq, Node, Link, LinkType, intra, inter, Vnf, FlowEdge,
  SliceRequest, PlacementPlan,
}
use orion_v.ChainOrder.{mem}
use orion_v.Substrate.{Graph, SubstrateNetwork, link_key, find_node, find_edge, allocate}

pub record GreedyConfig : Type 0 where
  pub alpha : ℤ
  pub gamma_intra : ℤ
  pub gamma_inter : ℤ

pub data FailReason : Type 0 where
  no_failure : FailReason
  no_feasible_node : Ident → FailReason
  no_feasible_path : Ident → Ident → FailReason

pub record GreedyResult : Type 0 where
  pub feasible : Bool
  pub cost : Option ℤ
  pub plan : Option PlacementPlan
  pub intra_bw : ℤ
  pub inter_bw : ℤ
  pub resource_cost : ℤ
  pub fail_reason : FailReason

abbrev pub infeasible_result : FailReason → GreedyResult
infeasible_result r = record {
  feasible = false;
  cost = none;
  plan = none;
  intra_bw = pos 0;
  inter_bw = pos 0;
  resource_cost = pos 0;
  fail_reason = r;
}

pub record PlacementState : Type 0 where
  pub vnf_placements : Dict Ident Ident
  pub cpu_allocations : Dict Ident ℤ
  pub ram_allocations : Dict Ident ℤ
  pub flow_routes : Dict FlowKey (List Ident)
  pub bw_allocations : Dict FlowKey (Dict Ident ℤ)
  pub intra_bw_cost : ℤ
  pub inter_bw_cost : ℤ
  pub resource_cost : ℤ
  pub running_cpu : Dict Ident ℤ
  pub running_ram : Dict Ident ℤ
  pub running_bw : Dict Ident ℤ

abbrev pub empty_state : PlacementState
empty_state = record {
  vnf_placements = [];
  cpu_allocations = [];
  ram_allocations = [];
  flow_routes = [];
  bw_allocations = [];
  intra_bw_cost = pos 0;
  inter_bw_cost = pos 0;
  resource_cost = pos 0;
  running_cpu = [];
  running_ram = [];
  running_bw = [];
}

-- Of a node, or a link, of the graph.
abbrev pub cpu_after : PlacementState → Node → ℤ
cpu_after st n = get_or n.node_id n.cpu_residual st.running_cpu

abbrev pub ram_after : PlacementState → Node → ℤ
ram_after st n = get_or n.node_id n.ram_residual st.running_ram

abbrev pub bw_after : PlacementState → Link → ℤ
bw_after st l = get_or l.link_id l.bw_residual st.running_bw

-- The order of `(-cpu_demand, -ram_demand, vnf_id)`.
abbrev pub lt_vnf : Vnf → Vnf → Bool
lt_vnf v w =
    ltb_ℤ w.cpu_demand v.cpu_demand
    || (not (ltb_ℤ v.cpu_demand w.cpu_demand)
        && (ltb_ℤ w.ram_demand v.ram_demand
            || (not (ltb_ℤ v.ram_demand w.ram_demand) && ltb v.vnf_id w.vnf_id)))

-- `(-tier_match, -cpu_avail, domain_id, node_id)`
abbrev pub Candidate : Type 0
Candidate = ℤ × ℤ × ℕ × Ident

abbrev pub lt_candidate : Candidate → Candidate → Bool
lt_candidate (a, b, c, d) (e, f, g, h) =
    ltb_ℤ a e
    || (not (ltb_ℤ e a) && (ltb_ℤ b f || (not (ltb_ℤ f b) && (ltb c g || (c == g && ltb d h)))))

-- `{nodes[n]["tier"] for n in permitted_nodes if n in nodes}`
abbrev pub tiers_of : Graph → List Ident → List InfrastructureTier
tiers_of g [] = []
tiers_of g (n ∷ ns) =
    let rest = tiers_of g ns in elim (find_node g n) [ none ↦ rest | some x ↦ x.tier ∷ rest ]

-- `_required_tier`: the tier, if there is only one.
abbrev pub only_tier : List InfrastructureTier → Option InfrastructureTier
only_tier [] = none
only_tier (t ∷ ts) = if all (tier_beq t) ts then some t else none

unfoldable pub required_tier : Vnf → Graph → Option InfrastructureTier
required_tier vnf g = only_tier (tiers_of g vnf.permitted_nodes)

abbrev pub is_permitted : Vnf → Ident → Bool
is_permitted v n = length v.permitted_nodes == 0 || mem n v.permitted_nodes

abbrev pub matches : Option InfrastructureTier → InfrastructureTier → Bool
matches none t = false
matches (some r) t = tier_beq t r

-- `graph.nodes[node_id]` of a node of the graph.
abbrev pub node_at : Graph → Node → Node
node_at g n = elim (find_node g n.node_id) [ none ↦ n | some x ↦ x ]

abbrev pub has_room : PlacementState → Vnf → Node → Bool
has_room st v n =
    not (ltb_ℤ (cpu_after st n) v.cpu_demand) && not (ltb_ℤ (ram_after st n) v.ram_demand)

abbrev pub candidate : Graph → PlacementState → Option InfrastructureTier → Node → Candidate
candidate g st tier n = (
  if matches tier n.tier then negsuc 0 else pos 0,
  neg_ℤ (cpu_after st (node_at g n)),
  n.domain_id,
  n.node_id,
)

unfoldable pub candidates :
    Graph → PlacementState → Vnf → Option InfrastructureTier → List Node → List Candidate
candidates g st v tier [] = []
candidates g st v tier (n ∷ ns) =
    let rest = candidates g st v tier ns in
    if is_permitted v n.node_id && has_room st v (node_at g n)
    then candidate g st tier n ∷ rest
    else rest

abbrev pub first_node : List Candidate → Option Ident
first_node [] = none
first_node ((_, _, _, n) ∷ _) = some n

-- `_select_node`
unfoldable pub select_node : Graph → Vnf → PlacementState → Option Ident
unfolding candidates required_tier
select_node g v st = first_node (sort lt_candidate (candidates g st v (required_tier v g) g.nodes))

-- The placement of one VNF on a node.
abbrev pub seated : PlacementState → Vnf → Node → PlacementState
seated st v n = record st {
  running_cpu = put n.node_id (cpu_after st n -ℤ v.cpu_demand) st.running_cpu;
  running_ram = put n.node_id (ram_after st n -ℤ v.ram_demand) st.running_ram;
  vnf_placements = put v.vnf_id n.node_id st.vnf_placements;
  cpu_allocations = put v.vnf_id v.cpu_demand st.cpu_allocations;
  ram_allocations = put v.vnf_id v.ram_demand st.ram_allocations;
  resource_cost = st.resource_cost +ℤ (v.cpu_demand +ℤ v.ram_demand);
}

-- How a loop ends: with a state, or with the answer of the early return.
pub data Stage : Type 0 where
  going : PlacementState → Stage
  failing : FailReason → Stage

unfoldable pub place_all : Graph → List Vnf → PlacementState → Result Stage
unfolding select_node
place_all g [] st = ok (going st)
place_all g (v ∷ vs) st = elim (select_node g v st) [
  | none ↦ ok (failing (no_feasible_node v.vnf_id))
  | some n ↦ elim (find_node g n) [ none ↦ err key_error | some x ↦ place_all g vs (seated st v x) ]
]

-- The links between consecutive nodes.
abbrev pub links_of : Graph → List Ident → Result (List Link)
links_of g [] = ok []
links_of g (u ∷ []) = ok []
links_of g (u ∷ v ∷ ns) = elim (find_edge g u v) [
  | none ↦ err key_error
  | some l ↦ elim (links_of g (v ∷ ns)) [ err x ↦ err x | ok ls ↦ ok (l ∷ ls) ]
]

abbrev pub is_inter : LinkType → Bool
is_inter intra = false
is_inter inter = true

-- The debit of one link of a route.
abbrev pub debited : PlacementState → ℤ → Ident → Link → PlacementState
debited st bw id l = record st {
  running_bw = put id (get_or id l.bw_residual st.running_bw -ℤ bw) st.running_bw;
  inter_bw_cost = if is_inter l.link_type then st.inter_bw_cost +ℤ bw else st.inter_bw_cost;
  intra_bw_cost = if is_inter l.link_type then st.intra_bw_cost else st.intra_bw_cost +ℤ bw;
}

-- The loop over the link ids of a route: each is looked up by its id, and then by its ends.
unfoldable pub debit_all :
    Graph → ℤ → List Ident → Dict Ident ℤ → PlacementState → Result (PlacementState × Dict Ident ℤ)
debit_all g bw [] per_link st = ok (st, per_link)
debit_all g bw (l ∷ ls) per_link st = elim (find link_key l g.edges) [
  | none ↦ err key_error
  | some e ↦ elim (find_edge g e.source e.target) [
    | none ↦ err key_error
    | some x ↦ debit_all g bw ls (put l bw per_link) (debited st bw l x)
  ]
]

abbrev pub routed : PlacementState → FlowKey → List Ident → Dict Ident ℤ → PlacementState
routed st key links per_link = record st {
  flow_routes = put key links st.flow_routes;
  bw_allocations = put key per_link st.bw_allocations;
}

abbrev pub link_ids : List Link → List Ident
link_ids [] = []
link_ids (l ∷ ls) = l.link_id ∷ link_ids ls

abbrev pub plan_of : SliceRequest → PlacementState → PlacementPlan
plan_of slice_req st = record {
  plan_id = (slice_req.request_id, "greedy");
  vnf_placements = st.vnf_placements;
  cpu_allocations = st.cpu_allocations;
  ram_allocations = st.ram_allocations;
  flow_routes = st.flow_routes;
  bw_allocations = st.bw_allocations;
  is_structurally_valid = true;
  origin = "greedy";
}

abbrev pub cost_of : GreedyConfig → PlacementState → ℤ
cost_of config st =
    (config.alpha *ℤ st.resource_cost)
    +ℤ (config.gamma_intra *ℤ st.intra_bw_cost)
    +ℤ (config.gamma_inter *ℤ st.inter_bw_cost)

abbrev pub result_of : SliceRequest → GreedyConfig → Stage → GreedyResult
result_of slice_req config (failing r) = infeasible_result r
result_of slice_req config (going st) = record {
  feasible = true;
  cost = some (cost_of config st);
  plan = some (plan_of slice_req st);
  intra_bw = st.intra_bw_cost;
  inter_bw = st.inter_bw_cost;
  resource_cost = st.resource_cost;
  fail_reason = no_failure;
}

abbrev pub apply_plan :
    SliceRequest → GreedyResult → Option PlacementPlan → Action SubstrateNetwork GreedyResult
apply_plan slice_req result none s = (ok result, s)
apply_plan slice_req result (some plan) s =
    let (r, s') = allocate plan slice_req s in (elim r [ err x ↦ err x | ok _ ↦ ok result ], s')

module _ (shortest_path : (Link → Bool) → Graph → Ident → Ident → Option (List Ident)) where
  -- `_shortest_bw_feasible_path`
  unfoldable pub shortest_bw_feasible_path :
      Graph → Ident → Ident → ℤ → PlacementState → Result (Option (List Ident))
  shortest_bw_feasible_path g src dst required_bw st =
      elim (shortest_path (λ l. not (ltb_ℤ (bw_after st l) required_bw)) g src dst) [
        | none ↦ ok none
        | some node_path ↦ elim (links_of g node_path) [
          | err x ↦ err x
          | ok ls ↦ ok (some (link_ids ls))
        ]
      ]

  -- One flow edge.
  unfoldable pub route_one : Graph → FlowEdge → PlacementState → Result Stage
  unfolding shortest_bw_feasible_path debit_all
  route_one g f st =
      let key : FlowKey = (f.source_vnf, f.target_vnf) in
      elim (get f.source_vnf st.vnf_placements) [
        | none ↦ err key_error
        | some src ↦ elim (get f.target_vnf st.vnf_placements) [
          | none ↦ err key_error
          | some dst ↦
              if src == dst
              then ok (going (routed st key [] []))
              else elim (shortest_bw_feasible_path g src dst f.bandwidth_demand st) [
                | err x ↦ err x
                | ok path ↦ elim path [
                  | none ↦ ok (failing (no_feasible_path f.source_vnf f.target_vnf))
                  | some links ↦ elim (debit_all g f.bandwidth_demand links [] st) [
                    | err x ↦ err x
                    | ok (st', per_link) ↦ ok (going (routed st' key links per_link))
                  ]
                ]
              ]
        ]
      ]

  unfoldable pub route_all : Graph → List FlowEdge → PlacementState → Result Stage
  unfolding route_one
  route_all g [] st = ok (going st)
  route_all g (f ∷ fs) st = elim (route_one g f st) [
    | err x ↦ err x
    | ok stage ↦ elim stage [ failing r ↦ ok (failing r) | going st' ↦ route_all g fs st' ]
  ]

  unfoldable pub run_greedy_ffd :
      SubstrateNetwork → SliceRequest → GreedyConfig → Result GreedyResult
  unfolding place_all route_all
  run_greedy_ffd s slice_req config =
      elim (place_all s.graph (sort lt_vnf slice_req.vnfs) empty_state) [
        | err x ↦ err x
        | ok placed ↦ elim placed [
          | failing r ↦ ok (infeasible_result r)
          | going st ↦ elim (route_all s.graph slice_req.flow_edges st) [
            | err x ↦ err x
            | ok stage ↦ ok (result_of slice_req config stage)
          ]
        ]
      ]

  unfoldable pub compute_cost_greedy :
      SubstrateNetwork → SliceRequest → GreedyConfig → Result (Option ℤ)
  unfolding run_greedy_ffd
  compute_cost_greedy s slice_req config = elim (run_greedy_ffd s slice_req config) [
    | err x ↦ err x
    | ok r ↦ ok r.cost
  ]

  unfoldable pub greedy_place_on_substrate :
      SliceRequest → GreedyConfig → Action SubstrateNetwork GreedyResult
  unfolding run_greedy_ffd allocate
  greedy_place_on_substrate slice_req config s = elim (run_greedy_ffd s slice_req config) [
    | err x ↦ (err x, s)
    | ok result ↦
        if result.feasible then apply_plan slice_req result result.plan s else (ok result, s)
  ]
