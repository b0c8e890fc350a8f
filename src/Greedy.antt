-- ===== src/Greedy.antt =====
-- actors/greedy_domain_actor.py: places the VNFs of one domain, largest first, then routes the flows
-- between them. A failure rolls back what was charged. The learning fields of a response are empty
-- here and are not modelled; `delay_remaining` and `vnfs_remaining` of `_select_node` are unused.
pub mod Restore
pub mod Rollback
pub mod Choice
pub mod Seating
pub mod Safety
mod Tests
use orion_v.Prelude.{
  ℕ, ℤ, pos, negsuc, ◌+ℤ◌, ◌-ℤ◌, ◌*ℤ◌, List, [], ◌∷◌, ◌++◌, reverse, Bool, true, false, not, ◌&&◌,
  ◌||◌, Option, none, some, length, ◌==◌, ltb, ltb_ℤ, if◌then◌else◌,
}
use orion_v.Prelude.Dict.{Dict, get, contains, put, nat_eq, pair_eq}
use orion_v.Prelude.Fail.{Result, ok, err, key_error, Action, pure, ◌>>=◌}
use orion_v.Prelude.Adjust.{adjust}
use orion_v.Prelude.Sort.{sort}
use orion_v.Types.{Ident, FlowKey, tier_beq, Node, FlowEdge}
use orion_v.Types.Mdo.{
  VnfAssignment, PlanFragment, is_empty, DomainResponse, bare_response, empty_response,
}
use orion_v.ChainOrder.{mem}
use orion_v.Substrate.{
  Graph, SubstrateNetwork, node_key, find_node, nodes_in_domain, shift_node, on_graph,
}
use orion_v.Routing.{
  Networkx, RouteResult, min_delay, route_flow, allocate_route_bw, deallocate_route_bw,
}

pub record GreedyDomainActor : Type 0 where
  pub domain_id : ℕ
  pub k_paths : ℕ

-- `(-tier_match, proc_delay, node_id)`
abbrev pub Candidate : Type 0
Candidate = ℤ × ℤ × Ident

abbrev pub lt_candidate : Candidate → Candidate → Bool
lt_candidate (a, b, c) (d, e, f) =
    ltb_ℤ a d || (not (ltb_ℤ d a) && (ltb_ℤ b e || (not (ltb_ℤ e b) && ltb c f)))

-- `permitted is None or node_id in permitted`
abbrev pub is_permitted : VnfAssignment → Ident → Bool
is_permitted v n = length v.permitted_nodes == 0 || mem n v.permitted_nodes

abbrev pub lacks_room : VnfAssignment → Node → Bool
lacks_room v d = ltb_ℤ d.cpu_residual v.cpu_demand || ltb_ℤ d.ram_residual v.ram_demand

abbrev pub candidate : VnfAssignment → Ident → Node → Candidate
candidate v n d = (
  if tier_beq d.tier v.required_tier then negsuc 0 else pos 0,
  d.processing_delay *ℤ v.computational_intensity,
  n,
)

-- The loop of `_select_node` over the nodes of the domain.
unfoldable pub candidates : Graph → VnfAssignment → List Ident → Result (List Candidate)
candidates g v [] = ok []
candidates g v (n ∷ ns) =
    let rest = candidates g v ns in
    if not (is_permitted v n) then rest else elim (find_node g n) [
      | none ↦ err key_error
      | some d ↦
          if lacks_room v d
          then rest
          else elim rest [ err x ↦ err x | ok cs ↦ ok (candidate v n d ∷ cs) ]
    ]

abbrev pub first_node : List Candidate → Option Ident
first_node [] = none
first_node ((a, b, n) ∷ cs) = some n

-- `_select_node`
unfoldable pub select_node : Graph → VnfAssignment → List Ident → Result (Option Ident)
unfolding candidates
select_node g v domain_nodes = elim (candidates g v domain_nodes) [
  | err x ↦ err x
  | ok cs ↦ ok (first_node (sort lt_candidate cs))
]

-- What the placing loop keeps.
pub record Placing : Type 0 where
  pub placements : Dict Ident Ident
  pub node_snapshots : Dict Ident (ℤ × ℤ)
  pub total_proc_delay : ℤ
  pub delay_remaining : ℤ
  pub total_resource_cost : ℤ

-- What the routing loop keeps.
pub record Connecting : Type 0 where
  pub allocated_bw : List (List Ident × ℤ)
  pub routes : Dict FlowKey (List Ident)
  pub bw_allocated : Dict FlowKey ℤ
  pub total_route_delay : ℤ
  pub delay_remaining : ℤ

abbrev pub with_residuals : ℤ × ℤ → Node → Node
with_residuals r n = record n { cpu_residual = r.0; ram_residual = r.1 }

abbrev pub set_node : Ident → ℤ × ℤ → Graph → Graph
set_node n r g = record g { nodes = adjust node_key n (with_residuals r) g.nodes }

abbrev pub release : List (List Ident × ℤ) → Graph → Graph
release [] g = g
release ((path_links, bw) ∷ rest) g = release rest (deallocate_route_bw path_links bw g)

abbrev pub restore_nodes : Dict Ident (ℤ × ℤ) → Graph → Graph
restore_nodes [] g = g
restore_nodes ((n, r) ∷ rest) g = restore_nodes rest (set_node n r g)

-- `_rollback`
abbrev pub rollback : List (List Ident × ℤ) → Dict Ident (ℤ × ℤ) → Graph → Graph
rollback allocated_bw node_snapshots g =
    restore_nodes node_snapshots (release (reverse allocated_bw) g)

-- The placing of one VNF at the node `d` called `n`: what the loop keeps of it.
abbrev pub seat : VnfAssignment → Ident → Node → Placing → Placing
seat v n d p =
    let proc_delay = d.processing_delay *ℤ v.computational_intensity in
    record {
      placements = put v.vnf_id n p.placements;
      node_snapshots =
          if contains n p.node_snapshots
          then p.node_snapshots
          else put n (d.cpu_residual, d.ram_residual) p.node_snapshots;
      total_proc_delay = p.total_proc_delay +ℤ proc_delay;
      delay_remaining = p.delay_remaining -ℤ proc_delay;
      total_resource_cost = p.total_resource_cost +ℤ (v.cpu_demand +ℤ v.ram_demand);
    }

-- The placing loop; `none` when a VNF finds no node, after the rollback.
unfoldable pub place_all : List VnfAssignment → List Ident → Placing → Action Graph (Option Placing)
unfolding select_node
place_all [] domain_nodes p g = (ok (some p), g)
place_all (v ∷ vs) domain_nodes p g = elim (select_node g v domain_nodes) [
  | err x ↦ (err x, g)
  | ok none ↦ (ok none, rollback [] p.node_snapshots g)
  | ok (some n) ↦ elim (find_node g n) [
    | none ↦ (err key_error, g)
    | some d ↦
        place_all vs domain_nodes (seat v n d p) (shift_node ◌-ℤ◌ n v.cpu_demand v.ram_demand g)
  ]
]

-- A routed flow, and a flow between two VNFs on one node: what the loop keeps of it.
abbrev pub connect : FlowEdge → RouteResult → Connecting → Connecting
connect fe result c = record {
  allocated_bw = c.allocated_bw ++ (result.path_links, fe.bandwidth_demand) ∷ [];
  routes = put (fe.source_vnf, fe.target_vnf) result.path_links c.routes;
  bw_allocated = put (fe.source_vnf, fe.target_vnf) fe.bandwidth_demand c.bw_allocated;
  total_route_delay = c.total_route_delay +ℤ result.propagation_delay;
  delay_remaining = c.delay_remaining -ℤ result.propagation_delay;
}

abbrev pub colocate : FlowEdge → Connecting → Connecting
colocate fe c = record c { routes = put (fe.source_vnf, fe.target_vnf) [] c.routes }

module _ (nx : Networkx) (a : GreedyDomainActor) (s : SubstrateNetwork) (domain_nodes : List Ident)
    (p : Placing) where
  -- The routing loop; `none` when a flow finds no route, after the rollback.
  unfoldable pub route_all : List FlowEdge → Connecting → Action Graph (Option Connecting)
  route_all [] c g = (ok (some c), g)
  route_all (fe ∷ fes) c g = elim (get fe.source_vnf p.placements) [
    | none ↦ route_all fes c g
    | some src ↦ elim (get fe.target_vnf p.placements) [
      | none ↦ route_all fes c g
      | some dst ↦ elim (src == dst) [
        | true ↦ route_all fes (colocate fe c) g
        | false ↦
            elim (route_flow nx min_delay (record s { graph = g }) src dst fe.bandwidth_demand
              c.delay_remaining domain_nodes a.k_paths) [
                | err x ↦ (err x, g)
                | ok result ↦ elim result.feasible [
                  | false ↦ (ok none, rollback c.allocated_bw p.node_snapshots g)
                  | true ↦
                      route_all fes (connect fe result c)
                        (allocate_route_bw result.path_links fe.bandwidth_demand g)
                ]
              ]
      ]
    ]
  ]

abbrev pub first_placing : ℤ → Placing
first_placing budget = record {
  placements = [];
  node_snapshots = [];
  total_proc_delay = pos 0;
  delay_remaining = budget;
  total_resource_cost = pos 0;
}

abbrev pub first_connecting : ℤ → Connecting
first_connecting budget = record {
  allocated_bw = [];
  routes = [];
  bw_allocated = [];
  total_route_delay = pos 0;
  delay_remaining = budget;
}

abbrev pub response : ℕ → Placing → Connecting → DomainResponse
response d p c = record {
  domain_id = d;
  feasible = true;
  placements = p.placements;
  routes = c.routes;
  bw_allocated = c.bw_allocated;
  intra_delay = p.total_proc_delay +ℤ c.total_route_delay;
  resource_cost = p.total_resource_cost;
}

abbrev pub lt_int_desc : ℤ → ℤ → Bool → Bool
lt_int_desc a b rest = ltb_ℤ b a || (not (ltb_ℤ a b) && rest)

-- The order of `(-cpu_demand, -ram_demand, vnf_id)`
abbrev pub lt_vnf : VnfAssignment → VnfAssignment → Bool
lt_vnf v w =
    lt_int_desc v.cpu_demand w.cpu_demand
      (lt_int_desc v.ram_demand w.ram_demand (ltb v.vnf_id w.vnf_id))

module _ (nx : Networkx) (a : GreedyDomainActor) (s : SubstrateNetwork) (domain_nodes : List Ident)
    (fragment : PlanFragment) where
  unfoldable pub place_and_route : Action Graph DomainResponse
  unfolding place_all route_all
  place_and_route = do
    placed ←
        place_all (sort lt_vnf fragment.vnf_assignments) domain_nodes
          (first_placing fragment.delay_budget_ms)
    elim placed [
      | none ↦ pure (bare_response a.domain_id false)
      | some p ↦ do
        connected ←
            route_all nx a s domain_nodes p fragment.intra_flows
              (first_connecting p.delay_remaining)
        elim connected [
          | none ↦ pure (bare_response a.domain_id false)
          | some c ↦ pure (response a.domain_id p c)
        ]
    ]

-- `act`
unfoldable pub act :
    Networkx → GreedyDomainActor → PlanFragment → Action SubstrateNetwork DomainResponse
unfolding place_and_route
act nx a fragment s =
    let domain_nodes = sort ltb (nodes_in_domain s a.domain_id) in
    if is_empty fragment
    then (ok (empty_response a.domain_id), s)
    else if length domain_nodes == 0
    then (ok (bare_response a.domain_id false), s)
    else on_graph (place_and_route nx a s domain_nodes fragment) s
