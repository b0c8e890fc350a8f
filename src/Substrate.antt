-- ===== src/Substrate.antt =====
-- substrate/graph_model.py: the multi-domain graph with its residuals, and the digital twin's
-- allocate, deallocate and reset. `none` is a KeyError of a query. The texts for prompts and the
-- JSON files are not modelled.
pub mod Charge
pub mod Roundtrip
pub mod Use
pub mod Calls
pub mod Balance
pub mod Composition
mod Tests
use orion_v.Prelude.{
  ℕ, ℤ, pos, ◌+ℤ◌, ◌-ℤ◌, List, [], ◌∷◌, map, Bool, true, false, not, Option, none, some, filter,
  ◌==◌, if◌then◌else◌,
}
use orion_v.Prelude.Dict.{Dict, get, contains, put, del, nat_eq}
use orion_v.Prelude.Fail.{
  Error, key_error, value_error, Result, ok, err, Action, pure, raise, or_raise, ◌>>=◌, ◌>>◌,
  modify,
}
use orion_v.Prelude.Adjust.{find, adjust}
use orion_v.Types.{
  Ident, FlowKey, InfrastructureTier, tier_beq, Node, NodeAttributes, Link, LinkAttributes,
  SliceRequest, PlacementPlan,
}

-- The `nx.DiGraph`: its nodes and its directed edges, in iteration order.
pub record Graph : Type 0 where
  pub nodes : List Node
  pub edges : List Link

pub record SubstrateNetwork : Type 0 where
  pub graph : Graph
  pub num_domains : ℕ
  pub active_slices : Dict Ident (PlacementPlan × SliceRequest)

abbrev pub node_key : Node → Ident
node_key n = n.node_id

abbrev pub link_key : Link → Ident
link_key l = l.link_id

-- `graph.nodes[n]`, and `graph.edges[u, v]`: a directed graph holds one edge from u to v
abbrev pub find_node : Graph → Ident → Option Node
find_node g n = find node_key n g.nodes

abbrev find_edge_in : List Link → Ident → Ident → Option Link
find_edge_in [] u v = none
find_edge_in (l ∷ ls) u v =
    if l.source == u
    then (if l.target == v then some l else find_edge_in ls u v)
    else find_edge_in ls u v

abbrev pub find_edge : Graph → Ident → Ident → Option Link
find_edge g u v = find_edge_in g.edges u v

-- Topology queries

unfoldable pub nodes_in_domain : SubstrateNetwork → ℕ → List Ident
nodes_in_domain s domain = map node_key (filter (λ n. n.domain_id == domain) s.graph.nodes)

pub nodes_by_tier : SubstrateNetwork → InfrastructureTier → List Ident
nodes_by_tier s tier = map node_key (filter (λ n. tier_beq n.tier tier) s.graph.nodes)

abbrev same_domain : Option Node → Option Node → Bool
same_domain (some a) (some b) = a.domain_id == b.domain_id
same_domain _ _ = false

-- Do the two ends of the edge lie in different domains? Both ends are nodes of the graph.
abbrev pub crosses : Graph → Link → Bool
crosses g l = not (same_domain (find_node g l.source) (find_node g l.target))

pub inter_domain_links : SubstrateNetwork → List Ident
inter_domain_links s = map link_key (filter (crosses s.graph) s.graph.edges)

pub get_node_attrs : SubstrateNetwork → Ident → Option NodeAttributes
get_node_attrs s n = elim (find_node s.graph n) [
  | none ↦ none
  | some d ↦ some (record {
    node_id = n;
    domain_id = d.domain_id;
    tier = d.tier;
    cpu_capacity = d.cpu_capacity;
    ram_capacity = d.ram_capacity;
    processing_delay = d.processing_delay;
  })
]

pub get_link_attrs : SubstrateNetwork → Ident → Option LinkAttributes
get_link_attrs s l = elim (find link_key l s.graph.edges) [
  | none ↦ none
  | some d ↦ some (record {
    link_id = l;
    source = d.source;
    target = d.target;
    bandwidth_capacity = d.bandwidth_capacity;
    propagation_delay = d.propagation_delay;
    link_type = d.link_type;
  })
]

unfoldable pub get_residual_cpu : SubstrateNetwork → Ident → Option ℤ
get_residual_cpu s n = elim (find_node s.graph n) [ none ↦ none | some d ↦ some d.cpu_residual ]

unfoldable pub get_residual_ram : SubstrateNetwork → Ident → Option ℤ
get_residual_ram s n = elim (find_node s.graph n) [ none ↦ none | some d ↦ some d.ram_residual ]

unfoldable pub get_residual_bw : SubstrateNetwork → Ident → Option ℤ
get_residual_bw s l = elim (find link_key l s.graph.edges) [
  | none ↦ none
  | some d ↦ some d.bw_residual
]

pub incident_links : SubstrateNetwork → Ident → List Ident × List Ident
incident_links s n = (
  map link_key (filter (λ l. l.source == n) s.graph.edges),
  map link_key (filter (λ l. l.target == n) s.graph.edges),
)

-- Resource management. `op` is `-=` in `allocate` and `+=` in `deallocate`.
module _ (op : ℤ → ℤ → ℤ) where
  abbrev pub charged_node : ℤ → ℤ → Node → Node
  charged_node cpu ram n = record n {
    cpu_residual = op n.cpu_residual cpu;
    ram_residual = op n.ram_residual ram;
  }

  abbrev pub charged_link : ℤ → Link → Link
  charged_link bw l = record l { bw_residual = op l.bw_residual bw }

  abbrev pub shift_node : Ident → ℤ → ℤ → Graph → Graph
  shift_node n cpu ram g = record g { nodes = adjust node_key n (charged_node cpu ram) g.nodes }

  -- The scan for the edge of that id, which stops at the first; an unknown id changes nothing.
  abbrev pub shift_link : Ident → ℤ → Graph → Graph
  shift_link l bw g = record g { edges = adjust link_key l (charged_link bw) g.edges }

  charge_node : Ident → ℤ → ℤ → Action Graph (Unit {0})
  charge_node n cpu ram g = elim (find_node g n) [
    | none ↦ (err key_error, g)
    | some _ ↦ (ok tt, shift_node n cpu ram g)
  ]

  pub charge_placements : PlacementPlan → Dict Ident Ident → Action Graph (Unit {0})
  unfolding charge_node
  charge_placements plan [] = pure tt
  charge_placements plan ((vnf_id, node_id) ∷ rest) = do
    cpu ← or_raise (get vnf_id plan.cpu_allocations) key_error
    ram ← or_raise (get vnf_id plan.ram_allocations) key_error
    charge_node node_id cpu ram
    charge_placements plan rest

  pub charge_links : Dict Ident ℤ → Graph → Graph
  charge_links [] g = g
  charge_links ((l, bw) ∷ rest) g = charge_links rest (shift_link l bw g)

  pub charge_flows : Dict FlowKey (Dict Ident ℤ) → Graph → Graph
  unfolding charge_links
  charge_flows [] g = g
  charge_flows ((_, per_link_bw) ∷ rest) g = charge_flows rest (charge_links per_link_bw g)

abbrev pub on_graph : {A : Type 0} → Action Graph A → Action SubstrateNetwork A
on_graph m s = let (r, g) = m s.graph in (r, record s { graph = g })

abbrev pub gets : {A : Type 0} → (SubstrateNetwork → A) → Action SubstrateNetwork A
gets f s = (ok (f s), s)

abbrev pub raise_if : Bool → Error → Action SubstrateNetwork (Unit {0})
raise_if c x s = (if c then err x else ok tt, s)

unfoldable pub allocate : PlacementPlan → SliceRequest → Action SubstrateNetwork (Unit {0})
unfolding charge_placements charge_flows
allocate plan request = do
  raise_if (← gets (λ s. contains request.request_id s.active_slices)) value_error
  on_graph (charge_placements ◌-ℤ◌ plan plan.vnf_placements)
  modify (λ s. record s { graph = charge_flows ◌-ℤ◌ plan.bw_allocations s.graph })
  modify (λ s. record s { active_slices = put request.request_id (plan, request) s.active_slices })

unfoldable pub deallocate : PlacementPlan → SliceRequest → Action SubstrateNetwork (Unit {0})
unfolding charge_placements charge_flows
deallocate plan request = do
  raise_if (← gets (λ s. not (contains request.request_id s.active_slices))) key_error
  on_graph (charge_placements ◌+ℤ◌ plan plan.vnf_placements)
  modify (λ s. record s { graph = charge_flows ◌+ℤ◌ plan.bw_allocations s.graph })
  modify (λ s. record s { active_slices = del request.request_id s.active_slices })

abbrev pub fresh_node : Node → Node
fresh_node n = record n { cpu_residual = n.cpu_capacity; ram_residual = n.ram_capacity }

abbrev pub fresh_link : Link → Link
fresh_link l = record l { bw_residual = l.bandwidth_capacity }

unfoldable pub reset : SubstrateNetwork → SubstrateNetwork
reset s = record s {
  graph = record { nodes = map fresh_node s.graph.nodes; edges = map fresh_link s.graph.edges };
  active_slices = [];
}
