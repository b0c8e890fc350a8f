-- ===== src/Coordinator.antt =====
-- mdo/coordinator.py: one slice arrival. A partition is split into fragments, the domain actors place
-- and route them, the coordinator routes the flows between domains, judges the outcome, and takes back
-- whatever was charged on the way. The choice of the partition is the policy's: it is an argument, as
-- canonical indices. The tensors of the result and the reward, a ratio of floats, are not modelled.
pub mod Fragments
pub mod Resolve
pub mod Ledger
pub mod Snapshot
pub mod Contract
pub mod Cross
pub mod Sendable
pub mod Settled
pub mod Unchanged
pub mod Places
pub mod Placed
pub mod Greed
pub mod Connected
pub mod Verdict
mod Tests
use orion_v.Prelude.{
  ℕ, zero, suc, ◌+◌, ℤ, pos, ◌+ℤ◌, ◌-ℤ◌, ◌*ℤ◌, List, [], ◌∷◌, Bool, true, false, not, Option, none,
  some, ◌&&◌, ◌||◌, ◌==◌, ltb_ℤ, if◌then◌else◌, any, length,
}
use orion_v.Prelude.Dict.{Dict, get, get_or, put, nat_eq, pair_eq, values}
use orion_v.Prelude.Fail.{Result, ok, err, Action}
use orion_v.Types.{Ident, FlowKey, FlowEdge, Node, Link}
use orion_v.Types.Mdo.{PlanFragment, DomainResponse, bare_response}
use orion_v.Substrate.{Graph, SubstrateNetwork, crosses, link_key, find_node, nodes_in_domain}
use orion_v.Routing.{
  Networkx, RouteResult, RoutingMode, route_cross_domain_flow, allocate_route_bw,
  deallocate_route_bw,
}
use orion_v.Greedy.{restore_nodes}

-- The protocol that every domain actor follows.
pub record DomainActor : Type 0 where
  pub act : PlanFragment → Action SubstrateNetwork DomainResponse

pub record MdoConfig : Type 0 where
  pub max_inter_domain_hops : ℕ
  pub gamma_inter : ℤ

pub record MdoCoordinator : Type 0 where
  pub domain_actors : Dict ℕ DomainActor
  pub config : MdoConfig

-- `_dispatch_to_actors`
unfoldable pub dispatch_to_actors :
    Dict ℕ DomainActor
    → Dict ℕ PlanFragment
    → Dict ℕ DomainResponse
    → Action SubstrateNetwork (Dict ℕ DomainResponse)
dispatch_to_actors actors [] responses s = (ok responses, s)
dispatch_to_actors actors ((d, fragment) ∷ rest) responses s = elim (get d actors) [
  | none ↦ dispatch_to_actors actors rest (put d (bare_response d false) responses) s
  | some actor ↦
      let (r, s') = actor.act fragment s in
      elim r [
        | err x ↦ (err x, s')
        | ok response ↦ dispatch_to_actors actors rest (put d response responses) s'
      ]
]

abbrev pub snapshot_nodes : Graph → List Ident → Dict Ident (ℤ × ℤ) → Dict Ident (ℤ × ℤ)
snapshot_nodes g [] snapshot = snapshot
snapshot_nodes g (n ∷ ns) snapshot = elim (find_node g n) [
  | none ↦ snapshot_nodes g ns snapshot
  | some d ↦ snapshot_nodes g ns (put n (d.cpu_residual, d.ram_residual) snapshot)
]

abbrev pub snapshot_domains : SubstrateNetwork → List ℕ → Dict Ident (ℤ × ℤ) → Dict Ident (ℤ × ℤ)
snapshot_domains s [] snapshot = snapshot
snapshot_domains s (d ∷ ds) snapshot =
    snapshot_domains s ds (snapshot_nodes s.graph (nodes_in_domain s d) snapshot)

-- `_snapshot_node_residuals`. The set of the domains is walked with its repetitions, which write the
-- same entries again. The ids of `nodes_in_domain` are those of nodes.
unfoldable pub snapshot_node_residuals : SubstrateNetwork → List ℕ → Dict Ident (ℤ × ℤ)
snapshot_node_residuals s partition = snapshot_domains s partition []

-- `_restore_node_residuals`
unfoldable pub restore_node_residuals : Dict Ident (ℤ × ℤ) → Graph → Graph
restore_node_residuals snapshot g = restore_nodes snapshot g

abbrev pub update : Dict Ident Ident → Dict Ident Ident → Dict Ident Ident
update d [] = d
update d ((k, v) ∷ rest) = update (put k v d) rest

abbrev pub gather_placements : Dict Ident Ident → List DomainResponse → Dict Ident Ident
gather_placements acc [] = acc
gather_placements acc (r ∷ rs) = gather_placements (update acc r.placements) rs

-- The inter-domain links among those of a path: each id stands for the first edge that has it.
abbrev pub edge_crosses : Graph → List Link → Ident → ℕ
edge_crosses g [] id = 0
edge_crosses g (l ∷ ls) id =
    if l.link_id == id then (if crosses g l then 1 else 0) else edge_crosses g ls id

abbrev pub count_hops : Graph → List Ident → ℕ
count_hops g [] = 0
count_hops g (id ∷ ids) = edge_crosses g g.edges id + count_hops g ids

-- What the cross-domain routing keeps.
pub record CrossRouting : Type 0 where
  pub routes : Dict FlowKey (List Ident)
  pub bw_allocated : Dict FlowKey ℤ
  pub total_delay : ℤ
  pub inter_hops : ℕ

abbrev pub no_cross : CrossRouting
no_cross = record { routes = []; bw_allocated = []; total_delay = pos 0; inter_hops = 0 }

-- Gives back the bandwidth under every key. A missing or empty route gives back nothing.
abbrev pub credit_routes : Dict FlowKey (List Ident) → Dict FlowKey ℤ → Graph → Graph
credit_routes routes [] g = g
credit_routes routes ((key, bw) ∷ rest) g =
    credit_routes routes rest (deallocate_route_bw (get_or key [] routes) bw g)

abbrev pub extended : FlowEdge → RouteResult → Graph → CrossRouting → CrossRouting
extended fe result g c = record {
  routes = put (fe.source_vnf, fe.target_vnf) result.path_links c.routes;
  bw_allocated = put (fe.source_vnf, fe.target_vnf) fe.bandwidth_demand c.bw_allocated;
  total_delay = c.total_delay +ℤ result.propagation_delay;
  inter_hops = c.inter_hops + count_hops g result.path_links;
}

module _ (nx : Networkx) (mode : RoutingMode) (placements : Dict Ident Ident) where
  -- `_route_cross_domain_flows`, from the merged placements on: is it feasible, and what was routed.
  unfoldable pub route_cross_flows :
      List FlowEdge → ℤ → CrossRouting → Action SubstrateNetwork (Bool × CrossRouting)
  route_cross_flows [] remaining c s = (ok (true, c), s)
  route_cross_flows (fe ∷ fes) remaining c s = elim (get fe.source_vnf placements) [
    | none ↦ (ok (false, no_cross), s)
    | some src ↦ elim (get fe.target_vnf placements) [
      | none ↦ (ok (false, no_cross), s)
      | some dst ↦
          elim (route_cross_domain_flow nx mode s src dst fe.bandwidth_demand remaining 3) [
            | err x ↦ (err x, s)
            | ok result ↦ elim result.feasible [
              | false ↦ (
                ok (false, no_cross),
                record s { graph = credit_routes c.routes c.bw_allocated s.graph },
              )
              | true ↦
                  route_cross_flows fes (remaining -ℤ result.propagation_delay)
                    (extended fe result s.graph c)
                    (record s {
                      graph = allocate_route_bw result.path_links fe.bandwidth_demand s.graph;
                    })
            ]
          ]
    ]
  ]

-- `_rollback_domain`, of the responses that are feasible
abbrev pub rollback_domains : List DomainResponse → Graph → Graph
rollback_domains [] g = g
rollback_domains (r ∷ rs) g =
    rollback_domains rs (if r.feasible then credit_routes r.routes r.bw_allocated g else g)
