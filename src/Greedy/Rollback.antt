-- ===== src/Greedy/Rollback.antt =====
-- greedy_domain_actor.py: the rollback of a failed attempt.
use mathlib.Core.List.{reverse-append}
use orion_v.Prelude.{
  ℤ, ◌-ℤ◌, ◌≡◌, refl, ap, subst, sym, ◌∙◌, inl, inr, List, [], ◌∷◌, reverse, true, false, Option,
  none, some, arith, ◌==◌, ltb, length, Bool-cases, Option-cases,
}
use orion_v.Prelude.Dict.{get, nat_eq}
use orion_v.Prelude.Fail.{Error, key_error, Result, ok, err, Result-cases}
use orion_v.Prelude.Sort.{sort}
use orion_v.Types.{Ident, FlowEdge}
use orion_v.Types.Mdo.{VnfAssignment, PlanFragment, is_empty, DomainResponse}
use orion_v.Substrate.{Graph, SubstrateNetwork, find_node, shift_node, nodes_in_domain}
use orion_v.Routing.{Networkx, RouteResult, min_delay, route_flow, allocate_route_bw}
use orion_v.Routing.Bandwidth.{deallocate-allocate_route_bw}
use orion_v.Greedy.{
  GreedyDomainActor, Placing, Connecting, release, restore_nodes, seat, select_node, place_all,
  connect, colocate, route_all, place_and_route, act, lt_vnf, first_placing, first_connecting,
}
use orion_v.Greedy.Restore.{restore-seat}

-- How the placing loop ends: with the graph as it was, or with what restores it.
data Placed (g0 : Graph) (out : Result (Option Placing) × Graph) : Type 0 where
  raised : (x : Error) (g : Graph) → out ≡ (err x, g) → Placed g0 out
  undone : out ≡ (ok none, g0) → Placed g0 out
  placed :
      (p : Placing) (g : Graph)
      → out ≡ (ok (some p), g)
      → restore_nodes p.node_snapshots g ≡ g0
      → Placed g0 out

place_all-Placed :
    (vs : List VnfAssignment) (ns : List Ident) (p : Placing) (g g0 : Graph)
    → restore_nodes p.node_snapshots g ≡ g0
    → Placed g0 (place_all vs ns p g)
unfolding place_all
place_all-Placed [] ns p g g0 h = placed p g refl h
place_all-Placed (v ∷ vs) ns p g g0 h = elim (Result-cases (select_node g v ns)) [
  | inr (x, e) ↦ raised x g (ground arith)
  | inl (o, e) ↦ elim (Option-cases o) [
    | inl e' ↦ undone (ground arith)
    | inr (n, e') ↦ elim (Option-cases (find_node g n)) [
      | inl f ↦ raised key_error g (ground arith)
      | inr (x, f) ↦
          let one : place_all (v ∷ vs) ns p g
              ≡ place_all vs ns (seat v n x p) (shift_node ◌-ℤ◌ n v.cpu_demand v.ram_demand g) =
            ground arith in
          subst (Placed g0) (sym one) (
            place_all-Placed vs ns (seat v n x p) _ g0
              (restore-seat n v.cpu_demand v.ram_demand p.node_snapshots g g0 x h f))
    ]
  ]
]

-- The bandwidth of the last route comes back first.
release-connect :
    (fe : FlowEdge) (result : RouteResult) (c : Connecting) (g : Graph)
    → release
        (reverse (connect fe result c).allocated_bw)
        (allocate_route_bw result.path_links fe.bandwidth_demand g)
      ≡ release (reverse c.allocated_bw) g
release-connect fe result c g =
    let last : List (List Ident × ℤ) = (result.path_links, fe.bandwidth_demand) ∷ [] in
    let g' = allocate_route_bw result.path_links fe.bandwidth_demand g in
    ap (λ l. release l g') (reverse-append c.allocated_bw last)
    ∙ ap (release (reverse c.allocated_bw))
        (deallocate-allocate_route_bw result.path_links fe.bandwidth_demand g)

module _ (nx : Networkx) (a : GreedyDomainActor) (s : SubstrateNetwork) (ns : List Ident)
    (p : Placing) where
  -- How the routing loop ends, from the graph that the placing loop left.
  data Connected (before : Graph) (out : Result (Option Connecting) × Graph) : Type 0 where
    raised : (x : Error) (g : Graph) → out ≡ (err x, g) → Connected before out
    undone : out ≡ (ok none, restore_nodes p.node_snapshots before) → Connected before out
    connected : (c : Connecting) (g : Graph) → out ≡ (ok (some c), g) → Connected before out

  -- One flow that is routed.
  pub route_all_routed :
      (fe : FlowEdge) (fes : List FlowEdge) (c : Connecting) (g : Graph) {src dst : Ident}
      {r : RouteResult}
      → get fe.source_vnf p.placements ≡ some src
      → get fe.target_vnf p.placements ≡ some dst
      → src == dst ≡ false
      → route_flow nx min_delay
          (record s { graph = g })
          src
          dst
          fe.bandwidth_demand
          c.delay_remaining
          ns
          a.k_paths
        ≡ ok r
      → r.feasible ≡ true
      → route_all nx a s ns p (fe ∷ fes) c g
        ≡ route_all nx a s ns p fes
            (connect fe r c)
            (allocate_route_bw r.path_links fe.bandwidth_demand g)
  unfolding route_all
  route_all_routed fe fes c g e e' ne er feas = ground arith

  route_all-Connected :
      (fes : List FlowEdge) (c : Connecting) (g before : Graph)
      → release (reverse c.allocated_bw) g ≡ before
      → Connected before (route_all nx a s ns p fes c g)
  unfolding route_all
  route_all-Connected [] c g before h = connected c g refl
  route_all-Connected (fe ∷ fes) c g before h =
      elim (Option-cases (get fe.source_vnf p.placements)) [
        | inl e ↦ subst (Connected before) (ground arith) (route_all-Connected fes c g before h)
        | inr (src, e) ↦ elim (Option-cases (get fe.target_vnf p.placements)) [
          | inl e' ↦ subst (Connected before) (ground arith) (route_all-Connected fes c g before h)
          | inr (dst, e') ↦ elim (Bool-cases (src == dst)) [
            | inl one_node ↦
                subst (Connected before) (ground arith)
                  (route_all-Connected fes (colocate fe c) g before h)
            | inr ne ↦
                elim (Result-cases (
                  route_flow nx min_delay (record s { graph = g }) src dst fe.bandwidth_demand
                    c.delay_remaining ns a.k_paths)) [
                      | inr (x, er) ↦ raised x g (ground arith)
                      | inl (r, er) ↦ elim (Bool-cases r.feasible) [
                        | inr no_route ↦ undone (ground arith)
                        | inl feas ↦
                            subst (Connected before)
                              (sym (route_all_routed fe fes c g e e' ne er feas))
                              (route_all-Connected fes (connect fe r c) _ before
                                (release-connect fe r c g ∙ h))
                      ]
                    ]
          ]
        ]
      ]

-- The attempt as a whole, by what the two loops did.
attempt-infeasible :
    (nx : Networkx) (a : GreedyDomainActor) (s : SubstrateNetwork) (ns : List Ident)
    (fragment : PlanFragment) (g g' : Graph) (r : DomainResponse)
    → place_and_route nx a s ns fragment g ≡ (ok r, g')
    → r.feasible ≡ false
    → g' ≡ g
unfolding place_and_route
attempt-infeasible nx a s ns fragment g g' r h infeasible = by_placing (
    place_all-Placed (sort lt_vnf fragment.vnf_assignments) ns
      (first_placing fragment.delay_budget_ms) g g refl)
  where
    by_routing :
        (p : Placing) (g1 : Graph)
        → place_all
            (sort lt_vnf fragment.vnf_assignments)
            ns
            (first_placing fragment.delay_budget_ms)
            g
          ≡ (ok (some p), g1)
        → restore_nodes p.node_snapshots g1 ≡ g
        → Connected nx a s ns p g1
            (route_all nx a s ns p fragment.intra_flows (first_connecting p.delay_remaining) g1)
        → g' ≡ g
    by_routing p g1 e back (raised x g2 e') = absurd (ground arith)
    by_routing p g1 e back (undone e') = ground arith
    by_routing p g1 e back (connected c g2 e') = absurd (ground arith)

    by_placing :
        Placed g (
          place_all
            (sort lt_vnf fragment.vnf_assignments)
            ns
            (first_placing fragment.delay_budget_ms)
            g)
        → g' ≡ g
    by_placing (raised x g1 e) = absurd (ground arith)
    by_placing (undone e) = ground arith
    by_placing (placed p g1 e back) = by_routing p g1 e back (
        route_all-Connected nx a s ns p fragment.intra_flows (first_connecting p.delay_remaining) g1
          g1 refl)

-- A failed attempt leaves no trace: when the actor answers that the fragment is infeasible, the
-- network is what it was before the call, the residuals of every node and every link included.
pub act-infeasible :
    (nx : Networkx) (a : GreedyDomainActor) (fragment : PlanFragment) (s s' : SubstrateNetwork)
    (r : DomainResponse)
    → act nx a fragment s ≡ (ok r, s')
    → r.feasible ≡ false
    → s' ≡ s
unfolding act place_and_route
act-infeasible nx a fragment s s' r h infeasible =
    let ns = sort ltb (nodes_in_domain s a.domain_id) in
    elim (Bool-cases (is_empty fragment)) [
      | inl none_assigned ↦ ground arith
      | inr some_assigned ↦ elim (Bool-cases (length ns == 0)) [
        | inl no_nodes ↦ ground arith
        | inr has_nodes ↦
            let same =
              attempt-infeasible nx a s ns fragment s.graph s'.graph r (ground arith) infeasible in
            ground (arith, same)
      ]
    ]
