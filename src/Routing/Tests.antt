-- ===== src/Routing/Tests.antt =====
-- routing.py on the two paths of the sample network.
use orion_v.Prelude.{ℕ, pos, ◌+ℤ◌, ◌-ℤ◌, ◌≡◌, refl, ◌≢◌, ◌⊎◌, [], ◌∷◌, true, false, arith}
use orion_v.Prelude.Fail.{ok}
use orion_v.Prelude.Adjust.{adjust}
use orion_v.Samples.{graph, network, nx}
use orion_v.Routing.{
  RouteResult, no_route, min_hops, min_delay, route, walk, through, path_edges, score, consider,
  select, route_flow, route_cross_domain_flow, allocate_route_bw, deallocate_route_bw,
}
use orion_v.Routing.Best.{Routed, route_flow-Routed, route_cross_domain_flow-Routed}
use orion_v.Routing.Bandwidth.{
  deallocate-allocate_route_bw, NoOvercommit, HasUniqueLinks, allocate_route_bw-NoOvercommit,
}

program : Unit {0}
unfolding route_flow route_cross_domain_flow select consider score walk allocate_route_bw
    deallocate_route_bw adjust ◌+ℤ◌ ◌-ℤ◌
program = tt

abbrev direct : RouteResult
direct = route (pos 9) (11 ∷ []) (1 ∷ 3 ∷ []) (pos 1)

abbrev detour : RouteResult
detour = route (pos 5) (12 ∷ 13 ∷ []) (1 ∷ 2 ∷ 3 ∷ []) (pos 5)

hops_run : route_cross_domain_flow nx min_hops network 1 3 (pos 5) (pos 40) 5 ≡ ok direct
unfolding program
hops_run = refl

delay_run : route_flow nx min_delay network 1 3 (pos 5) (pos 40) (1 ∷ 2 ∷ 3 ∷ []) 5 ≡ ok detour
unfolding program
delay_run = refl

other : ◌≢◌ {A = ℕ} 1 3
other e = absurd (omega (arith, e))

route_flow-Routed_example :
    (true ≡ false) × (detour ≡ no_route)
    ⊎ Routed nx min_delay graph (pos 5) (pos 40) ((1 ∷ 2 ∷ 3 ∷ []) ∷ (1 ∷ 3 ∷ []) ∷ []) detour
route_flow-Routed_example =
    route_flow-Routed nx min_delay network 1 3 (pos 5) (pos 40) detour other (1 ∷ 2 ∷ 3 ∷ []) 5
      delay_run

route_cross_domain_flow-Routed_example :
    (true ≡ false) × (direct ≡ no_route)
    ⊎ Routed nx min_hops graph (pos 5) (pos 40) ((1 ∷ 2 ∷ 3 ∷ []) ∷ (1 ∷ 3 ∷ []) ∷ []) direct
route_cross_domain_flow-Routed_example =
    route_cross_domain_flow-Routed nx min_hops network 1 3 (pos 5) (pos 40) direct other 5 hops_run

deallocate-allocate_route_bw_example :
    deallocate_route_bw (12 ∷ 13 ∷ []) (pos 5) (allocate_route_bw (12 ∷ 13 ∷ []) (pos 5) graph)
    ≡ graph
deallocate-allocate_route_bw_example = deallocate-allocate_route_bw (12 ∷ 13 ∷ []) (pos 5) graph

scan : walk (pos 5) (pos 0) (path_edges graph (1 ∷ 2 ∷ 3 ∷ [])) ≡ through (pos 5) (12 ∷ 13 ∷ [])
unfolding program
scan = refl

graph-HasUniqueLinks : HasUniqueLinks graph
graph-HasUniqueLinks u v l h = ground arith

graph-NoOvercommit : NoOvercommit graph
graph-NoOvercommit id x h = ground arith

allocate_route_bw-NoOvercommit_example :
    NoOvercommit (allocate_route_bw (12 ∷ 13 ∷ []) (pos 5) graph)
allocate_route_bw-NoOvercommit_example =
    allocate_route_bw-NoOvercommit graph (pos 5) (pos 5) (1 ∷ 2 ∷ 3 ∷ []) (12 ∷ 13 ∷ [])
      (omega arith) graph-HasUniqueLinks scan ((refl, tt), (tt, tt)) graph-NoOvercommit
