-- ===== src/Coordinator/Greed.antt =====
-- The greedy domain actor, against the contract that the coordinator relies on.
use mathlib.Core.List.{Memᴰ}
use orion_v.Prelude.{
  ℕ, ◌-ℤ◌, ◌≡◌, refl, ap, sym, ◌∙◌, List, [], ◌∷◌, true, arith, All, some, Option-cases, inl, inr,
  Bool-cases, ◌==◌, ltb, length,
}
use orion_v.Prelude.Dict.{get, nat_eq, pair_eq}
use orion_v.Prelude.Fail.{ok, Result-cases}
use orion_v.Prelude.Sort.{sort, mem-sort}
use orion_v.Types.{Ident, FlowEdge}
use orion_v.Types.Mdo.{VnfAssignment, PlanFragment, is_empty, DomainResponse, empty_response}
use orion_v.Substrate.{Graph, SubstrateNetwork, shift_node, nodes_in_domain}
use orion_v.Routing.{Networkx, min_delay, route_flow, allocate_route_bw}
use orion_v.Greedy.{
  GreedyDomainActor, Placing, Connecting, seat, select_node, place_all, connect, colocate,
  route_all, first_placing, first_connecting, lt_vnf, place_and_route, act,
}
use orion_v.Greedy.Choice.{chosen, nobody, select_node-Choice}
use orion_v.Greedy.Rollback.{route_all_routed, act-infeasible}
use orion_v.Greedy.Safety.{attempt-feasible}
use orion_v.Coordinator.{DomainActor}
use orion_v.Coordinator.Ledger.{
  Reservations, reserve, Charges, charge_all, reserved_of, reserve-append,
}
use orion_v.Coordinator.Contract.{
  flow_key, NoRepeat, Accounted, Answered, refused, placed, IsContained,
}
use orion_v.Coordinator.Cross.{Fresh, Fresh-put, reserved_of-put, reserved_of-put_route}

-- The charges of the placing loop.
record Charged (ns : List Ident) (g g' : Graph) : Type 0 where
  charges : Charges
  within : All (λ c. Memᴰ c.0 ns) charges
  after : g' ≡ charge_all charges g

place_all-Charged :
    (ns : List Ident) (vs : List VnfAssignment) (p p' : Placing) (g g' : Graph)
    → place_all vs ns p g ≡ (ok (some p'), g')
    → Charged ns g g'
unfolding place_all
place_all-Charged ns [] p p' g g' h = record { charges = []; within = tt; after = cc }
place_all-Charged ns (v ∷ vs) p p' g g' h = elim (Result-cases (select_node g v ns)) [
  | inr (x, e) ↦ absurd (ground arith)
  | inl (o, e) ↦ elim (select_node-Choice g v ns o e) [
    | nobody e' none_suits ↦ absurd (ground arith)
    | chosen n d e' su least ↦
        let f = su.found in
        let rest : place_all vs ns (seat v n d p) (shift_node ◌-ℤ◌ n v.cpu_demand v.ram_demand g)
            ≡ (ok (some p'), g') =
          ground arith in
        let done = place_all-Charged ns vs (seat v n d p) p' _ g' rest in
        record {
          charges = (n, v.cpu_demand, v.ram_demand) ∷ done.charges;
          within = (su.inside, done.within);
          after = done.after;
        }
  ]
]

module _ (nx : Networkx) (a : GreedyDomainActor) (s : SubstrateNetwork) (ns : List Ident)
    (p : Placing) (base : Graph) where
  abbrev held : Connecting → Graph
  held c = reserve (reserved_of c.routes c.bw_allocated) base

  -- The routing loop records what it reserves.
  route_all-held :
      (fes : List FlowEdge) (c c' : Connecting) (g g' : Graph)
      → NoRepeat fes
      → Fresh c.bw_allocated fes
      → g ≡ held c
      → route_all nx a s ns p fes c g ≡ (ok (some c'), g')
      → g' ≡ held c'
  unfolding route_all
  route_all-held [] c c' g g' nr fresh e h =
      let same : c ≡ c' = cc in let same' : g' ≡ g = cc in same' ∙ e ∙ ap held same
  route_all-held (fe ∷ fes) c c' g g' nr fresh e h =
      elim (Option-cases (get fe.source_vnf p.placements)) [
        | inl x ↦ route_all-held fes c c' g g' nr.1 fresh.1 e (ground arith)
        | inr (src, x) ↦ elim (Option-cases (get fe.target_vnf p.placements)) [
          | inl x' ↦ route_all-held fes c c' g g' nr.1 fresh.1 e (ground arith)
          | inr (dst, x') ↦ elim (Bool-cases (src == dst)) [
            | inl one_node ↦
                route_all-held fes (colocate fe c) c' g g' nr.1 fresh.1
                  (e
                    ∙ ap (λ l. reserve l base)
                        (sym
                          (reserved_of-put_route (flow_key fe) [] c.routes c.bw_allocated fresh.0)))
                  (ground arith)
            | inr ne ↦
                elim (Result-cases (
                  route_flow nx min_delay (record s { graph = g }) src dst fe.bandwidth_demand
                    c.delay_remaining ns a.k_paths)) [
                      | inr (y, er) ↦ absurd (ground arith)
                      | inl (r, er) ↦ elim (Bool-cases r.feasible) [
                        | inr no_route ↦ absurd (ground arith)
                        | inl feas ↦
                            let l : Reservations = (r.path_links, fe.bandwidth_demand) ∷ [] in
                            let before : Reservations = reserved_of c.routes c.bw_allocated in
                            route_all-held fes (connect fe r c) c' _ g' nr.1
                              (Fresh-put fe fe.bandwidth_demand c.bw_allocated fes nr.0 fresh.1)
                              (ap (allocate_route_bw r.path_links fe.bandwidth_demand) e
                                ∙ sym (reserve-append before l base)
                                ∙ ap (λ t. reserve t base)
                                    (sym (
                                      reserved_of-put (flow_key fe) r.path_links fe.bandwidth_demand
                                        c.routes c.bw_allocated fresh.0)))
                              (sym (route_all_routed nx a s ns p fe fes c g x x' ne er feas) ∙ h)
                      ]
                    ]
          ]
        ]
      ]

Fresh-nil : (fes : List FlowEdge) → Fresh [] fes
Fresh-nil [] = tt
Fresh-nil (f ∷ fes) = (refl, Fresh-nil fes)

within_domain :
    (s : SubstrateNetwork) (d : ℕ) (cs : Charges)
    → All (λ c. Memᴰ c.0 (sort ltb (nodes_in_domain s d))) cs
    → All (λ c. Memᴰ c.0 (nodes_in_domain s d)) cs
within_domain s d [] h = tt
within_domain s d (c ∷ cs) h =
    (mem-sort ltb c.0 (nodes_in_domain s d) h.0, within_domain s d cs h.1)

-- A feasible attempt of the greedy actor.
attempt-Accounted :
    (nx : Networkx) (a : GreedyDomainActor) (fragment : PlanFragment) (s s' : SubstrateNetwork)
    (r : DomainResponse)
    → NoRepeat fragment.intra_flows
    → place_and_route nx a s (sort ltb (nodes_in_domain s a.domain_id)) fragment s.graph
      ≡ (ok r, s'.graph)
    → r.feasible ≡ true
    → s' ≡ record s { graph = s'.graph }
    → Accounted a.domain_id r s s'
attempt-Accounted nx a fragment s s' r nr h feas e =
    let ns = sort ltb (nodes_in_domain s a.domain_id) in
    let (p, g1, c, first, second, er) =
      attempt-feasible nx a s ns fragment s.graph s'.graph r h feas in
    let done =
      place_all-Charged ns (sort lt_vnf fragment.vnf_assignments)
        (first_placing fragment.delay_budget_ms) p s.graph g1 first in
    let reserved =
      route_all-held nx a s ns p g1 fragment.intra_flows (first_connecting p.delay_remaining) c g1
        s'.graph nr (Fresh-nil fragment.intra_flows) refl second in
    record {
      charges = done.charges;
      within = within_domain s a.domain_id done.charges done.within;
      network =
          e
          ∙ ap (λ g. record s { graph = g })
              (reserved
                ∙ ap (reserve (reserved_of c.routes c.bw_allocated)) done.after
                ∙ ap
                    (λ (t : DomainResponse).
                      reserve (reserved_of t.routes t.bw_allocated)
                        (charge_all done.charges s.graph))
                    (sym er));
    }

-- The greedy actor accounts for what it does: when it refuses the network is unchanged, and when it
-- accepts it has charged CPU and RAM at nodes of its domain only, has reserved on its routes exactly
-- the bandwidth that its answer lists, and has changed nothing else. The flows of the fragment may not
-- join the same two VNFs in the same direction twice.
pub act-Answered :
    (nx : Networkx) (a : GreedyDomainActor) (fragment : PlanFragment) (s s' : SubstrateNetwork)
    (r : DomainResponse)
    → NoRepeat fragment.intra_flows
    → act nx a fragment s ≡ (ok r, s')
    → Answered a.domain_id r s s'
unfolding act
act-Answered nx a fragment s s' r nr h = elim (Bool-cases r.feasible) [
  | inr infeasible ↦ refused infeasible (act-infeasible nx a fragment s s' r h infeasible)
  | inl feas ↦ placed feas (elim (Bool-cases (is_empty fragment)) [
    | inl none_assigned ↦
        let e : r ≡ empty_response a.domain_id = ground arith in
        let same : s' ≡ s = ground arith in
        record { charges = []; within = tt; network = same ∙ rw e refl }
    | inr some_assigned ↦
        elim (Bool-cases (length (sort ltb (nodes_in_domain s a.domain_id)) == 0)) [
          | inl no_nodes ↦ absurd (ground arith)
          | inr has_nodes ↦
              attempt-Accounted nx a fragment s s' r nr (ground arith) feas (ground arith)
        ]
  ])
]

abbrev pub greedy_actor : Networkx → GreedyDomainActor → DomainActor
greedy_actor nx a = record { act = act nx a }

pub greedy_actor-IsContained :
    (nx : Networkx) (a : GreedyDomainActor) → IsContained a.domain_id (greedy_actor nx a)
greedy_actor-IsContained nx a fragment s s' r same_domain nr h =
    act-Answered nx a fragment s s' r nr h
