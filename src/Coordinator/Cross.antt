-- ===== src/Coordinator/Cross.antt =====
-- coordinator.py: the bandwidth that `_route_cross_domain_flows` reserves.

use orion_v.Prelude.{
  ℕ, ℤ, ◌-ℤ◌, ◌≡◌, refl, ap, sym, ◌∙◌, List, [], ◌∷◌, ◌++◌, Bool, false, arith, All, some, inl, inr,
  Bool-cases,
}
use orion_v.Prelude.Dict.{
  Dict, get, get_or, put, contains, pair_eq, nat_eq, pair_beq, pair_beq_iff, get_or-put,
}
use orion_v.Prelude.Fail.{ok, Result-cases}
use orion_v.Types.{Ident, FlowKey, FlowEdge}
use orion_v.Substrate.{SubstrateNetwork}
use orion_v.Routing.{Networkx, RoutingMode, RouteResult, route_cross_domain_flow, allocate_route_bw}
use orion_v.Greedy.{release}
use orion_v.Coordinator.{CrossRouting, no_cross, credit_routes, extended, route_cross_flows}
use orion_v.Coordinator.Ledger.{
  Reservations, reserve, reserved_of, reserve-append, release-reserve, credit_routes-eq,
}
use orion_v.Coordinator.Contract.{flow_key, NoRepeat}

pub reserved_of-put_route :
    (k : ℕ × ℕ) (ls : List Ident) (routes : Dict FlowKey (List Ident)) (bw : Dict FlowKey ℤ)
    → contains k bw ≡ false
    → reserved_of (put k ls routes) bw ≡ reserved_of routes bw
reserved_of-put_route k ls routes [] new = refl
reserved_of-put_route k ls routes ((j, b) ∷ bw) new =
    let here : get_or j [] (put k ls routes) ≡ get_or j [] routes =
      get_or-put k j ls [] routes ∙ rw (apart new) refl in
    cc (here, reserved_of-put_route k ls routes bw (ground arith))
  where
    apart : contains k ((j, b) ∷ bw) ≡ false → pair_beq j k ≡ false
    apart h = ground (arith, pair_beq_iff j k, pair_beq_iff k j)

reserved_of-put_bw :
    (k : ℕ × ℕ) (b : ℤ) (routes : Dict FlowKey (List Ident)) (bw : Dict FlowKey ℤ)
    → contains k bw ≡ false
    → reserved_of routes (put k b bw) ≡ reserved_of routes bw ++ (get_or k [] routes, b) ∷ []
reserved_of-put_bw k b routes [] new = refl
reserved_of-put_bw k b routes ((j, c) ∷ bw) new = ground (arith, reserved_of-put_bw k b routes bw)

-- A route under a new key is taken back last.
pub reserved_of-put :
    (k : ℕ × ℕ) (ls : List Ident) (b : ℤ) (routes : Dict FlowKey (List Ident)) (bw : Dict FlowKey ℤ)
    → contains k bw ≡ false
    → reserved_of (put k ls routes) (put k b bw) ≡ reserved_of routes bw ++ (ls, b) ∷ []
reserved_of-put k ls b routes bw new =
    let e : get_or k [] (put k ls routes) ≡ ls =
      get_or-put k k ls [] routes ∙ rw ((pair_beq_iff k k).1 refl) refl in
    reserved_of-put_bw k b (put k ls routes) bw new
    ∙ ap (λ l. l ++ (get_or k [] (put k ls routes), b) ∷ [])
        (reserved_of-put_route k ls routes bw new)
    ∙ ap (λ l. reserved_of routes bw ++ (l, b) ∷ []) e

-- None of the flows is recorded yet.
abbrev pub Fresh : Dict FlowKey ℤ → List FlowEdge → Type 0
Fresh bw fes = All (λ f. contains (flow_key f) bw ≡ false) fes

contains-put_other :
    (j k : ℕ × ℕ) (b : ℤ) (bw : Dict FlowKey ℤ)
    → pair_beq j k ≡ false
    → contains j bw ≡ false
    → contains j (put k b bw) ≡ false
contains-put_other j k b [] ne h = ground arith
contains-put_other j k b ((i, c) ∷ bw) ne h = ground (arith, contains-put_other j k b bw ne)

pub Fresh-put :
    (fe : FlowEdge) (b : ℤ) (bw : Dict FlowKey ℤ) (fes : List FlowEdge)
    → All (λ f. pair_beq (flow_key fe) (flow_key f) ≡ false) fes
    → Fresh bw fes
    → Fresh (put (flow_key fe) b bw) fes
Fresh-put fe b bw [] ne h = tt
Fresh-put fe b bw (f ∷ fes) ne h = (
  contains-put_other (flow_key f) (flow_key fe) b bw (flip (flow_key fe) (flow_key f) ne.0) h.0,
  Fresh-put fe b bw fes ne.1 h.1,
)
  where
    flip : (j k : ℕ × ℕ) → pair_beq j k ≡ false → pair_beq k j ≡ false
    flip j k h = ground (arith, pair_beq_iff j k, pair_beq_iff k j)

-- Both ends of the flow are placed.
abbrev pub HasEnds : Dict Ident Ident → FlowEdge → Type 0
HasEnds placements fe =
    (n : Ident) × (m : Ident) × (get fe.source_vnf placements ≡ some n)
    × (get fe.target_vnf placements ≡ some m)

module _ (nx : Networkx) (mode : RoutingMode) (placements : Dict Ident Ident)
    (base : SubstrateNetwork) where
  abbrev pub reserved_on : CrossRouting → SubstrateNetwork
  reserved_on c = record base { graph = reserve (reserved_of c.routes c.bw_allocated) base.graph }

  extended-reserved_on :
      (fe : FlowEdge) (r : RouteResult) (c : CrossRouting) (s : SubstrateNetwork)
      → contains (flow_key fe) c.bw_allocated ≡ false
      → s ≡ reserved_on c
      → record s { graph = allocate_route_bw r.path_links fe.bandwidth_demand s.graph }
        ≡ reserved_on (extended fe r s.graph c)
  extended-reserved_on fe r c s new e =
      let l : Reservations = (r.path_links, fe.bandwidth_demand) ∷ [] in
      let before : Reservations = reserved_of c.routes c.bw_allocated in
      ap
        (λ (t : SubstrateNetwork). record t {
          graph = allocate_route_bw r.path_links fe.bandwidth_demand t.graph;
        })
        e
      ∙ ap (λ h. record base { graph = h })
          (sym (reserve-append before l base.graph)
            ∙ ap (λ t. reserve t base.graph)
                (sym (
                  reserved_of-put (flow_key fe) r.path_links fe.bandwidth_demand c.routes
                    c.bw_allocated new)))

  -- Whatever the routing answers, what it has reserved is what it lists: the routed flows, or nothing.
  pub route_cross_flows-reserved_on :
      (fes : List FlowEdge) (remaining : ℤ) (c c' : CrossRouting) (b : Bool)
      (s s' : SubstrateNetwork)
      → NoRepeat fes
      → Fresh c.bw_allocated fes
      → All (HasEnds placements) fes
      → s ≡ reserved_on c
      → route_cross_flows nx mode placements fes remaining c s ≡ (ok (b, c'), s')
      → s' ≡ reserved_on c'
  unfolding route_cross_flows
  route_cross_flows-reserved_on [] remaining c c' b s s' nr fresh ends e h =
      let same : c ≡ c' = cc in let same' : s' ≡ s = cc in same' ∙ e ∙ ap reserved_on same
  route_cross_flows-reserved_on (fe ∷ fes) remaining c c' b s s' nr fresh ends e h =
      let (n, m, en, em) = ends.0 in
      elim (Result-cases (route_cross_domain_flow nx mode s n m fe.bandwidth_demand remaining 3)) [
        | inr (x, er) ↦ absurd (ground arith)
        | inl (r, er) ↦ elim (Bool-cases r.feasible) [
          | inl feas ↦
              route_cross_flows-reserved_on fes (remaining -ℤ r.propagation_delay)
                (extended fe r s.graph c) c' b _ s' nr.1
                (Fresh-put fe fe.bandwidth_demand c.bw_allocated fes nr.0 fresh.1) ends.1
                (extended-reserved_on fe r c s fresh.0 e) (ground arith)
          | inr stop ↦
              let back : credit_routes c.routes c.bw_allocated s.graph ≡ base.graph =
                credit_routes-eq c.routes c.bw_allocated s.graph
                ∙ ap
                    (λ (t : SubstrateNetwork).
                      release (reserved_of c.routes c.bw_allocated) t.graph)
                    e
                ∙ release-reserve (reserved_of c.routes c.bw_allocated) base.graph in
              let none_left : c' ≡ no_cross = ground arith in
              let here : s' ≡ record s { graph = credit_routes c.routes c.bw_allocated s.graph } =
                ground arith in
              here
              ∙ ap
                  (λ (t : SubstrateNetwork). record t {
                    graph = credit_routes c.routes c.bw_allocated s.graph;
                  })
                  e
              ∙ ap (λ h. record base { graph = h }) back
              ∙ ap reserved_on (sym none_left)
        ]
      ]
