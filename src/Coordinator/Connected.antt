-- ===== src/Coordinator/Connected.antt =====
-- coordinator.py: what the routing between domains has routed.
use orion_v.Prelude.{
  ℕ, ℤ, ◌-ℤ◌, ◌≡◌, refl, ap, sym, subst, List, [], ◌∷◌, Bool, true, false, arith, All, Option,
  Option-cases, inl, inr, Bool-cases, length, ◌==◌,
}
use Prim.Native.String.{String}
use orion_v.Prelude.Dict.{Dict, get, contains, values, nat_eq, pair_eq, contains-put_self}
use orion_v.Prelude.Keys.{contains-put_kept}
use orion_v.Prelude.Fail.{ok, Result-cases}
use orion_v.Types.{Ident, FlowKey, FlowEdge, SliceRequest}
use orion_v.Types.Mdo.{PlanFragment, DomainResponse, DomainSummary, PlanSummary}
use orion_v.Substrate.{SubstrateNetwork}
use orion_v.Routing.{Networkx, RoutingMode, min_cost, route_cross_domain_flow, allocate_route_bw}
use orion_v.Coordinator.{
  MdoCoordinator, dispatch_to_actors, gather_placements, CrossRouting, no_cross, extended,
  route_cross_flows,
}
use orion_v.Coordinator.Fragments.{build_fragments}
use orion_v.Coordinator.Contract.{flow_key}
use orion_v.Coordinator.Resolve.{Attempt, is_infeasible, total_intra, connect_domains, attempt}

-- Every flow has a route.
abbrev pub AllRouted : List FlowEdge → Dict FlowKey (List Ident) → Type 0
AllRouted flows routes = All (λ f. contains (flow_key f) routes ≡ true) flows

-- Every answer is feasible.
abbrev pub AllFeasible : Dict ℕ DomainResponse → Type 0
AllFeasible responses = All (λ r. r.feasible ≡ true) (values responses)

pub AllFeasible-of_test :
    (responses : Dict ℕ DomainResponse) → is_infeasible responses ≡ false → AllFeasible responses
AllFeasible-of_test [] h = tt
AllFeasible-of_test ((d, r) ∷ rs) h =
    (ground (arith, h), AllFeasible-of_test rs (ground (arith, h)))

pub not_AllFeasible :
    (responses : Dict ℕ DomainResponse) → is_infeasible responses ≡ true → ¬ AllFeasible responses
not_AllFeasible [] h f = cc h
not_AllFeasible ((d, r) ∷ rs) h f =
    let first = f.0 in not_AllFeasible rs (ground (arith, h, first)) f.1

-- What the loop over the flows came to: all routed, or not, and then nothing is kept.
record LoopEnd (fes : List FlowEdge) (c : CrossRouting) (b : Bool) (c' : CrossRouting)
    : Type 0 where
  kept : (k : FlowKey) → b ≡ true → contains k c.routes ≡ true → contains k c'.routes ≡ true
  routed : b ≡ true → AllRouted fes c'.routes
  dropped : b ≡ false → (c' ≡ no_cross) × ((length fes == 0) ≡ false)

module _ (nx : Networkx) (mode : RoutingMode) (placements : Dict Ident Ident) where
  gave_up :
      (fe : FlowEdge) (fes : List FlowEdge) (c : CrossRouting) → LoopEnd (fe ∷ fes) c false no_cross
  gave_up fe fes c = record {
    kept = λ k e h. cc e;
    routed = λ e. cc e;
    dropped = λ e. (refl, ground arith);
  }

  route_cross_flows-LoopEnd :
      (fes : List FlowEdge) (remaining : ℤ) (c c' : CrossRouting) (b : Bool)
      (s s' : SubstrateNetwork)
      → route_cross_flows nx mode placements fes remaining c s ≡ (ok (b, c'), s')
      → LoopEnd fes c b c'
  unfolding route_cross_flows
  route_cross_flows-LoopEnd [] remaining c c' b s s' h =
      let same : c ≡ c' = ground (arith, h) in
      let done : true ≡ b = ground (arith, h) in
      record {
        kept = λ k e x. subst (λ (t : CrossRouting). contains k t.routes ≡ true) same x;
        routed = λ e. tt;
        dropped = λ e. cc (done, e);
      }
  route_cross_flows-LoopEnd (fe ∷ fes) remaining c c' b s s' h =
      elim (Option-cases (get fe.source_vnf placements)) [
        | inl e ↦ stopped (ground (arith, h, e)) (ground (arith, h, e))
        | inr (src, e) ↦ elim (Option-cases (get fe.target_vnf placements)) [
          | inl e' ↦ stopped (ground (arith, h, e, e')) (ground (arith, h, e, e'))
          | inr (dst, e') ↦
              elim (Result-cases
                (route_cross_domain_flow nx mode s src dst fe.bandwidth_demand remaining 3)) [
                  | inr (x, r) ↦ absurd (ground (arith, h, e, e', r))
                  | inl (result, r) ↦ elim (Bool-cases result.feasible) [
                    | inr none_found ↦
                        stopped (ground (arith, h, e, e', r, none_found))
                          (ground (arith, h, e, e', r, none_found))
                    | inl found ↦
                        let next = extended fe result s.graph c in
                        let rest =
                          route_cross_flows-LoopEnd fes (remaining -ℤ result.propagation_delay) next
                            c' b
                            (record s {
                              graph =
                                  allocate_route_bw result.path_links fe.bandwidth_demand s.graph;
                            })
                            s' (ground (arith, h, e, e', r, found)) in
                        record {
                          kept = λ k t x.
                              rest.kept k t
                                (contains-put_kept k (flow_key fe) result.path_links c.routes x);
                          routed = λ t. (
                            rest.kept (flow_key fe) t
                                (contains-put_self (flow_key fe) result.path_links c.routes),
                            rest.routed t,
                          );
                          dropped = λ t. ((rest.dropped t).0, ground arith);
                        }
                  ]
                ]
        ]
      ]
    where
      stopped : false ≡ b → no_cross ≡ c' → LoopEnd (fe ∷ fes) c b c'
      stopped eb ec =
          subst (λ t. LoopEnd (fe ∷ fes) c t c') eb
            (subst (λ (t : CrossRouting). LoopEnd (fe ∷ fes) c false t) ec (gave_up fe fes c))

-- With feasible answers only, the flag says whether every flow has a route; with others it is set.
pub record Connected (responses : Dict ℕ DomainResponse) (flows : List FlowEdge) (b : Bool)
    (c : CrossRouting) : Type 0 where
  pub skipped : is_infeasible responses ≡ true → b ≡ true
  pub routed : is_infeasible responses ≡ false → b ≡ true → AllRouted flows c.routes
  pub dropped : b ≡ false → ¬ AllRouted flows c.routes

module _ (nx : Networkx) (env : Option String) (node_based : Bool) (co : MdoCoordinator)
    (summaries : List DomainSummary) (plan : PlanSummary) (slice_req : SliceRequest)
    (partition : List ℕ) where
  connect_domains-Connected :
      (flows : List FlowEdge) (responses : Dict ℕ DomainResponse) (b : Bool) (c : CrossRouting)
      (s1 s2 : SubstrateNetwork)
      → connect_domains nx env node_based co summaries plan slice_req partition flows responses s1
        ≡ (ok (b, c), s2)
      → Connected responses flows b c
  unfolding connect_domains
  connect_domains-Connected flows responses b c s1 s2 h =
      elim (Bool-cases (is_infeasible responses)) [
        | inl infeasible ↦
            let set : true ≡ b = ground (arith, h, infeasible) in
            record {
              skipped = λ _. sym set;
              routed = λ fine. cc (infeasible, fine);
              dropped = λ off. cc (set, off);
            }
        | inr fine ↦ elim (Bool-cases (length flows == 0)) [
          | inl no_flow ↦
              let set : true ≡ b = ground (arith, h, fine, no_flow) in
              record {
                skipped = λ _. sym set;
                routed = λ _ t. nothing flows no_flow;
                dropped = λ off. cc (set, off);
              }
          | inr some_flow ↦
              let done =
                route_cross_flows-LoopEnd nx min_cost (gather_placements [] (values responses))
                  flows (slice_req.qos.max_e2e_delay -ℤ total_intra responses) no_cross c b s1 s2
                  (ground (arith, h, fine, some_flow)) in
              record {
                skipped = λ bad. cc (fine, bad);
                routed = λ _ t. done.routed t;
                dropped = λ off x.
                    unrouted flows (done.dropped off).1 (
                      subst (λ (t : CrossRouting). AllRouted flows t.routes) (done.dropped off).0
                        x);
              }
        ]
      ]
    where
      nothing : (fs : List FlowEdge) → (length fs == 0) ≡ true → AllRouted fs c.routes
      nothing [] e = tt
      nothing (f ∷ fs) e = absurd (ground (arith, e))

      unrouted : (fs : List FlowEdge) → (length fs == 0) ≡ false → ¬ AllRouted fs []
      unrouted [] e x = absurd (ground (arith, e))
      unrouted (f ∷ fs) e x = cc (x.0)

  -- The parts of an attempt that was dispatched.
  pub record Tried (s : SubstrateNetwork) (t : Attempt) : Type 0 where
    pub fragments : Dict ℕ PlanFragment
    pub flows : List FlowEdge
    pub built : build_fragments plan partition slice_req ≡ ok (fragments, flows)
    pub connected : Connected t.responses flows t.cross_feasible t.cross
    pub in_order : t.chain_order_bad ≡ false

  pub attempt-Tried :
      (s : SubstrateNetwork) (t : Attempt) (s1 : SubstrateNetwork)
      → attempt nx env node_based co summaries plan slice_req partition false s ≡ (ok t, s1)
      → Tried s t
  unfolding attempt
  attempt-Tried s t s1 h = elim (Result-cases (build_fragments plan partition slice_req)) [
    | inr (x, e) ↦ absurd (ground (arith, h, e))
    | inl ((fragments, flows), e) ↦
        let sent = dispatch_to_actors co.domain_actors fragments [] s in
        elim (Result-cases sent.0) [
          | inr (x, e') ↦ absurd (ground (arith, h, e, e'))
          | inl (responses, e') ↦
              let joined =
                connect_domains nx env node_based co summaries plan slice_req partition flows
                  responses sent.1 in
              elim (Result-cases joined.0) [
                | inr (x, e'') ↦ absurd (ground (arith, h, e, e', e''))
                | inl ((b, c), e'') ↦
                    let is : record {
                      chain_order_bad = false;
                      responses = responses;
                      cross_feasible = b;
                      cross = c;
                    }
                        ≡ t =
                      ground (arith, h, e, e', e'') in
                    let ended : joined ≡ (ok (b, c), joined.1) = ap (λ q. (q, joined.1)) e'' in
                    subst (Tried s) is (record {
                      fragments = fragments;
                      flows = flows;
                      built = e;
                      connected =
                          connect_domains-Connected flows responses b c sent.1 joined.1 ended;
                      in_order = refl;
                    })
              ]
        ]
  ]
