-- ===== src/Coordinator/Unchanged.antt =====
-- coordinator.py: the network after an arrival.
use Prim.Native.String.{String}
use orion_v.Prelude.{
  ℕ, ℤ, ◌-ℤ◌, ◌≡◌, refl, ap, ◌∙◌, List, [], ◌∷◌, Bool, true, false, arith, All, Option, inl, inr,
  Bool-cases, ◌==◌, length,
}
use orion_v.Prelude.Dict.{Dict, values, nat_eq}
use orion_v.Prelude.Fail.{ok, Result-cases}
use orion_v.Types.{Ident, FlowEdge, SliceRequest}
use orion_v.Types.Mdo.{PlanFragment, DomainResponse, DomainSummary, PlanSummary, has_violation}
use orion_v.ChainOrder.{violates}
use orion_v.Substrate.{SubstrateNetwork}
use orion_v.Routing.{Networkx, min_cost}
use orion_v.Coordinator.{
  MdoCoordinator, CrossRouting, no_cross, dispatch_to_actors, snapshot_node_residuals,
  gather_placements,
}
use orion_v.Coordinator.Fragments.{build_fragments}
use orion_v.Coordinator.Ledger.{Reservations, reserve, reserved_of}
use orion_v.Coordinator.Contract.{NoRepeat, AllContained, Unanswered, dispatch-Pending}
use orion_v.Coordinator.Cross.{HasEnds, Fresh, route_cross_flows-reserved_on}
use orion_v.Coordinator.Sendable.{build_fragments-IsSendable}
use orion_v.Coordinator.Resolve.{
  MdoResult, Attempt, is_infeasible, total_intra, connect_domains, attempt, judge, frame_check,
  rolled_back, conclude, resolve_partition,
}
use orion_v.Coordinator.Settled.{Settled, Settled-rollback}

-- When every answer is feasible, the answers place both ends of every flow between two domains.
abbrev pub PlacesEnds :
    MdoCoordinator → PlanSummary → List ℕ → SliceRequest → SubstrateNetwork → Type 0
PlacesEnds co plan partition slice_req s =
    (fragments : Dict ℕ PlanFragment) (flows : List FlowEdge) (responses : Dict ℕ DomainResponse)
    (s1 : SubstrateNetwork)
    → build_fragments plan partition slice_req ≡ ok (fragments, flows)
    → dispatch_to_actors co.domain_actors fragments [] s ≡ (ok responses, s1)
    → is_infeasible responses ≡ false
    → All (HasEnds (gather_placements [] (values responses))) flows

module _ (nx : Networkx) (env : Option String) (node_based : Bool) (co : MdoCoordinator)
    (summaries : List DomainSummary) (plan : PlanSummary) (slice_req : SliceRequest)
    (partition : List ℕ) where
  -- The cross-domain routing, on the network after the dispatch.
  connect_domains-reserved_on :
      (flows : List FlowEdge) (responses : Dict ℕ DomainResponse) (b : Bool) (c : CrossRouting)
      (s1 s2 : SubstrateNetwork)
      → NoRepeat flows
      → (is_infeasible responses ≡ false
          → All (HasEnds (gather_placements [] (values responses))) flows)
      → connect_domains nx env node_based co summaries plan slice_req partition flows responses s1
        ≡ (ok (b, c), s2)
      → s2 ≡ record s1 { graph = reserve (reserved_of c.routes c.bw_allocated) s1.graph }
  unfolding connect_domains
  connect_domains-reserved_on flows responses b c s1 s2 nr ends h =
      elim (Bool-cases (is_infeasible responses)) [
        | inl infeasible ↦ skipped (ground arith) (ground arith)
        | inr fine ↦ elim (Bool-cases (length flows == 0)) [
          | inl no_flow ↦ skipped (ground arith) (ground arith)
          | inr some_flow ↦
              route_cross_flows-reserved_on nx min_cost (gather_placements [] (values responses)) s1
                flows (slice_req.qos.max_e2e_delay -ℤ total_intra responses) no_cross c b s1 s2 nr
                (nothing flows) (ends fine) refl (ground arith)
        ]
      ]
    where
      skipped :
          c ≡ no_cross
          → s2 ≡ s1
          → s2 ≡ record s1 { graph = reserve (reserved_of c.routes c.bw_allocated) s1.graph }
      skipped e e' = rw e e'

      nothing : (fes : List FlowEdge) → Fresh [] fes
      nothing [] = tt
      nothing (f ∷ fes) = (refl, nothing fes)

  -- A conclusion that does not raise has rolled everything back.
  conclude-rolled_back :
      (snapshot : Dict Ident (ℤ × ℤ)) (t : Attempt) (s1 : SubstrateNetwork) (r : MdoResult)
      (s' : SubstrateNetwork)
      → conclude nx env node_based co summaries plan slice_req partition snapshot t s1 ≡ (ok r, s')
      → s' ≡ rolled_back snapshot t s1
  conclude-rolled_back snapshot t s1 r s' h =
      elim (Bool-cases
        (has_violation (judge nx env node_based co summaries plan slice_req partition t))) [
          | inl violated ↦ ground arith
          | inr passes ↦
              elim (Result-cases
                (frame_check nx env node_based co summaries plan slice_req partition s1)) [
                  | inl (u, e) ↦ ground arith
                  | inr (x, e) ↦ absurd (ground arith)
                ]
        ]

  module _ (s : SubstrateNetwork) (laws : AllContained co.domain_actors)
      (nr : NoRepeat slice_req.flow_edges) (ends : PlacesEnds co plan partition slice_req s) where
    settle :
        (fragments : Dict ℕ PlanFragment) (flows : List FlowEdge)
        (responses : Dict ℕ DomainResponse) (b : Bool) (c : CrossRouting) (s1 s2 : SubstrateNetwork)
        (t : Attempt)
        → build_fragments plan partition slice_req ≡ ok (fragments, flows)
        → dispatch_to_actors co.domain_actors fragments [] s ≡ (ok responses, s1)
        → connect_domains nx env node_based co summaries plan slice_req partition flows responses s1
          ≡ (ok (b, c), s2)
        → t.responses ≡ responses
        → t.cross ≡ c
        → Settled partition s t s2
    settle fragments flows responses b c s1 s2 t built sent joined e e' =
        let (unique, send, flows_nr) =
          build_fragments-IsSendable plan partition slice_req fragments flows built nr in
        let p =
          dispatch-Pending partition s co.domain_actors fragments [] responses s s1 laws unique send
            (unanswered fragments) (record { charges = []; within = tt; network = refl }) sent in
        let x : Reservations = reserved_of c.routes c.bw_allocated in
        let after =
          connect_domains-reserved_on flows responses b c s1 s2 flows_nr
            (ends fragments flows responses s1 built sent) joined in
        record {
          charges = p.charges;
          within = p.within;
          network =
              after
              ∙ ap (λ (q : SubstrateNetwork). record q { graph = reserve x q.graph }) p.network
              ∙ rw (e, e') refl;
        }
      where
        unanswered : (fs : Dict ℕ PlanFragment) → Unanswered partition s [] fs
        unanswered [] = tt
        unanswered (f ∷ fs) = (refl, unanswered fs)

    attempt-Settled :
        (bad : Bool) (t : Attempt) (s2 : SubstrateNetwork)
        → attempt nx env node_based co summaries plan slice_req partition bad s ≡ (ok t, s2)
        → Settled partition s t s2
    unfolding attempt
    attempt-Settled true t s2 h =
        let none_sent : t ≡ record {
          chain_order_bad = true;
          responses = [];
          cross_feasible = true;
          cross = no_cross;
        } =
          ground arith in
        let same : s2 ≡ s = ground arith in
        record { charges = []; within = tt; network = same ∙ rw none_sent refl }
    attempt-Settled false t s2 h = elim (Result-cases (build_fragments plan partition slice_req)) [
      | inr (x, e) ↦ absurd (ground arith)
      | inl ((fragments, flows), e) ↦
          elim (Result-cases (dispatch_to_actors co.domain_actors fragments [] s).0) [
            | inr (x, e') ↦ absurd (ground arith)
            | inl (responses, e') ↦
                let s1 = (dispatch_to_actors co.domain_actors fragments [] s).1 in
                let sent : dispatch_to_actors co.domain_actors fragments [] s ≡ (ok responses, s1) =
                  ap (λ q. (q, s1)) e' in
                let joined =
                  connect_domains nx env node_based co summaries plan slice_req partition flows
                    responses s1 in
                elim (Result-cases joined.0) [
                  | inr (x, e'') ↦ absurd (ground arith)
                  | inl ((b, c), e'') ↦
                      settle fragments flows responses b c s1 s2 t e sent (ground arith)
                        (ground arith) (ground arith)
                ]
          ]
    ]

    -- An arrival leaves the network as it found it. Whether it ends in a commit or in a rejection,
    -- `resolve_arrival` gives back every residual of every node and link, provided that each domain
    -- actor keeps to its contract (it charges nodes of its own domain and the bandwidth that its answer
    -- lists, or nothing when it refuses), that no two flows of the request join the same two VNFs in the
    -- same direction, and that feasible answers place both ends of every flow between two domains.
    pub resolve_partition-unchanged :
        (r : MdoResult) (s' : SubstrateNetwork)
        → resolve_partition nx env node_based co summaries plan slice_req partition s ≡ (ok r, s')
        → s' ≡ s
    unfolding resolve_partition
    resolve_partition-unchanged r s' h = elim (Result-cases (violates env partition)) [
      | inr (x, e) ↦ absurd (ground arith)
      | inl (bad, e) ↦
          let tried = attempt nx env node_based co summaries plan slice_req partition bad s in
          elim (Result-cases tried.0) [
            | inr (x, e') ↦ absurd (ground arith)
            | inl (t, e') ↦
                let done : tried ≡ (ok t, tried.1) = ap (λ q. (q, tried.1)) e' in
                let settled = attempt-Settled bad t tried.1 done in
                let snapshot = snapshot_node_residuals s partition in
                let ended : conclude nx env node_based co summaries plan slice_req partition
                      snapshot t tried.1
                    ≡ (ok r, s') =
                  ground arith in
                conclude-rolled_back snapshot t tried.1 r s' ended
                ∙ ap (λ g. record tried.1 { graph = g })
                    (Settled-rollback partition s t tried.1 settled)
                ∙ ap (λ (q : SubstrateNetwork). record q { graph = s.graph }) settled.network
          ]
    ]
