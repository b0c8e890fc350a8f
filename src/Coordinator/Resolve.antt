-- ===== src/Coordinator/Resolve.antt =====
-- mdo/coordinator.py: `resolve_arrival`, from the partition on.
use Prim.Native.String.{String}
use orion_v.Prelude.{
  ℕ, ℤ, pos, ◌+ℤ◌, ◌-ℤ◌, ◌*ℤ◌, List, [], ◌∷◌, Bool, true, false, not, Option, none, some, ◌&&◌,
  ◌==◌, ltb, ltb_ℤ, if◌then◌else◌, any, length,
}
use orion_v.Prelude.Dict.{Dict, nat_eq, values}
use orion_v.Prelude.Fail.{Result, ok, err, index_error, assertion_error, Action, pure}
use orion_v.Prelude.Sum.{sum_by}
use orion_v.Types.{Ident, FlowKey, FlowEdge, InfrastructureTier, tier_beq, Vnf, SliceRequest}
use orion_v.Types.Mdo.{DomainResponse, DomainSummary, PlanSummary, ViolationInfo, has_violation}
use orion_v.ChainOrder.{mem, violates}
use orion_v.Substrate.{Graph, SubstrateNetwork, nodes_in_domain}
use orion_v.Routing.{Networkx, min_cost}
use orion_v.Coordinator.{
  MdoCoordinator, dispatch_to_actors, snapshot_node_residuals, restore_node_residuals,
  gather_placements, CrossRouting, no_cross, credit_routes, route_cross_flows, rollback_domains,
}
use orion_v.Coordinator.Fragments.{build_fragments}

-- `MDOResult`, with what `PartitionDecision` records of the attempt.
pub record MdoResult : Type 0 where
  pub request_id : Ident
  pub admitted : Bool
  pub partition : Option (List ℕ)
  pub domain_responses : Dict ℕ DomainResponse
  pub cross_domain_routes : Dict FlowKey (List Ident)
  pub cross_domain_bw : Dict FlowKey ℤ
  pub e2e_delay : ℤ
  pub total_cost : ℤ
  pub violation : Option ViolationInfo

-- What the dispatch and the routing between domains came to.
pub record Attempt : Type 0 where
  pub chain_order_bad : Bool
  pub responses : Dict ℕ DomainResponse
  pub cross_feasible : Bool
  pub cross : CrossRouting

abbrev pub lift : {S A : Type 0} → Result A → Action S A
lift r s = (r, s)

abbrev pub is_infeasible : Dict ℕ DomainResponse → Bool
is_infeasible responses = any (λ r. not r.feasible) (values responses)

abbrev pub total_intra : Dict ℕ DomainResponse → ℤ
total_intra responses = sum_by (λ r. r.intra_delay) (values responses)

-- The rollback of every provisional charge, which a commit does too: the definitive allocation is
-- made later from the plan.
unfoldable pub rollback_attempt : Dict Ident (ℤ × ℤ) → Attempt → Graph → Graph
rollback_attempt snapshot t g =
    credit_routes t.cross.routes t.cross.bw_allocated
      (rollback_domains (values t.responses) (restore_node_residuals snapshot g))

abbrev pub rolled_back : Dict Ident (ℤ × ℤ) → Attempt → SubstrateNetwork → SubstrateNetwork
rolled_back snapshot t s = record s { graph = rollback_attempt snapshot t s.graph }

module _ (nx : Networkx) (env : Option String) (node_based : Bool) (co : MdoCoordinator)
    (summaries : List DomainSummary) (plan : PlanSummary) (slice_req : SliceRequest)
    (partition : List ℕ) where
  -- The cross-domain routing, which is skipped after an infeasible answer and without such flows.
  unfoldable pub connect_domains :
      List FlowEdge → Dict ℕ DomainResponse → Action SubstrateNetwork (Bool × CrossRouting)
  connect_domains flows responses =
      if not (is_infeasible responses) && not (length flows == 0)
      then route_cross_flows nx min_cost (gather_placements [] (values responses)) flows
          (slice_req.qos.max_e2e_delay -ℤ total_intra responses) no_cross
      else pure (true, no_cross)

  unfoldable pub attempt : Bool → Action SubstrateNetwork Attempt
  unfolding connect_domains
  attempt true s = (
    ok (record { chain_order_bad = true; responses = []; cross_feasible = true; cross = no_cross }),
    s,
  )
  attempt false s = elim (build_fragments plan partition slice_req) [
    | err x ↦ (err x, s)
    | ok (fragments, flows) ↦
        let (r, s1) = dispatch_to_actors co.domain_actors fragments [] s in
        elim r [
          | err x ↦ (err x, s1)
          | ok responses ↦
              let (q, s2) = connect_domains flows responses s1 in
              elim q [
                | err x ↦ (err x, s2)
                | ok (feasible, cross) ↦ (
                  ok (record {
                    chain_order_bad = false;
                    responses = responses;
                    cross_feasible = feasible;
                    cross = cross;
                  }),
                  s2,
                )
              ]
        ]
  ]

  abbrev pub e2e_of : Attempt → ℤ
  e2e_of t = total_intra t.responses +ℤ t.cross.total_delay

  abbrev pub inter_bw_of : Attempt → ℤ
  inter_bw_of t = sum_by (λ b. b) (values t.cross.bw_allocated)

  abbrev pub cost_of : Attempt → ℤ
  cost_of t =
      sum_by (λ r. r.resource_cost) (values t.responses) +ℤ co.config.gamma_inter *ℤ inter_bw_of t

  -- The violations of the attempt.
  unfoldable pub judge : Attempt → ViolationInfo
  judge t = record {
    c5b_violated = false;
    c7_violated = ltb_ℤ slice_req.qos.max_e2e_delay (e2e_of t);
    c9_violated = ltb co.config.max_inter_domain_hops t.cross.inter_hops;
    actor_infeasible = is_infeasible t.responses;
    cross_domain_infeasible = not t.cross_feasible;
    chain_order_violated = t.chain_order_bad;
    e2e_delay = e2e_of t;
    e2e_budget = slice_req.qos.max_e2e_delay;
    total_bw = inter_bw_of t;
    min_bw = slice_req.qos.min_throughput;
    inter_domain_hops = t.cross.inter_hops;
    max_inter_domain_hops = co.config.max_inter_domain_hops;
  }

  abbrev pub supports : List DomainSummary → ℕ → InfrastructureTier → Bool
  supports [] d tier = false
  supports (m ∷ ms) d tier =
      if m.domain_id == d && not (any (λ e. e.domain_id == d) ms)
      then any (tier_beq tier) m.supported_tiers
      else supports ms d tier

  -- The frame checks before a commit, node by node or tier by tier.
  abbrev pub nodes_match : SubstrateNetwork → List Vnf → List ℕ → Result (Unit {0})
  nodes_match s vs [] = ok tt
  nodes_match s [] (d ∷ ds) = err index_error
  nodes_match s (v ∷ vs) (d ∷ ds) =
      let rest = nodes_match s vs ds in
      if any (λ n. mem n v.permitted_nodes) (nodes_in_domain s d) then rest else err assertion_error

  abbrev pub tiers_match : List InfrastructureTier → List ℕ → Result (Unit {0})
  tiers_match ts [] = ok tt
  tiers_match [] (d ∷ ds) = err index_error
  tiers_match (t ∷ ts) (d ∷ ds) =
      let rest = tiers_match ts ds in if supports summaries d t then rest else err assertion_error

  unfoldable pub frame_check : SubstrateNetwork → Result (Unit {0})
  frame_check s =
      if node_based
      then nodes_match s slice_req.vnfs partition
      else tiers_match plan.required_tiers partition

  abbrev pub committed : Attempt → MdoResult
  committed t = record {
    request_id = slice_req.request_id;
    admitted = true;
    partition = some partition;
    domain_responses = t.responses;
    cross_domain_routes = t.cross.routes;
    cross_domain_bw = t.cross.bw_allocated;
    e2e_delay = e2e_of t;
    total_cost = cost_of t;
    violation = none;
  }

  abbrev pub rejected : ViolationInfo → MdoResult
  rejected v = record {
    request_id = slice_req.request_id;
    admitted = false;
    partition = none;
    domain_responses = [];
    cross_domain_routes = [];
    cross_domain_bw = [];
    e2e_delay = pos 0;
    total_cost = pos 0;
    violation = some v;
  }

  abbrev pub conclude : Dict Ident (ℤ × ℤ) → Attempt → Action SubstrateNetwork MdoResult
  conclude snapshot t s =
      if has_violation (judge t)
      then (ok (rejected (judge t)), rolled_back snapshot t s)
      else elim (frame_check s) [
        | err x ↦ (err x, s)
        | ok _ ↦ (ok (committed t), rolled_back snapshot t s)
      ]

  unfoldable pub resolve_partition : Action SubstrateNetwork MdoResult
  unfolding attempt judge frame_check rollback_attempt
  resolve_partition s = elim (violates env partition) [
    | err x ↦ (err x, s)
    | ok bad ↦
        let (r, s1) = attempt bad s in
        elim r [ err x ↦ (err x, s1) | ok t ↦ conclude (snapshot_node_residuals s partition) t s1 ]
  ]
