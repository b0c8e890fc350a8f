-- ===== src/Coordinator/Verdict.antt =====
-- coordinator.py: when `resolve_arrival` commits and when it rejects.
use Prim.Native.String.{String}
use orion_v.Prelude.{
  ℕ, ◌≤ℤ◌, ◌≤◌, ◌≡◌, ◌↔◌, some, none, ℤ, ◌+ℤ◌, List, Bool, true, false, Option, ◌⊎◌, ltb, ltb_ℤ,
}
use orion_v.Prelude.Fail.{ok}
use orion_v.Types.{FlowEdge, SliceRequest}
use orion_v.Types.Mdo.{PlanFragment, DomainSummary, PlanSummary, ViolationInfo}
use orion_v.Prelude.Dict.{Dict, values}
use orion_v.Prelude.Sum.{sum_by}
use orion_v.ChainOrder.{violates}
use orion_v.Substrate.{SubstrateNetwork}
use orion_v.Routing.{Networkx}
use orion_v.Coordinator.{MdoCoordinator}
use orion_v.Coordinator.Fragments.{build_fragments}
use orion_v.Coordinator.Resolve.{MdoResult, Attempt, attempt, judge, frame_check}
use orion_v.Coordinator.Connected.{AllRouted, AllFeasible}

module _ (nx : Networkx) (env : Option String) (node_based : Bool) (co : MdoCoordinator)
    (summaries : List DomainSummary) (plan : PlanSummary) (slice_req : SliceRequest)
    (partition : List ℕ) (s : SubstrateNetwork) where
  -- The end-to-end delay: that of every domain, and that of the routes between them.
  abbrev pub delay_of : Attempt → ℤ
  delay_of t = sum_by (λ r. r.intra_delay) (values t.responses) +ℤ t.cross.total_delay

  -- The result of a commit has the partition, the answers, the routes and the delay of the attempt.
  pub record IsCommitted (t : Attempt) (r : MdoResult) : Type 0 where
    pub admitted : r.admitted ≡ true
    pub partition_kept : r.partition ≡ some partition
    pub answers : r.domain_responses ≡ t.responses
    pub routes : r.cross_domain_routes ≡ t.cross.routes
    pub bandwidths : r.cross_domain_bw ≡ t.cross.bw_allocated
    pub delay_kept : r.e2e_delay ≡ delay_of t
    pub no_violation : r.violation ≡ none

  -- What the attempt came to, against the fields of a violation: each field is set exactly if its
  -- condition fails.
  pub record Reasons (t : Attempt) (flows : List FlowEdge) (v : ViolationInfo) : Type 0 where
    pub actors : (v.actor_infeasible ≡ false) ↔ AllFeasible t.responses
    pub routing :
        (v.cross_domain_infeasible ≡ true)
        ↔ (AllFeasible t.responses × ¬ AllRouted flows t.cross.routes)
    pub delay : (v.c7_violated ≡ false) ↔ (delay_of t ≤ℤ slice_req.qos.max_e2e_delay)
    pub hops : (v.c9_violated ≡ false) ↔ (t.cross.inter_hops ≤ co.config.max_inter_domain_hops)
    pub order : v.chain_order_violated ≡ false
    pub bandwidth : v.c5b_violated ≡ false

  -- The outcome of an arrival that does not raise.
  pub data Verdict (r : MdoResult) : Type 0 where
    commits :
        (t : Attempt) (s1 : SubstrateNetwork) (fragments : Dict ℕ PlanFragment)
        (flows : List FlowEdge)
        → violates env partition ≡ ok false
        → build_fragments plan partition slice_req ≡ ok (fragments, flows)
        → attempt nx env node_based co summaries plan slice_req partition false s ≡ (ok t, s1)
        → AllFeasible t.responses
        → AllRouted flows t.cross.routes
        → delay_of t ≤ℤ slice_req.qos.max_e2e_delay
        → t.cross.inter_hops ≤ co.config.max_inter_domain_hops
        → frame_check nx env node_based co summaries plan slice_req partition s1 ≡ ok tt
        → IsCommitted t r
        → Verdict r
    rejects :
        (t : Attempt) (s1 : SubstrateNetwork) (fragments : Dict ℕ PlanFragment)
        (flows : List FlowEdge) (v : ViolationInfo)
        → violates env partition ≡ ok false
        → build_fragments plan partition slice_req ≡ ok (fragments, flows)
        → attempt nx env node_based co summaries plan slice_req partition false s ≡ (ok t, s1)
        → (¬ AllFeasible t.responses ⊎ ¬ AllRouted flows t.cross.routes)
          ⊎ ((ltb_ℤ slice_req.qos.max_e2e_delay (delay_of t) ≡ true)
              ⊎ (ltb co.config.max_inter_domain_hops t.cross.inter_hops ≡ true))
        → Reasons t flows v
        → r.admitted ≡ false
        → r.violation ≡ some v
        → Verdict r
    scattered :
        (v : ViolationInfo)
        → violates env partition ≡ ok true
        → v.chain_order_violated ≡ true
        → v.actor_infeasible ≡ false
        → v.cross_domain_infeasible ≡ false
        → r.admitted ≡ false
        → r.violation ≡ some v
        → Verdict r

  abbrev judged : Attempt → ViolationInfo
  judged t = judge nx env node_based co summaries plan slice_req partition t
