-- ===== src/Episode/Coordinated.antt =====
-- episode_runner.py with coordinator.py: the event loop with the coordinator as it is modelled.
use Prim.Native.String.{String}
use orion_v.Prelude.{
  ℕ, ℤ, ◌≡◌, ap, ◌∙◌, List, true, Option, none, some, arith, inl, inr, Bool, Bool-cases,
}
use orion_v.Prelude.Fail.{ok, err, Result-cases, Action}
use orion_v.Types.{SliceRequest}
use orion_v.Types.Mdo.{DomainSummary, PlanSummary, RewardComponents, has_violation}
use orion_v.Substrate.{SubstrateNetwork}
use orion_v.ChainOrder.{violates}
use orion_v.Routing.{Networkx}
use orion_v.Coordinator.{MdoCoordinator, snapshot_node_residuals}
use orion_v.Coordinator.Contract.{AllContained}
use orion_v.Coordinator.Placed.{AllPlace, placers-PlacesEnds}
use orion_v.Coordinator.Resolve.{
  MdoResult, Attempt, attempt, judge, frame_check, conclude, resolve_partition,
}
use orion_v.Coordinator.Unchanged.{resolve_partition-unchanged}
use orion_v.Episode.Runner.{Outcome, PartitionDecision, Setup}
use orion_v.Episode.Books.{IsCareful}

-- The coordinator, with what stands for its policy: the summaries that it collects, the partition that
-- the policy decides on, and the decision and the reward that go into the result.
pub record Coordination : Type 0 where
  pub nx : Networkx
  pub env : Option String
  pub node_based : Bool
  pub coordinator : MdoCoordinator
  pub summaries : SliceRequest → PlanSummary → SubstrateNetwork → List DomainSummary
  pub partition : SliceRequest → PlanSummary → SubstrateNetwork → List ℕ
  pub decision : MdoResult → Option PartitionDecision
  pub reward : MdoResult → RewardComponents

-- `resolve_arrival`
abbrev pub resolve_arrival :
    Coordination → SliceRequest → PlanSummary → Option ℤ → Action SubstrateNetwork Outcome
resolve_arrival k req plan cost s =
    let (r, s') =
      resolve_partition k.nx k.env k.node_based k.coordinator (k.summaries req plan s) plan req
        (k.partition req plan s) s in
    elim r [
      | err x ↦ (err x, s')
      | ok mdo ↦ (
        ok (record {
          mdo = mdo;
          decision = k.decision mdo;
          reward = k.reward mdo;
          revoked_by = none;
        }),
        s',
      )
    ]

-- The event loop is run with this coordinator.
abbrev pub coordinated : Setup → Coordination → Setup
coordinated c k = record c { resolve_arrival = resolve_arrival k }

module _ (nx : Networkx) (env : Option String) (node_based : Bool) (co : MdoCoordinator)
    (summaries : List DomainSummary) (plan : PlanSummary) (req : SliceRequest)
    (partition : List ℕ) where
  -- An admission comes with its partition.
  resolve_partition-partition :
      (s s' : SubstrateNetwork) (r : MdoResult)
      → resolve_partition nx env node_based co summaries plan req partition s ≡ (ok r, s')
      → r.admitted ≡ true
      → r.partition ≡ some partition
  unfolding resolve_partition
  resolve_partition-partition s s' r h adm = elim (Result-cases (violates env partition)) [
    | inr (x, e) ↦ absurd (ground (arith, h, e))
    | inl (bad, e) ↦
        let tried = attempt nx env node_based co summaries plan req partition bad s in
        elim (Result-cases tried.0) [
          | inr (x, e') ↦ absurd (ground (arith, h, e, e'))
          | inl (t, e') ↦ ended t tried.1 (ground (arith, h, e, e'))
        ]
  ]
    where
      ended :
          (t : Attempt) (s1 : SubstrateNetwork)
          → conclude nx env node_based co summaries plan req partition
              (snapshot_node_residuals s partition)
              t
              s1
            ≡ (ok r, s')
          → r.partition ≡ some partition
      ended t s1 h =
          elim (Bool-cases
            (has_violation (judge nx env node_based co summaries plan req partition t))) [
              | inl violated ↦ absurd (ground (arith, h, violated, adm))
              | inr passes ↦
                  elim (Result-cases
                    (frame_check nx env node_based co summaries plan req partition s1)) [
                      | inl (u, e) ↦ ground (arith, h, passes, e)
                      | inr (x, e) ↦ absurd (ground (arith, h, passes, e))
                    ]
            ]

-- The result that an outcome is made of.
resolve_arrival-resolve_partition :
    (k : Coordination) (req : SliceRequest) (plan : PlanSummary) (cost : Option ℤ)
    (s s' : SubstrateNetwork) (o : Outcome)
    → resolve_arrival k req plan cost s ≡ (ok o, s')
    → resolve_partition k.nx k.env k.node_based k.coordinator
        (k.summaries req plan s)
        plan
        req
        (k.partition req plan s)
        s
      ≡ (ok o.mdo, s')
resolve_arrival-resolve_partition k req plan cost s s' o h =
    let run =
      resolve_partition k.nx k.env k.node_based k.coordinator (k.summaries req plan s) plan req
        (k.partition req plan s) s in
    elim (Result-cases run.0) [
      | inr (x, e) ↦ absurd (ground (arith, h, e))
      | inl (r, e) ↦
          let same : r ≡ o.mdo = ground (arith, h, e) in
          let last : run.1 ≡ s' = ground (arith, h, e) in
          let ended : run ≡ (ok r, run.1) = ap (λ t. (t, run.1)) e in
          ended ∙ ap (λ t. (ok t, run.1)) same ∙ ap (λ t. (ok o.mdo, t)) last
    ]

module _ (c : Setup) (k : Coordination) (laws : AllContained k.coordinator.domain_actors)
    (places : AllPlace k.coordinator.domain_actors) where
  -- With actors that keep to their contract.
  pub coordinated-IsCareful : IsCareful (coordinated c k)
  coordinated-IsCareful = record {
    keeps = λ req plan cost s s' o nr h.
        resolve_partition-unchanged k.nx k.env k.node_based k.coordinator (k.summaries req plan s)
          plan req (k.partition req plan s) s laws nr
          (placers-PlacesEnds k.coordinator plan (k.partition req plan s) req s places nr) o.mdo s'
          (resolve_arrival-resolve_partition k req plan cost s s' o h);
    commits = λ req plan cost s s' o h adm.
        let has =
          resolve_partition-partition k.nx k.env k.node_based k.coordinator (k.summaries req plan s)
            plan req (k.partition req plan s) s s' o.mdo
            (resolve_arrival-resolve_partition k req plan cost s s' o h) adm in
        ground (arith, has, adm);
  }
