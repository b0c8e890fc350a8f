-- ===== src/Structural/Plan/Sound.antt =====
-- structural_checker.py: what a plan that passes the check satisfies.
use orion_v.Prelude.{
  pos, ◌≤ℤ◌, ◌≡◌, refl, subst, inl, inr, List, [], ◌∷◌, map, true, false, not, Option, none, some,
  arith, All, ◌==◌, ==_iff, any, Bool-cases, Option-cases,
}
use orion_v.Prelude.Dict.{Dict, Eq, nat_eq, pair_eq, get, get_of_contains}
use orion_v.Prelude.Keys.{contains_of_get}
use orion_v.Types.{Ident, InfrastructureTier}
use orion_v.Structural.{mem, Adjacency}
use orion_v.Structural.Reach.{Route, domains_reachable_iff}
use orion_v.Structural.Plan.{
  or_else, collect, mem_tier, find_domain, is_known, check_domain, tier_violations, check_tier,
  domain_used, check_used, reachable, domain_of_vnf, flow_violations, check_flow, cpu_of, ram_of,
  domain_map, vnf_spec_map, assignment_map, request_vnf_ids, plan_vnf_ids, links_by_pair, adjacency,
  violations_of, check_plan,
}
use orion_v.Structural.Data.{
  VnfSpec, Domain, DomainLink, Assignment, FlowRequirement, AgentPlan, AbstractTopology, schema,
  missing_from_plan, not_in_request, unknown_domain, Violation,
}
use orion_v.Prelude.Totals.{is_for, total}
use orion_v.Structural.Plan.Empty.{
  append-nil, collect-nil, All-imp, All-also, All-occurs, All-listed, report-nil, difference-nil,
  index_by-contains,
}
use orion_v.Structural.Plan.Room.{check_used-total, check_link-total, crossing, bw_of, is_direct}

violations-nil : (xs : List Violation) → elim xs [ [] ↦ true | _ ∷ _ ↦ false ] ≡ true → xs ≡ []
violations-nil [] h = refl
violations-nil (x ∷ xs) h = cc

-- The tier that is required, or any that is permitted if none is, among those of the domain.
abbrev pub TierFits : Option InfrastructureTier → VnfSpec → Domain → Type 0
TierFits (some t) spec domain =
    (mem_tier t spec.permitted_tiers ≡ true) × (mem_tier t domain.dominant_tiers ≡ true)
TierFits none spec domain = any (λ t. mem_tier t domain.dominant_tiers) spec.permitted_tiers ≡ true

tier_violations-TierFits :
    (v : Ident) (t : Option InfrastructureTier) (spec : VnfSpec) (domain : Domain)
    → tier_violations v t spec domain ≡ []
    → TierFits t spec domain
tier_violations-TierFits v none spec domain h = ground arith
tier_violations-TierFits v (some t) spec domain h = (ground arith, ground arith)

module _ (plan : AgentPlan) (vnfs : List VnfSpec) (abstract_topology : AbstractTopology) where
  abbrev dm : Dict Ident Domain
  dm = domain_map plan vnfs abstract_topology

  abbrev sm : Dict Ident VnfSpec
  sm = vnf_spec_map plan vnfs abstract_topology

  abbrev am : Dict Ident Assignment
  am = assignment_map plan vnfs abstract_topology

  abbrev lm : Dict (Ident × Ident) DomainLink
  lm = links_by_pair plan vnfs abstract_topology

  abbrev adj : Adjacency
  adj = adjacency plan vnfs abstract_topology

  -- An assignment of a VNF of the request to a domain that is known and of a fitting tier, and that has
  -- the CPU and RAM for all that is assigned to it.
  pub record IsSeated (a : Assignment) : Type 0 where
    pub spec : VnfSpec
    pub requested : get a.vnf_id sm ≡ some spec
    pub domain_id : Ident
    pub domain : Domain
    pub chosen : a.domain ≡ some domain_id
    pub known : get domain_id dm ≡ some domain
    pub tier : TierFits a.required_tier spec domain
    pub cpu :
        total (λ (b : Assignment). b.domain) cpu_of domain_id plan.vnf_assignments
        ≤ℤ domain.cpu_residual
    pub ram :
        total (λ (b : Assignment). b.domain) ram_of domain_id plan.vnf_assignments
        ≤ℤ domain.ram_residual

  -- A flow between two domains: its flag is right, a route joins them, and a direct link, if there is
  -- one, has the bandwidth for all the flows between them.
  pub record IsCarried (flow : FlowRequirement) (src dst : Ident) : Type 0 where
    pub flagged : or_else false flow.crosses_domain_boundary ≡ not (src == dst)
    pub routed : Route adj src dst
    pub room :
        (link : DomainLink)
        → (src == dst) ≡ false
        → get (src, dst) lm ≡ some link
        → total (crossing am) bw_of (src, dst) plan.flow_requirements
          ≤ℤ or_else (pos 0) link.bandwidth_residual_mbps

  pub record IsSoundPlan : Type 0 where
    pub complete :
        (v : Ident)
        → mem v (request_vnf_ids plan vnfs abstract_topology) ≡ true
        → mem v (plan_vnf_ids plan vnfs abstract_topology) ≡ true
    pub seated : All IsSeated plan.vnf_assignments
    pub carried :
        All
          (λ flow.
            (src dst : Ident)
            → domain_of_vnf am flow.source_vnf ≡ some src
            → domain_of_vnf am flow.target_vnf ≡ some dst
            → IsCarried flow src dst)
          plan.flow_requirements

  abbrev Occurs : {K : Type 0} ⦃e : Eq K⦄ {X : Type 0} → (X → Option K) → List X → X → Type 0
  Occurs key xs x = (k : _) → key x ≡ some k → any (is_for key k) xs ≡ true

  IsSeated-of :
      (a : Assignment)
      → mem a.vnf_id (request_vnf_ids plan vnfs abstract_topology) ≡ true
      → check_domain dm a ≡ []
      → check_tier sm dm a ≡ []
      → ((d : Ident) (dom : Domain)
          → a.domain ≡ some d
          → get d dm ≡ some dom
          → (total (λ (b : Assignment). b.domain) cpu_of d plan.vnf_assignments ≤ℤ dom.cpu_residual)
            × (total (λ (b : Assignment). b.domain) ram_of d plan.vnf_assignments
                ≤ℤ dom.ram_residual))
      → IsSeated a
  unfolding check_domain check_tier
  IsSeated-of a m h k room =
      let (spec, requested) =
        get_of_contains a.vnf_id sm
          (index_by-contains (λ (v : VnfSpec). v.vnf_id) vnfs [] a.vnf_id (inr m)) in
      let known =
        report-nil (not (is_known (find_domain dm a.domain))) schema (some a.vnf_id)
          (unknown_domain a.domain) h in
      elim (Option-cases a.domain) [
        | inl e ↦ absurd (ground (arith, e))
        | inr (d, e) ↦ elim (Option-cases (get d dm)) [
          | inl e' ↦ absurd (ground (arith, e, e'))
          | inr (dom, e') ↦
              let (cpu, ram) = room d dom e e' in
              record {
                spec = spec;
                requested = requested;
                domain_id = d;
                domain = dom;
                chosen = e;
                known = e';
                tier =
                    tier_violations-TierFits a.vnf_id a.required_tier spec dom
                      (ground (arith, k, e, e', requested));
                cpu = cpu;
                ram = ram;
              }
        ]
      ]

  reachable-Route : (src dst : Ident) → reachable adj src dst ≡ true → Route adj src dst
  reachable-Route src dst h =
      let (b, e, answer) = domains_reachable_iff adj src dst in answer.0 (ground (arith, h, e))

  IsCarried-of :
      (flow : FlowRequirement) (src dst : Ident)
      → check_flow am adj flow ≡ []
      → domain_of_vnf am flow.source_vnf ≡ some src
      → domain_of_vnf am flow.target_vnf ≡ some dst
      → (any (is_for (crossing am) (src, dst)) plan.flow_requirements ≡ true
          → (link : DomainLink) → get (src, dst) lm ≡ some link
          → is_direct adj lm (src, dst) ≡ true
          → total (crossing am) bw_of (src, dst) plan.flow_requirements
            ≤ℤ or_else (pos 0) link.bandwidth_residual_mbps)
      → ((src == dst) ≡ false → any (is_for (crossing am) (src, dst)) plan.flow_requirements ≡ true)
      → IsCarried flow src dst
  unfolding check_flow
  IsCarried-of flow src dst h s t room occurs =
      let quiet : flow_violations adj flow src dst ≡ [] = ground (arith, h, s, t) in
      elim (Bool-cases (src == dst)) [
        | inl same ↦
            let is : src ≡ dst = (==_iff src dst).0 same in
            record {
              flagged = ground (arith, quiet, same);
              routed = subst (Route adj src) is (Route.here src);
              room = λ link k g. absurd (ground (arith, k, same));
            }
        | inr other ↦
            let joined : reachable adj src dst ≡ true = ground (arith, quiet, other) in
            record {
              flagged = ground (arith, quiet, other);
              routed = reachable-Route src dst joined;
              room = λ link k g.
                  let direct : is_direct adj lm (src, dst) ≡ true =
                    rw (joined, contains_of_get (src, dst) lm g) refl in
                  room (occurs other) link g direct;
            }
      ]

  crossing_of :
      (f : FlowRequirement) (src dst : Ident)
      → domain_of_vnf am f.source_vnf ≡ some src
      → domain_of_vnf am f.target_vnf ≡ some dst
      → (src == dst) ≡ false
      → crossing am f ≡ some (src, dst)
  unfolding crossing
  crossing_of f src dst s t other = rw (crossing, s, t, other) refl

  all_seated :
      ((v : Ident)
        → mem v (plan_vnf_ids plan vnfs abstract_topology) ≡ true
        → mem v (request_vnf_ids plan vnfs abstract_topology) ≡ true)
      → collect (check_domain dm) plan.vnf_assignments ≡ []
      → collect (check_tier sm dm) plan.vnf_assignments ≡ []
      → collect
          (check_used (λ d. d.cpu_residual) dm)
          (domain_used cpu_of dm plan.vnf_assignments [])
        ≡ []
      → collect
          (check_used (λ d. d.ram_residual) dm)
          (domain_used ram_of dm plan.vnf_assignments [])
        ≡ []
      → All IsSeated plan.vnf_assignments
  all_seated listed placed tiers cpu ram =
      let xs = plan.vnf_assignments in
      let asked =
        λ (a : Assignment). mem a.vnf_id (request_vnf_ids plan vnfs abstract_topology) ≡ true in
      let occurs = Occurs (λ (b : Assignment). b.domain) xs in
      let clear = λ (a : Assignment). (check_domain dm a ≡ []) × (check_tier sm dm a ≡ []) in
      All-also (λ a. asked a × occurs a) clear IsSeated xs
        (λ a p q. IsSeated-of a p.0 q.0 q.1 (λ d dom e e'. (
          check_used-total dm cpu_of (λ m. m.cpu_residual) xs d dom cpu e' (p.1 d e),
          check_used-total dm ram_of (λ m. m.ram_residual) xs d dom ram e' (p.1 d e),
        )))
        (All-also asked occurs (λ a. asked a × occurs a) xs (λ a p q. (p, q))
          (All-imp (λ a. mem a.vnf_id (map (λ (b : Assignment). b.vnf_id) xs) ≡ true) asked xs
            (λ a m. listed a.vnf_id m) (All-listed (λ (b : Assignment). b.vnf_id) xs))
          (All-occurs (λ (b : Assignment). b.domain) xs))
        (All-also (λ a. check_domain dm a ≡ []) (λ a. check_tier sm dm a ≡ []) clear xs
          (λ a p q. (p, q)) (collect-nil (check_domain dm) xs placed)
          (collect-nil (check_tier sm dm) xs tiers))

  -- A valid plan can be carried out, as far as the abstract topology tells. When the checker finds no
  -- violation, every VNF of the request is assigned; every assignment is of such a VNF, to a known
  -- domain of a fitting tier whose CPU and RAM suffice for all that is assigned to it; and every flow
  -- between known domains has the right boundary flag, a route of inter-domain links, and, where a
  -- direct link joins its domains, the bandwidth for all the flows between them.
  pub check_plan-IsSoundPlan :
      (check_plan plan vnfs abstract_topology).is_valid ≡ true → IsSoundPlan
  unfolding check_plan violations_of
  check_plan-IsSoundPlan h =
      let xs = plan.vnf_assignments in
      let flows = plan.flow_requirements in
      let requested = request_vnf_ids plan vnfs abstract_topology in
      let planned = plan_vnf_ids plan vnfs abstract_topology in
      let (missing, h1) =
        append-nil _ _ (violations-nil (violations_of plan vnfs abstract_topology) h) in
      let (extra, h2) = append-nil _ _ h1 in
      let (placed, h3) = append-nil _ _ h2 in
      let (tiers, h4) = append-nil _ _ h3 in
      let (cpu, h5) = append-nil _ _ h4 in
      let (ram, h6) = append-nil _ _ h5 in
      let (flowing, bw) = append-nil _ _ h6 in
      let listed = difference-nil not_in_request planned requested extra in
      record {
        complete = difference-nil missing_from_plan requested planned missing;
        seated = all_seated listed placed tiers cpu ram;
        carried =
            All-also (λ f. check_flow am adj f ≡ []) (Occurs (crossing am) flows)
              (λ f.
                (src dst : Ident)
                → domain_of_vnf am f.source_vnf ≡ some src
                → domain_of_vnf am f.target_vnf ≡ some dst
                → IsCarried f src dst)
              flows
              (λ f k o src dst s t.
                IsCarried-of f src dst k s t
                  (λ there link g d. check_link-total am lm adj flows (src, dst) link bw g d there)
                  (λ other. o (src, dst) (crossing_of f src dst s t other)))
              (collect-nil (check_flow am adj) flows flowing) (All-occurs (crossing am) flows);
      }
