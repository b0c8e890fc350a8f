-- ===== src/Structural/Plan/Tests.antt =====
-- structural_checker.py: a plan over three domains in a row.
use orion_v.Prelude.{ℕ, ℤ, pos, ◌+ℤ◌, ◌≡◌, refl, ◌↔◌, [], ◌∷◌, List, Bool, true, false, none, some}
use orion_v.Types.{edge, central_cloud}
use orion_v.Structural.{Adjacency, scan, search, domains_reachable}
use orion_v.Structural.Reach.{Route, domains_reachable_iff}
use orion_v.Structural.Plan.{
  check_domain, check_tier, domain_used, check_used, link_map, domain_adj, check_flow,
  link_bw_demand, check_link, violations_of, check_plan,
}
use orion_v.Structural.Data.{
  VnfSpec, Domain, DomainLink, Assignment, AgentPlan, AbstractTopology, c4, c5, overcommit,
  not_reachable,
}
use orion_v.Structural.Plan.Sound.{IsSoundPlan, check_plan-IsSoundPlan}

program : Unit {0}
unfolding check_plan violations_of check_link link_bw_demand check_flow domain_adj link_map
    check_used domain_used check_tier check_domain domains_reachable search scan ◌+ℤ◌
program = tt

abbrev row : Adjacency
row = (1, 2 ∷ []) ∷ (2, 1 ∷ 3 ∷ []) ∷ (3, 2 ∷ []) ∷ (4, []) ∷ []

domains_reachable_iff_example :
    (b : Bool) × (domains_reachable row 1 3 ≡ some b) × ((b ≡ true) ↔ Route row 1 3)
domains_reachable_iff_example = domains_reachable_iff row 1 3

over_two_links : domains_reachable row 1 3 ≡ some true
unfolding program
over_two_links = refl

apart : domains_reachable row 1 4 ≡ some false
unfolding program
apart = refl

abbrev domain : ℕ → Domain
domain d = record {
  domain_id = d;
  dominant_tiers = edge ∷ [];
  cpu_residual = pos 10;
  ram_residual = pos 16;
}

abbrev link : ℕ → ℕ → DomainLink
link a b = record {
  source_domain = some a;
  target_domain = some b;
  bandwidth_residual_mbps = some (pos 100);
}

abbrev topology : List DomainLink → AbstractTopology
topology links = record {
  domains = domain 1 ∷ domain 2 ∷ domain 3 ∷ [];
  inter_domain_links = links;
}

abbrev spec : ℕ → VnfSpec
spec v = record { vnf_id = v; permitted_tiers = edge ∷ central_cloud ∷ [] }

abbrev assigned : ℕ → ℕ → ℤ → Assignment
assigned v d cpu = record {
  vnf_id = v;
  domain = some d;
  required_tier = some edge;
  cpu_demand = some cpu;
  ram_demand = none;
}

abbrev plan : ℤ → AgentPlan
plan cpu = record {
  vnf_assignments = assigned 21 1 cpu ∷ assigned 22 1 (pos 5) ∷ assigned 23 3 (pos 5) ∷ [];
  flow_requirements =
      record {
        source_vnf = some 22;
        target_vnf = some 23;
        min_bandwidth_mbps = some (pos 5);
        crosses_domain_boundary = some true;
      }
      ∷ [];
}

abbrev specs : List VnfSpec
specs = spec 21 ∷ spec 22 ∷ spec 23 ∷ []

abbrev joined : AbstractTopology
joined = topology (link 1 2 ∷ link 3 2 ∷ [])

passes : (check_plan (plan (pos 5)) specs joined).is_valid ≡ true
unfolding program
passes = refl

check_plan-IsSoundPlan_example : IsSoundPlan (plan (pos 5)) specs joined
check_plan-IsSoundPlan_example = check_plan-IsSoundPlan (plan (pos 5)) specs joined passes

-- Six and five are too much for a domain of ten, and nothing leads to domain 3.
fails :
    (check_plan (plan (pos 6)) specs (topology (link 1 2 ∷ []))).violations
    ≡ record { constraint = c4; vnf_id = none; detail = overcommit 1 (pos 11) (pos 10) }
      ∷ record { constraint = c5; vnf_id = none; detail = not_reachable 1 3 }
      ∷ []
unfolding program
fails = refl
