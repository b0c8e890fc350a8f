-- ===== src/Structural/Plan.antt =====
-- structural_checker.py: check_plan. The dicts that come from JSON are records: a key that the code
-- reads with `.get` is an Option. A set of ids is walked in the order of the list it is made of.
pub mod Empty
pub mod Room
pub mod Sound
mod Tests
use orion_v.Prelude.{
  ℕ, ◌+◌, ℤ, pos, ◌+ℤ◌, ltb_ℤ, List, [], ◌∷◌, ◌++◌, map, Bool, true, false, not, ◌&&◌, ◌||◌, Option,
  none, some, ◌==◌, any, filter, if◌then◌else◌,
}
use orion_v.Prelude.Dict.{Dict, Eq, nat_eq, pair_eq, get, get_or, put, contains}
use orion_v.Prelude.Totals.{charge}
use orion_v.Types.{Ident, InfrastructureTier, tier_beq}
use orion_v.Structural.{mem, Adjacency, domains_reachable}
use orion_v.Structural.Data.{
  AbstractTopology, AgentPlan, Assignment, CheckResult, Constraint, Detail, Domain, DomainLink,
  FlowRequirement, Violation, VnfSpec, c4, c5, c8, crosses_unflagged, flagged_intra,
  link_overcommit, missing_from_plan, no_tier_overlap, not_in_request, not_reachable, overcommit,
  schema, tier_not_in_domain, tier_not_permitted, unknown_domain,
}

-- `d.get(key, default)` of an optional key
abbrev pub or_else : {A : Type 0} → A → Option A → A
or_else d none = d
or_else d (some a) = a

-- A violation, if the condition holds.
abbrev pub report : Bool → Constraint → Option Ident → Detail → List Violation
report c constraint vnf_id detail =
    if c then record { constraint = constraint; vnf_id = vnf_id; detail = detail } ∷ [] else []

-- A loop that appends the violations of each item.
abbrev pub collect : {A : Type 0} → (A → List Violation) → List A → List Violation
collect f [] = []
collect f (x ∷ xs) = f x ++ collect f xs

-- `{key(x): x for x in xs}`: the last of equal keys stays
abbrev pub index_by : {A : Type 0} → (A → Ident) → List A → Dict Ident A → Dict Ident A
index_by key [] d = d
index_by key (x ∷ xs) d = index_by key xs (put (key x) x d)

-- The first occurrences, as a set has them.
abbrev pub distinct : List Ident → List Ident
distinct [] = []
distinct (x ∷ xs) = x ∷ filter (λ y. not (x == y)) (distinct xs)

abbrev pub mem_tier : InfrastructureTier → List InfrastructureTier → Bool
mem_tier t ts = any (tier_beq t) ts

-- `a - b`, each item of which is a violation
abbrev pub difference : Detail → List Ident → List Ident → List Violation
difference detail a b = collect (λ v. report (not (mem v b)) schema (some v) detail) (distinct a)

-- `domain_map.get(a.get("domain"))`
abbrev pub find_domain : Dict Ident Domain → Option Ident → Option Domain
find_domain domain_map none = none
find_domain domain_map (some d) = get d domain_map

abbrev pub is_known : {A : Type 0} → Option A → Bool
is_known none = false
is_known (some _) = true

unfoldable pub check_domain : Dict Ident Domain → Assignment → List Violation
check_domain domain_map a =
    report (not (is_known (find_domain domain_map a.domain))) schema (some a.vnf_id)
      (unknown_domain a.domain)

-- The tier rules for an assignment whose VNF and domain are known.
abbrev pub tier_violations : Ident → Option InfrastructureTier → VnfSpec → Domain → List Violation
tier_violations v (some t) spec domain =
    report (not (mem_tier t spec.permitted_tiers)) c8 (some v) (tier_not_permitted t)
    ++ report (not (mem_tier t domain.dominant_tiers)) c8 (some v)
        (tier_not_in_domain t domain.domain_id)
tier_violations v none spec domain =
    report (not (any (λ t. mem_tier t domain.dominant_tiers) spec.permitted_tiers)) c8 (some v)
      (no_tier_overlap domain.domain_id)

unfoldable pub check_tier : Dict Ident VnfSpec → Dict Ident Domain → Assignment → List Violation
check_tier vnf_spec_map domain_map a = elim (get a.vnf_id vnf_spec_map) [
  | none ↦ []
  | some spec ↦ elim (find_domain domain_map a.domain) [
    | none ↦ []
    | some domain ↦ tier_violations a.vnf_id a.required_tier spec domain
  ]
]

abbrev pub charge_known : Dict Ident Domain → Option Ident → ℤ → Dict Ident ℤ → Dict Ident ℤ
charge_known domain_map none amount used = used
charge_known domain_map (some d) amount used =
    if contains d domain_map then charge d amount used else used

-- What the assignments use of the domains, by a demand.
unfoldable pub domain_used :
    (Assignment → ℤ) → Dict Ident Domain → List Assignment → Dict Ident ℤ → Dict Ident ℤ
domain_used demand domain_map [] used = used
domain_used demand domain_map (a ∷ assignments) used =
    domain_used demand domain_map assignments (charge_known domain_map a.domain (demand a) used)

unfoldable pub check_used : (Domain → ℤ) → Dict Ident Domain → Ident × ℤ → List Violation
check_used residual domain_map (d, used) = elim (get d domain_map) [
  | none ↦ []
  | some domain ↦
      report (ltb_ℤ (residual domain) used) c4 none (overcommit d used (residual domain))
]

-- The directed links, and the domains joined by a link in either direction.
abbrev pub link_entry : DomainLink → Option (Ident × Ident)
link_entry l = elim l.source_domain [
  | none ↦ none
  | some src ↦ elim l.target_domain [ none ↦ none | some dst ↦ some (src, dst) ]
]

abbrev pub put_link :
    Option (Ident × Ident)
    → DomainLink
    → Dict (Ident × Ident) DomainLink
    → Dict (Ident × Ident) DomainLink
put_link none l d = d
put_link (some k) l d = put k l d

unfoldable pub link_map :
    List DomainLink → Dict (Ident × Ident) DomainLink → Dict (Ident × Ident) DomainLink
link_map [] d = d
link_map (l ∷ links) d = link_map links (put_link (link_entry l) l d)

-- `domain_adj.setdefault(a, set()).add(b)`
abbrev pub add_neighbor : Ident → Ident → Adjacency → Adjacency
add_neighbor a b adj = let ns = get_or a [] adj in put a (if mem b ns then ns else ns ++ b ∷ []) adj

abbrev pub join : Option (Ident × Ident) → Adjacency → Adjacency
join none adj = adj
join (some (src, dst)) adj = add_neighbor dst src (add_neighbor src dst adj)

unfoldable pub domain_adj : List DomainLink → Adjacency → Adjacency
domain_adj [] adj = adj
domain_adj (l ∷ links) adj = domain_adj links (join (link_entry l) adj)

-- `{d: set() for d in domain_ids}`
abbrev pub no_neighbors : List Domain → Adjacency
no_neighbors domains = map (λ d. (d, [])) (distinct (map (λ (d : Domain). d.domain_id) domains))

abbrev pub reachable : Adjacency → Ident → Ident → Bool
reachable adj src dst = or_else false (domains_reachable adj src dst)

-- `assignment_map.get(vnf, {}).get("domain")`
abbrev pub domain_of_vnf : Dict Ident Assignment → Option Ident → Option Ident
domain_of_vnf assignment_map none = none
domain_of_vnf assignment_map (some v) = elim (get v assignment_map) [
  | none ↦ none
  | some a ↦ a.domain
]

-- The violations of a flow between two domains, and what it asks of the link between them.
abbrev pub flow_violations : Adjacency → FlowRequirement → Ident → Ident → List Violation
flow_violations adj flow src dst =
    let crosses = or_else false flow.crosses_domain_boundary in
    if src == dst
    then report crosses schema flow.source_vnf (flagged_intra flow.source_vnf flow.target_vnf)
    else report (not crosses) schema flow.source_vnf
        (crosses_unflagged flow.source_vnf flow.target_vnf)
      ++ report (not (reachable adj src dst)) c5 none (not_reachable src dst)

unfoldable pub check_flow : Dict Ident Assignment → Adjacency → FlowRequirement → List Violation
unfolding domains_reachable
check_flow assignment_map adj flow = elim (domain_of_vnf assignment_map flow.source_vnf) [
  | none ↦ []
  | some src ↦ elim (domain_of_vnf assignment_map flow.target_vnf) [
    | none ↦ []
    | some dst ↦ flow_violations adj flow src dst
  ]
]

-- The demand on the direct link of a flow, if its domains are joined by one.
abbrev pub charge_link :
    Dict (Ident × Ident) DomainLink
    → Adjacency
    → FlowRequirement
    → Ident
    → Ident
    → Dict (Ident × Ident) ℤ
    → Dict (Ident × Ident) ℤ
charge_link links adj flow src dst used =
    if not (src == dst) && reachable adj src dst && contains (src, dst) links
    then charge (src, dst) (or_else (pos 0) flow.min_bandwidth_mbps) used
    else used

abbrev pub charge_flow :
    Dict Ident Assignment
    → Dict (Ident × Ident) DomainLink
    → Adjacency
    → FlowRequirement
    → Dict (Ident × Ident) ℤ
    → Dict (Ident × Ident) ℤ
charge_flow assignment_map links adj flow used =
    elim (domain_of_vnf assignment_map flow.source_vnf) [
      | none ↦ used
      | some src ↦ elim (domain_of_vnf assignment_map flow.target_vnf) [
        | none ↦ used
        | some dst ↦ charge_link links adj flow src dst used
      ]
    ]

unfoldable pub link_bw_demand :
    Dict Ident Assignment
    → Dict (Ident × Ident) DomainLink
    → Adjacency
    → List FlowRequirement
    → Dict (Ident × Ident) ℤ
    → Dict (Ident × Ident) ℤ
unfolding domains_reachable
link_bw_demand assignment_map links adj [] used = used
link_bw_demand assignment_map links adj (flow ∷ flows) used =
    link_bw_demand assignment_map links adj flows (charge_flow assignment_map links adj flow used)

unfoldable pub check_link : Dict (Ident × Ident) DomainLink → (Ident × Ident) × ℤ → List Violation
check_link links (pair, demanded) = elim (get pair links) [
  | none ↦ []
  | some link ↦
      let residual = or_else (pos 0) link.bandwidth_residual_mbps in
      report (ltb_ℤ residual demanded) c5 none (link_overcommit pair demanded residual)
]

abbrev pub cpu_of : Assignment → ℤ
cpu_of a = or_else (pos 0) a.cpu_demand

abbrev pub ram_of : Assignment → ℤ
ram_of a = or_else (pos 0) a.ram_demand

module _ (plan : AgentPlan) (vnfs : List VnfSpec) (abstract_topology : AbstractTopology) where
  abbrev pub domain_map : Dict Ident Domain
  domain_map = index_by (λ (d : Domain). d.domain_id) abstract_topology.domains []

  abbrev pub vnf_spec_map : Dict Ident VnfSpec
  vnf_spec_map = index_by (λ (v : VnfSpec). v.vnf_id) vnfs []

  abbrev pub assignment_map : Dict Ident Assignment
  assignment_map = index_by (λ (a : Assignment). a.vnf_id) plan.vnf_assignments []

  abbrev pub request_vnf_ids : List Ident
  request_vnf_ids = map (λ (v : VnfSpec). v.vnf_id) vnfs

  abbrev pub plan_vnf_ids : List Ident
  plan_vnf_ids = map (λ (a : Assignment). a.vnf_id) plan.vnf_assignments

  abbrev pub links_by_pair : Dict (Ident × Ident) DomainLink
  unfolding link_map
  links_by_pair = link_map abstract_topology.inter_domain_links []

  abbrev pub adjacency : Adjacency
  unfolding domain_adj
  adjacency =
      domain_adj abstract_topology.inter_domain_links (no_neighbors abstract_topology.domains)

  -- The violations in the order in which they are appended.
  unfoldable pub violations_of : List Violation
  unfolding check_domain check_tier domain_used check_used check_flow link_bw_demand check_link
  violations_of =
      difference missing_from_plan request_vnf_ids plan_vnf_ids
      ++ (difference not_in_request plan_vnf_ids request_vnf_ids
          ++ (collect (check_domain domain_map) plan.vnf_assignments
              ++ (collect (check_tier vnf_spec_map domain_map) plan.vnf_assignments
                  ++ (collect (check_used (λ d. d.cpu_residual) domain_map)
                        (domain_used cpu_of domain_map plan.vnf_assignments [])
                      ++ (collect (check_used (λ d. d.ram_residual) domain_map)
                            (domain_used ram_of domain_map plan.vnf_assignments [])
                          ++ (collect (check_flow assignment_map adjacency) plan.flow_requirements
                              ++ collect (check_link links_by_pair) (
                                  link_bw_demand assignment_map links_by_pair adjacency
                                    plan.flow_requirements [])))))))

  unfoldable pub check_plan : CheckResult
  unfolding violations_of
  check_plan = record {
    is_valid = elim violations_of [ [] ↦ true | _ ∷ _ ↦ false ];
    violations = violations_of;
  }
