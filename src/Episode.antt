-- ===== src/Episode.antt =====
-- sim/episode_runner.py: the plan of a commit, and the default plan builder.
pub mod Runner
pub mod Mirror
pub mod Books
pub mod Coordinated
pub mod Run
pub mod Sample
mod Tests
use Prim.Native.String.{String}
use orion_v.Prelude.{
  ℕ, ℤ, pos, List, [], ◌∷◌, map, Bool, true, false, Option, none, some, if◌then◌else◌, any, all,
  not,
}
use orion_v.Prelude.Dict.{Dict, nat_eq, pair_eq, get, get_or, put, contains}
use orion_v.Prelude.Fail.{Result, ok, err, key_error}
use orion_v.Types.{
  Ident, FlowKey, InfrastructureTier, edge, regional_cloud, central_cloud, tier_beq, Node, Vnf,
  SliceRequest, PlacementPlan,
}
use orion_v.Types.Mdo.{DomainResponse, PlanSummary}
use orion_v.Substrate.{Graph, SubstrateNetwork, find_node}
use orion_v.Verifier.{vnf_by_id}
use orion_v.Ffd.{tiers_of}
use orion_v.Coordinator.Resolve.{MdoResult}

-- The dicts that `build_placement_plan` fills.
pub record Parts : Type 0 where
  pub vnf_placements : Dict Ident Ident
  pub cpu_allocations : Dict Ident ℤ
  pub ram_allocations : Dict Ident ℤ
  pub flow_routes : Dict FlowKey (List Ident)
  pub bw_allocations : Dict FlowKey (Dict Ident ℤ)

abbrev pub no_parts : Parts
no_parts = record {
  vnf_placements = [];
  cpu_allocations = [];
  ram_allocations = [];
  flow_routes = [];
  bw_allocations = [];
}

unfoldable pub add_placements : Dict Ident Vnf → Dict Ident Ident → Parts → Result Parts
add_placements vnfs [] p = ok p
add_placements vnfs ((vnf_id, node_id) ∷ rest) p = elim (get vnf_id vnfs) [
  | none ↦ err key_error
  | some v ↦ add_placements vnfs rest (record p {
    vnf_placements = put vnf_id node_id p.vnf_placements;
    cpu_allocations = put vnf_id v.cpu_demand p.cpu_allocations;
    ram_allocations = put vnf_id v.ram_demand p.ram_allocations;
  })
]

-- `{link_id: bw for link_id in link_ids}`
abbrev pub same_on : ℤ → List Ident → Dict Ident ℤ → Dict Ident ℤ
same_on bw [] acc = acc
same_on bw (l ∷ ls) acc = same_on bw ls (put l bw acc)

unfoldable pub add_routes : Dict FlowKey ℤ → Dict FlowKey (List Ident) → Parts → Parts
add_routes bw [] p = p
add_routes bw ((key, links) ∷ rest) p = add_routes bw rest (record p {
  flow_routes = put key links p.flow_routes;
  bw_allocations = put key (same_on (get_or key (pos 0) bw) links []) p.bw_allocations;
})

unfoldable pub add_responses : Dict Ident Vnf → Dict ℕ DomainResponse → Parts → Result Parts
unfolding add_placements add_routes
add_responses vnfs [] p = ok p
add_responses vnfs ((_, r) ∷ rest) p = elim (add_placements vnfs r.placements p) [
  | err x ↦ err x
  | ok p' ↦ add_responses vnfs rest (add_routes r.bw_allocated r.routes p')
]

abbrev pub plan_of : SliceRequest → Parts → PlacementPlan
plan_of slice_req p = record {
  plan_id = (slice_req.request_id, "mdo");
  vnf_placements = p.vnf_placements;
  cpu_allocations = p.cpu_allocations;
  ram_allocations = p.ram_allocations;
  flow_routes = p.flow_routes;
  bw_allocations = p.bw_allocations;
  is_structurally_valid = true;
  origin = "mdo";
}

unfoldable pub build_placement_plan : SliceRequest → MdoResult → Result (Option PlacementPlan)
unfolding add_responses add_routes
build_placement_plan slice_req r =
    elim (add_responses (vnf_by_id [] slice_req.vnfs) r.domain_responses no_parts) [
      | err x ↦ err x
      | ok p ↦
          let q = add_routes r.cross_domain_bw r.cross_domain_routes p in
          ok (
            if any (λ v. not (contains v.vnf_id q.vnf_placements)) slice_req.vnfs
            then none
            else some (plan_of slice_req q))
    ]

-- The first of `TIER_ORDER` that is among these.
abbrev pub first_tier : List InfrastructureTier → Option InfrastructureTier
first_tier ts =
    if any (tier_beq edge) ts
    then some edge
    else if any (tier_beq regional_cloud) ts
    then some regional_cloud
    else if any (tier_beq central_cloud) ts
    then some central_cloud
    else none

-- `_infer_required_tier`
unfoldable pub infer_required_tier : Graph → Vnf → Option InfrastructureTier
infer_required_tier g v = first_tier (tiers_of g v.permitted_nodes)

-- The first domain with a permitted node of that tier.
unfoldable pub domain_of_tier : Graph → InfrastructureTier → List Ident → Option ℕ
domain_of_tier g t [] = none
domain_of_tier g t (n ∷ ns) =
    let rest = domain_of_tier g t ns in
    elim (find_node g n) [
      | none ↦ rest
      | some x ↦ if tier_beq x.tier t then some x.domain_id else rest
    ]

unfoldable pub seats_for : Graph → List Vnf → Option (List InfrastructureTier × List ℕ)
unfolding infer_required_tier domain_of_tier
seats_for g [] = some ([], [])
seats_for g (v ∷ vs) = elim (infer_required_tier g v) [
  | none ↦ none
  | some t ↦ elim (domain_of_tier g t v.permitted_nodes) [
    | none ↦ none
    | some d ↦ elim (seats_for g vs) [ none ↦ none | some (ts, ds) ↦ some (t ∷ ts, d ∷ ds) ]
  ]
]

unfoldable pub default_plan_builder : SliceRequest → SubstrateNetwork → Option PlanSummary
unfolding seats_for
default_plan_builder slice_req s = elim (seats_for s.graph slice_req.vnfs) [
  | none ↦ none
  | some (tiers, domains) ↦ some (record {
    vnf_ids = map (λ v. v.vnf_id) slice_req.vnfs;
    required_tiers = tiers;
    suggested_domains = domains;
    cpu_demands = map (λ v. v.cpu_demand) slice_req.vnfs;
    ram_demands = map (λ v. v.ram_demand) slice_req.vnfs;
    vcrs = map (λ v. v.vcr) slice_req.vnfs;
    bw_demands = map (λ f. f.bandwidth_demand) slice_req.flow_edges;
  })
]
