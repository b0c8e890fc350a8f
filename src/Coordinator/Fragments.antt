-- ===== src/Coordinator/Fragments.antt =====
-- mdo/coordinator.py: `_build_fragments`, which splits a plan over the domains of a partition.
use orion_v.Prelude.{
  ℕ, zero, suc, ℤ, pos, List, [], ◌∷◌, ◌++◌, true, false, not, Option, none, some, length,
  get_elem?, filter, ◌==◌, ltb, if◌then◌else◌,
}
use orion_v.Prelude.Dict.{Dict, get_or, put, nat_eq}
use orion_v.Prelude.Fail.{Result, ok, err, index_error, stop_iteration}
use orion_v.Prelude.Sort.{sort}
use orion_v.Types.{Ident, InfrastructureTier, Vnf, FlowEdge, SliceRequest}
use orion_v.Types.Mdo.{VnfAssignment, PlanFragment, PlanSummary}
use orion_v.ChainOrder.{mem}

abbrev pub add_to_set : ℕ → List ℕ → List ℕ
add_to_set d ds = if mem d ds then ds else ds ++ d ∷ []

-- The items of `set(ds)`, in increasing order as CPython walks a set of small numbers.
abbrev pub distinct : List ℕ → List ℕ
distinct [] = []
distinct (d ∷ ds) = if mem d ds then distinct ds else d ∷ distinct ds

abbrev pub set_items : List ℕ → List ℕ
set_items ds = sort ltb (distinct ds)

-- The domain at a position beside that of `d`, if it is another one.
abbrev pub add_other : ℕ → Option ℕ → List ℕ → List ℕ
add_other d none ds = ds
add_other d (some e) ds = if e == d then ds else add_to_set e ds

abbrev pub before : List ℕ → ℕ → Option ℕ
before partition zero = none
before partition (suc k) = get_elem? partition k

abbrev pub adjacent : List ℕ → ℕ → ℕ → List ℕ
adjacent partition k d =
    add_other d (get_elem? partition (suc k)) (add_other d (before partition k) [])

abbrev pub zero_if_none : Option ℤ → ℤ
zero_if_none none = pos 0
zero_if_none (some b) = b

module _ (plan : PlanSummary) (partition : List ℕ) (slice_req : SliceRequest) where
  abbrev pub assignment : ℕ → ℕ → InfrastructureTier → Vnf → VnfAssignment
  assignment k domain_id tier v = record {
    vnf_id = v.vnf_id;
    vnf_type = v.vnf_type;
    cpu_demand = v.cpu_demand;
    ram_demand = v.ram_demand;
    required_tier = tier;
    computational_intensity = v.computational_intensity;
    vcr = v.vcr;
    bandwidth_in = zero_if_none (get_elem? plan.bw_demands k);
    permitted_nodes = v.permitted_nodes;
    position_in_sfc = k;
    sfc_length = length slice_req.vnfs;
    adjacent_domain_ids = adjacent partition k domain_id;
  }

  -- The first loop, from position `k` on.
  unfoldable pub assign :
      ℕ → List Vnf → Dict ℕ (List VnfAssignment) → Result (Dict ℕ (List VnfAssignment))
  assign k [] fragments = ok fragments
  assign k (v ∷ vs) fragments = elim (get_elem? partition k) [
    | none ↦ err index_error
    | some d ↦ elim (get_elem? plan.required_tiers k) [
      | none ↦ err index_error
      | some tier ↦
          assign (suc k) vs (put d (get_or d [] fragments ++ assignment k d tier v ∷ []) fragments)
    ]
  ]

  -- `next(i for i, v in enumerate(vnfs) if v.vnf_id == name)`, counted from `k`
  abbrev pub position : Ident → ℕ → List Vnf → Result ℕ
  position name k [] = err stop_iteration
  position name k (v ∷ vs) = if v.vnf_id == name then ok k else position name (suc k) vs

  abbrev pub domain_at : Result ℕ → Result ℕ
  domain_at (err x) = err x
  domain_at (ok i) = elim (get_elem? partition i) [ none ↦ err index_error | some d ↦ ok d ]

  -- The second loop: the flows within each domain, and those between two.
  unfoldable pub split_flows :
      List FlowEdge
      → Dict ℕ (List FlowEdge)
      → List FlowEdge
      → Result (Dict ℕ (List FlowEdge) × List FlowEdge)
  split_flows [] domain_flows cross = ok (domain_flows, cross)
  split_flows (fe ∷ fes) domain_flows cross =
      elim (domain_at (position fe.source_vnf 0 slice_req.vnfs)) [
        | err x ↦ err x
        | ok src ↦ elim (domain_at (position fe.target_vnf 0 slice_req.vnfs)) [
          | err x ↦ err x
          | ok dst ↦ elim (src == dst) [
            | true ↦
                split_flows fes (put src (get_or src [] domain_flows ++ fe ∷ []) domain_flows) cross
            | false ↦ split_flows fes domain_flows (cross ++ fe ∷ [])
          ]
        ]
      ]

  abbrev pub fragment_of : Dict ℕ (List VnfAssignment) → Dict ℕ (List FlowEdge) → ℕ → PlanFragment
  fragment_of fragments domain_flows d = record {
    domain_id = d;
    vnf_assignments = get_or d [] fragments;
    intra_flows = get_or d [] domain_flows;
    delay_budget_ms = slice_req.qos.max_e2e_delay;
    target_domain_ids = distinct (filter (λ e. not (e == d)) partition);
  }

  abbrev pub fragments_of :
      Dict ℕ (List VnfAssignment) → Dict ℕ (List FlowEdge) → List ℕ → Dict ℕ PlanFragment
  fragments_of fragments domain_flows [] = []
  fragments_of fragments domain_flows (d ∷ ds) =
      (d, fragment_of fragments domain_flows d) ∷ fragments_of fragments domain_flows ds

  -- `_build_fragments`
  unfoldable pub build_fragments : Result (Dict ℕ PlanFragment × List FlowEdge)
  unfolding assign split_flows
  build_fragments = elim (assign 0 slice_req.vnfs []) [
    | err x ↦ err x
    | ok fragments ↦ elim (split_flows slice_req.flow_edges [] []) [
      | err x ↦ err x
      | ok (domain_flows, cross) ↦
          ok (fragments_of fragments domain_flows (set_items partition), cross)
    ]
  ]
