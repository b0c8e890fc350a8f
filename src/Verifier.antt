-- ===== src/Verifier.antt =====
-- sim/verifier.py: the ground-truth check of an allocated plan. The details of the verdict are kept,
-- but for the delay slack, which is the difference of two of them.
mod Tests
mod Codes
pub mod Verdict
use orion_v.Prelude.{
  ℕ, zero, suc, ◌+◌, ℤ, pos, negsuc, ◌-ℤ◌, ◌*ℤ◌, List, [], ◌∷◌, ◌++◌, Bool, true, false, not, ◌||◌,
  Option, none, some, length, ◌==◌, ltb, ltb_ℤ, min_ℤ, neg_ℤ, if◌then◌else◌, any,
}
use orion_v.Prelude.Dict.{Dict, nat_eq, pair_eq, get, get_or, put, values}
use orion_v.Prelude.Fail.{Result, ok, err, key_error}
use orion_v.Prelude.Fraction.{Fraction, whole, ◌+ᶠ◌, lt_fraction}
use orion_v.Prelude.Adjust.{find}
use orion_v.Types.{
  Ident, FlowKey, Node, Link, LinkType, intra, inter, Vnf, FlowEdge, SliceRequest, PlacementPlan,
}
use orion_v.Substrate.{Graph, SubstrateNetwork, link_key, find_node, find_edge}
use orion_v.Delay.{Scale, Delay, infinite, finite, exceeds, node_sojourn, link_sojourn}

-- The texts of the verdict, which name the constraints.
pub data Code : Type 0 where
  c2 c3 c5 c5b c7 c9 : Code

abbrev pub code_beq : Code → Code → Bool
code_beq c2 c2 = true
code_beq c3 c3 = true
code_beq c5 c5 = true
code_beq c5b c5b = true
code_beq c7 c7 = true
code_beq c9 c9 = true
code_beq _ _ = false

-- `code in violated`
abbrev pub has_code : Code → List Code → Bool
has_code c cs = any (code_beq c) cs

pub record Details : Type 0 where
  pub worst_cpu_overflow : Option ℤ
  pub worst_ram_overflow : Option ℤ
  pub worst_bw_overflow : Option ℤ
  pub e2e_delay : Delay
  pub delay_budget : ℤ
  pub achieved_throughput : Fraction
  pub throughput_floor : ℤ
  pub inter_domain_hops : ℕ
  pub hop_limit : ℕ

pub record GroundTruthVerdict : Type 0 where
  pub feasible : Bool
  pub violated : List Code
  pub details : Details

unfoldable pub hard_penalty_fired : GroundTruthVerdict → Bool
hard_penalty_fired v =
    has_code c2 v.violated
    || has_code c3 v.violated
    || has_code c5b v.violated
    || has_code c7 v.violated

-- The overflow flag and the worst residual of a scan: `none` while nothing has overflowed.
abbrev pub worse : ℤ → Option ℤ → Option ℤ
worse r none = if ltb_ℤ r (pos 0) then some (min_ℤ (pos 0) r) else none
worse r (some w) = some (if ltb_ℤ r (pos 0) then min_ℤ w r else w)

unfoldable pub check_node_capacities : List Node → Option ℤ → Option ℤ → Option ℤ × Option ℤ
check_node_capacities [] cpu ram = (cpu, ram)
check_node_capacities (n ∷ ns) cpu ram =
    check_node_capacities ns (worse n.cpu_residual cpu) (worse n.ram_residual ram)

unfoldable pub check_link_capacities : List Link → Option ℤ → Option ℤ
check_link_capacities [] bw = bw
check_link_capacities (l ∷ ls) bw = check_link_capacities ls (worse l.bw_residual bw)

-- `_link_endpoints`, and the edge between the two ends
abbrev pub edge_of : Graph → Ident → Option Link
edge_of g l = elim (find link_key l g.edges) [
  | none ↦ none
  | some e ↦ find_edge g e.source e.target
]

-- `{v.vnf_id: v for v in vnfs}`
abbrev pub vnf_by_id : Dict Ident Vnf → List Vnf → Dict Ident Vnf
vnf_by_id acc [] = acc
vnf_by_id acc (v ∷ vs) = vnf_by_id (put v.vnf_id v acc) vs

module _ (scale : Scale) (g : Graph) where
  -- `total += sojourn`, or the return of `math.inf`
  abbrev pub add_sojourn : Fraction → Delay → Delay
  add_sojourn total infinite = infinite
  add_sojourn total (finite t) = finite (total +ᶠ t)

  abbrev pub node_delay : Dict Ident Vnf → Ident → Ident → Result Delay
  node_delay vnfs vnf_id node_id = elim (find_node g node_id) [
    | none ↦ err key_error
    | some n ↦ elim (get vnf_id vnfs) [
      | none ↦ err key_error
      | some v ↦ ok (
          node_sojourn scale n.processing_delay v.computational_intensity n.cpu_capacity
            (n.cpu_capacity -ℤ n.cpu_residual))
    ]
  ]

  unfoldable pub node_delays : Dict Ident Vnf → Dict Ident Ident → Fraction → Result Delay
  unfolding node_sojourn
  node_delays vnfs [] total = ok (finite total)
  node_delays vnfs ((vnf_id, node_id) ∷ rest) total = elim (node_delay vnfs vnf_id node_id) [
    | err x ↦ err x
    | ok t ↦ elim (add_sojourn total t) [
      | infinite ↦ ok infinite
      | finite sum ↦ node_delays vnfs rest sum
    ]
  ]

  abbrev pub link_delay : Ident → Result Delay
  link_delay l = elim (edge_of g l) [
    | none ↦ err key_error
    | some e ↦ ok (
        link_sojourn scale e.propagation_delay e.bandwidth_capacity
          (e.bandwidth_capacity -ℤ e.bw_residual))
  ]

  unfoldable pub path_delays : List Ident → Fraction → Result Delay
  unfolding link_sojourn
  path_delays [] total = ok (finite total)
  path_delays (l ∷ ls) total = elim (link_delay l) [
    | err x ↦ err x
    | ok t ↦ elim (add_sojourn total t) [ infinite ↦ ok infinite | finite sum ↦ path_delays ls sum ]
  ]

  unfoldable pub flow_delays : Dict FlowKey (List Ident) → List FlowEdge → Fraction → Result Delay
  unfolding path_delays
  flow_delays routes [] total = ok (finite total)
  flow_delays routes (f ∷ fs) total =
      elim (path_delays (get_or (f.source_vnf, f.target_vnf) [] routes) total) [
        | err x ↦ err x
        | ok t ↦ elim t [ infinite ↦ ok infinite | finite sum ↦ flow_delays routes fs sum ]
      ]

  unfoldable pub compute_ground_truth_e2e : PlacementPlan → SliceRequest → Result Delay
  unfolding node_delays flow_delays
  compute_ground_truth_e2e plan slice_req =
      elim (node_delays (vnf_by_id [] slice_req.vnfs) plan.vnf_placements (whole (pos 0))) [
        | err x ↦ err x
        | ok t ↦ elim t [
          | infinite ↦ ok infinite
          | finite sum ↦ flow_delays plan.flow_routes slice_req.flow_edges sum
        ]
      ]

-- `min(worst_ratio, ratio)`, where `none` is `math.inf`
abbrev pub min_ratio : Option Fraction → Fraction → Option Fraction
min_ratio none r = some r
min_ratio (some w) r = some (if lt_fraction r w then r else w)

-- The ratios of one flow: `demand` is positive here.
unfoldable pub flow_ratios : ℕ → List ℤ → Option Fraction → Option Fraction
unfolding lt_fraction
flow_ratios demand [] worst = worst
flow_ratios demand (bw ∷ bws) worst =
    flow_ratios demand bws (min_ratio worst (record { num = bw; den = demand }))

abbrev pub ratios_of : ℤ → Dict Ident ℤ → Option Fraction → Option Fraction
ratios_of (pos zero) per_link worst = worst
ratios_of (pos (suc d)) per_link worst = flow_ratios (suc d) (values per_link) worst
ratios_of (negsuc d) per_link worst = worst

unfoldable pub worst_ratio_of :
    Dict FlowKey (Dict Ident ℤ) → List FlowEdge → Option Fraction → Option Fraction
unfolding flow_ratios
worst_ratio_of bw_allocations [] worst = worst
worst_ratio_of bw_allocations (f ∷ fs) worst =
    worst_ratio_of bw_allocations fs
      (ratios_of f.bandwidth_demand (get_or (f.source_vnf, f.target_vnf) [] bw_allocations) worst)

-- `_check_c5b`
unfoldable pub check_c5b : SliceRequest → PlacementPlan → Fraction × Bool
unfolding worst_ratio_of lt_fraction
check_c5b slice_req plan =
    let target = slice_req.qos.min_throughput in
    elim (worst_ratio_of plan.bw_allocations slice_req.flow_edges none) [
      | none ↦ (whole target, false)
      | some w ↦ (record { num = w.num *ℤ target; den = w.den }, lt_fraction w (whole (pos 1)))
    ]

abbrev pub is_inter : LinkType → Bool
is_inter intra = false
is_inter inter = true

unfoldable pub path_hops : Graph → List Ident → ℕ → Result ℕ
path_hops g [] hops = ok hops
path_hops g (l ∷ ls) hops = elim (edge_of g l) [
  | none ↦ err key_error
  | some e ↦ path_hops g ls (if is_inter e.link_type then hops + 1 else hops)
]

-- `_count_inter_domain_hops`
unfoldable pub count_link_hops : Graph → List (List Ident) → ℕ → Result ℕ
unfolding path_hops
count_link_hops g [] hops = ok hops
count_link_hops g (path ∷ paths) hops = elim (path_hops g path hops) [
  | err x ↦ err x
  | ok n ↦ count_link_hops g paths n
]

abbrev pub overflowed : Option ℤ → Bool
overflowed none = false
overflowed (some _) = true

abbrev pub overflow_of : Option ℤ → Option ℤ
overflow_of none = none
overflow_of (some w) = some (neg_ℤ w)

abbrev pub code_if : Bool → Code → List Code
code_if b c = if b then c ∷ [] else []

abbrev pub no_codes : List Code → Bool
no_codes [] = true
no_codes (_ ∷ _) = false

module _ (scale : Scale) where
  -- The verdict, from what the checks have found.
  abbrev pub verdict_of :
      SubstrateNetwork → PlacementPlan → SliceRequest → ℕ → Delay → ℕ → GroundTruthVerdict
  verdict_of s plan slice_req max_hops e2e hops =
      let (cpu, ram) = check_node_capacities s.graph.nodes none none in
      let bw = check_link_capacities s.graph.edges none in
      let (delivered, c5b_violated) = check_c5b slice_req plan in
      let codes =
        code_if (overflowed cpu) c2
        ++ (code_if (overflowed ram) c3
            ++ (code_if (overflowed bw) c5
                ++ (code_if (exceeds e2e (slice_req.qos.max_e2e_delay *ℤ scale.one_intensity)) c7
                    ++ (code_if c5b_violated c5b ++ code_if (ltb max_hops hops) c9)))) in
      record {
        feasible = no_codes codes;
        violated = codes;
        details = record {
          worst_cpu_overflow = overflow_of cpu;
          worst_ram_overflow = overflow_of ram;
          worst_bw_overflow = overflow_of bw;
          e2e_delay = e2e;
          delay_budget = slice_req.qos.max_e2e_delay *ℤ scale.one_intensity;
          achieved_throughput = delivered;
          throughput_floor = slice_req.qos.min_throughput;
          inter_domain_hops = hops;
          hop_limit = max_hops;
        };
      }

  unfoldable pub verify_committed_plan :
      SubstrateNetwork → PlacementPlan → SliceRequest → ℕ → Result GroundTruthVerdict
  unfolding check_node_capacities check_link_capacities check_c5b compute_ground_truth_e2e
      count_link_hops exceeds
  verify_committed_plan s plan slice_req max_hops =
      elim (compute_ground_truth_e2e scale s.graph plan slice_req) [
        | err x ↦ err x
        | ok e2e ↦ elim (count_link_hops s.graph (values plan.flow_routes) 0) [
          | err x ↦ err x
          | ok hops ↦ ok (verdict_of s plan slice_req max_hops e2e hops)
        ]
      ]
