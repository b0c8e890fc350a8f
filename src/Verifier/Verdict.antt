-- ===== src/Verifier/Verdict.antt =====
-- verifier.py: the verdict against the constraints that it stands for.
use orion_v.Prelude.{
  ℕ, ℤ, pos, ◌*ℤ◌, ◌≤ℤ◌, ◌≤◌, ◌≡◌, refl, sym, subst, ◌∙◌, ◌↔◌, inl, inr, List, ◌++◌, Bool, true,
  false, none, arith, All, ltb, Option-cases,
}
use orion_v.Prelude.Dict.{values}
use orion_v.Prelude.Fail.{ok, Result-cases}
use orion_v.Types.{PlacementPlan, SliceRequest}
use orion_v.Substrate.{SubstrateNetwork}
use orion_v.Delay.{Scale, Delay, exceeds}
use orion_v.Verifier.{
  Code, c2, c3, c5, c5b, c7, c9, code_if, no_codes, GroundTruthVerdict, hard_penalty_fired,
  overflowed, check_node_capacities, check_link_capacities, worst_ratio_of, check_c5b,
  compute_ground_truth_e2e, count_link_hops, verdict_of, verify_committed_plan,
}
use orion_v.Verifier.Codes.{
  below_one, IsServed, check_node_capacities_iff, check_link_capacities_iff, worst_ratio_of_iff,
}

-- The verdict's list of codes, from the six flags.
abbrev codes_of : Bool → Bool → Bool → Bool → Bool → Bool → List Code
codes_of cpu ram bw delay rate hops =
    code_if cpu c2
    ++ (code_if ram c3
        ++ (code_if bw c5 ++ (code_if delay c7 ++ (code_if rate c5b ++ code_if hops c9))))

abbrev AllClear : Bool → Bool → Bool → Bool → Type 0
AllClear a b c d = (a ≡ false) × (b ≡ false) × (c ≡ false) × (d ≡ false)

codes_of-none :
    (cpu ram bw delay rate hops : Bool)
    → (no_codes (codes_of cpu ram bw delay rate hops) ≡ true)
      ↔ (AllClear cpu ram delay rate × (bw ≡ false) × (hops ≡ false))
codes_of-none cpu ram bw delay rate hops = ground arith

has_code-hard :
    (cpu ram bw delay rate hops : Bool) (v : GroundTruthVerdict)
    → v.violated ≡ codes_of cpu ram bw delay rate hops
    → (hard_penalty_fired v ≡ false) ↔ AllClear cpu ram delay rate
unfolding hard_penalty_fired
has_code-hard cpu ram bw delay rate hops v e = rw e (ground arith)

module _ (scale : Scale) (s : SubstrateNetwork) (plan : PlacementPlan)
    (slice_req : SliceRequest) where
  abbrev budget : ℤ
  budget = slice_req.qos.max_e2e_delay *ℤ scale.one_intensity

  -- The constraints that fire the hard penalty: no node is over-allocated, every flow has on
  -- each of its links the bandwidth it demands, and the delay under load is within the bound.
  pub record IsTolerated : Type 0 where
    pub cpu : All (λ n. pos 0 ≤ℤ n.cpu_residual) s.graph.nodes
    pub ram : All (λ n. pos 0 ≤ℤ n.ram_residual) s.graph.nodes
    pub rate : All (IsServed plan.bw_allocations) slice_req.flow_edges
    pub delay :
        (e : Delay) × (compute_ground_truth_e2e scale s.graph plan slice_req ≡ ok e)
        × (exceeds e budget ≡ false)

  -- No link is over-allocated, and the routes cross at most `max_hops` links between domains.
  pub record IsWithin (max_hops : ℕ) : Type 0 where
    pub bw : All (λ l. pos 0 ≤ℤ l.bw_residual) s.graph.edges
    pub hops :
        (n : ℕ) × (count_link_hops s.graph (values plan.flow_routes) 0 ≡ ok n) × (n ≤ max_hops)

  check_c5b-below :
      (check_c5b slice_req plan).1
      ≡ below_one (worst_ratio_of plan.bw_allocations slice_req.flow_edges none)
  unfolding check_c5b
  check_c5b-below =
      elim (Option-cases (worst_ratio_of plan.bw_allocations slice_req.flow_edges none)) [
        | inl e ↦ ground arith
        | inr (w, e) ↦ ground arith
      ]

  check_c5b_iff :
      ((check_c5b slice_req plan).1 ≡ false)
      ↔ All (IsServed plan.bw_allocations) slice_req.flow_edges
  check_c5b_iff =
      let both = worst_ratio_of_iff plan.bw_allocations slice_req.flow_edges none tt in
      (λ h. (both.0 (sym check_c5b-below ∙ h)).1, λ h. check_c5b-below ∙ both.1 (refl, h))

  module _ (max_hops : ℕ) (e2e : Delay) (hops : ℕ)
      (timed : compute_ground_truth_e2e scale s.graph plan slice_req ≡ ok e2e)
      (counted : count_link_hops s.graph (values plan.flow_routes) 0 ≡ ok hops) where
    abbrev cpu_flag : Bool
    cpu_flag = overflowed (check_node_capacities s.graph.nodes none none).0

    abbrev ram_flag : Bool
    ram_flag = overflowed (check_node_capacities s.graph.nodes none none).1

    abbrev bw_flag : Bool
    bw_flag = overflowed (check_link_capacities s.graph.edges none)

    same_delay :
        (e : Delay)
        → compute_ground_truth_e2e scale s.graph plan slice_req ≡ ok e
        → exceeds e budget ≡ false
        → exceeds e2e budget ≡ false
    same_delay e k x = let same : e ≡ e2e = cc (k, timed) in rw (← same) x

    same_hops :
        (n : ℕ)
        → count_link_hops s.graph (values plan.flow_routes) 0 ≡ ok n
        → n ≤ max_hops
        → ltb max_hops hops ≡ false
    same_hops n k x = let same : n ≡ hops = cc (k, counted) in ground arith

    IsTolerated-iff :
        AllClear cpu_flag ram_flag (exceeds e2e budget) (check_c5b slice_req plan).1 ↔ IsTolerated
    IsTolerated-iff =
        let (c, r) = check_node_capacities_iff s.graph.nodes none none in
        (
          λ h. record {
            cpu = (c.0 h.0).1;
            ram = (r.0 h.1).1;
            rate = check_c5b_iff.0 h.3;
            delay = (e2e, timed, h.2);
          },
          λ t. (
            c.1 (refl, t.cpu),
            r.1 (refl, t.ram),
            same_delay t.delay.0 t.delay.1 t.delay.2,
            check_c5b_iff.1 t.rate,
          ),
        )

    IsWithin-iff : ((bw_flag ≡ false) × (ltb max_hops hops ≡ false)) ↔ IsWithin max_hops
    IsWithin-iff =
        let b = check_link_capacities_iff s.graph.edges none in
        (
          λ h. record { bw = (b.0 h.0).1; hops = (hops, counted, ground arith) },
          λ t. (b.1 (refl, t.bw), same_hops t.hops.0 t.hops.1 t.hops.2),
        )

    verdict_of_iff :
        let v = verdict_of scale s plan slice_req max_hops e2e hops in
        ((v.feasible ≡ true) ↔ (IsTolerated × IsWithin max_hops))
        × ((hard_penalty_fired v ≡ false) ↔ IsTolerated)
    verdict_of_iff =
        let codes =
          codes_of-none cpu_flag ram_flag bw_flag (exceeds e2e budget) (check_c5b slice_req plan).1
            (ltb max_hops hops) in
        let hard =
          has_code-hard cpu_flag ram_flag bw_flag (exceeds e2e budget) (check_c5b slice_req plan).1
            (ltb max_hops hops) (verdict_of scale s plan slice_req max_hops e2e hops) refl in
        (
          (
            λ h. let k = codes.0 h in (IsTolerated-iff.0 k.0, IsWithin-iff.0 (k.1, k.2)),
            λ t. codes.1 (IsTolerated-iff.1 t.0, (IsWithin-iff.1 t.1).0, (IsWithin-iff.1 t.1).1),
          ),
          (λ h. IsTolerated-iff.0 (hard.0 h), λ t. hard.1 (IsTolerated-iff.1 t)),
        )

  -- A verdict says what it means. When the check does not raise, the plan is feasible exactly when
  -- no node is over-allocated in CPU or RAM and no link in bandwidth, every flow has at least its
  -- demand on each of its links, the delay under load is within the bound, and the routes cross at
  -- most `max_hops` links between domains; and the hard penalty is spared exactly when all of this
  -- holds but perhaps for the links' bandwidth and the hops.
  pub verify_committed_plan_iff :
      (max_hops : ℕ) (v : GroundTruthVerdict)
      → verify_committed_plan scale s plan slice_req max_hops ≡ ok v
      → ((v.feasible ≡ true) ↔ (IsTolerated × IsWithin max_hops))
        × ((hard_penalty_fired v ≡ false) ↔ IsTolerated)
  unfolding verify_committed_plan
  verify_committed_plan_iff max_hops v h =
      elim (Result-cases (compute_ground_truth_e2e scale s.graph plan slice_req)) [
        | inr (x, e) ↦ absurd (ground arith)
        | inl (e2e, e) ↦ elim (Result-cases (count_link_hops s.graph (values plan.flow_routes) 0)) [
          | inr (x, e') ↦ absurd (ground arith)
          | inl (hops, e') ↦
              let same : verdict_of scale s plan slice_req max_hops e2e hops ≡ v = ground arith in
              subst
                (λ (w : GroundTruthVerdict).
                  ((w.feasible ≡ true) ↔ (IsTolerated × IsWithin max_hops))
                  × ((hard_penalty_fired w ≡ false) ↔ IsTolerated))
                same (verdict_of_iff max_hops e2e hops e e')
        ]
      ]
