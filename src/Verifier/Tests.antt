-- ===== src/Verifier/Tests.antt =====
-- verifier.py on the sample network, with the sample plan allocated.
use orion_v.Prelude.{◌≡◌, refl, ◌+ℤ◌, ◌-ℤ◌, ◌*ℤ◌, pos, ◌↔◌, true, false}
use orion_v.Prelude.Adjust.{adjust}
use orion_v.Prelude.Fail.{ok, err, Result}
use orion_v.Prelude.Fraction.{◌+ᶠ◌, lt_fraction}
use orion_v.Samples.{network, request, plan}
use orion_v.Substrate.{SubstrateNetwork, allocate}
use orion_v.Delay.{Scale, infinite, mm1_sojourn, node_sojourn, link_sojourn, exceeds}
use orion_v.Verifier.{
  GroundTruthVerdict, hard_penalty_fired, check_node_capacities, check_link_capacities, node_delays,
  path_delays, flow_delays, compute_ground_truth_e2e, flow_ratios, worst_ratio_of, check_c5b,
  path_hops, count_link_hops, verdict_of, verify_committed_plan,
}
use orion_v.Verifier.Verdict.{IsTolerated, IsWithin, verify_committed_plan_iff}

program : Unit {0}
unfolding verify_committed_plan count_link_hops path_hops check_c5b worst_ratio_of flow_ratios
    compute_ground_truth_e2e flow_delays path_delays node_delays check_link_capacities
    check_node_capacities hard_penalty_fired exceeds link_sojourn node_sojourn mm1_sojourn ◌+ᶠ◌
    lt_fraction allocate adjust ◌+ℤ◌ ◌-ℤ◌ ◌*ℤ◌
program = tt

abbrev scale : Scale
scale = record { one_intensity = pos 1; one_over = pos 1 }

abbrev committed : SubstrateNetwork
committed = (allocate plan request network).1

abbrev verdict : Result GroundTruthVerdict
verdict = verify_committed_plan scale committed plan request 2

abbrev found : Result GroundTruthVerdict → GroundTruthVerdict
found (ok v) = v
found (err e) = verdict_of scale committed plan request 0 infinite 0

run-verdict : verdict ≡ ok (found verdict)
unfolding program
run-verdict = refl

feasible : (found verdict).feasible ≡ true
unfolding program
feasible = refl

verify_committed_plan_iff_example :
    (((found verdict).feasible ≡ true)
      ↔ (IsTolerated scale committed plan request × IsWithin scale committed plan request 2))
    × ((hard_penalty_fired (found verdict) ≡ false) ↔ IsTolerated scale committed plan request)
verify_committed_plan_iff_example =
    verify_committed_plan_iff scale committed plan request 2 (found verdict) run-verdict
