-- ===== src/Acceptance/Conserved.antt =====
-- acceptance.py: the report of an episode counts every arrival once.
use orion_v.Prelude.{
  ℕ, suc, ◌+◌, ◌≡◌, refl, inl, inr, List, [], ◌∷◌, true, arith, length, All, ◌==◌, Bool-cases,
  if◌then◌else◌,
}
use orion_v.Prelude.Dict.{Dict, nat_eq, get_or, put, contains}
use orion_v.Prelude.Keys.{contains-put_kept}
use orion_v.Prelude.Fail.{ok, err, value_error}
use orion_v.Episode.Runner.{Outcome, is_admitted, Episode, Setup, run_episode}
use orion_v.Coordinator.Contract.{AllContained}
use orion_v.Coordinator.Placed.{AllPlace}
use orion_v.Episode.Coordinated.{Coordination, coordinated}
use orion_v.Episode.Books.{count_admitted}
use orion_v.Episode.Run.{IsClean, run_episode-IsSound}
use orion_v.Substrate.Balance.{IsBalanced}
use orion_v.Acceptance.{
  RejectBin, structural, chain_order, actor_infeasible, cross_domain_infeasible, c5b_bandwidth,
  c7_delay, c9_hops, qos_gate, post_commit_c2_cpu, post_commit_c3_ram, post_commit_c5b_bandwidth,
  post_commit_c7_delay, post_commit_plan_build, unattributed, bin_eq, bin_beq, sum_counts,
  check_conservation, classify, count_rejections, no_rejections, build_report,
}

-- One more in a bin that is there is one more in the sum.
sum_counts-put :
    (b : RejectBin) (d : Dict RejectBin ℕ)
    → contains b d ≡ true
    → sum_counts (put b (get_or b 0 d + 1) d) ≡ suc (sum_counts d)
sum_counts-put b [] h = cc
sum_counts-put b ((j, n) ∷ d) h = elim (Bool-cases (bin_beq b j)) [
  | inl same ↦ ground arith
  | inr other ↦ ground (arith, sum_counts-put b d)
]

-- Every bin has its entry.
IsFull : Dict RejectBin ℕ → Type 0
IsFull d = (b : RejectBin) → contains b d ≡ true

no_rejections-IsFull : IsFull no_rejections
unfolding IsFull
no_rejections-IsFull structural = refl
no_rejections-IsFull chain_order = refl
no_rejections-IsFull actor_infeasible = refl
no_rejections-IsFull cross_domain_infeasible = refl
no_rejections-IsFull c5b_bandwidth = refl
no_rejections-IsFull c7_delay = refl
no_rejections-IsFull c9_hops = refl
no_rejections-IsFull qos_gate = refl
no_rejections-IsFull post_commit_c2_cpu = refl
no_rejections-IsFull post_commit_c3_ram = refl
no_rejections-IsFull post_commit_c5b_bandwidth = refl
no_rejections-IsFull post_commit_c7_delay = refl
no_rejections-IsFull post_commit_plan_build = refl
no_rejections-IsFull unattributed = refl

put-IsFull : (k : RejectBin) (n : ℕ) (d : Dict RejectBin ℕ) → IsFull d → IsFull (put k n d)
unfolding IsFull
put-IsFull k n d full b = contains-put_kept b k n d (full b)

-- Each result is either an admission or one more in a bin.
count_rejections-sum :
    (os : List Outcome) (d : Dict RejectBin ℕ)
    → IsFull d
    → sum_counts (count_rejections os d) + count_admitted os ≡ sum_counts d + length os
unfolding count_rejections IsFull
count_rejections-sum [] d full = omega arith
count_rejections-sum (o ∷ os) d full = elim (Bool-cases (is_admitted o)) [
  | inl kept ↦ ground (arith, count_rejections-sum os d full)
  | inr lost ↦
      let b = classify o in
      let d1 = put b (get_or b 0 d + 1) d in
      ground (
        arith,
        count_rejections-sum os d1 (put-IsFull b (get_or b 0 d + 1) d full),
        sum_counts-put b d (full b),
      )
]

starting_counts : ℕ → ℕ → Dict RejectBin ℕ
starting_counts s q = put qos_gate q (put structural s no_rejections)

starting_counts-sum : (s q : ℕ) → sum_counts (starting_counts s q) ≡ s + q
unfolding starting_counts
starting_counts-sum s q = omega arith

starting_counts-IsFull : (s q : ℕ) → IsFull (starting_counts s q)
unfolding starting_counts
starting_counts-IsFull s q =
    put-IsFull qos_gate q (put structural s no_rejections)
      (put-IsFull structural s no_rejections no_rejections-IsFull)

-- The report of a whole episode passes `check_conservation` exactly when no rejection by the gate is
-- passed in: the counters of the episode already cover every arrival, so each one given on top is
-- counted twice and the check raises ValueError. The episode started balanced and without slices or
-- registered plans, no request repeats a flow, and the domain actors keep to their contract.
pub build_report-conserves :
    (c : Setup) (k : Coordination) (e e' : Episode) (q : ℕ)
    → AllContained k.coordinator.domain_actors
    → AllPlace k.coordinator.domain_actors
    → All IsClean e.arrivals.events
    → IsBalanced e.substrate
    → e.substrate.active_slices ≡ []
    → e.active_plans ≡ []
    → e.active_requests ≡ []
    → e.arrivals.event_idx ≡ 0
    → run_episode (coordinated c k) e ≡ (ok tt, e')
    → check_conservation (build_report e'.stats e'.mdo_results q)
      ≡ (if q == 0 then ok tt else err value_error)
unfolding check_conservation build_report starting_counts
build_report-conserves c k e e' q laws places clean balanced no_slices no_plans no_requests at_start
      h =
    let s =
      run_episode-IsSound c k laws places e e' clean balanced no_slices no_plans no_requests
        at_start h in
    ground (
      arith,
      s.conserved,
      s.judged,
      s.admissions,
      starting_counts-sum e'.stats.rejected_structural q,
      count_rejections-sum e'.mdo_results (starting_counts e'.stats.rejected_structural q)
          (starting_counts-IsFull e'.stats.rejected_structural q),
    )
