-- ===== src/Oracle/Tests.antt =====
-- partition_oracle.py: the sample chain of two VNFs over the two domains of the sample network.
use mathlib.Core.List.{Memᴰ}
use orion_v.Prelude.{All, ℕ, pos, ◌+ℤ◌, ◌-ℤ◌, ◌*ℤ◌, ◌≡◌, refl, ◌↔◌, [], ◌∷◌, List, true, some}
use orion_v.Prelude.Fail.{ok, err, runtime_error}
use orion_v.Prelude.Fraction.{◌+ᶠ◌, lt_fraction}
use orion_v.Prelude.Order.{InOrder}
use orion_v.Types.{edge, central_cloud}
use orion_v.Samples.{network, request, summary}
use orion_v.Substrate.{nodes_in_domain}
use orion_v.ChainOrder.{run_count}
use orion_v.Precommit.{pair_key}
use orion_v.Delay.{Scale, mm1_sojourn, node_sojourn, link_sojourn, exceeds}
use orion_v.Oracle.{View, Ranked, contiguous, tightest_of, ranked_of, rank_all, feasible_partitions}
use orion_v.Oracle.Feasible.{IsCandidate}
use orion_v.Oracle.Headroom.{IsKeyed, Precedes}
use orion_v.Oracle.Exact.{feasible_partitions_iff}
use orion_v.Oracle.Delays.{
  dom_nodes, left_of, pick_node, add_link, inter_domain_links, sojourn_at, seat_chain, flow_chain,
  predicted_e2e, lt_best, keep_less, offer, best_of, pick_of, judge, best_feasible_partition,
}
use orion_v.Oracle.Delays.Pick.{IsPick, best_feasible_partition-IsPick}

program : Unit {0}
unfolding best_feasible_partition judge pick_of best_of offer keep_less lt_best predicted_e2e
    flow_chain seat_chain sojourn_at inter_domain_links add_link pick_node left_of dom_nodes
    feasible_partitions rank_all ranked_of tightest_of contiguous run_count nodes_in_domain pair_key
    exceeds link_sojourn node_sojourn mm1_sojourn ◌+ᶠ◌ lt_fraction ◌+ℤ◌ ◌-ℤ◌ ◌*ℤ◌
program = tt

-- Domain 0 has no CPU for both VNFs, so they are split.
abbrev view : View
view = record {
  summaries = summary 0 edge (pos 6) ∷ summary 1 central_cloud (pos 5) ∷ [];
  cpu = pos 4 ∷ pos 3 ∷ [];
  ram = pos 2 ∷ pos 2 ∷ [];
  admissible = λ k m. true;
}

abbrev split : List Ranked
split =
    record { domains = 2; tightest = some (pos 2); cand = 0 ∷ 1 ∷ [] }
    ∷ record { domains = 2; tightest = some (pos 1); cand = 1 ∷ 0 ∷ [] }
    ∷ []

run-view : feasible_partitions 20000 view ≡ ok split
unfolding program
run-view = refl

refused : feasible_partitions 3 view ≡ err runtime_error
unfolding program
refused = refl

feasible_partitions_iff_example :
    InOrder Precedes split
    × ((cand : List ℕ) → ((r : Ranked) × Memᴰ r split × (r.cand ≡ cand)) ↔ IsCandidate view cand)
    × All (IsKeyed view) split
feasible_partitions_iff_example = feasible_partitions_iff 20000 view split refl run-view

abbrev scale : Scale
scale = record { one_intensity = pos 1; one_over = pos 1 }

picked : best_feasible_partition 20000 scale view (some (network, request)) ≡ ok (some (0 ∷ 1 ∷ []))
unfolding program
picked = refl

best_feasible_partition-IsPick_example : IsPick scale view network request (some (0 ∷ 1 ∷ []))
best_feasible_partition-IsPick_example =
    best_feasible_partition-IsPick 20000 scale view network request (some (0 ∷ 1 ∷ [])) refl picked
