-- ===== src/Precommit/Tests.antt =====
-- precommit_check.py on a chain that crosses from domain 2 to domain 1 and comes back.
use orion_v.Prelude.{ℕ, ℤ, pos, List, [], ◌∷◌, true, false, ◌≡◌, refl, ◌≤ℤ◌, ◌+◌, length, ◌+ℤ◌, ltb}
use orion_v.Prelude.Dict.{pair_eq, get_or}
use orion_v.Prelude.Sum.{sum_by}
use orion_v.Types.Mdo.{InterDomainLink}
use orion_v.ChainOrder.{run_count}
use orion_v.Precommit.{
  inter_domain_demand_by_pair, compute_inter_domain_bw, check_c5b_inter, count_inter_domain_hops,
  inter_domain_residual_by_pair, domain_sequence_from_partition,
}
use orion_v.Precommit.Hops.{run_count-hops}
use orion_v.Precommit.Demand.{
  crossing_demand, linked_residual, inter_domain_demand_by_pair-totals, check_c5b_inter_sound,
}

program : Unit {0}
unfolding inter_domain_demand_by_pair check_c5b_inter crossing_demand ◌+ℤ◌
    inter_domain_residual_by_pair linked_residual
program = tt

abbrev bounce : List ℕ
bounce = 2 ∷ 2 ∷ 1 ∷ 2 ∷ []

abbrev demands : List ℤ
demands = pos 9 ∷ pos 4 ∷ pos 3 ∷ []

abbrev link_from : ℕ → ℕ → ℤ → InterDomainLink
link_from source_domain target_domain bw_residual = record {
  source_domain = source_domain;
  target_domain = target_domain;
  bw_residual = bw_residual;
  bw_capacity = pos 10;
  propagation_delay = pos 2;
}

abbrev links : List InterDomainLink
links = link_from 1 2 (pos 5) ∷ link_from 2 1 (pos 3) ∷ []

inter_domain_demand_by_pair-bounce :
    inter_domain_demand_by_pair bounce demands ≡ ((1, 2), pos 7) ∷ []
unfolding program
inter_domain_demand_by_pair-bounce = refl

passes :
    check_c5b_inter
      (inter_domain_demand_by_pair bounce demands)
      (inter_domain_residual_by_pair links)
    ≡ false
unfolding program
passes = refl

run_count-hops_example :
    (run_count (2 ∷ 1 ∷ 2 ∷ []) ≡ count_inter_domain_hops (2 ∷ 1 ∷ 2 ∷ []) + 1)
    × (run_count (2 ∷ 1 ∷ 2 ∷ []) ≡ length (domain_sequence_from_partition (2 ∷ 1 ∷ 2 ∷ [])))
run_count-hops_example = run_count-hops 2 (1 ∷ 2 ∷ [])

inter_domain_demand_by_pair-totals_example :
    ((x y : ℕ)
      → ltb x y ≡ true
      → get_or (x, y) (pos 0) (inter_domain_demand_by_pair bounce demands)
        ≡ crossing_demand x y bounce demands)
    × (sum_by (λ e. e.1) (inter_domain_demand_by_pair bounce demands)
        ≡ compute_inter_domain_bw bounce demands)
inter_domain_demand_by_pair-totals_example = inter_domain_demand_by_pair-totals bounce demands

check_c5b_inter_sound_example : crossing_demand 1 2 bounce demands ≤ℤ linked_residual 1 2 links
check_c5b_inter_sound_example = check_c5b_inter_sound bounce demands links 1 2 passes refl refl
