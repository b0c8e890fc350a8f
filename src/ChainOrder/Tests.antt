-- ===== src/ChainOrder/Tests.antt =====
-- chain_order.py on small partitions.
use orion_v.Prelude.{[], ◌∷◌, true, false, ◌≡◌, refl, ◌↔◌}
use orion_v.ChainOrder.{is_contiguous, run_count}
use orion_v.ChainOrder.Runs.{NoReentry, is_contiguous_iff}

program : Unit {0}
unfolding is_contiguous run_count
program = tt

run_count_bounce : run_count (1 ∷ 2 ∷ 1 ∷ []) ≡ 3
unfolding program
run_count_bounce = refl

is_contiguous_bounce : is_contiguous (1 ∷ 2 ∷ 1 ∷ []) ≡ false
unfolding program
is_contiguous_bounce = refl

is_contiguous_iff_example : (is_contiguous (1 ∷ 1 ∷ 2 ∷ []) ≡ true) ↔ NoReentry (1 ∷ 1 ∷ 2 ∷ [])
is_contiguous_iff_example = is_contiguous_iff (1 ∷ 1 ∷ 2 ∷ [])
