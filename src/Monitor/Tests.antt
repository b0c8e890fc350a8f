-- ===== src/Monitor/Tests.antt =====
-- strategy_monitor.py: a sensitive monitor, with a detector that needs 30 observations.
use orion_v.Prelude.{
  ℕ, suc, ◌≤◌, pos, ◌+ℤ◌, ◌-ℤ◌, ◌*ℤ◌, ◌≡◌, refl, ◌⊎◌, List, [], ◌∷◌, Bool, true, false,
}
use orion_v.Prelude.Dict.{nat_eq}
use orion_v.Prelude.Fraction.{whole, ◌+ᶠ◌, ◌-ᶠ◌, lt_fraction}
use orion_v.Monitor.{accumulate, drifts, update, reset_detector, feed, observe}
use orion_v.Monitor.Paced.{Watched, watch, watch_all, step, next_since, observe-paced}

program : Unit {0}
unfolding watch_all step next_since observe feed update drifts accumulate reset_detector ◌+ᶠ◌ ◌-ᶠ◌
    lt_fraction ◌+ℤ◌ ◌-ℤ◌ ◌*ℤ◌
program = tt

-- Observations of two keys.
abbrev seen : List (ℕ × Bool)
seen = (5, false) ∷ (6, false) ∷ (5, false) ∷ []

abbrev watched : Watched ℕ
watched = watch_all seen (watch (whole (pos 0)) (whole (pos 0)))

observed : (watched.since 5 ≡ 2) × (watched.since 6 ≡ 1) × (watched.since_refresh ≡ 3)
unfolding program
observed = (refl, refl, refl)

observe-paced_example :
    (((observe 5 true watched.monitor).0.stale_plans ≡ [])
      ⊎ (((observe 5 true watched.monitor).0.stale_plans ≡ 5 ∷ []) × (30 ≤ suc (watched.since 5))))
    × ((observe 5 true watched.monitor).0.global_refresh_requested ≡ true
        → 30 ≤ suc watched.since_refresh)
observe-paced_example = observe-paced (whole (pos 0)) (whole (pos 0)) seen 5 true
