-- ===== src/Episode/Tests.antt =====
-- episode_runner.py: the sample episode.
use orion_v.Episode.Sample.{
  program, setup, coordination, actors-AllContained, actors-AllPlace, start, start-IsClean, ended,
  run-start, network-IsBalanced, starts_at_zero,
}
use orion_v.Prelude.{pos, ◌≡◌, refl, length, All}
use orion_v.Prelude.Fail.{ok, Result}
use orion_v.Sim.Arrivals.{restart}
use orion_v.Episode.Runner.{Episode, run_episode, reset_runner}
use orion_v.Episode.Coordinated.{coordinated}
use orion_v.Episode.Books.{IsSound}
use orion_v.Episode.Run.{IsClean, at, count_arrivals, run_episode-IsSound, run_episode-reset_runner}

counted :
    (ended.1.stats.admitted ≡ 2)
    × (ended.1.stats.rejected_by_mdo ≡ 1)
    × (ended.1.stats.departures ≡ 2)
    × (ended.1.stats.hard_penalty_fires ≡ 0)
    × (ended.1.stats.cumulative_reward ≡ pos 200)
unfolding program
counted = (refl, refl, refl, refl, refl)

-- The runner is reset and run again.
abbrev rerun : Result (Unit {0}) × Episode
rerun = run_episode (coordinated setup coordination) (reset_runner ended.1)

rerun-ended : rerun ≡ (ok tt, rerun.1)
unfolding program reset_runner restart
rerun-ended = refl

ended-IsClean : All IsClean ended.1.arrivals.events
unfolding program
ended-IsClean = start-IsClean

run_episode-IsSound_example :
    IsSound
      (at start.arrivals.events (length start.arrivals.events))
      (count_arrivals (length start.arrivals.events) start.arrivals.events)
      0
      0
      ended.1
run_episode-IsSound_example =
    run_episode-IsSound setup coordination actors-AllContained actors-AllPlace start ended.1
      start-IsClean network-IsBalanced refl refl refl starts_at_zero run-start

run_episode-reset_runner_example :
    IsSound
      (at ended.1.arrivals.events (length ended.1.arrivals.events))
      (count_arrivals (length ended.1.arrivals.events) ended.1.arrivals.events)
      0
      0
      rerun.1
run_episode-reset_runner_example =
    run_episode-reset_runner setup coordination actors-AllContained actors-AllPlace ended.1 rerun.1
      ended-IsClean rerun-ended
