-- ===== src/Acceptance/Tests.antt =====
-- acceptance.py on the sample episode.
use orion_v.Prelude.{ℕ, ◌≡◌, refl}
use orion_v.Prelude.Fail.{ok, err, value_error}
use orion_v.Episode.Sample.{
  setup, coordination, actors-AllContained, actors-AllPlace, start, start-IsClean, ended, run-start,
  network-IsBalanced, starts_at_zero,
}
use orion_v.Acceptance.{check_conservation, build_report, AcceptanceReport}
use orion_v.Acceptance.Conserved.{build_report-conserves}

abbrev report : ℕ → AcceptanceReport
report q = build_report ended.1.stats ended.1.mdo_results q

build_report-conserves_example : check_conservation (report 0) ≡ ok tt
build_report-conserves_example =
    build_report-conserves setup coordination start ended.1 0 actors-AllContained actors-AllPlace
      start-IsClean network-IsBalanced refl refl refl starts_at_zero run-start

counted_twice : check_conservation (report 2) ≡ err value_error
counted_twice =
    build_report-conserves setup coordination start ended.1 2 actors-AllContained actors-AllPlace
      start-IsClean network-IsBalanced refl refl refl starts_at_zero run-start
