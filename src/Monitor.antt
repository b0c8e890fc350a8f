-- ===== src/Monitor.antt =====
-- monitor/page_hinkley.py and monitor/strategy_monitor.py: the detectors of drift. The numbers are exact
-- quotients; the key of a plan is any type with an equality.
pub mod Paced
mod Tests
use orion_v.Prelude.{ℕ, ◌+◌, pos, List, [], ◌∷◌, Bool, true, false, ltb, if◌then◌else◌}
use orion_v.Prelude.Dict.{Dict, Eq, get_or, put}
use orion_v.Prelude.Fraction.{Fraction, whole, ◌+ᶠ◌, ◌-ᶠ◌, div_by, lt_fraction}

pub record PageHinkley : Type 0 where
  pub delta : Fraction
  pub threshold : Fraction
  pub min_instances : ℕ
  pub count : ℕ
  pub running_mean : Fraction
  pub cumulative : Fraction
  pub min_cumulative : Fraction

-- `PageHinkley(delta=delta, threshold=threshold)`
abbrev pub new_detector : Fraction → Fraction → PageHinkley
new_detector delta threshold = record {
  delta = delta;
  threshold = threshold;
  min_instances = 30;
  count = 0;
  running_mean = whole (pos 0);
  cumulative = whole (pos 0);
  min_cumulative = whole (pos 0);
}

-- The state after an observation.
unfoldable pub accumulate : Fraction → PageHinkley → PageHinkley
unfolding ◌+ᶠ◌ ◌-ᶠ◌ lt_fraction
accumulate x d =
    let count = d.count + 1 in
    let mean = d.running_mean +ᶠ div_by (x -ᶠ d.running_mean) count in
    let cumulative = d.cumulative +ᶠ (x -ᶠ mean -ᶠ d.delta) in
    record d {
      count = count;
      running_mean = mean;
      cumulative = cumulative;
      min_cumulative =
          if lt_fraction cumulative d.min_cumulative then cumulative else d.min_cumulative;
    }

unfoldable pub drifts : PageHinkley → Bool
unfolding ◌-ᶠ◌ lt_fraction
drifts d =
    if ltb d.count d.min_instances
    then false
    else lt_fraction d.threshold (d.cumulative -ᶠ d.min_cumulative)

unfoldable pub update : Fraction → PageHinkley → Bool × PageHinkley
unfolding accumulate drifts
update x d = (drifts (accumulate x d), accumulate x d)

unfoldable pub reset_detector : PageHinkley → PageHinkley
reset_detector d = record d {
  count = 0;
  running_mean = whole (pos 0);
  cumulative = whole (pos 0);
  min_cumulative = whole (pos 0);
}

-- An update, and a reset once the detection is acted upon.
unfoldable pub feed : Fraction → PageHinkley → Bool × PageHinkley
unfolding update reset_detector
feed x d = let (hit, d') = update x d in (hit, if hit then reset_detector d' else d')

pub record MonitorSignals (K : Type 0) : Type 0 where
  pub stale_plans : List K
  pub global_refresh_requested : Bool

pub record StrategyMonitor (K : Type 0) : Type 0 where
  pub delta : Fraction
  pub threshold : Fraction
  pub per_plan : Dict K PageHinkley
  pub global_stream : PageHinkley

module _ {K : Type 0} ⦃e : Eq K⦄ where
  abbrev pub new_monitor : Fraction → Fraction → StrategyMonitor K
  new_monitor delta threshold = record {
    delta = delta;
    threshold = threshold;
    per_plan = [];
    global_stream = new_detector delta threshold;
  }

  -- `per_plan.setdefault(signature, PageHinkley(...))`
  abbrev pub detector_of : K → StrategyMonitor K → PageHinkley
  detector_of signature m = get_or signature (new_detector m.delta m.threshold) m.per_plan

  unfoldable pub observe : K → Bool → StrategyMonitor K → MonitorSignals K × StrategyMonitor K
  unfolding feed
  observe signature rejected m =
      let x = whole (if rejected then pos 1 else pos 0) in
      let (stale, detector) = feed x (detector_of signature m) in
      let (refresh, stream) = feed x m.global_stream in
      (
        record {
          stale_plans = if stale then signature ∷ [] else [];
          global_refresh_requested = refresh;
        },
        record m { per_plan = put signature detector m.per_plan; global_stream = stream },
      )
