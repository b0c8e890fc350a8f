-- ===== src/Monitor/Paced.antt =====
-- strategy_monitor.py: how often a signal can be given.
use orion_v.Prelude.{
  ℕ, suc, ◌≤◌, pos, ◌≡◌, refl, sym, subst, ◌∙◌, inl, inr, List, [], ◌∷◌, Bool, true, false, arith,
  ltb, ◌⊎◌, Bool-cases, if◌then◌else◌,
}
use orion_v.Prelude.Dict.{Eq, get_or-put, beq_refl}
use orion_v.Prelude.Fraction.{Fraction, whole}
use orion_v.Monitor.{
  PageHinkley, new_detector, accumulate, drifts, update, reset_detector, feed, MonitorSignals,
  StrategyMonitor, new_monitor, detector_of, observe,
}

-- A detector that starts from a count of observations.
record IsAt (n : ℕ) (d : PageHinkley) : Type 0 where
  counted : d.count ≡ n
  burn_in : d.min_instances ≡ 30

IsAt-same : (n m : ℕ) (d c : PageHinkley) → n ≡ m → d ≡ c → IsAt n d → IsAt m c
IsAt-same n m d c e f a = subst (IsAt m) f (subst (λ t. IsAt t d) e a)

accumulate-IsAt :
    (x : Fraction) (n : ℕ) (d : PageHinkley) → IsAt n d → IsAt (suc n) (accumulate x d)
unfolding accumulate
accumulate-IsAt x n d a = record { counted = omega (arith, a.counted); burn_in = a.burn_in }

reset_detector-IsAt : (n : ℕ) (d : PageHinkley) → IsAt n d → IsAt 0 (reset_detector d)
unfolding reset_detector
reset_detector-IsAt n d a = record { counted = refl; burn_in = a.burn_in }

-- Nothing is detected while the detector burns in.
drifts-count : (d : PageHinkley) → drifts d ≡ true → d.min_instances ≤ d.count
unfolding drifts
drifts-count d h = elim (Bool-cases (ltb d.count d.min_instances)) [
  | inl early ↦ absurd (cc (h, early))
  | inr late ↦ ground (arith, late)
]

feed-IsAt :
    (x : Fraction) (n : ℕ) (d : PageHinkley)
    → IsAt n d
    → IsAt (if (feed x d).0 then 0 else suc n) (feed x d).1 × ((feed x d).0 ≡ true → 30 ≤ suc n)
unfolding feed update
feed-IsAt x n d a =
    let next = accumulate-IsAt x n d a in
    elim (Bool-cases (drifts (accumulate x d))) [
      | inl hit ↦ (
        rw hit (reset_detector-IsAt (suc n) (accumulate x d) next),
        λ h. omega (arith, drifts-count (accumulate x d) hit, next.counted, next.burn_in),
      )
      | inr quiet ↦ (rw quiet next, λ h. absurd (cc (h, quiet)))
    ]

-- A monitor with the numbers of observations since the last signals: of each plan, and of the stream.
pub record Watched (K : Type 0) : Type 0 where
  pub monitor : StrategyMonitor K
  pub since : K → ℕ
  pub since_refresh : ℕ

module _ {K : Type 0} ⦃e : Eq K⦄ where
  abbrev pub watch : Fraction → Fraction → Watched K
  watch delta threshold = record {
    monitor = new_monitor delta threshold;
    since = λ k. 0;
    since_refresh = 0;
  }

  -- One more observation of the plan, or none since it was reported.
  unfoldable pub next_since : K → MonitorSignals K → (K → ℕ) → K → ℕ
  next_since signature signals since k =
      if e.beq k signature
      then elim signals.stale_plans [ [] ↦ suc (since k) | _ ∷ _ ↦ 0 ]
      else since k

  unfoldable pub step : K × Bool → Watched K → Watched K
  unfolding next_since observe
  step (signature, rejected) w =
      let (signals, monitor) = observe signature rejected w.monitor in
      record {
        monitor = monitor;
        since = next_since signature signals w.since;
        since_refresh = if signals.global_refresh_requested then 0 else suc w.since_refresh;
      }

  unfoldable pub watch_all : List (K × Bool) → Watched K → Watched K
  unfolding step
  watch_all [] w = w
  watch_all (o ∷ os) w = watch_all os (step o w)

  record IsPaced (w : Watched K) : Type 0 where
    plans : (k : K) → IsAt (w.since k) (detector_of k w.monitor)
    stream : IsAt w.since_refresh w.monitor.global_stream

  watch-IsPaced : (delta threshold : Fraction) → IsPaced (watch delta threshold)
  watch-IsPaced delta threshold = record {
    plans = λ k. record { counted = refl; burn_in = refl };
    stream = record { counted = refl; burn_in = refl };
  }

  next_since_other :
      (signature k : K) (signals : MonitorSignals K) (since : K → ℕ)
      → e.beq k signature ≡ false
      → next_since signature signals since k ≡ since k
  unfolding next_since
  next_since_other signature k signals since h = rw h refl

  next_since_self :
      (signature : K) (hit refresh : Bool) (since : K → ℕ)
      → next_since signature
          (record {
            stale_plans = if hit then signature ∷ [] else [];
            global_refresh_requested = refresh;
          })
          since
          signature
        ≡ (if hit then 0 else suc (since signature))
  unfolding next_since
  next_since_self signature true refresh since = rw (beq_refl signature) refl
  next_since_self signature false refresh since = rw (beq_refl signature) refl

  step-IsPaced : (o : K × Bool) (w : Watched K) → IsPaced w → IsPaced (step o w)
  unfolding step observe
  step-IsPaced (signature, rejected) w p =
      let x = whole (if rejected then pos 1 else pos 0) in
      let det = detector_of signature w.monitor in
      let fresh = new_detector w.monitor.delta w.monitor.threshold in
      let (signals, monitor) = observe signature rejected w.monitor in
      let found : (k : K)
          → detector_of k monitor
            ≡ (if e.beq k signature then (feed x det).1 else detector_of k w.monitor) =
        λ k. get_or-put signature k (feed x det).1 fresh w.monitor.per_plan in
      let own : IsAt (next_since signature signals w.since signature)
          (detector_of signature monitor) =
        IsAt-same _ _ _ _
          (sym (next_since_self signature (feed x det).0 signals.global_refresh_requested w.since))
          (sym (found signature ∙ rw (beq_refl signature) refl))
          (feed-IsAt x (w.since signature) det (p.plans signature)).0 in
      record {
        plans = λ k. elim (Bool-cases (e.beq k signature)) [
          | inl same ↦
              subst (λ t. IsAt (next_since signature signals w.since t) (detector_of t monitor))
                (sym ((e.beq_iff k signature).0 same)) own
          | inr other ↦
              IsAt-same _ _ _ _ (sym (next_since_other signature k signals w.since other))
                (sym (found k ∙ rw other refl)) (p.plans k)
        ];
        stream = (feed-IsAt x w.since_refresh w.monitor.global_stream p.stream).0;
      }

  watch_all-IsPaced : (os : List (K × Bool)) (w : Watched K) → IsPaced w → IsPaced (watch_all os w)
  unfolding watch_all
  watch_all-IsPaced [] w p = p
  watch_all-IsPaced (o ∷ os) w p = watch_all-IsPaced os (step o w) (step-IsPaced o w p)

  -- Signals are paced. Whatever a monitor has observed since it was made, the next observation reports
  -- no plan as stale but its own, and that one only when at least 30 observations of it, this one
  -- included, have been made since it was last reported; and it requests a global refresh only when
  -- at least 30 observations have been made since the last request.
  pub observe-paced :
      (delta threshold : Fraction) (os : List (K × Bool)) (signature : K) (rejected : Bool)
      → let w = watch_all os (watch delta threshold) in
        let signals = (observe signature rejected w.monitor).0 in
        ((signals.stale_plans ≡ [])
          ⊎ ((signals.stale_plans ≡ signature ∷ []) × (30 ≤ suc (w.since signature))))
        × (signals.global_refresh_requested ≡ true → 30 ≤ suc w.since_refresh)
  unfolding observe
  observe-paced delta threshold os signature rejected =
      let w = watch_all os (watch delta threshold) in
      let p = watch_all-IsPaced os (watch delta threshold) (watch-IsPaced delta threshold) in
      let x = whole (if rejected then pos 1 else pos 0) in
      let det = detector_of signature w.monitor in
      let own = feed-IsAt x (w.since signature) det (p.plans signature) in
      (
        elim (Bool-cases (feed x det).0) [
          | inl hit ↦ inr (rw hit refl, own.1 hit)
          | inr quiet ↦ inl (rw quiet refl)
        ],
        (feed-IsAt x w.since_refresh w.monitor.global_stream p.stream).1,
      )
