-- ===== src/Sim/Arrivals/Order.antt =====
-- arrival_process.py: the order of the generated events.
use orion_v.Prelude.{
  ℕ, zero, suc, ◌+◌, ◌*◌, ℤ, pos, ◌+ℤ◌, ltb_ℤ, List, [], ◌∷◌, true, false, ◌≡◌, refl, ap, All,
  length, arith, sym, ◌∙◌,
}
use orion_v.Prelude.Order.{InOrder, sort-InOrder, InOrder-map, length-sort}
use orion_v.Prelude.Sort.{sort, sort-All}
use orion_v.Types.{Ident, SliceRequest}
use orion_v.Sim.Arrivals.{
  EventType, arrival, departure, SimEvent, lt_event, Draw, events_from, generate,
}

-- The arrival of the `k`-th draw.
time_at : ℤ → List Draw → ℕ → ℤ
time_at now [] k = now
time_at now ((gap, lifetime) ∷ draws) zero = now +ℤ gap
time_at now ((gap, lifetime) ∷ draws) (suc k) = time_at (now +ℤ gap) draws k

lifetime_at : List Draw → ℕ → ℤ
lifetime_at [] k = pos 1
lifetime_at ((gap, lifetime) ∷ draws) zero = lifetime
lifetime_at ((gap, lifetime) ∷ draws) (suc k) = lifetime_at draws k

lifetime_at-positive :
    (draws : List Draw) (k : ℕ)
    → All (λ d. ltb_ℤ (pos 0) d.1 ≡ true) draws
    → ltb_ℤ (pos 0) (lifetime_at draws k) ≡ true
unfolding lifetime_at
lifetime_at-positive [] k h = refl
lifetime_at-positive ((gap, lifetime) ∷ draws) zero h = h.0
lifetime_at-positive ((gap, lifetime) ∷ draws) (suc k) h = lifetime_at-positive draws k h.1

-- An event at its time, given when the slices arrive and how long they stay.
abbrev expected : (ℕ → ℤ) → (ℕ → ℤ) → EventType → ℕ → ℤ
expected times stays arrival i = times i
expected times stays departure i = times i +ℤ stays i

abbrev IsTimed : (ℕ → ℤ) → (ℕ → ℤ) → SimEvent → Type 0
IsTimed times stays e = e.time ≡ expected times stays e.event_type e.request_id

-- Event `b` may come after event `a`.
pub record MayFollow (a b : SimEvent) : Type 0 where
  pub sorted : lt_event b a ≡ false
  pub opened : a.event_type ≡ departure → b.event_type ≡ arrival → ¬ (a.request_id ≡ b.request_id)

lt_event_trans :
    (a b c : SimEvent) → lt_event b a ≡ false → lt_event c b ≡ false → lt_event c a ≡ false
lt_event_trans a b c h k = ground arith

later : (t l : ℤ) → ltb_ℤ (pos 0) l ≡ true → ltb_ℤ t (t +ℤ l) ≡ true
unfolding ◌+ℤ◌
later t l h = ground arith

module _ (times stays : ℕ → ℤ) (positive : (i : ℕ) → ltb_ℤ (pos 0) (stays i) ≡ true) where
  timed-MayFollow :
      (a b : SimEvent)
      → lt_event b a ≡ false
      → IsTimed times stays a
      → IsTimed times stays b
      → MayFollow a b
  timed-MayFollow a b h p q = record {
    sorted = h;
    opened = λ d r same.
        let left : a.time ≡ times a.request_id +ℤ stays a.request_id =
          p ∙ ap (λ t. expected times stays t a.request_id) d in
        let came : b.time ≡ times b.request_id =
          q ∙ ap (λ t. expected times stays t b.request_id) r in
        let here : b.time ≡ times a.request_id = came ∙ ap times (sym same) in
        let stay : ltb_ℤ (pos 0) (stays a.request_id) ≡ true = positive a.request_id in
        absurd (ground (arith, later (times a.request_id) (stays a.request_id) stay));
  }

module _ (slice_factory : Ident → ℤ → ℤ → SliceRequest) where
  events_from-IsTimed :
      (times stays : ℕ → ℤ) (i : ℕ) (now : ℤ) (draws : List Draw)
      → ((k : ℕ) → times (i + k) ≡ time_at now draws k)
      → ((k : ℕ) → stays (i + k) ≡ lifetime_at draws k)
      → All (IsTimed times stays) (events_from slice_factory i now draws)
  unfolding events_from time_at lifetime_at
  events_from-IsTimed times stays i now [] t l = tt
  events_from-IsTimed times stays i now ((gap, lifetime) ∷ draws) t l =
      let first : i + 0 ≡ i = omega arith in
      let came : times i ≡ now +ℤ gap = ap times (sym first) ∙ t 0 in
      let stay : stays i ≡ lifetime = ap stays (sym first) ∙ l 0 in
      let shift : (k : ℕ) → suc i + k ≡ i + suc k = λ k. omega arith in
      (
        sym came,
        (
          cc (came, stay),
          events_from-IsTimed times stays (suc i) (now +ℤ gap) draws
              (λ k. ap times (shift k) ∙ t (suc k)) (λ k. ap stays (shift k) ∙ l (suc k)),
        ),
      )

  length-events_from :
      (i : ℕ) (now : ℤ) (draws : List Draw)
      → length (events_from slice_factory i now draws) ≡ 2 * length draws
  unfolding events_from
  length-events_from i now [] = omega arith
  length-events_from i now ((gap, lifetime) ∷ draws) =
      omega (arith, length-events_from (suc i) (now +ℤ gap) draws)

  -- The event stream is in order. With positive lifetimes, an event is never later than one that
  -- follows it, nor an arrival before a departure of the same time; no departure of a slice stands before its arrival; and there
  -- are two events for each draw.
  pub generate-InOrder :
      (start : ℤ) (draws : List Draw)
      → All (λ d. ltb_ℤ (pos 0) d.1 ≡ true) draws
      → InOrder MayFollow (generate slice_factory start draws).events
        × (length (generate slice_factory start draws).events ≡ 2 * length draws)
  unfolding generate
  generate-InOrder start draws positive =
      let raw = events_from slice_factory 0 start draws in
      let times = time_at start draws in
      let stays = lifetime_at draws in
      let timed =
        events_from-IsTimed times stays 0 start draws (λ k. ap times (omega arith))
          (λ k. ap stays (omega arith)) in
      (
        InOrder-map (λ a b. lt_event b a ≡ false) MayFollow (IsTimed times stays)
            (timed-MayFollow times stays (λ i. lifetime_at-positive draws i positive))
            (sort lt_event raw)
            (sort-InOrder lt_event (λ a b. lt_event b a ≡ false) (λ a b h. ground arith)
              (λ a b h. h) lt_event_trans raw)
            (sort-All lt_event (IsTimed times stays) raw timed),
        length-sort lt_event raw ∙ length-events_from 0 start draws,
      )
