-- ===== src/Sim/Arrivals.antt =====
-- sim/arrival_process.py: the events of an episode. The draws of the random generator (the gaps between
-- arrivals and the lifetimes) and the slice factory are arguments; the id `req_{i:04d}` is the number
-- `i`, whose text sorts the same way for fewer than 10 000 arrivals.
pub mod Order
mod Tests
use orion_v.Prelude.{
  ℕ, suc, ◌+◌, ◌-◌, ℤ, ◌+ℤ◌, List, [], ◌∷◌, Bool, true, false, not, ◌&&◌, ◌||◌, Option, none, some,
  length, get_elem?, ltb, ltb_ℤ,
}
use orion_v.Prelude.Fail.{Result, ok, err, index_error, Action}
use orion_v.Prelude.Sort.{sort}
use orion_v.Types.{Ident, SliceRequest}

pub data EventType : Type 0 where
  arrival departure : EventType

-- `EventType.value`
abbrev pub rank : EventType → ℕ
rank arrival = 1
rank departure = 0

pub record SimEvent : Type 0 where
  pub time : ℤ
  pub event_type : EventType
  pub request_id : Ident
  pub slice_request : Option SliceRequest

-- The order of `(time, event_type.value)`.
abbrev pub lt_event : SimEvent → SimEvent → Bool
lt_event a b =
    ltb_ℤ a.time b.time
    || (not (ltb_ℤ b.time a.time) && ltb (rank a.event_type) (rank b.event_type))

pub record ArrivalProcess : Type 0 where
  pub events : List SimEvent
  pub event_idx : ℕ

-- A draw: the gap since the arrival before, and the lifetime.
abbrev pub Draw : Type 0
Draw = ℤ × ℤ

module _ (slice_factory : Ident → ℤ → ℤ → SliceRequest) where
  abbrev pub arrival_of : ℕ → ℤ → ℤ → SimEvent
  arrival_of i t_arrive lifetime = record {
    time = t_arrive;
    event_type = arrival;
    request_id = i;
    slice_request = some (slice_factory i t_arrive lifetime);
  }

  abbrev pub departure_of : ℕ → ℤ → ℤ → SimEvent
  departure_of i t_arrive lifetime = record {
    time = t_arrive +ℤ lifetime;
    event_type = departure;
    request_id = i;
    slice_request = none;
  }

  -- The loop over the arrivals, `now` being the running sum of the gaps.
  unfoldable pub events_from : ℕ → ℤ → List Draw → List SimEvent
  events_from i now [] = []
  events_from i now ((gap, lifetime) ∷ draws) =
      let t = now +ℤ gap in
      arrival_of i t lifetime ∷ departure_of i t lifetime ∷ events_from (suc i) t draws

  unfoldable pub generate : ℤ → List Draw → ArrivalProcess
  unfolding events_from
  generate start draws = record {
    events = sort lt_event (events_from 0 start draws);
    event_idx = 0;
  }

-- `reset`
unfoldable pub restart : ArrivalProcess → ArrivalProcess
restart p = record p { event_idx = 0 }

unfoldable pub has_next : ArrivalProcess → Bool
has_next p = ltb p.event_idx (length p.events)

unfoldable pub peek : Action ArrivalProcess SimEvent
peek p = elim (get_elem? p.events p.event_idx) [ none ↦ (err index_error, p) | some e ↦ (ok e, p) ]

unfoldable pub next_event : Action ArrivalProcess SimEvent
next_event p = elim (get_elem? p.events p.event_idx) [
  | none ↦ (err index_error, p)
  | some e ↦ (ok e, record p { event_idx = p.event_idx + 1 })
]

unfoldable pub num_events : ArrivalProcess → ℕ
num_events p = length p.events

unfoldable pub num_remaining : ArrivalProcess → ℕ
num_remaining p = length p.events - p.event_idx
