-- ===== src/Episode/Run.antt =====
-- episode_runner.py: a whole episode.
use orion_v.Prelude.{
  ℕ, zero, suc, ◌+◌, ◌≤◌, ◌≡◌, refl, ap, subst, ◌∙◌, inl, inr, List, [], ◌∷◌, Bool, true, false,
  Option, none, some, arith, length, ltb, get_elem?, All, Bool-cases, if◌then◌else◌,
}
use orion_v.Prelude.Fail.{ok, Result-cases}
use orion_v.Types.{SliceRequest}
use orion_v.Substrate.{reset}
use orion_v.Substrate.Balance.{IsBalanced, reset-IsBalanced}
use orion_v.Sim.Arrivals.{
  ArrivalProcess, SimEvent, EventType, arrival, departure, has_next, next_event, num_remaining,
  restart,
}
use orion_v.Episode.Runner.{
  Episode, Setup, handle_event, event_loop, begin, run_episode, reset_runner,
}
use orion_v.Coordinator.Contract.{NoRepeat, AllContained}
use orion_v.Coordinator.Placed.{AllPlace}
use orion_v.Episode.Coordinated.{Coordination, coordinated, coordinated-IsCareful}
use orion_v.Episode.Books.{IsSound, IsCareful, handle_departure-IsSound, handle_arrival-IsSound}

abbrev pub is_arrival : EventType → Bool
is_arrival arrival = true
is_arrival departure = false

-- The arrivals among the first events of a list, that many.
abbrev pub count_arrivals : ℕ → List SimEvent → ℕ
count_arrivals zero events = 0
count_arrivals (suc k) [] = 0
count_arrivals (suc k) (x ∷ xs) = (if is_arrival x.event_type then 1 else 0) + count_arrivals k xs

count_arrivals-suc :
    (k : ℕ) (xs : List SimEvent) {x : SimEvent}
    → get_elem? xs k ≡ some x
    → count_arrivals (suc k) xs ≡ count_arrivals k xs + (if is_arrival x.event_type then 1 else 0)
count_arrivals-suc k [] h = cc
count_arrivals-suc zero (y ∷ ys) {x} h = let e : y ≡ x = cc in rw e (omega arith)
count_arrivals-suc (suc k) (y ∷ ys) {x} h = omega (arith, count_arrivals-suc k ys {x = x} h)

get_of_lt {ℓ} :
    {A : Type ℓ} (xs : List A) (i : ℕ)
    → ltb i (length xs) ≡ true
    → (x : A) × (get_elem? xs i ≡ some x)
get_of_lt [] i h = absurd (ground arith)
get_of_lt (x ∷ xs) zero h = (x, refl)
get_of_lt (x ∷ xs) (suc i) h = get_of_lt xs i (ground arith)

abbrev pub at : List SimEvent → ℕ → ArrivalProcess
at xs i = record { events = xs; event_idx = i }

-- No two flows of the event's request join the same two VNFs in the same direction.
abbrev pub IsClean : SimEvent → Type 0
IsClean event = elim event.slice_request [ none ↦ Unit {0} | some req ↦ NoRepeat req.flow_edges ]

All-get {ℓ κ} :
    {A : Type ℓ} (P : A → Type κ) (xs : List A) (i : ℕ) {x : A}
    → All P xs
    → get_elem? xs i ≡ some x
    → P x
All-get P [] i h e = cc
All-get P (y ∷ ys) zero {x} h e = let same : y ≡ x = ground (arith, e) in subst P same h.0
All-get P (y ∷ ys) (suc i) {x} h e = All-get P ys i {x = x} h.1 e

module _ (c : Setup) (careful : IsCareful c) where
  handle_event-IsSound :
      (a : ArrivalProcess) (n : ℕ) (event : SimEvent) (e e' : Episode)
      → IsClean event
      → IsSound a n 0 0 e
      → handle_event c event e ≡ (ok tt, e')
      → IsSound a (n + (if is_arrival event.event_type then 1 else 0)) 0 0 e'
  unfolding handle_event
  handle_event-IsSound a n event e e' clean s h =
      kinds event.event_type event.slice_request refl refl
    where
      kinds :
          (t : EventType) (r : Option SliceRequest)
          → event.event_type ≡ t
          → event.slice_request ≡ r
          → IsSound a (n + (if is_arrival t then 1 else 0)) 0 0 e'
      kinds departure r et er =
          let same : n + 0 ≡ n = omega arith in
          rw same (handle_departure-IsSound a n event.request_id e e' s (ground arith))
      kinds arrival none et er = absurd (ground arith)
      kinds arrival (some req) et er =
          handle_arrival-IsSound c careful a n req e e' (rw er at clean) s (ground arith)

  event_loop-IsSound :
      (fuel : ℕ) (xs : List SimEvent) (i n before : ℕ) (e e' : Episode)
      → All IsClean xs
      → IsSound (at xs i) n 0 0 e
      → n + before ≡ count_arrivals i xs
      → i ≤ length xs
      → length xs ≤ fuel + i
      → event_loop c fuel e ≡ (ok tt, e')
      → (n' : ℕ) × IsSound (at xs (length xs)) n' 0 0 e'
        × (n' + before ≡ count_arrivals (length xs) xs)
  unfolding event_loop has_next next_event
  event_loop-IsSound zero xs i n before e e' clean s count inside enough h =
      let here : e ≡ e' = cc in
      let end : i ≡ length xs = omega arith in
      (
        n,
        subst (λ k. IsSound (at xs k) n 0 0 e') end (subst (IsSound (at xs i) n 0 0) here s),
        count ∙ ap (λ k. count_arrivals k xs) end,
      )
  event_loop-IsSound (suc fuel) xs i n before e e' clean s count inside enough h =
      elim (Bool-cases (ltb i (length xs))) [
        | inr over ↦
            let here : e ≡ e' = ground (arith, s.still) in
            let end : i ≡ length xs = ground arith in
            (
              n,
              subst (λ k. IsSound (at xs k) n 0 0 e') end (subst (IsSound (at xs i) n 0 0) here s),
              count ∙ ap (λ k. count_arrivals k xs) end,
            )
        | inl more ↦
            let (x, found) = get_of_lt xs i more in
            let next : i + 1 ≡ suc i = omega arith in
            let e1 = record e { arrivals = at xs (i + 1) } in
            let popped : IsSound (at xs (i + 1)) n 0 0 e1 = record {
              still = refl;
              total = s.total;
              mirrored = s.mirrored;
              conserved = s.conserved;
              judged = s.judged;
              admissions = s.admissions;
              active = s.active;
            } in
            elim (Result-cases (handle_event c x e1).0) [
              | inr (y, r) ↦ absurd (ground (arith, s.still))
              | inl (u, r) ↦
                  let e2 = (handle_event c x e1).1 in
                  let handled : handle_event c x e1 ≡ (ok tt, e2) = ap (λ t. (t, e2)) r in
                  event_loop-IsSound fuel xs (i + 1)
                    (n + (if is_arrival x.event_type then 1 else 0)) before e2 e' clean
                    (handle_event-IsSound (at xs (i + 1)) n x e1 e2
                      (All-get IsClean xs i {x = x} clean found) popped handled)
                    (omega (
                      arith,
                      count,
                      count_arrivals-suc i xs {x = x} found,
                      ap (λ k. count_arrivals k xs) next,
                    ))
                    (ground arith) (omega arith) (ground (arith, s.still))
            ]
      ]

  run_episode-books :
      (e e' : Episode)
      → All IsClean e.arrivals.events
      → IsBalanced e.substrate
      → e.substrate.active_slices ≡ []
      → e.active_plans ≡ []
      → e.active_requests ≡ []
      → e.arrivals.event_idx ≡ 0
      → run_episode c e ≡ (ok tt, e')
      → IsSound
          (at e.arrivals.events (length e.arrivals.events))
          (count_arrivals (length e.arrivals.events) e.arrivals.events)
          0
          0
          e'
  unfolding run_episode num_remaining
  run_episode-books e e' clean balanced no_slices no_plans no_requests at_start h =
      let xs = e.arrivals.events in
      let begun : IsSound (at xs 0) 0 0 0 (begin e) = record {
        still = ap (at xs) at_start;
        total = refl;
        mirrored = record {
          same_plans = rw (no_plans, no_slices) refl;
          same_requests = rw (no_requests, no_slices) refl;
          own = rw no_slices tt;
          balanced = balanced;
        };
        conserved = omega arith;
        judged = omega arith;
        admissions = refl;
        active = rw no_slices (omega arith);
      } in
      let (n', sound, count) =
        event_loop-IsSound (num_remaining e.arrivals) xs 0 0 0 (begin e) e' clean begun
          (omega arith) (omega arith) (omega (arith, at_start)) h in
      subst (λ k. IsSound (at xs (length xs)) k 0 0 e') (omega (arith, count)) sound

module _ (c : Setup) (k : Coordination) (laws : AllContained k.coordinator.domain_actors)
    (places : AllPlace k.coordinator.domain_actors) where
  -- An episode keeps its books. When `run_episode` returns, with the coordinator as its code is, all
  -- events have been handled; every arrival is counted once, as admitted, rejected by the coordinator
  -- or rejected structurally, and there are as many as the event stream had; the results kept are those
  -- of the arrivals that reached the coordinator, and as many of them are admissions as are counted;
  -- the slices admitted are those that have departed and those still active; both registers list the
  -- network's active slices; and every residual is the capacity less what the active slices use. The
  -- network was balanced and without slices at the start, and so were the registers; no request has two
  -- flows that join the same two VNFs in the same direction; and the domain actors charge only nodes of
  -- their domain and the bandwidth that their answers list, and place all of a fragment if they accept.
  pub run_episode-IsSound :
      (e e' : Episode)
      → All IsClean e.arrivals.events
      → IsBalanced e.substrate
      → e.substrate.active_slices ≡ []
      → e.active_plans ≡ []
      → e.active_requests ≡ []
      → e.arrivals.event_idx ≡ 0
      → run_episode (coordinated c k) e ≡ (ok tt, e')
      → IsSound
          (at e.arrivals.events (length e.arrivals.events))
          (count_arrivals (length e.arrivals.events) e.arrivals.events)
          0
          0
          e'
  run_episode-IsSound e e' clean balanced no_slices no_plans no_requests at_start h =
      run_episode-books (coordinated c k) (coordinated-IsCareful c k laws places) e e' clean
        balanced no_slices no_plans no_requests at_start h

  -- A runner can be used again. Whatever state it is in, an episode that is run after `reset` keeps
  -- its books from the first event of the stream to the last, if it returns; the requests and the domain
  -- actors are as above.
  pub run_episode-reset_runner :
      (e e' : Episode)
      → All IsClean e.arrivals.events
      → run_episode (coordinated c k) (reset_runner e) ≡ (ok tt, e')
      → IsSound
          (at e.arrivals.events (length e.arrivals.events))
          (count_arrivals (length e.arrivals.events) e.arrivals.events)
          0
          0
          e'
  unfolding reset_runner restart reset
  run_episode-reset_runner e e' clean h =
      run_episode-IsSound (reset_runner e) e' clean (reset-IsBalanced e.substrate) refl refl refl
        refl h
