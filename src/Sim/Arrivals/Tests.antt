-- ===== src/Sim/Arrivals/Tests.antt =====
-- arrival_process.py: two slices, the second arriving when the first departs.
use orion_v.Prelude.{ℕ, ℤ, pos, ◌+ℤ◌, ◌*◌, ◌≡◌, refl, [], ◌∷◌, length, List, map}
use orion_v.Prelude.Order.{InOrder}
use orion_v.Types.{Ident, SliceRequest}
use orion_v.Samples.{request}
use orion_v.Sim.Arrivals.{ArrivalProcess, Draw, generate, events_from}
use orion_v.Sim.Arrivals.Order.{MayFollow, generate-InOrder}

abbrev slice : Ident → ℤ → ℤ → SliceRequest
slice i t lifetime = record request { request_id = i; arrival_time = t; lifetime = lifetime }

abbrev draws : List Draw
draws = (pos 1, pos 2) ∷ (pos 2, pos 4) ∷ []

abbrev stream : ArrivalProcess
stream = generate slice (pos 0) draws

ids :
    map {B = ℤ × ℕ} (λ e. (e.time, e.request_id)) stream.events
    ≡ (pos 1, 0) ∷ (pos 3, 0) ∷ (pos 3, 1) ∷ (pos 7, 1) ∷ []
unfolding generate events_from ◌+ℤ◌
ids = refl

generate-InOrder_example :
    InOrder MayFollow stream.events × (length stream.events ≡ 2 * length draws)
generate-InOrder_example = generate-InOrder slice (pos 0) draws (refl, (refl, tt))
