-- ===== src/Delay.antt =====
-- sim/delay_model.py: the M/M/1 sojourn times. Amounts are integers of a unit that is no finer than the
-- code's _EPS = 1e-9, so `headroom <= _EPS` is `headroom <= 0`. A product of a delay and an intensity
-- is in the product of their units; `Scale` says what the constants 1.0 are in these units.
use orion_v.Prelude.{zero, suc, ℤ, pos, negsuc, ◌+ℤ◌, ◌-ℤ◌, ◌*ℤ◌, Bool, true, false}
use orion_v.Prelude.Fraction.{Fraction, whole, lt_fraction}

pub record Scale : Type 0 where
  -- the intensity 1.0
  pub one_intensity : ℤ
  -- a delay of 1.0 over a headroom of 1.0
  pub one_over : ℤ

-- A float that may be `math.inf`.
pub data Delay : Type 0 where
  infinite : Delay
  finite : Fraction → Delay

abbrev pub is_inf : Delay → Bool
is_inf infinite = true
is_inf (finite _) = false

-- `a > b` for a finite bound
unfoldable pub exceeds : Delay → ℤ → Bool
unfolding lt_fraction
exceeds infinite b = true
exceeds (finite a) b = lt_fraction (whole b) a

-- `1.0 / headroom` and the static part; a headroom of 0 or less is a saturated queue
abbrev pub queued : ℤ → ℤ → ℤ → Delay
queued base one (pos zero) = infinite
queued base one (pos (suc h)) = finite (record { num = (base *ℤ pos (suc h)) +ℤ one; den = suc h })
queued base one (negsuc h) = infinite

module _ (scale : Scale) where
  unfoldable pub mm1_sojourn : ℤ → ℤ → ℤ → ℤ → Delay
  mm1_sojourn base_delay intensity service_rate load =
      queued (base_delay *ℤ intensity) scale.one_over (service_rate -ℤ load)

  unfoldable pub node_sojourn : ℤ → ℤ → ℤ → ℤ → Delay
  unfolding mm1_sojourn
  node_sojourn base_processing_delay intensity cpu_capacity cpu_used =
      mm1_sojourn base_processing_delay intensity cpu_capacity cpu_used

  unfoldable pub link_sojourn : ℤ → ℤ → ℤ → Delay
  unfolding mm1_sojourn
  link_sojourn propagation_delay bandwidth_capacity bandwidth_used =
      mm1_sojourn propagation_delay scale.one_intensity bandwidth_capacity bandwidth_used
