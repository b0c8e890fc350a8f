-- ===== src/ChainOrder.antt =====
-- mdo/chain_order.py: the chain may not re-enter a domain that it has left. A partition is the
-- list of the domains along the chain.
pub mod Member
pub mod Runs
mod Tests
use Prim.Native.String.{String}
use text.Mathlib.Text.{◌==◌ as str_eq}
use orion_v.Prelude.{
  ℕ, ◌+◌, List, [], ◌∷◌, Bool, true, false, not, Option, none, some, ◌&&◌, ◌==◌, if◌then◌else◌,
}
use orion_v.Prelude.Fail.{Result, ok, err, value_error}

pub data Mode : Type 0 where
  reject off : Mode

-- `_mode`, of the variable ORION_CHAIN_ORDER of the environment.
unfoldable pub mode : Option String → Result Mode
mode none = ok reject
mode (some m) =
    if str_eq m "reject" then ok reject else if str_eq m "off" then ok off else err value_error

abbrev pub is_on : Mode → Bool
is_on reject = true
is_on off = false

-- `enabled`
unfoldable pub enabled : Option String → Result Bool
unfolding mode
enabled env = elim (mode env) [ ok m ↦ ok (is_on m) | err x ↦ err x ]

-- The positions of the rest that start a run, when the item before it is `prev`.
abbrev pub runs_after : ℕ → List ℕ → ℕ
runs_after prev [] = 0
runs_after prev (d ∷ ds) = (if prev == d then 0 else 1) + runs_after d ds

unfoldable pub run_count : List ℕ → ℕ
run_count [] = 0
run_count (d ∷ ds) = 1 + runs_after d ds

-- `x in ds`
abbrev pub mem : ℕ → List ℕ → Bool
mem x [] = false
mem x (d ∷ ds) = if x == d then true else mem x ds

-- `len(set(ds))`
abbrev pub set_size : List ℕ → ℕ
set_size [] = 0
set_size (d ∷ ds) = (if mem d ds then 0 else 1) + set_size ds

unfoldable pub is_contiguous : List ℕ → Bool
unfolding run_count
is_contiguous domains = run_count domains == set_size domains

-- `enabled() and not is_contiguous(domains)`
unfoldable pub violates : Option String → List ℕ → Result Bool
unfolding enabled
violates env domains = elim (enabled env) [
  | err x ↦ err x
  | ok false ↦ ok false
  | ok true ↦ ok (not (is_contiguous domains))
]
