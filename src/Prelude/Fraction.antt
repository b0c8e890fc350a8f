-- ===== src/Prelude/Fraction.antt =====
-- Exact quotients of integers by positive numbers, for the code's divisions. They are not reduced.
use Prim.Native.Nat.{ℕ, ◌*◌}
use mathlib.Core.Bool.{Bool}
use orion_v.Prelude.Int.{ℤ, pos, ◌+ℤ◌, ◌-ℤ◌, ◌*ℤ◌, ltb_ℤ}

pub record Fraction : Type 0 where
  pub num : ℤ
  pub den : ℕ

abbrev pub whole : ℤ → Fraction
whole a = record { num = a; den = 1 }

infixl 65 ◌+ᶠ◌
unfoldable pub ◌+ᶠ◌ : Fraction → Fraction → Fraction
a +ᶠ b = record { num = (a.num *ℤ pos b.den) +ℤ (b.num *ℤ pos a.den); den = a.den * b.den }

-- `a < b`
unfoldable pub lt_fraction : Fraction → Fraction → Bool
lt_fraction a b = ltb_ℤ (a.num *ℤ pos b.den) (b.num *ℤ pos a.den)

infixl 65 ◌-ᶠ◌
unfoldable pub ◌-ᶠ◌ : Fraction → Fraction → Fraction
a -ᶠ b = record { num = (a.num *ℤ pos b.den) -ℤ (b.num *ℤ pos a.den); den = a.den * b.den }

-- `a / n`, for a positive number
abbrev pub div_by : Fraction → ℕ → Fraction
div_by a n = record { num = a.num; den = a.den * n }
