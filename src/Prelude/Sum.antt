-- ===== src/Prelude/Sum.antt =====
-- Sums of integers over lists and over the values of dictionaries.

use orion_v.Prelude.Int.{ℤ, pos, ◌+ℤ◌, int_laws}
use orion_v.Prelude.Dict.{Dict, get, contains, put, del, nat_eq}
use Prim.Native.Nat.{ℕ}
use mathlib.Core.Path.{◌≡◌}
use mathlib.Core.Bool.{false}
use mathlib.Core.List.{List, [], ◌∷◌}
use mathlib.Core.Option.{some}

-- `sum(f(x) for x in xs)`
abbrev pub sum_by {ℓ} : {A : Type ℓ} → (A → ℤ) → List A → ℤ
sum_by f [] = pos 0
sum_by f (x ∷ xs) = f x +ℤ sum_by f xs

module _ {V : Type 0} (f : V → ℤ) where
  abbrev pub sum_values : Dict ℕ V → ℤ
  sum_values d = sum_by (λ e. f e.1) d

  pub sum_values-put :
      (k : ℕ) (v : V) (d : Dict ℕ V)
      → contains k d ≡ false
      → sum_values (put k v d) ≡ sum_values d +ℤ f v
  sum_values-put k v [] h = omega int_laws
  sum_values-put k v ((j, w) ∷ d) h = grind (int_laws, sum_values-put k v d)

  pub sum_values-del :
      (k : ℕ) {v : V} (d : Dict ℕ V) → get k d ≡ some v → sum_values (del k d) +ℤ f v ≡ sum_values d
  sum_values-del k [] h = cc
  sum_values-del k {v} ((j, w) ∷ d) h = grind (int_laws, sum_values-del k {v = v} d)
