-- ===== src/Prelude/Values.antt =====
-- A dict whose values are made of those of another one.
use mathlib.Core.Path.{◌≡◌, refl}
use mathlib.Core.List.{[], ◌∷◌, map}
use mathlib.Core.Option.{none, some}
use native.Mathlib.Omega.{arith}
use orion_v.Prelude.Dict.{Dict, Eq, get, put, del}

abbrev pub map_values {ℓ κ μ} :
    {K : Type ℓ} {V : Type κ} {W : Type μ} → (V → W) → Dict K V → Dict K W
map_values f d = map (λ e. (e.0, f e.1)) d

module _ {ℓ κ μ} {K : Type ℓ} {V : Type κ} {W : Type μ} ⦃e : Eq K⦄ (f : V → W) where
  pub get-map_values :
      (k : K) (d : Dict K V)
      → get k (map_values f d) ≡ elim (get k d) [ none ↦ none | some v ↦ some (f v) ]
  get-map_values k [] = refl
  get-map_values k ((j, v) ∷ d) = ground (arith, get-map_values k d)

  pub put-map_values :
      (k : K) (v : V) (d : Dict K V) → put k (f v) (map_values f d) ≡ map_values f (put k v d)
  put-map_values k v [] = refl
  put-map_values k v ((j, w) ∷ d) = ground (arith, put-map_values k v d)

  pub del-map_values : (k : K) (d : Dict K V) → del k (map_values f d) ≡ map_values f (del k d)
  del-map_values k [] = refl
  del-map_values k ((j, w) ∷ d) = ground (arith, del-map_values k d)

pub del_absent {ℓ κ} :
    {K : Type ℓ} {V : Type κ} ⦃e : Eq K⦄ (k : K) (d : Dict K V) → get k d ≡ none → del k d ≡ d
del_absent k [] h = refl
del_absent k ((j, w) ∷ d) h = ground (arith, del_absent k d)
