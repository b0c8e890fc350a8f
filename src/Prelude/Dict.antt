-- ===== src/Prelude/Dict.antt =====
-- A Python dict: an association list in insertion order, over keys with a Boolean equality.
use Prim.Native.Nat.{ℕ}
use mathlib.Core.Path.{◌≡◌, refl}
use mathlib.Core.Logic.{◌↔◌, inl, inr}
use mathlib.Core.Bool.{Bool, true, false, ◌&&◌}
use mathlib.Core.List.{List, [], ◌∷◌, map}
use mathlib.Core.Option.{Option, none, some}
use native.Mathlib.Omega.{arith}
use orion_v.Prelude.Tests.{if◌then◌else◌, Bool-cases, ==_iff, ◌==◌ as nat_beq}

pub record Eq {ℓ} (A : Type ℓ) : Type ℓ where
  pub beq : A → A → Bool
  pub beq_iff : (a b : A) → (beq a b ≡ true) ↔ (a ≡ b)

instance abbrev pub nat_eq : Eq ℕ
nat_eq = record { beq = nat_beq; beq_iff = ==_iff }

abbrev pub pair_beq : ℕ × ℕ → ℕ × ℕ → Bool
pair_beq (a, b) (c, d) = nat_beq a c && nat_beq b d

pub pair_beq_iff : (a b : ℕ × ℕ) → (pair_beq a b ≡ true) ↔ (a ≡ b)
pair_beq_iff (a, b) (c, d) = (λ h. ground arith, λ h. ground arith)

-- The key of a flow: its source and its target.
instance abbrev pub pair_eq : Eq (ℕ × ℕ)
pair_eq = record { beq = pair_beq; beq_iff = pair_beq_iff }

abbrev pub Dict {ℓ κ} : Type ℓ → Type κ → Type (ℓ ⊔ κ)
Dict K V = List (K × V)

abbrev pub values {ℓ κ} : {K : Type ℓ} {V : Type κ} → Dict K V → List V
values d = map (λ e. e.1) d

abbrev pub keys {ℓ κ} : {K : Type ℓ} {V : Type κ} → Dict K V → List K
keys d = map (λ e. e.0) d

pub beq_refl {ℓ} : {K : Type ℓ} ⦃e : Eq K⦄ (k : K) → e.beq k k ≡ true
beq_refl ⦃e⦄ k = (e.beq_iff k k).1 refl

-- Every declaration of the section takes its parameters.
module _ {ℓ κ} {K : Type ℓ} {V : Type κ} ⦃e : Eq K⦄ where
  -- `d.get(k)`
  abbrev pub get : K → Dict K V → Option V
  get k [] = none
  get k ((j, v) ∷ d) = if e.beq k j then some v else get k d

  -- `k in d`
  abbrev pub contains : K → Dict K V → Bool
  contains k [] = false
  contains k ((j, v) ∷ d) = if e.beq k j then true else contains k d

  -- `d[k] = v`: a key that is there keeps its place, a new one goes to the end
  abbrev pub put : K → V → Dict K V → Dict K V
  put k v [] = (k, v) ∷ []
  put k v ((j, w) ∷ d) = if e.beq k j then (j, v) ∷ d else (j, w) ∷ put k v d

  -- `del d[k]`
  abbrev pub del : K → Dict K V → Dict K V
  del k [] = []
  del k ((j, w) ∷ d) = if e.beq k j then d else (j, w) ∷ del k d

  -- `d.get(k, v)`
  abbrev pub get_or : K → V → Dict K V → V
  get_or k v d = elim (get k d) [ none ↦ v | some w ↦ w ]

  pub get-put_self : (k : K) (v : V) (d : Dict K V) → get k (put k v d) ≡ some v
  get-put_self k v [] = ground (arith, beq_refl k)
  get-put_self k v ((j, w) ∷ d) = ground (arith, beq_refl k, get-put_self k v d)

  pub del-put_new : (k : K) (v : V) (d : Dict K V) → contains k d ≡ false → del k (put k v d) ≡ d
  del-put_new k v [] h = ground (arith, beq_refl k)
  del-put_new k v ((j, w) ∷ d) h = ground (arith, del-put_new k v d)

  pub contains-put_self : (k : K) (v : V) (d : Dict K V) → contains k (put k v d) ≡ true
  contains-put_self k v [] = ground (arith, beq_refl k)
  contains-put_self k v ((j, w) ∷ d) = ground (arith, beq_refl k, contains-put_self k v d)

  pub get-put :
      (k j : K) (v : V) (d : Dict K V) → get j (put k v d) ≡ (if e.beq j k then some v else get j d)
  get-put k j v [] = refl
  get-put k j v ((i, w) ∷ d) =
      ground (arith, e.beq_iff j k, e.beq_iff k i, e.beq_iff j i, get-put k j v d)

  pub get_or-put :
      (k j : K) (v x : V) (d : Dict K V)
      → get_or j x (put k v d) ≡ (if e.beq j k then v else get_or j x d)
  get_or-put k j v x d = ground (arith, get-put k j v d)

  pub get_of_contains : (k : K) (d : Dict K V) → contains k d ≡ true → (v : V) × (get k d ≡ some v)
  get_of_contains k [] h = cc
  get_of_contains k ((j, w) ∷ d) h = elim (Bool-cases (e.beq k j)) [
    | inl same ↦ (w, ground arith)
    | inr other ↦ let (v, f) = get_of_contains k d (ground arith) in (v, ground arith)
  ]
