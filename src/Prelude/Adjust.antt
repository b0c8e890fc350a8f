-- ===== src/Prelude/Adjust.antt =====
-- Records in a list, found and changed in place by an identifier.
use orion_v.Prelude.Tests.{◌==◌, if◌then◌else◌, Bool-cases}
use Prim.Native.Nat.{ℕ}
use mathlib.Core.Path.{◌≡◌, refl}
use mathlib.Core.Logic.{inl, inr}
use mathlib.Core.Bool.{false}
use mathlib.Core.List.{List, [], ◌∷◌, map}
use mathlib.Core.Option.{Option, none, some}
use native.Mathlib.Omega.{arith}

module _ {A : Type 0} (key : A → ℕ) where
  -- The first item whose key is `k`.
  abbrev pub find : ℕ → List A → Option A
  find k [] = none
  find k (x ∷ xs) = if key x == k then some x else find k xs

  -- A change of the first item whose key is `k`; of nothing if there is none.
  unfoldable pub adjust : ℕ → (A → A) → List A → List A
  adjust k f [] = []
  adjust k f (x ∷ xs) = if key x == k then f x ∷ xs else x ∷ adjust k f xs

  pub key_of_find : (k : ℕ) (xs : List A) {x : A} → find k xs ≡ some x → key x ≡ k
  key_of_find k [] h = cc
  key_of_find k (y ∷ ys) {x} h = ground (arith, key_of_find k ys {x = x})

  module _ (f : A → A) (kept : (x : A) → key (f x) ≡ key x) where
    pub find-adjust :
        (j k : ℕ) (xs : List A)
        → find j (adjust k f xs)
          ≡ (if j == k then elim (find j xs) [ none ↦ none | some x ↦ some (f x) ] else find j xs)
    unfolding adjust
    find-adjust j k [] = ground arith
    find-adjust j k (x ∷ xs) = ground (arith, kept x, find-adjust j k xs)

    pub keys-adjust : (k : ℕ) (xs : List A) → map key (adjust k f xs) ≡ map key xs
    unfolding adjust
    keys-adjust k [] = refl
    keys-adjust k (x ∷ xs) = ground (arith, kept x, keys-adjust k xs)

    pub adjust_undo :
        (g : A → A) (k : ℕ) (xs : List A)
        → ((x : A) → g (f x) ≡ x)
        → adjust k g (adjust k f xs) ≡ xs
    unfolding adjust
    adjust_undo g k [] back = refl
    adjust_undo g k (x ∷ xs) back = ground (arith, kept x, back x, adjust_undo g k xs back)

    pub adjust_comm :
        (g : A → A) (j k : ℕ) (xs : List A)
        → ((x : A) → key (g x) ≡ key x)
        → ((x : A) → f (g x) ≡ g (f x))
        → adjust j f (adjust k g xs) ≡ adjust k g (adjust j f xs)
    unfolding adjust
    adjust_comm g j k [] kept' swap = refl
    adjust_comm g j k (x ∷ xs) kept' swap =
        ground (arith, kept x, kept' x, swap x, adjust_comm g j k xs kept' swap)

    -- A change that forgets what an earlier change at its place has done.
    pub adjust_absorb :
        (g : A → A) (k : ℕ) (xs : List A)
        → ((x : A) → g (f x) ≡ g x)
        → adjust k g (adjust k f xs) ≡ adjust k g xs
    unfolding adjust
    adjust_absorb g k [] same = refl
    adjust_absorb g k (x ∷ xs) same = ground (arith, kept x, same x, adjust_absorb g k xs same)

    -- Changes at different places commute.
    pub adjust_apart :
        (g : A → A) (j k : ℕ) (xs : List A)
        → ((x : A) → key (g x) ≡ key x)
        → j == k ≡ false
        → adjust j f (adjust k g xs) ≡ adjust k g (adjust j f xs)
    unfolding adjust
    adjust_apart g j k [] kept' ne = refl
    adjust_apart g j k (x ∷ xs) kept' ne =
        ground (arith, kept x, kept' x, adjust_apart g j k xs kept' ne)

  -- A change that leaves the item it finds as it is.
  pub adjust_fixed :
      (f : A → A) (k : ℕ) (xs : List A) {x : A} → find k xs ≡ some x → f x ≡ x → adjust k f xs ≡ xs
  unfolding adjust
  adjust_fixed f k [] h e = refl
  adjust_fixed f k (y ∷ ys) {x} h e = elim (Bool-cases (key y == k)) [
    | inl same ↦ let here : y ≡ x = ground arith in rw same (cc (here, e))
    | inr other ↦ rw other (cc (adjust_fixed f k ys (ground arith) e))
  ]
