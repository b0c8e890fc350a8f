-- ===== src/Prelude/Order.antt =====
-- A list in which every item stands in a relation to all the later ones.
use Prim.Native.Nat.{suc}
use mathlib.Core.Path.{◌≡◌, refl, sym, subst}
use mathlib.Core.Logic.{inl, inr}
use mathlib.Core.Bool.{Bool, true, false}
use mathlib.Core.List.{List, [], ◌∷◌, Memᴰ}
use native.Mathlib.Omega.{arith}
use orion_v.Prelude.Tests.{Bool-cases}
use orion_v.Prelude.Lists.{All, length}
use orion_v.Prelude.Sort.{insert, sort, insert-All, All-sort}

module _ {ℓ κ} {A : Type ℓ} (R : A → A → Type κ) where
  abbrev pub InOrder : List A → Type κ
  InOrder [] = Unit
  InOrder (x ∷ xs) = All (R x) xs × InOrder xs

module _ {ℓ κ} {A : Type ℓ} (lt : A → A → Bool) (R : A → A → Type κ)
    (below : (a b : A) → lt a b ≡ true → R a b) (above : (a b : A) → lt b a ≡ false → R a b)
    (trans : (a b c : A) → R a b → R b c → R a c) where
  All-trans : (x y : A) (ys : List A) → R x y → All (R y) ys → All (R x) ys
  All-trans x y [] h k = tt
  All-trans x y (z ∷ zs) h k = (trans x y z h k.0, All-trans x y zs h k.1)

  insert-InOrder : (x : A) (ys : List A) → InOrder R ys → InOrder R (insert lt x ys)
  insert-InOrder x [] p = (tt, tt)
  insert-InOrder x (y ∷ ys) p = elim (Bool-cases (lt y x)) [
    | inl e ↦ rw e (insert-All lt (R y) x ys (below y x e) p.0, insert-InOrder x ys p.1)
    | inr e ↦ rw e ((above x y e, All-trans x y ys (above x y e) p.0), p)
  ]

  -- A sorted list is in order.
  pub sort-InOrder : (xs : List A) → InOrder R (sort lt xs)
  sort-InOrder [] = tt
  sort-InOrder (x ∷ xs) = insert-InOrder x (sort lt xs) (sort-InOrder xs)

module _ {ℓ κ μ ν} {A : Type ℓ} (R : A → A → Type κ) (S : A → A → Type μ) (P : A → Type ν)
    (both : (a b : A) → R a b → P a → P b → S a b) where
  All-map : (x : A) (xs : List A) → P x → All (R x) xs → All P xs → All (S x) xs
  All-map x [] p h k = tt
  All-map x (y ∷ ys) p h k = (both x y h.0 p k.0, All-map x ys p h.1 k.1)

  -- The relation follows from another and a property of every item.
  pub InOrder-map : (xs : List A) → InOrder R xs → All P xs → InOrder S xs
  InOrder-map [] h k = tt
  InOrder-map (x ∷ xs) h k = (All-map x xs k.0 h.0 k.1, InOrder-map xs h.1 k.1)

module _ {ℓ} {A : Type ℓ} (lt : A → A → Bool) where
  length-insert : (x : A) (ys : List A) → length (insert lt x ys) ≡ suc (length ys)
  length-insert x [] = omega arith
  length-insert x (y ∷ ys) = ground (arith, length-insert x ys)

  pub length-sort : (xs : List A) → length (sort lt xs) ≡ length xs
  length-sort [] = omega arith
  length-sort (x ∷ xs) = omega (arith, length-sort xs, length-insert x (sort lt xs))

pub all_of_mem {ℓ κ} :
    {A : Type ℓ} (P : A → Type κ) (xs : List A) → ((a : A) → Memᴰ a xs → P a) → All P xs
all_of_mem P [] f = tt
all_of_mem P (x ∷ xs) f = (f x (Memᴰ.head refl), all_of_mem P xs (λ a m. f a (Memᴰ.tail m)))

pub mem_of_all {ℓ κ} :
    {A : Type ℓ} (P : A → Type κ) (a : A) (xs : List A) → Memᴰ a xs → All P xs → P a
mem_of_all P a [] m h = elim m [ ]
mem_of_all P a (x ∷ xs) (Memᴰ.head e) h = subst P (sym e) h.0
mem_of_all P a (x ∷ xs) (Memᴰ.tail m) h = mem_of_all P a xs m h.1

-- Sorting loses no item.
pub sort-mem {ℓ} :
    {A : Type ℓ} (lt : A → A → Bool) (a : A) (xs : List A) → Memᴰ a xs → Memᴰ a (sort lt xs)
sort-mem lt a xs m =
    mem_of_all (λ y. Memᴰ y (sort lt xs)) a xs m
      (All-sort lt (λ y. Memᴰ y (sort lt xs)) xs
        (all_of_mem (λ y. Memᴰ y (sort lt xs)) (sort lt xs) (λ y k. k)))
