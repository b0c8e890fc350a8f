-- ===== src/Prelude/Sort.antt =====
-- `sorted` and `list.sort`: a stable sort by a strict order.
use mathlib.Core.Path.{◌≡◌, refl, subst}
use mathlib.Core.Logic.{inl, inr}
use mathlib.Core.Bool.{Bool, true, false}
use mathlib.Core.List.{List, [], ◌∷◌, Memᴰ}
use orion_v.Prelude.Tests.{if◌then◌else◌, Bool-cases}
use orion_v.Prelude.Lists.{All}

module _ {ℓ} {A : Type ℓ} (lt : A → A → Bool) where
  abbrev pub insert : A → List A → List A
  insert x [] = x ∷ []
  insert x (y ∷ ys) = if lt y x then y ∷ insert x ys else x ∷ y ∷ ys

  abbrev pub sort : List A → List A
  sort [] = []
  sort (x ∷ xs) = insert x (sort xs)

  mem-insert : (a x : A) (ys : List A) → Memᴰ a (insert x ys) → Memᴰ a (x ∷ ys)
  mem-insert a x [] m = m
  mem-insert a x (y ∷ ys) m = elim (Bool-cases (lt y x)) [
    | inr e ↦ rw e at m
    | inl e ↦
        let m' : Memᴰ a (y ∷ insert x ys) = rw e at m in
        elim m' [
          | Memᴰ.head h ↦ Memᴰ.tail (Memᴰ.head h)
          | Memᴰ.tail t ↦ elim (mem-insert a x ys t) [
            | Memᴰ.head h ↦ Memᴰ.head h
            | Memᴰ.tail k ↦ Memᴰ.tail (Memᴰ.tail k)
          ]
        ]
  ]

  -- Sorting adds no item.
  pub mem-sort : (a : A) (xs : List A) → Memᴰ a (sort xs) → Memᴰ a xs
  mem-sort a [] m = m
  mem-sort a (x ∷ xs) m = elim (mem-insert a x (sort xs) m) [
    | Memᴰ.head h ↦ Memᴰ.head h
    | Memᴰ.tail t ↦ Memᴰ.tail (mem-sort a xs t)
  ]

  module _ {κ} (P : A → Type κ) where
    All-insert : (x : A) (ys : List A) → All P (insert x ys) → P x × All P ys
    All-insert x [] h = h
    All-insert x (y ∷ ys) h = elim (Bool-cases (lt y x)) [
      | inl e ↦
          let h' : P y × All P (insert x ys) = rw e at h in
          let (px, rest) = All-insert x ys h'.1 in (px, (h'.0, rest))
      | inr e ↦ rw e at h
    ]

    pub insert-All : (x : A) (ys : List A) → P x → All P ys → All P (insert x ys)
    insert-All x [] p h = (p, tt)
    insert-All x (y ∷ ys) p h = elim (Bool-cases (lt y x)) [
      | inl e ↦ rw e (h.0, insert-All x ys p h.1)
      | inr e ↦ rw e (p, h)
    ]

    -- What holds of the items holds of the sorted ones, and back.
    pub All-sort : (xs : List A) → All P (sort xs) → All P xs
    All-sort [] h = tt
    All-sort (x ∷ xs) h = let (p, rest) = All-insert x (sort xs) h in (p, All-sort xs rest)

    pub sort-All : (xs : List A) → All P xs → All P (sort xs)
    sort-All [] h = tt
    sort-All (x ∷ xs) h = insert-All x (sort xs) h.0 (sort-All xs h.1)

  module _ (irrefl : (a : A) → lt a a ≡ false)
      (not_trans : (a b c : A) → lt b a ≡ false → lt c b ≡ false → lt c a ≡ false)
      (asym : (a b : A) → lt a b ≡ true → lt b a ≡ false) where
    All-not_trans :
        (a b : A) (xs : List A)
        → lt b a ≡ false
        → All (λ d. lt d b ≡ false) xs
        → All (λ d. lt d a ≡ false) xs
    All-not_trans a b [] h k = tt
    All-not_trans a b (x ∷ xs) h k = (not_trans a b x h k.0, All-not_trans a b xs h k.1)

    -- The first of the sorted items is the least: nothing comes before it.
    pub sort-least :
        (xs : List A) (c : A) (r : List A) → sort xs ≡ c ∷ r → All (λ d. lt d c ≡ false) xs
    sort-least [] c r h = tt
    sort-least (x ∷ xs) c r h = step (sort xs) (λ c' r' e. sort-least xs c' r' e) refl h
      where
        step :
            (ys : List A)
            → ((c' : A) (r' : List A) → sort xs ≡ c' ∷ r' → All (λ d. lt d c' ≡ false) xs)
            → sort xs ≡ ys
            → insert x ys ≡ c ∷ r
            → All (λ d. lt d c ≡ false) (x ∷ xs)
        step [] ih e k =
            let here : x ≡ c = cc in
            subst (λ t. All (λ d. lt d t ≡ false) (x ∷ xs)) here
              (irrefl x, All-sort (λ d. lt d x ≡ false) xs (rw e tt))
        step (y ∷ ys) ih e k = elim (Bool-cases (lt y x)) [
          | inl less ↦
              let k' : y ∷ insert x ys ≡ c ∷ r = rw less at k in
              let here : y ≡ c = cc in
              subst (λ t. All (λ d. lt d t ≡ false) (x ∷ xs)) here (asym y x less, ih y ys e)
          | inr more ↦
              let k' : x ∷ y ∷ ys ≡ c ∷ r = rw more at k in
              let here : x ≡ c = cc in
              subst (λ t. All (λ d. lt d t ≡ false) (x ∷ xs)) here
                (irrefl x, All-not_trans x y xs more (ih y ys e))
        ]

  -- Any two different items are related, by a relation that is symmetric.
  module _ {κ} (R : A → A → Type κ) (flip : (a b : A) → R a b → R b a) where
    abbrev pub Pairwise : List A → Type κ
    Pairwise [] = Unit
    Pairwise (x ∷ xs) = All (R x) xs × Pairwise xs

    insert-Pairwise : (x : A) (ys : List A) → All (R x) ys → Pairwise ys → Pairwise (insert x ys)
    insert-Pairwise x [] h p = (tt, tt)
    insert-Pairwise x (y ∷ ys) h p = elim (Bool-cases (lt y x)) [
      | inl e ↦ rw e (insert-All (R y) x ys (flip x y h.0) p.0, insert-Pairwise x ys h.1 p.1)
      | inr e ↦ rw e (h, p)
    ]

    pub sort-Pairwise : (xs : List A) → Pairwise xs → Pairwise (sort xs)
    sort-Pairwise [] p = tt
    sort-Pairwise (x ∷ xs) p =
        insert-Pairwise x (sort xs) (sort-All (R x) xs p.0) (sort-Pairwise xs p.1)
