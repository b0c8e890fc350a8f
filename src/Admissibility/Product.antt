-- ===== src/Admissibility/Product.antt =====
-- mdo/admissibility.py: the enumeration of the candidates.
use mathlib.Core.List.{Memᴰ}
use orion_v.Prelude.{
  ℕ, zero, suc, ◌+◌, ◌≤◌, ◌<◌, ◌≡◌, refl, ◌∙◌, sym, ap, inl, inr, List, [], ◌∷◌, ◌++◌, map, Bool,
  true, false, some, arith, ◌==◌, ==_iff, Bool-cases, Option-cases, length, get_elem?, filter, any,
}
use orion_v.Types.{Vnf}
use orion_v.Types.Mdo.{DomainSummary}
use orion_v.Substrate.{SubstrateNetwork}
use orion_v.Admissibility.{admissible_at, all_admissible, choices, product, prepend_all, range_from}

-- Where an item of such a list comes from.
pub prepend_all_origin :
    (t : List ℕ) (xs : List ℕ) (rs : List (List ℕ))
    → Memᴰ t (prepend_all xs rs)
    → (x : ℕ) × (r : List ℕ) × (t ≡ x ∷ r) × Memᴰ x xs × Memᴰ r rs
prepend_all_origin t [] rs m = elim m [ ]
prepend_all_origin t (x ∷ xs) rs m = parts rs (λ r k. k) (prepend_all_origin t xs rs) m
  where
    Origin : Type 0
    Origin = (y : ℕ) × (r : List ℕ) × (t ≡ y ∷ r) × Memᴰ y (x ∷ xs) × Memᴰ r rs

    parts :
        (qs : List (List ℕ))
        → ((r : List ℕ) → Memᴰ r qs → Memᴰ r rs)
        → (Memᴰ t (prepend_all xs rs)
            → (y : ℕ) × (r : List ℕ) × (t ≡ y ∷ r) × Memᴰ y xs × Memᴰ r rs)
        → Memᴰ t (map (λ r. x ∷ r) qs ++ prepend_all xs rs)
        → Origin
    parts [] sub rest k = let (y, r, e, a, b) = rest k in (y, r, e, Memᴰ.tail a, b)
    parts (q ∷ qs) sub rest (Memᴰ.head e) = (x, q, e, Memᴰ.head refl, sub q (Memᴰ.head refl))
    parts (q ∷ qs) sub rest (Memᴰ.tail k) = parts qs (λ r j. sub r (Memᴰ.tail j)) rest k

pub filter_origin :
    (p : ℕ → Bool) (x : ℕ) (xs : List ℕ) → Memᴰ x (filter p xs) → Memᴰ x xs × (p x ≡ true)
filter_origin p x [] m = elim m [ ]
filter_origin p x (y ∷ xs) m = elim (Bool-cases (p y)) [
  | inr e ↦ let (a, b) = filter_origin p x xs (rw e at m) in (Memᴰ.tail a, b)
  | inl e ↦
      let m' : Memᴰ x (y ∷ filter p xs) = rw e at m in
      elim m' [
        | Memᴰ.head h ↦ (Memᴰ.head h, ap p h ∙ e)
        | Memᴰ.tail k ↦ let (a, b) = filter_origin p x xs k in (Memᴰ.tail a, b)
      ]
]

pub range_from_bound : (i n x : ℕ) → Memᴰ x (range_from i n) → x < i + n
range_from_bound i zero x m = elim m [ ]
range_from_bound i (suc n) x (Memᴰ.head e) = omega (arith, e)
range_from_bound i (suc n) x (Memᴰ.tail m) = omega (arith, range_from_bound (suc i) n x m)

-- Membership in the lists that `choices` and `product` build.
mem_append_left {ℓ} : {A : Type ℓ} (a : A) (xs ys : List A) → Memᴰ a xs → Memᴰ a (xs ++ ys)
mem_append_left a [] ys m = elim m [ ]
mem_append_left a (x ∷ xs) ys (Memᴰ.head e) = Memᴰ.head e
mem_append_left a (x ∷ xs) ys (Memᴰ.tail m) = Memᴰ.tail (mem_append_left a xs ys m)

mem_append_right {ℓ} : {A : Type ℓ} (a : A) (xs ys : List A) → Memᴰ a ys → Memᴰ a (xs ++ ys)
mem_append_right a [] ys m = m
mem_append_right a (x ∷ xs) ys m = Memᴰ.tail (mem_append_right a xs ys m)

mem_map_cons :
    (x : ℕ) (r : List ℕ) (rs : List (List ℕ)) → Memᴰ r rs → Memᴰ (x ∷ r) (map (λ t. x ∷ t) rs)
mem_map_cons x r [] m = elim m [ ]
mem_map_cons x r (s ∷ rs) (Memᴰ.head e) = Memᴰ.head (ap (λ t. x ∷ t) e)
mem_map_cons x r (s ∷ rs) (Memᴰ.tail m) = Memᴰ.tail (mem_map_cons x r rs m)

pub mem_prepend_all :
    (x : ℕ) (xs r : List ℕ) (rs : List (List ℕ))
    → Memᴰ x xs
    → Memᴰ r rs
    → Memᴰ (x ∷ r) (prepend_all xs rs)
mem_prepend_all x [] r rs t m = elim t [ ]
mem_prepend_all x (y ∷ xs) r rs (Memᴰ.head e) m =
    mem_append_left (x ∷ r) (map (λ t. y ∷ t) rs) (prepend_all xs rs) (rw e (mem_map_cons y r rs m))
mem_prepend_all x (y ∷ xs) r rs (Memᴰ.tail t) m =
    mem_append_right (x ∷ r) (map (λ t. y ∷ t) rs) (prepend_all xs rs)
      (mem_prepend_all x xs r rs t m)

pub mem_filter :
    (p : ℕ → Bool) (x : ℕ) (xs : List ℕ) → Memᴰ x xs → p x ≡ true → Memᴰ x (filter p xs)
mem_filter p x [] m h = elim m [ ]
mem_filter p x (y ∷ xs) (Memᴰ.head e) h = rw (sym (ap p e) ∙ h) (Memᴰ.head e)
mem_filter p x (y ∷ xs) (Memᴰ.tail m) h = elim (Bool-cases (p y)) [
  | inl e ↦ rw e (Memᴰ.tail (mem_filter p x xs m h))
  | inr e ↦ rw e (mem_filter p x xs m h)
]

pub mem_range_from : (i n x : ℕ) → i ≤ x → x < i + n → Memᴰ x (range_from i n)
mem_range_from i zero x h k = absurd (omega arith)
mem_range_from i (suc n) x h k = elim (Bool-cases (x == i)) [
  | inl e ↦ Memᴰ.head ((==_iff x i).0 e)
  | inr e ↦ Memᴰ.tail (mem_range_from (suc i) n x (ground arith) (omega arith))
]

pub lt_of_get {ℓ} :
    {A : Type ℓ} (xs : List A) (m : ℕ) {d : A} → get_elem? xs m ≡ some d → m < length xs
lt_of_get [] m h = cc
lt_of_get (x ∷ xs) zero h = omega arith
lt_of_get (x ∷ xs) (suc m) h = omega (arith, lt_of_get xs m h)

pub length-ne_zero : (x : ℕ) (xs : List ℕ) → Memᴰ x xs → (length xs == 0) ≡ false
length-ne_zero x [] m = elim m [ ]
length-ne_zero x (y ∷ xs) m = ground arith

module _ (s : SubstrateNetwork) (summaries : List DomainSummary) where
  lt_of_admissible : (v : Vnf) (m : ℕ) → admissible_at s summaries v m ≡ true → m < length summaries
  lt_of_admissible v m h = elim (Option-cases (get_elem? summaries m)) [
    | inl e ↦ absurd (ground arith)
    | inr (d, e) ↦ lt_of_get summaries m e
  ]

  mem_choice :
      (v : Vnf) (m : ℕ)
      → admissible_at s summaries v m ≡ true
      → Memᴰ m (filter (admissible_at s summaries v) (range_from 0 (length summaries)))
  mem_choice v m h =
      mem_filter (admissible_at s summaries v) m _
        (mem_range_from 0 (length summaries) m (omega arith)
          (omega (arith, lt_of_admissible v m h)))
        h

  -- The product of the choices has every candidate that is admissible at each position.
  pub mem-product :
      (vnfs : List Vnf) (idx : List ℕ)
      → all_admissible s summaries vnfs idx ≡ true
      → Memᴰ idx (product (choices s summaries vnfs))
  mem-product [] [] h = Memᴰ.head refl
  mem-product [] (m ∷ ms) h = cc
  mem-product (v ∷ vs) [] h = cc
  mem-product (v ∷ vs) (m ∷ ms) h =
      mem_prepend_all m _ ms _ (mem_choice v m (ground arith)) (mem-product vs ms (ground arith))

  -- So no list of choices is empty if there is such a candidate.
  pub choices_inhabited :
      (vnfs : List Vnf) (idx : List ℕ)
      → all_admissible s summaries vnfs idx ≡ true
      → any (λ c. length c == 0) (choices s summaries vnfs) ≡ false
  choices_inhabited [] [] h = refl
  choices_inhabited [] (m ∷ ms) h = refl
  choices_inhabited (v ∷ vs) [] h = cc
  choices_inhabited (v ∷ vs) (m ∷ ms) h =
      rw (length-ne_zero m _ (mem_choice v m (ground arith)))
        (choices_inhabited vs ms (ground arith))
