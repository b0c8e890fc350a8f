-- ===== src/Prelude/Totals.antt =====
-- Amounts added up by key.
use orion_v.Prelude.{
  ℤ, pos, ◌+ℤ◌, ◌≡◌, refl, ap, sym, subst, ◌∙◌, ◌⊎◌, inl, inr, List, [], ◌∷◌, Bool, true, false,
  Option, none, some, arith, any, Bool-cases, Option-cases, if◌then◌else◌, zero-add_ℤ, add-zero_ℤ,
  +ℤ_assoc,
}
use orion_v.Prelude.Dict.{
  put, Dict, Eq, get_or, contains, get_or-put, contains-put_self, get_of_contains,
}
use orion_v.Prelude.Keys.{
  HasUniqueKeys, put-HasUniqueKeys, contains_of_get, contains-put_less, Each-of_get,
  contains-put_kept, Each-get, Each,
}

-- `d[k] = d.get(k, 0.0) + amount`
abbrev pub charge : {K : Type 0} ⦃e : Eq K⦄ → K → ℤ → Dict K ℤ → Dict K ℤ
charge d amount used = put d (get_or d (pos 0) used +ℤ amount) used

module _ {K : Type 0} ⦃e : Eq K⦄ where
  abbrev pub is_at : K → Option K → Bool
  is_at k none = false
  is_at k (some j) = e.beq k j

  abbrev pub charge_key : Option K → ℤ → Dict K ℤ → Dict K ℤ
  charge_key none a used = used
  charge_key (some k) a used = charge k a used

module _ {K : Type 0} ⦃e : Eq K⦄ {X : Type 0} (key : X → Option K) where
  abbrev pub is_for : K → X → Bool
  is_for k x = is_at k (key x)

module _ {K : Type 0} ⦃e : Eq K⦄ {X : Type 0} (key : X → Option K) (amount : X → ℤ) where
  -- What the items of a key add up to.
  abbrev pub total : K → List X → ℤ
  total k [] = pos 0
  total k (x ∷ xs) = (if is_for key k x then amount x else pos 0) +ℤ total k xs

  abbrev pub charges : List X → Dict K ℤ → Dict K ℤ
  charges [] used = used
  charges (x ∷ xs) used = charges xs (charge_key (key x) (amount x) used)

  charge_key-get :
      (k : K) (o : Option K) (a : ℤ) (used : Dict K ℤ)
      → get_or k (pos 0) (charge_key o a used)
        ≡ get_or k (pos 0) used +ℤ (if is_at k o then a else pos 0)
  charge_key-get k none a used = sym (add-zero_ℤ (get_or k (pos 0) used))
  charge_key-get k (some j) a used = elim (Bool-cases (e.beq k j)) [
    | inl same ↦
        let is : j ≡ k = sym ((e.beq_iff k j).0 same) in
        rw (get_or-put j k (get_or j (pos 0) used +ℤ a) (pos 0) used, same)
          (ap (λ t. get_or t (pos 0) used +ℤ a) is)
    | inr other ↦
        rw (get_or-put j k (get_or j (pos 0) used +ℤ a) (pos 0) used, other)
          (sym (add-zero_ℤ (get_or k (pos 0) used)))
  ]

  pub charges-get :
      (k : K) (xs : List X) (used : Dict K ℤ)
      → get_or k (pos 0) (charges xs used) ≡ get_or k (pos 0) used +ℤ total k xs
  charges-get k [] used = sym (add-zero_ℤ (get_or k (pos 0) used))
  charges-get k (x ∷ xs) used =
      charges-get k xs (charge_key (key x) (amount x) used)
      ∙ ap (λ t. t +ℤ total k xs) (charge_key-get k (key x) (amount x) used)
      ∙ +ℤ_assoc (get_or k (pos 0) used) (if is_for key k x then amount x else pos 0) (total k xs)

  charge_key-contains :
      (k : K) (x : X) (used : Dict K ℤ)
      → (contains k used ≡ true) ⊎ (is_for key k x ≡ true)
      → contains k (charge_key (key x) (amount x) used) ≡ true
  charge_key-contains k x used h = elim (Option-cases (key x)) [
    | inl e0 ↦ elim h [ inl c ↦ rw e0 c | inr f ↦ absurd (cc (f, e0)) ]
    | inr (j, e1) ↦ elim h [
      | inl c ↦ rw e1 (contains-put_kept k j (get_or j (pos 0) used +ℤ amount x) used c)
      | inr f ↦
          let same : e.beq k j ≡ true = cc (f, e1) in
          let is : j ≡ k = sym ((e.beq_iff k j).0 same) in
          rw e1 (
            subst (λ t. contains t (charge j (amount x) used) ≡ true) is
              (contains-put_self j (get_or j (pos 0) used +ℤ amount x) used))
    ]
  ]

  charges-contains :
      (k : K) (xs : List X) (used : Dict K ℤ)
      → (contains k used ≡ true) ⊎ (any (is_for key k) xs ≡ true)
      → contains k (charges xs used) ≡ true
  charges-contains k [] used h = elim h [ inl c ↦ c | inr f ↦ cc f ]
  charges-contains k (x ∷ xs) used h =
      charges-contains k xs (charge_key (key x) (amount x) used) (elim h [
        | inl c ↦ inl (charge_key-contains k x used (inl c))
        | inr f ↦ elim (Bool-cases (is_for key k x)) [
          | inl now ↦ inl (charge_key-contains k x used (inr now))
          | inr later ↦ inr (ground arith)
        ]
      ])

  charge_key-only :
      (k : K) (o : Option K) (a : ℤ) (used : Dict K ℤ)
      → contains k (charge_key o a used) ≡ true
      → (contains k used ≡ true) ⊎ (is_at k o ≡ true)
  charge_key-only k none a used h = inl h
  charge_key-only k (some j) a used h = elim (Bool-cases (e.beq k j)) [
    | inl same ↦ inr same
    | inr other ↦ inl (contains-put_less k j (get_or j (pos 0) used +ℤ a) used other h)
  ]

  -- Only the keys that occur have an entry.
  charges-only :
      (k : K) (xs : List X) (used : Dict K ℤ)
      → contains k (charges xs used) ≡ true
      → (contains k used ≡ true) ⊎ (any (is_for key k) xs ≡ true)
  charges-only k [] used h = inl h
  charges-only k (x ∷ xs) used h = elim (charges-only k xs (charge_key (key x) (amount x) used) h) [
    | inr later ↦ inr (ground arith)
    | inl before ↦ elim (charge_key-only k (key x) (amount x) used before) [
      | inl c ↦ inl c
      | inr now ↦ inr (ground arith)
    ]
  ]

  charges-HasUniqueKeys :
      (xs : List X) (used : Dict K ℤ) → HasUniqueKeys used → HasUniqueKeys (charges xs used)
  charges-HasUniqueKeys [] used u = u
  charges-HasUniqueKeys (x ∷ xs) used u =
      charges-HasUniqueKeys xs (charge_key (key x) (amount x) used) (one (key x))
    where
      one : (o : Option K) → HasUniqueKeys (charge_key o (amount x) used)
      one none = u
      one (some j) = put-HasUniqueKeys j (get_or j (pos 0) used +ℤ amount x) used u

  -- What holds of the totals of the keys that occur holds of every sum kept.
  pub Each-charges :
      (P : K → ℤ → Type 0) (xs : List X)
      → ((k : K) → any (is_for key k) xs ≡ true → P k (total k xs))
      → Each P (charges xs [])
  Each-charges P xs f = Each-of_get P (charges xs []) (charges-HasUniqueKeys xs [] tt) (λ k t found.
      let sum : get_or k (pos 0) (charges xs []) ≡ t = rw (get_or, found) refl in
      let is : total k xs ≡ t = sym (zero-add_ℤ (total k xs)) ∙ sym (charges-get k xs []) ∙ sum in
      elim (charges-only k xs [] (contains_of_get k (charges xs []) found)) [
        | inl c ↦ absurd (cc c)
        | inr occurs ↦ subst (P k) is (f k occurs)
      ])

  -- What holds of every sum kept holds of the total of a key that occurs.
  pub charges-Each :
      (P : K → ℤ → Type 0) (k : K) (xs : List X)
      → any (is_for key k) xs ≡ true
      → Each P (charges xs [])
      → P k (total k xs)
  charges-Each P k xs occurs each =
      let (t, found) = get_of_contains k (charges xs []) (charges-contains k xs [] (inr occurs)) in
      let sum : get_or k (pos 0) (charges xs []) ≡ t = rw (get_or, found) refl in
      let is : t ≡ total k xs = sym sum ∙ charges-get k xs [] ∙ zero-add_ℤ (total k xs) in
      subst (P k) is (Each-get P k (charges xs []) found each)

-- Items that count for a key under one reading of the keys and under another.
pub total-same :
    {K : Type 0} ⦃e : Eq K⦄ {X : Type 0} (key key' : X → Option K) (amount : X → ℤ) (k : K)
    (xs : List X)
    → ((x : X) → is_at k (key x) ≡ is_at k (key' x))
    → total key amount k xs ≡ total key' amount k xs
total-same key key' amount k [] h = refl
total-same key key' amount k (x ∷ xs) h = rw (h x, total-same key key' amount k xs h) refl

pub any-same :
    {X : Type 0} (p q : X → Bool) (xs : List X)
    → ((x : X) → p x ≡ q x)
    → any q xs ≡ true
    → any p xs ≡ true
any-same p q [] f k = k
any-same p q (x ∷ xs) f k = ground (arith, f x, any-same p q xs f)
