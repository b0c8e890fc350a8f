-- ===== src/Prelude/Keys.antt =====
-- The keys of a dict, each there once.
use Prim.Native.Nat.{suc}
use mathlib.Core.Path.{◌≡◌, refl, sym, subst}
use mathlib.Core.Logic.{inl, inr}
use mathlib.Core.Bool.{true, false}
use mathlib.Core.List.{[], ◌∷◌}
use mathlib.Core.Option.{none, some}
use native.Mathlib.Omega.{arith}
use orion_v.Prelude.Tests.{Bool-cases}
use orion_v.Prelude.Lists.{length, All}
use orion_v.Prelude.Dict.{Dict, Eq, get, contains, put, del}

module _ {ℓ κ} {K : Type ℓ} {V : Type κ} ⦃e : Eq K⦄ where
  abbrev pub HasUniqueKeys : Dict K V → Type ℓ
  HasUniqueKeys [] = Unit
  HasUniqueKeys ((k, v) ∷ d) = (contains k d ≡ false) × HasUniqueKeys d

  contains-put_other :
      (j k : K) (v : V) (d : Dict K V)
      → e.beq j k ≡ false
      → contains j d ≡ false
      → contains j (put k v d) ≡ false
  contains-put_other j k v [] ne h = ground arith
  contains-put_other j k v ((i, w) ∷ d) ne h = ground (arith, contains-put_other j k v d ne)

  -- A write takes no key away.
  pub contains-put_kept :
      (j k : K) (v : V) (d : Dict K V) → contains j d ≡ true → contains j (put k v d) ≡ true
  contains-put_kept j k v [] h = cc
  contains-put_kept j k v ((i, w) ∷ d) h = elim (Bool-cases (e.beq k i)) [
    | inl same ↦ rw same h
    | inr other ↦ elim (Bool-cases (e.beq j i)) [
      | inl here ↦ rw (other, here) refl
      | inr there ↦ rw (other, there) (contains-put_kept j k v d (cc (h, there)))
    ]
  ]

  -- And brings no other.
  pub contains-put_less :
      (j k : K) (v : V) (d : Dict K V)
      → e.beq j k ≡ false
      → contains j (put k v d) ≡ true
      → contains j d ≡ true
  contains-put_less j k v d ne h = elim (Bool-cases (contains j d)) [
    | inl c ↦ c
    | inr c ↦ absurd (cc (h, contains-put_other j k v d ne c))
  ]

  pub put-HasUniqueKeys :
      (k : K) (v : V) (d : Dict K V) → HasUniqueKeys d → HasUniqueKeys (put k v d)
  put-HasUniqueKeys k v [] h = (refl, tt)
  put-HasUniqueKeys k v ((i, w) ∷ d) h = elim (Bool-cases (e.beq k i)) [
    | inl same ↦ rw same h
    | inr other ↦
        rw other (contains-put_other i k v d (flip other) h.0, put-HasUniqueKeys k v d h.1)
  ]
    where
      flip : e.beq k i ≡ false → e.beq i k ≡ false
      flip other = ground (arith, e.beq_iff k i, e.beq_iff i k)

  contains-del : (j k : K) (d : Dict K V) → contains j d ≡ false → contains j (del k d) ≡ false
  contains-del j k [] h = refl
  contains-del j k ((i, w) ∷ d) h = ground (arith, contains-del j k d)

  pub del-HasUniqueKeys : (k : K) (d : Dict K V) → HasUniqueKeys d → HasUniqueKeys (del k d)
  del-HasUniqueKeys k [] h = tt
  del-HasUniqueKeys k ((i, w) ∷ d) h = elim (Bool-cases (e.beq k i)) [
    | inl same ↦ rw same h.1
    | inr other ↦ rw other (contains-del i k d h.0, del-HasUniqueKeys k d h.1)
  ]

  pub contains-del_self : (k : K) (d : Dict K V) → HasUniqueKeys d → contains k (del k d) ≡ false
  contains-del_self k [] h = refl
  contains-del_self k ((i, w) ∷ d) h = elim (Bool-cases (e.beq k i)) [
    | inl same ↦ let here : k ≡ i = (e.beq_iff k i).0 same in rw same (rw here h.0)
    | inr other ↦ rw other (rw other (contains-del_self k d h.1))
  ]

  pub length-put_known :
      (k : K) (v : V) (d : Dict K V) → contains k d ≡ true → length (put k v d) ≡ length d
  length-put_known k v [] h = cc
  length-put_known k v ((i, w) ∷ d) h = ground (arith, length-put_known k v d)

  pub length-put_new :
      (k : K) (v : V) (d : Dict K V) → contains k d ≡ false → length (put k v d) ≡ suc (length d)
  length-put_new k v [] h = refl
  length-put_new k v ((i, w) ∷ d) h = ground (arith, length-put_new k v d)

  pub length-del : (k : K) (d : Dict K V) → contains k d ≡ true → suc (length (del k d)) ≡ length d
  length-del k [] h = cc
  length-del k ((i, w) ∷ d) h = ground (arith, length-del k d)

  pub contains_of_get : (k : K) (d : Dict K V) {v : V} → get k d ≡ some v → contains k d ≡ true
  contains_of_get k [] h = cc
  contains_of_get k ((i, w) ∷ d) {v} h = ground (arith, contains_of_get k d {v = v})

  pub contains_of_get-none : (k : K) (d : Dict K V) → get k d ≡ none → contains k d ≡ false
  contains_of_get-none k [] h = refl
  contains_of_get-none k ((i, w) ∷ d) h = ground (arith, contains_of_get-none k d)

  -- What holds of every entry.
  module _ {μ} (P : K → V → Type μ) where
    abbrev pub Each : Dict K V → Type μ
    Each d = All (λ x. P x.0 x.1) d

    pub Each-get : (k : K) (d : Dict K V) {v : V} → get k d ≡ some v → Each d → P k v
    Each-get k [] h a = cc
    Each-get k ((i, w) ∷ d) {v} h a = elim (Bool-cases (e.beq k i)) [
      | inl same ↦
          let here : i ≡ k = sym ((e.beq_iff k i).0 same) in
          let it : w ≡ v = ground arith in subst (λ t. P t v) here (subst (P i) it a.0)
      | inr other ↦ Each-get k d (ground arith) a.1
    ]

    -- With unique keys, the entries are what a look-up finds.
    pub Each-of_get :
        (d : Dict K V) → HasUniqueKeys d → ((k : K) (v : V) → get k d ≡ some v → P k v) → Each d
    Each-of_get [] u f = tt
    Each-of_get ((i, w) ∷ d) u f = (
      f i w (rw ((e.beq_iff i i).1 refl) refl),
      Each-of_get d u.1 (λ k v found. f k v (elim (Bool-cases (e.beq k i)) [
        | inl same ↦
            let is : k ≡ i = (e.beq_iff k i).0 same in
            absurd (cc (u.0, subst (λ t. contains t d ≡ true) is (contains_of_get k d found)))
        | inr other ↦ rw other found
      ])),
    )

    -- A write, whether or not the keys are unique.
    pub Each-write : (k : K) (v : V) (d : Dict K V) → P k v → Each d → Each (put k v d)
    Each-write k v [] p a = (p, tt)
    Each-write k v ((i, w) ∷ d) p a = elim (Bool-cases (e.beq k i)) [
      | inl same ↦ rw same (subst (λ t. P t v) ((e.beq_iff k i).0 same) p, a.1)
      | inr other ↦ rw other (a.0, Each-write k v d p a.1)
    ]

    pub Each-del : (k : K) (d : Dict K V) → Each d → Each (del k d)
    Each-del k [] a = tt
    Each-del k ((i, w) ∷ d) a = elim (Bool-cases (e.beq k i)) [
      | inl same ↦ rw same a.1
      | inr other ↦ rw other (a.0, Each-del k d a.1)
    ]

  module _ {μ} (P Q : K → V → Type μ) (k : K)
      (kept : (j : K) (w : V) → e.beq j k ≡ false → P j w → Q j w) where
    pub Each-others : (d : Dict K V) → contains k d ≡ false → Each P d → Each Q d
    Each-others [] h a = tt
    Each-others ((i, w) ∷ d) h a = (
      kept i w (ground (arith, e.beq_iff k i, e.beq_iff i k)) a.0,
      Each-others d (ground arith) a.1,
    )

    -- A write changes what holds of its own entry only.
    pub Each-put : (v : V) (d : Dict K V) → HasUniqueKeys d → Q k v → Each P d → Each Q (put k v d)
    Each-put v [] u q a = (q, tt)
    Each-put v ((i, w) ∷ d) u q a = elim (Bool-cases (e.beq k i)) [
      | inl same ↦
          let here : k ≡ i = (e.beq_iff k i).0 same in
          rw same (
            subst (λ t. Q t v) here q,
            Each-others d (subst (λ t. contains t d ≡ false) (sym here) u.0) a.1,
          )
      | inr other ↦
          rw other
            (kept i w (ground (arith, e.beq_iff k i, e.beq_iff i k)) a.0, Each-put v d u.1 q a.1)
    ]
