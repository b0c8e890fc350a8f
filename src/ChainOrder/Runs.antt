-- ===== src/ChainOrder/Runs.antt =====
-- mdo/chain_order.py: the count of runs against the order of the chain.
use orion_v.Prelude.{
  ℕ, zero, suc, ◌+◌, ◌≤◌, ◌≡◌, refl, ◌↔◌, ◌⊎◌, inl, inr, List, [], ◌∷◌, true, false, some, arith,
  ◌==◌, ==_iff, Bool-cases, get_elem?,
}
use orion_v.ChainOrder.{runs_after, mem, set_size, is_contiguous}

-- No domain is re-entered: between two positions of one domain lies that domain alone.
abbrev pub NoReentry : List ℕ → Type 0
NoReentry ds =
    (i j k d : ℕ)
    → i ≤ j
    → j ≤ k
    → get_elem? ds i ≡ some d
    → get_elem? ds k ≡ some d
    → get_elem? ds j ≡ some d

-- The same by recursion: a domain that the next position leaves does not occur again.
abbrev Leaves : ℕ → List ℕ → Type 0
Leaves d [] = Unit
Leaves d (e ∷ ds) = ((d ≡ e) ⊎ (mem d (e ∷ ds) ≡ false)) × Leaves e ds

set_size-le : (d : ℕ) (ds : List ℕ) → set_size (d ∷ ds) ≤ 1 + runs_after d ds
set_size-le d [] = omega arith
set_size-le d (e ∷ ds) = ground (arith, set_size-le e ds)

Leaves→eq : (d : ℕ) (ds : List ℕ) → Leaves d ds → set_size (d ∷ ds) ≡ 1 + runs_after d ds
Leaves→eq d [] h = refl
Leaves→eq d (e ∷ ds) h = ground (arith, Leaves→eq e ds h.1)

eq→Leaves : (d : ℕ) (ds : List ℕ) → set_size (d ∷ ds) ≡ 1 + runs_after d ds → Leaves d ds
eq→Leaves d [] h = tt
eq→Leaves d (e ∷ ds) h = elim (Bool-cases (d == e)) [
  | inl same ↦ (inl ((==_iff d e).0 same), eq→Leaves e ds (ground arith))
  | inr other ↦ elim (Bool-cases (mem d (e ∷ ds))) [
    | inl again ↦ absurd (ground (arith, set_size-le e ds))
    | inr gone ↦ (inr gone, eq→Leaves e ds (ground arith))
  ]
]

mem_of_get : (d k : ℕ) (ds : List ℕ) → get_elem? ds k ≡ some d → mem d ds ≡ true
mem_of_get d k [] h = cc
mem_of_get d zero (e ∷ ds) h = ground arith
mem_of_get d (suc k) (e ∷ ds) h = ground (arith, mem_of_get d k ds)

get_of_mem : (d : ℕ) (ds : List ℕ) → mem d ds ≡ true → (k : ℕ) × (get_elem? ds k ≡ some d)
get_of_mem d [] h = cc
get_of_mem d (e ∷ ds) h = elim (Bool-cases (d == e)) [
  | inl same ↦ (0, ground arith)
  | inr other ↦ let (k, g) = get_of_mem d ds (ground arith) in (suc k, g)
]

Leaves→NoReentry : (d : ℕ) (ds : List ℕ) → Leaves d ds → NoReentry (d ∷ ds)
Leaves→NoReentry d ds h zero zero k c ij jk gi gk = gi
Leaves→NoReentry d ds h (suc i) zero k c ij jk gi gk = absurd (omega arith)
Leaves→NoReentry d ds h i (suc j) zero c ij jk gi gk = absurd (omega arith)
Leaves→NoReentry d [] h zero (suc j) (suc k) c ij jk gi gk = cc
Leaves→NoReentry d (e ∷ ds) h zero (suc j) (suc k) c ij jk gi gk = elim h.0 [
  | inl same ↦ Leaves→NoReentry e ds h.1 zero j k c (omega arith) (omega arith) (cc) gk
  | inr gone ↦ absurd (cc (mem_of_get c k (e ∷ ds) gk))
]
Leaves→NoReentry d [] h (suc i) (suc j) (suc k) c ij jk gi gk = cc
Leaves→NoReentry d (e ∷ ds) h (suc i) (suc j) (suc k) c ij jk gi gk =
    Leaves→NoReentry e ds h.1 i j k c (omega arith) (omega arith) gi gk

NoReentry→Leaves : (d : ℕ) (ds : List ℕ) → NoReentry (d ∷ ds) → Leaves d ds
NoReentry→Leaves d [] h = tt
NoReentry→Leaves d (e ∷ ds) h = (
  elim (Bool-cases (mem d (e ∷ ds))) [
    | inl again ↦
        let (k, g) = get_of_mem d (e ∷ ds) again in
        inl (ground (arith, h 0 1 (suc k) d (omega arith) (omega arith) refl g))
    | inr gone ↦ inr gone
  ],
  NoReentry→Leaves e ds
      (λ i j k c ij jk gi gk. h (suc i) (suc j) (suc k) c (omega arith) (omega arith) gi gk),
)

-- `is_contiguous`, which compares the number of runs with the number of distinct domains, holds of a
-- partition exactly when no domain is re-entered along it: whenever two positions hold one domain, so
-- does every position between them.
pub is_contiguous_iff : (domains : List ℕ) → (is_contiguous domains ≡ true) ↔ NoReentry domains
unfolding is_contiguous
is_contiguous_iff [] = (λ _ i j k d ij jk gi gk. cc, λ _. refl)
is_contiguous_iff (d ∷ ds) = (
  λ h. Leaves→NoReentry d ds (eq→Leaves d ds (ground arith)),
  λ h. ground (arith, Leaves→eq d ds (NoReentry→Leaves d ds h)),
)
