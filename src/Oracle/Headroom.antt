-- ===== src/Oracle/Headroom.antt =====
-- partition_oracle.py: the key that an entry is sorted by, in terms of the chain and the summaries.

use orion_v.Prelude.{
  ℕ, ◌<◌, ℤ, pos, ◌-ℤ◌, ◌≤ℤ◌, ltb_ℤ, ltb, ◌≡◌, refl, ap, sym, subst, ◌∙◌, ◌⊎◌, inl, inr, List, [],
  ◌∷◌, Bool, true, false, not, ◌&&◌, ◌||◌, Option, none, some, arith, length, get_elem?, any, ◌==◌,
  Bool-cases, Option-cases,
}
use orion_v.Prelude.Dict.{Dict, nat_eq, get_or}
use orion_v.Prelude.Keys.{Each}
use orion_v.Prelude.Totals.{is_for, charges-Each, Each-charges}
use orion_v.Types.Mdo.{DomainSummary}
use orion_v.ChainOrder.{set_size}
use orion_v.Admissibility.{lex_lt}
use orion_v.Oracle.{
  View, contiguous, seats, index_of, amount_of, loads_by, lower, tightest_of, Ranked, lt_tightest,
  lt_ranked, ranked_of,
}
use orion_v.Oracle.Feasible.{load, any-seats}

-- No headroom, or this much at most.
abbrev AtMost : Option ℤ → ℤ → Type 0
AtMost none x = ⊥
AtMost (some u) x = u ≤ℤ x

abbrev AtMostStart : Option ℤ → Option ℤ → Type 0
AtMostStart u none = Unit
AtMostStart u (some x) = AtMost u x

AtMost-lower : (u t : Option ℤ) (x : ℤ) → AtMostStart u (lower t x) → AtMostStart u t × AtMost u x
AtMost-lower none none x h = elim h [ ]
AtMost-lower none (some t) x h = elim h [ ]
AtMost-lower (some u) none x h = (tt, h)
AtMost-lower (some u) (some t) x h = (ground (arith, h), ground (arith, h))

lower-cases : (t : Option ℤ) (x : ℤ) (u : ℤ) → lower t x ≡ some u → (t ≡ some u) ⊎ (u ≡ x)
lower-cases none x u h = inr (ground (arith, h))
lower-cases (some t) x u h = ground (arith, h)

module _ (summaries : List DomainSummary) (acc_r : Dict ℕ ℤ) where
  -- The loop goes on after a domain that is not too small.
  tightest_of-next :
      (m : ℕ) (c : ℤ) (acc_c : Dict ℕ ℤ) (t u : Option ℤ)
      → tightest_of summaries acc_r ((m, c) ∷ acc_c) t ≡ some u
      → (d : DomainSummary) × (get_elem? summaries m ≡ some d)
        × (tightest_of summaries acc_r acc_c (lower t (d.cpu_residual -ℤ c)) ≡ some u)
  unfolding tightest_of
  tightest_of-next m c acc_c t u h = elim (Option-cases (get_elem? summaries m)) [
    | inl e ↦ absurd (cc (h, e))
    | inr (d, e) ↦
        elim (Bool-cases
          (ltb_ℤ d.cpu_residual c || ltb_ℤ d.ram_residual (get_or m (pos 0) acc_r))) [
            | inl small ↦ absurd (cc (h, e, small))
            | inr fits ↦ (d, e, cc (h, e, fits))
          ]
  ]

  tightest_of-AtMost :
      (acc_c : Dict ℕ ℤ) (t u : Option ℤ)
      → tightest_of summaries acc_r acc_c t ≡ some u
      → AtMostStart u t
        × Each
            (λ m c.
              (d : DomainSummary) → get_elem? summaries m ≡ some d → AtMost u (d.cpu_residual -ℤ c))
            acc_c
  unfolding tightest_of
  tightest_of-AtMost [] t u h =
      let same : t ≡ u = ground (arith, h) in (subst (λ v. AtMostStart v t) same (start t), tt)
    where
      start : (t : Option ℤ) → AtMostStart t t
      start none = tt
      start (some x) = omega arith
  tightest_of-AtMost ((m, c) ∷ acc_c) t u h =
      let (d, e, rest) = tightest_of-next m c acc_c t u h in
      let (low, each) = tightest_of-AtMost acc_c (lower t (d.cpu_residual -ℤ c)) u rest in
      let (a, b) = AtMost-lower u t (d.cpu_residual -ℤ c) low in
      (
        a,
        (
          λ d' e'.
              let same : d ≡ d' = cc (e, e') in
              subst (λ (s : DomainSummary). AtMost u (s.cpu_residual -ℤ c)) same b,
          each,
        ),
      )

  tightest_of-origin :
      (P : ℕ → ℤ → Type 0) (acc_c : Dict ℕ ℤ) (t : Option ℤ) (u : ℤ)
      → tightest_of summaries acc_r acc_c t ≡ some (some u)
      → Each P acc_c
      → (t ≡ some u)
        ⊎ ((m : ℕ) × (c : ℤ) × (d : DomainSummary) × P m c
            × (get_elem? summaries m ≡ some d)
            × (u ≡ d.cpu_residual -ℤ c))
  unfolding tightest_of
  tightest_of-origin P [] t u h each = inl (ground (arith, h))
  tightest_of-origin P ((m, c) ∷ acc_c) t u h each =
      let (d, e, rest) = tightest_of-next m c acc_c t (some u) h in
      elim (tightest_of-origin P acc_c (lower t (d.cpu_residual -ℤ c)) u rest each.1) [
        | inr later ↦ inr later
        | inl low ↦ elim (lower-cases t (d.cpu_residual -ℤ c) u low) [
          | inl before ↦ inl before
          | inr now ↦ inr (m, c, d, each.0, e, now)
        ]
      ]

-- The least CPU that a domain in use has left under the partition.
pub record IsTightest (view : View) (cand : List ℕ) (tightest : Option ℤ) : Type 0 where
  pub least :
      (m : ℕ) (d : DomainSummary)
      → any (λ j. m == j) cand ≡ true
      → get_elem? view.summaries m ≡ some d
      → (u : ℤ) × (tightest ≡ some u) × (u ≤ℤ d.cpu_residual -ℤ load m cand view.cpu)
  pub attained :
      (u : ℤ)
      → tightest ≡ some u
      → (m : ℕ) × (d : DomainSummary) × (any (λ j. m == j) cand ≡ true)
        × (get_elem? view.summaries m ≡ some d)
        × (u ≡ d.cpu_residual -ℤ load m cand view.cpu)

-- An entry names its partition's number of domains and least headroom.
pub record IsKeyed (view : View) (r : Ranked) : Type 0 where
  pub domains : r.domains ≡ set_size r.cand
  pub tightest : IsTightest view r.cand r.tightest

module _ (view : View) where
  tightest_of-IsTightest :
      (cand : List ℕ) (acc_r : Dict ℕ ℤ) (t : Option ℤ)
      → length cand ≡ length view.cpu
      → tightest_of view.summaries acc_r (loads_by cand view.cpu) none ≡ some t
      → IsTightest view cand t
  tightest_of-IsTightest cand acc_r t len e = record {
    least = λ m d occurs found. some_of _ t (
        charges-Each index_of amount_of
          (λ m c.
            (d : DomainSummary)
            → get_elem? view.summaries m ≡ some d
            → AtMost t (d.cpu_residual -ℤ c))
          m (seats cand view.cpu) (any-seats m cand view.cpu len ∙ occurs)
          (tightest_of-AtMost view.summaries acc_r (loads_by cand view.cpu) none t e).1 d found);
    attained = λ u is. from u is (
        tightest_of-origin view.summaries acc_r IsLoad (loads_by cand view.cpu) none u
          (e ∙ ap some is)
          (Each-charges index_of amount_of IsLoad (seats cand view.cpu)
            (λ k occurs. (occurs, refl))));
  }
    where
      some_of : (x : ℤ) (t : Option ℤ) → AtMost t x → (u : ℤ) × (t ≡ some u) × (u ≤ℤ x)
      some_of x none h = elim h [ ]
      some_of x (some u) h = (u, refl, h)

      IsLoad : ℕ → ℤ → Type 0
      IsLoad m c =
          (any (is_for index_of m) (seats cand view.cpu) ≡ true) × (c ≡ load m cand view.cpu)

      from :
          (u : ℤ)
          → t ≡ some u
          → (none ≡ some u)
            ⊎ ((m : ℕ) × (c : ℤ) × (d : DomainSummary) × IsLoad m c
                × (get_elem? view.summaries m ≡ some d)
                × (u ≡ d.cpu_residual -ℤ c))
          → (m : ℕ) × (d : DomainSummary) × (any (λ j. m == j) cand ≡ true)
            × (get_elem? view.summaries m ≡ some d)
            × (u ≡ d.cpu_residual -ℤ load m cand view.cpu)
      from u is (inl absent) = cc absent
      from u is (inr (m, c, d, l, found, eq)) = (
        m,
        d,
        sym (any-seats m cand view.cpu len) ∙ l.0,
        found,
        eq ∙ ap (λ x. d.cpu_residual -ℤ x) l.1,
      )

  pub ranked_of-IsKeyed :
      (cand : List ℕ) (r : Ranked)
      → length cand ≡ length view.cpu
      → ranked_of view cand ≡ some r
      → IsKeyed view r
  unfolding ranked_of
  ranked_of-IsKeyed cand r len h =
      let acc_r = loads_by cand view.ram in
      let acc_c = loads_by cand view.cpu in
      elim (Bool-cases (contiguous cand)) [
        | inr broken ↦ absurd (ground (arith, h, broken))
        | inl unbroken ↦ elim (Option-cases (tightest_of view.summaries acc_r acc_c none)) [
          | inl e ↦ absurd (ground (arith, h, unbroken, e))
          | inr (t, e) ↦
              let is : record { domains = set_size cand; tightest = t; cand = cand } ≡ r =
                ground (arith, h, unbroken, e) in
              subst (IsKeyed view) is
                (record { domains = refl; tightest = tightest_of-IsTightest cand acc_r t len e })
        ]
      ]

-- More headroom, where no bound at all is the most.
abbrev pub Wider : Option ℤ → Option ℤ → Type 0
Wider a none = ⊥
Wider none (some b) = Unit
Wider (some a) (some b) = ltb_ℤ b a ≡ true

-- Fewer domains; or as many, and more headroom; or as much, and indices that are not greater.
abbrev pub Precedes : Ranked → Ranked → Type 0
Precedes a b =
    (a.domains < b.domains)
    ⊎ ((a.domains ≡ b.domains)
        × (Wider a.tightest b.tightest
            ⊎ ((a.tightest ≡ b.tightest) × (lex_lt b.cand a.cand ≡ false))))

tightest-level :
    (a b : Option ℤ) (lex : Bool)
    → (lt_tightest b a || (not (lt_tightest a b) && lex)) ≡ false
    → Wider a b ⊎ ((a ≡ b) × (lex ≡ false))
tightest-level none none lex h = inr (refl, ground arith)
tightest-level none (some b) lex h = inl tt
tightest-level (some a) none lex h = cc
tightest-level (some a) (some b) lex h = ground (arith, h)

pub Precedes-of_sorted : (a b : Ranked) → lt_ranked b a ≡ false → Precedes a b
Precedes-of_sorted a b h = elim (Bool-cases (ltb a.domains b.domains)) [
  | inl fewer ↦ inl (ground (arith, fewer))
  | inr more ↦
      let same : a.domains ≡ b.domains = ground (arith, h, more) in
      inr (
        same,
        tightest-level a.tightest b.tightest (lex_lt b.cand a.cand) (ground (arith, h, more)),
      )
]
