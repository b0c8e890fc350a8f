-- ===== src/Oracle/Delays/Pick.antt =====
-- partition_oracle.py: the partition that the oracle picks.
use mathlib.Core.List.{Memᴰ}
use orion_v.Prelude.{
  ℕ, ◌≤◌, ℤ, ◌≡◌, refl, ap, sym, subst, ◌∙◌, ◌⊎◌, inl, inr, List, [], ◌∷◌, false, Option, none,
  some, arith, All, length, any, ◌==◌, ◌||◌, Bool-cases,
}
use orion_v.Prelude.Order.{mem_of_all}
use orion_v.Prelude.Fail.{ok, Result-cases}
use orion_v.Prelude.Fraction.{Fraction}
use orion_v.Types.{SliceRequest}
use orion_v.Substrate.{SubstrateNetwork}
use orion_v.ChainOrder.{set_size}
use orion_v.Delay.{Scale, Delay, infinite, finite, exceeds}
use orion_v.Oracle.{View, Ranked, is_trivial, all_choices, exceeds_space, feasible_partitions}
use orion_v.Oracle.Feasible.{IsCandidate}
use orion_v.Oracle.Exact.{enumeration_iff, feasible_partitions-IsKeyed}
use orion_v.Oracle.Delays.{
  Best, lt_best, keep_less, offer, best_of, or_fallback, pick_of, judge, best_feasible_partition,
}

Delay-cases : (d : Delay) → (d ≡ infinite) ⊎ ((t : Fraction) × (d ≡ finite t))
Delay-cases infinite = inl refl
Delay-cases (finite t) = inr (t, refl)

-- Which of the two is kept, and that it has no more domains than either.
record IsKept (k : Best) (best : Option Best) (y : Best) : Type 0 where
  kept : keep_less k best ≡ some y
  which : (y ≡ k) ⊎ (best ≡ some y)
  at_most : y.domains ≤ k.domains
  at_most_best : (b : Best) → best ≡ some b → y.domains ≤ b.domains

keep_less-IsKept : (k : Best) (best : Option Best) → (y : Best) × IsKept k best y
unfolding keep_less lt_best
keep_less-IsKept k none = (
  k,
  record {
    kept = refl;
    which = inl refl;
    at_most = omega arith;
    at_most_best = λ b h. absurd (ground arith);
  },
)
keep_less-IsKept k (some b) = elim (Bool-cases (lt_best k b)) [
  | inl less ↦
      let le : k.domains ≤ b.domains = ground (arith, less) in
      (
        k,
        record {
          kept = rw (keep_less, less) refl;
          which = inl refl;
          at_most = omega arith;
          at_most_best = λ b' h.
              let is : b ≡ b' = ground arith in subst (λ (q : Best). k.domains ≤ q.domains) is le;
        },
      )
  | inr more ↦
      let le : b.domains ≤ k.domains = ground (arith, more) in
      (
        b,
        record {
          kept = rw (keep_less, more) refl;
          which = inr refl;
          at_most = le;
          at_most_best = λ b' h.
              let is : b ≡ b' = ground arith in
              subst (λ (q : Best). b.domains ≤ q.domains) is (omega arith);
        },
      )
]

module _ (predicted : List ℕ → Delay) (budget : ℤ) where
  -- The predicted delay is within the budget.
  abbrev pub Within : List ℕ → Type 0
  Within cand = (d : Fraction) × (predicted cand ≡ finite d) × (exceeds (finite d) budget ≡ false)

  abbrev entry : Ranked → Fraction → Best
  entry r d = record { domains = r.domains; delay = d; cand = r.cand }

  -- The partition is skipped, or it is weighed against the best so far.
  offer-cases :
      (r : Ranked) (best : Option Best)
      → ((offer predicted budget r best ≡ best) × (Within r.cand → ⊥))
        ⊎ ((d : Fraction) × (predicted r.cand ≡ finite d)
            × (exceeds (finite d) budget ≡ false)
            × (offer predicted budget r best ≡ keep_less (entry r d) best))
  unfolding offer
  offer-cases r best = elim (Delay-cases (predicted r.cand)) [
    | inl e ↦ inl (rw (offer, e) refl, λ (d, f, g). cc (e, f))
    | inr (d, e) ↦ elim (Bool-cases (exceeds (finite d) budget)) [
      | inl over ↦ inl (
        rw (offer, e, over) refl,
        λ (d', f, g). let same : finite d ≡ finite d' = sym e ∙ f in cc (over, g, same),
      )
      | inr within ↦ inr (d, e, within, rw (offer, e, within) refl)
    ]
  ]

  record Improves (best : Option Best) (rs : List Ranked) (x : Best) : Type 0 where
    origin :
        (best ≡ some x)
        ⊎ ((r : Ranked) × Memᴰ r rs × (r.cand ≡ x.cand) × (r.domains ≡ x.domains) × Within x.cand)
    least : All (λ r. Within r.cand → x.domains ≤ r.domains) rs
    below : (b : Best) → best ≡ some b → x.domains ≤ b.domains

  best_of-Improves :
      (rs : List Ranked) (best : Option Best) (x : Best)
      → best_of predicted budget rs best ≡ some x
      → Improves best rs x
  unfolding best_of
  best_of-Improves [] best x h = record {
    origin = inl h;
    least = tt;
    below = λ b k.
        let is : x ≡ b = ground arith in
        subst (λ (q : Best). x.domains ≤ q.domains) is (omega arith);
  }
  best_of-Improves (r ∷ rs) best x h =
      let i = best_of-Improves rs (offer predicted budget r best) x h in
      elim (offer-cases r best) [
        | inl (same, out) ↦ record {
          origin = elim i.origin [
            | inl k ↦ inl (sym same ∙ k)
            | inr (q, m, a, b, w) ↦ inr (q, Memᴰ.tail m, a, b, w)
          ];
          least = (λ w. absurd (out w), i.least);
          below = λ b k. i.below b (same ∙ k);
        }
        | inr (d, e, within, weighed) ↦
            let (y, l) = keep_less-IsKept (entry r d) best in
            let now = weighed ∙ l.kept in
            let y_le = i.below y now in
            record {
              origin = elim i.origin [
                | inr (q, m, a, b, w) ↦ inr (q, Memᴰ.tail m, a, b, w)
                | inl k ↦
                    let is : y ≡ x = ground (arith, now, k) in
                    elim l.which [
                      | inr before ↦ inl (before ∙ ap some is)
                      | inl new ↦
                          let new' : entry r d ≡ x = sym new ∙ is in
                          inr (
                            r,
                            Memᴰ.head refl,
                            ap (λ (b : Best). b.cand) new',
                            ap (λ (b : Best). b.domains) new',
                            subst Within (ap (λ (b : Best). b.cand) new') (d, e, within),
                          )
                    ]
              ];
              least = (λ w. omega (arith, y_le, l.at_most), i.least);
              below = λ b k. omega (arith, y_le, l.at_most_best b k);
            }
      ]

  best_of-none :
      (rs : List Ranked) (best : Option Best)
      → best_of predicted budget rs best ≡ none
      → (best ≡ none) × All (λ r. Within r.cand → ⊥) rs
  unfolding best_of
  best_of-none [] best h = (h, tt)
  best_of-none (r ∷ rs) best h =
      let (now, later) = best_of-none rs (offer predicted budget r best) h in
      elim (offer-cases r best) [
        | inl (same, out) ↦ (sym same ∙ now, (out, later))
        | inr (d, e, within, weighed) ↦
            let (y, l) = keep_less-IsKept (entry r d) best in absurd (cc (weighed, l.kept, now))
      ]

module _ (scale : Scale) (view : View) (s : SubstrateNetwork) (slice_req : SliceRequest) where
  abbrev pub InTime : List ℕ → Type 0
  InTime = Within (judge scale view (s, slice_req)).0 (judge scale view (s, slice_req)).1

  -- What the oracle's answer says.
  abbrev pub IsPick : Option (List ℕ) → Type 0
  IsPick none = (cand : List ℕ) → IsCandidate view cand → ⊥
  IsPick (some c) =
      IsCandidate view c
      × ((cand : List ℕ)
          → IsCandidate view cand
          → InTime cand
          → InTime c × (set_size c ≤ set_size cand))

  pick_of-IsPick :
      (out : List Ranked)
      → ((r : Ranked) → Memᴰ r out → IsCandidate view r.cand)
      → ((cand : List ℕ) → IsCandidate view cand → (r : Ranked) × Memᴰ r out × (r.cand ≡ cand))
      → ((r : Ranked) → Memᴰ r out → r.domains ≡ set_size r.cand)
      → IsPick (pick_of (some (judge scale view (s, slice_req))) out)
  unfolding pick_of
  pick_of-IsPick [] sound complete sizes =
      λ cand x. let (r, m, same) = complete cand x in elim m [ ]
  pick_of-IsPick (r ∷ rs) sound complete sizes =
      by_best (best_of predicted budget (r ∷ rs) none) refl
    where
      predicted : List ℕ → Delay
      predicted = (judge scale view (s, slice_req)).0

      budget : ℤ
      budget = (judge scale view (s, slice_req)).1

      by_best :
          (b : Option Best)
          → best_of predicted budget (r ∷ rs) none ≡ b
          → IsPick (some (or_fallback b r.cand))
      by_best none e =
          let (_, out) = best_of-none predicted budget (r ∷ rs) none e in
          (
            sound r (Memᴰ.head refl),
            λ cand x w.
                let (q, m, same) = complete cand x in
                absurd (
                  mem_of_all (λ (t : Ranked). InTime t.cand → ⊥) q (r ∷ rs) m out
                    (subst InTime (sym same) w)),
          )
      by_best (some x) e =
          let i = best_of-Improves predicted budget (r ∷ rs) none x e in
          elim i.origin [
            | inl k ↦ absurd (ground arith)
            | inr (q, m, same, size, within) ↦
                let x_size : x.domains ≡ set_size x.cand =
                  sym size ∙ sizes q m ∙ ap set_size same in
                (
                  subst (IsCandidate view) same (sound q m),
                  λ cand y w.
                      let (p, n, is) = complete cand y in
                      let le =
                        mem_of_all (λ (t : Ranked). InTime t.cand → x.domains ≤ t.domains) p
                          (r ∷ rs) n i.least (subst InTime (sym is) w) in
                      let p_size : p.domains ≡ set_size cand = sizes p n ∙ ap set_size is in
                      (within, omega (arith, le, x_size, p_size)),
                )
          ]

module _ (max_partitions : ℕ) (scale : Scale) (view : View) (s : SubstrateNetwork)
    (slice_req : SliceRequest) where
  -- The oracle decides whether a chain can be partitioned at all, and picks well. For a chain with
  -- VNFs, when the search is not refused for its size: no partition is returned only if there is no
  -- feasible one; a partition that is returned is feasible; and if some feasible partition has its
  -- predicted delay within the budget, then so has the one returned, and it uses no more domains than
  -- any such partition.
  pub best_feasible_partition-IsPick :
      (answer : Option (List ℕ))
      → (length view.cpu == 0) ≡ false
      → best_feasible_partition max_partitions scale view (some (s, slice_req)) ≡ ok answer
      → IsPick scale view s slice_req answer
  unfolding best_feasible_partition feasible_partitions
  best_feasible_partition-IsPick answer some_vnf h =
      elim (Bool-cases (is_trivial view || any (λ c. length c == 0) (all_choices view))) [
        | inl early ↦
            let is : none ≡ answer = ground (arith, h, early) in
            let e : feasible_partitions max_partitions view ≡ ok [] = ground (arith, early) in
            let (_, exact) = enumeration_iff max_partitions view [] some_vnf e in
            subst (IsPick scale view s slice_req) is
              (λ cand x. let (r, m, same) = (exact cand).1 x in elim m [ ])
        | inr alive ↦ elim (Bool-cases (exceeds_space max_partitions 1 (all_choices view))) [
          | inl big ↦ absurd (ground (arith, h, alive, big))
          | inr small ↦ elim (Result-cases (feasible_partitions max_partitions view)) [
            | inr (x, e) ↦ absurd (ground (arith, h, alive, small, e))
            | inl (out, e) ↦
                let (_, exact) = enumeration_iff max_partitions view out some_vnf e in
                let is : pick_of (some (judge scale view (s, slice_req))) out ≡ answer =
                  ground (arith, h, alive, small, e) in
                subst (IsPick scale view s slice_req) is (
                  pick_of-IsPick scale view s slice_req out (λ r m. (exact r.cand).0 (r, m, refl))
                    (λ cand x. (exact cand).1 x)
                    (λ r m. (feasible_partitions-IsKeyed max_partitions view out e r m).domains))
          ]
        ]
      ]
