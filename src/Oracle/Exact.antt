-- ===== src/Oracle/Exact.antt =====
-- partition_oracle.py: the enumeration is sound, complete and in order.
use mathlib.Core.List.{Memᴰ}
use orion_v.Prelude.{
  ℕ, zero, suc, ◌≡◌, refl, sym, subst, ◌↔◌, inl, inr, List, [], ◌∷◌, true, false, ◌||◌, arith,
  length, any, All, ◌==◌, Bool-cases,
}
use orion_v.Prelude.Dict.{nat_eq}
use orion_v.Prelude.Fail.{ok}
use orion_v.Prelude.Sort.{sort, mem-sort}
use orion_v.Prelude.Order.{InOrder, sort-InOrder, sort-mem, InOrder-map, all_of_mem}
use orion_v.Admissibility.{product, range_from, lex_lt}
use orion_v.Admissibility.Product.{mem_filter, mem_range_from, length-ne_zero}
use orion_v.Oracle.{
  View, choices_from, all_choices, exceeds_space, Ranked, lt_ranked, rank_all, is_trivial,
  feasible_partitions,
}
use orion_v.Oracle.Feasible.{
  Permitted, IsCandidate, product_origin, mem-product, rank_all_origin, mem-rank_all,
  ranked_of-IsCandidate, ranked_of-some,
}
use orion_v.Oracle.Headroom.{IsKeyed, ranked_of-IsKeyed, Precedes, Precedes-of_sorted}

-- The order of the entries.
lex_lt_asym : (a b : List ℕ) → lex_lt a b ≡ true → lex_lt b a ≡ false
lex_lt_asym [] [] h = refl
lex_lt_asym [] (y ∷ b) h = refl
lex_lt_asym (x ∷ a) [] h = cc
lex_lt_asym (x ∷ a) (y ∷ b) h = ground (arith, lex_lt_asym a b)

lex_lt_not_trans : (a b c : List ℕ) → lex_lt b a ≡ false → lex_lt c b ≡ false → lex_lt c a ≡ false
lex_lt_not_trans [] b [] h k = refl
lex_lt_not_trans [] [] (z ∷ c) h k = refl
lex_lt_not_trans [] (y ∷ b) (z ∷ c) h k = refl
lex_lt_not_trans (x ∷ a) [] c h k = cc
lex_lt_not_trans (x ∷ a) (y ∷ b) [] h k = cc
lex_lt_not_trans (x ∷ a) (y ∷ b) (z ∷ c) h k = ground (arith, lex_lt_not_trans a b c)

lt_ranked_asym : (a b : Ranked) → lt_ranked a b ≡ true → lt_ranked b a ≡ false
lt_ranked_asym a b h = ground (arith, lex_lt_asym a.cand b.cand)

lt_ranked_not_trans :
    (a b c : Ranked) → lt_ranked b a ≡ false → lt_ranked c b ≡ false → lt_ranked c a ≡ false
lt_ranked_not_trans a b c h k = ground (arith, lex_lt_not_trans a.cand b.cand c.cand)

module _ (view : View) where
  -- A candidate has a choice at every position.
  choices_inhabited :
      (n k : ℕ) (idx : List ℕ)
      → length idx ≡ n
      → Permitted view k idx
      → any (λ c. length c == 0) (choices_from view k n) ≡ false
  choices_inhabited zero k idx len p = refl
  choices_inhabited (suc n) k [] len p = absurd (omega (arith, len))
  choices_inhabited (suc n) k (m ∷ ms) len p =
      let there =
        mem_filter (view.admissible k) m (range_from 0 (length view.summaries))
          (mem_range_from 0 (length view.summaries) m (omega arith) (omega (arith, p.0.0))) p.0.1 in
      rw (length-ne_zero m _ there) (choices_inhabited n (suc k) ms (omega (arith, len)) p.1)

  abbrev enumerated : List Ranked
  enumerated = sort lt_ranked (rank_all view (product (all_choices view)))

  enumerated-IsCandidate : (r : Ranked) → Memᴰ r enumerated → IsCandidate view r.cand
  enumerated-IsCandidate r m =
      let cands = product (all_choices view) in
      let (c, a, e) = rank_all_origin view r cands (mem-sort lt_ranked r (rank_all view cands) m) in
      let (len, p) = product_origin view (length view.cpu) 0 c a in
      let (x, same) = ranked_of-IsCandidate view c r len p e in
      subst (IsCandidate view) (sym same) x

  enumerated-IsKeyed : (r : Ranked) → Memᴰ r enumerated → IsKeyed view r
  enumerated-IsKeyed r m =
      let cands = product (all_choices view) in
      let (c, a, e) = rank_all_origin view r cands (mem-sort lt_ranked r (rank_all view cands) m) in
      let (len, p) = product_origin view (length view.cpu) 0 c a in ranked_of-IsKeyed view c r len e

  enumerated_all :
      (cand : List ℕ) → IsCandidate view cand → (r : Ranked) × Memᴰ r enumerated × (r.cand ≡ cand)
  enumerated_all cand x =
      let cands = product (all_choices view) in
      let (r, e, same) = ranked_of-some view cand x in
      (
        r,
        sort-mem lt_ranked r (rank_all view cands) (
            mem-rank_all view r cand cands
              (mem-product view (length view.cpu) 0 cand x.fits x.permitted) e),
        same,
      )

  nothing :
      (out : List Ranked)
      → [] ≡ out
      → ((cand : List ℕ) → IsCandidate view cand → ⊥)
      → InOrder (λ a b. lt_ranked b a ≡ false) out
        × ((cand : List ℕ) → ((r : Ranked) × Memᴰ r out × (r.cand ≡ cand)) ↔ IsCandidate view cand)
  nothing [] e none_is = (tt, λ cand. (λ (r, m, same). elim m [ ], λ x. absurd (none_is cand x)))
  nothing (r ∷ out) e none_is = cc

  no_domain :
      (cand : List ℕ)
      → (length view.cpu == 0) ≡ false
      → (length view.summaries == 0) ≡ true
      → IsCandidate view cand
      → ⊥
  no_domain [] some_vnf h x = let len = x.fits in absurd (ground (arith, len))
  no_domain (m ∷ ms) some_vnf h x = let p = x.permitted.0.0 in absurd (ground (arith, p))

module _ (max_partitions : ℕ) (view : View) where
  pub enumeration_iff :
      (out : List Ranked)
      → (length view.cpu == 0) ≡ false
      → feasible_partitions max_partitions view ≡ ok out
      → InOrder (λ a b. lt_ranked b a ≡ false) out
        × ((cand : List ℕ) → ((r : Ranked) × Memᴰ r out × (r.cand ≡ cand)) ↔ IsCandidate view cand)
  unfolding feasible_partitions
  enumeration_iff out some_vnf h = elim (Bool-cases (length view.summaries == 0)) [
    | inl none_is ↦
        nothing view out (ground (arith, h, none_is))
          (λ cand x. no_domain view cand some_vnf none_is x)
    | inr some_domain ↦ elim (Bool-cases (any (λ c. length c == 0) (all_choices view))) [
      | inl dead ↦
          nothing view out (ground (arith, h, some_vnf, some_domain, dead)) (λ cand x.
            cc (dead, choices_inhabited view (length view.cpu) 0 cand x.fits x.permitted))
      | inr alive ↦ elim (Bool-cases (exceeds_space max_partitions 1 (all_choices view))) [
        | inl big ↦ absurd (ground (arith, h, some_vnf, some_domain, alive, big))
        | inr small ↦
            let is : enumerated view ≡ out =
              ground (arith, h, some_vnf, some_domain, alive, small) in
            subst
              (λ (o : List Ranked).
                InOrder (λ a b. lt_ranked b a ≡ false) o
                × ((cand : List ℕ)
                    → ((r : Ranked) × Memᴰ r o × (r.cand ≡ cand)) ↔ IsCandidate view cand))
              is
              (
                sort-InOrder lt_ranked (λ a b. lt_ranked b a ≡ false) lt_ranked_asym (λ a b k. k)
                    lt_ranked_not_trans (rank_all view (product (all_choices view))),
                λ cand. (
                  λ (r, m, same). subst (IsCandidate view) same (enumerated-IsCandidate view r m),
                  λ x. enumerated_all view cand x,
                ),
              )
      ]
    ]
  ]

  pub feasible_partitions-IsKeyed :
      (out : List Ranked)
      → feasible_partitions max_partitions view ≡ ok out
      → (r : Ranked) → Memᴰ r out
      → IsKeyed view r
  unfolding feasible_partitions
  feasible_partitions-IsKeyed out h r m =
      elim (Bool-cases (is_trivial view || any (λ c. length c == 0) (all_choices view))) [
        | inl early ↦
            let is : [] ≡ out = ground (arith, h, early) in elim (subst (Memᴰ r) (sym is) m) [ ]
        | inr alive ↦ elim (Bool-cases (exceeds_space max_partitions 1 (all_choices view))) [
          | inl big ↦ absurd (ground (arith, h, alive, big))
          | inr small ↦
              let is : enumerated view ≡ out = ground (arith, h, alive, small) in
              enumerated-IsKeyed view r (subst (Memᴰ r) (sym is) m)
        ]
      ]

  -- The enumeration of the oracle is exact and in order. For a chain with VNFs, when the search is not
  -- refused for its size, the partitions returned are the contiguous ones whose domains are admissible
  -- for their VNFs and have the CPU and RAM for all that is put there, all of these and no others. Each
  -- entry comes before the later ones by fewest domains, then greatest headroom, then the indices;
  -- where the number of domains of an entry is that of its partition, and its headroom is the least,
  -- over the domains in use, of the CPU residual less all the CPU that the partition puts there.
  pub feasible_partitions_iff :
      (out : List Ranked)
      → (length view.cpu == 0) ≡ false
      → feasible_partitions max_partitions view ≡ ok out
      → InOrder Precedes out
        × ((cand : List ℕ) → ((r : Ranked) × Memᴰ r out × (r.cand ≡ cand)) ↔ IsCandidate view cand)
        × All (IsKeyed view) out
  feasible_partitions_iff out some_vnf h =
      let (order, exact) = enumeration_iff out some_vnf h in
      (
        InOrder-map {0, 0, 0, 0} (λ a b. lt_ranked b a ≡ false) Precedes (λ r. Unit)
            (λ a b k p q. Precedes-of_sorted a b k) out order
            (all_of_mem {0, 0} (λ r. Unit) out (λ r m. tt)),
        exact,
        all_of_mem (IsKeyed view) out (feasible_partitions-IsKeyed out h),
      )
