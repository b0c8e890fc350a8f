-- ===== src/Oracle/Feasible.antt =====
-- partition_oracle.py: the feasible partitions, as the code tells them.
use mathlib.Core.List.{Memᴰ}
use orion_v.Prelude.{
  ℕ, zero, suc, ◌<◌, ℤ, pos, ◌-ℤ◌, ◌≤ℤ◌, ltb_ℤ, ◌≡◌, refl, ap, sym, subst, ◌∙◌, inl, inr, List, [],
  ◌∷◌, true, false, ◌||◌, Option, none, some, arith, length, get_elem?, filter, any, ◌==◌,
  Bool-cases, Option-cases, zero-add_ℤ,
}
use orion_v.Prelude.Dict.{Dict, nat_eq, get_or}
use orion_v.Prelude.Keys.{Each}
use orion_v.Prelude.Totals.{is_for, total, charges-get, charges-Each, Each-charges}
use orion_v.Types.Mdo.{DomainSummary}
use orion_v.ChainOrder.{set_size}
use orion_v.Admissibility.{product, range_from}
use orion_v.Admissibility.Product.{
  mem_prepend_all, prepend_all_origin, mem_filter, filter_origin, mem_range_from, range_from_bound,
}
use orion_v.Oracle.{
  View, contiguous, choices_from, seats, index_of, amount_of, loads_by, lower, tightest_of, Ranked,
  ranked_of, rank_all,
}

-- The domains of a candidate are domains of the view, each admissible for its VNF.
abbrev pub Permitted : View → ℕ → List ℕ → Type 0
Permitted view k [] = Unit
Permitted view k (m ∷ ms) =
    ((m < length view.summaries) × (view.admissible k m ≡ true)) × Permitted view (suc k) ms

module _ (view : View) where
  pub product_origin :
      (n k : ℕ) (idx : List ℕ)
      → Memᴰ idx (product (choices_from view k n))
      → (length idx ≡ n) × Permitted view k idx
  product_origin zero k idx (Memᴰ.head e) = rw e (refl, tt)
  product_origin zero k idx (Memᴰ.tail m) = elim m [ ]
  product_origin (suc n) k idx m =
      let c = filter (view.admissible k) (range_from 0 (length view.summaries)) in
      let (x, r, e, a, b) = prepend_all_origin idx c (product (choices_from view (suc k) n)) m in
      let (inside, adm) =
        filter_origin (view.admissible k) x (range_from 0 (length view.summaries)) a in
      let (len, rest) = product_origin n (suc k) r b in
      rw e (
        omega (arith, len),
        ((omega (arith, range_from_bound 0 (length view.summaries) x inside), adm), rest),
      )

  pub mem-product :
      (n k : ℕ) (idx : List ℕ)
      → length idx ≡ n
      → Permitted view k idx
      → Memᴰ idx (product (choices_from view k n))
  mem-product zero k [] len p = Memᴰ.head refl
  mem-product zero k (m ∷ ms) len p = absurd (omega (arith, len))
  mem-product (suc n) k [] len p = absurd (omega (arith, len))
  mem-product (suc n) k (m ∷ ms) len p =
      mem_prepend_all m _ ms _
        (mem_filter (view.admissible k) m _
          (mem_range_from 0 (length view.summaries) m (omega arith) (omega (arith, p.0.0))) p.0.1)
        (mem-product n (suc k) ms (omega (arith, len)) p.1)

  pub rank_all_origin :
      (r : Ranked) (cands : List (List ℕ))
      → Memᴰ r (rank_all view cands)
      → (c : List ℕ) × Memᴰ c cands × (ranked_of view c ≡ some r)
  unfolding rank_all
  rank_all_origin r [] m = elim m [ ]
  rank_all_origin r (c ∷ cs) m = elim (Option-cases (ranked_of view c)) [
    | inl e ↦ let (d, a, b) = rank_all_origin r cs (rw (rank_all, e) at m) in (d, Memᴰ.tail a, b)
    | inr (q, e) ↦
        let m' : Memᴰ r (q ∷ rank_all view cs) = rw (rank_all, e) at m in
        elim m' [
          | Memᴰ.head h ↦ (c, Memᴰ.head refl, e ∙ ap some (sym h))
          | Memᴰ.tail t ↦ let (d, a, b) = rank_all_origin r cs t in (d, Memᴰ.tail a, b)
        ]
  ]

  pub mem-rank_all :
      (r : Ranked) (c : List ℕ) (cands : List (List ℕ))
      → Memᴰ c cands
      → ranked_of view c ≡ some r
      → Memᴰ r (rank_all view cands)
  unfolding rank_all
  mem-rank_all r c [] m e = elim m [ ]
  mem-rank_all r c (d ∷ ds) (Memᴰ.head h) e =
      let e' : ranked_of view d ≡ some r = sym (ap (ranked_of view) h) ∙ e in
      rw (rank_all, e') (Memᴰ.head refl)
  mem-rank_all r c (d ∷ ds) (Memᴰ.tail m) e = elim (Option-cases (ranked_of view d)) [
    | inl e' ↦ rw (rank_all, e') (mem-rank_all r c ds m e)
    | inr (q, e') ↦ rw (rank_all, e') (Memᴰ.tail (mem-rank_all r c ds m e))
  ]

-- A domain has the CPU and RAM asked of it.
pub record HasRoom (summaries : List DomainSummary) (m : ℕ) (cpu ram : ℤ) : Type 0 where
  pub domain : DomainSummary
  pub found : get_elem? summaries m ≡ some domain
  pub cpu_fits : cpu ≤ℤ domain.cpu_residual
  pub ram_fits : ram ≤ℤ domain.ram_residual

module _ (summaries : List DomainSummary) (acc_r : Dict ℕ ℤ) where
  tightest_of-Each :
      (acc_c : Dict ℕ ℤ) (t : Option ℤ) {u : Option ℤ}
      → tightest_of summaries acc_r acc_c t ≡ some u
      → Each (λ m c. HasRoom summaries m c (get_or m (pos 0) acc_r)) acc_c
  unfolding tightest_of
  tightest_of-Each [] t h = tt
  tightest_of-Each ((m, c) ∷ acc_c) t {u} h = elim (Option-cases (get_elem? summaries m)) [
    | inl e ↦ absurd (ground (arith, h, e))
    | inr (d, e) ↦
        elim (Bool-cases
          (ltb_ℤ d.cpu_residual c || ltb_ℤ d.ram_residual (get_or m (pos 0) acc_r))) [
            | inl small ↦ absurd (cc (h, e, small))
            | inr fits ↦
                let rest : tightest_of summaries acc_r acc_c (lower t (d.cpu_residual -ℤ c))
                    ≡ some u =
                  cc (h, e, fits) in
                (
                  record {
                    domain = d;
                    found = e;
                    cpu_fits = ground (arith, fits);
                    ram_fits = ground (arith, fits);
                  },
                  tightest_of-Each acc_c (lower t (d.cpu_residual -ℤ c)) {u = u} rest,
                )
          ]
  ]

  tightest_of-some :
      (acc_c : Dict ℕ ℤ) (t : Option ℤ)
      → Each (λ m c. HasRoom summaries m c (get_or m (pos 0) acc_r)) acc_c
      → (u : Option ℤ) × (tightest_of summaries acc_r acc_c t ≡ some u)
  unfolding tightest_of
  tightest_of-some [] t h = (t, refl)
  tightest_of-some ((m, c) ∷ acc_c) t h =
      let d = h.0.domain in
      let cpu_fits = h.0.cpu_fits in
      let ram_fits = h.0.ram_fits in
      let fits : (ltb_ℤ d.cpu_residual c || ltb_ℤ d.ram_residual (get_or m (pos 0) acc_r)) ≡ false =
        ground (arith, cpu_fits, ram_fits) in
      let (u, e) = tightest_of-some acc_c (lower t (d.cpu_residual -ℤ c)) h.1 in
      (u, rw (tightest_of, h.0.found, fits) e)

-- The items of a candidate, with their demands.
pub any-seats :
    (m : ℕ) (cand : List ℕ) (xs : List ℤ)
    → length cand ≡ length xs
    → any (is_for index_of m) (seats cand xs) ≡ any (λ j. m == j) cand
any-seats m [] xs len = refl
any-seats m (j ∷ js) [] len = absurd (omega (arith, len))
any-seats m (j ∷ js) (x ∷ xs) len = ap (λ b. m == j || b) (any-seats m js xs (omega (arith, len)))

abbrev pub load : ℕ → List ℕ → List ℤ → ℤ
load m cand xs = total index_of amount_of m (seats cand xs)

loads_by-get :
    (m : ℕ) (cand : List ℕ) (xs : List ℤ) → get_or m (pos 0) (loads_by cand xs) ≡ load m cand xs
loads_by-get m cand xs =
    charges-get index_of amount_of m (seats cand xs) [] ∙ zero-add_ℤ (load m cand xs)

-- A partition of the chain that is admissible and contiguous, each of whose domains has the CPU and the
-- RAM for all that is put there.
pub record IsCandidate (view : View) (cand : List ℕ) : Type 0 where
  pub fits : length cand ≡ length view.cpu
  pub permitted : Permitted view 0 cand
  pub unbroken : contiguous cand ≡ true
  pub room :
      (m : ℕ)
      → any (λ j. m == j) cand ≡ true
      → HasRoom view.summaries m (load m cand view.cpu) (load m cand view.ram)

module _ (view : View) where
  pub ranked_of-IsCandidate :
      (cand : List ℕ) (r : Ranked)
      → length cand ≡ length view.cpu
      → Permitted view 0 cand
      → ranked_of view cand ≡ some r
      → IsCandidate view cand × (r.cand ≡ cand)
  unfolding ranked_of
  ranked_of-IsCandidate cand r len p h =
      let acc_r = loads_by cand view.ram in
      let acc_c = loads_by cand view.cpu in
      elim (Bool-cases (contiguous cand)) [
        | inr broken ↦ absurd (cc (h, broken))
        | inl unbroken ↦ elim (Option-cases (tightest_of view.summaries acc_r acc_c none)) [
          | inl e ↦ absurd (cc (h, unbroken, e))
          | inr (t, e) ↦
              let each = tightest_of-Each view.summaries acc_r acc_c none {u = t} e in
              (
                record {
                  fits = len;
                  permitted = p;
                  unbroken = unbroken;
                  room = λ m occurs.
                      subst (HasRoom view.summaries m (load m cand view.cpu))
                        (loads_by-get m cand view.ram)
                        (charges-Each index_of amount_of
                          (λ k c. HasRoom view.summaries k c (get_or k (pos 0) acc_r)) m
                          (seats cand view.cpu) (any-seats m cand view.cpu len ∙ occurs) each);
                },
                cc (h, unbroken, e),
              )
        ]
      ]

  pub ranked_of-some :
      (cand : List ℕ)
      → IsCandidate view cand
      → (r : Ranked) × (ranked_of view cand ≡ some r) × (r.cand ≡ cand)
  unfolding ranked_of
  ranked_of-some cand x =
      let acc_r = loads_by cand view.ram in
      let acc_c = loads_by cand view.cpu in
      let (t, e) = tightest_of-some view.summaries acc_r acc_c none (
        Each-charges index_of amount_of (λ k c. HasRoom view.summaries k c (get_or k (pos 0) acc_r))
          (seats cand view.cpu)
          (λ m occurs.
            subst (HasRoom view.summaries m (load m cand view.cpu))
              (sym (loads_by-get m cand view.ram))
              (x.room m (sym (any-seats m cand view.cpu x.fits) ∙ occurs)))) in
      (
        record { domains = set_size cand; tightest = t; cand = cand },
        rw (ranked_of, x.unbroken, e) refl,
        refl,
      )
