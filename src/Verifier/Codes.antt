-- ===== src/Verifier/Codes.antt =====
-- verifier.py: what each code of a verdict says.
use orion_v.Prelude.{
  ℕ, zero, suc, ◌*◌, ◌<◌, ◌≤◌, ℤ, pos, negsuc, ◌*ℤ◌, ◌≤ℤ◌, ◌<ℤ◌, ltb_ℤ, ◌≡◌, refl, sym, ◌∙◌, ◌↔◌,
  inl, inr, List, [], ◌∷◌, Bool, true, false, ◌||◌, Option, none, some, arith, All, Bool-cases,
}
use orion_v.Prelude.Dict.{Dict, nat_eq, pair_eq, get_or, values}
use orion_v.Prelude.Fraction.{Fraction, whole, lt_fraction}
use orion_v.Types.{Ident, FlowKey, Node, Link, FlowEdge}
use orion_v.Verifier.{
  worse, overflowed, check_node_capacities, check_link_capacities, min_ratio, flow_ratios,
  ratios_of, worst_ratio_of,
}

worse_iff :
    (r : ℤ) (w : Option ℤ)
    → (overflowed (worse r w) ≡ false) ↔ ((overflowed w ≡ false) × (pos 0 ≤ℤ r))
worse_iff r none = ground arith
worse_iff r (some w) = ground arith

pub check_node_capacities_iff :
    (ns : List Node) (cpu ram : Option ℤ)
    → ((overflowed (check_node_capacities ns cpu ram).0 ≡ false)
        ↔ ((overflowed cpu ≡ false) × All (λ n. pos 0 ≤ℤ n.cpu_residual) ns))
      × ((overflowed (check_node_capacities ns cpu ram).1 ≡ false)
          ↔ ((overflowed ram ≡ false) × All (λ n. pos 0 ≤ℤ n.ram_residual) ns))
unfolding check_node_capacities
check_node_capacities_iff [] cpu ram = ((λ h. (h, tt), λ h. h.0), (λ h. (h, tt), λ h. h.0))
check_node_capacities_iff (n ∷ ns) cpu ram =
    let (ihc, ihr) =
      check_node_capacities_iff ns (worse n.cpu_residual cpu) (worse n.ram_residual ram) in
    let c = worse_iff n.cpu_residual cpu in
    let r = worse_iff n.ram_residual ram in
    (
      (
        λ h. let (a, rest) = ihc.0 h in let (b, fit) = c.0 a in (b, (fit, rest)),
        λ h. ihc.1 (c.1 (h.0, h.1.0), h.1.1),
      ),
      (
        λ h. let (a, rest) = ihr.0 h in let (b, fit) = r.0 a in (b, (fit, rest)),
        λ h. ihr.1 (r.1 (h.0, h.1.0), h.1.1),
      ),
    )

pub check_link_capacities_iff :
    (ls : List Link) (bw : Option ℤ)
    → (overflowed (check_link_capacities ls bw) ≡ false)
      ↔ ((overflowed bw ≡ false) × All (λ l. pos 0 ≤ℤ l.bw_residual) ls)
unfolding check_link_capacities
check_link_capacities_iff [] bw = (λ h. (h, tt), λ h. h.0)
check_link_capacities_iff (l ∷ ls) bw =
    let ih = check_link_capacities_iff ls (worse l.bw_residual bw) in
    let c = worse_iff l.bw_residual bw in
    (
      λ h. let (a, rest) = ih.0 h in let (b, fit) = c.0 a in (b, (fit, rest)),
      λ h. ih.1 (c.1 (h.0, h.1.0), h.1.1),
    )

-- The floor of the throughput. A ratio is below 1.0, or the least one so far is.
abbrev pub below_one : Option Fraction → Bool
below_one none = false
below_one (some w) = lt_fraction w (whole (pos 1))

abbrev HasDen : Option Fraction → Type 0
HasDen none = Unit
HasDen (some w) = 0 < w.den

below_trans : (a b c d : ℕ) → 0 < b → a * d ≤ c * b → c < d → a < b
below_trans a b c d p h k = grind arith

lt_one : (r : Fraction) → lt_fraction r (whole (pos 1)) ≡ ltb_ℤ r.num (pos r.den)
unfolding lt_fraction ◌*ℤ◌
lt_one r = lemma r.num r.den
  where
    lemma : (n : ℤ) (d : ℕ) → ltb_ℤ (n *ℤ pos 1) (pos 1 *ℤ pos d) ≡ ltb_ℤ n (pos d)
    lemma (pos n) d = ground arith
    lemma (negsuc n) d = ground arith

-- n/d ≤ m/e < 1
chain :
    (n m : ℤ) (d e : ℕ)
    → 0 < d
    → ltb_ℤ (m *ℤ pos d) (n *ℤ pos e) ≡ false
    → ltb_ℤ m (pos e) ≡ true
    → ltb_ℤ n (pos d) ≡ true
unfolding ◌*ℤ◌
chain (pos n) (pos m) d e p h k =
    let less : n < d = below_trans n d m e p (ground arith) (ground arith) in ground arith
chain (pos n) (negsuc m) d e p h k = grind arith
chain (negsuc n) m d e p h k = ground arith

opened : (r w : Fraction) → ltb_ℤ (r.num *ℤ pos w.den) (w.num *ℤ pos r.den) ≡ lt_fraction r w
unfolding lt_fraction
opened r w = refl

flip : (a b : ℤ) → ltb_ℤ a b ≡ true → ltb_ℤ b a ≡ false
flip a b h = ground arith

min_ratio-below :
    (w : Option Fraction) (r : Fraction)
    → HasDen w
    → 0 < r.den
    → below_one (min_ratio w r) ≡ (below_one w || below_one (some r))
min_ratio-below none r h k = refl
min_ratio-below (some w) r h k = elim (Bool-cases (lt_fraction r w)) [
  | inl less ↦ rw less (elim (Bool-cases (lt_fraction w (whole (pos 1)))) [
    | inr e ↦ rw e refl
    | inl e ↦ rw e (lt_one r ∙ chain r.num w.num r.den w.den k (asym less) (sym (lt_one w) ∙ e))
  ])
  | inr more ↦ rw more (elim (Bool-cases (lt_fraction r (whole (pos 1)))) [
    | inr e ↦ rw e (ground arith)
    | inl e ↦
        let w_below = chain w.num r.num w.den r.den h (still more) (sym (lt_one r) ∙ e) in
        let whole_w : lt_fraction w (whole (pos 1)) ≡ true = lt_one w ∙ w_below in
        rw (e, whole_w) refl
  ])
]
  where
    asym : lt_fraction r w ≡ true → ltb_ℤ (w.num *ℤ pos r.den) (r.num *ℤ pos w.den) ≡ false
    asym less = flip (r.num *ℤ pos w.den) (w.num *ℤ pos r.den) (opened r w ∙ less)

    still : lt_fraction r w ≡ false → ltb_ℤ (r.num *ℤ pos w.den) (w.num *ℤ pos r.den) ≡ false
    still more = opened r w ∙ more

-- Every link of the flow has been given at least the demand.
abbrev pub IsServed : Dict FlowKey (Dict Ident ℤ) → FlowEdge → Type 0
IsServed bw_allocations f =
    pos 0 <ℤ f.bandwidth_demand
    → All (λ bw. f.bandwidth_demand ≤ℤ bw)
        (values (get_or (f.source_vnf, f.target_vnf) [] bw_allocations))

min_ratio-HasDen :
    (w : Option Fraction) (r : Fraction) → HasDen w → 0 < r.den → HasDen (min_ratio w r)
min_ratio-HasDen none r h k = k
min_ratio-HasDen (some w) r h k = elim (Bool-cases (lt_fraction r w)) [
  | inl e ↦ rw e k
  | inr e ↦ rw e h
]

or-eq-false : (a b : Bool) → (a || b) ≡ false → (a ≡ false) × (b ≡ false)
or-eq-false a b k = ground arith

served_of :
    (d : ℕ) (bw : ℤ)
    → below_one (some (record { num = bw; den = suc d })) ≡ false
    → pos (suc d) ≤ℤ bw
served_of d bw k =
    let e : ltb_ℤ bw (pos (suc d)) ≡ false = sym (lt_one (record { num = bw; den = suc d })) ∙ k in
    ground arith

not_below :
    (d : ℕ) (bw : ℤ)
    → pos (suc d) ≤ℤ bw
    → below_one (some (record { num = bw; den = suc d })) ≡ false
not_below d bw k = lt_one (record { num = bw; den = suc d }) ∙ ground arith

flow_ratios_iff :
    (d : ℕ) (bws : List ℤ) (w : Option Fraction)
    → HasDen w
    → HasDen (flow_ratios (suc d) bws w)
      × ((below_one (flow_ratios (suc d) bws w) ≡ false)
          ↔ ((below_one w ≡ false) × All (λ bw. pos (suc d) ≤ℤ bw) bws))
unfolding flow_ratios
flow_ratios_iff d [] w h = (h, (λ k. (k, tt), λ k. k.0))
flow_ratios_iff d (bw ∷ bws) w h =
    let r : Fraction = record { num = bw; den = suc d } in
    let (den, ih) = flow_ratios_iff d bws (min_ratio w r) (min_ratio-HasDen w r h (omega arith)) in
    let e = min_ratio-below w r h (omega arith) in
    (
      den,
      (
        λ k.
            let (now, rest) = ih.0 k in
            let (before, here) = or-eq-false (below_one w) (below_one (some r)) (sym e ∙ now) in
            (before, (served_of d bw here, rest)),
        λ k. ih.1 (e ∙ rw (k.0, not_below d bw k.1.0) refl, k.1.1),
      ),
    )

ratios_of_iff :
    (d : ℤ) (per_link : Dict Ident ℤ) (w : Option Fraction)
    → HasDen w
    → HasDen (ratios_of d per_link w)
      × ((below_one (ratios_of d per_link w) ≡ false)
          ↔ ((below_one w ≡ false) × (pos 0 <ℤ d → All (λ bw. d ≤ℤ bw) (values per_link))))
ratios_of_iff (pos zero) per_link w h = (h, (λ k. (k, λ t. absurd (omega arith)), λ k. k.0))
ratios_of_iff (pos (suc d)) per_link w h =
    let (den, both) = flow_ratios_iff d (values per_link) w h in
    (den, (λ k. let (a, b) = both.0 k in (a, λ t. b), λ k. both.1 (k.0, k.1 (omega arith))))
ratios_of_iff (negsuc d) per_link w h = (h, (λ k. (k, λ t. absurd (omega arith)), λ k. k.0))

pub worst_ratio_of_iff :
    (bw_allocations : Dict FlowKey (Dict Ident ℤ)) (fs : List FlowEdge) (w : Option Fraction)
    → HasDen w
    → (below_one (worst_ratio_of bw_allocations fs w) ≡ false)
      ↔ ((below_one w ≡ false) × All (IsServed bw_allocations) fs)
unfolding worst_ratio_of
worst_ratio_of_iff bw [] w h = (λ k. (k, tt), λ k. k.0)
worst_ratio_of_iff bw (f ∷ fs) w h =
    let per_link = get_or (f.source_vnf, f.target_vnf) [] bw in
    let (den, one) = ratios_of_iff f.bandwidth_demand per_link w h in
    let rest = worst_ratio_of_iff bw fs (ratios_of f.bandwidth_demand per_link w) den in
    (
      λ k. let (a, b) = rest.0 k in let (c, d) = one.0 a in (c, (d, b)),
      λ k. rest.1 (one.1 (k.0, k.1.0), k.1.1),
    )
