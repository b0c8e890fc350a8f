-- ===== src/Admissibility/Committable.antt =====
-- mdo/admissibility.py: what the local function `feasible` of the exact repair tests.

use mathlib.Core.List.{Memᴰ}
use orion_v.Prelude.{
  ℕ, ℤ, pos, ◌≤ℤ◌, ◌≡◌, refl, ap, sym, subst, ◌∙◌, ◌↔◌, inl, inr, List, [], ◌∷◌, true, Bool,
  Bool-cases, leb_ℤ, ◌&&◌, ◌||◌, Option, some, arith, any, ◌==◌, get_elem?, Option-cases,
  zero-add_ℤ,
}
use orion_v.Prelude.Dict.{Dict, nat_eq, get_or}
use orion_v.Prelude.Keys.{Each}
use orion_v.Prelude.Totals.{is_for, total, charges, charges-get, charges-Each, Each-charges}
use orion_v.Types.{Ident, InfrastructureTier, Node, Vnf}
use orion_v.Types.Mdo.{DomainSummary}
use orion_v.Substrate.{Graph, SubstrateNetwork, find_node, nodes_in_domain}
use orion_v.ChainOrder.Runs.{NoReentry, is_contiguous_iff}
use orion_v.Admissibility.Product.{filter_origin, mem_filter, length-ne_zero}
use orion_v.ChainOrder.{mem}
use orion_v.Admissibility.{
  tiers_of, fits_a_node, shared_nodes, admissible, all_admissible, add_load, loads,
  within_residuals, feasible,
}

-- The domain has a node that the VNF permits, of a tier that has one free node of the domain with the
-- CPU and the RAM for the VNF.
pub record Admits (s : SubstrateNetwork) (v : Vnf) (d : DomainSummary) : Type 0 where
  pub node : Ident
  pub attributes : Node
  pub inside : Memᴰ node (nodes_in_domain s d.domain_id)
  pub permitted : mem node v.permitted_nodes ≡ true
  pub found : find_node s.graph node ≡ some attributes
  pub cpu : v.cpu_demand ≤ℤ d.tier_max_node_cpu attributes.tier
  pub ram : v.ram_demand ≤ℤ d.tier_max_node_ram attributes.tier

tiers_of-origin :
    (g : Graph) (p : InfrastructureTier → Bool) (ns : List Ident)
    → any p (tiers_of g ns) ≡ true
    → (n : Ident) × (x : Node) × Memᴰ n ns × (find_node g n ≡ some x) × (p x.tier ≡ true)
unfolding tiers_of
tiers_of-origin g p [] h = cc
tiers_of-origin g p (n ∷ ns) h = elim (Option-cases (find_node g n)) [
  | inl e ↦
      let (m, y, k, f, t) = tiers_of-origin g p ns (rw (tiers_of, e) at h) in
      (m, y, Memᴰ.tail k, f, t)
  | inr (x, e) ↦
      let h' : (p x.tier || any p (tiers_of g ns)) ≡ true = rw (tiers_of, e) at h in
      elim (Bool-cases (p x.tier)) [
        | inl now ↦ (n, x, Memᴰ.head refl, e, now)
        | inr later ↦
            let (m, y, k, f, t) = tiers_of-origin g p ns (ground (arith, h', later)) in
            (m, y, Memᴰ.tail k, f, t)
      ]
]

any-tiers_of :
    (g : Graph) (p : InfrastructureTier → Bool) (ns : List Ident) (n : Ident) (x : Node)
    → Memᴰ n ns
    → find_node g n ≡ some x
    → p x.tier ≡ true
    → any p (tiers_of g ns) ≡ true
unfolding tiers_of
any-tiers_of g p [] n x m f t = elim m [ ]
any-tiers_of g p (k ∷ ns) n x (Memᴰ.head e) f t =
    let f' : find_node g k ≡ some x = subst (λ j. find_node g j ≡ some x) e f in
    rw (tiers_of, f', t) refl
any-tiers_of g p (k ∷ ns) n x (Memᴰ.tail m) f t = elim (Option-cases (find_node g k)) [
  | inl e ↦ rw (tiers_of, e) (any-tiers_of g p ns n x m f t)
  | inr (y, e) ↦
      let later = any-tiers_of g p ns n x m f t in rw (tiers_of, e) (ground (arith, later))
]

admissible_iff :
    (s : SubstrateNetwork) (v : Vnf) (d : DomainSummary) → (admissible s v d ≡ true) ↔ Admits s v d
unfolding admissible fits_a_node
admissible_iff s v d = (
  λ h.
      let (n, x, m, f, t) = tiers_of-origin s.graph fits (shared_nodes s v d) (ground (arith, h)) in
      let (inside, permitted) =
        filter_origin (λ k. mem k v.permitted_nodes) n (nodes_in_domain s d.domain_id) m in
      record {
        node = n;
        attributes = x;
        inside = inside;
        permitted = permitted;
        found = f;
        cpu = ground (arith, t);
        ram = ground (arith, t);
      },
  λ x.
      let there =
        mem_filter (λ k. mem k v.permitted_nodes) x.node (nodes_in_domain s d.domain_id) x.inside
          x.permitted in
      let cpu = x.cpu in
      let ram = x.ram in
      let fit : fits x.attributes.tier ≡ true = ground (arith, cpu, ram) in
      let some_tier =
        any-tiers_of s.graph fits (shared_nodes s v d) x.node x.attributes there x.found fit in
      let some_node = length-ne_zero x.node (shared_nodes s v d) there in
      ground (arith, some_tier, some_node),
)
  where
    fits : InfrastructureTier → Bool
    fits t =
        leb_ℤ v.cpu_demand (d.tier_max_node_cpu t) && leb_ℤ v.ram_demand (d.tier_max_node_ram t)

-- The VNFs of the chain with the indices of their domains.
abbrev pub seated : List Vnf → List ℕ → List (Vnf × ℕ)
seated (v ∷ vs) (m ∷ ms) = (v, m) ∷ seated vs ms
seated _ _ = []

abbrev pub seat_of : Vnf × ℕ → Option ℕ
seat_of x = some x.1

-- What the VNFs that are put in a domain demand together.
abbrev pub demand_on : (Vnf → ℤ) → ℕ → List Vnf → List ℕ → ℤ
demand_on f m vnfs idx = total seat_of (λ x. f x.0) m (seated vnfs idx)

loads-charges :
    (f : Vnf → ℤ) (acc : Dict ℕ ℤ) (vnfs : List Vnf) (idx : List ℕ)
    → loads f acc vnfs idx ≡ charges seat_of (λ x. f x.0) (seated vnfs idx) acc
loads-charges f acc [] idx = refl
loads-charges f acc (v ∷ vs) [] = refl
loads-charges f acc (v ∷ vs) (m ∷ ms) = loads-charges f (add_load m (f v) acc) vs ms

loads-get :
    (f : Vnf → ℤ) (m : ℕ) (vnfs : List Vnf) (idx : List ℕ)
    → get_or m (pos 0) (loads f [] vnfs idx) ≡ demand_on f m vnfs idx
loads-get f m vnfs idx =
    ap (get_or m (pos 0)) (loads-charges f [] vnfs idx)
    ∙ charges-get seat_of (λ x. f x.0) m (seated vnfs idx) []
    ∙ zero-add_ℤ (demand_on f m vnfs idx)

module _ (summaries : List DomainSummary) where
  -- The domain has this CPU and RAM left.
  pub record HasRoom (m : ℕ) (cpu ram : ℤ) : Type 0 where
    pub domain : DomainSummary
    pub found : get_elem? summaries m ≡ some domain
    pub cpu_fits : cpu ≤ℤ domain.cpu_residual
    pub ram_fits : ram ≤ℤ domain.ram_residual

module _ (s : SubstrateNetwork) (summaries : List DomainSummary) where
  within_residuals-Each :
      (acc_r : Dict ℕ ℤ) (d : Dict ℕ ℤ)
      → within_residuals s summaries d acc_r ≡ true
      → Each (λ m c. HasRoom summaries m c (get_or m (pos 0) acc_r)) d
  within_residuals-Each acc_r [] h = tt
  within_residuals-Each acc_r ((m, c) ∷ d) h = elim (Option-cases (get_elem? summaries m)) [
    | inl e ↦ absurd (ground (arith, e))
    | inr (x, e) ↦ (
      record { domain = x; found = e; cpu_fits = ground (arith, e); ram_fits = ground (arith, e) },
      within_residuals-Each acc_r d (ground (arith, e)),
    )
  ]

  Each-within_residuals :
      (acc_r : Dict ℕ ℤ) (d : Dict ℕ ℤ)
      → Each (λ m c. HasRoom summaries m c (get_or m (pos 0) acc_r)) d
      → within_residuals s summaries d acc_r ≡ true
  Each-within_residuals acc_r [] h = refl
  Each-within_residuals acc_r ((m, c) ∷ d) h =
      let e = h.0.found in
      let cpu = h.0.cpu_fits in
      let ram = h.0.ram_fits in ground (arith, e, cpu, ram, Each-within_residuals acc_r d h.1)

  -- The indices are those of summaries that admit their VNFs, one for each.
  abbrev pub Admitted : List Vnf → List ℕ → Type 0
  Admitted [] [] = Unit
  Admitted (v ∷ vs) (m ∷ ms) =
      ((d : DomainSummary) × (get_elem? summaries m ≡ some d) × Admits s v d) × Admitted vs ms
  Admitted _ _ = ⊥

  -- A partition that the coordinator could commit: every VNF is in a domain that admits it, no domain
  -- is re-entered along the chain, and every domain in use has the CPU and the RAM for all the VNFs
  -- that are put there.
  pub record IsCommittable (vnfs : List Vnf) (idx : List ℕ) : Type 0 where
    pub admitted : Admitted vnfs idx
    pub unbroken : NoReentry idx
    pub room :
        (m : ℕ)
        → any (λ j. m == j) idx ≡ true
        → HasRoom summaries m
            (demand_on (λ v. v.cpu_demand) m vnfs idx)
            (demand_on (λ v. v.ram_demand) m vnfs idx)

  all_admissible-Admitted :
      (vnfs : List Vnf) (idx : List ℕ)
      → all_admissible s summaries vnfs idx ≡ true
      → Admitted vnfs idx
  all_admissible-Admitted [] [] h = tt
  all_admissible-Admitted [] (m ∷ ms) h = cc
  all_admissible-Admitted (v ∷ vs) [] h = cc
  all_admissible-Admitted (v ∷ vs) (m ∷ ms) h = elim (Option-cases (get_elem? summaries m)) [
    | inl e ↦ absurd (ground (arith, e))
    | inr (d, e) ↦ (
      (d, e, (admissible_iff s v d).0 (ground (arith, e))),
      all_admissible-Admitted vs ms (ground (arith, e)),
    )
  ]

  Admitted-all_admissible :
      (vnfs : List Vnf) (idx : List ℕ)
      → Admitted vnfs idx
      → all_admissible s summaries vnfs idx ≡ true
  Admitted-all_admissible [] [] h = refl
  Admitted-all_admissible [] (m ∷ ms) h = elim h [ ]
  Admitted-all_admissible (v ∷ vs) [] h = elim h [ ]
  Admitted-all_admissible (v ∷ vs) (m ∷ ms) h =
      let (d, e, adm) = h.0 in
      let is = (admissible_iff s v d).1 adm in
      ground (arith, e, is, Admitted-all_admissible vs ms h.1)

  any-seated :
      (m : ℕ) (vnfs : List Vnf) (idx : List ℕ)
      → Admitted vnfs idx
      → any (is_for seat_of m) (seated vnfs idx) ≡ any (λ j. m == j) idx
  any-seated m [] [] h = refl
  any-seated m [] (j ∷ js) h = elim h [ ]
  any-seated m (v ∷ vs) [] h = elim h [ ]
  any-seated m (v ∷ vs) (j ∷ js) h = ap (λ b. m == j || b) (any-seated m vs js h.1)

  -- The test `feasible` holds of exactly these.
  pub feasible_iff :
      (vnfs : List Vnf) (idx : List ℕ)
      → (feasible s summaries vnfs idx ≡ true) ↔ IsCommittable vnfs idx
  unfolding feasible
  feasible_iff vnfs idx = (
    λ h.
        let adm = all_admissible-Admitted vnfs idx (ground (arith, h)) in
        let each = within_residuals-Each acc_r acc_c (ground (arith, h)) in
        record {
          admitted = adm;
          unbroken = (is_contiguous_iff idx).0 (ground (arith, h));
          room = λ m occurs.
              subst (HasRoom summaries m (demand_on cpu m vnfs idx)) (loads-get ram m vnfs idx) (
                charges-Each seat_of (λ x. cpu x.0) (Roomy acc_r) m (seated vnfs idx)
                  (any-seated m vnfs idx adm ∙ occurs)
                  (subst (Each (Roomy acc_r)) (loads-charges cpu [] vnfs idx) each));
        },
    λ x.
        let each : Each (Roomy acc_r) (charges seat_of (λ x. cpu x.0) (seated vnfs idx) []) =
          Each-charges seat_of (λ x. cpu x.0) (Roomy acc_r) (seated vnfs idx)
            (λ m occurs.
              subst (HasRoom summaries m (demand_on cpu m vnfs idx))
                (sym (loads-get ram m vnfs idx))
                (x.room m (sym (any-seated m vnfs idx x.admitted) ∙ occurs))) in
        let fits =
          Each-within_residuals acc_r acc_c
            (subst (Each (Roomy acc_r)) (sym (loads-charges cpu [] vnfs idx)) each) in
        let unbroken = (is_contiguous_iff idx).1 x.unbroken in
        ground (arith, fits, unbroken, Admitted-all_admissible vnfs idx x.admitted),
  )
    where
      cpu : Vnf → ℤ
      cpu v = v.cpu_demand

      ram : Vnf → ℤ
      ram v = v.ram_demand

      acc_c : Dict ℕ ℤ
      acc_c = loads cpu [] vnfs idx

      acc_r : Dict ℕ ℤ
      acc_r = loads ram [] vnfs idx

      Roomy : Dict ℕ ℤ → ℕ → ℤ → Type 0
      Roomy acc m c = HasRoom summaries m c (get_or m (pos 0) acc)
