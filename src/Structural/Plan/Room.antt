-- ===== src/Structural/Plan/Room.antt =====
-- structural_checker.py: the room of the domains and of the links.
use orion_v.Prelude.{
  ℤ, pos, ◌≤ℤ◌, ◌≡◌, refl, sym, subst, inl, inr, List, [], ◌∷◌, Bool, true, ◌&&◌, Option, none,
  some, arith, ◌==◌, ==_iff, any, Bool-cases, Option-cases, if◌then◌else◌,
}
use orion_v.Prelude.Dict.{Dict, nat_eq, pair_eq, pair_beq, get, contains}
use orion_v.Prelude.Keys.{contains_of_get}
use orion_v.Types.{Ident}
use orion_v.Structural.{Adjacency}
use orion_v.Structural.Plan.{
  or_else, collect, charge_known, domain_used, check_used, reachable, domain_of_vnf, charge_flow,
  link_bw_demand, check_link,
}
use orion_v.Structural.Data.{Domain, DomainLink, Assignment, FlowRequirement}
use orion_v.Prelude.Totals.{
  is_at, is_for, total, charge_key, charges, charges-Each, total-same, any-same,
}
use orion_v.Structural.Plan.Empty.{collect-nil, All-imp}

-- The sums that the code keeps are totals.
known_key : Dict Ident Domain → Option Ident → Option Ident
known_key dm none = none
known_key dm (some d) = if contains d dm then some d else none

known_key-at :
    (dm : Dict Ident Domain) (d : Ident) (o : Option Ident)
    → contains d dm ≡ true
    → is_at d (known_key dm o) ≡ is_at d o
unfolding known_key
known_key-at dm d none c = refl
known_key-at dm d (some j) c = elim (Bool-cases (d == j)) [
  | inl same ↦
      let is : d ≡ j = (==_iff d j).0 same in
      let known : contains j dm ≡ true = subst (λ t. contains t dm ≡ true) is c in rw known refl
  | inr other ↦ elim (Bool-cases (contains j dm)) [
    | inl known ↦ rw known refl
    | inr unknown ↦ rw unknown (sym other)
  ]
]

module _ (dm : Dict Ident Domain) (demand : Assignment → ℤ) where
  charge_known-key :
      (o : Option Ident) (amount : ℤ) (used : Dict Ident ℤ)
      → charge_known dm o amount used ≡ charge_key (known_key dm o) amount used
  unfolding known_key
  charge_known-key none amount used = refl
  charge_known-key (some d) amount used = elim (Bool-cases (contains d dm)) [
    | inl c ↦ rw c refl
    | inr c ↦ rw c refl
  ]

  domain_used-charges :
      (xs : List Assignment) (used : Dict Ident ℤ)
      → domain_used demand dm xs used
        ≡ charges (λ (a : Assignment). known_key dm a.domain) demand xs used
  unfolding domain_used
  domain_used-charges [] used = refl
  domain_used-charges (a ∷ xs) used =
      rw (charge_known-key a.domain (demand a) used)
        (domain_used-charges xs (charge_key (known_key dm a.domain) (demand a) used))

  -- A domain that has an assignment has room for the total of them.
  pub check_used-total :
      (residual : Domain → ℤ) (xs : List Assignment) (d : Ident) (dom : Domain)
      → collect (check_used residual dm) (domain_used demand dm xs []) ≡ []
      → get d dm ≡ some dom
      → any (is_for (λ (a : Assignment). a.domain) d) xs ≡ true
      → total (λ (a : Assignment). a.domain) demand d xs ≤ℤ residual dom
  unfolding check_used
  check_used-total residual xs d dom h found occurs =
      let key = λ (a : Assignment). known_key dm a.domain in
      let c : contains d dm ≡ true = contains_of_get d dm found in
      let kept =
        charges-Each key demand (λ k t. (k' : Domain) → get k dm ≡ some k' → t ≤ℤ residual k') d xs
          (any-same (is_for key d) (is_for (λ (a : Assignment). a.domain) d) xs
            (λ a. known_key-at dm d a.domain c) occurs)
          (All-imp (λ x. check_used residual dm x ≡ [])
            (λ x. (k' : Domain) → get x.0 dm ≡ some k' → x.1 ≤ℤ residual k')
            (charges key demand xs []) (λ x n k' g. one x.0 x.1 k' g n)
            (collect-nil (check_used residual dm) (charges key demand xs []) (
              subst (λ t. collect (check_used residual dm) t ≡ []) (domain_used-charges xs [])
                h))) in
      subst (λ t. t ≤ℤ residual dom)
        (total-same key (λ (a : Assignment). a.domain) demand d xs
          (λ a. known_key-at dm d a.domain c))
        (kept dom found)
    where
      one :
          (k : Ident) (t : ℤ) (k' : Domain)
          → get k dm ≡ some k'
          → check_used residual dm (k, t) ≡ []
          → t ≤ℤ residual k'
      one k t k' g n = ground arith

-- The demand on a link is the total of the flows between its domains.
unfoldable pub crossing : Dict Ident Assignment → FlowRequirement → Option (Ident × Ident)
crossing am flow = elim (domain_of_vnf am flow.source_vnf) [
  | none ↦ none
  | some src ↦ elim (domain_of_vnf am flow.target_vnf) [
    | none ↦ none
    | some dst ↦ if src == dst then none else some (src, dst)
  ]
]

abbrev pub is_direct : Adjacency → Dict (Ident × Ident) DomainLink → Ident × Ident → Bool
is_direct adj links (src, dst) = reachable adj src dst && contains (src, dst) links

only_direct :
    Adjacency → Dict (Ident × Ident) DomainLink → Option (Ident × Ident) → Option (Ident × Ident)
only_direct adj links none = none
only_direct adj links (some k) = if is_direct adj links k then some k else none

only_direct-at :
    (adj : Adjacency) (links : Dict (Ident × Ident) DomainLink) (k : Ident × Ident)
    (o : Option (Ident × Ident))
    → is_direct adj links k ≡ true
    → is_at k (only_direct adj links o) ≡ is_at k o
unfolding only_direct
only_direct-at adj links k none c = refl
only_direct-at adj links k (some j) c = elim (Bool-cases (pair_beq k j)) [
  | inl same ↦
      let is : k ≡ j = (pair_eq.beq_iff k j).0 same in
      let known : is_direct adj links j ≡ true = subst (λ t. is_direct adj links t ≡ true) is c in
      rw known refl
  | inr other ↦ elim (Bool-cases (is_direct adj links j)) [
    | inl known ↦ rw known refl
    | inr unknown ↦ rw unknown (sym other)
  ]
]

unfoldable pub bw_of : FlowRequirement → ℤ
bw_of flow = or_else (pos 0) flow.min_bandwidth_mbps

module _ (am : Dict Ident Assignment) (links : Dict (Ident × Ident) DomainLink)
    (adj : Adjacency) where
  charge_flow-key :
      (flow : FlowRequirement) (used : Dict (Ident × Ident) ℤ)
      → charge_flow am links adj flow used
        ≡ charge_key (only_direct adj links (crossing am flow)) (bw_of flow) used
  unfolding only_direct crossing bw_of
  charge_flow-key flow used = elim (Option-cases (domain_of_vnf am flow.source_vnf)) [
    | inl e ↦ rw (charge_flow, crossing, e) refl
    | inr (src, e) ↦ elim (Option-cases (domain_of_vnf am flow.target_vnf)) [
      | inl e' ↦ rw (charge_flow, crossing, e, e') refl
      | inr (dst, e') ↦ elim (Bool-cases (src == dst)) [
        | inl same ↦ rw (charge_flow, crossing, e, e', same) refl
        | inr other ↦ elim (Bool-cases (is_direct adj links (src, dst))) [
          | inl d ↦ rw (charge_flow, crossing, e, e', other, d) refl
          | inr d ↦ rw (charge_flow, crossing, e, e', other, d) refl
        ]
      ]
    ]
  ]

  flow_key : FlowRequirement → Option (Ident × Ident)
  flow_key flow = only_direct adj links (crossing am flow)

  link_bw_demand-charges :
      (flows : List FlowRequirement) (used : Dict (Ident × Ident) ℤ)
      → link_bw_demand am links adj flows used ≡ charges flow_key bw_of flows used
  unfolding link_bw_demand flow_key
  link_bw_demand-charges [] used = refl
  link_bw_demand-charges (flow ∷ flows) used = rw (charge_flow-key flow used) (
      link_bw_demand-charges flows
        (charge_key (only_direct adj links (crossing am flow)) (bw_of flow) used))

  -- A link between the domains of a flow has room for the total of such flows.
  pub check_link-total :
      (flows : List FlowRequirement) (k : Ident × Ident) (link : DomainLink)
      → collect (check_link links) (link_bw_demand am links adj flows []) ≡ []
      → get k links ≡ some link
      → is_direct adj links k ≡ true
      → any (is_for (crossing am) k) flows ≡ true
      → total (crossing am) bw_of k flows ≤ℤ or_else (pos 0) link.bandwidth_residual_mbps
  unfolding check_link flow_key
  check_link-total flows k link h found c occurs =
      let same : (f : FlowRequirement) → is_at k (flow_key f) ≡ is_at k (crossing am f) =
        λ f. only_direct-at adj links k (crossing am f) c in
      let kept =
        charges-Each flow_key bw_of
          (λ j t.
            (l : DomainLink)
            → get j links ≡ some l
            → t ≤ℤ or_else (pos 0) l.bandwidth_residual_mbps)
          k flows (any-same (is_for flow_key k) (is_for (crossing am) k) flows same occurs)
          (All-imp (λ x. check_link links x ≡ [])
            (λ x.
              (l : DomainLink)
              → get x.0 links ≡ some l
              → x.1 ≤ℤ or_else (pos 0) l.bandwidth_residual_mbps)
            (charges flow_key bw_of flows []) (λ x n l g. one x.0 x.1 l g n)
            (collect-nil (check_link links) (charges flow_key bw_of flows []) (
              subst (λ t. collect (check_link links) t ≡ []) (link_bw_demand-charges flows [])
                h))) in
      subst (λ t. t ≤ℤ or_else (pos 0) link.bandwidth_residual_mbps)
        (total-same flow_key (crossing am) bw_of k flows same) (kept link found)
    where
      one :
          (j : Ident × Ident) (t : ℤ) (l : DomainLink)
          → get j links ≡ some l
          → check_link links (j, t) ≡ []
          → t ≤ℤ or_else (pos 0) l.bandwidth_residual_mbps
      one j t l g n = ground arith
