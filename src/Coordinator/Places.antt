-- ===== src/Coordinator/Places.antt =====
-- coordinator.py: where the VNFs of a request are placed when every actor answers feasibly.
use mathlib.Core.List.{Memᴰ}
use orion_v.Prelude.{
  ℕ, zero, suc, ◌≡◌, refl, ap, sym, ◌∙◌, subst, List, [], ◌∷◌, ◌++◌, arith, All, ◌==◌, ==_iff, ltb,
  some, Option-cases, inl, inr, ◌⊎◌, Bool-cases, get_elem?,
}
use orion_v.Prelude.Dict.{Dict, get_or, put, nat_eq, get_or-put}
use orion_v.Prelude.Order.{sort-mem}
use orion_v.Prelude.Fail.{ok, Result-cases}
use orion_v.Types.{Ident, Vnf, FlowEdge, SliceRequest}
use orion_v.Types.Mdo.{VnfAssignment, PlanFragment, PlanSummary}
use orion_v.ChainOrder.{mem}
use orion_v.ChainOrder.Member.{Memᴰ-of_mem}
use orion_v.Coordinator.Fragments.{
  distinct, set_items, assignment, assign, position, domain_at, split_flows, fragment_of,
  fragments_of, build_fragments,
}

-- Some fragment has an assignment of this VNF.
abbrev pub Assigned : Dict ℕ PlanFragment → Ident → Type 0
Assigned fragments w =
    (x : ℕ × PlanFragment) × Memᴰ x fragments
    × ((a : VnfAssignment) × Memᴰ a x.1.vnf_assignments × (a.vnf_id ≡ w))

-- A list of assignments has this VNF.
abbrev Holds : Ident → List VnfAssignment → Type 0
Holds w l = (a : VnfAssignment) × Memᴰ a l × (a.vnf_id ≡ w)

mem-left {ℓ} : {A : Type ℓ} (a : A) (xs ys : List A) → Memᴰ a xs → Memᴰ a (xs ++ ys)
mem-left a [] ys h = elim h [ ]
mem-left a (x ∷ xs) ys (Memᴰ.head e) = Memᴰ.head e
mem-left a (x ∷ xs) ys (Memᴰ.tail h) = Memᴰ.tail (mem-left a xs ys h)

mem-last {ℓ} : {A : Type ℓ} (a : A) (xs : List A) → Memᴰ a (xs ++ a ∷ [])
mem-last a [] = Memᴰ.head refl
mem-last a (x ∷ xs) = Memᴰ.tail (mem-last a xs)

mem_of_get {ℓ} : {A : Type ℓ} (i : ℕ) (a : A) (xs : List A) → get_elem? xs i ≡ some a → Memᴰ a xs
mem_of_get i a [] h = cc
mem_of_get zero a (x ∷ xs) h = Memᴰ.head (ground (arith, h))
mem_of_get (suc i) a (x ∷ xs) h = Memᴰ.tail (mem_of_get i a xs h)

mem-distinct : (d : ℕ) (ds : List ℕ) → Memᴰ d ds → Memᴰ d (distinct ds)
mem-distinct d [] h = elim h [ ]
mem-distinct d (e ∷ ds) h = elim (Bool-cases (mem e ds)) [
  | inl again ↦ rw again (elim h [
    | Memᴰ.head same ↦
        mem-distinct d ds (subst (λ t. Memᴰ t ds) (sym same) (Memᴰ-of_mem e ds again))
    | Memᴰ.tail t ↦ mem-distinct d ds t
  ])
  | inr new ↦
      rw new
        (elim h [ Memᴰ.head same ↦ Memᴰ.head same | Memᴰ.tail t ↦ Memᴰ.tail (mem-distinct d ds t) ])
]

module _ (plan : PlanSummary) (partition : List ℕ) (slice_req : SliceRequest) where
  -- The VNF is among the assignments of a domain of the partition.
  abbrev Seated : Dict ℕ (List VnfAssignment) → Ident → Type 0
  Seated frags w = (d : ℕ) × Memᴰ d partition × Holds w (get_or d [] frags)

  Seated-put :
      (frags : Dict ℕ (List VnfAssignment)) (d : ℕ) (a : VnfAssignment) (w : Ident)
      → Seated frags w
      → Seated (put d (get_or d [] frags ++ a ∷ []) frags) w
  Seated-put frags d a w (k, m, (b, inside, e)) = (
    k,
    m,
    (
      b,
      rw (get_or-put d k (get_or d [] frags ++ a ∷ []) [] frags) (elim (Bool-cases (k == d)) [
        | inl same ↦
            let is : k ≡ d = (==_iff k d).0 same in
            rw same (
              mem-left b (get_or d [] frags) (a ∷ [])
                (subst (λ t. Memᴰ b (get_or t [] frags)) is inside))
        | inr other ↦ rw other inside
      ]),
      e,
    ),
  )

  Seated-now :
      (frags : Dict ℕ (List VnfAssignment)) (d : ℕ) (a : VnfAssignment)
      → Memᴰ d partition
      → Seated (put d (get_or d [] frags ++ a ∷ []) frags) a.vnf_id
  Seated-now frags d a m = (
    d,
    m,
    (
      a,
      rw (get_or-put d d (get_or d [] frags ++ a ∷ []) [] frags, (==_iff d d).1 refl)
          (mem-last a (get_or d [] frags)),
      refl,
    ),
  )

  assign-Seated :
      (k : ℕ) (vs : List Vnf) (frags frags' : Dict ℕ (List VnfAssignment)) (w : Ident)
      → assign plan partition slice_req k vs frags ≡ ok frags'
      → Seated frags w ⊎ ((v : Vnf) × Memᴰ v vs × (v.vnf_id ≡ w))
      → Seated frags' w
  unfolding assign
  assign-Seated k [] frags frags' w h o =
      let e : frags ≡ frags' = ground (arith, h) in
      elim o [ inl s ↦ subst (λ t. Seated t w) e s | inr (v, m, e') ↦ elim m [ ] ]
  assign-Seated k (v ∷ vs) frags frags' w h o = elim (Option-cases (get_elem? partition k)) [
    | inl e ↦ absurd (ground (arith, h, e))
    | inr (d, e) ↦ elim (Option-cases (get_elem? plan.required_tiers k)) [
      | inl e' ↦ absurd (ground (arith, h, e, e'))
      | inr (tier, e') ↦
          let a = assignment plan partition slice_req k d tier v in
          let next = put d (get_or d [] frags ++ a ∷ []) frags in
          let rest : assign plan partition slice_req (suc k) vs next ≡ ok frags' =
            ground (arith, h, e, e') in
          let go = assign-Seated (suc k) vs next frags' w rest in
          elim o [
            | inl s ↦ go (inl (Seated-put frags d a w s))
            | inr (u, m, is) ↦ elim m [
              | Memᴰ.head same ↦
                  let named : a.vnf_id ≡ w = ap (λ (t : Vnf). t.vnf_id) (sym same) ∙ is in
                  go (
                    inl (
                      subst (Seated next) named
                        (Seated-now frags d a (mem_of_get k d partition e))))
              | Memᴰ.tail t ↦ go (inr (u, t, is))
            ]
          ]
    ]
  ]

  position-mem :
      (w : Ident) (k i : ℕ) (vs : List Vnf)
      → position plan partition slice_req w k vs ≡ ok i
      → (v : Vnf) × Memᴰ v vs × (v.vnf_id ≡ w)
  position-mem w k i [] h = cc
  position-mem w k i (v ∷ vs) h = elim (Bool-cases (v.vnf_id == w)) [
    | inl same ↦ (v, Memᴰ.head refl, (==_iff v.vnf_id w).0 same)
    | inr other ↦
        let (u, m, e) = position-mem w (suc k) i vs (ground (arith, h, other)) in
        (u, Memᴰ.tail m, e)
  ]

  -- Both ends of the flow are VNFs of the request.
  abbrev IsNamed : Ident → Type 0
  IsNamed w = (v : Vnf) × Memᴰ v slice_req.vnfs × (v.vnf_id ≡ w)

  domain_at-IsNamed :
      (w : Ident) (d : ℕ)
      → domain_at plan partition slice_req (position plan partition slice_req w 0 slice_req.vnfs)
        ≡ ok d
      → IsNamed w
  domain_at-IsNamed w d h =
      elim (Result-cases (position plan partition slice_req w 0 slice_req.vnfs)) [
        | inr (x, e) ↦ absurd (ground (arith, h, e))
        | inl (i, e) ↦ position-mem w 0 i slice_req.vnfs e
      ]

  abbrev Ends : FlowEdge → Type 0
  Ends f = IsNamed f.source_vnf × IsNamed f.target_vnf

  All-snoc : (fs : List FlowEdge) (f : FlowEdge) → All Ends fs → Ends f → All Ends (fs ++ f ∷ [])
  All-snoc [] f h e = (e, tt)
  All-snoc (g ∷ fs) f h e = (h.0, All-snoc fs f h.1 e)

  split_flows-Ends :
      (fes : List FlowEdge) (flows flows' : Dict ℕ (List FlowEdge)) (cross cross' : List FlowEdge)
      → split_flows plan partition slice_req fes flows cross ≡ ok (flows', cross')
      → All Ends cross
      → All Ends cross'
  unfolding split_flows
  split_flows-Ends [] flows flows' cross cross' h all =
      let e : cross ≡ cross' = ground (arith, h) in subst (All Ends) e all
  split_flows-Ends (fe ∷ fes) flows flows' cross cross' h all =
      elim (Result-cases (
        domain_at plan partition slice_req
          (position plan partition slice_req fe.source_vnf 0 slice_req.vnfs))) [
            | inr (x, e) ↦ absurd (ground (arith, h, e))
            | inl (src, e) ↦
                elim (Result-cases (
                  domain_at plan partition slice_req
                    (position plan partition slice_req fe.target_vnf 0 slice_req.vnfs))) [
                      | inr (x, e') ↦ absurd (ground (arith, h, e, e'))
                      | inl (dst, e') ↦ elim (Bool-cases (src == dst)) [
                        | inl same ↦
                            split_flows-Ends fes (put src (get_or src [] flows ++ fe ∷ []) flows)
                              flows' cross cross' (ground (arith, h, e, e', same)) all
                        | inr other ↦
                            split_flows-Ends fes flows flows' (cross ++ fe ∷ []) cross'
                              (ground (arith, h, e, e', other))
                              (All-snoc cross fe all (
                                domain_at-IsNamed fe.source_vnf src e,
                                domain_at-IsNamed fe.target_vnf dst e',
                              ))
                      ]
                    ]
          ]

  Assigned-of_Seated :
      (frags : Dict ℕ (List VnfAssignment)) (flows : Dict ℕ (List FlowEdge)) (ds : List ℕ) (d : ℕ)
      (w : Ident)
      → Memᴰ d ds
      → Holds w (get_or d [] frags)
      → Assigned (fragments_of plan partition slice_req frags flows ds) w
  Assigned-of_Seated frags flows [] d w m h = elim m [ ]
  Assigned-of_Seated frags flows (k ∷ ds) d w (Memᴰ.head e) h = (
    (k, fragment_of plan partition slice_req frags flows k),
    Memᴰ.head refl,
    subst (λ t. Holds w (get_or t [] frags)) e h,
  )
  Assigned-of_Seated frags flows (k ∷ ds) d w (Memᴰ.tail t) h =
      let (x, m, held) = Assigned-of_Seated frags flows ds d w t h in (x, Memᴰ.tail m, held)

  -- Both ends of a flow between domains are assigned in some fragments.
  pub build_fragments-Assigned :
      (fragments : Dict ℕ PlanFragment) (flows : List FlowEdge)
      → build_fragments plan partition slice_req ≡ ok (fragments, flows)
      → All (λ f. Assigned fragments f.source_vnf × Assigned fragments f.target_vnf) flows
  unfolding build_fragments
  build_fragments-Assigned fragments flows h =
      elim (Result-cases (assign plan partition slice_req 0 slice_req.vnfs [])) [
        | inr (x, e) ↦ absurd (ground (arith, h, e))
        | inl (frags, e) ↦
            elim (Result-cases (split_flows plan partition slice_req slice_req.flow_edges [] [])) [
              | inr (x, e') ↦ absurd (ground (arith, h, e, e'))
              | inl ((domain_flows, cross), e') ↦
                  let same : fragments_of plan partition slice_req frags domain_flows
                        (set_items partition)
                      ≡ fragments =
                    ground (arith, h, e, e') in
                  let same' : cross ≡ flows = ground (arith, h, e, e') in
                  let ends = split_flows-Ends slice_req.flow_edges [] domain_flows [] cross e' tt in
                  subst (λ fs. All (λ f. Assigned fs f.source_vnf × Assigned fs f.target_vnf) flows)
                    same (all_assigned frags domain_flows e flows (subst (All Ends) same' ends))
            ]
      ]
    where
      one :
          (frags : Dict ℕ (List VnfAssignment)) (domain_flows : Dict ℕ (List FlowEdge))
          → assign plan partition slice_req 0 slice_req.vnfs [] ≡ ok frags
          → (w : Ident) → IsNamed w
          → Assigned
              (fragments_of plan partition slice_req frags domain_flows (set_items partition))
              w
      one frags domain_flows e w named =
          let (d, m, held) = assign-Seated 0 slice_req.vnfs [] frags w e (inr named) in
          Assigned-of_Seated frags domain_flows (set_items partition) d w
            (sort-mem ltb d (distinct partition) (mem-distinct d partition m)) held

      all_assigned :
          (frags : Dict ℕ (List VnfAssignment)) (domain_flows : Dict ℕ (List FlowEdge))
          → assign plan partition slice_req 0 slice_req.vnfs [] ≡ ok frags
          → (fs : List FlowEdge) → All Ends fs
          → All
              (λ f.
                Assigned
                  (fragments_of plan partition slice_req frags domain_flows (set_items partition))
                  f.source_vnf
                × Assigned
                    (fragments_of plan partition slice_req frags domain_flows (set_items partition))
                    f.target_vnf)
              fs
      all_assigned frags domain_flows e [] h = tt
      all_assigned frags domain_flows e (f ∷ fs) h = (
        (one frags domain_flows e f.source_vnf h.0.0, one frags domain_flows e f.target_vnf h.0.1),
        all_assigned frags domain_flows e fs h.1,
      )
