-- ===== src/Coordinator/Placed.antt =====
-- coordinator.py with its actors: feasible answers place both ends of every flow between two domains.
use mathlib.Core.List.{Memᴰ}
use orion_v.Prelude.{
  ℕ, ◌≡◌, refl, ap, sym, ◌∙◌, subst, List, [], ◌∷◌, true, false, arith, All, ◌==◌, ==_iff, some,
  Option-cases, inl, inr, ◌⊎◌, Bool-cases,
}
use orion_v.Prelude.Dict.{
  Dict, get, put, contains, values, nat_eq, get_of_contains, contains-put_self, get-put,
}
use orion_v.Prelude.Keys.{HasUniqueKeys, contains-put_kept, contains_of_get}
use orion_v.Prelude.Order.{mem_of_all}
use orion_v.Prelude.Fail.{ok, Result-cases}
use orion_v.Types.{Ident, FlowEdge, SliceRequest}
use orion_v.Types.Mdo.{VnfAssignment, PlanFragment, DomainResponse, PlanSummary, bare_response}
use orion_v.Substrate.{SubstrateNetwork, nodes_in_domain}
use orion_v.Routing.{Networkx}
use orion_v.Greedy.{GreedyDomainActor}
use orion_v.Greedy.Safety.{act-placements}
use orion_v.Coordinator.{DomainActor, MdoCoordinator, dispatch_to_actors, update, gather_placements}
use orion_v.Coordinator.Resolve.{is_infeasible}
use orion_v.Coordinator.Contract.{NoRepeat}
use orion_v.Coordinator.Cross.{HasEnds}
use orion_v.Coordinator.Sendable.{build_fragments-IsSendable}
use orion_v.Coordinator.Places.{Assigned, build_fragments-Assigned}
use orion_v.Coordinator.Unchanged.{PlacesEnds}
use orion_v.Coordinator.Greed.{greedy_actor}

-- A feasible answer of the actor places every VNF of the fragment.
abbrev pub IsPlacer : DomainActor → Type 0
IsPlacer actor =
    (fragment : PlanFragment) (s s' : SubstrateNetwork) (r : DomainResponse)
    → actor.act fragment s ≡ (ok r, s')
    → r.feasible ≡ true
    → All (λ v. contains v.vnf_id r.placements ≡ true) fragment.vnf_assignments

abbrev pub AllPlace : Dict ℕ DomainActor → Type 0
AllPlace actors = (d : ℕ) (actor : DomainActor) → get d actors ≡ some actor → IsPlacer actor

pub greedy_actor-IsPlacer : (nx : Networkx) (a : GreedyDomainActor) → IsPlacer (greedy_actor nx a)
greedy_actor-IsPlacer nx a fragment s s' r h feas =
    contained fragment.vnf_assignments (act-placements nx a fragment s s' r h feas)
  where
    contained :
        (vs : List VnfAssignment)
        → All
            (λ v.
              (n : Ident) × (get v.vnf_id r.placements ≡ some n)
              × Memᴰ n (nodes_in_domain s a.domain_id))
            vs
        → All (λ v. contains v.vnf_id r.placements ≡ true) vs
    contained [] h = tt
    contained (v ∷ vs) h =
        let (n, found, inside) = h.0 in
        (contains_of_get v.vnf_id r.placements {v = n} found, contained vs h.1)

-- An answer stays when the domain has no fragment any more.
dispatch-get :
    (actors : Dict ℕ DomainActor) (fragments : Dict ℕ PlanFragment)
    (responses out : Dict ℕ DomainResponse) (s s' : SubstrateNetwork) (k : ℕ) (r : DomainResponse)
    → dispatch_to_actors actors fragments responses s ≡ (ok out, s')
    → contains k fragments ≡ false
    → get k responses ≡ some r
    → get k out ≡ some r
unfolding dispatch_to_actors
dispatch-get actors [] responses out s s' k r h absent found = cc
dispatch-get actors ((d, f) ∷ rest) responses out s s' k r h absent found =
    let other : (k == d) ≡ false = ground (arith, absent) in
    let later : contains k rest ≡ false = ground (arith, absent) in
    elim (Option-cases (get d actors)) [
      | inl e ↦
          dispatch-get actors rest (put d (bare_response d false) responses) out s s' k r
            (ground (arith, h, e)) later
            (get-put d k (bare_response d false) responses ∙ rw other found)
      | inr (actor, e) ↦ elim (Result-cases (actor.act f s).0) [
        | inr (x, e') ↦ absurd (ground (arith, h, e, e'))
        | inl (q, e') ↦
            dispatch-get actors rest (put d q responses) out (actor.act f s).1 s' k r
              (ground (arith, h, e, e')) later (get-put d k q responses ∙ rw other found)
      ]
    ]

feasible_at :
    (k : ℕ) (r : DomainResponse) (out : Dict ℕ DomainResponse)
    → get k out ≡ some r
    → is_infeasible out ≡ false
    → r.feasible ≡ true
feasible_at k r [] found h = cc
feasible_at k r ((d, q) ∷ out) found h = elim (Bool-cases (k == d)) [
  | inl same ↦
      let is : q ≡ r = ground (arith, found, same) in
      subst (λ (t : DomainResponse). t.feasible ≡ true) is (ground (arith, h))
  | inr other ↦ feasible_at k r out (ground (arith, found, other)) (ground (arith, h))
]

-- Some answer places the VNF.
abbrev Held : Dict ℕ DomainResponse → Ident → Type 0
Held out w =
    (k : ℕ) × (r : DomainResponse) × (get k out ≡ some r) × (contains w r.placements ≡ true)

dispatch-Held :
    (actors : Dict ℕ DomainActor) (fragments : Dict ℕ PlanFragment)
    (responses out : Dict ℕ DomainResponse) (s s' : SubstrateNetwork) (w : Ident)
    → AllPlace actors
    → dispatch_to_actors actors fragments responses s ≡ (ok out, s')
    → HasUniqueKeys fragments
    → is_infeasible out ≡ false
    → Assigned fragments w
    → Held out w
unfolding dispatch_to_actors
dispatch-Held actors [] responses out s s' w laws h unique fine (x, m, held) = elim m [ ]
dispatch-Held actors ((d, f) ∷ rest) responses out s s' w laws h unique fine (x, m, held) =
    elim (Option-cases (get d actors)) [
      | inl e ↦
          let bare = bare_response d false in
          let sent : dispatch_to_actors actors rest (put d bare responses) s ≡ (ok out, s') =
            ground (arith, h, e) in
          let kept =
            dispatch-get actors rest (put d bare responses) out s s' d bare sent unique.0
              (get-put d d bare responses ∙ rw ((==_iff d d).1 refl) refl) in
          absurd (cc (feasible_at d bare out kept fine))
      | inr (actor, e) ↦ elim (Result-cases (actor.act f s).0) [
        | inr (y, e') ↦ absurd (ground (arith, h, e, e'))
        | inl (q, e') ↦
            let s1 = (actor.act f s).1 in
            let acted : actor.act f s ≡ (ok q, s1) = ap (λ t. (t, s1)) e' in
            let sent : dispatch_to_actors actors rest (put d q responses) s1 ≡ (ok out, s') =
              ground (arith, h, e, e') in
            elim m [
              | Memᴰ.tail t ↦
                  dispatch-Held actors rest (put d q responses) out s1 s' w laws sent unique.1 fine
                    (x, t, held)
              | Memᴰ.head is ↦
                  let kept =
                    dispatch-get actors rest (put d q responses) out s1 s' d q sent unique.0
                      (get-put d d q responses ∙ rw ((==_iff d d).1 refl) refl) in
                  let (a, inside, named) = held in
                  let inside' : Memᴰ a f.vnf_assignments =
                    subst (λ (t : ℕ × PlanFragment). Memᴰ a t.1.vnf_assignments) is inside in
                  (
                    d,
                    q,
                    kept,
                    subst (λ t. contains t q.placements ≡ true) named
                        (mem_of_all (λ v. contains v.vnf_id q.placements ≡ true) a f.vnf_assignments
                          inside' (laws d actor e f s s1 q acted (feasible_at d q out kept fine))),
                  )
            ]
      ]
    ]

update-contains :
    (w : Ident) (acc d : Dict Ident Ident)
    → (contains w acc ≡ true) ⊎ (contains w d ≡ true)
    → contains w (update acc d) ≡ true
update-contains w acc [] h = elim h [ inl c ↦ c | inr c ↦ absurd (cc c) ]
update-contains w acc ((k, v) ∷ rest) h = update-contains w (put k v acc) rest (elim h [
  | inl c ↦ inl (contains-put_kept w k v acc c)
  | inr c ↦ elim (Bool-cases (w == k)) [
    | inl same ↦ inl (
        subst (λ t. contains t (put k v acc) ≡ true) (sym ((==_iff w k).0 same))
          (contains-put_self k v acc))
    | inr other ↦ inr (ground (arith, c, other))
  ]
])

gather-contains :
    (w : Ident) (acc : Dict Ident Ident) (out : Dict ℕ DomainResponse)
    → (contains w acc ≡ true) ⊎ Held out w
    → contains w (gather_placements acc (values out)) ≡ true
gather-contains w acc [] h = elim h [ inl c ↦ c | inr (k, r, found, c) ↦ absurd (cc found) ]
gather-contains w acc ((d, q) ∷ out) h = gather-contains w (update acc q.placements) out (elim h [
  | inl c ↦ inl (update-contains w acc q.placements (inl c))
  | inr (k, r, found, c) ↦ elim (Bool-cases (k == d)) [
    | inl same ↦
        let is : r ≡ q = ground (arith, found, same) in
        inl (
          update-contains w acc q.placements
            (inr (subst (λ (t : DomainResponse). contains w t.placements ≡ true) is c)))
    | inr other ↦ inr (k, r, ground (arith, found, other), c)
  ]
])

-- The coordinator's flows are placed at both ends, whatever the network.
pub placers-PlacesEnds :
    (co : MdoCoordinator) (plan : PlanSummary) (partition : List ℕ) (slice_req : SliceRequest)
    (s : SubstrateNetwork)
    → AllPlace co.domain_actors
    → NoRepeat slice_req.flow_edges
    → PlacesEnds co plan partition slice_req s
placers-PlacesEnds co plan partition slice_req s laws nr fragments flows responses s1 built sent
      fine =
    all_ends flows (build_fragments-Assigned plan partition slice_req fragments flows built)
  where
    placed :
        (w : Ident)
        → Assigned fragments w
        → (n : Ident) × (get w (gather_placements [] (values responses)) ≡ some n)
    placed w assigned =
        let (unique, _, _) =
          build_fragments-IsSendable plan partition slice_req fragments flows built nr in
        get_of_contains w (gather_placements [] (values responses)) (
          gather-contains w [] responses (
            inr (
              dispatch-Held co.domain_actors fragments [] responses s s1 w laws sent unique fine
                assigned)))

    all_ends :
        (fs : List FlowEdge)
        → All (λ f. Assigned fragments f.source_vnf × Assigned fragments f.target_vnf) fs
        → All (HasEnds (gather_placements [] (values responses))) fs
    all_ends [] h = tt
    all_ends (f ∷ fs) h =
        let (n, found) = placed f.source_vnf h.0.0 in
        let (m, found') = placed f.target_vnf h.0.1 in ((n, m, found, found'), all_ends fs h.1)
