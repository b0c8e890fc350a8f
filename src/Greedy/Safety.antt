-- ===== src/Greedy/Safety.antt =====
-- greedy_domain_actor.py: what holds after a call, and of a feasible answer.
use mathlib.Core.List.{Memᴰ}
use orion_v.Prelude.{
  ◌≡◌, ap, subst, sym, ◌∙◌, inl, inr, List, [], ◌∷◌, true, Option, some, arith, All, Bool-cases,
  Option-cases, ◌==◌, ltb, length, ==_iff,
}
use orion_v.Prelude.Dict.{get, nat_eq}
use orion_v.Prelude.Fail.{Result, ok, Result-cases}
use orion_v.Prelude.Adjust.{find}
use orion_v.Prelude.Sort.{sort, All-sort, mem-sort}
use orion_v.Types.{Ident}
use orion_v.Types.Mdo.{VnfAssignment, PlanFragment, is_empty, DomainResponse}
use orion_v.Substrate.{Graph, SubstrateNetwork, node_key, nodes_in_domain}
use orion_v.Routing.{Networkx}
use orion_v.Greedy.{
  GreedyDomainActor, Placing, Connecting, place_all, route_all, first_placing, first_connecting,
  lt_vnf, response, place_and_route, act,
}
use orion_v.Greedy.Rollback.{act-infeasible}
use orion_v.Greedy.Seating.{NodesFit, Has, Inside, Seated, place_all-Seated, route_all-nodes}

module _ (nx : Networkx) (a : GreedyDomainActor) (s : SubstrateNetwork) (ns : List Ident)
    (fragment : PlanFragment) where
  abbrev pub placing_of : Graph → Result (Option Placing) × Graph
  placing_of g =
      place_all (sort lt_vnf fragment.vnf_assignments) ns (first_placing fragment.delay_budget_ms) g

  abbrev pub routing_of : Placing → Graph → Result (Option Connecting) × Graph
  routing_of p g = route_all nx a s ns p fragment.intra_flows (first_connecting p.delay_remaining) g

  -- A feasible attempt ran both loops to their ends.
  pub attempt-feasible :
      (g g' : Graph) (r : DomainResponse)
      → place_and_route nx a s ns fragment g ≡ (ok r, g')
      → r.feasible ≡ true
      → (p : Placing) × (g1 : Graph) × (c : Connecting) × (placing_of g ≡ (ok (some p), g1))
        × (routing_of p g1 ≡ (ok (some c), g'))
        × (r ≡ response a.domain_id p c)
  unfolding place_and_route
  attempt-feasible g g' r h feas = elim (Result-cases (placing_of g).0) [
    | inr (x, e) ↦ absurd (ground arith)
    | inl (o, e) ↦ elim (Option-cases o) [
      | inl e' ↦ absurd (ground arith)
      | inr (p, e') ↦
          let g1 = (placing_of g).1 in
          let placed : placing_of g ≡ (ok (some p), g1) = ap (λ t. (t, g1)) (e ∙ ap ok e') in
          elim (Result-cases (routing_of p g1).0) [
            | inr (x, d) ↦ absurd (ground arith)
            | inl (q, d) ↦ elim (Option-cases q) [
              | inl d' ↦ absurd (ground arith)
              | inr (c, d') ↦
                  let routed : routing_of p g1 ≡ (ok (some c), (routing_of p g1).1) =
                    ap (λ t. (t, (routing_of p g1).1)) (d ∙ ap ok d') in
                  (p, g1, c, placed, ground arith, ground arith)
            ]
          ]
    ]
  ]

  attempt-Seated :
      (g g' : Graph) (r : DomainResponse)
      → place_and_route nx a s ns fragment g ≡ (ok r, g')
      → r.feasible ≡ true
      → (p : Placing) × (r.placements ≡ p.placements)
        × Seated ns
            (sort lt_vnf fragment.vnf_assignments)
            (first_placing fragment.delay_budget_ms)
            p
            g
            g'
  attempt-Seated g g' r h feas =
      let (p, g1, c, placed, routed, e) = attempt-feasible g g' r h feas in
      let done =
        place_all-Seated ns (sort lt_vnf fragment.vnf_assignments)
          (first_placing fragment.delay_budget_ms) p g g1 placed (λ w n k. cc k) in
      let same =
        route_all-nodes nx a s ns p fragment.intra_flows (first_connecting p.delay_remaining) c g1
          g' routed in
      (
        p,
        ap (λ (t : DomainResponse). t.placements) e,
        record {
          fit = λ fits n x k. done.fit fits n x (ap (find node_key n) (sym same) ∙ k);
          inside = done.inside;
          kept = done.kept;
          placed = done.placed;
        },
      )

module _ (nx : Networkx) (a : GreedyDomainActor) (fragment : PlanFragment) (s s' : SubstrateNetwork)
    (r : DomainResponse) (h : act nx a fragment s ≡ (ok r, s')) where
  abbrev ns : List Ident
  ns = sort ltb (nodes_in_domain s a.domain_id)

  -- If no CPU or RAM residual was below 0 before the call, none is after it, whatever the answer.
  pub act-NodesFit : NodesFit s.graph → NodesFit s'.graph
  unfolding act
  act-NodesFit fit = elim (Bool-cases r.feasible) [
    | inr infeasible ↦
        subst (λ (t : SubstrateNetwork). NodesFit t.graph)
          (sym (act-infeasible nx a fragment s s' r h infeasible)) fit
    | inl feas ↦ elim (Bool-cases (is_empty fragment)) [
      | inl none_assigned ↦ subst NodesFit {x = s.graph} {y = s'.graph} (ground arith) fit
      | inr some_assigned ↦ elim (Bool-cases (length ns == 0)) [
        | inl no_nodes ↦ absurd (ground arith)
        | inr has_nodes ↦
            let (p, e, done) =
              attempt-Seated nx a s ns fragment s.graph s'.graph r (ground arith) feas in
            done.fit fit
      ]
    ]
  ]

  -- A feasible answer places every VNF of the fragment, each on a node of the actor's domain.
  pub act-placements :
      r.feasible ≡ true
      → All
          (λ v.
            (n : Ident) × (get v.vnf_id r.placements ≡ some n)
            × Memᴰ n (nodes_in_domain s a.domain_id))
          fragment.vnf_assignments
  unfolding act
  act-placements feas = elim (Bool-cases (is_empty fragment)) [
    | inl none_assigned ↦ nothing_to_place fragment.vnf_assignments none_assigned
    | inr some_assigned ↦ elim (Bool-cases (length ns == 0)) [
      | inl no_nodes ↦ absurd (ground arith)
      | inr has_nodes ↦
          let (p, e, done) =
            attempt-Seated nx a s ns fragment s.graph s'.graph r (ground arith) feas in
          placed_inside p e done.inside fragment.vnf_assignments
            (All-sort lt_vnf (λ v. Has v.vnf_id p) fragment.vnf_assignments done.placed)
    ]
  ]
    where
      nothing_to_place :
          (vs : List VnfAssignment)
          → length vs == 0 ≡ true
          → All
              (λ v.
                (n : Ident) × (get v.vnf_id r.placements ≡ some n)
                × Memᴰ n (nodes_in_domain s a.domain_id))
              vs
      nothing_to_place [] e = tt
      nothing_to_place (v ∷ vs) e = absurd (omega (arith, (==_iff (length (v ∷ vs)) 0).0 e))

      placed_inside :
          (p : Placing)
          → r.placements ≡ p.placements
          → Inside ns p
          → (vs : List VnfAssignment) → All (λ v. Has v.vnf_id p) vs
          → All
              (λ v.
                (n : Ident) × (get v.vnf_id r.placements ≡ some n)
                × Memᴰ n (nodes_in_domain s a.domain_id))
              vs
      placed_inside p e inside [] k = tt
      placed_inside p e inside (v ∷ vs) k =
          let (n, f) = k.0 in
          (
            (
              n,
              ap (get v.vnf_id) e ∙ f,
              mem-sort ltb n (nodes_in_domain s a.domain_id) (inside v.vnf_id n f),
            ),
            placed_inside p e inside vs k.1,
          )
