-- ===== src/Substrate/Composition.antt =====
-- graph_model.py: the composition of the domains across calls.
use orion_v.Prelude.{
  ℤ, ◌+ℤ◌, ◌-ℤ◌, ◌≡◌, refl, ap, ◌∙◌, inl, inr, List, [], ◌∷◌, Bool, arith, any, Option-cases,
  Bool-cases,
}
use orion_v.Prelude.Adjust.{adjust}
use orion_v.Prelude.Dict.{Dict, get, contains, nat_eq}
use orion_v.Prelude.Fail.{Result-cases}
use orion_v.Types.{Ident, Node, PlacementPlan, SliceRequest}
use orion_v.Substrate.{
  Graph, SubstrateNetwork, node_key, find_node, charged_node, shift_node, charge_placements,
  allocate, deallocate,
}
use orion_v.Substrate.Charge.{charge_flows-nodes}

any-adjust :
    (p : Node → Bool) (f : Node → Node) (n : Ident) (ns : List Node)
    → ((x : Node) → p (f x) ≡ p x)
    → any p (adjust node_key n f ns) ≡ any p ns
unfolding adjust
any-adjust p f n [] same = refl
any-adjust p f n (x ∷ ns) same = ground (arith, same x, any-adjust p f n ns same)

-- The loop over the placements, wherever it ends.
charge_placements-any :
    (op : ℤ → ℤ → ℤ) (plan : PlacementPlan) (p : Node → Bool) (ps : Dict Ident Ident) (g : Graph)
    → ((c r : ℤ) (x : Node) → p (charged_node op c r x) ≡ p x)
    → any p (charge_placements op plan ps g).1.nodes ≡ any p g.nodes
unfolding charge_placements
charge_placements-any op plan p [] g same = refl
charge_placements-any op plan p ((v, n) ∷ rest) g same =
    elim (Option-cases (get v plan.cpu_allocations)) [
      | inl e ↦ ground arith
      | inr (cpu, e) ↦ elim (Option-cases (get v plan.ram_allocations)) [
        | inl e' ↦ ground arith
        | inr (ram, e') ↦ elim (Option-cases (find_node g n)) [
          | inl e'' ↦ ground arith
          | inr (x, e'') ↦
              let one : charge_placements op plan ((v, n) ∷ rest) g
                  ≡ charge_placements op plan rest (shift_node op n cpu ram g) =
                ground arith in
              ap (λ t. any p t.1.nodes) one
              ∙ charge_placements-any op plan p rest (shift_node op n cpu ram g) same
              ∙ any-adjust p (charged_node op cpu ram) n g.nodes (same cpu ram)
        ]
      ]
    ]

-- A test of the nodes that does not read the residuals.
module _ (p : Node → Bool)
    (same : (op : ℤ → ℤ → ℤ) (c r : ℤ) (x : Node) → p (charged_node op c r x) ≡ p x)
    (plan : PlacementPlan) (req : SliceRequest) (s : SubstrateNetwork) where
  pub allocate-any : any p (allocate plan req s).1.graph.nodes ≡ any p s.graph.nodes
  unfolding allocate
  allocate-any = elim (Bool-cases (contains req.request_id s.active_slices)) [
    | inl there ↦ ground arith
    | inr new ↦
        let placed = charge_placements ◌-ℤ◌ plan plan.vnf_placements s.graph in
        let kept = charge_placements-any ◌-ℤ◌ plan p plan.vnf_placements s.graph (same ◌-ℤ◌) in
        elim (Result-cases placed.0) [
          | inl (u, e) ↦ ground (arith, kept, charge_flows-nodes ◌-ℤ◌ plan.bw_allocations placed.1)
          | inr (x, e) ↦ ground (arith, kept)
        ]
  ]

  pub deallocate-any : any p (deallocate plan req s).1.graph.nodes ≡ any p s.graph.nodes
  unfolding deallocate
  deallocate-any = elim (Bool-cases (contains req.request_id s.active_slices)) [
    | inr absent ↦ ground arith
    | inl there ↦
        let placed = charge_placements ◌+ℤ◌ plan plan.vnf_placements s.graph in
        let kept = charge_placements-any ◌+ℤ◌ plan p plan.vnf_placements s.graph (same ◌+ℤ◌) in
        elim (Result-cases placed.0) [
          | inl (u, e) ↦ ground (arith, kept, charge_flows-nodes ◌+ℤ◌ plan.bw_allocations placed.1)
          | inr (x, e) ↦ ground (arith, kept)
        ]
  ]
