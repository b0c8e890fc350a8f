-- ===== src/Substrate/Charge.antt =====
-- The loops of `allocate` and `deallocate`: what one round does, and that charges commute.
use orion_v.Prelude.{
  ℤ, ◌≡◌, refl, ap, ◌∙◌, ◌==◌, if◌then◌else◌, inl, inr, List, [], ◌∷◌, some, arith, Option-cases,
}
use orion_v.Prelude.Dict.{Dict, get, nat_eq}
use orion_v.Prelude.Fail.{ok}
use orion_v.Prelude.Adjust.{find-adjust, adjust_comm}
use orion_v.Types.{Ident, FlowKey, Node, Link, PlacementPlan}
use orion_v.Substrate.{
  Graph, node_key, link_key, find_node, charged_node, charged_link, shift_node, shift_link,
  charge_placements, charge_links, charge_flows,
}

-- A round of the loop over the placements that does not raise.
module _ (op : ℤ → ℤ → ℤ) (plan : PlacementPlan) where
  pub charge_placements-cons :
      (v n : Ident) (rest : Dict Ident Ident) (g g' : Graph)
      → charge_placements op plan ((v, n) ∷ rest) g ≡ (ok tt, g')
      → (cpu : ℤ) × (ram : ℤ) × (x : Node) × (get v plan.cpu_allocations ≡ some cpu)
        × (get v plan.ram_allocations ≡ some ram)
        × (find_node g n ≡ some x)
        × (charge_placements op plan rest (shift_node op n cpu ram g) ≡ (ok tt, g'))
  unfolding charge_placements
  charge_placements-cons v n rest g g' h = elim (Option-cases (get v plan.cpu_allocations)) [
    | inl e ↦ ground arith
    | inr (cpu, e) ↦ elim (Option-cases (get v plan.ram_allocations)) [
      | inl e' ↦ ground arith
      | inr (ram, e') ↦ elim (Option-cases (find_node g n)) [
        | inl e'' ↦ ground arith
        | inr (x, e'') ↦ (cpu, ram, x, e, e', e'', ground arith)
      ]
    ]
  ]

  pub charge_placements_step :
      (v n : Ident) (rest : Dict Ident Ident) (g : Graph) {cpu ram : ℤ} {x : Node}
      → get v plan.cpu_allocations ≡ some cpu
      → get v plan.ram_allocations ≡ some ram
      → find_node g n ≡ some x
      → charge_placements op plan ((v, n) ∷ rest) g
        ≡ charge_placements op plan rest (shift_node op n cpu ram g)
  unfolding charge_placements
  charge_placements_step v n rest g e e' e'' = ground arith

-- A charge at a node commutes with one at another, and with a whole loop of them.
module _ (op op' : ℤ → ℤ → ℤ) (swap : (a b c : ℤ) → op (op' a b) c ≡ op' (op a c) b) where
  pub shift_node_comm :
      (n m : Ident) (c r c' r' : ℤ) (g : Graph)
      → shift_node op n c r (shift_node op' m c' r' g)
        ≡ shift_node op' m c' r' (shift_node op n c r g)
  shift_node_comm n m c r c' r' g =
      ap (λ l. record g { nodes = l })
        (adjust_comm node_key (charged_node op c r) (λ _. refl) (charged_node op' c' r') n m g.nodes
          (λ _. refl) (λ x. cc (swap x.cpu_residual c' c, swap x.ram_residual r' r)))

  pub shift_link_comm :
      (l k : Ident) (b b' : ℤ) (g : Graph)
      → shift_link op l b (shift_link op' k b' g) ≡ shift_link op' k b' (shift_link op l b g)
  shift_link_comm l k b b' g =
      ap (λ e. record g { edges = e })
        (adjust_comm link_key (charged_link op b) (λ _. refl) (charged_link op' b') l k g.edges
          (λ _. refl) (λ x. cc (swap x.bw_residual b' b)))

  pub charge_links_comm :
      (per_link : Dict Ident ℤ) (k : Ident) (b : ℤ) (g : Graph)
      → charge_links op per_link (shift_link op' k b g)
        ≡ shift_link op' k b (charge_links op per_link g)
  unfolding charge_links
  charge_links_comm [] k b g = refl
  charge_links_comm ((l, c) ∷ rest) k b g =
      rw (shift_link_comm l k c b g) (charge_links_comm rest k b (shift_link op l c g))

  charge_flows_comm :
      (fs : Dict FlowKey (Dict Ident ℤ)) (k : Ident) (b : ℤ) (g : Graph)
      → charge_flows op fs (shift_link op' k b g) ≡ shift_link op' k b (charge_flows op fs g)
  unfolding charge_flows
  charge_flows_comm [] k b g = refl
  charge_flows_comm ((_, ls) ∷ rest) k b g =
      rw (charge_links_comm ls k b g) (charge_flows_comm rest k b (charge_links op ls g))

  pub charge_flows_comm_links :
      (fs : Dict FlowKey (Dict Ident ℤ)) (ls : Dict Ident ℤ) (g : Graph)
      → charge_links op' ls (charge_flows op fs g) ≡ charge_flows op fs (charge_links op' ls g)
  unfolding charge_links
  charge_flows_comm_links fs [] g = refl
  charge_flows_comm_links fs ((k, b) ∷ rest) g =
      rw (← charge_flows_comm fs k b g) (charge_flows_comm_links fs rest (shift_link op' k b g))

-- The placements read and write nodes alone, the flows links alone.
module _ (op : ℤ → ℤ → ℤ) where
  pub find_after :
      (n m : Ident) (c r : ℤ) (g : Graph) {x : Node}
      → find_node g m ≡ some x
      → (y : Node) × (find_node (shift_node op n c r g) m ≡ some y)
  find_after n m c r g {x} h = (
    if m == n then charged_node op c r x else x,
    find-adjust node_key (charged_node op c r) (λ _. refl) m n g.nodes ∙ ground arith,
  )

  pub find_kept :
      (plan : PlacementPlan) (ps : Dict Ident Ident) (g g' : Graph) (m : Ident) {x : Node}
      → charge_placements op plan ps g ≡ (ok tt, g')
      → find_node g m ≡ some x
      → (y : Node) × (find_node g' m ≡ some y)
  unfolding charge_placements
  find_kept plan [] g g' m {x} h f = (x, cc)
  find_kept plan ((v, n) ∷ rest) g g' m h f =
      let (cpu, ram, _, _, _, _, h') = charge_placements-cons op plan v n rest g g' h in
      let (y, f') = find_after n m cpu ram g f in
      find_kept plan rest (shift_node op n cpu ram g) g' m h' f'

  pub charge_placements-edges :
      (plan : PlacementPlan) (ps : Dict Ident Ident) (g g' : Graph)
      → charge_placements op plan ps g ≡ (ok tt, g')
      → g'.edges ≡ g.edges
  unfolding charge_placements
  charge_placements-edges plan [] g g' h = cc
  charge_placements-edges plan ((v, n) ∷ rest) g g' h =
      let (cpu, ram, _, _, _, _, h') = charge_placements-cons op plan v n rest g g' h in
      charge_placements-edges plan rest (shift_node op n cpu ram g) g' h'

  pub charge_placements_frame :
      (plan : PlacementPlan) (ps : Dict Ident Ident) (g g' : Graph) (e : List Link)
      → charge_placements op plan ps g ≡ (ok tt, g')
      → charge_placements op plan ps (record g { edges = e }) ≡ (ok tt, record g' { edges = e })
  unfolding charge_placements
  charge_placements_frame plan [] g g' e h = cc
  charge_placements_frame plan ((v, n) ∷ rest) g g' e h =
      let (cpu, ram, _, c, r, f, h') = charge_placements-cons op plan v n rest g g' h in
      charge_placements_step op plan v n rest (record g { edges = e }) c r f
      ∙ charge_placements_frame plan rest (shift_node op n cpu ram g) g' e h'

  charge_links_frame :
      (ls : Dict Ident ℤ) (g : Graph) (ns : List Node)
      → charge_links op ls (record g { nodes = ns }) ≡ record (charge_links op ls g) { nodes = ns }
  unfolding charge_links
  charge_links_frame [] g ns = refl
  charge_links_frame ((l, b) ∷ rest) g ns = charge_links_frame rest (shift_link op l b g) ns

  pub charge_flows_frame :
      (fs : Dict FlowKey (Dict Ident ℤ)) (g : Graph) (ns : List Node)
      → charge_flows op fs (record g { nodes = ns }) ≡ record (charge_flows op fs g) { nodes = ns }
  unfolding charge_flows
  charge_flows_frame [] g ns = refl
  charge_flows_frame ((k, ls) ∷ rest) g ns =
      rw (charge_links_frame ls g ns) (charge_flows_frame rest (charge_links op ls g) ns)

  -- With the nodes as they were, this says that the flows leave them alone.
  pub charge_flows-nodes :
      (fs : Dict FlowKey (Dict Ident ℤ)) (g : Graph) → (charge_flows op fs g).nodes ≡ g.nodes
  charge_flows-nodes fs g = ap (λ h. h.nodes) (charge_flows_frame fs g g.nodes)
