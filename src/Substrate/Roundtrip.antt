-- ===== src/Substrate/Roundtrip.antt =====
-- graph_model.py: `allocate` and then `deallocate`.
use orion_v.Prelude.{
  ℤ, ◌+ℤ◌, ◌-ℤ◌, ◌≡◌, refl, ◌∙◌, sym, ap, [], ◌∷◌, arith, sub-add_cancel, sub-add_comm,
}
use orion_v.Prelude.Dict.{Dict, nat_eq, del-put_new, contains-put_self}
use orion_v.Prelude.Fail.{ok}
use orion_v.Prelude.Adjust.{adjust_undo}
use orion_v.Types.{Ident, FlowKey, PlacementPlan, SliceRequest}
use orion_v.Substrate.{
  Graph, SubstrateNetwork, node_key, link_key, charged_node, charged_link, shift_node, shift_link,
  charge_placements, charge_links, charge_flows, allocate, deallocate,
}
use orion_v.Substrate.Calls.{allocate-eq-ok}
use orion_v.Substrate.Charge.{
  charge_placements-cons, charge_placements_step, shift_node_comm, charge_links_comm,
  charge_flows_comm_links, find_after, find_kept, charge_placements-edges, charge_placements_frame,
  charge_flows_frame, charge_flows-nodes,
}

shift_node_undo :
    (n : Ident) (c r : ℤ) (g : Graph) → shift_node ◌+ℤ◌ n c r (shift_node ◌-ℤ◌ n c r g) ≡ g
shift_node_undo n c r g =
    ap (λ l. record g { nodes = l })
      (adjust_undo node_key (charged_node ◌-ℤ◌ c r) (λ _. refl) (charged_node ◌+ℤ◌ c r) n g.nodes
        (λ x. cc (sub-add_cancel x.cpu_residual c, sub-add_cancel x.ram_residual r)))

pub shift_link_undo :
    (l : Ident) (b : ℤ) (g : Graph) → shift_link ◌+ℤ◌ l b (shift_link ◌-ℤ◌ l b g) ≡ g
shift_link_undo l b g =
    ap (λ e. record g { edges = e })
      (adjust_undo link_key (charged_link ◌-ℤ◌ b) (λ _. refl) (charged_link ◌+ℤ◌ b) l g.edges
        (λ x. cc (sub-add_cancel x.bw_residual b)))

-- A credit before the loop is a credit after it.
charge_placements_comm :
    (plan : PlacementPlan) (ps : Dict Ident Ident) (n : Ident) (c r : ℤ) (g g' : Graph)
    → charge_placements ◌-ℤ◌ plan ps g ≡ (ok tt, g')
    → charge_placements ◌-ℤ◌ plan ps (shift_node ◌+ℤ◌ n c r g) ≡ (ok tt, shift_node ◌+ℤ◌ n c r g')
unfolding charge_placements
charge_placements_comm plan [] n c r g g' h = cc
charge_placements_comm plan ((v, m) ∷ rest) n c r g g' h =
    let (cpu, ram, x, ec, er, ef, h') = charge_placements-cons ◌-ℤ◌ plan v m rest g g' h in
    let (y, ef') = find_after ◌+ℤ◌ n m c r g ef in
    charge_placements_step ◌-ℤ◌ plan v m rest (shift_node ◌+ℤ◌ n c r g) ec er ef'
    ∙ rw (shift_node_comm ◌-ℤ◌ ◌+ℤ◌ (λ a b d. sym (sub-add_comm a d b)) m n cpu ram c r g)
        (charge_placements_comm plan rest n c r (shift_node ◌-ℤ◌ m cpu ram g) g' h')

charge_placements_undo :
    (plan : PlacementPlan) (ps : Dict Ident Ident) (g g' : Graph)
    → charge_placements ◌-ℤ◌ plan ps g ≡ (ok tt, g')
    → charge_placements ◌+ℤ◌ plan ps g' ≡ (ok tt, g)
unfolding charge_placements
charge_placements_undo plan [] g g' h = cc
charge_placements_undo plan ((v, n) ∷ rest) g g' h =
    let (cpu, ram, x, ec, er, ef, h') = charge_placements-cons ◌-ℤ◌ plan v n rest g g' h in
    let (y, ef') = find_kept ◌-ℤ◌ plan ((v, n) ∷ rest) g g' n h ef in
    let back =
      rw (shift_node_undo n cpu ram g) at
        (charge_placements_comm plan rest n cpu ram (shift_node ◌-ℤ◌ n cpu ram g) g' h') in
    charge_placements_step ◌+ℤ◌ plan v n rest g' ec er ef'
    ∙ charge_placements_undo plan rest g (shift_node ◌+ℤ◌ n cpu ram g') back

charge_links_undo :
    (ls : Dict Ident ℤ) (g : Graph) → charge_links ◌+ℤ◌ ls (charge_links ◌-ℤ◌ ls g) ≡ g
unfolding charge_links
charge_links_undo [] g = refl
charge_links_undo ((l, b) ∷ rest) g =
    ap (charge_links ◌+ℤ◌ rest) (
      sym (
        charge_links_comm ◌-ℤ◌ ◌+ℤ◌ (λ a c d. sym (sub-add_comm a d c)) rest l b
          (shift_link ◌-ℤ◌ l b g))
      ∙ ap (charge_links ◌-ℤ◌ rest) (shift_link_undo l b g))
    ∙ charge_links_undo rest g

charge_flows_undo :
    (fs : Dict FlowKey (Dict Ident ℤ)) (g : Graph)
    → charge_flows ◌+ℤ◌ fs (charge_flows ◌-ℤ◌ fs g) ≡ g
unfolding charge_flows
charge_flows_undo [] g = refl
charge_flows_undo ((k, ls) ∷ rest) g =
    ap (charge_flows ◌+ℤ◌ rest) (
      charge_flows_comm_links ◌-ℤ◌ ◌+ℤ◌ (λ a c d. sym (sub-add_comm a d c)) rest ls
        (charge_links ◌-ℤ◌ ls g)
      ∙ ap (charge_flows ◌-ℤ◌ rest) (charge_links_undo ls g))
    ∙ charge_flows_undo rest g

-- The two halves of `deallocate` give back the graph.
module _ (plan : PlacementPlan) (g g' : Graph)
    (placed : charge_placements ◌-ℤ◌ plan plan.vnf_placements g ≡ (ok tt, g')) where
  abbrev after : Graph
  after = charge_flows ◌-ℤ◌ plan.bw_allocations g'

  placements_back :
      charge_placements ◌+ℤ◌ plan plan.vnf_placements after
      ≡ (ok tt, record g { edges = after.edges })
  placements_back =
      let split : after ≡ record g' { edges = after.edges } =
        ap (λ ns. record { nodes = ns; edges = after.edges })
          (charge_flows-nodes ◌-ℤ◌ plan.bw_allocations g') in
      ap (charge_placements ◌+ℤ◌ plan plan.vnf_placements) split
      ∙ charge_placements_frame ◌+ℤ◌ plan plan.vnf_placements g' g after.edges
          (charge_placements_undo plan plan.vnf_placements g g' placed)

  flows_back : charge_flows ◌+ℤ◌ plan.bw_allocations (record g { edges = after.edges }) ≡ g
  flows_back =
      charge_flows_frame ◌+ℤ◌ plan.bw_allocations after g.nodes
      ∙ ap (λ (h : Graph). record h { nodes = g.nodes }) (charge_flows_undo plan.bw_allocations g')
      ∙ ap (λ e. record g { edges = e })
          (charge_placements-edges ◌-ℤ◌ plan plan.vnf_placements g g' placed)

-- A round trip: once `allocate` has returned, `deallocate` of the same plan and request returns too,
-- and the network is what it was, residuals and registry.
pub deallocate-allocate :
    (plan : PlacementPlan) (req : SliceRequest) (s s' : SubstrateNetwork)
    → allocate plan req s ≡ (ok tt, s')
    → deallocate plan req s' ≡ (ok tt, s)
unfolding deallocate
deallocate-allocate plan req s s' h =
    let (new, g, placed, e) = allocate-eq-ok plan req s s' h in
    rw e (
      ground (
        arith,
        contains-put_self req.request_id (plan, req) s.active_slices,
        del-put_new req.request_id (plan, req) s.active_slices new,
        placements_back plan s.graph g placed,
        flows_back plan s.graph g placed,
      ))
