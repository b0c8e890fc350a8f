-- ===== src/Substrate/Use.antt =====
-- graph_model.py: what the loops of `allocate` and `deallocate` do to each residual, in closed form.
use orion_v.Prelude.{
  ℤ, pos, ◌+ℤ◌, ◌≡◌, refl, ◌∙◌, [], ◌∷◌, some, none, true, false, arith, ◌==◌, ap, Bool, zero-add_ℤ,
  if◌then◌else◌,
}
use orion_v.Prelude.Sum.{sum_by}
use orion_v.Prelude.Dict.{Dict, nat_eq, get, get_or}
use orion_v.Prelude.Fail.{ok}
use orion_v.Prelude.Adjust.{find, find-adjust}
use orion_v.Types.{Ident, FlowKey, Node, Link, PlacementPlan}
use orion_v.Substrate.{
  Graph, node_key, link_key, find_node, charged_node, charged_link, shift_node, shift_link,
  charge_placements, charge_links, charge_flows,
}
use orion_v.Substrate.Charge.{charge_placements-cons}

-- What the placements use of a node, by the table of their CPU or RAM allocations.
abbrev pub node_use : Dict Ident ℤ → Ident → Dict Ident Ident → ℤ
node_use alloc id = sum_by (λ p. if id == p.1 then get_or p.0 (pos 0) alloc else pos 0)

-- What one flow uses of a link, and what all flows use of it.
abbrev pub hop_use : Ident → Dict Ident ℤ → ℤ
hop_use id = sum_by (λ p. if id == p.0 then p.1 else pos 0)

abbrev pub link_use : Ident → Dict FlowKey (Dict Ident ℤ) → ℤ
link_use id = sum_by (λ f. hop_use id f.1)

module _ (op : ℤ → ℤ → ℤ) (zero_right : (a : ℤ) → op a (pos 0) ≡ a)
    (add_right : (a b c : ℤ) → op (op a b) c ≡ op a (b +ℤ c)) where
  charged_node_step :
      (b : Bool) (cpu ram uc ur : ℤ) (x : Node)
      → charged_node op uc ur (if b then charged_node op cpu ram x else x)
        ≡ charged_node op ((if b then cpu else pos 0) +ℤ uc) ((if b then ram else pos 0) +ℤ ur) x
  charged_node_step true cpu ram uc ur x =
      cc (add_right x.cpu_residual cpu uc, add_right x.ram_residual ram ur)
  charged_node_step false cpu ram uc ur x = simp zero-add_ℤ

  charged_link_step :
      (b : Bool) (bw u : ℤ) (x : Link)
      → charged_link op u (if b then charged_link op bw x else x)
        ≡ charged_link op ((if b then bw else pos 0) +ℤ u) x
  charged_link_step true bw u x = cc (add_right x.bw_residual bw u)
  charged_link_step false bw u x = simp zero-add_ℤ

  get_or-eq : (k : Ident) (d : Dict Ident ℤ) {v : ℤ} → get k d ≡ some v → get_or k (pos 0) d ≡ v
  get_or-eq k d h = ground arith

  pub charge_placements_use :
      (plan : PlacementPlan) (ps : Dict Ident Ident) (g g' : Graph) (id : Ident) (x : Node)
      → charge_placements op plan ps g ≡ (ok tt, g')
      → find_node g id ≡ some x
      → find_node g' id
        ≡ some (
            charged_node op
              (node_use plan.cpu_allocations id ps)
              (node_use plan.ram_allocations id ps)
              x)
  unfolding charge_placements
  charge_placements_use plan [] g g' id x h f =
      ground (arith, zero_right x.cpu_residual, zero_right x.ram_residual)
  charge_placements_use plan ((v, n) ∷ rest) g g' id x h f =
      let (cpu, ram, _, ec, er, _, h') = charge_placements-cons op plan v n rest g g' h in
      let next = if id == n then charged_node op cpu ram x else x in
      let f' : find_node (shift_node op n cpu ram g) id ≡ some next =
        find-adjust node_key (charged_node op cpu ram) (λ _. refl) id n g.nodes ∙ ground arith in
      charge_placements_use plan rest (shift_node op n cpu ram g) g' id next h' f'
      ∙ ap some (
          rw (get_or-eq v plan.cpu_allocations ec, get_or-eq v plan.ram_allocations er)
            (charged_node_step (id == n) cpu ram (node_use plan.cpu_allocations id rest)
              (node_use plan.ram_allocations id rest) x))

  charge_links_use :
      (ls : Dict Ident ℤ) (g : Graph) (id : Ident) (x : Link)
      → find link_key id g.edges ≡ some x
      → find link_key id (charge_links op ls g).edges ≡ some (charged_link op (hop_use id ls) x)
  unfolding charge_links
  charge_links_use [] g id x f = ground (arith, zero_right x.bw_residual)
  charge_links_use ((l, bw) ∷ rest) g id x f =
      let next = if id == l then charged_link op bw x else x in
      let f' : find link_key id (shift_link op l bw g).edges ≡ some next =
        find-adjust link_key (charged_link op bw) (λ _. refl) id l g.edges ∙ ground arith in
      charge_links_use rest (shift_link op l bw g) id next f'
      ∙ ap some (charged_link_step (id == l) bw (hop_use id rest) x)

  pub charge_flows_use :
      (fs : Dict FlowKey (Dict Ident ℤ)) (g : Graph) (id : Ident) (x : Link)
      → find link_key id g.edges ≡ some x
      → find link_key id (charge_flows op fs g).edges ≡ some (charged_link op (link_use id fs) x)
  unfolding charge_flows
  charge_flows_use [] g id x f = ground (arith, zero_right x.bw_residual)
  charge_flows_use ((k, ls) ∷ rest) g id x f =
      charge_flows_use rest (charge_links op ls g) id (charged_link op (hop_use id ls) x)
        (charge_links_use ls g id x f)
      ∙ ap some (charged_link_step true (hop_use id ls) (link_use id rest) x)

  -- What was not there is not there afterwards.
  pub charge_placements_absent :
      (plan : PlacementPlan) (ps : Dict Ident Ident) (g g' : Graph) (id : Ident)
      → charge_placements op plan ps g ≡ (ok tt, g')
      → find_node g id ≡ none
      → find_node g' id ≡ none
  unfolding charge_placements
  charge_placements_absent plan [] g g' id h f = cc
  charge_placements_absent plan ((v, n) ∷ rest) g g' id h f =
      let (cpu, ram, _, _, _, _, h') = charge_placements-cons op plan v n rest g g' h in
      charge_placements_absent plan rest (shift_node op n cpu ram g) g' id h'
        (find-adjust node_key (charged_node op cpu ram) (λ _. refl) id n g.nodes ∙ ground arith)

  charge_links_absent :
      (ls : Dict Ident ℤ) (g : Graph) (id : Ident)
      → find link_key id g.edges ≡ none
      → find link_key id (charge_links op ls g).edges ≡ none
  unfolding charge_links
  charge_links_absent [] g id f = f
  charge_links_absent ((l, bw) ∷ rest) g id f =
      charge_links_absent rest (shift_link op l bw g) id
        (find-adjust link_key (charged_link op bw) (λ _. refl) id l g.edges ∙ ground arith)

  pub charge_flows_absent :
      (fs : Dict FlowKey (Dict Ident ℤ)) (g : Graph) (id : Ident)
      → find link_key id g.edges ≡ none
      → find link_key id (charge_flows op fs g).edges ≡ none
  unfolding charge_flows
  charge_flows_absent [] g id f = f
  charge_flows_absent ((k, ls) ∷ rest) g id f =
      charge_flows_absent rest (charge_links op ls g) id (charge_links_absent ls g id f)
