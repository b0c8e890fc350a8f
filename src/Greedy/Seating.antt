-- ===== src/Greedy/Seating.antt =====
-- greedy_domain_actor.py: what the two loops of a call do when they come to their ends.
use mathlib.Core.List.{Memᴰ}
use orion_v.Prelude.{
  ℤ, pos, ◌-ℤ◌, ◌≤ℤ◌, ◌≡◌, refl, subst, sym, ◌∙◌, inl, inr, List, [], ◌∷◌, some, arith, int_laws,
  All, Bool-cases, Option-cases, ◌==◌, ==_iff,
}
use orion_v.Prelude.Dict.{get, nat_eq, get-put, get-put_self}
use orion_v.Prelude.Fail.{ok, Result-cases}
use orion_v.Prelude.Adjust.{find-adjust}
use orion_v.Types.{Ident, Node, FlowEdge}
use orion_v.Types.Mdo.{VnfAssignment}
use orion_v.Substrate.{Graph, SubstrateNetwork, node_key, find_node, charged_node, shift_node}
use orion_v.Routing.{Networkx, min_delay, route_flow, charge_route, allocate_route_bw}
use orion_v.Greedy.{
  GreedyDomainActor, Placing, Connecting, seat, select_node, place_all, connect, colocate,
  route_all,
}
use orion_v.Greedy.Choice.{chosen, nobody, select_node-Choice}
use orion_v.Greedy.Rollback.{route_all_routed}

-- No node is overcommitted.
abbrev pub NodesFit : Graph → Type 0
NodesFit g =
    (n : Ident) (x : Node)
    → find_node g n ≡ some x
    → (pos 0 ≤ℤ x.cpu_residual) × (pos 0 ≤ℤ x.ram_residual)

shift-NodesFit :
    (g : Graph) (v : VnfAssignment) (n : Ident) (d : Node)
    → find_node g n ≡ some d
    → (v.cpu_demand ≤ℤ d.cpu_residual) × (v.ram_demand ≤ℤ d.ram_residual)
    → NodesFit g
    → NodesFit (shift_node ◌-ℤ◌ n v.cpu_demand v.ram_demand g)
shift-NodesFit g v n d f room fit m y h =
    let after =
      sym
        (find-adjust node_key (charged_node ◌-ℤ◌ v.cpu_demand v.ram_demand) (λ _. refl) m n g.nodes)
      ∙ h in
    elim (Bool-cases (m == n)) [
      | inl same ↦
          let f' : find_node g m ≡ some d = rw ((==_iff m n).0 same) f in
          let e : y ≡ charged_node ◌-ℤ◌ v.cpu_demand v.ram_demand d = ground arith in
          let cpu = room.0 in
          let ram = room.1 in rw e (omega (int_laws, cpu), omega (int_laws, ram))
      | inr ne ↦ fit m y (ground arith)
    ]

charge_route-nodes :
    (op : ℤ → ℤ → ℤ) (b : ℤ) (ls : List Ident) (g : Graph)
    → (charge_route op b ls g).nodes ≡ g.nodes
charge_route-nodes op b [] g = refl
charge_route-nodes op b (l ∷ ls) g = charge_route-nodes op b ls _

abbrev pub Has : Ident → Placing → Type 0
Has w p = (n : Ident) × (get w p.placements ≡ some n)

abbrev pub Inside : List Ident → Placing → Type 0
Inside ns p = (w n : Ident) → get w p.placements ≡ some n → Memᴰ n ns

-- What the placing loop does when it comes to its end.
pub record Seated (ns : List Ident) (vs : List VnfAssignment) (p p' : Placing) (g g' : Graph)
    : Type 0 where
  pub fit : NodesFit g → NodesFit g'
  pub inside : Inside ns p'
  pub kept : (w : Ident) → Has w p → Has w p'
  pub placed : All (λ v. Has v.vnf_id p') vs

Has-seat :
    (v : VnfAssignment) (n : Ident) (d : Node) (p : Placing) (w : Ident)
    → Has w p
    → Has w (seat v n d p)
Has-seat v n d p w (m, h) = elim (Bool-cases (w == v.vnf_id)) [
  | inl same ↦ (n, get-put v.vnf_id w n p.placements ∙ rw same refl)
  | inr other ↦ (m, get-put v.vnf_id w n p.placements ∙ rw other h)
]

Inside-seat :
    (ns : List Ident) (v : VnfAssignment) (n : Ident) (d : Node) (p : Placing)
    → Memᴰ n ns
    → Inside ns p
    → Inside ns (seat v n d p)
Inside-seat ns v n d p t h w m e =
    let e' = sym (get-put v.vnf_id w n p.placements) ∙ e in
    elim (Bool-cases (w == v.vnf_id)) [
      | inl same ↦ let here : n ≡ m = ground arith in subst (λ k. Memᴰ k ns) here t
      | inr other ↦ h w m (ground arith)
    ]

pub place_all-Seated :
    (ns : List Ident) (vs : List VnfAssignment) (p p' : Placing) (g g' : Graph)
    → place_all vs ns p g ≡ (ok (some p'), g')
    → Inside ns p
    → Seated ns vs p p' g g'
unfolding place_all
place_all-Seated ns [] p p' g g' h inside =
    let e : p ≡ p' = cc in
    let e' : g ≡ g' = cc in
    record {
      fit = λ fits. subst NodesFit e' fits;
      inside = subst (Inside ns) e inside;
      kept = λ w k. subst (Has w) e k;
      placed = tt;
    }
place_all-Seated ns (v ∷ vs) p p' g g' h inside = elim (Result-cases (select_node g v ns)) [
  | inr (x, e) ↦ absurd (ground arith)
  | inl (o, e) ↦ elim (select_node-Choice g v ns o e) [
    | nobody e' none_suits ↦ absurd (ground arith)
    | chosen n d e' su least ↦
        let f = su.found in
        let rest : place_all vs ns (seat v n d p) (shift_node ◌-ℤ◌ n v.cpu_demand v.ram_demand g)
            ≡ (ok (some p'), g') =
          ground arith in
        let done =
          place_all-Seated ns vs (seat v n d p) p' _ g' rest
            (Inside-seat ns v n d p su.inside inside) in
        record {
          fit = λ fits. done.fit (shift-NodesFit g v n d f su.room fits);
          inside = done.inside;
          kept = λ w k. done.kept w (Has-seat v n d p w k);
          placed = (done.kept v.vnf_id (n, get-put_self v.vnf_id n p.placements), done.placed);
        }
  ]
]

module _ (nx : Networkx) (a : GreedyDomainActor) (s : SubstrateNetwork) (ns : List Ident)
    (p : Placing) where
  -- The routing loop leaves the nodes alone, unless it rolls back.
  pub route_all-nodes :
      (fes : List FlowEdge) (c c' : Connecting) (g g' : Graph)
      → route_all nx a s ns p fes c g ≡ (ok (some c'), g')
      → g'.nodes ≡ g.nodes
  unfolding route_all allocate_route_bw
  route_all-nodes [] c c' g g' h = cc
  route_all-nodes (fe ∷ fes) c c' g g' h = elim (Option-cases (get fe.source_vnf p.placements)) [
    | inl e ↦ route_all-nodes fes c c' g g' (ground arith)
    | inr (src, e) ↦ elim (Option-cases (get fe.target_vnf p.placements)) [
      | inl e' ↦ route_all-nodes fes c c' g g' (ground arith)
      | inr (dst, e') ↦ elim (Bool-cases (src == dst)) [
        | inl one_node ↦ route_all-nodes fes (colocate fe c) c' g g' (ground arith)
        | inr ne ↦
            elim (Result-cases (
              route_flow nx min_delay (record s { graph = g }) src dst fe.bandwidth_demand
                c.delay_remaining ns a.k_paths)) [
                  | inr (x, er) ↦ absurd (ground arith)
                  | inl (r, er) ↦ elim (Bool-cases r.feasible) [
                    | inr no_route ↦ absurd (ground arith)
                    | inl feas ↦
                        route_all-nodes fes (connect fe r c) c' _ g'
                          (sym (route_all_routed nx a s ns p fe fes c g e e' ne er feas) ∙ h)
                        ∙ charge_route-nodes ◌-ℤ◌ fe.bandwidth_demand r.path_links g
                  ]
                ]
      ]
    ]
  ]
