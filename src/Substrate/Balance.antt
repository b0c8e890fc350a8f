-- ===== src/Substrate/Balance.antt =====
-- graph_model.py: what the residuals mean, for every history of the network.
use orion_v.Prelude.{
  ℤ, pos, ap, ◌+ℤ◌, ◌-ℤ◌, ◌≡◌, ◌∙◌, List, [], ◌∷◌, map, some, arith, int_laws, inl, inr,
  Option-cases, sub-zero_ℤ, add-zero_ℤ, sub-sub_ℤ, +ℤ_assoc,
}
use orion_v.Prelude.Sum.{sum_values, sum_values-put, sum_values-del}
use orion_v.Prelude.Dict.{nat_eq, get}
use orion_v.Prelude.Fail.{ok}
use orion_v.Prelude.Adjust.{find}
use orion_v.Types.{Ident, Node, Link, PlacementPlan, SliceRequest}
use orion_v.Substrate.{
  SubstrateNetwork, Graph, node_key, link_key, find_node, charged_node, charged_link,
  charge_placements, charge_flows, allocate, deallocate, fresh_node, fresh_link, reset,
}
use orion_v.Substrate.Use.{
  node_use, link_use, charge_placements_use, charge_placements_absent, charge_flows_use,
  charge_flows_absent,
}
use orion_v.Substrate.Calls.{allocate-eq-ok, deallocate-eq-ok}
use orion_v.Substrate.Charge.{charge_placements-edges, charge_flows-nodes}

abbrev pub cpu_of : Ident → PlacementPlan × SliceRequest → ℤ
cpu_of id a = node_use a.0.cpu_allocations id a.0.vnf_placements

abbrev pub ram_of : Ident → PlacementPlan × SliceRequest → ℤ
ram_of id a = node_use a.0.ram_allocations id a.0.vnf_placements

abbrev pub bw_of : Ident → PlacementPlan × SliceRequest → ℤ
bw_of id a = link_use id a.0.bw_allocations

-- Every residual and what the active slices use add up to the capacity.
pub record IsBalanced (s : SubstrateNetwork) : Type 0 where
  pub cpu :
      (id : Ident) (x : Node)
      → find_node s.graph id ≡ some x
      → x.cpu_residual +ℤ sum_values (cpu_of id) s.active_slices ≡ x.cpu_capacity
  pub ram :
      (id : Ident) (x : Node)
      → find_node s.graph id ≡ some x
      → x.ram_residual +ℤ sum_values (ram_of id) s.active_slices ≡ x.ram_capacity
  pub bw :
      (id : Ident) (x : Link)
      → find link_key id s.graph.edges ≡ some x
      → x.bw_residual +ℤ sum_values (bw_of id) s.active_slices ≡ x.bandwidth_capacity

-- The graph after the two loops of a call, at one node and at one link.
module _ (op : ℤ → ℤ → ℤ) (zero_right : (a : ℤ) → op a (pos 0) ≡ a)
    (add_right : (a b c : ℤ) → op (op a b) c ≡ op a (b +ℤ c)) (plan : PlacementPlan)
    (req : SliceRequest) (g g' : Graph)
    (placed : charge_placements op plan plan.vnf_placements g ≡ (ok tt, g')) where
  pub node_after :
      (id : Ident) (y : Node)
      → find_node (charge_flows op plan.bw_allocations g') id ≡ some y
      → (x : Node) × (find_node g id ≡ some x)
        × (y ≡ charged_node op (cpu_of id (plan, req)) (ram_of id (plan, req)) x)
  node_after id y h = elim (Option-cases (find_node g id)) [
    | inl e ↦ cc (
      h,
      ap (find node_key id) (charge_flows-nodes op plan.bw_allocations g'),
      charge_placements_absent op zero_right add_right plan plan.vnf_placements g g' id placed e,
    )
    | inr (x, e) ↦ (
      x,
      e,
      cc (
        h,
        ap (find node_key id) (charge_flows-nodes op plan.bw_allocations g'),
        charge_placements_use op zero_right add_right plan plan.vnf_placements g g' id x placed e,
      ),
    )
  ]

  pub link_after :
      (id : Ident) (y : Link)
      → find link_key id (charge_flows op plan.bw_allocations g').edges ≡ some y
      → (x : Link) × (find link_key id g.edges ≡ some x)
        × (y ≡ charged_link op (bw_of id (plan, req)) x)
  link_after id y h =
      let same =
        ap (find link_key id) (charge_placements-edges op plan plan.vnf_placements g g' placed) in
      elim (Option-cases (find link_key id g.edges)) [
        | inl e ↦
            cc (h, charge_flows_absent op zero_right add_right plan.bw_allocations g' id (same ∙ e))
        | inr (x, e) ↦ (
          x,
          e,
          cc (h, charge_flows_use op zero_right add_right plan.bw_allocations g' id x (same ∙ e)),
        )
      ]

debit_settles : (r u t : ℤ) → r -ℤ u +ℤ (t +ℤ u) ≡ r +ℤ t
debit_settles r u t = omega int_laws

credit_settles : (r u t : ℤ) → r +ℤ u +ℤ t ≡ r +ℤ (t +ℤ u)
credit_settles r u t = omega int_laws

pub allocate-IsBalanced :
    (plan : PlacementPlan) (req : SliceRequest) (s s' : SubstrateNetwork)
    → allocate plan req s ≡ (ok tt, s')
    → IsBalanced s
    → IsBalanced s'
allocate-IsBalanced plan req s s' h b =
    let (new, g, placed, e) = allocate-eq-ok plan req s s' h in
    rw e (record {
      cpu = λ id y f.
          let (x, f', e') = node_after ◌-ℤ◌ sub-zero_ℤ sub-sub_ℤ plan req s.graph g placed id y f in
          rw (e', sum_values-put (cpu_of id) req.request_id (plan, req) s.active_slices new)
            (debit_settles x.cpu_residual _ _ ∙ b.cpu id x f');
      ram = λ id y f.
          let (x, f', e') = node_after ◌-ℤ◌ sub-zero_ℤ sub-sub_ℤ plan req s.graph g placed id y f in
          rw (e', sum_values-put (ram_of id) req.request_id (plan, req) s.active_slices new)
            (debit_settles x.ram_residual _ _ ∙ b.ram id x f');
      bw = λ id y f.
          let (x, f', e') = link_after ◌-ℤ◌ sub-zero_ℤ sub-sub_ℤ plan req s.graph g placed id y f in
          rw (e', sum_values-put (bw_of id) req.request_id (plan, req) s.active_slices new)
            (debit_settles x.bw_residual _ _ ∙ b.bw id x f');
    })

pub deallocate-IsBalanced :
    (plan : PlacementPlan) (req : SliceRequest) (s s' : SubstrateNetwork)
    → deallocate plan req s ≡ (ok tt, s')
    → get req.request_id s.active_slices ≡ some (plan, req)
    → IsBalanced s
    → IsBalanced s'
deallocate-IsBalanced plan req s s' h own b =
    let (_, g, placed, e) = deallocate-eq-ok plan req s s' h in
    rw e (record {
      cpu = λ id y f.
          let (x, f', e') = node_after ◌+ℤ◌ add-zero_ℤ +ℤ_assoc plan req s.graph g placed id y f in
          rw e' (
            credit_settles x.cpu_residual _ _
            ∙ rw (sum_values-del (cpu_of id) req.request_id s.active_slices own) (b.cpu id x f'));
      ram = λ id y f.
          let (x, f', e') = node_after ◌+ℤ◌ add-zero_ℤ +ℤ_assoc plan req s.graph g placed id y f in
          rw e' (
            credit_settles x.ram_residual _ _
            ∙ rw (sum_values-del (ram_of id) req.request_id s.active_slices own) (b.ram id x f'));
      bw = λ id y f.
          let (x, f', e') = link_after ◌+ℤ◌ add-zero_ℤ +ℤ_assoc plan req s.graph g placed id y f in
          rw e' (
            credit_settles x.bw_residual _ _
            ∙ rw (sum_values-del (bw_of id) req.request_id s.active_slices own) (b.bw id x f'));
    })

find-fresh_node :
    (id : Ident) (ns : List Node) (y : Node)
    → find node_key id (map fresh_node ns) ≡ some y
    → (y.cpu_residual ≡ y.cpu_capacity) × (y.ram_residual ≡ y.ram_capacity)
find-fresh_node id [] y h = cc
find-fresh_node id (n ∷ ns) y h = ground (arith, find-fresh_node id ns y)

find-fresh_link :
    (id : Ident) (ls : List Link) (y : Link)
    → find link_key id (map fresh_link ls) ≡ some y
    → y.bw_residual ≡ y.bandwidth_capacity
find-fresh_link id [] y h = cc
find-fresh_link id (l ∷ ls) y h = ground (arith, find-fresh_link id ls y)

pub reset-IsBalanced : (s : SubstrateNetwork) → IsBalanced (reset s)
unfolding reset
reset-IsBalanced s = record {
  cpu = λ id x f. add-zero_ℤ x.cpu_residual ∙ (find-fresh_node id s.graph.nodes x f).0;
  ram = λ id x f. add-zero_ℤ x.ram_residual ∙ (find-fresh_node id s.graph.nodes x f).1;
  bw = λ id x f. add-zero_ℤ x.bw_residual ∙ find-fresh_link id s.graph.edges x f;
}

-- One event in the life of the network: an admission, the departure of an active slice by the plan
-- that it was admitted with, or the reset at the start of an episode.
pub data Step (s t : SubstrateNetwork) : Type 0 where
  admit : (plan : PlacementPlan) (req : SliceRequest) → allocate plan req s ≡ (ok tt, t) → Step s t
  depart :
      (plan : PlacementPlan) (req : SliceRequest)
      → get req.request_id s.active_slices ≡ some (plan, req)
      → deallocate plan req s ≡ (ok tt, t)
      → Step s t
  restart : t ≡ reset s → Step s t

pub data Reach (s : SubstrateNetwork) : SubstrateNetwork → Type 0 where
  here : Reach s s
  next : {t u : SubstrateNetwork} → Reach s t → Step t u → Reach s u

Step-IsBalanced : (s t : SubstrateNetwork) → Step s t → IsBalanced s → IsBalanced t
Step-IsBalanced s t (admit plan req h) b = allocate-IsBalanced plan req s t h b
Step-IsBalanced s t (depart plan req own h) b = deallocate-IsBalanced plan req s t h own b
Step-IsBalanced s t (restart e) b = rw e (reset-IsBalanced s)

-- From a network in which every residual (CPU, RAM, bandwidth) is the capacity less what the active
-- slices use, every history of admissions that do not raise, departures of active slices by their
-- own plans, and resets leads to such a network.
pub Reach-IsBalanced : {s t : SubstrateNetwork} → IsBalanced s → Reach s t → IsBalanced t
Reach-IsBalanced b here = b
Reach-IsBalanced b (next {t} {u} r st) = Step-IsBalanced t u st (Reach-IsBalanced b r)
