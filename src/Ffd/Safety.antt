-- ===== src/Ffd/Safety.antt =====
-- greedy_ffd.py: the plan on the network.
use orion_v.Prelude.{
  ℤ, pos, ◌+ℤ◌, ◌-ℤ◌, ◌≤ℤ◌, ◌≡◌, refl, ap, sym, subst, ◌∙◌, ◌⊎◌, inl, inr, List, [], ◌∷◌, Bool,
  false, some, arith, All, add-zero_ℤ, Option, +ℤ_cancel, sub-zero_ℤ, sub-sub_ℤ,
}
use orion_v.Prelude.Adjust.{find}
use orion_v.Prelude.Dict.{nat_eq, pair_eq, contains, put}
use orion_v.Prelude.Fail.{ok, Result-cases}
use orion_v.Prelude.Sort.{sort, sort-Pairwise, Pairwise}
use orion_v.Types.{Ident, FlowEdge, Link, Node, Vnf, SliceRequest, PlacementPlan}
use orion_v.Substrate.{
  Graph, SubstrateNetwork, link_key, find_node, charge_placements, charge_flows,
}
use orion_v.Substrate.Calls.{IsChargeable, allocate_runs, allocate-eq-ok}
use orion_v.Substrate.Balance.{node_after, link_after}
use orion_v.Coordinator.Contract.{NoRepeat, flow_key}
use orion_v.Ffd.{
  PlacementState, empty_state, lt_vnf, GreedyConfig, GreedyResult, going, failing, place_all,
  route_all, plan_of, result_of, run_greedy_ffd, greedy_place_on_substrate,
}
use orion_v.Ffd.Ledger.{IsSeated}
use orion_v.Ffd.Nodes.{Differ, Differ-sym, Unplaced, IsListed, place_all-IsSeated, place_all-bw}
use orion_v.Ffd.Links.{IsSimple, IsWired, Kept}
use orion_v.Ffd.Paths.{IsPathFinder}
use orion_v.Ffd.Seats.{Unrouted, route_all-IsWired}

-- No CPU, RAM or bandwidth residual is below 0.
pub record NothingOver (s : SubstrateNetwork) : Type 0 where
  pub nodes :
      (id : Ident) (x : Node)
      → find_node s.graph id ≡ some x
      → (pos 0 ≤ℤ x.cpu_residual) × (pos 0 ≤ℤ x.ram_residual)
  pub links :
      (id : Ident) (x : Link) → find link_key id s.graph.edges ≡ some x → pos 0 ≤ℤ x.bw_residual

less_used : (a u r : ℤ) → a +ℤ u ≡ r → r -ℤ u ≡ a
less_used a u r h = rw (← h) (+ℤ_cancel a u)

-- The states of the two loops, in the network after the allocation.
module _ (s : SubstrateNetwork) (slice_req : SliceRequest) (st st' : PlacementState)
    (seats : IsSeated s.graph st) (listed : IsListed s.graph st st.vnf_placements)
    (wires : IsWired s.graph st') where
  allocated-NothingOver :
      (plan : PlacementPlan) (g' : Graph)
      → plan.vnf_placements ≡ st.vnf_placements
      → plan.cpu_allocations ≡ st.cpu_allocations
      → plan.ram_allocations ≡ st.ram_allocations
      → plan.bw_allocations ≡ st'.bw_allocations
      → charge_placements ◌-ℤ◌ plan plan.vnf_placements s.graph ≡ (ok tt, g')
      → NothingOver (record s {
        graph = charge_flows ◌-ℤ◌ plan.bw_allocations g';
        active_slices = put slice_req.request_id (plan, slice_req) s.active_slices;
      })
  allocated-NothingOver plan g' ep ec er eb placed = record {
    nodes = λ id y f.
        let (x, f', e) =
          node_after ◌-ℤ◌ sub-zero_ℤ sub-sub_ℤ plan slice_req s.graph g' placed id y f in
        (
          subst (λ t. pos 0 ≤ℤ t)
              (sym (
                ap (λ (t : Node). t.cpu_residual) e
                ∙ rw (ec, ep) (less_used _ _ _ (seats.cpu id x f'))))
              (seats.cpu_fits id x f'),
          subst (λ t. pos 0 ≤ℤ t)
              (sym (
                ap (λ (t : Node). t.ram_residual) e
                ∙ rw (er, ep) (less_used _ _ _ (seats.ram id x f'))))
              (seats.ram_fits id x f'),
        );
    links = λ id y f.
        let (x, f', e) =
          link_after ◌-ℤ◌ sub-zero_ℤ sub-sub_ℤ plan slice_req s.graph g' placed id y f in
        subst (λ t. pos 0 ≤ℤ t)
          (sym (ap (λ (t : Link). t.bw_residual) e ∙ rw eb (less_used _ _ _ (wires.bw id x f'))))
          (wires.fits id x f');
  }

module _ (shortest_path : (Link → Bool) → Graph → Ident → Ident → Option (List Ident))
    (finds : IsPathFinder shortest_path) (slice_req : SliceRequest) (config : GreedyConfig)
    (s : SubstrateNetwork) (simple : IsSimple s.graph)
    (apart : Pairwise lt_vnf Differ Differ-sym slice_req.vnfs) (nr : NoRepeat slice_req.flow_edges)
    (new : contains slice_req.request_id s.active_slices ≡ false) (fine : NothingOver s) where
  empty-IsSeated : IsSeated s.graph empty_state
  empty-IsSeated = record {
    cpu = λ id x f. add-zero_ℤ x.cpu_residual;
    ram = λ id x f. add-zero_ℤ x.ram_residual;
    cpu_fits = λ id x f. (fine.nodes id x f).0;
    ram_fits = λ id x f. (fine.nodes id x f).1;
  }

  empty-IsWired :
      (st : PlacementState) → st.running_bw ≡ [] → st.bw_allocations ≡ [] → IsWired s.graph st
  empty-IsWired st e e' = record {
    bw = λ id x f. rw (e, e') (add-zero_ℤ x.bw_residual);
    fits = λ id x f. rw e (fine.links id x f);
  }

  unplaced : (vs : List Vnf) → Unplaced empty_state vs
  unplaced [] = tt
  unplaced (v ∷ vs) = (refl, unplaced vs)

  unrouted : (st : PlacementState) → st.bw_allocations ≡ [] → (fs : List FlowEdge) → Unrouted st fs
  unrouted st e [] = tt
  unrouted st e (f ∷ fs) = (ap (contains (flow_key f)) e, unrouted st e fs)

  -- What the two loops of a successful run end with.
  record Ran (result : GreedyResult) : Type 0 where
    st : PlacementState
    st' : PlacementState
    seats : IsSeated s.graph st
    listed : IsListed s.graph st st.vnf_placements
    wires : IsWired s.graph st'
    kept : Kept st st'
    is_result : result ≡ result_of slice_req config (going st')

  ran :
      (result : GreedyResult)
      → run_greedy_ffd shortest_path s slice_req config ≡ ok result
      → ((result.feasible ≡ false)) ⊎ Ran result
  unfolding run_greedy_ffd
  ran result h = elim (Result-cases (place_all s.graph (sort lt_vnf slice_req.vnfs) empty_state)) [
    | inr (x, e) ↦ absurd (ground arith)
    | inl (failing r, e) ↦ inl (ground arith)
    | inl (going st, e) ↦
        let (seats, listed) =
          place_all-IsSeated s.graph (sort lt_vnf slice_req.vnfs) empty_state st
            (sort-Pairwise lt_vnf Differ Differ-sym slice_req.vnfs apart)
            (unplaced (sort lt_vnf slice_req.vnfs)) empty-IsSeated tt e in
        let (no_bw, no_route) =
          place_all-bw s.graph (sort lt_vnf slice_req.vnfs) empty_state st e in
        elim (Result-cases (route_all shortest_path s.graph slice_req.flow_edges st)) [
          | inr (x, e') ↦ absurd (ground arith)
          | inl (failing r, e') ↦ inl (ground arith)
          | inl (going st', e') ↦
              let (wires, kept) =
                route_all-IsWired shortest_path finds s.graph simple slice_req.flow_edges st st' nr
                  (unrouted st no_route slice_req.flow_edges) (empty-IsWired st no_bw no_route)
                  e' in
              inr (record {
                st = st;
                st' = st';
                seats = seats;
                listed = listed;
                wires = wires;
                kept = kept;
                is_result = ground arith;
              })
        ]
  ]

  -- The greedy baseline never overcommits the network. When its algorithm gives an answer, placing it
  -- does not raise; a failed run leaves the network as it was; and after either no residual of a
  -- node (CPU, RAM) or a link is below 0. The network had none below 0, has one edge between two
  -- nodes and one link id for each edge; the request is not active, its VNF ids are different, and
  -- no two of its flows join the same two VNFs in the same direction; and networkx finds simple
  -- paths of the view that it is given.
  pub greedy_place_on_substrate-NothingOver :
      (result : GreedyResult)
      → run_greedy_ffd shortest_path s slice_req config ≡ ok result
      → (s' : SubstrateNetwork) × (greedy_place_on_substrate shortest_path slice_req config s
          ≡ (ok result, s'))
        × NothingOver s'
        × (result.feasible ≡ false → s' ≡ s)
  unfolding greedy_place_on_substrate
  greedy_place_on_substrate-NothingOver result h = elim (ran result h) [
    | inl failed ↦ (s, ground arith, fine, λ _. refl)
    | inr r ↦
        let plan = plan_of slice_req r.st' in
        let chargeable : All (IsChargeable plan s.graph) plan.vnf_placements =
          rw (r.kept.0, r.kept.1, r.kept.2) r.listed in
        let (s', done) = allocate_runs plan slice_req s new chargeable in
        let (_, g', placed, e) = allocate-eq-ok plan slice_req s s' done in
        (
          s',
          ground (arith, r.is_result),
          subst NothingOver (sym e) (
              allocated-NothingOver s slice_req r.st r.st' r.seats r.listed r.wires plan g' r.kept.0
                r.kept.1 r.kept.2 refl placed),
          λ k. absurd (ground (arith, r.is_result)),
        )
  ]
