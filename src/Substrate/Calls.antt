-- ===== src/Substrate/Calls.antt =====
-- graph_model.py: what a call of `allocate` or of `deallocate` has done, and when it raises.
use orion_v.Prelude.{
  ℤ, ◌+ℤ◌, ◌-ℤ◌, ◌≡◌, refl, ◌∙◌, inl, inr, [], ◌∷◌, true, false, some, arith, All, Bool-cases,
}
use orion_v.Prelude.Dict.{Dict, nat_eq, contains, put, del, get_of_contains}
use orion_v.Prelude.Fail.{ok, Result-cases}
use orion_v.Types.{Ident, Node, PlacementPlan, SliceRequest}
use orion_v.Substrate.{
  Graph, SubstrateNetwork, find_node, shift_node, charge_placements, charge_flows, allocate,
  deallocate,
}
use orion_v.Substrate.Charge.{charge_placements_step, find_after}

-- A placement on a node of the graph, with its amounts.
abbrev pub IsChargeable : PlacementPlan → Graph → Ident × Ident → Type 0
IsChargeable plan g e =
    (contains e.0 plan.cpu_allocations ≡ true)
    × (contains e.0 plan.ram_allocations ≡ true)
    × (x : Node) × (find_node g e.1 ≡ some x)

-- Then the loop over the placements does not raise, nor does `allocate` of a new request.
module _ (plan : PlacementPlan) where
  charge_placements_runs :
      (ps : Dict Ident Ident) (g : Graph)
      → All (IsChargeable plan g) ps
      → (g' : Graph) × (charge_placements ◌-ℤ◌ plan ps g ≡ (ok tt, g'))
  unfolding charge_placements
  charge_placements_runs [] g l = (g, refl)
  charge_placements_runs ((v, n) ∷ rest) g l =
      let (cpu, ec) = get_of_contains v plan.cpu_allocations l.0.0 in
      let (ram, er) = get_of_contains v plan.ram_allocations l.0.1 in
      let (g', h) =
        charge_placements_runs rest (shift_node ◌-ℤ◌ n cpu ram g) (still rest l.1 n cpu ram) in
      (g', charge_placements_step ◌-ℤ◌ plan v n rest g ec er l.0.3 ∙ h)
    where
      still :
          (qs : Dict Ident Ident)
          → All (IsChargeable plan g) qs
          → (n : Ident) (cpu ram : ℤ) → All (IsChargeable plan (shift_node ◌-ℤ◌ n cpu ram g)) qs
      still [] a n cpu ram = tt
      still ((w, m) ∷ qs) a n cpu ram =
          let (y, f) = find_after ◌-ℤ◌ n m cpu ram g a.0.3 in
          ((a.0.0, a.0.1, y, f), still qs a.1 n cpu ram)

  pub allocate_runs :
      (req : SliceRequest) (s : SubstrateNetwork)
      → contains req.request_id s.active_slices ≡ false
      → All (IsChargeable plan s.graph) plan.vnf_placements
      → (s' : SubstrateNetwork) × (allocate plan req s ≡ (ok tt, s'))
  unfolding allocate
  allocate_runs req s new l =
      let (g', h) = charge_placements_runs plan.vnf_placements s.graph l in
      (
        record s {
          graph = charge_flows ◌-ℤ◌ plan.bw_allocations g';
          active_slices = put req.request_id (plan, req) s.active_slices;
        },
        ground arith,
      )

-- What a call of `allocate` that does not raise has done.
pub allocate-eq-ok :
    (plan : PlacementPlan) (req : SliceRequest) (s s' : SubstrateNetwork)
    → allocate plan req s ≡ (ok tt, s')
    → (contains req.request_id s.active_slices ≡ false)
      × (g : Graph) × (charge_placements ◌-ℤ◌ plan plan.vnf_placements s.graph ≡ (ok tt, g))
      × (s' ≡ record s {
        graph = charge_flows ◌-ℤ◌ plan.bw_allocations g;
        active_slices = put req.request_id (plan, req) s.active_slices;
      })
unfolding allocate
allocate-eq-ok plan req s s' h = elim (Bool-cases (contains req.request_id s.active_slices)) [
  | inl dup ↦ ground arith
  | inr new ↦ elim (Result-cases (charge_placements ◌-ℤ◌ plan plan.vnf_placements s.graph).0) [
    | inl e ↦ (
      new,
      (charge_placements ◌-ℤ◌ plan plan.vnf_placements s.graph).1,
      ground arith,
      ground arith,
    )
    | inr (x, e) ↦ ground arith
  ]
]

-- The same of `deallocate`.
pub deallocate-eq-ok :
    (plan : PlacementPlan) (req : SliceRequest) (s s' : SubstrateNetwork)
    → deallocate plan req s ≡ (ok tt, s')
    → (contains req.request_id s.active_slices ≡ true)
      × (g : Graph) × (charge_placements ◌+ℤ◌ plan plan.vnf_placements s.graph ≡ (ok tt, g))
      × (s' ≡ record s {
        graph = charge_flows ◌+ℤ◌ plan.bw_allocations g;
        active_slices = del req.request_id s.active_slices;
      })
unfolding deallocate
deallocate-eq-ok plan req s s' h = elim (Bool-cases (contains req.request_id s.active_slices)) [
  | inr absent ↦ ground arith
  | inl here ↦ elim (Result-cases (charge_placements ◌+ℤ◌ plan plan.vnf_placements s.graph).0) [
    | inl e ↦ (
      here,
      (charge_placements ◌+ℤ◌ plan plan.vnf_placements s.graph).1,
      ground arith,
      ground arith,
    )
    | inr (x, e) ↦ ground arith
  ]
]
