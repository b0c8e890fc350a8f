-- ===== src/Episode/Mirror.antt =====
-- episode_runner.py: the registers of the runner against the network's.
use orion_v.Prelude.{
  suc, ◌≡◌, ◌≢◌, refl, ap, sym, subst, ◌∙◌, inl, inr, none, some, arith, length, Option-cases,
}
use orion_v.Prelude.Dict.{Dict, nat_eq, get, put, del}
use orion_v.Prelude.Fail.{ok}
use orion_v.Prelude.Keys.{
  Each, Each-write, Each-del, Each-get, length-put_new, length-del, contains_of_get,
}
use orion_v.Prelude.Values.{map_values, get-map_values, put-map_values, del-map_values, del_absent}
use orion_v.Types.{Ident, PlacementPlan, SliceRequest}
use orion_v.Substrate.{SubstrateNetwork, allocate, deallocate}
use orion_v.Substrate.Calls.{allocate-eq-ok, deallocate-eq-ok}
use orion_v.Substrate.Balance.{IsBalanced, allocate-IsBalanced, deallocate-IsBalanced}

abbrev first : PlacementPlan × SliceRequest → PlacementPlan
first a = a.0

abbrev second : PlacementPlan × SliceRequest → SliceRequest
second a = a.1

-- The entry of a slice stands under the slice's id.
abbrev pub IsOwn : Ident → PlacementPlan × SliceRequest → Type 0
IsOwn id a = a.1.request_id ≡ id

abbrev pub plans_of : SubstrateNetwork → Dict Ident PlacementPlan
plans_of s = map_values first s.active_slices

abbrev pub requests_of : SubstrateNetwork → Dict Ident SliceRequest
requests_of s = map_values second s.active_slices

-- Both registers list the network's active slices, each under its own id, and the residuals are the
-- capacities less what the active slices use.
pub record IsMirrored (s : SubstrateNetwork) (plans : Dict Ident PlacementPlan)
    (requests : Dict Ident SliceRequest) : Type 0 where
  pub same_plans : plans ≡ plans_of s
  pub same_requests : requests ≡ requests_of s
  pub own : Each IsOwn s.active_slices
  pub balanced : IsBalanced s

module _ (s s' : SubstrateNetwork) (plans : Dict Ident PlacementPlan)
    (requests : Dict Ident SliceRequest) (m : IsMirrored s plans requests) where
  pub IsMirrored-allocate :
      (plan : PlacementPlan) (req : SliceRequest)
      → allocate plan req s ≡ (ok tt, s')
      → IsMirrored s' (put req.request_id plan plans) (put req.request_id req requests)
        × (length s'.active_slices ≡ suc (length s.active_slices))
  IsMirrored-allocate plan req h =
      let (new, g, placed, e) = allocate-eq-ok plan req s s' h in
      let slices : s'.active_slices ≡ put req.request_id (plan, req) s.active_slices =
        ap (λ (t : SubstrateNetwork). t.active_slices) e in
      (
        record {
          same_plans =
              ap (put req.request_id plan) m.same_plans
              ∙ put-map_values first req.request_id (plan, req) s.active_slices
              ∙ ap (map_values first) (sym slices);
          same_requests =
              ap (put req.request_id req) m.same_requests
              ∙ put-map_values second req.request_id (plan, req) s.active_slices
              ∙ ap (map_values second) (sym slices);
          own =
              subst (Each IsOwn) (sym slices)
                (Each-write _ req.request_id (plan, req) s.active_slices refl m.own);
          balanced = allocate-IsBalanced plan req s s' h m.balanced;
        },
        ap length slices ∙ length-put_new req.request_id (plan, req) s.active_slices new,
      )

  -- What is in both registers is an active slice, under its own id.
  registered :
      (id : Ident) (plan : PlacementPlan) (req : SliceRequest)
      → get id plans ≡ some plan
      → get id requests ≡ some req
      → (get id s.active_slices ≡ some (plan, req)) × (req.request_id ≡ id)
  registered id plan req f f' =
      let p = ap (get id) m.same_plans ∙ get-map_values first id s.active_slices in
      let q = ap (get id) m.same_requests ∙ get-map_values second id s.active_slices in
      elim (Option-cases (get id s.active_slices)) [
        | inl e ↦ absurd (ground (arith, p))
        | inr (a, e) ↦
            let p0 : a.0 ≡ plan = ground (arith, p) in
            let p1 : a.1 ≡ req = ground (arith, q) in
            let same : get id s.active_slices ≡ some (plan, req) = e ∙ (λ i. some (p0 i, p1 i)) in
            (same, Each-get _ id s.active_slices same m.own)
      ]

  pub IsMirrored-deallocate :
      (id : Ident) (plan : PlacementPlan) (req : SliceRequest)
      → get id plans ≡ some plan
      → get id requests ≡ some req
      → deallocate plan req s ≡ (ok tt, s')
      → IsMirrored s' (del id plans) (del id requests)
        × (suc (length s'.active_slices) ≡ length s.active_slices)
  IsMirrored-deallocate id plan req f f' h =
      let (here, mine) = registered id plan req f f' in
      let own : get req.request_id s.active_slices ≡ some (plan, req) =
        ap (λ k. get k s.active_slices) mine ∙ here in
      let (there, g, placed, e) = deallocate-eq-ok plan req s s' h in
      let slices : s'.active_slices ≡ del id s.active_slices =
        ap (λ (t : SubstrateNetwork). t.active_slices) e ∙ ap (λ k. del k s.active_slices) mine in
      (
        record {
          same_plans =
              ap (del id) m.same_plans
              ∙ del-map_values first id s.active_slices
              ∙ ap (map_values first) (sym slices);
          same_requests =
              ap (del id) m.same_requests
              ∙ del-map_values second id s.active_slices
              ∙ ap (map_values second) (sym slices);
          own = subst (Each IsOwn) (sym slices) (Each-del IsOwn id s.active_slices m.own);
          balanced = deallocate-IsBalanced plan req s s' h own m.balanced;
        },
        ap (λ d. suc (length d)) slices
            ∙ length-del id s.active_slices (contains_of_get id s.active_slices here),
      )

  -- A departure that neither register knows changes neither.
  pub IsMirrored-unknown :
      (id : Ident) → get id plans ≡ none → IsMirrored s (del id plans) (del id requests)
  IsMirrored-unknown id f =
      let p = ap (get id) m.same_plans ∙ get-map_values first id s.active_slices in
      let absent : get id s.active_slices ≡ none = elim (Option-cases (get id s.active_slices)) [
        | inl e ↦ e
        | inr (a, e) ↦ absurd (ground (arith, p))
      ] in
      let no_request : get id requests ≡ none =
        ap (get id) m.same_requests ∙ get-map_values second id s.active_slices ∙ rw absent refl in
      rw (del_absent id plans f, del_absent id requests no_request) m

  -- A plan is in its register with its request in the other.
  pub not_half :
      (id : Ident) (plan : PlacementPlan) → get id plans ≡ some plan → get id requests ≢ none
  not_half id plan f f' =
      let p = ap (get id) m.same_plans ∙ get-map_values first id s.active_slices in
      let q = ap (get id) m.same_requests ∙ get-map_values second id s.active_slices in
      elim (Option-cases (get id s.active_slices)) [
        | inl e ↦ absurd (ground (arith, p))
        | inr (a, e) ↦ absurd (ground (arith, q))
      ]
