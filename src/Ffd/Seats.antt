-- ===== src/Ffd/Seats.antt =====
-- greedy_ffd.py: the loop over the flows.
use orion_v.Prelude.{
  ℤ, ◌≡◌, refl, ap, subst, ◌∙◌, inl, inr, List, [], ◌∷◌, Bool, false, arith, All, add-zero_ℤ, ◌==◌,
  Bool-cases, Option, Option-cases,
}
use orion_v.Prelude.Dict.{Dict, nat_eq, pair_eq, pair_beq, get, put, contains}
use orion_v.Prelude.Fail.{ok, Result-cases}
use orion_v.Types.{Ident, FlowKey, FlowEdge, Link}
use orion_v.Substrate.{Graph}
use orion_v.Coordinator.Contract.{NoRepeat, flow_key}
use orion_v.Ffd.{
  PlacementState, routed, link_ids, debit_all, shortest_bw_feasible_path, route_one, route_all,
  going, failing,
}
use orion_v.Ffd.Links.{
  IsSimple, IsWired, IsDebited, Kept, Unlisted, debit_all-IsDebited, link_use-put,
}
use orion_v.Ffd.Paths.{IsPathFinder, walk_links, room_test}

-- No route yet for any of these flows.
abbrev pub Unrouted : PlacementState → List FlowEdge → Type 0
Unrouted st fs = All (λ f. contains (flow_key f) st.bw_allocations ≡ false) fs

contains-put_other :
    {V : Type 0} (j k : FlowKey) (v : V) (d : Dict FlowKey V)
    → pair_beq k j ≡ false
    → contains j d ≡ false
    → contains j (put k v d) ≡ false
contains-put_other j k v [] ne h = ground (arith, pair_eq.beq_iff j k, pair_eq.beq_iff k j)
contains-put_other j k v ((i, w) ∷ d) ne h = ground (arith, contains-put_other j k v d ne)

module _ (shortest_path : (Link → Bool) → Graph → Ident → Ident → Option (List Ident))
    (finds : IsPathFinder shortest_path) (g : Graph) (simple : IsSimple g) where
  routed-IsWired :
      (bw : ℤ) (st : PlacementState) (key : FlowKey) (links : List Ident) (per_link : Dict Ident ℤ)
      → contains key st.bw_allocations ≡ false
      → IsDebited g simple bw per_link st
      → IsWired g (routed st key links per_link)
  routed-IsWired bw st key links per_link new d = record {
    bw = λ id x f. rw (link_use-put id key per_link st.bw_allocations new) (d.used id x f);
    fits = d.left;
  }

  -- One flow keeps the ledger, and adds its own entry.
  route_one-IsWired :
      (f : FlowEdge) (st st' : PlacementState)
      → contains (flow_key f) st.bw_allocations ≡ false
      → IsWired g st
      → route_one shortest_path g f st ≡ ok (going st')
      → IsWired g st'
        × Kept st st'
        × (per_link : Dict Ident ℤ) × (st'.bw_allocations
            ≡ put (flow_key f) per_link st.bw_allocations)
  unfolding route_one shortest_bw_feasible_path
  route_one-IsWired f st st' new w h = elim (Option-cases (get f.source_vnf st.vnf_placements)) [
    | inl e ↦ absurd (ground arith)
    | inr (src, e) ↦ elim (Option-cases (get f.target_vnf st.vnf_placements)) [
      | inl e' ↦ absurd (ground arith)
      | inr (dst, e') ↦ elim (Bool-cases (src == dst)) [
        | inl same ↦
            let out : routed st (flow_key f) [] [] ≡ st' = ground arith in
            subst Wired out
              (routed-IsWired bw st (flow_key f) [] [] new fresh, (refl, refl, refl), [], refl)
        | inr apart ↦ elim (Option-cases (shortest_path (room_test g simple st bw) g src dst)) [
          | inl e2 ↦ absurd (ground arith)
          | inr (path, e2) ↦
              let (walk, distinct) = finds (room_test g simple st bw) g src dst path e2 in
              let (ls, r) = walk_links g simple st bw path walk distinct in
              elim (Result-cases (debit_all g bw (link_ids ls) [] st)) [
                | inr (x, e3) ↦ absurd (ground (arith, r.found))
                | inl ((st1, per_link), e3) ↦
                    let (d, same, kept) =
                      debit_all-IsDebited g simple bw (link_ids ls) [] per_link st st1 r.distinct
                        (unlisted (link_ids ls)) r.room fresh e3 in
                    let out : routed st1 (flow_key f) (link_ids ls) per_link ≡ st' =
                      ground (arith, r.found) in
                    subst Wired out (
                      routed-IsWired bw st1 (flow_key f) (link_ids ls) per_link
                          (ap (contains (flow_key f)) same ∙ new) d,
                      kept,
                      per_link,
                      ap (put (flow_key f) per_link) same,
                    )
              ]
        ]
      ]
    ]
  ]
    where
      bw : ℤ
      bw = f.bandwidth_demand

      Wired : PlacementState → Type 0
      Wired t =
          IsWired g t
          × Kept st t
          × (per_link : Dict Ident ℤ) × (t.bw_allocations
              ≡ put (flow_key f) per_link st.bw_allocations)

      fresh : IsDebited g simple bw [] st
      fresh = record { used = λ id x k. rw add-zero_ℤ (w.bw id x k); left = w.fits }

      unlisted : (ls : List Ident) → Unlisted [] ls
      unlisted [] = tt
      unlisted (l ∷ ls) = (refl, unlisted ls)

  Unrouted-put :
      (st st' : PlacementState) (f : FlowEdge) (per_link : Dict Ident ℤ) (fs : List FlowEdge)
      → st'.bw_allocations ≡ put (flow_key f) per_link st.bw_allocations
      → All (λ k. pair_beq (flow_key f) (flow_key k) ≡ false) fs
      → Unrouted st fs
      → Unrouted st' fs
  Unrouted-put st st' f per_link [] e d u = tt
  Unrouted-put st st' f per_link (k ∷ fs) e d u = (
    ap (contains (flow_key k)) e
        ∙ contains-put_other (flow_key k) (flow_key f) per_link st.bw_allocations d.0 u.0,
    Unrouted-put st st' f per_link fs e d.1 u.1,
  )

  -- The loop over the flows.
  pub route_all-IsWired :
      (fs : List FlowEdge) (st st' : PlacementState)
      → NoRepeat fs
      → Unrouted st fs
      → IsWired g st
      → route_all shortest_path g fs st ≡ ok (going st')
      → IsWired g st' × Kept st st'
  unfolding route_all
  route_all-IsWired [] st st' nr u w h =
      let e : st ≡ st' = cc in subst (λ t. IsWired g t × Kept st t) e (w, (refl, refl, refl))
  route_all-IsWired (f ∷ fs) st st' nr u w h =
      elim (Result-cases (route_one shortest_path g f st)) [
        | inr (x, e) ↦ absurd (ground arith)
        | inl (failing r, e) ↦ absurd (ground arith)
        | inl (going st1, e) ↦
            let (w1, kept, per_link, added) = route_one-IsWired f st st1 u.0 w e in
            let (w2, kept') =
              route_all-IsWired fs st1 st' nr.1 (Unrouted-put st st1 f per_link fs added nr.0 u.1)
                w1 (ground arith) in
            (w2, (kept'.0 ∙ kept.0, kept'.1 ∙ kept.1, kept'.2 ∙ kept.2))
      ]
