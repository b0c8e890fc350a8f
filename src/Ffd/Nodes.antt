-- ===== src/Ffd/Nodes.antt =====
-- greedy_ffd.py: where the VNFs go.
use orion_v.Prelude.{
  ◌≡◌, sym, subst, ◌∙◌, inl, inr, List, [], ◌∷◌, Bool, true, false, some, arith, All, ◌&&◌, ◌==◌,
  if◌then◌else◌, Option, Bool-cases, Option-cases,
}
use orion_v.Prelude.Dict.{Dict, nat_eq, contains, put, contains-put_self}
use orion_v.Prelude.Fail.{ok}
use orion_v.Prelude.Sort.{sort-All, Pairwise}
use orion_v.Types.{Ident, InfrastructureTier, Node, Vnf}
use orion_v.Substrate.{Graph, node_key, find_node}
use orion_v.Prelude.Adjust.{key_of_find}
use orion_v.Ffd.{
  PlacementState, Candidate, lt_candidate, lt_vnf, is_permitted, has_room, node_at, candidates,
  first_node, required_tier, select_node, seated, going, place_all,
}
use orion_v.Ffd.Ledger.{IsSeated, seated-IsSeated}

and-eq-true : (a b : Bool) → a && b ≡ true → (a ≡ true) × (b ≡ true)
and-eq-true a b h = ground arith

module _ (g : Graph) (st : PlacementState) (v : Vnf) where
  -- The node of that id is permitted, and has room for the VNF.
  abbrev pub Hosts : Ident → Type 0
  Hosts n =
      (is_permitted v n ≡ true) × ((x : Node) → find_node g n ≡ some x → has_room st v x ≡ true)

  abbrev HostsAt : Candidate → Type 0
  HostsAt c = Hosts c.3

  at : (n x : Node) → find_node g n.node_id ≡ some x → node_at g n ≡ x
  at n x f = ground arith

  candidates-Hosts :
      (tier : Option InfrastructureTier) (ns : List Node) → All HostsAt (candidates g st v tier ns)
  unfolding candidates
  candidates-Hosts tier [] = tt
  candidates-Hosts tier (n ∷ ns) =
      let rest = candidates-Hosts tier ns in
      elim (Bool-cases (is_permitted v n.node_id && has_room st v (node_at g n))) [
        | inr e ↦ rw e rest
        | inl e ↦ rw e (
          (
            (and-eq-true _ _ e).0,
            λ x f. subst (λ y. has_room st v y ≡ true) (at n x f) (and-eq-true _ _ e).1,
          ),
          rest,
        )
      ]

  first-Hosts :
      (cs : List Candidate) {n : Ident} → All HostsAt cs → first_node cs ≡ some n → Hosts n
  first-Hosts [] h e = cc
  first-Hosts ((a, b, c, d) ∷ cs) h e = let same : d ≡ _ = cc in subst Hosts same h.0

  pub select_node-Hosts : {n : Ident} → select_node g v st ≡ some n → Hosts n
  unfolding select_node
  select_node-Hosts h =
      first-Hosts _ (sort-All lt_candidate HostsAt _ (candidates-Hosts (required_tier v g) g.nodes))
        h

abbrev pub Differ : Vnf → Vnf → Type 0
Differ v w = v.vnf_id == w.vnf_id ≡ false

pub Differ-sym : (v w : Vnf) → Differ v w → Differ w v
Differ-sym v w h = ground arith

-- No placement yet for any of these VNFs.
abbrev pub Unplaced : PlacementState → List Vnf → Type 0
Unplaced st vs = All (λ v. contains v.vnf_id st.vnf_placements ≡ false) vs

-- Each placement is on a node of the graph, and has its amounts.
abbrev pub IsListed : Graph → PlacementState → Dict Ident Ident → Type 0
IsListed g st ps =
    All
      (λ e.
        (contains e.0 st.cpu_allocations ≡ true)
        × (contains e.0 st.ram_allocations ≡ true)
        × (x : Node) × (find_node g e.1 ≡ some x))
      ps

contains-put :
    {V : Type 0} (j k : Ident) (v : V) (d : Dict Ident V)
    → contains j (put k v d) ≡ (if j == k then true else contains j d)
contains-put j k v [] = ground arith
contains-put j k v ((i, w) ∷ d) = ground (arith, contains-put j k v d)

module _ (g : Graph) where
  Unplaced-seated :
      (st : PlacementState) (v : Vnf) (n : Node) (vs : List Vnf)
      → All (Differ v) vs
      → Unplaced st vs
      → Unplaced (seated st v n) vs
  Unplaced-seated st v n [] d u = tt
  Unplaced-seated st v n (w ∷ vs) d u = (
    contains-put w.vnf_id v.vnf_id n.node_id st.vnf_placements ∙ ground arith,
    Unplaced-seated st v n vs d.1 u.1,
  )

  IsListed-seated :
      (st : PlacementState) (v : Vnf) (n : Node) (m : Ident) (ps : Dict Ident Ident)
      → find_node g m ≡ some n
      → contains v.vnf_id ps ≡ false
      → IsListed g st ps
      → IsListed g (seated st v n) (put v.vnf_id n.node_id ps)
  IsListed-seated st v n m [] f new l = (
    (
      contains-put_self v.vnf_id v.cpu_demand st.cpu_allocations,
      contains-put_self v.vnf_id v.ram_demand st.ram_allocations,
      n,
      subst (λ t. find_node g t ≡ some n) (sym (key_of_find node_key m g.nodes f)) f,
    ),
    tt,
  )
  IsListed-seated st v n m ((w, k) ∷ ps) f new l =
      let other : v.vnf_id == w ≡ false = ground arith in
      rw other (
        (
          contains-put w v.vnf_id v.cpu_demand st.cpu_allocations ∙ ground arith,
          contains-put w v.vnf_id v.ram_demand st.ram_allocations ∙ ground arith,
          l.0.2,
          l.0.3,
        ),
        IsListed-seated st v n m ps f (ground arith) l.1,
      )

  -- The loop over the VNFs.
  pub place_all-IsSeated :
      (vs : List Vnf) (st st' : PlacementState)
      → Pairwise lt_vnf Differ Differ-sym vs
      → Unplaced st vs
      → IsSeated g st
      → IsListed g st st.vnf_placements
      → place_all g vs st ≡ ok (going st')
      → IsSeated g st' × IsListed g st' st'.vnf_placements
  unfolding place_all
  place_all-IsSeated [] st st' d u i l h =
      let e : st ≡ st' = cc in subst (λ t. IsSeated g t × IsListed g t t.vnf_placements) e (i, l)
  place_all-IsSeated (v ∷ vs) st st' d u i l h = elim (Option-cases (select_node g v st)) [
    | inl e ↦ absurd (ground arith)
    | inr (n, e) ↦ elim (Option-cases (find_node g n)) [
      | inl e' ↦ absurd (ground arith)
      | inr (x, e') ↦
          let room = (select_node-Hosts g st v e).1 x e' in
          place_all-IsSeated vs (seated st v x) st' d.1 (Unplaced-seated st v x vs d.0 u.1)
            (seated-IsSeated g st v x n e' room u.0 i)
            (IsListed-seated st v x n st.vnf_placements e' u.0 l) (ground arith)
    ]
  ]

  -- It leaves the bandwidth alone.
  pub place_all-bw :
      (vs : List Vnf) (st st' : PlacementState)
      → place_all g vs st ≡ ok (going st')
      → (st'.running_bw ≡ st.running_bw) × (st'.bw_allocations ≡ st.bw_allocations)
  unfolding place_all
  place_all-bw [] st st' h = (cc, cc)
  place_all-bw (v ∷ vs) st st' h = elim (Option-cases (select_node g v st)) [
    | inl e ↦ absurd (ground arith)
    | inr (n, e) ↦ elim (Option-cases (find_node g n)) [
      | inl e' ↦ absurd (ground arith)
      | inr (x, e') ↦ place_all-bw vs (seated st v x) st' (ground arith)
    ]
  ]
