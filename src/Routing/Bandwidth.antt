-- ===== src/Routing/Bandwidth.antt =====
-- actors/routing.py: the provisional bandwidth of a route, reserved and taken back.
use orion_v.Prelude.{
  ℤ, pos, ◌+ℤ◌, ◌-ℤ◌, ◌≤ℤ◌, ◌≡◌, refl, ap, sym, ◌∙◌, inl, inr, List, [], ◌∷◌, false, some, arith,
  int_laws, ltb_ℤ, All, Bool-cases, Option-cases, ◌==◌, sub-add_comm, ==_iff,
}
use orion_v.Prelude.Adjust.{find, find-adjust}
use orion_v.Types.{Ident, Link}
use orion_v.Substrate.{Graph, link_key, charged_link, shift_link, find_edge}
use orion_v.Substrate.Charge.{shift_link_comm}
use orion_v.Substrate.Roundtrip.{shift_link_undo}
use orion_v.Routing.Links.{Walk-cases}
use orion_v.Routing.{
  through, walk, path_edges, charge_route, allocate_route_bw, deallocate_route_bw,
}

-- A credit of one link commutes with the debits of a route, and so does that of a whole route.
credit-charge_route :
    (ls : List Ident) (b : ℤ) (l : Ident) (c : ℤ) (g : Graph)
    → shift_link ◌+ℤ◌ l c (charge_route ◌-ℤ◌ b ls g)
      ≡ charge_route ◌-ℤ◌ b ls (shift_link ◌+ℤ◌ l c g)
credit-charge_route [] b l c g = refl
credit-charge_route (k ∷ ls) b l c g =
    credit-charge_route ls b l c (shift_link ◌-ℤ◌ k b g)
    ∙ ap (charge_route ◌-ℤ◌ b ls) (shift_link_comm ◌+ℤ◌ ◌-ℤ◌ sub-add_comm l k c b g)

-- Bandwidth that was reserved for any other route in between makes no difference.
pub deallocate-allocate_comm :
    (ls ms : List Ident) (b c : ℤ) (g : Graph)
    → deallocate_route_bw ms c (allocate_route_bw ls b g)
      ≡ allocate_route_bw ls b (deallocate_route_bw ms c g)
unfolding allocate_route_bw deallocate_route_bw
deallocate-allocate_comm ls [] b c g = refl
deallocate-allocate_comm ls (m ∷ ms) b c g =
    ap (charge_route ◌+ℤ◌ c ms) (credit-charge_route ls b m c g)
    ∙ deallocate-allocate_comm ls ms b c (shift_link ◌+ℤ◌ m c g)

-- `deallocate_route_bw` takes back what `allocate_route_bw` has reserved.
pub deallocate-allocate_route_bw :
    (ls : List Ident) (b : ℤ) (g : Graph) → deallocate_route_bw ls b (allocate_route_bw ls b g) ≡ g
unfolding allocate_route_bw deallocate_route_bw
deallocate-allocate_route_bw [] b g = refl
deallocate-allocate_route_bw (l ∷ ls) b g =
    ap (charge_route ◌+ℤ◌ b ls) (
      credit-charge_route ls b l b (shift_link ◌-ℤ◌ l b g)
      ∙ ap (charge_route ◌-ℤ◌ b ls) (shift_link_undo l b g))
    ∙ deallocate-allocate_route_bw ls b g

-- No link is overcommitted.
abbrev pub NoOvercommit : Graph → Type 0
NoOvercommit g =
    (id : Ident) (x : Link) → find link_key id g.edges ≡ some x → pos 0 ≤ℤ x.bw_residual

-- No link id is used by two edges.
abbrev pub HasUniqueLinks : Graph → Type 0
HasUniqueLinks g =
    (u v : Ident) (l : Link) → find_edge g u v ≡ some l → find link_key l.link_id g.edges ≡ some l

-- The links of a simple path are different.
abbrev pub Distinct : List Ident → Type 0
Distinct [] = Unit
Distinct (l ∷ ls) = All (λ m. m == l ≡ false) ls × Distinct ls

-- The links that the route names have room for the demand.
HasRoom : Graph → ℤ → Ident → Type 0
HasRoom g b id = (x : Link) × (find link_key id g.edges ≡ some x) × (b ≤ℤ x.bw_residual)

walk-HasRoom :
    (g : Graph) (b acc d : ℤ) (p ls : List Ident)
    → HasUniqueLinks g
    → walk b acc (path_edges g p) ≡ through d ls
    → All (HasRoom g b) ls
unfolding walk HasRoom
walk-HasRoom g b acc d [] ls u h = rw (nothing_left ls h) tt
  where
    nothing_left : (ls : List Ident) → through acc [] ≡ through d ls → ls ≡ []
    nothing_left ls h = cc
walk-HasRoom g b acc d (n ∷ []) ls u h = rw (nothing_left ls h) tt
  where
    nothing_left : (ls : List Ident) → through acc [] ≡ through d ls → ls ≡ []
    nothing_left ls h = cc
walk-HasRoom g b acc d (n ∷ m ∷ p) ls u h = elim (Option-cases (find_edge g n m)) [
  | inl e ↦ absurd (cc (h, ap (λ o. walk b acc (o ∷ path_edges g (m ∷ p))) e))
  | inr (l, e) ↦
      let here = ap (λ o. walk b acc (o ∷ path_edges g (m ∷ p))) (sym e) ∙ h in
      elim (Bool-cases (ltb_ℤ l.bw_residual b)) [
        | inl lack ↦ absurd (ground arith)
        | inr room ↦
            elim (Walk-cases (walk b (acc +ℤ l.propagation_delay) (path_edges g (m ∷ p)))) [
              | inl e' ↦ absurd (ground arith)
              | inr (inl e') ↦ absurd (ground arith)
              | inr (inr (d', ls', e')) ↦
                  let split : ls ≡ l.link_id ∷ ls' = ground arith in
                  rw split (
                    (l, u n m l e, ground arith),
                    walk-HasRoom g b (acc +ℤ l.propagation_delay) d' (m ∷ p) ls' u e',
                  )
            ]
      ]
]

module _ (b : ℤ) (positive : pos 0 ≤ℤ b) where
  HasRoom-after :
      (g : Graph) (l id : Ident)
      → (id == l) ≡ false
      → HasRoom g b id
      → HasRoom (shift_link ◌-ℤ◌ l b g) b id
  unfolding HasRoom
  HasRoom-after g l id ne (x, f, room) =
      (x, find-adjust link_key (charged_link ◌-ℤ◌ b) (λ _. refl) id l g.edges ∙ ground arith, room)

  All-HasRoom-after :
      (g : Graph) (l : Ident) (ls : List Ident)
      → All (λ m. m == l ≡ false) ls
      → All (HasRoom g b) ls
      → All (HasRoom (shift_link ◌-ℤ◌ l b g) b) ls
  All-HasRoom-after g l [] ne room = tt
  All-HasRoom-after g l (m ∷ ls) ne room =
      (HasRoom-after g l m ne.0 room.0, All-HasRoom-after g l ls ne.1 room.1)

  NoOvercommit-after :
      (g : Graph) (l : Ident)
      → HasRoom g b l
      → NoOvercommit g
      → NoOvercommit (shift_link ◌-ℤ◌ l b g)
  unfolding HasRoom
  NoOvercommit-after g l (x, f, room) safe id y h =
      let after = sym (find-adjust link_key (charged_link ◌-ℤ◌ b) (λ _. refl) id l g.edges) ∙ h in
      elim (Bool-cases (id == l)) [
        | inl same ↦
            let f' : find link_key id g.edges ≡ some x = rw ((==_iff id l).0 same) f in
            let e : y ≡ charged_link ◌-ℤ◌ b x = ground arith in rw e (omega int_laws)
        | inr ne ↦ safe id y (ground arith)
      ]

  charge_route-NoOvercommit :
      (g : Graph) (ls : List Ident)
      → Distinct ls
      → All (HasRoom g b) ls
      → NoOvercommit g
      → NoOvercommit (charge_route ◌-ℤ◌ b ls g)
  charge_route-NoOvercommit g [] dist room safe = safe
  charge_route-NoOvercommit g (l ∷ ls) dist room safe =
      charge_route-NoOvercommit (shift_link ◌-ℤ◌ l b g) ls dist.1
        (All-HasRoom-after g l ls dist.0 room.1) (NoOvercommit-after g l room.0 safe)

-- A route found for a demand of at least 0 (each of its links had the bandwidth when it was scanned)
-- can be reserved: if its links are different and no link id is used twice, then no residual that
-- was 0 or more before `allocate_route_bw` is below 0 after it, on any link of the graph.
pub allocate_route_bw-NoOvercommit :
    (g : Graph) (b d : ℤ) (p ls : List Ident)
    → pos 0 ≤ℤ b
    → HasUniqueLinks g
    → walk b (pos 0) (path_edges g p) ≡ through d ls
    → Distinct ls
    → NoOvercommit g
    → NoOvercommit (allocate_route_bw ls b g)
unfolding allocate_route_bw
allocate_route_bw-NoOvercommit g b d p ls positive u h dist safe =
    charge_route-NoOvercommit b positive g ls dist (walk-HasRoom g b (pos 0) d p ls u h) safe
