-- ===== src/Ffd/Paths.antt =====
-- greedy_ffd.py: the links of the path that networkx finds.
use orion_v.Prelude.{
  ℤ, ◌≤ℤ◌, ◌≡◌, refl, ap, inl, inr, List, [], ◌∷◌, Bool, true, false, not, some, arith, All, ltb_ℤ,
  ◌==◌, Bool-cases, Option,
}
use orion_v.Prelude.Adjust.{find}
use orion_v.Prelude.Fail.{ok}
use orion_v.Types.{Ident, Link}
use orion_v.Substrate.{Graph, link_key, find_edge}
use orion_v.Ffd.{PlacementState, bw_after, links_of, link_ids}
use orion_v.Ffd.Links.{IsSimple, HasRoom, DifferentFrom, Distinct}

-- A path of the view: an edge that passes the filter from each node to the next.
abbrev pub Walks : (Link → Bool) → Graph → List Ident → Type 0
Walks passes g [] = Unit
Walks passes g (u ∷ []) = Unit
Walks passes g (u ∷ v ∷ ns) =
    ((l : Link) × (find_edge g u v ≡ some l) × (passes l ≡ true)) × Walks passes g (v ∷ ns)

-- What `nx.shortest_path` on a `subgraph_view` says it gives: a simple path of the view.
abbrev pub IsPathFinder : ((Link → Bool) → Graph → Ident → Ident → Option (List Ident)) → Type 0
IsPathFinder shortest_path =
    (passes : Link → Bool) (g : Graph) (src dst : Ident) (path : List Ident)
    → shortest_path passes g src dst ≡ some path
    → Walks passes g path × Distinct path

edge-source :
    (ls : List Link) (u v : Ident) {l : Link} (g : Graph)
    → find_edge (record g { edges = ls }) u v ≡ some l
    → l.source == u ≡ true
edge-source [] u v g h = cc
edge-source (k ∷ ls) u v {l} g h = ground (arith, edge-source ls u v {l = l} g)

module _ (g : Graph) (simple : IsSimple g) (st : PlacementState) (bw : ℤ) where
  abbrev pub room_test : Link → Bool
  room_test l = not (ltb_ℤ (bw_after st l) bw)

  -- The links of the rest of a path do not start at this node.
  abbrev pub StartsElsewhere : Ident → List Link → Type 0
  StartsElsewhere u ls =
      All (λ l. (u == l.source ≡ false) × (find link_key l.link_id g.edges ≡ some l)) ls

  ids_differ :
      (l : Link) (u : Ident) (ls : List Link)
      → find link_key l.link_id g.edges ≡ some l
      → l.source == u ≡ true
      → StartsElsewhere u ls
      → DifferentFrom l.link_id (link_ids ls)
  ids_differ l u [] f s e = tt
  ids_differ l u (k ∷ ls) f s e = (differ, ids_differ l u ls f s e.1)
    where
      differ : l.link_id == k.link_id ≡ false
      differ = elim (Bool-cases (l.link_id == k.link_id)) [
        | inr other ↦ other
        | inl same ↦
            let ids : l.link_id ≡ k.link_id = ground arith in
            let one : l ≡ k = cc (f, e.0.1, ids) in
            let sources : l.source ≡ k.source = ap (λ (t : Link). t.source) one in
            absurd (ground arith)
      ]

  pub record IsRoute (path : List Ident) (ls : List Link) : Type 0 where
    pub found : links_of g path ≡ ok ls
    pub room : HasRoom g st bw (link_ids ls)
    pub distinct : Distinct (link_ids ls)
    pub starts : (w : Ident) → DifferentFrom w path → StartsElsewhere w ls

  pub walk_links :
      (path : List Ident)
      → Walks room_test g path
      → Distinct path
      → (ls : List Link) × IsRoute path ls
  walk_links [] w d = ([], record { found = refl; room = tt; distinct = tt; starts = λ w _. tt })
  walk_links (u ∷ []) w d =
      ([], record { found = refl; room = tt; distinct = tt; starts = λ w _. tt })
  walk_links (u ∷ v ∷ ns) w d =
      let (l, f, passes) = w.0 in
      let (ls, r) = walk_links (v ∷ ns) w.1 d.1 in
      let by_id = simple.by_ends u v l f in
      let from_u = edge-source g.edges u v g f in
      (
        l ∷ ls,
        record {
          found = ground (arith, f, r.found);
          room = ((l, by_id, fits l passes), r.room);
          distinct = (ids_differ l u ls by_id from_u (r.starts u d.0), r.distinct);
          starts = λ x e. ((elsewhere x u l e.0 from_u, by_id), r.starts x e.1);
        },
      )
    where
      fits : (l : Link) → room_test l ≡ true → bw ≤ℤ bw_after st l
      fits l h = ground arith

      elsewhere :
          (x u : Ident) (l : Link) → x == u ≡ false → l.source == u ≡ true → x == l.source ≡ false
      elsewhere x u l h k = ground arith
