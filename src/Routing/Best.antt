-- ===== src/Routing/Best.antt =====
-- actors/routing.py: the choice among the candidate paths.
use orion_v.Prelude.{
  ℕ, ℤ, pos, ◌≤ℤ◌, ◌≡◌, refl, ap, sym, subst, ◌∙◌, ◌≢◌, ◌⊎◌, inl, inr, List, [], ◌∷◌, true, false,
  Option, none, some, arith, ltb_ℤ, All, Bool-cases, if◌then◌else◌, zero-add_ℤ,
}
use orion_v.Prelude.Fail.{ok, Result-cases}
use mathlib.Core.List.{Memᴰ}
use orion_v.Types.{Ident, Link}
use orion_v.Substrate.{Graph, SubstrateNetwork}
use orion_v.Routing.{
  Score, ltb_Score, fin, infinite, RouteResult, no_route, RoutingMode, Networkx, take, path_edges,
  score, through, walk, best_score, route, consider, select, settle, route_flow,
  route_cross_domain_flow,
}
use orion_v.Routing.Links.{
  Joins, Carry, delay_of, ids_of, weight, walk-Joins, walk-Scanned, score-weight, Walk-cases,
}

-- An order of scores, with `inf` on top.
abbrev pub LeScore : Score → Score → Type 0
LeScore (fin a) (fin b) = a ≤ℤ b
LeScore a infinite = Unit
LeScore infinite (fin b) = ⊥

LeScore-trans : (a b c : Score) → LeScore a b → LeScore b c → LeScore a c
LeScore-trans (fin a) (fin b) (fin c) h k = omega arith
LeScore-trans (fin a) b infinite h k = tt
LeScore-trans (fin a) infinite (fin c) h k = elim k [ ]
LeScore-trans infinite (fin b) c h k = elim h [ ]
LeScore-trans infinite infinite c h k = k

LeScore-refl : (a : Score) → LeScore a a
LeScore-refl (fin a) = omega arith
LeScore-refl infinite = tt

LeScore-of_not-lt : (a : ℤ) (b : Score) → ltb_Score (fin a) b ≡ false → LeScore b (fin a)
LeScore-of_not-lt a (fin b) h = ground arith
LeScore-of_not-lt a infinite h = cc

LeScore-of_lt : (a : ℤ) (b : Score) → ltb_Score (fin a) b ≡ true → LeScore (fin a) b
LeScore-of_lt a (fin b) h = ground arith
LeScore-of_lt a infinite h = tt

module _ (nx : Networkx) (mode : RoutingMode) (g : Graph) (bw_demand delay_budget : ℤ) where
  -- These links join the nodes of the path, each has the bandwidth of the demand left, and their
  -- propagation delays add up to no more than the budget.
  abbrev pub Fits : List Ident → List Link → Type 0
  Fits p ls = Joins g p ls × (Carry bw_demand ls × (delay_of ls ≤ℤ delay_budget))

  -- If the candidate fits, then it weighs no less than this.
  abbrev pub Beaten : Score → List Ident → Type 0
  Beaten c p = (ls : List Link) → Fits p ls → LeScore c (fin (weight nx mode p ls))

  -- The result is that of a candidate which fits, with its links, its delay and its weight.
  pub record Origin (ps : List (List Ident)) (r : RouteResult) : Type 0 where
    pub links : List Link
    pub chosen : Memᴰ r.path_nodes ps
    pub fits : Fits r.path_nodes links
    pub named : r.path_links ≡ ids_of links
    pub delayed : r.propagation_delay ≡ delay_of links
    pub scored : r.cost ≡ fin (weight nx mode r.path_nodes links)
    pub feasible : r.feasible ≡ true

  scan :
      (p : List Ident) (ls : List Link)
      → Fits p ls
      → walk bw_demand (pos 0) (path_edges g p) ≡ through (delay_of ls) (ids_of ls)
  scan p ls f =
      walk-Joins g bw_demand (pos 0) p ls f.0 f.1.0
      ∙ ap (λ t. through t (ids_of ls)) (zero-add_ℤ (delay_of ls))

  consider_new :
      (p : List Ident) (best : Option RouteResult) (d : ℤ) (ls : List Ident) (s : ℤ)
      → walk bw_demand (pos 0) (path_edges g p) ≡ through d ls
      → d ≤ℤ delay_budget
      → score nx mode g p ≡ ok s
      → consider nx mode g bw_demand delay_budget p best
        ≡ (if ltb_Score (fin s) (best_score best) then ok (some (route d ls p s)) else ok best)
  unfolding consider
  consider_new p best d ls s w b e = ground arith

  -- A result for this path.
  record Made (p : List Ident) (d : ℤ) (ids : List Ident) (s : ℤ) : Type 0 where
    links : List Link
    fits : Fits p links
    named : ids ≡ ids_of links
    delayed : d ≡ delay_of links
    scored : s ≡ weight nx mode p links

  made :
      (p : List Ident) (d : ℤ) (ids : List Ident) (s : ℤ)
      → walk bw_demand (pos 0) (path_edges g p) ≡ through d ids
      → d ≤ℤ delay_budget
      → score nx mode g p ≡ ok s
      → Made p d ids s
  made p d ids s w b e =
      let sc = walk-Scanned g bw_demand (pos 0) p d ids w in
      let same : d ≡ delay_of sc.links = sc.delay ∙ zero-add_ℤ (delay_of sc.links) in
      record {
        links = sc.links;
        fits = (sc.joins, (sc.carry, subst (λ t. t ≤ℤ delay_budget) same b));
        named = sc.names;
        delayed = same;
        scored = cc (e, score-weight nx mode g p sc.links sc.joins);
      }

  Beaten-of_score :
      (c : Score) (p : List Ident) (s : ℤ)
      → score nx mode g p ≡ ok s
      → LeScore c (fin s)
      → Beaten c p
  Beaten-of_score c p s e h ls f =
      let same : s ≡ weight nx mode p ls = cc (e, score-weight nx mode g p ls f.0) in
      subst (λ t. LeScore c (fin t)) same h

  data Considered (p : List Ident) (best now : Option RouteResult) : Type 0 where
    kept : now ≡ best → Beaten (best_score best) p → Considered p best now
    replaced :
        (d : ℤ) (ls : List Ident) (s : ℤ)
        → now ≡ some (route d ls p s)
        → Made p d ls s
        → Beaten (fin s) p
        → LeScore (fin s) (best_score best)
        → Considered p best now

  considered :
      (p : List Ident) (best now : Option RouteResult)
      → consider nx mode g bw_demand delay_budget p best ≡ ok now
      → Considered p best now
  unfolding consider
  considered p best now h = elim (Walk-cases (walk bw_demand (pos 0) (path_edges g p))) [
    | inl e ↦ absurd (ground arith)
    | inr (inl e) ↦ kept (ground arith) (λ ls f. absurd (cc (e, scan p ls f)))
    | inr (inr (d, ls, e)) ↦ elim (Bool-cases (ltb_ℤ delay_budget d)) [
      | inl late ↦ kept (ground arith) (λ ls' f.
          let same : d ≡ delay_of ls' = cc (e, scan p ls' f) in
          absurd (ground (arith, same, f.1.1)))
      | inr timely ↦ elim (Result-cases (score nx mode g p)) [
        | inl (s, e') ↦
            let split = consider_new p best d ls s e (ground arith) e' in
            elim (Bool-cases (ltb_Score (fin s) (best_score best))) [
              | inl better ↦
                  replaced d ls s (ground arith) (made p d ls s e (ground arith) e')
                    (Beaten-of_score (fin s) p s e' (LeScore-refl (fin s)))
                    (LeScore-of_lt s (best_score best) better)
              | inr worse ↦ kept (ground arith) (
                  Beaten-of_score (best_score best) p s e'
                    (LeScore-of_not-lt s (best_score best) worse))
            ]
        | inr (x, e') ↦ absurd (ground arith)
      ]
    ]
  ]

  -- What the loop over the candidates ends with, from the best result so far.
  record Selected (ps : List (List Ident)) (best now : Option RouteResult) : Type 0 where
    least : All (Beaten (best_score now)) ps
    below : LeScore (best_score now) (best_score best)
    from : (now ≡ best) ⊎ ((r : RouteResult) × (now ≡ some r) × Origin ps r)

  Origin-cons :
      (p : List Ident) (ps : List (List Ident)) (r : RouteResult) → Origin ps r → Origin (p ∷ ps) r
  Origin-cons p ps r o = record {
    links = o.links;
    chosen = Memᴰ.tail o.chosen;
    fits = o.fits;
    named = o.named;
    delayed = o.delayed;
    scored = o.scored;
    feasible = o.feasible;
  }

  Beaten-mono : (a b : Score) (p : List Ident) → LeScore a b → Beaten b p → Beaten a p
  Beaten-mono a b p h beaten ls f = LeScore-trans a b (fin (weight nx mode p ls)) h (beaten ls f)

  selected :
      (ps : List (List Ident)) (best now : Option RouteResult)
      → select nx mode g bw_demand delay_budget ps best ≡ ok now
      → Selected ps best now
  unfolding select
  selected [] best now h =
      let e : now ≡ best = cc in
      record { least = tt; below = rw e (LeScore-refl (best_score best)); from = inl e }
  selected (p ∷ ps) best now h =
      elim (Result-cases (consider nx mode g bw_demand delay_budget p best)) [
        | inr (x, e) ↦ absurd (ground arith)
        | inl (mid, e) ↦
            selected_step p ps best mid now (considered p best mid e)
              (selected ps mid now (ground arith))
      ]
    where
      selected_step :
          (p : List Ident) (ps : List (List Ident)) (best mid now : Option RouteResult)
          → Considered p best mid
          → Selected ps mid now
          → Selected (p ∷ ps) best now
      selected_step p ps best mid now (kept e beaten) sel =
          let low = rw e at sel.below in
          record {
            least = (Beaten-mono (best_score now) (best_score best) p low beaten, sel.least);
            below = low;
            from = elim sel.from [
              | inl e' ↦ inl (e' ∙ e)
              | inr (r, e', o) ↦ inr (r, e', Origin-cons p ps r o)
            ];
          }
      selected_step p ps best mid now (replaced d ls s e m beaten lt) sel =
          let low : LeScore (best_score now) (fin s) = rw e at sel.below in
          record {
            least = (Beaten-mono (best_score now) (fin s) p low beaten, sel.least);
            below = LeScore-trans (best_score now) (fin s) (best_score best) low lt;
            from = elim sel.from [
              | inl e'' ↦ inr (
                route d ls p s,
                e'' ∙ e,
                record {
                  links = m.links;
                  chosen = Memᴰ.head refl;
                  fits = m.fits;
                  named = m.named;
                  delayed = m.delayed;
                  scored = ap fin m.scored;
                  feasible = refl;
                },
              )
              | inr (r, e'', o) ↦ inr (r, e'', Origin-cons p ps r o)
            ];
          }

  -- The outcome for a list of candidates: the best of those that fit, or none of them fits.
  pub data Routed (ps : List (List Ident)) (r : RouteResult) : Type 0 where
    best : Origin ps r → All (Beaten r.cost) ps → Routed ps r
    nothing : r ≡ no_route → All (λ p. (ls : List Link) → ¬ Fits p ls) ps → Routed ps r

  none-Fits :
      (ps : List (List Ident))
      → All (Beaten infinite) ps
      → All (λ p. (ls : List Link) → ¬ Fits p ls) ps
  none-Fits [] h = tt
  none-Fits (p ∷ ps) h = (h.0, none-Fits ps h.1)

  settled :
      (ps : List (List Ident)) (now : Option RouteResult) (r : RouteResult)
      → Selected ps none now
      → settle (ok now) ≡ ok r
      → Routed ps r
  unfolding settle
  settled ps none r sel h = nothing (cc) (none-Fits ps sel.least)
  settled ps (some q) r sel h = elim sel.from [
    | inl e ↦ absurd (cc e)
    | inr (q', e, o) ↦
        let same : q' ≡ r = ground arith in
        let same' : q ≡ r = ground arith in
        best (subst (Origin ps) same o) (subst (λ t. All (Beaten t.cost) ps) same' sel.least)
  ]

  settle-select :
      (ps : List (List Ident)) (r : RouteResult)
      → settle (select nx mode g bw_demand delay_budget ps none) ≡ ok r
      → Routed ps r
  unfolding settle
  settle-select ps r h = elim (Result-cases (select nx mode g bw_demand delay_budget ps none)) [
    | inl (now, e) ↦ settled ps now r (selected ps none now e) (ap settle (sym e) ∙ h)
    | inr (x, e) ↦ absurd (ground arith)
  ]

module _ (nx : Networkx) (mode : RoutingMode) (s : SubstrateNetwork) (src dst : Ident)
    (bw_demand delay_budget : ℤ) (r : RouteResult) (other : src ≢ dst) where
  -- Between two different nodes `route_flow` gives a route only where the domain has a path; and then
  -- the result is one of the k candidates whose links all exist and have the bandwidth left, and whose
  -- summed propagation delay is within the budget, with these links, this delay and its weight as the
  -- cost (hops, delay or summed log costs, as the mode says), and no candidate of this kind weighs
  -- less; or it is the infeasible result, and none of the k candidates is of this kind.
  pub route_flow-Routed :
      (domain_node_ids : List Ident) (k : ℕ)
      → route_flow nx mode s src dst bw_demand delay_budget domain_node_ids k ≡ ok r
      → let sub = nx.subgraph s.graph domain_node_ids in
        (nx.has_path sub src dst ≡ false) × (r ≡ no_route)
        ⊎ Routed nx mode s.graph bw_demand delay_budget
            (take k (nx.shortest_simple_paths sub src dst))
            r
  unfolding route_flow
  route_flow-Routed domain_node_ids k h =
      let sub = nx.subgraph s.graph domain_node_ids in
      elim (Bool-cases (nx.has_path sub src dst)) [
        | inr no_path ↦ inl (no_path, ground arith)
        | inl path ↦ inr (settle-select nx mode s.graph bw_demand delay_budget _ r (ground arith))
      ]

  -- The same of `route_cross_domain_flow`, whose candidates are paths of the whole graph.
  pub route_cross_domain_flow-Routed :
      (k : ℕ)
      → route_cross_domain_flow nx mode s src dst bw_demand delay_budget k ≡ ok r
      → (nx.has_path s.graph src dst ≡ false) × (r ≡ no_route)
        ⊎ Routed nx mode s.graph bw_demand delay_budget
            (take k (nx.shortest_simple_paths s.graph src dst))
            r
  unfolding route_cross_domain_flow
  route_cross_domain_flow-Routed k h = elim (Bool-cases (nx.has_path s.graph src dst)) [
    | inr no_path ↦ inl (no_path, ground arith)
    | inl path ↦ inr (settle-select nx mode s.graph bw_demand delay_budget _ r (ground arith))
  ]
