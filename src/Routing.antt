-- ===== src/Routing.antt =====
-- actors/routing.py: the choice among the k shortest paths, and the provisional bandwidth of a route.
-- networkx and `math.log` are parameters. `deallocate_route_bw` is the mirror of `allocate_route_bw`.
pub mod Links
pub mod Best
pub mod Bandwidth
mod Tests
use orion_v.Prelude.{
  ℕ, zero, suc, ℤ, pos, ◌+ℤ◌, ◌-ℤ◌, ◌*ℤ◌, List, [], ◌∷◌, Bool, true, false, Option, none, some,
  length, ◌==◌, ◌-◌, if◌then◌else◌, ltb_ℤ, leb_ℤ,
}
use orion_v.Prelude.Fail.{Result, ok, err, key_error}
use orion_v.Types.{Ident, Link}
use orion_v.Substrate.{Graph, SubstrateNetwork, find_edge, shift_link}

-- A float that may be `inf`.
pub data Score : Type 0 where
  fin : ℤ → Score
  infinite : Score

abbrev pub ltb_Score : Score → Score → Bool
ltb_Score (fin a) (fin b) = ltb_ℤ a b
ltb_Score (fin a) infinite = true
ltb_Score infinite b = false

pub record RouteResult : Type 0 where
  pub feasible : Bool
  pub path_links : List Ident
  pub path_nodes : List Ident
  pub propagation_delay : ℤ
  pub cost : Score

-- The two results that need no search: the flow within a node, and no route.
abbrev pub local_route : Ident → RouteResult
local_route n = record {
  feasible = true;
  path_links = [];
  path_nodes = n ∷ [];
  propagation_delay = pos 0;
  cost = fin (pos 0);
}

abbrev pub no_route : RouteResult
no_route = record {
  feasible = false;
  path_links = [];
  path_nodes = [];
  propagation_delay = pos 0;
  cost = infinite;
}

-- `RoutingSelector.mode`; the constructor refuses any other.
pub data RoutingMode : Type 0 where
  min_cost min_delay min_hops : RoutingMode

-- What the code takes from networkx and from `math`. `shortest_simple_paths` lists the simple paths
-- from one node to another by propagation delay; `neg_log n d` is `-log(n / d)`.
pub record Networkx : Type 0 where
  pub subgraph : Graph → List Ident → Graph
  pub has_path : Graph → Ident → Ident → Bool
  pub shortest_simple_paths : Graph → Ident → Ident → List (List Ident)
  pub neg_log : ℤ → ℤ → ℤ

abbrev pub take {ℓ} : {A : Type ℓ} → ℕ → List A → List A
take zero xs = []
take (suc n) [] = []
take (suc n) (x ∷ xs) = x ∷ take n xs

-- The links between consecutive nodes of the path; `none` for a pair that no edge joins.
abbrev pub path_edges : Graph → List Ident → List (Option Link)
path_edges g [] = []
path_edges g (u ∷ []) = []
path_edges g (u ∷ v ∷ ns) = find_edge g u v ∷ path_edges g (v ∷ ns)

-- `-log(max(ratio, 1e-6))` of a link, where ratio = residual / capacity, or 1e-6 without capacity.
abbrev pub log_cost : Networkx → Link → ℤ
log_cost nx l =
    if ltb_ℤ (pos 0) l.bandwidth_capacity
    then if ltb_ℤ (l.bw_residual *ℤ pos 1_000_000) l.bandwidth_capacity
      then nx.neg_log (pos 1) (pos 1_000_000)
      else nx.neg_log l.bw_residual l.bandwidth_capacity
    else nx.neg_log (pos 1) (pos 1_000_000)

abbrev pub sum_edges : (Link → ℤ) → ℤ → List (Option Link) → Result ℤ
sum_edges f acc [] = ok acc
sum_edges f acc (none ∷ es) = err key_error
sum_edges f acc (some l ∷ es) = sum_edges f (acc +ℤ f l) es

-- `RoutingSelector.score`
unfoldable pub score : Networkx → RoutingMode → Graph → List Ident → Result ℤ
score nx min_hops g path_nodes = ok (pos (length path_nodes) -ℤ pos 1)
score nx min_delay g path_nodes =
    sum_edges (λ l. l.propagation_delay) (pos 0) (path_edges g path_nodes)
score nx min_cost g path_nodes = sum_edges (log_cost nx) (pos 0) (path_edges g path_nodes)

-- How the scan of one candidate ends: an edge is missing (a KeyError), a link is short of bandwidth,
-- or it passes, with the delay and the links.
pub data Walk : Type 0 where
  missing short : Walk
  through : ℤ → List Ident → Walk

unfoldable pub walk : ℤ → ℤ → List (Option Link) → Walk
walk bw_demand total_delay [] = through total_delay []
walk bw_demand total_delay (none ∷ es) = missing
walk bw_demand total_delay (some l ∷ es) =
    let rest = walk bw_demand (total_delay +ℤ l.propagation_delay) es in
    if ltb_ℤ l.bw_residual bw_demand
    then short
    else elim rest [ through d ls ↦ through d (l.link_id ∷ ls) | short ↦ short | missing ↦ missing ]

-- The score of the best result so far: `inf` before there is one.
abbrev pub best_score : Option RouteResult → Score
best_score none = infinite
best_score (some r) = r.cost

abbrev pub route : ℤ → List Ident → List Ident → ℤ → RouteResult
route delay links nodes cost = record {
  feasible = true;
  path_links = links;
  path_nodes = nodes;
  propagation_delay = delay;
  cost = fin cost;
}

module _ (nx : Networkx) (mode : RoutingMode) (g : Graph) (bw_demand delay_budget : ℤ) where
  -- The body of the loop over the candidates: the new best result.
  unfoldable pub consider : List Ident → Option RouteResult → Result (Option RouteResult)
  unfolding walk
  consider path_nodes best = elim (walk bw_demand (pos 0) (path_edges g path_nodes)) [
    | missing ↦ err key_error
    | short ↦ ok best
    | through total_delay path_links ↦
        if ltb_ℤ delay_budget total_delay then ok best else elim (score nx mode g path_nodes) [
          | err x ↦ err x
          | ok s ↦
              if ltb_Score (fin s) (best_score best)
              then ok (some (route total_delay path_links path_nodes s))
              else ok best
        ]
  ]

  unfoldable pub select : List (List Ident) → Option RouteResult → Result (Option RouteResult)
  select [] best = ok best
  select (p ∷ ps) best = elim (consider p best) [ err x ↦ err x | ok best' ↦ select ps best' ]

-- The result after the loop.
pub settle : Result (Option RouteResult) → Result RouteResult
settle (err x) = err x
settle (ok none) = ok no_route
settle (ok (some r)) = ok r

-- Routing within a domain: the candidates are paths of the domain's subgraph.
unfoldable pub route_flow :
    Networkx
    → RoutingMode
    → SubstrateNetwork
    → Ident
    → Ident
    → ℤ
    → ℤ
    → List Ident
    → ℕ
    → Result RouteResult
unfolding settle
route_flow nx mode substrate src dst bw_demand delay_budget domain_node_ids k =
    let sub = nx.subgraph substrate.graph domain_node_ids in
    if src == dst
    then ok (local_route src)
    else if nx.has_path sub src dst
    then settle (
        select nx mode substrate.graph bw_demand delay_budget
          (take k (nx.shortest_simple_paths sub src dst)) none)
    else ok no_route

-- Routing across domains: the candidates are paths of the whole graph.
unfoldable pub route_cross_domain_flow :
    Networkx → RoutingMode → SubstrateNetwork → Ident → Ident → ℤ → ℤ → ℕ → Result RouteResult
unfolding settle
route_cross_domain_flow nx mode substrate src dst bw_demand delay_budget k =
    if src == dst
    then ok (local_route src)
    else if nx.has_path substrate.graph src dst
    then settle (
        select nx mode substrate.graph bw_demand delay_budget
          (take k (nx.shortest_simple_paths substrate.graph src dst)) none)
    else ok no_route

abbrev pub charge_route : (ℤ → ℤ → ℤ) → ℤ → List Ident → Graph → Graph
charge_route op bw [] g = g
charge_route op bw (l ∷ ls) g = charge_route op bw ls (shift_link op l bw g)

unfoldable pub allocate_route_bw : List Ident → ℤ → Graph → Graph
allocate_route_bw path_links bw_demand g = charge_route ◌-ℤ◌ bw_demand path_links g

unfoldable pub deallocate_route_bw : List Ident → ℤ → Graph → Graph
deallocate_route_bw path_links bw_demand g = charge_route ◌+ℤ◌ bw_demand path_links g
