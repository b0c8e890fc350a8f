-- ===== src/Oracle/Delays.antt =====
-- partition_oracle.py: the predicted delay of a partition and the best one. Keys that the code reads
-- from its dicts are there: the nodes are those of the domains, the indices those of the summaries.
pub mod Pick
use orion_v.Prelude.{
  ℕ, suc, ◌+◌, ℤ, pos, ◌+ℤ◌, ◌-ℤ◌, ◌*ℤ◌, ltb_ℤ, leb_ℤ, min_ℤ, List, [], ◌∷◌, Bool, true, false, not,
  ◌&&◌, ◌||◌, Option, none, some, length, get_elem?, filter, any, ltb, ◌==◌, if◌then◌else◌,
}
use orion_v.Prelude.Dict.{Dict, nat_eq, pair_eq, get, get_or, put}
use orion_v.Prelude.Fail.{Result, ok, err, runtime_error}
use orion_v.Prelude.Fraction.{Fraction, whole, lt_fraction}
use orion_v.Prelude.Sort.{sort}
use orion_v.Types.{Ident, Node, Link, Vnf, FlowEdge, SliceRequest}
use orion_v.Types.Mdo.{DomainSummary}
use orion_v.Substrate.{Graph, SubstrateNetwork, find_node, nodes_in_domain}
use orion_v.ChainOrder.{mem}
use orion_v.Precommit.{pair_key}
use orion_v.Admissibility.{lex_lt}
use orion_v.Delay.{Scale, Delay, infinite, finite, node_sojourn, link_sojourn, exceeds}
use orion_v.Verifier.{add_sojourn}
use orion_v.Oracle.{View, Ranked, is_trivial, all_choices, exceeds_space, feasible_partitions}

-- The CPU and RAM left of the nodes, while the chain is seated.
abbrev pub Left : Type 0
Left = Dict Ident (ℤ × ℤ)

module _ (s : SubstrateNetwork) (view : View) where
  -- `dom_nodes[m]`
  unfoldable pub dom_nodes : ℕ → List Ident
  unfolding nodes_in_domain
  dom_nodes m = elim (get_elem? view.summaries m) [
    | none ↦ []
    | some d ↦ nodes_in_domain s d.domain_id
  ]

  abbrev pub left_of_nodes : List Ident → Left → Left
  left_of_nodes [] res = res
  left_of_nodes (n ∷ ns) res = left_of_nodes ns (elim (find_node s.graph n) [
    | none ↦ res
    | some x ↦ put n (x.cpu_residual, x.ram_residual) res
  ])

  unfoldable pub left_of : List ℕ → Left → Left
  unfolding dom_nodes
  left_of [] res = res
  left_of (m ∷ ms) res = left_of ms (left_of_nodes (dom_nodes m) res)

-- The node with the least slack, if any has room: the loop over the sorted candidates.
abbrev pub tighter : ℤ → Ident → Option (ℤ × Ident) → Option (ℤ × Ident)
tighter slack n none = some (slack, n)
tighter slack n (some best) = if ltb_ℤ slack best.0 then some (slack, n) else some best

abbrev pub slack_of : ℤ → ℤ → ℤ × ℤ → ℤ
slack_of cpu ram left = min_ℤ (left.0 -ℤ cpu) (left.1 -ℤ ram)

unfoldable pub pick_node : ℤ → ℤ → Left → List Ident → Option (ℤ × Ident) → Option (ℤ × Ident)
pick_node cpu ram res [] pick = pick
pick_node cpu ram res (n ∷ ns) pick =
    let slack = slack_of cpu ram (get_or n (pos 0, pos 0) res) in
    pick_node cpu ram res ns (if leb_ℤ (pos 0) slack then tighter slack n pick else pick)

-- `res[n][0] -= cpu` and `res[n][1] -= ram`
abbrev pub debit_left : Ident → ℤ → ℤ → Left → Left
debit_left n cpu ram res =
    let left = get_or n (pos 0, pos 0) res in put n (left.0 -ℤ cpu, left.1 -ℤ ram) res

-- `_inter_domain_links`: the link with the most residual bandwidth of each pair of domains.
abbrev pub keep_best_link : Ident × Ident → Link → Dict (ℕ × ℕ) Link → Dict (ℕ × ℕ) Link
keep_best_link key l best = elim (get key best) [
  | none ↦ put key l best
  | some prev ↦ if ltb_ℤ prev.bw_residual l.bw_residual then put key l best else best
]

unfoldable pub add_link : Option Node → Option Node → Link → Dict (ℕ × ℕ) Link → Dict (ℕ × ℕ) Link
unfolding pair_key
add_link (some u) (some w) l best =
    if u.domain_id == w.domain_id
    then best
    else keep_best_link (pair_key u.domain_id w.domain_id) l best
add_link _ _ l best = best

unfoldable pub inter_domain_links : Graph → List Link → Dict (ℕ × ℕ) Link → Dict (ℕ × ℕ) Link
unfolding add_link
inter_domain_links g [] best = best
inter_domain_links g (l ∷ links) best =
    inter_domain_links g links (add_link (find_node g l.source) (find_node g l.target) l best)

module _ (scale : Scale) (s : SubstrateNetwork) (view : View) where
  abbrev pub plus : Fraction → Delay → Delay
  plus total t = add_sojourn scale s.graph total t

  -- The sojourn of a VNF at the node it would occupy.
  unfoldable pub sojourn_at : Ident → Vnf → ℤ → Delay
  unfolding node_sojourn
  sojourn_at n v cpu = elim (find_node s.graph n) [
    | none ↦ infinite
    | some x ↦
        node_sojourn scale x.processing_delay v.computational_intensity x.cpu_capacity
          ((x.cpu_capacity -ℤ x.cpu_residual) +ℤ cpu)
  ]

  unfoldable pub seat_chain : List ℕ → List Vnf → List ℤ → List ℤ → Left → Fraction → Delay
  unfolding sojourn_at pick_node dom_nodes
  seat_chain (m ∷ ms) (v ∷ vs) (cpu ∷ cs) (ram ∷ rs) res total =
      elim (pick_node cpu ram res
        (sort ltb (filter (λ n. mem n v.permitted_nodes) (dom_nodes s view m))) none) [
          | none ↦ infinite
          | some pick ↦ elim (plus total (sojourn_at pick.1 v cpu)) [
            | infinite ↦ infinite
            | finite sum ↦ seat_chain ms vs cs rs (debit_left pick.1 cpu ram res) sum
          ]
        ]
  seat_chain _ _ _ _ res total = finite total

  -- The sojourn of a flow on the best link between two domains, given their ids.
  abbrev pub over_link : Option Link → ℤ → Delay
  over_link none bw = infinite
  over_link (some l) bw =
      if ltb_ℤ l.bw_residual bw
      then infinite
      else link_sojourn scale l.propagation_delay l.bandwidth_capacity
          ((l.bandwidth_capacity -ℤ l.bw_residual) +ℤ bw)

  abbrev pub domain_at : ℕ → ℕ
  domain_at m = elim (get_elem? view.summaries m) [ none ↦ m | some d ↦ d.domain_id ]

  unfoldable pub flow_chain : Dict (ℕ × ℕ) Link → List ℕ → List FlowEdge → Fraction → Delay
  unfolding over_link pair_key link_sojourn
  flow_chain best (m ∷ m' ∷ ms) (f ∷ fs) total = elim (domain_at m == domain_at m') [
    | true ↦ flow_chain best (m' ∷ ms) fs total
    | false ↦
        elim (plus total
          (over_link (get (pair_key (domain_at m) (domain_at m')) best) f.bandwidth_demand)) [
            | infinite ↦ infinite
            | finite sum ↦ flow_chain best (m' ∷ ms) fs sum
          ]
  ]
  flow_chain best _ _ total = finite total

  unfoldable pub predicted_e2e : SliceRequest → List ℕ → Delay
  unfolding seat_chain flow_chain left_of inter_domain_links
  predicted_e2e slice_req cand =
      elim (seat_chain cand slice_req.vnfs view.cpu view.ram (left_of s view cand [])
        (whole (pos 0))) [
          | infinite ↦ infinite
          | finite sum ↦
              flow_chain (inter_domain_links s.graph s.graph.edges []) cand slice_req.flow_edges sum
        ]

-- `(key[0], d, cand)`
pub record Best : Type 0 where
  pub domains : ℕ
  pub delay : Fraction
  pub cand : List ℕ

unfoldable pub lt_best : Best → Best → Bool
unfolding lt_fraction
lt_best a b =
    ltb a.domains b.domains
    || (a.domains == b.domains
        && (lt_fraction a.delay b.delay
            || (not (lt_fraction b.delay a.delay) && lex_lt a.cand b.cand)))

unfoldable pub keep_less : Best → Option Best → Option Best
unfolding lt_best
keep_less k none = some k
keep_less k (some b) = if lt_best k b then some k else some b

-- The body of the loop over the ranked partitions.
unfoldable pub offer : (List ℕ → Delay) → ℤ → Ranked → Option Best → Option Best
unfolding keep_less exceeds
offer predicted budget r best = elim (predicted r.cand) [
  | infinite ↦ best
  | finite d ↦ elim (exceeds (finite d) budget) [
    | true ↦ best
    | false ↦ keep_less (record { domains = r.domains; delay = d; cand = r.cand }) best
  ]
]

unfoldable pub best_of : (List ℕ → Delay) → ℤ → List Ranked → Option Best → Option Best
unfolding offer
best_of predicted budget [] best = best
best_of predicted budget (r ∷ rs) best = best_of predicted budget rs (offer predicted budget r best)

-- `best if best is not None else fallback`
abbrev pub or_fallback : Option Best → List ℕ → List ℕ
or_fallback none fallback = fallback
or_fallback (some b) fallback = b.cand

-- The pick among the candidates: the first without a network and a request to judge the delay by.
unfoldable pub pick_of : Option ((List ℕ → Delay) × ℤ) → List Ranked → Option (List ℕ)
unfolding best_of
pick_of context [] = none
pick_of none (r ∷ rs) = some r.cand
pick_of (some (predicted, budget)) (r ∷ rs) =
    some (or_fallback (best_of predicted budget (r ∷ rs) none) r.cand)

unfoldable pub judge : Scale → View → SubstrateNetwork × SliceRequest → (List ℕ → Delay) × ℤ
unfolding predicted_e2e
judge scale view (s, slice_req) =
    (predicted_e2e scale s view slice_req, slice_req.qos.max_e2e_delay *ℤ scale.one_intensity)

unfoldable pub best_feasible_partition :
    ℕ → Scale → View → Option (SubstrateNetwork × SliceRequest) → Result (Option (List ℕ))
unfolding feasible_partitions pick_of judge
best_feasible_partition max_partitions scale view context =
    if is_trivial view
    then ok none
    else if any (λ c. length c == 0) (all_choices view)
    then ok none
    else if exceeds_space max_partitions 1 (all_choices view)
    then err runtime_error
    else elim (feasible_partitions max_partitions view) [
      | err x ↦ err x
      | ok cands ↦
          ok (pick_of (elim context [ none ↦ none | some c ↦ some (judge scale view c) ]) cands)
    ]
