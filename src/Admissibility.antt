-- ===== src/Admissibility.antt =====
-- mdo/admissibility.py: the guard on the decoded partition. A partition is the list of the domain ids
-- along the chain; a candidate is the list of the indices of the summaries. The answer is `none` where
-- the code returns its input object, and the counters GUARD_STATS are passed along.
pub mod Product
pub mod Search
pub mod Committable
pub mod Minimal
pub mod Reseat
pub mod Reseated
mod Tests
use orion_v.Prelude.{
  ℕ, zero, suc, ◌+◌, ◌^◌, ℤ, pos, ◌+ℤ◌, ◌-ℤ◌, List, [], ◌∷◌, ◌++◌, map, Bool, true, false, not,
  ◌&&◌, ◌||◌, Option, none, some, length, get_elem?, filter, any, all, ltb, ◌==◌, leb_ℤ, ltb_ℤ,
  min_ℤ, if◌then◌else◌,
}
use orion_v.Prelude.Dict.{Dict, nat_eq, get, get_or, put}
use orion_v.Types.{Ident, InfrastructureTier, Vnf, SliceRequest}
use orion_v.Types.Mdo.{DomainSummary}
use orion_v.Substrate.{Graph, SubstrateNetwork, find_node, nodes_in_domain}
use orion_v.ChainOrder.{mem, set_size, is_contiguous}

pub record GuardStats : Type 0 where
  pub seen : ℕ
  pub vnfs_moved : ℕ
  pub unrepairable : ℕ
  pub partitions_changed : ℕ

-- `reset_guard_stats`
abbrev pub reset_guard_stats : GuardStats → GuardStats
reset_guard_stats stats = record {
  seen = 0;
  vnfs_moved = 0;
  unrepairable = 0;
  partitions_changed = 0;
}

-- `_fits_a_node`: some tier holds one free node that is big enough.
unfoldable pub fits_a_node : DomainSummary → List InfrastructureTier → ℤ → ℤ → Bool
fits_a_node summary tiers cpu_d ram_d =
    any
      (λ t. leb_ℤ cpu_d (summary.tier_max_node_cpu t) && leb_ℤ ram_d (summary.tier_max_node_ram t))
      tiers

-- `perm[k] & dom_nodes[m]`
abbrev pub shared_nodes : SubstrateNetwork → Vnf → DomainSummary → List Ident
shared_nodes s v d = filter (λ n. mem n v.permitted_nodes) (nodes_in_domain s d.domain_id)

-- `{g.nodes[n]["tier"] for n in nodes}`
unfoldable pub tiers_of : Graph → List Ident → List InfrastructureTier
tiers_of g [] = []
tiers_of g (n ∷ ns) =
    let rest = tiers_of g ns in elim (find_node g n) [ none ↦ rest | some x ↦ x.tier ∷ rest ]

-- `feas[k][m] and _fits_a_node(...)`
unfoldable pub admissible : SubstrateNetwork → Vnf → DomainSummary → Bool
unfolding fits_a_node tiers_of nodes_in_domain
admissible s v d =
    let nodes = shared_nodes s v d in
    not (length nodes == 0) && fits_a_node d (tiers_of s.graph nodes) v.cpu_demand v.ram_demand

-- `d[m] = d.get(m, 0.0) + x`
abbrev pub add_load : ℕ → ℤ → Dict ℕ ℤ → Dict ℕ ℤ
add_load m x d = put m (get_or m (pos 0) d +ℤ x) d

abbrev pub loads : (Vnf → ℤ) → Dict ℕ ℤ → List Vnf → List ℕ → Dict ℕ ℤ
loads f acc (v ∷ vs) (m ∷ ms) = loads f (add_load m (f v) acc) vs ms
loads f acc _ _ = acc

-- `range(n)`, from `i` on
abbrev pub range_from : ℕ → ℕ → List ℕ
range_from i zero = []
range_from i (suc n) = i ∷ range_from (suc i) n

-- `itertools.product(*choices)`
abbrev pub prepend_all : List ℕ → List (List ℕ) → List (List ℕ)
prepend_all [] rs = []
prepend_all (x ∷ xs) rs = map (λ r. x ∷ r) rs ++ prepend_all xs rs

abbrev pub product : List (List ℕ) → List (List ℕ)
product [] = [] ∷ []
product (c ∷ cs) = prepend_all c (product cs)

-- The order of tuples of numbers.
abbrev pub lex_lt : List ℕ → List ℕ → Bool
lex_lt [] [] = false
lex_lt [] (b ∷ bs) = true
lex_lt (a ∷ as') [] = false
lex_lt (a ∷ as') (b ∷ bs) = ltb a b || (a == b && lex_lt as' bs)

-- `(dist, len(set(cand)), cand)`
abbrev pub Key : Type 0
Key = ℕ × ℕ × List ℕ

abbrev pub lt_key : Key → Key → Bool
lt_key (a, b, c) (d, e, f) = ltb a d || (a == d && (ltb b e || (b == e && lex_lt c f)))

module _ (s : SubstrateNetwork) (summaries : List DomainSummary) where
  abbrev pub admissible_at : Vnf → ℕ → Bool
  admissible_at v m = elim (get_elem? summaries m) [ none ↦ false | some d ↦ admissible s v d ]

  abbrev pub all_admissible : List Vnf → List ℕ → Bool
  all_admissible [] [] = true
  all_admissible (v ∷ vs) (m ∷ ms) = admissible_at v m && all_admissible vs ms
  all_admissible _ _ = false

  -- Every domain in use has the CPU and the RAM for what the candidate puts there.
  abbrev pub within_residuals : Dict ℕ ℤ → Dict ℕ ℤ → Bool
  within_residuals acc_c acc_r =
      all
        (λ e. elim (get_elem? summaries e.0) [
          | none ↦ false
          | some d ↦ leb_ℤ e.1 d.cpu_residual && leb_ℤ (get_or e.0 (pos 0) acc_r) d.ram_residual
        ])
        acc_c

  -- The local function `feasible`.
  unfoldable pub feasible : List Vnf → List ℕ → Bool
  feasible vnfs idx =
      is_contiguous idx
      && all_admissible vnfs idx
      && within_residuals (loads (λ v. v.cpu_demand) [] vnfs idx)
          (loads (λ v. v.ram_demand) [] vnfs idx)

  -- `[[m for m in range(M) if admissible(k, m)] for k in range(K)]`
  abbrev pub choices : List Vnf → List (List ℕ)
  choices vnfs = map (λ v. filter (admissible_at v) (range_from 0 (length summaries))) vnfs

-- `sum(1 for k in range(K) if cand[k] != authored[k])`
abbrev pub distance : List ℕ → List ℕ → ℕ
distance (a ∷ as') (b ∷ bs) = (if a == b then 0 else 1) + distance as' bs
distance _ _ = 0

abbrev pub key_of : List ℕ → List ℕ → Key
key_of authored cand = (distance cand authored, set_size cand, cand)

-- The body of the loop over the candidates: the new best.
unfoldable pub keep_better : (List ℕ → Bool) → List ℕ → List ℕ → Option (List ℕ) → Option (List ℕ)
keep_better feasible authored cand best =
    if feasible cand
    then elim best [
      | none ↦ some cand
      | some b ↦ if lt_key (key_of authored cand) (key_of authored b) then some cand else some b
    ]
    else best

unfoldable pub search : (List ℕ → Bool) → List ℕ → List (List ℕ) → Option (List ℕ) → Option (List ℕ)
unfolding keep_better
search feasible authored [] best = best
search feasible authored (cand ∷ cands) best =
    search feasible authored cands (keep_better feasible authored cand best)

-- `{s.domain_id: m for m, s in enumerate(summaries)}`
abbrev pub index_from : ℕ → List DomainSummary → Dict ℕ ℕ → Dict ℕ ℕ
index_from m [] acc = acc
index_from m (d ∷ ds) acc = index_from (suc m) ds (put d.domain_id m acc)

-- `[dom_index.get(d) for d in partition]`, `none` if a domain is unknown
abbrev pub authored_of : Dict ℕ ℕ → List ℕ → Option (List ℕ)
authored_of index [] = some []
authored_of index (d ∷ ds) = elim (get d index) [
  | none ↦ none
  | some m ↦ elim (authored_of index ds) [ none ↦ none | some ms ↦ some (m ∷ ms) ]
]

abbrev pub domain_ids : List DomainSummary → List ℕ → List ℕ
domain_ids summaries [] = []
domain_ids summaries (m ∷ ms) = elim (get_elem? summaries m) [
  | none ↦ domain_ids summaries ms
  | some d ↦ d.domain_id ∷ domain_ids summaries ms
]

abbrev pub seen_one : GuardStats → GuardStats
seen_one stats = record stats { seen = stats.seen + 1 }

abbrev pub unrepaired : GuardStats → GuardStats
unrepaired stats = record stats { seen = stats.seen + 1; unrepairable = stats.unrepairable + 1 }

abbrev pub changed : ℕ → GuardStats → GuardStats
changed moved stats = record stats {
  seen = stats.seen + 1;
  vnfs_moved = stats.vnfs_moved + moved;
  partitions_changed = stats.partitions_changed + 1;
}

-- What the exact search does not look at: `K == 0 or M == 0 or len(partition) != K or M ** K > budget`.
abbrev pub out_of_scope : ℕ → List ℕ → List Vnf → List DomainSummary → Bool
out_of_scope budget partition vnfs summaries =
    length vnfs == 0
    || length summaries == 0
    || not (length partition == length vnfs)
    || ltb budget (length summaries ^ length vnfs)

unfoldable pub minimal_committable_partition :
    ℕ
    → List ℕ
    → SliceRequest
    → SubstrateNetwork
    → List DomainSummary
    → GuardStats
    → Option (List ℕ) × GuardStats
unfolding feasible search
minimal_committable_partition budget partition slice_req s summaries stats =
    let vnfs = slice_req.vnfs in
    if out_of_scope budget partition vnfs summaries
    then (none, stats)
    else elim (authored_of (index_from 0 summaries []) partition) [
      | none ↦ (none, stats)
      | some authored ↦
          if feasible s summaries vnfs authored
          then (none, seen_one stats)
          else if any (λ c. length c == 0) (choices s summaries vnfs)
          then (none, unrepaired stats)
          else elim (search (feasible s summaries vnfs) authored
              (product (choices s summaries vnfs)) none) [
                | none ↦ (none, unrepaired stats)
                | some best ↦
                    (some (domain_ids summaries best), changed (distance best authored) stats)
              ]
    ]
