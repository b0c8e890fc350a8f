-- ===== src/Precommit.antt =====
-- mdo/precommit_check.py: the measures of a partition (hops, bandwidth, delay, cost), and the
-- aggregate test of C5b. `precommit_check` itself only raises: what follows its `raise` is dead.
pub mod Hops
pub mod Demand
mod Tests
use orion_v.Prelude.{
  ℕ, ◌+◌, ℤ, pos, ◌+ℤ◌, ◌*ℤ◌, List, [], ◌∷◌, Bool, true, false, Option, none, some, ◌==◌, leb,
  ltb_ℤ, if◌then◌else◌,
}
use orion_v.Prelude.Dict.{Dict, nat_eq, pair_eq, get, get_or, put, values}
use orion_v.Prelude.Sum.{sum_by}
use orion_v.Prelude.Fail.{Result, err, runtime_error}
use orion_v.Types.Mdo.{DomainResponse, InterDomainLink}
use orion_v.ChainOrder.{mem}

-- The undirected key of two domains: (min, max).
unfoldable pub pair_key : ℕ → ℕ → ℕ × ℕ
pair_key a b = if leb a b then (a, b) else (b, a)

-- `bw_demands[k] if k < len(bw_demands) else 0.0`, as the lists are walked together.
abbrev pub first_or_zero : List ℤ → ℤ
first_or_zero [] = pos 0
first_or_zero (b ∷ bs) = b

abbrev pub rest_of : List ℤ → List ℤ
rest_of [] = []
rest_of (b ∷ bs) = bs

-- `d[key] = d.get(key, 0.0) + beta`
abbrev pub add_at : ℕ × ℕ → ℤ → Dict (ℕ × ℕ) ℤ → Dict (ℕ × ℕ) ℤ
add_at key beta d = put key (get_or key (pos 0) d +ℤ beta) d

unfoldable pub demand_from : Dict (ℕ × ℕ) ℤ → List ℕ → List ℤ → Dict (ℕ × ℕ) ℤ
unfolding pair_key
demand_from demand [] bw = demand
demand_from demand (a ∷ []) bw = demand
demand_from demand (a ∷ b ∷ ps) bw =
    demand_from (if a == b then demand else add_at (pair_key a b) (first_or_zero bw) demand)
      (b ∷ ps) (rest_of bw)

unfoldable pub inter_domain_demand_by_pair : List ℕ → List ℤ → Dict (ℕ × ℕ) ℤ
unfolding demand_from
inter_domain_demand_by_pair partition bw_demands = demand_from [] partition bw_demands

unfoldable pub residual_from : Dict (ℕ × ℕ) ℤ → List InterDomainLink → Dict (ℕ × ℕ) ℤ
unfolding pair_key
residual_from residuals [] = residuals
residual_from residuals (l ∷ ls) =
    residual_from (add_at (pair_key l.source_domain l.target_domain) l.bw_residual residuals) ls

unfoldable pub inter_domain_residual_by_pair : List InterDomainLink → Dict (ℕ × ℕ) ℤ
unfolding residual_from
inter_domain_residual_by_pair links = residual_from [] links

unfoldable pub check_c5b_inter : Dict (ℕ × ℕ) ℤ → Dict (ℕ × ℕ) ℤ → Bool
check_c5b_inter [] residual_by_pair = false
check_c5b_inter ((pair, demand) ∷ ds) residual_by_pair =
    if ltb_ℤ (get_or pair (pos 0) residual_by_pair) demand
    then true
    else check_c5b_inter ds residual_by_pair

-- The items of `set(ds)`.
abbrev pub to_set : List ℕ → List ℕ
to_set [] = []
to_set (d ∷ ds) = if mem d ds then to_set ds else d ∷ to_set ds

abbrev delay_of : Dict ℕ DomainResponse → ℕ → ℤ
delay_of responses d = elim (get d responses) [ none ↦ pos 0 | some r ↦ r.intra_delay ]

total_inter_from : Dict (ℕ × ℕ) ℤ → ℤ → List ℕ → ℤ
total_inter_from delays acc [] = acc
total_inter_from delays acc (src ∷ []) = acc
total_inter_from delays acc (src ∷ dst ∷ ds) =
    total_inter_from delays (if src == dst then acc else acc +ℤ get_or (src, dst) (pos 0) delays)
      (dst ∷ ds)

unfoldable pub compute_e2e_delay : Dict ℕ DomainResponse → Dict (ℕ × ℕ) ℤ → List ℕ → ℤ
unfolding total_inter_from
compute_e2e_delay domain_responses inter_domain_delays domain_sequence =
    sum_by (delay_of domain_responses) (to_set domain_sequence)
    +ℤ total_inter_from inter_domain_delays (pos 0) domain_sequence

unfoldable pub compute_total_cost : Dict ℕ DomainResponse → ℤ → ℤ → ℤ
compute_total_cost domain_responses inter_domain_bw gamma_inter =
    sum_by (λ r. r.resource_cost) (values domain_responses) +ℤ gamma_inter *ℤ inter_domain_bw

inter_bw_from : ℤ → List ℕ → List ℤ → ℤ
inter_bw_from total [] bw = total
inter_bw_from total (a ∷ []) bw = total
inter_bw_from total (a ∷ b ∷ ps) bw =
    inter_bw_from (if a == b then total else total +ℤ first_or_zero bw) (b ∷ ps) (rest_of bw)

unfoldable pub compute_inter_domain_bw : List ℕ → List ℤ → ℤ
unfolding inter_bw_from
compute_inter_domain_bw partition bw_demands = inter_bw_from (pos 0) partition bw_demands

hops_from : ℕ → List ℕ → ℕ
hops_from hops [] = hops
hops_from hops (a ∷ []) = hops
hops_from hops (a ∷ b ∷ ps) = hops_from (if a == b then hops else hops + 1) (b ∷ ps)

unfoldable pub count_inter_domain_hops : List ℕ → ℕ
unfolding hops_from
count_inter_domain_hops partition = hops_from 0 partition

-- The loop with `seq[-1]` as its state: what it appends. After `d` the last item is `d` either way.
sequence_after : ℕ → List ℕ → List ℕ
sequence_after last [] = []
sequence_after last (d ∷ ds) =
    let rest = sequence_after d ds in if d == last then rest else d ∷ rest

unfoldable pub domain_sequence_from_partition : List ℕ → List ℕ
unfolding sequence_after
domain_sequence_from_partition [] = []
domain_sequence_from_partition (d ∷ ds) = d ∷ sequence_after d ds

pub precommit_check : Result (Unit {0})
precommit_check = err runtime_error
