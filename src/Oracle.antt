-- ===== src/Oracle.antt =====
-- sim/partition_oracle.py: the enumeration of the feasible partitions of a chain. A view of an arrival
-- (the summaries, the demands of the chain and the test `admissible`) is an argument, and so is
-- MAX_PARTITIONS.
pub mod Feasible
pub mod Headroom
pub mod Exact
pub mod Delays
mod Tests
use orion_v.Prelude.{
  ℕ, zero, suc, ◌+◌, ◌*◌, ℤ, pos, ◌+ℤ◌, ◌-ℤ◌, ltb_ℤ, min_ℤ, List, [], ◌∷◌, Bool, true, false, not,
  ◌&&◌, ◌||◌, Option, none, some, length, get_elem?, filter, any, ltb, ◌==◌, if◌then◌else◌,
}
use orion_v.Prelude.Dict.{Dict, nat_eq, get_or}
use orion_v.Prelude.Fail.{Result, ok, err, runtime_error}
use orion_v.Prelude.Sort.{sort}
use orion_v.Prelude.Totals.{charges}
use orion_v.Types.Mdo.{DomainSummary}
use orion_v.ChainOrder.{run_count, set_size}
use orion_v.Admissibility.{product, range_from, lex_lt}

pub record View : Type 0 where
  pub summaries : List DomainSummary
  pub cpu : List ℤ
  pub ram : List ℤ
  pub admissible : ℕ → ℕ → Bool

-- `_contiguous`
unfoldable pub contiguous : List ℕ → Bool
unfolding run_count
contiguous idx = run_count idx == set_size idx

-- `[[m for m in range(M) if view.admissible(k, m)] for k in range(K)]`, from `k` on
abbrev pub choices_from : View → ℕ → ℕ → List (List ℕ)
choices_from view k zero = []
choices_from view k (suc n) =
    filter (view.admissible k) (range_from 0 (length view.summaries)) ∷ choices_from view (suc k) n

-- Whether the running product of the numbers of choices gets over the limit.
abbrev pub exceeds_space : ℕ → ℕ → List (List ℕ) → Bool
exceeds_space max_partitions space [] = false
exceeds_space max_partitions space (c ∷ cs) =
    ltb max_partitions (space * length c) || exceeds_space max_partitions (space * length c) cs

abbrev pub seats : List ℕ → List ℤ → List (ℕ × ℤ)
seats (m ∷ ms) (x ∷ xs) = (m, x) ∷ seats ms xs
seats _ _ = []

abbrev pub index_of : ℕ × ℤ → Option ℕ
index_of s = some s.0

abbrev pub amount_of : ℕ × ℤ → ℤ
amount_of s = s.1

-- `acc[m] = acc.get(m, 0.0) + demand[k]` over the candidate
abbrev pub loads_by : List ℕ → List ℤ → Dict ℕ ℤ
loads_by cand demands = charges index_of amount_of (seats cand demands) []

abbrev pub lower : Option ℤ → ℤ → Option ℤ
lower none x = some x
lower (some t) x = some (min_ℤ t x)

-- The loop over the domains in use: the least headroom, where `none` inside is infinity, or `none` if a
-- domain is too small. The indices of a candidate are those of summaries.
unfoldable pub tightest_of : List DomainSummary → Dict ℕ ℤ → Dict ℕ ℤ → Option ℤ → Option (Option ℤ)
tightest_of summaries acc_r [] tightest = some tightest
tightest_of summaries acc_r ((m, c) ∷ acc_c) tightest = elim (get_elem? summaries m) [
  | none ↦ none
  | some s ↦ elim (ltb_ℤ s.cpu_residual c || ltb_ℤ s.ram_residual (get_or m (pos 0) acc_r)) [
    | true ↦ none
    | false ↦ tightest_of summaries acc_r acc_c (lower tightest (s.cpu_residual -ℤ c))
  ]
]

-- `((len(set(cand)), -tightest), cand)`
pub record Ranked : Type 0 where
  pub domains : ℕ
  pub tightest : Option ℤ
  pub cand : List ℕ

-- `-a < -b`
abbrev pub lt_tightest : Option ℤ → Option ℤ → Bool
lt_tightest none none = false
lt_tightest none (some b) = true
lt_tightest (some a) none = false
lt_tightest (some a) (some b) = ltb_ℤ b a

abbrev pub lt_ranked : Ranked → Ranked → Bool
lt_ranked a b =
    ltb a.domains b.domains
    || (a.domains == b.domains
        && (lt_tightest a.tightest b.tightest
            || (not (lt_tightest b.tightest a.tightest) && lex_lt a.cand b.cand)))

-- The body of the loop over the product.
unfoldable pub ranked_of : View → List ℕ → Option Ranked
unfolding contiguous tightest_of
ranked_of view cand = elim (contiguous cand) [
  | false ↦ none
  | true ↦
      elim (tightest_of view.summaries (loads_by cand view.ram) (loads_by cand view.cpu) none) [
        | none ↦ none
        | some t ↦ some (record { domains = set_size cand; tightest = t; cand = cand })
      ]
]

unfoldable pub rank_all : View → List (List ℕ) → List Ranked
unfolding ranked_of
rank_all view [] = []
rank_all view (cand ∷ cands) =
    let rest = rank_all view cands in elim (ranked_of view cand) [ none ↦ rest | some r ↦ r ∷ rest ]

abbrev pub is_trivial : View → Bool
is_trivial view = length view.cpu == 0 || length view.summaries == 0

abbrev pub all_choices : View → List (List ℕ)
all_choices view = choices_from view 0 (length view.cpu)

unfoldable pub feasible_partitions : ℕ → View → Result (List Ranked)
unfolding rank_all
feasible_partitions max_partitions view =
    if is_trivial view
    then ok []
    else if any (λ c. length c == 0) (all_choices view)
    then ok []
    else if exceeds_space max_partitions 1 (all_choices view)
    then err runtime_error
    else ok (sort lt_ranked (rank_all view (product (all_choices view))))
