-- ===== src/Admissibility/Reseat.antt =====
-- mdo/admissibility.py: `repair_partition`, the pass from left to right.
use orion_v.Prelude.{
  ℕ, zero, suc, ◌+◌, ℤ, pos, ◌-ℤ◌, List, [], ◌∷◌, ◌++◌, map, Bool, true, false, not, Option, none,
  some, ◌&&◌, ◌||◌, ◌==◌, ltb, ltb_ℤ, min_ℤ, if◌then◌else◌, length, get_elem?, filter,
}
use orion_v.Prelude.Dict.{Dict, get, nat_eq}
use orion_v.Types.{Vnf, SliceRequest}
use orion_v.Types.Mdo.{DomainSummary}
use orion_v.ChainOrder.{mem}
use orion_v.Substrate.{SubstrateNetwork}
use orion_v.Admissibility.{GuardStats, admissible_at, range_from, index_from}

-- What the loop keeps.
pub record Pass : Type 0 where
  pub est_cpu : List ℤ
  pub est_ram : List ℤ
  pub out : List ℕ
  pub moved : Bool
  pub closed : List ℕ
  pub cur : Option ℕ
  pub stats : GuardStats

-- `xs[m]`, of an index in range
abbrev pub at : List ℤ → ℕ → ℤ
at [] m = pos 0
at (x ∷ xs) zero = x
at (x ∷ xs) (suc m) = at xs m

-- `xs[m] -= a`
abbrev pub lower : ℕ → ℤ → List ℤ → List ℤ
lower m a [] = []
lower zero a (x ∷ xs) = (x -ℤ a) ∷ xs
lower (suc m) a (x ∷ xs) = x ∷ lower m a xs

-- The order of pairs, for `max(cands)`.
abbrev pub lt_slack : ℤ × ℕ → ℤ × ℕ → Bool
lt_slack (a, i) (b, j) = ltb_ℤ a b || (not (ltb_ℤ b a) && ltb i j)

abbrev pub greatest : List (ℤ × ℕ) → Option (ℤ × ℕ)
greatest [] = none
greatest (c ∷ cs) = elim (greatest cs) [
  | none ↦ some c
  | some d ↦ if lt_slack c d then some d else some c
]

abbrev pub one_moved : GuardStats → GuardStats
one_moved stats = record stats { vnfs_moved = stats.vnfs_moved + 1 }

abbrev pub one_stuck : GuardStats → GuardStats
one_stuck stats = record stats { unrepairable = stats.unrepairable + 1 }

-- `if cur is not None and m != cur: closed.add(cur)`
abbrev pub close : Option ℕ → ℕ → List ℕ → List ℕ
close none m closed = closed
close (some c) m closed = if m == c then closed else c ∷ closed

module _ (s : SubstrateNetwork) (summaries : List DomainSummary) where
  abbrev pub name_of : ℕ → List ℕ
  name_of m = elim (get_elem? summaries m) [ none ↦ [] | some d ↦ d.domain_id ∷ [] ]

  abbrev pub seat_at : ℕ → Vnf → Pass → Pass
  seat_at m v p = record p {
    est_cpu = lower m v.cpu_demand p.est_cpu;
    est_ram = lower m v.ram_demand p.est_ram;
    out = p.out ++ name_of m;
    closed = close p.cur m p.closed;
    cur = some m;
  }

  abbrev pub options : Vnf → Pass → List (ℤ × ℕ)
  options v p =
      map (λ j. (min_ℤ (at p.est_cpu j -ℤ v.cpu_demand) (at p.est_ram j -ℤ v.ram_demand), j))
        (filter (λ j. admissible_at s summaries v j && not (mem j p.closed))
          (range_from 0 (length summaries)))

  -- The body of the loop.
  unfoldable pub reseat : Dict ℕ ℕ → ℕ → Vnf → Pass → Pass
  reseat index d v p = elim (get d index) [
    | none ↦ record p { out = p.out ++ d ∷ [] }
    | some m ↦
        if admissible_at s summaries v m then seat_at m v p else elim (greatest (options v p)) [
          | none ↦ seat_at m v (record p { stats = one_stuck p.stats })
          | some (slack, j) ↦
              if ltb_ℤ (pos 0) slack
              then seat_at j v (record p { moved = true; stats = one_moved p.stats })
              else seat_at m v (record p { stats = one_stuck p.stats })
        ]
  ]

  unfoldable pub reseat_all : Dict ℕ ℕ → List ℕ → List Vnf → Pass → Pass
  unfolding reseat
  reseat_all index (d ∷ ds) (v ∷ vs) p = reseat_all index ds vs (reseat index d v p)
  reseat_all index _ _ p = p

  abbrev pub first_pass : GuardStats → Pass
  first_pass stats = record {
    est_cpu = map (λ m. m.cpu_residual) summaries;
    est_ram = map (λ m. m.ram_residual) summaries;
    out = [];
    moved = false;
    closed = [];
    cur = none;
    stats = record stats { seen = stats.seen + 1 };
  }

  abbrev pub finish : Pass → Option (List ℕ) × GuardStats
  finish p =
      if p.moved
      then (some p.out, record p.stats { partitions_changed = p.stats.partitions_changed + 1 })
      else (none, p.stats)

  -- `none` stands for the return of the input itself.
  unfoldable pub repair_partition :
      List ℕ → SliceRequest → GuardStats → Option (List ℕ) × GuardStats
  unfolding reseat_all
  repair_partition partition slice_req stats =
      if length slice_req.vnfs == 0
        || length summaries == 0
        || not (length partition == length slice_req.vnfs)
      then (none, stats)
      else finish
          (reseat_all (index_from 0 summaries []) partition slice_req.vnfs (first_pass stats))
