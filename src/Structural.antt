-- ===== src/Structural.antt =====
-- llm/structural_checker.py: the check of an abstract plan. The texts of the violations and of their
-- summaries are left out: `Detail` says what a text reports.
pub mod Data
pub mod Scan
pub mod Reach
pub mod Plan
use orion_v.Prelude.{
  ℕ, zero, suc, ◌+◌, ℤ, pos, ◌+ℤ◌, ltb_ℤ, List, [], ◌∷◌, ◌++◌, map, Bool, true, false, not, ◌&&◌,
  ◌||◌, Option, none, some, length, ◌==◌, any, filter, if◌then◌else◌,
}
use orion_v.Prelude.Dict.{Dict, nat_eq, pair_eq, get, get_or, put, contains, keys}
use orion_v.Types.{Ident, InfrastructureTier, tier_beq}

-- `x in xs`, of a set or a list of ids
abbrev pub mem : Ident → List Ident → Bool
mem x xs = any (λ y. x == y) xs

-- `domain_adj`
abbrev pub Adjacency : Type 0
Adjacency = Dict Ident (List Ident)

abbrev pub neighbors : Adjacency → Ident → List Ident
neighbors adj d = get_or d [] adj

pub record Frontier : Type 0 where
  pub visited : List Ident
  pub queue : List Ident

-- A neighbour that was not visited is marked and queued.
abbrev pub visit : Ident → Frontier → Frontier
visit n f =
    if mem n f.visited then f else record { visited = n ∷ f.visited; queue = f.queue ++ n ∷ [] }

-- The loop over the neighbours; `none` once the target is among them.
unfoldable pub scan : Ident → List Ident → Frontier → Option Frontier
scan dst [] f = some f
scan dst (n ∷ ns) f = elim (n == dst) [ true ↦ none | false ↦ scan dst ns (visit n f) ]

-- `while queue`, on fuel; `none` when the fuel runs out
unfoldable pub search : Adjacency → Ident → ℕ → Frontier → Option Bool
unfolding scan
search adj dst zero f = elim f.queue [ [] ↦ some false | _ ∷ _ ↦ none ]
search adj dst (suc fuel) f = elim f.queue [
  | [] ↦ some false
  | current ∷ rest ↦
      elim (scan dst (neighbors adj current) (record { visited = f.visited; queue = rest })) [
        | none ↦ some true
        | some f' ↦ search adj dst fuel f'
      ]
]

-- The neighbours of all domains.
abbrev pub all_neighbors : Adjacency → List Ident
all_neighbors [] = []
all_neighbors ((_, ns) ∷ adj) = ns ++ all_neighbors adj

-- Every round takes a domain from the queue, and only neighbours not visited yet are queued.
abbrev pub rounds : Adjacency → ℕ
rounds adj = suc (length (all_neighbors adj))

unfoldable pub domains_reachable : Adjacency → Ident → Ident → Option Bool
unfolding search
domains_reachable adj src_dom dst_dom =
    if src_dom == dst_dom
    then some true
    else search adj dst_dom (rounds adj) (record { visited = src_dom ∷ []; queue = src_dom ∷ [] })
