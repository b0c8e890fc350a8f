-- ===== src/Structural/Reach.antt =====
-- structural_checker.py: the breadth-first search decides reachability.
use orion_v.Prelude.{
  ℕ, zero, suc, ◌≤◌, ◌≡◌, refl, subst, ◌↔◌, ◌⊎◌, inl, inr, List, [], ◌∷◌, Bool, true, false, some,
  arith, ◌==◌, ==_iff, Bool-cases, Option-cases,
}
use orion_v.Prelude.Dict.{nat_eq}
use orion_v.Types.{Ident}
use orion_v.Structural.{
  mem, Adjacency, neighbors, Frontier, scan, search, all_neighbors, rounds, domains_reachable,
}
use orion_v.Structural.Scan.{Scanned, mem-neighbors, scan-Scanned, scan-none, unvisited-le, work}

-- A route over the links between domains.
pub data Route (adj : Adjacency) : Ident → Ident → Type 0 where
  here : (a : Ident) → Route adj a a
  step : (a n b : Ident) → mem n (neighbors adj a) ≡ true → Route adj n b → Route adj a b

extend :
    {adj : Adjacency} (a b n : Ident)
    → Route adj a b
    → mem n (neighbors adj b) ≡ true
    → Route adj a n
extend a b n (Route.here c) h = Route.step a n n h (Route.here n)
extend a b n (Route.step a' m b' k r) h = Route.step a m n k (extend m b n r h)

module _ (adj : Adjacency) (src dst : Ident) where
  -- What holds between two rounds: no target is visited, what is visited can be reached, and the
  -- neighbours of a visited domain are visited unless it is queued.
  record IsExplored (f : Frontier) : Type 0 where
    root : mem src f.visited ≡ true
    away : mem dst f.visited ≡ false
    reached : (v : Ident) → mem v f.visited ≡ true → Route adj src v
    marked : (v : Ident) → mem v f.queue ≡ true → mem v f.visited ≡ true
    closed :
        (v : Ident)
        → mem v f.visited ≡ true
        → (mem v f.queue ≡ true)
          ⊎ ((n : Ident) → mem n (neighbors adj v) ≡ true → mem n f.visited ≡ true)

  -- One round.
  round-IsExplored :
      (visited rest : List Ident) (current : Ident) (f' : Frontier)
      → IsExplored (record { visited = visited; queue = current ∷ rest })
      → Scanned
          (all_neighbors adj)
          dst
          (neighbors adj current)
          (record { visited = visited; queue = rest })
          f'
      → IsExplored f'
  round-IsExplored visited rest current f' x s =
      let now : mem current visited ≡ true = x.marked current (ground arith) in
      record {
        root = s.more src x.root;
        away = elim (Bool-cases (mem dst f'.visited)) [
          | inr unseen ↦ unseen
          | inl k ↦ elim (s.fresh dst k) [
            | inl a ↦ absurd (ground (arith, x.away))
            | inr (a, b) ↦ absurd (ground (arith, s.missed))
          ]
        ];
        reached = λ v k. elim (s.fresh v k) [
          | inl a ↦ x.reached v a
          | inr (a, b) ↦ extend src current v (x.reached current now) a
        ];
        marked =
            λ v k. elim (s.queued v k) [ inr a ↦ a | inl a ↦ s.more v (x.marked v (ground arith)) ];
        closed = λ v k. elim (s.fresh v k) [
          | inr (a, b) ↦ inl b
          | inl a ↦ elim (Bool-cases (v == current)) [
            | inl same ↦ inr (λ n j.
                s.all_in n
                  (subst (λ t. mem n (neighbors adj t) ≡ true) ((==_iff v current).0 same) j))
            | inr diff ↦ elim (x.closed v a) [
              | inl q ↦ inl (s.kept v (ground arith))
              | inr c ↦ inr (λ n j. s.more n (c n j))
            ]
          ]
        ];
      }

  -- With nothing queued, a route from the source stays among the visited domains.
  stays :
      (visited : List Ident)
      → IsExplored (record { visited = visited; queue = [] })
      → (a b : Ident) → Route adj a b
      → mem a visited ≡ true
      → mem b visited ≡ true
  stays visited x a b (Route.here c) h = h
  stays visited x a b (Route.step c n d k r) h = elim (x.closed a h) [
    | inl q ↦ absurd (ground arith)
    | inr next ↦ stays visited x n b r (next n k)
  ]

  IsAnswer : Bool → Type 0
  IsAnswer b = (b ≡ true) ↔ Route adj src dst

  no_route :
      (visited : List Ident)
      → IsExplored (record { visited = visited; queue = [] })
      → IsAnswer false
  unfolding IsAnswer
  no_route visited x = (
    λ h. absurd (ground arith),
    λ r. absurd (ground (arith, x.away, stays visited x src dst r x.root)),
  )

  search-answer :
      (fuel : ℕ) (visited queue : List Ident)
      → IsExplored (record { visited = visited; queue = queue })
      → work (all_neighbors adj) (record { visited = visited; queue = queue }) ≤ fuel
      → (b : Bool) × (search adj dst fuel (record { visited = visited; queue = queue }) ≡ some b)
        × IsAnswer b
  unfolding search IsAnswer work
  search-answer zero visited (c ∷ cs) x enough = absurd (omega (arith, enough))
  search-answer zero visited [] x enough = (false, refl, no_route visited x)
  search-answer (suc fuel) visited [] x enough = (false, refl, no_route visited x)
  search-answer (suc fuel) visited (current ∷ rest) x enough =
      let f : Frontier = record { visited = visited; queue = rest } in
      let now : mem current visited ≡ true = x.marked current (ground arith) in
      elim (Option-cases (scan dst (neighbors adj current) f)) [
        | inl found ↦
            let last = scan-none (all_neighbors adj) dst (neighbors adj current) f found in
            (
              true,
              rw (search, found) refl,
              (λ h. extend src current dst (x.reached current now) last, λ r. refl),
            )
        | inr (f', scanned) ↦
            let s =
              scan-Scanned (all_neighbors adj) dst (neighbors adj current) f f'
                (λ v k. mem-neighbors v current adj k) scanned in
            let (b, e, answer) =
              search-answer fuel f'.visited f'.queue (round-IsExplored visited rest current f' x s)
                (omega (arith, s.less, enough)) in
            (b, rw (search, scanned) e, answer)
      ]

-- The search over the domains always answers: the loop ends within the rounds allowed, which are one
-- more than there are neighbours listed, and the answer is whether a route leads from one domain to the
-- other.
pub domains_reachable_iff :
    (adj : Adjacency) (src dst : Ident)
    → (b : Bool) × (domains_reachable adj src dst ≡ some b) × ((b ≡ true) ↔ Route adj src dst)
unfolding domains_reachable IsAnswer work
domains_reachable_iff adj src dst = elim (Bool-cases (src == dst)) [
  | inl same ↦
      let is : src ≡ dst = (==_iff src dst).0 same in
      (true, rw same refl, (λ h. subst (Route adj src) is (Route.here src), λ r. refl))
  | inr other ↦
      let first : (v : Ident) → mem v (src ∷ []) ≡ true → src ≡ v = λ v k. ground arith in
      let start : IsExplored adj src dst (record { visited = src ∷ []; queue = src ∷ [] }) =
        record {
          root = ground arith;
          away = ground arith;
          reached = λ v k. subst (Route adj src) (first v k) (Route.here src);
          marked = λ v k. k;
          closed = λ v k. inl k;
        } in
      let (b, e, answer) =
        search-answer adj src dst (rounds adj) (src ∷ []) (src ∷ []) start
          (omega (arith, unvisited-le (all_neighbors adj) (src ∷ []))) in
      (b, rw other e, answer)
]
