-- ===== src/Structural/Scan.antt =====
-- structural_checker.py: one round of the search over domains.
use orion_v.Prelude.{
  ℕ, suc, ◌+◌, ◌≤◌, ◌≡◌, refl, sym, subst, ◌⊎◌, inl, inr, List, [], ◌∷◌, ◌++◌, true, false, ◌||◌,
  none, some, arith, length, length-append, ◌==◌, ==_iff, Bool-cases, if◌then◌else◌,
}
use orion_v.Prelude.Dict.{nat_eq}
use orion_v.Types.{Ident}
use orion_v.Structural.{mem, Adjacency, neighbors, Frontier, visit, scan, all_neighbors}

pub mem_append : (x : Ident) (xs ys : List Ident) → mem x (xs ++ ys) ≡ (mem x xs || mem x ys)
mem_append x [] ys = refl
mem_append x (y ∷ xs) ys = ground (arith, mem_append x xs ys)

pub mem-neighbors :
    (x d : Ident) (adj : Adjacency)
    → mem x (neighbors adj d) ≡ true
    → mem x (all_neighbors adj) ≡ true
mem-neighbors x d [] h = cc
mem-neighbors x d ((k, ns) ∷ adj) h = elim (Bool-cases (d == k)) [
  | inl same ↦ ground (arith, mem_append x ns (all_neighbors adj))
  | inr other ↦ ground (arith, mem_append x ns (all_neighbors adj), mem-neighbors x d adj)
]

-- How many of the domains are not visited.
pub unvisited : List Ident → List Ident → ℕ
unvisited [] visited = 0
unvisited (u ∷ us) visited = (if mem u visited then 0 else 1) + unvisited us visited

pub unvisited-le : (us visited : List Ident) → unvisited us visited ≤ length us
unfolding unvisited
unvisited-le [] visited = omega arith
unvisited-le (u ∷ us) visited = ground (arith, unvisited-le us visited)

pub unvisited-more :
    (us visited : List Ident) (n : Ident) → unvisited us (n ∷ visited) ≤ unvisited us visited
unfolding unvisited
unvisited-more [] visited n = omega arith
unvisited-more (u ∷ us) visited n = ground (arith, unvisited-more us visited n)

pub unvisited-visit :
    (us visited : List Ident) (n : Ident)
    → mem n us ≡ true
    → mem n visited ≡ false
    → suc (unvisited us (n ∷ visited)) ≤ unvisited us visited
unfolding unvisited
unvisited-visit [] visited n h k = cc
unvisited-visit (u ∷ us) visited n h k = elim (Bool-cases (n == u)) [
  | inl same ↦
      let is : n ≡ u = (==_iff n u).0 same in
      let fresh : mem u visited ≡ false = subst (λ t. mem t visited ≡ false) is k in
      ground (arith, unvisited-more us visited n)
  | inr other ↦ ground (arith, unvisited-visit us visited n)
]

-- The rounds that are still to come at most.
unfoldable pub work : List Ident → Frontier → ℕ
work us f = unvisited us f.visited + length f.queue

-- What a scan makes of the frontier.
pub record Scanned (us : List Ident) (dst : Ident) (ns : List Ident) (f f' : Frontier)
    : Type 0 where
  pub more : (v : Ident) → mem v f.visited ≡ true → mem v f'.visited ≡ true
  pub all_in : (v : Ident) → mem v ns ≡ true → mem v f'.visited ≡ true
  pub kept : (v : Ident) → mem v f.queue ≡ true → mem v f'.queue ≡ true
  pub fresh :
      (v : Ident)
      → mem v f'.visited ≡ true
      → (mem v f.visited ≡ true) ⊎ ((mem v ns ≡ true) × (mem v f'.queue ≡ true))
  pub queued :
      (v : Ident) → mem v f'.queue ≡ true → (mem v f.queue ≡ true) ⊎ (mem v f'.visited ≡ true)
  pub missed : mem dst ns ≡ false
  pub less : work us f' ≤ work us f

pub visit-more :
    (n v : Ident) (f : Frontier) → mem v f.visited ≡ true → mem v (visit n f).visited ≡ true
visit-more n v f h = ground arith

pub visit-in : (n : Ident) (f : Frontier) → mem n (visit n f).visited ≡ true
visit-in n f = ground arith

pub visit-kept :
    (n v : Ident) (f : Frontier) → mem v f.queue ≡ true → mem v (visit n f).queue ≡ true
visit-kept n v f h = ground (arith, mem_append v f.queue (n ∷ []))

pub visit-fresh :
    (n v : Ident) (f : Frontier)
    → mem v (visit n f).visited ≡ true
    → (mem v f.visited ≡ true) ⊎ (((v == n) ≡ true) × (mem v (visit n f).queue ≡ true))
visit-fresh n v f h = ground (arith, mem_append v f.queue (n ∷ []))

pub visit-queued :
    (n v : Ident) (f : Frontier)
    → mem v (visit n f).queue ≡ true
    → (mem v f.queue ≡ true) ⊎ (mem v (visit n f).visited ≡ true)
visit-queued n v f h = ground (arith, mem_append v f.queue (n ∷ []))

pub visit-less :
    (us : List Ident) (n : Ident) (f : Frontier) → mem n us ≡ true → work us (visit n f) ≤ work us f
unfolding work
visit-less us n f h = elim (Bool-cases (mem n f.visited)) [
  | inl old ↦ rw old (omega arith)
  | inr new ↦
      rw new (omega (arith, unvisited-visit us f.visited n h new, length-append f.queue (n ∷ [])))
]

module _ (us : List Ident) (dst : Ident) where
  pub scan-Scanned :
      (ns : List Ident) (f f' : Frontier)
      → ((v : Ident) → mem v ns ≡ true → mem v us ≡ true)
      → scan dst ns f ≡ some f'
      → Scanned us dst ns f f'
  unfolding scan
  scan-Scanned [] f f' all_us h =
      let same : f ≡ f' = ground arith in
      subst (Scanned us dst [] f) same (record {
        more = λ v k. k;
        all_in = λ v k. absurd (ground arith);
        kept = λ v k. k;
        fresh = λ v k. inl k;
        queued = λ v k. inl k;
        missed = refl;
        less = omega arith;
      })
  scan-Scanned (n ∷ ns) f f' all_us h = elim (Bool-cases (n == dst)) [
    | inl found ↦ absurd (ground arith)
    | inr other ↦
        let s =
          scan-Scanned ns (visit n f) f' (λ v k. all_us v (ground arith)) (rw (scan, other) at h) in
        let n_in : mem n us ≡ true = all_us n (ground arith) in
        record {
          more = λ v k. s.more v (visit-more n v f k);
          all_in = λ v k. elim (Bool-cases (v == n)) [
            | inl same ↦
                subst (λ t. mem t f'.visited ≡ true) (sym ((==_iff v n).0 same))
                  (s.more n (visit-in n f))
            | inr diff ↦ s.all_in v (ground arith)
          ];
          kept = λ v k. s.kept v (visit-kept n v f k);
          fresh = λ v k. elim (s.fresh v k) [
            | inr (a, b) ↦ inr (ground arith, b)
            | inl a ↦ elim (visit-fresh n v f a) [
              | inl b ↦ inl b
              | inr (b, q) ↦ inr (ground arith, s.kept v q)
            ]
          ];
          queued = λ v k. elim (s.queued v k) [
            | inr a ↦ inr a
            | inl a ↦ elim (visit-queued n v f a) [ inl b ↦ inl b | inr b ↦ inr (s.more v b) ]
          ];
          missed = ground (arith, s.missed);
          less = omega (arith, s.less, visit-less us n f n_in);
        }
  ]

  pub scan-none : (ns : List Ident) (f : Frontier) → scan dst ns f ≡ none → mem dst ns ≡ true
  unfolding scan
  scan-none [] f h = cc
  scan-none (n ∷ ns) f h = elim (Bool-cases (n == dst)) [
    | inl found ↦ ground arith
    | inr other ↦ let rest = scan-none ns (visit n f) (rw (scan, other) at h) in ground arith
  ]
