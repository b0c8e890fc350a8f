-- ===== src/Routing/Links.antt =====
-- routing.py: the links of a candidate path, without the scan of it.
use orion_v.Prelude.{
  ℤ, pos, ◌+ℤ◌, ◌-ℤ◌, ◌≤ℤ◌, ◌≡◌, refl, ap, sym, ◌∙◌, ◌⊎◌, inl, inr, List, [], ◌∷◌, false, some,
  length, arith, ltb_ℤ, map, All, Bool-cases, Option-cases, add-zero_ℤ, zero-add_ℤ, +ℤ_assoc,
}
use orion_v.Prelude.Fail.{ok}
use orion_v.Prelude.Sum.{sum_by}
use orion_v.Types.{Ident, Link}
use orion_v.Substrate.{Graph, find_edge}
use orion_v.Routing.{
  Networkx, RoutingMode, min_hops, min_delay, min_cost, path_edges, log_cost, sum_edges, score,
  Walk, missing, short, through, walk,
}

-- These links join the nodes of the path, each to the next.
abbrev pub Joins : Graph → List Ident → List Link → Type 0
Joins g [] [] = Unit
Joins g [] (l ∷ ls) = ⊥
Joins g (u ∷ []) [] = Unit
Joins g (u ∷ []) (l ∷ ls) = ⊥
Joins g (u ∷ v ∷ ns) [] = ⊥
Joins g (u ∷ v ∷ ns) (l ∷ ls) = (find_edge g u v ≡ some l) × Joins g (v ∷ ns) ls

-- Every link has this much bandwidth left.
abbrev pub Carry : ℤ → List Link → Type 0
Carry bw ls = All (λ l. bw ≤ℤ l.bw_residual) ls

abbrev pub delay_of : List Link → ℤ
delay_of ls = sum_by (λ l. l.propagation_delay) ls

abbrev pub ids_of : List Link → List Ident
ids_of ls = map (λ l. l.link_id) ls

-- What a path weighs: its hops, the delay of its links or their log costs.
abbrev pub weight : Networkx → RoutingMode → List Ident → List Link → ℤ
weight nx min_hops p ls = pos (length p) -ℤ pos 1
weight nx min_delay p ls = delay_of ls
weight nx min_cost p ls = sum_by (log_cost nx) ls

-- A path whose links carry the demand passes the scan.
pub walk-Joins :
    (g : Graph) (bw acc : ℤ) (p : List Ident) (ls : List Link)
    → Joins g p ls
    → Carry bw ls
    → walk bw acc (path_edges g p) ≡ through (acc +ℤ delay_of ls) (ids_of ls)
unfolding walk
walk-Joins g bw acc [] [] j c = ap (λ t. through t []) (sym (add-zero_ℤ acc))
walk-Joins g bw acc [] (l ∷ ls) j c = elim j [ ]
walk-Joins g bw acc (u ∷ []) [] j c = ap (λ t. through t []) (sym (add-zero_ℤ acc))
walk-Joins g bw acc (u ∷ []) (l ∷ ls) j c = elim j [ ]
walk-Joins g bw acc (u ∷ v ∷ ns) [] j c = elim j [ ]
walk-Joins g bw acc (u ∷ v ∷ ns) (l ∷ ls) j c =
    let wide : ltb_ℤ l.bw_residual bw ≡ false = ground (arith, c.0) in
    let rest = walk-Joins g bw (acc +ℤ l.propagation_delay) (v ∷ ns) ls j.1 c.1 in
    rw (j.0, wide, rest)
      (ap (λ t. through t (ids_of (l ∷ ls))) (+ℤ_assoc acc l.propagation_delay (delay_of ls)))

pub Walk-cases :
    (w : Walk) → (w ≡ missing) ⊎ ((w ≡ short) ⊎ ((d : ℤ) × (ls : List Ident) × (w ≡ through d ls)))
Walk-cases missing = inl refl
Walk-cases short = inr (inl refl)
Walk-cases (through d ls) = inr (inr (d, ls, refl))

-- The links of a path that passes the scan.
pub record Scanned (g : Graph) (bw acc : ℤ) (p : List Ident) (d : ℤ) (ids : List Ident)
    : Type 0 where
  pub links : List Link
  pub joins : Joins g p links
  pub carry : Carry bw links
  pub delay : d ≡ acc +ℤ delay_of links
  pub names : ids ≡ ids_of links

pub walk-Scanned :
    (g : Graph) (bw acc : ℤ) (p : List Ident) (d : ℤ) (ids : List Ident)
    → walk bw acc (path_edges g p) ≡ through d ids
    → Scanned g bw acc p d ids
unfolding walk
walk-Scanned g bw acc [] d ids h =
    let same : d ≡ acc = ground arith in
    record {
      links = [];
      joins = tt;
      carry = tt;
      delay = same ∙ sym (add-zero_ℤ acc);
      names = ground arith;
    }
walk-Scanned g bw acc (u ∷ []) d ids h =
    let same : d ≡ acc = ground arith in
    record {
      links = [];
      joins = tt;
      carry = tt;
      delay = same ∙ sym (add-zero_ℤ acc);
      names = ground arith;
    }
walk-Scanned g bw acc (u ∷ v ∷ ns) d ids h = elim (Option-cases (find_edge g u v)) [
  | inl e ↦ absurd (ground arith)
  | inr (l, e) ↦ elim (Bool-cases (ltb_ℤ l.bw_residual bw)) [
    | inl narrow ↦ absurd (ground arith)
    | inr wide ↦
        let rest = walk bw (acc +ℤ l.propagation_delay) (path_edges g (v ∷ ns)) in
        elim (Walk-cases rest) [
          | inl e' ↦ absurd (ground arith)
          | inr (inl e') ↦ absurd (ground arith)
          | inr (inr (d', ids', e')) ↦
              let same : d' ≡ d = ground arith in
              let names : ids ≡ l.link_id ∷ ids' = ground arith in
              let sc = walk-Scanned g bw (acc +ℤ l.propagation_delay) (v ∷ ns) d' ids' e' in
              record {
                links = l ∷ sc.links;
                joins = (e, sc.joins);
                carry = (ground arith, sc.carry);
                delay = sym same ∙ sc.delay ∙ +ℤ_assoc acc l.propagation_delay (delay_of sc.links);
                names = names ∙ ap (λ t. l.link_id ∷ t) sc.names;
              }
        ]
  ]
]

sum_edges-Joins :
    (f : Link → ℤ) (g : Graph) (acc : ℤ) (p : List Ident) (ls : List Link)
    → Joins g p ls
    → sum_edges f acc (path_edges g p) ≡ ok (acc +ℤ sum_by f ls)
sum_edges-Joins f g acc [] [] j = ap ok (sym (add-zero_ℤ acc))
sum_edges-Joins f g acc [] (l ∷ ls) j = elim j [ ]
sum_edges-Joins f g acc (u ∷ []) [] j = ap ok (sym (add-zero_ℤ acc))
sum_edges-Joins f g acc (u ∷ []) (l ∷ ls) j = elim j [ ]
sum_edges-Joins f g acc (u ∷ v ∷ ns) [] j = elim j [ ]
sum_edges-Joins f g acc (u ∷ v ∷ ns) (l ∷ ls) j =
    rw (j.0)
      (sum_edges-Joins f g (acc +ℤ f l) (v ∷ ns) ls j.1 ∙ ap ok (+ℤ_assoc acc (f l) (sum_by f ls)))

-- The score of a path that has all its links.
pub score-weight :
    (nx : Networkx) (mode : RoutingMode) (g : Graph) (p : List Ident) (ls : List Link)
    → Joins g p ls
    → score nx mode g p ≡ ok (weight nx mode p ls)
unfolding score
score-weight nx min_hops g p ls j = refl
score-weight nx min_delay g p ls j =
    sum_edges-Joins (λ l. l.propagation_delay) g (pos 0) p ls j ∙ ap ok (zero-add_ℤ (delay_of ls))
score-weight nx min_cost g p ls j =
    sum_edges-Joins (log_cost nx) g (pos 0) p ls j ∙ ap ok (zero-add_ℤ (sum_by (log_cost nx) ls))
