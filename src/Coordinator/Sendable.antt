-- ===== src/Coordinator/Sendable.antt =====
-- coordinator.py: the fragments and the flows that `_build_fragments` makes.
use mathlib.Core.List.{Memᴰ, append_assoc, append-nil}
use orion_v.Prelude.{
  ℕ, ◌≡◌, refl, sym, ◌∙◌, subst, List, [], ◌∷◌, ◌++◌, true, false, arith, All, if◌then◌else◌, ◌==◌,
  ltb, none, some, Option-cases, inl, inr, ◌⊎◌, Bool-cases,
}
use orion_v.Prelude.Dict.{Dict, get, get_or, put, contains, nat_eq}
use orion_v.Prelude.Keys.{HasUniqueKeys, Each, Each-get, Each-write}
use orion_v.Prelude.Sort.{insert, sort, sort-All}
use orion_v.Prelude.Fail.{ok, Result-cases}
use orion_v.Types.{FlowEdge, SliceRequest}
use orion_v.Types.Mdo.{VnfAssignment, PlanFragment, PlanSummary}
use orion_v.ChainOrder.{mem}
use orion_v.Coordinator.Fragments.{
  distinct, set_items, assign, position, domain_at, split_flows, fragments_of, build_fragments,
}
use orion_v.Coordinator.Contract.{NoRepeat, IsSendable}

-- `set` keeps one of each.
abbrev NoDup : List ℕ → Type 0
NoDup [] = Unit
NoDup (x ∷ xs) = (mem x xs ≡ false) × NoDup xs

mem-distinct : (d : ℕ) (ds : List ℕ) → mem d (distinct ds) ≡ mem d ds
mem-distinct d [] = refl
mem-distinct d (e ∷ ds) = ground (arith, mem-distinct d ds)

distinct-NoDup : (ds : List ℕ) → NoDup (distinct ds)
distinct-NoDup [] = tt
distinct-NoDup (d ∷ ds) = elim (Bool-cases (mem d ds)) [
  | inl again ↦ rw again (distinct-NoDup ds)
  | inr new ↦ rw new (mem-distinct d ds ∙ new, distinct-NoDup ds)
]

mem-insert : (y x : ℕ) (ys : List ℕ) → mem y (insert ltb x ys) ≡ (if y == x then true else mem y ys)
mem-insert y x [] = refl
mem-insert y x (z ∷ zs) = ground (arith, mem-insert y x zs)

insert-NoDup : (x : ℕ) (ys : List ℕ) → mem x ys ≡ false → NoDup ys → NoDup (insert ltb x ys)
insert-NoDup x [] h n = (refl, tt)
insert-NoDup x (z ∷ zs) h n = elim (Bool-cases (ltb z x)) [
  | inl less ↦
      rw less (mem-insert z x zs ∙ ground (arith, n.0), insert-NoDup x zs (ground arith) n.1)
  | inr more ↦ rw more (h, n)
]

mem-sort : (y : ℕ) (xs : List ℕ) → mem y (sort ltb xs) ≡ mem y xs
mem-sort y [] = refl
mem-sort y (x ∷ xs) = mem-insert y x (sort ltb xs) ∙ rw (mem-sort y xs) refl

sort-NoDup : (xs : List ℕ) → NoDup xs → NoDup (sort ltb xs)
sort-NoDup [] n = tt
sort-NoDup (x ∷ xs) n = insert-NoDup x (sort ltb xs) (mem-sort x xs ∙ n.0) (sort-NoDup xs n.1)

All-distinct : (P : ℕ → Type 0) (ds : List ℕ) → All P ds → All P (distinct ds)
All-distinct P [] h = tt
All-distinct P (d ∷ ds) h = elim (Bool-cases (mem d ds)) [
  | inl again ↦ rw again (All-distinct P ds h.1)
  | inr new ↦ rw new (h.0, All-distinct P ds h.1)
]

All-tail : (x : ℕ) (xs ys : List ℕ) → All (λ d. Memᴰ d xs) ys → All (λ d. Memᴰ d (x ∷ xs)) ys
All-tail x xs [] h = tt
All-tail x xs (y ∷ ys) h = (Memᴰ.tail h.0, All-tail x xs ys h.1)

All-self : (xs : List ℕ) → All (λ d. Memᴰ d xs) xs
All-self [] = tt
All-self (x ∷ xs) = (Memᴰ.head refl, All-tail x xs xs (All-self xs))

set_items-All : (partition : List ℕ) → All (λ d. Memᴰ d partition) (set_items partition)
set_items-All partition =
    sort-All ltb (λ d. Memᴰ d partition) (distinct partition)
      (All-distinct (λ d. Memᴰ d partition) partition (All-self partition))

-- Flows that do not repeat, in parts of a list.
NoRepeat-drop : (l fes : List FlowEdge) → NoRepeat (l ++ fes) → NoRepeat fes
NoRepeat-drop [] fes h = h
NoRepeat-drop (f ∷ l) fes h = NoRepeat-drop l fes h.1

All-skip :
    (P : FlowEdge → Type 0) (l : List FlowEdge) (fe : FlowEdge) (fes : List FlowEdge)
    → All P (l ++ fe ∷ fes)
    → All P (l ++ fes)
All-skip P [] fe fes h = h.1
All-skip P (f ∷ l) fe fes h = (h.0, All-skip P l fe fes h.1)

NoRepeat-skip :
    (l : List FlowEdge) (fe : FlowEdge) (fes : List FlowEdge)
    → NoRepeat (l ++ fe ∷ fes)
    → NoRepeat (l ++ fes)
NoRepeat-skip [] fe fes h = h.1
NoRepeat-skip (f ∷ l) fe fes h = (All-skip _ l fe fes h.0, NoRepeat-skip l fe fes h.1)

NoRepeat-move :
    (l : List FlowEdge) (fe : FlowEdge) (fes : List FlowEdge)
    → NoRepeat (l ++ fe ∷ fes)
    → NoRepeat ((l ++ fe ∷ []) ++ fes)
NoRepeat-move l fe fes h = subst NoRepeat (sym (append_assoc l (fe ∷ []) fes)) h

-- The flows of a domain, with those that are still to be sorted.
abbrev Before : List FlowEdge → ℕ → List FlowEdge → Type 0
Before fes d l = NoRepeat (l ++ fes)

Before-skip :
    (fe : FlowEdge) (fes : List FlowEdge) (flows : Dict ℕ (List FlowEdge))
    → Each (Before (fe ∷ fes)) flows
    → Each (Before fes) flows
Before-skip fe fes [] h = tt
Before-skip fe fes ((d, l) ∷ flows) h = (NoRepeat-skip l fe fes h.0, Before-skip fe fes flows h.1)

Before-get_or :
    (fes : List FlowEdge) (d : ℕ) (flows : Dict ℕ (List FlowEdge))
    → NoRepeat fes
    → Each (Before fes) flows
    → NoRepeat (get_or d [] flows ++ fes)
Before-get_or fes d flows nr h = elim (Option-cases (get d flows)) [
  | inl absent ↦
      let e : [] ≡ get_or d [] flows = ground arith in subst (λ t. NoRepeat (t ++ fes)) e nr
  | inr (l, here) ↦
      let e : l ≡ get_or d [] flows = ground arith in
      subst (λ t. NoRepeat (t ++ fes)) e (Each-get (Before fes) d flows {v = l} here h)
]

Before-nil :
    (flows : Dict ℕ (List FlowEdge)) → Each (Before []) flows → Each (λ d l. NoRepeat l) flows
Before-nil [] h = tt
Before-nil ((d, l) ∷ flows) h = (subst NoRepeat (append-nil l) h.0, Before-nil flows h.1)

module _ (plan : PlanSummary) (partition : List ℕ) (slice_req : SliceRequest) where
  split_flows-NoRepeat :
      (fes : List FlowEdge) (flows flows' : Dict ℕ (List FlowEdge)) (cross cross' : List FlowEdge)
      → split_flows plan partition slice_req fes flows cross ≡ ok (flows', cross')
      → Each (Before fes) flows
      → NoRepeat (cross ++ fes)
      → Each (λ d l. NoRepeat l) flows' × NoRepeat cross'
  unfolding split_flows
  split_flows-NoRepeat [] flows flows' cross cross' h each nr =
      let e : flows ≡ flows' = cc in
      let e' : cross ≡ cross' = cc in
      (
        subst (Each (λ d l. NoRepeat l)) e (Before-nil flows each),
        subst NoRepeat e' (subst NoRepeat (append-nil cross) nr),
      )
  split_flows-NoRepeat (fe ∷ fes) flows flows' cross cross' h each nr =
      elim (Result-cases (
        domain_at plan partition slice_req
          (position plan partition slice_req fe.source_vnf 0 slice_req.vnfs))) [
            | inr (x, e) ↦ absurd (ground arith)
            | inl (src, e) ↦
                elim (Result-cases (
                  domain_at plan partition slice_req
                    (position plan partition slice_req fe.target_vnf 0 slice_req.vnfs))) [
                      | inr (x, e') ↦ absurd (ground arith)
                      | inl (dst, e') ↦ elim (Bool-cases (src == dst)) [
                        | inl same ↦
                            let l = get_or src [] flows in
                            split_flows-NoRepeat fes (put src (l ++ fe ∷ []) flows) flows' cross
                              cross' (ground arith)
                              (Each-write (Before fes) src (l ++ fe ∷ []) flows
                                (NoRepeat-move l fe fes (
                                  Before-get_or (fe ∷ fes) src flows
                                    (NoRepeat-drop cross (fe ∷ fes) nr) each))
                                (Before-skip fe fes flows each))
                              (NoRepeat-skip cross fe fes nr)
                        | inr other ↦
                            split_flows-NoRepeat fes flows flows' (cross ++ fe ∷ []) cross'
                              (ground arith) (Before-skip fe fes flows each)
                              (NoRepeat-move cross fe fes nr)
                      ]
                    ]
          ]

  contains-fragments_of :
      (frags : Dict ℕ (List VnfAssignment)) (flows : Dict ℕ (List FlowEdge)) (d : ℕ) (ds : List ℕ)
      → contains d (fragments_of plan partition slice_req frags flows ds) ≡ mem d ds
  contains-fragments_of frags flows d [] = refl
  contains-fragments_of frags flows d (k ∷ ds) =
      ground (arith, contains-fragments_of frags flows d ds)

  fragments_of-HasUniqueKeys :
      (frags : Dict ℕ (List VnfAssignment)) (flows : Dict ℕ (List FlowEdge)) (ds : List ℕ)
      → NoDup ds
      → HasUniqueKeys (fragments_of plan partition slice_req frags flows ds)
  fragments_of-HasUniqueKeys frags flows [] n = tt
  fragments_of-HasUniqueKeys frags flows (d ∷ ds) n =
      (contains-fragments_of frags flows d ds ∙ n.0, fragments_of-HasUniqueKeys frags flows ds n.1)

  fragments_of-IsSendable :
      (frags : Dict ℕ (List VnfAssignment)) (flows : Dict ℕ (List FlowEdge)) (ds : List ℕ)
      → All (λ d. Memᴰ d partition) ds
      → Each (λ d l. NoRepeat l) flows
      → All (IsSendable partition) (fragments_of plan partition slice_req frags flows ds)
  fragments_of-IsSendable frags flows [] m each = tt
  fragments_of-IsSendable frags flows (d ∷ ds) m each = (
    (m.0, refl, flows_of (Option-cases (get d flows))),
    fragments_of-IsSendable frags flows ds m.1 each,
  )
    where
      flows_of :
          (get d flows ≡ none) ⊎ ((l : List FlowEdge) × (get d flows ≡ some l))
          → NoRepeat (get_or d [] flows)
      flows_of (inl absent) = let e : [] ≡ get_or d [] flows = ground arith in subst NoRepeat e tt
      flows_of (inr (l, here)) =
          let e : l ≡ get_or d [] flows = ground arith in
          subst NoRepeat e (Each-get (λ d l. NoRepeat l) d flows {v = l} here each)

  pub build_fragments-IsSendable :
      (fragments : Dict ℕ PlanFragment) (flows : List FlowEdge)
      → build_fragments plan partition slice_req ≡ ok (fragments, flows)
      → NoRepeat slice_req.flow_edges
      → HasUniqueKeys fragments × All (IsSendable partition) fragments × NoRepeat flows
  unfolding build_fragments
  build_fragments-IsSendable fragments flows h nr =
      elim (Result-cases (assign plan partition slice_req 0 slice_req.vnfs [])) [
        | inr (x, e) ↦ absurd (ground arith)
        | inl (frags, e) ↦
            elim (Result-cases (split_flows plan partition slice_req slice_req.flow_edges [] [])) [
              | inr (x, e') ↦ absurd (ground arith)
              | inl ((domain_flows, cross), e') ↦
                  let (each, cross_nr) =
                    split_flows-NoRepeat slice_req.flow_edges [] domain_flows [] cross e' tt nr in
                  let same : fragments_of plan partition slice_req frags domain_flows
                        (set_items partition)
                      ≡ fragments =
                    ground arith in
                  let same' : cross ≡ flows = ground arith in
                  (
                    subst HasUniqueKeys same (
                        fragments_of-HasUniqueKeys frags domain_flows (set_items partition)
                          (sort-NoDup (distinct partition) (distinct-NoDup partition))),
                    subst (All (IsSendable partition)) same (
                        fragments_of-IsSendable frags domain_flows (set_items partition)
                          (set_items-All partition) each),
                    subst NoRepeat same' cross_nr,
                  )
            ]
      ]
