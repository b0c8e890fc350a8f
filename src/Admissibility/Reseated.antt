-- ===== src/Admissibility/Reseated.antt =====
-- mdo/admissibility.py: what `repair_partition` may change.
use mathlib.Core.List.{append-nil, append_assoc}
use orion_v.Prelude.{
  ℕ, suc, ◌+◌, ℤ, pos, ◌≡◌, refl, ap, sym, ◌∙◌, subst, inl, inr, List, [], ◌∷◌, ◌++◌, map, Bool,
  true, not, ◌||◌, some, arith, All, ◌&&◌, ◌==◌, ==_iff, ltb_ℤ, if◌then◌else◌, length, get_elem?,
  filter, Bool-cases, Option-cases,
}
use orion_v.Prelude.Dict.{Dict, get, put, nat_eq, get-put}
use orion_v.Types.{Vnf, SliceRequest}
use orion_v.Types.Mdo.{DomainSummary}
use orion_v.Substrate.{SubstrateNetwork}
use orion_v.Admissibility.{GuardStats, admissible_at, range_from, index_from}
use orion_v.Admissibility.Reseat.{
  Pass, greatest, lt_slack, name_of, options, reseat, reseat_all, first_pass, repair_partition,
}

All-greatest :
    (P : ℤ × ℕ → Type 0) (cs : List (ℤ × ℕ)) (c : ℤ × ℕ) → All P cs → greatest cs ≡ some c → P c
All-greatest P [] c a h = cc
All-greatest P (x ∷ xs) c a h = elim (Option-cases (greatest xs)) [
  | inl e ↦ let here : x ≡ c = ground arith in subst P here a.0
  | inr (d, e) ↦ elim (Bool-cases (lt_slack x d)) [
    | inl less ↦ let here : greatest xs ≡ some c = ground arith in All-greatest P xs c a.1 here
    | inr more ↦ let here : x ≡ c = ground arith in subst P here a.0
  ]
]

All-options :
    (test more : ℕ → Bool) (slack : ℕ → ℤ) (js : List ℕ)
    → All
        (λ (c : ℤ × ℕ). test c.1 ≡ true)
        (map (λ j. (slack j, j)) (filter (λ j. test j && more j) js))
All-options test more slack [] = tt
All-options test more slack (j ∷ js) = elim (Bool-cases (test j && more j)) [
  | inl fit ↦ rw fit (ground arith, All-options test more slack js)
  | inr unfit ↦ rw unfit (All-options test more slack js)
]

module _ (s : SubstrateNetwork) (summaries : List DomainSummary) where
  -- The VNF stays in its domain, or goes to one that is admissible for it.
  pub data Stays (v : Vnf) (d e : ℕ) : Type 0 where
    stays : e ≡ d → Stays v d e
    goes :
        (j : ℕ)
        → admissible_at s summaries v j ≡ true
        → name_of s summaries j ≡ e ∷ []
        → Stays v d e

  pub data Pointwise : List Vnf → List ℕ → List ℕ → Type 0 where
    done : Pointwise [] [] []
    step :
        {v : Vnf} {vs : List Vnf} {d : ℕ} {ds : List ℕ} {e : ℕ} {es : List ℕ}
        → Stays v d e
        → Pointwise vs ds es
        → Pointwise (v ∷ vs) (d ∷ ds) (e ∷ es)

  abbrev IsIndex : Dict ℕ ℕ → Type 0
  IsIndex index = (d m : ℕ) → get d index ≡ some m → name_of s summaries m ≡ d ∷ []

  index_from-IsIndex :
      (k : ℕ) (ds : List DomainSummary) (acc : Dict ℕ ℕ)
      → ((i : ℕ) (x : DomainSummary)
          → get_elem? ds i ≡ some x
          → get_elem? summaries (k + i) ≡ some x)
      → IsIndex acc
      → IsIndex (index_from k ds acc)
  index_from-IsIndex k [] acc at_k h = h
  index_from-IsIndex k (x ∷ xs) acc at_k h =
      index_from-IsIndex (suc k) xs (put x.domain_id k acc)
        (λ i y g. subst (λ t. get_elem? summaries t ≡ some y) (omega arith) (at_k (suc i) y g))
        (λ d m g. placed d m (sym (get-put x.domain_id d k acc) ∙ g))
    where
      placed :
          (d m : ℕ)
          → (if d == x.domain_id then some k else get d acc) ≡ some m
          → name_of s summaries m ≡ d ∷ []
      placed d m g = elim (Bool-cases (d == x.domain_id)) [
        | inr other ↦ h d m (ground arith)
        | inl same ↦
            let e : k ≡ m = ground arith in
            let e' : d ≡ x.domain_id = (==_iff d x.domain_id).0 same in
            let here : get_elem? summaries k ≡ some x =
              subst (λ t. get_elem? summaries t ≡ some x) (omega arith) (at_k 0 x refl) in
            subst (λ t. name_of s summaries t ≡ d ∷ []) e (ground arith)
      ]

  name_of_admissible :
      (v : Vnf) (j : ℕ)
      → admissible_at s summaries v j ≡ true
      → (e : ℕ) × (name_of s summaries j ≡ e ∷ [])
  name_of_admissible v j h = elim (Option-cases (get_elem? summaries j)) [
    | inl absent ↦ absurd (ground arith)
    | inr (d, here) ↦ (d.domain_id, ground arith)
  ]

  Step : Pass → Pass → Vnf → ℕ → Type 0
  Step p q v d = (e : ℕ) × (q.out ≡ p.out ++ e ∷ []) × Stays v d e

  reseat-Step :
      (index : Dict ℕ ℕ) (d : ℕ) (v : Vnf) (p : Pass)
      → IsIndex index
      → Step p (reseat s summaries index d v p) v d
  unfolding reseat Step
  reseat-Step index d v p ok_index = elim (Option-cases (get d index)) [
    | inl unknown ↦ (d, ground arith, stays refl)
    | inr (m, known) ↦
        let name = ok_index d m known in
        elim (Bool-cases (admissible_at s summaries v m)) [
          | inl fine ↦ (d, ground arith, stays refl)
          | inr bad ↦ elim (Option-cases (greatest (options s summaries v p))) [
            | inl nowhere ↦ (d, ground arith, stays refl)
            | inr ((slack, j), best) ↦ elim (Bool-cases (ltb_ℤ (pos 0) slack)) [
              | inr tight ↦ (d, ground arith, stays refl)
              | inl room ↦
                  let fits : admissible_at s summaries v j ≡ true =
                    All-greatest (λ c. admissible_at s summaries v c.1 ≡ true)
                      (options s summaries v p) (slack, j)
                      (All-options (admissible_at s summaries v) _ _
                        (range_from 0 (length summaries)))
                      best in
                  let (e, there) = name_of_admissible v j fits in
                  (e, ground arith, goes j fits there)
            ]
          ]
        ]
  ]

  reseat_all-Pointwise :
      (index : Dict ℕ ℕ) (ds : List ℕ) (vs : List Vnf) (p : Pass)
      → IsIndex index
      → length ds ≡ length vs
      → (es : List ℕ) × ((reseat_all s summaries index ds vs p).out ≡ p.out ++ es)
        × Pointwise vs ds es
  unfolding reseat_all Step
  reseat_all-Pointwise index [] [] p ok_index h = ([], sym (append-nil p.out), done)
  reseat_all-Pointwise index [] (v ∷ vs) p ok_index h = absurd (omega (arith, h))
  reseat_all-Pointwise index (d ∷ ds) [] p ok_index h = absurd (omega (arith, h))
  reseat_all-Pointwise index (d ∷ ds) (v ∷ vs) p ok_index h =
      let (e, out, stay) = reseat-Step index d v p ok_index in
      let (es, rest, all_rest) =
        reseat_all-Pointwise index ds vs (reseat s summaries index d v p) ok_index
          (omega (arith, h)) in
      (e ∷ es, rest ∙ ap (λ l. l ++ es) out ∙ append_assoc p.out (e ∷ []) es, step stay all_rest)

  -- A repair moves a VNF only to where it can be hosted: when `repair_partition` returns a new
  -- partition, it has one domain for each VNF, and each is the authored one or that of a summary which
  -- is admissible for the VNF (it holds a node that the VNF may use, and a free node big enough in one
  -- of the tiers of these nodes).
  pub repair_partition-Pointwise :
      (partition out : List ℕ) (req : SliceRequest) (stats : GuardStats)
      → (repair_partition s summaries partition req stats).0 ≡ some out
      → Pointwise req.vnfs partition out
  unfolding repair_partition
  repair_partition-Pointwise partition out req stats h =
      let index = index_from 0 summaries [] in
      let p = reseat_all s summaries index partition req.vnfs (first_pass s summaries stats) in
      elim (Bool-cases (
        length req.vnfs == 0
        || length summaries == 0
        || not (length partition == length req.vnfs))) [
          | inl outside ↦ absurd (ground arith)
          | inr inside ↦
              let even : length partition ≡ length req.vnfs =
                (==_iff (length partition) (length req.vnfs)).0 (ground arith) in
              let (es, same, all_of) =
                reseat_all-Pointwise index partition req.vnfs (first_pass s summaries stats)
                  (index_from-IsIndex 0 summaries []
                    (λ i x g. subst (λ t. get_elem? summaries t ≡ some x) (omega arith) g)
                    (λ d m g. cc g))
                  even in
              let result : p.out ≡ out = ground arith in
              subst (Pointwise req.vnfs partition) (sym same ∙ result) all_of
        ]
