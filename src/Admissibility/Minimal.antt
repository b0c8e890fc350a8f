-- ===== src/Admissibility/Minimal.antt =====
-- mdo/admissibility.py: the outcomes of the exact repair.
use mathlib.Core.List.{Memᴰ}
use orion_v.Prelude.{
  ℕ, ◌≤◌, ◌<◌, ltb, ◌≡◌, sym, subst, ◌⊎◌, inl, inr, List, [], ◌∷◌, Bool, true, false, Option, none,
  some, arith, ◌==◌, All, Bool-cases, Option-cases, length, any,
}
use orion_v.Types.{Vnf, SliceRequest}
use orion_v.Types.Mdo.{DomainSummary}
use orion_v.Substrate.{SubstrateNetwork}
use orion_v.Admissibility.{
  GuardStats, lex_lt, all_admissible, feasible, choices, product, lt_key, key_of, distance, search,
  index_from, authored_of, domain_ids, minimal_committable_partition, out_of_scope,
}
use orion_v.Admissibility.Product.{mem-product, choices_inhabited}
use orion_v.ChainOrder.{set_size}
use orion_v.Admissibility.Committable.{IsCommittable, feasible_iff}
use orion_v.Admissibility.Search.{NotAfter, Found, absent, found, search-Found}

All-at {ℓ κ} : {A : Type ℓ} (P : A → Type κ) (a : A) (xs : List A) → All P xs → Memᴰ a xs → P a
All-at P a [] h m = elim m [ ]
All-at P a (x ∷ xs) h (Memᴰ.head e) = subst P (sym e) h.0
All-at P a (x ∷ xs) h (Memᴰ.tail m) = All-at P a xs h.1 m

module _ (s : SubstrateNetwork) (summaries : List DomainSummary) (vnfs : List Vnf) where
  abbrev ok_for : List ℕ → Bool
  ok_for = feasible s summaries vnfs

  feasible→all_admissible :
      (idx : List ℕ) → ok_for idx ≡ true → all_admissible s summaries vnfs idx ≡ true
  unfolding feasible
  feasible→all_admissible idx h = ground arith

  -- Every feasible candidate is among those enumerated.
  enumerated : (idx : List ℕ) → ok_for idx ≡ true → Memᴰ idx (product (choices s summaries vnfs))
  enumerated idx h = mem-product s summaries vnfs idx (feasible→all_admissible idx h)

  -- The first one changes fewer assignments; or as many, and uses fewer domains; or as many, and is
  -- not greater in the lexicographic order.
  abbrev pub Precedes : List ℕ → List ℕ → List ℕ → Type 0
  Precedes authored a b =
      (distance a authored < distance b authored)
      ⊎ ((distance a authored ≡ distance b authored)
          × ((set_size a < set_size b) ⊎ ((set_size a ≡ set_size b) × (lex_lt b a ≡ false))))

  -- The nearest committable candidate.
  pub record IsNearest (authored best : List ℕ) : Type 0 where
    pub fits : IsCommittable s summaries vnfs best
    pub least : (idx : List ℕ) → IsCommittable s summaries vnfs idx → Precedes authored best idx
    pub nearest :
        (idx : List ℕ)
        → IsCommittable s summaries vnfs idx
        → distance best authored ≤ distance idx authored

  Precedes-of_key :
      (authored best idx : List ℕ)
      → lt_key (key_of authored idx) (key_of authored best) ≡ false
      → Precedes authored best idx
  Precedes-of_key authored best idx h =
      elim (Bool-cases (ltb (distance best authored) (distance idx authored))) [
        | inl nearer ↦ inl (ground (arith, nearer))
        | inr farther ↦
            let same : distance best authored ≡ distance idx authored =
              ground (arith, h, farther) in
            inr (
              same,
              elim (Bool-cases (ltb (set_size best) (set_size idx))) [
                | inl fewer ↦ inl (ground (arith, fewer))
                | inr more ↦
                    inr (ground (arith, h, farther, more), ground (arith, h, farther, more))
              ],
            )
      ]

  Precedes-nearer :
      (authored best idx : List ℕ)
      → Precedes authored best idx
      → distance best authored ≤ distance idx authored
  Precedes-nearer authored best idx (inl h) = omega (arith, h)
  Precedes-nearer authored best idx (inr h) = omega (arith, h.0)

  not_committable : (idx : List ℕ) → ok_for idx ≡ false → ¬ IsCommittable s summaries vnfs idx
  not_committable idx h x = cc (h, (feasible_iff s summaries vnfs idx).1 x)

  abbrev searched : List ℕ → Option (List ℕ)
  searched authored = search ok_for authored (product (choices s summaries vnfs)) none

  searched-some : (authored best : List ℕ) → searched authored ≡ some best → IsNearest authored best
  searched-some authored best h =
      go (search-Found ok_for authored (product (choices s summaries vnfs)) none)
    where
      go :
          Found ok_for authored (product (choices s summaries vnfs)) none (searched authored)
          → IsNearest authored best
      go (absent e _ _) = absurd (cc (h, e))
      go (found b e a rel orig) =
          let same : b ≡ best = cc (h, e) in
          let all_after = λ (idx : List ℕ) (x : IsCommittable s summaries vnfs idx).
            let t = (feasible_iff s summaries vnfs idx).1 x in
            Precedes-of_key authored b idx
              (All-at (NotAfter ok_for authored b) idx _ a (enumerated idx t) t) in
          subst (IsNearest authored) same (record {
            fits = elim orig [
              | inl e' ↦ absurd (cc e')
              | inr (m, t) ↦ (feasible_iff s summaries vnfs b).0 t
            ];
            least = all_after;
            nearest = λ idx x. Precedes-nearer authored b idx (all_after idx x);
          })

  searched-none :
      (authored : List ℕ) → searched authored ≡ none → (idx : List ℕ) → ok_for idx ≡ false
  searched-none authored h idx =
      go (search-Found ok_for authored (product (choices s summaries vnfs)) none)
    where
      go :
          Found ok_for authored (product (choices s summaries vnfs)) none (searched authored)
          → ok_for idx ≡ false
      go (found b e a rel orig) = absurd (cc (h, e))
      go (absent e _ a) = elim (Bool-cases (ok_for idx)) [
        | inr no_fit ↦ no_fit
        | inl fit ↦ absurd (cc (fit, All-at (λ c. ok_for c ≡ false) idx _ a (enumerated idx fit)))
      ]

  no_choice :
      any (λ c. length c == 0) (choices s summaries vnfs) ≡ true
      → (idx : List ℕ) → ok_for idx ≡ false
  no_choice h idx = elim (Bool-cases (ok_for idx)) [
    | inr no_fit ↦ no_fit
    | inl fit ↦
        absurd (cc (h, choices_inhabited s summaries vnfs idx (feasible→all_admissible idx fit)))
  ]

-- How a call ends, by its answer: it repairs the partition, or it leaves it alone for a reason.
pub data Repair (budget : ℕ) (partition : List ℕ) (req : SliceRequest) (s : SubstrateNetwork)
    (summaries : List DomainSummary) (answer : Option (List ℕ)) : Type 0 where
  repaired :
      (authored best : List ℕ)
      → authored_of (index_from 0 summaries []) partition ≡ some authored
      → ¬ IsCommittable s summaries req.vnfs authored
      → IsNearest s summaries req.vnfs authored best
      → answer ≡ some (domain_ids summaries best)
      → Repair budget partition req s summaries answer
  not_searched :
      (out_of_scope budget partition req.vnfs summaries ≡ true)
        ⊎ (authored_of (index_from 0 summaries []) partition ≡ none)
      → answer ≡ none
      → Repair budget partition req s summaries answer
  committable :
      (authored : List ℕ)
      → authored_of (index_from 0 summaries []) partition ≡ some authored
      → IsCommittable s summaries req.vnfs authored
      → answer ≡ none
      → Repair budget partition req s summaries answer
  hopeless :
      ((idx : List ℕ) → ¬ IsCommittable s summaries req.vnfs idx)
      → answer ≡ none
      → Repair budget partition req s summaries answer

-- `minimal_committable_partition` is exact. Call a list of domains committable when each VNF is in
-- a domain that has a node permitted to it, of a tier that has one free node with the CPU and the
-- RAM for it, when no domain is re-entered along the chain, and when each domain in use has the
-- CPU and RAM for all the VNFs that are put there. Either the call is out of scope (no VNF, no
-- domain, a length mismatch, a search space over the budget, an unknown domain) or the partition
-- is committable, and then the input is returned; or it is not, and the answer is a committable
-- candidate that comes, in (number of changes, number of domains, lexicographic order), before
-- every other one, so that none changes fewer assignments; or nothing is committable at all, and
-- the input is returned.
pub minimal_committable_partition-Repair :
    (budget : ℕ) (partition : List ℕ) (req : SliceRequest) (s : SubstrateNetwork)
    (summaries : List DomainSummary) (stats : GuardStats)
    → Repair budget partition req s summaries
        (minimal_committable_partition budget partition req s summaries stats).0
unfolding minimal_committable_partition
minimal_committable_partition-Repair budget partition req s summaries stats =
    elim (Bool-cases (out_of_scope budget partition req.vnfs summaries)) [
      | inl out ↦ not_searched (inl out) (ground arith)
      | inr within ↦ elim (Option-cases (authored_of (index_from 0 summaries []) partition)) [
        | inl unknown ↦ not_searched (inr unknown) (ground arith)
        | inr (authored, e) ↦ elim (Bool-cases (feasible s summaries req.vnfs authored)) [
          | inl fit ↦
              committable authored e ((feasible_iff s summaries req.vnfs authored).0 fit)
                (ground arith)
          | inr no_fit ↦
              elim (Bool-cases (any (λ c. length c == 0) (choices s summaries req.vnfs))) [
                | inl empty ↦
                    hopeless
                      (λ idx.
                        not_committable s summaries req.vnfs idx
                          (no_choice s summaries req.vnfs empty idx))
                      (ground arith)
                | inr full ↦
                    elim (Option-cases (
                      search (feasible s summaries req.vnfs) authored
                        (product (choices s summaries req.vnfs)) none)) [
                          | inl e' ↦
                              hopeless
                                (λ idx.
                                  not_committable s summaries req.vnfs idx
                                    (searched-none s summaries req.vnfs authored e' idx))
                                (ground arith)
                          | inr (best, e') ↦
                              repaired authored best e
                                (not_committable s summaries req.vnfs authored no_fit)
                                (searched-some s summaries req.vnfs authored best e') (ground arith)
                        ]
              ]
        ]
      ]
    ]
