-- ===== src/Admissibility/Search.antt =====
-- mdo/admissibility.py: the loop over the candidates.
use mathlib.Core.List.{Memᴰ}
use orion_v.Prelude.{
  ℕ, ◌≡◌, refl, ◌∙◌, sym, ◌⊎◌, inl, inr, List, [], ◌∷◌, Bool, true, false, Option, none, some,
  arith, All, Bool-cases, Option-cases,
}
use orion_v.Admissibility.{lex_lt, Key, lt_key, key_of, keep_better, search}

lex_lt_irrefl : (a : List ℕ) → lex_lt a a ≡ false
lex_lt_irrefl [] = refl
lex_lt_irrefl (x ∷ a) = ground (arith, lex_lt_irrefl a)

lex_lt_trans : (a b c : List ℕ) → lex_lt a b ≡ true → lex_lt b c ≡ true → lex_lt a c ≡ true
lex_lt_trans [] [] c h k = cc
lex_lt_trans [] (y ∷ b) [] h k = cc
lex_lt_trans [] (y ∷ b) (z ∷ c) h k = refl
lex_lt_trans (x ∷ a) [] c h k = cc
lex_lt_trans (x ∷ a) (y ∷ b) [] h k = cc
lex_lt_trans (x ∷ a) (y ∷ b) (z ∷ c) h k = ground (arith, lex_lt_trans a b c)

lt_key_irrefl : (a : Key) → lt_key a a ≡ false
lt_key_irrefl (x, y, a) = ground (arith, lex_lt_irrefl a)

lt_key_trans : (a b c : Key) → lt_key a b ≡ true → lt_key b c ≡ true → lt_key a c ≡ true
lt_key_trans (x, x', a) (y, y', b) (z, z', c) h k = ground (arith, lex_lt_trans a b c)

-- Nothing that passes the test comes before this one in the order of the keys.
abbrev pub NotAfter : (List ℕ → Bool) → List ℕ → List ℕ → List ℕ → Type 0
NotAfter f authored b c = f c ≡ true → lt_key (key_of authored c) (key_of authored b) ≡ false

module _ (f : List ℕ → Bool) (authored : List ℕ) where
  -- What the loop ends with.
  pub data Found (cands : List (List ℕ)) (best out : Option (List ℕ)) : Type 0 where
    absent : out ≡ none → best ≡ none → All (λ c. f c ≡ false) cands → Found cands best out
    found :
        (b : List ℕ)
        → out ≡ some b
        → All (NotAfter f authored b) cands
        → ((b0 : List ℕ)
            → best ≡ some b0
            → (b ≡ b0) ⊎ (lt_key (key_of authored b) (key_of authored b0) ≡ true))
        → (best ≡ some b) ⊎ (Memᴰ b cands × (f b ≡ true))
        → Found cands best out

  data Kept (cand : List ℕ) (best now : Option (List ℕ)) : Type 0 where
    failed : f cand ≡ false → now ≡ best → Kept cand best now
    worse :
        (b : List ℕ)
        → best ≡ some b
        → lt_key (key_of authored cand) (key_of authored b) ≡ false
        → now ≡ best
        → Kept cand best now
    taken :
        f cand ≡ true
        → now ≡ some cand
        → ((b : List ℕ) → best ≡ some b → lt_key (key_of authored cand) (key_of authored b) ≡ true)
        → Kept cand best now

  kept :
      (cand : List ℕ) (best : Option (List ℕ)) → Kept cand best (keep_better f authored cand best)
  unfolding keep_better
  kept cand best = elim (Bool-cases (f cand)) [
    | inr no_fit ↦ failed no_fit (ground arith)
    | inl fit ↦ elim (Option-cases best) [
      | inl e ↦ taken fit (ground arith) (λ b e'. absurd (cc (e, e')))
      | inr (b, e) ↦ elim (Bool-cases (lt_key (key_of authored cand) (key_of authored b))) [
        | inl less ↦ taken fit (ground arith) (λ b' e'. ground arith)
        | inr more ↦ worse b e more (ground arith)
      ]
    ]
  ]

  no_chain :
      (a b c : List ℕ)
      → lt_key (key_of authored a) (key_of authored b) ≡ false
      → lt_key (key_of authored c) (key_of authored b) ≡ true
      → lt_key (key_of authored a) (key_of authored c) ≡ false
  no_chain a b c h k = elim (Bool-cases (lt_key (key_of authored a) (key_of authored c))) [
    | inr e ↦ e
    | inl e ↦
        absurd
          (cc (h, lt_key_trans (key_of authored a) (key_of authored c) (key_of authored b) e k))
  ]

  NotAfter-eq : (b c : List ℕ) → b ≡ c → NotAfter f authored b c
  NotAfter-eq b c e t = rw e (lt_key_irrefl (key_of authored c))

  Found-cons :
      (cand : List ℕ) (cands : List (List ℕ)) (best now out : Option (List ℕ))
      → Kept cand best now
      → Found cands now out
      → Found (cand ∷ cands) best out
  Found-cons cand cands best now out (failed nf e) (absent eo en a) = absent eo (sym e ∙ en) (nf, a)
  Found-cons cand cands best now out (failed nf e) (found b eo a rel orig) =
      found b eo ((λ t. absurd (cc (nf, t))), a) (λ b0 e0. rel b0 (e ∙ e0))
        (elim orig [ inl e' ↦ inl (sym e ∙ e') | inr (m, t) ↦ inr (Memᴰ.tail m, t) ])
  Found-cons cand cands best now out (worse b eb w e) (absent eo en a) = absurd (cc (eb, e, en))
  Found-cons cand cands best now out (worse b eb w e) (found b' eo a rel orig) =
      found b' eo
        (
          (λ t. elim (rel b (e ∙ eb)) [
            | inl same ↦ rw same w
            | inr less ↦ no_chain cand b b' w less
          ]),
          a,
        )
        (λ b0 e0. rel b0 (e ∙ e0))
        (elim orig [ inl e' ↦ inl (sym e ∙ e') | inr (m, t) ↦ inr (Memᴰ.tail m, t) ])
  Found-cons cand cands best now out (taken fit e lower) (absent eo en a) = absurd (cc (e, en))
  Found-cons cand cands best now out (taken fit e lower) (found b eo a rel orig) =
      found b eo
        (
          (λ t. elim (rel cand e) [
            | inl same ↦ NotAfter-eq b cand same t
            | inr less ↦ no_chain cand cand b (lt_key_irrefl (key_of authored cand)) less
          ]),
          a,
        )
        (λ b0 e0. elim (rel cand e) [
          | inl same ↦ inr (rw same (lower b0 e0))
          | inr less ↦ inr (
              lt_key_trans (key_of authored b) (key_of authored cand) (key_of authored b0) less
                (lower b0 e0))
        ])
        (elim orig [
          | inl e' ↦ let same : b ≡ cand = cc (e, e') in inr (Memᴰ.head same, rw same fit)
          | inr (m, t) ↦ inr (Memᴰ.tail m, t)
        ])

  pub search-Found :
      (cands : List (List ℕ)) (best : Option (List ℕ))
      → Found cands best (search f authored cands best)
  unfolding search
  search-Found [] best = elim (Option-cases best) [
    | inl e ↦ absent e e tt
    | inr (b, e) ↦ found b e tt (λ b0 e0. inl (cc (e, e0))) (inl e)
  ]
  search-Found (cand ∷ cands) best =
      Found-cons cand cands best (keep_better f authored cand best) _ (kept cand best)
        (search-Found cands (keep_better f authored cand best))
