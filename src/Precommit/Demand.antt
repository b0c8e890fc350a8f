-- ===== src/Precommit/Demand.antt =====
-- mdo/precommit_check.py: the demand by pair of domains.
use orion_v.Prelude.{
  ℕ, ℤ, pos, ◌+ℤ◌, ◌≤ℤ◌, ◌≡◌, refl, sym, ap, subst, zero-add_ℤ, +ℤ_assoc, ◌-ℤ◌, add-sub_cancel,
  add-zero_ℤ, ◌∙◌, List, [], ◌∷◌, true, false, some, arith, int_laws, ◌==◌, Bool-cases, inl, inr,
  ◌⊎◌, ltb, leb, Bool, ◌&&◌, ◌||◌, if◌then◌else◌,
}
use orion_v.Prelude.Dict.{
  Dict, pair_eq, pair_beq, pair_beq_iff, get_or-put, contains, get_of_contains, get, get_or, put,
  contains-put_self,
}
use orion_v.Prelude.Keys.{contains-put_kept}
use orion_v.Types.Mdo.{InterDomainLink}
use orion_v.Prelude.Sum.{sum_by}
use orion_v.Precommit.{
  pair_key, first_or_zero, rest_of, add_at, demand_from, inter_domain_demand_by_pair, inter_bw_from,
  compute_inter_domain_bw, check_c5b_inter, residual_from, inter_domain_residual_by_pair,
}

-- The edge from a to b joins the domains x and y, in either direction.
abbrev pub joins_pair : ℕ → ℕ → ℕ → ℕ → Bool
joins_pair x y a b = (a == x && b == y) || (a == y && b == x)

-- The summed demand of the chain edges between two given domains, in either direction.
unfoldable pub crossing_demand : ℕ → ℕ → List ℕ → List ℤ → ℤ
crossing_demand x y [] bw = pos 0
crossing_demand x y (a ∷ []) bw = pos 0
crossing_demand x y (a ∷ b ∷ ps) bw =
    (if joins_pair x y a b then first_or_zero bw else pos 0)
    +ℤ crossing_demand x y (b ∷ ps) (rest_of bw)

-- Some edge of the chain joins the two domains.
abbrev pub crosses : ℕ → ℕ → List ℕ → Bool
crosses x y [] = false
crosses x y (a ∷ []) = false
crosses x y (a ∷ b ∷ ps) = joins_pair x y a b || crosses x y (b ∷ ps)

-- The summed residual of the links between two given domains, in either direction.
unfoldable pub linked_residual : ℕ → ℕ → List InterDomainLink → ℤ
linked_residual x y [] = pos 0
linked_residual x y (l ∷ ls) =
    (if joins_pair x y l.source_domain l.target_domain then l.bw_residual else pos 0)
    +ℤ linked_residual x y ls

pair_key-joins_pair :
    (x y a b : ℕ) → leb x y ≡ true → pair_beq (x, y) (pair_key a b) ≡ joins_pair x y a b
unfolding pair_key
pair_key-joins_pair x y a b h = ground arith

get_or-add_at :
    (key pair : ℕ × ℕ) (beta : ℤ) (d : Dict (ℕ × ℕ) ℤ)
    → get_or pair (pos 0) (add_at key beta d)
      ≡ get_or pair (pos 0) d +ℤ (if pair_beq pair key then beta else pos 0)
get_or-add_at key pair beta d = elim (Bool-cases (pair_beq pair key)) [
  | inl same ↦
      let e = (pair_beq_iff pair key).0 same in
      get_or-put key pair (get_or key (pos 0) d +ℤ beta) (pos 0) d ∙ rw (same, e) refl
  | inr other ↦
      get_or-put key pair (get_or key (pos 0) d +ℤ beta) (pos 0) d ∙ rw other (sym (add-zero_ℤ _))
]

sum-put :
    (key : ℕ × ℕ) (v : ℤ) (d : Dict (ℕ × ℕ) ℤ)
    → sum_by (λ e. e.1) (put key v d) +ℤ get_or key (pos 0) d ≡ sum_by (λ e. e.1) d +ℤ v
sum-put key v [] = omega int_laws
sum-put key v ((j, w) ∷ d) = grind (int_laws, sum-put key v d)

sum-add_at :
    (key : ℕ × ℕ) (beta : ℤ) (d : Dict (ℕ × ℕ) ℤ)
    → sum_by (λ e. e.1) (add_at key beta d) ≡ sum_by (λ e. e.1) d +ℤ beta
sum-add_at key beta d = cancel_right _ _ (get_or key (pos 0) d) (
    sum-put key (get_or key (pos 0) d +ℤ beta) d
    ∙ regroup (sum_by (λ e. e.1) d) (get_or key (pos 0) d) beta)
  where
    cancel_right : (a b c : ℤ) → a +ℤ c ≡ b +ℤ c → a ≡ b
    cancel_right a b c h = sym (add-sub_cancel a c) ∙ ap (λ t. t -ℤ c) h ∙ add-sub_cancel b c

    regroup : (a b c : ℤ) → a +ℤ (b +ℤ c) ≡ a +ℤ c +ℤ b
    regroup a b c = omega int_laws

demand_from-get :
    (x y : ℕ) (d : Dict (ℕ × ℕ) ℤ) (p : List ℕ) (bw : List ℤ)
    → ltb x y ≡ true
    → get_or (x, y) (pos 0) (demand_from d p bw)
      ≡ get_or (x, y) (pos 0) d +ℤ crossing_demand x y p bw
unfolding demand_from crossing_demand
demand_from-get x y d [] bw lt = sym (add-zero_ℤ _)
demand_from-get x y d (a ∷ []) bw lt = sym (add-zero_ℤ _)
demand_from-get x y d (a ∷ b ∷ ps) bw lt = elim (Bool-cases (a == b)) [
  | inl same ↦
      let off : joins_pair x y a b ≡ false = ground arith in
      rw (same, off) (demand_from-get x y d (b ∷ ps) (rest_of bw) lt ∙ omega int_laws)
  | inr other ↦ rw other (
      demand_from-get x y (add_at (pair_key a b) (first_or_zero bw) d) (b ∷ ps) (rest_of bw) lt
      ∙ rw
          (
            get_or-add_at (pair_key a b) (x, y) (first_or_zero bw) d,
            pair_key-joins_pair x y a b (ground arith),
          )
          (+ℤ_assoc _ _ _))
]

add_at-contains :
    (key pair : ℕ × ℕ) (beta : ℤ) (d : Dict (ℕ × ℕ) ℤ)
    → (contains pair d ≡ true) ⊎ (pair_beq pair key ≡ true)
    → contains pair (add_at key beta d) ≡ true
add_at-contains key pair beta d h = elim h [
  | inl c ↦ contains-put_kept pair key (get_or key (pos 0) d +ℤ beta) d c
  | inr same ↦
      subst (λ t. contains t (add_at key beta d) ≡ true) (sym ((pair_beq_iff pair key).0 same))
        (contains-put_self key (get_or key (pos 0) d +ℤ beta) d)
]

-- A pair that the chain crosses has an entry.
demand_from-contains :
    (x y : ℕ) (d : Dict (ℕ × ℕ) ℤ) (p : List ℕ) (bw : List ℤ)
    → ltb x y ≡ true
    → (contains (x, y) d ≡ true) ⊎ (crosses x y p ≡ true)
    → contains (x, y) (demand_from d p bw) ≡ true
unfolding demand_from
demand_from-contains x y d [] bw lt h = elim h [ inl c ↦ c | inr c ↦ absurd (cc c) ]
demand_from-contains x y d (a ∷ []) bw lt h = elim h [ inl c ↦ c | inr c ↦ absurd (cc c) ]
demand_from-contains x y d (a ∷ b ∷ ps) bw lt h = elim (Bool-cases (a == b)) [
  | inl same ↦
      let off : joins_pair x y a b ≡ false = ground arith in
      let rest = demand_from-contains x y d (b ∷ ps) (rest_of bw) lt in
      rw same (rest (elim h [ inl c ↦ inl c | inr c ↦ inr (ground arith) ]))
  | inr other ↦
      let d' = add_at (pair_key a b) (first_or_zero bw) d in
      let rest = demand_from-contains x y d' (b ∷ ps) (rest_of bw) lt in
      let now = add_at-contains (pair_key a b) (x, y) (first_or_zero bw) d in
      let key = pair_key-joins_pair x y a b (ground arith) in
      rw other (
        rest (elim h [
          | inl c ↦ inl (now (inl c))
          | inr c ↦ elim (Bool-cases (joins_pair x y a b)) [
            | inl j ↦ inl (now (inr (key ∙ j)))
            | inr j ↦ inr (ground arith)
          ]
        ]))
]

residual_from-get :
    (x y : ℕ) (d : Dict (ℕ × ℕ) ℤ) (ls : List InterDomainLink)
    → ltb x y ≡ true
    → get_or (x, y) (pos 0) (residual_from d ls) ≡ get_or (x, y) (pos 0) d +ℤ linked_residual x y ls
unfolding residual_from linked_residual
residual_from-get x y d [] lt = sym (add-zero_ℤ _)
residual_from-get x y d (l ∷ ls) lt =
    let key = pair_key l.source_domain l.target_domain in
    residual_from-get x y (add_at key l.bw_residual d) ls lt
    ∙ rw
        (
          get_or-add_at key (x, y) l.bw_residual d,
          pair_key-joins_pair x y l.source_domain l.target_domain (ground arith),
        )
        (+ℤ_assoc _ _ _)

inter_bw_from-eq :
    (d : Dict (ℕ × ℕ) ℤ) (p : List ℕ) (bw : List ℤ)
    → sum_by (λ e. e.1) (demand_from d p bw) ≡ inter_bw_from (sum_by (λ e. e.1) d) p bw
unfolding demand_from inter_bw_from
inter_bw_from-eq d [] bw = refl
inter_bw_from-eq d (a ∷ []) bw = refl
inter_bw_from-eq d (a ∷ b ∷ ps) bw = elim (Bool-cases (a == b)) [
  | inl same ↦ rw same (inter_bw_from-eq d (b ∷ ps) (rest_of bw))
  | inr other ↦
      let beta = first_or_zero bw in
      let d' = add_at (pair_key a b) beta d in
      rw other (
        inter_bw_from-eq d' (b ∷ ps) (rest_of bw)
        ∙ ap (λ t. inter_bw_from t (b ∷ ps) (rest_of bw)) (sum-add_at (pair_key a b) beta d))
]

-- The demand by pair loses nothing: at each pair of domains x < y it holds the summed demand of the
-- chain edges from x to y and from y to x together, and all its entries add up to the total
-- inter-domain bandwidth that the cost is computed from.
pub inter_domain_demand_by_pair-totals :
    (partition : List ℕ) (bw_demands : List ℤ)
    → ((x y : ℕ)
        → ltb x y ≡ true
        → get_or (x, y) (pos 0) (inter_domain_demand_by_pair partition bw_demands)
          ≡ crossing_demand x y partition bw_demands)
      × (sum_by (λ e. e.1) (inter_domain_demand_by_pair partition bw_demands)
          ≡ compute_inter_domain_bw partition bw_demands)
unfolding inter_domain_demand_by_pair compute_inter_domain_bw
inter_domain_demand_by_pair-totals partition bw_demands = (
  λ x y lt. demand_from-get x y [] partition bw_demands lt ∙ zero-add_ℤ _,
  inter_bw_from-eq [] partition bw_demands,
)

crossed-contains :
    (x y : ℕ) (partition : List ℕ) (bw_demands : List ℤ)
    → ltb x y ≡ true
    → crosses x y partition ≡ true
    → contains (x, y) (inter_domain_demand_by_pair partition bw_demands) ≡ true
unfolding inter_domain_demand_by_pair
crossed-contains x y partition bw_demands lt c =
    demand_from-contains x y [] partition bw_demands lt (inr c)

check_c5b_inter-le :
    (d residual : Dict (ℕ × ℕ) ℤ) (pair : ℕ × ℕ) {v : ℤ}
    → check_c5b_inter d residual ≡ false
    → get pair d ≡ some v
    → v ≤ℤ get_or pair (pos 0) residual
unfolding check_c5b_inter
check_c5b_inter-le [] residual pair h e = cc
check_c5b_inter-le ((j, w) ∷ d) residual pair {v} h e = elim (Bool-cases (pair_beq pair j)) [
  | inl same ↦ let k : pair ≡ j = (pair_beq_iff pair j).0 same in rw k (ground arith)
  | inr other ↦ check_c5b_inter-le d residual pair (ground arith) (ground arith)
]

-- When the inter-domain C5b test passes on the demands of a chain and the residuals of the links,
-- then for any two domains x < y that the chain crosses between, in either direction, the links
-- between the two have a summed residual that covers the joint demand of all the crossings.
pub check_c5b_inter_sound :
    (partition : List ℕ) (bw_demands : List ℤ) (links : List InterDomainLink) (x y : ℕ)
    → check_c5b_inter
        (inter_domain_demand_by_pair partition bw_demands)
        (inter_domain_residual_by_pair links)
      ≡ false
    → ltb x y ≡ true
    → crosses x y partition ≡ true
    → crossing_demand x y partition bw_demands ≤ℤ linked_residual x y links
unfolding inter_domain_residual_by_pair
check_c5b_inter_sound partition bw_demands links x y h lt crossed =
    let d = inter_domain_demand_by_pair partition bw_demands in
    let there = crossed-contains x y partition bw_demands lt crossed in
    let (v, f) = get_of_contains (x, y) d there in
    let e = (inter_domain_demand_by_pair-totals partition bw_demands).0 x y lt in
    let same : v ≡ crossing_demand x y partition bw_demands = get_or-eq (x, y) d f ∙ e in
    let room : get_or (x, y) (pos 0) (inter_domain_residual_by_pair links)
        ≡ linked_residual x y links =
      residual_from-get x y [] links lt ∙ zero-add_ℤ _ in
    subst (λ t. t ≤ℤ linked_residual x y links) same
      (subst (λ t. v ≤ℤ t) room (check_c5b_inter-le d _ (x, y) h f))
  where
    get_or-eq : (k : ℕ × ℕ) (d : Dict (ℕ × ℕ) ℤ) {v : ℤ} → get k d ≡ some v → v ≡ get_or k (pos 0) d
    get_or-eq k d f = ground arith
