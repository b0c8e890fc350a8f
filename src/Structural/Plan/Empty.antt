-- ===== src/Structural/Plan/Empty.antt =====
-- structural_checker.py: what an empty list of violations says.
use orion_v.Prelude.{
  ◌≡◌, refl, sym, subst, ◌⊎◌, inl, inr, List, [], ◌∷◌, ◌++◌, map, Bool, true, false, not, Option,
  some, arith, All, ◌==◌, ==_iff, any, filter, Bool-cases,
}
use orion_v.Prelude.Dict.{beq_refl, Dict, Eq, nat_eq, pair_eq, put, contains, contains-put_self}
use orion_v.Prelude.Keys.{contains-put_kept}
use orion_v.Types.{Ident}
use orion_v.Structural.{mem}
use orion_v.Structural.Plan.{report, collect, index_by, distinct, difference}
use orion_v.Structural.Data.{Constraint, schema, Detail, Violation}
use orion_v.Prelude.Totals.{is_for}

-- Of a list of violations that is empty, every part is.
pub append-nil : (xs ys : List Violation) → xs ++ ys ≡ [] → (xs ≡ []) × (ys ≡ [])
append-nil [] ys h = (refl, h)
append-nil (x ∷ xs) ys h = cc

pub collect-nil :
    {A : Type 0} (f : A → List Violation) (xs : List A) → collect f xs ≡ [] → All (λ x. f x ≡ []) xs
collect-nil f [] h = tt
collect-nil f (x ∷ xs) h =
    let (now, later) = append-nil (f x) (collect f xs) h in (now, collect-nil f xs later)

pub All-imp :
    {A : Type 0} (P Q : A → Type 0) (xs : List A) → ((x : A) → P x → Q x) → All P xs → All Q xs
All-imp P Q [] f h = tt
All-imp P Q (x ∷ xs) f h = (f x h.0, All-imp P Q xs f h.1)

pub All-also :
    {A : Type 0} (P Q R : A → Type 0) (xs : List A)
    → ((x : A) → P x → Q x → R x)
    → All P xs
    → All Q xs
    → All R xs
All-also P Q R [] f h k = tt
All-also P Q R (x ∷ xs) f h k = (f x h.0 k.0, All-also P Q R xs f h.1 k.1)

-- The key of an item occurs.
pub All-occurs :
    {K : Type 0} ⦃e : Eq K⦄ {X : Type 0} (key : X → Option K) (xs : List X)
    → All (λ x. (k : K) → key x ≡ some k → any (is_for key k) xs ≡ true) xs
All-occurs key [] = tt
All-occurs key (x ∷ xs) = (
  λ k h. rw (h, beq_refl k) refl,
  All-imp (λ y. (k : _) → key y ≡ some k → any (is_for key k) xs ≡ true)
      (λ y. (k : _) → key y ≡ some k → any (is_for key k) (x ∷ xs) ≡ true) xs
      (λ y f k h. ground (arith, f k h)) (All-occurs key xs),
)

pub report-nil :
    (c : Bool) (k : Constraint) (v : Option Ident) (d : Detail) → report c k v d ≡ [] → c ≡ false
report-nil c k v d h = ground arith

filter-mem :
    (x y : Ident) (xs : List Ident)
    → mem x xs ≡ true
    → (y == x) ≡ false
    → mem x (filter (λ z. not (y == z)) xs) ≡ true
filter-mem x y [] h k = cc
filter-mem x y (z ∷ zs) h k = ground (arith, filter-mem x y zs)

pub difference-nil :
    (detail : Detail) (a b : List Ident)
    → difference detail a b ≡ []
    → (v : Ident) → mem v a ≡ true
    → mem v b ≡ true
difference-nil detail a b h v m =
    listed (distinct a)
      (collect-nil (λ w. report (not (mem w b)) schema (some w) detail) (distinct a) h)
      (distinct-mem a m)
  where
    distinct-mem : (xs : List Ident) → mem v xs ≡ true → mem v (distinct xs) ≡ true
    distinct-mem [] k = cc
    distinct-mem (y ∷ ys) k = elim (Bool-cases (v == y)) [
      | inl same ↦ rw same refl
      | inr other ↦
          let rest = filter-mem v y (distinct ys) (distinct-mem ys (ground arith)) (ground arith) in
          rw other rest
    ]

    listed :
        (xs : List Ident)
        → All (λ w. report (not (mem w b)) schema (some w) detail ≡ []) xs
        → mem v xs ≡ true
        → mem v b ≡ true
    listed [] k n = cc
    listed (y ∷ ys) k n = elim (Bool-cases (v == y)) [
      | inl same ↦
          let is : y ≡ v = sym ((==_iff v y).0 same) in
          let out = report-nil (not (mem y b)) schema (some y) detail k.0 in
          subst (λ t. mem t b ≡ true) is (ground (arith, out))
      | inr other ↦ listed ys k.1 (ground arith)
    ]

-- The entry of an id that is there.
pub index_by-contains :
    {A : Type 0} (key : A → Ident) (xs : List A) (d : Dict Ident A) (k : Ident)
    → (contains k d ≡ true) ⊎ (mem k (map key xs) ≡ true)
    → contains k (index_by key xs d) ≡ true
index_by-contains key [] d k h = elim h [ inl c ↦ c | inr m ↦ absurd (ground arith) ]
index_by-contains key (x ∷ xs) d k h = index_by-contains key xs (put (key x) x d) k (elim h [
  | inl c ↦ inl (contains-put_kept k (key x) x d c)
  | inr m ↦ elim (Bool-cases (k == key x)) [
    | inl same ↦
        let is : key x ≡ k = sym ((==_iff k (key x)).0 same) in
        inl (subst (λ t. contains t (put (key x) x d) ≡ true) is (contains-put_self (key x) x d))
    | inr other ↦ inr (ground arith)
  ]
])

pub All-listed :
    {A : Type 0} (key : A → Ident) (xs : List A) → All (λ x. mem (key x) (map key xs) ≡ true) xs
All-listed key [] = tt
All-listed key (x ∷ xs) = (
  ground (arith, ==_iff (key x) (key x)),
  All-imp (λ y. mem (key y) (map key xs) ≡ true) (λ y. mem (key y) (map key (x ∷ xs)) ≡ true) xs
      (λ y h. ground arith) (All-listed key xs),
)
