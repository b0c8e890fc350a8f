-- ===== src/Plans/Serving.antt =====
-- plan_cache.py: what the cache serves, against the plan that was last written under a key.
use orion_v.Prelude.{
  ℕ, suc, ◌+◌, ◌≤◌, ◌≡◌, refl, ap, sym, ◌∙◌, inl, inr, List, [], ◌∷◌, false, Option, none, some,
  arith, Bool-cases, Option-cases, length, ltb,
}
use orion_v.Prelude.Dict.{Dict, Eq, get, contains, put, get-put_self, beq_refl}
use orion_v.Prelude.Keys.{length-put_known, length-put_new, Each-get}
use orion_v.Plans.Cache.{
  CacheEntry, PlanCache, new_entry, evict, with_entries, touch, enforce_size_invariant, get_plan,
  put_plan, refresh, mark_stale,
}
use orion_v.Plans.Sound.{
  Call, get_call, mark_stale_call, put_call, refresh_call, perform, run, noted_all, Agrees, IsSound,
  run-IsSound,
}

module _ {K T : Type 0} ⦃e : Eq K⦄ where
  touch-capacity : (k : K) (c : PlanCache K T) → (touch k c).capacity ≡ c.capacity
  unfolding touch
  touch-capacity k c = ground arith

  put_plan-capacity :
      (k : K) (plan : T) (c : PlanCache K T) → (put_plan k plan c).1.capacity ≡ c.capacity
  unfolding put_plan enforce_size_invariant
  put_plan-capacity k plan c = ground arith

  perform-capacity : (x : Call K T) (c : PlanCache K T) → (perform x c).capacity ≡ c.capacity
  unfolding perform get_plan refresh mark_stale
  perform-capacity (get_call k) c = ground (arith, touch-capacity k)
  perform-capacity (mark_stale_call k) c = ground arith
  perform-capacity (put_call k plan) c = put_plan-capacity k plan c
  perform-capacity (refresh_call k plan) c = elim (Option-cases (get k c.entries)) [
    | inl absent ↦
        let same : (refresh k plan c).1 ≡ (put_plan k plan c).1 = ground arith in
        ap (λ (t : PlanCache K T). t.capacity) same ∙ put_plan-capacity k plan c
    | inr (x, here) ↦
        let again : CacheEntry T = record x {
          plan = plan;
          stale = false;
          miss_after_stale_count = x.miss_after_stale_count + 1;
        } in
        let same : (refresh k plan c).1 ≡ touch k (with_entries (put k again c.entries) c) =
          ground arith in
        ap (λ (t : PlanCache K T). t.capacity) same
        ∙ touch-capacity k (with_entries (put k again c.entries) c)
  ]

  run-capacity : (calls : List (Call K T)) (c : PlanCache K T) → (run calls c).capacity ≡ c.capacity
  unfolding run
  run-capacity [] c = refl
  run-capacity (x ∷ xs) c = run-capacity xs (perform x c) ∙ perform-capacity x c

  abbrev pub empty_cache : Option ℕ → PlanCache K T
  empty_cache capacity = record { capacity = capacity; entries = [] }

  empty-IsSound : (capacity : Option ℕ) → IsSound (λ _. none) (empty_cache capacity)
  empty-IsSound capacity = record { unique = tt; agrees = tt; bounded = λ n h. omega arith }

  -- The cache never lies, whatever calls it has answered since it was created empty: an entry that
  -- `get` gives holds the plan that was last put or refreshed under that key, and the key has not been
  -- marked stale since.
  pub run-get_plan :
      (capacity : Option ℕ) (calls : List (Call K T)) (k : K) (x : CacheEntry T)
      → (get_plan k (run calls (empty_cache capacity))).0 ≡ some x
      → noted_all calls (λ _. none) k ≡ some x.plan
  unfolding get_plan
  run-get_plan capacity calls k x h =
      let c = run calls (empty_cache capacity) in
      let s = run-IsSound calls (λ _. none) (empty_cache capacity) (empty-IsSound capacity) in
      elim (Option-cases (get k c.entries)) [
        | inl absent ↦ absurd (ground arith)
        | inr (y, here) ↦ elim (Bool-cases y.stale) [
          | inl stale ↦ absurd (ground arith)
          | inr fresh ↦
              let same : y.plan ≡ x.plan = ground arith in
              Each-get (Agrees (noted_all calls (λ _. none))) k c.entries here s.agrees fresh
              ∙ ap some same
        ]
      ]

  -- A cache with a capacity never holds more entries than that, after any calls since it was empty.
  pub length-run :
      (n : ℕ) (calls : List (Call K T)) → length (run calls (empty_cache (some n))).entries ≤ n
  length-run n calls =
      let s = run-IsSound calls (λ _. none) (empty_cache (some n)) (empty-IsSound (some n)) in
      s.bounded n (run-capacity calls (empty_cache (some n)))

  evict_few : (n : ℕ) (d : Dict K (CacheEntry T)) → length d ≤ n → evict n d ≡ d
  unfolding evict
  evict_few n [] h = refl
  evict_few n (x ∷ d) h = ground arith

  get-evict-put :
      (n : ℕ) (k : K) (x : CacheEntry T) (d : Dict K (CacheEntry T))
      → length d ≤ suc n
      → get k (evict (suc n) (put k x d)) ≡ some x
  unfolding evict
  get-evict-put n k x [] h = ground (arith, beq_refl k)
  get-evict-put n k x ((j, w) ∷ d) h = elim (Bool-cases (contains k ((j, w) ∷ d))) [
    | inl known ↦
        ap (get k) (
          evict_few (suc n) (put k x ((j, w) ∷ d))
            (omega (arith, length-put_known k x ((j, w) ∷ d) known)))
        ∙ get-put_self k x ((j, w) ∷ d)
    | inr new ↦
        let split : put k x ((j, w) ∷ d) ≡ (j, w) ∷ put k x d = ground arith in
        let longer = length-put_new k x d (ground arith) in
        elim (Bool-cases (ltb (suc n) (length ((j, w) ∷ put k x d)))) [
          | inl more ↦
              let dropped : evict (suc n) ((j, w) ∷ put k x d) ≡ evict (suc n) (put k x d) =
                ground arith in
              ap (λ t. get k (evict (suc n) t)) split
              ∙ ap (get k) (dropped ∙ evict_few (suc n) (put k x d) (omega (arith, longer)))
              ∙ get-put_self k x d
          | inr few ↦
              let whole : evict (suc n) ((j, w) ∷ put k x d) ≡ (j, w) ∷ put k x d = ground arith in
              ap (λ t. get k (evict (suc n) t)) split
              ∙ ap (get k) (whole ∙ sym split)
              ∙ get-put_self k x ((j, w) ∷ d)
        ]
  ]

  -- A plan that was just put is served: in a cache of capacity at least 1 that is not over its
  -- capacity, `get` after `put` gives a fresh entry with that plan, on its first hit.
  pub get_plan-put_plan :
      (k : K) (plan : T) (c : PlanCache K T) (n : ℕ)
      → c.capacity ≡ some (suc n)
      → length c.entries ≤ suc n
      → (get_plan k (put_plan k plan c).1).0
        ≡ some (record { plan = plan; stale = false; hit_count = 1; miss_after_stale_count = 0 })
  unfolding get_plan put_plan enforce_size_invariant
  get_plan-put_plan k plan c n cap h =
      let here = get-evict-put n k (new_entry plan) c.entries h in
      let held : get k (put_plan k plan c).1.entries ≡ some (new_entry plan) = ground arith in
      ground arith
