-- ===== src/Plans/Sound.antt =====
-- plan_cache.py: the entries of the cache against a book of the plans last written.
use orion_v.Prelude.{
  ℕ, ◌+◌, ◌≤◌, ◌≡◌, refl, subst, inl, inr, List, [], ◌∷◌, true, false, Option, none, some, arith,
  Bool-cases, Option-cases, length, ltb, if◌then◌else◌,
}
use orion_v.Prelude.Dict.{Dict, Eq, get, contains, put, del, beq_refl}
use orion_v.Prelude.Keys.{
  HasUniqueKeys, put-HasUniqueKeys, del-HasUniqueKeys, contains-del_self, length-put_known,
  length-put_new, length-del, contains_of_get, Each, Each-get, Each-del, Each-put, Each-others,
  contains_of_get-none,
}
use orion_v.Plans.Cache.{
  CacheEntry, PlanCache, new_entry, evict, with_entries, touch, enforce_size_invariant, get_plan,
  put_plan, refresh, mark_stale,
}

-- `evict` takes entries from the front only.
module _ {K V : Type 0} ⦃e : Eq K⦄ where
  evict-HasUniqueKeys : (n : ℕ) (d : Dict K V) → HasUniqueKeys d → HasUniqueKeys (evict n d)
  unfolding evict
  evict-HasUniqueKeys n [] u = tt
  evict-HasUniqueKeys n ((k, v) ∷ d) u = elim (Bool-cases (ltb n (length ((k, v) ∷ d)))) [
    | inl more ↦ rw more (evict-HasUniqueKeys n d u.1)
    | inr few ↦ rw few u
  ]

  evict-Each : (P : K → V → Type 0) (n : ℕ) (d : Dict K V) → Each P d → Each P (evict n d)
  unfolding evict
  evict-Each P n [] a = tt
  evict-Each P n ((k, v) ∷ d) a = elim (Bool-cases (ltb n (length ((k, v) ∷ d)))) [
    | inl more ↦ rw more (evict-Each P n d a.1)
    | inr few ↦ rw few a
  ]

  length-evict : (n : ℕ) (d : Dict K V) → length (evict n d) ≤ n
  unfolding evict
  length-evict n [] = omega arith
  length-evict n ((k, v) ∷ d) = ground (arith, length-evict n d)

-- The calls of the interface.
pub data Call (K T : Type 0) : Type 0 where
  get_call mark_stale_call : K → Call K T
  put_call refresh_call : K → T → Call K T

-- The plan that may be served under a key: the one last written, unless it was marked stale since.
abbrev pub Book : Type 0 → Type 0 → Type 0
Book K T = K → Option T

module _ {K T : Type 0} ⦃e : Eq K⦄ where
  unfoldable pub perform : Call K T → PlanCache K T → PlanCache K T
  perform (get_call k) c = (get_plan k c).1
  perform (mark_stale_call k) c = mark_stale k c
  perform (put_call k plan) c = (put_plan k plan c).1
  perform (refresh_call k plan) c = (refresh k plan c).1

  unfoldable pub run : List (Call K T) → PlanCache K T → PlanCache K T
  unfolding perform
  run [] c = c
  run (x ∷ xs) c = run xs (perform x c)

  abbrev pub note : K → Option T → Book K T → Book K T
  note k o book j = if e.beq j k then o else book j

  unfoldable pub noted : Call K T → Book K T → Book K T
  noted (get_call k) book = book
  noted (mark_stale_call k) book = note k none book
  noted (put_call k plan) book = note k (some plan) book
  noted (refresh_call k plan) book = note k (some plan) book

  unfoldable pub noted_all : List (Call K T) → Book K T → Book K T
  unfolding noted
  noted_all [] book = book
  noted_all (x ∷ xs) book = noted_all xs (noted x book)

  -- An entry that is not stale holds the plan in the book.
  abbrev pub Agrees : Book K T → K → CacheEntry T → Type 0
  Agrees book k x = x.stale ≡ false → book k ≡ some x.plan

  -- Each key once, every entry as in the book, and no more entries than the capacity.
  pub record IsSound (book : Book K T) (c : PlanCache K T) : Type 0 where
    pub unique : HasUniqueKeys c.entries
    pub agrees : Each (Agrees book) c.entries
    pub bounded : (n : ℕ) → c.capacity ≡ some n → length c.entries ≤ n

  note-other :
      (k : K) (o : Option T) (book : Book K T) (j : K) (w : CacheEntry T)
      → e.beq j k ≡ false
      → Agrees book j w
      → Agrees (note k o book) j w
  note-other k o book j w ne h fresh = rw ne (h fresh)

  -- A write over the entry of a key.
  write-IsSound :
      (book book' : Book K T) (k : K) (x : CacheEntry T) (c : PlanCache K T)
      → contains k c.entries ≡ true
      → ((j : K) (w : CacheEntry T) → e.beq j k ≡ false → Agrees book j w → Agrees book' j w)
      → Agrees book' k x
      → IsSound book c
      → IsSound book' (with_entries (put k x c.entries) c)
  write-IsSound book book' k x c known kept here s = record {
    unique = put-HasUniqueKeys k x c.entries s.unique;
    agrees = Each-put (Agrees book) (Agrees book') k kept x c.entries s.unique here s.agrees;
    bounded = λ n h. rw (length-put_known k x c.entries known) (s.bounded n h);
  }

  touch-IsSound :
      (book : Book K T) (k : K) (c : PlanCache K T) → IsSound book c → IsSound book (touch k c)
  unfolding touch
  touch-IsSound book k c s = elim (Option-cases c.capacity) [
    | inl no_bound ↦ let same : c ≡ touch k c = ground arith in subst (IsSound book) same s
    | inr (n, bound) ↦ elim (Option-cases (get k c.entries)) [
      | inl absent ↦ let same : c ≡ touch k c = ground arith in subst (IsSound book) same s
      | inr (x, here) ↦
          let known = contains_of_get k c.entries here in
          let moved : with_entries (put k x (del k c.entries)) c ≡ touch k c = ground arith in
          subst (IsSound book) moved (record {
            unique =
                put-HasUniqueKeys k x (del k c.entries) (del-HasUniqueKeys k c.entries s.unique);
            agrees =
                Each-put (Agrees book) (Agrees book) k (λ j w _ a. a) x (del k c.entries)
                  (del-HasUniqueKeys k c.entries s.unique)
                  (Each-get (Agrees book) k c.entries here s.agrees)
                  (Each-del (Agrees book) k c.entries s.agrees);
            bounded = λ m h. omega (
              arith,
              length-put_new k x (del k c.entries) (contains-del_self k c.entries s.unique),
              length-del k c.entries known,
              s.bounded m h,
            );
          })
    ]
  ]

  get_plan-IsSound :
      (book : Book K T) (k : K) (c : PlanCache K T) → IsSound book c → IsSound book (get_plan k c).1
  unfolding get_plan
  get_plan-IsSound book k c s = elim (Option-cases (get k c.entries)) [
    | inl absent ↦ let same : c ≡ (get_plan k c).1 = ground arith in subst (IsSound book) same s
    | inr (x, here) ↦ elim (Bool-cases x.stale) [
      | inl stale ↦ let same : c ≡ (get_plan k c).1 = ground arith in subst (IsSound book) same s
      | inr fresh ↦
          let hit : CacheEntry T = record x { hit_count = x.hit_count + 1 } in
          let moved : touch k (with_entries (put k hit c.entries) c) ≡ (get_plan k c).1 =
            ground arith in
          subst (IsSound book) moved (
            touch-IsSound book k _ (
              write-IsSound book book k hit c (contains_of_get k c.entries here) (λ j w _ a. a)
                (Each-get (Agrees book) k c.entries here s.agrees) s))
    ]
  ]

  put_plan-IsSound :
      (book : Book K T) (k : K) (plan : T) (c : PlanCache K T)
      → IsSound book c
      → IsSound (note k (some plan) book) (put_plan k plan c).1
  unfolding put_plan enforce_size_invariant
  put_plan-IsSound book k plan c s =
      let x = new_entry plan in
      let es = put k x c.entries in
      let unique : HasUniqueKeys es = put-HasUniqueKeys k x c.entries s.unique in
      let agrees : Each (Agrees (note k (some plan) book)) es =
        Each-put (Agrees book) (Agrees (note k (some plan) book)) k (note-other k (some plan) book)
          x c.entries s.unique (λ _. rw (beq_refl k) refl) s.agrees in
      elim (Option-cases c.capacity) [
        | inl no_bound ↦
            let same : with_entries es c ≡ (put_plan k plan c).1 = ground arith in
            subst (IsSound (note k (some plan) book)) same (record {
              unique = unique;
              agrees = agrees;
              bounded = λ n h. absurd (cc (h, no_bound));
            })
        | inr (n, bound) ↦
            let same : with_entries (evict n es) c ≡ (put_plan k plan c).1 = ground arith in
            subst (IsSound (note k (some plan) book)) same (record {
              unique = evict-HasUniqueKeys n es unique;
              agrees = evict-Each (Agrees (note k (some plan) book)) n es agrees;
              bounded = λ m h.
                  let e' : n ≡ m = cc (h, bound) in
                  subst (λ t. length (evict n es) ≤ t) e' (length-evict n es);
            })
      ]

  refresh-IsSound :
      (book : Book K T) (k : K) (plan : T) (c : PlanCache K T)
      → IsSound book c
      → IsSound (note k (some plan) book) (refresh k plan c).1
  unfolding refresh
  refresh-IsSound book k plan c s = elim (Option-cases (get k c.entries)) [
    | inl absent ↦
        let same : (put_plan k plan c).1 ≡ (refresh k plan c).1 = ground arith in
        subst (IsSound (note k (some plan) book)) same (put_plan-IsSound book k plan c s)
    | inr (x, here) ↦
        let again : CacheEntry T = record x {
          plan = plan;
          stale = false;
          miss_after_stale_count = x.miss_after_stale_count + 1;
        } in
        let moved : touch k (with_entries (put k again c.entries) c) ≡ (refresh k plan c).1 =
          ground arith in
        subst (IsSound (note k (some plan) book)) moved (
          touch-IsSound (note k (some plan) book) k _ (
            write-IsSound book (note k (some plan) book) k again c
              (contains_of_get k c.entries here) (note-other k (some plan) book)
              (λ _. rw (beq_refl k) refl) s))
  ]

  mark_stale-IsSound :
      (book : Book K T) (k : K) (c : PlanCache K T)
      → IsSound book c
      → IsSound (note k none book) (mark_stale k c)
  unfolding mark_stale
  mark_stale-IsSound book k c s = elim (Option-cases (get k c.entries)) [
    | inl absent ↦
        let same : c ≡ mark_stale k c = ground arith in
        subst (IsSound (note k none book)) same (record {
          unique = s.unique;
          agrees =
              Each-others (Agrees book) (Agrees (note k none book)) k (note-other k none book)
                c.entries (contains_of_get-none k c.entries absent) s.agrees;
          bounded = s.bounded;
        })
    | inr (x, here) ↦
        let stale : CacheEntry T = record x { stale = true } in
        let same : with_entries (put k stale c.entries) c ≡ mark_stale k c = ground arith in
        subst (IsSound (note k none book)) same (
          write-IsSound book (note k none book) k stale c (contains_of_get k c.entries here)
            (note-other k none book) (λ t. cc t) s)
  ]

  perform-IsSound :
      (call : Call K T) (book : Book K T) (c : PlanCache K T)
      → IsSound book c
      → IsSound (noted call book) (perform call c)
  unfolding noted perform
  perform-IsSound (get_call k) book c s = get_plan-IsSound book k c s
  perform-IsSound (mark_stale_call k) book c s = mark_stale-IsSound book k c s
  perform-IsSound (put_call k plan) book c s = put_plan-IsSound book k plan c s
  perform-IsSound (refresh_call k plan) book c s = refresh-IsSound book k plan c s

  pub run-IsSound :
      (calls : List (Call K T)) (book : Book K T) (c : PlanCache K T)
      → IsSound book c
      → IsSound (noted_all calls book) (run calls c)
  unfolding noted_all run
  run-IsSound [] book c s = s
  run-IsSound (x ∷ xs) book c s =
      run-IsSound xs (noted x book) (perform x c) (perform-IsSound x book c s)
