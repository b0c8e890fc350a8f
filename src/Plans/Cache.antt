-- ===== src/Plans/Cache.antt =====
-- llm/plan_cache.py: `PlanCache`, for any key and any plan. A call that raises has still changed the
-- entries.
use orion_v.Prelude.{
  ℕ, ◌+◌, List, [], ◌∷◌, Bool, true, false, Option, none, some, length, ltb, if◌then◌else◌,
}
use orion_v.Prelude.Dict.{Dict, Eq, get, put, del}
use orion_v.Prelude.Fail.{ok, err, runtime_error, Action}

pub record CacheEntry (T : Type 0) : Type 0 where
  pub plan : T
  pub stale : Bool
  pub hit_count : ℕ
  pub miss_after_stale_count : ℕ

pub record PlanCache (K T : Type 0) : Type 0 where
  pub capacity : Option ℕ
  pub entries : Dict K (CacheEntry T)

-- `CacheEntry(plan=plan)`
abbrev pub new_entry : {T : Type 0} → T → CacheEntry T
new_entry plan = record { plan = plan; stale = false; hit_count = 0; miss_after_stale_count = 0 }

-- The loop that drops the first entry while there are more than `capacity`.
unfoldable pub evict : {A : Type 0} → ℕ → List A → List A
evict capacity [] = []
evict capacity (e ∷ es) =
    let rest = evict capacity es in if ltb capacity (length (e ∷ es)) then rest else e ∷ es

module _ {K T : Type 0} ⦃eq : Eq K⦄ where
  abbrev pub with_entries : Dict K (CacheEntry T) → PlanCache K T → PlanCache K T
  with_entries es c = record c { entries = es }

  -- `_touch`: the entry goes to the end
  unfoldable pub touch : K → PlanCache K T → PlanCache K T
  touch key c = elim c.capacity [
    | none ↦ c
    | some _ ↦ elim (get key c.entries) [
      | none ↦ c
      | some e ↦ with_entries (put key e (del key c.entries)) c
    ]
  ]

  -- `_enforce_size_invariant`, with `_MAX_EXPECTED_SIZE` = 16
  unfoldable pub enforce_size_invariant : Action (PlanCache K T) (Unit {0})
  unfolding evict
  enforce_size_invariant c = elim c.capacity [
    | none ↦ (if ltb 16 (length c.entries) then err runtime_error else ok tt, c)
    | some capacity ↦ (ok tt, with_entries (evict capacity c.entries) c)
  ]

  -- `get`
  unfoldable pub get_plan : K → PlanCache K T → Option (CacheEntry T) × PlanCache K T
  unfolding touch
  get_plan key c = elim (get key c.entries) [
    | none ↦ (none, c)
    | some e ↦ elim e.stale [
      | true ↦ (none, c)
      | false ↦
          let hit = record e { hit_count = e.hit_count + 1 } in
          (some hit, touch key (with_entries (put key hit c.entries) c))
    ]
  ]

  -- `put`
  unfoldable pub put_plan : K → T → Action (PlanCache K T) (Unit {0})
  unfolding enforce_size_invariant
  put_plan key plan c = enforce_size_invariant (with_entries (put key (new_entry plan) c.entries) c)

  unfoldable pub refresh : K → T → Action (PlanCache K T) (Unit {0})
  unfolding put_plan touch
  refresh key plan c = elim (get key c.entries) [
    | none ↦ put_plan key plan c
    | some e ↦
        let again = record e {
          plan = plan;
          stale = false;
          miss_after_stale_count = e.miss_after_stale_count + 1;
        } in
        (ok tt, touch key (with_entries (put key again c.entries) c))
  ]

  unfoldable pub mark_stale : K → PlanCache K T → PlanCache K T
  mark_stale key c = elim (get key c.entries) [
    | none ↦ c
    | some e ↦ with_entries (put key (record e { stale = true }) c.entries) c
  ]
