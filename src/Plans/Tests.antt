-- ===== src/Plans/Tests.antt =====
-- plan_cache.py on small caches and requests.
use orion_v.Prelude.{ℕ, pos, ◌≡◌, refl, ◌↔◌, ◌≤◌, List, [], ◌∷◌, false, some, none, arith, length}
use orion_v.Prelude.Dict.{nat_eq}
use orion_v.Prelude.Fail.{ok}
use orion_v.Types.{SliceRequest, edge}
use orion_v.Types.Mdo.{PlanSummary}
use orion_v.Samples.{network, plan, request}
use orion_v.Substrate.{allocate, deallocate}
use orion_v.Plans.{
  AbstractPlan, grafted, instantiate_plan, plan_signature, sfc_template, revalidate_plan,
  delay_bucket, throughput_bucket,
}
use orion_v.Plans.Cache.{CacheEntry, PlanCache, get_plan, put_plan, mark_stale}
use orion_v.Plans.Sound.{Call, get_call, put_call, mark_stale_call, run, noted_all}
use orion_v.Plans.Serving.{empty_cache, run-get_plan, length-run, get_plan-put_plan}
use orion_v.Plans.Signature.{
  SameSide, delay_thresholds, rate_thresholds, plan_signature_iff, instantiate_plan-plan_signature,
}
use orion_v.Plans.Topology.{revalidate_plan-allocate}

program : Unit {0}
unfolding get_plan put_plan mark_stale run noted_all sfc_template plan_signature delay_bucket
    throughput_bucket
program = tt

abbrev calls : List (Call ℕ ℕ)
calls = put_call 1 10 ∷ put_call 2 20 ∷ get_call 1 ∷ put_call 3 30 ∷ mark_stale_call 3 ∷ []

abbrev cache : PlanCache ℕ ℕ
cache = run calls (empty_cache (some 2))

-- The entry of key 2 was the least recently used.
served :
    ((get_plan 1 cache).0
      ≡ some (record { plan = 10; stale = false; hit_count = 2; miss_after_stale_count = 0 }))
    × ((get_plan 2 cache).0 ≡ none)
    × ((get_plan 3 cache).0 ≡ none)
unfolding program
served = (refl, refl, refl)

abbrev entry : CacheEntry ℕ
entry = record { plan = 10; stale = false; hit_count = 2; miss_after_stale_count = 0 }

served_one : (get_plan 1 cache).0 ≡ some entry
unfolding program
served_one = refl

run-get_plan_example : noted_all calls (λ _. none) 1 ≡ some 10
run-get_plan_example = run-get_plan (some 2) calls 1 entry served_one

length-run_example : length cache.entries ≤ 2
length-run_example = length-run 2 calls

cache_capacity : cache.capacity ≡ some 2
unfolding program
cache_capacity = refl

cache_length : length cache.entries ≤ 2
unfolding program
cache_length = omega arith

get_plan-put_plan_example :
    (get_plan 5 (put_plan 5 50 cache).1).0
    ≡ some (record { plan = 50; stale = false; hit_count = 1; miss_after_stale_count = 0 })
get_plan-put_plan_example = get_plan-put_plan 5 50 cache 1 cache_capacity cache_length

-- A request of the same class as the sample request, with other demands.
abbrev similar : SliceRequest
similar = record request {
  request_id = 8;
  qos = record { max_e2e_delay = pos 30; min_throughput = pos 9 };
}

abbrev abstract : AbstractPlan
abstract = record {
  sfc_template = 0 ∷ 0 ∷ [];
  required_tiers = edge ∷ edge ∷ [];
  suggested_domains = 0 ∷ 0 ∷ [];
}

stored : abstract.sfc_template ≡ sfc_template request
unfolding program
stored = refl

same_signature : plan_signature request ≡ plan_signature similar
unfolding program
same_signature = refl

plan_signature_iff_example : (plan_signature request ≡ plan_signature similar) ↔ (
    (request.slice_type ≡ similar.slice_type)
    × SameSide delay_thresholds (pos 40) (pos 30)
    × SameSide rate_thresholds (pos 5) (pos 9)
    × (sfc_template request ≡ sfc_template similar))
plan_signature_iff_example = plan_signature_iff request similar

instantiate_plan-plan_signature_example :
    instantiate_plan abstract similar ≡ ok (grafted abstract similar)
instantiate_plan-plan_signature_example =
    instantiate_plan-plan_signature abstract request similar stored same_signature

abbrev summary_of_plan : PlanSummary
summary_of_plan = grafted abstract request

revalidate_plan-allocate_example :
    (revalidate_plan summary_of_plan (allocate plan request network).1
      ≡ revalidate_plan summary_of_plan network)
    × (revalidate_plan summary_of_plan (deallocate plan request network).1
        ≡ revalidate_plan summary_of_plan network)
revalidate_plan-allocate_example = revalidate_plan-allocate summary_of_plan plan request network
