-- ===== src/Plans/Topology.antt =====
-- plan_cache.py: `revalidate_plan` against the calls that change the network.
use orion_v.Prelude.{◌≡◌, refl, List, [], ◌∷◌, ℕ, ◌&&◌, ◌==◌}
use orion_v.Types.{InfrastructureTier, tier_beq, PlacementPlan, SliceRequest}
use orion_v.Types.Mdo.{PlanSummary}
use orion_v.Substrate.{SubstrateNetwork, allocate, deallocate}
use orion_v.Substrate.Composition.{allocate-any, deallocate-any}
use orion_v.Plans.{present, all_present, revalidate_plan}

all_present-eq :
    (s t : SubstrateNetwork)
    → ((dom : ℕ) (tier : InfrastructureTier) → present t dom tier ≡ present s dom tier)
    → (tiers : List InfrastructureTier) (doms : List ℕ)
    → all_present t tiers doms ≡ all_present s tiers doms
all_present-eq s t same [] doms = refl
all_present-eq s t same (tier ∷ tiers) [] = refl
all_present-eq s t same (tier ∷ tiers) (dom ∷ doms) =
    cc (same dom tier, all_present-eq s t same tiers doms)

-- The revalidation of a cached plan never changes its answer in a run of the network: it is the same
-- before and after an `allocate` or a `deallocate`, of any plan, whether or not the call raises.
pub revalidate_plan-allocate :
    (p : PlanSummary) (plan : PlacementPlan) (req : SliceRequest) (s : SubstrateNetwork)
    → (revalidate_plan p (allocate plan req s).1 ≡ revalidate_plan p s)
      × (revalidate_plan p (deallocate plan req s).1 ≡ revalidate_plan p s)
unfolding revalidate_plan
revalidate_plan-allocate p plan req s = (
  all_present-eq s (allocate plan req s).1
      (λ dom tier.
        allocate-any (λ n. n.domain_id == dom && tier_beq n.tier tier) (λ op c r x. refl) plan req
          s)
      p.required_tiers p.suggested_domains,
  all_present-eq s (deallocate plan req s).1
      (λ dom tier.
        deallocate-any (λ n. n.domain_id == dom && tier_beq n.tier tier) (λ op c r x. refl) plan req
          s)
      p.required_tiers p.suggested_domains,
)
