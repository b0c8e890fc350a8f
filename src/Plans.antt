-- ===== src/Plans.antt =====
-- llm/plan_cache.py: the signature of a request, and the abstract plan that is stored under it. Delays
-- are in ms and rates in Mbps, the units of the code's thresholds. The condition part of a key, which
-- rounds fractions of floats, is not modelled.
pub mod Cache
pub mod Sound
pub mod Serving
pub mod Signature
pub mod Topology
mod Tests
use orion_v.Prelude.{
  ℕ, ℤ, pos, List, [], ◌∷◌, map, Bool, true, false, ◌&&◌, any, ◌==◌, ltb_ℤ, if◌then◌else◌,
}
use orion_v.Prelude.Fail.{Result, ok, err, value_error}
use orion_v.Types.{
  Ident, InfrastructureTier, tier_beq, SliceType, Vnf, FlowEdge, QosRequirements, SliceRequest,
}
use orion_v.Types.Mdo.{PlanSummary}
use orion_v.Substrate.{SubstrateNetwork}

pub data QosBucket : Type 0 where
  tight medium loose : QosBucket

unfoldable pub qos_bucket : QosRequirements → QosBucket
qos_bucket qos =
    if ltb_ℤ qos.max_e2e_delay (pos 10)
    then tight
    else if ltb_ℤ qos.max_e2e_delay (pos 50)
    then medium
    else loose

-- `signature`
pub signature : SliceRequest → SliceType × QosBucket
unfolding qos_bucket
signature slice_req = (slice_req.slice_type, qos_bucket slice_req.qos)

unfoldable pub sfc_template : SliceRequest → List Ident
sfc_template slice_req = map (λ v. v.vnf_type) slice_req.vnfs

pub data DelayBucket : Type 0 where
  d_below_5 d_5_10 d_10_20 d_20_50 d_50_100 d_100_up : DelayBucket

unfoldable pub delay_bucket : QosRequirements → DelayBucket
delay_bucket qos =
    let d = qos.max_e2e_delay in
    if ltb_ℤ d (pos 5)
    then d_below_5
    else if ltb_ℤ d (pos 10)
    then d_5_10
    else if ltb_ℤ d (pos 20)
    then d_10_20
    else if ltb_ℤ d (pos 50)
    then d_20_50
    else if ltb_ℤ d (pos 100)
    then d_50_100
    else d_100_up

pub data ThroughputBucket : Type 0 where
  t_below_10 t_10_50 t_50_100 t_100_250 t_250_500 t_500_up : ThroughputBucket

unfoldable pub throughput_bucket : QosRequirements → ThroughputBucket
throughput_bucket qos =
    let t = qos.min_throughput in
    if ltb_ℤ t (pos 10)
    then t_below_10
    else if ltb_ℤ t (pos 50)
    then t_10_50
    else if ltb_ℤ t (pos 100)
    then t_50_100
    else if ltb_ℤ t (pos 250)
    then t_100_250
    else if ltb_ℤ t (pos 500)
    then t_250_500
    else t_500_up

unfoldable pub plan_signature :
    SliceRequest → SliceType × DelayBucket × ThroughputBucket × List Ident
unfolding delay_bucket throughput_bucket sfc_template
plan_signature slice_req = (
  slice_req.slice_type,
  delay_bucket slice_req.qos,
  throughput_bucket slice_req.qos,
  sfc_template slice_req,
)

pub record AbstractPlan : Type 0 where
  pub sfc_template : List Ident
  pub required_tiers : List InfrastructureTier
  pub suggested_domains : List ℕ

-- `types == abstract.sfc_template`
abbrev pub same_template : List Ident → List Ident → Bool
same_template [] [] = true
same_template (a ∷ as') (b ∷ bs) = a == b && same_template as' bs
same_template _ _ = false

-- The plan of a request, with what the request itself brings.
abbrev pub grafted : AbstractPlan → SliceRequest → PlanSummary
grafted abstract slice_req = record {
  vnf_ids = map (λ v. v.vnf_id) slice_req.vnfs;
  required_tiers = abstract.required_tiers;
  suggested_domains = abstract.suggested_domains;
  cpu_demands = map (λ v. v.cpu_demand) slice_req.vnfs;
  ram_demands = map (λ v. v.ram_demand) slice_req.vnfs;
  vcrs = map (λ v. v.vcr) slice_req.vnfs;
  bw_demands = map (λ f. f.bandwidth_demand) slice_req.flow_edges;
}

unfoldable pub instantiate_plan : AbstractPlan → SliceRequest → Result PlanSummary
instantiate_plan abstract slice_req =
    if same_template (map (λ v. v.vnf_type) slice_req.vnfs) abstract.sfc_template
    then ok (grafted abstract slice_req)
    else err value_error

-- `(dom, tier.value) in present`
abbrev pub present : SubstrateNetwork → ℕ → InfrastructureTier → Bool
present s dom tier = any (λ n. n.domain_id == dom && tier_beq n.tier tier) s.graph.nodes

abbrev pub all_present : SubstrateNetwork → List InfrastructureTier → List ℕ → Bool
all_present s (tier ∷ tiers) (dom ∷ doms) = present s dom tier && all_present s tiers doms
all_present s _ _ = true

unfoldable pub revalidate_plan : PlanSummary → SubstrateNetwork → Bool
revalidate_plan plan s = all_present s plan.required_tiers plan.suggested_domains
