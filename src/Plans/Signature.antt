-- ===== src/Plans/Signature.antt =====
-- plan_cache.py: what a signature tells about the requests that share it.
use orion_v.Prelude.{
  ℕ, ℤ, pos, ◌≡◌, refl, ap, sym, ◌∙◌, ◌↔◌, List, [], ◌∷◌, true, arith, All, ltb_ℤ, map,
}
use orion_v.Prelude.Fail.{ok}
use orion_v.Types.{Ident, QosRequirements, SliceRequest}
use orion_v.Plans.{
  delay_bucket, throughput_bucket, sfc_template, plan_signature, AbstractPlan, same_template,
  grafted, instantiate_plan,
}

-- Two amounts lie on one side of each of these thresholds.
abbrev pub SameSide : List ℕ → ℤ → ℤ → Type 0
SameSide hs a b = All (λ h. ltb_ℤ a (pos h) ≡ ltb_ℤ b (pos h)) hs

abbrev pub delay_thresholds : List ℕ
delay_thresholds = 5 ∷ 10 ∷ 20 ∷ 50 ∷ 100 ∷ []

abbrev pub rate_thresholds : List ℕ
rate_thresholds = 10 ∷ 50 ∷ 100 ∷ 250 ∷ 500 ∷ []

delay_bucket_iff :
    (a b : QosRequirements)
    → (delay_bucket a ≡ delay_bucket b) ↔ SameSide delay_thresholds a.max_e2e_delay b.max_e2e_delay
unfolding delay_bucket
delay_bucket_iff a b = (λ h. ground arith, λ h. ground arith)

throughput_bucket_iff :
    (a b : QosRequirements)
    → (throughput_bucket a ≡ throughput_bucket b)
      ↔ SameSide rate_thresholds a.min_throughput b.min_throughput
unfolding throughput_bucket
throughput_bucket_iff a b = (λ h. ground arith, λ h. ground arith)

-- Two requests have one plan signature exactly when their slice types and their chains of VNF types
-- are the same, their delay bounds lie on one side of each of 5, 10, 20, 50 and 100 ms, and their rates
-- on one side of each of 10, 50, 100, 250 and 500 Mbps.
pub plan_signature_iff :
    (a b : SliceRequest)
    → (plan_signature a ≡ plan_signature b) ↔ (
        (a.slice_type ≡ b.slice_type)
        × SameSide delay_thresholds a.qos.max_e2e_delay b.qos.max_e2e_delay
        × SameSide rate_thresholds a.qos.min_throughput b.qos.min_throughput
        × (sfc_template a ≡ sfc_template b))
unfolding plan_signature
plan_signature_iff a b = (
  λ h. (
    ap (λ t. t.0) h,
    (delay_bucket_iff a.qos b.qos).0 (ap (λ t. t.1) h),
    (throughput_bucket_iff a.qos b.qos).0 (ap (λ t. t.2) h),
    ap (λ t. t.3) h,
  ),
  λ h.
      cc
        (h.0, (delay_bucket_iff a.qos b.qos).1 h.1, (throughput_bucket_iff a.qos b.qos).1 h.2, h.3),
)

same_template_iff : (xs ys : List Ident) → (same_template xs ys ≡ true) ↔ (xs ≡ ys)
same_template_iff [] [] = (λ _. refl, λ _. refl)
same_template_iff [] (y ∷ ys) = (λ h. cc, λ h. cc)
same_template_iff (x ∷ xs) [] = (λ h. cc, λ h. cc)
same_template_iff (x ∷ xs) (y ∷ ys) =
    (λ h. ground (arith, same_template_iff xs ys), λ h. ground (arith, same_template_iff xs ys))

-- A plan that was stored for one request can be instantiated for every request of the same signature:
-- the call does not raise, and the plan it gives has the stored tiers and domains.
pub instantiate_plan-plan_signature :
    (abstract : AbstractPlan) (a b : SliceRequest)
    → abstract.sfc_template ≡ sfc_template a
    → plan_signature a ≡ plan_signature b
    → instantiate_plan abstract b ≡ ok (grafted abstract b)
unfolding instantiate_plan sfc_template
instantiate_plan-plan_signature abstract a b stored same =
    let types = ((plan_signature_iff a b).0 same).3 in
    let fits : same_template (map (λ v. v.vnf_type) b.vnfs) abstract.sfc_template ≡ true =
      (same_template_iff _ _).1 (sym (stored ∙ types)) in
    rw fits refl
