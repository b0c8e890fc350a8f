-- ===== src/Acceptance.antt =====
-- sim/acceptance.py: the acceptance ratio and the breakdown of the rejections. The rounded dict of
-- `to_dict` is left out.
pub mod Conserved
mod Tests
use orion_v.Prelude.{
  ℕ, ◌+◌, ℤ, pos, List, [], ◌∷◌, map, Bool, true, false, Option, none, some, ◌==◌, if◌then◌else◌,
  ◌≡◌, refl, ap, ◌∙◌, sym, ◌↔◌, ==_iff, arith,
}
use orion_v.Prelude.Dict.{Dict, Eq, get_or, put, nat_eq}
use orion_v.Prelude.Fail.{Result, ok, err, value_error}
use orion_v.Prelude.Fraction.{Fraction, whole}
use orion_v.Types.Mdo.{ViolationInfo}
use orion_v.Verifier.{Code, c2, c3, c5b, c7, has_code}
use orion_v.Episode.Runner.{
  Outcome, Revocation, by_verifier, plan_build, PartitionDecision, is_admitted, EpisodeStats,
  Episode,
}

-- `REJECT_BINS`
pub data RejectBin : Type 0 where
  structural chain_order actor_infeasible cross_domain_infeasible c5b_bandwidth : RejectBin
  c7_delay c9_hops qos_gate post_commit_c2_cpu : RejectBin
  post_commit_c3_ram post_commit_c5b_bandwidth post_commit_c7_delay post_commit_plan_build
        unattributed :
      RejectBin

abbrev pub reject_bins : List RejectBin
reject_bins =
    structural ∷ chain_order ∷ actor_infeasible ∷ cross_domain_infeasible ∷ c5b_bandwidth ∷ c7_delay
    ∷ c9_hops ∷ qos_gate ∷ post_commit_c2_cpu ∷ post_commit_c3_ram ∷ post_commit_c5b_bandwidth
    ∷ post_commit_c7_delay ∷ post_commit_plan_build ∷ unattributed ∷ []

abbrev pub bin_rank : RejectBin → ℕ
bin_rank structural = 0
bin_rank chain_order = 1
bin_rank actor_infeasible = 2
bin_rank cross_domain_infeasible = 3
bin_rank c5b_bandwidth = 4
bin_rank c7_delay = 5
bin_rank c9_hops = 6
bin_rank qos_gate = 7
bin_rank post_commit_c2_cpu = 8
bin_rank post_commit_c3_ram = 9
bin_rank post_commit_c5b_bandwidth = 10
bin_rank post_commit_c7_delay = 11
bin_rank post_commit_plan_build = 12
bin_rank unattributed = 13

-- The bin of each place in the list.
abbrev bin_at : ℕ → RejectBin
bin_at n = nth n reject_bins
  where
    nth : ℕ → List RejectBin → RejectBin
    nth n [] = unattributed
    nth Prim.Native.Nat.zero (b ∷ bs) = b
    nth (Prim.Native.Nat.suc n) (b ∷ bs) = nth n bs

bin_at-rank : (b : RejectBin) → bin_at (bin_rank b) ≡ b
bin_at-rank structural = refl
bin_at-rank chain_order = refl
bin_at-rank actor_infeasible = refl
bin_at-rank cross_domain_infeasible = refl
bin_at-rank c5b_bandwidth = refl
bin_at-rank c7_delay = refl
bin_at-rank c9_hops = refl
bin_at-rank qos_gate = refl
bin_at-rank post_commit_c2_cpu = refl
bin_at-rank post_commit_c3_ram = refl
bin_at-rank post_commit_c5b_bandwidth = refl
bin_at-rank post_commit_c7_delay = refl
bin_at-rank post_commit_plan_build = refl
bin_at-rank unattributed = refl

abbrev pub bin_beq : RejectBin → RejectBin → Bool
bin_beq a b = bin_rank a == bin_rank b

pub bin_beq_iff : (a b : RejectBin) → (bin_beq a b ≡ true) ↔ (a ≡ b)
bin_beq_iff a b = (
  λ h. sym (bin_at-rank a) ∙ ap bin_at ((==_iff _ _).0 h) ∙ bin_at-rank b,
  λ e. (==_iff _ _).1 (ap bin_rank e),
)

instance abbrev pub bin_eq : Eq RejectBin
bin_eq = record { beq = bin_beq; beq_iff = bin_beq_iff }

pub record AcceptanceReport : Type 0 where
  pub admitted : ℕ
  pub offered : ℕ
  pub rejections : Dict RejectBin ℕ

-- `AcceptanceReport.acceptance`
pub acceptance : AcceptanceReport → Fraction
acceptance r =
    if r.offered == 0 then whole (pos 0) else record { num = pos r.admitted; den = r.offered }

-- `sum(self.rejections.values())`
abbrev pub sum_counts : Dict RejectBin ℕ → ℕ
sum_counts [] = 0
sum_counts ((_, n) ∷ d) = n + sum_counts d

unfoldable pub check_conservation : AcceptanceReport → Result (Unit {0})
check_conservation r =
    if r.admitted + sum_counts r.rejections == r.offered then ok tt else err value_error

-- The first code of `_POST_COMMIT_BINS` that is among the verifier's.
abbrev pub post_commit_bin : List Code → RejectBin
post_commit_bin codes =
    if has_code c2 codes
    then post_commit_c2_cpu
    else if has_code c3 codes
    then post_commit_c3_ram
    else if has_code c5b codes
    then post_commit_c5b_bandwidth
    else if has_code c7 codes
    then post_commit_c7_delay
    else unattributed

abbrev pub violation_bin : ViolationInfo → RejectBin
violation_bin v =
    if v.chain_order_violated
    then chain_order
    else if v.actor_infeasible
    then actor_infeasible
    else if v.cross_domain_infeasible
    then cross_domain_infeasible
    else if v.c5b_violated
    then c5b_bandwidth
    else if v.c7_violated
    then c7_delay
    else if v.c9_violated
    then c9_hops
    else unattributed

-- A decision without a violation is not attributed.
abbrev pub decision_bin : Option PartitionDecision → RejectBin
decision_bin none = unattributed
decision_bin (some d) = elim d.violation [ none ↦ unattributed | some v ↦ violation_bin v ]

-- `_classify`: an empty list of codes counts as none.
abbrev pub revocation_bin : Option Revocation → Option PartitionDecision → RejectBin
revocation_bin none d = decision_bin d
revocation_bin (some plan_build) d = post_commit_plan_build
revocation_bin (some (by_verifier [])) d = decision_bin d
revocation_bin (some (by_verifier (c ∷ cs))) d = post_commit_bin (c ∷ cs)

unfoldable pub classify : Outcome → RejectBin
classify o = revocation_bin o.revoked_by o.decision

-- `rejections[_classify(result)] += 1` for each rejected result
unfoldable pub count_rejections : List Outcome → Dict RejectBin ℕ → Dict RejectBin ℕ
unfolding classify
count_rejections [] d = d
count_rejections (o ∷ os) d =
    count_rejections os
      (if is_admitted o then d else put (classify o) (get_or (classify o) 0 d + 1) d)

abbrev pub no_rejections : Dict RejectBin ℕ
no_rejections = map (λ b. (b, 0)) reject_bins

unfoldable pub build_report : EpisodeStats → List Outcome → ℕ → AcceptanceReport
unfolding count_rejections
build_report stats mdo_results qos_rejections = record {
  admitted = stats.admitted;
  offered = stats.total_arrivals;
  rejections =
      count_rejections mdo_results
        (put qos_gate qos_rejections (put structural stats.rejected_structural no_rejections));
}
