-- ===== src/Episode/Books.antt =====
-- episode_runner.py: the counters of an episode, through the handling of one event.
use orion_v.Prelude.{
  ℕ, ℤ, ◌+◌, ◌≡◌, ap, sym, subst, inl, inr, List, [], ◌∷◌, ◌++◌, true, false, Option, none, some,
  arith, length, length-append, Bool-cases, Option-cases, if◌then◌else◌,
}
use orion_v.Prelude.Dict.{nat_eq, get, put, del}
use orion_v.Prelude.Fail.{ok, Result-cases}
use orion_v.Types.{Ident, PlacementPlan, SliceRequest}
use orion_v.Types.Mdo.{PlanSummary}
use orion_v.Substrate.{SubstrateNetwork, allocate, deallocate}
use orion_v.Coordinator.Contract.{NoRepeat}
use orion_v.Substrate.Roundtrip.{deallocate-allocate}
use orion_v.Verifier.{GroundTruthVerdict, hard_penalty_fired, verify_committed_plan}
use orion_v.Ffd.{compute_cost_greedy}
use orion_v.Sim.{finalize_reward}
use orion_v.Sim.Arrivals.{ArrivalProcess}
use orion_v.Episode.{build_placement_plan}
use orion_v.Episode.Runner.{
  Outcome, is_admitted, Episode, counted, update_stats, handle_departure, Setup,
  allocate_and_verify, realise, is_commit, record_outcome, settle, decide, handle_arrival,
}
use orion_v.Episode.Mirror.{
  IsMirrored, IsMirrored-allocate, IsMirrored-deallocate, IsMirrored-unknown, not_half,
}

-- The outcomes that are admissions.
abbrev pub count_admitted : List Outcome → ℕ
count_admitted [] = 0
count_admitted (o ∷ os) = (if is_admitted o then 1 else 0) + count_admitted os

-- The state of an episode in which `pending` arrivals are not counted yet as admitted or rejected, and
-- `opened` of them are allocated.
pub record IsSound (stream : ArrivalProcess) (offered pending opened : ℕ) (e : Episode)
    : Type 0 where
  pub still : e.arrivals ≡ stream
  pub total : e.stats.total_arrivals ≡ offered
  pub mirrored : IsMirrored e.substrate e.active_plans e.active_requests
  pub conserved :
      e.stats.total_arrivals
      ≡ e.stats.admitted + e.stats.rejected_by_mdo + e.stats.rejected_structural + pending
  pub judged : length e.mdo_results ≡ e.stats.admitted + e.stats.rejected_by_mdo
  pub admissions : count_admitted e.mdo_results ≡ e.stats.admitted
  pub active : e.stats.admitted + opened ≡ e.stats.departures + length e.substrate.active_slices

-- What the event loop needs of the coordinator, for a request whose flows do not repeat: it leaves the
-- network as it found it; and an admission comes with its partition.
pub record IsCareful (c : Setup) : Type 0 where
  pub keeps :
      (req : SliceRequest) (plan : PlanSummary) (cost : Option ℤ) (s s' : SubstrateNetwork)
      (o : Outcome)
      → NoRepeat req.flow_edges
      → c.resolve_arrival req plan cost s ≡ (ok o, s')
      → s' ≡ s
  pub commits :
      (req : SliceRequest) (plan : PlanSummary) (cost : Option ℤ) (s s' : SubstrateNetwork)
      (o : Outcome)
      → c.resolve_arrival req plan cost s ≡ (ok o, s')
      → is_admitted o ≡ true
      → is_commit c o ≡ true

abbrev pub opened_by : Outcome → ℕ
opened_by o = if is_admitted o then 1 else 0

module _ (a : ArrivalProcess) (n : ℕ) where
  pub handle_departure-IsSound :
      (id : Ident) (e e' : Episode)
      → IsSound a n 0 0 e
      → handle_departure id e ≡ (ok tt, e')
      → IsSound a n 0 0 e'
  unfolding handle_departure
  handle_departure-IsSound id e e' s h = elim (Option-cases (get id e.active_plans)) [
    | inl f ↦
        let out : record e {
          active_plans = del id e.active_plans;
          active_requests = del id e.active_requests;
        }
            ≡ e' =
          ground arith in
        subst (IsSound a n 0 0) out (record {
          still = s.still;
          total = s.total;
          mirrored =
              IsMirrored-unknown e.substrate e.substrate e.active_plans e.active_requests s.mirrored
                id f;
          conserved = s.conserved;
          judged = s.judged;
          admissions = s.admissions;
          active = s.active;
        })
    | inr (plan, f) ↦ elim (Option-cases (get id e.active_requests)) [
      | inl f' ↦ absurd (
          not_half e.substrate e.substrate e.active_plans e.active_requests s.mirrored id plan f f')
      | inr (req, f') ↦ elim (Result-cases (deallocate plan req e.substrate).0) [
        | inr (x, r) ↦ absurd (ground arith)
        | inl (u, r) ↦
            let s1 = (deallocate plan req e.substrate).1 in
            let gone : deallocate plan req e.substrate ≡ (ok tt, s1) = ap (λ t. (t, s1)) r in
            let out : record e {
              active_plans = del id e.active_plans;
              active_requests = del id e.active_requests;
              substrate = s1;
              stats = record e.stats { departures = e.stats.departures + 1 };
            }
                ≡ e' =
              ground arith in
            let (mirror, one_less) =
              IsMirrored-deallocate e.substrate s1 e.active_plans e.active_requests s.mirrored id
                plan req f f' gone in
            subst (IsSound a n 0 0) out (record {
              still = s.still;
              total = s.total;
              mirrored = mirror;
              conserved = s.conserved;
              judged = s.judged;
              admissions = s.admissions;
              active = omega (arith, s.active, one_less);
            })
      ]
    ]
  ]

  module _ (c : Setup) where
    -- A plan that is allocated stays allocated exactly if the outcome is still an admission.
    allocate_and_verify-IsSound :
        (req : SliceRequest) (plan : PlacementPlan) (o o' : Outcome) (v : Option GroundTruthVerdict)
        (e e' : Episode)
        → is_admitted o ≡ true
        → IsSound a n 1 0 e
        → allocate_and_verify c req plan o e ≡ (ok (o', v), e')
        → IsSound a n 1 (opened_by o') e'
    unfolding allocate_and_verify
    allocate_and_verify-IsSound req plan o o' v e e' adm s h =
        elim (Result-cases (allocate plan req e.substrate).0) [
          | inr (x, r) ↦ absurd (ground arith)
          | inl (u, r) ↦
              let s1 = (allocate plan req e.substrate).1 in
              let placed : allocate plan req e.substrate ≡ (ok tt, s1) = ap (λ t. (t, s1)) r in
              elim (Result-cases
                (verify_committed_plan c.scale s1 plan req c.max_inter_domain_hops)) [
                  | inr (x, k) ↦ absurd (ground arith)
                  | inl (verdict, k) ↦ elim (Bool-cases (hard_penalty_fired verdict)) [
                    | inl fired ↦
                        let back = deallocate-allocate plan req e.substrate s1 placed in
                        let opened : opened_by o' ≡ 0 = ground (arith, back) in
                        let out : record e {
                          stats = record e.stats {
                            hard_penalty_fires = e.stats.hard_penalty_fires + 1;
                          };
                        }
                            ≡ e' =
                          ground (arith, back) in
                        subst (λ k. IsSound a n 1 k e') (sym opened)
                          (subst (IsSound a n 1 0) out (record {
                            still = s.still;
                            total = s.total;
                            mirrored = s.mirrored;
                            conserved = s.conserved;
                            judged = s.judged;
                            admissions = s.admissions;
                            active = s.active;
                          }))
                    | inr spared ↦
                        let (mirror, one_more) =
                          IsMirrored-allocate e.substrate s1 e.active_plans e.active_requests
                            s.mirrored plan req placed in
                        let opened : opened_by o' ≡ 1 = ground (arith, adm) in
                        let out : record e {
                          substrate = s1;
                          active_plans = put req.request_id plan e.active_plans;
                          active_requests = put req.request_id req e.active_requests;
                        }
                            ≡ e' =
                          ground arith in
                        subst (λ k. IsSound a n 1 k e') (sym opened)
                          (subst (IsSound a n 1 1) out (record {
                            still = s.still;
                            total = s.total;
                            mirrored = mirror;
                            conserved = s.conserved;
                            judged = s.judged;
                            admissions = s.admissions;
                            active = omega (arith, s.active, one_more);
                          }))
                  ]
                ]
        ]

    realise-IsSound :
        (req : SliceRequest) (o o' : Outcome) (v : Option GroundTruthVerdict) (e e' : Episode)
        → is_admitted o ≡ true
        → IsSound a n 1 0 e
        → realise c req o e ≡ (ok (o', v), e')
        → IsSound a n 1 (opened_by o') e'
    unfolding realise
    realise-IsSound req o o' v e e' adm s h = elim (Result-cases (build_placement_plan req o.mdo)) [
      | inr (x, r) ↦ absurd (ground arith)
      | inl (none, r) ↦
          let opened : opened_by o' ≡ 0 = ground arith in
          let out : record e {
            stats = record e.stats { plan_build_failures = e.stats.plan_build_failures + 1 };
          }
              ≡ e' =
            ground arith in
          subst (λ k. IsSound a n 1 k e') (sym opened)
            (subst (IsSound a n 1 0) out (record {
              still = s.still;
              total = s.total;
              mirrored = s.mirrored;
              conserved = s.conserved;
              judged = s.judged;
              admissions = s.admissions;
              active = s.active;
            }))
      | inl (some plan, r) ↦ allocate_and_verify-IsSound req plan o o' v e e' adm s (ground arith)
    ]

    count_admitted-snoc :
        (os : List Outcome) (o : Outcome)
        → count_admitted (os ++ o ∷ []) ≡ count_admitted os + opened_by o
    count_admitted-snoc [] o = omega arith
    count_admitted-snoc (x ∷ os) o = omega (arith, count_admitted-snoc os o)

    record_outcome-IsSound :
        (req : SliceRequest) (plan : PlanSummary) (o : Outcome) (v : Option GroundTruthVerdict)
        (e : Episode)
        → IsSound a n 1 (opened_by o) e
        → IsSound a n 0 0 (record_outcome c req plan (o, v) e)
    unfolding record_outcome update_stats
    record_outcome-IsSound req plan o v e s =
        let o' = record o {
          reward = (finalize_reward o.reward (is_admitted o) v c.reward_weights).1;
        } in
        let more = count_admitted-snoc e.mdo_results o' in
        let longer = length-append e.mdo_results (o' ∷ []) in
        elim (Bool-cases (is_admitted o)) [
          | inl admitted ↦ record {
            still = s.still;
            total = ground (arith, s.total);
            mirrored = s.mirrored;
            conserved = ground arith;
            judged = ground (arith, longer);
            admissions = ground (arith, more);
            active = ground arith;
          }
          | inr rejected ↦ record {
            still = s.still;
            total = ground (arith, s.total);
            mirrored = s.mirrored;
            conserved = ground arith;
            judged = ground (arith, longer);
            admissions = ground (arith, more);
            active = ground arith;
          }
        ]

    refused-IsSound :
        (o : Outcome) (e : Episode)
        → is_commit c o ≡ false
        → (is_admitted o ≡ true → is_commit c o ≡ true)
        → IsSound a n 1 0 e
        → IsSound a n 1 (opened_by o) e
    refused-IsSound o e no_commit commits s = elim (Bool-cases (is_admitted o)) [
      | inl adm ↦ absurd (cc (no_commit, commits adm))
      | inr not_adm ↦ rw not_adm s
    ]

    settle-IsSound :
        (req : SliceRequest) (plan : PlanSummary) (o : Outcome) (e e' : Episode)
        → (is_admitted o ≡ true → is_commit c o ≡ true)
        → IsSound a n 1 0 e
        → settle c req plan o e ≡ (ok tt, e')
        → IsSound a n 0 0 e'
    unfolding settle
    settle-IsSound req plan o e e' commits s h = elim (Bool-cases (is_commit c o)) [
      | inl commit ↦ elim (Result-cases (realise c req o e).0) [
        | inr (x, q) ↦ absurd (ground arith)
        | inl ((o', v), q) ↦
            let e1 = (realise c req o e).1 in
            let realised : realise c req o e ≡ (ok (o', v), e1) = ap (λ t. (t, e1)) q in
            let sound = realise-IsSound req o o' v e e1 (ground arith) s realised in
            let out : record_outcome c req plan (o', v) e1 ≡ e' = ground arith in
            subst (IsSound a n 0 0) out (record_outcome-IsSound req plan o' v e1 sound)
      ]
      | inr reject ↦
          let out : record_outcome c req plan (o, none) e ≡ e' = ground arith in
          subst (IsSound a n 0 0) out
            (record_outcome-IsSound req plan o none e (refused-IsSound o e reject commits s))
    ]

    -- What a decision that does not raise has gone through.
    decide-eq-ok :
        (req : SliceRequest) (plan : PlanSummary) (e e' : Episode)
        → decide c req plan e ≡ (ok tt, e')
        → (cost : Option ℤ) × (o : Outcome) × (s1 : SubstrateNetwork) × (c.resolve_arrival req plan
              cost e.substrate
            ≡ (ok o, s1))
          × (settle c req plan o (record e { substrate = s1 }) ≡ (ok tt, e'))
    unfolding decide
    decide-eq-ok req plan e e' h =
        elim (Result-cases (compute_cost_greedy c.shortest_path e.substrate req c.greedy)) [
          | inr (x, r) ↦ absurd (ground arith)
          | inl (cost, r) ↦ elim (Result-cases (c.resolve_arrival req plan cost e.substrate).0) [
            | inr (x, k) ↦ absurd (ground arith)
            | inl (o, k) ↦
                let s1 = (c.resolve_arrival req plan cost e.substrate).1 in
                (cost, o, s1, ap (λ t. (t, s1)) k, ground arith)
          ]
        ]

    module _ (careful : IsCareful c) where
      decide-IsSound :
          (req : SliceRequest) (plan : PlanSummary) (e e' : Episode)
          → NoRepeat req.flow_edges
          → IsSound a n 1 0 e
          → decide c req plan e ≡ (ok tt, e')
          → IsSound a n 0 0 e'
      decide-IsSound req plan e e' nr s h =
          let (cost, o, s1, done, rest) = decide-eq-ok req plan e e' h in
          let same = careful.keeps req plan cost e.substrate s1 o nr done in
          settle-IsSound req plan o (record e { substrate = s1 }) e'
            (careful.commits req plan cost e.substrate s1 o done)
            (subst (λ t. IsSound a n 1 0 (record e { substrate = t })) (sym same) s) rest

pub handle_arrival-IsSound :
    (c : Setup) (careful : IsCareful c) (a : ArrivalProcess) (n : ℕ) (req : SliceRequest)
    (e e' : Episode)
    → NoRepeat req.flow_edges
    → IsSound a n 0 0 e
    → handle_arrival c req e ≡ (ok tt, e')
    → IsSound a (n + 1) 0 0 e'
unfolding handle_arrival
handle_arrival-IsSound c careful a n req e e' nr s h =
    let e1 = record e {
      stats = record e.stats {
        total_arrivals = e.stats.total_arrivals + 1;
        per_slice_type_total = counted req.slice_type e.stats.per_slice_type_total;
      };
    } in
    let pending : IsSound a (n + 1) 1 0 e1 = record {
      still = s.still;
      total = ap (λ t. t + 1) s.total;
      mirrored = s.mirrored;
      conserved = omega (arith, s.conserved);
      judged = s.judged;
      admissions = s.admissions;
      active = s.active;
    } in
    elim (Option-cases (c.plan_builder req e.substrate)) [
      | inr (plan, r) ↦ decide-IsSound a (n + 1) c careful req plan e1 e' nr pending (ground arith)
      | inl r ↦
          let out : record e1 {
            stats = record e1.stats { rejected_structural = e.stats.rejected_structural + 1 };
          }
              ≡ e' =
            ground arith in
          subst (IsSound a (n + 1) 0 0) out (record {
            still = s.still;
            total = ap (λ t. t + 1) s.total;
            mirrored = s.mirrored;
            conserved = omega (arith, s.conserved);
            judged = s.judged;
            admissions = s.admissions;
            active = s.active;
          })
    ]
