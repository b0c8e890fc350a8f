-- ===== src/Episode/Runner.antt =====
-- sim/episode_runner.py: EpisodeRunner, its state with that of one episode. The coordinator's
-- `resolve_arrival` (with its policy) and the plan builder are arguments, and the callbacks are None.
-- An outcome is appended to `mdo_results` once it is final: the code appends the object before and
-- changes it after. The trace and the profiling are left out.
use orion_v.Prelude.{
  ℕ, zero, suc, ◌+◌, ℤ, pos, ◌+ℤ◌, List, [], ◌∷◌, ◌++◌, Bool, true, false, Option, none, some,
  if◌then◌else◌, ◌==◌, ◌≡◌, ◌↔◌, arith,
}
use orion_v.Prelude.Dict.{Dict, Eq, nat_eq, get, get_or, put, del}
use orion_v.Prelude.Fail.{
  Result, ok, err, assertion_error, Action, pure, raise, ◌>>=◌, ◌>>◌, modify,
}
use orion_v.Prelude.Fraction.{Fraction, whole}
use orion_v.Types.{Ident, Link, SliceType, embb, urllc, mmtc, v2x, xr, SliceRequest, PlacementPlan}
use orion_v.Types.Mdo.{DomainResponse, PlanSummary, ViolationInfo, RewardComponents}
use orion_v.Substrate.{Graph, SubstrateNetwork, allocate, deallocate, reset}
use orion_v.Delay.{Scale}
use orion_v.Verifier.{Code, GroundTruthVerdict, hard_penalty_fired, verify_committed_plan}
use orion_v.Ffd.{GreedyConfig, compute_cost_greedy}
use orion_v.Coordinator.Resolve.{MdoResult}
use orion_v.Sim.{RewardWeights, finalize_reward}
use orion_v.Sim.Rollout.{MultiAgentRollout, empty_rollout, append_mdo, append_domain_actor}
use orion_v.Sim.Arrivals.{
  ArrivalProcess, SimEvent, arrival, departure, has_next, next_event, num_remaining, restart,
}
use orion_v.Episode.{build_placement_plan}

abbrev pub slice_type_beq : SliceType → SliceType → Bool
slice_type_beq embb embb = true
slice_type_beq urllc urllc = true
slice_type_beq mmtc mmtc = true
slice_type_beq v2x v2x = true
slice_type_beq xr xr = true
slice_type_beq _ _ = false

pub slice_type_beq_iff : (a b : SliceType) → (slice_type_beq a b ≡ true) ↔ (a ≡ b)
slice_type_beq_iff a b = (λ h. ground arith, λ h. ground arith)

instance abbrev pub slice_type_eq : Eq SliceType
slice_type_eq = record { beq = slice_type_beq; beq_iff = slice_type_beq_iff }

-- `PartitionDecision`, without its tensors.
pub record PartitionDecision : Type 0 where
  pub partition : List ℕ
  pub domain_responses : Dict ℕ DomainResponse
  pub violation : Option ViolationInfo
  pub e2e_delay : ℤ
  pub total_cost : ℤ

-- Why a committed admission was revoked: the verifier's codes, or "PLAN_BUILD".
pub data Revocation : Type 0 where
  by_verifier : List Code → Revocation
  plan_build : Revocation

-- An `MDOResult` with its reward, its decision and the revocation.
pub record Outcome : Type 0 where
  pub mdo : MdoResult
  pub decision : Option PartitionDecision
  pub reward : RewardComponents
  pub revoked_by : Option Revocation

abbrev pub is_admitted : Outcome → Bool
is_admitted o = o.mdo.admitted

-- `admitted = False` and the reason.
abbrev pub revoke : Revocation → Outcome → Outcome
revoke r o = record o { mdo = record o.mdo { admitted = false }; revoked_by = some r }

pub record EpisodeStats : Type 0 where
  pub total_arrivals : ℕ
  pub admitted : ℕ
  pub rejected_by_mdo : ℕ
  pub rejected_structural : ℕ
  pub departures : ℕ
  pub hard_penalty_fires : ℕ
  pub plan_build_failures : ℕ
  pub cumulative_reward : ℤ
  pub per_slice_type_admitted : Dict SliceType ℕ
  pub per_slice_type_total : Dict SliceType ℕ

abbrev pub no_stats : EpisodeStats
no_stats = record {
  total_arrivals = 0;
  admitted = 0;
  rejected_by_mdo = 0;
  rejected_structural = 0;
  departures = 0;
  hard_penalty_fires = 0;
  plan_build_failures = 0;
  cumulative_reward = pos 0;
  per_slice_type_admitted = [];
  per_slice_type_total = [];
}

pub admission_rate : EpisodeStats → Fraction
admission_rate st =
    if st.total_arrivals == 0
    then whole (pos 0)
    else record { num = pos st.admitted; den = st.total_arrivals }

pub record Episode : Type 0 where
  pub substrate : SubstrateNetwork
  pub arrivals : ArrivalProcess
  pub active_plans : Dict Ident PlacementPlan
  pub active_requests : Dict Ident SliceRequest
  pub stats : EpisodeStats
  pub rollout : MultiAgentRollout
  pub mdo_results : List Outcome

-- `EpisodeRunner.reset`
unfoldable pub reset_runner : Episode → Episode
unfolding restart reset
reset_runner e = record e {
  substrate = reset e.substrate;
  arrivals = restart e.arrivals;
  active_plans = [];
  active_requests = [];
}

abbrev pub on_substrate : {A : Type 0} → Action SubstrateNetwork A → Action Episode A
on_substrate m e = let (r, s) = m e.substrate in (r, record e { substrate = s })

abbrev pub on_arrivals : {A : Type 0} → Action ArrivalProcess A → Action Episode A
on_arrivals m e = let (r, p) = m e.arrivals in (r, record e { arrivals = p })

abbrev pub of_state : {A : Type 0} → (Episode → Result A) → Action Episode A
of_state f e = (f e, e)

abbrev pub on_stats : (EpisodeStats → EpisodeStats) → Action Episode (Unit {0})
on_stats f = modify (λ e. record e { stats = f e.stats })

abbrev pub counted : SliceType → Dict SliceType ℕ → Dict SliceType ℕ
counted t d = put t (get_or t 0 d + 1) d

-- `_update_stats`
unfoldable pub update_stats : SliceRequest → Outcome → ℤ → EpisodeStats → EpisodeStats
update_stats slice_req o final_reward st =
    let st' = record st { cumulative_reward = st.cumulative_reward +ℤ final_reward } in
    if is_admitted o
    then record st' {
      admitted = st.admitted + 1;
      per_slice_type_admitted = counted slice_req.slice_type st.per_slice_type_admitted;
    }
    else record st' { rejected_by_mdo = st.rejected_by_mdo + 1 }

abbrev pub append_responses :
    Ident → ℤ → Dict ℕ DomainResponse → MultiAgentRollout → MultiAgentRollout
append_responses id reward [] r = r
append_responses id reward ((d, a) ∷ rest) r = append_responses id reward rest (
    append_domain_actor
      (record {
        request_id = id;
        trial_index = 0;
        domain_id = d;
        accepted = a.feasible;
        intra_delay = a.intra_delay;
        resource_cost = a.resource_cost;
        terminal_reward = reward;
      })
      r)

-- `_append_rollout`
unfoldable pub append_rollout :
    SliceRequest → Outcome → ℤ → PlanSummary → MultiAgentRollout → MultiAgentRollout
unfolding append_mdo append_domain_actor
append_rollout slice_req o reward plan r = elim o.decision [
  | none ↦ r
  | some d ↦ append_responses slice_req.request_id reward d.domain_responses (
      append_mdo
        (record {
          request_id = slice_req.request_id;
          trial_index = 0;
          action = d.partition;
          terminal_reward = reward;
          committed = true;
          e2e_delay = d.e2e_delay;
          cost = d.total_cost;
          suggested = plan.suggested_domains;
        })
        r)
]

-- `_handle_departure`
unfoldable pub handle_departure : Ident → Action Episode (Unit {0})
unfolding deallocate
handle_departure id e =
    let e' = record e {
      active_plans = del id e.active_plans;
      active_requests = del id e.active_requests;
    } in
    elim (get id e.active_plans) [
      | none ↦ (ok tt, e')
      | some plan ↦ elim (get id e.active_requests) [
        | none ↦ (ok tt, e')
        | some request ↦
            let (r, s) = deallocate plan request e.substrate in
            elim r [
              | err x ↦ (err x, record e' { substrate = s })
              | ok _ ↦ (
                ok tt,
                record e' {
                  substrate = s;
                  stats = record e.stats { departures = e.stats.departures + 1 };
                },
              )
            ]
      ]
    ]

-- What the episode is run with.
pub record Setup : Type 0 where
  pub plan_builder : SliceRequest → SubstrateNetwork → Option PlanSummary
  pub resolve_arrival : SliceRequest → PlanSummary → Option ℤ → Action SubstrateNetwork Outcome
  pub shortest_path : (Link → Bool) → Graph → Ident → Ident → Option (List Ident)
  pub greedy : GreedyConfig
  pub scale : Scale
  pub max_inter_domain_hops : ℕ
  pub reward_weights : RewardWeights

abbrev pub begin : Episode → Episode
begin e = record e { stats = no_stats; rollout = empty_rollout; mdo_results = [] }

module _ (c : Setup) where
  -- The hard penalty takes the allocation back.
  abbrev pub take_back :
      SliceRequest
      → PlacementPlan
      → Outcome
      → GroundTruthVerdict
      → Action Episode (Outcome × Option GroundTruthVerdict)
  take_back slice_req plan o verdict = do
    on_stats (λ st. record st { hard_penalty_fires = st.hard_penalty_fires + 1 })
    on_substrate (deallocate plan slice_req)
    pure (revoke (by_verifier verdict.violated) o, some verdict)

  -- The entries of an admitted slice in the registers.
  abbrev pub track :
      SliceRequest
      → PlacementPlan
      → Outcome
      → GroundTruthVerdict
      → Action Episode (Outcome × Option GroundTruthVerdict)
  track slice_req plan o verdict = do
    modify (λ e. record e {
      active_plans = put slice_req.request_id plan e.active_plans;
      active_requests = put slice_req.request_id slice_req e.active_requests;
    })
    pure (o, some verdict)

  -- A plan is allocated and verified.
  unfoldable pub allocate_and_verify :
      SliceRequest → PlacementPlan → Outcome → Action Episode (Outcome × Option GroundTruthVerdict)
  unfolding verify_committed_plan hard_penalty_fired deallocate allocate
  allocate_and_verify slice_req plan o = do
    on_substrate (allocate plan slice_req)
    verdict ←
        of_state
          (λ e. verify_committed_plan c.scale e.substrate plan slice_req c.max_inter_domain_hops)
    if hard_penalty_fired verdict
        then take_back slice_req plan o verdict
        else track slice_req plan o verdict

  -- A commit with no plan to realise it.
  abbrev pub unrealised : Outcome → Action Episode (Outcome × Option GroundTruthVerdict)
  unrealised o = do
    on_stats (λ st. record st { plan_build_failures = st.plan_build_failures + 1 })
    pure (revoke plan_build o, none)

  unfoldable pub realise :
      SliceRequest → Outcome → Action Episode (Outcome × Option GroundTruthVerdict)
  unfolding build_placement_plan allocate_and_verify
  realise slice_req o = do
    built ← of_state (λ e. build_placement_plan slice_req o.mdo)
    elim built [ none ↦ unrealised o | some plan ↦ allocate_and_verify slice_req plan o ]

  abbrev pub is_commit : Outcome → Bool
  is_commit o = elim o.mdo.partition [ none ↦ false | some _ ↦ is_admitted o ]

  -- The outcome is final: the reward, the counters and the rollout.
  unfoldable pub record_outcome :
      SliceRequest → PlanSummary → Outcome × Option GroundTruthVerdict → Episode → Episode
  unfolding finalize_reward update_stats append_rollout
  record_outcome slice_req plan (o, verdict) e =
      let (final_reward, components) =
        finalize_reward o.reward (is_admitted o) verdict c.reward_weights in
      let o' = record o { reward = components } in
      record e {
        stats = update_stats slice_req o' final_reward e.stats;
        rollout = append_rollout slice_req o' final_reward plan e.rollout;
        mdo_results = e.mdo_results ++ o' ∷ [];
      }

  -- `_handle_arrival`, from the coordinator's outcome on
  unfoldable pub settle : SliceRequest → PlanSummary → Outcome → Action Episode (Unit {0})
  unfolding realise record_outcome
  settle slice_req plan o = do
    final ← if is_commit o then realise slice_req o else pure (o, none)
    modify (record_outcome slice_req plan final)

  -- and for a slice that has a plan.
  unfoldable pub decide : SliceRequest → PlanSummary → Action Episode (Unit {0})
  unfolding compute_cost_greedy settle
  decide slice_req plan = do
    cost ← of_state (λ e. compute_cost_greedy c.shortest_path e.substrate slice_req c.greedy)
    o ← on_substrate (c.resolve_arrival slice_req plan cost)
    settle slice_req plan o

  unfoldable pub handle_arrival : SliceRequest → Action Episode (Unit {0})
  unfolding decide
  handle_arrival slice_req = do
    on_stats (λ st. record st {
      total_arrivals = st.total_arrivals + 1;
      per_slice_type_total = counted slice_req.slice_type st.per_slice_type_total;
    })
    plan ← of_state (λ e. ok (c.plan_builder slice_req e.substrate))
    elim plan [
      | none ↦ on_stats (λ st. record st { rejected_structural = st.rejected_structural + 1 })
      | some p ↦ decide slice_req p
    ]

  abbrev pub handle_request : Option SliceRequest → Action Episode (Unit {0})
  handle_request none = raise assertion_error
  handle_request (some slice_req) = handle_arrival slice_req

  unfoldable pub handle_event : SimEvent → Action Episode (Unit {0})
  unfolding handle_arrival handle_departure
  handle_event event = elim event.event_type [
    | departure ↦ handle_departure event.request_id
    | arrival ↦ handle_request event.slice_request
  ]

  -- `while self.arrival_process.has_next()`, on fuel
  unfoldable pub event_loop : ℕ → Action Episode (Unit {0})
  unfolding handle_event next_event has_next
  event_loop zero e = (ok tt, e)
  event_loop (suc fuel) e = elim (has_next e.arrivals) [
    | false ↦ (ok tt, e)
    | true ↦
        let (r, e1) = on_arrivals next_event e in
        elim r [
          | err x ↦ (err x, e1)
          | ok event ↦
              let (q, e2) = handle_event event e1 in
              elim q [ err x ↦ (err x, e2) | ok _ ↦ event_loop fuel e2 ]
        ]
  ]

  -- `run_episode`, on the fuel that the event stream needs
  unfoldable pub run_episode : Action Episode (Unit {0})
  unfolding event_loop num_remaining
  run_episode e = event_loop (num_remaining e.arrivals) (begin e)
