-- ===== src/Structural/Data.antt =====
-- structural_checker.py: the plan, the request, the abstract topology and the violations. A key that
-- the code reads with `.get` is an Option.
use orion_v.Prelude.{ℤ, List, Bool, Option}
use orion_v.Prelude.Dict.{nat_eq, pair_eq}
use orion_v.Types.{Ident, InfrastructureTier}

pub record VnfSpec : Type 0 where
  pub vnf_id : Ident
  pub permitted_tiers : List InfrastructureTier

pub record Domain : Type 0 where
  pub domain_id : Ident
  pub dominant_tiers : List InfrastructureTier
  pub cpu_residual : ℤ
  pub ram_residual : ℤ

pub record DomainLink : Type 0 where
  pub source_domain : Option Ident
  pub target_domain : Option Ident
  pub bandwidth_residual_mbps : Option ℤ

pub record Assignment : Type 0 where
  pub vnf_id : Ident
  pub domain : Option Ident
  pub required_tier : Option InfrastructureTier
  pub cpu_demand : Option ℤ
  pub ram_demand : Option ℤ

pub record FlowRequirement : Type 0 where
  pub source_vnf : Option Ident
  pub target_vnf : Option Ident
  pub min_bandwidth_mbps : Option ℤ
  pub crosses_domain_boundary : Option Bool

pub record AgentPlan : Type 0 where
  pub vnf_assignments : List Assignment
  pub flow_requirements : List FlowRequirement

pub record AbstractTopology : Type 0 where
  pub domains : List Domain
  pub inter_domain_links : List DomainLink

pub data Constraint : Type 0 where
  schema c4 c5 c8 : Constraint

pub data Detail : Type 0 where
  missing_from_plan not_in_request : Detail
  unknown_domain : Option Ident → Detail
  tier_not_permitted : InfrastructureTier → Detail
  tier_not_in_domain : InfrastructureTier → Ident → Detail
  no_tier_overlap : Ident → Detail
  overcommit : Ident → ℤ → ℤ → Detail
  crosses_unflagged flagged_intra : Option Ident → Option Ident → Detail
  not_reachable : Ident → Ident → Detail
  link_overcommit : Ident × Ident → ℤ → ℤ → Detail

pub record Violation : Type 0 where
  pub constraint : Constraint
  pub vnf_id : Option Ident
  pub detail : Detail

pub record CheckResult : Type 0 where
  pub is_valid : Bool
  pub violations : List Violation
