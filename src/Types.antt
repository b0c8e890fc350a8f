-- ===== src/Types.antt =====
-- types.py and the value types of actors/types.py and mdo/types.py. Identifiers (node, link, VNF,
-- request ids) are texts that the code compares and sorts: they are numbers here, in the order of
-- the texts. Amounts (CPU, RAM, bandwidth, delay) are exact integers of a unit of one's choice.
pub mod Mdo
use Prim.Native.String.{String}
use orion_v.Prelude.{ℕ, ℤ, List, Bool, true, false, ◌≡◌, ◌↔◌, arith}
use orion_v.Prelude.Dict.{Dict, Eq}

abbrev pub Ident : Type 0
Ident = ℕ

-- `(source_vnf, target_vnf)`
abbrev pub FlowKey : Type 0
FlowKey = ℕ × ℕ

pub data InfrastructureTier : Type 0 where
  edge regional_cloud central_cloud : InfrastructureTier

abbrev pub tier_beq : InfrastructureTier → InfrastructureTier → Bool
tier_beq edge edge = true
tier_beq regional_cloud regional_cloud = true
tier_beq central_cloud central_cloud = true
tier_beq _ _ = false

pub tier_beq_iff : (a b : InfrastructureTier) → (tier_beq a b ≡ true) ↔ (a ≡ b)
tier_beq_iff a b = (λ h. ground arith, λ h. ground arith)

instance abbrev pub tier_eq : Eq InfrastructureTier
tier_eq = record { beq = tier_beq; beq_iff = tier_beq_iff }

pub data LinkType : Type 0 where
  intra inter : LinkType

pub data SliceType : Type 0 where
  embb urllc mmtc v2x xr : SliceType

-- A node of the graph: `NodeAttributes` and the two residuals.
pub record Node : Type 0 where
  pub node_id : Ident
  pub domain_id : ℕ
  pub tier : InfrastructureTier
  pub cpu_capacity : ℤ
  pub ram_capacity : ℤ
  pub processing_delay : ℤ
  pub cpu_residual : ℤ
  pub ram_residual : ℤ

pub record NodeAttributes : Type 0 where
  pub node_id : Ident
  pub domain_id : ℕ
  pub tier : InfrastructureTier
  pub cpu_capacity : ℤ
  pub ram_capacity : ℤ
  pub processing_delay : ℤ

-- A directed edge of the graph: `LinkAttributes` and the residual.
pub record Link : Type 0 where
  pub link_id : Ident
  pub source : Ident
  pub target : Ident
  pub bandwidth_capacity : ℤ
  pub propagation_delay : ℤ
  pub link_type : LinkType
  pub bw_residual : ℤ

pub record LinkAttributes : Type 0 where
  pub link_id : Ident
  pub source : Ident
  pub target : Ident
  pub bandwidth_capacity : ℤ
  pub propagation_delay : ℤ
  pub link_type : LinkType

pub record Vnf : Type 0 where
  pub vnf_id : Ident
  pub vnf_type : Ident
  pub cpu_demand : ℤ
  pub ram_demand : ℤ
  pub permitted_nodes : List Ident
  pub computational_intensity : ℤ
  pub vcr : ℤ

pub record FlowEdge : Type 0 where
  pub source_vnf : Ident
  pub target_vnf : Ident
  pub bandwidth_demand : ℤ

pub record QosRequirements : Type 0 where
  pub max_e2e_delay : ℤ
  pub min_throughput : ℤ

pub record SliceRequest : Type 0 where
  pub request_id : Ident
  pub slice_type : SliceType
  pub vnfs : List Vnf
  pub flow_edges : List FlowEdge
  pub qos : QosRequirements
  pub arrival_time : ℤ
  pub lifetime : ℤ

-- `plan_id` is a text made of a request's id and a label: the pair of the two.
pub record PlacementPlan : Type 0 where
  pub plan_id : Ident × String
  pub vnf_placements : Dict Ident Ident
  pub cpu_allocations : Dict Ident ℤ
  pub ram_allocations : Dict Ident ℤ
  pub flow_routes : Dict FlowKey (List Ident)
  pub bw_allocations : Dict FlowKey (Dict Ident ℤ)
  pub is_structurally_valid : Bool
  pub origin : String
