-- ===== src/Samples.antt =====
-- A small network and a request, which the tests of the components share.
use orion_v.Prelude.{ℕ, ℤ, pos, ◌==◌, if◌then◌else◌, [], ◌∷◌, true}
use orion_v.Types.{
  Ident, InfrastructureTier, edge, central_cloud, Node, inter, Link, embb, Vnf, SliceRequest,
  PlacementPlan,
}
use orion_v.Types.Mdo.{DomainSummary}
use orion_v.Substrate.{Graph, SubstrateNetwork}
use orion_v.Routing.{Networkx}

abbrev pub node : Ident → ℕ → InfrastructureTier → Node
node n d t = record {
  node_id = n;
  domain_id = d;
  tier = t;
  cpu_capacity = pos 10;
  ram_capacity = pos 16;
  processing_delay = pos 1;
  cpu_residual = pos 10;
  ram_residual = pos 16;
}

abbrev pub link : Ident → Ident → Ident → ℤ → Link
link l u v delay = record {
  link_id = l;
  source = u;
  target = v;
  bandwidth_capacity = pos 100;
  propagation_delay = delay;
  link_type = inter;
  bw_residual = pos 100;
}

-- Nodes 1 and 2 in domain 0, node 3 in domain 1; 1 and 3 are joined directly and through 2.
abbrev pub graph : Graph
graph = record {
  nodes = node 1 0 edge ∷ node 2 0 edge ∷ node 3 1 central_cloud ∷ [];
  edges = link 11 1 3 (pos 9) ∷ link 12 1 2 (pos 2) ∷ link 13 2 3 (pos 3) ∷ [];
}

abbrev pub network : SubstrateNetwork
network = record { graph = graph; num_domains = 2; active_slices = [] }

abbrev pub vnf : Ident → ℤ → Vnf
vnf v cpu = record {
  vnf_id = v;
  vnf_type = 0;
  cpu_demand = cpu;
  ram_demand = pos 2;
  permitted_nodes = 1 ∷ 2 ∷ 3 ∷ [];
  computational_intensity = pos 1;
  vcr = pos 1;
}

abbrev pub request : SliceRequest
request = record {
  request_id = 7;
  slice_type = embb;
  vnfs = vnf 21 (pos 4) ∷ vnf 22 (pos 3) ∷ [];
  flow_edges = record { source_vnf = 21; target_vnf = 22; bandwidth_demand = pos 5 } ∷ [];
  qos = record { max_e2e_delay = pos 40; min_throughput = pos 5 };
  arrival_time = pos 0;
  lifetime = pos 60;
}

abbrev pub plan : PlacementPlan
plan = record {
  plan_id = (7, "plan");
  vnf_placements = (21, 1) ∷ (22, 3) ∷ [];
  cpu_allocations = (21, pos 4) ∷ (22, pos 3) ∷ [];
  ram_allocations = (21, pos 2) ∷ (22, pos 2) ∷ [];
  flow_routes = ((21, 22), 12 ∷ 13 ∷ []) ∷ [];
  bw_allocations = ((21, 22), (12, pos 5) ∷ (13, pos 5) ∷ []) ∷ [];
  is_structurally_valid = true;
  origin = "mdo";
}

abbrev pub summary : ℕ → InfrastructureTier → ℤ → DomainSummary
summary d t cpu = record {
  domain_id = d;
  dominant_tier = t;
  cpu_residual = cpu;
  ram_residual = pos 16;
  cpu_capacity = pos 20;
  ram_capacity = pos 32;
  supported_tiers = t ∷ [];
  active_slice_count = 0;
  tier_cpu_residual = λ _. pos 10;
  tier_ram_residual = λ _. pos 16;
  tier_max_node_cpu = λ _. pos 10;
  tier_max_node_ram = λ _. pos 16;
}

-- The simple paths that start at 1, in order of delay.
abbrev pub nx : Networkx
nx = record {
  subgraph = λ g ns. g;
  has_path = λ g u v. true;
  shortest_simple_paths =
      λ g u v. if v == 3 then (1 ∷ 2 ∷ 3 ∷ []) ∷ (1 ∷ 3 ∷ []) ∷ [] else (u ∷ v ∷ []) ∷ [];
  neg_log = λ n d. pos 0;
}
