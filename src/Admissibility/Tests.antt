-- ===== src/Admissibility/Tests.antt =====
-- admissibility.py on two domains and two VNFs.
use orion_v.Prelude.{pos, ◌+ℤ◌, ◌-ℤ◌, List, [], ◌∷◌, ◌≡◌, refl, some}
use orion_v.Types.{SliceRequest, edge, central_cloud}
use orion_v.Types.Mdo.{DomainSummary}
use orion_v.Samples.{network, request, summary, vnf}
use orion_v.Admissibility.{GuardStats, minimal_committable_partition, admissible}
use orion_v.ChainOrder.{is_contiguous}
use orion_v.Admissibility.Reseat.{repair_partition}
use orion_v.Admissibility.Reseated.{Pointwise, repair_partition-Pointwise}
use orion_v.Admissibility.Minimal.{Repair, minimal_committable_partition-Repair}

program : Unit {0}
unfolding minimal_committable_partition repair_partition ◌+ℤ◌ ◌-ℤ◌ is_contiguous admissible
program = tt

abbrev fresh : GuardStats
fresh = record { seen = 0; vnfs_moved = 0; unrepairable = 0; partitions_changed = 0 }

-- Domain 0 can hold one of the two VNFs only.
abbrev summaries : List DomainSummary
summaries = summary 0 edge (pos 5) ∷ summary 1 central_cloud (pos 20) ∷ []

minimal_committable_partition-run :
    (minimal_committable_partition 4096 (0 ∷ 0 ∷ []) request network summaries fresh).0
    ≡ some (0 ∷ 1 ∷ [])
unfolding program
minimal_committable_partition-run = refl

minimal_committable_partition-Repair_example :
    Repair 4096
      (0 ∷ 0 ∷ [])
      request
      network
      summaries
      (minimal_committable_partition 4096 (0 ∷ 0 ∷ []) request network summaries fresh).0
minimal_committable_partition-Repair_example =
    minimal_committable_partition-Repair 4096 (0 ∷ 0 ∷ []) request network summaries fresh

-- The second VNF alone cannot stay in domain 0, and the third stays where it was: the chain goes back.
abbrev three : SliceRequest
three = record request {
  vnfs =
      vnf 21 (pos 1) ∷ record (vnf 22 (pos 3)) { permitted_nodes = 3 ∷ [] } ∷ vnf 23 (pos 1) ∷ [];
}

abbrev roomy : List DomainSummary
roomy = summary 0 edge (pos 20) ∷ summary 1 central_cloud (pos 20) ∷ []

repair_partition-run :
    (repair_partition network roomy (0 ∷ 0 ∷ 0 ∷ []) three fresh).0 ≡ some (0 ∷ 1 ∷ 0 ∷ [])
unfolding program
repair_partition-run = refl

repair_partition-Pointwise_example :
    Pointwise network roomy three.vnfs (0 ∷ 0 ∷ 0 ∷ []) (0 ∷ 1 ∷ 0 ∷ [])
repair_partition-Pointwise_example =
    repair_partition-Pointwise network roomy (0 ∷ 0 ∷ 0 ∷ []) (0 ∷ 1 ∷ 0 ∷ []) three fresh
      repair_partition-run
