-- ===== src/Substrate/Tests.antt =====
-- graph_model.py on a small network.
use orion_v.Prelude.{pos, ◌≡◌, refl, some, ◌+ℤ◌, ◌-ℤ◌}
use orion_v.Prelude.Adjust.{adjust}
use orion_v.Prelude.Fail.{ok, err, value_error, key_error}
use orion_v.Samples.{network, plan, request}
use orion_v.Substrate.{
  SubstrateNetwork, allocate, deallocate, reset, get_residual_cpu, get_residual_bw, nodes_in_domain,
}
use orion_v.Substrate.Roundtrip.{deallocate-allocate}
use orion_v.Substrate.Balance.{
  IsBalanced, Reach, here, next, admit, depart, reset-IsBalanced, Reach-IsBalanced,
}

program : Unit {0}
unfolding allocate deallocate reset get_residual_cpu get_residual_bw nodes_in_domain adjust ◌+ℤ◌
    ◌-ℤ◌
program = tt

abbrev allocated : SubstrateNetwork
allocated = (allocate plan request network).1

allocate-plan : allocate plan request network ≡ (ok tt, allocated)
unfolding program
allocate-plan = refl

allocated_residuals :
    (get_residual_cpu allocated 1 ≡ some (pos 6)) × (get_residual_bw allocated 13 ≡ some (pos 95))
unfolding program
allocated_residuals = (refl, refl)

allocate_twice : (allocate plan request allocated).0 ≡ err value_error
unfolding program
allocate_twice = refl

deallocate_unknown : (deallocate plan request network).0 ≡ err key_error
unfolding program
deallocate_unknown = refl

deallocate-allocate_example : deallocate plan request allocated ≡ (ok tt, network)
deallocate-allocate_example = deallocate-allocate plan request network allocated allocate-plan

network-IsBalanced : IsBalanced network
unfolding program
network-IsBalanced = reset-IsBalanced network

-- An admission and the departure of the same slice.
history : Reach network network
unfolding program
history =
    next (next here (admit plan request allocate-plan))
      (depart plan request refl (deallocate-allocate plan request network allocated allocate-plan))

Reach-IsBalanced_example : IsBalanced network
Reach-IsBalanced_example = Reach-IsBalanced network-IsBalanced history
