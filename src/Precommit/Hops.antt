-- ===== src/Precommit/Hops.antt =====
-- mdo/precommit_check.py and mdo/chain_order.py: the counts of hops and of runs.
use orion_v.Prelude.{ℕ, ◌+◌, ◌≡◌, refl, List, [], ◌∷◌, arith, ◌==◌, length, if◌then◌else◌}
use orion_v.ChainOrder.{runs_after, run_count}
use orion_v.Precommit.{
  hops_from, count_inter_domain_hops, sequence_after, domain_sequence_from_partition,
}

hops_from-eq : (h d : ℕ) (ds : List ℕ) → hops_from h (d ∷ ds) ≡ h + runs_after d ds
unfolding hops_from
hops_from-eq h d [] = omega arith
hops_from-eq h d (e ∷ ds) = ground (arith, hops_from-eq (if d == e then h else h + 1) e ds)

length-sequence_after : (d : ℕ) (ds : List ℕ) → length (sequence_after d ds) ≡ runs_after d ds
unfolding sequence_after
length-sequence_after d [] = refl
length-sequence_after d (e ∷ ds) = ground (arith, length-sequence_after e ds)

-- For a partition of at least one domain, the chain-order count of runs is one more than the count of
-- inter-domain hops, and is the length of the domain sequence.
pub run_count-hops :
    (d : ℕ) (ds : List ℕ)
    → (run_count (d ∷ ds) ≡ count_inter_domain_hops (d ∷ ds) + 1)
      × (run_count (d ∷ ds) ≡ length (domain_sequence_from_partition (d ∷ ds)))
unfolding run_count count_inter_domain_hops domain_sequence_from_partition
run_count-hops d ds =
    (omega (arith, hops_from-eq 0 d ds), omega (arith, length-sequence_after d ds))
