-- ===== src/Coordinator/Settled.antt =====
-- coordinator.py: the network between an attempt and its rollback.

use mathlib.Core.List.{Memᴰ}
use orion_v.Prelude.{ℕ, ◌≡◌, ap, sym, ◌∙◌, List, [], ◌∷◌, ◌++◌, true, All}
use orion_v.Prelude.Dict.{contains, values, nat_eq}
use orion_v.Substrate.{Graph, SubstrateNetwork, nodes_in_domain}
use orion_v.Greedy.{release, restore_nodes}
use orion_v.Coordinator.{snapshot_node_residuals, restore_node_residuals, rollback_domains}
use orion_v.Coordinator.Ledger.{
  Reservations, reserve, Charges, charge_all, reserved_of, reserved_by, reserve-append,
  release-append, release-reserve, credit_routes-eq, rollback_domains-eq, restore_nodes-reserve,
  restore_nodes-charge_all,
}
use orion_v.Coordinator.Snapshot.{restore-snapshot, snapshot-contains}
use orion_v.Coordinator.Resolve.{Attempt, rollback_attempt}

module _ (partition : List ℕ) (s : SubstrateNetwork) where
  abbrev pub Inside : Charges → Type 0
  Inside cs = All (λ c. (k : ℕ) × Memᴰ k partition × Memᴰ c.0 (nodes_in_domain s k)) cs

  -- The network between an attempt and its rollback.
  pub record Settled (t : Attempt) (s1 : SubstrateNetwork) : Type 0 where
    pub charges : Charges
    pub within : Inside charges
    pub network : s1 ≡ record s {
      graph =
          reserve
            (reserved_of t.cross.routes t.cross.bw_allocated)
            (reserve (reserved_by (values t.responses)) (charge_all charges s.graph));
    }

  recorded :
      (cs : Charges)
      → Inside cs
      → All (λ c. contains c.0 (snapshot_node_residuals s partition) ≡ true) cs
  recorded [] h = tt
  recorded (c ∷ cs) h =
      let (k, m, t) = h.0 in (snapshot-contains s partition k c.0 m t, recorded cs h.1)

  -- The rollback of an attempt takes back exactly what it charged.
  pub Settled-rollback :
      (t : Attempt) (s1 : SubstrateNetwork)
      → Settled t s1
      → rollback_attempt (snapshot_node_residuals s partition) t s1.graph ≡ s.graph
  unfolding rollback_attempt restore_node_residuals
  Settled-rollback t s1 st =
      let d = snapshot_node_residuals s partition in
      let x : Reservations = reserved_of t.cross.routes t.cross.bw_allocated in
      let l : Reservations = reserved_by (values t.responses) in
      let g0 = s.graph in
      let h : Graph = restore_nodes d s1.graph in
      let restored : h ≡ reserve x (reserve l g0) =
        ap (λ (t' : SubstrateNetwork). restore_nodes d t'.graph) st.network
        ∙ restore_nodes-reserve d x (reserve l (charge_all st.charges g0))
        ∙ ap (reserve x) (restore_nodes-reserve d l (charge_all st.charges g0))
        ∙ ap (λ q. reserve x (reserve l q))
            (restore_nodes-charge_all d st.charges g0 (recorded st.charges st.within)
              ∙ restore-snapshot s partition) in
      credit_routes-eq t.cross.routes t.cross.bw_allocated (rollback_domains (values t.responses) h)
      ∙ ap (release x) (rollback_domains-eq (values t.responses) h)
      ∙ sym (release-append l x h)
      ∙ ap (release (l ++ x)) (restored ∙ sym (reserve-append l x g0))
      ∙ release-reserve (l ++ x) g0
