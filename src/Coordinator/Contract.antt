-- ===== src/Coordinator/Contract.antt =====
-- coordinator.py and the domain actors: what an actor may do to the network, and what is pending after
-- the dispatch to all of them.
use mathlib.Core.List.{Memᴰ}
use mathlib.Core.List.{append-nil, append_assoc}
use orion_v.Prelude.{
  ℕ, ◌≡◌, refl, ap, sym, ◌∙◌, subst, List, [], ◌∷◌, ◌++◌, true, false, arith, All, if◌then◌else◌,
  ◌==◌, some, Option-cases, inl, inr,
}
use orion_v.Prelude.Dict.{Dict, get, put, contains, values, nat_eq, pair_beq}
use orion_v.Prelude.Fail.{ok, Result-cases}
use orion_v.Prelude.Keys.{HasUniqueKeys}
use orion_v.Types.{FlowEdge}
use orion_v.Types.Mdo.{PlanFragment, DomainResponse, bare_response}
use orion_v.Substrate.{SubstrateNetwork, nodes_in_domain}
use orion_v.Coordinator.{DomainActor, dispatch_to_actors}
use orion_v.Coordinator.Ledger.{
  Reservations, reserve, Charges, charge_all, reserved_of, reserved_by, reserve-append,
  charge_all-reserve, charge_all-append,
}
use orion_v.Coordinator.Snapshot.{nodes_in_domain-charged}

abbrev pub flow_key : FlowEdge → ℕ × ℕ
flow_key fe = (fe.source_vnf, fe.target_vnf)

-- No two flows join the same two VNFs in the same direction.
abbrev pub NoRepeat : List FlowEdge → Type 0
NoRepeat [] = Unit
NoRepeat (fe ∷ fes) = All (λ f. pair_beq (flow_key fe) (flow_key f) ≡ false) fes × NoRepeat fes

-- The network after an actor's answer: CPU and RAM were charged at nodes of its domain, the bandwidth
-- that the answer lists was reserved on the routes that it lists, and nothing else has changed.
pub record Accounted (d : ℕ) (r : DomainResponse) (s s' : SubstrateNetwork) : Type 0 where
  pub charges : Charges
  pub within : All (λ c. Memᴰ c.0 (nodes_in_domain s d)) charges
  pub network : s' ≡ record s {
    graph = reserve (reserved_of r.routes r.bw_allocated) (charge_all charges s.graph);
  }

pub data Answered (d : ℕ) (r : DomainResponse) (s s' : SubstrateNetwork) : Type 0 where
  refused : r.feasible ≡ false → s' ≡ s → Answered d r s s'
  placed : r.feasible ≡ true → Accounted d r s s' → Answered d r s s'

-- What the coordinator relies on of the actor of domain `d`, for the fragments it sends.
abbrev pub IsContained : ℕ → DomainActor → Type 0
IsContained d actor =
    (fragment : PlanFragment) (s s' : SubstrateNetwork) (r : DomainResponse)
    → fragment.domain_id ≡ d
    → NoRepeat fragment.intra_flows
    → actor.act fragment s ≡ (ok r, s')
    → Answered d r s s'

abbrev pub AllContained : Dict ℕ DomainActor → Type 0
AllContained actors =
    (d : ℕ) (actor : DomainActor) → get d actors ≡ some actor → IsContained d actor

-- The network between the dispatch and the rollback, against the one before.
pub record Pending (partition : List ℕ) (s0 : SubstrateNetwork) (responses : Dict ℕ DomainResponse)
    (s : SubstrateNetwork) : Type 0 where
  pub charges : Charges
  pub within : All (λ c. (k : ℕ) × Memᴰ k partition × Memᴰ c.0 (nodes_in_domain s0 k)) charges
  pub network :
      s
      ≡ record s0 { graph = reserve (reserved_by (values responses)) (charge_all charges s0.graph) }

-- A fragment for a domain of the partition.
abbrev pub IsSendable : List ℕ → ℕ × PlanFragment → Type 0
IsSendable partition x = Memᴰ x.0 partition × (x.1.domain_id ≡ x.0) × NoRepeat x.1.intra_flows

values-put_new :
    (d : ℕ) (r : DomainResponse) (rs : Dict ℕ DomainResponse)
    → contains d rs ≡ false
    → values (put d r rs) ≡ values rs ++ r ∷ []
values-put_new d r [] h = refl
values-put_new d r ((k, q) ∷ rs) h = ground (arith, values-put_new d r rs)

reserved_by-append :
    (rs : List DomainResponse) (r : DomainResponse)
    → reserved_by (rs ++ r ∷ [])
      ≡ reserved_by rs ++ (if r.feasible then reserved_of r.routes r.bw_allocated else [])
reserved_by-append [] r =
    append-nil (if r.feasible then reserved_of r.routes r.bw_allocated else [])
reserved_by-append (q ∷ rs) r =
    let first = if q.feasible then reserved_of q.routes q.bw_allocated else [] in
    ap (λ l. first ++ l) (reserved_by-append rs r)
    ∙ sym (
        append_assoc first (reserved_by rs)
          (if r.feasible then reserved_of r.routes r.bw_allocated else []))

reserved_by-put :
    (d : ℕ) (r : DomainResponse) (rs : Dict ℕ DomainResponse) (l : Reservations)
    → contains d rs ≡ false
    → (if r.feasible then reserved_of r.routes r.bw_allocated else []) ≡ l
    → reserved_by (values (put d r rs)) ≡ reserved_by (values rs) ++ l
reserved_by-put d r rs l new e =
    ap reserved_by (values-put_new d r rs new)
    ∙ reserved_by-append (values rs) r
    ∙ ap (λ t. reserved_by (values rs) ++ t) e

All-append {ℓ κ} :
    {A : Type ℓ} (P : A → Type κ) (xs ys : List A) → All P xs → All P ys → All P (xs ++ ys)
All-append P [] ys h k = k
All-append P (x ∷ xs) ys h k = (h.0, All-append P xs ys h.1 k)

within_of :
    (partition : List ℕ) (s0 s : SubstrateNetwork) (d : ℕ) (cs : Charges)
    → Memᴰ d partition
    → nodes_in_domain s d ≡ nodes_in_domain s0 d
    → All (λ c. Memᴰ c.0 (nodes_in_domain s d)) cs
    → All (λ c. (k : ℕ) × Memᴰ k partition × Memᴰ c.0 (nodes_in_domain s0 k)) cs
within_of partition s0 s d [] m e h = tt
within_of partition s0 s d (c ∷ cs) m e h =
    ((d, m, subst (Memᴰ c.0) e h.0), within_of partition s0 s d cs m e h.1)

module _ (partition : List ℕ) (s0 : SubstrateNetwork) where
  -- An answer is added to what is pending.
  Pending-put :
      (responses : Dict ℕ DomainResponse) (d : ℕ) (r : DomainResponse) (s s' : SubstrateNetwork)
      → contains d responses ≡ false
      → Memᴰ d partition
      → Pending partition s0 responses s
      → Answered d r s s'
      → Pending partition s0 (put d r responses) s'
  Pending-put responses d r s s' new m p (refused f e) = record {
    charges = p.charges;
    within = p.within;
    network =
        e
        ∙ p.network
        ∙ ap (λ l. record s0 { graph = reserve l (charge_all p.charges s0.graph) })
            (sym (reserved_by-put d r responses [] new (rw f refl) ∙ append-nil _));
  }
  Pending-put responses d r s s' new m p (placed f a) =
      let before : Reservations = reserved_by (values responses) in
      let l : Reservations = reserved_of r.routes r.bw_allocated in
      let g0 = s0.graph in
      let graphs : reserve l (charge_all a.charges (reserve before (charge_all p.charges g0)))
          ≡ reserve (reserved_by (values (put d r responses)))
              (charge_all (p.charges ++ a.charges) g0) =
        ap (reserve l) (charge_all-reserve a.charges before (charge_all p.charges g0))
        ∙ sym (reserve-append before l (charge_all a.charges (charge_all p.charges g0)))
        ∙ ap (λ h. reserve (before ++ l) h) (sym (charge_all-append p.charges a.charges g0))
        ∙ ap (λ t. reserve t (charge_all (p.charges ++ a.charges) g0))
            (sym (reserved_by-put d r responses l new (rw f refl))) in
      record {
        charges = p.charges ++ a.charges;
        within = All-append _ p.charges a.charges p.within (
            within_of partition s0 s d a.charges m
              (ap (λ (t : SubstrateNetwork). nodes_in_domain t d) p.network
                ∙ nodes_in_domain-charged s0 d before p.charges)
              a.within);
        network =
            a.network
            ∙ ap
                (λ (t : SubstrateNetwork). record t {
                  graph = reserve l (charge_all a.charges t.graph);
                })
                p.network
            ∙ ap (λ h. record s0 { graph = h }) graphs;
      }

  contains-put_other :
      (j d : ℕ) (r : DomainResponse) (rs : Dict ℕ DomainResponse)
      → j == d ≡ false
      → contains j rs ≡ false
      → contains j (put d r rs) ≡ false
  contains-put_other j d r [] ne h = ground arith
  contains-put_other j d r ((k, q) ∷ rs) ne h = ground (arith, contains-put_other j d r rs ne)

  -- No answer yet for any of these fragments.
  abbrev pub Unanswered : Dict ℕ DomainResponse → Dict ℕ PlanFragment → Type 0
  Unanswered responses fragments = All (λ x. contains x.0 responses ≡ false) fragments

  Unanswered-put :
      (d : ℕ) (r : DomainResponse) (responses : Dict ℕ DomainResponse)
      (fragments : Dict ℕ PlanFragment)
      → contains d fragments ≡ false
      → Unanswered responses fragments
      → Unanswered (put d r responses) fragments
  Unanswered-put d r responses [] h u = tt
  Unanswered-put d r responses ((k, f) ∷ rest) h u = (
    contains-put_other k d r responses (ground arith) u.0,
    Unanswered-put d r responses rest (ground arith) u.1,
  )

  -- After the dispatch exactly the bandwidth of the feasible answers and some CPU and RAM in the domains
  -- of the partition are pending.
  pub dispatch-Pending :
      (actors : Dict ℕ DomainActor) (fragments : Dict ℕ PlanFragment)
      (responses out : Dict ℕ DomainResponse) (s s' : SubstrateNetwork)
      → AllContained actors
      → HasUniqueKeys fragments
      → All (IsSendable partition) fragments
      → Unanswered responses fragments
      → Pending partition s0 responses s
      → dispatch_to_actors actors fragments responses s ≡ (ok out, s')
      → Pending partition s0 out s'
  unfolding dispatch_to_actors
  dispatch-Pending actors [] responses out s s' laws u send free p h =
      let e : responses ≡ out = cc in
      let e' : s ≡ s' = cc in
      subst (λ t. Pending partition s0 out t) e' (subst (λ t. Pending partition s0 t s) e p)
  dispatch-Pending actors ((d, f) ∷ rest) responses out s s' laws u send free p h =
      elim (Option-cases (get d actors)) [
        | inl none_here ↦
            let r = bare_response d false in
            dispatch-Pending actors rest (put d r responses) out s s' laws u.1 send.1
              (Unanswered-put d r responses rest u.0 free.1)
              (Pending-put responses d r s s free.0 send.0.0 p (refused refl refl)) (ground arith)
        | inr (actor, here) ↦ elim (Result-cases (actor.act f s).0) [
          | inr (x, e) ↦ absurd (ground arith)
          | inl (r, e) ↦
              let s1 = (actor.act f s).1 in
              let acted : actor.act f s ≡ (ok r, s1) = ap (λ t. (t, s1)) e in
              dispatch-Pending actors rest (put d r responses) out s1 s' laws u.1 send.1
                (Unanswered-put d r responses rest u.0 free.1)
                (Pending-put responses d r s s1 free.0 send.0.0 p
                  (laws d actor here f s s1 r send.0.1 send.0.2 acted))
                (ground arith)
        ]
      ]
