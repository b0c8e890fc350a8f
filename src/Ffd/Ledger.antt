-- ===== src/Ffd/Ledger.antt =====
-- greedy_ffd.py: the running residuals against what the plan allocates.
use orion_v.Prelude.{
  ℤ, pos, ◌+ℤ◌, ◌-ℤ◌, ◌≤ℤ◌, ◌≡◌, ap, sym, ◌∙◌, ◌⊎◌, inl, inr, [], ◌∷◌, true, false, some, arith,
  int_laws, ltb_ℤ, add-zero_ℤ, zero-add_ℤ, +ℤ_assoc, ◌==◌, Bool-cases, if◌then◌else◌,
}
use orion_v.Prelude.Dict.{Dict, nat_eq, get_or, put, contains, get_or-put}
use orion_v.Types.{Ident, Node, Vnf}
use orion_v.Substrate.{Graph, node_key, find_node}
use orion_v.Prelude.Adjust.{key_of_find}
use orion_v.Substrate.Use.{node_use}
use orion_v.Ffd.{PlacementState, cpu_after, ram_after, seated, has_room}

-- One more placement, of a VNF that is new.
node_use-put :
    (alloc : Dict Ident ℤ) (id v n : Ident) (amount : ℤ) (ps : Dict Ident Ident)
    → contains v ps ≡ false
    → node_use (put v amount alloc) id (put v n ps)
      ≡ node_use alloc id ps +ℤ (if id == n then amount else pos 0)
node_use-put alloc id v n amount [] h =
    let self : get_or v (pos 0) (put v amount alloc) ≡ amount =
      get_or-put v v amount (pos 0) alloc ∙ ground arith in
    rw self (add-zero_ℤ _ ∙ sym (zero-add_ℤ _))
node_use-put alloc id v n amount ((w, m) ∷ ps) h =
    let ih = node_use-put alloc id v n amount ps (ground arith) in
    let other : v == w ≡ false = ground arith in
    let kept : get_or w (pos 0) (put v amount alloc) ≡ get_or w (pos 0) alloc =
      get_or-put v w amount (pos 0) alloc ∙ ground arith in
    rw other (rw (kept, ih) (sym (+ℤ_assoc _ _ _)))

-- The running residuals are the network's less what the placements so far use, and none is below 0.
pub record IsSeated (g : Graph) (st : PlacementState) : Type 0 where
  pub cpu :
      (id : Ident) (x : Node)
      → find_node g id ≡ some x
      → cpu_after st x +ℤ node_use st.cpu_allocations id st.vnf_placements ≡ x.cpu_residual
  pub ram :
      (id : Ident) (x : Node)
      → find_node g id ≡ some x
      → ram_after st x +ℤ node_use st.ram_allocations id st.vnf_placements ≡ x.ram_residual
  pub cpu_fits : (id : Ident) (x : Node) → find_node g id ≡ some x → pos 0 ≤ℤ cpu_after st x
  pub ram_fits : (id : Ident) (x : Node) → find_node g id ≡ some x → pos 0 ≤ℤ ram_after st x

-- The arithmetic of one seat, at the node itself and at another.
settle_self : (a u r d : ℤ) → a +ℤ u ≡ r → (a -ℤ d) +ℤ (u +ℤ d) ≡ r
settle_self a u r d h = cancel ∙ h
  where
    cancel : (a -ℤ d) +ℤ (u +ℤ d) ≡ a +ℤ u
    cancel = omega int_laws

room_left : (a d : ℤ) → ltb_ℤ a d ≡ false → pos 0 ≤ℤ a -ℤ d
room_left a d h = let le : d ≤ℤ a = ground arith in omega int_laws

module _ (g : Graph) (st : PlacementState) (v : Vnf) (n : Node) (m : Ident)
    (found : find_node g m ≡ some n) (room : has_room st v n ≡ true)
    (new : contains v.vnf_id st.vnf_placements ≡ false) (before : IsSeated g st) where
  here_cpu :
      (x : Node)
      → cpu_after (seated st v n) x
        ≡ (if x.node_id == n.node_id then cpu_after st n -ℤ v.cpu_demand else cpu_after st x)
  here_cpu x =
      get_or-put n.node_id x.node_id (cpu_after st n -ℤ v.cpu_demand) x.cpu_residual st.running_cpu

  here_ram :
      (x : Node)
      → ram_after (seated st v n) x
        ≡ (if x.node_id == n.node_id then ram_after st n -ℤ v.ram_demand else ram_after st x)
  here_ram x =
      get_or-put n.node_id x.node_id (ram_after st n -ℤ v.ram_demand) x.ram_residual st.running_ram

  -- A node is the one that is charged, or it has another id.
  which :
      (id : Ident) (x : Node)
      → find_node g id ≡ some x
      → ((x ≡ n) × (x.node_id == n.node_id ≡ true) × (id == n.node_id ≡ true))
        ⊎ ((x.node_id == n.node_id ≡ false) × (id == n.node_id ≡ false))
  which id x f =
      let e = key_of_find node_key id g.nodes f in
      let e' = key_of_find node_key m g.nodes found in
      elim (Bool-cases (x.node_id == n.node_id)) [
        | inl same ↦ let ids : id ≡ m = ground arith in inl (cc (f, found, ids), same, ground arith)
        | inr other ↦ inr (other, ground arith)
      ]

  pub seated-IsSeated : IsSeated g (seated st v n)
  seated-IsSeated = record {
    cpu = λ id x f.
        let used =
          node_use-put st.cpu_allocations id v.vnf_id n.node_id v.cpu_demand st.vnf_placements
            new in
        elim (which id x f) [
          | inl (e, same, here) ↦
              rw (here_cpu x, used, same, here)
                (settle_self _ _ _ _ (
                  ap (λ y. cpu_after st y +ℤ node_use st.cpu_allocations id st.vnf_placements)
                    (sym e)
                  ∙ before.cpu id x f))
          | inr (other, there) ↦ rw (here_cpu x, used, other, there, add-zero_ℤ) (before.cpu id x f)
        ];
    ram = λ id x f.
        let used =
          node_use-put st.ram_allocations id v.vnf_id n.node_id v.ram_demand st.vnf_placements
            new in
        elim (which id x f) [
          | inl (e, same, here) ↦
              rw (here_ram x, used, same, here)
                (settle_self _ _ _ _ (
                  ap (λ y. ram_after st y +ℤ node_use st.ram_allocations id st.vnf_placements)
                    (sym e)
                  ∙ before.ram id x f))
          | inr (other, there) ↦ rw (here_ram x, used, other, there, add-zero_ℤ) (before.ram id x f)
        ];
    cpu_fits = λ id x f. elim (which id x f) [
      | inl (e, same, here) ↦ rw (here_cpu x, same) (room_left _ _ (ground arith))
      | inr (other, there) ↦ rw (here_cpu x, other) (before.cpu_fits id x f)
    ];
    ram_fits = λ id x f. elim (which id x f) [
      | inl (e, same, here) ↦ rw (here_ram x, same) (room_left _ _ (ground arith))
      | inr (other, there) ↦ rw (here_ram x, other) (before.ram_fits id x f)
    ];
  }
