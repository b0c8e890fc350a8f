-- ===== src/Greedy/Restore.antt =====
-- greedy_domain_actor.py: what the restoration of the recorded nodes undoes.

use orion_v.Prelude.{
  ℤ, ◌-ℤ◌, ◌≡◌, refl, ap, sym, ◌∙◌, inl, inr, [], ◌∷◌, true, false, some, arith, ◌==◌, Bool-cases,
  if◌then◌else◌, ==_iff,
}
use orion_v.Prelude.Dict.{Dict, contains, put, nat_eq}
use orion_v.Prelude.Adjust.{find-adjust, adjust_absorb, adjust_apart, adjust_fixed}
use orion_v.Types.{Ident, Node}
use orion_v.Substrate.{Graph, node_key, find_node, charged_node, shift_node}
use orion_v.Greedy.{with_residuals, set_node, restore_nodes}

module _ (n : Ident) (c r : ℤ) where
  abbrev debit : Graph → Graph
  debit g = shift_node ◌-ℤ◌ n c r g

  set-shift_same : (v : ℤ × ℤ) (g : Graph) → set_node n v (debit g) ≡ set_node n v g
  set-shift_same v g =
      ap (λ ns. record g { nodes = ns })
        (adjust_absorb node_key (charged_node ◌-ℤ◌ c r) (λ _. refl) (with_residuals v) n g.nodes
          (λ _. refl))

  set-shift_apart :
      (m : Ident) (v : ℤ × ℤ) (g : Graph)
      → m == n ≡ false
      → set_node m v (debit g) ≡ debit (set_node m v g)
  set-shift_apart m v g ne =
      ap (λ ns. record g { nodes = ns })
        (adjust_apart node_key (with_residuals v) (λ _. refl) (charged_node ◌-ℤ◌ c r) m n g.nodes
          (λ _. refl) ne)

  -- A charge of a node that was recorded before does not matter to the restored graph.
  pub restore-shift_known :
      (d : Dict Ident (ℤ × ℤ)) (g : Graph)
      → contains n d ≡ true
      → restore_nodes d (debit g) ≡ restore_nodes d g
  restore-shift_known [] g h = cc
  restore-shift_known ((m, v) ∷ d) g h = elim (Bool-cases (n == m)) [
    | inl same ↦
        let e : n ≡ m = (==_iff n m).0 same in
        ap (restore_nodes d) (
          ap (λ k. set_node k v (debit g)) (sym e)
          ∙ set-shift_same v g
          ∙ ap (λ k. set_node k v g) e)
    | inr other ↦
        ap (restore_nodes d) (set-shift_apart m v g (ground arith))
        ∙ restore-shift_known d (set_node m v g) (ground arith)
  ]

  restore-shift_new :
      (d : Dict Ident (ℤ × ℤ)) (g : Graph)
      → contains n d ≡ false
      → restore_nodes d (debit g) ≡ debit (restore_nodes d g)
  restore-shift_new [] g h = refl
  restore-shift_new ((m, v) ∷ d) g h =
      ap (restore_nodes d) (set-shift_apart m v g (ground arith))
      ∙ restore-shift_new d (set_node m v g) (ground arith)

  restore-put :
      (v : ℤ × ℤ) (d : Dict Ident (ℤ × ℤ)) (g : Graph)
      → contains n d ≡ false
      → restore_nodes (put n v d) g ≡ set_node n v (restore_nodes d g)
  restore-put v [] g h = refl
  restore-put v ((m, w) ∷ d) g h = elim (Bool-cases (n == m)) [
    | inl same ↦ absurd (ground arith)
    | inr other ↦ rw other (restore-put v d (set_node m w g) (ground arith))
  ]

  find-restore :
      (d : Dict Ident (ℤ × ℤ)) (g : Graph)
      → contains n d ≡ false
      → find_node (restore_nodes d g) n ≡ find_node g n
  find-restore [] g h = refl
  find-restore ((m, w) ∷ d) g h = elim (Bool-cases (n == m)) [
    | inl same ↦ absurd (ground arith)
    | inr other ↦
        find-restore d (set_node m w g) (ground arith)
        ∙ find-adjust node_key (with_residuals w) (λ _. refl) n m g.nodes
        ∙ rw other refl
  ]

  -- The first charge of a node is undone by what was recorded then.
  pub restore-seat :
      (d : Dict Ident (ℤ × ℤ)) (g g0 : Graph) (x : Node)
      → restore_nodes d g ≡ g0
      → find_node g n ≡ some x
      → restore_nodes
          (if contains n d then d else put n (x.cpu_residual, x.ram_residual) d)
          (debit g)
        ≡ g0
  restore-seat d g g0 x h f = elim (Bool-cases (contains n d)) [
    | inl known ↦ rw known (restore-shift_known d g known ∙ h)
    | inr new ↦
        let v : ℤ × ℤ = (x.cpu_residual, x.ram_residual) in
        let here : find_node g0 n ≡ some x =
          ap (λ t. find_node t n) (sym h) ∙ find-restore d g new ∙ f in
        rw new (
          restore-put v d (debit g) new
          ∙ ap (set_node n v) (restore-shift_new d g new ∙ ap debit h)
          ∙ set-shift_same v g0
          ∙ ap (λ ns. record g0 { nodes = ns })
              (adjust_fixed node_key (with_residuals v) n g0.nodes here refl))
  ]
