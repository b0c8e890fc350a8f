-- ===== src/Coordinator/Ledger.antt =====
-- What is charged provisionally in an arrival, as lists, and how it is taken back.

use orion_v.Prelude.{
  ℤ, ◌-ℤ◌, ◌≡◌, refl, ap, sym, ◌∙◌, List, [], ◌∷◌, ◌++◌, true, All, if◌then◌else◌, inl, inr,
  Bool-cases,
}
use orion_v.Prelude.Dict.{Dict, get_or, contains, nat_eq, pair_eq}
use orion_v.Prelude.Adjust.{adjust}
use orion_v.Types.{Ident, FlowKey, Node}
use orion_v.Types.Mdo.{DomainResponse}
use orion_v.Substrate.{Graph, node_key, charged_node, shift_node}
use orion_v.Routing.{charge_route, allocate_route_bw, deallocate_route_bw}
use orion_v.Routing.Bandwidth.{deallocate-allocate_comm, deallocate-allocate_route_bw}
use orion_v.Greedy.{release, restore_nodes, set_node, with_residuals}
use orion_v.Greedy.Restore.{restore-shift_known}
use orion_v.Coordinator.{credit_routes, rollback_domains}

-- Bandwidth on the links of some routes, reserved in order.
abbrev pub Reservations : Type 0
Reservations = List (List Ident × ℤ)

abbrev pub reserve : Reservations → Graph → Graph
reserve [] g = g
reserve ((ls, b) ∷ rest) g = reserve rest (allocate_route_bw ls b g)

-- CPU and RAM at some nodes.
abbrev pub Charges : Type 0
Charges = List (Ident × ℤ × ℤ)

abbrev pub charge_all : Charges → Graph → Graph
charge_all [] g = g
charge_all ((n, c, r) ∷ rest) g = charge_all rest (shift_node ◌-ℤ◌ n c r g)

-- What a rollback takes back under every key.
abbrev pub reserved_of : Dict FlowKey (List Ident) → Dict FlowKey ℤ → Reservations
reserved_of routes [] = []
reserved_of routes ((key, b) ∷ rest) = (get_or key [] routes, b) ∷ reserved_of routes rest

abbrev pub reserved_by : List DomainResponse → Reservations
reserved_by [] = []
reserved_by (r ∷ rs) =
    (if r.feasible then reserved_of r.routes r.bw_allocated else []) ++ reserved_by rs

pub reserve-append : (l m : Reservations) (g : Graph) → reserve (l ++ m) g ≡ reserve m (reserve l g)
reserve-append [] m g = refl
reserve-append ((ls, b) ∷ l) m g = reserve-append l m (allocate_route_bw ls b g)

pub release-append : (l m : Reservations) (g : Graph) → release (l ++ m) g ≡ release m (release l g)
release-append [] m g = refl
release-append ((ls, b) ∷ l) m g = release-append l m (deallocate_route_bw ls b g)

deallocate-reserve :
    (ls : List Ident) (b : ℤ) (l : Reservations) (g : Graph)
    → deallocate_route_bw ls b (reserve l g) ≡ reserve l (deallocate_route_bw ls b g)
deallocate-reserve ls b [] g = refl
deallocate-reserve ls b ((ms, c) ∷ l) g =
    deallocate-reserve ls b l (allocate_route_bw ms c g)
    ∙ ap (reserve l) (deallocate-allocate_comm ms ls c b g)

pub release-reserve : (l : Reservations) (g : Graph) → release l (reserve l g) ≡ g
release-reserve [] g = refl
release-reserve ((ls, b) ∷ l) g =
    ap (release l) (
      deallocate-reserve ls b l (allocate_route_bw ls b g)
      ∙ ap (reserve l) (deallocate-allocate_route_bw ls b g))
    ∙ release-reserve l g

pub credit_routes-eq :
    (routes : Dict FlowKey (List Ident)) (bw : Dict FlowKey ℤ) (g : Graph)
    → credit_routes routes bw g ≡ release (reserved_of routes bw) g
credit_routes-eq routes [] g = refl
credit_routes-eq routes ((key, b) ∷ rest) g =
    credit_routes-eq routes rest (deallocate_route_bw (get_or key [] routes) b g)

pub rollback_domains-eq :
    (rs : List DomainResponse) (g : Graph) → rollback_domains rs g ≡ release (reserved_by rs) g
rollback_domains-eq [] g = refl
rollback_domains-eq (r ∷ rs) g = elim (Bool-cases r.feasible) [
  | inl f ↦ rw f (
      rollback_domains-eq rs (credit_routes r.routes r.bw_allocated g)
      ∙ ap (release (reserved_by rs)) (credit_routes-eq r.routes r.bw_allocated g)
      ∙ sym (release-append (reserved_of r.routes r.bw_allocated) (reserved_by rs) g))
  | inr f ↦ rw f (rollback_domains-eq rs g)
]

-- Nodes and links are charged apart.
charge_route-frame :
    (op : ℤ → ℤ → ℤ) (b : ℤ) (ls : List Ident) (ns : List Node) (g : Graph)
    → charge_route op b ls (record g { nodes = ns })
      ≡ record (charge_route op b ls g) { nodes = ns }
charge_route-frame op b [] ns g = refl
charge_route-frame op b (l ∷ ls) ns g = charge_route-frame op b ls ns _

pub charge_route-nodes :
    (op : ℤ → ℤ → ℤ) (b : ℤ) (ls : List Ident) (g : Graph)
    → (charge_route op b ls g).nodes ≡ g.nodes
charge_route-nodes op b [] g = refl
charge_route-nodes op b (l ∷ ls) g = charge_route-nodes op b ls _

adjust_nodes-allocate :
    (n : Ident) (f : Node → Node) (ls : List Ident) (b : ℤ) (g : Graph)
    → (let h = allocate_route_bw ls b g in record h { nodes = adjust node_key n f h.nodes })
      ≡ allocate_route_bw ls b (record g { nodes = adjust node_key n f g.nodes })
unfolding allocate_route_bw
adjust_nodes-allocate n f ls b g =
    let h = charge_route ◌-ℤ◌ b ls g in
    ap (λ ns. record h { nodes = adjust node_key n f ns }) (charge_route-nodes ◌-ℤ◌ b ls g)
    ∙ sym (charge_route-frame ◌-ℤ◌ b ls (adjust node_key n f g.nodes) g)

adjust_nodes-reserve :
    (n : Ident) (f : Node → Node) (l : Reservations) (g : Graph)
    → (let h = reserve l g in record h { nodes = adjust node_key n f h.nodes })
      ≡ reserve l (record g { nodes = adjust node_key n f g.nodes })
adjust_nodes-reserve n f [] g = refl
adjust_nodes-reserve n f ((ls, b) ∷ l) g =
    adjust_nodes-reserve n f l (allocate_route_bw ls b g)
    ∙ ap (reserve l) (adjust_nodes-allocate n f ls b g)

pub charge_all-reserve :
    (cs : Charges) (l : Reservations) (g : Graph)
    → charge_all cs (reserve l g) ≡ reserve l (charge_all cs g)
charge_all-reserve [] l g = refl
charge_all-reserve ((n, c, r) ∷ cs) l g =
    ap (charge_all cs) (adjust_nodes-reserve n (charged_node ◌-ℤ◌ c r) l g)
    ∙ charge_all-reserve cs l (shift_node ◌-ℤ◌ n c r g)

pub restore_nodes-reserve :
    (d : Dict Ident (ℤ × ℤ)) (l : Reservations) (g : Graph)
    → restore_nodes d (reserve l g) ≡ reserve l (restore_nodes d g)
restore_nodes-reserve [] l g = refl
restore_nodes-reserve ((n, v) ∷ d) l g =
    ap (restore_nodes d) (adjust_nodes-reserve n (with_residuals v) l g)
    ∙ restore_nodes-reserve d l (set_node n v g)

pub charge_all-append :
    (cs ds : Charges) (g : Graph) → charge_all (cs ++ ds) g ≡ charge_all ds (charge_all cs g)
charge_all-append [] ds g = refl
charge_all-append ((n, c, r) ∷ cs) ds g = charge_all-append cs ds (shift_node ◌-ℤ◌ n c r g)

-- A charge of recorded nodes does not matter to the restored graph.
pub restore_nodes-charge_all :
    (d : Dict Ident (ℤ × ℤ)) (cs : Charges) (g : Graph)
    → All (λ c. contains c.0 d ≡ true) cs
    → restore_nodes d (charge_all cs g) ≡ restore_nodes d g
restore_nodes-charge_all d [] g h = refl
restore_nodes-charge_all d ((n, c, r) ∷ cs) g h =
    restore_nodes-charge_all d cs (shift_node ◌-ℤ◌ n c r g) h.1 ∙ restore-shift_known n c r d g h.0
