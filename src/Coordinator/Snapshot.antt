-- ===== src/Coordinator/Snapshot.antt =====
-- coordinator.py: the snapshot of the node residuals and its restoration.
use mathlib.Core.List.{Memᴰ}
use orion_v.Prelude.{
  ℕ, ℤ, ◌-ℤ◌, ◌≡◌, refl, ap, sym, ◌∙◌, subst, List, [], ◌∷◌, map, Bool, true, false, arith,
  if◌then◌else◌, filter, ◌==◌, some, Option-cases, inl, inr, Bool-cases,
}
use orion_v.Prelude.Dict.{Dict, put, contains, nat_eq, contains-put_self}
use orion_v.Prelude.Keys.{Each, Each-write}
use orion_v.Prelude.Adjust.{find, adjust, adjust_fixed}
use orion_v.Types.{Ident, Node}
use orion_v.Substrate.{
  Graph, SubstrateNetwork, node_key, find_node, charged_node, shift_node, nodes_in_domain,
}
use orion_v.Routing.{allocate_route_bw}
use orion_v.Greedy.{restore_nodes, set_node, with_residuals}
use orion_v.Coordinator.{snapshot_nodes, snapshot_domains, snapshot_node_residuals}
use orion_v.Coordinator.Ledger.{Reservations, reserve, Charges, charge_all, charge_route-nodes}

abbrev Snapshot : Type 0
Snapshot = Dict Ident (ℤ × ℤ)

-- The entry is what the graph says.
abbrev Recorded : Graph → Ident → ℤ × ℤ → Type 0
Recorded g n v = (x : Node) × (find_node g n ≡ some x) × (v ≡ (x.cpu_residual, x.ram_residual))

contains-put_kept :
    (j n : Ident) (v : ℤ × ℤ) (d : Snapshot) → contains j d ≡ true → contains j (put n v d) ≡ true
contains-put_kept j n v [] h = cc
contains-put_kept j n v ((m, w) ∷ d) h = ground (arith, contains-put_kept j n v d)

snapshot_nodes-Recorded :
    (g : Graph) (ns : List Ident) (d : Snapshot)
    → Each (Recorded g) d
    → Each (Recorded g) (snapshot_nodes g ns d)
snapshot_nodes-Recorded g [] d h = h
snapshot_nodes-Recorded g (n ∷ ns) d h = elim (Option-cases (find_node g n)) [
  | inl e ↦ subst (Each (Recorded g)) (ground arith) (snapshot_nodes-Recorded g ns d h)
  | inr (x, e) ↦ subst (Each (Recorded g)) (ground arith) (
      snapshot_nodes-Recorded g ns (put n (x.cpu_residual, x.ram_residual) d)
        (Each-write (Recorded g) n (x.cpu_residual, x.ram_residual) d (x, e, refl) h))
]

snapshot_domains-Recorded :
    (s : SubstrateNetwork) (ds : List ℕ) (d : Snapshot)
    → Each (Recorded s.graph) d
    → Each (Recorded s.graph) (snapshot_domains s ds d)
snapshot_domains-Recorded s [] d h = h
snapshot_domains-Recorded s (k ∷ ks) d h =
    snapshot_domains-Recorded s ks (snapshot_nodes s.graph (nodes_in_domain s k) d)
      (snapshot_nodes-Recorded s.graph (nodes_in_domain s k) d h)

restore-Recorded : (g : Graph) (d : Snapshot) → Each (Recorded g) d → restore_nodes d g ≡ g
restore-Recorded g [] h = refl
restore-Recorded g ((n, v) ∷ d) h =
    let (x, f, e) = h.0 in
    let fixed : set_node n v g ≡ g =
      ap (λ ns. record g { nodes = ns })
        (adjust_fixed node_key (with_residuals v) n g.nodes f (rw e refl)) in
    ap (restore_nodes d) fixed ∙ restore-Recorded g d h.1

-- Nothing was charged yet: restoring changes nothing.
pub restore-snapshot :
    (s : SubstrateNetwork) (partition : List ℕ)
    → restore_nodes (snapshot_node_residuals s partition) s.graph ≡ s.graph
unfolding snapshot_node_residuals
restore-snapshot s partition =
    restore-Recorded s.graph (snapshot_domains s partition [])
      (snapshot_domains-Recorded s partition [] tt)

snapshot_nodes-kept :
    (g : Graph) (ns : List Ident) (d : Snapshot) (j : Ident)
    → contains j d ≡ true
    → contains j (snapshot_nodes g ns d) ≡ true
snapshot_nodes-kept g [] d j h = h
snapshot_nodes-kept g (n ∷ ns) d j h = elim (Option-cases (find_node g n)) [
  | inl e ↦ subst (λ t. contains j t ≡ true) (ground arith) (snapshot_nodes-kept g ns d j h)
  | inr (x, e) ↦
      subst (λ t. contains j t ≡ true) (ground arith)
        (snapshot_nodes-kept g ns (put n (x.cpu_residual, x.ram_residual) d) j
          (contains-put_kept j n (x.cpu_residual, x.ram_residual) d h))
]

snapshot_nodes-contains :
    (g : Graph) (ns : List Ident) (d : Snapshot) (j : Ident) (y : Node)
    → Memᴰ j ns
    → find_node g j ≡ some y
    → contains j (snapshot_nodes g ns d) ≡ true
snapshot_nodes-contains g [] d j y m f = elim m [ ]
snapshot_nodes-contains g (n ∷ ns) d j y (Memᴰ.head e) f =
    let f' : find_node g n ≡ some y = subst (λ t. find_node g t ≡ some y) e f in
    let v : ℤ × ℤ = (y.cpu_residual, y.ram_residual) in
    let step : snapshot_nodes g ns (put n v d) ≡ snapshot_nodes g (n ∷ ns) d = ground arith in
    subst (λ t. contains j t ≡ true) step
      (snapshot_nodes-kept g ns (put n v d) j
        (subst (λ t. contains t (put n v d) ≡ true) (sym e) (contains-put_self n v d)))
snapshot_nodes-contains g (n ∷ ns) d j y (Memᴰ.tail t) f = elim (Option-cases (find_node g n)) [
  | inl e ↦ subst (λ q. contains j q ≡ true) (ground arith) (snapshot_nodes-contains g ns d j y t f)
  | inr (x, e) ↦
      subst (λ t. contains j t ≡ true) (ground arith)
        (snapshot_nodes-contains g ns (put n (x.cpu_residual, x.ram_residual) d) j y t f)
]

snapshot_domains-kept :
    (s : SubstrateNetwork) (ds : List ℕ) (d : Snapshot) (j : Ident)
    → contains j d ≡ true
    → contains j (snapshot_domains s ds d) ≡ true
snapshot_domains-kept s [] d j h = h
snapshot_domains-kept s (k ∷ ks) d j h =
    snapshot_domains-kept s ks (snapshot_nodes s.graph (nodes_in_domain s k) d) j
      (snapshot_nodes-kept s.graph (nodes_in_domain s k) d j h)

find_of_mem :
    (p : Node → Bool) (j : Ident) (ns : List Node)
    → Memᴰ j (map node_key (filter p ns))
    → (y : Node) × (find node_key j ns ≡ some y)
find_of_mem p j [] m = elim m [ ]
find_of_mem p j (x ∷ ns) m = elim (Bool-cases (x.node_id == j)) [
  | inl here ↦ (x, rw here refl)
  | inr other ↦ let (y, f) = find_of_mem p j ns (later (p x) refl m other) in (y, rw other f)
]
  where
    later :
        (b : Bool)
        → p x ≡ b
        → Memᴰ j (map node_key (if b then x ∷ filter p ns else filter p ns))
        → x.node_id == j ≡ false
        → Memᴰ j (map node_key (filter p ns))
    later true e (Memᴰ.head h) ne = absurd (ground arith)
    later true e (Memᴰ.tail t) ne = t
    later false e t ne = t

snapshot_domains-contains :
    (s : SubstrateNetwork) (ds : List ℕ) (d : Snapshot) (k : ℕ) (j : Ident)
    → Memᴰ k ds
    → Memᴰ j (nodes_in_domain s k)
    → contains j (snapshot_domains s ds d) ≡ true
unfolding nodes_in_domain
snapshot_domains-contains s [] d k j m t = elim m [ ]
snapshot_domains-contains s (i ∷ ds) d k j (Memᴰ.head e) t =
    let t' : Memᴰ j (nodes_in_domain s i) = subst (λ q. Memᴰ j (nodes_in_domain s q)) e t in
    let (y, f) = find_of_mem (λ n. n.domain_id == i) j s.graph.nodes t' in
    snapshot_domains-kept s ds _ j
      (snapshot_nodes-contains s.graph (nodes_in_domain s i) d j y t' f)
snapshot_domains-contains s (i ∷ ds) d k j (Memᴰ.tail m) t =
    snapshot_domains-contains s ds (snapshot_nodes s.graph (nodes_in_domain s i) d) k j m t

pub snapshot-contains :
    (s : SubstrateNetwork) (partition : List ℕ) (k : ℕ) (j : Ident)
    → Memᴰ k partition
    → Memᴰ j (nodes_in_domain s k)
    → contains j (snapshot_node_residuals s partition) ≡ true
unfolding snapshot_node_residuals
snapshot-contains s partition k j m t = snapshot_domains-contains s partition [] k j m t

-- The charges leave the nodes in their domains.
nodes-shift :
    (p : Node → Bool) (n : Ident) (c r : ℤ) (ns : List Node)
    → ((x : Node) → p (charged_node ◌-ℤ◌ c r x) ≡ p x)
    → map node_key (filter p (adjust node_key n (charged_node ◌-ℤ◌ c r) ns))
      ≡ map node_key (filter p ns)
unfolding adjust
nodes-shift p n c r [] same = refl
nodes-shift p n c r (x ∷ ns) same = ground (arith, same x, nodes-shift p n c r ns same)

nodes-charge_all :
    (k : ℕ) (cs : Charges) (g : Graph)
    → map node_key (filter (λ n. n.domain_id == k) (charge_all cs g).nodes)
      ≡ map node_key (filter (λ n. n.domain_id == k) g.nodes)
nodes-charge_all k [] g = refl
nodes-charge_all k ((n, c, r) ∷ cs) g =
    nodes-charge_all k cs (shift_node ◌-ℤ◌ n c r g)
    ∙ nodes-shift (λ n. n.domain_id == k) n c r g.nodes (λ _. refl)

reserve-nodes : (l : Reservations) (g : Graph) → (reserve l g).nodes ≡ g.nodes
unfolding allocate_route_bw
reserve-nodes [] g = refl
reserve-nodes ((ls, b) ∷ l) g =
    reserve-nodes l (allocate_route_bw ls b g) ∙ charge_route-nodes ◌-ℤ◌ b ls g

pub nodes_in_domain-charged :
    (s : SubstrateNetwork) (k : ℕ) (l : Reservations) (cs : Charges)
    → nodes_in_domain (record s { graph = reserve l (charge_all cs s.graph) }) k
      ≡ nodes_in_domain s k
unfolding nodes_in_domain
nodes_in_domain-charged s k l cs =
    ap (λ ns. map node_key (filter (λ n. n.domain_id == k) ns))
      (reserve-nodes l (charge_all cs s.graph))
    ∙ nodes-charge_all k cs s.graph
