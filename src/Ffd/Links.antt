-- ===== src/Ffd/Links.antt =====
-- greedy_ffd.py: the bandwidth of the routes.
use orion_v.Prelude.{
  ℤ, pos, ◌+ℤ◌, ◌-ℤ◌, ◌≤ℤ◌, ◌≡◌, refl, ap, sym, subst, ◌∙◌, inl, inr, List, [], ◌∷◌, true, false,
  some, arith, int_laws, All, add-zero_ℤ, zero-add_ℤ, +ℤ_assoc, ◌==◌, Bool-cases, if◌then◌else◌,
}
use orion_v.Prelude.Adjust.{find, key_of_find}
use orion_v.Prelude.Dict.{Dict, nat_eq, pair_eq, get_or, put, contains, get_or-put}
use orion_v.Prelude.Fail.{ok}
use orion_v.Types.{Ident, FlowKey, Link}
use orion_v.Substrate.{Graph, link_key, find_edge}
use orion_v.Substrate.Use.{hop_use, link_use}
use orion_v.Ffd.{PlacementState, bw_after, debited, debit_all}

hop_use-put :
    (id l : Ident) (bw : ℤ) (ps : Dict Ident ℤ)
    → contains l ps ≡ false
    → hop_use id (put l bw ps) ≡ hop_use id ps +ℤ (if id == l then bw else pos 0)
hop_use-put id l bw [] h = add-zero_ℤ _ ∙ sym (zero-add_ℤ _)
hop_use-put id l bw ((w, c) ∷ ps) h =
    let ih = hop_use-put id l bw ps (ground arith) in
    let other : l == w ≡ false = ground arith in rw other (rw ih (sym (+ℤ_assoc _ _ _)))

pub link_use-put :
    (id : Ident) (key : FlowKey) (per_link : Dict Ident ℤ) (fs : Dict FlowKey (Dict Ident ℤ))
    → contains key fs ≡ false
    → link_use id (put key per_link fs) ≡ link_use id fs +ℤ hop_use id per_link
link_use-put id key per_link [] h = add-zero_ℤ _ ∙ sym (zero-add_ℤ _)
link_use-put id key per_link ((w, c) ∷ ps) h = elim (Bool-cases (pair_eq.beq key w)) [
  | inl same ↦ absurd (ground arith)
  | inr other ↦
      rw other (rw (link_use-put id key per_link ps (ground arith)) (sym (+ℤ_assoc _ _ _)))
]

-- A directed graph has one edge from a node to another, and here no two edges have one link id.
pub record IsSimple (g : Graph) : Type 0 where
  pub by_ends :
      (u v : Ident) (l : Link) → find_edge g u v ≡ some l → find link_key l.link_id g.edges ≡ some l
  pub by_id :
      (id : Ident) (l : Link)
      → find link_key id g.edges ≡ some l
      → find_edge g l.source l.target ≡ some l

-- The running bandwidth is the network's less what the routes so far use, and none is below 0.
pub record IsWired (g : Graph) (st : PlacementState) : Type 0 where
  pub bw :
      (id : Ident) (x : Link)
      → find link_key id g.edges ≡ some x
      → bw_after st x +ℤ link_use id st.bw_allocations ≡ x.bw_residual
  pub fits : (id : Ident) (x : Link) → find link_key id g.edges ≡ some x → pos 0 ≤ℤ bw_after st x

-- Room for the demand on each of these links.
abbrev pub HasRoom : Graph → PlacementState → ℤ → List Ident → Type 0
HasRoom g st bw ls =
    All (λ l. (x : Link) × (find link_key l g.edges ≡ some x) × (bw ≤ℤ bw_after st x)) ls

abbrev pub DifferentFrom : Ident → List Ident → Type 0
DifferentFrom l ls = All (λ k. l == k ≡ false) ls

abbrev pub Distinct : List Ident → Type 0
Distinct [] = Unit
Distinct (l ∷ ls) = DifferentFrom l ls × Distinct ls

abbrev pub Unlisted : Dict Ident ℤ → List Ident → Type 0
Unlisted per_link ls = All (λ l. contains l per_link ≡ false) ls

settle_self : (a u h d : ℤ) → (a -ℤ d) +ℤ (u +ℤ (h +ℤ d)) ≡ a +ℤ (u +ℤ h)
settle_self a u h d = omega int_laws

room_left : (a d : ℤ) → d ≤ℤ a → pos 0 ≤ℤ a -ℤ d
room_left a d h = omega int_laws

contains-put_ne :
    {V : Type 0} (j k : Ident) (v : V) (d : Dict Ident V)
    → k == j ≡ false
    → contains j d ≡ false
    → contains j (put k v d) ≡ false
contains-put_ne j k v [] ne h = ground arith
contains-put_ne j k v ((i, w) ∷ d) ne h = ground (arith, contains-put_ne j k v d ne)

-- The routing leaves the placements alone.
abbrev pub Kept : PlacementState → PlacementState → Type 0
Kept st st' =
    (st'.vnf_placements ≡ st.vnf_placements)
    × (st'.cpu_allocations ≡ st.cpu_allocations)
    × (st'.ram_allocations ≡ st.ram_allocations)

module _ (g : Graph) (simple : IsSimple g) (bw : ℤ) where
  -- The bandwidth of one link after the debit of another or of itself.
  debited_bw :
      (st : PlacementState) (l : Ident) (e x : Link) (id : Ident)
      → find link_key l g.edges ≡ some e
      → find link_key id g.edges ≡ some x
      → bw_after (debited st bw l e) x ≡ (if id == l then bw_after st x -ℤ bw else bw_after st x)
  debited_bw st l e x id f f' =
      let k : x.link_id ≡ id = key_of_find link_key id g.edges f' in
      let put_there =
        get_or-put l x.link_id (get_or l e.bw_residual st.running_bw -ℤ bw) x.bw_residual
          st.running_bw in
      elim (Bool-cases (id == l)) [
        | inl same ↦
            let ids : id ≡ l = ground arith in
            let ex : e ≡ x = cc (f, f', ids) in
            let a : get_or l e.bw_residual st.running_bw ≡ bw_after st x = cc (ex, ids, k) in
            let hit : x.link_id == l ≡ true = ground arith in
            rw same (put_there ∙ rw hit (ap (λ t. t -ℤ bw) a))
        | inr other ↦
            let miss : x.link_id == l ≡ false = ground arith in rw other (put_there ∙ rw miss refl)
      ]

  HasRoom-debited :
      (st : PlacementState) (l : Ident) (e : Link) (ls : List Ident)
      → find link_key l g.edges ≡ some e
      → DifferentFrom l ls
      → HasRoom g st bw ls
      → HasRoom g (debited st bw l e) bw ls
  HasRoom-debited st l e [] f d r = tt
  HasRoom-debited st l e (k ∷ ls) f d r = (
    (
      r.0.0,
      r.0.1,
      subst (λ t. bw ≤ℤ t) (sym (debited_bw st l e r.0.0 k f r.0.1 ∙ ground arith)) r.0.2,
    ),
    HasRoom-debited st l e ls f d.1 r.1,
  )

  -- What holds along the loop over the links of a route.
  pub record IsDebited (per_link : Dict Ident ℤ) (st : PlacementState) : Type 0 where
    pub used :
        (id : Ident) (x : Link)
        → find link_key id g.edges ≡ some x
        → bw_after st x +ℤ (link_use id st.bw_allocations +ℤ hop_use id per_link) ≡ x.bw_residual
    pub left : (id : Ident) (x : Link) → find link_key id g.edges ≡ some x → pos 0 ≤ℤ bw_after st x

  Unlisted-put :
      (l : Ident) (per_link : Dict Ident ℤ) (ls : List Ident)
      → DifferentFrom l ls
      → Unlisted per_link ls
      → Unlisted (put l bw per_link) ls
  Unlisted-put l per_link [] d u = tt
  Unlisted-put l per_link (k ∷ ls) d u =
      (contains-put_ne k l bw per_link d.0 u.0, Unlisted-put l per_link ls d.1 u.1)

  IsDebited-debited :
      (l : Ident) (per_link : Dict Ident ℤ) (st : PlacementState) (e : Link)
      → find link_key l g.edges ≡ some e
      → bw ≤ℤ bw_after st e
      → contains l per_link ≡ false
      → IsDebited per_link st
      → IsDebited (put l bw per_link) (debited st bw l e)
  IsDebited-debited l per_link st e f room new d = record {
    used = λ id x f'.
        rw (debited_bw st l e x id f f', hop_use-put id l bw per_link new)
          (elim (Bool-cases (id == l)) [
            | inl same ↦ rw same (settle_self (bw_after st x) _ _ bw ∙ d.used id x f')
            | inr other ↦ rw (other, add-zero_ℤ) (d.used id x f')
          ]);
    left = λ id x f'. rw (debited_bw st l e x id f f') (elim (Bool-cases (id == l)) [
      | inl same ↦ rw same (room_left (bw_after st x) bw (at_self id x f' same))
      | inr other ↦ rw other (d.left id x f')
    ]);
  }
    where
      at_self :
          (id : Ident) (x : Link)
          → find link_key id g.edges ≡ some x
          → id == l ≡ true
          → bw ≤ℤ bw_after st x
      at_self id x f' same =
          let ids : id ≡ l = ground arith in
          let ex : e ≡ x = cc (f, f', ids) in subst (λ (t : Link). bw ≤ℤ bw_after st t) ex room

  pub debit_all-IsDebited :
      (ls : List Ident) (per_link out : Dict Ident ℤ) (st st' : PlacementState)
      → Distinct ls
      → Unlisted per_link ls
      → HasRoom g st bw ls
      → IsDebited per_link st
      → debit_all g bw ls per_link st ≡ ok (st', out)
      → IsDebited out st' × (st'.bw_allocations ≡ st.bw_allocations) × (Kept st st')
  unfolding debit_all
  debit_all-IsDebited [] per_link out st st' ne u r d h =
      let e : st ≡ st' = cc in
      let e' : per_link ≡ out = cc in
      (
        subst (λ t. IsDebited t st') e' (subst (λ t. IsDebited per_link t) e d),
        ap (λ (t : PlacementState). t.bw_allocations) (sym e),
        (
          ap (λ (t : PlacementState). t.vnf_placements) (sym e),
          ap (λ (t : PlacementState). t.cpu_allocations) (sym e),
          ap (λ (t : PlacementState). t.ram_allocations) (sym e),
        ),
      )
  debit_all-IsDebited (l ∷ ls) per_link out st st' ne u r d h =
      let (e, f, room) = r.0 in
      let ends = simple.by_id l e f in
      debit_all-IsDebited ls (put l bw per_link) out (debited st bw l e) st' ne.1
        (Unlisted-put l per_link ls ne.0 u.1) (HasRoom-debited st l e ls f ne.0 r.1)
        (IsDebited-debited l per_link st e f room u.0 d) (ground arith)
