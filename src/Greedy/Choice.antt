-- ===== src/Greedy/Choice.antt =====
-- greedy_domain_actor.py: the choice that `_select_node` makes.
use mathlib.Core.List.{Memᴰ}
use orion_v.Prelude.{
  ◌≤◌, ℤ, ◌*ℤ◌, ◌≤ℤ◌, ◌≢◌, ◌↔◌, ◌⊎◌, length, ltb, ◌==◌, ◌≡◌, refl, ap, subst, sym, inl, inr, List,
  [], ◌∷◌, Bool, true, false, Option, none, some, arith, All, Bool-cases, Option-cases, not, ◌&&◌,
  ◌||◌, ltb_ℤ,
}
use orion_v.Prelude.Fail.{ok, Result-cases}
use orion_v.Prelude.Sort.{sort, sort-least, sort-All, All-sort}
use orion_v.Types.{Ident, Node, tier_beq, tier_beq_iff}
use orion_v.Types.Mdo.{VnfAssignment}
use orion_v.ChainOrder.{mem}
use orion_v.ChainOrder.Member.{Memᴰ-of_mem, mem-Memᴰ}
use orion_v.Substrate.{Graph, find_node}
use orion_v.Greedy.{
  Candidate, lt_candidate, is_permitted, lacks_room, candidate, candidates, first_node, select_node,
}

lt_candidate_irrefl : (a : Candidate) → lt_candidate a a ≡ false
lt_candidate_irrefl (x, y, n) = ground arith

-- One level of a lexicographic order of numbers, whose next level is `p`, `q` and `r`.
not_trans_level :
    (x y z : ℤ) (p q r : Bool)
    → (p ≡ false → q ≡ false → r ≡ false)
    → (ltb_ℤ y x || (not (ltb_ℤ x y) && p)) ≡ false
    → (ltb_ℤ z y || (not (ltb_ℤ y z) && q)) ≡ false
    → (ltb_ℤ z x || (not (ltb_ℤ x z) && r)) ≡ false
not_trans_level x y z p q r next h k = ground arith

lt_candidate_not_trans :
    (a b c : Candidate)
    → lt_candidate b a ≡ false
    → lt_candidate c b ≡ false
    → lt_candidate c a ≡ false
lt_candidate_not_trans (x, y, n) (x', y', n') (x'', y'', n'') h k =
    not_trans_level x x' x'' _ _ _ (not_trans_level y y' y'' _ _ _ (λ p q. ground arith)) h k

lt_candidate_asym : (a b : Candidate) → lt_candidate a b ≡ true → lt_candidate b a ≡ false
lt_candidate_asym (x, y, n) (x', y', n') h = ground arith

module _ (g : Graph) (v : VnfAssignment) where
  -- The list of permitted nodes is empty or has the node.
  abbrev pub IsAllowed : Ident → Type 0
  IsAllowed n = (v.permitted_nodes ≡ []) ⊎ Memᴰ n v.permitted_nodes

  abbrev pub HasRoom : Node → Type 0
  HasRoom d = (v.cpu_demand ≤ℤ d.cpu_residual) × (v.ram_demand ≤ℤ d.ram_residual)

  is_permitted_iff : (n : Ident) → (is_permitted v n ≡ true) ↔ IsAllowed n
  is_permitted_iff n = (λ h. allowed_of v.permitted_nodes h, λ h. of_allowed v.permitted_nodes h)
    where
      allowed_of : (ns : List Ident) → (length ns == 0 || mem n ns) ≡ true → (ns ≡ []) ⊎ Memᴰ n ns
      allowed_of [] h = inl refl
      allowed_of (m ∷ ns) h = inr (Memᴰ-of_mem n (m ∷ ns) (ground (arith, h)))

      of_allowed : (ns : List Ident) → (ns ≡ []) ⊎ Memᴰ n ns → (length ns == 0 || mem n ns) ≡ true
      of_allowed ns (inl e) = rw e refl
      of_allowed ns (inr h) = ground (arith, mem-Memᴰ n ns h)

  lacks_room_iff : (d : Node) → (lacks_room v d ≡ false) ↔ HasRoom d
  lacks_room_iff d = (λ h. (ground (arith, h), ground (arith, h)), λ h. ground (arith, h.0, h.1))

  -- The node is one of these, is permitted, and has the CPU and the RAM that the VNF demands.
  pub record Suits (ns : List Ident) (n : Ident) (d : Node) : Type 0 where
    pub inside : Memᴰ n ns
    pub permitted : IsAllowed n
    pub found : find_node g n ≡ some d
    pub room : HasRoom d

  -- `proc_delay`
  abbrev pub delay_at : Node → ℤ
  delay_at d = d.processing_delay *ℤ v.computational_intensity

  -- The first node is of the required tier and the second is not; or both or neither are, and it has
  -- the smaller processing delay for the VNF; or the same delay, and an id that is not greater.
  pub data Preferred (n : Ident) (d : Node) (m : Ident) (e : Node) : Type 0 where
    by_tier : d.tier ≡ v.required_tier → e.tier ≢ v.required_tier → Preferred n d m e
    by_delay :
        (d.tier ≡ v.required_tier) ↔ (e.tier ≡ v.required_tier)
        → ltb_ℤ (delay_at d) (delay_at e) ≡ true
        → Preferred n d m e
    by_id :
        (d.tier ≡ v.required_tier) ↔ (e.tier ≡ v.required_tier)
        → delay_at d ≡ delay_at e
        → n ≤ m
        → Preferred n d m e

  -- The outcome of the selection: a node that suits and is preferred to every other such node, or no
  -- node suits.
  pub data Choice (ns : List Ident) (out : Option Ident) : Type 0 where
    chosen :
        (n : Ident) (d : Node)
        → out ≡ some n
        → Suits ns n d
        → ((m : Ident) (e : Node) → Suits ns m e → Preferred n d m e)
        → Choice ns out
    nobody : out ≡ none → ((m : Ident) (e : Node) → ¬ Suits ns m e) → Choice ns out

  Preferred-of_key :
      (n : Ident) (d : Node) (m : Ident) (e : Node)
      → lt_candidate (candidate v m e) (candidate v n d) ≡ false
      → Preferred n d m e
  Preferred-of_key n d m e h = elim (Bool-cases (tier_beq d.tier v.required_tier)) [
    | inl dt ↦ elim (Bool-cases (tier_beq e.tier v.required_tier)) [
      | inl et ↦
          alike
            ((
              λ _. (tier_beq_iff e.tier v.required_tier).0 et,
              λ _. (tier_beq_iff d.tier v.required_tier).0 dt,
            ))
            (later_levels _ _ _ _ (rw (dt, et) at h))
      | inr et ↦
          by_tier ((tier_beq_iff d.tier v.required_tier).0 dt)
            (λ is. cc (et, (tier_beq_iff e.tier v.required_tier).1 is))
    ]
    | inr dt ↦ elim (Bool-cases (tier_beq e.tier v.required_tier)) [
      | inl et ↦ cc (rw (dt, et) at h)
      | inr et ↦
          alike
            ((
              λ is. cc (dt, (tier_beq_iff d.tier v.required_tier).1 is),
              λ is. cc (et, (tier_beq_iff e.tier v.required_tier).1 is),
            ))
            (later_levels _ _ _ _ (rw (dt, et) at h))
    ]
  ]
    where
      later_levels :
          (x y : ℤ) (i j : Ident)
          → (ltb_ℤ x y || (not (ltb_ℤ y x) && ltb i j)) ≡ false
          → (ltb_ℤ y x ≡ true) ⊎ ((y ≡ x) × (j ≤ i))
      later_levels x y i j h = elim (Bool-cases (ltb_ℤ y x)) [
        | inl less ↦ inl less
        | inr more ↦ inr (ground (arith, h, more), ground (arith, h, more))
      ]

      alike :
          (d.tier ≡ v.required_tier) ↔ (e.tier ≡ v.required_tier)
          → (ltb_ℤ (delay_at d) (delay_at e) ≡ true) ⊎ ((delay_at d ≡ delay_at e) × (n ≤ m))
          → Preferred n d m e
      alike t (inl less) = by_delay t less
      alike t (inr same) = by_id t same.0 same.1

  abbrev OfNode : List Ident → Candidate → Type 0
  OfNode ns c = (n : Ident) × (d : Node) × Suits ns n d × (c ≡ candidate v n d)

  Suits-cons : (m n : Ident) (ns : List Ident) (d : Node) → Suits ns n d → Suits (m ∷ ns) n d
  Suits-cons m n ns d h = record {
    inside = Memᴰ.tail h.inside;
    permitted = h.permitted;
    found = h.found;
    room = h.room;
  }

  OfNode-cons :
      (m : Ident) (ns : List Ident) (cs : List Candidate)
      → All (OfNode ns) cs
      → All (OfNode (m ∷ ns)) cs
  OfNode-cons m ns [] h = tt
  OfNode-cons m ns (c ∷ cs) h =
      let (n, d, su, e) = h.0 in ((n, d, Suits-cons m n ns d su, e), OfNode-cons m ns cs h.1)

  -- The candidates are the nodes that suit: no more, and no fewer.
  record Exact (ns : List Ident) (cs : List Candidate) : Type 0 where
    sound : All (OfNode ns) cs
    complete : (n : Ident) (d : Node) → Suits ns n d → Memᴰ (candidate v n d) cs

  Exact-skip :
      (m : Ident) (ns : List Ident) (cs : List Candidate)
      → ((d : Node) → ¬ Suits (m ∷ ns) m d)
      → Exact ns cs
      → Exact (m ∷ ns) cs
  Exact-skip m ns cs unfit x = record {
    sound = OfNode-cons m ns cs x.sound;
    complete = λ n d h. go n d h h.inside;
  }
    where
      go : (n : Ident) (d : Node) → Suits (m ∷ ns) n d → Memᴰ n (m ∷ ns) → Memᴰ (candidate v n d) cs
      go n d h (Memᴰ.head e) = absurd (unfit d (subst (λ t. Suits (m ∷ ns) t d) e h))
      go n d h (Memᴰ.tail t) =
          x.complete n d
            (record { inside = t; permitted = h.permitted; found = h.found; room = h.room })

  Exact-take :
      (m : Ident) (ns : List Ident) (cs : List Candidate) (d : Node)
      → IsAllowed m
      → find_node g m ≡ some d
      → HasRoom d
      → Exact ns cs
      → Exact (m ∷ ns) (candidate v m d ∷ cs)
  Exact-take m ns cs d p f r x = record {
    sound = (
      (m, d, record { inside = Memᴰ.head refl; permitted = p; found = f; room = r }, refl),
      OfNode-cons m ns cs x.sound,
    );
    complete = λ n e h. go n e h h.inside;
  }
    where
      go :
          (n : Ident) (e : Node)
          → Suits (m ∷ ns) n e
          → Memᴰ n (m ∷ ns)
          → Memᴰ (candidate v n e) (candidate v m d ∷ cs)
      go n e h (Memᴰ.head q) =
          let f' : find_node g m ≡ some e = subst (λ t. find_node g t ≡ some e) q h.found in
          let same : e ≡ d = cc (f, f') in Memᴰ.head (cc (q, same))
      go n e h (Memᴰ.tail t) = Memᴰ.tail (
          x.complete n e
            (record { inside = t; permitted = h.permitted; found = h.found; room = h.room }))

  candidates-Exact :
      (ns : List Ident) (cs : List Candidate) → candidates g v ns ≡ ok cs → Exact ns cs
  unfolding candidates
  candidates-Exact [] cs h =
      let e : cs ≡ [] = cc in rw e (record { sound = tt; complete = λ n d su. elim su.inside [ ] })
  candidates-Exact (m ∷ ns) cs h = elim (Bool-cases (is_permitted v m)) [
    | inr banned ↦
        Exact-skip m ns cs (λ d su. cc (banned, (is_permitted_iff m).1 su.permitted))
          (candidates-Exact ns cs (ground arith))
    | inl allowed ↦ elim (Option-cases (find_node g m)) [
      | inl e ↦ absurd (ground arith)
      | inr (d, e) ↦ elim (Bool-cases (lacks_room v d)) [
        | inl full ↦
            Exact-skip m ns cs
              (λ d' su.
                let same : d' ≡ d = cc (e, su.found) in
                cc (full, (lacks_room_iff d').1 su.room, same))
              (candidates-Exact ns cs (ground arith))
        | inr room ↦ elim (Result-cases (candidates g v ns)) [
          | inr (x, e') ↦ absurd (ground arith)
          | inl (cs', e') ↦
              let split : cs ≡ candidate v m d ∷ cs' = ground arith in
              rw split (
                Exact-take m ns cs' d ((is_permitted_iff m).0 allowed) e ((lacks_room_iff d).0 room)
                  (candidates-Exact ns cs' e'))
        ]
      ]
    ]
  ]

  All-at_candidate {κ} :
      (P : Candidate → Type κ) (c : Candidate) (cs : List Candidate) → All P cs → Memᴰ c cs → P c
  All-at_candidate P c [] h m = elim m [ ]
  All-at_candidate P c (d ∷ cs) h (Memᴰ.head e) = subst P (sym e) h.0
  All-at_candidate P c (d ∷ cs) h (Memᴰ.tail m) = All-at_candidate P c cs h.1 m

  Choice-of :
      (ns : List Ident) (cs sorted : List Candidate)
      → Exact ns cs
      → sort lt_candidate cs ≡ sorted
      → Choice ns (first_node sorted)
  Choice-of ns cs [] x e = nobody refl (λ m d su. no_member m d (x.complete m d su))
    where
      no_member : (m : Ident) (d : Node) → Memᴰ (candidate v m d) cs → ⊥
      no_member m d t =
          All-at_candidate (λ _. ⊥) (candidate v m d) cs
            (All-sort lt_candidate (λ _. ⊥) cs (rw e tt)) t
  Choice-of ns cs (c ∷ rest) x e =
      let least =
        sort-least lt_candidate lt_candidate_irrefl lt_candidate_not_trans lt_candidate_asym cs c
          rest e in
      let sorted_sound : All (OfNode ns) (c ∷ rest) =
        subst (All (OfNode ns)) e (sort-All lt_candidate (OfNode ns) cs x.sound) in
      let (n, d, su, ec) = sorted_sound.0 in
      chosen n d (ap (λ t. first_node (t ∷ rest)) ec) su (λ m d' su'. Preferred-of_key n d m d' (
        subst (λ t. lt_candidate (candidate v m d') t ≡ false) ec
          (All-at_candidate (λ t. lt_candidate t c ≡ false) (candidate v m d') cs least
            (x.complete m d' su'))))

  -- `_select_node` picks the best node. It answers a node of the domain that the VNF permits (or the
  -- VNF permits all) and whose residual CPU and RAM cover its demands, such that every other node of
  -- this kind comes after it: by the required tier first, which is a preference only, then by the
  -- processing delay, then by the id; or it answers none, and no node is of this kind.
  pub select_node-Choice :
      (ns : List Ident) (out : Option Ident) → select_node g v ns ≡ ok out → Choice ns out
  unfolding select_node
  select_node-Choice ns out h = elim (Result-cases (candidates g v ns)) [
    | inr (x, e) ↦ absurd (ground arith)
    | inl (cs, e) ↦
        let same : first_node (sort lt_candidate cs) ≡ out = ground arith in
        subst (Choice ns) same
          (Choice-of ns cs (sort lt_candidate cs) (candidates-Exact ns cs e) refl)
  ]
