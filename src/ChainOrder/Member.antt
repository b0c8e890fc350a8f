-- ===== src/ChainOrder/Member.antt =====
-- chain_order.py: the test of membership, against membership.
use mathlib.Core.List.{Memᴰ}
use orion_v.Prelude.{ℕ, ◌≡◌, true, arith, inl, inr, List, [], ◌∷◌, Bool-cases, ◌==◌}
use orion_v.ChainOrder.{mem}

pub Memᴰ-of_mem : (n : ℕ) (ns : List ℕ) → mem n ns ≡ true → Memᴰ n ns
Memᴰ-of_mem n [] h = cc
Memᴰ-of_mem n (m ∷ ns) h = elim (Bool-cases (n == m)) [
  | inl same ↦ Memᴰ.head (ground (arith, same))
  | inr other ↦ Memᴰ.tail (Memᴰ-of_mem n ns (ground (arith, h, other)))
]

pub mem-Memᴰ : (n : ℕ) (ns : List ℕ) → Memᴰ n ns → mem n ns ≡ true
mem-Memᴰ n [] h = elim h [ ]
mem-Memᴰ n (m ∷ ns) (Memᴰ.head e) = ground (arith, e)
mem-Memᴰ n (m ∷ ns) (Memᴰ.tail h) = ground (arith, mem-Memᴰ n ns h)
