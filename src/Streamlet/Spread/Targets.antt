-- ===== src/Streamlet/Spread/Targets.antt =====
-- Whom the loops send to.
use bamboo.Prelude.{
  Bool, ℕ, zero, suc, ◌+◌, ◌-◌, ◌<◌, ◌≡◌, not, ◌&&◌, ◌||◌, Bool-cases, inl, inr, mem, ltb, leb,
  ◌==◌, arith,
}
use bamboo.Types.{NodeId}
use bamboo.Streamlet.Spread.{nodes_from, all_nodes, other_nodes_from, other_nodes}

mem-nodes_from :
    (fuel : ℕ) (last node k : NodeId)
    → last < node + fuel
    → mem k (nodes_from fuel last node) ≡ (leb node k && leb k last)
unfolding nodes_from
mem-nodes_from zero last node k lt = ground arith
mem-nodes_from (suc fuel) last node k lt =
    let rest = mem-nodes_from fuel last (node + 1) k (omega (arith, lt)) in
    elim (Bool-cases (ltb last node)) [
      | inl over ↦ rw over (ground (arith, over))
      | inr in_range ↦ rw in_range (rw rest (ground (arith, in_range)))
    ]

-- The normal broadcast goes to the nodes 1 to n.
pub mem-all_nodes : (n : ℕ) (k : NodeId) → mem k (all_nodes n) ≡ (leb 1 k && leb k n)
unfolding all_nodes
mem-all_nodes n k = mem-nodes_from n n 1 k (omega arith)

-- Up to the last node without the next leader; and the node after the last, where that leader is the
-- last one.
abbrev others : NodeId → NodeId → NodeId → NodeId → Bool
others next last node k =
    (leb node k && leb k last && not (k == next))
    || (next == last && leb node last && k == last + 1)

mem-other_nodes_from :
    (fuel : ℕ) (next last node k : NodeId)
    → last < node + fuel
    → mem k (other_nodes_from fuel next last node) ≡ others next last node k
unfolding other_nodes_from
mem-other_nodes_from zero next last node k lt = ground arith
mem-other_nodes_from (suc fuel) next last node k lt = elim (Bool-cases (ltb last node)) [
  | inl over ↦ rw over (ground (arith, over))
  | inr in_range ↦ elim (Bool-cases (node == next)) [
    | inl is_next ↦
        let rest = mem-other_nodes_from fuel next last (node + 1 + 1) k (omega (arith, lt)) in
        rw in_range (rw is_next (rw rest (ground (arith, in_range, is_next))))
    | inr other ↦
        let rest = mem-other_nodes_from fuel next last (node + 1) k (omega (arith, lt)) in
        rw in_range (rw other (rw rest (ground (arith, in_range, other))))
  ]
]

-- A withheld vote goes to the nodes 1 to n - 1 but the next leader; node n gets it only where node
-- n - 1 is the next leader.
pub mem-other_nodes :
    (n : ℕ) (next k : NodeId)
    → mem k (other_nodes n next) ≡ (
        (leb 1 k && leb k (n - 1) && not (k == next))
        || (next == n - 1 && leb 1 (n - 1) && k == n - 1 + 1))
unfolding other_nodes
mem-other_nodes n next k = mem-other_nodes_from n next (n - 1) 1 k (omega arith)
