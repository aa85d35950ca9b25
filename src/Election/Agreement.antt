-- ===== src/Election/Agreement.antt =====
-- The two questions of an election have one answer.
use native.Mathlib.Nat.{mod-lt}
use bamboo.Prelude.{ℕ, ◌+◌, ◌-◌, ◌%◌, ◌^◌, ◌≤◌, ◌≡◌, ◌==◌, arith}
use bamboo.Types.{View, NodeId}
use bamboo.Election.{rotation, rotation_is_leader, rotation_find_leader_for}

index_of_node : (id : NodeId) → 1 ≤ id → id ≤ 2 ^ 64 → (id + (2 ^ 64 - 1)) % 2 ^ 64 ≡ id - 1
index_of_node id lo hi = omega arith

-- Among the peers 1 to `peer_no`, a node is told that it leads a view exactly if it is the leader
-- found for that view, and the leader found is one of the peers.
pub rotation-agrees :
    (draw : ℕ → ℕ) (peer_no : ℕ) (id : NodeId) (view : View)
    → 1 ≤ id
    → id ≤ peer_no
    → peer_no ≤ 2 ^ 64
    → let e = rotation draw peer_no in
      (e.is_leader id view ≡ (e.find_leader_for view == id))
      × (1 ≤ e.find_leader_for view)
      × (e.find_leader_for view ≤ peer_no)
unfolding rotation rotation_is_leader rotation_find_leader_for
rotation-agrees draw peer_no id view lo hi fits =
    ground (arith, index_of_node id lo, mod-lt (draw (view + 1)) {m = peer_no} (omega arith))
