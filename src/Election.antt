-- ===== src/Election.antt =====
-- election/: who leads a view. The SHA-1 digest of a decimal numeral, read as a 64-bit number, is
-- the parameter `draw` of its number.
pub mod Agreement
pub mod Tests
use bamboo.Prelude.{
  ℕ, ◌+◌, ◌-◌, ◌%◌, ◌^◌, ◌≤◌, ◌<◌, ◌≡◌, Bool, true, false, leb, ltb, ◌==◌, if◌then◌else◌,
}
use bamboo.Types.{View, NodeId}

-- election.go
pub record Election : Type 0 where
  pub is_leader : NodeId → View → Bool
  pub find_leader_for : View → NodeId

-- static.go
pub static : NodeId → Election
static master = record { is_leader = λ id view. id == master; find_leader_for = λ view. master }

-- rotation.go. `uint64(id.Node()-1)` wraps around at node 0. There is at least one peer: the source
-- divides by their number.
pub rotation_is_leader : (ℕ → ℕ) → ℕ → NodeId → View → Bool
rotation_is_leader draw peer_no id view =
    if leb view 3
    then (if ltb id peer_no then false else true)
    else draw (view + 1) % peer_no == (id + (2 ^ 64 - 1)) % 2 ^ 64

pub rotation_find_leader_for : (ℕ → ℕ) → ℕ → View → NodeId
rotation_find_leader_for draw peer_no view =
    if leb view 3 then peer_no else draw (view + 1) % peer_no + 1

pub rotation : (ℕ → ℕ) → ℕ → Election
rotation draw peer_no = record {
  is_leader = rotation_is_leader draw peer_no;
  find_leader_for = rotation_find_leader_for draw peer_no;
}
