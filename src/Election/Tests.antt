-- ===== src/Election/Tests.antt =====
-- The rotation among four peers, in a view where it is drawn.
use bamboo.Prelude.{◌*◌, ◌≡◌, ◌≤◌, ◌==◌, arith}
use bamboo.Election.{rotation}
use bamboo.Election.Agreement.{rotation-agrees}

rotation-agrees_example :
    let e = rotation (λ view. view * 7) 4 in
    (e.is_leader 3 10 ≡ (e.find_leader_for 10 == 3))
    × (1 ≤ e.find_leader_for 10)
    × (e.find_leader_for 10 ≤ 4)
rotation-agrees_example =
    rotation-agrees (λ view. view * 7) 4 3 10 (omega arith) (omega arith) (omega arith)
