-- ===== src/Pacemaker/Tests.antt =====
-- A pacemaker of four nodes that gets three timeouts for view 1 and moves on.
use bamboo.Prelude.{none}
use bamboo.Types.{NodeId, Tmo}
use bamboo.Pacemaker.Controller.{Tally, new_tally, add}

abbrev timeout : NodeId → Tmo
timeout node = record { view = 1; node_id = node; high_qc = none }

abbrev tally : Tally Tmo
tally = (add (add (new_tally 4) 1 1 (timeout 1)).1 1 2 (timeout 2)).1
