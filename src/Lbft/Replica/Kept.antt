-- ===== src/Lbft/Replica/Kept.antt =====
-- A broadcast changes what is sent alone.
use bamboo.Exec.Keeps.{Keeps, Keeps-modify}
use bamboo.Notarized.State.{Message}
use bamboo.Notarized.Stable.{Property, Holds}
use bamboo.Notarized.Blocks.Kept.{Quiet}
use bamboo.Lbft.Replica.{send_to_all, variant}

send_to_all-Keeps : (P : Property) (m : Message) → Keeps (Holds P) (send_to_all m)
unfolding send_to_all
send_to_all-Keeps P m = Keeps-modify _ λ s h. h

pub variant-Quiet : (P : Property) → Quiet P variant
variant-Quiet P = record {
  spread = λ is_vote m. send_to_all-Keeps P m;
  echo = λ m. send_to_all-Keeps P m;
}
