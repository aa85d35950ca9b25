-- ===== src/Streamlet/Replica.antt =====
-- The variant of the shared handlers that is Streamlet.
use bamboo.Prelude.{false}
use bamboo.Blockchain.Chain.Heightest.{heightest}
use bamboo.Notarized.State.{Env, Notarized, Variant}
use bamboo.Streamlet.Spread.{no_mail_broadcast, spread}

abbrev pub Streamlet : Type 0
Streamlet = Notarized

-- No certificate is stale, a vote is echoed to every node, and the highest committed block is
-- flagged.
abbrev pub variant : Env → Variant
variant env = record {
  spread = spread env;
  echo = no_mail_broadcast env;
  is_stale = λ qc s. false;
  chosen = heightest;
}
