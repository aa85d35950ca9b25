-- ===== src/Notarized/Proposal.antt =====
-- What the proposals of Streamlet and LBFT extend.
pub mod Safe
use bamboo.Prelude.{List, [], ◌∷◌}
use bamboo.Outcome.{Outcome, ok, fault, index_range}
use bamboo.Types.{Identifier, Qc, Block}

-- The genesis id, or the first block of the last layer.
unfoldable pub tail_id : Identifier → List (List Block) → Outcome Identifier
tail_id genesis [] = ok genesis
tail_id genesis ([] ∷ layers) = fault index_range
tail_id genesis ((b ∷ bs) ∷ layers) = ok b.id

-- The certificate of a proposal names its parent and nothing else.
abbrev pub parent_qc : Identifier → Qc
parent_qc id = record {
  leader = 0;
  view = 0;
  block_id = id;
  signers = [];
  agg_sig = [];
  signature = [];
}
