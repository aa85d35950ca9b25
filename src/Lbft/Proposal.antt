-- ===== src/Lbft/Proposal.antt =====
-- `MakeProposal` of LBFT.
use bamboo.Prelude.{false, List, pos}
use bamboo.Outcome.{Outcome, ◌>>=◌}
use bamboo.Types.{View, Identifier, Block, Transaction}
use bamboo.Blockchain.Block.{make_block}
use bamboo.Notarized.State.{Env}
use bamboo.Notarized.Proposal.{tail_id, parent_qc}
use bamboo.Lbft.Replica.{Lbft}

pub fork_choice : Env → Lbft → Outcome Identifier
fork_choice env lb = tail_id env.genesis lb.notarized_chain

pub make_proposal : Env → View → List Transaction → Lbft → Outcome Block
unfolding fork_choice
make_proposal env view payload lb = do
  prev_id ← fork_choice env lb
  make_block env.hash env.keys view (parent_qc prev_id) prev_id payload env.id false (pos 0) 0
