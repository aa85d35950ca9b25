-- ===== src/Lbft/Replica.antt =====
-- The handlers of LBFT: those that it shares with Streamlet, where it broadcasts, drops a stale
-- certificate, and flags no block.
pub mod Kept
use bamboo.Prelude.{ℕ, zero, suc, Bool, Option, none, List, ltb}
use bamboo.Outcome.{Outcome}
use bamboo.Types.{View, Qc, Vote, Block, Tmo}
use bamboo.Exec.{Exec, modify}
use bamboo.Notarized.State.{
  Env, Notarized, Handler, Calls, Variant, Message, new_notarized, broadcast, emit,
}
use bamboo.Prelude.{[], ◌∷◌}
use bamboo.Notarized.Chain as Chain
use bamboo.Notarized.Certificate as Certificate
use bamboo.Notarized.Blocks as Blocks

abbrev pub Lbft : Type 0
Lbft = Notarized

unfoldable pub new_lbft : ℕ → Lbft
new_lbft n = new_notarized n

pub send_to_all : Message → Handler
send_to_all m = modify (emit (broadcast m ∷ []))

abbrev pub variant : Variant
variant = record {
  spread = λ is_vote m. send_to_all m;
  echo = send_to_all;
  is_stale = λ qc lb. ltb qc.view lb.pm.cur_view;
  chosen = λ blocks. none;
}

pub update_notarized_chain : Qc → Exec Lbft Bool
update_notarized_chain qc = Chain.update_notarized_chain qc

pub voting_rule : Block → Lbft → Outcome Bool
voting_rule b lb = Chain.voting_rule b lb

pub commit_rule : Lbft → Option Block
commit_rule lb = Chain.commit_rule lb.notarized_chain

pub process_certificate : Env → ℕ → Qc → Handler
process_certificate env fuel qc = (Blocks.calls env variant fuel).process_certificate qc

unfoldable pub process_block : Env → ℕ → Block → Handler
process_block env fuel b = (Blocks.calls env variant fuel).process_block b

unfoldable pub process_vote : Env → ℕ → Vote → Handler
process_vote env fuel m = Blocks.process_vote env variant (Blocks.calls env variant fuel) m

unfoldable pub process_remote_tmo : Tmo → Handler
process_remote_tmo m = Blocks.process_remote_tmo m

unfoldable pub process_local_tmo : Env → View → Handler
process_local_tmo env view = Blocks.process_local_tmo env view
