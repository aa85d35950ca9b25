-- ===== src/TwoChain/Handlers.antt =====
-- The methods that Tchs and Fhs share, with their own `processCertificate` as a parameter.
pub mod Kept
use bamboo.Prelude.{ℕ, ◌+◌, Bool, true, false, Option, none, some, if◌then◌else◌}
use bamboo.Types.{Qc, Vote, Block, Vmo, View}
use bamboo.Exec.{modify, skip, gets, ◌>>=◌, ◌>>◌}
use bamboo.Chained.State.{Env, Handler, Calls}
use bamboo.Chained.Certificate.{update_high_qc}
use bamboo.Chained.Views.{start, is_next, take_vmo, follow_vmo}
use bamboo.Chained.Proposals.{use_buffered_qc, make_and_cast}
use bamboo.TwoChain.State.{LastVoted}
use bamboo.TwoChain.Commit.{try_commit}

-- What follows `updatePreferredView` in `processCertificate`.
pub settle : Qc → Handler LastVoted
settle qc = modify (update_high_qc qc)

module _ (env : Env) (calls : Calls LastVoted) where
  -- `ProcessRemoteVmo`: the view is checked before the message is stored and once more after it.
  pub process_remote_vmo : Vmo → Handler LastVoted
  process_remote_vmo m =
      if is_next env calls m.view
      then take_vmo env calls m
      else modify start >> follow_vmo env calls m

  continue : Option Block → Handler LastVoted
  continue none = skip
  continue (some b) = calls.process_block b

  -- The end of `ProcessBlock`: the buffered block of the next view stays buffered, and the outcome
  -- is that of its processing.
  pub vote_for : (Vote → Handler LastVoted) → Block → Handler LastVoted
  vote_for process_vote b = do
    make_and_cast env process_vote b
    next ← gets λ s. s.buffered_blocks (b.view + 1)
    continue next

  -- The commit and the buffered certificate of the block.
  pub commit_and_certify : (Qc → Handler LastVoted) → Qc → Block → Handler LastVoted
  commit_and_certify certificate qc b = do
    try_commit env qc b
    buffered ← gets λ s. s.buffered_qcs b.id
    use_buffered_qc env calls certificate b buffered
