-- ===== src/Fhs/Blocks.antt =====
-- The handlers of Fast-HotStuff, and the recursion that closes them.
pub mod Kept
use bamboo.Prelude.{ℕ, zero, suc, Bool, true, false, Option, none, some, ltb, ◌==◌, if◌then◌else◌}
use bamboo.Outcome.{Outcome, ok, err, fault, no_qc, invalid_leader, out_of_fuel}
use bamboo.Types.{View, Qc, Vote, Block, Tmo, Vmo}
use bamboo.Exec.{Exec, raise, stop, modify, skip, gets, reads, ◌>>=◌, ◌>>◌}
use bamboo.Chained.State.{Env, Handler, Calls}
use bamboo.Chained.Certificate.{update_high_qc, certify}
use bamboo.Chained.Views.{
  start, buffer_block, receive_block, process_vmo_and_block, process_local_vmo, take_tmo,
}
use bamboo.Exec.Verdict.{verdict_or_exit}
use bamboo.Chained.Votes as Votes
use bamboo.Chained.Proposals.{log_signature, insert_block, local_tmo}
use bamboo.TwoChain.State.{LastVoted}
use bamboo.TwoChain.Handlers.{settle, vote_for, commit_and_certify}
use bamboo.TwoChain.Handlers as TwoChain
use bamboo.Fhs.Rules.{update_preferred_view, voting_rule}

-- A certificate of an earlier view is dropped.
pub process_certificate : Env → Qc → Handler LastVoted
unfolding certify
process_certificate env qc = do
  cur ← gets λ f. f.pm.cur_view
  if ltb qc.view cur then skip else certify env update_preferred_view settle qc

module _ (env : Env) (calls : Calls LastVoted) where
  -- The branch of a Byzantine node is left out: such a node has returned before.
  announce : Qc → Handler LastVoted
  announce qc = process_certificate env qc >> process_local_vmo env calls qc.view

  pub process_vote : Vote → Handler LastVoted
  process_vote v = Votes.process_vote env announce verdict_or_exit v

  with_qc : Block → Option Qc → Handler LastVoted
  with_qc b none = raise no_qc
  with_qc b (some qc) = do
    modify (update_high_qc qc)
    if b.proposer == env.id then skip else process_certificate env qc
    if env.election.is_leader b.proposer b.view
        then (do
          commit_and_certify env calls (process_certificate env) qc b
          vote_for env calls process_vote b)
        else raise (invalid_leader b.view b.proposer)

  -- The block is inserted and the vote is decided before its certificate is looked at.
  accept_block : Block → Handler LastVoted
  accept_block b = do
    insert_block b
    should ← reads (voting_rule b)
    if should then with_qc b b.qc else skip

  pub process_block_message : Block → Handler LastVoted
  process_block_message b = do
    modify start
    cur ← gets λ f. f.pm.cur_view
    log_signature env b
    if ltb cur b.view then modify (buffer_block b) else (do
      modify (receive_block b)
      done ← process_vmo_and_block env calls b.view
      accept_block b)

  pub process_vmo_message : Vmo → Handler LastVoted
  process_vmo_message m = TwoChain.process_remote_vmo env calls m

pub calls : Env → ℕ → Calls LastVoted
calls env zero = record {
  process_block = λ b. stop out_of_fuel;
  process_remote_vmo = λ m. stop out_of_fuel;
}
calls env (suc fuel) =
    let inner = calls env fuel in
    record {
      process_block = process_block_message env inner;
      process_remote_vmo = process_vmo_message env inner;
    }

pub process_remote_tmo : Tmo → Handler LastVoted
process_remote_tmo m = take_tmo m

pub process_local_tmo : Env → View → Handler LastVoted
process_local_tmo env view = local_tmo env process_remote_tmo view
