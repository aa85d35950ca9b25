-- ===== src/Hotstuff/Blocks.antt =====
-- `ProcessBlock`, the timeout handlers, and the recursion that closes the handlers.
pub mod Kept
use bamboo.Prelude.{
  ℕ, zero, suc, ◌+◌, Bool, true, false, not, Option, none, some, ltb, leb, ◌==◌, if◌then◌else◌,
}
use bamboo.Outcome.{Outcome, ok, err, fault, no_qc, invalid_leader, nil_pointer, out_of_fuel}
use bamboo.Types.{View, Identifier, NodeId, Qc, Vote, Block, Tmo, Vmo, Tc}
use bamboo.Crypto.{pub_verify}
use bamboo.Exec.{Exec, pure, raise, stop, modify, skip, gets, reads, ignore, ◌>>=◌, ◌>>◌}
use bamboo.Pacemaker as Pacemaker
use bamboo.Blockchain.Quorum.{make_vote}
use bamboo.Blockchain.Chain.{BlockChain, add_block}
use bamboo.Chained.State.{Env, Handler, Calls, Message, vote, tmo, send, broadcast, emit}
use bamboo.Chained.Certificate.{update_high_qc}
use bamboo.Chained.Views.{
  start, buffer_block, unbuffer_block, receive_block, unbuffer_qc, process_vmo_and_block,
  process_remote_vmo, process_local_vmo, take_tmo,
}
use bamboo.Chained.Proposals.{
  log_signature, insert_block, use_buffered_qc, make_and_cast, local_tmo,
}
use bamboo.Hotstuff.State.{Height, Hotstuff}
use bamboo.Hotstuff.Rules.{voting_rule}
use bamboo.Hotstuff.Certificate.{process_certificate}
use bamboo.Hotstuff.Handlers.{process_vote}

module _ (env : Env) (calls : Calls Height) where
  -- The buffered block of the next view is dropped after the call, whatever the call did.
  use_buffered_block : View → Option Block → Handler Height
  use_buffered_block v none = skip
  use_buffered_block v (some b) = ignore (calls.process_block b) >> modify (unbuffer_block v)

  vote_for : Block → Handler Height
  vote_for b = do
    make_and_cast env (process_vote env calls) b
    next ← gets λ hs. hs.buffered_blocks (b.view + 1)
    use_buffered_block (b.view + 1) next

  accept_block : Block → Handler Height
  accept_block b = do
    insert_block b
    qc ← gets λ hs. hs.buffered_qcs b.id
    use_buffered_qc env calls (process_certificate env) b qc
    should ← reads (voting_rule b)
    if should then vote_for b else skip

  with_qc : Block → Option Qc → Handler Height
  with_qc b none = raise no_qc
  with_qc b (some qc) = do
    modify (update_high_qc qc)
    if b.proposer == env.id then skip else process_certificate env qc
    if env.election.is_leader b.proposer b.view
        then accept_block b
        else raise (invalid_leader b.view b.proposer)

  pub process_block_message : Block → Handler Height
  process_block_message b = do
    modify start
    cur ← gets λ hs. hs.pm.cur_view
    log_signature env b
    if ltb cur b.view then modify (buffer_block b) else (do
      modify (receive_block b)
      done ← process_vmo_and_block env calls b.view
      with_qc b b.qc)

-- The handlers to a depth of calls.
pub calls : Env → ℕ → Calls Height
calls env zero = record {
  process_block = λ b. stop out_of_fuel;
  process_remote_vmo = λ m. stop out_of_fuel;
}
calls env (suc fuel) =
    let inner = calls env fuel in
    record {
      process_block = process_block_message env inner;
      process_remote_vmo = process_remote_vmo env inner;
    }

module _ (env : Env) where
  -- `processCertificate` reads the certificate without a test for nil.
  check_tmo : Option Qc → Handler Height
  check_tmo none = stop nil_pointer
  check_tmo (some qc) = process_certificate env qc

  pub process_remote_tmo : Tmo → Handler Height
  process_remote_tmo m = check_tmo m.high_qc >> take_tmo m

  pub process_local_tmo : View → Handler Height
  process_local_tmo view = local_tmo env process_remote_tmo view
