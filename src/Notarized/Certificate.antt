-- ===== src/Notarized/Certificate.antt =====
-- `processCertificate`: notarize, advance, commit, and go on with what waited for the block.
pub mod Kept
pub mod Safety
use bamboo.Prelude.{
  ℕ, Bool, true, false, ◌&&◌, Option, none, some, List, [], ◌∷◌, ◌++◌, map, mem, ltb, ◌==◌, update,
  if◌then◌else◌,
}
use bamboo.Outcome.{Outcome, ok, err, fault, try}
use bamboo.Types.{View, Identifier, Qc, Block}
use bamboo.Crypto.{verify_quorum_signature}
use bamboo.Exec.{Exec, pure, stop, modify, skip, gets, reads, ignore, ◌>>=◌, ◌>>◌}
use bamboo.Exec.Verdict.{verdict}
use bamboo.Pacemaker.{advance_view}
use bamboo.Blockchain.Chain.{BlockChain, Commits, get_block_by_id, commit_block}
use bamboo.Blockchain.Chain.Commit.{ids}
use bamboo.Blockchain.Chain.Heightest.{flag_committed, flag_chain}
use bamboo.Notarized.State.{Env, Notarized, Handler, Calls, Variant}
use bamboo.Notarized.Chain.{commit_rule, update_notarized_chain}

abbrev pub is_missing : Option Block → Bool
is_missing none = true
is_missing (some b) = false

buffer_qc : Qc → Notarized → Notarized
buffer_qc qc s = record s { buffered_qcs = update s.buffered_qcs qc.block_id (some qc) }

unbuffer_qc : Identifier → Notarized → Notarized
unbuffer_qc id s = record s { buffered_qcs = update s.buffered_qcs id none }

unbuffer_block : Identifier → Notarized → Notarized
unbuffer_block id s = record s { buffered_blocks = update s.buffered_blocks id none }

unfoldable pub advance : View → Notarized → Notarized
advance view s = record s { pm = advance_view view s.pm }

-- `delete(echoedBlock, id)` for the committed blocks.
forget_echo : List Identifier → (Identifier → Bool) → Identifier → Bool
forget_echo committed echoed id = if mem id committed then false else echoed id

module _ (env : Env) (v : Variant) where
  is_trusted : Qc → Exec Notarized Bool
  is_trusted qc =
      if qc.leader == env.id
      then pure true
      else verdict (verify_quorum_signature env.keys qc.agg_sig qc.block_id qc.signers)

  -- `CommitBlock` with what is done with the blocks; whether it returned without an error.
  abbrev delivered : Commits × BlockChain → Exec Notarized Bool
  delivered (ok (committed, forked), bc) =
      modify (λ s. record s {
        bc = flag_chain (v.chosen committed) bc;
        committed_blocks = s.committed_blocks ++ flag_committed (v.chosen committed) committed;
        forked_blocks = s.forked_blocks ++ forked;
        echoed_block = forget_echo (ids committed) s.echoed_block;
        echoed_vote = forget_echo (ids committed) s.echoed_vote;
      })
      >> pure true
  delivered (err e, bc) = modify (λ s. record s { bc = bc }) >> pure false
  delivered (fault x, bc) = modify (λ s. record s { bc = bc }) >> stop x

  commit : Option Block → Exec Notarized Bool
  commit none = pure false
  commit (some b) = λ s. delivered (commit_block env.rounds b.id s.pm.cur_view s.bc) s

  -- `AdvanceView`, the test of the view, the rule, and the commit.
  pub settle : Qc → Exec Notarized Bool
  settle qc = do
    modify (advance qc.view)
    if ltb qc.view 3 then pure false else (λ s. commit (commit_rule s.notarized_chain) s)

  module _ (calls : Calls) where
    use_waiting_block : Identifier → Option Block → Handler
    use_waiting_block id none = skip
    use_waiting_block id (some b) = ignore (calls.process_block b) >> modify (unbuffer_block id)

    use_waiting_qc : Option Qc → Handler
    use_waiting_qc none = skip
    use_waiting_qc (some qc) = calls.process_certificate qc >> modify (unbuffer_qc qc.block_id)

    follow_up : Qc → Handler
    follow_up qc = do
      b ← gets λ s. s.buffered_blocks qc.block_id
      use_waiting_block qc.block_id b
      next ← gets λ s. s.buffered_notarized_block qc.block_id
      use_waiting_qc next

    accept_qc : Qc → Handler
    accept_qc qc = do
      noted ← update_notarized_chain qc
      if noted then (do done ← settle qc; if done then follow_up qc else skip) else skip

    with_block : Qc → Option Block → Handler
    with_block qc found =
        if is_missing found && ltb 1 qc.view
        then modify (buffer_qc qc)
        else (do trusted ← is_trusted qc; if trusted then accept_qc qc else skip)

    pub process_certificate : Qc → Handler
    process_certificate qc = do
      stale ← gets (v.is_stale qc)
      if stale
          then skip
          else (do found ← reads λ s. try (get_block_by_id s.bc qc.block_id); with_block qc found)
