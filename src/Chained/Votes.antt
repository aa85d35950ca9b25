-- ===== src/Chained/Votes.antt =====
-- `ProcessVote`, with what the protocols do differently: the check of a signature that cannot be
-- verified, and the use of the certificate that the vote completes.
pub mod Kept
use bamboo.Prelude.{ℕ, Bool, true, false, Option, none, some, ◌==◌, if◌then◌else◌}
use bamboo.Outcome.{Outcome, ok, err, fault, try, exit}
use bamboo.Types.{Qc, Vote, Block}
use bamboo.Crypto.{pub_verify}
use bamboo.Exec.{Exec, pure, stop, modify, skip, reads, ◌>>=◌}
use bamboo.Blockchain.Chain.{add_vote, get_block_by_id}
use bamboo.Chained.State.{Env, Chained, Handler}
use bamboo.Chained.Certificate.{buffer_qc}

module _ {Own : Type 0} (env : Env) (announce : Qc → Handler Own) where
  use_qc : Qc → Option Block → Handler Own
  use_qc qc none = modify (buffer_qc qc)
  use_qc qc (some b) = announce qc

  -- A certificate whose block has not been received is buffered.
  settle_qc : Qc → Handler Own
  settle_qc qc = reads (λ s. try (get_block_by_id s.bc qc.block_id)) >>= use_qc qc

  abbrev built_qc : Option Qc → Handler Own
  built_qc none = skip
  built_qc (some qc) = settle_qc (record qc { leader = env.id })

  count_vote : Vote → Handler Own
  count_vote v s = let (qc, bc) = add_vote env.byz_no v s.bc in built_qc qc (record s { bc = bc })

  module _ (check : Outcome Bool → Exec (Chained Own) Bool) where
    is_signed : Vote → Exec (Chained Own) Bool
    is_signed v =
        if v.voter == env.id
        then pure true
        else check (pub_verify env.keys v.signature v.block_id v.voter)

    pub process_vote : Vote → Handler Own
    process_vote v =
        if env.is_byz then skip else do signed ← is_signed v; if signed then count_vote v else skip
