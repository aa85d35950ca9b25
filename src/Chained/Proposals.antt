-- ===== src/Chained/Proposals.antt =====
-- What the chained protocols do alike with a proposal: the check of its signature, the insertion
-- into the chain, the certificate that waited for it, and the vote.
pub mod Kept
use bamboo.Prelude.{ℕ, ◌+◌, Bool, true, false, Option, none, some, ◌==◌, if◌then◌else◌}
use bamboo.Types.{Qc, Vote, Block, Tmo, View}
use bamboo.Crypto.{pub_verify}
use bamboo.Exec.{Exec, modify, skip, gets, reads, ignore, ◌>>=◌, ◌>>◌}
use bamboo.Blockchain.Chain.{add_block}
use bamboo.Blockchain.Quorum.{make_vote}
use bamboo.Chained.State.{Env, Chained, Handler, Calls, vote, tmo, send, broadcast, emit}
use bamboo.Chained.Views.{unbuffer_qc, process_local_vmo}

module _ {Own : Type 0} where
  -- An invalid signature is logged, and the block is processed all the same.
  pub log_signature : Env → Block → Handler Own
  log_signature env b =
      if b.proposer == env.id
      then skip
      else ignore (reads λ s. pub_verify env.keys b.sig b.id b.proposer)

  pub insert_block : Block → Handler Own
  insert_block b = do bc ← reads λ s. add_block b s.bc; modify λ s. record s { bc = bc }

module _ {Own : Type 0} (env : Env) (calls : Calls Own) where
  pub use_buffered_qc : (Qc → Handler Own) → Block → Option Qc → Handler Own
  use_buffered_qc certificate b none = skip
  use_buffered_qc certificate b (some qc) = do
    certificate qc
    modify (unbuffer_qc b.id)
    if env.election.find_leader_for (b.view + 1) == env.id
        then process_local_vmo env calls b.view
        else skip

module _ {Own : Type 0} (env : Env) where
  cast_vote : (Vote → Handler Own) → Vote → Handler Own
  cast_vote process_vote v =
      let next = env.election.find_leader_for (v.view + 1) in
      if next == env.id then process_vote v else modify (emit (send next (vote v)))

  pub make_and_cast : (Vote → Handler Own) → Block → Handler Own
  make_and_cast process_vote b = do
    v ← reads λ s. make_vote env.keys b.view env.id b.id
    cast_vote process_vote v

  -- `ProcessLocalTmo`
  pub local_tmo : (Tmo → Handler Own) → View → Handler Own
  local_tmo process_remote_tmo view = do
    high ← gets λ s. s.high_qc
    let m : Tmo = record { view = view; node_id = env.id; high_qc = some high }
    modify (emit (broadcast (tmo m)))
    process_remote_tmo m
