-- ===== src/Hotstuff/Certificate.antt =====
-- What a replica does with a certificate: `processCertificate`.
pub mod Kept
pub mod Safety
use bamboo.Prelude.{
  ℕ, Bool, true, false, not, Option, none, some, List, ◌++◌, update, ltb, leb, ◌==◌, if◌then◌else◌,
}
use bamboo.Outcome.{Outcome, ok, err, fault}
use bamboo.Types.{View, Identifier, NodeId, Qc, Block, AggSig}
use bamboo.Crypto.{Keys, verify_quorum_signature}
use bamboo.Exec.{Exec, pure, stop, modify, skip, gets, reads, ◌>>=◌, ◌>>◌}
use bamboo.Blockchain.Forest.Flag.{flag_commit}
use bamboo.Blockchain.Chain.{BlockChain, Commits, commit_block}
use bamboo.Chained.State.{Env}
use bamboo.Chained.Certificate.{update_high_qc, certify}
use bamboo.Hotstuff.State.{Hotstuff}
use bamboo.Hotstuff.Rules.{update_preferred_view, commit_rule}

-- `grandParentBlock.CommitFromThis = true`
pub mark_commit : Identifier → Hotstuff → Hotstuff
mark_commit id hs = record hs { bc = record hs.bc { forrest = flag_commit id hs.bc.forrest } }

-- `CommitBlock`, with the blocks it returns put in their channels.
abbrev delivered : Commits × BlockChain → Exec Hotstuff (Unit {0})
delivered (ok (committed, forked), bc) = modify λ hs. record hs {
  bc = bc;
  committed_blocks = hs.committed_blocks ++ committed;
  forked_blocks = hs.forked_blocks ++ forked;
}
delivered (err e, bc) = modify λ hs. record hs { bc = bc }
delivered (fault x, bc) = modify (λ hs. record hs { bc = bc }) >> stop x

pub commit : Env → Block → Exec Hotstuff (Unit {0})
commit env block hs = delivered (commit_block env.rounds block.id hs.pm.cur_view hs.bc) hs

abbrev commit_found : Env → Outcome (Option Block) → Exec Hotstuff (Unit {0})
commit_found env (ok (some block)) = modify (mark_commit block.id) >> commit env block
commit_found env (ok none) = skip
commit_found env (err e) = skip
commit_found env (fault x) = stop x

try_commit : Env → Qc → Exec Hotstuff (Unit {0})
try_commit env qc hs = commit_found env (commit_rule qc hs) hs

-- The part from `updateHighQC` on.
settle : Env → Qc → Exec Hotstuff (Unit {0})
settle env qc = modify (update_high_qc qc) >> (if ltb qc.view 3 then skip else try_commit env qc)

pub process_certificate : Env → Qc → Exec Hotstuff (Unit {0})
unfolding certify
process_certificate env qc = certify env update_preferred_view (settle env) qc
