-- ===== src/TwoChain/Commit.antt =====
-- The part of `ProcessBlock` that commits: two consecutive views, the second one that of the
-- proposal's certificate, and the block that was committed highest is flagged.
pub mod Kept
pub mod Safety
use bamboo.Prelude.{
  ℕ, ◌+◌, Bool, true, false, ◌&&◌, Option, none, some, List, [], ◌∷◌, ◌++◌, ltb, leb, ◌==◌,
  if◌then◌else◌, map,
}
use bamboo.Outcome.{Outcome, ok, err, fault, cannot_commit}
use bamboo.Types.{View, Identifier, Qc, Block}
use bamboo.Exec.{Exec, stop, raise, modify, skip, ◌>>=◌, ◌>>◌}
use bamboo.Blockchain.Forest.Flag.{flagged, flag_commit}
use bamboo.Blockchain.Chain.{BlockChain, Commits, get_parent_block, commit_block}
use bamboo.Blockchain.Chain.Heightest.{heightest, flag_committed, flag_chain}
use bamboo.Chained.State.{Env, Handler}
use bamboo.TwoChain.State.{LastVoted, TwoChain}
use bamboo.TwoChain.Rules.{commit_rule}

abbrev delivered : Commits × BlockChain → Handler LastVoted
delivered (ok (committed, forked), bc) = modify λ s. record s {
  bc = flag_chain (heightest committed) bc;
  committed_blocks = s.committed_blocks ++ flag_committed (heightest committed) committed;
  forked_blocks = s.forked_blocks ++ forked;
}
delivered (err e, bc) = modify (λ s. record s { bc = bc }) >> raise cannot_commit
delivered (fault x, bc) = modify (λ s. record s { bc = bc }) >> stop x

commit : Env → Block → Handler LastVoted
commit env block s = delivered (commit_block env.rounds block.id s.pm.cur_view s.bc) s

-- An error of the rule means that nothing is committed.
abbrev commit_found : Env → Outcome (Option Block) → Handler LastVoted
commit_found env (ok (some block)) = commit env block
commit_found env (ok none) = skip
commit_found env (err e) = skip
commit_found env (fault x) = stop x

unfoldable pub is_due : Qc → Block → Bool
is_due qc block = leb 2 qc.view && qc.view + 1 == block.view

pub try_commit : Env → Qc → Block → Handler LastVoted
try_commit env qc block =
    if is_due qc block then (λ s. commit_found env (commit_rule qc s) s) else skip
