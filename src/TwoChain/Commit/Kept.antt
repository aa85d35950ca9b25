-- ===== src/TwoChain/Commit/Kept.antt =====
-- Committing keeps what is stable.
use mathlib.Core.List.{append-nil}
use bamboo.Prelude.{Option, none, some, List, ◌++◌, subst}
use bamboo.Outcome.{Outcome, ok, err, fault}
use bamboo.Types.{Qc, Block}
use bamboo.Exec.{◌>>=◌}
use bamboo.Exec.Keeps.{Keeps, Keeps-if, Keeps-skip, Keeps-stop}
use bamboo.Blockchain.Chain.{BlockChain, Commits, commit_block}
use bamboo.Blockchain.Chain.Heightest.{heightest, flag_chain}
use bamboo.Chained.State.{Env}
use bamboo.Chained.Log.{handed_over, released}
use bamboo.Chained.Stable.{Property, Holds, Stable}
use bamboo.TwoChain.State.{TwoChain}
use bamboo.TwoChain.Rules.{commit_rule}
use bamboo.TwoChain.Commit.{delivered, commit, commit_found, is_due, try_commit}

module _ (env : Env) (P : Property) (stable : Stable env P) where
  flag_chain-Holds :
      (o : Option Block) (bc : BlockChain) (log : List Block) (s : TwoChain)
      → P s.pm s.preferred_view s.high_qc bc log
      → P s.pm s.preferred_view s.high_qc (flag_chain o bc) log
  flag_chain-Holds none bc log s h = h
  flag_chain-Holds (some b) bc log s h = stable.flag b.id h

  delivered-Holds :
      (c : Commits) (bc : BlockChain) (s : TwoChain)
      → P s.pm s.preferred_view s.high_qc bc
          (s.committed_blocks ++ released (heightest (handed_over c)) c)
      → Holds P (delivered (c, bc) s).1
  unfolding ◌>>=◌
  delivered-Holds (ok (committed, forked)) bc s h = flag_chain-Holds (heightest committed) bc _ s h
  delivered-Holds (err e) bc s h =
      subst (P s.pm s.preferred_view s.high_qc bc) (append-nil s.committed_blocks) h
  delivered-Holds (fault x) bc s h =
      subst (P s.pm s.preferred_view s.high_qc bc) (append-nil s.committed_blocks) h

  commit-Keeps : (b : Block) → Keeps (Holds P) (commit env b)
  unfolding commit
  commit-Keeps b = record {
    at = λ s h.
        let r = commit_block env.rounds b.id s.pm.cur_view s.bc in
        delivered-Holds r.0 r.1 s
          (stable.commits b.id s.pm.cur_view (heightest (handed_over r.0)) h);
  }

  commit_found-Keeps : (o : Outcome (Option Block)) → Keeps (Holds P) (commit_found env o)
  commit_found-Keeps (ok (some b)) = commit-Keeps b
  commit_found-Keeps (ok none) = Keeps-skip
  commit_found-Keeps (err e) = Keeps-skip
  commit_found-Keeps (fault x) = Keeps-stop x

  pub try_commit-Keeps : (qc : Qc) (b : Block) → Keeps (Holds P) (try_commit env qc b)
  unfolding try_commit
  try_commit-Keeps qc b =
      Keeps-if (is_due qc b) _ _
        (record { at = λ s h. (commit_found-Keeps (commit_rule qc s)).at s h }) Keeps-skip
