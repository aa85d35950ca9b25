-- ===== src/Hotstuff/Certificate/Kept.antt =====
-- Processing a certificate keeps what is stable.
use mathlib.Core.List.{append-nil}
use bamboo.Prelude.{Option, none, some, ◌++◌, subst}
use bamboo.Outcome.{Outcome, ok, err, fault}
use bamboo.Types.{Identifier, Qc, Block}
use bamboo.Exec.{◌>>=◌}
use bamboo.Exec.Keeps.{Keeps, Keeps-modify, Keeps-bind, Keeps-if, Keeps-skip, Keeps-stop}
use bamboo.Blockchain.Chain.{BlockChain, Commits, commit_block}
use bamboo.Chained.State.{Env}
use bamboo.Chained.Certificate.Kept.{update_high_qc-Keeps, certify-Keeps}
use bamboo.Hotstuff.State.{Hotstuff}
use bamboo.Chained.Log.{released}
use bamboo.Chained.Stable.{Property, Holds, Stable}
use bamboo.Hotstuff.Rules.{update_preferred_view, commit_rule}
use bamboo.Hotstuff.Rules.Kept.{update_preferred_view-Holds}
use bamboo.Hotstuff.Certificate.{
  mark_commit, delivered, commit, commit_found, try_commit, settle, process_certificate,
}

module _ (env : Env) (P : Property) (stable : Stable env P) where
  delivered-Holds :
      (c : Commits) (bc : BlockChain) (s : Hotstuff)
      → P s.pm s.preferred_view s.high_qc bc (s.committed_blocks ++ released none c)
      → Holds P (delivered (c, bc) s).1
  unfolding ◌>>=◌
  delivered-Holds (ok (committed, forked)) bc s h = h
  delivered-Holds (err e) bc s h =
      subst (P s.pm s.preferred_view s.high_qc bc) (append-nil s.committed_blocks) h
  delivered-Holds (fault x) bc s h =
      subst (P s.pm s.preferred_view s.high_qc bc) (append-nil s.committed_blocks) h

  commit-Keeps : (b : Block) → Keeps (Holds P) (commit env b)
  unfolding commit
  commit-Keeps b = record {
    at = λ s h.
        let r = commit_block env.rounds b.id s.pm.cur_view s.bc in
        delivered-Holds r.0 r.1 s (stable.commits b.id s.pm.cur_view none h);
  }

  mark_commit-Holds : (id : Identifier) (s : Hotstuff) → Holds P s → Holds P (mark_commit id s)
  unfolding mark_commit
  mark_commit-Holds id s h = stable.flag id h

  commit_found-Keeps : (o : Outcome (Option Block)) → Keeps (Holds P) (commit_found env o)
  commit_found-Keeps (ok (some b)) =
      Keeps-bind _ _ (Keeps-modify (mark_commit b.id) (mark_commit-Holds b.id)) λ _. commit-Keeps b
  commit_found-Keeps (ok none) = Keeps-skip
  commit_found-Keeps (err e) = Keeps-skip
  commit_found-Keeps (fault x) = Keeps-stop x

  try_commit-Keeps : (qc : Qc) → Keeps (Holds P) (try_commit env qc)
  unfolding try_commit
  try_commit-Keeps qc = record { at = λ s h. (commit_found-Keeps (commit_rule qc s)).at s h }

  settle-Keeps : (qc : Qc) → Keeps (Holds P) (settle env qc)
  unfolding settle
  settle-Keeps qc =
      Keeps-bind _ _ (update_high_qc-Keeps env P stable qc)
        λ _. Keeps-if _ _ _ Keeps-skip (try_commit-Keeps qc)

  pub process_certificate-Keeps : (qc : Qc) → Keeps (Holds P) (process_certificate env qc)
  unfolding process_certificate
  process_certificate-Keeps qc =
      certify-Keeps env P stable update_preferred_view (settle env)
        (update_preferred_view-Holds env P stable) settle-Keeps qc
