-- ===== src/Hotstuff/Handlers/Kept.antt =====
-- `ProcessVote` keeps what is stable.
use bamboo.Types.{Qc, Vote}
use bamboo.Exec.Keeps.{Keeps, Keeps-bind, Keeps-gets}
use bamboo.Chained.State.{Env, Calls}
use bamboo.Chained.Stable.{Property, Holds, Stable}
use bamboo.Exec.Verdict.{verdict}
use bamboo.Exec.Verdict.Kept.{verdict-Keeps}
use bamboo.Chained.Views.Kept.{Trusted, process_local_vmo-Keeps}
use bamboo.Chained.Votes.Kept as Votes
use bamboo.Hotstuff.State.{Height}
use bamboo.Hotstuff.Certificate.Kept.{process_certificate-Keeps}
use bamboo.Hotstuff.Handlers.{announce, process_vote}

module _ (env : Env) (P : Property) (stable : Stable env P) (calls : Calls Height)
    (trusted : Trusted P calls) where
  announce-Keeps : (qc : Qc) → Keeps (Holds P) (announce env calls qc)
  unfolding announce
  announce-Keeps qc = Keeps-bind _ _ (process_certificate-Keeps env P stable qc) λ _.
      Keeps-bind _ _ (Keeps-gets _) λ cur. process_local_vmo-Keeps env P stable calls trusted cur

  pub process_vote-Keeps : (v : Vote) → Keeps (Holds P) (process_vote env calls v)
  unfolding process_vote
  process_vote-Keeps v =
      Votes.process_vote-Keeps env P stable (announce env calls) announce-Keeps verdict
        (verdict-Keeps (Holds P)) v
