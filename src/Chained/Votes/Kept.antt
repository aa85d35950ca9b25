-- ===== src/Chained/Votes/Kept.antt =====
-- `ProcessVote` keeps what is stable.
use bamboo.Prelude.{Bool, Option, none, some}
use bamboo.Outcome.{Outcome}
use bamboo.Types.{Qc, Vote, Block}
use bamboo.Exec.{Exec}
use bamboo.Exec.Keeps.{Keeps, Keeps-bind, Keeps-if, Keeps-skip, Keeps-reads, Keeps-pure}
use bamboo.Chained.State.{Env, Chained, Handler}
use bamboo.Chained.Stable.{Property, Holds, Stable}
use bamboo.Chained.Certificate.Kept.{buffer_qc-Keeps}
use bamboo.Chained.Votes.{is_signed, use_qc, settle_qc, built_qc, count_vote, process_vote}

module _ {Own : Type 0} (env : Env) (P : Property) (stable : Stable env P)
    (announce : Qc → Handler Own) (announce-Keeps : (qc : Qc) → Keeps (Holds P) (announce qc)) where
  use_qc-Keeps : (qc : Qc) (o : Option Block) → Keeps (Holds P) (use_qc env announce qc o)
  unfolding use_qc
  use_qc-Keeps qc none = buffer_qc-Keeps env P stable qc
  use_qc-Keeps qc (some b) = announce-Keeps qc

  built_qc-Keeps : (o : Option Qc) → Keeps (Holds P) (built_qc env announce o)
  unfolding settle_qc
  built_qc-Keeps none = Keeps-skip
  built_qc-Keeps (some qc) = Keeps-bind _ _ (Keeps-reads _) λ o. use_qc-Keeps _ o

  count_vote-Keeps : (v : Vote) → Keeps (Holds P) (count_vote env announce v)
  unfolding count_vote
  count_vote-Keeps v = record { at = λ s h. (built_qc-Keeps _).at _ (stable.vote v h) }

  module _ (check : Outcome Bool → Exec (Chained Own) Bool)
      (check-Keeps : (o : Outcome Bool) → Keeps (Holds P) (check o)) where
    is_signed-Keeps : (v : Vote) → Keeps (Holds P) (is_signed env announce check v)
    unfolding is_signed
    is_signed-Keeps v = Keeps-if _ _ _ (Keeps-pure _) (check-Keeps _)

    pub process_vote-Keeps : (v : Vote) → Keeps (Holds P) (process_vote env announce check v)
    unfolding process_vote
    process_vote-Keeps v =
        Keeps-if _ _ _ Keeps-skip
          (Keeps-bind _ _ (is_signed-Keeps v) λ b. Keeps-if b _ _ (count_vote-Keeps v) Keeps-skip)
