-- ===== src/TwoChain/Handlers/Kept.antt =====
-- The shared methods keep what is stable.
use bamboo.Prelude.{Option, none, some}
use bamboo.Types.{Qc, Vote, Block, Vmo}
use bamboo.Exec.Keeps.{Keeps, Keeps-bind, Keeps-if, Keeps-skip, Keeps-gets}
use bamboo.Chained.State.{Env, Handler, Calls}
use bamboo.Chained.Stable.{Property, Holds, Stable}
use bamboo.Chained.Certificate.Kept.{update_high_qc-Keeps}
use bamboo.Chained.Views.Kept.{Trusted, start-Keeps, take_vmo-Keeps, follow_vmo-Keeps}
use bamboo.Chained.Proposals.Kept.{use_buffered_qc-Keeps, make_and_cast-Keeps}
use bamboo.TwoChain.State.{LastVoted}
use bamboo.TwoChain.Commit.Kept.{try_commit-Keeps}
use bamboo.TwoChain.Handlers.{settle, process_remote_vmo, continue, vote_for, commit_and_certify}

module _ (env : Env) (P : Property) (stable : Stable env P) where
  pub settle-Keeps : (qc : Qc) → Keeps (Holds P) (settle qc)
  unfolding settle
  settle-Keeps qc = update_high_qc-Keeps env P stable qc

  module _ (calls : Calls LastVoted) (trusted : Trusted P calls) where
    pub process_remote_vmo-Keeps : (m : Vmo) → Keeps (Holds P) (process_remote_vmo env calls m)
    unfolding process_remote_vmo
    process_remote_vmo-Keeps m = Keeps-if _ _ _ (take_vmo-Keeps env P stable calls trusted m) (
        Keeps-bind _ _ (start-Keeps env P stable)
          λ _. follow_vmo-Keeps env P stable calls trusted m)

    continue-Keeps : (o : Option Block) → Keeps (Holds P) (continue env calls o)
    unfolding continue
    continue-Keeps none = Keeps-skip
    continue-Keeps (some b) = trusted.block b

    pub vote_for-Keeps :
        (process_vote : Vote → Handler LastVoted)
        → ((v : Vote) → Keeps (Holds P) (process_vote v))
        → (b : Block) → Keeps (Holds P) (vote_for env calls process_vote b)
    unfolding vote_for
    vote_for-Keeps process_vote kept b =
        Keeps-bind _ _ (make_and_cast-Keeps env P stable process_vote kept b)
          λ _. Keeps-bind _ _ (Keeps-gets _) λ next. continue-Keeps next

    pub commit_and_certify-Keeps :
        (certificate : Qc → Handler LastVoted)
        → ((qc : Qc) → Keeps (Holds P) (certificate qc))
        → (qc : Qc) (b : Block) → Keeps (Holds P) (commit_and_certify env calls certificate qc b)
    unfolding commit_and_certify
    commit_and_certify-Keeps certificate kept qc b =
        Keeps-bind _ _ (try_commit-Keeps env P stable qc b) λ _.
          Keeps-bind _ _ (Keeps-gets _)
            λ o. use_buffered_qc-Keeps env P stable calls trusted certificate kept b o
