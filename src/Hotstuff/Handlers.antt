-- ===== src/Hotstuff/Handlers.antt =====
-- `ProcessVote`.
pub mod Kept
use bamboo.Types.{Qc, Vote}
use bamboo.Exec.{gets, ◌>>=◌, ◌>>◌}
use bamboo.Chained.State.{Env, Handler, Calls}
use bamboo.Exec.Verdict.{verdict}
use bamboo.Chained.Views.{process_local_vmo}
use bamboo.Chained.Votes as Votes
use bamboo.Hotstuff.State.{Height}
use bamboo.Hotstuff.Certificate.{process_certificate}

module _ (env : Env) (calls : Calls Height) where
  announce : Qc → Handler Height
  announce qc = do
    process_certificate env qc
    cur ← gets λ hs. hs.pm.cur_view
    process_local_vmo env calls cur

  -- An error of the check of the signature is dropped.
  pub process_vote : Vote → Handler Height
  process_vote v = Votes.process_vote env announce verdict v
