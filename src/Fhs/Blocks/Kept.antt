-- ===== src/Fhs/Blocks/Kept.antt =====
-- The handlers of Fast-HotStuff keep what is stable.
use bamboo.Prelude.{ℕ, zero, suc, ltb, Option, none, some}
use bamboo.Types.{View, Qc, Vote, Block, Tmo}
use bamboo.Exec.Keeps.{
  Keeps, Keeps-bind, Keeps-if, Keeps-skip, Keeps-stop, Keeps-raise, Keeps-gets, Keeps-reads,
}
use bamboo.Chained.State.{Env, Calls}
use bamboo.Chained.Stable.{Property, Holds, Stable}
use bamboo.Chained.Certificate.Kept.{update_high_qc-Keeps, certify-Keeps}
use bamboo.Chained.Views.Kept.{
  Trusted, start-Keeps, buffer_block-Keeps, receive_block-Keeps, process_vmo_and_block-Keeps,
  process_local_vmo-Keeps, take_tmo-Keeps,
}
use bamboo.Exec.Verdict.{verdict_or_exit}
use bamboo.Exec.Verdict.Kept.{verdict_or_exit-Keeps}
use bamboo.Chained.Votes.Kept as Votes
use bamboo.Chained.Proposals.Kept.{log_signature-Keeps, insert_block-Keeps, local_tmo-Keeps}
use bamboo.TwoChain.State.{LastVoted}
use bamboo.TwoChain.Handlers.{settle}
use bamboo.TwoChain.Handlers.Kept.{settle-Keeps, vote_for-Keeps, commit_and_certify-Keeps}
use bamboo.TwoChain.Handlers.Kept as TwoChain
use bamboo.Fhs.Rules.{update_preferred_view}
use bamboo.Fhs.Rules.Kept.{update_preferred_view-Holds}
use bamboo.Fhs.Blocks.{
  process_certificate, announce, process_vote, accept_block, with_qc, process_block_message,
  process_vmo_message, calls, process_remote_tmo, process_local_tmo,
}

module _ (env : Env) (P : Property) (stable : Stable env P) where
  process_certificate-Keeps : (qc : Qc) → Keeps (Holds P) (process_certificate env qc)
  unfolding process_certificate
  process_certificate-Keeps qc = Keeps-bind _ _ (Keeps-gets _) λ cur.
      Keeps-if (ltb qc.view cur) _ _ Keeps-skip (
        certify-Keeps env P stable update_preferred_view settle
          (update_preferred_view-Holds env P stable) (settle-Keeps env P stable) qc)

  module _ (calls : Calls LastVoted) (trusted : Trusted P calls) where
    announce-Keeps : (qc : Qc) → Keeps (Holds P) (announce env calls qc)
    unfolding announce
    announce-Keeps qc =
        Keeps-bind _ _ (process_certificate-Keeps qc)
          λ _. process_local_vmo-Keeps env P stable calls trusted qc.view

    pub process_vote-Keeps : (v : Vote) → Keeps (Holds P) (process_vote env calls v)
    unfolding process_vote
    process_vote-Keeps v =
        Votes.process_vote-Keeps env P stable (announce env calls) announce-Keeps verdict_or_exit
          (verdict_or_exit-Keeps (Holds P)) v

    with_qc-Keeps : (b : Block) (o : Option Qc) → Keeps (Holds P) (with_qc env calls b o)
    unfolding with_qc
    with_qc-Keeps b none = Keeps-raise _
    with_qc-Keeps b (some qc) = Keeps-bind _ _ (update_high_qc-Keeps env P stable qc) λ _.
        Keeps-bind _ _ (Keeps-if _ _ _ Keeps-skip (process_certificate-Keeps qc)) λ _.
          Keeps-if _ _ _
            (Keeps-bind _ _
              (commit_and_certify-Keeps env P stable calls trusted (process_certificate env)
                process_certificate-Keeps qc b)
              λ _.
                vote_for-Keeps env P stable calls trusted (process_vote env calls)
                  process_vote-Keeps b)
            (Keeps-raise _)

    accept_block-Keeps : (b : Block) → Keeps (Holds P) (accept_block env calls b)
    unfolding accept_block
    accept_block-Keeps b = Keeps-bind _ _ (insert_block-Keeps env P stable b) λ _.
        Keeps-bind _ _ (Keeps-reads _)
          λ should. Keeps-if should _ _ (with_qc-Keeps b b.qc) Keeps-skip

    process_block_message-Keeps : (b : Block) → Keeps (Holds P) (process_block_message env calls b)
    unfolding process_block_message
    process_block_message-Keeps b = Keeps-bind _ _ (start-Keeps env P stable) λ _.
        Keeps-bind _ _ (Keeps-gets _) λ cur.
          Keeps-bind _ _ (log_signature-Keeps env P stable b) λ _.
            Keeps-if (ltb cur b.view) _ _ (buffer_block-Keeps env P stable b) (
              Keeps-bind _ _ (receive_block-Keeps env P stable b) λ _.
                Keeps-bind _ _ (process_vmo_and_block-Keeps env P stable calls trusted b.view)
                  λ _. accept_block-Keeps b)

  -- To any depth, the two calls keep P.
  pub calls-Trusted : (fuel : ℕ) → Trusted P (calls env fuel)
  unfolding calls process_vmo_message
  calls-Trusted zero = record { block = λ b. Keeps-stop _; vmo = λ m. Keeps-stop _ }
  calls-Trusted (suc fuel) = record {
    block = λ b. process_block_message-Keeps (calls env fuel) (calls-Trusted fuel) b;
    vmo =
        λ m. TwoChain.process_remote_vmo-Keeps env P stable (calls env fuel) (calls-Trusted fuel) m;
  }

  pub process_remote_tmo-Keeps : (m : Tmo) → Keeps (Holds P) (process_remote_tmo m)
  unfolding process_remote_tmo
  process_remote_tmo-Keeps m = take_tmo-Keeps env P stable m

  pub process_local_tmo-Keeps : (v : View) → Keeps (Holds P) (process_local_tmo env v)
  unfolding process_local_tmo
  process_local_tmo-Keeps v =
      local_tmo-Keeps env P stable process_remote_tmo process_remote_tmo-Keeps v
