-- ===== src/Hotstuff/Blocks/Kept.antt =====
-- The handlers of blocks and timeouts, to any depth of calls, keep what is stable.
use bamboo.Prelude.{ℕ, zero, suc, Option, none, some, ltb}
use bamboo.Types.{View, Qc, Block, Tmo}
use bamboo.Exec.Keeps.{
  Keeps, Keeps-bind, Keeps-if, Keeps-skip, Keeps-stop, Keeps-raise, Keeps-gets, Keeps-reads,
  Keeps-ignore,
}
use bamboo.Chained.State.{Env, Calls}
use bamboo.Chained.Stable.{Property, Holds, Stable}
use bamboo.Chained.Certificate.Kept.{update_high_qc-Keeps}
use bamboo.Chained.Views.Kept.{
  Trusted, unbuffer_block-Keeps, buffer_block-Keeps, receive_block-Keeps, start-Keeps,
  process_vmo_and_block-Keeps, process_remote_vmo-Keeps, take_tmo-Keeps,
}
use bamboo.Hotstuff.State.{Height}
use bamboo.Hotstuff.Certificate.Kept.{process_certificate-Keeps}
use bamboo.Hotstuff.Handlers.Kept.{process_vote-Keeps}
use bamboo.Chained.Proposals.Kept.{
  log_signature-Keeps, insert_block-Keeps, use_buffered_qc-Keeps, make_and_cast-Keeps,
  local_tmo-Keeps,
}
use bamboo.Hotstuff.Certificate.{process_certificate}
use bamboo.Hotstuff.Handlers.{process_vote}
use bamboo.Hotstuff.Blocks.{
  use_buffered_block, vote_for, accept_block, with_qc, process_block_message, calls, check_tmo,
  process_remote_tmo, process_local_tmo,
}

module _ (env : Env) (P : Property) (stable : Stable env P) where
  module _ (calls : Calls Height) (trusted : Trusted P calls) where
    use_buffered_block-Keeps :
        (v : View) (o : Option Block) → Keeps (Holds P) (use_buffered_block env calls v o)
    unfolding use_buffered_block
    use_buffered_block-Keeps v none = Keeps-skip
    use_buffered_block-Keeps v (some b) =
        Keeps-bind _ _ (Keeps-ignore _ (trusted.block b)) λ _. unbuffer_block-Keeps env P stable v

    vote_for-Keeps : (b : Block) → Keeps (Holds P) (vote_for env calls b)
    unfolding vote_for
    vote_for-Keeps b =
        Keeps-bind _ _
          (make_and_cast-Keeps env P stable (process_vote env calls)
            (process_vote-Keeps env P stable calls trusted) b)
          λ _. Keeps-bind _ _ (Keeps-gets _) λ next. use_buffered_block-Keeps _ next

    accept_block-Keeps : (b : Block) → Keeps (Holds P) (accept_block env calls b)
    unfolding accept_block
    accept_block-Keeps b = Keeps-bind _ _ (insert_block-Keeps env P stable b) λ _.
        Keeps-bind _ _ (Keeps-gets _) λ qc.
          Keeps-bind _ _
            (use_buffered_qc-Keeps env P stable calls trusted (process_certificate env)
              (process_certificate-Keeps env P stable) b qc)
            λ _.
              Keeps-bind _ _ (Keeps-reads _)
                λ should. Keeps-if should _ _ (vote_for-Keeps b) Keeps-skip

    with_qc-Keeps : (b : Block) (o : Option Qc) → Keeps (Holds P) (with_qc env calls b o)
    unfolding with_qc
    with_qc-Keeps b none = Keeps-raise _
    with_qc-Keeps b (some qc) = Keeps-bind _ _ (update_high_qc-Keeps env P stable qc) λ _.
        Keeps-bind _ _ (Keeps-if _ _ _ Keeps-skip (process_certificate-Keeps env P stable qc))
          λ _. Keeps-if _ _ _ (accept_block-Keeps b) (Keeps-raise _)

    process_block_message-Keeps : (b : Block) → Keeps (Holds P) (process_block_message env calls b)
    unfolding process_block_message
    process_block_message-Keeps b = Keeps-bind _ _ (start-Keeps env P stable) λ _.
        Keeps-bind _ _ (Keeps-gets _) λ cur.
          Keeps-bind _ _ (log_signature-Keeps env P stable b) λ _.
            Keeps-if (ltb cur b.view) _ _ (buffer_block-Keeps env P stable b) (
              Keeps-bind _ _ (receive_block-Keeps env P stable b) λ _.
                Keeps-bind _ _ (process_vmo_and_block-Keeps env P stable calls trusted b.view)
                  λ _. with_qc-Keeps b b.qc)

  -- To any depth, the two calls keep P.
  pub calls-Trusted : (fuel : ℕ) → Trusted P (calls env fuel)
  unfolding calls
  calls-Trusted zero = record { block = λ b. Keeps-stop _; vmo = λ m. Keeps-stop _ }
  calls-Trusted (suc fuel) = record {
    block = λ b. process_block_message-Keeps (calls env fuel) (calls-Trusted fuel) b;
    vmo = λ m. process_remote_vmo-Keeps env P stable (calls env fuel) (calls-Trusted fuel) m;
  }

  check_tmo-Keeps : (o : Option Qc) → Keeps (Holds P) (check_tmo env o)
  unfolding check_tmo
  check_tmo-Keeps none = Keeps-stop _
  check_tmo-Keeps (some qc) = process_certificate-Keeps env P stable qc

  pub process_remote_tmo-Keeps : (m : Tmo) → Keeps (Holds P) (process_remote_tmo env m)
  unfolding process_remote_tmo
  process_remote_tmo-Keeps m =
      Keeps-bind _ _ (check_tmo-Keeps m.high_qc) λ _. take_tmo-Keeps env P stable m

  pub process_local_tmo-Keeps : (v : View) → Keeps (Holds P) (process_local_tmo env v)
  unfolding process_local_tmo
  process_local_tmo-Keeps v =
      local_tmo-Keeps env P stable (process_remote_tmo env) process_remote_tmo-Keeps v
