-- ===== src/Notarized/Blocks/Kept.antt =====
-- The handlers of blocks, votes and timeouts, to any depth of calls, keep what is stable.
use bamboo.Prelude.{
  List, ℕ, zero, suc, ◌≡◌, refl, Bool, ltb, Bool-cases, inl, inr, Option, none, some, ◌&&◌,
}
use bamboo.Outcome.{Outcome, ok, err, fault}
use bamboo.Types.{View, Qc, Vote, Block, Tmo, Tc, Identifier}
use bamboo.Exec.{modify, reads, ◌>>=◌}
use bamboo.Exec.Keeps.{
  Keeps, Keeps-modify, Keeps-bind, Keeps-if, Keeps-skip, Keeps-stop, Keeps-raise, Keeps-pure,
  Keeps-gets, Keeps-reads, Keeps-ignore,
}
use bamboo.Exec.Verdict.Kept.{verdict_or_exit-Keeps}
use bamboo.Blockchain.Chain.{BlockChain, add_block}
use bamboo.Notarized.State.{Env, Notarized, Calls, Variant, Message, Sent, emit}
use bamboo.Notarized.Stable.{Property, Holds, Stable}
use bamboo.Notarized.Certificate.{is_missing}
use bamboo.Notarized.Certificate.Kept.{Trusted, advance-Keeps, process_certificate-Keeps}
use bamboo.Notarized.Blocks.{
  buffer_block, note_echo, insert_block, built_qc, count_vote, is_signed, echo_vote, process_vote,
  echo_block, use_buffered_block, vote_for, log_signature, accept_block, with_parent, fresh_block,
  process_block_message, calls, spawn, process_tc, timed_out, process_remote_tmo, process_local_tmo,
  run_advance, resume,
}

-- What a protocol sends by its own rules keeps P.
pub record Quiet (P : Property) (v : Variant) : Type 0 where
  pub spread : (is_vote : Bool) (m : Message) → Keeps (Holds P) (v.spread is_vote m)
  pub echo : (m : Message) → Keeps (Holds P) (v.echo m)

module _ (env : Env) (v : Variant) (P : Property) (stable : Stable env P) (quiet : Quiet P v) where
  buffer_block-Keeps : (b : Block) → Keeps (Holds P) (modify (buffer_block b))
  unfolding buffer_block
  buffer_block-Keeps b = Keeps-modify (buffer_block b) λ s h. h

  note_echo-Keeps : (id : Identifier) → Keeps (Holds P) (modify (note_echo id))
  unfolding note_echo
  note_echo-Keeps id = Keeps-modify (note_echo id) λ s h. h

  inserted-Holds :
      (b : Block) (s : Notarized) (o : Outcome BlockChain)
      → add_block b s.bc ≡ o
      → Holds P s
      → Holds P ((reads (λ s'. o) >>= λ bc. modify λ (s' : Notarized). record s' { bc = bc }) s).1
  unfolding ◌>>=◌
  inserted-Holds b s (ok bc) e h = stable.block b e h
  inserted-Holds b s (err x) e h = h
  inserted-Holds b s (fault x) e h = h

  insert_block-Keeps : (b : Block) → Keeps (Holds P) (insert_block b)
  unfolding insert_block ◌>>=◌
  insert_block-Keeps b = record { at = λ s h. inserted-Holds b s (add_block b s.bc) refl h }

  module _ (calls : Calls) (trusted : Trusted P calls) where
    built_qc-Keeps : (o : Option Qc) → Keeps (Holds P) (built_qc env v calls o)
    built_qc-Keeps none = Keeps-skip
    built_qc-Keeps (some qc) = process_certificate-Keeps env v P stable calls trusted qc

    count_vote-Keeps : (m : Vote) → Keeps (Holds P) (count_vote env v calls m)
    unfolding count_vote
    count_vote-Keeps m = record { at = λ s h. (built_qc-Keeps _).at _ (stable.vote m h) }

    is_signed-Keeps : (m : Vote) → Keeps (Holds P) (is_signed env v calls m)
    unfolding is_signed
    is_signed-Keeps m = Keeps-if _ _ _ (Keeps-pure _) (verdict_or_exit-Keeps (Holds P) _)

    echo_vote-Keeps : (m : Vote) → Keeps (Holds P) (echo_vote env v calls m)
    unfolding echo_vote
    echo_vote-Keeps m = Keeps-bind _ _ (Keeps-gets _) λ echoed.
        Keeps-if echoed _ _ Keeps-skip
          (Keeps-bind _ _ (note_echo-Keeps m.block_id) λ _. quiet.echo _)

    pub process_vote-Keeps : (m : Vote) → Keeps (Holds P) (process_vote env v calls m)
    unfolding process_vote
    process_vote-Keeps m = Keeps-bind _ _ (is_signed-Keeps m) λ signed.
        Keeps-if signed _ _ (Keeps-bind _ _ (echo_vote-Keeps m) λ _. count_vote-Keeps m) Keeps-skip

    echo_block-Keeps : (b : Block) → Keeps (Holds P) (echo_block env v calls b)
    unfolding echo_block
    echo_block-Keeps b = Keeps-bind _ _ (Keeps-gets _) λ echoed.
        Keeps-if echoed _ _ Keeps-skip (Keeps-bind _ _ (note_echo-Keeps b.id) λ _. quiet.spread _ _)

    use_buffered_block-Keeps :
        (o : Option Block) → Keeps (Holds P) (use_buffered_block env v calls o)
    unfolding use_buffered_block
    use_buffered_block-Keeps none = Keeps-skip
    use_buffered_block-Keeps (some b) = Keeps-ignore _ (trusted.block b)

    vote_for-Keeps : (b : Block) → Keeps (Holds P) (vote_for env v calls b)
    unfolding vote_for
    vote_for-Keeps b = Keeps-bind _ _ (Keeps-reads _) λ m.
        Keeps-bind _ _ (process_vote-Keeps m) λ _. Keeps-bind _ _ (quiet.spread _ _) λ _.
          Keeps-bind _ _ (Keeps-gets _) λ qc.
            Keeps-bind _ _ (built_qc-Keeps qc)
              λ _. Keeps-bind _ _ (Keeps-gets _) λ next. use_buffered_block-Keeps next

    log_signature-Keeps : (b : Block) → Keeps (Holds P) (log_signature env v calls b)
    unfolding log_signature
    log_signature-Keeps b = Keeps-if _ _ _ Keeps-skip (Keeps-ignore _ (Keeps-reads _))

    accept_block-Keeps : (b : Block) → Keeps (Holds P) (accept_block env v calls b)
    unfolding accept_block
    accept_block-Keeps b = Keeps-bind _ _ (log_signature-Keeps b) λ _.
        Keeps-bind _ _ (echo_block-Keeps b) λ _. Keeps-bind _ _ (insert_block-Keeps b) λ _.
          Keeps-bind _ _ (Keeps-reads _)
            λ should. Keeps-if should _ _ (vote_for-Keeps b) (buffer_block-Keeps b)

    with_parent-Keeps :
        (b : Block) (o : Option Block) → Keeps (Holds P) (with_parent env v calls b o)
    unfolding with_parent
    with_parent-Keeps b o =
        Keeps-if (is_missing o && ltb 1 b.view) _ _ (buffer_block-Keeps b)
          (Keeps-if _ _ _ (accept_block-Keeps b) (Keeps-raise _))

    fresh_block-Keeps : (b : Block) → Keeps (Holds P) (fresh_block env v calls b)
    unfolding fresh_block
    fresh_block-Keeps b = Keeps-bind _ _ (Keeps-gets _) λ cur.
        Keeps-if (ltb b.view cur) _ _ (Keeps-raise _)
          (Keeps-bind _ _ (Keeps-reads _) λ o. with_parent-Keeps b o)

    process_block_message-Keeps :
        (b : Block) → Keeps (Holds P) (process_block_message env v calls b)
    unfolding process_block_message
    process_block_message-Keeps b =
        Keeps-bind _ _ (Keeps-gets _) λ known. Keeps-if known _ _ Keeps-skip (fresh_block-Keeps b)

  -- To any depth, the two calls keep P.
  pub calls-Trusted : (fuel : ℕ) → Trusted P (calls env v fuel)
  unfolding calls
  calls-Trusted zero = record { block = λ b. Keeps-stop _; certificate = λ qc. Keeps-stop _ }
  calls-Trusted (suc fuel) = record {
    block = λ b. process_block_message-Keeps (calls env v fuel) (calls-Trusted fuel) b;
    certificate =
        λ qc. process_certificate-Keeps env v P stable (calls env v fuel) (calls-Trusted fuel) qc;
  }

module _ (env : Env) (v : Variant) (P : Property) (stable : Stable env P) where
  process_tc-Keeps : (tc : Tc) → Keeps (Holds P) (process_tc tc)
  unfolding process_tc spawn
  process_tc-Keeps tc = Keeps-modify _ λ s h. elim (Bool-cases (ltb tc.view s.pm.cur_view)) [
    | inl old ↦ rw old h
    | inr new ↦ rw new h
  ]

  timed_out-Keeps : (o : Option Tc) → Keeps (Holds P) (timed_out o)
  timed_out-Keeps none = Keeps-skip
  timed_out-Keeps (some tc) = process_tc-Keeps tc

  pub process_remote_tmo-Keeps : (m : Tmo) → Keeps (Holds P) (process_remote_tmo m)
  unfolding process_remote_tmo
  process_remote_tmo-Keeps m = record { at = λ s h. (timed_out-Keeps _).at _ (stable.tmo m h) }

  emit-Keeps : (ms : List Sent) → Keeps (Holds P) (modify (emit ms))
  emit-Keeps ms = Keeps-modify (emit ms) λ s h. h

  pub process_local_tmo-Keeps : (view : View) → Keeps (Holds P) (process_local_tmo env view)
  unfolding process_local_tmo
  process_local_tmo-Keeps view = Keeps-bind _ _ (emit-Keeps _) λ _. process_remote_tmo-Keeps _

  run_advance-Keeps : (i : ℕ) (o : Option View) → Keeps (Holds P) (run_advance i o)
  unfolding run_advance
  run_advance-Keeps i none = Keeps-skip
  run_advance-Keeps i (some view) =
      Keeps-bind _ _ (Keeps-modify _ λ s h. h) λ _. advance-Keeps env v P stable view

  pub resume-Keeps : (i : ℕ) → Keeps (Holds P) (resume i)
  unfolding resume
  resume-Keeps i = Keeps-bind _ _ (Keeps-gets _) λ o. run_advance-Keeps i o
