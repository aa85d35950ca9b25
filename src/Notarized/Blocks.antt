-- ===== src/Notarized/Blocks.antt =====
-- `ProcessBlock`, `ProcessVote`, the timeouts, and the recursion that closes the handlers.
pub mod Kept
use bamboo.Prelude.{
  ℕ, zero, suc, Bool, true, false, ◌&&◌, Option, none, some, List, [], ◌∷◌, ◌++◌, ltb, ◌==◌, update,
  get_elem?, if◌then◌else◌, take, drop, ◌+◌,
}
use bamboo.Outcome.{Outcome, ok, err, fault, try, stale_block, invalid_leader, out_of_fuel}
use bamboo.Types.{View, Identifier, Qc, Vote, Block, Tmo, Tc}
use bamboo.Crypto.{pub_verify}
use bamboo.Exec.{Exec, pure, raise, stop, modify, skip, gets, reads, ignore, ◌>>=◌, ◌>>◌}
use bamboo.Exec.Verdict.{verdict_or_exit}
use bamboo.Pacemaker as Pacemaker
use bamboo.Blockchain.Quorum.{make_vote}
use bamboo.Blockchain.Chain.{exists, get_block_by_id, add_block, add_vote}
use bamboo.Notarized.State.{
  Env, Notarized, Handler, Calls, Variant, block, vote, tmo, broadcast, emit,
}
use bamboo.Notarized.Chain.{voting_rule}
use bamboo.Notarized.Certificate.{is_missing, advance, process_certificate}

buffer_block : Block → Notarized → Notarized
buffer_block b s = record s { buffered_blocks = update s.buffered_blocks b.prev_id (some b) }

note_echo : Identifier → Notarized → Notarized
note_echo id s = record s { echoed_block = update s.echoed_block id true }

insert_block : Block → Handler
insert_block b = do bc ← reads λ s. add_block b s.bc; modify λ s. record s { bc = bc }

module _ (env : Env) (v : Variant) (calls : Calls) where
  abbrev built_qc : Option Qc → Handler
  built_qc none = skip
  built_qc (some qc) = process_certificate env v calls qc

  count_vote : Vote → Handler
  count_vote m s = let (qc, bc) = add_vote env.byz_no m s.bc in built_qc qc (record s { bc = bc })

  is_signed : Vote → Exec Notarized Bool
  is_signed m =
      if m.voter == env.id
      then pure true
      else verdict_or_exit (pub_verify env.keys m.signature m.block_id m.voter)

  -- The vote is echoed unless a message about its block was.
  echo_vote : Vote → Handler
  echo_vote m = do
    echoed ← gets λ s. s.echoed_block m.block_id
    if echoed then skip else modify (note_echo m.block_id) >> v.echo (vote m)

  pub process_vote : Vote → Handler
  process_vote m = do signed ← is_signed m; if signed then echo_vote m >> count_vote m else skip

  echo_block : Block → Handler
  echo_block b = do
    echoed ← gets λ s. s.echoed_block b.id
    if echoed then skip else modify (note_echo b.id) >> v.spread false (block b)

  use_buffered_block : Option Block → Handler
  use_buffered_block none = skip
  use_buffered_block (some b) = ignore (calls.process_block b)

  vote_for : Block → Handler
  vote_for b = do
    m ← reads λ s. make_vote env.keys b.view env.id b.id
    process_vote m
    v.spread true (vote m)
    qc ← gets λ s. s.buffered_qcs b.id
    built_qc qc
    next ← gets λ s. s.buffered_blocks b.id
    use_buffered_block next

  -- An invalid signature is logged, and the block is processed all the same.
  log_signature : Block → Handler
  log_signature b =
      if b.proposer == env.id
      then skip
      else ignore (reads λ s. pub_verify env.keys b.sig b.id b.proposer)

  accept_block : Block → Handler
  accept_block b = do
    log_signature b
    echo_block b
    insert_block b
    should ← reads (voting_rule b)
    if should then vote_for b else modify (buffer_block b)

  with_parent : Block → Option Block → Handler
  with_parent b found =
      if is_missing found && ltb 1 b.view
      then modify (buffer_block b)
      else (if env.election.is_leader b.proposer b.view
          then accept_block b
          else raise (invalid_leader b.view b.proposer))

  fresh_block : Block → Handler
  fresh_block b = do
    cur ← gets λ s. s.pm.cur_view
    if ltb b.view cur
        then raise stale_block
        else (do found ← reads λ s. try (get_block_by_id s.bc b.prev_id); with_parent b found)

  pub process_block_message : Block → Handler
  process_block_message b = do
    known ← gets λ s. exists s.bc b.id
    if known then skip else fresh_block b

-- The handlers to a depth of calls.
pub calls : Env → Variant → ℕ → Calls
calls env v zero = record {
  process_block = λ b. stop out_of_fuel;
  process_certificate = λ qc. stop out_of_fuel;
}
calls env v (suc fuel) =
    let inner = calls env v fuel in
    record {
      process_block = process_block_message env v inner;
      process_certificate = process_certificate env v inner;
    }

-- `processTC` starts the change of the view.
spawn : View → Notarized → Notarized
spawn view s = record s { advancing = s.advancing ++ view ∷ [] }

pub process_tc : Tc → Handler
process_tc tc = modify λ s. if ltb tc.view s.pm.cur_view then s else spawn tc.view s

abbrev timed_out : Option Tc → Handler
timed_out none = skip
timed_out (some tc) = process_tc tc

pub process_remote_tmo : Tmo → Handler
process_remote_tmo m s =
    let (tc, pm) = Pacemaker.process_remote_tmo s.pm m in timed_out tc (record s { pm = pm })

pub process_local_tmo : Env → View → Handler
process_local_tmo env view = do
  let m : Tmo = record { view = view; node_id = env.id; high_qc = none }
  modify (emit (broadcast (tmo m) ∷ []))
  process_remote_tmo m

-- One of the started changes of the view runs.
run_advance : ℕ → Option View → Handler
run_advance i none = skip
run_advance i (some view) = do
  modify λ s. record s { advancing = take i s.advancing ++ drop (i + 1) s.advancing }
  modify (advance view)

pub resume : ℕ → Handler
resume i = do view ← gets λ s. get_elem? s.advancing i; run_advance i view
