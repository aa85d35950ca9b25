-- ===== src/Replica/Handlers.antt =====
-- The message handlers of a replica, and what it does with committed and forked blocks.
pub mod Kept
pub mod Ordered
use bamboo.Prelude.{
  ℕ, ◌+◌, Bool, true, not, ◌&&◌, List, [], ◌∷◌, ◌++◌, length, ltb, ◌==◌, ◌+ℤ◌, if◌then◌else◌,
}
use bamboo.Types.{View, Vote, Block, Tmo, Vmo, Transaction}
use bamboo.Mempool.{Backend, add_txn, collect_txn}
use bamboo.Mempool.Bloom.{BitSet}
use bamboo.Chained.State.{Env}
use bamboo.Chained.Progress as Chained
use bamboo.Chained.Views.{advance}
use bamboo.Replica.State.{Event, message, Replica}

collect_payload : (B : BitSet) → List Transaction → Backend B → Backend B
collect_payload B [] pool = pool
collect_payload B (txn ∷ txns) pool = collect_payload B txns (collect_txn B txn pool)

module _ (B : BitSet) {Own : Type 0} where
  unfoldable pub push : Event → Replica B Own → Replica B Own
  push e r = record r { event_chan = r.event_chan ++ e ∷ [] }

  start_signal : Replica B Own → Replica B Own
  start_signal r = record r { is_started = true }

  pub handle_block : Block → Replica B Own → Replica B Own
  handle_block b r =
      push (message (Chained.block b)) (start_signal (record r { received_no = r.received_no + 1 }))

  -- A message of an earlier view is dropped, but for a vote where the configured algorithm is
  -- "streamlet".
  pub handle_vote : Env → Vote → Replica B Own → Replica B Own
  handle_vote env v r =
      if not env.is_streamlet && ltb v.view r.protocol.pm.cur_view
      then r
      else push (message (Chained.vote v)) (start_signal r)

  pub handle_tmo : Tmo → Replica B Own → Replica B Own
  handle_tmo m r = if ltb m.view r.protocol.pm.cur_view then r else push (message (Chained.tmo m)) r

  pub handle_vmo : Vmo → Replica B Own → Replica B Own
  handle_vmo m r = if ltb m.view r.protocol.pm.cur_view then r else push (message (Chained.vmo m)) r

  kick_off : Replica B Own → Replica B Own
  kick_off r = record r { protocol = advance 0 r.protocol }

  -- The first leader kicks off the protocol.
  pub handle_txn : Env → ℕ → Transaction → Replica B Own → Replica B Own
  handle_txn env now txn r =
      let r' = start_signal (record r { pd = add_txn B now txn r.pd }) in
      if r'.protocol.pm.cur_view == 0 && env.election.is_leader env.id 1 then kick_off r' else r'

  count_commit : Block → Replica B Own → Replica B Own
  count_commit b r = record r {
    total_commit_times =
        if b.commit_from_this then r.total_commit_times + 1 else r.total_commit_times;
    committed_no = r.committed_no + 1;
    total_committed_tx = r.total_committed_tx + length b.payload;
  }

  -- The file that it may write is under `&& false`.
  pub process_committed_block : Block → Replica B Own → Replica B Own
  process_committed_block b r =
      let r' = count_commit b r in
      if b.mali
      then record r' { mali_no = r'.mali_no + 1; forked_no = r'.forked_no +ℤ b.fork_num }
      else record r' { kind_no = r'.kind_no + 1 }

  -- The transactions of the replica's own forked blocks go back to the pool.
  pub process_forked_block : Env → Block → Replica B Own → Replica B Own
  process_forked_block env b r =
      if b.proposer == env.id then record r { pd = collect_payload B b.payload r.pd } else r
