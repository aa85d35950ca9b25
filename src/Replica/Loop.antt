-- ===== src/Replica/Loop.antt =====
-- The loop over the events, the proposals, and the two listeners.
pub mod Kept
pub mod Ordered
use bamboo.Prelude.{
  ℕ, ◌+◌, Bool, true, false, Option, none, some, List, [], ◌∷◌, ◌++◌, length, get_elem?,
  if◌then◌else◌,
}
use bamboo.Outcome.{Outcome, ok, err, fault}
use bamboo.Types.{View, Block, Transaction}
use bamboo.Exec.{Exec, modify, skip, gets, ignore, ◌>>=◌, ◌>>◌}
use bamboo.Mempool.{generate_payload}
use bamboo.Mempool.Bloom.{BitSet}
use bamboo.Chained.State.{Env, Chained}
use bamboo.Chained.Progress.{block, vote, timer}
use bamboo.Chained.Progress as Chained
use bamboo.Replica.State.{Safety, Event, view, message, Replica}
use bamboo.Replica.Handlers.{push, process_committed_block, process_forked_block}

-- A payload holds no nil: what is in the pool are transactions.
pub present : List (Option Transaction) → List Transaction
present [] = []
present (none ∷ txns) = present txns
present (some txn ∷ txns) = txn ∷ present txns

module _ (B : BitSet) {Own : Type 0} where
  -- A call of the protocol.
  run : {Value : Type 0} → Exec (Chained Own) Value → Exec (Replica B Own) Value
  run call r = let (end, s) = call r.protocol in (end, record r { protocol = s })

  module _ (env : Env) (safety : Safety Own) (b_size : ℕ) where
    -- `GeneratePayload`
    payload : Exec (Replica B Own) (List Transaction)
    payload r =
        let (txns, pool) = generate_payload B b_size r.pd in
        (ok (present txns), record r { pd = pool })

    note_proposal : Block → Replica B Own → Replica B Own
    note_proposal b r = record r {
      total_block_size = r.total_block_size + length b.payload;
      proposed_no = r.proposed_no + 1;
      proposals = r.proposals ++ b ∷ [];
      broadcasts = if env.is_streamlet then r.broadcasts else r.broadcasts ++ b ∷ [];
    }

    -- The protocols that a replica can run give no nil.
    propose_block : View → Exec (Replica B Own) (Unit {0})
    propose_block v = do
      txns ← payload
      b ← run (safety.make_proposal v txns)
      modify (note_proposal b)
      ignore (run (safety.handle (block b)))

    pub process_new_view : View → Exec (Replica B Own) (Unit {0})
    process_new_view v =
        if env.election.is_leader env.id v
        then (if env.is_byz then skip else propose_block v)
        else skip

    count_message : Chained.Event → Replica B Own → Replica B Own
    count_message (block b) r = record r { processed_no = r.processed_no + 1 }
    count_message (vote v) r = record r { vote_no = r.vote_no + 1 }
    count_message e r = r

    pub process_event : Event → Exec (Replica B Own) (Unit {0})
    process_event (view v) = process_new_view v
    process_event (message e) = ignore (run (safety.handle e)) >> modify (count_message e)

    take_event : List Event → Exec (Replica B Own) (Unit {0})
    take_event [] = skip
    take_event (e ∷ es) = modify (λ r. record r { event_chan = es }) >> process_event e

    -- One round of `Start`.
    pub round : Exec (Replica B Own) (Unit {0})
    round = do
      started ← gets λ r. r.is_started
      if started then gets (λ r. r.event_chan) >>= take_event else skip

    -- `ListenLocalEvent`: the next entered view becomes an event, and a timeout calls the protocol.
    enter_view : Option View → Replica B Own → Replica B Own
    enter_view none r = r
    enter_view (some v) r =
        push B (view v) (record r { views_seen = r.views_seen + 1; round_no = r.round_no + 1 })

    pub listen_view : Replica B Own → Replica B Own
    listen_view r = enter_view (get_elem? r.protocol.pm.new_view_chan r.views_seen) r

    -- `ProcessLocalTmo` as one step; the goroutine takes no lock for it.
    pub time_out : Exec (Replica B Own) (Unit {0})
    time_out = do cur ← gets λ r. r.protocol.pm.cur_view; run (safety.handle (timer cur))

    -- `ListenCommittedBlocks`
    take_committed : Option Block → Replica B Own → Replica B Own
    take_committed none r = r
    take_committed (some b) r =
        process_committed_block B b (record r { committed_seen = r.committed_seen + 1 })

    pub listen_committed : Replica B Own → Replica B Own
    listen_committed r = take_committed (get_elem? r.protocol.committed_blocks r.committed_seen) r

    take_forked : Option Block → Replica B Own → Replica B Own
    take_forked none r = r
    take_forked (some b) r =
        process_forked_block B env b (record r { forked_seen = r.forked_seen + 1 })

    pub listen_forked : Replica B Own → Replica B Own
    listen_forked r = take_forked (get_elem? r.protocol.forked_blocks r.forked_seen) r
