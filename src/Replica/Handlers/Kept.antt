-- ===== src/Replica/Handlers/Kept.antt =====
-- The message handlers and the listeners' actions keep the replica's invariant.
use bamboo.Prelude.{not, ◌&&◌, ℕ, ◌+◌, ltb, ◌==◌, arith, Bool-cases, inl, inr, if◌then◌else◌, Bool}
use bamboo.Types.{Vote, Block, Tmo, Vmo, Transaction}
use bamboo.Mempool.Bloom.{BitSet}
use bamboo.Pacemaker.Views.{advance_view-IsValid}
use bamboo.Chained.State.{Env}
use bamboo.Chained.Views.{advance}
use bamboo.Replica.State.{Event, Replica}
use bamboo.Replica.Invariant.{IsValid}
use bamboo.Replica.Handlers.{
  push, start_signal, handle_block, handle_vote, handle_tmo, handle_vmo, kick_off, handle_txn,
  count_commit, process_committed_block, process_forked_block,
}

module _ (B : BitSet) {Own : Type 0} (overlapped : Bool) (env : Env) where
  pub push-IsValid :
      (e : Event) (r : Replica B Own)
      → IsValid overlapped env r
      → IsValid overlapped env (push B e r)
  unfolding push
  push-IsValid e r v = v

  start_signal-IsValid :
      (r : Replica B Own) → IsValid overlapped env r → IsValid overlapped env (start_signal B r)
  unfolding start_signal
  start_signal-IsValid r v = v

  pub handle_block-IsValid :
      (b : Block) (r : Replica B Own)
      → IsValid overlapped env r
      → IsValid overlapped env (handle_block B b r)
  unfolding handle_block
  handle_block-IsValid b r v =
      push-IsValid _ _ (start_signal-IsValid (record r { received_no = r.received_no + 1 }) v)

  pub handle_vote-IsValid :
      (m : Vote) (r : Replica B Own)
      → IsValid overlapped env r
      → IsValid overlapped env (handle_vote B env m r)
  unfolding handle_vote
  handle_vote-IsValid m r v =
      elim (Bool-cases (not env.is_streamlet && ltb m.view r.protocol.pm.cur_view)) [
        | inl old ↦ rw old v
        | inr new ↦ rw new (push-IsValid _ _ (start_signal-IsValid r v))
      ]

  pub handle_tmo-IsValid :
      (m : Tmo) (r : Replica B Own)
      → IsValid overlapped env r
      → IsValid overlapped env (handle_tmo B m r)
  unfolding handle_tmo
  handle_tmo-IsValid m r v = elim (Bool-cases (ltb m.view r.protocol.pm.cur_view)) [
    | inl old ↦ rw old v
    | inr new ↦ rw new (push-IsValid _ r v)
  ]

  pub handle_vmo-IsValid :
      (m : Vmo) (r : Replica B Own)
      → IsValid overlapped env r
      → IsValid overlapped env (handle_vmo B m r)
  unfolding handle_vmo
  handle_vmo-IsValid m r v = elim (Bool-cases (ltb m.view r.protocol.pm.cur_view)) [
    | inl old ↦ rw old v
    | inr new ↦ rw new (push-IsValid _ r v)
  ]

  kick_off-IsValid :
      (r : Replica B Own) → IsValid overlapped env r → IsValid overlapped env (kick_off B r)
  unfolding kick_off advance
  kick_off-IsValid r v = record {
    protocol = λ alone. record {
      pacemaker = advance_view-IsValid 0 r.protocol.pm (v.protocol alone).pacemaker;
      chain = (v.protocol alone).chain;
    };
    counted = v.counted;
    read = v.read;
    proposed = v.proposed;
    quiet = v.quiet;
    sends = v.sends;
  }

  kicked :
      (test : Bool) (r : Replica B Own)
      → IsValid overlapped env r
      → IsValid overlapped env (if test then kick_off B r else r)
  kicked test r v = elim (Bool-cases test) [
    | inl yes' ↦ rw yes' (kick_off-IsValid r v)
    | inr no' ↦ rw no' v
  ]

  pub handle_txn-IsValid :
      (now : ℕ) (txn : Transaction) (r : Replica B Own)
      → IsValid overlapped env r
      → IsValid overlapped env (handle_txn B env now txn r)
  unfolding handle_txn
  handle_txn-IsValid now txn r v = kicked _ _ (start_signal-IsValid _ v)

  -- The block has just been read from the channel.
  pub process_committed_block-IsValid :
      (b : Block) (r : Replica B Own)
      → IsValid overlapped env r
      → IsValid overlapped env
          (process_committed_block B b (record r { committed_seen = r.committed_seen + 1 }))
  unfolding process_committed_block count_commit
  process_committed_block-IsValid b r v = elim (Bool-cases b.mali) [
    | inl mali ↦ rw mali (record {
      protocol = v.protocol;
      counted = omega (arith, v.counted);
      read = omega (arith, v.read);
      proposed = v.proposed;
      quiet = v.quiet;
      sends = v.sends;
    })
    | inr kind ↦ rw kind (record {
      protocol = v.protocol;
      counted = omega (arith, v.counted);
      read = omega (arith, v.read);
      proposed = v.proposed;
      quiet = v.quiet;
      sends = v.sends;
    })
  ]

  pub process_forked_block-IsValid :
      (b : Block) (r : Replica B Own)
      → IsValid overlapped env r
      → IsValid overlapped env
          (process_forked_block B env b (record r { forked_seen = r.forked_seen + 1 }))
  unfolding process_forked_block
  process_forked_block-IsValid b r v = elim (Bool-cases (b.proposer == env.id)) [
    | inl own ↦ rw own v
    | inr other ↦ rw other v
  ]
