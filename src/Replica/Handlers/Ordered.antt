-- ===== src/Replica/Handlers/Ordered.antt =====
-- The message handlers and the listeners' actions keep the order of the proposals.
use bamboo.Prelude.{not, ◌&&◌, ℕ, Bool, true, false, ltb, ◌==◌, Bool-cases, inl, inr, if◌then◌else◌}
use bamboo.Types.{Vote, Block, Tmo, Vmo, Transaction}
use bamboo.Pacemaker.Views.{advance_view-IsValid, new_view_chan-advance_view}
use bamboo.Mempool.Bloom.{BitSet}
use bamboo.Chained.State.{Env}
use bamboo.Chained.Views.{advance}
use bamboo.Chained.Progress.{block, vote, tmo, vmo, timer}
use bamboo.Chained.Progress as Chained
use bamboo.Replica.State.{message, Replica}
use bamboo.Replica.Handlers.{
  push, start_signal, handle_block, handle_vote, handle_tmo, handle_vmo, kick_off, handle_txn,
  count_commit, process_committed_block, process_forked_block,
}
use bamboo.Replica.Order.{Ordered, Orderly-grow, Orderly-message}

module _ (B : BitSet) {Own : Type 0} (env : Env) where
  push-Ordered :
      (m : Chained.Event) (r : Replica B Own) → Ordered env r → Ordered env (push B (message m) r)
  unfolding push
  push-Ordered m r (v, o) = (v, Orderly-message m o)

  pub handle_block-Ordered :
      (b : Block) (r : Replica B Own) → Ordered env r → Ordered env (handle_block B b r)
  unfolding handle_block push start_signal
  handle_block-Ordered b r (v, o) = (v, Orderly-message (block b) o)

  pub handle_vote-Ordered :
      (m : Vote) (r : Replica B Own) → Ordered env r → Ordered env (handle_vote B env m r)
  unfolding handle_vote push start_signal
  handle_vote-Ordered m r (v, o) =
      elim (Bool-cases (not env.is_streamlet && ltb m.view r.protocol.pm.cur_view)) [
        | inl old ↦ rw old (v, o)
        | inr new ↦ rw new (v, Orderly-message (vote m) o)
      ]

  pub handle_tmo-Ordered :
      (m : Tmo) (r : Replica B Own) → Ordered env r → Ordered env (handle_tmo B m r)
  unfolding handle_tmo
  handle_tmo-Ordered m r h = elim (Bool-cases (ltb m.view r.protocol.pm.cur_view)) [
    | inl old ↦ rw old h
    | inr new ↦ rw new (push-Ordered (tmo m) r h)
  ]

  pub handle_vmo-Ordered :
      (m : Vmo) (r : Replica B Own) → Ordered env r → Ordered env (handle_vmo B m r)
  unfolding handle_vmo
  handle_vmo-Ordered m r h = elim (Bool-cases (ltb m.view r.protocol.pm.cur_view)) [
    | inl old ↦ rw old h
    | inr new ↦ rw new (push-Ordered (vmo m) r h)
  ]

  kicked :
      (test : Bool) (r : Replica B Own)
      → Ordered env r
      → Ordered env (if test then kick_off B r else r)
  unfolding kick_off advance
  kicked true r (v, o) = (
    record { pacemaker = advance_view-IsValid 0 r.protocol.pm v.pacemaker; chain = v.chain },
    Orderly-grow _ (new_view_chan-advance_view 0 r.protocol.pm) o,
  )
  kicked false r h = h

  pub handle_txn-Ordered :
      (now : ℕ) (txn : Transaction) (r : Replica B Own)
      → Ordered env r
      → Ordered env (handle_txn B env now txn r)
  unfolding handle_txn start_signal
  handle_txn-Ordered now txn r h = kicked _ _ h

  pub committed-Ordered :
      (b : Block) (r : Replica B Own) → Ordered env r → Ordered env (process_committed_block B b r)
  unfolding process_committed_block count_commit
  committed-Ordered b r h = elim (Bool-cases b.mali) [ inl mali ↦ rw mali h | inr kind ↦ rw kind h ]

  pub forked-Ordered :
      (b : Block) (r : Replica B Own) → Ordered env r → Ordered env (process_forked_block B env b r)
  unfolding process_forked_block
  forked-Ordered b r h = elim (Bool-cases (b.proposer == env.id)) [
    | inl own ↦ rw own h
    | inr other ↦ rw other h
  ]
