-- ===== src/Replica/Progress/Once.antt =====
-- A leader proposes at most once in a view.
use bamboo.Prelude.{arith, ℕ, Bool, true, false, [], refl, if◌then◌else◌}
use bamboo.Exec.{◌>>=◌}
use bamboo.Mempool.Bloom.{BitSet}
use bamboo.Pacemaker.Views.{Increasing}
use bamboo.Chained.State.{Env}
use bamboo.Chained.Later.{Later-refl}
use bamboo.Hotstuff.State.{Height, new_hotstuff}
use bamboo.Hotstuff.Rules.Proposed.{view-make_proposal}
use bamboo.Hotstuff.Progress.{handle-Later, new_hotstuff-IsValid}
use bamboo.Replica.State.{Replica, new_replica}
use bamboo.Replica.Order.{Ordered, views_of, queued, empty, Orderly-Increasing}
use bamboo.Replica.Handlers.Ordered.{
  handle_block-Ordered, handle_vote-Ordered, handle_tmo-Ordered, handle_vmo-Ordered,
  handle_txn-Ordered,
}
use bamboo.Replica.Loop.{listen_view, time_out, listen_committed, listen_forked}
use bamboo.Replica.Loop.Ordered.{
  Announces, round-Ordered, time_out-Ordered, listen_view-Ordered, listen_committed-Ordered,
  listen_forked-Ordered,
}
use bamboo.Replica.Progress.{
  hotstuff, Step, block, vote, tmo, vmo, txn, event, view, committed, forked, timer, act,
  ReplicaReachable, start, next,
}

hotstuff-Announces : (env : Env) (fuel : ℕ) → Announces env (hotstuff env fuel)
unfolding ◌>>=◌
hotstuff-Announces env fuel = record {
  handle = λ e s v. handle-Later env fuel e s v;
  propose = λ w txns s v. Later-refl env s v;
  view = λ w txns s b e. view-make_proposal env w txns s b e;
}

if_started-Ordered :
    {B : BitSet} (env : Env) (started : Bool) (r r' : Replica B Height)
    → Ordered env r
    → Ordered env r'
    → Ordered env (if started then r' else r)
if_started-Ordered env true r r' h h' = h'
if_started-Ordered env false r r' h h' = h

module _ (B : BitSet) (env : Env) (b_size : ℕ) where
  act-Ordered :
      (fuel : ℕ) (step : Step) (r : Replica B Height)
      → Ordered env r
      → Ordered env (act B env b_size fuel step r)
  unfolding act
  act-Ordered fuel (block b) r h = handle_block-Ordered B env b r h
  act-Ordered fuel (vote m) r h = handle_vote-Ordered B env m r h
  act-Ordered fuel (tmo m) r h = handle_tmo-Ordered B env m r h
  act-Ordered fuel (vmo m) r h = handle_vmo-Ordered B env m r h
  act-Ordered fuel (txn now m) r h = handle_txn-Ordered B env now m r h
  act-Ordered fuel event r h =
      round-Ordered B env (hotstuff env fuel) (hotstuff-Announces env fuel) b_size r h
  act-Ordered fuel view r h =
      if_started-Ordered env r.is_started r (listen_view B env (hotstuff env fuel) b_size r) h
        (listen_view-Ordered B env (hotstuff env fuel) (hotstuff-Announces env fuel) b_size r h)
  act-Ordered fuel committed r h =
      if_started-Ordered env r.is_started r (listen_committed B env (hotstuff env fuel) b_size r) h
        (listen_committed-Ordered B env (hotstuff env fuel) (hotstuff-Announces env fuel) b_size r
          h)
  act-Ordered fuel forked r h =
      if_started-Ordered env r.is_started r (listen_forked B env (hotstuff env fuel) b_size r) h
        (listen_forked-Ordered B env (hotstuff env fuel) (hotstuff-Announces env fuel) b_size r h)
  act-Ordered fuel timer r h =
      if_started-Ordered env r.is_started r (time_out B env (hotstuff env fuel) b_size r).1 h
        (time_out-Ordered B env (hotstuff env fuel) (hotstuff-Announces env fuel) b_size r h)

  new_replica-Ordered : (n limit : ℕ) → Ordered env (new_replica B limit (new_hotstuff n))
  unfolding new_replica queued views_of
  new_replica-Ordered n limit = (
    new_hotstuff-IsValid env n,
    record { processed = []; split = refl; sub = empty; within = omega arith },
  )

  ReplicaReachable-Ordered :
      (n limit : ℕ) (r : Replica B Height) → ReplicaReachable B env b_size n limit r → Ordered env r
  ReplicaReachable-Ordered n limit r start = new_replica-Ordered n limit
  ReplicaReachable-Ordered n limit r (next fuel step p reached) =
      act-Ordered fuel step p (ReplicaReachable-Ordered n limit p reached)

  -- In every state that a HotStuff replica reaches, in whatever order messages, transactions, views,
  -- timeouts and committed blocks come, the views of its proposals grow strictly: it proposes at most
  -- once in a view, and never in an earlier one.
  pub ReplicaReachable-Increasing :
      (n limit : ℕ) (r : Replica B Height)
      → ReplicaReachable B env b_size n limit r
      → Increasing (views_of r.proposals)
  ReplicaReachable-Increasing n limit r reached =
      let (v, o) = ReplicaReachable-Ordered n limit r reached in
      Orderly-Increasing r.protocol.pm.new_view_chan r.views_seen r.event_chan r.proposals o
        v.pacemaker.increasing
