-- ===== src/Replica/Progress.antt =====
-- What a HotStuff replica does and reaches.
pub mod Once
use bamboo.Prelude.{◌≡◌, Bool, true, false, if◌then◌else◌, ℕ}
use bamboo.Types.{Vote, Block, Tmo, Vmo, Transaction}
use bamboo.Exec.{reads}
use bamboo.Exec.Keeps.{Keeps-reads}
use bamboo.Mempool.Bloom.{BitSet}
use bamboo.Chained.State.{Env}
use bamboo.Hotstuff.State.{Height, Hotstuff, new_hotstuff}
use bamboo.Hotstuff.Rules.{make_proposal}
use bamboo.Hotstuff.Progress.{handle, handle-Later, new_hotstuff-IsValid}
use bamboo.Replica.State.{Safety, Replica, new_replica}
use bamboo.Replica.Invariant.{IsValid, new_replica-IsValid}
use bamboo.Replica.Handlers.{handle_block, handle_vote, handle_tmo, handle_vmo, handle_txn}
use bamboo.Replica.Handlers.Kept.{
  handle_block-IsValid, handle_vote-IsValid, handle_tmo-IsValid, handle_vmo-IsValid,
  handle_txn-IsValid,
}
use bamboo.Replica.Loop.{round, listen_view, time_out, listen_committed, listen_forked}
use bamboo.Replica.Loop.Kept.{
  Protocol, round-Keeps, time_out-Keeps, listen_view-IsValid, listen_committed-IsValid,
  listen_forked-IsValid,
}

-- HotStuff as the protocol of a replica, with the fuel of its handlers.
abbrev pub hotstuff : Env → ℕ → Safety Height
hotstuff env fuel = record {
  handle = handle env fuel;
  make_proposal = λ v txns. reads (make_proposal env v txns);
}

hotstuff-Protocol : (env : Env) (fuel : ℕ) → Protocol env (hotstuff env fuel)
hotstuff-Protocol env fuel = record {
  handle = λ e. record {
    at = λ s v.
        let later = handle-Later env fuel e s v in
        record { pacemaker = later.pacemaker; chain = later.chain.valid };
  };
  propose = λ v txns. Keeps-reads _;
}

-- What can happen to a replica: a message or a transaction arrives, the loop takes an event, or a
-- listener acts.
pub data Step : Type 0 where
  block : Block → Step
  vote : Vote → Step
  tmo : Tmo → Step
  vmo : Vmo → Step
  txn : ℕ → Transaction → Step
  event view committed forked timer : Step

-- The listeners are started with the loop.
abbrev pub once_started :
    {B : BitSet} → (Replica B Height → Replica B Height) → Replica B Height → Replica B Height
once_started f r = if r.is_started then f r else r

if_started-IsValid :
    {B : BitSet} (overlapped : Bool) (env : Env) (started : Bool) (r r' : Replica B Height)
    → IsValid overlapped env r
    → IsValid overlapped env r'
    → IsValid overlapped env (if started then r' else r)
if_started-IsValid overlapped env true r r' v v' = v'
if_started-IsValid overlapped env false r r' v v' = v

module _ (B : BitSet) (env : Env) (b_size : ℕ) where
  pub act : ℕ → Step → Replica B Height → Replica B Height
  act fuel (block b) r = handle_block B b r
  act fuel (vote v) r = handle_vote B env v r
  act fuel (tmo m) r = handle_tmo B m r
  act fuel (vmo m) r = handle_vmo B m r
  act fuel (txn now m) r = handle_txn B env now m r
  act fuel event r = (round B env (hotstuff env fuel) b_size r).1
  act fuel view r = once_started (listen_view B env (hotstuff env fuel) b_size) r
  act fuel committed r = once_started (listen_committed B env (hotstuff env fuel) b_size) r
  act fuel forked r = once_started (listen_forked B env (hotstuff env fuel) b_size) r
  act fuel timer r = once_started (λ r. (time_out B env (hotstuff env fuel) b_size r).1) r

  -- The states that a replica of n nodes reaches, whatever happens in whatever order, one step after
  -- the other.
  pub data ReplicaReachable (n limit : ℕ) : Replica B Height → Type 0 where
    start : ReplicaReachable n limit (new_replica B limit (new_hotstuff n))
    next :
        (fuel : ℕ) (step : Step) (r : Replica B Height)
        → ReplicaReachable n limit r
        → ReplicaReachable n limit (act fuel step r)

  act-IsValid :
      (overlapped : Bool) (fuel : ℕ) (step : Step) (r : Replica B Height)
      → IsValid overlapped env r
      → IsValid overlapped env (act fuel step r)
  unfolding act
  act-IsValid overlapped fuel (block b) r v = handle_block-IsValid B overlapped env b r v
  act-IsValid overlapped fuel (vote m) r v = handle_vote-IsValid B overlapped env m r v
  act-IsValid overlapped fuel (tmo m) r v = handle_tmo-IsValid B overlapped env m r v
  act-IsValid overlapped fuel (vmo m) r v = handle_vmo-IsValid B overlapped env m r v
  act-IsValid overlapped fuel (txn now m) r v = handle_txn-IsValid B overlapped env now m r v
  act-IsValid overlapped fuel event r v =
      (round-Keeps B overlapped env (hotstuff env fuel) (hotstuff-Protocol env fuel) b_size).at r v
  act-IsValid overlapped fuel view r v =
      if_started-IsValid overlapped env r.is_started r
        (listen_view B env (hotstuff env fuel) b_size r) v
        (listen_view-IsValid B overlapped env (hotstuff env fuel) (hotstuff-Protocol env fuel)
          b_size r v)
  act-IsValid overlapped fuel committed r v =
      if_started-IsValid overlapped env r.is_started r
        (listen_committed B env (hotstuff env fuel) b_size r) v
        (listen_committed-IsValid B overlapped env (hotstuff env fuel) (hotstuff-Protocol env fuel)
          b_size r v)
  act-IsValid overlapped fuel forked r v =
      if_started-IsValid overlapped env r.is_started r
        (listen_forked B env (hotstuff env fuel) b_size r) v
        (listen_forked-IsValid B overlapped env (hotstuff env fuel) (hotstuff-Protocol env fuel)
          b_size r v)
  act-IsValid overlapped fuel timer r v =
      if_started-IsValid overlapped env r.is_started r
        (time_out B env (hotstuff env fuel) b_size r).1 v
        ((time_out-Keeps B overlapped env (hotstuff env fuel) (hotstuff-Protocol env fuel)
            b_size).at
          r v)

  -- The same, and whether a timeout's call of the protocol overlapped with one of the loop: no lock
  -- keeps it from that, and it can leave the protocol in any state.
  pub data Overlapping (n limit : ℕ) : Bool → Replica B Height → Type 0 where
    begin : Overlapping n limit false (new_replica B limit (new_hotstuff n))
    go_on :
        {overlapped : Bool} (fuel : ℕ) (step : Step) (r : Replica B Height)
        → Overlapping n limit overlapped r
        → Overlapping n limit overlapped (act fuel step r)
    overlap :
        {overlapped : Bool} (s : Hotstuff) (r : Replica B Height)
        → Overlapping n limit overlapped r
        → Overlapping n limit true (record r { protocol = s })

  overlap-IsValid :
      (overlapped : Bool) (s : Hotstuff) (r : Replica B Height)
      → IsValid overlapped env r
      → IsValid true env (record r { protocol = s })
  overlap-IsValid overlapped s r v = record {
    protocol = λ alone. absurd (cc);
    counted = v.counted;
    read = v.read;
    proposed = v.proposed;
    quiet = v.quiet;
    sends = v.sends;
  }

  -- Where every call of the protocol on a timeout came between two of the loop, its state is
  -- well formed. In every state that a HotStuff replica with its loop, its listeners and its
  -- pool reaches, in whatever order messages, transactions, views, timeouts and committed blocks
  -- come, and with the protocol left in any state where such a call overlapped with one of the
  -- loop, every committed block that was read is counted once, as malicious or not, every
  -- proposal is counted and sent, but none is sent where the configured algorithm is
  -- "streamlet", and a Byzantine node has proposed nothing.
  pub Overlapping-IsValid :
      (n limit : ℕ) (overlapped : Bool) (r : Replica B Height)
      → Overlapping n limit overlapped r
      → IsValid overlapped env r
  Overlapping-IsValid n limit _ r begin =
      new_replica-IsValid B env limit (new_hotstuff n) (new_hotstuff-IsValid env n)
  Overlapping-IsValid n limit overlapped _ (go_on fuel step p reached) =
      act-IsValid overlapped fuel step p (Overlapping-IsValid n limit overlapped p reached)
  Overlapping-IsValid n limit _ _ (overlap {overlapped} s p reached) =
      overlap-IsValid overlapped s p (Overlapping-IsValid n limit overlapped p reached)
