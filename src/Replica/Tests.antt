-- ===== src/Replica/Tests.antt =====
-- The theorem on a HotStuff replica that is node 1 of four, after its first block.
use bamboo.Chained.State.{Env}
use bamboo.Types.{Transaction}
use bamboo.Prelude.{[], ◌∷◌, ℕ, Bool, false, ◌||◌, ◌==◌}
use bamboo.Mempool.Bloom.{BitSet}
use bamboo.Blockchain.Samples.{block_1}
use bamboo.Chained.Samples.{sample_env}
use bamboo.Hotstuff.State.{Height, new_hotstuff}
use bamboo.Replica.State.{Replica, new_replica}
use bamboo.Replica.Invariant.{IsValid}
use bamboo.Pacemaker.Views.{Increasing}
use bamboo.Replica.Order.{views_of}
use bamboo.Replica.Progress.Once.{ReplicaReachable-Increasing}
use bamboo.Replica.Progress.{
  block, txn, view, event, act, start, next, begin, go_on, Overlapping-IsValid,
}

abbrev sample_bits : BitSet
sample_bits = record {
  Bits = ℕ → Bool;
  new = λ i. false;
  set = λ j s i. i == j || s i;
  test = λ i s. s i;
}

abbrev idle : Replica sample_bits Height
idle = new_replica sample_bits 100 (new_hotstuff 4)

abbrev received : Replica sample_bits Height
received = act sample_bits sample_env 10 5 (block block_1) idle

abbrev processed : Replica sample_bits Height
processed = act sample_bits sample_env 10 5 event received

Overlapping-IsValid_example : IsValid false sample_env processed
Overlapping-IsValid_example =
    Overlapping-IsValid sample_bits sample_env 10 4 100 false processed
      (go_on 5 event received (go_on 5 (block block_1) idle begin))

-- Node 4 leads view 1: a transaction kicks off the protocol, the view is read, and the block is
-- proposed.
abbrev leader_env : Env
leader_env = record sample_env { id = 4 }

abbrev sample_txn : Transaction
sample_txn = record { id = 1 ∷ []; node_id = 4; timestamp = 0 }

abbrev kicked_off : Replica sample_bits Height
kicked_off = act sample_bits leader_env 10 5 (txn 7 sample_txn) idle

abbrev entered : Replica sample_bits Height
entered = act sample_bits leader_env 10 5 view kicked_off

abbrev proposed : Replica sample_bits Height
proposed = act sample_bits leader_env 10 5 event entered

ReplicaReachable-Increasing_example : Increasing (views_of proposed.proposals)
ReplicaReachable-Increasing_example =
    ReplicaReachable-Increasing sample_bits leader_env 10 4 100 proposed
      (next 5 event entered (next 5 view kicked_off (next 5 (txn 7 sample_txn) idle start)))
