-- ===== src/Replica/State.antt =====
-- The fields of a replica. The timers that measure it, its text of statistics and the count of
-- transactions whose delay it adds up are left out.
use bamboo.Prelude.{ℕ, Bool, false, List, [], ℤ, pos}
use bamboo.Types.{View, Block, Transaction}
use bamboo.Exec.{Exec}
use bamboo.Mempool.{Backend, new_backend}
use bamboo.Mempool.Bloom.{BitSet}
use bamboo.Chained.State.{Chained, Handler}
use bamboo.Chained.Progress as Chained

-- safety.go: what a protocol gives a replica, its handlers by the message that they handle.
pub record Safety (Own : Type 0) : Type 0 where
  pub handle : Chained.Event → Handler Own
  pub make_proposal : View → List Transaction → Exec (Chained Own) Block

-- What waits in the channel of events.
pub data Event : Type 0 where
  view : View → Event
  message : Chained.Event → Event

-- The channel of events has no buffer: `event_chan` holds what senders wait with, oldest first.
-- `proposals` are the blocks that the protocol gave to propose, `broadcasts` those that were sent. The listeners have read the first `views_seen`
-- entries of the pacemaker's channel and the first `committed_seen` and `forked_seen` of the two
-- channels of blocks.
pub record Replica (B : BitSet) (Own : Type 0) : Type 0 where
  pub protocol : Chained Own
  pub pd : Backend B
  pub is_started : Bool
  pub event_chan : List Event
  pub proposals : List Block
  pub broadcasts : List Block
  pub views_seen : ℕ
  pub committed_seen : ℕ
  pub forked_seen : ℕ
  pub received_no : ℕ
  pub round_no : ℕ
  pub vote_no : ℕ
  pub proposed_no : ℕ
  pub processed_no : ℕ
  pub committed_no : ℕ
  pub total_committed_tx : ℕ
  pub total_block_size : ℕ
  pub total_commit_times : ℕ
  pub mali_no : ℕ
  pub kind_no : ℕ
  pub forked_no : ℤ

unfoldable pub new_replica : (B : BitSet) {Own : Type 0} → ℕ → Chained Own → Replica B Own
new_replica B limit protocol = record {
  protocol = protocol;
  pd = new_backend B limit;
  is_started = false;
  event_chan = [];
  proposals = [];
  broadcasts = [];
  views_seen = 0;
  committed_seen = 0;
  forked_seen = 0;
  received_no = 0;
  round_no = 0;
  vote_no = 0;
  proposed_no = 0;
  processed_no = 0;
  committed_no = 0;
  total_committed_tx = 0;
  total_block_size = 0;
  total_commit_times = 0;
  mali_no = 0;
  kind_no = 0;
  forked_no = pos 0;
}
