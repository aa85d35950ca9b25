-- ===== src/Chained/State.antt =====
-- The fields that the chained protocols share, their environment, what they send, and their calls
-- of each other.
use bamboo.Prelude.{ℕ, Bool, Option, none, List, [], ◌∷◌, ◌++◌}
use bamboo.Types.{View, Identifier, NodeId, Qc, Vote, Block, Tmo, Vmo}
use bamboo.Crypto.{Keys}
use bamboo.Election.{Election}
use bamboo.Exec.{Exec}
use bamboo.Pacemaker.{Pacemaker, new_pacemaker}
use bamboo.Blockchain.Block.{RawBlock}
use bamboo.Blockchain.Chain.{BlockChain, new_blockchain}

-- What is fixed while a replica runs: the node, the configuration, the keys, the election and the
-- hash of blocks. `rounds` is the fuel of the walks over the forest;
-- `is_streamlet` tells whether the configured algorithm is "streamlet".
pub record Env : Type 0 where
  pub id : NodeId
  pub is_byz : Bool
  pub byz_no : ℕ
  pub fork_atk : Bool
  pub keys : Keys
  pub election : Election
  pub hash : RawBlock → Identifier
  pub rounds : ℕ
  pub is_streamlet : Bool

pub data Message : Type 0 where
  vote : Vote → Message
  tmo : Tmo → Message
  vmo : Vmo → Message

pub data Sent : Type 0 where
  send : NodeId → Message → Sent
  broadcast : Message → Sent

-- The fields of HotStuff, Tchs and Fhs; `own` has those that only one of them has. The channels and
-- the network hold what was sent, oldest first. The three maps by view have keys of the form
-- `view - 1`; the key k stands as k + 1, so that view 0 needs no negative key.
pub record Chained (Own : Type 0) : Type 0 where
  pub pm : Pacemaker
  pub preferred_view : View
  pub high_qc : Qc
  pub own : Own
  pub bc : BlockChain
  pub committed_blocks : List Block
  pub forked_blocks : List Block
  pub buffered_qcs : Identifier → Option Qc
  pub buffered_blocks : View → Option Block
  pub recived_vmo : View → Option Vmo
  pub recived_block : View → Option Block
  pub sent : List Sent

abbrev pub genesis_qc : Qc
genesis_qc = record {
  leader = 0;
  view = 0;
  block_id = 0;
  signers = [];
  agg_sig = [];
  signature = [];
}

unfoldable pub new_chained : {Own : Type 0} → ℕ → Own → Chained Own
new_chained n own = record {
  pm = new_pacemaker n;
  preferred_view = 0;
  high_qc = genesis_qc;
  own = own;
  bc = new_blockchain n;
  committed_blocks = [];
  forked_blocks = [];
  buffered_qcs = λ _. none;
  buffered_blocks = λ _. none;
  recived_vmo = λ _. none;
  recived_block = λ _. none;
  sent = [];
}

abbrev pub emit : {Own : Type 0} → Sent → Chained Own → Chained Own
emit m s = record s { sent = s.sent ++ m ∷ [] }

abbrev pub Handler : Type 0 → Type 0
Handler Own = Exec (Chained Own) (Unit {0})

-- The handlers that call each other.
pub record Calls (Own : Type 0) : Type 0 where
  pub process_block : Block → Handler Own
  pub process_remote_vmo : Vmo → Handler Own
