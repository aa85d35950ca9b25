-- ===== src/Notarized/State.antt =====
-- The fields of Streamlet and of Lbft, their environment, and what they send.
use bamboo.Prelude.{ℕ, Bool, false, Option, none, List, [], ◌++◌}
use bamboo.Types.{View, Identifier, NodeId, Qc, Vote, Block, Tmo}
use bamboo.Crypto.{Keys}
use bamboo.Election.{Election}
use bamboo.Exec.{Exec}
use bamboo.Pacemaker.{Pacemaker, new_pacemaker, advance_view}
use bamboo.Blockchain.Block.{RawBlock}
use bamboo.Blockchain.Chain.{BlockChain, new_blockchain}

-- What is fixed while a replica runs. `genesis` is the hash of "Genesis block", `timeout` is in
-- milliseconds, and `rounds` is the fuel of the walks over the forest.
pub record Env : Type 0 where
  pub id : NodeId
  pub n : ℕ
  pub is_byz : Bool
  pub byz_no : ℕ
  pub timeout : ℕ
  pub genesis : Identifier
  pub keys : Keys
  pub election : Election
  pub hash : RawBlock → Identifier
  pub rounds : ℕ

pub data Message : Type 0 where
  block : Block → Message
  vote : Vote → Message
  tmo : Tmo → Message

-- `later` is a `Send` that a timer makes, with the delay.
pub data Sent : Type 0 where
  later : ℕ → NodeId → Message → Sent
  broadcast : Message → Sent

-- The layers of the notarized chain stand newest first. `advancing` holds the views of the calls
-- `go pm.AdvanceView(view)` that have not run yet.
pub record Notarized : Type 0 where
  pub pm : Pacemaker
  pub bc : BlockChain
  pub notarized_chain : List (List Block)
  pub buffered_blocks : Identifier → Option Block
  pub buffered_qcs : Identifier → Option Qc
  pub buffered_notarized_block : Identifier → Option Qc
  pub committed_blocks : List Block
  pub forked_blocks : List Block
  pub echoed_block : Identifier → Bool
  pub echoed_vote : Identifier → Bool
  pub sent : List Sent
  pub advancing : List View

unfoldable pub new_notarized : ℕ → Notarized
new_notarized n = record {
  pm = advance_view 0 (new_pacemaker n);
  bc = new_blockchain n;
  notarized_chain = [];
  buffered_blocks = λ _. none;
  buffered_qcs = λ _. none;
  buffered_notarized_block = λ _. none;
  committed_blocks = [];
  forked_blocks = [];
  echoed_block = λ _. false;
  echoed_vote = λ _. false;
  sent = [];
  advancing = [];
}

abbrev pub emit : List Sent → Notarized → Notarized
emit ms s = record s { sent = s.sent ++ ms }

abbrev pub Handler : Type 0
Handler = Exec Notarized (Unit {0})

-- The handlers that call each other.
pub record Calls : Type 0 where
  pub process_block : Block → Handler
  pub process_certificate : Qc → Handler

-- How a protocol spreads its own messages (true for a vote) and echoes a vote, which certificates
-- it drops as stale, and which of the committed blocks it flags.
pub record Variant : Type 0 where
  pub spread : Bool → Message → Handler
  pub echo : Message → Handler
  pub is_stale : Qc → Notarized → Bool
  pub chosen : List Block → Option Block
