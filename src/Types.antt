-- ===== src/Types.antt =====
-- The records that the packages exchange: types/types.go, identity/identity.go (NodeID),
-- crypto/id.go (Identifier), crypto/signature.go, message/message.go (Transaction),
-- blockchain/quorum.go (Vote, QC), blockchain/block.go (Block) and pacemaker/model.go.
--
-- A view is a non-negative `int`. An identifier, 32 bytes, is the number that its bytes spell. A
-- node id is the decimal numeral of `NewNodeID`, and stands as its number; 0 is the empty string.
use bamboo.Prelude.{ℕ, List, Option, Bool, ℤ}

abbrev pub View : Type 0
View = ℕ

abbrev pub Identifier : Type 0
Identifier = ℕ

abbrev pub NodeId : Type 0
NodeId = ℕ

-- A list of byte strings.
abbrev pub Signature : Type 0
Signature = List (List ℕ)

abbrev pub AggSig : Type 0
AggSig = List Signature

-- The id is the string's bytes. The database command, the properties and the reply channel of a
-- transaction are carried along and never read by the modelled code.
pub record Transaction : Type 0 where
  pub id : List ℕ
  pub node_id : NodeId
  pub timestamp : ℕ

pub record Qc : Type 0 where
  pub leader : NodeId
  pub view : View
  pub block_id : Identifier
  pub signers : List NodeId
  pub agg_sig : AggSig
  pub signature : Signature

pub record Vote : Type 0 where
  pub view : View
  pub voter : NodeId
  pub block_id : Identifier
  pub signature : Signature

-- `timestamp` and `ts` of the source time the experiments and are left out.
pub record Block : Type 0 where
  pub view : View
  pub qc : Option Qc
  pub proposer : NodeId
  pub payload : List Transaction
  pub prev_id : Identifier
  pub sig : Signature
  pub id : Identifier
  pub mali : Bool
  pub fork_num : ℤ
  pub height : ℕ
  pub commit_from_this : Bool

-- A timeout message and a view-change message.
pub record Tmo : Type 0 where
  pub view : View
  pub node_id : NodeId
  pub high_qc : Option Qc

pub record Vmo : Type 0 where
  pub view : View
  pub node_id : NodeId
  pub high_qc : Option Qc

-- The certificates that a majority of them yields; the source leaves their signatures empty.
pub record Tc : Type 0 where
  pub view : View

pub record Vc : Type 0 where
  pub view : View
