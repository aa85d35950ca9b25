-- ===== src/Node.antt =====
-- node/node.go: a node receives messages, sorts them into two channels and calls the function that
-- is registered for their type. Channels hold what waits in them, oldest first; the call of a
-- registered function is an entry of a list. A type is a number, which stands for its name; the text
-- of a command is a number, given by the parameter `show`.
pub mod Tally
pub mod Fifo
pub mod Http
pub mod Tests
use bamboo.Prelude.{
  ℕ, suc, Bool, true, false, ◌&&◌, Option, none, some, List, [], ◌∷◌, ◌++◌, ltb, ◌==◌,
  if◌then◌else◌, update,
}
use bamboo.Types.{NodeId}
use bamboo.Outcome.{Outcome, ok, err, fault, panicked, nil_pointer, exit}
use bamboo.Db.{Command}

abbrev pub TypeName : Type 0
TypeName = ℕ

-- A transaction, by its command and the node that forwarded it; and what the network brings: a
-- transaction, the reply to one, or a message of another type.
pub record Request : Type 0 where
  pub command : Command
  pub node_id : NodeId

pub data Message : Type 0 where
  transaction : Request → Message
  reply : Command → Message
  other : TypeName → ℕ → Message

-- The type of `message.Transaction`.
abbrev pub transaction_type : TypeName
transaction_type = 0

abbrev pub type_of : Message → TypeName
type_of (transaction t) = transaction_type
type_of (reply c) = 1
type_of (other name body) = suc (suc name)

-- What `Register` is given: a function with the types of its arguments, or another value.
pub data Value : Type 0 where
  func : List TypeName → Value
  no_func : Value

-- `handles` are the types with a registered function; `handled` are the calls of these functions,
-- `answered` the calls of `Reply` on a forwarded transaction, and `sent` what the socket was given.
pub record Node : Type 0 where
  pub id : NodeId
  pub is_byz : Bool
  pub message_chan : List Message
  pub tx_chan : List Message
  pub handles : TypeName → Bool
  pub handle_count : ℕ
  pub forwards : ℕ → Option Request
  pub handled : List Message
  pub answered : List (Request × Command)
  pub sent : List (NodeId × Request)

pub new_node : NodeId → Bool → Node
new_node id is_byz = record {
  id = id;
  is_byz = is_byz;
  message_chan = [];
  tx_chan = [];
  handles = λ _. false;
  handle_count = 0;
  forwards = λ _. none;
  handled = [];
  answered = [];
  sent = [];
}

abbrev Step : Type 0
Step = Node → Outcome (Unit {0}) × Node

pub retry : Request → Step
retry r n = (ok tt, record n { message_chan = n.message_chan ++ transaction r ∷ [] })

with_handle : TypeName → Node → Node
with_handle name n = record n {
  handles = update n.handles name true;
  handle_count = if n.handles name then n.handle_count else suc n.handle_count;
}

-- `fn.Type().In(0)` panics for a function without arguments.
pub register : TypeName → Value → Step
unfolding with_handle
register name no_func n = (fault panicked, n)
register name (func []) n = (fault panicked, n)
register name (func (first ∷ [])) n =
    if first == name then (ok tt, with_handle name n) else (fault panicked, n)
register name (func (first ∷ second ∷ more)) n = (fault panicked, n)

-- `Run` starts the three goroutines where a function is registered.
pub starts : Node → Bool
starts n = ltb 0 n.handle_count

call : Message → Step
call m n =
    if n.handles (type_of m)
    then (ok tt, record n { handled = n.handled ++ m ∷ [] })
    else (fault exit, n)

-- One round of `txn`, by what waits in the channel; it waits where nothing does.
pub take_txn : List Message → Step
unfolding call
take_txn [] n = (ok tt, n)
take_txn (m ∷ ms) n = call m (record n { tx_chan = ms })

pub txn : Step
unfolding take_txn
txn n = take_txn n.tx_chan n

-- One round of `handle`.
pub take_message : List Message → Step
unfolding call
take_message [] n = (ok tt, n)
take_message (m ∷ ms) n = call m (record n { message_chan = ms })

pub handle : Step
unfolding take_message
handle n = take_message n.message_chan n

-- A reply without a forwarded transaction reads through a nil pointer.
answer : Option Request → Command → Step
answer none c n = (fault nil_pointer, n)
answer (some r) c n = (ok tt, record n { answered = n.answered ++ (r, c) ∷ [] })

pub sort_message : (Command → ℕ) → Message → Step
unfolding answer
sort_message show (transaction r) n =
    (ok tt, record n { tx_chan = n.tx_chan ++ transaction r ∷ [] })
sort_message show (reply c) n = answer (n.forwards (show c)) c n
sort_message show (other name body) n =
    (ok tt, record n { message_chan = n.message_chan ++ other name body ∷ [] })

-- One round of `recv`, for a message of the socket; `silent` is the strategy "silence".
pub recv : (Command → ℕ) → Bool → Message → Step
unfolding sort_message
recv show silent m n = if n.is_byz && silent then (ok tt, n) else sort_message show m n

pub forward : (Command → ℕ) → NodeId → Request → Step
forward show to r n =
    let own = record r { node_id = n.id } in
    (
      ok tt,
      record n {
        forwards = update n.forwards (show r.command) (some own);
        sent = n.sent ++ (to, own) ∷ [];
      },
    )
