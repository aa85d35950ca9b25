-- ===== src/Node/Tests.antt =====
-- Runs of a node, and the theorem on its order at concrete messages.
use bamboo.Prelude.{ℕ, true, false, ◌&&◌, none, List, [], ◌∷◌, ◌++◌, ◌≡◌, refl, All}
use bamboo.Outcome.{ok, fault, panicked, nil_pointer}
use bamboo.Db.{Command}
use bamboo.Node.{
  Request, transaction, reply, other, func, Node, new_node, register, starts, forward, recv, handle,
  retry,
}
use bamboo.Node.Tally.{keep, is_transaction, is_other, Expected}
use bamboo.Node.Fifo.{Event, arrives, runs_txn, runs_handle, arrived, run, IsIdle, run-in_order}

abbrev command : Command
command = record { key = 1; value = none; client_id = 4; command_id = 1 }

abbrev show : Command → ℕ
show c = c.command_id

abbrev request : Request
request = record { command = command; node_id = 4 }

-- A node with functions for transactions and for a type 5, which forwarded a transaction.
abbrev busy : Node
busy =
    (forward show 2 request
      (register 5 (func (5 ∷ [])) (register 0 (func (0 ∷ [])) (new_node 1 false)).1).1).1

starts-busy : starts busy ≡ true
unfolding starts register forward new_node
starts-busy = refl

wrong_argument : (register 5 (func (6 ∷ [])) busy).0 ≡ fault panicked
unfolding register
wrong_argument = refl

-- A retried transaction goes to the other channel, whose functions include that of transactions.
retried : (handle (retry request busy).1).1.handled ≡ transaction request ∷ []
unfolding handle retry register forward new_node
retried = refl

unknown_reply :
    (recv show false (reply (record command { command_id = 9 })) busy).0 ≡ fault nil_pointer
unfolding recv register forward new_node
unknown_reply = refl

idle : IsIdle busy
unfolding register forward new_node
idle = record { message_chan = refl; tx_chan = refl; handled = refl }

abbrev events : List Event
events =
    arrives (transaction request)
    ∷ runs_handle
    ∷ arrives (other 3 8)
    ∷ runs_txn
    ∷ arrives (reply command)
    ∷ arrives (other 3 9)
    ∷ runs_handle
    ∷ []

expected : All (Expected show busy) (arrived events)
unfolding register forward new_node
expected = (refl, (refl, ((record request { node_id = 1 }, refl), (refl, tt))))

heard : (busy.is_byz && true) ≡ false
unfolding register forward new_node
heard = refl

run-in_order_example :
    ((run show true events busy).0 ≡ ok tt)
    × (keep is_transaction (run show true events busy).1.handled
          ++ (run show true events busy).1.tx_chan
        ≡ keep is_transaction (arrived events))
    × (keep is_other (run show true events busy).1.handled
          ++ (run show true events busy).1.message_chan
        ≡ keep is_other (arrived events))
run-in_order_example = run-in_order show true busy events heard idle expected
