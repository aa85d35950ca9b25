-- ===== src/Node/Http.antt =====
-- node/http.go: the handlers of a client's requests that change the node or its socket. The draws of
-- rand.Intn and the configuration are parameters; `handleQuery` only waits for text.
use bamboo.Prelude.{ℕ, ◌^◌, some, List, [], ◌∷◌, ◌++◌}
use bamboo.Types.{NodeId}
use bamboo.Db.{Command}
use bamboo.Node.{Node, transaction}
use bamboo.Socket.{Socket, crash, slow_node, flaky_node}

-- The body is the value of the command; it is a slice, so never nil.
pub handle_root : List ℕ → Node → Node
handle_root body n =
    let command : Command = record { key = 0; value = some body; client_id = 0; command_id = 0 } in
    record n {
      tx_chan = n.tx_chan ++ transaction (record { command = command; node_id = n.id }) ∷ [];
    }

module _ {Msg : Type 0} where
  pub handle_crash : ℕ → Socket Msg → Socket Msg
  handle_crash seconds s = crash seconds s

  -- A delay for each node with an address for clients.
  pub handle_slow : (NodeId → ℕ) → List NodeId → Socket Msg → Socket Msg
  handle_slow delay [] s = s
  handle_slow delay (id ∷ ids) s = handle_slow delay ids (slow_node id (delay id) s)

  -- A chance of one half.
  pub handle_flaky : List NodeId → Socket Msg → Socket Msg
  handle_flaky [] s = s
  handle_flaky (id ∷ ids) s = handle_flaky ids (flaky_node id (2 ^ 52) s)
