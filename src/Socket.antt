-- ===== src/Socket.antt =====
-- socket/socket.go: sending and receiving under injected faults. A node's transport (transport/) is
-- what it was given to send, and the answers of its dialling are a parameter. A goroutine that waits
-- for a timer is an entry of a list that may run at any later step. A chance is a number of 2^53rds,
-- the unit of rand.Float64, rounded up.
pub mod Retry
pub mod Kept
pub mod Faults
pub mod Restored
pub mod Delivery
pub mod Targets
pub mod Once
pub mod Tests
use bamboo.Prelude.{
  ℕ, zero, suc, ◌+◌, Bool, true, false, ◌&&◌, List, [], ◌∷◌, ◌++◌, ltb, ◌==◌, if◌then◌else◌, mem,
  update,
}
use bamboo.Outcome.{Outcome, ok, err, fault, panicked}
use bamboo.Exec.{Exec, ◌>>=◌, ◌>>◌, skip, modify, stop, gets}
use bamboo.Types.{NodeId}
use bamboo.Socket.Retry.{retry}

module _ (Msg : Type 0) where
  -- The goroutines of a late message and of the four restored settings.
  pub data Pending : Type 0 where
    late : NodeId → Msg → Pending
    end_drop end_slow end_flaky : NodeId → Pending
    end_crash : Pending

  -- `addresses` are the nodes of the configuration, in the order in which Go ranges over them; `nodes`
  -- are those with a transport, `closed` those whose transport is closed. `out` is what the
  -- transports were given, `received` what `Recv` returned, both oldest first.
  pub record Socket : Type 0 where
    pub id : NodeId
    pub addresses : List NodeId
    pub nodes : NodeId → Bool
    pub crashed : Bool
    pub drops : NodeId → Bool
    pub slows : NodeId → ℕ
    pub flaky : NodeId → ℕ
    pub closed : NodeId → Bool
    pub pending : List Pending
    pub out : List (NodeId × Msg)
    pub received : List Msg

module _ {Msg : Type 0} where
  pub new_socket : NodeId → List NodeId → Socket Msg
  new_socket id addresses = record {
    id = id;
    addresses = addresses;
    nodes = λ k. id == k;
    crashed = false;
    drops = λ _. false;
    slows = λ _. 0;
    flaky = λ _. 0;
    closed = λ _. false;
    pending = [];
    out = [];
    received = [];
  }

  -- A transport's `Send`, which panics on a closed channel.
  pub pass : NodeId → Msg → Socket Msg → Outcome (Unit {0}) × Socket Msg
  pass to m s =
      if s.closed to then (fault panicked, s) else (ok tt, record s { out = s.out ++ (to, m) ∷ [] })

  abbrev pub later : Pending Msg → Socket Msg → Socket Msg
  later p s = record s { pending = s.pending ++ p ∷ [] }

  -- The end of `Send`, with a transport.
  transmit : NodeId → Msg → Socket Msg → Outcome (Unit {0}) × Socket Msg
  unfolding pass
  transmit to m s = if ltb 0 (s.slows to) then (ok tt, later (late to m) s) else pass to m s

  -- A first message to a node dials it, with 100 attempts and 50 ms.
  connect : (NodeId → ℕ → Bool) → NodeId → Msg → Socket Msg → Outcome (Unit {0}) × Socket Msg
  unfolding transmit
  connect dial to m s =
      if s.nodes to
      then transmit to m s
      else (if mem to s.addresses
          then (if (retry (dial to) 100 50).0
              then transmit to m (record s { nodes = update s.nodes to true })
              else (fault panicked, s))
          else (ok tt, s))

  -- `draw` is the number that rand.Float64 gives.
  pub send : (NodeId → ℕ → Bool) → ℕ → NodeId → Msg → Socket Msg → Outcome (Unit {0}) × Socket Msg
  unfolding connect
  send dial draw to m s =
      if s.crashed
      then (ok tt, s)
      else (if s.drops to
          then (ok tt, s)
          else (if ltb 0 (s.flaky to) && ltb draw (s.flaky to)
              then (ok tt, s)
              else connect dial to m s))

  send_unless :
      Bool → (NodeId → ℕ → Bool) → ℕ → NodeId → Msg → Socket Msg → Outcome (Unit {0}) × Socket Msg
  send_unless skips dial draw to m s = if skips then (ok tt, s) else send dial draw to m s

  -- The loop of `Broadcast`, with a draw for each node.
  broadcast_to :
      (NodeId → ℕ → Bool) → (NodeId → ℕ) → Msg → List NodeId → Exec (Socket Msg) (Unit {0})
  broadcast_to dial draw m [] = skip
  broadcast_to dial draw m (to ∷ more) =
      (λ s. send_unless (to == s.id) dial (draw to) to m s) >> broadcast_to dial draw m more

  pub broadcast : (NodeId → ℕ → Bool) → (NodeId → ℕ) → Msg → Exec (Socket Msg) (Unit {0})
  unfolding broadcast_to send_unless
  broadcast dial draw m s = broadcast_to dial draw m s.addresses s

  -- The loop of `MulticastQuorum`: the nodes that rand.Intn picks, one in each round, and those that
  -- were sent to.
  multicast_from :
      (NodeId → ℕ → Bool)
      → (NodeId → ℕ)
      → Msg
      → List NodeId
      → List NodeId
      → Exec (Socket Msg) (Unit {0})
  multicast_from dial draw m [] sent = skip
  multicast_from dial draw m (pick ∷ picks) sent =
      send_unless (mem pick sent) dial (draw pick) pick m
      >> multicast_from dial draw m picks (if mem pick sent then sent else pick ∷ sent)

  pub multicast_quorum :
      (NodeId → ℕ → Bool) → (NodeId → ℕ) → List NodeId → Msg → Exec (Socket Msg) (Unit {0})
  unfolding multicast_from send_unless
  multicast_quorum dial draw picks m = multicast_from dial draw m picks []

  -- A message that the own transport received: one round of the loop of `Recv`.
  pub recv : Msg → Socket Msg → Socket Msg
  recv m s = if s.crashed then s else record s { received = s.received ++ m ∷ [] }

  -- Closing a transport twice panics, and the own one is always there.
  pub close : Socket Msg → Outcome (Unit {0}) × Socket Msg
  close s = if s.closed s.id then (fault panicked, s) else (ok tt, record s { closed = s.nodes })

  pub drop_node : NodeId → Socket Msg → Socket Msg
  drop_node id s = later (end_drop id) (record s { drops = update s.drops id true })

  pub slow_node : NodeId → ℕ → Socket Msg → Socket Msg
  slow_node id delay s = later (end_slow id) (record s { slows = update s.slows id delay })

  pub flaky_node : NodeId → ℕ → Socket Msg → Socket Msg
  flaky_node id p s = later (end_flaky id) (record s { flaky = update s.flaky id p })

  -- For `t` seconds; with 0 the crash stays.
  pub crash : ℕ → Socket Msg → Socket Msg
  crash t s =
      let crashed = record s { crashed = true } in
      if ltb 0 t then later end_crash crashed else crashed

  -- What a goroutine does when its timer fires.
  pub wake : Pending Msg → Socket Msg → Outcome (Unit {0}) × Socket Msg
  unfolding pass
  wake (late to m) s = pass to m s
  wake (end_drop id) s = (ok tt, record s { drops = update s.drops id false })
  wake (end_slow id) s = (ok tt, record s { slows = update s.slows id 0 })
  wake (end_flaky id) s = (ok tt, record s { flaky = update s.flaky id 0 })
  wake end_crash s = (ok tt, record s { crashed = false })

  pub waiting : ℕ → List (Pending Msg) → List (Pending Msg)
  waiting i [] = []
  waiting zero (p ∷ ps) = p ∷ []
  waiting (suc i) (p ∷ ps) = waiting i ps

  pub others : ℕ → List (Pending Msg) → List (Pending Msg)
  others i [] = []
  others zero (p ∷ ps) = ps
  others (suc i) (p ∷ ps) = p ∷ others i ps

  wake_all : List (Pending Msg) → Socket Msg → Outcome (Unit {0}) × Socket Msg
  wake_all [] s = (ok tt, s)
  wake_all (p ∷ ps) s = wake p s

  -- The timer of the i-th goroutine fires.
  pub fire : ℕ → Socket Msg → Outcome (Unit {0}) × Socket Msg
  unfolding wake waiting others wake_all
  fire i s = wake_all (waiting i s.pending) (record s { pending = others i s.pending })
