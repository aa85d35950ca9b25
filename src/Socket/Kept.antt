-- ===== src/Socket/Kept.antt =====
-- What every way of sending keeps.
use bamboo.Prelude.{
  ℕ, Bool, true, false, ◌&&◌, List, [], ◌∷◌, ◌++◌, ltb, ◌==◌, if◌then◌else◌, mem, update,
}
use bamboo.Types.{NodeId}
use bamboo.Outcome.{Outcome}
use bamboo.Exec.Keeps.{Keeps, Keeps-bind, Keeps-skip}
use bamboo.Socket.{
  late, Socket, later, pass, transmit, connect, send, send_unless, broadcast_to, broadcast,
  multicast_from, multicast_quorum,
}
use bamboo.Socket.Retry.{retry}

-- A property of sockets that a send keeps, since it holds again after each of its writes.
pub record Stable (Msg : Type 0) (P : Socket Msg → Type 0) : Type 0 where
  pub waits : (to : NodeId) (m : Msg) (s : Socket Msg) → P s → P (later (late to m) s)
  pub passes :
      (to : NodeId) (m : Msg) (s : Socket Msg) → P s → P (record s { out = s.out ++ (to, m) ∷ [] })
  pub dials : (to : NodeId) (s : Socket Msg) → P s → P (record s { nodes = update s.nodes to true })

module _ {Msg : Type 0} {P : Socket Msg → Type 0} (stable : Stable Msg P) (dial : NodeId → ℕ → Bool)
    (m : Msg) where
  either :
      (test : Bool) (x y : Outcome (Unit {0}) × Socket Msg)
      → P x.1
      → P y.1
      → P (if test then x else y).1
  either true x y hx hy = hx
  either false x y hx hy = hy

  pub pass-keeps : (to : NodeId) (s : Socket Msg) → P s → P (pass to m s).1
  unfolding pass
  pass-keeps to s h = either (s.closed to) _ _ h (stable.passes to m s h)

  transmit-keeps : (to : NodeId) (s : Socket Msg) → P s → P (transmit to m s).1
  unfolding transmit
  transmit-keeps to s h =
      either (ltb 0 (s.slows to)) _ _ (stable.waits to m s h) (pass-keeps to s h)

  connect-keeps : (to : NodeId) (s : Socket Msg) → P s → P (connect dial to m s).1
  unfolding connect
  connect-keeps to s h = either (s.nodes to) _ _ (transmit-keeps to s h) (
      either (mem to s.addresses) _ _
        (either ((retry (dial to) 100 50).0) _ _ (transmit-keeps to _ (stable.dials to s h)) h) h)

  pub send-keeps : (draw : ℕ) (to : NodeId) (s : Socket Msg) → P s → P (send dial draw to m s).1
  unfolding send
  send-keeps draw to s h = either s.crashed _ _ h (
      either (s.drops to) _ _ h
        (either (ltb 0 (s.flaky to) && ltb draw (s.flaky to)) _ _ h (connect-keeps to s h)))

  send_unless-keeps :
      (skips : Bool) (draw : ℕ) (to : NodeId) (s : Socket Msg)
      → P s
      → P (send_unless skips dial draw to m s).1
  unfolding send_unless
  send_unless-keeps skips draw to s h = either skips _ _ h (send-keeps draw to s h)

  broadcast_to-Keeps :
      (draw : NodeId → ℕ) (ids : List NodeId) → Keeps P (broadcast_to dial draw m ids)
  unfolding broadcast_to
  broadcast_to-Keeps draw [] = Keeps-skip
  broadcast_to-Keeps draw (to ∷ more) =
      Keeps-bind (λ s. send_unless (to == s.id) dial (draw to) to m s) _
        (record { at = λ s h. send_unless-keeps (to == s.id) (draw to) to s h })
        (λ _. broadcast_to-Keeps draw more)

  pub broadcast-keeps : (draw : NodeId → ℕ) (s : Socket Msg) → P s → P (broadcast dial draw m s).1
  unfolding broadcast
  broadcast-keeps draw s h = (broadcast_to-Keeps draw s.addresses).at s h

  multicast_from-Keeps :
      (draw : NodeId → ℕ) (picks sent : List NodeId)
      → Keeps P (multicast_from dial draw m picks sent)
  unfolding multicast_from
  multicast_from-Keeps draw [] sent = Keeps-skip
  multicast_from-Keeps draw (pick ∷ picks) sent =
      Keeps-bind (send_unless (mem pick sent) dial (draw pick) pick m) _
        (record { at = λ s h. send_unless-keeps (mem pick sent) (draw pick) pick s h })
        (λ _. multicast_from-Keeps draw picks (if mem pick sent then sent else pick ∷ sent))

  pub multicast_quorum-keeps :
      (draw : NodeId → ℕ) (picks : List NodeId) (s : Socket Msg)
      → P s
      → P (multicast_quorum dial draw picks m s).1
  unfolding multicast_quorum
  multicast_quorum-keeps draw picks s h = (multicast_from-Keeps draw picks []).at s h
