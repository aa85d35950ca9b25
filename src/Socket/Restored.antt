-- ===== src/Socket/Restored.antt =====
-- What is left when every goroutine that waited for a timer has run.
use bamboo.Prelude.{
  ℕ, ◌-◌, ◌<◌, Bool, true, false, List, [], ◌∷◌, ltb, if◌then◌else◌, length, ◌≡◌, refl, ap, ◌∙◌,
  arith, inl, inr, All,
}
use bamboo.Types.{NodeId}
use bamboo.Socket.{
  Pending, late, end_drop, end_slow, end_flaky, end_crash, Socket, new_socket, pass, send,
  broadcast, multicast_quorum, recv, drop_node, slow_node, flaky_node, crash, wake, others,
  wake_all, fire, connect, transmit,
}
use bamboo.Socket.Kept.{send-keeps, broadcast-keeps, multicast_quorum-keeps}
use bamboo.Socket.Faults.{
  ends_drop, ends_slow, ends_flaky, ends_crash, any, any-waiting, IsTimed, IsTimed-Stable,
  drop_node-IsTimed, slow_node-IsTimed, flaky_node-IsTimed, crash-IsTimed, wake-IsTimed,
  waiting-cases,
}

-- The calls of a socket, and its timers.
pub data Event (Msg : Type 0) : Type 0 where
  send_event : ℕ → NodeId → Msg → Event Msg
  broadcast_event : (NodeId → ℕ) → Msg → Event Msg
  multicast_event : (NodeId → ℕ) → List NodeId → Msg → Event Msg
  arrival : Msg → Event Msg
  dropping : NodeId → Event Msg
  slowing flaking : NodeId → ℕ → Event Msg
  crashing : ℕ → Event Msg
  firing : ℕ → Event Msg

-- Positions at which all of so many goroutines run.
abbrev pub Drains : List ℕ → ℕ → Type 0
Drains [] n = n ≡ 0
Drains (i ∷ is) n = (i < n) × Drains is (n - 1)

off : (b x : Bool) → (b ≡ true → x ≡ true) → x ≡ false → b ≡ false
off false x h e = refl
off true x h e = cc (h refl, e)

zero_of : (n : ℕ) → ltb 0 n ≡ false → n ≡ 0
zero_of n e = ground arith

module _ {Msg : Type 0} where
  pub step : (NodeId → ℕ → Bool) → Event Msg → Socket Msg → Socket Msg
  step dial (send_event draw to m) s = (send dial draw to m s).1
  step dial (broadcast_event draw m) s = (broadcast dial draw m s).1
  step dial (multicast_event draw picks m) s = (multicast_quorum dial draw picks m s).1
  step dial (arrival m) s = recv m s
  step dial (dropping id) s = drop_node id s
  step dial (slowing id delay) s = slow_node id delay s
  step dial (flaking id p) s = flaky_node id p s
  step dial (crashing t) s = crash t s
  step dial (firing i) s = (fire i s).1

  unfoldable pub run : (NodeId → ℕ → Bool) → List (Event Msg) → Socket Msg → Socket Msg
  unfolding step
  run dial [] s = s
  run dial (e ∷ es) s = run dial es (step dial e s)

  -- No crash is for ever.
  abbrev pub IsBrief : Event Msg → Type 0
  IsBrief (crashing t) = ltb 0 t ≡ true
  IsBrief e = Unit {0}

  fire-IsTimed : (i : ℕ) (s : Socket Msg) → IsTimed s → IsTimed (fire i s).1
  unfolding fire wake_all
  fire-IsTimed i s t = elim (waiting-cases i s.pending) [
    | inl (none', long, same) ↦ rw none' (rw same t)
    | inr (p, found, short, fewer) ↦ rw found (
        wake-IsTimed p (record s { pending = others i s.pending })
          (record {
            crashed = λ e. ground (arith, any-waiting ends_crash i s.pending, found, t.crashed e);
            drops =
                λ k e. ground (arith, any-waiting (ends_drop k) i s.pending, found, t.drops k e);
            slows =
                λ k e. ground (arith, any-waiting (ends_slow k) i s.pending, found, t.slows k e);
            flaky =
                λ k e. ground (arith, any-waiting (ends_flaky k) i s.pending, found, t.flaky k e);
          }))
  ]

  either :
      (test : Bool) (x y : Socket Msg) → IsTimed x → IsTimed y → IsTimed (if test then x else y)
  either true x y hx hy = hx
  either false x y hx hy = hy

  recv-IsTimed : (m : Msg) (s : Socket Msg) → IsTimed s → IsTimed (recv m s)
  unfolding recv
  recv-IsTimed m s t =
      either s.crashed _ _ t
        (record { crashed = t.crashed; drops = t.drops; slows = t.slows; flaky = t.flaky })

  step-IsTimed :
      (dial : NodeId → ℕ → Bool) (e : Event Msg) (s : Socket Msg)
      → IsBrief e
      → IsTimed s
      → IsTimed (step dial e s)
  unfolding step
  step-IsTimed dial (send_event draw to m) s b t = send-keeps IsTimed-Stable dial m draw to s t
  step-IsTimed dial (broadcast_event draw m) s b t = broadcast-keeps IsTimed-Stable dial m draw s t
  step-IsTimed dial (multicast_event draw picks m) s b t =
      multicast_quorum-keeps IsTimed-Stable dial m draw picks s t
  step-IsTimed dial (arrival m) s b t = recv-IsTimed m s t
  step-IsTimed dial (dropping id) s b t = drop_node-IsTimed id s t
  step-IsTimed dial (slowing id delay) s b t = slow_node-IsTimed id delay s t
  step-IsTimed dial (flaking id p) s b t = flaky_node-IsTimed id p s t
  step-IsTimed dial (crashing n) s b t = crash-IsTimed n s b t
  step-IsTimed dial (firing i) s b t = fire-IsTimed i s t

  run-IsTimed :
      (dial : NodeId → ℕ → Bool) (es : List (Event Msg)) (s : Socket Msg)
      → All IsBrief es
      → IsTimed s
      → IsTimed (run dial es s)
  unfolding run
  run-IsTimed dial [] s b t = t
  run-IsTimed dial (e ∷ es) s b t =
      run-IsTimed dial es (step dial e s) b.1 (step-IsTimed dial e s b.0 t)

  new_socket-IsTimed :
      (id : NodeId) (addresses : List NodeId) → IsTimed (new_socket {Msg = Msg} id addresses)
  unfolding new_socket
  new_socket-IsTimed id addresses = record {
    crashed = λ e. cc;
    drops = λ k e. cc;
    slows = λ k e. cc;
    flaky = λ k e. cc;
  }

  -- The goroutines run one by one, in the order of a list of positions among those that still wait.
  unfoldable pub fire_all : List ℕ → Socket Msg → Socket Msg
  fire_all [] s = s
  fire_all (i ∷ is) s = fire_all is (fire i s).1

  pub record IsClean (s : Socket Msg) : Type 0 where
    pub crashed : s.crashed ≡ false
    pub drops : (k : NodeId) → s.drops k ≡ false
    pub slows : (k : NodeId) → s.slows k ≡ 0
    pub flaky : (k : NodeId) → s.flaky k ≡ 0

  pending-wake : (p : Pending Msg) (s : Socket Msg) → (wake p s).1.pending ≡ s.pending
  unfolding wake pass
  pending-wake (late to m) s = ground arith
  pending-wake (end_drop id) s = refl
  pending-wake (end_slow id) s = refl
  pending-wake (end_flaky id) s = refl
  pending-wake end_crash s = refl

  pub length-fire :
      (i : ℕ) (s : Socket Msg)
      → i < length s.pending
      → length (fire i s).1.pending ≡ length s.pending - 1
  unfolding fire wake_all
  length-fire i s lt = elim (waiting-cases i s.pending) [
    | inl (none', long, same) ↦ absurd (omega (arith, long, lt))
    | inr (p, found, short, fewer) ↦ rw found (
        ap (λ l. length l) (pending-wake p (record s { pending = others i s.pending }))
        ∙ omega (arith, fewer))
  ]

  drained :
      (is : List ℕ) (s : Socket Msg)
      → IsTimed s
      → Drains is (length s.pending)
      → IsTimed (fire_all is s) × (length (fire_all is s).pending ≡ 0)
  unfolding fire_all
  drained [] s t d = (t, d)
  drained (i ∷ is) s t d =
      drained is (fire i s).1 (fire-IsTimed i s t) (rw (length-fire i s d.0) d.1)

  any-empty :
      (test : Pending Msg → Bool) (ps : List (Pending Msg)) → length ps ≡ 0 → any test ps ≡ false
  any-empty test [] e = refl
  any-empty test (p ∷ ps) e = absurd (omega (arith, e))

  drained-IsClean : (s : Socket Msg) → IsTimed s → length s.pending ≡ 0 → IsClean s
  drained-IsClean s t none' = record {
    crashed = off _ _ t.crashed (any-empty ends_crash s.pending none');
    drops = λ k. off _ _ (t.drops k) (any-empty (ends_drop k) s.pending none');
    slows = λ k. zero_of _ (off _ _ (t.slows k) (any-empty (ends_slow k) s.pending none'));
    flaky = λ k. zero_of _ (off _ _ (t.flaky k) (any-empty (ends_flaky k) s.pending none'));
  }

  pub send-clean :
      (dial : NodeId → ℕ → Bool) (draw : ℕ) (to : NodeId) (m : Msg) (s : Socket Msg)
      → IsClean s
      → s.nodes to ≡ true
      → send dial draw to m s ≡ pass to m s
  unfolding send connect transmit
  send-clean dial draw to m s c known = simp (c.crashed, c.drops to, c.slows to, c.flaky to, known)

  -- Whatever was sent and received, and whatever faults were injected and in part taken back, as long
  -- as every crash has an end: when all goroutines that wait have run, in any order, no fault is left,
  -- and a message to a node with a transport reaches it at once.
  pub fire_all-IsClean :
      (dial : NodeId → ℕ → Bool) (id : NodeId) (addresses : List NodeId) (es : List (Event Msg))
      (is : List ℕ)
      → All IsBrief es
      → Drains is (length (run dial es (new_socket id addresses)).pending)
      → IsClean (fire_all is (run dial es (new_socket id addresses)))
        × ((draw : ℕ) (to : NodeId) (m : Msg)
            → (fire_all is (run dial es (new_socket id addresses))).nodes to ≡ true
            → send dial draw to m (fire_all is (run dial es (new_socket id addresses)))
              ≡ pass to m (fire_all is (run dial es (new_socket id addresses))))
  fire_all-IsClean dial id addresses es is brief d =
      let s = run dial es (new_socket id addresses) in
      let (t, empty) =
        drained is s (run-IsTimed dial es _ brief (new_socket-IsTimed id addresses)) d in
      let c = drained-IsClean (fire_all is s) t empty in
      (c, λ draw to m known. send-clean dial draw to m (fire_all is s) c known)
