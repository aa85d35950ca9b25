-- ===== src/Transport/Order.antt =====
-- A connection keeps the order of one sender, and loses and repeats nothing.
use bamboo.Prelude.{
  ℕ, false, none, some, List, [], ◌∷◌, ◌++◌, ◌==◌, update, get_elem?, ◌≡◌, refl, sym, arith, All,
  ==_refl, subst,
}
use bamboo.Transport.Flow.{from}
use bamboo.Transport.{Net, send, new_net, dial, dial_to, listen, recv, close, forward, pull}
use bamboo.Transport.Kept.{
  IsInOrder, send-IsInOrder, close-IsInOrder, recv_from-IsInOrder, out_of-IsInOrder, into-IsInOrder,
  dial_to-IsInOrder, listen-IsInOrder,
}

-- Steps of a network: calls of its transports, and moves of its goroutines.
pub data Event (Msg : Type 0) : Type 0 where
  sending : ℕ → Msg → Event Msg
  receiving closing dialing listening forwarding pulling : ℕ → Event Msg

module _ {Msg : Type 0} where
  -- What a pair of transports excludes: that the one dials again or the other listens again.
  abbrev pub Allowed : ℕ → ℕ → Event Msg → Type 0
  Allowed t l (dialing k) = (k == t) ≡ false
  Allowed t l (listening k) = (k == l) ≡ false
  Allowed t l e = Unit {0}

  pub step : Event Msg → Net Msg → Net Msg
  step (sending k m) n = (send k m n).1
  step (receiving k) n = recv k n
  step (closing k) n = (close k n).1
  step (dialing k) n = (dial k n).1
  step (listening k) n = listen k n
  step (forwarding i) n = forward i n
  step (pulling j) n = pull j n

  unfoldable pub run : List (Event Msg) → Net Msg → Net Msg
  unfolding step
  run [] n = n
  run (e ∷ es) n = run es (step e n)

  module _ (t c l : ℕ) where
    step-IsInOrder :
        (e : Event Msg) (n : Net Msg)
        → Allowed t l e
        → IsInOrder t c l n
        → IsInOrder t c l (step e n)
    unfolding step recv forward pull dial
    step-IsInOrder (sending k m) n a h = send-IsInOrder t c l k m n h
    step-IsInOrder (receiving k) n a h = recv_from-IsInOrder t c l k (n.recvs k) n refl h
    step-IsInOrder (closing k) n a h = close-IsInOrder t c l k n h
    step-IsInOrder (dialing k) n a h = dial_to-IsInOrder t c l (n.chans (n.host k)) k n a h
    step-IsInOrder (listening k) n a h = listen-IsInOrder t c l k n a h
    step-IsInOrder (forwarding i) n a h = out_of-IsInOrder t c l i (get_elem? n.dialers i) n refl h
    step-IsInOrder (pulling j) n a h = into-IsInOrder t c l j (get_elem? n.listeners j) n refl h

    run-IsInOrder :
        (es : List (Event Msg)) (n : Net Msg)
        → All (Allowed t l) es
        → IsInOrder t c l n
        → IsInOrder t c l (run es n)
    unfolding run
    run-IsInOrder [] n a h = h
    run-IsInOrder (e ∷ es) n a h = run-IsInOrder es (step e n) a.1 (step-IsInOrder e n a.0 h)

  -- The transport l listens, and t dials.
  unfoldable pub connected : (ℕ → ℕ) → ℕ → ℕ → Net Msg
  connected host t l = (dial t (listen l (new_net host))).1

  connected-IsInOrder :
      (host : ℕ → ℕ) (t l : ℕ) → host t ≡ host l → IsInOrder {Msg = Msg} t 0 l (connected host t l)
  unfolding connected dial dial_to listen new_net
  connected-IsInOrder host t l same =
      let found : update (λ _. none) (host l) (some 0) (host t) ≡ some 0 = ground (arith, same) in
      subst (λ o. IsInOrder {Msg = Msg} t 0 l (dial_to o t (listen l (new_net host))).1) (sym found)
        (record {
          order = refl;
          dialers = ((λ own. refl), tt);
          listeners = (sym (==_refl l), tt);
          made = omega arith;
        })

  -- A transport l listens, and t dials its host, once each. Other transports dial and listen where
  -- they like, and all of them send, receive and close, while the goroutines move messages in any
  -- order. Then those that l received from t, those that wait at l, in the channel and at t are
  -- together, in this order, what t was given to send: nothing is lost, repeated or overtaken.
  pub run-in_sequence :
      (host : ℕ → ℕ) (t l : ℕ) (es : List (Event Msg))
      → host t ≡ host l
      → All (Allowed t l) es
      → from t (
            (run es (connected host t l)).received l
            ++ ((run es (connected host t l)).recvs l ++ (run es (connected host t l)).conns 0))
          ++ (run es (connected host t l)).sends t
        ≡ (run es (connected host t l)).given t
  run-in_sequence host t l es same a =
      (run-IsInOrder t 0 l es (connected host t l) a (connected-IsInOrder host t l same)).order
