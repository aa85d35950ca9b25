-- ===== src/Transport/Tests.antt =====
-- Runs of transports, and the theorem on their order at concrete steps.
use bamboo.Prelude.{ℕ, some, List, [], ◌∷◌, ◌++◌, ◌≡◌, refl, All}
use bamboo.Outcome.{ok, err, fault, panicked, exit, no_server}
use bamboo.Transport.{
  with_scheme, made, unknown, chan, new_net, send, dial, close, listen, recv, forward, pull,
}
use bamboo.Transport.Flow.{from}
use bamboo.Transport.Order.{
  Event, sending, receiving, closing, dialing, forwarding, pulling, Allowed, run, connected,
  run-in_sequence,
}

-- An address that names a scheme is left as it is.
schemes :
    (with_scheme (b't' ∷ []) (b'a' ∷ []) ≡ b't' ∷ b':' ∷ b'/' ∷ b'/' ∷ b'a' ∷ [])
    × (with_scheme (b't' ∷ []) (b'c' ∷ b':' ∷ b'/' ∷ b'/' ∷ b'a' ∷ [])
        ≡ b'c' ∷ b':' ∷ b'/' ∷ b'/' ∷ b'a' ∷ [])
unfolding with_scheme
schemes = (refl, refl)

unknown_scheme : (made (some unknown) ≡ fault exit) × (made (some chan) ≡ ok chan)
unfolding made
unknown_scheme = (refl, refl)

not_ready : (dial 1 (new_net {Msg = ℕ} (λ k. 5))).0 ≡ err no_server
unfolding dial new_net
not_ready = refl

send_closed : (send {Msg = ℕ} 1 7 (close 1 (new_net (λ k. 5))).1).0 ≡ fault panicked
unfolding send close new_net
send_closed = refl

abbrev events : List (Event ℕ)
events =
    sending 1 7
    ∷ dialing 3
    ∷ sending 3 9
    ∷ forwarding 1
    ∷ sending 1 8
    ∷ forwarding 0
    ∷ pulling 0
    ∷ pulling 0
    ∷ receiving 2
    ∷ receiving 2
    ∷ closing 1
    ∷ []

-- Transport 2 has the message of 3, and then the first one of 1.
received_2 : (run events (connected (λ k. 5) 1 2)).received 2 ≡ (3, 9) ∷ (1, 7) ∷ []
unfolding run connected new_net send dial close listen recv forward pull
received_2 = refl

allowed : All (Allowed 1 2) events
allowed = (tt, (refl, (tt, (tt, (tt, (tt, (tt, (tt, (tt, (tt, (tt, tt)))))))))))

run-in_sequence_example :
    from 1 (
        (run events (connected (λ k. 5) 1 2)).received 2
        ++ ((run events (connected (λ k. 5) 1 2)).recvs 2
            ++ (run events (connected (λ k. 5) 1 2)).conns 0))
      ++ (run events (connected (λ k. 5) 1 2)).sends 1
    ≡ (run events (connected (λ k. 5) 1 2)).given 1
run-in_sequence_example = run-in_sequence (λ k. 5) 1 2 events refl allowed
