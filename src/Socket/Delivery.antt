-- ===== src/Socket/Delivery.antt =====
-- Who gets a message, and that late messages are not lost.
use mathlib.Core.List.{append_assoc, append-nil}
use bamboo.Prelude.{
  ℕ, Bool, true, false, List, [], ◌∷◌, ◌++◌, mem, update, ◌≡◌, refl, ap, sym, ◌∙◌, inl, inr,
  Bool-cases, subst,
}
use bamboo.Types.{NodeId}
use bamboo.Outcome.{Outcome, ok}
use bamboo.Exec.{Exec, ◌>>=◌, ◌>>◌}
use bamboo.Socket.{Socket, pass, send, connect, transmit}
use bamboo.Socket.Retry.{retry}
use bamboo.Socket.Restored.{IsClean, send-clean}

module _ {Msg : Type 0} where
  -- A socket without faults whose transports are open.
  pub record IsReady (s : Socket Msg) : Type 0 where
    pub clean : IsClean s
    pub opened : (k : NodeId) → s.closed k ≡ false

  -- A call that succeeds: what it sent, and a socket that is ready and has the same addresses.
  pub record Delivers (s : Socket Msg) (r : Outcome (Unit {0}) × Socket Msg)
      (sent : List (NodeId × Msg)) : Type 0 where
    pub done : r.0 ≡ ok tt
    pub out : r.1.out ≡ s.out ++ sent
    pub ready : IsReady r.1
    pub addresses : r.1.addresses ≡ s.addresses
    pub id : r.1.id ≡ s.id

  kept-IsReady :
      (s s' : Socket Msg)
      → IsReady s
      → s'.crashed ≡ s.crashed
      → s'.drops ≡ s.drops
      → s'.slows ≡ s.slows
      → s'.flaky ≡ s.flaky
      → s'.closed ≡ s.closed
      → IsReady s'
  kept-IsReady s s' r a b c d e = record {
    clean = record {
      crashed = a ∙ r.clean.crashed;
      drops = λ k. ap (λ f. f k) b ∙ r.clean.drops k;
      slows = λ k. ap (λ f. f k) c ∙ r.clean.slows k;
      flaky = λ k. ap (λ f. f k) d ∙ r.clean.flaky k;
    };
    opened = λ k. ap (λ f. f k) e ∙ r.opened k;
  }

  pass-opened :
      (to : NodeId) (m : Msg) (s : Socket Msg)
      → s.closed to ≡ false
      → pass to m s ≡ (ok tt, record s { out = s.out ++ (to, m) ∷ [] })
  unfolding pass
  pass-opened to m s e = simp (e)

  dialled : NodeId → Socket Msg → Socket Msg
  dialled to s = record s { nodes = update s.nodes to true }

  module _ (dial : NodeId → ℕ → Bool) (m : Msg) where
    send-dialled :
        (draw : ℕ) (to : NodeId) (s : Socket Msg)
        → IsClean s
        → s.nodes to ≡ false
        → mem to s.addresses ≡ true
        → (retry (dial to) 100 50).0 ≡ true
        → send dial draw to m s ≡ pass to m (dialled to s)
    unfolding send connect transmit dialled
    send-dialled draw to s c new known answers =
        simp (c.crashed, c.drops to, c.slows to, c.flaky to, new, known, answers)

    pass-Delivers :
        (to : NodeId) (s s' : Socket Msg)
        → IsReady s'
        → s'.out ≡ s.out
        → s'.addresses ≡ s.addresses
        → s'.id ≡ s.id
        → Delivers s (pass to m s') ((to, m) ∷ [])
    pass-Delivers to s s' r a b c =
        subst (λ e. Delivers s e ((to, m) ∷ [])) (sym (pass-opened to m s' (r.opened to)))
          (record {
            done = refl;
            out = ap (λ l. l ++ (to, m) ∷ []) a;
            ready = kept-IsReady s' _ r refl refl refl refl refl;
            addresses = b;
            id = c;
          })

    pub send-Delivers :
        (draw : ℕ) (to : NodeId) (s : Socket Msg)
        → IsReady s
        → mem to s.addresses ≡ true
        → (retry (dial to) 100 50).0 ≡ true
        → Delivers s (send dial draw to m s) ((to, m) ∷ [])
    unfolding dialled
    send-Delivers draw to s r known answers = elim (Bool-cases (s.nodes to)) [
      | inl old ↦
          subst (λ e. Delivers s e ((to, m) ∷ [])) (sym (send-clean dial draw to m s r.clean old))
            (pass-Delivers to s s r refl refl refl)
      | inr new ↦
          subst (λ e. Delivers s e ((to, m) ∷ []))
            (sym (send-dialled draw to s r.clean new known answers))
            (pass-Delivers to s (dialled to s) (kept-IsReady s _ r refl refl refl refl refl) refl
              refl refl)
    ]

    pub nothing-Delivers : (s : Socket Msg) → IsReady s → Delivers s (ok tt, s) []
    nothing-Delivers s r = record {
      done = refl;
      out = sym (append-nil s.out);
      ready = r;
      addresses = refl;
      id = refl;
    }

    pub then-Delivers :
        (call after : Exec (Socket Msg) (Unit {0})) (s : Socket Msg) (xs ys : List (NodeId × Msg))
        → Delivers s (call s) xs
        → (Delivers s (call s) xs → Delivers (call s).1 (after (call s).1) ys)
        → Delivers s ((call >> after) s) (xs ++ ys)
    unfolding ◌>>=◌
    then-Delivers call after s xs ys first rest =
        let second = rest first in
        rw first.done (record {
          done = second.done;
          out = second.out ∙ ap (λ l. l ++ ys) first.out ∙ append_assoc s.out xs ys;
          ready = second.ready;
          addresses = second.addresses ∙ first.addresses;
          id = second.id ∙ first.id;
        })
