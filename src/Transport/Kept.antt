-- ===== src/Transport/Kept.antt =====
-- What each call and each move of a message keeps.
use mathlib.Core.List.{append_assoc}
use bamboo.Prelude.{
  ℕ, zero, suc, Bool, true, false, Option, none, some, List, [], ◌∷◌, ◌++◌, ◌==◌, if◌then◌else◌,
  update, get_elem?, ◌≡◌, refl, sym, ap, ◌∙◌, arith, All, All-append, ◌<◌, ne→==, subst,
}
use bamboo.Outcome.{Outcome}
use bamboo.Transport.Flow.{from, send-order, recv-order, move_out-order, move_in-order}
use bamboo.Transport.{
  Parcel, Net, send, dial_to, listen, recv_from, close, out_of, move_out, into, move_in,
}

some-injective : {d e : ℕ × ℕ} → some d ≡ some e → d ≡ e
some-injective h = cc

All-get_elem? :
    (P : ℕ × ℕ → Type 0) (ds : List (ℕ × ℕ)) (i : ℕ) (d : ℕ × ℕ)
    → All P ds
    → get_elem? ds i ≡ some d
    → P d
All-get_elem? P [] i d h e = cc
All-get_elem? P (x ∷ ds) zero d h e = subst P (some-injective e) h.0
All-get_elem? P (x ∷ ds) (suc i) d h e = All-get_elem? P ds i d h.1 e

module _ {Msg : Type 0} where
  -- What was sent from t over the channel c to l is received, waits in one of the three queues, or
  -- waits to be sent, in this order.
  pub record IsInOrder (t c l : ℕ) (n : Net Msg) : Type 0 where
    pub order : from t (n.received l ++ (n.recvs l ++ n.conns c)) ++ n.sends t ≡ n.given t
    pub dialers : All (λ (d : ℕ × ℕ). (d.0 == t) ≡ true → (d.1 == c) ≡ true) n.dialers
    pub listeners : All (λ (d : ℕ × ℕ). (d.0 == c) ≡ (d.1 == l)) n.listeners
    pub made : c < n.made_chans

  either :
      (P : Net Msg → Type 0) (test : Bool) (x y : Outcome (Unit {0}) × Net Msg)
      → P x.1
      → P y.1
      → P (if test then x else y).1
  either P true x y hx hy = hx
  either P false x y hx hy = hy

  module _ (t c l : ℕ) where
    pub send-IsInOrder :
        (k : ℕ) (m : Msg) (n : Net Msg) → IsInOrder t c l n → IsInOrder t c l (send k m n).1
    unfolding send
    send-IsInOrder k m n h = either (IsInOrder t c l) (n.closed k) _ _ h (record {
      order = send-order t c l k m _ n.sends n.given h.order;
      dialers = h.dialers;
      listeners = h.listeners;
      made = h.made;
    })

    pub close-IsInOrder : (k : ℕ) (n : Net Msg) → IsInOrder t c l n → IsInOrder t c l (close k n).1
    unfolding close
    close-IsInOrder k n h =
        either (IsInOrder t c l) (n.closed k) _ _ h
          (record { order = h.order; dialers = h.dialers; listeners = h.listeners; made = h.made })

    pub recv_from-IsInOrder :
        (k : ℕ) (ps : List (Parcel Msg)) (n : Net Msg)
        → n.recvs k ≡ ps
        → IsInOrder t c l n
        → IsInOrder t c l (recv_from k ps n)
    unfolding recv_from
    recv_from-IsInOrder k [] n e h = h
    recv_from-IsInOrder k (p ∷ ps) n e h = record {
      order =
          ap (λ x. from t x ++ n.sends t) (recv-order t c l k p ps n.received n.recvs (n.conns c) e)
          ∙ h.order;
      dialers = h.dialers;
      listeners = h.listeners;
      made = h.made;
    }

    move_out-IsInOrder :
        (ms : List Msg) (s d : ℕ) (n : Net Msg)
        → n.sends s ≡ ms
        → ((s == t) ≡ true → (d == c) ≡ true)
        → IsInOrder t c l n
        → IsInOrder t c l (move_out ms s d n)
    unfolding move_out
    move_out-IsInOrder [] s d n e only h = h
    move_out-IsInOrder (m ∷ ms) s d n e only h = record {
      order =
          ap (λ x. from t x ++ update n.sends s ms t)
            (sym (append_assoc (n.received l) (n.recvs l) _))
          ∙ move_out-order t c l s d m ms (n.received l ++ n.recvs l) n.sends n.conns only e
          ∙ ap (λ x. from t x ++ n.sends t) (append_assoc (n.received l) (n.recvs l) (n.conns c))
          ∙ h.order;
      dialers = h.dialers;
      listeners = h.listeners;
      made = h.made;
    }

    move_in-IsInOrder :
        (ps : List (Parcel Msg)) (d k : ℕ) (n : Net Msg)
        → n.conns d ≡ ps
        → (d == c) ≡ (k == l)
        → IsInOrder t c l n
        → IsInOrder t c l (move_in ps d k n)
    unfolding move_in
    move_in-IsInOrder [] d k n e both h = h
    move_in-IsInOrder (p ∷ ps) d k n e both h = record {
      order =
          ap (λ x. from t (n.received l ++ x) ++ n.sends t)
            (move_in-order t c l d k p ps n.recvs n.conns both e)
          ∙ h.order;
      dialers = h.dialers;
      listeners = h.listeners;
      made = h.made;
    }

    pub out_of-IsInOrder :
        (i : ℕ) (d : Option (ℕ × ℕ)) (n : Net Msg)
        → get_elem? n.dialers i ≡ d
        → IsInOrder t c l n
        → IsInOrder t c l (out_of d n)
    unfolding out_of
    out_of-IsInOrder i none n e h = h
    out_of-IsInOrder i (some (s, d)) n e h =
        move_out-IsInOrder (n.sends s) s d n refl (All-get_elem? _ n.dialers i (s, d) h.dialers e) h

    pub into-IsInOrder :
        (j : ℕ) (d : Option (ℕ × ℕ)) (n : Net Msg)
        → get_elem? n.listeners j ≡ d
        → IsInOrder t c l n
        → IsInOrder t c l (into d n)
    unfolding into
    into-IsInOrder j none n e h = h
    into-IsInOrder j (some (d, k)) n e h =
        move_in-IsInOrder (n.conns d) d k n refl
          (All-get_elem? _ n.listeners j (d, k) h.listeners e) h

    -- Another transport dials.
    pub dial_to-IsInOrder :
        (host : Option ℕ) (k : ℕ) (n : Net Msg)
        → (k == t) ≡ false
        → IsInOrder t c l n
        → IsInOrder t c l (dial_to host k n).1
    unfolding dial_to
    dial_to-IsInOrder none k n other h = h
    dial_to-IsInOrder (some d) k n other h = record {
      order = h.order;
      dialers = All-append _ n.dialers ((k, d) ∷ []) h.dialers ((λ own. cc (own, other)), tt);
      listeners = h.listeners;
      made = h.made;
    }

    -- Another transport listens, which makes a new channel.
    pub listen-IsInOrder :
        (k : ℕ) (n : Net Msg) → (k == l) ≡ false → IsInOrder t c l n → IsInOrder t c l (listen k n)
    unfolding listen
    listen-IsInOrder k n other h =
        let new : (n.made_chans == c) ≡ false = ne→== _ _ (λ e. omega (arith, e, h.made)) in
        record {
          order =
              ap
                (λ x.
                  from t (n.received l ++ (n.recvs l ++ (if x then [] else n.conns c)))
                  ++ n.sends t)
                new
              ∙ h.order;
          dialers = h.dialers;
          listeners =
              All-append _ n.listeners ((n.made_chans, k) ∷ []) h.listeners (new ∙ sym other, tt);
          made = omega (arith, h.made);
        }
