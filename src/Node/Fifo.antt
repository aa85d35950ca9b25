-- ===== src/Node/Fifo.antt =====
-- Every message is handled once, in the order in which its channel got it.
use mathlib.Core.List.{append_assoc, append-nil}
use bamboo.Prelude.{ℕ, Bool, false, ◌&&◌, List, [], ◌∷◌, ◌++◌, ◌≡◌, refl, ap, ◌∙◌, All}
use bamboo.Outcome.{Outcome, ok, err, fault}
use bamboo.Db.{Command}
use bamboo.Node.Tally.{
  keep, is_transaction, is_other, InOrder, Expected, keep-append, take_txn-InOrder,
  take_message-InOrder, sort_message-InOrder,
}
use bamboo.Node.{Message, Node, recv, sort_message, txn, take_txn, handle, take_message}

-- The goroutines of a node, and the messages that its socket brings.
pub data Event : Type 0 where
  arrives : Message → Event
  runs_txn runs_handle : Event

-- What arrived in a sequence of events.
abbrev pub arrived : List Event → List Message
arrived [] = []
arrived (arrives m ∷ es) = m ∷ arrived es
arrived (e ∷ es) = arrived es

resume : Outcome (Unit {0}) × Node → (Node → Outcome (Unit {0}) × Node) → Outcome (Unit {0}) × Node
resume (ok u, n) next = next n
resume (err e, n) next = (err e, n)
resume (fault x, n) next = (fault x, n)

module _ (show : Command → ℕ) (silent : Bool) where
  pub step : Event → Node → Outcome (Unit {0}) × Node
  step (arrives m) n = recv show silent m n
  step runs_txn n = txn n
  step runs_handle n = handle n

  -- A run ends at the first panic or exit.
  pub run : List Event → Node → Outcome (Unit {0}) × Node
  unfolding step resume
  run [] n = (ok tt, n)
  run (e ∷ es) n = resume (step e n) (run es)

module _ (show : Command → ℕ) (silent : Bool) (start : Node)
    (heard : (start.is_byz && silent) ≡ false) where
  recv_is :
      (m : Message) (n : Node)
      → n.is_byz ≡ start.is_byz
      → recv show silent m n ≡ sort_message show m n
  unfolding recv
  recv_is m n e =
      let same : (n.is_byz && silent) ≡ false = ap (λ b. b && silent) e ∙ heard in simp (same)

  resume_ok :
      (r : Outcome (Unit {0}) × Node) (next : Node → Outcome (Unit {0}) × Node)
      → r.0 ≡ ok tt
      → resume r next ≡ next r.1
  unfolding resume
  resume_ok (ok u, n) next e = refl
  resume_ok (err x, n) next e = cc
  resume_ok (fault x, n) next e = cc

  run-InOrder :
      (es : List Event) (txs others : List Message) (n : Node)
      → All (Expected show start) (arrived es)
      → InOrder start txs others n
      → ((run show silent es n).0 ≡ ok tt)
        × InOrder start
            (txs ++ keep is_transaction (arrived es))
            (others ++ keep is_other (arrived es))
            (run show silent es n).1
  unfolding run step txn handle
  run-InOrder [] txs others n x t = (refl, rw (append-nil txs) (rw (append-nil others) t))
  run-InOrder (arrives m ∷ es) txs others n x t =
      let (done, t') = sort_message-InOrder show start txs others m n x.0 t in
      rw (recv_is m n t.is_byz) (
        rw (resume_ok (sort_message show m n) (run show silent es) done) (
          rw (keep-append is_transaction (m ∷ []) (arrived es)) (
            rw (keep-append is_other (m ∷ []) (arrived es)) (
              rw⁻¹
                (append_assoc txs (keep is_transaction (m ∷ [])) (keep is_transaction (arrived es)))
                (rw⁻¹ (append_assoc others (keep is_other (m ∷ [])) (keep is_other (arrived es)))
                  (run-InOrder es _ _ (sort_message show m n).1 x.1 t'))))))
  run-InOrder (runs_txn ∷ es) txs others n x t =
      let (done, t') = take_txn-InOrder start txs others n.tx_chan n refl t in
      rw (resume_ok (take_txn n.tx_chan n) (run show silent es) done)
        (run-InOrder es txs others (take_txn n.tx_chan n).1 x t')
  run-InOrder (runs_handle ∷ es) txs others n x t =
      let (done, t') = take_message-InOrder start txs others n.message_chan n refl t in
      rw (resume_ok (take_message n.message_chan n) (run show silent es) done)
        (run-InOrder es txs others (take_message n.message_chan n).1 x t')

-- A node on which nothing waits and nothing was handled.
pub record IsIdle (n : Node) : Type 0 where
  pub message_chan : n.message_chan ≡ []
  pub tx_chan : n.tx_chan ≡ []
  pub handled : n.handled ≡ []

idle-InOrder : (n : Node) → IsIdle n → InOrder n [] [] n
idle-InOrder n i = record {
  txs_in_order = cc (i.handled, i.tx_chan);
  others_in_order = cc (i.handled, i.message_chan);
  tx_chan = rw i.tx_chan tt;
  message_chan = rw i.message_chan tt;
  handles = refl;
  forwards = refl;
  is_byz = refl;
}

-- An idle node gets messages of registered types, and replies to transactions that it forwarded, and
-- its goroutines run in any order. Then none of them panics or exits, and the transactions that
-- arrived are, in order, those that were handled and those that wait; and so are the messages of
-- other types. This is so unless the node is Byzantine and the strategy is silence.
pub run-in_order :
    (show : Command → ℕ) (silent : Bool) (n : Node) (es : List Event)
    → (n.is_byz && silent) ≡ false
    → IsIdle n
    → All (Expected show n) (arrived es)
    → ((run show silent es n).0 ≡ ok tt)
      × (keep is_transaction (run show silent es n).1.handled ++ (run show silent es n).1.tx_chan
          ≡ keep is_transaction (arrived es))
      × (keep is_other (run show silent es n).1.handled ++ (run show silent es n).1.message_chan
          ≡ keep is_other (arrived es))
run-in_order show silent n es heard idle x =
    let (done, t) = run-InOrder show silent n heard es [] [] n x (idle-InOrder n idle) in
    (done, t.txs_in_order, t.others_in_order)
