-- ===== src/Node/Tally.antt =====
-- What the goroutines of a node have handled and left in the channels.
use mathlib.Core.List.{append_assoc, append-nil}
use bamboo.Prelude.{
  ℕ, suc, Bool, true, false, some, List, [], ◌∷◌, ◌++◌, if◌then◌else◌, ◌≡◌, refl, sym, ap, ◌∙◌,
  Bool-cases, inl, inr, All, All-append, subst,
}
use bamboo.Outcome.{ok}
use bamboo.Db.{Command}
use bamboo.Node.{
  TypeName, Request, Message, transaction, reply, other, type_of, Node, sort_message, answer,
  transaction_type, take_txn, take_message, call,
}

abbrev pub is_transaction : Message → Bool
is_transaction (transaction r) = true
is_transaction m = false

abbrev pub is_other : Message → Bool
is_other (other name body) = true
is_other m = false

abbrev pub keep : (Message → Bool) → List Message → List Message
keep test [] = []
keep test (m ∷ ms) = if test m then m ∷ keep test ms else keep test ms

pub keep-append :
    (test : Message → Bool) (xs ys : List Message)
    → keep test (xs ++ ys) ≡ keep test xs ++ keep test ys
keep-append test [] ys = refl
keep-append test (x ∷ xs) ys = elim (Bool-cases (test x)) [
  | inl in_it ↦ rw in_it (ap (λ l. x ∷ l) (keep-append test xs ys))
  | inr not_in ↦ rw not_in (keep-append test xs ys)
]

-- A message of one of the two channels, of a type with a registered function.
abbrev pub Fits : (TypeName → Bool) → (Message → Bool) → Message → Type 0
Fits handles test m = (test m ≡ true) × (handles (type_of m) ≡ true)

-- What was handled and what waits, in order, is what arrived; the other fields are as they were.
pub record InOrder (start : Node) (txs others : List Message) (n : Node) : Type 0 where
  pub txs_in_order : keep is_transaction n.handled ++ n.tx_chan ≡ txs
  pub others_in_order : keep is_other n.handled ++ n.message_chan ≡ others
  pub tx_chan : All (Fits start.handles is_transaction) n.tx_chan
  pub message_chan : All (Fits start.handles is_other) n.message_chan
  pub handles : n.handles ≡ start.handles
  pub forwards : n.forwards ≡ start.forwards
  pub is_byz : n.is_byz ≡ start.is_byz

-- What may arrive: a message of a registered type, and a reply to a forwarded transaction.
abbrev pub Expected : (Command → ℕ) → Node → Message → Type 0
Expected show start (reply c) = (r : Request) × (start.forwards (show c) ≡ some r)
Expected show start (transaction r) = start.handles transaction_type ≡ true
Expected show start (other name body) = start.handles (suc (suc name)) ≡ true

disjoint : (m : Message) → is_transaction m ≡ true → is_other m ≡ false
disjoint (transaction r) e = refl
disjoint (reply c) e = refl
disjoint (other name body) e = cc

disjoint' : (m : Message) → is_other m ≡ true → is_transaction m ≡ false
disjoint' (transaction r) e = cc
disjoint' (reply c) e = refl
disjoint' (other name body) e = refl

module _ (start : Node) (txs others : List Message) where
  called :
      (m : Message) (n : Node)
      → n.handles (type_of m) ≡ true
      → call m n ≡ (ok tt, record n { handled = n.handled ++ m ∷ [] })
  unfolding call
  called m n e = simp (e)

  keep_last :
      (test : Message → Bool) (handled : List Message) (m : Message) (ms : List Message)
      → test m ≡ true
      → keep test (handled ++ m ∷ []) ++ ms ≡ keep test handled ++ m ∷ ms
  keep_last test handled m ms e =
      rw (keep-append test handled (m ∷ [])) (rw e (append_assoc (keep test handled) (m ∷ []) ms))

  keep_other :
      (test : Message → Bool) (handled : List Message) (m : Message)
      → test m ≡ false
      → keep test (handled ++ m ∷ []) ≡ keep test handled
  keep_other test handled m e =
      rw (keep-append test handled (m ∷ [])) (rw e (append-nil (keep test handled)))

  pub take_txn-InOrder :
      (ms : List Message) (n : Node)
      → n.tx_chan ≡ ms
      → InOrder start txs others n
      → ((take_txn ms n).0 ≡ ok tt) × InOrder start txs others (take_txn ms n).1
  unfolding take_txn
  take_txn-InOrder [] n e t = (refl, t)
  take_txn-InOrder (m ∷ ms) n e t =
      let fits : All (Fits start.handles is_transaction) (m ∷ ms) =
        subst (All (Fits start.handles is_transaction)) e t.tx_chan in
      let n' = record n { tx_chan = ms } in
      subst (λ r. (r.0 ≡ ok tt) × InOrder start txs others r.1)
        (sym (called m n' (ap (λ f. f (type_of m)) t.handles ∙ fits.0.1)))
        (
          refl,
          record {
            txs_in_order =
                keep_last is_transaction n.handled m ms fits.0.0
                ∙ ap (λ l. keep is_transaction n.handled ++ l) (sym e)
                ∙ t.txs_in_order;
            others_in_order =
                ap (λ l. l ++ n.message_chan)
                  (keep_other is_other n.handled m (disjoint m fits.0.0))
                ∙ t.others_in_order;
            tx_chan = fits.1;
            message_chan = t.message_chan;
            handles = t.handles;
            forwards = t.forwards;
            is_byz = t.is_byz;
          },
        )

  pub take_message-InOrder :
      (ms : List Message) (n : Node)
      → n.message_chan ≡ ms
      → InOrder start txs others n
      → ((take_message ms n).0 ≡ ok tt) × InOrder start txs others (take_message ms n).1
  unfolding take_message
  take_message-InOrder [] n e t = (refl, t)
  take_message-InOrder (m ∷ ms) n e t =
      let fits : All (Fits start.handles is_other) (m ∷ ms) =
        subst (All (Fits start.handles is_other)) e t.message_chan in
      subst (λ r. (r.0 ≡ ok tt) × InOrder start txs others r.1)
        (sym (
          called m (record n { message_chan = ms }) (ap (λ f. f (type_of m)) t.handles ∙ fits.0.1)))
        (
          refl,
          record {
            txs_in_order =
                ap (λ l. l ++ n.tx_chan)
                  (keep_other is_transaction n.handled m (disjoint' m fits.0.0))
                ∙ t.txs_in_order;
            others_in_order =
                keep_last is_other n.handled m ms fits.0.0
                ∙ ap (λ l. keep is_other n.handled ++ l) (sym e)
                ∙ t.others_in_order;
            tx_chan = t.tx_chan;
            message_chan = fits.1;
            handles = t.handles;
            forwards = t.forwards;
            is_byz = t.is_byz;
          },
        )

-- A message that arrives is added to the tally.
pub sort_message-InOrder :
    (show : Command → ℕ) (start : Node) (txs others : List Message) (m : Message) (n : Node)
    → Expected show start m
    → InOrder start txs others n
    → ((sort_message show m n).0 ≡ ok tt)
      × InOrder start
          (txs ++ keep is_transaction (m ∷ []))
          (others ++ keep is_other (m ∷ []))
          (sort_message show m n).1
unfolding sort_message answer
sort_message-InOrder show start txs others (transaction r) n x t = (
  refl,
  record {
    txs_in_order =
        sym (append_assoc (keep is_transaction n.handled) n.tx_chan (transaction r ∷ []))
        ∙ ap (λ l. l ++ transaction r ∷ []) t.txs_in_order;
    others_in_order = t.others_in_order ∙ sym (append-nil others);
    tx_chan =
        All-append (Fits start.handles is_transaction) n.tx_chan (transaction r ∷ []) t.tx_chan
          ((refl, x), tt);
    message_chan = t.message_chan;
    handles = t.handles;
    forwards = t.forwards;
    is_byz = t.is_byz;
  },
)
sort_message-InOrder show start txs others (other name body) n x t = (
  refl,
  record {
    txs_in_order = t.txs_in_order ∙ sym (append-nil txs);
    others_in_order =
        sym (append_assoc (keep is_other n.handled) n.message_chan (other name body ∷ []))
        ∙ ap (λ l. l ++ other name body ∷ []) t.others_in_order;
    tx_chan = t.tx_chan;
    message_chan =
        All-append (Fits start.handles is_other) n.message_chan (other name body ∷ [])
          t.message_chan ((refl, x), tt);
    handles = t.handles;
    forwards = t.forwards;
    is_byz = t.is_byz;
  },
)
sort_message-InOrder show start txs others (reply c) n (r, known) t =
    let found : n.forwards (show c) ≡ some r = ap (λ f. f (show c)) t.forwards ∙ known in
    rw found (
      refl,
      record {
        txs_in_order = t.txs_in_order ∙ sym (append-nil txs);
        others_in_order = t.others_in_order ∙ sym (append-nil others);
        tx_chan = t.tx_chan;
        message_chan = t.message_chan;
        handles = t.handles;
        forwards = t.forwards;
        is_byz = t.is_byz;
      },
    )
