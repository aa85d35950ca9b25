-- ===== src/Replica/Loop/Kept.antt =====
-- The loop and the listeners keep the replica's invariant, where the protocol keeps its own.
use bamboo.Prelude.{
  ap, ◌++◌, ℕ, ◌+◌, ◌≡◌, refl, Bool, true, false, Option, none, some, List, [], ◌∷◌, length-append,
  arith, if◌then◌else◌,
}
use bamboo.Types.{View, Block, Transaction}
use bamboo.Exec.{skip, Exec}
use bamboo.Exec.Keeps.{
  Keeps, Keeps-modify, Keeps-bind, Keeps-if, Keeps-skip, Keeps-gets, Keeps-ignore,
}
use bamboo.Mempool.Bloom.{BitSet}
use bamboo.Chained.State.{Env, Chained}
use bamboo.Chained.Later as Later
use bamboo.Chained.Progress.{block, vote, tmo, vmo, timer}
use bamboo.Chained.Progress as Chained
use bamboo.Replica.State.{Safety, Event, view, message, Replica}
use bamboo.Replica.Invariant.{IsValid}
use bamboo.Replica.Handlers.Kept.{
  push-IsValid, process_committed_block-IsValid, process_forked_block-IsValid,
}
use bamboo.Replica.Loop.{
  run, payload, note_proposal, propose_block, process_new_view, count_message, process_event,
  take_event, round, enter_view, listen_view, time_out, take_committed, listen_committed,
  take_forked, listen_forked,
}

-- The handlers and the proposals of the protocol keep its state well formed.
pub record Protocol {Own : Type 0} (env : Env) (safety : Safety Own) : Type 0 where
  pub handle : (e : Chained.Event) → Keeps (Later.IsValid env) (safety.handle e)
  pub propose :
      (v : View) (txns : List Transaction) → Keeps (Later.IsValid env) (safety.make_proposal v txns)

skip_or :
    {Object : Type 0} {P : Object → Type 0} (test : Bool) (call : Exec Object (Unit {0}))
    → (test ≡ false → Keeps P call)
    → Keeps P (if test then skip else call)
skip_or true call kept = Keeps-skip
skip_or false call kept = kept refl

module _ (B : BitSet) {Own : Type 0} (overlapped : Bool) (env : Env) where
  run-Keeps :
      {Value : Type 0} (call : Exec (Chained Own) Value)
      → Keeps (Later.IsValid env) call
      → Keeps (IsValid {B = B} overlapped env) (run B call)
  unfolding run
  run-Keeps call kept = record {
    at = λ r v. record {
      protocol = λ alone. kept.at r.protocol (v.protocol alone);
      counted = v.counted;
      read = v.read;
      proposed = v.proposed;
      quiet = v.quiet;
      sends = v.sends;
    };
  }

  module _ (safety : Safety Own) (protocol : Protocol env safety) (b_size : ℕ) where
    payload-Keeps : Keeps (IsValid overlapped env) (payload B env safety b_size)
    unfolding payload
    payload-Keeps = record { at = λ r v. v }

    sent-if :
        (streamlet : Bool) (b : Block) (proposals broadcasts : List Block)
        → broadcasts ≡ (if streamlet then [] else proposals)
        → (if streamlet then broadcasts else broadcasts ++ b ∷ [])
          ≡ (if streamlet then [] else proposals ++ b ∷ [])
    sent-if true b proposals broadcasts e = e
    sent-if false b proposals broadcasts e = ap (λ l. l ++ b ∷ []) e

    note_proposal-IsValid :
        (b : Block) (r : Replica B Own)
        → env.is_byz ≡ false
        → IsValid overlapped env r
        → IsValid overlapped env (note_proposal B env safety b_size b r)
    unfolding note_proposal
    note_proposal-IsValid b r honest v = record {
      protocol = v.protocol;
      counted = v.counted;
      read = v.read;
      proposed = omega (arith, v.proposed, length-append r.proposals (b ∷ []));
      quiet = λ byz. absurd (cc);
      sends = sent-if env.is_streamlet b r.proposals r.broadcasts v.sends;
    }

    propose_block-Keeps :
        (v : View)
        → env.is_byz ≡ false
        → Keeps (IsValid overlapped env) (propose_block B env safety b_size v)
    unfolding propose_block
    propose_block-Keeps v honest = Keeps-bind _ _ payload-Keeps λ txns.
        Keeps-bind _ _ (run-Keeps _ (protocol.propose v txns)) λ b.
          Keeps-bind _ _ (Keeps-modify _ λ r h. note_proposal-IsValid b r honest h)
            λ _. Keeps-ignore _ (run-Keeps _ (protocol.handle (block b)))

    pub process_new_view-Keeps :
        (v : View) → Keeps (IsValid overlapped env) (process_new_view B env safety b_size v)
    unfolding process_new_view
    process_new_view-Keeps v =
        Keeps-if _ _ _ (skip_or env.is_byz _ (propose_block-Keeps v)) Keeps-skip

    count_message-IsValid :
        (e : Chained.Event) (r : Replica B Own)
        → IsValid overlapped env r
        → IsValid overlapped env (count_message B env safety b_size e r)
    unfolding count_message
    count_message-IsValid (block b) r v = v
    count_message-IsValid (vote m) r v = v
    count_message-IsValid (tmo m) r v = v
    count_message-IsValid (vmo m) r v = v
    count_message-IsValid (timer w) r v = v

    process_event-Keeps :
        (e : Event) → Keeps (IsValid overlapped env) (process_event B env safety b_size e)
    unfolding process_event
    process_event-Keeps (view v) = process_new_view-Keeps v
    process_event-Keeps (message e) =
        Keeps-bind _ _ (Keeps-ignore _ (run-Keeps _ (protocol.handle e)))
          λ _. Keeps-modify _ λ r h. count_message-IsValid e r h

    take_event-Keeps :
        (es : List Event) → Keeps (IsValid overlapped env) (take_event B env safety b_size es)
    unfolding take_event
    take_event-Keeps [] = Keeps-skip
    take_event-Keeps (e ∷ es) = Keeps-bind _ _ (Keeps-modify _ λ r h. h) λ _. process_event-Keeps e

    pub round-Keeps : Keeps (IsValid overlapped env) (round B env safety b_size)
    unfolding round
    round-Keeps = Keeps-bind _ _ (Keeps-gets _) λ started.
        Keeps-if started _ _ (Keeps-bind _ _ (Keeps-gets _) λ es. take_event-Keeps es) Keeps-skip

    pub time_out-Keeps : Keeps (IsValid overlapped env) (time_out B env safety b_size)
    unfolding time_out
    time_out-Keeps = Keeps-bind _ _ (Keeps-gets _) λ cur. run-Keeps _ (protocol.handle (timer cur))

    enter_view-IsValid :
        (o : Option View) (r : Replica B Own)
        → IsValid overlapped env r
        → IsValid overlapped env (enter_view B env safety b_size o r)
    unfolding enter_view
    enter_view-IsValid none r v = v
    enter_view-IsValid (some w) r v =
        push-IsValid B overlapped env _
          (record r { views_seen = r.views_seen + 1; round_no = r.round_no + 1 }) v

    pub listen_view-IsValid :
        (r : Replica B Own)
        → IsValid overlapped env r
        → IsValid overlapped env (listen_view B env safety b_size r)
    unfolding listen_view
    listen_view-IsValid r v = enter_view-IsValid _ r v

    take_committed-IsValid :
        (o : Option Block) (r : Replica B Own)
        → IsValid overlapped env r
        → IsValid overlapped env (take_committed B env safety b_size o r)
    unfolding take_committed
    take_committed-IsValid none r v = v
    take_committed-IsValid (some b) r v = process_committed_block-IsValid B overlapped env b r v

    pub listen_committed-IsValid :
        (r : Replica B Own)
        → IsValid overlapped env r
        → IsValid overlapped env (listen_committed B env safety b_size r)
    unfolding listen_committed
    listen_committed-IsValid r v = take_committed-IsValid _ r v

    take_forked-IsValid :
        (o : Option Block) (r : Replica B Own)
        → IsValid overlapped env r
        → IsValid overlapped env (take_forked B env safety b_size o r)
    unfolding take_forked
    take_forked-IsValid none r v = v
    take_forked-IsValid (some b) r v = process_forked_block-IsValid B overlapped env b r v

    pub listen_forked-IsValid :
        (r : Replica B Own)
        → IsValid overlapped env r
        → IsValid overlapped env (listen_forked B env safety b_size r)
    unfolding listen_forked
    listen_forked-IsValid r v = take_forked-IsValid _ r v
