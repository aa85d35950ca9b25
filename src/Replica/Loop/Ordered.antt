-- ===== src/Replica/Loop/Ordered.antt =====
-- The loop and the listeners keep the order of the proposals.
use bamboo.Prelude.{
  ℕ, ◌+◌, ◌≡◌, refl, Bool, true, false, Option, none, some, List, [], ◌∷◌, get_elem?, if◌then◌else◌,
}
use bamboo.Outcome.{Outcome, ok, err, fault}
use bamboo.Types.{View, Block, Transaction}
use bamboo.Exec.{Exec, modify, reads, skip, ignore, ◌>>=◌, ◌>>◌}
use bamboo.Exec.Keeps.{Keeps, Keeps-modify, Keeps-bind, Keeps-gets, Keeps-ignore}
use bamboo.Mempool.Bloom.{BitSet}
use bamboo.Chained.State.{Env, Chained}
use bamboo.Chained.Stable.{Holds}
use bamboo.Chained.Later.{IsValid, Later}
use bamboo.Chained.Progress.{block, vote, tmo, vmo, timer}
use bamboo.Chained.Progress as Chained
use bamboo.Replica.State.{Safety, Event, view, message, Replica}
use bamboo.Replica.Handlers.Ordered.{committed-Ordered, forked-Ordered}
use bamboo.Replica.Handlers.{push}
use bamboo.Replica.Loop.{
  run, payload, note_proposal, propose_block, process_new_view, count_message, process_event,
  take_event, round, enter_view, listen_view, time_out, take_committed, listen_committed,
  take_forked, listen_forked,
}
use bamboo.Replica.Order.{
  Ready, Ordered, Orderly-grow, Orderly-view, Orderly-skip, Orderly-propose, Orderly-pop,
}

-- The protocol's state only moves on, and a proposal is of the view that was asked for.
pub record Announces {Own : Type 0} (env : Env) (safety : Safety Own) : Type 0 where
  pub handle :
      (e : Chained.Event) (s : Chained Own)
      → IsValid env s
      → Holds (Later env s) (safety.handle e s).1
  pub propose :
      (v : View) (txns : List Transaction) (s : Chained Own)
      → IsValid env s
      → Holds (Later env s) (safety.make_proposal v txns s).1
  pub view :
      (v : View) (txns : List Transaction) (s : Chained Own) (b : Block)
      → (safety.make_proposal v txns s).0 ≡ ok b
      → b.view ≡ v

module _ (B : BitSet) {Own : Type 0} (env : Env) where
  either-Ordered :
      (test : Bool) (yes' no' : Exec (Replica B Own) (Unit {0})) (r : Replica B Own)
      → Ordered env (yes' r).1
      → Ordered env (no' r).1
      → Ordered env ((if test then yes' else no') r).1
  either-Ordered true yes' no' r h h' = h
  either-Ordered false yes' no' r h h' = h'

  module _ (safety : Safety Own) (announces : Announces env safety) (b_size : ℕ) where
    run_handle-Ready :
        (es : List Event) (e : Chained.Event)
        → Keeps (Ready {B = B} env es) (run B (safety.handle e))
    unfolding run
    run_handle-Ready es e = record {
      at = λ r h.
          let later = announces.handle e r.protocol h.0 in
          (
            record { pacemaker = later.pacemaker; chain = later.chain.valid },
            Orderly-grow _ later.views h.1,
          );
    }

    abbrev rest : Block → Exec (Replica B Own) (Unit {0})
    rest b =
        modify (note_proposal B env safety b_size b) >> ignore (run B (safety.handle (block b)))

    proposed :
        (v : View) (end : Outcome Block) (r : Replica B Own)
        → ((b : Block) → end ≡ ok b → b.view ≡ v)
        → Ready env (view v ∷ []) r
        → Ordered env ((reads (λ _. end) >>= rest) r).1
    unfolding ◌>>=◌ note_proposal
    proposed v (fault x) r same (w, o) = (w, Orderly-skip v o)
    proposed v (err x) r same (w, o) = (w, Orderly-skip v o)
    proposed v (ok b) r same (w, o) =
        (Keeps-ignore _ (run_handle-Ready [] (block b))).at _
          (w, Orderly-propose v b (same b refl) o)

    propose_block-Ordered :
        (v : View) (r : Replica B Own)
        → Ready env (view v ∷ []) r
        → Ordered env (propose_block B env safety b_size v r).1
    unfolding propose_block payload run ◌>>=◌
    propose_block-Ordered v r (w, o) =
        let later = announces.propose v _ r.protocol w in
        proposed v _ _ (announces.view v _ r.protocol) (
          record { pacemaker = later.pacemaker; chain = later.chain.valid },
          Orderly-grow _ later.views o,
        )

    taken-Ordered :
        (v : View) (r : Replica B Own)
        → Ready env (view v ∷ []) r
        → Ordered env (process_new_view B env safety b_size v r).1
    unfolding process_new_view ◌>>=◌
    taken-Ordered v r (w, o) =
        either-Ordered (env.election.is_leader env.id v)
          (if env.is_byz then skip else propose_block B env safety b_size v) skip r
          (either-Ordered env.is_byz skip (propose_block B env safety b_size v) r
            (w, Orderly-skip v o) (propose_block-Ordered v r (w, o)))
          (w, Orderly-skip v o)

    count_message-Ordered :
        (e : Chained.Event) (r : Replica B Own)
        → Ordered env r
        → Ordered env (count_message B env safety b_size e r)
    unfolding count_message
    count_message-Ordered (block b) r h = h
    count_message-Ordered (vote m) r h = h
    count_message-Ordered (tmo m) r h = h
    count_message-Ordered (vmo m) r h = h
    count_message-Ordered (timer w) r h = h

    message-Ordered :
        (e : Chained.Event) → Keeps (Ordered env) (process_event B env safety b_size (message e))
    unfolding process_event
    message-Ordered e =
        Keeps-bind _ _ (Keeps-ignore _ (run_handle-Ready [] e))
          λ _. Keeps-modify _ λ r h. count_message-Ordered e r h

    taken_event-Ordered :
        (e : Event) (es : List Event) (r : Replica B Own)
        → Ordered env (record r { event_chan = e ∷ es })
        → Ordered env (process_event B env safety b_size e (record r { event_chan = es })).1
    unfolding process_event
    taken_event-Ordered (view v) es r h = taken-Ordered v (record r { event_chan = es }) h
    taken_event-Ordered (message e) es r (w, o) =
        unfold process_event in
        (message-Ordered e).at (record r { event_chan = es }) (w, Orderly-pop e o)

    take_event-Ordered :
        (es : List Event) (r : Replica B Own)
        → Ordered env (record r { event_chan = es })
        → Ordered env r
        → Ordered env (take_event B env safety b_size es r).1
    unfolding take_event ◌>>=◌
    take_event-Ordered [] r h h' = h'
    take_event-Ordered (e ∷ es) r h h' = taken_event-Ordered e es r h

    pub round-Ordered :
        (r : Replica B Own) → Ordered env r → Ordered env (round B env safety b_size r).1
    unfolding round ◌>>=◌
    round-Ordered r h =
        either-Ordered r.is_started (λ r'. take_event B env safety b_size r'.event_chan r') skip r
          (take_event-Ordered r.event_chan r h h) (unfold ◌>>=◌ in h)

    pub time_out-Ordered :
        (r : Replica B Own) → Ordered env r → Ordered env (time_out B env safety b_size r).1
    unfolding time_out
    time_out-Ordered r h =
        (Keeps-bind _ _ (Keeps-gets _) λ cur. run_handle-Ready [] (timer cur)).at r h

    enter_view-Ordered :
        (o : Option View) (r : Replica B Own)
        → get_elem? r.protocol.pm.new_view_chan r.views_seen ≡ o
        → Ordered env r
        → Ordered env (enter_view B env safety b_size o r)
    unfolding enter_view push
    enter_view-Ordered none r e h = h
    enter_view-Ordered (some v) r e (w, o) = (w, Orderly-view v e o)

    pub listen_view-Ordered :
        (r : Replica B Own) → Ordered env r → Ordered env (listen_view B env safety b_size r)
    unfolding listen_view
    listen_view-Ordered r h = enter_view-Ordered _ r refl h

    take_committed-Ordered :
        (o : Option Block) (r : Replica B Own)
        → Ordered env r
        → Ordered env (take_committed B env safety b_size o r)
    unfolding take_committed
    take_committed-Ordered none r h = h
    take_committed-Ordered (some b) r h =
        committed-Ordered B env b (record r { committed_seen = r.committed_seen + 1 }) h

    pub listen_committed-Ordered :
        (r : Replica B Own) → Ordered env r → Ordered env (listen_committed B env safety b_size r)
    unfolding listen_committed
    listen_committed-Ordered r h = take_committed-Ordered _ r h

    take_forked-Ordered :
        (o : Option Block) (r : Replica B Own)
        → Ordered env r
        → Ordered env (take_forked B env safety b_size o r)
    unfolding take_forked
    take_forked-Ordered none r h = h
    take_forked-Ordered (some b) r h =
        forked-Ordered B env b (record r { forked_seen = r.forked_seen + 1 }) h

    pub listen_forked-Ordered :
        (r : Replica B Own) → Ordered env r → Ordered env (listen_forked B env safety b_size r)
    unfolding listen_forked
    listen_forked-Ordered r h = take_forked-Ordered _ r h
