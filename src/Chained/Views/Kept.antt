-- ===== src/Chained/Views/Kept.antt =====
-- Changing the view keeps what is stable.
use bamboo.Prelude.{Option, none, some, ltb, Bool-cases, inl, inr}
use bamboo.Types.{View, Identifier, Block, Vmo, Vc, Tc, Tmo}
use bamboo.Exec.{modify, ◌>>=◌}
use bamboo.Exec.Keeps.{
  Keeps, Keeps-modify, Keeps-bind, Keeps-if, Keeps-skip, Keeps-gets, Keeps-pure, Keeps-ignore,
}
use bamboo.Chained.State.{Env, Chained, Sent, emit, Calls}
use bamboo.Chained.Stable.{Property, Holds, Stable}
use bamboo.Chained.Views.{
  buffer_block, receive_block, unbuffer_qc, advance, start, unbuffer_block, receive_vmo,
  forget_view, post_back, process_buffered, finish_view, process_vmo, process_vmo_and_block,
  process_remote_vc, changed_view, take_vmo, again, follow_vmo, process_remote_vmo,
  process_local_vmo, process_tc, timed_out, take_tmo,
}

-- Both calls keep P.
pub record Trusted {Own : Type 0} (P : Property) (calls : Calls Own) : Type 0 where
  pub block : (b : Block) → Keeps (Holds P) (calls.process_block b)
  pub vmo : (m : Vmo) → Keeps (Holds P) (calls.process_remote_vmo m)

module _ {Own : Type 0} (env : Env) (P : Property) (stable : Stable env P) where
  pub advance-Keeps : (v : View) → Keeps (Holds {Own = Own} P) (modify (advance v))
  unfolding advance
  advance-Keeps v = Keeps-modify (advance v) λ s h. stable.advance v h

  start-Holds : (s : Chained Own) → Holds P s → Holds P (start s)
  unfolding start
  start-Holds s h = elim (Bool-cases (ltb s.pm.cur_view 1)) [
    | inl low ↦ rw low (stable.advance 0 h)
    | inr up ↦ rw up h
  ]

  pub start-Keeps : Keeps (Holds {Own = Own} P) (modify start)
  start-Keeps = Keeps-modify start start-Holds

  pub emit-Keeps : (m : Sent) → Keeps (Holds {Own = Own} P) (modify (emit m))
  emit-Keeps m = Keeps-modify (emit m) λ s h. h

  pub buffer_block-Keeps : (b : Block) → Keeps (Holds {Own = Own} P) (modify (buffer_block b))
  unfolding buffer_block
  buffer_block-Keeps b = Keeps-modify (buffer_block b) λ s h. h

  pub receive_block-Keeps : (b : Block) → Keeps (Holds {Own = Own} P) (modify (receive_block b))
  unfolding receive_block
  receive_block-Keeps b = Keeps-modify (receive_block b) λ s h. h

  pub unbuffer_qc-Keeps : (id : Identifier) → Keeps (Holds {Own = Own} P) (modify (unbuffer_qc id))
  unfolding unbuffer_qc
  unbuffer_qc-Keeps id = Keeps-modify (unbuffer_qc id) λ s h. h

  pub unbuffer_block-Keeps : (v : View) → Keeps (Holds {Own = Own} P) (modify (unbuffer_block v))
  unfolding unbuffer_block
  unbuffer_block-Keeps v = Keeps-modify (unbuffer_block v) λ s h. h

  receive_vmo-Keeps : (m : Vmo) → Keeps (Holds {Own = Own} P) (modify (receive_vmo m))
  unfolding receive_vmo
  receive_vmo-Keeps m = Keeps-modify (receive_vmo m) λ s h. h

  forget_view-Keeps : (v : View) → Keeps (Holds {Own = Own} P) (modify (forget_view v))
  unfolding forget_view
  forget_view-Keeps v = Keeps-modify (forget_view v) λ s h. h

  process_tc-Keeps : (tc : Tc) → Keeps (Holds {Own = Own} P) (process_tc tc)
  unfolding process_tc ◌>>=◌
  process_tc-Keeps tc = Keeps-modify _ λ s h. elim (Bool-cases (ltb tc.view s.pm.cur_view)) [
    | inl old ↦ rw old h
    | inr new ↦ rw new ((advance-Keeps tc.view).at s h)
  ]

  timed_out-Keeps : (o : Option Tc) → Keeps (Holds {Own = Own} P) (timed_out o)
  timed_out-Keeps none = Keeps-skip
  timed_out-Keeps (some tc) = process_tc-Keeps tc

  pub take_tmo-Keeps : (m : Tmo) → Keeps (Holds {Own = Own} P) (take_tmo m)
  unfolding take_tmo
  take_tmo-Keeps m = record { at = λ s h. (timed_out-Keeps _).at _ (stable.tmo m h) }

  module _ (calls : Calls Own) (trusted : Trusted P calls) where
    post_back-Keeps : (v : View) (m : Vmo) → Keeps (Holds P) (post_back env calls v m)
    unfolding post_back
    post_back-Keeps v m = Keeps-if _ _ _ Keeps-skip (emit-Keeps _)

    process_buffered-Keeps :
        (o : Option Block) (v : View) → Keeps (Holds P) (process_buffered env calls o v)
    unfolding process_buffered
    process_buffered-Keeps none v = Keeps-skip
    process_buffered-Keeps (some b) v =
        Keeps-bind _ _ (unbuffer_block-Keeps v) λ _. Keeps-ignore _ (trusted.block b)

    finish_view-Keeps :
        (v : View) (m : Vmo) (o : Option Block) → Keeps (Holds P) (finish_view env calls v m o)
    unfolding finish_view
    finish_view-Keeps v m none = Keeps-pure _
    finish_view-Keeps v m (some b) =
        Keeps-bind _ _
          (Keeps-bind _ _ (Keeps-bind _ _ (post_back-Keeps v m) λ _. forget_view-Keeps v)
            λ _. advance-Keeps v)
          λ _. Keeps-pure _

    process_vmo-Keeps : (v : View) (o : Option Vmo) → Keeps (Holds P) (process_vmo env calls v o)
    unfolding process_vmo
    process_vmo-Keeps v none = Keeps-pure _
    process_vmo-Keeps v (some m) = Keeps-bind _ _ (Keeps-gets _) λ b.
        Keeps-bind _ _ (process_buffered-Keeps b v)
          λ _. Keeps-bind _ _ (Keeps-gets _) λ r. finish_view-Keeps v m r

    pub process_vmo_and_block-Keeps :
        (v : View) → Keeps (Holds P) (process_vmo_and_block env calls v)
    unfolding process_vmo_and_block
    process_vmo_and_block-Keeps v = Keeps-bind _ _ (Keeps-gets _) λ o. process_vmo-Keeps v o

    changed_view-Holds : (o : Option Vc) → Keeps (Holds P) (changed_view env calls o)
    unfolding process_remote_vc
    changed_view-Holds none = Keeps-skip
    changed_view-Holds (some vc) = advance-Keeps vc.view

    pub take_vmo-Keeps : (m : Vmo) → Keeps (Holds P) (take_vmo env calls m)
    unfolding take_vmo
    take_vmo-Keeps m = record { at = λ s h. (changed_view-Holds _).at _ (stable.vmo m h) }

    again-Keeps : (o : Option Vmo) → Keeps (Holds P) (again env calls o)
    again-Keeps none = Keeps-skip
    again-Keeps (some m) = trusted.vmo m

    pub follow_vmo-Keeps : (m : Vmo) → Keeps (Holds P) (follow_vmo env calls m)
    unfolding follow_vmo
    follow_vmo-Keeps m = Keeps-bind _ _ (receive_vmo-Keeps m) λ _. Keeps-bind _ _ start-Keeps λ _.
        Keeps-bind _ _ (Keeps-gets _) λ cur. Keeps-if (ltb cur m.view) _ _ Keeps-skip (
          Keeps-bind _ _ (process_vmo_and_block-Keeps m.view) λ done.
            Keeps-bind _ _ (Keeps-gets _) λ next. Keeps-if done _ _ (again-Keeps next) Keeps-skip)

    pub process_remote_vmo-Keeps : (m : Vmo) → Keeps (Holds P) (process_remote_vmo env calls m)
    unfolding process_remote_vmo
    process_remote_vmo-Keeps m = Keeps-if _ _ _ (take_vmo-Keeps m) (follow_vmo-Keeps m)

    pub process_local_vmo-Keeps : (v : View) → Keeps (Holds P) (process_local_vmo env calls v)
    unfolding process_local_vmo
    process_local_vmo-Keeps v =
        Keeps-bind _ _ (Keeps-gets _) λ high. Keeps-bind _ _ (emit-Keeps _) λ _. trusted.vmo _
