-- ===== src/Chained/Views.antt =====
-- Changing the view: view-change messages together with the block of their view, timeouts, and the
-- certificates that a majority of either yields. The chained protocols share these methods.
pub mod Kept
use bamboo.Prelude.{ℕ, ◌+◌, Bool, true, false, Option, none, some, update, ltb, ◌==◌, if◌then◌else◌}
use bamboo.Types.{View, Identifier, Vmo, Vc, Tc, Tmo, Block}
use bamboo.Exec.{Exec, pure, modify, skip, gets, ignore, ◌>>=◌, ◌>>◌}
use bamboo.Pacemaker.{advance_view}
use bamboo.Pacemaker as Pacemaker
use bamboo.Chained.State.{Env, Chained, Message, vmo, tmo, send, broadcast, emit, Handler, Calls}

module _ {Own : Type 0} where
  unfoldable pub advance : View → Chained Own → Chained Own
  advance view s = record s { pm = advance_view view s.pm }

  -- if s.pm.GetCurView() < 1 { s.pm.AdvanceView(0) }
  pub start : Chained Own → Chained Own
  unfolding advance
  start s = if ltb s.pm.cur_view 1 then advance 0 s else s

  pub buffer_block : Block → Chained Own → Chained Own
  buffer_block b s = record s { buffered_blocks = update s.buffered_blocks b.view (some b) }

  pub unbuffer_block : View → Chained Own → Chained Own
  unbuffer_block v s = record s { buffered_blocks = update s.buffered_blocks v none }

  pub receive_block : Block → Chained Own → Chained Own
  receive_block b s = record s { recived_block = update s.recived_block b.view (some b) }

  pub receive_vmo : Vmo → Chained Own → Chained Own
  receive_vmo m s = record s { recived_vmo = update s.recived_vmo m.view (some m) }

  pub forget_view : View → Chained Own → Chained Own
  forget_view v s = record s {
    recived_vmo = update s.recived_vmo v none;
    recived_block = update s.recived_block v none;
  }

  pub unbuffer_qc : Identifier → Chained Own → Chained Own
  unbuffer_qc id s = record s { buffered_qcs = update s.buffered_qcs id none }

module _ {Own : Type 0} (env : Env) (calls : Calls Own) where
  pub is_next : View → Bool
  is_next view = env.election.find_leader_for (view + 1) == env.id

  post_back : View → Vmo → Handler Own
  post_back view m =
      let back = record m { node_id = env.id } in
      let next = env.election.find_leader_for (view + 1) in
      if next == env.id then skip else modify (emit (send next (vmo back)))

  process_buffered : Option Block → View → Handler Own
  process_buffered none view = skip
  process_buffered (some b) view = modify (unbuffer_block view) >> ignore (calls.process_block b)

  finish_view : View → Vmo → Option Block → Exec (Chained Own) Bool
  finish_view view m none = pure false
  finish_view view m (some b) =
      post_back view m >> modify (forget_view view) >> modify (advance view) >> pure true

  process_vmo : View → Option Vmo → Exec (Chained Own) Bool
  process_vmo view none = pure false
  process_vmo view (some m) = do
    buffered ← gets λ s. s.buffered_blocks view
    process_buffered buffered view
    received ← gets λ s. s.recived_block view
    finish_view view m received

  pub process_vmo_and_block : View → Exec (Chained Own) Bool
  process_vmo_and_block view = gets (λ s. s.recived_vmo view) >>= process_vmo view

  -- `ProcessRemoteVc`
  pub process_remote_vc : Vc → Handler Own
  process_remote_vc vc = modify (advance vc.view)

  abbrev changed_view : Option Vc → Handler Own
  changed_view none = skip
  changed_view (some vc) = process_remote_vc vc

  pub take_vmo : Vmo → Handler Own
  take_vmo m s =
      let (vc, pm) = Pacemaker.process_remote_vmo s.pm m in changed_view vc (record s { pm = pm })

  abbrev again : Option Vmo → Handler Own
  again none = skip
  again (some m) = calls.process_remote_vmo m

  pub follow_vmo : Vmo → Handler Own
  follow_vmo m = do
    modify (receive_vmo m)
    modify start
    cur ← gets λ s. s.pm.cur_view
    if ltb cur m.view then skip else do
      done ← process_vmo_and_block m.view
      next ← gets λ s. s.recived_vmo (m.view + 1)
      if done then again next else skip

  pub process_remote_vmo : Vmo → Handler Own
  process_remote_vmo m = if is_next m.view then take_vmo m else follow_vmo m

  pub process_local_vmo : View → Handler Own
  process_local_vmo view = do
    high ← gets λ s. s.high_qc
    let m : Vmo = record { view = view; node_id = env.id; high_qc = some high }
    modify (emit (broadcast (vmo m)))
    calls.process_remote_vmo m

module _ {Own : Type 0} where
  pub process_tc : Tc → Handler Own
  process_tc tc = modify λ s. if ltb tc.view s.pm.cur_view then s else advance tc.view s

  abbrev timed_out : Option Tc → Handler Own
  timed_out none = skip
  timed_out (some tc) = process_tc tc

  pub take_tmo : Tmo → Handler Own
  take_tmo m s =
      let (tc, pm) = Pacemaker.process_remote_tmo s.pm m in timed_out tc (record s { pm = pm })
