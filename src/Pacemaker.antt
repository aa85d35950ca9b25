-- ===== src/Pacemaker.antt =====
-- pacemaker/pacemaker.go: the current view, the two controllers, and the channel of entered views.
-- The channel holds what was sent, oldest first; its capacity of 100, where a send would block, is
-- not modelled.
pub mod Controller
pub mod Views
pub mod Tests
use bamboo.Prelude.{ℕ, ◌+◌, Option, none, some, List, [], ◌∷◌, ◌++◌, ltb, if◌then◌else◌}
use bamboo.Types.{View, NodeId, Tmo, Vmo, Tc, Vc}
use Controller.{Tally, new_tally, add}

-- timeoutController.go and viewChangeController.go differ in the kind of message alone.
abbrev pub TimeoutController : Type 0
TimeoutController = Tally Tmo

abbrev pub ViewChangeController : Type 0
ViewChangeController = Tally Vmo

pub add_tmo : TimeoutController → Tmo → Option Tc × TimeoutController
add_tmo tcl tmo =
    let (built, tcl') = add tcl tmo.view tmo.node_id tmo in
    (if built then some (record { view = tmo.view }) else none, tcl')

pub add_vmo : ViewChangeController → Vmo → Option Vc × ViewChangeController
add_vmo vcl vmo =
    let (built, vcl') = add vcl vmo.view vmo.node_id vmo in
    (if built then some (record { view = vmo.view }) else none, vcl')

pub record Pacemaker : Type 0 where
  pub cur_view : View
  pub new_view_chan : List View
  pub timeout_controller : TimeoutController
  pub view_change_controller : ViewChangeController

pub new_pacemaker : ℕ → Pacemaker
new_pacemaker n = record {
  cur_view = 0;
  new_view_chan = [];
  timeout_controller = new_tally n;
  view_change_controller = new_tally n;
}

pub process_remote_tmo : Pacemaker → Tmo → Option Tc × Pacemaker
process_remote_tmo p tmo =
    let (tc, tcl) = add_tmo p.timeout_controller tmo in
    if ltb tmo.view p.cur_view then (none, p) else (tc, record p { timeout_controller = tcl })

pub process_remote_vmo : Pacemaker → Vmo → Option Vc × Pacemaker
process_remote_vmo p vmo =
    let (vc, vcl) = add_vmo p.view_change_controller vmo in
    if ltb vmo.view p.cur_view then (none, p) else (vc, record p { view_change_controller = vcl })

pub advance_view : View → Pacemaker → Pacemaker
advance_view view p =
    if ltb view p.cur_view
    then p
    else record p { cur_view = view + 1; new_view_chan = p.new_view_chan ++ (view + 1) ∷ [] }
