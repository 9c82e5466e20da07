-- ===== src/Pacemaker.antt =====
-- pacemaker/pacemaker.go, pacemaker/timeoutController.go and pacemaker/model.go: the current view, and
-- the timeout messages that are collected towards timeout certificates. Each method runs under its
-- lock, and is one step. `entered` is what was sent on `newViewChan`, the latest first.
pub mod Views
pub mod Timeouts
pub mod Once
pub mod Wrap
use multipipelinehs.Prelude.{
  ℕ, ◌+◌, ◌*◌, ◌/◌, Bool, true, false, Option, none, some, List, [], ◌∷◌, ℕ_discrete, ltb,
  if◌then◌else◌, length, get, put,
}
use multipipelinehs.Types.{View, Seq, NodeId, ProposeType, NewViewType, Tmo, Tc, node_id_discrete}

pub record TimeoutController : Type 0 where
  pub n : ℕ
  pub timeouts : List (View × List (NodeId × Tmo))

pub record Pacemaker : Type 0 where
  pub cur_view : View
  pub cur_seq : Seq
  pub entered : List NewViewType
  pub controller : TimeoutController

unfoldable pub new_timeout_controller : ℕ → TimeoutController
new_timeout_controller n = record { n = n; timeouts = [] }

unfoldable pub new_pacemaker : ℕ → Pacemaker
unfolding new_timeout_controller
new_pacemaker n = record {
  cur_view = 0;
  cur_seq = 0;
  entered = [];
  controller = new_timeout_controller n;
}

-- `tcl.timeouts[view]`: a missing key reads as the nil map.
unfoldable pub timeouts_for : TimeoutController → View → List (NodeId × Tmo)
timeouts_for tcl view = elim (get ℕ_discrete view tcl.timeouts) [ none ↦ [] | some ts ↦ ts ]

unfoldable pub total : TimeoutController → View → ℕ
unfolding timeouts_for
total tcl view = length (timeouts_for tcl view)

unfoldable pub super_majority : TimeoutController → View → Bool
unfolding total
super_majority tcl view = ltb (tcl.n * 2 / 3) (total tcl view)

-- `NewTC`, which does not look at the messages that it is given.
unfoldable pub new_tc : View → Seq → List (NodeId × Tmo) → Tc
new_tc view seq requesters = record { view = view; seq = seq }

unfoldable pub record_tmo : TimeoutController → Tmo → TimeoutController
unfolding timeouts_for
record_tmo tcl tmo = record tcl {
  timeouts =
      put ℕ_discrete tmo.view (put node_id_discrete tmo.node_id tmo (timeouts_for tcl tmo.view))
        tcl.timeouts;
}

-- `AddTmo`: whether the certificates are built, and the first and the second one.
unfoldable pub add_tmo : TimeoutController → Tmo → TimeoutController × Bool × Option Tc × Option Tc
unfolding super_majority record_tmo new_tc
add_tmo tcl tmo =
    if super_majority tcl tmo.view
    then (tcl, false, none, none)
    else let tcl' = record_tmo tcl tmo in
      if super_majority tcl' tmo.view
      then (
        tcl',
        true,
        some (new_tc tmo.f_seq tmo.f_seq (timeouts_for tcl' tmo.view)),
        some (new_tc tmo.s_seq tmo.s_seq (timeouts_for tcl' tmo.view)),
      )
      else (tcl', false, none, none)

unfoldable pub process_remote_tmo : Pacemaker → Tmo → Pacemaker × Bool × Option Tc × Option Tc
process_remote_tmo p tmo =
    if ltb tmo.view p.cur_view
    then (p, false, none, none)
    else let (tcl, built, ftc, stc) = add_tmo p.controller tmo in
      (record p { controller = tcl }, built, ftc, stc)

-- `AdvanceView`.
unfoldable pub advance_view : Pacemaker → View → Seq → ProposeType → Pacemaker
advance_view p view seq pt = if ltb view p.cur_view then p else record p {
  cur_view = view + 1;
  cur_seq = seq + 2;
  entered = record { view = view + 1; seq = seq + 2; propose_type = pt } ∷ p.entered;
}
