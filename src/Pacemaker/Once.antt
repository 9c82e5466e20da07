-- ===== src/Pacemaker/Once.antt =====
-- Sequences of timeout messages at pacemaker/timeoutController.go.
use multipipelinehs.Prelude.{
  ◌≤◌, ◌≡◌, true, false, none, List, [], ◌∷◌, ℕ_discrete, arith, length-put, get-put_self,
  get-put_ne, put,
}
use multipipelinehs.Types.{View, Tmo, node_id_discrete}
use multipipelinehs.Pacemaker.{
  TimeoutController, timeouts_for, total, super_majority, record_tmo, add_tmo,
}

-- The controller after some messages, in their order.
abbrev pub add_all : TimeoutController → List Tmo → TimeoutController
add_all tcl [] = tcl
add_all tcl (m ∷ ms) = add_all (add_tmo tcl m).0 ms

total-record_tmo_mono :
    (tcl : TimeoutController) (m : Tmo) (view : View)
    → total tcl view ≤ total (record_tmo tcl m) view
unfolding total timeouts_for record_tmo
total-record_tmo_mono tcl m view =
    let held = put node_id_discrete m.node_id m (timeouts_for tcl m.view) in
    elim (ℕ_discrete m.view view) [
      | yes same ↦ ground (
        arith,
        get-put_self ℕ_discrete m.view held tcl.timeouts,
        length-put node_id_discrete m.node_id m (timeouts_for tcl m.view),
      )
      | no other ↦ ground (arith, get-put_ne ℕ_discrete m.view view held tcl.timeouts other)
    ]

super_majority-add_tmo :
    (tcl : TimeoutController) (m : Tmo) (view : View)
    → super_majority tcl view ≡ true
    → super_majority (add_tmo tcl m).0 view ≡ true
unfolding super_majority add_tmo record_tmo
super_majority-add_tmo tcl m view h = ground (arith, total-record_tmo_mono tcl m view)

super_majority-add_all :
    (tcl : TimeoutController) (ms : List Tmo) (view : View)
    → super_majority tcl view ≡ true
    → super_majority (add_all tcl ms) view ≡ true
super_majority-add_all tcl [] view h = h
super_majority-add_all tcl (m ∷ ms) view h =
    super_majority-add_all (add_tmo tcl m).0 ms view (super_majority-add_tmo tcl m view h)

super_majority-built :
    (tcl : TimeoutController) (m : Tmo)
    → (add_tmo tcl m).1 ≡ true
    → super_majority (add_tmo tcl m).0 m.view ≡ true
unfolding add_tmo
super_majority-built tcl m e = ground arith

-- After a message has built the timeout certificates of its view, no message for that view builds
-- them again or changes the controller, whatever messages were added in between.
pub add_tmo_once :
    (tcl : TimeoutController) (m o : Tmo) (between : List Tmo)
    → o.view ≡ m.view
    → (add_tmo tcl m).1 ≡ true
    → (let t = add_all (add_tmo tcl m).0 between in add_tmo t o ≡ (t, false, none, none))
unfolding add_tmo
add_tmo_once tcl m o between same built = ground (
  arith,
  super_majority-add_all (add_tmo tcl m).0 between m.view (super_majority-built tcl m built),
)
