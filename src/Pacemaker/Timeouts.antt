-- ===== src/Pacemaker/Timeouts.antt =====
-- `AddTmo` of pacemaker/timeoutController.go.
use multipipelinehs.Prelude.{
  suc, ◌*◌, ◌/◌, ◌≡◌, ◌↔◌, ap, true, none, some, List, ℕ_discrete, arith, length, length-put, get,
  put, get-put_self,
}
use multipipelinehs.Types.{NodeId, Tmo, node_id_discrete}
use multipipelinehs.Pacemaker.{
  TimeoutController, timeouts_for, total, super_majority, record_tmo, add_tmo,
}

module _ (tcl : TimeoutController) (tmo : Tmo) where
  -- The messages for the view of a message, after it.
  held : List (NodeId × Tmo)
  held = put node_id_discrete tmo.node_id tmo (timeouts_for tcl tmo.view)

  timeouts_for-record_tmo : timeouts_for (record_tmo tcl tmo) tmo.view ≡ held
  unfolding timeouts_for record_tmo held
  timeouts_for-record_tmo = ground (
    arith,
    get-put_self ℕ_discrete tmo.view
        (put node_id_discrete tmo.node_id tmo (timeouts_for tcl tmo.view)) tcl.timeouts,
  )

  total-record_tmo : total (record_tmo tcl tmo) tmo.view ≡ length held
  unfolding total
  total-record_tmo = ap length timeouts_for-record_tmo

  length-held : length held ≡ elim (get node_id_discrete tmo.node_id (timeouts_for tcl tmo.view)) [
    | none ↦ suc (total tcl tmo.view)
    | some _ ↦ total tcl tmo.view
  ]
  unfolding held total
  length-held = length-put node_id_discrete tmo.node_id tmo (timeouts_for tcl tmo.view)

  n-record_tmo : (record_tmo tcl tmo).n ≡ tcl.n
  unfolding record_tmo
  n-record_tmo = ground arith

  -- AddTmo builds the two certificates exactly when the controller holds no message of the sender
  -- for the view, and its messages for the view are two thirds of the replicas, rounded down.
  pub add_tmo_builds : ((add_tmo tcl tmo).1 ≡ true) ↔ (
      (get node_id_discrete tmo.node_id (timeouts_for tcl tmo.view) ≡ none)
      × (total tcl tmo.view ≡ tcl.n * 2 / 3))
  unfolding add_tmo super_majority
  add_tmo_builds = ground (arith, total-record_tmo, length-held, n-record_tmo)
