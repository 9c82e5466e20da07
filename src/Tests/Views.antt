-- ===== src/Tests/Views.antt =====
-- The pacemaker of four replicas; pacemaker/pacemaker_test.go among the runs.
use Prim.Native.Nat.{◌^◌}
use multipipelinehs.Prelude.{
  ◌-◌, ◌<◌, List, arith, All, ℕ, ◌*◌, ◌/◌, ◌≡◌, ◌↔◌, refl, true, false, none, [], ◌∷◌, get, put,
  ℕ_discrete,
}
use multipipelinehs.Types.{Fits, Tmo, no_timeout, timeout_f, node_id_discrete}
use multipipelinehs.Pacemaker.{
  Pacemaker, TimeoutController, new_pacemaker, advance_view, add_tmo, timeouts_for, total,
  process_remote_tmo,
}
use multipipelinehs.Pacemaker.Wrap.{advance_int, advance_int-wraps}
use multipipelinehs.Pacemaker.Views.{
  Advance, IsSteady, start, next, advance, remote_tmo, Reach-IsSteady,
}
use multipipelinehs.Pacemaker.Timeouts.{add_tmo_builds}
use multipipelinehs.Pacemaker.Once.{add_tmo_once}

abbrev tmo_of : ℕ → Tmo
tmo_of digit = record { view = 2; f_seq = 5; s_seq = 6; node_id = digit ∷ []; high_qc = none }

abbrev two_tmos : TimeoutController
two_tmos = record {
  n = 4;
  timeouts = (2, (b'1' ∷ [], tmo_of b'1') ∷ (b'2' ∷ [], tmo_of b'2') ∷ []) ∷ [];
}

second_tmo : (add_tmo (record two_tmos { timeouts = [] }) (tmo_of b'1')).1 ≡ false
unfolding add_tmo get put ℕ_discrete node_id_discrete
second_tmo = refl

third_tmo : (add_tmo two_tmos (tmo_of b'3')).1 ≡ true
unfolding add_tmo get put ℕ_discrete node_id_discrete
third_tmo = refl

fourth_tmo : (add_tmo (add_tmo two_tmos (tmo_of b'3')).0 (tmo_of b'4')).1 ≡ false
unfolding add_tmo get put ℕ_discrete node_id_discrete
fourth_tmo = refl

add_tmo_builds_example : ((add_tmo two_tmos (tmo_of b'3')).1 ≡ true) ↔ (
    (get node_id_discrete (b'3' ∷ []) (timeouts_for two_tmos 2) ≡ none)
    × (total two_tmos 2 ≡ 4 * 2 / 3))
add_tmo_builds_example = add_tmo_builds two_tmos (tmo_of b'3')

add_tmo_once_example :
    (let t = (add_tmo two_tmos (tmo_of b'3')).0 in add_tmo t (tmo_of b'4') ≡ (t, false, none, none))
add_tmo_once_example = add_tmo_once two_tmos (tmo_of b'3') (tmo_of b'4') [] refl third_tmo

abbrev last_pacemaker : Pacemaker
last_pacemaker =
    (process_remote_tmo (advance_view (advance_view (new_pacemaker 4) 1 2 no_timeout) 0 9 timeout_f)
      (tmo_of b'1')).0

last-Fits : Fits last_pacemaker.cur_view
unfolding process_remote_tmo advance_view new_pacemaker
last-Fits = omega arith

Reach-IsSteady_example : IsSteady last_pacemaker × All (λ e. Fits e.view) last_pacemaker.entered
Reach-IsSteady_example =
    Reach-IsSteady 4
      (next (next (next start (advance 1 2 no_timeout)) (advance 0 9 timeout_f))
        (remote_tmo (tmo_of b'1')))
      last-Fits

abbrev late_calls : List Advance
late_calls =
    record { view = 4; seq = 8; propose_type = no_timeout }
    ∷ record { view = 2; seq = 4; propose_type = timeout_f }
    ∷ []

new_small : (new_pacemaker 4).cur_view < 2 ^ 63
unfolding new_pacemaker
new_small = omega arith

advance_int-wraps_example :
    ((advance_int (new_pacemaker 4) (2 ^ 63 - 1) 2 no_timeout).cur_view ≡ 2 ^ 63)
    × ((advance_int
          (advance_int (new_pacemaker 4) (2 ^ 63 - 1) 2 no_timeout)
          0
          2
          no_timeout).cur_view
        ≡ 1)
advance_int-wraps_example =
    advance_int-wraps (new_pacemaker 4) 0 2 2 no_timeout no_timeout new_small (omega arith)
