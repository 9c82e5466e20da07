-- ===== src/Replica/Stale.antt =====
-- The votes and timeout messages that replica/replica.go drops.
use multipipelinehs.Prelude.{
  ◌≤◌, ◌≡◌, refl, inl, inr, ℕ, Bool, true, false, List, [], ◌∷◌, arith, ltb, if◌then◌else◌,
  Bool-cases,
}
use multipipelinehs.Types.{View, ok, Yields, Yields-mono, bind-eq}
use multipipelinehs.Env.{Env}
use multipipelinehs.Safety.{Safety, Lawful}
use multipipelinehs.Replica.{Replica, cur_view, handle_vote, handle_tmo}
use multipipelinehs.Replica.Loops.{Turn, vote_comes, tmo_comes, turn, run}
use multipipelinehs.Replica.Runs.{turn-Steps}

-- A vote or timeout message of before the view.
unfoldable pub is_stale : View → Turn → Bool
is_stale view (vote_comes v) = ltb v.seq view
is_stale view (tmo_comes tmo) = ltb tmo.view view
is_stale view _ = false

unfoldable pub drop_stale : View → List Turn → List Turn
drop_stale view [] = []
drop_stale view (t ∷ ts) = if is_stale view t then drop_stale view ts else t ∷ drop_stale view ts

module _ (env : Env) {p : Safety} (law : Lawful env p) (b_size : ℕ) where
  turn-is_stale :
      (view : View) (t : Turn) (r : Replica p)
      → view ≤ cur_view r
      → is_stale view t ≡ true
      → turn env b_size t r ≡ ok r
  unfolding is_stale turn handle_vote handle_tmo
  turn-is_stale view t r new old = ground arith

  turn-newer :
      (view : View) (t : Turn) (r : Replica p)
      → view ≤ cur_view r
      → Yields (λ u. view ≤ cur_view u) (turn env b_size t r)
  turn-newer view t r new =
      Yields-mono (λ u. law.Steps r.protocol u.protocol) (λ u. view ≤ cur_view u)
        (turn env b_size t r) (λ u h. omega (arith, (law.Steps-Announces h).newer))
        (turn-Steps env law b_size r.protocol r t law.here)

  pub run-drop_stale :
      (view : View) (ts : List Turn) (r : Replica p)
      → view ≤ cur_view r
      → run env b_size ts r ≡ run env b_size (drop_stale view ts) r
  unfolding run drop_stale
  run-drop_stale view [] r new = refl
  run-drop_stale view (t ∷ ts) r new = elim (Bool-cases (is_stale view t)) [
    | inl old ↦ rw (old, turn-is_stale view t r new old) (run-drop_stale view ts r new)
    | inr fresh ↦ rw fresh (
        bind-eq (λ u. view ≤ cur_view u) (turn env b_size t r) _ _ (turn-newer view t r new)
          (λ u h. run-drop_stale view ts u h))
  ]
