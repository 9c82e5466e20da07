-- ===== src/MtHotStuff/StageMoves.antt =====
-- The stages of `ProcessBlock` of mthotstuff/mthotstuff.go.
use multipipelinehs.Prelude.{
  ◌+◌, not, ◌&&◌, Option, none, ltb, leb, ◌==◌, inl, inr, Option-cases, get, get_elem?, ℕ_discrete,
}
use multipipelinehs.Types.{
  View, Qc, Block, deref, no_timeout, timeout_f, timeout_s, continue, SignalV, Yields, Yields-bind,
  Yields-any, if-Yields,
}
use multipipelinehs.Env.{Env, same_node}
use multipipelinehs.MHotStuff.{Returned, send_signal, advance, update_high_tc}
use multipipelinehs.MHotStuff.Blocks.{max_tc, commit_found}
use multipipelinehs.MHotStuff.Moves.{Moves, advance-Moves, send_signal-Moves}
use multipipelinehs.MHotStuff.Handlers.{clear_tcs-Moves}
use multipipelinehs.MHotStuff.ChainMoves.{unbuffer_qc-Moves, commit_found-Moves}
use multipipelinehs.MtHotStuff.{Mtchs, commit_rule}
use multipipelinehs.MtHotStuff.Certificate.{process_certificate}
use multipipelinehs.MtHotStuff.Blocks.{
  foreign_qc, foreign_tc, wake_collector, try_commit, use_buffered_qc,
}
use multipipelinehs.MtHotStuff.Moves.{
  Progress, Progress-refl, Progress-trans, base-Progress, if-Progress, process_certificate-Progress,
}

module _ (env : Env) where
  pub foreign_qc-Progress :
      (s : Mtchs) (b : Block) (qc : Qc) → Yields (Progress s) (foreign_qc env s b qc)
  unfolding foreign_qc
  foreign_qc-Progress s b qc =
      if-Yields (Progress s) (same_node b.proposer env.id) _ _ (Progress-refl s)
        (process_certificate-Progress env s qc)

  pub foreign_tc-Progress :
      (cur : View) (s : Mtchs) (b : Block) → Yields (Progress s) (foreign_tc env cur s b)
  unfolding foreign_tc
  foreign_tc-Progress cur s b = elim (Option-cases b.tc) [
    | inl none_there ↦
        rw (none_there, foreign_tc) (base-Progress s s.base no_timeout (Progress-refl s).moves)
    | inr (tc, there) ↦
        let to_f = advance s.base tc.view tc.seq timeout_f in
        let to_s = advance s.base tc.view tc.seq timeout_s in
        rw (there, foreign_tc)
          (if-Yields (Progress s) (same_node b.proposer env.id) _ _ (Progress-refl s) (
            Yields-bind (λ _. Unit {0}) (Progress s) (max_tc b) _ (Yields-any _)
              (λ last _. if-Progress (not (leb cur tc.view)) s _ _ (Progress-refl s) (
                if-Progress (tc.view + 1 == last.view) s _ _
                  (base-Progress s to_f timeout_f (advance-Moves s.base tc.view tc.seq timeout_f))
                  (if-Progress (tc.view == last.view) s _ _
                    (base-Progress s (update_high_tc (update_high_tc to_s none) none) timeout_s (
                      clear_tcs-Moves env s.base to_s none none
                        (advance-Moves s.base tc.view tc.seq timeout_s)))
                    (Progress-refl s))))))
  ]

  pub wake_collector-Progress :
      (cur : View) (s : Mtchs) (b : Block) → Yields (Progress s) (wake_collector env cur s b)
  unfolding wake_collector
  wake_collector-Progress cur s b =
      let v : SignalV = record { ope = continue; view = cur } in
      let woken =
        Yields-bind (Moves s.base) (Progress s) (send_signal s.base v) _
          (send_signal-Moves s.base v) (λ u h. base-Progress s u s.vote_type h) in
      if-Yields (Progress s) (not (env.election.is_leader env.id (cur + 1))) _ _ (Progress-refl s)
        (elim (Option-cases b.tc) [
          | inl none_there ↦ rw none_there woken
          | inr (tc, there) ↦ rw there (
              Yields-bind (λ _. Unit {0}) (Progress s) (max_tc b) _ (Yields-any _)
                (λ last _.
                  let to_s = advance s.base last.view last.seq timeout_s in
                  if-Yields (Progress s) (leb cur last.view) _ _
                    (Yields-bind (λ _. Unit {0}) (Progress s) (deref (get_elem? b.tcs 0)) _
                      (Yields-any _)
                      (λ first _.
                        Yields-bind (λ _. Unit {0}) (Progress s) (deref (get_elem? b.tcs 1)) _
                          (Yields-any _)
                          (λ second _.
                            base-Progress s (update_high_tc (update_high_tc to_s first) second)
                              timeout_s
                              (clear_tcs-Moves env s.base to_s first second
                                (advance-Moves s.base last.view last.seq timeout_s)))))
                    woken))
        ])

  pub try_commit-Progress :
      (s : Mtchs) (b : Block) (qc : Qc)
      → Yields (λ (r : Mtchs × Option Returned). Progress s r.0) (try_commit env s b qc)
  unfolding try_commit
  try_commit-Progress s b qc =
      if-Yields (λ r. Progress s r.0) (not (ltb 3 qc.view && (qc.seq + 2 == b.seq))) _ _
        (Progress-refl s)
        (Yields-bind (λ _. Unit {0}) (λ r. Progress s r.0) (commit_rule s qc) _ (Yields-any _)
          (λ o _.
            Yields-bind (λ r. Moves s.base r.0) (λ r. Progress s r.0) (commit_found s.base o) _
              (commit_found-Moves s.base o) (λ r h. base-Progress s r.0 s.vote_type h)))

  pub use_buffered_qc-Progress :
      (s : Mtchs) (b : Block) → Yields (Progress s) (use_buffered_qc env s b)
  unfolding use_buffered_qc
  use_buffered_qc-Progress s b = elim (Option-cases (get ℕ_discrete b.id s.base.buffered_qcs)) [
    | inl free ↦ rw (free, use_buffered_qc) (Progress-refl s)
    | inr (qc, held) ↦
        rw (held, use_buffered_qc)
          (Yields-bind (Progress s) (Progress s) (process_certificate env s qc) _
            (process_certificate-Progress env s qc)
            (λ t h.
              Progress-trans s t _ h
                (base-Progress t _ t.vote_type (unbuffer_qc-Moves t.base b.id))))
  ]
