-- ===== src/MHotStuff/BlockMoves.antt =====
-- `ProcessBlock` of mhotstuff/mhotstuff.go and what moves forward, from its stages up.
use multipipelinehs.Prelude.{
  ltb→lt, ℕ, zero, suc, ◌+◌, Bool, true, false, not, ◌&&◌, Option, none, some, arith, ltb, leb, inl,
  inr, Bool-cases, Option-cases, ℕ_discrete, length, ◌==◌, get, get_elem?,
}
use multipipelinehs.Types.{
  View, Qc, Block, continue, Result, Yields-bind, Yields-any, if-Yields, ◌>>=◌, deref, timeout_s,
}
use multipipelinehs.BlockChain.{BlockChain, add_block}
use multipipelinehs.BlockChain.Commit.{Advances}
use multipipelinehs.Env.{Env, same_node, make_vote}
use multipipelinehs.MHotStuff.{
  MHotStuff, clean, self_vote, send_vote, Returned, send, advance, update_high_block, voting_rule,
  commit_rule,
}
use multipipelinehs.MHotStuff.Certificate.{process_certificate}
use multipipelinehs.MHotStuff.Blocks.{
  max_tc, run_buffered, vote_on, after_commit, check_block, foreign_qc, foreign_tc, wake_collector,
  try_commit, use_buffered_qc, cast_vote, vote_stage, commit_stage, store_stage, process_block_with,
  process_block_fuel, process_block,
}
use multipipelinehs.MHotStuff.Moves.{
  Moves, Moves-refl, Moves-trans, advance-Moves, send_signal-Moves, send-Moves,
  update_high_block-Moves,
}
use multipipelinehs.MHotStuff.Handlers.{
  Forward, Forward₂, if-Moves, buffer_block-Moves, process_certificate-Moves, foreign_qc-Moves,
  foreign_tc-Moves, clear_tcs-Moves,
}
use multipipelinehs.MHotStuff.ChainMoves.{
  chain-Moves, unbuffer_block-Moves, unbuffer_qc-Moves, commit_found-Moves, add_block-Advances,
  if-Yields_then, after,
}

module _ (env : Env) where
  wake_collector-Moves :
      (cur : View) (s : MHotStuff) (b : Block) → Forward s (wake_collector env cur s b)
  unfolding wake_collector
  wake_collector-Moves cur s b =
      let woken = send_signal-Moves s (record { ope = continue; view = cur }) in
      if-Yields (Moves s) (not (env.election.is_leader env.id (cur + 1))) _ _ (Moves-refl s)
        (elim (Option-cases b.tc) [
          | inl none_there ↦ rw none_there woken
          | inr (tc, there) ↦ rw there (
              Yields-bind (λ _. Unit {0}) (Moves s) (max_tc b) _ (Yields-any _)
                (λ last _.
                  if-Yields (Moves s) (leb cur last.view) _ _
                    (Yields-bind (λ _. Unit {0}) (Moves s) (deref (get_elem? b.tcs 0)) _
                      (Yields-any _)
                      (λ first _.
                        Yields-bind (λ _. Unit {0}) (Moves s) (deref (get_elem? b.tcs 1)) _
                          (Yields-any _)
                          (λ second _.
                            clear_tcs-Moves env s (advance s last.view last.seq timeout_s) first
                              second (advance-Moves s last.view last.seq timeout_s))))
                    woken))
        ])

  try_commit-Moves : (s : MHotStuff) (b : Block) (qc : Qc) → Forward₂ s (try_commit env s b qc)
  unfolding try_commit
  try_commit-Moves s b qc = elim (Bool-cases (ltb 5 qc.seq && (qc.seq + 2 == b.seq))) [
    | inr early ↦ rw (early, try_commit) (Moves-refl s)
    | inl due ↦
        rw (due, try_commit)
          (Yields-bind (λ _. Unit {0}) (λ r. Moves s r.0) (commit_rule s qc) _ (Yields-any _)
            (λ o _. commit_found-Moves s o))
  ]

  use_buffered_qc-Moves : (s : MHotStuff) (b : Block) → Forward s (use_buffered_qc env s b)
  unfolding use_buffered_qc
  use_buffered_qc-Moves s b = elim (Option-cases (get ℕ_discrete b.id s.buffered_qcs)) [
    | inl free ↦ rw (free, use_buffered_qc) (Moves-refl s)
    | inr (qc, held) ↦
        rw (held, use_buffered_qc)
          (Yields-bind (Moves s) (Moves s) (process_certificate env s qc) _
            (process_certificate-Moves env s qc)
            (λ t h. Moves-trans s t _ h (unbuffer_qc-Moves t b.id)))
  ]

  pub cast_vote-Moves : (s : MHotStuff) (b : Block) → Forward s (cast_vote env s b)
  unfolding cast_vote
  cast_vote-Moves s b =
      Yields-bind (λ _. Unit {0}) (Moves s) (make_vote env b.view b.seq env.id b.id) _
        (Yields-any _)
        (λ vote _.
          if-Moves (same_node (env.election.find_leader_for (b.view + 2)) env.id) s _ _
            (send-Moves s (self_vote vote)) (send-Moves s (send_vote _ vote)))

  module _ (again : MHotStuff → Block → Result (MHotStuff × Returned))
      (again-Moves : (s : MHotStuff) (b : Block) → Forward₂ s (again s b)) where
    run_buffered-Moves :
        (s : MHotStuff) (b : Block) (o : Option Block) → Forward₂ s (run_buffered env again s b o)
    unfolding run_buffered
    run_buffered-Moves s b none = Moves-refl s
    run_buffered-Moves s b (some next) =
        Yields-bind (λ r. Moves s r.0) (λ r. Moves s r.0) (again s next) _ (again-Moves s next)
          (λ r h. Moves-trans s r.0 _ h (unbuffer_block-Moves r.0 b.view))

    vote_on-Moves :
        (s : MHotStuff) (b : Block) (o : Option Bool) → Forward₂ s (vote_on env again s b o)
    unfolding vote_on
    vote_on-Moves s b none = Moves-refl s
    vote_on-Moves s b (some false) = Moves-refl s
    vote_on-Moves s b (some true) =
        Yields-bind (Moves s) (λ r. Moves s r.0) (cast_vote env s b) _ (cast_vote-Moves s b)
          (λ t h. after s t _ h (run_buffered-Moves t b _))

    after_commit-Moves :
        (s : MHotStuff) (b : Block) (r : MHotStuff × Option Returned)
        → Moves s r.0
        → Forward₂ s (after_commit env again b r)
    unfolding after_commit vote_stage
    after_commit-Moves s b (t, some r) h = h
    after_commit-Moves s b (t, none) h = after s t _ h (
        Yields-bind (Moves t) (λ r. Moves t r.0) (use_buffered_qc env t b) _
          (use_buffered_qc-Moves t b)
          (λ u k. after t u _ k (
            Yields-bind (λ _. Unit {0}) (λ r. Moves u r.0) (voting_rule u b) _ (Yields-any _)
              (λ o _. vote_on-Moves u b o))))

    store_stage-Moves :
        (s : MHotStuff) (b : Block) (qc : Qc) → Forward₂ s (store_stage env again s b qc)
    unfolding store_stage commit_stage
    store_stage-Moves s b qc =
        if-Yields (λ r. Moves s r.0) (ltb b.view s.pm.cur_view) _ _ (Moves-refl s)
          (if-Yields (λ r. Moves s r.0) (not (env.election.is_leader b.proposer b.view)) _ _
            (Moves-refl s)
            (Yields-bind (Advances s.bc) (λ r. Moves s r.0) (add_block s.bc b) _
              (add_block-Advances s.bc b) (λ bc h. stored bc h)))
      where
        stored :
            (bc : BlockChain)
            → Advances s.bc bc
            → (let u = send (update_high_block (record s { bc = bc }) b) (clean b) in
                Forward₂ s
                  (wake_collector env s.pm.cur_view u b >>= λ t. commit_stage env again t b qc))
        stored bc h =
            let s' = record s { bc = bc } in
            let u = send (update_high_block s' b) (clean b) in
            let to_u = Moves-trans s s' u (chain-Moves s bc h) (
              Moves-trans s' _ u (update_high_block-Moves s' b)
                (send-Moves (update_high_block s' b) (clean b))) in
            after s u _ to_u (
              Yields-bind (Moves u) (λ r. Moves u r.0) (wake_collector env s.pm.cur_view u b) _
                (wake_collector-Moves s.pm.cur_view u b)
                (λ t k. after u t _ k (
                  Yields-bind (λ r. Moves t r.0) (λ r. Moves t r.0) (try_commit env t b qc) _
                    (try_commit-Moves t b qc) (λ r m. after_commit-Moves t b r m))))

    process_block_with-Moves :
        (s : MHotStuff) (b : Block) → Forward₂ s (process_block_with env again s b)
    unfolding process_block_with
    process_block_with-Moves s b =
        Yields-bind (λ _. Unit {0}) (λ r. Moves s r.0) (deref b.qc) _ (Yields-any _)
          (λ qc _.
            if-Yields_then (λ r. Moves s r.0) (ltb (s.pm.cur_view + 1) b.view) _ _
              (λ late.
                buffer_block-Moves s b (omega (arith, ltb→lt (s.pm.cur_view + 1) b.view late)))
              (Yields-bind (λ _. Unit {0}) (λ r. Moves s r.0) (check_block env b) _ (Yields-any _)
                (λ _ _.
                  Yields-bind (Moves s) (λ r. Moves s r.0) (foreign_qc env s b qc) _
                    (foreign_qc-Moves env s b qc)
                    (λ t h. after s t _ h (
                      Yields-bind (Moves t) (λ r. Moves t r.0) (foreign_tc env s.pm.cur_view t b) _
                        (foreign_tc-Moves env s.pm.cur_view t b)
                        (λ u k. after t u _ k (store_stage-Moves u b qc)))))))

  process_block_fuel-Moves :
      (fuel : ℕ) (s : MHotStuff) (b : Block) → Forward₂ s (process_block_fuel env fuel s b)
  unfolding process_block_fuel
  process_block_fuel-Moves zero s b = tt
  process_block_fuel-Moves (suc fuel) s b =
      process_block_with-Moves (process_block_fuel env fuel) (process_block_fuel-Moves fuel) s b

  pub process_block-Moves : (s : MHotStuff) (b : Block) → Forward₂ s (process_block env s b)
  unfolding process_block
  process_block-Moves s b = process_block_fuel-Moves (length s.buffered_blocks + 1) s b
