-- ===== src/MHotStuff/MessageMoves.antt =====
-- The handlers of votes and timeouts and the proposals of mhotstuff/mhotstuff.go, and what moves forward.
use multipipelinehs.Prelude.{
  ◌&&◌, not, some, List, [], ◌==◌, arith, inl, inr, if◌then◌else◌, Option-cases,
}
use multipipelinehs.Types.{
  View, Seq, SignalV, Qc, Tmo, Vote, NewViewType, Payload, ok, Yields-bind, Yields-any, if-Yields,
  ◌>>=◌, deref,
}
use multipipelinehs.Pacemaker
use multipipelinehs.BlockChain.{add_vote, get_block_by_id}
use multipipelinehs.Env.{Env, make_block}
use multipipelinehs.MHotStuff.{has_room, MHotStuff, send, signal, update_high_tc}
use multipipelinehs.MHotStuff.Certificate.{process_certificate, process_tc}
use multipipelinehs.MHotStuff.Votes.{
  Awaited, waiting, dropped, proceed, await_signal, release_qc, after_signals, resume_vote,
  check_vote, process_vote,
}
use multipipelinehs.MHotStuff.Timeouts.{process_remote_tmo, process_local_tmo}
use multipipelinehs.MHotStuff.Proposal.{drops_qc, choose, make_proposal}
use multipipelinehs.MHotStuff.Moves.{Moves, Moves-refl, Moves-trans}
use multipipelinehs.MHotStuff.Handlers.{
  Forward, Forward₂, process_certificate-Moves, buffer_qc-Moves, process_tc-Moves, clear_tcs-Moves,
}
use multipipelinehs.MHotStuff.ChainMoves.{after}

pub add_vote-Moves : (s : MHotStuff) (v : Vote) → Moves s (record s { bc = (add_vote s.bc v).0 })
unfolding add_vote
add_vote-Moves s v = ground arith

pub set_pm-Moves :
    (s : MHotStuff) (tmo : Tmo)
    → Moves s (record s { pm = (Pacemaker.process_remote_tmo s.pm tmo).0 })
unfolding Pacemaker.process_remote_tmo
set_pm-Moves s tmo = ground arith

pub choose-Moves : (s : MHotStuff) (v : NewViewType) → Moves s (choose s v).state
unfolding choose signal update_high_tc
choose-Moves s v = ground arith

pub process_local_tmo-Moves :
    (env : Env) (s : MHotStuff) (v : View) (q : Seq) → Moves s (process_local_tmo env s v q)
unfolding process_local_tmo send
process_local_tmo-Moves env s v q = ground arith

take_signals-Moves : (s : MHotStuff) (rest : List SignalV) → Moves s (record s { proposals = rest })
take_signals-Moves s rest = ground arith

module _ (env : Env) where
  pub make_proposal-Moves :
      (s : MHotStuff) (v : NewViewType) (payload : List Payload)
      → Forward₂ s (make_proposal env s v payload)
  unfolding make_proposal
  make_proposal-Moves s v payload =
      let c = choose s v in
      if-Yields (λ r. Moves s r.0) (drops_qc v && not (has_room s)) _ _ tt
        (Yields-bind (λ _. Unit {0}) (λ r. Moves s r.0)
          (make_block env v.view v.seq (some c.qc) c.tc c.tcs c.prev_id payload env.id) _
          (Yields-any _) (λ _ _. choose-Moves s v))

  release_qc-Moves : (s : MHotStuff) (qc : Qc) → Forward s (release_qc env s qc)
  unfolding release_qc
  release_qc-Moves s qc = elim (Option-cases (get_block_by_id s.bc qc.block_id)) [
    | inl absent ↦
        rw (absent, release_qc)
          (if-Yields (Moves s) (not (qc.view == 1)) _ _ (buffer_qc-Moves s qc)
            (process_certificate-Moves env s qc))
    | inr (b, there) ↦ rw (there, release_qc) (process_certificate-Moves env s qc)
  ]

  awaited-Moves : (s : MHotStuff) (qc : Qc) (a : Awaited) → Forward₂ s (after_signals env s qc a)
  unfolding after_signals
  awaited-Moves s qc waiting = take_signals-Moves s []
  awaited-Moves s qc (dropped rest) = take_signals-Moves s rest
  awaited-Moves s qc (proceed rest) =
      let t = record s { proposals = rest } in
      after s t _ (take_signals-Moves s rest) (
        Yields-bind (Moves t) (λ r. Moves t r.0) (release_qc env t qc) _ (release_qc-Moves t qc)
          (λ u h. h))

  pub resume_vote-Moves : (s : MHotStuff) (qc : Qc) → Forward₂ s (resume_vote env s qc)
  unfolding resume_vote
  resume_vote-Moves s qc = awaited-Moves s qc (await_signal qc.view s.proposals)

  pub process_vote-Moves : (s : MHotStuff) (v : Vote) → Forward₂ s (process_vote env s v)
  unfolding process_vote
  process_vote-Moves s v =
      let t = record s { bc = (add_vote s.bc v).0 } in
      Yields-bind (λ _. Unit {0}) (λ r. Moves s r.0) (check_vote env v) _ (Yields-any _)
        (λ good _.
          if-Yields (λ r. Moves s r.0) (not good) _ _ (Moves-refl s)
            (after s t _ (add_vote-Moves s v) (
              if-Yields (λ r. Moves t r.0) (not (add_vote s.bc v).1) _ _ (Moves-refl t)
                (Yields-bind (λ _. Unit {0}) (λ r. Moves t r.0) (deref (add_vote s.bc v).2) _
                  (Yields-any _) (λ qc _. resume_vote-Moves t (record qc { leader = env.id }))))))

  pub process_remote_tmo-Moves :
      (s : MHotStuff) (tmo : Tmo) → Forward s (process_remote_tmo env s tmo)
  unfolding process_remote_tmo
  process_remote_tmo-Moves s tmo =
      Yields-bind (λ _. Unit {0}) (Moves s) (deref tmo.high_qc) _ (Yields-any _)
        (λ qc _.
          Yields-bind (Moves s) (Moves s) (process_certificate env s qc) _
            (process_certificate-Moves env s qc) (λ t h. after_certificate t h))
    where
      after_certificate :
          (t : MHotStuff)
          → Moves s t
          → (let (pm, built, ftc, stc) = Pacemaker.process_remote_tmo t.pm tmo in
              let u = record t { pm = pm } in
              Forward s (
                if not built
                then ok u
                else (deref ftc >>= λ first. deref stc >>= λ second. ok (
                    process_tc
                      (update_high_tc (update_high_tc u (some first)) (some second))
                      first))))
      after_certificate t h =
          let r = Pacemaker.process_remote_tmo t.pm tmo in
          let u = record t { pm = r.0 } in
          let to_u = Moves-trans s t u h (set_pm-Moves t tmo) in
          if-Yields (Moves s) (not r.1) _ _ to_u (
            Yields-bind (λ _. Unit {0}) (Moves s) (deref r.2) _ (Yields-any _)
              (λ first _.
                Yields-bind (λ _. Unit {0}) (Moves s) (deref r.3) _ (Yields-any _)
                  (λ second _.
                    let v = update_high_tc (update_high_tc u (some first)) (some second) in
                    Moves-trans s v _ (clear_tcs-Moves env s u (some first) (some second) to_u)
                      (process_tc-Moves v first))))
