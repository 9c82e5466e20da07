-- ===== src/MtHotStuff/MessageMoves.antt =====
-- The handlers of votes and timeouts and the proposals of mthotstuff/mthotstuff.go, and what moves
-- forward.
use multipipelinehs.Prelude.{not, some, List, ltb, ◌==◌, inl, inr, Option-cases, arith}
use multipipelinehs.Types.{
  View, Seq, SignalV, Vote, Qc, Tmo, NewViewType, Payload, Block, deref, Yields, Yields-bind,
  Yields-any, if-Yields,
}
use multipipelinehs.Pacemaker
use multipipelinehs.BlockChain.{add_vote, get_block_by_id}
use multipipelinehs.Env.{Env}
use multipipelinehs.MHotStuff.{MHotStuff, update_high_tc}
use multipipelinehs.MHotStuff.Certificate.{buffer_qc}
use multipipelinehs.MHotStuff.Votes.{
  Awaited, proceed, dropped, waiting, await_signal, VoteStatus, check_vote,
}
use multipipelinehs.MHotStuff.Timeouts
use multipipelinehs.MHotStuff.Proposal
use multipipelinehs.MHotStuff.Moves.{Moves}
use multipipelinehs.MHotStuff.Handlers.{buffer_qc-Moves, clear_tcs-Moves}
use multipipelinehs.MHotStuff.MessageMoves.{
  add_vote-Moves, set_pm-Moves, process_local_tmo-Moves, make_proposal-Moves,
}
use multipipelinehs.MtHotStuff.{Mtchs}
use multipipelinehs.MtHotStuff.Certificate.{process_certificate}
use multipipelinehs.MtHotStuff.Messages.{
  release_qc, after_signals, resume_vote, process_vote, process_remote_tmo, process_local_tmo,
  make_proposal,
}
use multipipelinehs.MtHotStuff.Moves.{
  Progress, Progress-refl, Progress-trans, base-Progress, after, process_certificate-Progress,
  process_tc-Progress,
}

-- Taking signals out of the channel.
set_proposals-Moves :
    (s : MHotStuff) (rest : List SignalV) → Moves s (record s { proposals = rest })
set_proposals-Moves s rest = ground arith

module _ (env : Env) where
  release_qc-Progress : (s : Mtchs) (qc : Qc) → Yields (Progress s) (release_qc env s qc)
  unfolding release_qc
  release_qc-Progress s qc = elim (Option-cases (get_block_by_id s.base.bc qc.block_id)) [
    | inl missing ↦
        rw (missing, release_qc)
          (if-Yields (Progress s) (not (qc.view == 1)) _ _
            (base-Progress s (buffer_qc s.base qc) s.vote_type (buffer_qc-Moves s.base qc))
            (process_certificate-Progress env s qc))
    | inr (b, found) ↦ rw (found, release_qc) (process_certificate-Progress env s qc)
  ]

  after_signals-Progress :
      (s : Mtchs) (qc : Qc) (a : Awaited)
      → Yields (λ (r : Mtchs × VoteStatus). Progress s r.0) (after_signals env s qc a)
  unfolding after_signals
  after_signals-Progress s qc waiting = base-Progress s _ s.vote_type (set_proposals-Moves s.base _)
  after_signals-Progress s qc (dropped rest) =
      base-Progress s _ s.vote_type (set_proposals-Moves s.base rest)
  after_signals-Progress s qc (proceed rest) =
      let base = s.base in
      let t = record s { base = record base { proposals = rest } } in
      let to_t = base-Progress s _ s.vote_type (set_proposals-Moves base rest) in
      after s t _ to_t (
        Yields-bind (Progress t) (λ r. Progress t r.0) (release_qc env t qc) _
          (release_qc-Progress t qc) (λ u h. h))

  pub resume_vote-Progress :
      (s : Mtchs) (qc : Qc)
      → Yields (λ (r : Mtchs × VoteStatus). Progress s r.0) (resume_vote env s qc)
  unfolding resume_vote
  resume_vote-Progress s qc = after_signals-Progress s qc (await_signal qc.view s.base.proposals)

  pub process_vote-Progress :
      (s : Mtchs) (v : Vote)
      → Yields (λ (r : Mtchs × VoteStatus). Progress s r.0) (process_vote env s v)
  unfolding process_vote
  process_vote-Progress s v =
      let base = s.base in
      let t = record s { base = record base { bc = (add_vote base.bc v).0 } } in
      let to_t = base-Progress s _ s.vote_type (add_vote-Moves base v) in
      Yields-bind (λ _. Unit {0}) (λ r. Progress s r.0) (check_vote env v) _ (Yields-any _)
        (λ good _.
          if-Yields (λ r. Progress s r.0) (not good) _ _ (Progress-refl s)
            (if-Yields (λ r. Progress s r.0) (not (add_vote base.bc v).1) _ _ to_t
              (Yields-bind (λ _. Unit {0}) (λ r. Progress s r.0) (deref (add_vote base.bc v).2) _
                (Yields-any _)
                (λ qc _.
                  after s t _ to_t (resume_vote-Progress t (record qc { leader = env.id }))))))

  pub process_remote_tmo-Progress :
      (s : Mtchs) (tmo : Tmo) → Yields (Progress s) (process_remote_tmo env s tmo)
  unfolding process_remote_tmo
  process_remote_tmo-Progress s tmo =
      Yields-bind (λ _. Unit {0}) (Progress s) (deref tmo.high_qc) _ (Yields-any _)
        (λ qc _.
          Yields-bind (Progress s) (Progress s) (process_certificate env s qc) _
            (process_certificate-Progress env s qc)
            (λ t h.
              let base = t.base in
              let p = Pacemaker.process_remote_tmo base.pm tmo in
              let u = record base { pm = p.0 } in
              let moved = set_pm-Moves base tmo in
              if-Yields (Progress s) (ltb tmo.view base.pm.cur_view) _ _ h (
                if-Yields (Progress s) (not p.1) _ _
                  (Progress-trans s t _ h (base-Progress t u t.vote_type moved))
                  (Yields-bind (λ _. Unit {0}) (Progress s) (deref p.2) _ (Yields-any _)
                    (λ first _.
                      Yields-bind (λ _. Unit {0}) (Progress s) (deref p.3) _ (Yields-any _)
                        (λ second _.
                          let w = record t {
                            base = update_high_tc (update_high_tc u (some first)) (some second);
                          } in
                          Progress-trans s t _ h (
                            Progress-trans t w _
                              (base-Progress t _ t.vote_type
                                (clear_tcs-Moves env base u (some first) (some second) moved))
                              (process_tc-Progress w first))))))))

  pub process_local_tmo-Progress :
      (s : Mtchs) (view : View) (seq : Seq) → Progress s (process_local_tmo env s view seq)
  unfolding process_local_tmo
  process_local_tmo-Progress s view seq =
      base-Progress s (Timeouts.process_local_tmo env s.base view seq) s.vote_type
        (process_local_tmo-Moves env s.base view seq)

  pub make_proposal-Progress :
      (s : Mtchs) (v : NewViewType) (payload : List Payload)
      → Yields (λ (r : Mtchs × Block). Progress s r.0) (make_proposal env s v payload)
  unfolding make_proposal
  make_proposal-Progress s v payload =
      Yields-bind (λ r. Moves s.base r.0) (λ r. Progress s r.0)
        (Proposal.make_proposal env s.base v payload) _ (make_proposal-Moves env s.base v payload)
        (λ r h. base-Progress s r.0 s.vote_type h)
