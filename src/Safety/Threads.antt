-- ===== src/Safety/Threads.antt =====
-- mthotstuff/mthotstuff.go as the protocol of a replica.
use multipipelinehs.MHotStuff.Proposal.{drops}
use multipipelinehs.Prelude.{◌+◌, ◌≤◌, length, [], ◌∷◌, ℕ, ◌≡◌, refl, List}
use multipipelinehs.Types.{Block, NewViewType, Payload, ok, >>=-eq-ok, ok-injective}
use multipipelinehs.Crypto.{key_index}
use multipipelinehs.Env.{Env}
use multipipelinehs.Safety.{Room, Safety, Proposes, Lawful}
use multipipelinehs.Safety.Pipeline.{
  emptied-signals, make_proposal-signals, Moves-Announces, start_empty, start-IsSteady, emptied-pm,
  advance-pm, make_proposal-Proposes, make_proposal-pm, make_proposal-ok,
}
use multipipelinehs.MHotStuff.{advance, emptied}
use multipipelinehs.MHotStuff.Proposal
use multipipelinehs.MtHotStuff.{Mtchs, new_mtchs}
use multipipelinehs.MtHotStuff.Blocks.{process_block}
use multipipelinehs.MtHotStuff.Messages.{
  process_vote, resume_vote, process_remote_tmo, process_local_tmo, make_proposal,
}
use multipipelinehs.MtHotStuff.Reach.{Step, Steps, here, next, Steps-trans, Steps-Progress}

module _ (env : Env) where
  abbrev pub mthotstuff : Safety
  mthotstuff = record {
    State = Mtchs;
    new_state = new_mtchs;
    process_block = process_block env;
    process_vote = process_vote env;
    resume_vote = resume_vote env;
    process_remote_tmo = process_remote_tmo env;
    process_local_tmo = process_local_tmo env;
    make_proposal = make_proposal env;
    pm = λ s. s.base.pm;
    advance = λ s v q pt. record s { base = advance s.base v q pt };
    sent = λ s. s.base.sent;
    signals = λ s. s.base.proposals;
    emptied = λ s. record s { base = emptied s.base };
  }

  proposal-Proposes :
      (s : Mtchs) (v : NewViewType) (payload : List Payload) (r : Mtchs × Block)
      → make_proposal env s v payload ≡ ok r
      → Proposes env v r.1
  unfolding make_proposal
  proposal-Proposes s v payload r e =
      let (q, done, made) =
        >>=-eq-ok (λ q. ok (record s { base = q.0 }, q.1))
          (Proposal.make_proposal env s.base v payload) e in
      rw (← ok-injective r done) (make_proposal-Proposes env s.base v payload q made)

  proposal-pm :
      (s : Mtchs) (v : NewViewType) (payload : List Payload) (r : Mtchs × Block)
      → make_proposal env s v payload ≡ ok r
      → r.0.base.pm ≡ s.base.pm
  unfolding make_proposal
  proposal-pm s v payload r e =
      let (q, done, made) =
        >>=-eq-ok (λ q. ok (record s { base = q.0 }, q.1))
          (Proposal.make_proposal env s.base v payload) e in
      rw (← ok-injective r done) (make_proposal-pm env s.base v payload q made)

  proposal-signals :
      (s : Mtchs) (v : NewViewType) (payload : List Payload) (r : Mtchs × Block)
      → make_proposal env s v payload ≡ ok r
      → length r.0.base.proposals ≤ length s.base.proposals + drops (v ∷ [])
  unfolding make_proposal
  proposal-signals s v payload r e =
      let (q, done, made) =
        >>=-eq-ok (λ q. ok (record s { base = q.0 }, q.1))
          (Proposal.make_proposal env s.base v payload) e in
      rw (← ok-injective r done) (make_proposal-signals env s.base v payload q made)

  proposal-ok :
      (s : Mtchs) (v : NewViewType) (payload : List Payload) (k : ℕ)
      → key_index env.n env.id ≡ ok k
      → Room (length s.base.proposals) (v ∷ [])
      → (r : Mtchs × Block) × (make_proposal env s v payload ≡ ok r)
  unfolding make_proposal
  proposal-ok s v payload k e room =
      let (q, made) = make_proposal-ok env s.base v payload k e room in
      ((record s { base = q.0 }, q.1), rw made refl)

  pub mthotstuff-Lawful : Lawful env mthotstuff
  unfolding new_mtchs
  mthotstuff-Lawful = record {
    Steps = Steps env;
    here = here;
    blocks = λ b r st e. next st (Step.blocks b r e);
    votes = λ v r st e. next st (Step.votes v r e);
    resumes = λ qc r st e. next st (Step.resumes qc r e);
    remote_tmos = λ tmo u st e. next st (Step.remote_tmos tmo u e);
    local_tmos = λ v q st. next st (Step.local_tmos v q);
    proposes = λ v payload r st e. next st (Step.proposes v payload r e);
    advances = λ v q pt st. next st (Step.kick v q pt);
    empties = λ st. next st Step.delivers;
    trans = Steps-trans env;
    Steps-Announces = λ st. Moves-Announces (Steps-Progress env st).moves;
    start = start_empty;
    start_steady = start-IsSteady;
    emptied-pm = λ s. emptied-pm s.base;
    advance-pm = λ s. advance-pm s.base;
    made = proposal-Proposes;
    made-pm = proposal-pm;
    made-signals = proposal-signals;
    emptied-signals = λ s. emptied-signals s.base;
    makes = proposal-ok;
  }
