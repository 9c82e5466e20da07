-- ===== src/Safety/Pipeline.antt =====
-- mhotstuff/mhotstuff.go as the protocol of a replica.
use multipipelinehs.Prelude.{
  ◌+◌, ◌≤◌, false, not, ◌&&◌, length, length-append, ◌∷◌, ℕ, ◌≡◌, refl, some, Option, List, [],
  arith, inl, inr,
}
use multipipelinehs.Types.{
  drop, blocked, past_guard, Identifier, ProposeType, View, Seq, Qc, Tc, Block, NewViewType,
  Payload, ok, >>=-eq-ok, Result-cases, ok-injective,
}
use multipipelinehs.Crypto.{key_index, priv_sign}
use multipipelinehs.Pacemaker.{new_pacemaker, advance_view}
use multipipelinehs.Pacemaker.Views.{IsSteady}
use multipipelinehs.Env.{Env, make_block}
use multipipelinehs.Safety.{Room, Safety, Announces, Proposes, Lawful}
use multipipelinehs.MHotStuff.{
  has_room, MHotStuff, new_mhotstuff, advance, emptied, signal, update_high_tc,
}
use multipipelinehs.MHotStuff.Moves.{Moves}
use multipipelinehs.MHotStuff.Blocks.{process_block}
use multipipelinehs.MHotStuff.Votes.{process_vote, resume_vote}
use multipipelinehs.MHotStuff.Timeouts.{process_remote_tmo, process_local_tmo}
use multipipelinehs.MHotStuff.Proposal.{drops_qc, drops, choose, make_proposal}
use multipipelinehs.MHotStuff.Reach.{Step, Steps, here, next, Steps-trans, Steps-Moves}

pub Moves-Announces : {s t : MHotStuff} → Moves s t → Announces s.pm t.pm
Moves-Announces h = record { newer = h.view; announced = h.announced; steady = h.steady }

-- What `MakeBlock` gives, if its signature is made.
make_block-fields :
    (env : Env) (view : View) (seq : Seq) (qc : Option Qc) (tc : Option Tc) (tcs : List (Option Tc))
    (prev_id : Identifier) (payload : List Payload) (b : Block)
    → make_block env view seq qc tc tcs prev_id payload env.id ≡ ok b
    → (b.view ≡ view) × (b.seq ≡ seq) × (b.proposer ≡ env.id)
unfolding make_block
make_block-fields env view seq qc tc tcs prev_id payload b e = ground arith

make_block-ok :
    (env : Env) (view : View) (seq : Seq) (qc : Option Qc) (tc : Option Tc) (tcs : List (Option Tc))
    (prev_id : Identifier) (payload : List Payload) (k : ℕ)
    → key_index env.n env.id ≡ ok k
    → (b : Block) × (make_block env view seq qc tc tcs prev_id payload env.id ≡ ok b)
unfolding make_block priv_sign
make_block-ok env view seq qc tc tcs prev_id payload k e =
    elim (Result-cases (make_block env view seq qc tc tcs prev_id payload env.id)) [
      | inl done ↦ done
      | inr (f, failed) ↦ absurd (ground arith)
    ]

pub start_empty : (n : ℕ) → (new_mhotstuff n).pm.entered ≡ []
unfolding new_mhotstuff new_pacemaker
start_empty n = refl

pub start-IsSteady : (n : ℕ) → IsSteady (new_mhotstuff n).pm
unfolding new_mhotstuff new_pacemaker
start-IsSteady n = (refl, refl)

pub emptied-pm : (s : MHotStuff) → (emptied s).pm ≡ s.pm
unfolding emptied
emptied-pm s = refl

pub advance-pm :
    (s : MHotStuff) (v : View) (q : Seq) (pt : ProposeType)
    → (advance s v q pt).pm ≡ advance_view s.pm v q pt
unfolding advance
advance-pm s v q pt = refl

choose-pm : (s : MHotStuff) (v : NewViewType) → (choose s v).state.pm ≡ s.pm
unfolding choose signal update_high_tc
choose-pm s v = ground arith

choose-signals :
    (s : MHotStuff) (v : NewViewType)
    → length (choose s v).state.proposals ≡ length s.proposals + drops (v ∷ [])
unfolding choose signal update_high_tc drops_qc
choose-signals s v =
    ground (arith, length-append s.proposals (record { ope = drop; view = v.view } ∷ []))

-- With room for its signal, a proposal does not wait.
room-passes :
    (s : MHotStuff) (v : NewViewType)
    → Room (length s.proposals) (v ∷ [])
    → (drops_qc v && not (has_room s)) ≡ false
unfolding has_room
room-passes s v h = ground arith

pub emptied-signals : (s : MHotStuff) → (emptied s).proposals ≡ s.proposals
unfolding emptied
emptied-signals s = refl

module _ (env : Env) where
  abbrev pub mhotstuff : Safety
  mhotstuff = record {
    State = MHotStuff;
    new_state = new_mhotstuff;
    process_block = process_block env;
    process_vote = process_vote env;
    resume_vote = resume_vote env;
    process_remote_tmo = process_remote_tmo env;
    process_local_tmo = process_local_tmo env;
    make_proposal = make_proposal env;
    pm = λ s. s.pm;
    advance = advance;
    sent = λ s. s.sent;
    signals = λ s. s.proposals;
    emptied = emptied;
  }

  pub make_proposal-Proposes :
      (s : MHotStuff) (v : NewViewType) (payload : List Payload) (r : MHotStuff × Block)
      → make_proposal env s v payload ≡ ok r
      → Proposes env v r.1
  unfolding make_proposal
  make_proposal-Proposes s v payload r e =
      let c = choose s v in
      let (block, done, made) =
        >>=-eq-ok (λ b. ok (c.state, b))
          (make_block env v.view v.seq (some c.qc) c.tc c.tcs c.prev_id payload env.id)
          (past_guard (drops_qc v && not (has_room s)) blocked _ r e) in
      let (view, seq, proposer) =
        make_block-fields env v.view v.seq (some c.qc) c.tc c.tcs c.prev_id payload block made in
      rw (← ok-injective r done) (record { view = view; seq = seq; proposer = proposer })

  pub make_proposal-pm :
      (s : MHotStuff) (v : NewViewType) (payload : List Payload) (r : MHotStuff × Block)
      → make_proposal env s v payload ≡ ok r
      → r.0.pm ≡ s.pm
  unfolding make_proposal
  make_proposal-pm s v payload r e =
      let c = choose s v in
      let (block, done, made) =
        >>=-eq-ok (λ b. ok (c.state, b))
          (make_block env v.view v.seq (some c.qc) c.tc c.tcs c.prev_id payload env.id)
          (past_guard (drops_qc v && not (has_room s)) blocked _ r e) in
      rw (← ok-injective r done) (choose-pm s v)

  pub make_proposal-signals :
      (s : MHotStuff) (v : NewViewType) (payload : List Payload) (r : MHotStuff × Block)
      → make_proposal env s v payload ≡ ok r
      → length r.0.proposals ≤ length s.proposals + drops (v ∷ [])
  unfolding make_proposal
  make_proposal-signals s v payload r e =
      let c = choose s v in
      let (block, done, made) =
        >>=-eq-ok (λ b. ok (c.state, b))
          (make_block env v.view v.seq (some c.qc) c.tc c.tcs c.prev_id payload env.id)
          (past_guard (drops_qc v && not (has_room s)) blocked _ r e) in
      rw (← ok-injective r done) (omega (arith, choose-signals s v))

  pub make_proposal-ok :
      (s : MHotStuff) (v : NewViewType) (payload : List Payload) (k : ℕ)
      → key_index env.n env.id ≡ ok k
      → Room (length s.proposals) (v ∷ [])
      → (r : MHotStuff × Block) × (make_proposal env s v payload ≡ ok r)
  unfolding make_proposal
  make_proposal-ok s v payload k e room =
      let c = choose s v in
      let (b, made) = make_block-ok env v.view v.seq (some c.qc) c.tc c.tcs c.prev_id payload k e in
      ((c.state, b), rw (room-passes s v room, made) refl)

  pub mhotstuff-Lawful : Lawful env mhotstuff
  mhotstuff-Lawful = record {
    Steps = Steps env;
    here = here;
    blocks = λ b r st e. next st (Step.blocks b r e);
    votes = λ v r st e. next st (Step.votes v r e);
    resumes = λ qc r st e. next st (Step.resumes qc r e);
    remote_tmos = λ tmo u st e. next st (Step.remote_tmos tmo u e);
    local_tmos = λ v q st. next st (Step.local_tmos v q);
    proposes = λ v payload r st e. next st (Step.proposes v payload r e);
    advances = λ v q pt st. next st (Step.kick v q pt);
    empties = λ st. next st Step.delivers;
    trans = Steps-trans env;
    Steps-Announces = λ st. Moves-Announces (Steps-Moves env st);
    start = start_empty;
    start_steady = start-IsSteady;
    emptied-pm = emptied-pm;
    advance-pm = advance-pm;
    made = make_proposal-Proposes;
    made-pm = make_proposal-pm;
    made-signals = make_proposal-signals;
    emptied-signals = emptied-signals;
    makes = make_proposal-ok;
  }
