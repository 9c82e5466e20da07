-- ===== src/Replica/Quiet.antt =====
-- The turns of a replica that take no view from the pacemaker and propose nothing.
use multipipelinehs.MHotStuff.Proposal.{drops}
use multipipelinehs.Prelude.{
  ◌+◌, ◌≤◌, length, ℕ, ◌≡◌, refl, ap, ◌∙◌, Option, none, some, List, [], ◌∷◌, arith, ◌==◌, ◌&&◌,
  Bool-cases, inl, inr,
}
use multipipelinehs.Types.{
  Block, Vote, Qc, NewViewType, Result, ok, Yields, Yields-bind, Yields-self, Yields-mono,
  Yields-any, no_timeout, ◌>>=◌,
}
use multipipelinehs.Env.{Env}
use multipipelinehs.Mempool.{Transaction}
use multipipelinehs.Mempool.Producer.{generate_payload}
use multipipelinehs.MHotStuff.Votes.{VoteStatus, returned, waits_with}
use multipipelinehs.Safety.{Safety, Lawful, Proposes}
use multipipelinehs.Replica.{
  Replica, Incoming, block_event, tmo_event, settle, start_signal, kick_off, handle_txn, activate,
  cur_view,
}
use multipipelinehs.Replica.Alike.{
  proposals, IsAwake, Alike, Alike-refl, deliver_all-Alike, deliver_all-running, start_signal-Alike,
}
use multipipelinehs.Replica.Loops.{
  time_out, vote_done, take_vote, turn_votes, process_event, turn_events, propose_block,
}

module _ (env : Env) {p : Safety} (law : Lawful env p) where
  -- A turn that makes steps of the protocol, and takes and proposes nothing.
  pub record Quiet (r t : Replica p) : Type 0 where
    pub steps : law.Steps r.protocol t.protocol
    pub heard : t.heard ≡ r.heard
    pub queue : t.new_view_chan ≡ r.new_view_chan
    pub made : proposals t.network ≡ proposals r.network
    pub awake : IsAwake r → IsAwake t

  pub Alike-Quiet : (r t : Replica p) → Alike r t → Quiet r t
  Alike-Quiet r t h = record {
    steps = rw h.protocol law.here;
    heard = h.heard;
    queue = h.queue;
    made = h.made;
    awake = h.awake;
  }

  pub Quiet-Alike : (r t u : Replica p) → Quiet r t → Alike t u → Quiet r u
  Quiet-Alike r t u a b = record {
    steps = rw b.protocol a.steps;
    heard = b.heard ∙ a.heard;
    queue = b.queue ∙ a.queue;
    made = b.made ∙ a.made;
    awake = λ h. b.awake (a.awake h);
  }

  pub settle-Quiet : (r : Replica p) (s : p.State) → law.Steps r.protocol s → Quiet r (settle r s)
  unfolding settle
  settle-Quiet r s h =
      let t = record r { protocol = p.emptied s } in
      Quiet-Alike r t _
        (record { steps = law.empties h; heard = refl; queue = refl; made = refl; awake = λ h. h })
        (deliver_all-Alike (p.sent s) t)

  pub kick_off-Quiet : (r : Replica p) → Quiet r (kick_off env r)
  unfolding kick_off
  kick_off-Quiet r = elim (Bool-cases ((cur_view r == 0) && env.election.is_leader env.id 1)) [
    | inl due ↦
        rw (due, kick_off)
          (record {
            steps = law.advances 0 0 no_timeout law.here;
            heard = refl;
            queue = refl;
            made = refl;
            awake = λ h. h;
          })
    | inr late ↦ rw (late, kick_off) (Alike-Quiet r r (Alike-refl r))
  ]

  pub from_Alike : (r t u : Replica p) → Alike r t → Quiet t u → Quiet r u
  from_Alike r t u a b = record {
    steps = rw (← a.protocol) b.steps;
    heard = b.heard ∙ a.heard;
    queue = b.queue ∙ a.queue;
    made = b.made ∙ a.made;
    awake = λ h. b.awake (a.awake h);
  }

  pub handle_txn-Quiet :
      (r : Replica p) (stamp now later : ℕ) (tx : Transaction)
      → Quiet r (handle_txn env r stamp now later tx)
  unfolding handle_txn start_signal
  handle_txn-Quiet r stamp now later tx = from_Alike r _ _ (ground arith) (kick_off-Quiet _)

  pub activate-Quiet : (r : Replica p) → Quiet r (activate env r)
  unfolding activate
  activate-Quiet r = from_Alike r _ _ (start_signal-Alike r) (kick_off-Quiet (start_signal r))

  pub time_out-Quiet : (r : Replica p) → Quiet r (time_out r)
  unfolding time_out
  time_out-Quiet r =
      let pm = p.pm r.protocol in settle-Quiet r _ (law.local_tmos pm.cur_view pm.cur_seq law.here)

  vote_done-Quiet :
      (r : Replica p) (done : p.State × VoteStatus)
      → law.Steps r.protocol done.0
      → Quiet r (vote_done env r done)
  unfolding vote_done
  vote_done-Quiet r (s, returned) h =
      Quiet-Alike r (settle r s) _ (settle-Quiet r s h) (ground arith)
  vote_done-Quiet r (s, waits_with qc) h =
      Quiet-Alike r (settle r s) _ (settle-Quiet r s h) (ground arith)

  -- A call of the protocol and what the replica does with its result.
  call-Quiet {ℓ} :
      {B : Type ℓ} (r : Replica p) (m : Result B) (state : B → p.State) (k : B → Replica p)
      → ((b : B) → m ≡ ok b → law.Steps r.protocol (state b))
      → ((b : B) → law.Steps r.protocol (state b) → Quiet r (k b))
      → Yields (Quiet r) (m >>= λ b. ok (k b))
  call-Quiet r m state k steps quiet =
      Yields-bind (λ b. m ≡ ok b) (Quiet r) m _ (Yields-self m) (λ b e. quiet b (steps b e))

  take_vote-Quiet : (r : Replica p) (vs : List Vote) → Yields (Quiet r) (take_vote env r vs)
  unfolding take_vote
  take_vote-Quiet r [] = Alike-Quiet r r (Alike-refl r)
  take_vote-Quiet r (v ∷ rest) =
      let t = record r { dual_event_chan = rest } in
      call-Quiet r (p.process_vote r.protocol v) (λ d. d.0) (vote_done env t)
        (λ d e. law.votes v d law.here e)
        (λ d h. from_Alike r t _ (ground arith) (vote_done-Quiet t d h))

  pub turn_votes-Quiet :
      (r : Replica p) (waiting : Option Qc) → Yields (Quiet r) (turn_votes env r waiting)
  unfolding turn_votes
  turn_votes-Quiet r none = take_vote-Quiet r r.dual_event_chan
  turn_votes-Quiet r (some qc) =
      call-Quiet r (p.resume_vote r.protocol qc) (λ d. d.0) (vote_done env r)
        (λ d e. law.resumes qc d law.here e) (vote_done-Quiet r)

  process_event-Quiet : (r : Replica p) (e : Incoming) → Yields (Quiet r) (process_event env r e)
  unfolding process_event
  process_event-Quiet r (block_event b) =
      call-Quiet r (p.process_block r.protocol b) (λ d. d.0) _ (λ d e. law.blocks b d law.here e)
        (λ d h. Quiet-Alike r (settle r d.0) _ (settle-Quiet r d.0 h) (ground arith))
  process_event-Quiet r (tmo_event tmo) =
      call-Quiet r (p.process_remote_tmo r.protocol tmo) (λ s. s) (settle r)
        (λ s e. law.remote_tmos tmo s law.here e) (settle-Quiet r)

  pub turn_events-Quiet :
      (r : Replica p) (es : List Incoming) → Yields (Quiet r) (turn_events env r es)
  unfolding turn_events
  turn_events-Quiet r [] = Alike-Quiet r r (Alike-refl r)
  turn_events-Quiet r (e ∷ rest) =
      let t = record r { event_chan = rest } in
      Yields-mono (Quiet t) (Quiet r) (process_event env t e)
        (λ u h. from_Alike r t u (ground arith) h) (process_event-Quiet t e)

  settle-pm : (r : Replica p) (s : p.State) → p.pm (settle r s).protocol ≡ p.pm s
  unfolding settle
  settle-pm r s =
      let t = record r { protocol = p.emptied s } in
      ap p.pm (deliver_all-Alike (p.sent s) t).protocol ∙ law.emptied-pm s

  settle-signals : (r : Replica p) (s : p.State) → p.signals (settle r s).protocol ≡ p.signals s
  unfolding settle
  settle-signals r s =
      let t = record r { protocol = p.emptied s } in
      ap p.signals (deliver_all-Alike (p.sent s) t).protocol ∙ law.emptied-signals s

  settle-running : (r : Replica p) (s : p.State) → (settle r s).running ≡ r.running
  unfolding settle
  settle-running r s = deliver_all-running (p.sent s) (record r { protocol = p.emptied s })

  -- A turn that proposes a block for the view.
  pub record Proposed (v : NewViewType) (r t : Replica p) : Type 0 where
    pub steps : law.Steps r.protocol t.protocol
    pub heard : t.heard ≡ r.heard
    pub queue : t.new_view_chan ≡ r.new_view_chan
    pub block : Block
    pub proposes : Proposes env v block
    pub made : proposals t.network ≡ block ∷ proposals r.network
    pub kept : p.pm t.protocol ≡ p.pm r.protocol
    pub awake : IsAwake r → IsAwake t
    pub running : t.running ≡ r.running
    pub signals : length (p.signals t.protocol) ≤ length (p.signals r.protocol) + drops (v ∷ [])

  pub propose_block-Proposed :
      (b_size : ℕ) (r : Replica p) (v : NewViewType)
      → Yields (Proposed v r) (propose_block env b_size r v)
  unfolding propose_block
  propose_block-Proposed b_size r v =
      Yields-bind (λ _. Unit {0}) (Proposed v r) (generate_payload r.pd b_size) _ (Yields-any _)
        (λ g _.
          Yields-bind (λ m. p.make_proposal r.protocol v g.1 ≡ ok m) (Proposed v r)
            (p.make_proposal r.protocol v g.1) _ (Yields-self _)
            (λ m e.
              let t = record r { pd = g.0 } in
              let q = settle-Quiet t m.0 (law.proposes v g.1 m law.here e) in
              record {
                steps = q.steps;
                heard = q.heard;
                queue = q.queue;
                block = m.1;
                proposes = law.made r.protocol v g.1 m e;
                made = ap (◌∷◌ m.1) q.made;
                kept = settle-pm t m.0 ∙ law.made-pm r.protocol v g.1 m e;
                awake = q.awake;
                running = settle-running t m.0;
                signals = omega (
                  arith,
                  ap length (settle-signals t m.0),
                  law.made-signals r.protocol v g.1 m e,
                );
              }))
