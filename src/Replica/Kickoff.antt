-- ===== src/Replica/Kickoff.antt =====
-- How the first leader of replica/replica.go starts the protocol.
use multipipelinehs.MHotStuff.Proposal.{drops, drops_qc}
use multipipelinehs.Prelude.{ℕ, ◌≡◌, refl, ap, ◌∙◌, subst, inl, inr, true, List, [], ◌∷◌, arith}
use multipipelinehs.Types.{View, NewViewType, Block, ok, no_timeout}
use multipipelinehs.Env.{Env}
use multipipelinehs.Crypto.{key_index}
use multipipelinehs.Pacemaker.{Pacemaker, advance_view}
use multipipelinehs.Pacemaker.Views.{Descends, IsSteady}
use multipipelinehs.Mempool.{Transaction}
use multipipelinehs.Mempool.Producer.{Producer}
use multipipelinehs.Safety.{Safety, Lawful, Proposes}
use multipipelinehs.Replica.{Replica, cur_view, start_signal, kick_off, handle_txn}
use multipipelinehs.Replica.Loops.{
  Turn, txn_comes, starts, enters, new_views, turn, run, take_start,
}
use multipipelinehs.Replica.Start.{replica_with}
use multipipelinehs.Replica.Alike.{proposals, IsAwake}
use multipipelinehs.Replica.Proposals.{Covers, IsOrderly}
use multipipelinehs.Replica.Runs.{turn-IsOrderly, run-IsOrderly}
use multipipelinehs.Replica.Drain.{turns_for, drain-Covers}

abbrev pub first_view : NewViewType
first_view = record { view = 1; seq = 2; propose_type = no_timeout }

-- Nothing is announced in view 0.
IsSteady-quiet : (pm : Pacemaker) → IsSteady pm → pm.cur_view ≡ 0 → pm.entered ≡ []
IsSteady-quiet pm h e = quiet pm.entered pm.cur_view pm.cur_seq h e
  where
    quiet : (es : List NewViewType) (v : View) (s : ℕ) → Descends v s es → v ≡ 0 → es ≡ []
    quiet [] v s h e = refl
    quiet (x ∷ es) v s h e = absurd (omega arith)

first_advance :
    (pm : Pacemaker)
    → pm.cur_view ≡ 0
    → pm.entered ≡ []
    → (advance_view pm 0 0 no_timeout).entered ≡ first_view ∷ []
unfolding advance_view
first_advance pm e h = ground arith

no_drops : drops (first_view ∷ []) ≡ 0
unfolding drops_qc
no_drops = refl

module _ (env : Env) {p : Safety} (law : Lawful env p) (b_size : ℕ) where
  kicked :
      (r : Replica p) (stamp now later : ℕ) (tx : Transaction)
      → cur_view r ≡ 0
      → env.election.is_leader env.id 1 ≡ true
      → let t = handle_txn env r stamp now later tx in
        (t.protocol ≡ p.advance r.protocol 0 0 no_timeout) × (t.is_started ≡ true)
  unfolding handle_txn kick_off start_signal
  kicked r stamp now later tx e leads = ground arith

  started :
      (r : Replica p)
      → r.is_started ≡ true
      → IsAwake r
      → ((take_start r).running ≡ true) × ((take_start r).protocol ≡ r.protocol)
  unfolding take_start
  started r on awake = ground arith

  led_first :
      (bs : List Block)
      → env.election.is_leader env.id 1 ≡ true
      → Covers env (first_view ∷ []) bs
      → (b : Block) × (bs ≡ b ∷ []) × Proposes env first_view b
  led_first bs leads (inl (follows, _)) = absurd (cc)
  led_first bs leads (inr (b, cs, eq, l, last)) = (b, eq ∙ ap (◌∷◌ b) last, l.proposes)

  pub kick_off-Proposes :
      (n : ℕ) (pd : Producer) (ts : List Turn) (r : Replica p) (stamp now later : ℕ)
      (tx : Transaction) (k : ℕ)
      → run env b_size ts (replica_with p n pd) ≡ ok r
      → cur_view r ≡ 0
      → env.election.is_leader env.id 1 ≡ true
      → key_index env.n env.id ≡ ok k
      → (t : Replica p) × (b : Block) × (run env b_size
            (txn_comes stamp now later tx ∷ starts ∷ enters ∷ new_views ∷ [])
            r
          ≡ ok t)
        × (proposals t.network ≡ b ∷ [])
        × Proposes env first_view b
  unfolding run turn
  kick_off-Proposes n pd ts r stamp now later tx k e zero leads key =
      let h = run-IsOrderly env law b_size n pd ts r e in
      let pm = p.pm r.protocol in
      let quiet = IsSteady-quiet pm h.steady zero in
      let r1 = handle_txn env r stamp now later tx in
      let (moved, on) = kicked r stamp now later tx zero leads in
      let h1 : IsOrderly env r1 =
        turn-IsOrderly env law b_size r (txn_comes stamp now later tx) h in
      let r2 = take_start r1 in
      let h2 : IsOrderly env r2 = turn-IsOrderly env law b_size r1 starts h1 in
      let (running, kept) = started r1 on h1.awake in
      let announced : (p.pm r2.protocol).entered ≡ first_view ∷ [] =
        ap (λ s. (p.pm s).entered) (kept ∙ moved)
        ∙ ap (λ q. q.entered) (law.advance-pm r.protocol 0 0 no_timeout)
        ∙ first_advance pm zero quiet in
      let (t, done, covers) =
        drain-Covers env law b_size r2 k key running h2 (inl (ap drops announced ∙ no_drops)) in
      let (b, made, proposes) =
        led_first (proposals t.network) leads
          (subst (λ vs. Covers env vs (proposals t.network)) announced covers) in
      (t, b, subst (λ vs. run env b_size (turns_for vs) r2 ≡ ok t) announced done, made, proposes)
