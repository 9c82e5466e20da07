-- ===== src/Replica/Runs.antt =====
-- Runs of the turns of replica/replica.go.
use multipipelinehs.Prelude.{
  ℕ, ◌+◌, ◌≡◌, refl, inl, inr, true, not, List, [], ◌∷◌, arith, All, Option-cases, if◌then◌else◌,
}
use multipipelinehs.Types.{
  View, NewViewType, Block, Result, ok, Yields, Yields-bind, Yields-mono, Yields-ok, if-Yields,
}
use multipipelinehs.Env.{Env}
use multipipelinehs.Pacemaker.Views.{Older, Descends}
use multipipelinehs.Mempool.Producer.{Producer}
use multipipelinehs.Safety.{Safety, Lawful}
use multipipelinehs.Replica.{Replica, cur_view}
use multipipelinehs.Replica.Loops.{
  Turn, block_comes, vote_comes, tmo_comes, query_comes, txn_comes, activates, starts, enters,
  times_out, cleans, commits, forks, votes, new_views, events, turn, run, next_entered, enter_view,
  turn_new_views, process_new_view, propose_block,
}
use multipipelinehs.Replica.Start.{replica_with}
use multipipelinehs.Replica.Alike.{
  proposals, Alike, Alike-refl, handle_block-Alike, handle_vote-Alike, handle_tmo-Alike,
  handle_query-Alike, take_start-Alike, take_clean-Alike, take_forked-Alike, take_committed-Alike,
}
use multipipelinehs.Replica.Quiet.{
  Quiet, Alike-Quiet, handle_txn-Quiet, activate-Quiet, time_out-Quiet, turn_votes-Quiet,
  turn_events-Quiet, Proposed, propose_block-Proposed,
}
use multipipelinehs.Replica.Proposals.{
  Covers, Falls, Covers-Falls, Older-EndsWith, Older-onto, IsOrderly, Quiet-IsOrderly,
  enter_view-IsOrderly, turn_new_views-IsOrderly,
}

module _ (env : Env) {p : Safety} (law : Lawful env p) (b_size : ℕ) where
  -- What holds after each kind of turn holds after any.
  module _ (r : Replica p) (Q : Replica p → Type 0)
      (quiet : (t : Replica p) → Quiet env law r t → Q t) (entered : Q (enter_view r))
      (viewed : Yields Q (turn_new_views env b_size r r.new_view_chan)) where
    alike : (t : Replica p) → Alike r t → Q t
    alike t h = quiet t (Alike-Quiet env law r t h)

    waits : Q r
    waits = alike r (Alike-refl r)

    guarded-Yields :
        (m : Result (Replica p)) → Yields Q m → Yields Q (if r.running then m else ok r)
    guarded-Yields m h = if-Yields Q r.running m (ok r) h waits

    quietly : (m : Result (Replica p)) → Yields (Quiet env law r) m → Yields Q m
    quietly m h = Yields-mono (Quiet env law r) Q m quiet h

    turn-Yields : (t : Turn) → Yields Q (turn env b_size t r)
    unfolding turn
    turn-Yields (block_comes b) = alike _ (handle_block-Alike r b)
    turn-Yields (vote_comes v) = alike _ (handle_vote-Alike r v)
    turn-Yields (tmo_comes tmo) = alike _ (handle_tmo-Alike r tmo)
    turn-Yields query_comes = alike _ (handle_query-Alike r)
    turn-Yields (txn_comes stamp now later tx) =
        quiet _ (handle_txn-Quiet env law r stamp now later tx)
    turn-Yields activates = quiet _ (activate-Quiet env law r)
    turn-Yields starts = alike _ (take_start-Alike r)
    turn-Yields enters = guarded-Yields _ entered
    turn-Yields times_out = guarded-Yields _ (quiet _ (time_out-Quiet env law r))
    turn-Yields cleans = guarded-Yields _ (alike _ (take_clean-Alike r))
    turn-Yields commits = guarded-Yields _ (alike _ (take_committed-Alike env r))
    turn-Yields forks = guarded-Yields _ (alike _ (take_forked-Alike r))
    turn-Yields votes = guarded-Yields _ (quietly _ (turn_votes-Quiet env law r r.waiting))
    turn-Yields new_views = guarded-Yields _ viewed
    turn-Yields events = guarded-Yields _ (quietly _ (turn_events-Quiet env law r r.event_chan))

  -- What every turn keeps, a run keeps.
  pub run-Yields :
      (Q : Replica p → Type 0)
      → ((r : Replica p) (t : Turn) → Q r → Yields Q (turn env b_size t r))
      → (ts : List Turn) (r : Replica p) → Q r
      → Yields Q (run env b_size ts r)
  unfolding run
  run-Yields Q keeps [] r h = h
  run-Yields Q keeps (t ∷ ts) r h =
      Yields-bind Q Q (turn env b_size t r) (run env b_size ts) (keeps r t h)
        (λ u k. run-Yields Q keeps ts u k)

  pub turn-IsOrderly :
      (r : Replica p) (t : Turn) → IsOrderly env r → Yields (IsOrderly env) (turn env b_size t r)
  turn-IsOrderly r t h =
      turn-Yields r (IsOrderly env) (λ u q. Quiet-IsOrderly env law r u q h)
        (enter_view-IsOrderly env law r h)
        (turn_new_views-IsOrderly env law b_size r r.new_view_chan refl h) t

  replica_with-IsOrderly : (n : ℕ) (pd : Producer) → IsOrderly env (replica_with p n pd)
  unfolding replica_with
  replica_with-IsOrderly n pd = record {
    steady = law.start_steady n;
    heard = rw (law.start n) refl;
    done = [];
    taken = refl;
    covers = refl;
    awake = λ e. absurd (cc);
  }

  pub run-IsOrderly :
      (n : ℕ) (pd : Producer) (ts : List Turn) (r : Replica p)
      → run env b_size ts (replica_with p n pd) ≡ ok r
      → IsOrderly env r
  run-IsOrderly n pd ts r e =
      Yields-ok (IsOrderly env) (run env b_size ts (replica_with p n pd)) r
        (run-Yields (IsOrderly env) turn-IsOrderly ts (replica_with p n pd)
          (replica_with-IsOrderly n pd))
        e

  Descends-Older : (v : View) (s : ℕ) (es : List NewViewType) → Descends v s es → Older (v + 1) es
  Descends-Older v s [] h = tt
  Descends-Older v s (e ∷ es) h = ground arith

  Covers-All :
      (vs : List NewViewType) (bs : List Block)
      → Covers env vs bs
      → All (λ b. (b.proposer ≡ env.id) × (env.election.is_leader env.id b.view ≡ true)) bs
  Covers-All [] bs h = rw h tt
  Covers-All (v ∷ vs) bs (inl (_, h)) = Covers-All vs bs h
  Covers-All (v ∷ vs) bs (inr (b, cs, eq, l, h)) =
      rw eq ((l.proposes.proposer, rw l.proposes.view l.leads), Covers-All vs cs h)

  pub proposals_once :
      (n : ℕ) (pd : Producer) (ts : List Turn) (r : Replica p)
      → run env b_size ts (replica_with p n pd) ≡ ok r
      → Falls (cur_view r + 1) (proposals r.network)
        × All
            (λ b. (b.proposer ≡ env.id) × (env.election.is_leader env.id b.view ≡ true))
            (proposals r.network)
  proposals_once n pd ts r e =
      let h = run-IsOrderly n pd ts r e in
      let pm = p.pm r.protocol in
      let old =
        Older-EndsWith (pm.cur_view + 1) r.heard pm.entered h.heard
          (Descends-Older pm.cur_view pm.cur_seq pm.entered h.steady) in
      let handled = Older-onto (pm.cur_view + 1) r.new_view_chan h.done (rw (← h.taken) old) in
      (
        Covers-Falls env (pm.cur_view + 1) h.done (proposals r.network) handled h.covers,
        Covers-All h.done (proposals r.network) h.covers,
      )

  pub turn-Steps :
      (s : p.State) (r : Replica p) (t : Turn)
      → law.Steps s r.protocol
      → Yields (λ u. law.Steps s u.protocol) (turn env b_size t r)
  unfolding enter_view turn_new_views process_new_view
  turn-Steps s r t h =
      turn-Yields r (λ u. law.Steps s u.protocol) (λ u q. law.trans h q.steps) (entered r h)
        (viewed r r.new_view_chan h) t
    where
      entered : (r : Replica p) → law.Steps s r.protocol → law.Steps s (enter_view r).protocol
      entered r h = elim (Option-cases (next_entered (p.pm r.protocol).entered r.heard)) [
        | inl quiet ↦ rw (quiet, enter_view) h
        | inr (v, next) ↦ rw (next, enter_view) h
      ]

      viewed :
          (r : Replica p) (queue : List NewViewType)
          → law.Steps s r.protocol
          → Yields (λ u. law.Steps s u.protocol) (turn_new_views env b_size r queue)
      viewed r [] h = h
      viewed r (v ∷ rest) h =
          let t = record r { new_view_chan = rest } in
          if-Yields (λ u. law.Steps s u.protocol) (not (env.election.is_leader env.id v.view)) _ _ h
            (Yields-mono (Proposed env law v t) (λ u. law.Steps s u.protocol)
              (propose_block env b_size t v) (λ u m. law.trans h m.steps)
              (propose_block-Proposed env law b_size t v))

  pub run-Steps :
      (ts : List Turn) (r t : Replica p)
      → run env b_size ts r ≡ ok t
      → law.Steps r.protocol t.protocol
  run-Steps ts r t e =
      Yields-ok (λ u. law.Steps r.protocol u.protocol) (run env b_size ts r) t
        (run-Yields (λ u. law.Steps r.protocol u.protocol) (turn-Steps r.protocol) ts r law.here) e
