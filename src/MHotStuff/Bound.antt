-- ===== src/MHotStuff/Bound.antt =====
-- `ProcessBlock` of mhotstuff/mhotstuff.go and the bound on its calls of itself.
use multipipelinehs.Prelude.{
  ℕ, zero, suc, ◌+◌, ◌<◌, ◌≡◌, refl, sym, ap, ◌∙◌, Bool, true, false, not, Option, none, some,
  arith, ltb, get, ℕ_discrete, length, All-get,
}
use multipipelinehs.Types.{View, Qc, Block, Result, deref, Yields-any, bind-eq, if-eq}
use multipipelinehs.BlockChain.{add_block}
use multipipelinehs.Env.{Env}
use multipipelinehs.MHotStuff.{
  MHotStuff, Returned, new_mhotstuff, clean, send, update_high_block, voting_rule,
}
use multipipelinehs.MHotStuff.Blocks.{
  check_block, foreign_qc, foreign_tc, wake_collector, try_commit, use_buffered_qc, cast_vote,
  run_buffered, vote_on, vote_stage, after_commit, commit_stage, store_stage, process_block_with,
  process_block_fuel, process_block,
}
use multipipelinehs.MHotStuff.Moves.{IsFiled}
use multipipelinehs.MHotStuff.Reach.{Steps, Steps-Moves}
use multipipelinehs.MHotStuff.Pending.{pending, pending-le-length, pending-lt}
use multipipelinehs.MHotStuff.Buffered.{
  Leaves, foreign_qc-Leaves, foreign_tc-Leaves, wake_collector-Leaves, try_commit-Leaves,
  use_buffered_qc-Leaves, cast_vote-Leaves,
}

-- The handler depends on its own call only for the block that is buffered for the next view, in a
-- state with the same buffered blocks.
module _ (env : Env) (again other : MHotStuff → Block → Result (MHotStuff × Returned))
    (s : MHotStuff) (b : Block)
    (agree : (t : MHotStuff) (next : Block)
      → Leaves s t
      → get ℕ_discrete b.view s.buffered_blocks ≡ some next
      → again t next ≡ other t next) where
  run_buffered-eq :
      (t : MHotStuff) (o : Option Block)
      → Leaves s t
      → get ℕ_discrete b.view s.buffered_blocks ≡ o
      → run_buffered env again t b o ≡ run_buffered env other t b o
  unfolding run_buffered
  run_buffered-eq t none h e = refl
  run_buffered-eq t (some next) h e = rw (agree t next h e) refl

  vote_on-eq :
      (t : MHotStuff) (o : Option Bool)
      → Leaves s t
      → vote_on env again t b o ≡ vote_on env other t b o
  unfolding vote_on
  vote_on-eq t none h = refl
  vote_on-eq t (some false) h = refl
  vote_on-eq t (some true) h =
      bind-eq (Leaves t) (cast_vote env t b) _ _ (cast_vote-Leaves env t b) (λ u k.
        run_buffered-eq u (get ℕ_discrete b.view u.buffered_blocks) (k ∙ h)
          (ap (get ℕ_discrete b.view) (sym (k ∙ h))))

  after_commit-eq :
      (r : MHotStuff × Option Returned)
      → Leaves s r.0
      → after_commit env again b r ≡ after_commit env other b r
  unfolding after_commit vote_stage
  after_commit-eq (t, some r) h = refl
  after_commit-eq (t, none) h =
      bind-eq (Leaves t) (use_buffered_qc env t b) _ _ (use_buffered_qc-Leaves env t b) (λ u k.
        bind-eq (λ _. Unit {0}) (voting_rule u b) _ _ (Yields-any _)
          (λ o _. vote_on-eq u o (k ∙ h)))

  store_stage-eq :
      (t : MHotStuff) (qc : Qc)
      → Leaves s t
      → store_stage env again t b qc ≡ store_stage env other t b qc
  unfolding store_stage commit_stage send update_high_block
  store_stage-eq t qc h = if-eq (ltb b.view t.pm.cur_view) _ _ _ (
      if-eq (not (env.election.is_leader b.proposer b.view)) _ _ _ (
        bind-eq (λ _. Unit {0}) (add_block t.bc b) _ _ (Yields-any _)
          (λ bc _.
            let u = send (update_high_block (record t { bc = bc }) b) (clean b) in
            let to_u : Leaves t u = ground arith in
            bind-eq (Leaves u) (wake_collector env t.pm.cur_view u b) _ _
              (wake_collector-Leaves env t.pm.cur_view u b)
              (λ w k.
                bind-eq (λ r. Leaves w r.0) (try_commit env w b qc) _ _
                  (try_commit-Leaves env w b qc) (λ r m. after_commit-eq r (m ∙ k ∙ to_u ∙ h))))))

  process_block_with-eq : process_block_with env again s b ≡ process_block_with env other s b
  unfolding process_block_with
  process_block_with-eq =
      bind-eq (λ _. Unit {0}) (deref b.qc) _ _ (Yields-any _)
        (λ qc _. if-eq (ltb (s.pm.cur_view + 1) b.view) _ _ _ (
          bind-eq (λ _. Unit {0}) (check_block env b) _ _ (Yields-any _)
            (λ _ _.
              bind-eq (Leaves s) (foreign_qc env s b qc) _ _ (foreign_qc-Leaves env s b qc) (λ t h.
                bind-eq (Leaves t) (foreign_tc env s.pm.cur_view t b) _ _
                  (foreign_tc-Leaves env s.pm.cur_view t b) (λ u k. store_stage-eq u qc (k ∙ h))))))

module _ (env : Env) where
  -- The handler as deep as the bound allows; `cut` is what stands for the calls beyond.
  unfoldable pub process_block_over :
      (MHotStuff → Block → Result (MHotStuff × Returned))
      → ℕ
      → MHotStuff
      → Block
      → Result (MHotStuff × Returned)
  process_block_over cut zero s b = cut s b
  process_block_over cut (suc n) s b = process_block_with env (process_block_over cut n) s b

  -- Bounds above the number of pending blocks give the same.
  process_block_over-eq :
      (cut : MHotStuff → Block → Result (MHotStuff × Returned)) (m n : ℕ) (s : MHotStuff)
      (b : Block)
      → IsFiled s.buffered_blocks
      → pending b.view s.buffered_blocks < m
      → pending b.view s.buffered_blocks < n
      → process_block_over cut m s b ≡ process_block_fuel env n s b
  unfolding process_block_fuel process_block_over
  process_block_over-eq cut zero n s b filed h k = elim h [ ]
  process_block_over-eq cut (suc m) zero s b filed h k = elim k [ ]
  process_block_over-eq cut (suc m) (suc n) s b filed h k =
      process_block_with-eq env (process_block_over cut m) (process_block_fuel env n) s b
        (λ t next same held.
          let behind : next.view ≡ b.view + 1 =
            All-get ℕ_discrete (λ (e : View × Block). e.1.view ≡ e.0 + 1) b.view s.buffered_blocks
              next held filed in
          let fewer = pending-lt b.view s.buffered_blocks next held in
          let less : pending next.view t.buffered_blocks < pending b.view s.buffered_blocks =
            rw (same, behind) fewer in
          process_block_over-eq cut m n t next (rw same filed) (omega arith) (omega arith))

  new_mhotstuff-IsFiled : (n : ℕ) → IsFiled (new_mhotstuff n).buffered_blocks
  unfolding new_mhotstuff
  new_mhotstuff-IsFiled n = tt

  -- In every state that a replica reaches from its start by handler calls that return, and for any
  -- block, ProcessBlock calls itself no deeper than the number of buffered blocks: with any bound
  -- above that number, and whatever stands for the calls beyond the bound (an error, a return of
  -- any state, anything else), it gives the same result, that of the bound that is chosen.
  pub process_block-bound :
      (n : ℕ) {s : MHotStuff} (b : Block) (bound : ℕ)
      (cut : MHotStuff → Block → Result (MHotStuff × Returned))
      → Steps env (new_mhotstuff n) s
      → length s.buffered_blocks < bound
      → process_block_over cut bound s b ≡ process_block env s b
  unfolding process_block
  process_block-bound n {s} b bound cut r h =
      let few = pending-le-length b.view s.buffered_blocks in
      process_block_over-eq cut bound (length s.buffered_blocks + 1) s b
        ((Steps-Moves env r).filed (new_mhotstuff-IsFiled n)) (omega arith) (omega arith)
