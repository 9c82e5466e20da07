-- ===== src/MtHotStuff/Bound.antt =====
-- `ProcessBlock` of mthotstuff/mthotstuff.go and the bound on its calls of itself.
use multipipelinehs.Prelude.{
  ℕ, zero, suc, ◌+◌, ◌<◌, ◌≡◌, refl, sym, ap, ◌∙◌, true, false, not, Option, none, some, arith, ltb,
  get, ℕ_discrete, length, All-get, Option-cases, inl, inr, Bool,
}
use multipipelinehs.Types.{View, Qc, Block, Result, Yields-any, bind-eq, if-eq}
use multipipelinehs.BlockChain.{add_block}
use multipipelinehs.Env.{Env}
use multipipelinehs.MHotStuff.{Returned, new_mhotstuff, clean, send, update_high_block}
use multipipelinehs.MHotStuff.Blocks.{check_block, cast_vote}
use multipipelinehs.MHotStuff.Moves.{IsFiled}
use multipipelinehs.MHotStuff.Pending.{pending, pending-le-length, pending-lt}
use multipipelinehs.MHotStuff.Buffered.{cast_vote-Leaves}
use multipipelinehs.MtHotStuff.{Mtchs, StateContext, new_mtchs, context, voting_rule}
use multipipelinehs.MtHotStuff.Blocks.{
  foreign_qc, foreign_tc, wake_collector, try_commit, use_buffered_qc, run_buffered, vote_on,
  vote_stage, after_commit, commit_stage, store_stage, certified_stage, process_block_with,
  process_block_fuel, process_block,
}
use multipipelinehs.MtHotStuff.Reach.{Steps, Steps-Progress}
use multipipelinehs.MtHotStuff.Buffered.{
  Keeps, foreign_qc-Keeps, foreign_tc-Keeps, wake_collector-Keeps, try_commit-Keeps,
  use_buffered_qc-Keeps,
}

-- The handler depends on its own call only for the block that is buffered for the next view, in a
-- state with the same buffered blocks.
module _ (env : Env) (again other : Mtchs → Block → Result (Mtchs × Returned)) (s : Mtchs)
    (b : Block)
    (agree : (t : Mtchs) (next : Block)
      → Keeps s t
      → get ℕ_discrete b.view s.base.buffered_blocks ≡ some next
      → again t next ≡ other t next) where
  run_buffered-eq :
      (t : Mtchs) (o : Option Block)
      → Keeps s t
      → get ℕ_discrete b.view s.base.buffered_blocks ≡ o
      → run_buffered env again t b o ≡ run_buffered env other t b o
  unfolding run_buffered
  run_buffered-eq t none h e = refl
  run_buffered-eq t (some next) h e = rw (agree t next h e) refl

  vote_on-eq :
      (t : Mtchs) (o : Option Bool) → Keeps s t → vote_on env again t b o ≡ vote_on env other t b o
  unfolding vote_on
  vote_on-eq t none h = refl
  vote_on-eq t (some false) h = refl
  vote_on-eq t (some true) h =
      bind-eq (λ u. u.buffered_blocks ≡ t.base.buffered_blocks) (cast_vote env t.base b) _ _
        (cast_vote-Leaves env t.base b)
        (λ u k.
          run_buffered-eq (record t { base = u }) (get ℕ_discrete b.view u.buffered_blocks) (k ∙ h)
            (ap (get ℕ_discrete b.view) (sym (k ∙ h))))

  after_commit-eq :
      (ctx : StateContext) (r : Mtchs × Option Returned)
      → Keeps s r.0
      → after_commit env again ctx b r ≡ after_commit env other ctx b r
  unfolding after_commit vote_stage
  after_commit-eq ctx (t, some r) h = refl
  after_commit-eq ctx (t, none) h =
      bind-eq (Keeps t) (use_buffered_qc env t b) _ _ (use_buffered_qc-Keeps env t b) (λ u k.
        bind-eq (λ _. Unit {0}) (voting_rule u b ctx) _ _ (Yields-any _)
          (λ o _. vote_on-eq u o (k ∙ h)))

  store_stage-eq :
      (t : Mtchs) (qc : Qc)
      → Keeps s t
      → store_stage env again t b qc ≡ store_stage env other t b qc
  unfolding store_stage commit_stage update_high_block
  store_stage-eq t qc h = if-eq (ltb b.view t.base.pm.cur_view) _ _ _ (
      if-eq (not (env.election.is_leader b.proposer b.view)) _ _ _ (
        bind-eq (λ _. Unit {0}) (add_block t.base.bc b) _ _ (Yields-any _)
          (λ bc _.
            let base = t.base in
            let u = record t { base = update_high_block (record base { bc = bc }) b } in
            let to_u : Keeps t u = ground arith in
            bind-eq (Keeps u) (wake_collector env t.base.pm.cur_view u b) _ _
              (wake_collector-Keeps env t.base.pm.cur_view u b)
              (λ w k.
                bind-eq (λ r. Keeps w r.0) (try_commit env w b qc) _ _ (try_commit-Keeps env w b qc)
                  (λ r m. after_commit-eq (context u) r (m ∙ k ∙ to_u ∙ h))))))

  certified_stage-eq :
      (cur : View) (qc : Qc)
      → certified_stage env again cur s b qc ≡ certified_stage env other cur s b qc
  unfolding certified_stage send
  certified_stage-eq cur qc =
      bind-eq (Keeps s) (foreign_qc env s b qc) _ _ (foreign_qc-Keeps env s b qc) (λ t h.
        let base = t.base in
        let u = record t { base = send base (clean b) } in
        bind-eq (Keeps u) (foreign_tc env cur u b) _ _ (foreign_tc-Keeps env cur u b)
          (λ w k. store_stage-eq w qc (k ∙ h)))

  process_block_with-eq : process_block_with env again s b ≡ process_block_with env other s b
  unfolding process_block_with
  process_block_with-eq = if-eq (ltb (s.base.pm.cur_view + 1) b.view) _ _ _ (
      bind-eq (λ _. Unit {0}) (check_block env b) _ _ (Yields-any _)
        (λ _ _. elim (Option-cases b.qc) [
          | inl missing ↦ rw missing refl
          | inr (qc, there) ↦ rw there (certified_stage-eq s.base.pm.cur_view qc)
        ]))

module _ (env : Env) where
  -- The handler as deep as the bound allows; `cut` is what stands for the calls beyond.
  unfoldable pub process_block_over :
      (Mtchs → Block → Result (Mtchs × Returned)) → ℕ → Mtchs → Block → Result (Mtchs × Returned)
  process_block_over cut zero s b = cut s b
  process_block_over cut (suc n) s b = process_block_with env (process_block_over cut n) s b

  -- Bounds above the number of pending blocks give the same.
  process_block_over-eq :
      (cut : Mtchs → Block → Result (Mtchs × Returned)) (m n : ℕ) (s : Mtchs) (b : Block)
      → IsFiled s.base.buffered_blocks
      → pending b.view s.base.buffered_blocks < m
      → pending b.view s.base.buffered_blocks < n
      → process_block_over cut m s b ≡ process_block_fuel env n s b
  unfolding process_block_fuel process_block_over
  process_block_over-eq cut zero n s b filed h k = elim h [ ]
  process_block_over-eq cut (suc m) zero s b filed h k = elim k [ ]
  process_block_over-eq cut (suc m) (suc n) s b filed h k =
      process_block_with-eq env (process_block_over cut m) (process_block_fuel env n) s b
        (λ t next same held.
          let behind : next.view ≡ b.view + 1 =
            All-get ℕ_discrete (λ (e : View × Block). e.1.view ≡ e.0 + 1) b.view
              s.base.buffered_blocks next held filed in
          let fewer = pending-lt b.view s.base.buffered_blocks next held in
          let less : pending next.view t.base.buffered_blocks
              < pending b.view s.base.buffered_blocks =
            rw (same, behind) fewer in
          process_block_over-eq cut m n t next (rw same filed) (omega arith) (omega arith))

  new_mtchs-IsFiled : (n : ℕ) → IsFiled (new_mtchs n).base.buffered_blocks
  unfolding new_mtchs new_mhotstuff
  new_mtchs-IsFiled n = tt

  -- In every state that a replica of the variant reaches from its start by handler calls that
  -- return, and for any block, its ProcessBlock calls itself no deeper than the number of buffered
  -- blocks: with any bound above that number, and whatever stands for the calls beyond the bound
  -- (an error, a return of any state, anything else), it gives the same result, that of the bound
  -- that is chosen.
  pub process_block_fuel_bound :
      (n : ℕ) {s : Mtchs} (b : Block) (bound : ℕ) (cut : Mtchs → Block → Result (Mtchs × Returned))
      → Steps env (new_mtchs n) s
      → length s.base.buffered_blocks < bound
      → process_block_over cut bound s b ≡ process_block env s b
  unfolding process_block
  process_block_fuel_bound n {s} b bound cut r h =
      let few = pending-le-length b.view s.base.buffered_blocks in
      process_block_over-eq cut bound (length s.base.buffered_blocks + 1) s b
        ((Steps-Progress env r).moves.filed (new_mtchs-IsFiled n)) (omega arith) (omega arith)
