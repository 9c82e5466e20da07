-- ===== src/MtHotStuff/BlockMoves.antt =====
-- `ProcessBlock` of mthotstuff/mthotstuff.go and what moves forward, from its stages up.
use multipipelinehs.Prelude.{
  ℕ, zero, suc, ◌+◌, Bool, true, false, not, Option, none, some, arith, ltb, ltb→lt, inl, inr,
  Option-cases, length,
}
use multipipelinehs.Types.{
  View, Qc, Block, Result, ◌>>=◌, Yields, Yields-bind, Yields-any, if-Yields,
}
use multipipelinehs.BlockChain.{BlockChain, add_block}
use multipipelinehs.BlockChain.Commit.{Advances}
use multipipelinehs.Env.{Env}
use multipipelinehs.MHotStuff.{Returned, clean, send, update_high_block}
use multipipelinehs.MHotStuff.Blocks.{buffer_block, check_block, cast_vote}
use multipipelinehs.MHotStuff.Moves.{Moves, Moves-trans, send-Moves, update_high_block-Moves}
use multipipelinehs.MHotStuff.Handlers.{buffer_block-Moves}
use multipipelinehs.MHotStuff.ChainMoves.{
  chain-Moves, unbuffer_block-Moves, add_block-Advances, if-Yields_then,
}
use multipipelinehs.MHotStuff.BlockMoves.{cast_vote-Moves}
use multipipelinehs.MtHotStuff.{Mtchs, StateContext, context, voting_rule}
use multipipelinehs.MtHotStuff.Blocks.{
  foreign_qc, foreign_tc, wake_collector, try_commit, use_buffered_qc, run_buffered, vote_on,
  vote_stage, after_commit, commit_stage, store_stage, certified_stage, process_block_with,
  process_block_fuel, process_block,
}
use multipipelinehs.MtHotStuff.Moves.{Progress, Progress-refl, Progress-trans, base-Progress, after}
use multipipelinehs.MtHotStuff.StageMoves.{
  foreign_qc-Progress, foreign_tc-Progress, wake_collector-Progress, try_commit-Progress,
  use_buffered_qc-Progress,
}

module _ (env : Env) where
  module _ (again : Mtchs → Block → Result (Mtchs × Returned))
      (again-Progress : (s : Mtchs) (b : Block)
        → Yields (λ (r : Mtchs × Returned). Progress s r.0) (again s b)) where
    run_buffered-Progress :
        (s : Mtchs) (b : Block) (o : Option Block)
        → Yields (λ (r : Mtchs × Returned). Progress s r.0) (run_buffered env again s b o)
    unfolding run_buffered
    run_buffered-Progress s b none = Progress-refl s
    run_buffered-Progress s b (some next) =
        Yields-bind (λ r. Progress s r.0) (λ r. Progress s r.0) (again s next) _
          (again-Progress s next)
          (λ r h.
            let t = r.0 in
            Progress-trans s t _ h
              (base-Progress t _ t.vote_type (unbuffer_block-Moves t.base b.view)))

    vote_on-Progress :
        (s : Mtchs) (b : Block) (o : Option Bool)
        → Yields (λ (r : Mtchs × Returned). Progress s r.0) (vote_on env again s b o)
    unfolding vote_on
    vote_on-Progress s b none = Progress-refl s
    vote_on-Progress s b (some false) = Progress-refl s
    vote_on-Progress s b (some true) =
        Yields-bind (Moves s.base) (λ r. Progress s r.0) (cast_vote env s.base b) _
          (cast_vote-Moves env s.base b)
          (λ u h.
            after s (record s { base = u }) _ (base-Progress s u s.vote_type h)
              (run_buffered-Progress (record s { base = u }) b _))

    after_commit-Progress :
        (ctx : StateContext) (s : Mtchs) (b : Block) (r : Mtchs × Option Returned)
        → Progress s r.0
        → Yields (λ (r : Mtchs × Returned). Progress s r.0) (after_commit env again ctx b r)
    unfolding after_commit vote_stage
    after_commit-Progress ctx s b (t, some r) h = h
    after_commit-Progress ctx s b (t, none) h = after s t _ h (
        Yields-bind (Progress t) (λ r. Progress t r.0) (use_buffered_qc env t b) _
          (use_buffered_qc-Progress env t b)
          (λ u k. after t u _ k (
            Yields-bind (λ _. Unit {0}) (λ r. Progress u r.0) (voting_rule u b ctx) _ (Yields-any _)
              (λ o _. vote_on-Progress u b o))))

    store_stage-Progress :
        (s : Mtchs) (b : Block) (qc : Qc)
        → Yields (λ (r : Mtchs × Returned). Progress s r.0) (store_stage env again s b qc)
    unfolding store_stage commit_stage
    store_stage-Progress s b qc =
        if-Yields (λ r. Progress s r.0) (ltb b.view s.base.pm.cur_view) _ _ (Progress-refl s)
          (if-Yields (λ r. Progress s r.0) (not (env.election.is_leader b.proposer b.view)) _ _
            (Progress-refl s)
            (Yields-bind (Advances s.base.bc) (λ r. Progress s r.0) (add_block s.base.bc b) _
              (add_block-Advances s.base.bc b) (λ bc h. stored bc h)))
      where
        stored :
            (bc : BlockChain)
            → Advances s.base.bc bc
            → (let base = s.base in
                let u = record s { base = update_high_block (record base { bc = bc }) b } in
                Yields
                  (λ (r : Mtchs × Returned). Progress s r.0)
                  (wake_collector env base.pm.cur_view u b >>= λ t.
                    commit_stage env again (context u) t b qc))
        stored bc h =
            let base = s.base in
            let base' = record base { bc = bc } in
            let u = record s { base = update_high_block base' b } in
            let to_u = base-Progress s (update_high_block base' b) s.vote_type (
              Moves-trans base base' _ (chain-Moves base bc h) (update_high_block-Moves base' b)) in
            after s u _ to_u (
              Yields-bind (Progress u) (λ r. Progress u r.0)
                (wake_collector env base.pm.cur_view u b) _
                (wake_collector-Progress env base.pm.cur_view u b)
                (λ t k. after u t _ k (
                  Yields-bind (λ r. Progress t r.0) (λ r. Progress t r.0) (try_commit env t b qc) _
                    (try_commit-Progress env t b qc)
                    (λ r m. after_commit-Progress (context u) t b r m))))

    certified_stage-Progress :
        (cur : View) (s : Mtchs) (b : Block) (qc : Qc)
        → Yields (λ (r : Mtchs × Returned). Progress s r.0) (certified_stage env again cur s b qc)
    unfolding certified_stage
    certified_stage-Progress cur s b qc =
        Yields-bind (Progress s) (λ r. Progress s r.0) (foreign_qc env s b qc) _
          (foreign_qc-Progress env s b qc)
          (λ t h.
            let u = record t { base = send t.base (clean b) } in
            let to_u =
              base-Progress t (send t.base (clean b)) t.vote_type (send-Moves t.base (clean b)) in
            after s u _ (Progress-trans s t u h to_u) (
              Yields-bind (Progress u) (λ r. Progress u r.0) (foreign_tc env cur u b) _
                (foreign_tc-Progress env cur u b)
                (λ w k. after u w _ k (store_stage-Progress w b qc))))

    process_block_with-Progress :
        (s : Mtchs) (b : Block)
        → Yields (λ (r : Mtchs × Returned). Progress s r.0) (process_block_with env again s b)
    unfolding process_block_with
    process_block_with-Progress s b =
        let cur = s.base.pm.cur_view in
        if-Yields_then (λ r. Progress s r.0) (ltb (cur + 1) b.view) _ _
          (λ late.
            base-Progress s (buffer_block s.base b) s.vote_type
              (buffer_block-Moves s.base b (omega (arith, ltb→lt (cur + 1) b.view late))))
          (Yields-bind (λ _. Unit {0}) (λ r. Progress s r.0) (check_block env b) _ (Yields-any _)
            (λ _ _. elim (Option-cases b.qc) [
              | inl uncertified ↦ rw uncertified (Progress-refl s)
              | inr (qc, certified) ↦ rw certified (certified_stage-Progress cur s b qc)
            ]))

  process_block_fuel-Progress :
      (fuel : ℕ) (s : Mtchs) (b : Block)
      → Yields (λ (r : Mtchs × Returned). Progress s r.0) (process_block_fuel env fuel s b)
  unfolding process_block_fuel
  process_block_fuel-Progress zero s b = tt
  process_block_fuel-Progress (suc fuel) s b =
      process_block_with-Progress (process_block_fuel env fuel) (process_block_fuel-Progress fuel) s
        b

  pub process_block-Progress :
      (s : Mtchs) (b : Block)
      → Yields (λ (r : Mtchs × Returned). Progress s r.0) (process_block env s b)
  unfolding process_block
  process_block-Progress s b = process_block_fuel-Progress (length s.base.buffered_blocks + 1) s b
