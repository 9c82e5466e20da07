-- ===== src/Replica/Refines.antt =====
-- A replica of replica/replica.go with either of its protocols.
use multipipelinehs.Prelude.{◌↔◌, ◌∙◌, sym, ℕ, ◌+◌, ◌≡◌, true, List, [], ◌∷◌, All, arith}
use multipipelinehs.Types.{Fits, Block, ok}
use multipipelinehs.Env.{Env}
use multipipelinehs.Config.{Config}
use multipipelinehs.Crypto.{key_index}
use multipipelinehs.Mempool.{Transaction}
use multipipelinehs.Safety.{Lawful, Proposes}
use multipipelinehs.Safety.Pipeline.{mhotstuff-Lawful}
use multipipelinehs.Safety.Threads.{mthotstuff-Lawful}
use multipipelinehs.Replica.{Replica, cur_view}
use multipipelinehs.Replica.Loops.{Turn, txn_comes, starts, enters, new_views, run}
use multipipelinehs.Replica.Start.{
  Algorithm, mhotstuff_alg, mthotstuff_alg, other_alg, choose_protocol, new_replica,
}
use multipipelinehs.Replica.Alike.{proposals}
use multipipelinehs.Replica.Proposals.{Covers, Falls}
use multipipelinehs.Replica.Runs
use multipipelinehs.Replica.Stale
use multipipelinehs.Replica.Stale.{drop_stale}
use multipipelinehs.Replica.Drain
use multipipelinehs.Replica.Drain.{turns_for, HasSpace}
use multipipelinehs.Replica.Kickoff
use multipipelinehs.Replica.Kickoff.{first_view}

choose-Lawful : (env : Env) (alg : Algorithm) → Lawful env (choose_protocol env alg)
choose-Lawful env mhotstuff_alg = mhotstuff-Lawful env
choose-Lawful env mthotstuff_alg = mthotstuff-Lawful env
choose-Lawful env other_alg = mhotstuff-Lawful env

module _ (env : Env) (alg : Algorithm) (config : Config) where
  -- A run of the replica from its start.
  abbrev pub Run : List Turn → Replica (choose_protocol env alg) → Type 0
  Run ts r = run env config.b_size ts (new_replica env alg config) ≡ ok r

  -- In any run of a replica with either protocol from its start (messages, timeouts and turns of
  -- its loops in any order) that returns, and after which the current view and the one after it
  -- are below 2 ^ 63 (so that no view wraps), each block that it has proposed is of a view not
  -- above the current one and above those of its earlier proposals, so that no view has two, and
  -- it is made by the replica as a leader of its view.
  pub one_proposal_per_view :
      (ts : List Turn) (r : Replica (choose_protocol env alg))
      → Run ts r
      → Fits (cur_view r)
      → Falls (cur_view r + 1) (proposals r.network)
        × All
            (λ b. (b.proposer ≡ env.id) × (env.election.is_leader env.id b.view ≡ true))
            (proposals r.network)
  unfolding new_replica
  one_proposal_per_view ts r e fits =
      Runs.proposals_once env (choose-Lawful env alg) config.b_size env.n _ ts r e

  -- Take any run of a replica with either protocol from its start after which its loops run, and
  -- the current view and the one after it are below 2 ^ 63, and a replica that has a key. Let no
  -- announced view start after a first timeout, or let the signals in proposeChan and such views
  -- that are queued, or announced and not yet heard, be four at most; the channels of the replica
  -- itself are taken to have room. If the loop over the announced views and the loop over the new
  -- views then get one turn for each view that the pacemaker has announced, they return, and the
  -- replica has proposed exactly one block for each announced view that it leads, in the order of
  -- the views.
  pub led_views_proposed :
      (ts : List Turn) (r : Replica (choose_protocol env alg)) (k : ℕ)
      → Run ts r
      → r.running ≡ true
      → key_index env.n env.id ≡ ok k
      → Fits (cur_view r)
      → HasSpace r
      → (t : Replica (choose_protocol env alg)) × (run env config.b_size
            (turns_for ((choose_protocol env alg).pm r.protocol).entered)
            r
          ≡ ok t)
        × Covers env ((choose_protocol env alg).pm r.protocol).entered (proposals t.network)
  unfolding new_replica
  led_views_proposed ts r k e on key fits space =
      Drain.led_views_proposed env (choose-Lawful env alg) config.b_size env.n _ ts r k e on key
        space

  -- After any run of a replica with either protocol from its start in which it is still in view 0,
  -- if it leads view 1 and has a key, a transaction, the start, and one turn each of the loops
  -- over the announced and the new views make it propose its first block, which is of view 1 and
  -- sequence number 2.
  pub first_leader-Proposes :
      (ts : List Turn) (r : Replica (choose_protocol env alg)) (stamp now later : ℕ)
      (tx : Transaction) (k : ℕ)
      → Run ts r
      → cur_view r ≡ 0
      → env.election.is_leader env.id 1 ≡ true
      → key_index env.n env.id ≡ ok k
      → (t : Replica (choose_protocol env alg)) × (b : Block) × (run env config.b_size
            (txn_comes stamp now later tx ∷ starts ∷ enters ∷ new_views ∷ [])
            r
          ≡ ok t)
        × (proposals t.network ≡ b ∷ [])
        × Proposes env first_view b
  unfolding new_replica
  first_leader-Proposes ts r stamp now later tx k =
      Kickoff.kick_off-Proposes env (choose-Lawful env alg) config.b_size env.n _ ts r stamp now
        later tx k

  -- For a replica with either protocol, any sequence of messages and turns, and any state in which
  -- the current view and the one after it are below 2 ^ 63: the sequence returns that state
  -- exactly if it does so without the votes whose sequence number, and the timeout messages whose
  -- view, is below the current view at its start.
  pub stale_messages_dropped :
      (ts : List Turn) (r t : Replica (choose_protocol env alg))
      → Fits (cur_view t)
      → (run env config.b_size ts r ≡ ok t)
        ↔ (run env config.b_size (drop_stale (cur_view r) ts) r ≡ ok t)
  stale_messages_dropped ts r t fits =
      let same =
        Stale.run-drop_stale env (choose-Lawful env alg) config.b_size (cur_view r) ts r
          (omega arith) in
      (λ e. sym same ∙ e, λ e. same ∙ e)
