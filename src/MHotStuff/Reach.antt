-- ===== src/MHotStuff/Reach.antt =====
-- The states that the handlers of mhotstuff/mhotstuff.go reach, in any order of calls with any
-- arguments.
use multipipelinehs.Prelude.{ℕ, ◌≤◌, ◌≡◌, ◌≢◌, ◌↔◌, refl, ◌∙◌, true, some, List, arith}
use multipipelinehs.Types.{
  Fits, View, Seq, Qc, Tmo, Vote, Block, NewViewType, Payload, ok, Yields-ok, ProposeType,
}
use multipipelinehs.BlockChain.{get_block_by_id}
use multipipelinehs.Env.{Env}
use multipipelinehs.MHotStuff.{MHotStuff, Returned, new_mhotstuff, emptied, advance, voting_rule}
use multipipelinehs.MHotStuff.Blocks.{process_block}
use multipipelinehs.MHotStuff.Votes.{VoteStatus, resume_vote, process_vote}
use multipipelinehs.MHotStuff.Timeouts.{process_remote_tmo, process_local_tmo}
use multipipelinehs.MHotStuff.Proposal.{make_proposal}
use multipipelinehs.MHotStuff.Moves.{Moves, Moves-refl, Moves-trans, advance-Moves, emptied-Moves}
use multipipelinehs.MHotStuff.BlockMoves.{process_block-Moves}
use multipipelinehs.MHotStuff.MessageMoves.{
  make_proposal-Moves, resume_vote-Moves, process_vote-Moves, process_remote_tmo-Moves,
  process_local_tmo-Moves,
}

module _ (env : Env) where
  -- One call of a handler, with any arguments, that comes back; `kick` is the first leader's own call
  -- of `AdvanceView`, and `resumes` is a waiting vote handler that goes on. `delivers` takes
  -- what was sent.
  pub data Step (s : MHotStuff) : MHotStuff → Type 0 where
    blocks : (b : Block) (r : MHotStuff × Returned) → process_block env s b ≡ ok r → Step s r.0
    votes : (v : Vote) (r : MHotStuff × VoteStatus) → process_vote env s v ≡ ok r → Step s r.0
    resumes : (qc : Qc) (r : MHotStuff × VoteStatus) → resume_vote env s qc ≡ ok r → Step s r.0
    remote_tmos : (tmo : Tmo) (t : MHotStuff) → process_remote_tmo env s tmo ≡ ok t → Step s t
    local_tmos : (v : View) (q : Seq) → Step s (process_local_tmo env s v q)
    proposes :
        (v : NewViewType) (payload : List Payload) (r : MHotStuff × Block)
        → make_proposal env s v payload ≡ ok r
        → Step s r.0
    kick : (v : View) (q : Seq) (pt : ProposeType) → Step s (advance s v q pt)
    delivers : Step s (emptied s)

  pub data Steps (s : MHotStuff) : MHotStuff → Type 0 where
    here : Steps s s
    next : {t u : MHotStuff} → Steps s t → Step t u → Steps s u

  pub Steps-trans : {s t u : MHotStuff} → Steps s t → Steps t u → Steps s u
  Steps-trans r here = r
  Steps-trans r (next a st) = next (Steps-trans r a) st

  Step-Moves : {s t : MHotStuff} → Step s t → Moves s t
  Step-Moves {s} (blocks b r e) =
      Yields-ok (λ r. Moves s r.0) (process_block env s b) r (process_block-Moves env s b) e
  Step-Moves {s} (votes v r e) =
      Yields-ok (λ r. Moves s r.0) (process_vote env s v) r (process_vote-Moves env s v) e
  Step-Moves {s} (resumes qc r e) =
      Yields-ok (λ r. Moves s r.0) (resume_vote env s qc) r (resume_vote-Moves env s qc) e
  Step-Moves {s} (remote_tmos tmo t e) =
      Yields-ok (Moves s) (process_remote_tmo env s tmo) t (process_remote_tmo-Moves env s tmo) e
  Step-Moves {s} (local_tmos v q) = process_local_tmo-Moves env s v q
  Step-Moves {s} (proposes v payload r e) =
      Yields-ok (λ r. Moves s r.0) (make_proposal env s v payload) r
        (make_proposal-Moves env s v payload) e
  Step-Moves {s} (kick v q pt) = advance-Moves s v q pt
  Step-Moves {s} delivers = emptied-Moves s

  pub Steps-Moves : {s t : MHotStuff} → Steps s t → Moves s t
  Steps-Moves {s} here = Moves-refl s
  Steps-Moves {s} (next {t} {u} r st) = Moves-trans s t u (Steps-Moves r) (Step-Moves st)

  -- In any run of handler calls that return, in any order and with any arguments, after which the
  -- current view and the one after it are still below 2 ^ 63 (so that no view wraps), they were so
  -- all along, and the current view, the preferred sequence number, the views of the highest
  -- certificate and of the highest block, the pruning level and the number of committed blocks
  -- never decrease, the marks of the last vote never change; the certificates stay consistent with
  -- the view, and the buffered blocks each under the view before their own, if they were; and what
  -- the pacemaker has announced stays announced, and in order if it was.
  pub Steps-Forward :
      {s t : MHotStuff} → Steps s t → Fits t.pm.cur_view → Fits s.pm.cur_view × Moves s t
  Steps-Forward r fits = let h = Steps-Moves r in (omega (arith, h.view), h)

  last_voted_start : (n : ℕ) → (new_mhotstuff n).last_voted_seq ≡ 0
  unfolding new_mhotstuff
  last_voted_start n = refl

  -- In every state that a replica reaches from its start by handler calls that return, for a block
  -- of view 5 or later whose certificate names a stored block, the voting rule allows a vote
  -- exactly when the sequence number of the block is not 0 and that of the named block is not
  -- below the preferred one; the votes cast before play no part.
  pub voting_rule_iff :
      (n : ℕ) {t : MHotStuff} (b p : Block) (qc : Qc)
      → Steps (new_mhotstuff n) t
      → 5 ≤ b.view
      → b.qc ≡ some qc
      → get_block_by_id t.bc qc.block_id ≡ some p
      → (voting_rule t b ≡ ok (some true)) ↔ ((b.seq ≢ 0) × (t.preferred_seq ≤ p.seq))
  unfolding voting_rule
  voting_rule_iff n b p qc r late certified found =
      ground (arith, (Steps-Moves r).voted_seq ∙ last_voted_start n)
