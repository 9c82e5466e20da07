-- ===== src/MtHotStuff/Reach.antt =====
-- The states that the handlers of mthotstuff/mthotstuff.go reach.
use multipipelinehs.Prelude.{ℕ, ◌≡◌, refl, true, some, List, arith}
use multipipelinehs.Types.{
  Fits, View, Seq, Qc, Tmo, Vote, Block, NewViewType, Payload, ok, Yields-ok, ProposeType,
  no_timeout, timeout_f,
}
use multipipelinehs.Env.{Env}
use multipipelinehs.MHotStuff.{Returned, advance, emptied, new_mhotstuff}
use multipipelinehs.MHotStuff.Votes.{VoteStatus}
use multipipelinehs.MHotStuff.Moves.{advance-Moves, emptied-Moves}
use multipipelinehs.MtHotStuff.{Mtchs, new_mtchs, context, voting_rule, is_below}
use multipipelinehs.MtHotStuff.Blocks.{process_block}
use multipipelinehs.MtHotStuff.Messages.{
  resume_vote, process_vote, process_remote_tmo, process_local_tmo, make_proposal,
}
use multipipelinehs.MtHotStuff.Moves.{
  Progress, Progress-refl, Progress-trans, base-Progress, IsRanked,
}
use multipipelinehs.MtHotStuff.BlockMoves.{process_block-Progress}
use multipipelinehs.MtHotStuff.MessageMoves.{
  make_proposal-Progress, resume_vote-Progress, process_vote-Progress, process_remote_tmo-Progress,
  process_local_tmo-Progress,
}

module _ (env : Env) where
  -- One call of a handler, with any arguments, that comes back; `kick` is the first leader's own call
  -- of `AdvanceView`, and `delivers` takes what was sent.
  pub data Step (s : Mtchs) : Mtchs → Type 0 where
    blocks : (b : Block) (r : Mtchs × Returned) → process_block env s b ≡ ok r → Step s r.0
    votes : (v : Vote) (r : Mtchs × VoteStatus) → process_vote env s v ≡ ok r → Step s r.0
    resumes : (qc : Qc) (r : Mtchs × VoteStatus) → resume_vote env s qc ≡ ok r → Step s r.0
    remote_tmos : (tmo : Tmo) (t : Mtchs) → process_remote_tmo env s tmo ≡ ok t → Step s t
    local_tmos : (v : View) (q : Seq) → Step s (process_local_tmo env s v q)
    proposes :
        (v : NewViewType) (payload : List Payload) (r : Mtchs × Block)
        → make_proposal env s v payload ≡ ok r
        → Step s r.0
    kick :
        (v : View) (q : Seq) (pt : ProposeType) → Step s (record s { base = advance s.base v q pt })
    delivers : Step s (record s { base = emptied s.base })

  pub data Steps (s : Mtchs) : Mtchs → Type 0 where
    here : Steps s s
    next : {t u : Mtchs} → Steps s t → Step t u → Steps s u

  pub Steps-trans : {s t u : Mtchs} → Steps s t → Steps t u → Steps s u
  Steps-trans r here = r
  Steps-trans r (next a st) = next (Steps-trans r a) st

  Step-Progress : {s t : Mtchs} → Step s t → Progress s t
  Step-Progress {s} (blocks b r e) =
      Yields-ok (λ r. Progress s r.0) (process_block env s b) r (process_block-Progress env s b) e
  Step-Progress {s} (votes v r e) =
      Yields-ok (λ r. Progress s r.0) (process_vote env s v) r (process_vote-Progress env s v) e
  Step-Progress {s} (resumes qc r e) =
      Yields-ok (λ r. Progress s r.0) (resume_vote env s qc) r (resume_vote-Progress env s qc) e
  Step-Progress {s} (remote_tmos tmo t e) =
      Yields-ok (Progress s) (process_remote_tmo env s tmo) t
        (process_remote_tmo-Progress env s tmo) e
  Step-Progress {s} (local_tmos v q) = process_local_tmo-Progress env s v q
  Step-Progress {s} (proposes v payload r e) =
      Yields-ok (λ r. Progress s r.0) (make_proposal env s v payload) r
        (make_proposal-Progress env s v payload) e
  Step-Progress {s} (kick v q pt) =
      base-Progress s (advance s.base v q pt) s.vote_type (advance-Moves s.base v q pt)
  Step-Progress {s} delivers = base-Progress s (emptied s.base) s.vote_type (emptied-Moves s.base)

  pub Steps-Progress : {s t : Mtchs} → Steps s t → Progress s t
  Steps-Progress {s} here = Progress-refl s
  Steps-Progress {s} (next {t} {u} r st) =
      Progress-trans s t u (Steps-Progress r) (Step-Progress st)

  -- In any run of handler calls of the variant that return, in any order and with any arguments,
  -- after which the current view and the one after it are still below 2 ^ 63 (so that no view
  -- wraps), they were so all along, and what the other protocol never takes back is never taken
  -- back, the second preferred sequence number stays at most the first if it was, and then does
  -- not decrease.
  pub Steps-Onward :
      {s t : Mtchs} → Steps s t → Fits t.base.pm.cur_view → Fits s.base.pm.cur_view × Progress s t
  Steps-Onward r fits = let h = Steps-Progress r in (omega (arith, h.moves.view), h)

  start_lem : (n : ℕ) → IsRanked (new_mtchs n) × ((new_mtchs n).base.last_voted_seq ≡ 0)
  unfolding new_mtchs new_mhotstuff
  start_lem n = (omega arith, refl)

  -- In every state that a replica of the variant reaches from its start by handler calls that
  -- return, a block that it may vote for in a view without a timeout is one that it may vote for
  -- in the first view after a timeout: that rule is never the stricter.
  pub voting_rule_timeout_f :
      (n : ℕ) {t : Mtchs} (b : Block)
      → Steps (new_mtchs n) t
      → voting_rule t b (context (record t { vote_type = no_timeout })) ≡ ok (some true)
      → voting_rule t b (context (record t { vote_type = timeout_f })) ≡ ok (some true)
  unfolding voting_rule is_below context
  voting_rule_timeout_f n {t} b r h = ground (arith, (Steps-Progress r).ranked (start_lem n).0)
