-- ===== src/MHotStuff/Votes.antt =====
-- `ProcessVote` of mhotstuff/mhotstuff.go. It may wait for a signal: what is left of it then runs when
-- signals have come.
use multipipelinehs.Prelude.{Bool, true, not, none, some, List, [], ◌∷◌, ltb, ◌==◌, if◌then◌else◌}
use multipipelinehs.Types.{View, SignalV, continue, drop, Vote, Qc, Result, ok, ◌>>=◌, deref}
use multipipelinehs.Crypto.{pub_verify}
use multipipelinehs.BlockChain.{add_vote, get_block_by_id}
use multipipelinehs.Env.{Env, same_node}
use multipipelinehs.MHotStuff.{MHotStuff}
use multipipelinehs.MHotStuff.Certificate.{buffer_qc, process_certificate}

-- How the loop over `proposeChan` goes: it meets `Continue`, it drops the certificate, or it has taken
-- all the signals and waits.
pub data Awaited : Type 0 where
  proceed dropped : List SignalV → Awaited
  waiting : Awaited

unfoldable pub await_signal : View → List SignalV → Awaited
await_signal view [] = waiting
await_signal view (v ∷ rest) =
    let later = await_signal view rest in
    elim v.ope [ continue ↦ proceed rest | drop ↦ if ltb view v.view then dropped rest else later ]

-- Where the handler stands: it has returned, or waits with the certificate.
pub data VoteStatus : Type 0 where
  returned : VoteStatus
  waits_with : Qc → VoteStatus

module _ (env : Env) where
  -- The certificate after the signal: kept for a block that is not there yet, or processed.
  unfoldable pub release_qc : MHotStuff → Qc → Result MHotStuff
  release_qc s qc = elim (get_block_by_id s.bc qc.block_id) [
    | none ↦ if not (qc.view == 1) then ok (buffer_qc s qc) else process_certificate env s qc
    | some _ ↦ process_certificate env s qc
  ]

  -- What follows the loop.
  unfoldable pub after_signals : MHotStuff → Qc → Awaited → Result (MHotStuff × VoteStatus)
  after_signals s qc waiting = ok (record s { proposals = [] }, waits_with qc)
  after_signals s qc (dropped rest) = ok (record s { proposals = rest }, returned)
  after_signals s qc (proceed rest) = do
    t ← release_qc (record s { proposals = rest }) qc
    ok (t, returned)

  -- The loop and what follows it, with the signals that stand in the channel.
  unfoldable pub resume_vote : MHotStuff → Qc → Result (MHotStuff × VoteStatus)
  resume_vote s qc = after_signals s qc (await_signal qc.view s.proposals)

  unfoldable pub check_vote : Vote → Result Bool
  check_vote v =
      if same_node v.voter env.id
      then ok true
      else pub_verify env.ecdsa env.n v.signature v.block_id v.voter

  unfoldable pub process_vote : MHotStuff → Vote → Result (MHotStuff × VoteStatus)
  process_vote s v = do
    good ← check_vote v
    if not good
        then ok (s, returned)
        else let (bc, built, qc) = add_vote s.bc v in
          let s1 = record s { bc = bc } in
          if not built
          then ok (s1, returned)
          else do qc ← deref qc; resume_vote s1 (record qc { leader = env.id })
