-- ===== src/MtHotStuff/Messages.antt =====
-- `ProcessVote`, `ProcessRemoteTmo`, `ProcessLocalTmo` and `MakeProposal` of mthotstuff/mthotstuff.go.
use multipipelinehs.Prelude.{not, none, some, List, [], ltb, ◌==◌, if◌then◌else◌}
use multipipelinehs.Types.{
  View, Seq, Vote, Qc, Tmo, NewViewType, Payload, Block, Result, ok, ◌>>=◌, deref,
}
use multipipelinehs.Pacemaker
use multipipelinehs.BlockChain.{add_vote, get_block_by_id}
use multipipelinehs.Env.{Env}
use multipipelinehs.MHotStuff.{update_high_tc}
use multipipelinehs.MHotStuff.Certificate.{buffer_qc}
use multipipelinehs.MHotStuff.Votes.{
  Awaited, proceed, dropped, waiting, await_signal, VoteStatus, returned, waits_with, check_vote,
}
use multipipelinehs.MHotStuff.Timeouts
use multipipelinehs.MHotStuff.Proposal
use multipipelinehs.MtHotStuff.{Mtchs}
use multipipelinehs.MtHotStuff.Certificate.{process_certificate, process_tc}

module _ (env : Env) where
  unfoldable pub release_qc : Mtchs → Qc → Result Mtchs
  release_qc s qc = elim (get_block_by_id s.base.bc qc.block_id) [
    | none ↦
        if not (qc.view == 1)
        then ok (record s { base = buffer_qc s.base qc })
        else process_certificate env s qc
    | some _ ↦ process_certificate env s qc
  ]

  -- What follows the loop over the signals.
  unfoldable pub after_signals : Mtchs → Qc → Awaited → Result (Mtchs × VoteStatus)
  after_signals s qc waiting =
      let base = s.base in ok (record s { base = record base { proposals = [] } }, waits_with qc)
  after_signals s qc (dropped rest) =
      let base = s.base in ok (record s { base = record base { proposals = rest } }, returned)
  after_signals s qc (proceed rest) =
      let base = s.base in
      do t ← release_qc (record s { base = record base { proposals = rest } }) qc; ok (t, returned)

  unfoldable pub resume_vote : Mtchs → Qc → Result (Mtchs × VoteStatus)
  resume_vote s qc = after_signals s qc (await_signal qc.view s.base.proposals)

  unfoldable pub process_vote : Mtchs → Vote → Result (Mtchs × VoteStatus)
  process_vote s v = do
    good ← check_vote env v
    if not good
        then ok (s, returned)
        else let base = s.base in
          let (bc, built, qc) = add_vote base.bc v in
          let s1 = record s { base = record base { bc = bc } } in
          if not built
          then ok (s1, returned)
          else do qc ← deref qc; resume_vote s1 (record qc { leader = env.id })

  unfoldable pub process_remote_tmo : Mtchs → Tmo → Result Mtchs
  process_remote_tmo s tmo = do
    qc ← deref tmo.high_qc
    s1 ← process_certificate env s qc
    let base = s1.base
    if ltb tmo.view base.pm.cur_view
        then ok s1
        else let (pm, built, ftc, stc) = Pacemaker.process_remote_tmo base.pm tmo in
          let s2 = record base { pm = pm } in
          if not built then ok (record s1 { base = s2 }) else do
            first ← deref ftc
            second ← deref stc
            ok (
                process_tc
                  (record s1 {
                    base = update_high_tc (update_high_tc s2 (some first)) (some second);
                  })
                  first)

  -- These two are written as in the other protocol.
  unfoldable pub process_local_tmo : Mtchs → View → Seq → Mtchs
  process_local_tmo s view seq = record s { base = Timeouts.process_local_tmo env s.base view seq }

  unfoldable pub make_proposal : Mtchs → NewViewType → List Payload → Result (Mtchs × Block)
  make_proposal s v payload = do
    (base, block) ← Proposal.make_proposal env s.base v payload
    ok (record s { base = base }, block)
