-- ===== src/MHotStuff/Certificate.antt =====
-- `processCertificate` and `processTC` of mhotstuff/mhotstuff.go.
use multipipelinehs.Prelude.{◌+◌, Bool, true, ◌&&◌, ℕ_discrete, ltb, if◌then◌else◌, put}
use multipipelinehs.Types.{Qc, Tc, Result, ok, ◌>>=◌, no_timeout, timeout_f}
use multipipelinehs.Crypto.{verify_quorum_signature}
use multipipelinehs.Env.{Env, same_node}
use multipipelinehs.MHotStuff.{
  MHotStuff, nil, failed, advance, update_high_qc, update_preferred_seq,
}

unfoldable pub buffer_qc : MHotStuff → Qc → MHotStuff
buffer_qc s qc = record s { buffered_qcs = put ℕ_discrete qc.block_id qc s.buffered_qcs }

module _ (env : Env) where
  -- The signatures of a certificate that another replica built.
  unfoldable pub check_qc : Qc → Result Bool
  check_qc qc =
      if same_node qc.leader env.id
      then ok true
      else verify_quorum_signature env.ecdsa env.n qc.agg_sig qc.block_id qc.signers

  -- A Byzantine leader of the next view that forks keeps the certificate to itself.
  unfoldable pub is_forking : Qc → Bool
  is_forking qc = env.is_byz && env.is_fork && env.election.is_leader env.id (qc.view + 1)

  unfoldable pub accept_qc : MHotStuff → Qc → Result MHotStuff
  accept_qc s qc = if is_forking qc then ok (advance s qc.view qc.seq timeout_f) else do
    (s', r) ← update_preferred_seq s qc
    elim r [
      | failed ↦ ok (buffer_qc s' qc)
      | nil ↦ ok (advance (update_high_qc s' qc) qc.view qc.seq no_timeout)
    ]

  unfoldable pub process_certificate : MHotStuff → Qc → Result MHotStuff
  process_certificate s qc =
      if ltb qc.view s.pm.cur_view
      then ok s
      else do good ← check_qc qc; if good then accept_qc s qc else ok s

unfoldable pub process_tc : MHotStuff → Tc → MHotStuff
process_tc s tc = if ltb tc.view s.pm.cur_view then s else advance s tc.view tc.seq timeout_f
