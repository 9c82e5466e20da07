-- ===== src/MHotStuff/Forgery.antt =====
-- `processCertificate` of mhotstuff/mhotstuff.go on certificates that nobody signed.
use multipipelinehs.Prelude.{◌+◌, ◌≤◌, ◌<◌, ◌≡◌, true, false, [], arith, inl, inr, Bool-cases}
use multipipelinehs.Types.{Qc, ok, no_timeout}
use multipipelinehs.Pacemaker.{advance_view}
use multipipelinehs.Crypto.{verify_quorum_signature}
use multipipelinehs.Env.{Env, same_node}
use multipipelinehs.MHotStuff.{MHotStuff, advance, update_high_qc, update_preferred_seq}
use multipipelinehs.MHotStuff.Certificate.{check_qc, is_forking, accept_qc, process_certificate}

-- What an honest replica does with a certificate that it takes.
pub record Taken (s : MHotStuff) (qc : Qc) (t : MHotStuff) : Type 0 where
  pub view : t.pm.cur_view ≡ qc.view + 1
  pub seq : t.pm.cur_seq ≡ qc.seq + 2
  pub highest : s.high_qc.view < qc.view → (t.high_qc ≡ qc) × (t.sec_high_qc ≡ s.high_qc)

module _ (env : Env) where
  -- A certificate with no signers at all passes the check.
  check_unsigned : (qc : Qc) → qc.signers ≡ [] → check_qc env qc ≡ ok true
  unfolding check_qc verify_quorum_signature
  check_unsigned qc h = elim (Bool-cases (same_node qc.leader env.id)) [
    | inl own ↦ rw (own, check_qc)
    | inr foreign ↦ rw (foreign, check_qc, h)
  ]

  accept-Taken :
      (s : MHotStuff) (qc : Qc)
      → qc.seq < 4
      → env.is_byz ≡ false
      → s.pm.cur_view ≤ qc.view
      → (t : MHotStuff) × (accept_qc env s qc ≡ ok t) × Taken s qc t
  unfolding accept_qc is_forking update_preferred_seq update_high_qc advance advance_view
  accept-Taken s qc low honest fresh =
      (advance (update_high_qc s qc) qc.view qc.seq no_timeout, ground arith, ground arith)

  -- A replica that is not Byzantine takes a certificate that names no signer, if its sequence
  -- number is below 4 and its view is not below the current one: it enters the view after it, two
  -- sequence numbers on, and makes it the highest certificate if its view is newer.
  pub process_certificate_unsigned :
      (s : MHotStuff) (qc : Qc)
      → qc.signers ≡ []
      → qc.seq < 4
      → env.is_byz ≡ false
      → s.pm.cur_view ≤ qc.view
      → (t : MHotStuff) × (process_certificate env s qc ≡ ok t) × Taken s qc t
  unfolding process_certificate
  process_certificate_unsigned s qc unsigned low honest fresh =
      let (t, e, h) = accept-Taken s qc low honest fresh in
      (t, ground (arith, check_unsigned qc unsigned), h)
