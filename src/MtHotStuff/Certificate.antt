-- ===== src/MtHotStuff/Certificate.antt =====
-- `processCertificate` and `processTC` of mthotstuff/mthotstuff.go.
use multipipelinehs.Prelude.{ltb, if◌then◌else◌}
use multipipelinehs.Types.{Qc, Tc, Result, ok, ◌>>=◌, no_timeout, timeout_f}
use multipipelinehs.Env.{Env}
use multipipelinehs.MHotStuff.{nil, failed, advance, update_high_qc}
use multipipelinehs.MHotStuff.Certificate.{buffer_qc, check_qc, is_forking}
use multipipelinehs.MtHotStuff.{Mtchs, update_preferred_seq}

module _ (env : Env) where
  unfoldable pub accept_qc : Mtchs → Qc → Mtchs
  accept_qc s qc =
      if is_forking env qc
      then record s { base = advance s.base qc.view qc.seq no_timeout }
      else let (s', r) = update_preferred_seq s qc in
        elim r [
          | failed ↦ record s' { base = buffer_qc s'.base qc }
          | nil ↦ record s' { base = advance (update_high_qc s'.base qc) qc.view qc.seq no_timeout }
        ]

  unfoldable pub process_certificate : Mtchs → Qc → Result Mtchs
  process_certificate s qc =
      if ltb qc.view s.base.pm.cur_view
      then ok s
      else do good ← check_qc env qc; ok (if good then accept_qc s qc else s)

unfoldable pub process_tc : Mtchs → Tc → Mtchs
process_tc s tc =
    if ltb tc.view s.base.pm.cur_view
    then s
    else record s { base = advance s.base tc.view tc.seq timeout_f; vote_type = timeout_f }
