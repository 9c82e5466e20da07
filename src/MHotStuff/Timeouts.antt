-- ===== src/MHotStuff/Timeouts.antt =====
-- `ProcessRemoteTmo` and `ProcessLocalTmo` of mhotstuff/mhotstuff.go.
use multipipelinehs.Prelude.{◌+◌, not, some, if◌then◌else◌}
use multipipelinehs.Types.{View, Seq, Tmo, Result, ok, ◌>>=◌, deref}
use multipipelinehs.Pacemaker
use multipipelinehs.Env.{Env}
use multipipelinehs.MHotStuff.{MHotStuff, send, update_high_tc, broadcast_tmo, self_tmo}
use multipipelinehs.MHotStuff.Certificate.{process_certificate, process_tc}

module _ (env : Env) where
  unfoldable pub process_remote_tmo : MHotStuff → Tmo → Result MHotStuff
  process_remote_tmo s tmo = do
    qc ← deref tmo.high_qc
    s1 ← process_certificate env s qc
    let (pm, built, ftc, stc) = Pacemaker.process_remote_tmo s1.pm tmo in
        let s2 = record s1 { pm = pm } in
        if not built then ok s2 else do
          first ← deref ftc
          second ← deref stc
          ok (process_tc (update_high_tc (update_high_tc s2 (some first)) (some second)) first)

  unfoldable pub process_local_tmo : MHotStuff → View → Seq → MHotStuff
  process_local_tmo s view seq =
      let tmo : Tmo = record {
        view = view + 1;
        f_seq = seq;
        s_seq = seq + 1;
        node_id = env.id;
        high_qc = some s.high_qc;
      } in
      send (send s (broadcast_tmo tmo)) (self_tmo tmo)
