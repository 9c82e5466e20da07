-- ===== src/MHotStuff/Buffered.antt =====
-- The stages of `ProcessBlock` of mhotstuff/mhotstuff.go and the buffered blocks.
use multipipelinehs.Prelude.{
  ◌+◌, ◌≡◌, refl, ◌∙◌, not, ◌&&◌, Option, none, some, List, [], ◌∷◌, arith, ltb, ◌==◌, inl, inr,
  Option-cases, get, ℕ_discrete,
}
use multipipelinehs.Types.{View, Qc, Block, Yields, Yields-bind, Yields-any, if-Yields}
use multipipelinehs.BlockChain.{BlockChain, commit_block}
use multipipelinehs.Env.{Env}
use multipipelinehs.MHotStuff.{
  MHotStuff, Event, Returned, send, signal, send_signal, advance, update_high_qc, update_high_tc,
  update_preferred_seq, commit_rule,
}
use multipipelinehs.MHotStuff.Certificate.{buffer_qc, accept_qc, process_certificate}
use multipipelinehs.MHotStuff.Blocks.{
  send_all, committed_events, forked_events, record_commit, commit_found, foreign_qc, foreign_tc,
  wake_collector, try_commit, use_buffered_qc, cast_vote,
}

abbrev pub Leaves : MHotStuff → MHotStuff → Type 0
Leaves s t = t.buffered_blocks ≡ s.buffered_blocks

module _ (env : Env) where
  update_preferred_seq-Leaves :
      (s : MHotStuff) (qc : Qc)
      → Yields (λ (r : MHotStuff × Returned). Leaves s r.0) (update_preferred_seq s qc)
  unfolding update_preferred_seq
  update_preferred_seq-Leaves s qc = ground arith

  process_certificate-Leaves :
      (s : MHotStuff) (qc : Qc) → Yields (Leaves s) (process_certificate env s qc)
  unfolding process_certificate accept_qc buffer_qc update_high_qc advance
  process_certificate-Leaves s qc = ground (arith, update_preferred_seq-Leaves s qc)

  pub foreign_qc-Leaves :
      (s : MHotStuff) (b : Block) (qc : Qc) → Yields (Leaves s) (foreign_qc env s b qc)
  unfolding foreign_qc
  foreign_qc-Leaves s b qc = ground (arith, process_certificate-Leaves s qc)

  pub foreign_tc-Leaves :
      (cur : View) (s : MHotStuff) (b : Block) → Yields (Leaves s) (foreign_tc env cur s b)
  unfolding foreign_tc update_high_tc advance
  foreign_tc-Leaves cur s b = ground arith

  pub wake_collector-Leaves :
      (cur : View) (s : MHotStuff) (b : Block) → Yields (Leaves s) (wake_collector env cur s b)
  unfolding wake_collector update_high_tc advance signal send_signal
  wake_collector-Leaves cur s b = ground arith

  send_all-Leaves : (s : MHotStuff) (es : List Event) → Leaves s (send_all s es)
  unfolding send_all send
  send_all-Leaves s [] = refl
  send_all-Leaves s (e ∷ es) = send_all-Leaves (send s e) es

  record_commit-Leaves :
      (s : MHotStuff) (r : BlockChain × Option (List Block × List Block))
      → Leaves s (record_commit s r).0
  unfolding record_commit
  record_commit-Leaves s (bc, none) = refl
  record_commit-Leaves s (bc, some (cs, fs)) =
      let t = record s { bc = bc } in
      send_all-Leaves (send_all t (committed_events cs)) (forked_events fs)
      ∙ send_all-Leaves t (committed_events cs)

  pub commit_found-Leaves :
      (s : MHotStuff) (o : Option Block)
      → Yields (λ (r : MHotStuff × Option Returned). Leaves s r.0) (commit_found s o)
  unfolding commit_found
  commit_found-Leaves s none = refl
  commit_found-Leaves s (some b) =
      Yields-bind (λ _. Unit {0}) (λ r. Leaves s r.0) (commit_block s.bc b.id s.pm.cur_seq) _
        (Yields-any _) (λ r _. record_commit-Leaves s r)

  pub try_commit-Leaves :
      (s : MHotStuff) (b : Block) (qc : Qc)
      → Yields (λ (r : MHotStuff × Option Returned). Leaves s r.0) (try_commit env s b qc)
  unfolding try_commit
  try_commit-Leaves s b qc =
      if-Yields (λ r. Leaves s r.0) (not (ltb 5 qc.seq && (qc.seq + 2 == b.seq))) _ _ refl
        (Yields-bind (λ _. Unit {0}) (λ r. Leaves s r.0) (commit_rule s qc) _ (Yields-any _)
          (λ o _. commit_found-Leaves s o))

  pub use_buffered_qc-Leaves :
      (s : MHotStuff) (b : Block) → Yields (Leaves s) (use_buffered_qc env s b)
  unfolding use_buffered_qc
  use_buffered_qc-Leaves s b = elim (Option-cases (get ℕ_discrete b.id s.buffered_qcs)) [
    | inl free ↦ rw (free, use_buffered_qc) refl
    | inr (qc, held) ↦
        rw (held, use_buffered_qc)
          (Yields-bind (Leaves s) (Leaves s) (process_certificate env s qc) _
            (process_certificate-Leaves s qc) (λ t h. h))
  ]

  pub cast_vote-Leaves : (s : MHotStuff) (b : Block) → Yields (Leaves s) (cast_vote env s b)
  unfolding cast_vote send
  cast_vote-Leaves s b = ground arith
