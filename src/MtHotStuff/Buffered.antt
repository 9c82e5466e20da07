-- ===== src/MtHotStuff/Buffered.antt =====
-- The stages of `ProcessBlock` of mthotstuff/mthotstuff.go and the buffered blocks.
use multipipelinehs.Prelude.{
  ◌+◌, ◌≡◌, refl, not, ◌&&◌, Option, arith, ltb, ◌==◌, inl, inr, Option-cases, get, ℕ_discrete,
}
use multipipelinehs.Types.{View, Qc, Block, Yields, Yields-bind, Yields-any, if-Yields}
use multipipelinehs.Env.{Env}
use multipipelinehs.MHotStuff.{
  Returned, signal, send_signal, advance, update_high_qc, update_high_tc,
}
use multipipelinehs.MHotStuff.Certificate.{buffer_qc}
use multipipelinehs.MHotStuff.Blocks.{commit_found}
use multipipelinehs.MHotStuff.Buffered.{commit_found-Leaves}
use multipipelinehs.MtHotStuff.{Mtchs, update_preferred_seq, commit_rule}
use multipipelinehs.MtHotStuff.Certificate.{accept_qc, process_certificate}
use multipipelinehs.MtHotStuff.Blocks.{
  foreign_qc, foreign_tc, wake_collector, try_commit, use_buffered_qc,
}

abbrev pub Keeps : Mtchs → Mtchs → Type 0
Keeps s t = t.base.buffered_blocks ≡ s.base.buffered_blocks

module _ (env : Env) where
  update_preferred_seq-Keeps : (s : Mtchs) (qc : Qc) → Keeps s (update_preferred_seq s qc).0
  unfolding update_preferred_seq
  update_preferred_seq-Keeps s qc = ground arith

  process_certificate-Keeps :
      (s : Mtchs) (qc : Qc) → Yields (Keeps s) (process_certificate env s qc)
  unfolding process_certificate accept_qc buffer_qc update_high_qc advance
  process_certificate-Keeps s qc = ground (arith, update_preferred_seq-Keeps s qc)

  pub foreign_qc-Keeps :
      (s : Mtchs) (b : Block) (qc : Qc) → Yields (Keeps s) (foreign_qc env s b qc)
  unfolding foreign_qc
  foreign_qc-Keeps s b qc = ground (arith, process_certificate-Keeps s qc)

  pub foreign_tc-Keeps :
      (cur : View) (s : Mtchs) (b : Block) → Yields (Keeps s) (foreign_tc env cur s b)
  unfolding foreign_tc update_high_tc advance
  foreign_tc-Keeps cur s b = ground arith

  pub wake_collector-Keeps :
      (cur : View) (s : Mtchs) (b : Block) → Yields (Keeps s) (wake_collector env cur s b)
  unfolding wake_collector update_high_tc advance signal send_signal
  wake_collector-Keeps cur s b = ground arith

  pub try_commit-Keeps :
      (s : Mtchs) (b : Block) (qc : Qc)
      → Yields (λ (r : Mtchs × Option Returned). Keeps s r.0) (try_commit env s b qc)
  unfolding try_commit
  try_commit-Keeps s b qc =
      if-Yields (λ r. Keeps s r.0) (not (ltb 3 qc.view && (qc.seq + 2 == b.seq))) _ _ refl
        (Yields-bind (λ _. Unit {0}) (λ r. Keeps s r.0) (commit_rule s qc) _ (Yields-any _)
          (λ o _.
            Yields-bind (λ r. r.0.buffered_blocks ≡ s.base.buffered_blocks) (λ r. Keeps s r.0)
              (commit_found s.base o) _ (commit_found-Leaves env s.base o) (λ r h. h)))

  pub use_buffered_qc-Keeps : (s : Mtchs) (b : Block) → Yields (Keeps s) (use_buffered_qc env s b)
  unfolding use_buffered_qc
  use_buffered_qc-Keeps s b = elim (Option-cases (get ℕ_discrete b.id s.base.buffered_qcs)) [
    | inl free ↦ rw (free, use_buffered_qc) refl
    | inr (qc, held) ↦
        rw (held, use_buffered_qc)
          (Yields-bind (Keeps s) (Keeps s) (process_certificate env s qc) _
            (process_certificate-Keeps s qc) (λ t h. h))
  ]
