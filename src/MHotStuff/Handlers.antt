-- ===== src/MHotStuff/Handlers.antt =====
-- The stages of the handlers of mhotstuff/mhotstuff.go that process certificates.
use multipipelinehs.Prelude.{
  ◌+◌, ◌-◌, ◌<◌, ◌≡◌, All-put, ℕ_discrete, Bool, true, false, Option, none, arith, ltb, leb, inl,
  inr, Bool-cases, Option-cases, if◌then◌else◌, ◌==◌,
}
use multipipelinehs.Types.{
  View, Qc, Tc, Block, Result, ok, Yields, Yields-bind, Yields-any, if-Yields, no_timeout,
  timeout_f,
}
use multipipelinehs.Env.{Env, same_node}
use multipipelinehs.MHotStuff.{
  MHotStuff, Returned, nil, failed, advance, update_high_qc, update_high_tc, update_preferred_seq,
}
use multipipelinehs.MHotStuff.Certificate.{
  accept_qc, process_certificate, check_qc, buffer_qc, is_forking, process_tc,
}
use multipipelinehs.MHotStuff.Blocks.{buffer_block, max_tc, foreign_qc, foreign_tc}
use multipipelinehs.MHotStuff.Moves.{
  Moves, Moves-refl, Moves-trans, advance-Moves, update_high_tc-Moves, raise-Moves,
  update_preferred_seq-Moves,
}

-- A handler's result that moves the state forward.
abbrev pub Forward : MHotStuff → Result MHotStuff → Type 0
Forward s = Yields (Moves s)

abbrev pub Forward₂ {ℓ} : {B : Type ℓ} → MHotStuff → Result (MHotStuff × B) → Type 0
Forward₂ s = Yields (λ r. Moves s r.0)

pub buffer_qc-Moves : (s : MHotStuff) (qc : Qc) → Moves s (buffer_qc s qc)
unfolding buffer_qc
buffer_qc-Moves s qc = ground arith

pub buffer_block-Moves : (s : MHotStuff) (b : Block) → 0 < b.view → Moves s (buffer_block s b)
unfolding buffer_block
buffer_block-Moves s b late = ground (
  arith,
  All-put ℕ_discrete (λ (e : View × Block). e.1.view ≡ e.0 + 1) (b.view - 1) b s.buffered_blocks
      (omega arith),
)

pub process_tc-Moves : (s : MHotStuff) (tc : Tc) → Moves s (process_tc s tc)
unfolding process_tc
process_tc-Moves s tc = elim (Bool-cases (ltb tc.view s.pm.cur_view)) [
  | inl old ↦ rw (old, process_tc) (Moves-refl s)
  | inr new ↦ rw (new, process_tc) (advance-Moves s tc.view tc.seq timeout_f)
]

-- A choice of two steps.
pub if-Moves : (b : Bool) (s t u : MHotStuff) → Moves s t → Moves s u → Moves s (if b then t else u)
if-Moves true s t u ht hu = ht
if-Moves false s t u ht hu = hu

module _ (env : Env) where
  pub accept_qc-Moves : (s : MHotStuff) (qc : Qc) → Forward s (accept_qc env s qc)
  unfolding accept_qc
  accept_qc-Moves s qc =
      if-Yields (Moves s) (is_forking env qc) _ _ (advance-Moves s qc.view qc.seq timeout_f) (
        Yields-bind (λ r. Moves s r.0) (Moves s) (update_preferred_seq s qc) _
          (update_preferred_seq-Moves s qc) after)
    where
      after :
          (r : MHotStuff × Returned)
          → Moves s r.0
          → Forward s (elim r.1 [
            | failed ↦ ok (buffer_qc r.0 qc)
            | nil ↦ ok (advance (update_high_qc r.0 qc) qc.view qc.seq no_timeout)
          ])
      after (t, failed) h = Moves-trans s t _ h (buffer_qc-Moves t qc)
      after (t, nil) h = Moves-trans s t _ h (raise-Moves t qc qc.seq no_timeout)

  pub process_certificate-Moves :
      (s : MHotStuff) (qc : Qc) → Forward s (process_certificate env s qc)
  unfolding process_certificate
  process_certificate-Moves s qc =
      if-Yields (Moves s) (ltb qc.view s.pm.cur_view) _ _ (Moves-refl s) (
        Yields-bind (λ _. Unit {0}) (Moves s) (check_qc env qc) _ (Yields-any _)
          (λ good _. if-Yields (Moves s) good _ _ (accept_qc-Moves s qc) (Moves-refl s)))

  pub foreign_qc-Moves : (s : MHotStuff) (b : Block) (qc : Qc) → Forward s (foreign_qc env s b qc)
  unfolding foreign_qc
  foreign_qc-Moves s b qc =
      if-Yields (Moves s) (same_node b.proposer env.id) _ _ (Moves-refl s)
        (process_certificate-Moves s qc)

  pub clear_tcs-Moves :
      (s t : MHotStuff) (a b : Option Tc)
      → Moves s t
      → Moves s (update_high_tc (update_high_tc t a) b)
  clear_tcs-Moves s t a b h =
      Moves-trans s t _ h
        (Moves-trans t _ _ (update_high_tc-Moves t a) (update_high_tc-Moves (update_high_tc t a) b))

  pub foreign_tc-Moves :
      (cur : View) (s : MHotStuff) (b : Block) → Forward s (foreign_tc env cur s b)
  unfolding foreign_tc
  foreign_tc-Moves cur s b = elim (Option-cases b.tc) [
    | inl none_there ↦ rw (none_there, foreign_tc) (Moves-refl s)
    | inr (tc, there) ↦
        let t = if leb cur tc.view then advance s tc.view tc.seq timeout_f else s in
        let moved : Moves s t =
          if-Moves (leb cur tc.view) s _ _ (advance-Moves s tc.view tc.seq timeout_f)
            (Moves-refl s) in
        rw (there, foreign_tc)
          (if-Yields (Moves s) (same_node b.proposer env.id) _ _ (Moves-refl s) (
            Yields-bind (λ _. Unit {0}) (Moves s) (max_tc b) _ (Yields-any _)
              (λ last _.
                if-Moves (tc.view == last.view) s _ _ (clear_tcs-Moves s t none none moved) moved)))
  ]
