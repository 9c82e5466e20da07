-- ===== src/MtHotStuff/Moves.antt =====
-- The parts of the state of mthotstuff/mthotstuff.go that move forward, and its small steps.
use multipipelinehs.Prelude.{◌≤◌, arith, Bool, true, false, ltb, if◌then◌else◌}
use multipipelinehs.Types.{
  ProposeType, Qc, Tc, no_timeout, timeout_f, Result, ok, fault, Yields, Yields-bind, Yields-any,
  if-Yields,
}
use multipipelinehs.Env.{Env}
use multipipelinehs.MHotStuff.{MHotStuff, Returned, nil, failed, advance, update_high_qc}
use multipipelinehs.MHotStuff.Certificate.{buffer_qc, check_qc, is_forking}
use multipipelinehs.MHotStuff.Moves.{Moves, Moves-refl, Moves-trans, advance-Moves, raise-Moves}
use multipipelinehs.MHotStuff.Handlers.{buffer_qc-Moves}
use multipipelinehs.MtHotStuff.{Mtchs, update_preferred_seq}
use multipipelinehs.MtHotStuff.Certificate.{accept_qc, process_certificate, process_tc}

-- The second preferred sequence number is not above the first.
abbrev pub IsRanked : Mtchs → Type 0
IsRanked s = s.sec_preferred_seq ≤ s.base.preferred_seq

-- A step that moves forward what both protocols keep, and the second preferred number if the numbers
-- are ranked, as they then stay.
pub record Progress (s t : Mtchs) : Type 0 where
  pub moves : Moves s.base t.base
  pub second : IsRanked s → s.sec_preferred_seq ≤ t.sec_preferred_seq
  pub ranked : IsRanked s → IsRanked t

pub Progress-refl : (s : Mtchs) → Progress s s
Progress-refl s = record { moves = Moves-refl s.base; second = λ h. omega arith; ranked = λ h. h }

pub Progress-trans : (s t u : Mtchs) → Progress s t → Progress t u → Progress s u
Progress-trans s t u a b = record {
  moves = Moves-trans s.base t.base u.base a.moves b.moves;
  second = λ h. omega (arith, a.second h, b.second (a.ranked h));
  ranked = λ h. b.ranked (a.ranked h);
}

-- A step of the shared part.
pub base-Progress :
    (s : Mtchs) (u : MHotStuff) (kind : ProposeType)
    → Moves s.base u
    → Progress s (record s { base = u; vote_type = kind })
base-Progress s u kind h = record {
  moves = h;
  second = λ k. omega arith;
  ranked = λ k. omega (arith, h.preferred);
}

-- A later step's result, seen from an earlier state.
pub after {ℓ} :
    {B : Type ℓ} (s t : Mtchs) (m : Result (Mtchs × B))
    → Progress s t
    → Yields (λ r. Progress t r.0) m
    → Yields (λ r. Progress s r.0) m
after s t (ok r) h k = Progress-trans s t r.0 h k
after s t (fault e) h k = tt

pub if-Progress :
    (b : Bool) (s t u : Mtchs) → Progress s t → Progress s u → Progress s (if b then t else u)
if-Progress true s t u ht hu = ht
if-Progress false s t u ht hu = hu

pub update_preferred_seq-Progress : (s : Mtchs) (qc : Qc) → Progress s (update_preferred_seq s qc).0
unfolding update_preferred_seq
update_preferred_seq-Progress s qc = ground arith

pub process_tc-Progress : (s : Mtchs) (tc : Tc) → Progress s (process_tc s tc)
unfolding process_tc
process_tc-Progress s tc = if-Progress (ltb tc.view s.base.pm.cur_view) s _ _ (Progress-refl s) (
    base-Progress s (advance s.base tc.view tc.seq timeout_f) timeout_f
      (advance-Moves s.base tc.view tc.seq timeout_f))

module _ (env : Env) where
  accept_qc-Progress : (s : Mtchs) (qc : Qc) → Progress s (accept_qc env s qc)
  unfolding accept_qc
  accept_qc-Progress s qc =
      if-Progress (is_forking env qc) s _ _
        (base-Progress s (advance s.base qc.view qc.seq no_timeout) s.vote_type
          (advance-Moves s.base qc.view qc.seq no_timeout))
        (chosen (update_preferred_seq s qc) (update_preferred_seq-Progress s qc))
    where
      chosen :
          (r : Mtchs × Returned)
          → Progress s r.0
          → (let t = r.0 in
              Progress s (elim r.1 [
                | failed ↦ record t { base = buffer_qc t.base qc }
                | nil ↦ record t {
                  base = advance (update_high_qc t.base qc) qc.view qc.seq no_timeout;
                }
              ]))
      chosen (t, failed) h =
          Progress-trans s t _ h
            (base-Progress t (buffer_qc t.base qc) t.vote_type (buffer_qc-Moves t.base qc))
      chosen (t, nil) h = Progress-trans s t _ h (
          base-Progress t (advance (update_high_qc t.base qc) qc.view qc.seq no_timeout) t.vote_type
            (raise-Moves t.base qc qc.seq no_timeout))

  pub process_certificate-Progress :
      (s : Mtchs) (qc : Qc) → Yields (Progress s) (process_certificate env s qc)
  unfolding process_certificate
  process_certificate-Progress s qc =
      if-Yields (Progress s) (ltb qc.view s.base.pm.cur_view) _ _ (Progress-refl s) (
        Yields-bind (λ _. Unit {0}) (Progress s) (check_qc env qc) _ (Yields-any _)
          (λ good _. if-Progress good s _ _ (accept_qc-Progress s qc) (Progress-refl s)))
