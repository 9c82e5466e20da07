-- ===== src/MHotStuff/Moves.antt =====
-- The parts of the state of mhotstuff/mhotstuff.go that move forward, and its small steps.
use multipipelinehs.Prelude.{
  ◌+◌, ◌≤◌, ◌<◌, ◌≡◌, List, refl, ◌⊎◌, inl, inr, ◌∙◌, Option, arith, All, ltb, Bool-cases, EndsWith,
}
use multipipelinehs.Types.{View, Seq, Qc, Tc, Block, SignalV, Yields, ProposeType, NewViewType}
use multipipelinehs.Pacemaker.{advance_view}
use multipipelinehs.Pacemaker.Views.{IsSteady, advance_view-IsSteady}
use multipipelinehs.MHotStuff.{
  MHotStuff, Event, Returned, send, emptied, signal, send_signal, advance, update_high_qc,
  update_high_tc, update_high_block, update_preferred_seq,
}

-- The highest certificate is older than the view, and the second one no newer than it.
pub record IsConsistent (s : MHotStuff) : Type 0 where
  pub behind : (s.high_qc.view < s.pm.cur_view) ⊎ (s.high_qc.view ≡ 0)
  pub second : s.sec_high_qc.view ≤ s.high_qc.view

-- Each buffered block stands under the view before its own.
abbrev pub IsFiled : List (View × Block) → Type 0
IsFiled bs = All (λ (e : View × Block). e.1.view ≡ e.0 + 1) bs

pub record Moves (s t : MHotStuff) : Type 0 where
  pub view : s.pm.cur_view ≤ t.pm.cur_view
  pub preferred : s.preferred_seq ≤ t.preferred_seq
  pub certificate : s.high_qc.view ≤ t.high_qc.view
  pub block : s.high_block.view ≤ t.high_block.view
  pub pruned : s.bc.forrest.lowest_level ≤ t.bc.forrest.lowest_level
  pub committed : s.bc.committed_block_no ≤ t.bc.committed_block_no
  pub voted_view : t.last_voted_view ≡ s.last_voted_view
  pub voted_seq : t.last_voted_seq ≡ s.last_voted_seq
  pub announced : (k : List NewViewType) → EndsWith k s.pm.entered → EndsWith k t.pm.entered
  pub steady : IsSteady s.pm → IsSteady t.pm
  pub consistent : IsConsistent s → IsConsistent t
  pub filed : IsFiled s.buffered_blocks → IsFiled t.buffered_blocks

pub Moves-refl : (s : MHotStuff) → Moves s s
Moves-refl s = record {
  view = omega arith;
  preferred = omega arith;
  certificate = omega arith;
  block = omega arith;
  pruned = omega arith;
  committed = omega arith;
  voted_view = refl;
  voted_seq = refl;
  announced = λ k h. h;
  steady = λ h. h;
  consistent = λ h. h;
  filed = λ h. h;
}

pub Moves-trans : (s t u : MHotStuff) → Moves s t → Moves t u → Moves s u
Moves-trans s t u a b = record {
  view = omega arith;
  preferred = omega arith;
  certificate = omega arith;
  block = omega arith;
  pruned = omega arith;
  committed = omega arith;
  voted_view = b.voted_view ∙ a.voted_view;
  voted_seq = b.voted_seq ∙ a.voted_seq;
  announced = λ k h. b.announced k (a.announced k h);
  steady = λ h. b.steady (a.steady h);
  consistent = λ h. b.consistent (a.consistent h);
  filed = λ h. b.filed (a.filed h);
}

pub advance-Moves :
    (s : MHotStuff) (v : View) (q : Seq) (pt : ProposeType) → Moves s (advance s v q pt)
unfolding advance advance_view
advance-Moves s v q pt = elim (Bool-cases (ltb v s.pm.cur_view)) [
  | inl old ↦ rw (old, advance, advance_view) (Moves-refl s)
  | inr new ↦ ground (arith, advance_view-IsSteady s.pm v q pt)
]

pub signal-Moves : (s : MHotStuff) (v : SignalV) → Moves s (signal s v)
unfolding signal
signal-Moves s v = ground arith

pub send_signal-Moves : (s : MHotStuff) (v : SignalV) → Yields (Moves s) (send_signal s v)
unfolding send_signal signal
send_signal-Moves s v = ground arith

pub send-Moves : (s : MHotStuff) (e : Event) → Moves s (send s e)
unfolding send
send-Moves s e = ground arith

pub emptied-Moves : (s : MHotStuff) → Moves s (emptied s)
unfolding emptied
emptied-Moves s = ground arith

pub update_high_tc-Moves : (s : MHotStuff) (tc : Option Tc) → Moves s (update_high_tc s tc)
unfolding update_high_tc
update_high_tc-Moves s tc = ground arith

pub update_high_block-Moves : (s : MHotStuff) (b : Block) → Moves s (update_high_block s b)
unfolding update_high_block
update_high_block-Moves s b = ground arith

-- A certificate becomes the highest one before the view moves past it.
pub raise-Moves :
    (s : MHotStuff) (qc : Qc) (q : Seq) (pt : ProposeType)
    → Moves s (advance (update_high_qc s qc) qc.view q pt)
unfolding advance advance_view update_high_qc
raise-Moves s qc q pt = ground (arith, advance_view-IsSteady s.pm qc.view q pt)

pub update_preferred_seq-Moves :
    (s : MHotStuff) (qc : Qc)
    → Yields (λ (r : MHotStuff × Returned). Moves s r.0) (update_preferred_seq s qc)
unfolding update_preferred_seq
update_preferred_seq-Moves s qc = ground arith
