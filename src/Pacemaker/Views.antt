-- ===== src/Pacemaker/Views.antt =====
-- The current view of pacemaker/pacemaker.go.
use multipipelinehs.Prelude.{All, ℕ, ◌+◌, ◌<◌, ◌≤◌, ◌≡◌, refl, ap, ◌∙◌, List, [], ◌∷◌, arith}
use Prim.Native.Nat.{max}
use multipipelinehs.Types.{Fits, View, Seq, ProposeType, NewViewType, Tmo}
use multipipelinehs.Pacemaker.{Pacemaker, advance_view, process_remote_tmo, new_pacemaker}

-- Every event of the list, and the one before it in turn, is older than the view.
abbrev pub Older : View → List NewViewType → Type 0
Older v [] = Unit
Older v (e ∷ es) = (e.view < v) × Older e.view es

-- The events are strictly newer the later they were sent, and the latest is the current view, which is
-- then not 0.
abbrev pub Descends : View → Seq → List NewViewType → Type 0
Descends v s [] = (v ≡ 0) × (s ≡ 0)
Descends v s (e ∷ es) = (0 < v) × (e.view ≡ v) × (e.seq ≡ s) × Older v es

abbrev pub IsSteady : Pacemaker → Type 0
IsSteady p = Descends p.cur_view p.cur_seq p.entered

-- One call of a method that may change the pacemaker, with any arguments.
pub data Step (p : Pacemaker) : Pacemaker → Type 0 where
  advance : (v : View) (s : Seq) (pt : ProposeType) → Step p (advance_view p v s pt)
  remote_tmo : (tmo : Tmo) → Step p (process_remote_tmo p tmo).0

pub data Reach (n : ℕ) : Pacemaker → Type 0 where
  start : Reach n (new_pacemaker n)
  next : {p q : Pacemaker} → Reach n p → Step p q → Reach n q

Descends-Older :
    (v w : View) (s : Seq) (es : List NewViewType) → v ≤ w → Descends v s es → Older (w + 1) es
Descends-Older v w s [] h d = tt
Descends-Older v w s (e ∷ es) h d = ground arith

pub advance_view-IsSteady :
    (p : Pacemaker) (v : View) (s : Seq) (pt : ProposeType)
    → IsSteady p
    → IsSteady (advance_view p v s pt)
unfolding advance_view
advance_view-IsSteady p v s pt h = ground (arith, Descends-Older p.cur_view v p.cur_seq p.entered)

process_remote_tmo-IsSteady :
    (p : Pacemaker) (tmo : Tmo) → IsSteady p → IsSteady (process_remote_tmo p tmo).0
unfolding process_remote_tmo
process_remote_tmo-IsSteady p tmo h = ground arith

Reach-Descends : (n : ℕ) {p : Pacemaker} → Reach n p → IsSteady p
unfolding new_pacemaker
Reach-Descends n start = (refl, refl)
Reach-Descends n (next {p} r (advance v s pt)) = advance_view-IsSteady p v s pt (Reach-Descends n r)
Reach-Descends n (next {p} r (remote_tmo tmo)) =
    process_remote_tmo-IsSteady p tmo (Reach-Descends n r)

-- The announced views fit if the current one does.
Older-Fit : (v : View) (es : List NewViewType) → Fits v → Older v es → All (λ e. Fits e.view) es
Older-Fit v [] fits h = tt
Older-Fit v (e ∷ es) fits (older, h) =
    let next : Fits e.view = omega arith in (next, Older-Fit e.view es next h)

pub IsSteady-Fit : (p : Pacemaker) → IsSteady p → Fits p.cur_view → All (λ e. Fits e.view) p.entered
IsSteady-Fit p h fits = fit p.entered p.cur_view p.cur_seq h fits
  where
    fit :
        (es : List NewViewType) (v : View) (s : Seq)
        → Descends v s es
        → Fits v
        → All (λ e. Fits e.view) es
    fit [] v s h fits = tt
    fit (e ∷ es) v s (_, same, _, h) fits = (omega arith, Older-Fit v es fits h)

-- In every state that the pacemaker reaches and in which the current view and the one after it are
-- below 2 ^ 63, all views that it announced are so too, they are strictly increasing and not 0,
-- and its view and sequence number are those that it announced last (0 before the first).
pub Reach-IsSteady :
    (n : ℕ) {p : Pacemaker}
    → Reach n p
    → Fits p.cur_view
    → IsSteady p × All (λ e. Fits e.view) p.entered
Reach-IsSteady n {p} r fits = let h = Reach-Descends n r in (h, IsSteady-Fit p h fits)

-- A call of `AdvanceView`.
pub record Advance : Type 0 where
  pub view : View
  pub seq : Seq
  pub propose_type : ProposeType

unfoldable pub run_advances : Pacemaker → List Advance → Pacemaker
run_advances p [] = p
run_advances p (a ∷ rest) = run_advances (advance_view p a.view a.seq a.propose_type) rest

-- The largest of a view and the views after those that certificates carry.
abbrev pub newest : View → List Advance → View
newest v [] = v
newest v (a ∷ rest) = newest (max v (a.view + 1)) rest

-- After any sequence of calls of AdvanceView, the view is the largest of the view before them and
-- the views after those of the calls.
pub cur_view-run_advances :
    (p : Pacemaker) (calls : List Advance)
    → (run_advances p calls).cur_view ≡ newest p.cur_view calls
unfolding run_advances advance_view
cur_view-run_advances p [] = refl
cur_view-run_advances p (a ∷ rest) =
    cur_view-run_advances (advance_view p a.view a.seq a.propose_type) rest
    ∙ ap (λ v. newest v rest) (cur_view-advance_view p a)
  where
    cur_view-advance_view :
        (p : Pacemaker) (a : Advance)
        → (advance_view p a.view a.seq a.propose_type).cur_view ≡ max p.cur_view (a.view + 1)
    cur_view-advance_view p a = ground arith
