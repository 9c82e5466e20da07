-- ===== src/MHotStuff/Signals.antt =====
-- The wait on `proposeChan` in `ProcessVote` of mhotstuff/mhotstuff.go.
use multipipelinehs.Prelude.{
  ◌≤◌, ◌<◌, ◌≡◌, refl, ap, ◌∙◌, ltb→lt, ◌⊎◌, inl, inr, false, List, [], ◌∷◌, ◌++◌, arith, All, ltb,
  Bool-cases,
}
use multipipelinehs.Types.{View, SignalV, Operation, continue, drop}
use multipipelinehs.MHotStuff.Votes.{Awaited, proceed, dropped, waiting, await_signal}

Operation-cases : (o : Operation) → (o ≡ continue) ⊎ (o ≡ drop)
Operation-cases continue = inl refl
Operation-cases drop = inr refl

-- A drop signal of a view that is not newer than the certificate's.
abbrev pub IsStale : View → SignalV → Type 0
IsStale view v = (v.ope ≡ drop) × (v.view ≤ view)

-- The first signal that is not stale decides; what stands behind it is left in the channel.
pub record Decides (view : View) (signals : List SignalV) (outcome : Awaited) : Type 0 where
  pub skipped : List SignalV
  pub decider : SignalV
  pub left : List SignalV
  pub split : signals ≡ skipped ++ decider ∷ left
  pub stale : All (IsStale view) skipped
  pub verdict :
      ((decider.ope ≡ continue) × (outcome ≡ proceed left))
      ⊎ ((decider.ope ≡ drop) × (view < decider.view) × (outcome ≡ dropped left))

Decides-skip :
    (view : View) (v : SignalV) (rest : List SignalV) (outcome : Awaited)
    → IsStale view v
    → Decides view rest outcome
    → Decides view (v ∷ rest) outcome
Decides-skip view v rest outcome h d = record {
  skipped = v ∷ d.skipped;
  decider = d.decider;
  left = d.left;
  split = ap (◌∷◌ v) d.split;
  stale = (h, d.stale);
  verdict = d.verdict;
}

-- The wait of a vote handler either finds only drop signals of views not newer than that of the
-- certificate and goes on waiting, or passes over such signals up to the first other one: at a
-- continue signal it proceeds, at a drop signal of a newer view it drops the certificate, and what
-- stands behind that signal is left.
pub await_signal_lem :
    (view : View) (signals : List SignalV)
    → ((await_signal view signals ≡ waiting) × All (IsStale view) signals)
      ⊎ Decides view signals (await_signal view signals)
unfolding await_signal
await_signal_lem view [] = inl (refl, tt)
await_signal_lem view (v ∷ rest) = elim (Operation-cases v.ope) [
  | inl go ↦ inr (record {
    skipped = [];
    decider = v;
    left = rest;
    split = refl;
    stale = tt;
    verdict = inl (go, ground arith);
  })
  | inr off ↦ elim (Bool-cases (ltb view v.view)) [
    | inl newer ↦ inr (record {
      skipped = [];
      decider = v;
      left = rest;
      split = refl;
      stale = tt;
      verdict = inr (off, ltb→lt _ _ newer, ground arith);
    })
    | inr old ↦ later (off, ground arith) (skips off old) (await_signal_lem view rest)
  ]
]
  where
    skips :
        v.ope ≡ drop
        → ltb view v.view ≡ false
        → await_signal view (v ∷ rest) ≡ await_signal view rest
    skips off old = ground arith

    later :
        IsStale view v
        → await_signal view (v ∷ rest) ≡ await_signal view rest
        → ((await_signal view rest ≡ waiting) × All (IsStale view) rest)
          ⊎ Decides view rest (await_signal view rest)
        → ((await_signal view (v ∷ rest) ≡ waiting) × All (IsStale view) (v ∷ rest))
          ⊎ Decides view (v ∷ rest) (await_signal view (v ∷ rest))
    later h e (inl (w, all)) = inl (e ∙ w, (h, all))
    later h e (inr d) = inr (rw e (Decides-skip view v rest (await_signal view rest) h d))
