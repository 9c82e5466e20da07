-- ===== src/Replica/Proposals.antt =====
-- What a replica proposes in any run of the turns of replica/replica.go.
use multipipelinehs.Prelude.{
  ℕ, ◌+◌, ◌-◌, ◌≤◌, ◌<◌, ◌≡◌, refl, ap, sym, ◌∙◌, ◌⊎◌, inl, inr, true, false, none, some, List, [],
  ◌∷◌, ◌++◌, arith, length, EndsWith, Bool-cases, Option-cases, dec_lt,
}
use multipipelinehs.Types.{View, NewViewType, Block, Yields, Yields-mono}
use multipipelinehs.Env.{Env}
use multipipelinehs.Pacemaker.Views.{Older, IsSteady}
use multipipelinehs.Safety.{Safety, Lawful, Proposes}
use multipipelinehs.Replica.{Replica}
use multipipelinehs.Replica.Loops.{
  next_entered, enter_view, propose_block, process_new_view, turn_new_views,
}
use multipipelinehs.Replica.Alike.{proposals, IsAwake}
use multipipelinehs.Replica.Quiet.{Quiet, Proposed, propose_block-Proposed}

-- The views in the queue, and those taken out of it before, the latest first.
abbrev pub onto : List NewViewType → List NewViewType → List NewViewType
onto [] done = done
onto (v ∷ queue) done = onto queue (v ∷ done)

onto-append :
    (queue done : List NewViewType) (v : NewViewType)
    → onto (queue ++ v ∷ []) done ≡ v ∷ onto queue done
onto-append [] done v = refl
onto-append (q ∷ queue) done v = onto-append queue (q ∷ done) v

-- A block that the replica proposed for a view that it leads.
pub record Leads (env : Env) (v : NewViewType) (b : Block) : Type 0 where
  pub proposes : Proposes env v b
  pub leads : env.election.is_leader env.id v.view ≡ true

-- One block is proposed for each of the views that the replica leads, in their order.
abbrev pub Covers : Env → List NewViewType → List Block → Type 0
Covers env [] bs = bs ≡ []
Covers env (v ∷ vs) bs =
    ((env.election.is_leader env.id v.view ≡ false) × Covers env vs bs)
    ⊎ ((b : Block) × (cs : List Block) × (bs ≡ b ∷ cs) × Leads env v b × Covers env vs cs)

-- The blocks are of views below the given one, each of a view below that of the one before.
abbrev pub Falls : View → List Block → Type 0
Falls v [] = Unit
Falls v (b ∷ bs) = (b.view < v) × Falls b.view bs

Falls-mono : (v w : View) (bs : List Block) → v ≤ w → Falls v bs → Falls w bs
Falls-mono v w [] h f = tt
Falls-mono v w (b ∷ bs) h f = (omega arith, f.1)

Older-mono : (v w : View) (vs : List NewViewType) → v ≤ w → Older v vs → Older w vs
Older-mono v w [] h f = tt
Older-mono v w (e ∷ vs) h f = (omega arith, f.1)

pub Covers-Falls :
    (env : Env) (v : View) (vs : List NewViewType) (bs : List Block)
    → Older v vs
    → Covers env vs bs
    → Falls v bs
Covers-Falls env v [] bs old none_made = rw none_made tt
Covers-Falls env v (e ∷ vs) bs old (inl (_, h)) =
    Covers-Falls env v vs bs (Older-mono e.view v vs (omega arith) old.1) h
Covers-Falls env v (e ∷ vs) bs old (inr (b, cs, eq, l, h)) =
    rw eq
      (omega (arith, l.proposes.view), rw l.proposes.view (Covers-Falls env e.view vs cs old.1 h))

pub Older-EndsWith : (v : View) (k vs : List NewViewType) → EndsWith k vs → Older v vs → Older v k
Older-EndsWith v k [] h old = rw h tt
Older-EndsWith v k (e ∷ vs) (inl h) old = rw h old
Older-EndsWith v k (e ∷ vs) (inr h) old =
    Older-EndsWith v k vs h (Older-mono e.view v vs (omega arith) old.1)

pub Older-onto :
    (v : View) (queue done : List NewViewType) → Older v (onto queue done) → Older v done
Older-onto v [] done old = old
Older-onto v (q ∷ queue) done old =
    let h = Older-onto v queue (q ∷ done) old in Older-mono q.view v done (omega arith) h.1

-- What holds of a replica between two turns.
pub record IsOrderly (env : Env) {p : Safety} (r : Replica p) : Type 0 where
  pub steady : IsSteady (p.pm r.protocol)
  pub heard : EndsWith r.heard (p.pm r.protocol).entered
  pub done : List NewViewType
  pub taken : r.heard ≡ onto r.new_view_chan done
  pub covers : Covers env done (proposals r.network)
  pub awake : IsAwake r

pub EndsWith-length : (k vs : List NewViewType) → EndsWith k vs → length k ≤ length vs
EndsWith-length k [] h = rw h (omega arith)
EndsWith-length k (v ∷ vs) (inl h) = rw h (omega arith)
EndsWith-length k (v ∷ vs) (inr h) = omega (arith, EndsWith-length k vs h)

pub EndsWith-whole : (k vs : List NewViewType) → EndsWith k vs → length k ≡ length vs → k ≡ vs
EndsWith-whole k [] h e = h
EndsWith-whole k (v ∷ vs) (inl h) e = h
EndsWith-whole k (v ∷ vs) (inr h) e = absurd (omega (arith, EndsWith-length k vs h))

pub next_entered-later :
    (x : NewViewType) (entered heard : List NewViewType)
    → length heard < length entered
    → next_entered (x ∷ entered) heard ≡ next_entered entered heard
unfolding next_entered
next_entered-later x entered heard h =
    let shifted : length entered + 1 - (length heard + 1)
        ≡ (length entered - (length heard + 1)) + 1 =
      omega arith in
    ground arith

pub next_entered-last :
    (x : NewViewType) (entered : List NewViewType) → next_entered (x ∷ entered) entered ≡ some x
unfolding next_entered
next_entered-last x entered =
    let start : length entered + 1 - (length entered + 1) ≡ 0 = omega arith in ground arith

pub next_entered-none : (entered : List NewViewType) → next_entered entered entered ≡ none
unfolding next_entered
next_entered-none entered = ground arith

nothing {ℓ} : {A : Type ℓ} {a : A} → none ≡ some a → ⊥
nothing e = cc

-- The next event of the pacemaker stands right before those that were taken.
next_entered-EndsWith :
    (entered heard : List NewViewType) (v : NewViewType)
    → EndsWith heard entered
    → next_entered entered heard ≡ some v
    → EndsWith (v ∷ heard) entered
next_entered-EndsWith [] heard v h e =
    absurd (nothing (sym (next_entered-none []) ∙ ap (next_entered []) (sym h) ∙ e))
next_entered-EndsWith (x ∷ entered) heard v (inl h) e =
    absurd (
      nothing (sym (next_entered-none (x ∷ entered)) ∙ ap (next_entered (x ∷ entered)) (sym h) ∙ e))
next_entered-EndsWith (x ∷ entered) heard v (inr h) e =
    elim (dec_lt (length heard) (length entered)) [
      | yes lt ↦ inr (
          next_entered-EndsWith entered heard v h (sym (next_entered-later x entered heard lt) ∙ e))
      | no stop ↦
          inl (
            first
              (EndsWith-whole heard entered h (ground (arith, EndsWith-length heard entered h))))
    ]
  where
    first : heard ≡ entered → v ∷ heard ≡ x ∷ entered
    first whole =
        let found : some x ≡ some v =
          sym (next_entered-last x entered) ∙ ap (next_entered (x ∷ entered)) (sym whole) ∙ e in
        cc

module _ (env : Env) {p : Safety} (law : Lawful env p) where
  pub Quiet-IsOrderly : (r t : Replica p) → Quiet env law r t → IsOrderly env r → IsOrderly env t
  Quiet-IsOrderly r t q h =
      let a = law.Steps-Announces q.steps in
      record {
        steady = a.steady h.steady;
        heard = rw q.heard (a.announced r.heard h.heard);
        done = h.done;
        taken = q.heard ∙ h.taken ∙ ap (λ vs. onto vs h.done) (sym q.queue);
        covers = rw q.made h.covers;
        awake = q.awake h.awake;
      }

  pub enter_view-IsOrderly : (r : Replica p) → IsOrderly env r → IsOrderly env (enter_view r)
  unfolding enter_view
  enter_view-IsOrderly r h = elim (Option-cases (next_entered (p.pm r.protocol).entered r.heard)) [
    | inl quiet ↦ rw (quiet, enter_view) h
    | inr (v, next) ↦
        rw (next, enter_view)
          (record {
            steady = h.steady;
            heard = next_entered-EndsWith (p.pm r.protocol).entered r.heard v h.heard next;
            done = h.done;
            taken = ap (◌∷◌ v) h.taken ∙ sym (onto-append r.new_view_chan h.done v);
            covers = h.covers;
            awake = h.awake;
          })
  ]

  -- The view at the head of the queue is taken, and no block is proposed for it, or one.
  skipped-IsOrderly :
      (r : Replica p) (v : NewViewType) (rest : List NewViewType)
      → r.new_view_chan ≡ v ∷ rest
      → env.election.is_leader env.id v.view ≡ false
      → IsOrderly env r
      → IsOrderly env (record r { new_view_chan = rest })
  skipped-IsOrderly r v rest queue follows h = record {
    steady = h.steady;
    heard = h.heard;
    done = v ∷ h.done;
    taken = h.taken ∙ ap (λ vs. onto vs h.done) queue;
    covers = inl (follows, h.covers);
    awake = h.awake;
  }

  Proposed-IsOrderly :
      (r t : Replica p) (v : NewViewType) (rest : List NewViewType)
      → r.new_view_chan ≡ v ∷ rest
      → env.election.is_leader env.id v.view ≡ true
      → IsOrderly env r
      → Proposed env law v (record r { new_view_chan = rest }) t
      → IsOrderly env t
  Proposed-IsOrderly r t v rest queue leads h m =
      let a = law.Steps-Announces m.steps in
      record {
        steady = a.steady h.steady;
        heard = rw m.heard (a.announced r.heard h.heard);
        done = v ∷ h.done;
        taken =
            m.heard
            ∙ h.taken
            ∙ ap (λ vs. onto vs h.done) queue
            ∙ ap (λ vs. onto vs (v ∷ h.done)) (sym m.queue);
        covers = inr (
          m.block,
          proposals r.network,
          m.made,
          record { proposes = m.proposes; leads = leads },
          h.covers,
        );
        awake = m.awake h.awake;
      }

  pub turn_new_views-IsOrderly :
      (b_size : ℕ) (r : Replica p) (queue : List NewViewType)
      → r.new_view_chan ≡ queue
      → IsOrderly env r
      → Yields (IsOrderly env) (turn_new_views env b_size r queue)
  unfolding turn_new_views process_new_view
  turn_new_views-IsOrderly b_size r [] queue h = h
  turn_new_views-IsOrderly b_size r (v ∷ rest) queue h =
      let t = record r { new_view_chan = rest } in
      elim (Bool-cases (env.election.is_leader env.id v.view)) [
        | inr follows ↦ rw (follows, turn_new_views) (skipped-IsOrderly r v rest queue follows h)
        | inl leads ↦
            rw (leads, turn_new_views)
              (Yields-mono (Proposed env law v t) (IsOrderly env) (propose_block env b_size t v)
                (λ u m. Proposed-IsOrderly r u v rest queue leads h m)
                (propose_block-Proposed env law b_size t v))
      ]
