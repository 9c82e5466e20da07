-- ===== src/Replica/Drain.antt =====
-- The loops of replica/replica.go that turn a new view into a proposal, when they get their turns.
use multipipelinehs.MHotStuff.Proposal.{drops}
use multipipelinehs.Prelude.{
  ◌⊎◌, ℕ, zero, suc, ◌+◌, ◌≤◌, ◌<◌, ◌≡◌, refl, ap, ◌∙◌, sym, subst, inl, inr, true, List, [], ◌∷◌,
  ◌++◌, arith, dec_lt, Bool-cases, Option-cases, if◌then◌else◌, some, length, EndsWith,
}
use multipipelinehs.Types.{NewViewType, Result, ok, fault, ◌>>=◌, >>=-ok, Yields-ok}
use multipipelinehs.Env.{Env}
use multipipelinehs.Crypto.{key_index}
use multipipelinehs.Mempool.Batch.{some_batch-Batches}
use multipipelinehs.Mempool.{some_batch}
use multipipelinehs.Mempool.Producer.{Producer, generate_payload}
use multipipelinehs.Safety.{Room, Safety, Lawful}
use multipipelinehs.Replica.{Replica}
use multipipelinehs.Replica.Loops.{
  Turn, enters, new_views, turn, run, next_entered, enter_view, turn_new_views, process_new_view,
  propose_block,
}
use multipipelinehs.Replica.Alike.{proposals}
use multipipelinehs.Replica.Start.{replica_with}
use multipipelinehs.Replica.Runs.{run-IsOrderly}
use multipipelinehs.Replica.Quiet.{Proposed, propose_block-Proposed}
use multipipelinehs.Replica.Proposals.{
  Covers, IsOrderly, enter_view-IsOrderly, turn_new_views-IsOrderly, next_entered-later,
  next_entered-last, EndsWith-whole, EndsWith-length, onto,
}

abbrev pub replicate {ℓ} : {A : Type ℓ} → ℕ → A → List A
replicate zero a = []
replicate (suc n) a = a ∷ replicate n a

-- The pacemaker's next event is there while not all are taken.
next_entered-some :
    (entered heard : List NewViewType)
    → EndsWith heard entered
    → length heard < length entered
    → (v : NewViewType) × (next_entered entered heard ≡ some v)
next_entered-some [] heard h lt = absurd (omega arith)
next_entered-some (x ∷ entered) heard (inl h) lt = absurd (ground (arith, ap length h))
next_entered-some (x ∷ entered) heard (inr h) lt = elim (dec_lt (length heard) (length entered)) [
  | yes more ↦
      let (v, e) = next_entered-some entered heard h more in
      (v, next_entered-later x entered heard more ∙ e)
  | no last ↦
      let whole =
        EndsWith-whole heard entered h (ground (arith, EndsWith-length heard entered h)) in
      (x, ap (next_entered (x ∷ entered)) whole ∙ next_entered-last x entered)
]

-- The turns that take so many events of the pacemaker, and propose for them.
abbrev pub turns_for : List NewViewType → List Turn
turns_for vs = replicate (length vs) enters ++ replicate (length vs) new_views

-- None of the views that are announced starts after a timeout, or the channel of signals has room for
-- those that are not proposed yet: the queued ones, and the ones that are announced and not heard.
abbrev pub HasSpace : {p : Safety} → Replica p → Type 0
HasSpace {p} r =
    let announced = (p.pm r.protocol).entered in
    (drops announced ≡ 0)
    ⊎ (length (p.signals r.protocol) + drops r.new_view_chan + drops announced ≤ 4 + drops r.heard)

module _ (env : Env) {p : Safety} (law : Lawful env p) (b_size : ℕ) where
  abbrev pub entered : Replica p → List NewViewType
  entered r = (p.pm r.protocol).entered

  run-append :
      (ts us : List Turn) (r : Replica p)
      → run env b_size (ts ++ us) r ≡ (run env b_size ts r >>= run env b_size us)
  unfolding run
  run-append [] us r = refl
  run-append (a ∷ ts) us r = after (run-append ts us) (turn env b_size a r)
    where
      after :
          ((u : Replica p)
            → run env b_size (ts ++ us) u ≡ (run env b_size ts u >>= run env b_size us))
          → (m : Result (Replica p))
          → (m >>= run env b_size (ts ++ us)) ≡ (m >>= run env b_size ts >>= run env b_size us)
      after again (ok u) = again u
      after again (fault e) = refl

  -- A run after a run.
  pub run-after :
      (ts us : List Turn) (r t : Replica p)
      → run env b_size ts r ≡ ok t
      → run env b_size (ts ++ us) r ≡ run env b_size us t
  run-after ts us r t e = run-append ts us r ∙ ap (λ m. m >>= run env b_size us) e

  run-next :
      (a : Turn) (ts : List Turn) (r u : Replica p)
      → turn env b_size a r ≡ ok u
      → run env b_size (a ∷ ts) r ≡ run env b_size ts u
  unfolding run
  run-next a ts r u e = ap (λ m. m >>= run env b_size ts) e

  turn-enters : (r : Replica p) → r.running ≡ true → turn env b_size enters r ≡ ok (enter_view r)
  unfolding turn
  turn-enters r on = ap (λ b. if b then ok (enter_view r) else ok r) on

  turn-new_views :
      (r : Replica p)
      → r.running ≡ true
      → turn env b_size new_views r ≡ turn_new_views env b_size r r.new_view_chan
  unfolding turn
  turn-new_views r on = ap (λ b. if b then turn_new_views env b_size r r.new_view_chan else ok r) on

  -- The queue grows by the views that are heard.
  abbrev Queues : Replica p → Replica p → Type 0
  Queues r t = drops t.new_view_chan + drops r.heard ≡ drops r.new_view_chan + drops t.heard

  -- All events of the pacemaker are taken, and nothing else is done.
  record Caught (r t : Replica p) : Type 0 where
    pub heard : t.heard ≡ entered t
    pub protocol : t.protocol ≡ r.protocol
    pub running : t.running ≡ true
    pub orderly : IsOrderly env t
    pub queues : Queues r t

  -- A turn that takes an event, if one is left.
  record Entered (r t : Replica p) : Type 0 where
    pub protocol : t.protocol ≡ r.protocol
    pub running : t.running ≡ r.running
    pub grows :
        (m : ℕ)
        → length (entered r) ≤ length r.heard + suc m
        → length (entered t) ≤ length t.heard + m
    pub queues : Queues r t

  drops_last :
      (queue : List NewViewType) (v : NewViewType)
      → drops (queue ++ v ∷ []) ≡ drops queue + drops (v ∷ [])
  drops_last [] v = omega arith
  drops_last (x ∷ queue) v = ground (arith, drops_last queue v)

  drops-onto : (queue done : List NewViewType) → drops (onto queue done) ≡ drops queue + drops done
  drops-onto [] done = omega arith
  drops-onto (v ∷ queue) done = ground (arith, drops-onto queue (v ∷ done))

  heard-Queues :
      (queue heard : List NewViewType) (v : NewViewType)
      → drops (queue ++ v ∷ []) + drops heard ≡ drops queue + drops (v ∷ heard)
  heard-Queues queue heard v = ground (arith, drops_last queue v)

  enter_view-Entered : (r : Replica p) → IsOrderly env r → Entered r (enter_view r)
  unfolding enter_view
  enter_view-Entered r h = elim (dec_lt (length r.heard) (length (entered r))) [
    | yes more ↦
        let (v, e) = next_entered-some (entered r) r.heard h.heard more in
        rw (e, enter_view)
          (record {
            protocol = refl;
            running = refl;
            grows = λ m k. omega arith;
            queues = heard-Queues r.new_view_chan r.heard v;
          })
    | no last ↦ elim (Option-cases (next_entered (entered r) r.heard)) [
      | inl e ↦
          rw (e, enter_view)
            (record { protocol = refl; running = refl; grows = λ m k. omega arith; queues = refl })
      | inr (v, e) ↦
          rw (e, enter_view)
            (record {
              protocol = refl;
              running = refl;
              grows = λ m k. omega arith;
              queues = heard-Queues r.new_view_chan r.heard v;
            })
    ]
  ]

  enters-Caught :
      (m : ℕ) (r : Replica p)
      → r.running ≡ true
      → IsOrderly env r
      → length (entered r) ≤ length r.heard + m
      → (t : Replica p) × (run env b_size (replicate m enters) r ≡ ok t) × Caught r t
  unfolding run
  enters-Caught zero r on h all = (
    r,
    refl,
    record {
      heard =
          EndsWith-whole r.heard (entered r) h.heard
            (omega (arith, EndsWith-length r.heard (entered r) h.heard));
      protocol = refl;
      running = on;
      orderly = h;
      queues = refl;
    },
  )
  enters-Caught (suc m) r on h all =
      let u = enter_view r in
      let e = enter_view-Entered r h in
      let (t, done, c) =
        enters-Caught m u (e.running ∙ on) (enter_view-IsOrderly env law r h) (e.grows m all) in
      (
        t,
        run-next enters (replicate m enters) r u (turn-enters r on) ∙ done,
        record {
          heard = c.heard;
          protocol = c.protocol ∙ e.protocol;
          running = c.running;
          orderly = c.orderly;
          queues = omega (arith, c.queues, e.queues);
        },
      )

  -- A view is taken out of the queue, and the pacemaker is left alone.
  record Viewed (r t : Replica p) (v : NewViewType) (rest : List NewViewType) : Type 0 where
    pub pm : p.pm t.protocol ≡ p.pm r.protocol
    pub heard : t.heard ≡ r.heard
    pub running : t.running ≡ r.running
    pub queue : t.new_view_chan ≡ rest
    pub room :
        Room (length (p.signals r.protocol)) (v ∷ rest) → Room (length (p.signals t.protocol)) rest

  Room-head :
      (n : ℕ) (v : NewViewType) (rest : List NewViewType) → Room n (v ∷ rest) → Room n (v ∷ [])
  Room-head n v rest h = ground arith

  Room-rest :
      (n m : ℕ) (v : NewViewType) (rest : List NewViewType)
      → m ≤ n + drops (v ∷ [])
      → Room n (v ∷ rest)
      → Room m rest
  Room-rest n m v rest grows h = ground arith

  propose_block-ok :
      (r : Replica p) (v : NewViewType) (k : ℕ)
      → key_index env.n env.id ≡ ok k
      → Room (length (p.signals r.protocol)) (v ∷ [])
      → (t : Replica p) × (propose_block env b_size r v ≡ ok t)
  unfolding propose_block generate_payload
  propose_block-ok r v k key room =
      let (b, batch, some_ok, _) = some_batch-Batches r.pd.mempool.backend b_size in
      let (m, made) = law.makes r.protocol v batch k key room in
      (
        _,
        >>=-ok _ (some_batch r.pd.mempool.backend b_size >>= _)
            (>>=-ok _ (some_batch r.pd.mempool.backend b_size) some_ok refl)
            (>>=-ok _ (p.make_proposal r.protocol v batch) made refl),
      )

  turn_new_views-Viewed :
      (r : Replica p) (v : NewViewType) (rest : List NewViewType) (k : ℕ)
      → key_index env.n env.id ≡ ok k
      → Room (length (p.signals r.protocol)) (v ∷ rest)
      → (t : Replica p) × (turn_new_views env b_size r (v ∷ rest) ≡ ok t) × Viewed r t v rest
  unfolding turn_new_views process_new_view
  turn_new_views-Viewed r v rest k key room =
      let u = record r { new_view_chan = rest } in
      elim (Bool-cases (env.election.is_leader env.id v.view)) [
        | inr follows ↦ (
          u,
          rw follows refl,
          record {
            pm = refl;
            heard = refl;
            running = refl;
            queue = refl;
            room = Room-rest _ _ v rest (omega arith);
          },
        )
        | inl leads ↦
            let (t, done) = propose_block-ok u v k key (Room-head _ v rest room) in
            let m =
              Yields-ok (Proposed env law v u) (propose_block env b_size u v) t
                (propose_block-Proposed env law b_size u v) done in
            (
              t,
              rw leads done,
              record {
                pm = m.kept;
                heard = m.heard;
                running = m.running;
                queue = m.queue;
                room = Room-rest _ _ v rest m.signals;
              },
            )
      ]

  -- The queue is empty, and the pacemaker was left alone.
  record Emptied (r t : Replica p) : Type 0 where
    pub pm : p.pm t.protocol ≡ p.pm r.protocol
    pub heard : t.heard ≡ r.heard
    pub queue : t.new_view_chan ≡ []
    pub orderly : IsOrderly env t

  new_views-Emptied :
      (m k : ℕ) (r : Replica p) (queue : List NewViewType)
      → key_index env.n env.id ≡ ok k
      → r.running ≡ true
      → IsOrderly env r
      → r.new_view_chan ≡ queue
      → length queue ≤ m
      → Room (length (p.signals r.protocol)) queue
      → (t : Replica p) × (run env b_size (replicate m new_views) r ≡ ok t) × Emptied r t
  unfolding run turn_new_views
  new_views-Emptied zero k r [] key on h e few room =
      (r, refl, record { pm = refl; heard = refl; queue = e; orderly = h })
  new_views-Emptied zero k r (v ∷ rest) key on h e few room = absurd (omega arith)
  new_views-Emptied (suc m) k r [] key on h e few room =
      let (t, done, c) = new_views-Emptied m k r [] key on h e (omega arith) room in
      (
        t,
        run-next new_views (replicate m new_views) r r
              (turn-new_views r on ∙ ap (turn_new_views env b_size r) e ∙ refl_turn)
            ∙ done,
        c,
      )
    where
      refl_turn : turn_new_views env b_size r [] ≡ ok r
      refl_turn = refl
  new_views-Emptied (suc m) k r (v ∷ rest) key on h e few room =
      let (u, taken, w) = turn_new_views-Viewed r v rest k key room in
      let orderly =
        Yields-ok (IsOrderly env) (turn_new_views env b_size r (v ∷ rest)) u
          (turn_new_views-IsOrderly env law b_size r (v ∷ rest) e h) taken in
      let (t, done, c) =
        new_views-Emptied m k u rest key (w.running ∙ on) orderly w.queue (omega arith)
          (w.room room) in
      (
        t,
        run-next new_views (replicate m new_views) r u
              (turn-new_views r on ∙ ap (turn_new_views env b_size r) e ∙ taken)
            ∙ done,
        record {
          pm = c.pm ∙ w.pm;
          heard = c.heard ∙ w.heard;
          queue = c.queue;
          orderly = c.orderly;
        },
      )

  length-onto :
      (queue done : List NewViewType) → length (onto queue done) ≡ length queue + length done
  length-onto [] done = omega arith
  length-onto (v ∷ queue) done = omega (arith, length-onto queue (v ∷ done))

  HasSpace-Room :
      (r u : Replica p)
      → Caught r u
      → HasSpace r
      → Room (length (p.signals u.protocol)) u.new_view_chan
  HasSpace-Room r u c (inl none_drops) = inl (
      omega (
        arith,
        drops-onto u.new_view_chan c.orderly.done,
        ap drops c.orderly.taken,
        ap drops c.heard,
        ap (λ s. drops (p.pm s).entered) c.protocol,
      ))
  HasSpace-Room r u c (inr space) = inr (
      omega (
        arith,
        c.queues,
        ap drops c.heard,
        ap (λ s. drops (p.pm s).entered) c.protocol,
        ap (λ s. length (p.signals s)) c.protocol,
      ))

  pub drain-Covers :
      (r : Replica p) (k : ℕ)
      → key_index env.n env.id ≡ ok k
      → r.running ≡ true
      → IsOrderly env r
      → HasSpace r
      → (t : Replica p) × (run env b_size (turns_for (entered r)) r ≡ ok t)
        × Covers env (entered r) (proposals t.network)
  drain-Covers r k key on h space =
      let n = length (entered r) in
      let (u, caught, c) = enters-Caught n r on h (omega arith) in
      let same : entered u ≡ entered r = ap (λ s. (p.pm s).entered) c.protocol in
      let few : length u.new_view_chan ≤ n = omega (
        arith,
        length-onto u.new_view_chan c.orderly.done,
        ap length c.orderly.taken,
        ap length c.heard,
        ap length same,
      ) in
      let (t, done, e) =
        new_views-Emptied n k u u.new_view_chan key c.running c.orderly refl few
          (HasSpace-Room r u c space) in
      let all : e.orderly.done ≡ entered r =
        sym (e.orderly.taken ∙ ap (λ q. onto q e.orderly.done) e.queue)
        ∙ e.heard
        ∙ c.heard
        ∙ same in
      (
        t,
        run-after (replicate n enters) (replicate n new_views) r u caught ∙ done,
        subst (λ vs. Covers env vs (proposals t.network)) all e.orderly.covers,
      )

  pub led_views_proposed :
      (n : ℕ) (pd : Producer) (ts : List Turn) (r : Replica p) (k : ℕ)
      → run env b_size ts (replica_with p n pd) ≡ ok r
      → r.running ≡ true
      → key_index env.n env.id ≡ ok k
      → HasSpace r
      → (t : Replica p) × (run env b_size (turns_for (entered r)) r ≡ ok t)
        × Covers env (entered r) (proposals t.network)
  led_views_proposed n pd ts r k e on key space =
      drain-Covers r k key on (run-IsOrderly env law b_size n pd ts r e) space
