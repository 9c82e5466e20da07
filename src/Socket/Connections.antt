-- ===== src/Socket/Connections.antt =====
-- What one `Send` of socket/socket.go does to the connections.
use multipipelinehs.Prelude.{
  ℕ, ◌≡◌, ◌≢◌, refl, ap, sym, ◌∙◌, inl, inr, ◌⊎◌, Bool, true, false, not, ◌&&◌, none, some, List,
  [], ◌∷◌, arith, Bool-cases, Option-cases, if◌then◌else◌, ite, get, put, get-put_self,
}
use multipipelinehs.Types.{NodeId, node_id_discrete, Yields, Yields-bind, if-Yields_cases}
use multipipelinehs.Utils.{retry}
use multipipelinehs.Socket.{
  Chances, Socket, Luck, is_dropped, is_slow, is_lost, enqueue, connect, send_on, send,
}

-- What stands under a node, the latest message first.
unfoldable pub queue_in {ℓ} : {M : Type ℓ} → List (NodeId × List M) → NodeId → List M
queue_in [] id = []
queue_in (e ∷ nodes) id = ite (node_id_discrete e.0 id) e.1 (queue_in nodes id)

queue_in-get :
    {M : Type 0} (nodes : List (NodeId × List M)) (id : NodeId) (queue : List M)
    → get node_id_discrete id nodes ≡ some queue
    → queue_in nodes id ≡ queue
unfolding queue_in get
queue_in-get [] id queue e = absurd (cc)
queue_in-get (x ∷ nodes) id queue e = ground (arith, queue_in-get nodes id queue)

queue_in-none :
    {M : Type 0} (nodes : List (NodeId × List M)) (id : NodeId)
    → get node_id_discrete id nodes ≡ none
    → queue_in nodes id ≡ []
unfolding queue_in get
queue_in-none [] id e = refl
queue_in-none (x ∷ nodes) id e = ground (arith, queue_in-none nodes id)

queue_in-put_self :
    {M : Type 0} (nodes : List (NodeId × List M)) (id : NodeId) (queue : List M)
    → queue_in (put node_id_discrete id queue nodes) id ≡ queue
queue_in-put_self nodes id queue =
    queue_in-get (put node_id_discrete id queue nodes) id queue
      (get-put_self node_id_discrete id queue nodes)

queue_in-put_ne :
    {M : Type 0} (nodes : List (NodeId × List M)) (to id : NodeId) (queue : List M)
    → to ≢ id
    → queue_in (put node_id_discrete to queue nodes) id ≡ queue_in nodes id
unfolding queue_in put
queue_in-put_ne [] to id queue other = ground arith
queue_in-put_ne (x ∷ nodes) to id queue other = ground (arith, queue_in-put_ne nodes to id queue)

module _ {c : Chances} {M : Type 0} where
  abbrev pub queue_of : Socket c M → NodeId → List M
  queue_of s id = queue_in s.nodes id

  -- A message to the node goes out at once: no fault holds it up.
  unfoldable pub is_open : Socket c M → NodeId → Bool → Bool
  is_open s to loses =
      not s.is_crashed && not (is_dropped s to) && not (is_lost s to loses) && not (is_slow s to)

  -- The parts of a socket that sending leaves alone.
  pub record Kept (s t : Socket c M) : Type 0 where
    pub id : t.id ≡ s.id
    pub addresses : t.addresses ≡ s.addresses
    pub is_crashed : t.is_crashed ≡ s.is_crashed
    pub drop : t.drop ≡ s.drop
    pub slow : t.slow ≡ s.slow
    pub flaky : t.flaky ≡ s.flaky

  pub Kept-refl : (s : Socket c M) → Kept s s
  Kept-refl s = record {
    id = refl;
    addresses = refl;
    is_crashed = refl;
    drop = refl;
    slow = refl;
    flaky = refl;
  }

  pub Kept-trans : (s t u : Socket c M) → Kept s t → Kept t u → Kept s u
  Kept-trans s t u a b = record {
    id = b.id ∙ a.id;
    addresses = b.addresses ∙ a.addresses;
    is_crashed = b.is_crashed ∙ a.is_crashed;
    drop = b.drop ∙ a.drop;
    slow = b.slow ∙ a.slow;
    flaky = b.flaky ∙ a.flaky;
  }

  -- What a send does to the connections.
  pub record Sends (s t : Socket c M) (to : NodeId) (m : M) (loses : Bool) : Type 0 where
    pub kept : Kept s t
    pub there : queue_of t to ≡ (if is_open s to loses then m ∷ queue_of s to else queue_of s to)
    pub elsewhere : (id : NodeId) → to ≢ id → queue_of t id ≡ queue_of s id

  -- A connection is made with an empty queue.
  record Connects (s t : Socket c M) (to : NodeId) : Type 0 where
    pub kept : Kept s t
    pub queue : List M
    pub connected : get node_id_discrete to t.nodes ≡ some queue
    pub there : queue ≡ queue_of s to
    pub elsewhere : (id : NodeId) → to ≢ id → queue_of t id ≡ queue_of s id

  connect-Connects :
      (s : Socket c M) (to : NodeId) (dials : ℕ → Bool) (addr : List ℕ)
      → get node_id_discrete to s.addresses ≡ some addr
      → Yields (λ o. (t : Socket c M) × (o ≡ some t) × Connects s t to) (connect s to dials)
  unfolding connect
  connect-Connects s to dials addr known = elim (Option-cases (get node_id_discrete to s.nodes)) [
    | inr (queue, there) ↦
        rw (there, connect)
          (
            s,
            refl,
            record {
              kept = Kept-refl s;
              queue = queue;
              connected = there;
              there = sym (queue_in-get s.nodes to queue there);
              elsewhere = λ id other. refl;
            },
          )
    | inl missing ↦
        rw (missing, known, connect)
          (elim (Bool-cases (retry dials 100).0) [
            | inr failed ↦ rw failed tt
            | inl dialled ↦
                let t = record s { nodes = put node_id_discrete to [] s.nodes } in
                rw dialled (
                  t,
                  refl,
                  record {
                    kept = record {
                      id = refl;
                      addresses = refl;
                      is_crashed = refl;
                      drop = refl;
                      slow = refl;
                      flaky = refl;
                    };
                    queue = [];
                    connected = get-put_self node_id_discrete to [] s.nodes;
                    there = sym (queue_in-none s.nodes to missing);
                    elsewhere = λ id other. queue_in-put_ne s.nodes to id [] other;
                  },
                )
          ])
  ]

  enqueue-eq :
      (t : Socket c M) (to : NodeId) (m : M) (queue : List M)
      → get node_id_discrete to t.nodes ≡ some queue
      → enqueue t to m ≡ record t { nodes = put node_id_discrete to (m ∷ queue) t.nodes }
  unfolding enqueue
  enqueue-eq t to m queue e = rw (e, enqueue) refl

  is_slow-Kept : (s t : Socket c M) (to : NodeId) → Kept s t → is_slow t to ≡ is_slow s to
  unfolding is_slow
  is_slow-Kept s t to h = rw h.slow refl

  send_on-Sends :
      (s t : Socket c M) (to : NodeId) (m : M) (loses : Bool)
      → s.is_crashed ≡ false
      → is_dropped s to ≡ false
      → is_lost s to loses ≡ false
      → Connects s t to
      → Sends s (send_on (some t) s to m) to m loses
  unfolding send_on is_open
  send_on-Sends s t to m loses up flows kept h =
      let same = is_slow-Kept s t to h.kept in
      let queue_there = queue_in-get t.nodes to h.queue h.connected ∙ h.there in
      elim (Bool-cases (is_slow s to)) [
        | inl late ↦
            rw (same, late)
              (record {
                kept = record {
                  id = h.kept.id;
                  addresses = h.kept.addresses;
                  is_crashed = h.kept.is_crashed;
                  drop = h.kept.drop;
                  slow = h.kept.slow;
                  flaky = h.kept.flaky;
                };
                there = rw (flows, kept, late, up) queue_there;
                elsewhere = h.elsewhere;
              })
        | inr now ↦
            rw (same, now, enqueue-eq t to m h.queue h.connected)
              (record {
                kept = record {
                  id = h.kept.id;
                  addresses = h.kept.addresses;
                  is_crashed = h.kept.is_crashed;
                  drop = h.kept.drop;
                  slow = h.kept.slow;
                  flaky = h.kept.flaky;
                };
                there =
                    rw (flows, kept, now, up)
                      (queue_in-put_self t.nodes to (m ∷ h.queue) ∙ ap (◌∷◌ m) h.there);
                elsewhere = λ id other.
                    queue_in-put_ne t.nodes to id (m ∷ h.queue) other ∙ h.elsewhere id other;
              })
      ]

  pub is_open-Kept :
      (s t : Socket c M) (to : NodeId) (loses : Bool)
      → Kept s t
      → is_open t to loses ≡ is_open s to loses
  unfolding is_open is_dropped is_lost is_slow
  is_open-Kept s t to loses h = rw (h.is_crashed, h.drop, h.flaky, h.slow) refl

  -- A fault that holds a message up.
  held-Sends :
      (s : Socket c M) (to : NodeId) (m : M) (loses : Bool)
      → is_open s to loses ≡ false
      → Sends s s to m loses
  held-Sends s to m loses shut = record {
    kept = Kept-refl s;
    there = rw shut refl;
    elsewhere = λ id other. refl;
  }

  is_open-shut :
      (s : Socket c M) (to : NodeId) (loses : Bool)
      → (s.is_crashed ≡ true) ⊎ (is_dropped s to ≡ true) ⊎ (is_lost s to loses ≡ true)
      → is_open s to loses ≡ false
  unfolding is_open
  is_open-shut s to loses h = ground arith

  pub send-Sends :
      (s : Socket c M) (to : NodeId) (m : M) (luck : Luck) (addr : List ℕ)
      → get node_id_discrete to s.addresses ≡ some addr
      → Yields (λ t. Sends s t to m luck.loses) (send s to m luck)
  unfolding send
  send-Sends s to m luck addr known =
      if-Yields_cases P s.is_crashed _ _ (λ down. held (inl down))
        (λ up.
          if-Yields_cases P (is_dropped s to) _ _ (λ drops. held (inr (inl drops)))
            (λ flows.
              if-Yields_cases P (is_lost s to luck.loses) _ _ (λ lost. held (inr (inr lost)))
                (λ kept.
                  Yields-bind _ P (connect s to luck.dials) _
                    (connect-Connects s to luck.dials addr known)
                    (λ o (t, eq, h). rw eq (send_on-Sends s t to m luck.loses up flows kept h)))))
    where
      P : Socket c M → Type 0
      P t = Sends s t to m luck.loses

      held :
          (s.is_crashed ≡ true) ⊎ (is_dropped s to ≡ true) ⊎ (is_lost s to luck.loses ≡ true) → P s
      held h = held-Sends s to m luck.loses (is_open-shut s to luck.loses h)
