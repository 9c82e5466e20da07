-- ===== src/Socket/Broadcast.antt =====
-- Whom `Broadcast` of socket/socket.go reaches.
use multipipelinehs.Prelude.{
  ℕ, ◌≡◌, refl, subst, ◌∙◌, true, false, not, ◌&&◌, some, List, [], ◌∷◌, arith, if◌then◌else◌, All,
  get, put, none, Option-cases, Bool-cases, inl, inr, Bool,
}
use multipipelinehs.Prelude.Count.{elem, IsDistinct, keys}
use multipipelinehs.Types.{
  NodeId, node_id_discrete, ok, Yields, Yields-bind, Yields-ok, if-Yields_cases, Yields-mono,
  Returns, if-Returns, Returns-bind,
}
use multipipelinehs.Config.{Addresses}
use multipipelinehs.Env.{same_node}
use multipipelinehs.Socket.Connections.{
  queue_of, is_open, Kept, Kept-refl, Kept-trans, Sends, send-Sends, is_open-Kept,
}
use multipipelinehs.Socket.{
  Chances, Socket, Luck, is_dropped, is_lost, connect, send_on, send, broadcast_to, broadcast,
}
use multipipelinehs.Utils.{retry}

elem-get :
    (q : NodeId) (m : Addresses)
    → elem node_id_discrete q (keys node_id_discrete m) ≡ true
    → (addr : List ℕ) × (get node_id_discrete q m ≡ some addr)
unfolding elem get
elem-get q [] e = absurd (cc)
elem-get q (x ∷ m) e = elim (node_id_discrete x.0 q) [
  | yes here ↦ (x.1, ground arith)
  | no there ↦ let (addr, found) = elem-get q m (ground arith) in (addr, ground arith)
]

-- Each key of a part of a map is there.
known_in :
    (m rest : Addresses)
    → ((q : NodeId)
        → elem node_id_discrete q (keys node_id_discrete rest) ≡ true
        → elem node_id_discrete q (keys node_id_discrete m) ≡ true)
    → All (λ e. (addr : List ℕ) × (get node_id_discrete e.0 m ≡ some addr)) rest
unfolding elem
known_in m [] part = tt
known_in m (x ∷ rest) part =
    (elem-get x.0 m (part x.0 (ground arith)), known_in m rest (λ q e. part q (ground arith)))

-- Every node can be dialed, at one of 100 attempts.
abbrev pub CanDial : (NodeId → Luck) → Type 0
CanDial luck = (id : NodeId) → (retry (luck id).dials 100).0 ≡ true

module _ {c : Chances} {M : Type 0} where
  -- What a broadcast over some of the addresses does to the connections.
  record Reaches (s t : Socket c M) (rest : Addresses) (m : M) (luck : NodeId → Luck) : Type 0 where
    pub kept : Kept s t
    pub others :
        (id : NodeId)
        → elem node_id_discrete id (keys node_id_discrete rest) ≡ false
        → queue_of t id ≡ queue_of s id
    pub members :
        (id : NodeId)
        → elem node_id_discrete id (keys node_id_discrete rest) ≡ true
        → queue_of t id ≡ (
            if not (same_node id s.id) && is_open s id (luck id).loses
            then m ∷ queue_of s id
            else queue_of s id)

  own-Reaches :
      (s t : Socket c M) (a : NodeId × List ℕ) (rest : Addresses) (m : M) (luck : NodeId → Luck)
      → elem node_id_discrete a.0 (keys node_id_discrete rest) ≡ false
      → same_node a.0 s.id ≡ true
      → Reaches s t rest m luck
      → Reaches s t (a ∷ rest) m luck
  unfolding elem
  own-Reaches s t a rest m luck new own h = record {
    kept = h.kept;
    others = λ id out. h.others id (ground arith);
    members = λ id into. elim (node_id_discrete a.0 id) [
      | yes here ↦
          subst
            (λ q. queue_of t q ≡ (
              if not (same_node q s.id) && is_open s q (luck q).loses
              then m ∷ queue_of s q
              else queue_of s q))
            here (rw own (h.others a.0 new))
      | no there ↦ h.members id (ground arith)
    ];
  }

  foreign-Reaches :
      (s u t : Socket c M) (a : NodeId × List ℕ) (rest : Addresses) (m : M) (luck : NodeId → Luck)
      → elem node_id_discrete a.0 (keys node_id_discrete rest) ≡ false
      → same_node a.0 s.id ≡ false
      → Sends s u a.0 m (luck a.0).loses
      → Reaches u t rest m luck
      → Reaches s t (a ∷ rest) m luck
  unfolding elem
  foreign-Reaches s u t a rest m luck new foreign sent h = record {
    kept = Kept-trans s u t sent.kept h.kept;
    others = λ id out. elim (node_id_discrete a.0 id) [
      | yes here ↦ absurd (ground arith)
      | no there ↦ h.others id (ground arith) ∙ sent.elsewhere id there
    ];
    members = λ id into. elim (node_id_discrete a.0 id) [
      | yes here ↦
          subst
            (λ q. queue_of t q ≡ (
              if not (same_node q s.id) && is_open s q (luck q).loses
              then m ∷ queue_of s q
              else queue_of s q))
            here (rw foreign (h.others a.0 new ∙ sent.there))
      | no there ↦
          subst
            (λ queue. queue_of t id ≡ (
              if not (same_node id s.id) && is_open s id (luck id).loses then m ∷ queue else queue))
            (sent.elsewhere id there)
            (subst
              (λ b.
                queue_of t id
                ≡ (if not (same_node id s.id) && b then m ∷ queue_of u id else queue_of u id))
              (is_open-Kept s u id (luck id).loses sent.kept)
              (subst
                (λ self. queue_of t id ≡ (
                  if not (same_node id self) && is_open u id (luck id).loses
                  then m ∷ queue_of u id
                  else queue_of u id))
                sent.kept.id (h.members id (ground arith))))
    ];
  }

  broadcast_to-Reaches :
      (s : Socket c M) (rest : Addresses) (m : M) (luck : NodeId → Luck)
      → IsDistinct node_id_discrete (keys node_id_discrete rest)
      → All (λ e. (addr : List ℕ) × (get node_id_discrete e.0 s.addresses ≡ some addr)) rest
      → Yields (λ t. Reaches s t rest m luck) (broadcast_to s rest m luck)
  unfolding broadcast_to elem
  broadcast_to-Reaches s [] m luck d known = record {
    kept = Kept-refl s;
    others = λ id out. refl;
    members = λ id into. absurd (cc);
  }
  broadcast_to-Reaches s (a ∷ rest) m luck d known =
      if-Yields_cases _ (same_node a.0 s.id) _ _
        (λ own.
          Yields-mono _ _ (broadcast_to s rest m luck)
            (λ t h. own-Reaches s t a rest m luck d.0 own h)
            (broadcast_to-Reaches s rest m luck d.1 known.1))
        (λ foreign.
          Yields-bind _ _ (send s a.0 m (luck a.0)) _
            (send-Sends s a.0 m (luck a.0) known.0.0 known.0.1)
            (λ u sent.
              Yields-mono _ _ (broadcast_to u rest m luck)
                (λ t h. foreign-Reaches s u t a rest m luck d.0 foreign sent h)
                (broadcast_to-Reaches u rest m luck d.1 (rw sent.kept.addresses known.1))))

  connect-Returns :
      (s : Socket c M) (to : NodeId) (dials : ℕ → Bool)
      → (retry dials 100).0 ≡ true
      → Returns (connect s to dials)
  unfolding connect
  connect-Returns s to dials h = elim (Option-cases (get node_id_discrete to s.nodes)) [
    | inr (queue, there) ↦ (some s, rw (there, connect) refl)
    | inl new ↦ elim (Option-cases (get node_id_discrete to s.addresses)) [
      | inl unknown ↦ (none, rw (new, unknown, connect) refl)
      | inr (addr, known) ↦ (
        some (record s { nodes = put node_id_discrete to [] s.nodes }),
        rw (new, known, h, connect) refl,
      )
    ]
  ]

  send-Returns :
      (s : Socket c M) (to : NodeId) (m : M) (luck : Luck)
      → (retry luck.dials 100).0 ≡ true
      → Returns (send s to m luck)
  unfolding send
  send-Returns s to m luck h =
      if-Returns s.is_crashed _ _ (s, refl)
        (if-Returns (is_dropped s to) _ _ (s, refl)
          (if-Returns (is_lost s to luck.loses) _ _ (s, refl)
            (Returns-bind (connect s to luck.dials) _ (connect-Returns s to luck.dials h)
              (λ o. (send_on o s to m, refl)))))

  broadcast_to-Returns :
      (s : Socket c M) (rest : Addresses) (m : M) (luck : NodeId → Luck)
      → CanDial luck
      → Returns (broadcast_to s rest m luck)
  unfolding broadcast_to
  broadcast_to-Returns s [] m luck h = (s, refl)
  broadcast_to-Returns s (a ∷ rest) m luck h =
      if-Returns (same_node a.0 s.id) _ _ (broadcast_to-Returns s rest m luck h) (
        Returns-bind (send s a.0 m (luck a.0)) _ (send-Returns s a.0 m (luck a.0) (h a.0))
          (λ u. broadcast_to-Returns u rest m luck h))

  -- If no address is listed twice and every node can be dialed at one of 100 attempts, then
  -- Broadcast returns, and after it the connection of a node holds the message once more, as the
  -- latest, if the node has an address and is another one, and the sender has not crashed, drops
  -- nothing for that node, does not lose the message by chance and is not slow to it; otherwise
  -- the connection holds what it held before.
  pub broadcast-Reaches :
      (s : Socket c M) (m : M) (luck : NodeId → Luck) (id : NodeId)
      → IsDistinct node_id_discrete (keys node_id_discrete s.addresses)
      → CanDial luck
      → (t : Socket c M) × ((broadcast s m luck ≡ ok t)
          × (queue_of t id ≡ (
              if elem node_id_discrete id (keys node_id_discrete s.addresses)
                && (not (same_node id s.id) && is_open s id (luck id).loses)
              then m ∷ queue_of s id
              else queue_of s id)))
  unfolding broadcast
  broadcast-Reaches s m luck id distinct dials =
      let (t, e) = broadcast_to-Returns s s.addresses m luck dials in
      let h =
        Yields-ok (λ t. Reaches s t s.addresses m luck) (broadcast_to s s.addresses m luck) t
          (broadcast_to-Reaches s s.addresses m luck distinct
            (known_in s.addresses s.addresses (λ q e. e)))
          e in
      (
        t,
        (
          e,
          elim (Bool-cases (elem node_id_discrete id (keys node_id_discrete s.addresses))) [
            | inl into ↦ rw into (h.members id into)
            | inr out ↦ rw out (h.others id out)
          ],
        ),
      )
