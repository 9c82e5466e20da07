-- ===== src/Transport/Link.antt =====
-- Transports of transport/transport.go that dial one that listens within the process, each once, and the
-- interleavings of their turns.
use multipipelinehs.Prelude.{ℕ, ◌≡◌, some, List, [], ◌∷◌, ◌++◌, ℕ_discrete}
use multipipelinehs.Types.{ok}
use multipipelinehs.Transport.{Transport, send_message, recv_message, close, forward, deliver}

-- A message with the number of its sender.
abbrev pub Tagged : Type 0 → Type 0
Tagged X = ℕ × X

-- The senders by their numbers, the connection, the one that listens, what was received from it, and what
-- was ever sent.
pub record Link (X : Type 0) : Type 0 where
  pub senders : ℕ → Transport (Tagged X)
  pub conn : List (Tagged X)
  pub receiver : Transport (Tagged X)
  pub received : List (Tagged X)
  pub sent : List (Tagged X)

-- The messages of one sender, in order.
unfoldable pub of_sender : {X : Type 0} → ℕ → List (Tagged X) → List (Tagged X)
of_sender j [] = []
of_sender j (m ∷ ms) =
    let rest = of_sender j ms in elim (ℕ_discrete m.0 j) [ yes _ ↦ m ∷ rest | no _ ↦ rest ]

-- The senders after the j-th has changed.
abbrev pub with_sender :
    {X : Type 0} → ℕ → Transport (Tagged X) → (ℕ → Transport (Tagged X)) → ℕ → Transport (Tagged X)
with_sender j t senders k = elim (ℕ_discrete j k) [ yes _ ↦ t | no _ ↦ senders k ]

module _ {X : Type 0} where
  -- One call or one turn of a goroutine.
  pub data LinkStep (l : Link X) : Link X → Type 0 where
    sends :
        (j : ℕ) (x : X) (t : Transport (Tagged X))
        → send_message (l.senders j) (j, x) ≡ ok t
        → LinkStep l
            (record l { senders = with_sender j t l.senders; sent = l.sent ++ (j, x) ∷ [] })
    forwards :
        (j : ℕ)
        → LinkStep l (record l {
          senders = with_sender j (forward (l.senders j) l.conn).0 l.senders;
          conn = (forward (l.senders j) l.conn).1;
        })
    delivers : LinkStep l (record l {
      receiver = (deliver l.receiver l.conn).0;
      conn = (deliver l.receiver l.conn).1;
    })
    receives :
        (m : Tagged X) (t : Transport (Tagged X))
        → recv_message l.receiver ≡ some (m, t)
        → LinkStep l (record l { receiver = t; received = l.received ++ m ∷ [] })
    closes :
        (j : ℕ) (t : Transport (Tagged X))
        → close (l.senders j) ≡ ok t
        → LinkStep l (record l { senders = with_sender j t l.senders })

  pub data LinkSteps (l : Link X) : Link X → Type 0 where
    here : LinkSteps l l
    next : {k m : Link X} → LinkSteps l k → LinkStep k m → LinkSteps l m

  -- Nothing was sent yet.
  pub record IsFresh (l : Link X) : Type 0 where
    pub senders : (j : ℕ) → (l.senders j).send ≡ []
    pub conn : l.conn ≡ []
    pub receiver : l.receiver.recv ≡ []
    pub received : l.received ≡ []
    pub sent : l.sent ≡ []

  -- What a link holds, from the receiver on.
  abbrev pub arrived : Link X → List (Tagged X)
  arrived l = l.received ++ (l.receiver.recv ++ l.conn)
