-- ===== src/Node/Dispatch.antt =====
-- From the socket of node/node.go to the handlers of replica/replica.go.
use multipipelinehs.Prelude.{
  ◌≡◌, refl, ap, ◌∙◌, sym, Bool, true, false, ◌&&◌, none, some, List, [], ◌∷◌, ◌++◌, append_assoc,
  append-nil, All, All-mono,
}
use multipipelinehs.Types.{Result, ok, ◌>>=◌}
use multipipelinehs.Node.{
  Message, block_message, vote_message, tmo_message, transaction_message, query_message,
  reply_message, other_message, Kind, block_kind, vote_kind, tmo_kind, transaction_kind, query_kind,
  kind_of, kind_discrete, Node, is_handled, pass, recv, call_handler, handle,
}

-- The kinds that `NewReplica` registers.
abbrev pub replica_kinds : List Kind
replica_kinds = block_kind ∷ vote_kind ∷ tmo_kind ∷ transaction_kind ∷ query_kind ∷ []

-- Turns of `recv`, one for each message.
unfoldable pub recv_all : Bool → Node → List Message → Result Node
recv_all is_silence n [] = ok n
recv_all is_silence n (m ∷ ms) = recv is_silence n m >>= λ t. recv_all is_silence t ms

-- Turns of `handle`, and the messages whose handlers were called.
unfoldable pub handle_all : List Message → Node → Result (Node × List Message)
handle_all [] n = ok (n, [])
handle_all (_ ∷ turns) n = do
  (t, called) ← handle n
  (u, later) ← handle_all turns t
  ok (u, elim called [ none ↦ later | some m ↦ m ∷ later ])

-- A message of the protocol.
abbrev pub is_protocol : Message → Bool
is_protocol (block_message b) = true
is_protocol (vote_message v) = true
is_protocol (tmo_message tmo) = true
is_protocol m = false

-- A node whose channel holds the given messages.
abbrev holding : Node → List Message → Node
holding n ms = record n { message_chan = ms }

pass-protocol :
    (n : Node) (m : Message)
    → is_protocol m ≡ true
    → pass n m ≡ ok (holding n (n.message_chan ++ m ∷ []))
unfolding pass
pass-protocol n (block_message b) h = refl
pass-protocol n (vote_message v) h = refl
pass-protocol n (tmo_message tmo) h = refl
pass-protocol n (transaction_message tx) h = absurd (cc)
pass-protocol n query_message h = absurd (cc)
pass-protocol n (reply_message command) h = absurd (cc)
pass-protocol n (other_message k) h = absurd (cc)

protocol-is_handled :
    (m : Message) → is_protocol m ≡ true → is_handled (kind_of m) replica_kinds ≡ true
unfolding is_handled kind_of kind_discrete
protocol-is_handled (block_message b) h = refl
protocol-is_handled (vote_message v) h = refl
protocol-is_handled (tmo_message tmo) h = refl
protocol-is_handled (transaction_message tx) h = refl
protocol-is_handled query_message h = refl
protocol-is_handled (reply_message command) h = absurd (cc)
protocol-is_handled (other_message k) h = absurd (cc)

recv_all-holding :
    (is_silence : Bool) (n : Node) (ms : List Message)
    → (n.is_byz && is_silence) ≡ false
    → All (λ m. is_protocol m ≡ true) ms
    → recv_all is_silence n ms ≡ ok (holding n (n.message_chan ++ ms))
unfolding recv_all recv
recv_all-holding is_silence n [] honest h =
    ap (λ chan. ok (holding n chan)) (sym (append-nil n.message_chan))
recv_all-holding is_silence n (m ∷ ms) honest h =
    rw (honest, pass-protocol n m h.0)
      (recv_all-holding is_silence (holding n (n.message_chan ++ m ∷ [])) ms honest h.1
        ∙ ap (λ chan. ok (holding n chan)) (append_assoc n.message_chan (m ∷ []) ms))

handle_all-holding :
    (n : Node) (ms : List Message)
    → All (λ m. is_handled (kind_of m) n.handles ≡ true) ms
    → handle_all ms (holding n ms) ≡ ok (holding n [], ms)
unfolding handle_all handle call_handler
handle_all-holding n [] h = refl
handle_all-holding n (m ∷ ms) h = rw (h.0, handle_all-holding n ms h.1) refl

protocol-AreHandled :
    (n : Node) (ms : List Message)
    → n.handles ≡ replica_kinds
    → All (λ m. is_protocol m ≡ true) ms
    → All (λ m. is_handled (kind_of m) n.handles ≡ true) ms
protocol-AreHandled n ms known h =
    All-mono _ _ ms (λ m e. ap (is_handled (kind_of m)) known ∙ protocol-is_handled m e) h

-- A node that is not silent, with an empty message channel and the five handlers of a replica,
-- receives any messages that are blocks, votes and timeout messages without a failure, and as many
-- turns of handle give each of them to its handler, in the order in which the socket received
-- them, and empty the channel.
pub dispatch_in_order :
    (is_silence : Bool) (n : Node) (ms : List Message)
    → (n.is_byz && is_silence) ≡ false
    → n.handles ≡ replica_kinds
    → All (λ m. is_protocol m ≡ true) ms
    → (recv_all is_silence (holding n []) ms >>= λ t. handle_all ms t) ≡ ok (holding n [], ms)
dispatch_in_order is_silence n ms honest known h =
    rw (recv_all-holding is_silence (holding n []) ms honest h)
      (handle_all-holding n ms (protocol-AreHandled n ms known h))
