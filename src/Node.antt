-- ===== src/Node.antt =====
-- node/node.go and node/http.go: the node of a replica, which passes what the socket receives, and what
-- clients ask over HTTP, to the handlers that were registered. A handler is known by the type of its
-- messages; reflection and the log are left out.
pub mod Dispatch
use multipipelinehs.Prelude.{
  ℕ, Bool, true, false, ◌&&◌, Option, none, some, List, [], ◌∷◌, ◌++◌, if◌then◌else◌, get,
}
use multipipelinehs.Prelude.{ℕ_discrete}
use multipipelinehs.Types.{
  NodeId, node_id_discrete, Vote, Tmo, Block, Result, ok, fault, panic, ◌>>=◌,
}
use multipipelinehs.Config.{Text, Addresses}
use multipipelinehs.Mempool.{Transaction}
use multipipelinehs.Socket.{Chances, Socket, inject_crash, inject_slow, inject_flaky}

-- What may come; a reply is known by the text of its command.
pub data Message : Type 0 where
  block_message : Block → Message
  vote_message : Vote → Message
  tmo_message : Tmo → Message
  transaction_message : Transaction → Message
  query_message : Message
  reply_message : Text → Message
  other_message : ℕ → Message

-- The name of the type of a message.
pub data Kind : Type 0 where
  block_kind vote_kind tmo_kind transaction_kind query_kind reply_kind : Kind
  other_kind : ℕ → Kind

unfoldable pub kind_discrete : Discrete Kind
kind_discrete = hlevel ℕ_discrete

unfoldable pub kind_of : Message → Kind
kind_of (block_message b) = block_kind
kind_of (vote_message v) = vote_kind
kind_of (tmo_message tmo) = tmo_kind
kind_of (transaction_message tx) = transaction_kind
kind_of query_message = query_kind
kind_of (reply_message command) = reply_kind
kind_of (other_message n) = other_kind n

-- Nothing writes `forwards`.
pub record Node : Type 0 where
  pub id : NodeId
  pub is_byz : Bool
  pub message_chan : List Message
  pub tx_chan : List Message
  pub handles : List Kind
  pub forwards : List (Text × Transaction)

unfoldable pub new_node : NodeId → Bool → Node
new_node id is_byz = record {
  id = id;
  is_byz = is_byz;
  message_chan = [];
  tx_chan = [];
  handles = [];
  forwards = [];
}

unfoldable pub register : Node → Kind → Node
register n k = record n { handles = n.handles ++ k ∷ [] }

-- `Retry` of a transaction.
unfoldable pub retry_transaction : Node → Transaction → Node
retry_transaction n tx = record n { message_chan = n.message_chan ++ transaction_message tx ∷ [] }

unfoldable pub is_handled : Kind → List Kind → Bool
is_handled k [] = false
is_handled k (h ∷ hs) = elim (kind_discrete h k) [ yes _ ↦ true | no _ ↦ is_handled k hs ]

-- What `recv` does with a message that is not dropped. The reply to a transaction that is not known calls
-- a method of nil, which reads its channel.
unfoldable pub pass : Node → Message → Result Node
pass n (transaction_message tx) =
    ok (record n { tx_chan = n.tx_chan ++ transaction_message tx ∷ [] })
pass n (reply_message command) = elim (get node_id_discrete command n.forwards) [
  | none ↦ fault panic
  | some tx ↦ ok n
]
pass n m = ok (record n { message_chan = n.message_chan ++ m ∷ [] })

-- A turn of `recv`; `is_silence` is the test of the strategy.
unfoldable pub recv : Bool → Node → Message → Result Node
recv is_silence n m = if n.is_byz && is_silence then ok n else pass n m

-- A message is given to its handler; without one the program ends.
unfoldable pub call_handler : Node → Message → Result (Node × Option Message)
call_handler n m = if is_handled (kind_of m) n.handles then ok (n, some m) else fault panic

-- A turn of `txn`, and one of `handle`: the node, and the message whose handler was called, or nothing
-- while the loop waits.
unfoldable pub txn : Node → Result (Node × Option Message)
txn n = elim n.tx_chan [
  | [] ↦ ok (n, none)
  | m ∷ rest ↦ call_handler (record n { tx_chan = rest }) m
]

unfoldable pub handle : Node → Result (Node × Option Message)
handle n = elim n.message_chan [
  | [] ↦ ok (n, none)
  | m ∷ rest ↦ call_handler (record n { message_chan = rest }) m
]

-- `handleRoot`, of a request with its body and its URI, and `handleQuery` before its reply.
unfoldable pub handle_root : Node → Transaction → Node
handle_root n tx = record n { tx_chan = n.tx_chan ++ transaction_message tx ∷ [] }

unfoldable pub handle_query_request : Node → Node
handle_query_request n = record n { tx_chan = n.tx_chan ++ query_message ∷ [] }

-- The faults that a client asks for, for each of the addresses; `delay` draws a number below the largest
-- delay of the configuration, and `half` is the chance 0.5.
module _ {c : Chances} {M : Type 0} where
  unfoldable pub handle_crash : Socket c M → Socket c M
  handle_crash s = inject_crash s

  unfoldable pub handle_slow : Socket c M → Addresses → (NodeId → ℕ) → Socket c M
  handle_slow s [] delay = s
  handle_slow s (a ∷ rest) delay = handle_slow (inject_slow s a.0 (delay a.0)) rest delay

  unfoldable pub handle_flaky : Socket c M → Addresses → c.Chance → Socket c M
  handle_flaky s [] half = s
  handle_flaky s (a ∷ rest) half = handle_flaky (inject_flaky s a.0 half) rest half
