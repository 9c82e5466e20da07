-- ===== src/Transport.antt =====
-- transport/transport.go: the choice of a transport, its channels, and the transport within a process.
-- Parsing a URL is an argument. A channel takes any number of messages; one that is empty makes its reader
-- wait. The goroutines that Dial and Listen start are known by the connections that they serve.
pub mod Link
pub mod Order
use multipipelinehs.Prelude.{
  ℕ, Bool, true, false, ◌||◌, Option, none, some, List, [], ◌∷◌, ◌++◌, if◌then◌else◌, get, put,
  length, ◌==◌,
}
use multipipelinehs.Types.{node_id_discrete, Result, ok, fault, panic}
use multipipelinehs.Config.{Text}

pub data Scheme : Type 0 where
  chan tcp udp : Scheme

pub record Transport (M : Type 0) : Type 0 where
  pub scheme : Scheme
  pub host : Text
  pub send : List M
  pub recv : List M
  pub is_closed : Bool
  pub dialed : List ℕ
  pub listens : List ℕ

-- The channels of the process: the connection of each host, and what stands in the connections.
pub record Process (M : Type 0) : Type 0 where
  pub chans : List (Text × ℕ)
  pub conns : List (List M)

-- Whether the text holds "://".
unfoldable pub has_scheme : Text → Bool
has_scheme [] = false
has_scheme (a ∷ []) = false
has_scheme (a ∷ b ∷ []) = false
has_scheme (a ∷ b ∷ c ∷ rest) =
    let later = has_scheme (b ∷ c ∷ rest) in
    if a == b':' then (if b == b'/' then (if c == b'/' then true else later) else later) else later

abbrev same_word : Text → Text → Bool
same_word a b = elim (node_id_discrete a b) [ yes _ ↦ true | no _ ↦ false ]

module _ {M : Type 0} where
  unfoldable pub made_transport : Scheme → Text → Transport M
  made_transport scheme host = record {
    scheme = scheme;
    host = host;
    send = [];
    recv = [];
    is_closed = false;
    dialed = [];
    listens = [];
  }

  -- The switch of `NewTransport`; an unknown scheme ends the program.
  unfoldable pub choose_transport : Text → Text → Result (Transport M)
  choose_transport scheme host =
      if same_word scheme (b'c' ∷ b'h' ∷ b'a' ∷ b'n' ∷ [])
      then ok (made_transport chan host)
      else if same_word scheme (b't' ∷ b'c' ∷ b'p' ∷ [])
      then ok (made_transport tcp host)
      else if same_word scheme (b'u' ∷ b'd' ∷ b'p' ∷ [])
      then ok (made_transport udp host)
      else fault panic

  -- `NewTransport`, with the parts of a URL, and the scheme of the flag.
  unfoldable pub new_transport : (Text → Option (Text × Text)) → Text → Text → Result (Transport M)
  new_transport parse flag addr =
      let full = if has_scheme addr then addr else flag ++ b':' ∷ b'/' ∷ b'/' ∷ addr in
      elim (parse full) [ none ↦ fault panic | some (scheme, host) ↦ choose_transport scheme host ]

  -- A send on a closed channel panics.
  unfoldable pub send_message : Transport M → M → Result (Transport M)
  send_message t m = if t.is_closed then fault panic else ok (record t { send = t.send ++ m ∷ [] })

  unfoldable pub recv_message : Transport M → Option (M × Transport M)
  recv_message t = elim t.recv [ [] ↦ none | m ∷ rest ↦ some (m, record t { recv = rest }) ]

  unfoldable pub close : Transport M → Result (Transport M)
  close t = if t.is_closed then fault panic else ok (record t { is_closed = true })

  -- `Dial` of a channel; `none` is the error that the server is not ready.
  unfoldable pub dial : Process M → Transport M → Option (Transport M)
  dial p t = elim (get node_id_discrete t.host p.chans) [
    | none ↦ none
    | some conn ↦ some (record t { dialed = conn ∷ t.dialed })
  ]

  -- A turn of the goroutine of `Dial`, on its connection.
  unfoldable pub forward : Transport M → List M → Transport M × List M
  forward t conn = elim t.send [
    | [] ↦ (t, conn)
    | m ∷ rest ↦ (record t { send = rest }, conn ++ m ∷ [])
  ]

  -- `Listen` of a channel.
  unfoldable pub listen : Process M → Transport M → Process M × Transport M
  listen p t =
      let conn = length p.conns in
      (
        record p { chans = put node_id_discrete t.host conn p.chans; conns = p.conns ++ [] ∷ [] },
        record t { listens = conn ∷ t.listens },
      )

  -- A turn of the goroutine of `Listen` that takes a message.
  unfoldable pub deliver : Transport M → List M → Transport M × List M
  deliver t [] = (t, [])
  deliver t (m ∷ rest) = (record t { recv = t.recv ++ m ∷ [] }, rest)
