-- ===== src/Socket.antt =====
-- socket/socket.go and socket/txshare.go: sending to other nodes, with injected faults. A connection is
-- the queue of its transport (transport/transport.go), the latest message first. The clock and the
-- generator of random numbers are arguments, and so is whether an attempt to dial succeeds.
pub mod Connections
pub mod Broadcast
pub mod Share
use multipipelinehs.Prelude.{
  ℕ, zero, suc, ◌+◌, Bool, true, false, not, ◌&&◌, Option, none, some, List, [], ◌∷◌, ◌++◌, ltb,
  if◌then◌else◌, length, get, put, map, ℕ_discrete,
}
use multipipelinehs.Types.{NodeId, node_id_discrete, Result, ok, fault, panic, ◌>>=◌}
use multipipelinehs.Identity.{new_node_id}
use multipipelinehs.Config.{Text, Addresses}
use multipipelinehs.Env.{same_node}
use multipipelinehs.Utils.{retry, find_int_slice}

-- Floating-point chances, of which the code only uses 0 and the test that one is positive.
pub record Chances : Type 1 where
  pub Chance : Type 0
  pub never : Chance
  pub is_positive : Chance → Bool

-- `delayed` holds the messages that wait for the timer of a slow connection.
pub record Socket (c : Chances) (M : Type 0) : Type 0 where
  pub id : NodeId
  pub addresses : Addresses
  pub nodes : List (NodeId × List M)
  pub is_crashed : Bool
  pub drop : List (NodeId × Bool)
  pub slow : List (NodeId × ℕ)
  pub flaky : List (NodeId × c.Chance)
  pub delayed : List (NodeId × M)

-- What chance decides in one call: whether the message is lost to a flaky connection, and whether the
-- i-th attempt to dial succeeds.
pub record Luck : Type 0 where
  pub loses : Bool
  pub dials : ℕ → Bool

module _ {c : Chances} {M : Type 0} where
  unfoldable pub new_socket : NodeId → Addresses → Socket c M
  new_socket id addrs = record {
    id = id;
    addresses = addrs;
    nodes = (id, []) ∷ [];
    is_crashed = false;
    drop = [];
    slow = [];
    flaky = [];
    delayed = [];
  }

  -- A key that is missing reads as false, and as 0.
  unfoldable pub is_dropped : Socket c M → NodeId → Bool
  is_dropped s to = elim (get node_id_discrete to s.drop) [ none ↦ false | some b ↦ b ]

  unfoldable pub is_slow : Socket c M → NodeId → Bool
  is_slow s to = elim (get node_id_discrete to s.slow) [ none ↦ false | some delay ↦ ltb 0 delay ]

  unfoldable pub is_lost : Socket c M → NodeId → Bool → Bool
  is_lost s to loses = elim (get node_id_discrete to s.flaky) [
    | none ↦ false
    | some p ↦ if c.is_positive p then loses else false
  ]

  -- `t.Send`.
  unfoldable pub enqueue : Socket c M → NodeId → M → Socket c M
  enqueue s to m = elim (get node_id_discrete to s.nodes) [
    | none ↦ s
    | some queue ↦ record s { nodes = put node_id_discrete to (m ∷ queue) s.nodes }
  ]

  -- The connection of a node, made at the first message; `none` if there is no address.
  unfoldable pub connect : Socket c M → NodeId → (ℕ → Bool) → Result (Option (Socket c M))
  connect s to dials = elim (get node_id_discrete to s.nodes) [
    | some _ ↦ ok (some s)
    | none ↦ elim (get node_id_discrete to s.addresses) [
      | none ↦ ok none
      | some _ ↦
          if (retry dials 100).0
          then ok (some (record s { nodes = put node_id_discrete to [] s.nodes }))
          else fault panic
    ]
  ]

  -- What follows the connection.
  unfoldable pub send_on : Option (Socket c M) → Socket c M → NodeId → M → Socket c M
  send_on none s to m = s
  send_on (some t) s to m =
      if is_slow t to then record t { delayed = t.delayed ++ (to, m) ∷ [] } else enqueue t to m

  unfoldable pub send : Socket c M → NodeId → M → Luck → Result (Socket c M)
  send s to m luck =
      if s.is_crashed
      then ok s
      else if is_dropped s to
      then ok s
      else if is_lost s to luck.loses
      then ok s
      else do t ← connect s to luck.dials; ok (send_on t s to m)

  -- The timer of a delayed message, the oldest one.
  unfoldable pub delay_over : Socket c M → Socket c M
  delay_over s = elim s.delayed [
    | [] ↦ s
    | d ∷ rest ↦ enqueue (record s { delayed = rest }) d.0 d.1
  ]

  -- `Broadcast`, over the addresses in the order of the map.
  unfoldable pub broadcast_to : Socket c M → Addresses → M → (NodeId → Luck) → Result (Socket c M)
  broadcast_to s [] m luck = ok s
  broadcast_to s (a ∷ rest) m luck =
      if same_node a.0 s.id
      then broadcast_to s rest m luck
      else do t ← send s a.0 m (luck a.0); broadcast_to t rest m luck

  unfoldable pub broadcast : Socket c M → M → (NodeId → Luck) → Result (Socket c M)
  broadcast s m luck = broadcast_to s s.addresses m luck

  -- `MulticastQuorum`, with the numbers that are drawn, one for each round, from 1 to the number of
  -- addresses; there is an address.
  unfoldable pub multicast :
      Socket c M → List ℕ → List ℕ → M → (NodeId → Luck) → Result (Socket c M)
  multicast s sent [] m luck = ok s
  multicast s sent (r ∷ draws) m luck =
      if find_int_slice sent r then multicast s sent draws m luck else do
        t ← send s (new_node_id r) m (luck (new_node_id r))
        multicast t (r ∷ sent) draws m luck

  unfoldable pub multicast_quorum : Socket c M → List ℕ → M → (NodeId → Luck) → Result (Socket c M)
  multicast_quorum s draws m luck = multicast s [] draws m luck

  -- A turn of the loop of `Recv`: a node that crashed drops what comes.
  unfoldable pub recv_turn : Socket c M → M → Option M
  recv_turn s m = if not s.is_crashed then some m else none

  -- The injected faults, and the ends of their timers.
  unfoldable pub inject_drop : Socket c M → NodeId → Socket c M
  inject_drop s id = record s { drop = put node_id_discrete id true s.drop }

  unfoldable pub drop_over : Socket c M → NodeId → Socket c M
  drop_over s id = record s { drop = put node_id_discrete id false s.drop }

  unfoldable pub inject_slow : Socket c M → NodeId → ℕ → Socket c M
  inject_slow s id delay = record s { slow = put node_id_discrete id delay s.slow }

  unfoldable pub slow_over : Socket c M → NodeId → Socket c M
  slow_over s id = record s { slow = put node_id_discrete id 0 s.slow }

  unfoldable pub inject_flaky : Socket c M → NodeId → c.Chance → Socket c M
  inject_flaky s id p = record s { flaky = put node_id_discrete id p s.flaky }

  unfoldable pub flaky_over : Socket c M → NodeId → Socket c M
  flaky_over s id = record s { flaky = put node_id_discrete id c.never s.flaky }

  unfoldable pub inject_crash : Socket c M → Socket c M
  inject_crash s = record s { is_crashed = true }

  unfoldable pub crash_over : Socket c M → Socket c M
  crash_over s = record s { is_crashed = false }
