-- ===== src/Election/Rotation.antt =====
-- election/rotation.go: a leader drawn by a hash of the view. The hash is a parameter: the first eight
-- bytes of the SHA-1 of a decimal text, as a 64-bit number.
use multipipelinehs.Prelude.{
  ℕ, ◌+◌, ◌-◌, ◌%◌, ◌<◌, ◌≡◌, Bool, true, not, ◌||◌, List, arith, ltb, leb, ◌==◌, if◌then◌else◌,
}
use Prim.Native.Nat.{◌^◌}
use native.Mathlib.Nat.{mod-lt}
use multipipelinehs.Types.{View, NodeId}
use multipipelinehs.Identity.{itoa, new_node_id, node}
use multipipelinehs.Identity.RoundTrip.{node-new_node_id}
use multipipelinehs.Election.{Election}

module _ (sha1_head : List ℕ → ℕ) (peer_no : ℕ) where
  abbrev draw : View → ℕ
  draw view = sha1_head (itoa (view + 1)) % peer_no

  -- `id.Node() < r.peerNo` compares signed integers.
  unfoldable pub is_leader : NodeId → View → Bool
  is_leader id view =
      if leb view 3
      then not (leb (2 ^ 63) (node id) || ltb (node id) peer_no)
      else draw view == (node id + 2 ^ 64 - 1) % 2 ^ 64

  unfoldable pub find_leader_for : View → NodeId
  find_leader_for view = if leb view 3 then new_node_id peer_no else new_node_id (draw view + 1)

  unfoldable pub new_rotation : Election
  unfolding is_leader find_leader_for
  new_rotation = record { is_leader = is_leader; find_leader_for = find_leader_for }

  -- For a group of at least one and fewer than 2 ^ 63 replicas, the node that FindLeaderFor names
  -- is a leader by IsLeader, in every view.
  pub is_leader-find_leader_for :
      0 < peer_no → peer_no < 2 ^ 63 → (view : View) → is_leader (find_leader_for view) view ≡ true
  unfolding is_leader find_leader_for
  is_leader-find_leader_for pos small view = ground (
    arith,
    node-new_node_id peer_no (omega arith),
    node-new_node_id (draw view + 1) (omega arith),
    mod-lt (sha1_head (itoa (view + 1))) pos,
  )

  -- For a group of at least one and fewer than 2 ^ 63 replicas, in a view above 3, any id whose
  -- number fits 64 bits and that is a leader by IsLeader has the number of the node that
  -- FindLeaderFor names.
  pub node_of_is_leader :
      0 < peer_no
      → peer_no < 2 ^ 63
      → (view : View) (id : NodeId) → 3 < view
      → is_leader id view ≡ true
      → node id < 2 ^ 64
      → node id ≡ node (find_leader_for view)
  unfolding is_leader find_leader_for
  node_of_is_leader pos small view id h lead range = ground (
    arith,
    node-new_node_id (draw view + 1) (omega arith),
    mod-lt (sha1_head (itoa (view + 1))) pos,
  )
