-- ===== src/Election/Static.antt =====
-- election/static.go: one fixed leader.
use multipipelinehs.Prelude.{Bool, true, false}
use multipipelinehs.Types.{View, NodeId, node_id_discrete}
use multipipelinehs.Election.{Election}

unfoldable pub is_leader : NodeId → NodeId → View → Bool
is_leader master id view = elim (node_id_discrete id master) [ yes _ ↦ true | no _ ↦ false ]

unfoldable pub find_leader_for : NodeId → View → NodeId
find_leader_for master view = master

unfoldable pub new_static : NodeId → Election
unfolding is_leader find_leader_for
new_static master = record {
  is_leader = is_leader master;
  find_leader_for = find_leader_for master;
}
