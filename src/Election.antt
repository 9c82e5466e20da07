-- ===== src/Election.antt =====
-- election/election.go: who leads a view.
pub mod Rotation
pub mod Static
use multipipelinehs.Prelude.{Bool}
use multipipelinehs.Types.{View, NodeId}

pub record Election : Type 0 where
  pub is_leader : NodeId → View → Bool
  pub find_leader_for : View → NodeId
