-- ===== src/Replica/Start.antt =====
-- `NewReplica` of replica/replica.go: the election and the protocol by the configuration, and empty
-- channels.
use multipipelinehs.Prelude.{ℕ, false, none, List, [], ◌∷◌, if◌then◌else◌}
use multipipelinehs.Types.{NodeId}
use multipipelinehs.Env.{Env, same_node}
use multipipelinehs.Election.{Election}
use multipipelinehs.Election.Rotation.{new_rotation}
use multipipelinehs.Election.Static.{new_static}
use multipipelinehs.Config.{Config}
use multipipelinehs.Mempool.Producer.{Producer, new_producer}
use multipipelinehs.Safety.{Safety}
use multipipelinehs.Safety.Pipeline.{mhotstuff}
use multipipelinehs.Safety.Threads.{mthotstuff}
use multipipelinehs.Replica.{Replica}

-- `sha1_head` is the hash of the rotation. The master "0" is no replica.
unfoldable pub choose_election : (List ℕ → ℕ) → ℕ → NodeId → Election
choose_election sha1_head n master =
    if same_node master (b'0' ∷ []) then new_rotation sha1_head n else new_static master

-- The names of the protocols, and any other name.
pub data Algorithm : Type 0 where
  mhotstuff_alg mthotstuff_alg other_alg : Algorithm

abbrev pub choose_protocol : Env → Algorithm → Safety
choose_protocol env mhotstuff_alg = mhotstuff env
choose_protocol env mthotstuff_alg = mthotstuff env
choose_protocol env other_alg = mhotstuff env

unfoldable pub replica_with : (p : Safety) → ℕ → Producer → Replica p
replica_with p n pd = record {
  protocol = p.new_state n;
  pd = pd;
  start = false;
  is_started = false;
  running = false;
  committed_blocks = [];
  forked_blocks = [];
  clean_blocks = [];
  event_chan = [];
  dual_event_chan = [];
  waiting = none;
  heard = [];
  new_view_chan = [];
  network = [];
  total_block_size = 0;
  received_no = 0;
  round_no = 0;
  vote_no = 0;
  total_committed_tx = 0;
  latency_no = 0;
  proposed_no = 0;
  processed_no = 0;
  committed_no = 0;
}

-- `NewReplica`, of the id, the behaviour and the size of the group that are in `env`.
unfoldable pub new_replica :
    (env : Env) (alg : Algorithm) → Config → Replica (choose_protocol env alg)
new_replica env alg config =
    replica_with (choose_protocol env alg) env.n (new_producer config env.id env.is_byz)
