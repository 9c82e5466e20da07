-- ===== src/Replica.antt =====
-- replica/replica.go: the state of a replica and the handlers of its messages.
--
-- A channel is the list of what stands in it, the oldest first. The channels of a replica itself are
-- taken to have room, so that no send on them waits. `network` is what was sent to others, the latest first. `heard` is what was taken from the
-- pacemaker's channel, the latest first. Durations, the log and the timestamps of blocks are left out.
pub mod Loops
pub mod Start
pub mod Alike
pub mod Quiet
pub mod Runs
pub mod Proposals
pub mod Stale
pub mod Drain
pub mod Kickoff
pub mod Refines
use multipipelinehs.Prelude.{
  ℕ, ◌+◌, Bool, true, ◌&&◌, Option, none, List, [], ◌∷◌, ◌++◌, ltb, ◌==◌, if◌then◌else◌, length,
}
use multipipelinehs.Types.{
  View, NodeId, NewViewType, Vote, Qc, Tmo, Block, no_timeout, Result, ok, ◌>>=◌,
}
use multipipelinehs.Env.{Env, same_node}
use multipipelinehs.MHotStuff.{
  Event, clean, committed, forked, self_vote, send_vote, broadcast_tmo, self_tmo,
}
use multipipelinehs.Mempool.{Transaction}
use multipipelinehs.Mempool.Producer.{Producer, add_txn}
use multipipelinehs.Safety.{Safety}

-- What stands in `eventChan`.
pub data Incoming : Type 0 where
  block_event : Block → Incoming
  tmo_event : Tmo → Incoming

-- What a replica sends to others: a proposal or a timeout message to all of them, a vote to one.
pub data Packet : Type 0 where
  proposal : Block → Packet
  tmo_packet : Tmo → Packet
  vote_packet : NodeId → Vote → Packet

-- `start` is whether the signal stands in that channel, and `running` whether `Start` has taken it.
-- `waiting` is the certificate of the vote handler that waits for a signal, which holds up the loop
-- over `dualEventChan`.
pub record Replica (p : Safety) : Type 0 where
  pub protocol : p.State
  pub pd : Producer
  pub start : Bool
  pub is_started : Bool
  pub running : Bool
  pub committed_blocks : List Block
  pub forked_blocks : List Block
  pub clean_blocks : List Block
  pub event_chan : List Incoming
  pub dual_event_chan : List Vote
  pub waiting : Option Qc
  pub heard : List NewViewType
  pub new_view_chan : List NewViewType
  pub network : List Packet
  pub total_block_size : ℕ
  pub received_no : ℕ
  pub round_no : ℕ
  pub vote_no : ℕ
  pub total_committed_tx : ℕ
  pub latency_no : ℕ
  pub proposed_no : ℕ
  pub processed_no : ℕ
  pub committed_no : ℕ

abbrev pub cur_view : {p : Safety} → Replica p → View
cur_view {p} r = (p.pm r.protocol).cur_view

-- What the protocol has sent goes to its channel.
unfoldable pub deliver : {p : Safety} → Event → Replica p → Replica p
deliver (clean b) r = record r { clean_blocks = r.clean_blocks ++ b ∷ [] }
deliver (committed b) r = record r { committed_blocks = r.committed_blocks ++ b ∷ [] }
deliver (forked b) r = record r { forked_blocks = r.forked_blocks ++ b ∷ [] }
deliver (self_vote v) r = record r { dual_event_chan = r.dual_event_chan ++ v ∷ [] }
deliver (send_vote to v) r = record r { network = vote_packet to v ∷ r.network }
deliver (broadcast_tmo tmo) r = record r { network = tmo_packet tmo ∷ r.network }
deliver (self_tmo tmo) r = record r { event_chan = r.event_chan ++ tmo_event tmo ∷ [] }

unfoldable pub deliver_all : {p : Safety} → List Event → Replica p → Replica p
deliver_all [] r = r
deliver_all (e ∷ es) r = deliver e (deliver_all es r)

-- The replica after a call of its protocol.
unfoldable pub settle : {p : Safety} → Replica p → p.State → Replica p
settle {p} r s = deliver_all (p.sent s) (record r { protocol = p.emptied s })

unfoldable pub start_signal : {p : Safety} → Replica p → Replica p
start_signal r = if r.is_started then r else record r { is_started = true; start = true }

unfoldable pub handle_block : {p : Safety} → Replica p → Block → Replica p
handle_block r block =
    let r1 = start_signal (record r { received_no = r.received_no + 1 }) in
    record r1 { event_chan = r1.event_chan ++ block_event block ∷ [] }

unfoldable pub handle_vote : {p : Safety} → Replica p → Vote → Replica p
handle_vote r vote =
    if ltb vote.seq (cur_view r)
    then r
    else let r1 = start_signal r in record r1 { dual_event_chan = r1.dual_event_chan ++ vote ∷ [] }

unfoldable pub handle_tmo : {p : Safety} → Replica p → Tmo → Replica p
handle_tmo r tmo =
    if ltb tmo.view (cur_view r)
    then r
    else record r { event_chan = r.event_chan ++ tmo_event tmo ∷ [] }

-- The part of `handleQuery` that is not its report.
unfoldable pub handle_query : {p : Safety} → Replica p → Replica p
handle_query r = record r { total_committed_tx = 0 }

-- The vote of view 0 that the first leader sends itself.
abbrev pub kick_vote : Env → Vote
kick_vote env = record { view = 0; seq = 0; voter = env.id; block_id = 0; signature = [] }

module _ (env : Env) {p : Safety} where
  -- The end of `handleTxn` and of `activate`.
  unfoldable pub kick_off : Replica p → Replica p
  kick_off r =
      if (cur_view r == 0) && env.election.is_leader env.id 1
      then record r {
        protocol = p.advance r.protocol 0 0 no_timeout;
        dual_event_chan = r.dual_event_chan ++ kick_vote env ∷ [];
      }
      else r

  -- `stamp` is the time that the transaction is marked with; `now` and `later` are the readings of the
  -- pool.
  unfoldable pub handle_txn : Replica p → ℕ → ℕ → ℕ → Transaction → Replica p
  handle_txn r stamp now later tx =
      kick_off
        (start_signal (record r { pd = add_txn r.pd now later (record tx { timestamp = stamp }) }))

  -- `activate`, once its signal has come.
  unfoldable pub activate : Replica p → Replica p
  activate r = kick_off (start_signal r)
