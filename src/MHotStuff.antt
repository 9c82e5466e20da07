-- ===== src/MHotStuff.antt =====
-- mhotstuff/mhotstuff.go: the state of the protocol and the steps that its handlers share. What a
-- handler sends goes to `sent`, the latest first; only `proposeChan` is
-- ever full here, and a send on it is then `fault blocked`.
-- `proposals` is what stands in `proposeChan`, the oldest first. `mu` makes each small step one step.
pub mod Certificate
pub mod Proposal
pub mod Blocks
pub mod Votes
pub mod Timeouts
pub mod Moves
pub mod Handlers
pub mod ChainMoves
pub mod BlockMoves
pub mod MessageMoves
pub mod Reach
pub mod Buffered
pub mod Pending
pub mod Bound
pub mod Forgery
pub mod Signals
use multipipelinehs.Prelude.{
  length, ℕ, ◌+◌, ◌-◌, Bool, true, false, ◌||◌, Option, none, some, List, [], ◌∷◌, ◌++◌, ℕ_discrete,
  ltb, leb, if◌then◌else◌, put,
}
use multipipelinehs.Types.{
  blocked, View, Seq, Identifier, NodeId, SignalV, Payload, Vote, Qc, Tc, Tmo, Block, Result, ok,
  fault, ◌>>=◌, deref, zero_qc, zero_block, ProposeType,
}
use multipipelinehs.Pacemaker.{Pacemaker, new_pacemaker, advance_view}
use multipipelinehs.BlockChain.{BlockChain, new_blockchain, get_block_by_id}
use multipipelinehs.Env.{Env}

-- What a handler sends, and where to.
pub data Event : Type 0 where
  clean committed forked : Block → Event
  self_vote : Vote → Event
  send_vote : NodeId → Vote → Event
  broadcast_tmo self_tmo : Tmo → Event

pub record MHotStuff : Type 0 where
  pub pm : Pacemaker
  pub last_voted_view : View
  pub last_voted_seq : Seq
  pub preferred_view : View
  pub preferred_seq : Seq
  pub high_qc : Qc
  pub sec_high_qc : Qc
  pub high_tc : Option Tc
  pub sec_high_tc : Option Tc
  pub high_block : Block
  pub bc : BlockChain
  pub buffered_qcs : List (Identifier × Qc)
  pub buffered_blocks : List (View × Block)
  pub proposals : List SignalV
  pub sent : List Event

-- An `error` or nil.
pub data Returned : Type 0 where
  nil failed : Returned

unfoldable pub new_mhotstuff : ℕ → MHotStuff
unfolding new_pacemaker new_blockchain
new_mhotstuff n = record {
  pm = new_pacemaker n;
  last_voted_view = 0;
  last_voted_seq = 0;
  preferred_view = 0;
  preferred_seq = 0;
  high_qc = zero_qc;
  sec_high_qc = zero_qc;
  high_tc = none;
  sec_high_tc = none;
  high_block = record zero_block { seq = 1 };
  bc = new_blockchain n;
  buffered_qcs = [];
  buffered_blocks = [];
  proposals = [];
  sent = [];
}

unfoldable pub send : MHotStuff → Event → MHotStuff
send s e = record s { sent = e ∷ s.sent }

-- The channels after what was sent on them is taken.
unfoldable pub emptied : MHotStuff → MHotStuff
emptied s = record s { sent = [] }

unfoldable pub signal : MHotStuff → SignalV → MHotStuff
signal s v = record s { proposals = s.proposals ++ v ∷ [] }

-- `proposeChan` holds four signals.
unfoldable pub has_room : MHotStuff → Bool
has_room s = ltb (length s.proposals) 4

-- A send on `proposeChan`, which does not come back while it is full.
unfoldable pub send_signal : MHotStuff → SignalV → Result MHotStuff
unfolding has_room signal
send_signal s v = if has_room s then ok (signal s v) else fault blocked

unfoldable pub advance : MHotStuff → View → Seq → ProposeType → MHotStuff
advance s view seq pt = record s { pm = advance_view s.pm view seq pt }

unfoldable pub update_high_qc : MHotStuff → Qc → MHotStuff
update_high_qc s qc =
    if ltb s.high_qc.view qc.view then record s { sec_high_qc = s.high_qc; high_qc = qc } else s

unfoldable pub update_high_tc : MHotStuff → Option Tc → MHotStuff
update_high_tc s tc = record s { sec_high_tc = s.high_tc; high_tc = tc }

unfoldable pub update_high_block : MHotStuff → Block → MHotStuff
update_high_block s b = if ltb s.high_block.view b.view then record s { high_block = b } else s

-- `updateLastVotedView` and `updateLastVotedSeq`, which nothing calls.
unfoldable pub update_last_voted_view : MHotStuff → View → MHotStuff × Returned
update_last_voted_view s target =
    if ltb target s.last_voted_view
    then (s, failed)
    else (record s { last_voted_view = target }, nil)

unfoldable pub update_last_voted_seq : MHotStuff → Seq → MHotStuff × Returned
update_last_voted_seq s target =
    if ltb target s.last_voted_seq then (s, failed) else (record s { last_voted_seq = target }, nil)

-- The two blocks that `updatePreferredView` and `updatePreferredSeq` look up: the certified block's
-- parent certificate names the second one.
unfoldable pub grand_parent : MHotStuff → Qc → Result (Option Block)
grand_parent s qc = elim (get_block_by_id s.bc qc.block_id) [
  | none ↦ ok none
  | some b1 ↦ do qc1 ← deref b1.qc; ok (get_block_by_id s.bc qc1.block_id)
]

unfoldable pub update_preferred_view : MHotStuff → Qc → Result (MHotStuff × Returned)
unfolding grand_parent
update_preferred_view s qc = if leb qc.view 4 then ok (s, nil) else do
  g ← grand_parent s qc
  elim g [
    | none ↦ ok (s, failed)
    | some b ↦
        ok (if ltb s.preferred_view b.view then record s { preferred_view = b.view } else s, nil)
  ]

unfoldable pub update_preferred_seq : MHotStuff → Qc → Result (MHotStuff × Returned)
unfolding grand_parent
update_preferred_seq s qc = if ltb qc.seq 4 then ok (s, nil) else do
  g ← grand_parent s qc
  elim g [
    | none ↦ ok (s, failed)
    | some b ↦ ok (if ltb s.preferred_seq b.seq then record s { preferred_seq = b.seq } else s, nil)
  ]

-- `votingRule`; `none` is its error.
unfoldable pub voting_rule : MHotStuff → Block → Result (Option Bool)
voting_rule s b = if ltb b.view 5 then ok (some true) else do
  qc ← deref b.qc
  elim (get_block_by_id s.bc qc.block_id) [
    | none ↦ ok none
    | some p ↦
        ok (some (if leb b.seq s.last_voted_seq || ltb p.seq s.preferred_seq then false else true))
  ]

-- `commitRule`: the block three certificates down; `none` is its error.
unfoldable pub commit_rule : MHotStuff → Qc → Result (Option Block)
commit_rule s qc = elim (get_block_by_id s.bc qc.block_id) [
  | none ↦ ok none
  | some b2 ↦ do
    qc2 ← deref b2.qc
    elim (get_block_by_id s.bc qc2.block_id) [
      | none ↦ ok none
      | some b1 ↦ do qc1 ← deref b1.qc; ok (get_block_by_id s.bc qc1.block_id)
    ]
]
