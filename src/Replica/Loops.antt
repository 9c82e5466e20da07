-- ===== src/Replica/Loops.antt =====
-- The loops of replica/replica.go: each function is a turn of a loop, which changes nothing where the
-- loop waits. A loop runs once `Start` has taken its signal.
use multipipelinehs.Prelude.{
  ℕ, ◌+◌, ◌-◌, true, false, not, Option, none, some, List, [], ◌∷◌, ◌++◌, ltb, if◌then◌else◌,
  length, get_elem?,
}
use multipipelinehs.Types.{NewViewType, Payload, Vote, Qc, Tmo, Block, Result, ok, ◌>>=◌}
use multipipelinehs.Env.{Env, same_node}
use multipipelinehs.Mempool.{Transaction}
use multipipelinehs.Mempool.Producer.{Producer, clean_txn, generate_payload}
use multipipelinehs.MHotStuff.Votes.{VoteStatus, returned, waits_with}
use multipipelinehs.Safety.{Safety}
use multipipelinehs.Replica.{
  Replica, Incoming, block_event, tmo_event, proposal, settle, handle_block, handle_vote,
  handle_tmo, handle_query, handle_txn, activate,
}

unfoldable pub clean_payload : Producer → List Payload → Producer
clean_payload pd [] = pd
clean_payload pd (txn ∷ txns) = clean_payload (clean_txn pd txn) txns

unfoldable pub clean_block : {p : Safety} → Replica p → Block → Replica p
clean_block r block = record r { pd = clean_payload r.pd block.payload }

-- It only logs.
unfoldable pub process_forked_block : {p : Safety} → Replica p → Block → Replica p
process_forked_block r block = r

-- The next event of the pacemaker: the oldest one that was not taken.
unfoldable pub next_entered : List NewViewType → List NewViewType → Option NewViewType
next_entered entered heard =
    if ltb (length heard) (length entered)
    then get_elem? entered (length entered - (length heard + 1))
    else none

-- The turns of `ListenLocalEvent`: a new view, and the timer.
unfoldable pub enter_view : {p : Safety} → Replica p → Replica p
enter_view {p} r = elim (next_entered (p.pm r.protocol).entered r.heard) [
  | none ↦ r
  | some v ↦ record r {
    heard = v ∷ r.heard;
    round_no = r.round_no + 1;
    new_view_chan = r.new_view_chan ++ v ∷ [];
  }
]

unfoldable pub time_out : {p : Safety} → Replica p → Replica p
time_out {p} r =
    let pm = p.pm r.protocol in settle r (p.process_local_tmo r.protocol pm.cur_view pm.cur_seq)

unfoldable pub take_clean : {p : Safety} → Replica p → Replica p
take_clean r = elim r.clean_blocks [
  | [] ↦ r
  | b ∷ rest ↦ clean_block (record r { clean_blocks = rest }) b
]

unfoldable pub take_forked : {p : Safety} → Replica p → Replica p
take_forked r = elim r.forked_blocks [
  | [] ↦ r
  | b ∷ rest ↦ process_forked_block (record r { forked_blocks = rest }) b
]

module _ (env : Env) {p : Safety} where
  unfoldable pub process_committed_block : Replica p → Block → Replica p
  process_committed_block r block =
      let own =
        if same_node block.proposer env.id
        then record r { latency_no = r.latency_no + length block.payload }
        else r in
      record own {
        committed_no = own.committed_no + 1;
        total_committed_tx = own.total_committed_tx + length block.payload;
      }

  -- A turn of `ListenCommittedBlocks`, as `take_clean` and `take_forked`.
  unfoldable pub take_committed : Replica p → Replica p
  take_committed r = elim r.committed_blocks [
    | [] ↦ r
    | b ∷ rest ↦ process_committed_block (record r { committed_blocks = rest }) b
  ]

  -- What the loop over `dualEventChan` does when `ProcessVote` returns or waits.
  unfoldable pub vote_done : Replica p → p.State × VoteStatus → Replica p
  vote_done r (s, returned) =
      let r1 = settle r s in record r1 { waiting = none; vote_no = r1.vote_no + 1 }
  vote_done r (s, waits_with qc) = let r1 = settle r s in record r1 { waiting = some qc }

  unfoldable pub take_vote : Replica p → List Vote → Result (Replica p)
  take_vote r [] = ok r
  take_vote r (v ∷ rest) = do
    done ← p.process_vote r.protocol v
    ok (vote_done (record r { dual_event_chan = rest }) done)

  unfoldable pub turn_votes : Replica p → Option Qc → Result (Replica p)
  turn_votes r none = take_vote r r.dual_event_chan
  turn_votes r (some qc) = do done ← p.resume_vote r.protocol qc; ok (vote_done r done)

  -- `b_size` is the batch size of the configuration.
  unfoldable pub propose_block : ℕ → Replica p → NewViewType → Result (Replica p)
  propose_block b_size r view = do
    (pd, payload) ← generate_payload r.pd b_size
    (s, block) ← p.make_proposal r.protocol view payload
    let r1 = settle (record r { pd = pd }) s
    ok (record r1 {
      total_block_size = r1.total_block_size + length block.payload;
      proposed_no = r1.proposed_no + 1;
      event_chan = r1.event_chan ++ block_event block ∷ [];
      network = proposal block ∷ r1.network;
    })

  unfoldable pub process_new_view : ℕ → Replica p → NewViewType → Result (Replica p)
  process_new_view b_size r new_view =
      if not (env.election.is_leader env.id new_view.view)
      then ok r
      else propose_block b_size r new_view

  unfoldable pub turn_new_views : ℕ → Replica p → List NewViewType → Result (Replica p)
  turn_new_views b_size r [] = ok r
  turn_new_views b_size r (v ∷ rest) = process_new_view b_size (record r { new_view_chan = rest }) v

  -- The loop over `eventChan`.
  unfoldable pub process_event : Replica p → Incoming → Result (Replica p)
  process_event r (block_event b) = do
    (s, _) ← p.process_block r.protocol b
    let r1 = settle r s
    ok (record r1 { processed_no = r1.processed_no + 1 })
  process_event r (tmo_event tmo) = do s ← p.process_remote_tmo r.protocol tmo; ok (settle r s)

  unfoldable pub turn_events : Replica p → List Incoming → Result (Replica p)
  turn_events r [] = ok r
  turn_events r (e ∷ rest) = process_event (record r { event_chan = rest }) e

-- `<-r.start`.
unfoldable pub take_start : {p : Safety} → Replica p → Replica p
take_start r = if r.start then record r { start = false; running = true } else r

-- What may happen next: a message comes, a goroutine starts, or a loop takes a turn.
pub data Turn : Type 0 where
  block_comes : Block → Turn
  vote_comes : Vote → Turn
  tmo_comes : Tmo → Turn
  query_comes : Turn
  txn_comes : (stamp now later : ℕ) → Transaction → Turn
  activates starts : Turn
  enters times_out cleans commits forks votes new_views events : Turn

module _ (env : Env) {p : Safety} (b_size : ℕ) where
  -- A turn of a loop, which waits before the start.
  abbrev pub guarded : Replica p → Result (Replica p) → Result (Replica p)
  guarded r after = if r.running then after else ok r

  unfoldable pub turn : Turn → Replica p → Result (Replica p)
  turn (block_comes b) r = ok (handle_block r b)
  turn (vote_comes v) r = ok (handle_vote r v)
  turn (tmo_comes tmo) r = ok (handle_tmo r tmo)
  turn query_comes r = ok (handle_query r)
  turn (txn_comes stamp now later tx) r = ok (handle_txn env r stamp now later tx)
  turn activates r = ok (activate env r)
  turn starts r = ok (take_start r)
  turn enters r = guarded r (ok (enter_view r))
  turn times_out r = guarded r (ok (time_out r))
  turn cleans r = guarded r (ok (take_clean r))
  turn commits r = guarded r (ok (take_committed env r))
  turn forks r = guarded r (ok (take_forked r))
  turn votes r = guarded r (turn_votes env r r.waiting)
  turn new_views r = guarded r (turn_new_views env b_size r r.new_view_chan)
  turn events r = guarded r (turn_events env r r.event_chan)

  unfoldable pub run : List Turn → Replica p → Result (Replica p)
  run [] r = ok r
  run (t ∷ ts) r = turn t r >>= run ts
