-- ===== src/MHotStuff/Blocks.antt =====
-- `ProcessBlock` of mhotstuff/mhotstuff.go, cut at its early returns: a stage answers with the state
-- and, where the handler returns there, what it returns.
use multipipelinehs.Prelude.{
  ℕ, zero, suc, ◌+◌, ◌-◌, Bool, true, false, not, ◌&&◌, Option, none, some, List, [], ◌∷◌,
  ℕ_discrete, ltb, leb, ◌==◌, if◌then◌else◌, length, get, put, delete, get_elem?,
}
use multipipelinehs.Types.{
  View, Tc, Qc, Block, Result, ok, fault, diverged, ◌>>=◌, deref, timeout_f, timeout_s, continue,
}
use multipipelinehs.Crypto.{pub_verify}
use multipipelinehs.BlockChain.{BlockChain, add_block, commit_block}
use multipipelinehs.Env.{Env, same_node, make_vote}
use multipipelinehs.MHotStuff.{
  MHotStuff, Event, clean, committed, forked, self_vote, send_vote, Returned, nil, failed, send,
  send_signal, advance, update_high_tc, update_high_block, voting_rule, commit_rule,
}
use multipipelinehs.MHotStuff.Certificate.{process_certificate}

unfoldable pub buffer_block : MHotStuff → Block → MHotStuff
buffer_block s b = record s { buffered_blocks = put ℕ_discrete (b.view - 1) b s.buffered_blocks }

-- `block.TCs[i]`, dereferenced.
unfoldable pub tc_at : Block → ℕ → Result Tc
tc_at b i = do tc ← deref (get_elem? b.tcs i); deref tc

-- The later of the two timeout certificates of a block: the second only if it is strictly later.
unfoldable pub max_tc : Block → Result Tc
max_tc b = do
  second ← tc_at b 1
  first ← tc_at b 0
  ok (if ltb first.view second.view then second else first)

unfoldable pub send_all : MHotStuff → List Event → MHotStuff
send_all s [] = s
send_all s (e ∷ es) = send_all (send s e) es

abbrev pub committed_events : List Block → List Event
committed_events [] = []
committed_events (b ∷ bs) = committed b ∷ committed_events bs

abbrev pub forked_events : List Block → List Event
forked_events [] = []
forked_events (b ∷ bs) = forked b ∷ forked_events bs

-- What `CommitBlock` answered is kept and announced.
unfoldable pub record_commit :
    MHotStuff → BlockChain × Option (List Block × List Block) → MHotStuff × Option Returned
record_commit s (bc, none) = (record s { bc = bc }, some failed)
record_commit s (bc, some (cs, fs)) =
    (send_all (send_all (record s { bc = bc }) (committed_events cs)) (forked_events fs), none)

-- An error of the commit rule ends the handler with nil.
unfoldable pub commit_found : MHotStuff → Option Block → Result (MHotStuff × Option Returned)
commit_found s none = ok (s, some nil)
commit_found s (some b0) = do r ← commit_block s.bc b0.id s.pm.cur_seq; ok (record_commit s r)

module _ (env : Env) where
  -- The signature of a foreign block is verified, and a bad one is only logged.
  unfoldable pub check_block : Block → Result Bool
  check_block b =
      if same_node b.proposer env.id
      then ok true
      else pub_verify env.ecdsa env.n b.sig b.id b.proposer

  unfoldable pub foreign_qc : MHotStuff → Block → Qc → Result MHotStuff
  foreign_qc s b qc = if same_node b.proposer env.id then ok s else process_certificate env s qc

  -- The timeout certificates of a foreign block; `cur_view` was read before its certificate.
  unfoldable pub foreign_tc : View → MHotStuff → Block → Result MHotStuff
  foreign_tc cur_view s b = elim b.tc [
    | none ↦ ok s
    | some tc ↦
        if same_node b.proposer env.id
        then ok s
        else let s1 = if leb cur_view tc.view then advance s tc.view tc.seq timeout_f else s in
          do
            last ← max_tc b
            ok (if tc.view == last.view then update_high_tc (update_high_tc s1 none) none else s1)
  ]

  -- The leader of the next view lets its vote collector go on, or starts that view by the timeout.
  unfoldable pub wake_collector : View → MHotStuff → Block → Result MHotStuff
  wake_collector cur_view s b =
      let go_on = send_signal s (record { ope = continue; view = cur_view }) in
      if not (env.election.is_leader env.id (cur_view + 1)) then ok s else elim b.tc [
        | none ↦ go_on
        | some _ ↦ do
          last ← max_tc b
          if leb cur_view last.view
              then (do
                first ← deref (get_elem? b.tcs 0)
                second ← deref (get_elem? b.tcs 1)
                ok (
                    update_high_tc (update_high_tc (advance s last.view last.seq timeout_s) first)
                      second))
              else go_on
      ]

  unfoldable pub try_commit : MHotStuff → Block → Qc → Result (MHotStuff × Option Returned)
  try_commit s b qc =
      if not (ltb 5 qc.seq && (qc.seq + 2 == b.seq))
      then ok (s, none)
      else do found ← commit_rule s qc; commit_found s found

  unfoldable pub use_buffered_qc : MHotStuff → Block → Result MHotStuff
  use_buffered_qc s b = elim (get ℕ_discrete b.id s.buffered_qcs) [
    | none ↦ ok s
    | some qc ↦ do
      s' ← process_certificate env s qc
      ok (record s' { buffered_qcs = delete ℕ_discrete b.id s'.buffered_qcs })
  ]

  -- The vote goes to the leader two views on.
  unfoldable pub cast_vote : MHotStuff → Block → Result MHotStuff
  cast_vote s b = do
    vote ← make_vote env b.view b.seq env.id b.id
    let aggregator = env.election.find_leader_for (b.view + 2)
    ok (
        if same_node aggregator env.id
        then send s (self_vote vote)
        else send s (send_vote aggregator vote))

  -- The rest of the handler, where it calls itself by `again`.
  module _ (again : MHotStuff → Block → Result (MHotStuff × Returned)) where
    -- The block that was buffered for the next view is processed and then forgotten.
    unfoldable pub run_buffered : MHotStuff → Block → Option Block → Result (MHotStuff × Returned)
    run_buffered s b none = ok (s, nil)
    run_buffered s b (some next) = do
      (t, _) ← again s next
      ok (record t { buffered_blocks = delete ℕ_discrete b.view t.buffered_blocks }, nil)

    unfoldable pub vote_on : MHotStuff → Block → Option Bool → Result (MHotStuff × Returned)
    vote_on s b none = ok (s, failed)
    vote_on s b (some false) = ok (s, nil)
    vote_on s b (some true) = do
      t ← cast_vote s b
      run_buffered t b (get ℕ_discrete b.view t.buffered_blocks)

    unfoldable pub vote_stage : MHotStuff → Block → Result (MHotStuff × Returned)
    vote_stage s b = do vote ← voting_rule s b; vote_on s b vote

    unfoldable pub after_commit :
        Block → MHotStuff × Option Returned → Result (MHotStuff × Returned)
    after_commit b (s, some r) = ok (s, r)
    after_commit b (s, none) = do t ← use_buffered_qc s b; vote_stage t b

    unfoldable pub commit_stage : MHotStuff → Block → Qc → Result (MHotStuff × Returned)
    commit_stage s b qc = do r ← try_commit s b qc; after_commit b r

    -- From the second look at the current view on.
    unfoldable pub store_stage : MHotStuff → Block → Qc → Result (MHotStuff × Returned)
    store_stage s b qc =
        let cur_view = s.pm.cur_view in
        if ltb b.view cur_view
        then ok (s, nil)
        else if not (env.election.is_leader b.proposer b.view)
        then ok (s, failed)
        else do
          bc ← add_block s.bc b
          t ←
              wake_collector cur_view (send (update_high_block (record s { bc = bc }) b) (clean b))
                b
          commit_stage t b qc

    -- The whole handler. Its first line logs a field of the certificate, before the nil check.
    unfoldable pub process_block_with : MHotStuff → Block → Result (MHotStuff × Returned)
    process_block_with s b = do
      qc ← deref b.qc
      let cur_view = s.pm.cur_view
      if ltb (cur_view + 1) b.view then ok (buffer_block s b, nil) else do
        _ ← check_block b
        s1 ← foreign_qc s b qc
        s2 ← foreign_tc cur_view s1 b
        store_stage s2 b qc

  -- A block calls the handler again for the one buffered behind it, one view on.
  unfoldable pub process_block_fuel : ℕ → MHotStuff → Block → Result (MHotStuff × Returned)
  process_block_fuel zero s b = fault diverged
  process_block_fuel (suc fuel) s b = process_block_with (process_block_fuel fuel) s b

  -- There are no more calls than buffered blocks, and the first.
  unfoldable pub process_block : MHotStuff → Block → Result (MHotStuff × Returned)
  process_block s b = process_block_fuel (length s.buffered_blocks + 1) s b
