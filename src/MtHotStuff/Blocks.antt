-- ===== src/MtHotStuff/Blocks.antt =====
-- `ProcessBlock` of mthotstuff/mthotstuff.go, cut at its early returns.
use multipipelinehs.Prelude.{
  ℕ, zero, suc, ◌+◌, Bool, true, false, not, ◌&&◌, Option, none, some, ℕ_discrete, ltb, leb, ◌==◌,
  if◌then◌else◌, length, get, delete, get_elem?,
}
use multipipelinehs.Types.{
  View, Qc, Block, Result, ok, fault, diverged, ◌>>=◌, deref, no_timeout, timeout_f, timeout_s,
  continue,
}
use multipipelinehs.BlockChain.{add_block}
use multipipelinehs.Env.{Env, same_node}
use multipipelinehs.MHotStuff.{
  clean, Returned, nil, failed, send, send_signal, advance, update_high_tc, update_high_block,
}
use multipipelinehs.MHotStuff.Blocks.{buffer_block, max_tc, commit_found, check_block, cast_vote}
use multipipelinehs.MtHotStuff.{Mtchs, StateContext, context, voting_rule, commit_rule}
use multipipelinehs.MtHotStuff.Certificate.{process_certificate}

module _ (env : Env) where
  unfoldable pub foreign_qc : Mtchs → Block → Qc → Result Mtchs
  foreign_qc s b qc = if same_node b.proposer env.id then ok s else process_certificate env s qc

  -- The kind of the view that the block opens; `cur_view` was read before its certificate.
  unfoldable pub foreign_tc : View → Mtchs → Block → Result Mtchs
  foreign_tc cur_view s b = elim b.tc [
    | none ↦ ok (record s { vote_type = no_timeout })
    | some tc ↦ if same_node b.proposer env.id then ok s else do
      last ← max_tc b
      ok (
          if not (leb cur_view tc.view)
          then s
          else if tc.view + 1 == last.view
          then record s { base = advance s.base tc.view tc.seq timeout_f; vote_type = timeout_f }
          else if tc.view == last.view
          then record s {
            base =
                update_high_tc (update_high_tc (advance s.base tc.view tc.seq timeout_s) none) none;
            vote_type = timeout_s;
          }
          else s)
  ]

  unfoldable pub wake_collector : View → Mtchs → Block → Result Mtchs
  wake_collector cur_view s b =
      let go_on = send_signal s.base (record { ope = continue; view = cur_view }) >>= λ base.
      ok (record s { base = base }) in
      if not (env.election.is_leader env.id (cur_view + 1)) then ok s else elim b.tc [
        | none ↦ go_on
        | some _ ↦ do
          last ← max_tc b
          if leb cur_view last.view
              then (do
                first ← deref (get_elem? b.tcs 0)
                second ← deref (get_elem? b.tcs 1)
                ok (record s {
                  base =
                      update_high_tc
                        (update_high_tc (advance s.base last.view last.seq timeout_s) first) second;
                  vote_type = timeout_s;
                }))
              else go_on
      ]

  -- An error of the commit rule ends the handler with nil.
  unfoldable pub try_commit : Mtchs → Block → Qc → Result (Mtchs × Option Returned)
  try_commit s b qc = if not (ltb 3 qc.view && (qc.seq + 2 == b.seq)) then ok (s, none) else do
    found ← commit_rule s qc
    r ← commit_found s.base found
    ok (record s { base = r.0 }, r.1)

  unfoldable pub use_buffered_qc : Mtchs → Block → Result Mtchs
  use_buffered_qc s b = elim (get ℕ_discrete b.id s.base.buffered_qcs) [
    | none ↦ ok s
    | some qc ↦ do
      s' ← process_certificate env s qc
      let base = s'.base
      ok (record s' {
        base = record base { buffered_qcs = delete ℕ_discrete b.id base.buffered_qcs };
      })
  ]

  -- The rest of the handler, where it calls itself by `again`. `ctx` was taken when the block was
  -- stored.
  module _ (again : Mtchs → Block → Result (Mtchs × Returned)) where
    unfoldable pub run_buffered : Mtchs → Block → Option Block → Result (Mtchs × Returned)
    run_buffered s b none = ok (s, nil)
    run_buffered s b (some next) = do
      (t, _) ← again s next
      let base = t.base
      ok (
        record t {
          base = record base { buffered_blocks = delete ℕ_discrete b.view base.buffered_blocks };
        },
        nil,
      )

    unfoldable pub vote_on : Mtchs → Block → Option Bool → Result (Mtchs × Returned)
    vote_on s b none = ok (s, failed)
    vote_on s b (some false) = ok (s, nil)
    vote_on s b (some true) = do
      base ← cast_vote env s.base b
      run_buffered (record s { base = base }) b (get ℕ_discrete b.view base.buffered_blocks)

    unfoldable pub vote_stage : StateContext → Mtchs → Block → Result (Mtchs × Returned)
    vote_stage ctx s b = do vote ← voting_rule s b ctx; vote_on s b vote

    unfoldable pub after_commit :
        StateContext → Block → Mtchs × Option Returned → Result (Mtchs × Returned)
    after_commit ctx b (s, some r) = ok (s, r)
    after_commit ctx b (s, none) = do t ← use_buffered_qc s b; vote_stage ctx t b

    unfoldable pub commit_stage : StateContext → Mtchs → Block → Qc → Result (Mtchs × Returned)
    commit_stage ctx s b qc = do r ← try_commit s b qc; after_commit ctx b r

    -- From the second look at the current view on.
    unfoldable pub store_stage : Mtchs → Block → Qc → Result (Mtchs × Returned)
    store_stage s b qc =
        let base = s.base in
        let cur_view = base.pm.cur_view in
        if ltb b.view cur_view
        then ok (s, nil)
        else if not (env.election.is_leader b.proposer b.view)
        then ok (s, failed)
        else do
          bc ← add_block base.bc b
          let stored = record s { base = update_high_block (record base { bc = bc }) b }
          t ← wake_collector cur_view stored b
          commit_stage (context stored) t b qc

    -- The part after the nil check of the certificate.
    unfoldable pub certified_stage : View → Mtchs → Block → Qc → Result (Mtchs × Returned)
    certified_stage cur_view s b qc = do
      s1 ← foreign_qc s b qc
      s2 ← foreign_tc cur_view (record s1 { base = send s1.base (clean b) }) b
      store_stage s2 b qc

    unfoldable pub process_block_with : Mtchs → Block → Result (Mtchs × Returned)
    process_block_with s b =
        let cur_view = s.base.pm.cur_view in
        if ltb (cur_view + 1) b.view
        then ok (record s { base = buffer_block s.base b }, nil)
        else do
          _ ← check_block env b
          elim b.qc [ none ↦ ok (s, failed) | some qc ↦ certified_stage cur_view s b qc ]

  -- A block calls the handler again for the one buffered behind it, one view on.
  unfoldable pub process_block_fuel : ℕ → Mtchs → Block → Result (Mtchs × Returned)
  process_block_fuel zero s b = fault diverged
  process_block_fuel (suc fuel) s b = process_block_with (process_block_fuel fuel) s b

  -- There are no more calls than buffered blocks, and the first.
  unfoldable pub process_block : Mtchs → Block → Result (Mtchs × Returned)
  process_block s b = process_block_fuel (length s.base.buffered_blocks + 1) s b
