-- ===== src/Tests/Variant.antt =====
-- A replica of the variant that processes a block and a timeout.
use multipipelinehs.Prelude.{
  ◌<◌, length, arith, ◌≡◌, refl, true, some, get, put, delete, ℕ_discrete,
}
use multipipelinehs.Types.{Fits, ok, node_id_discrete, no_timeout, timeout_f}
use multipipelinehs.Identity.{node}
use multipipelinehs.Crypto.{key_index, priv_sign, verify_parts, pub_verify, verify_quorum_signature}
use multipipelinehs.Election.Static.{is_leader, find_leader_for}
use multipipelinehs.Pacemaker.{new_pacemaker, advance_view, new_timeout_controller}
use multipipelinehs.Quorum.{new_quorum}
use multipipelinehs.Quorum
use multipipelinehs.Forest.{
  new_forest, get_vertex, vertex_at, at_level, add_vertex, create_container,
  get_or_create_vertex_container, add_child, register_with_parent, parent,
}
use multipipelinehs.BlockChain.{new_blockchain, add_block, get_block_by_id}
use multipipelinehs.Env.{same_node, make_vote}
use multipipelinehs.MHotStuff.{
  nil, new_mhotstuff, advance, signal, update_high_qc, send, update_high_block,
}
use multipipelinehs.MHotStuff.Certificate.{check_qc, is_forking}
use multipipelinehs.MHotStuff.Blocks.{check_block, cast_vote}
use multipipelinehs.MtHotStuff.{
  Mtchs, new_mtchs, context, update_preferred_seq, voting_rule, is_below,
}
use multipipelinehs.MtHotStuff.Certificate.{accept_qc, process_certificate}
use multipipelinehs.MtHotStuff.Blocks.{
  foreign_qc, foreign_tc, wake_collector, try_commit, use_buffered_qc, run_buffered, vote_on,
  vote_stage, after_commit, commit_stage, store_stage, certified_stage, process_block_with,
  process_block_fuel, process_block,
}
use multipipelinehs.MtHotStuff.Bound.{process_block_over, process_block_fuel_bound}
use multipipelinehs.MtHotStuff.Messages.{process_local_tmo}
use multipipelinehs.MtHotStuff.Moves.{Progress}
use multipipelinehs.MtHotStuff.Reach.{
  Steps, here, next, blocks, local_tmos, Steps-Onward, voting_rule_timeout_f,
}
use multipipelinehs.Tests.Protocol.{env, first_block, after_block, late_block}

abbrev after_first : Mtchs
after_first = record { base = after_block; sec_preferred_seq = 0; vote_type = no_timeout }

first_processed : process_block env (new_mtchs 4) first_block ≡ ok (after_first, nil)
unfolding process_block process_block_fuel process_block_with certified_stage store_stage
    commit_stage after_commit vote_stage vote_on run_buffered cast_vote use_buffered_qc try_commit
    wake_collector foreign_tc foreign_qc check_block process_certificate accept_qc is_forking
    check_qc update_preferred_seq voting_rule update_high_block send update_high_qc advance signal
    new_mtchs new_mhotstuff make_vote same_node get_block_by_id add_block new_blockchain new_forest
    get_vertex vertex_at at_level add_vertex create_container get_or_create_vertex_container
    add_child register_with_parent parent new_quorum Quorum.make_vote new_pacemaker advance_view
    new_timeout_controller is_leader find_leader_for verify_quorum_signature pub_verify verify_parts
    priv_sign key_index node get put delete ℕ_discrete node_id_discrete context
first_processed = refl

run : Steps env (new_mtchs 4) (process_local_tmo env after_first 1 2)
run = next (next here (blocks first_block (after_first, nil) first_processed)) (local_tmos 1 2)

last_Fits : Fits (process_local_tmo env after_first 1 2).base.pm.cur_view
unfolding process_local_tmo send new_mhotstuff multipipelinehs.MHotStuff.Timeouts.process_local_tmo
last_Fits = omega arith

Steps-Onward_example :
    Fits (new_mtchs 4).base.pm.cur_view
    × Progress (new_mtchs 4) (process_local_tmo env after_first 1 2)
Steps-Onward_example = Steps-Onward env run last_Fits

votes :
    voting_rule after_first
      (late_block 71)
      (context (record after_first { vote_type = no_timeout }))
    ≡ ok (some true)
unfolding voting_rule context is_below get_block_by_id get_vertex vertex_at get ℕ_discrete
    new_mhotstuff new_blockchain
votes = refl

voting_rule_timeout_f_example :
    voting_rule after_first (late_block 71) (context (record after_first { vote_type = timeout_f }))
    ≡ ok (some true)
voting_rule_timeout_f_example =
    voting_rule_timeout_f env 4 (late_block 71)
      (next here (blocks first_block (after_first, nil) first_processed)) votes

none_buffered : length (process_local_tmo env after_first 1 2).base.buffered_blocks < 2
unfolding process_local_tmo send new_mhotstuff multipipelinehs.MHotStuff.Timeouts.process_local_tmo
none_buffered = omega arith

process_block_fuel_bound_example :
    process_block_over env
      (λ s b. ok (s, nil))
      2
      (process_local_tmo env after_first 1 2)
      first_block
    ≡ process_block env (process_local_tmo env after_first 1 2) first_block
process_block_fuel_bound_example =
    process_block_fuel_bound env 4 first_block 2 (λ s b. ok (s, nil)) run none_buffered
