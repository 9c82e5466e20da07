-- ===== src/Tests/Protocol.antt =====
-- A replica of four that processes a block, a timeout and some messages.
use multipipelinehs.Prelude.{
  ◌<◌, length, ℕ, ◌≤◌, ◌≡◌, ◌≢◌, ◌↔◌, refl, true, false, none, some, List, [], ◌∷◌, arith, get, put,
  delete, ℕ_discrete,
}
use multipipelinehs.Types.{
  Fits, NodeId, Block, Qc, SignalV, continue, drop, zero_qc, zero_block, ok, node_id_discrete,
  no_timeout,
}
use multipipelinehs.Identity.{node}
use multipipelinehs.Crypto.{key_index, priv_sign, verify_parts, pub_verify, verify_quorum_signature}
use multipipelinehs.Election.Static.{is_leader, find_leader_for}
use multipipelinehs.Pacemaker.{new_pacemaker, advance_view, new_timeout_controller}
use multipipelinehs.Quorum.{new_quorum}
use multipipelinehs.Quorum
use multipipelinehs.Forest.{
  Forest, new_forest, get_vertex, vertex_at, at_level, add_vertex, create_container,
  get_or_create_vertex_container, add_child, register_with_parent, parent,
}
use multipipelinehs.BlockChain.{new_blockchain, add_block, get_block_by_id}
use multipipelinehs.Env.{Env, same_node, make_vote}
use multipipelinehs.MHotStuff.{
  MHotStuff, nil, clean, send_vote, new_mhotstuff, advance, signal, update_high_qc, send,
  update_high_block, voting_rule, update_preferred_seq,
}
use multipipelinehs.MHotStuff.Certificate.{check_qc, accept_qc, is_forking, process_certificate}
use multipipelinehs.MHotStuff.Blocks.{
  check_block, foreign_qc, foreign_tc, wake_collector, try_commit, use_buffered_qc, cast_vote,
  run_buffered, vote_on, vote_stage, after_commit, commit_stage, store_stage, process_block_with,
  process_block_fuel, process_block,
}
use multipipelinehs.MHotStuff.Votes.{await_signal, dropped}
use multipipelinehs.MHotStuff.Timeouts.{process_local_tmo}
use multipipelinehs.MHotStuff.Moves.{Moves}
use multipipelinehs.MHotStuff.Reach.{
  Steps, here, next, blocks, local_tmos, Steps-Forward, voting_rule_iff,
}
use multipipelinehs.MHotStuff.Bound.{process_block_over, process_block-bound}
use multipipelinehs.MHotStuff.Forgery.{Taken, process_certificate_unsigned}

abbrev one : NodeId
one = b'1' ∷ []

abbrev four : NodeId
four = b'4' ∷ []

abbrev pub env : Env
env = record {
  id = four;
  is_byz = false;
  is_fork = false;
  n = 4;
  election = record { is_leader = is_leader one; find_leader_for = find_leader_for one };
  ecdsa = record { sign = λ k m. ([], []); verify = λ k m r s. true };
  make_id = λ raw. raw.seq;
}

abbrev pub first_block : Block
first_block = record zero_block {
  seq = 2;
  view = 1;
  qc = some zero_qc;
  proposer = one;
  sig = [] ∷ [] ∷ [];
  id = 70;
}

abbrev first_tree : Forest
first_tree = record {
  containers =
      record { id = 70; level = 2; children = []; vertex = some first_block }
      ∷ record { id = 0; level = 0; children = 0 ∷ []; vertex = none }
      ∷ [];
  vertices = (70, 0) ∷ (0, 1) ∷ [];
  vertices_at_level = (2, 0 ∷ []) ∷ (0, 1 ∷ []) ∷ [];
  lowest_level = 0;
}

abbrev pub after_block : MHotStuff
after_block =
    let s = new_mhotstuff 4 in
    let pm = s.pm in
    let bc = s.bc in
    record s {
      pm = record pm {
        cur_view = 1;
        cur_seq = 2;
        entered = record { view = 1; seq = 2; propose_type = no_timeout } ∷ [];
      };
      high_block = first_block;
      bc = record bc { forrest = first_tree };
      sent =
          send_vote one
            (record { view = 1; seq = 2; voter = four; block_id = 70; signature = [] ∷ [] ∷ [] })
          ∷ clean first_block
          ∷ [];
    }

first_block_processed : process_block env (new_mhotstuff 4) first_block ≡ ok (after_block, nil)
unfolding process_block process_block_fuel process_block_with store_stage commit_stage after_commit
    vote_stage vote_on run_buffered cast_vote use_buffered_qc try_commit wake_collector foreign_tc
    foreign_qc check_block process_certificate accept_qc is_forking check_qc update_preferred_seq
    voting_rule update_high_block send update_high_qc advance signal new_mhotstuff make_vote
    same_node get_block_by_id add_block new_blockchain new_forest get_vertex vertex_at at_level
    add_vertex create_container get_or_create_vertex_container add_child register_with_parent parent
    new_quorum Quorum.make_vote new_pacemaker advance_view new_timeout_controller is_leader
    find_leader_for verify_quorum_signature pub_verify verify_parts priv_sign key_index node get put
    delete ℕ_discrete node_id_discrete
first_block_processed = refl

abbrev timed_out : MHotStuff
timed_out = process_local_tmo env after_block 1 2

run : Steps env (new_mhotstuff 4) timed_out
run =
    next (next here (blocks first_block (after_block, nil) first_block_processed)) (local_tmos 1 2)

timed_out_Fits : Fits timed_out.pm.cur_view
unfolding process_local_tmo send new_mhotstuff
timed_out_Fits = omega arith

Steps-Forward_example : Fits (new_mhotstuff 4).pm.cur_view × Moves (new_mhotstuff 4) timed_out
Steps-Forward_example = Steps-Forward env run timed_out_Fits

abbrev pub qc_of_first : Qc
qc_of_first = record zero_qc { block_id = 70; view = 1; seq = 2 }

abbrev pub late_block : ℕ → Block
late_block id = record zero_block { seq = 4; view = 5; qc = some qc_of_first; id = id }

parent_stored : get_block_by_id timed_out.bc 70 ≡ some first_block
unfolding get_block_by_id get_vertex vertex_at get ℕ_discrete process_local_tmo send new_mhotstuff
    new_blockchain
parent_stored = refl

voting_rule_iff_example :
    (voting_rule timed_out (late_block 71) ≡ ok (some true))
    ↔ (((late_block 71).seq ≢ 0) × (timed_out.preferred_seq ≤ first_block.seq))
voting_rule_iff_example =
    voting_rule_iff env 4 (late_block 71) first_block qc_of_first run (omega arith) refl
      parent_stored

current : after_block.pm.cur_view ≤ 9
current = omega arith

abbrev forged : Qc
forged = record zero_qc { leader = one; view = 9; seq = 3 }

process_certificate_unsigned_example :
    (t : MHotStuff) × (process_certificate env after_block forged ≡ ok t)
    × Taken after_block forged t
process_certificate_unsigned_example =
    process_certificate_unsigned env after_block forged refl (omega arith) refl current

abbrev signals : List SignalV
signals =
    record { ope = drop; view = 3 }
    ∷ record { ope = drop; view = 8 }
    ∷ record { ope = continue; view = 9 }
    ∷ []

second_drops : await_signal 7 signals ≡ dropped (record { ope = continue; view = 9 } ∷ [])
unfolding await_signal
second_drops = refl

none_buffered : length timed_out.buffered_blocks < 3
unfolding process_local_tmo send new_mhotstuff
none_buffered = omega arith

process_block-bound_example :
    process_block_over env (λ s b. ok (s, nil)) 3 timed_out first_block
    ≡ process_block env timed_out first_block
process_block-bound_example =
    process_block-bound env 4 first_block 3 (λ s b. ok (s, nil)) run none_buffered
