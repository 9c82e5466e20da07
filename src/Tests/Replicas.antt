-- ===== src/Tests/Replicas.antt =====
-- A replica of four that leads every view and runs either protocol.
use multipipelinehs.Prelude.{
  ◌↔◌, inl, ℕ, arith, length, ◌≡◌, refl, true, false, none, some, List, [], ◌∷◌, All, get, put,
  delete, ℕ_discrete,
}
use multipipelinehs.Types.{
  NodeId, Block, Vote, Tmo, zero_block, zero_qc, NewViewType, no_timeout, ok, node_id_discrete,
}
use multipipelinehs.Identity.{node, parse_uint, parse_digits}
use multipipelinehs.Config.{Config, Text, entries, load}
use multipipelinehs.Config.Load.{Located, load-Located}
use multipipelinehs.Crypto.{key_index, priv_sign}
use multipipelinehs.Election.Static.{is_leader, find_leader_for}
use multipipelinehs.Pacemaker.{new_pacemaker, advance_view, new_timeout_controller}
use multipipelinehs.Quorum.{new_quorum}
use multipipelinehs.Forest.{new_forest}
use multipipelinehs.BlockChain.{new_blockchain}
use multipipelinehs.Env.{Env, same_node, make_block}
use multipipelinehs.Mempool.{
  Transaction, new_backend, insert_back, size, push_back, some_batch, take_batch, front, payload_of,
  zeros,
}
use multipipelinehs.Mempool.Sharing.{
  new_mem_pool, add_new, is_due, since, value_size, batch_of, add_to_buffer,
}
use multipipelinehs.Mempool.Producer.{new_producer, add_txn, generate_payload}
use multipipelinehs.MHotStuff.{new_mhotstuff, advance, emptied}
use multipipelinehs.MHotStuff.Proposal.{drops, drops_qc, choose, make_proposal}
use multipipelinehs.Replica.{
  tmo_event, handle_tmo, Replica, cur_view, kick_off, start_signal, handle_txn, settle, deliver_all,
  proposal, block_event, kick_vote,
}
use multipipelinehs.Replica.Loops.{
  Turn, vote_comes, tmo_comes, txn_comes, starts, enters, new_views, turn, run, take_start,
  enter_view, next_entered, turn_new_views, process_new_view, propose_block,
}
use multipipelinehs.Replica.Start.{mhotstuff_alg, choose_protocol, new_replica, replica_with}
use multipipelinehs.Replica.Alike.{proposals}
use multipipelinehs.Replica.Stale.{drop_stale, is_stale}
use multipipelinehs.Replica.Proposals.{Falls, Covers}
use multipipelinehs.Safety.{Proposes}
use multipipelinehs.Replica.Refines.{
  Run, one_proposal_per_view, led_views_proposed, first_leader-Proposes, stale_messages_dropped,
}

abbrev one : NodeId
one = b'1' ∷ []

abbrev leader : Env
leader = record {
  id = one;
  is_byz = false;
  is_fork = false;
  n = 4;
  election = record { is_leader = is_leader one; find_leader_for = find_leader_for one };
  ecdsa = record { sign = λ k m. ([], []); verify = λ k m r s. true };
  make_id = λ raw. raw.seq;
}

abbrev config : Config
config = record {
  addrs = none;
  mp_addrs = none;
  http_addrs = none;
  byz_no = 0;
  b_size = 2;
  payload_size = 1;
  deliver_size = 1000;
  share_interval = 10;
  master = one;
  mem_size = 10;
  virtual_c = 1;
  timeout = 1000;
  n = 4;
}

abbrev tx : Transaction
tx = record {
  command = record { key = 0; value = none; client_id = []; command_id = 0 };
  timestamp = 0;
  id = b'7' ∷ [];
}

abbrev turns : List Turn
turns = txn_comes 5 6 7 tx ∷ starts ∷ enters ∷ new_views ∷ []

abbrev first : Replica (choose_protocol leader mhotstuff_alg)
first = new_replica leader mhotstuff_alg config

abbrev stamped : Transaction
stamped = record tx { timestamp = 5 }

abbrev first_proposal : Block
first_proposal = record zero_block {
  seq = 2;
  view = 1;
  qc = some zero_qc;
  proposer = one;
  payload = payload_of stamped ∷ [];
  sig = [] ∷ [] ∷ [];
  id = 2;
}

abbrev entered : NewViewType
entered = record { view = 1; seq = 2; propose_type = no_timeout }

-- The first leader after its first proposal.
abbrev proposed : Replica (choose_protocol leader mhotstuff_alg)
proposed =
    let s = new_mhotstuff 4 in
    let pm = s.pm in
    let mp = first.pd.mempool in
    let b = mp.backend in
    let pd = first.pd in
    record first {
      protocol = record s { pm = record pm { cur_view = 1; cur_seq = 2; entered = entered ∷ [] } };
      pd = record pd {
        mempool = record mp {
          buffer = stamped ∷ [];
          backend = record b { next_handle = 1; total_received = 1 };
        };
      };
      is_started = true;
      running = true;
      event_chan = block_event first_proposal ∷ [];
      dual_event_chan = kick_vote leader ∷ [];
      heard = entered ∷ [];
      network = proposal first_proposal ∷ [];
      total_block_size = 1;
      round_no = 1;
      proposed_no = 1;
    }

proposed-Run : Run leader mhotstuff_alg config turns proposed
unfolding drops_qc run turn new_replica replica_with new_producer handle_txn kick_off start_signal
    take_start enter_view next_entered turn_new_views process_new_view propose_block
    generate_payload add_txn new_mem_pool add_new is_due since value_size batch_of add_to_buffer
    new_backend insert_back size push_back some_batch take_batch front payload_of zeros settle
    deliver_all emptied make_proposal choose make_block new_mhotstuff new_pacemaker advance
    advance_view new_timeout_controller new_blockchain new_forest new_quorum is_leader
    find_leader_for same_node priv_sign key_index node parse_uint parse_digits get put delete
    ℕ_discrete node_id_discrete
proposed-Run = refl

key_of_one : key_index 4 one ≡ ok 0
unfolding key_index node parse_uint parse_digits
key_of_one = refl

one_proposal_per_view_example :
    Falls 2 (first_proposal ∷ [])
    × All (λ b. (b.proposer ≡ one) × (is_leader one one b.view ≡ true)) (first_proposal ∷ [])
one_proposal_per_view_example =
    one_proposal_per_view leader mhotstuff_alg config turns proposed proposed-Run (omega arith)

none_drops : drops (entered ∷ []) ≡ 0
unfolding drops_qc
none_drops = refl

led_views_proposed_example :
    (t : Replica (choose_protocol leader mhotstuff_alg)) × (run leader 2
        (enters ∷ new_views ∷ [])
        proposed
      ≡ ok t)
    × Covers leader (entered ∷ []) (proposals t.network)
led_views_proposed_example =
    led_views_proposed leader mhotstuff_alg config turns proposed 0 proposed-Run refl key_of_one
      (omega arith) (inl none_drops)

not_started : cur_view first ≡ 0
unfolding new_replica replica_with new_mhotstuff new_pacemaker
not_started = refl

not-Run : Run leader mhotstuff_alg config [] first
unfolding run
not-Run = refl

leads_first : is_leader one one 1 ≡ true
unfolding is_leader node_id_discrete ℕ_discrete
leads_first = refl

first_leader-Proposes_example :
    (t : Replica (choose_protocol leader mhotstuff_alg)) × (b : Block) × (run leader 2 turns first
      ≡ ok t)
    × (proposals t.network ≡ b ∷ [])
    × Proposes leader entered b
first_leader-Proposes_example =
    first_leader-Proposes leader mhotstuff_alg config [] first 5 6 7 tx 0 not-Run not_started
      leads_first key_of_one

-- A vote with the number of view 0, and timeout messages of views 0 and 1.
abbrev old_vote : Vote
old_vote = record { view = 0; seq = 0; voter = one; block_id = 0; signature = [] }

abbrev tmo_of : ℕ → Tmo
tmo_of view = record { view = view; f_seq = 0; s_seq = 1; node_id = one; high_qc = none }

-- Only the last of them is queued.
abbrev after_tmo : Replica (choose_protocol leader mhotstuff_alg)
after_tmo = record proposed { event_chan = block_event first_proposal ∷ tmo_event (tmo_of 1) ∷ [] }

only_new : run leader 2 (tmo_comes (tmo_of 1) ∷ []) proposed ≡ ok after_tmo
unfolding run turn handle_tmo new_mhotstuff
only_new = refl

stale_messages_dropped_example :
    (run leader 2 (vote_comes old_vote ∷ tmo_comes (tmo_of 0) ∷ tmo_comes (tmo_of 1) ∷ []) proposed
      ≡ ok after_tmo)
    ↔ (run leader 2 (tmo_comes (tmo_of 1) ∷ []) proposed ≡ ok after_tmo)
unfolding drop_stale is_stale
stale_messages_dropped_example =
    stale_messages_dropped leader mhotstuff_alg config
      (vote_comes old_vote ∷ tmo_comes (tmo_of 0) ∷ tmo_comes (tmo_of 1) ∷ []) proposed after_tmo
      (omega arith)

-- A configuration whose file gives the maps empty.
abbrev decoded : Config
decoded = record config { addrs = some []; mp_addrs = some []; http_addrs = some [] }

abbrev ips : List Text
ips = (b'a' ∷ []) ∷ (b'b' ∷ []) ∷ []

load-Located_example :
    (d : Config) × (load decoded ips ≡ ok d)
    × (d.n ≡ length (entries d.addrs))
    × Located d 2 (b'b' ∷ [])
load-Located_example =
    load-Located decoded ips [] [] [] 1 (b'b' ∷ []) refl refl refl (omega arith) refl
