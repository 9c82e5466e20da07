-- ===== src/Quorum.antt =====
-- The vote collector of blockchain/quorum.go. The mutex makes each method one step. The order in
-- which Go's `range` visits a map is not fixed; here it is the order in which the keys were added.
pub mod Votes
pub mod Build
pub mod Intersection
pub mod Once
use multipipelinehs.Prelude.{
  ℕ, ◌+◌, ◌*◌, ◌/◌, Bool, true, false, Option, none, some, List, [], ◌∷◌, map, ℕ_discrete, ltb,
  ◌==◌, if◌then◌else◌, length, get, put, delete,
}
use multipipelinehs.Types.{
  View, Seq, Identifier, NodeId, Vote, Qc, Signature, AggSig, node_id_discrete, zero_qc,
}

pub record Quorum : Type 0 where
  pub total : ℕ
  pub votes : List (Identifier × List (NodeId × Vote))

unfoldable pub new_quorum : ℕ → Quorum
new_quorum total = record { total = total; votes = [] }

-- `MakeVote`, with the signature that `PrivSign` gives.
unfoldable pub make_vote : View → Seq → NodeId → Identifier → Signature → Vote
make_vote view seq voter id sig = record {
  view = view;
  seq = seq;
  voter = voter;
  block_id = id;
  signature = sig;
}

-- `q.votes[id]`: a missing key reads as the nil map.
unfoldable pub votes_for : Quorum → Identifier → List (NodeId × Vote)
votes_for q id = elim (get ℕ_discrete id q.votes) [ none ↦ [] | some vs ↦ vs ]

unfoldable pub votes_exist : Quorum → Identifier → Bool
votes_exist q id = elim (get ℕ_discrete id q.votes) [ none ↦ false | some _ ↦ true ]

unfoldable pub remove_vote : Quorum → Identifier → Quorum
remove_vote q id = record q { votes = delete ℕ_discrete id q.votes }

unfoldable pub size : Quorum → Identifier → ℕ
unfolding votes_for
size q id = length (votes_for q id)

unfoldable pub super_majority : Quorum → Identifier → Bool
unfolding size
super_majority q id = ltb (q.total * 2 / 3) (size q id)

-- The signatures and the signers; `none` is the error that no votes exist.
unfoldable pub get_sigs : Quorum → Identifier → Option (AggSig × List NodeId)
get_sigs q id = elim (get ℕ_discrete id q.votes) [
  | none ↦ none
  | some vs ↦ some (map (λ e. e.1.signature) vs, map (λ e. e.1.voter) vs)
]

-- `q.votes[vote.BlockID][vote.Voter] = vote`, the inner map made if it is not there.
unfoldable pub record_vote : Quorum → Vote → Quorum
unfolding votes_for
record_vote q v = record q {
  votes =
      put ℕ_discrete v.block_id (put node_id_discrete v.voter v (votes_for q v.block_id)) q.votes;
}

-- The certificate of `Add`; an error of `getSigs` is logged and leaves both lists nil.
unfoldable pub make_qc : Quorum → Vote → Qc
unfolding get_sigs
make_qc q v = elim (get_sigs q v.block_id) [
  | none ↦ record zero_qc { view = v.seq; seq = v.seq; block_id = v.block_id }
  | some (sigs, signers) ↦ record zero_qc {
    view = v.seq;
    seq = v.seq;
    block_id = v.block_id;
    signers = signers;
    agg_sig = sigs;
  }
]

-- `Add`. A vote for view 0 is the special vote that starts the protocol.
unfoldable pub add : Quorum → Vote → Quorum × Bool × Option Qc
unfolding super_majority record_vote make_qc
add q v =
    if v.view == 0
    then (q, true, some (record zero_qc { view = 1; seq = 1 }))
    else if super_majority q v.block_id
    then (q, false, none)
    else let q' = record_vote q v in
      if super_majority q' v.block_id then (q', true, some (make_qc q' v)) else (q', false, none)
