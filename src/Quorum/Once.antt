-- ===== src/Quorum/Once.antt =====
-- Sequences of votes at a collector of blockchain/quorum.go.
use multipipelinehs.Prelude.{
  ◌≤◌, ◌≡◌, ◌≢◌, true, false, none, List, [], ◌∷◌, ℕ_discrete, arith, length-put,
}
use multipipelinehs.Types.{Identifier, Vote, node_id_discrete}
use multipipelinehs.Quorum.{Quorum, votes_for, size, super_majority, record_vote, add}
use multipipelinehs.Quorum.Votes.{votes_for-record_vote, votes_for-record_vote_ne}

-- The collector after some votes, in their order.
abbrev pub add_all : Quorum → List Vote → Quorum
add_all q [] = q
add_all q (v ∷ vs) = add_all (add q v).0 vs

-- A vote takes no other away.
size-record_vote_mono :
    (q : Quorum) (v : Vote) (id : Identifier) → size q id ≤ size (record_vote q v) id
unfolding size
size-record_vote_mono q v id = elim (ℕ_discrete v.block_id id) [
  | yes same ↦ ground (
    arith,
    votes_for-record_vote q v,
    length-put node_id_discrete v.voter v (votes_for q v.block_id),
  )
  | no other ↦ ground (arith, votes_for-record_vote_ne q v id other)
]

super_majority-add :
    (q : Quorum) (v : Vote) (id : Identifier)
    → super_majority q id ≡ true
    → super_majority (add q v).0 id ≡ true
unfolding super_majority add record_vote
super_majority-add q v id h = ground (arith, size-record_vote_mono q v id)

super_majority-add_all :
    (q : Quorum) (vs : List Vote) (id : Identifier)
    → super_majority q id ≡ true
    → super_majority (add_all q vs) id ≡ true
super_majority-add_all q [] id h = h
super_majority-add_all q (v ∷ vs) id h =
    super_majority-add_all (add q v).0 vs id (super_majority-add q v id h)

-- The vote that builds a certificate leaves a quorum in the collector.
super_majority-built :
    (q : Quorum) (v : Vote)
    → v.view ≢ 0
    → (add q v).1 ≡ true
    → super_majority (add q v).0 v.block_id ≡ true
unfolding add
super_majority-built q v h e = ground arith

-- After a vote of a view other than 0 has built the certificate of its block, no vote for that
-- block of a view other than 0 changes the collector or is answered with a certificate, whatever
-- votes were added in between.
pub add_once :
    (q : Quorum) (v w : Vote) (between : List Vote)
    → v.view ≢ 0
    → w.view ≢ 0
    → w.block_id ≡ v.block_id
    → (add q v).1 ≡ true
    → (let r = add_all (add q v).0 between in add r w ≡ (r, false, none))
unfolding add
add_once q v w between hv hw same built = ground (
  arith,
  super_majority-add_all (add q v).0 between v.block_id (super_majority-built q v hv built),
)
