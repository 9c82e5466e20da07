-- ===== src/Quorum/Votes.antt =====
-- The vote maps of blockchain/quorum.go and their well-formedness.
use multipipelinehs.Prelude.{
  ◌≡◌, ◌≢◌, refl, List, [], ℕ_discrete, arith, All, get, put, All-get, All-put, All-delete,
  get-put_self, get-put_ne, Option-cases, inl, inr,
}
use multipipelinehs.Prelude.Count.{IsDistinct, keys, keys-put-IsDistinct}
use multipipelinehs.Types.{Identifier, NodeId, Vote, node_id_discrete}
use multipipelinehs.Quorum.{Quorum, votes_for, record_vote, remove_vote, add}

-- The votes kept for a block: each under its voter, no voter twice, all for that block.
pub record IsBallot (id : Identifier) (vs : List (NodeId × Vote)) : Type 0 where
  pub distinct : IsDistinct node_id_discrete (keys node_id_discrete vs)
  pub filed : All (λ (e : NodeId × Vote). (e.1.voter ≡ e.0) × (e.1.block_id ≡ id)) vs

abbrev pub IsWellFormed : Quorum → Type 0
IsWellFormed q = All (λ (e : Identifier × List (NodeId × Vote)). IsBallot e.0 e.1) q.votes

empty-IsBallot : (id : Identifier) → IsBallot id []
empty-IsBallot id = record { distinct = tt; filed = tt }

pub votes_for-IsBallot :
    (q : Quorum) (id : Identifier) → IsWellFormed q → IsBallot id (votes_for q id)
unfolding votes_for
votes_for-IsBallot q id h = elim (Option-cases (get ℕ_discrete id q.votes)) [
  | inl e ↦ rw (e, votes_for) (empty-IsBallot id)
  | inr (vs, e) ↦ rw (e, votes_for) (All-get ℕ_discrete _ id q.votes vs e h)
]

-- A recorded vote stands under its voter and its block, in the place of an earlier one.
pub record_vote-IsWellFormed :
    (q : Quorum) (v : Vote) → IsWellFormed q → IsWellFormed (record_vote q v)
unfolding record_vote
record_vote-IsWellFormed q v h =
    let b = votes_for-IsBallot q v.block_id h in
    All-put ℕ_discrete _ v.block_id _ q.votes
      (record {
        distinct = keys-put-IsDistinct node_id_discrete v.voter v _ b.distinct;
        filed = All-put node_id_discrete _ v.voter v _ (refl, refl) b.filed;
      })
      h

pub remove_vote-IsWellFormed :
    (q : Quorum) (id : Identifier) → IsWellFormed q → IsWellFormed (remove_vote q id)
unfolding remove_vote
remove_vote-IsWellFormed q id h = All-delete ℕ_discrete _ id q.votes h

-- The ballot of a block after a vote for it.
pub votes_for-record_vote :
    (q : Quorum) (v : Vote)
    → votes_for (record_vote q v) v.block_id
      ≡ put node_id_discrete v.voter v (votes_for q v.block_id)
unfolding votes_for record_vote
votes_for-record_vote q v = ground (
  arith,
  get-put_self ℕ_discrete v.block_id (put node_id_discrete v.voter v (votes_for q v.block_id))
      q.votes,
)

pub votes_for-record_vote_ne :
    (q : Quorum) (v : Vote) (id : Identifier)
    → v.block_id ≢ id
    → votes_for (record_vote q v) id ≡ votes_for q id
unfolding votes_for record_vote
votes_for-record_vote_ne q v id n = ground (
  arith,
  get-put_ne ℕ_discrete v.block_id id (put node_id_discrete v.voter v (votes_for q v.block_id))
      q.votes,
)

-- Add keeps the ballots well formed: the votes of each block stand under their voters, no voter
-- twice, and are for that block.
pub add-IsWellFormed : (q : Quorum) (v : Vote) → IsWellFormed q → IsWellFormed (add q v).0
unfolding add
add-IsWellFormed q v h = ground (arith, record_vote-IsWellFormed q v h)
