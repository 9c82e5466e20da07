-- ===== src/Quorum/Build.antt =====
-- `Add` of blockchain/quorum.go and the certificates that it builds.
use multipipelinehs.Prelude.{
  suc, ◌+◌, ◌*◌, ◌/◌, ◌≡◌, ◌≢◌, ◌↔◌, refl, sym, ap, ◌∙◌, true, none, some, List, [], ◌∷◌, map,
  ℕ_discrete, arith, All, length, length-map, length-put, get, put, get-put_self,
}
use multipipelinehs.Prelude.Count.{IsDistinct, keys, elem, elem-keys-put, elem_here}
use multipipelinehs.Types.{Identifier, NodeId, Vote, Qc, node_id_discrete}
use multipipelinehs.Quorum.{
  Quorum, votes_for, record_vote, size, super_majority, get_sigs, make_qc, add,
}
use multipipelinehs.Quorum.Votes.{
  IsWellFormed, votes_for-record_vote, votes_for-IsBallot, record_vote-IsWellFormed,
}

-- The ballot that a vote for its block leaves.
ballot : Quorum → Vote → List (NodeId × Vote)
ballot q v = put node_id_discrete v.voter v (votes_for q v.block_id)

-- The votes of a certificate are those of the ballot.
make_qc-ballot :
    (q : Quorum) (v : Vote)
    → (make_qc (record_vote q v) v).signers ≡ map (λ (e : NodeId × Vote). e.1.voter) (ballot q v)
unfolding make_qc get_sigs record_vote ballot
make_qc-ballot q v = ground (arith, get-put_self ℕ_discrete v.block_id (ballot q v) q.votes)

make_qc-agg_sig :
    (q : Quorum) (v : Vote)
    → (make_qc (record_vote q v) v).agg_sig
      ≡ map (λ (e : NodeId × Vote). e.1.signature) (ballot q v)
unfolding make_qc get_sigs record_vote ballot
make_qc-agg_sig q v = ground (arith, get-put_self ℕ_discrete v.block_id (ballot q v) q.votes)

make_qc-fields :
    (q : Quorum) (v : Vote)
    → ((make_qc q v).block_id ≡ v.block_id)
      × ((make_qc q v).seq ≡ v.seq)
      × ((make_qc q v).view ≡ v.seq)
unfolding make_qc
make_qc-fields q v = ground arith

voters-keys :
    (id : Identifier) (vs : List (NodeId × Vote))
    → All (λ (e : NodeId × Vote). (e.1.voter ≡ e.0) × (e.1.block_id ≡ id)) vs
    → map (λ (e : NodeId × Vote). e.1.voter) vs ≡ keys node_id_discrete vs
voters-keys id [] h = refl
voters-keys id ((k, v) ∷ vs) h = ground (arith, voters-keys id vs h.1)

-- What a certificate for a vote's block consists of.
pub record Certifies (q : Quorum) (v : Vote) (qc : Qc) : Type 0 where
  pub block : qc.block_id ≡ v.block_id
  pub seq : (qc.seq ≡ v.seq) × (qc.view ≡ v.seq)
  pub signed : length qc.agg_sig ≡ length qc.signers
  pub enough : length qc.signers ≡ q.total * 2 / 3 + 1
  pub distinct : IsDistinct node_id_discrete qc.signers
  pub last : elem node_id_discrete v.voter qc.signers ≡ true

module _ (q : Quorum) (v : Vote) where
  size-record_vote : size (record_vote q v) v.block_id ≡ length (ballot q v)
  unfolding size ballot
  size-record_vote = ap length (votes_for-record_vote q v)

  length-ballot :
      length (ballot q v) ≡ elim (get node_id_discrete v.voter (votes_for q v.block_id)) [
        | none ↦ suc (size q v.block_id)
        | some _ ↦ size q v.block_id
      ]
  unfolding ballot size
  length-ballot = length-put node_id_discrete v.voter v (votes_for q v.block_id)

  total-record_vote : (record_vote q v).total ≡ q.total
  unfolding record_vote
  total-record_vote = refl

  -- For a vote of a view other than 0, Add answers with a certificate exactly when the collector
  -- holds no vote of the voter for the block, and its votes for the block are two thirds of the
  -- total, rounded down.
  pub add_builds :
      v.view ≢ 0
      → ((add q v).1 ≡ true) ↔ (
          (get node_id_discrete v.voter (votes_for q v.block_id) ≡ none)
          × (size q v.block_id ≡ q.total * 2 / 3))
  unfolding add super_majority
  add_builds h = ground (arith, size-record_vote, length-ballot, total-record_vote)

  signers-ballot :
      IsWellFormed q → (make_qc (record_vote q v) v).signers ≡ keys node_id_discrete (ballot q v)
  unfolding ballot
  signers-ballot w =
      let b = votes_for-IsBallot (record_vote q v) v.block_id (record_vote-IsWellFormed q v w) in
      make_qc-ballot q v
      ∙ voters-keys v.block_id (ballot q v) (rw (votes_for-record_vote q v) at b.filed)

  length-ballot_built : v.view ≢ 0 → (add q v).1 ≡ true → length (ballot q v) ≡ q.total * 2 / 3 + 1
  length-ballot_built h built =
      let (fresh, count) = (add_builds h).0 built in ground (arith, length-ballot)

  ballot-IsDistinct :
      IsWellFormed q → IsDistinct node_id_discrete (keys node_id_discrete (ballot q v))
  unfolding ballot
  ballot-IsDistinct w =
      let b = votes_for-IsBallot (record_vote q v) v.block_id (record_vote-IsWellFormed q v w) in
      rw (votes_for-record_vote q v) at b.distinct

  voter-elem-ballot : elem node_id_discrete v.voter (keys node_id_discrete (ballot q v)) ≡ true
  unfolding ballot
  voter-elem-ballot = ground (
    arith,
    elem-keys-put node_id_discrete v.voter v.voter v (votes_for q v.block_id),
    elem_here node_id_discrete v.voter [],
  )

  -- On well-formed ballots, a certificate that Add builds for a vote of a view other than 0 is for
  -- the block and the sequence number of the vote (which is also its view), and is signed by two
  -- thirds of the replicas, rounded down, and one more, each once, the voter among them, with a
  -- signature for each.
  pub add-Certifies :
      (qc : Qc) → v.view ≢ 0 → IsWellFormed q → (add q v).2 ≡ some qc → Certifies q v qc
  unfolding add
  add-Certifies qc h w e =
      let (built, same) = added in
      let signers = signers-ballot w in
      let fields = make_qc-fields (record_vote q v) v in
      let sigs = make_qc-agg_sig q v in
      rw (sym same) (record {
        block = fields.0;
        seq = (fields.1, fields.2);
        signed =
            ap length sigs
            ∙ length-map _ (ballot q v)
            ∙ sym (length-map (λ (e : NodeId × Vote). e.1.voter) (ballot q v))
            ∙ sym (ap length (make_qc-ballot q v));
        enough =
            ap length (make_qc-ballot q v)
            ∙ length-map _ (ballot q v)
            ∙ length-ballot_built h built;
        distinct = rw signers (ballot-IsDistinct w);
        last = rw signers (voter-elem-ballot);
      })
    where
      added : ((add q v).1 ≡ true) × (make_qc (record_vote q v) v ≡ qc)
      added = ground arith
