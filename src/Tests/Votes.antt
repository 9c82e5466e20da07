-- ===== src/Tests/Votes.antt =====
-- Quorums and certificates of four replicas.
use Prim.Native.Nat.{◌^◌}
use multipipelinehs.Prelude.{
  ◌-◌, ℕ, ◌*◌, ◌/◌, ◌≡◌, ◌↔◌, refl, true, false, none, some, List, [], ◌∷◌, arith, ℕ_discrete, get,
  put,
}
use multipipelinehs.Prelude.Count.{elem}
use multipipelinehs.Types.{NodeId, Vote, Qc, zero_qc, node_id_discrete, ok, Signature}
use multipipelinehs.Identity.{node, new_node_id}
use multipipelinehs.Identity.RoundTrip.{node-new_node_id_abs}
use multipipelinehs.Crypto.{Ecdsa, verify_quorum_signature}
use multipipelinehs.Crypto.Certificates.{AllSigned, verify_quorum_signature_iff}
use multipipelinehs.Election.Rotation
use multipipelinehs.Election.Rotation.{is_leader-find_leader_for, node_of_is_leader}
use multipipelinehs.Quorum.{Quorum, add, size, votes_for}
use multipipelinehs.Quorum.Votes.{IsWellFormed}
use multipipelinehs.Quorum.Build.{Certifies, add_builds, add-Certifies}
use multipipelinehs.Quorum.Once.{add_all, add_once}
use multipipelinehs.Quorum.Intersection.{Overlap, add-Overlap}

abbrev one : NodeId
one = b'1' ∷ []

abbrev two : NodeId
two = b'2' ∷ []

abbrev three : NodeId
three = b'3' ∷ []

abbrev four : NodeId
four = b'4' ∷ []

abbrev nodes : List NodeId
nodes = one ∷ two ∷ three ∷ four ∷ []

abbrev vote_of : NodeId → Vote
vote_of id = record { view = 7; seq = 14; voter = id; block_id = 70; signature = [] }

abbrev two_votes : Quorum
two_votes = record { total = 4; votes = (70, (one, vote_of one) ∷ (two, vote_of two) ∷ []) ∷ [] }

abbrev certificate : NodeId → Qc
certificate last = record zero_qc {
  view = 14;
  seq = 14;
  block_id = 70;
  signers = one ∷ two ∷ last ∷ [];
  agg_sig = [] ∷ [] ∷ [] ∷ [];
}

two_votes-IsWellFormed : IsWellFormed two_votes
unfolding elem node_id_discrete ℕ_discrete
two_votes-IsWellFormed =
    (record { distinct = (refl, (refl, tt)); filed = ((refl, refl), ((refl, refl), tt)) }, tt)

add_third : (add two_votes (vote_of three)).2 ≡ some (certificate three)
unfolding add get put ℕ_discrete node_id_discrete
add_third = refl

add_fourth : (add two_votes (vote_of four)).2 ≡ some (certificate four)
unfolding add get put ℕ_discrete node_id_discrete
add_fourth = refl

add_again : (add two_votes (vote_of two)).1 ≡ false
unfolding add get put ℕ_discrete node_id_discrete
add_again = refl

add_builds_example : ((add two_votes (vote_of three)).1 ≡ true) ↔ (
    (get node_id_discrete three (votes_for two_votes 70) ≡ none) × (size two_votes 70 ≡ 4 * 2 / 3))
add_builds_example = add_builds two_votes (vote_of three) (omega arith)

add-Certifies_example : Certifies two_votes (vote_of three) (certificate three)
add-Certifies_example =
    add-Certifies two_votes (vote_of three) (certificate three) (omega arith) two_votes-IsWellFormed
      add_third

add-Overlap_example : Overlap nodes (certificate three) (certificate four)
unfolding elem node_id_discrete ℕ_discrete
add-Overlap_example =
    add-Overlap nodes two_votes two_votes (vote_of three) (vote_of four) (certificate three)
      (certificate four) refl refl two_votes-IsWellFormed two_votes-IsWellFormed (omega arith)
      (omega arith) add_third add_fourth (refl, (refl, (refl, tt))) (refl, (refl, (refl, tt)))

third_builds : (add two_votes (vote_of three)).1 ≡ true
unfolding add get put ℕ_discrete node_id_discrete
third_builds = refl

add_once_example :
    (let r = add_all (add two_votes (vote_of three)).0 (vote_of two ∷ []) in
      add r (vote_of four) ≡ (r, false, none))
add_once_example =
    add_once two_votes (vote_of three) (vote_of four) (vote_of two ∷ []) (omega arith) (omega arith)
      refl third_builds

node-new_node_id_abs_example :
    (node (new_node_id 3741) ≡ 3741) × (node (new_node_id (2 ^ 64 - 3741)) ≡ 3741)
node-new_node_id_abs_example = node-new_node_id_abs 3741 (omega arith)

abbrev any_hash : List ℕ → ℕ
any_hash text = 1_000_003

is_leader-find_leader_for_example :
    Rotation.is_leader any_hash 4 (Rotation.find_leader_for any_hash 4 9) 9 ≡ true
is_leader-find_leader_for_example =
    is_leader-find_leader_for any_hash 4 (omega arith) (omega arith) 9

abbrev toy_ecdsa : Ecdsa
toy_ecdsa = record { sign = λ k m. ([], []); verify = λ k m r s. true }

abbrev toy_sig : Signature
toy_sig = [] ∷ [] ∷ []

verify_quorum_signature_iff_example :
    (verify_quorum_signature toy_ecdsa 4 (toy_sig ∷ toy_sig ∷ []) 70 (one ∷ one ∷ []) ≡ ok true)
    ↔ AllSigned toy_ecdsa 4 70 (toy_sig ∷ toy_sig ∷ []) (one ∷ one ∷ [])
verify_quorum_signature_iff_example =
    verify_quorum_signature_iff toy_ecdsa 4 70 (toy_sig ∷ toy_sig ∷ []) (one ∷ one ∷ [])
