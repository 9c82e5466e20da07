-- ===== src/Env.antt =====
-- What both protocols take from the rest of a replica: its own id and behaviour (node/node.go), the
-- configuration, the election, the keys, and the hash of a block (crypto/id.go, blockchain/block.go).
use multipipelinehs.Prelude.{ℕ, Bool, true, false, Option, List, map}
use multipipelinehs.Types.{
  View, Seq, Identifier, NodeId, Payload, Qc, Tc, Block, Vote, Result, ok, ◌>>=◌, node_id_discrete,
}
use multipipelinehs.Crypto.{Ecdsa, priv_sign}
use multipipelinehs.Election.{Election}
use multipipelinehs.Quorum

-- `rawBlock`, whose `Sig` and `ID` are left zero.
pub record RawBlock : Type 0 where
  pub seq : Seq
  pub qc : Option Qc
  pub proposer : NodeId
  pub payload : List (List ℕ)
  pub prev_id : Identifier

-- `is_fork` is the test that `Strategy` is "fork"; `make_id` hashes the encoded raw block.
pub record Env : Type 0 where
  pub id : NodeId
  pub is_byz : Bool
  pub is_fork : Bool
  pub n : ℕ
  pub election : Election
  pub ecdsa : Ecdsa
  pub make_id : RawBlock → Identifier

-- Equality of node ids, as a Boolean.
unfoldable pub same_node : NodeId → NodeId → Bool
same_node a b = elim (node_id_discrete a b) [ yes _ ↦ true | no _ ↦ false ]

module _ (env : Env) where
  -- `MakeBlock` with `makeID`; the error of signing is dropped.
  unfoldable pub make_block :
      View
      → Seq
      → Option Qc
      → Option Tc
      → List (Option Tc)
      → Identifier
      → List Payload
      → NodeId
      → Result Block
  make_block view seq qc tc tcs prev_id payload proposer = do
    let id = env.make_id (record {
      seq = seq;
      qc = qc;
      proposer = proposer;
      payload = map (λ p. p.id) payload;
      prev_id = prev_id;
    })
    sig ← priv_sign env.ecdsa env.n id proposer
    ok (record {
      seq = seq;
      view = view;
      qc = qc;
      tc = tc;
      tcs = tcs;
      proposer = proposer;
      payload = payload;
      prev_id = prev_id;
      sig = sig;
      id = id;
    })

  -- `MakeVote`, which signs the block's id.
  unfoldable pub make_vote : View → Seq → NodeId → Identifier → Result Vote
  make_vote view seq voter block_id = do
    sig ← priv_sign env.ecdsa env.n block_id voter
    ok (Quorum.make_vote view seq voter block_id sig)
