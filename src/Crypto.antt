-- ===== src/Crypto.antt =====
-- crypto/sign.go, crypto/ecdsa.go and crypto/signature.go: signing and verification with the static
-- keys of `SetKeys`. ECDSA itself is a library, and a parameter.
pub mod Certificates
pub mod Keys
use multipipelinehs.Prelude.{
  ℕ, ◌+◌, ◌-◌, Bool, true, false, ◌||◌, Option, none, some, List, [], ◌∷◌, ltb, ◌==◌, if◌then◌else◌,
}
use multipipelinehs.Types.{Identifier, NodeId, Signature, AggSig, Result, ok, fault, panic, ◌>>=◌}
use multipipelinehs.Identity.{node}

-- `ecdsa.Sign` and `ecdsa.Verify` with the key at an index: the two numbers of a signature as the
-- decimal texts that the code keeps.
pub record Ecdsa : Type 0 where
  pub sign : ℕ → Identifier → List ℕ × List ℕ
  pub verify : ℕ → Identifier → List ℕ → List ℕ → Bool

-- `keys[nodeID.Node()-1]` and `pubKeys[nodeID.Node()-1]`: the index, which panics out of range.
unfoldable pub key_index : ℕ → NodeId → Result ℕ
key_index n id = if node id == 0 || ltb n (node id) then fault panic else ok (node id - 1)

module _ (ecdsa : Ecdsa) (n : ℕ) where
  unfoldable pub priv_sign : Identifier → NodeId → Result Signature
  priv_sign block_id id = do k ← key_index n id; let (r, s) = ecdsa.sign k block_id; ok (r ∷ s ∷ [])

  -- `Verify`, which reads the first two parts of the signature.
  unfoldable pub verify_parts : ℕ → Signature → Identifier → Result Bool
  verify_parts k (r ∷ s ∷ _) block_id = ok (ecdsa.verify k block_id r s)
  verify_parts k _ block_id = fault panic

  unfoldable pub pub_verify : Signature → Identifier → NodeId → Result Bool
  pub_verify sig block_id id = do k ← key_index n id; verify_parts k sig block_id

  -- The loop over the signers, `aggregatedSigs[i]` beside the i-th.
  unfoldable pub verify_quorum_signature : AggSig → Identifier → List NodeId → Result Bool
  verify_quorum_signature sigs id [] = ok true
  verify_quorum_signature [] id (signer ∷ signers) = fault panic
  verify_quorum_signature (sig ∷ sigs) id (signer ∷ signers) =
      let rest = verify_quorum_signature sigs id signers in
      pub_verify sig id signer >>= λ good. if good then rest else ok false
