-- ===== src/Crypto/Certificates.antt =====
-- `VerifyQuorumSignature` of crypto/sign.go.
use multipipelinehs.Prelude.{ℕ, ◌≡◌, ◌↔◌, refl, true, List, [], ◌∷◌, arith}
use multipipelinehs.Types.{Identifier, NodeId, AggSig, ok}
use multipipelinehs.Crypto.{Ecdsa, pub_verify, verify_quorum_signature}

module _ (ecdsa : Ecdsa) (n : ℕ) (id : Identifier) where
  -- Each signer has a signature at its place, which verifies under its key.
  abbrev pub AllSigned : AggSig → List NodeId → Type 0
  AllSigned sigs [] = Unit
  AllSigned [] (signer ∷ signers) = ⊥
  AllSigned (sig ∷ sigs) (signer ∷ signers) =
      (pub_verify ecdsa n sig id signer ≡ ok true) × AllSigned sigs signers

  accepted-AllSigned :
      (sigs : AggSig) (signers : List NodeId)
      → verify_quorum_signature ecdsa n sigs id signers ≡ ok true
      → AllSigned sigs signers
  unfolding verify_quorum_signature
  accepted-AllSigned sigs [] h = tt
  accepted-AllSigned [] (signer ∷ signers) h = ground arith
  accepted-AllSigned (sig ∷ sigs) (signer ∷ signers) h =
      ground (arith, accepted-AllSigned sigs signers)

  AllSigned-accepted :
      (sigs : AggSig) (signers : List NodeId)
      → AllSigned sigs signers
      → verify_quorum_signature ecdsa n sigs id signers ≡ ok true
  unfolding verify_quorum_signature
  AllSigned-accepted sigs [] h = refl
  AllSigned-accepted [] (signer ∷ signers) h = absurd h
  AllSigned-accepted (sig ∷ sigs) (signer ∷ signers) h =
      ground (arith, AllSigned-accepted sigs signers h.1)

  -- A certificate is accepted exactly when every listed signer has a key and a valid signature at
  -- its place; how many signers there are, and whether they differ, plays no part.
  pub verify_quorum_signature_iff :
      (sigs : AggSig) (signers : List NodeId)
      → (verify_quorum_signature ecdsa n sigs id signers ≡ ok true) ↔ AllSigned sigs signers
  verify_quorum_signature_iff sigs signers =
      (accepted-AllSigned sigs signers, AllSigned-accepted sigs signers)
