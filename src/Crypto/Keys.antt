-- ===== src/Crypto/Keys.antt =====
-- The making of the keys in crypto/sign.go. `ecdsa.GenerateKey` fills 40 bytes from the reader that it is
-- given (for P-256), by `io.ReadFull`, and makes the key of them: `key_of` is that last step.
use multipipelinehs.Prelude.{
  ℕ, zero, suc, ◌+◌, ◌-◌, ◌<◌, ◌≡◌, refl, ap, inl, inr, List, [], ◌∷◌, ◌++◌, arith, Bool-cases, leb,
  if◌then◌else◌, length,
}
use Prim.Native.Nat.{◌^◌}
use multipipelinehs.Types.{NodeId, Result, ok, fault, panic, diverged, ◌>>=◌}
use multipipelinehs.Identity.{new_node_id, node}
use multipipelinehs.Identity.RoundTrip.{node-new_node_id}

-- The signature schemes that `GenerateKey` knows, and any other name.
pub data Scheme : Type 0 where
  ecdsa_p256 ecdsa_secp256k1 bls_bls12381 other_scheme : Scheme

-- A key, the nil key, or the error.
pub data Made (Key : Type 0) : Type 0 where
  made : Key → Made Key
  nil_key invalid : Made Key

-- A new buffer.
unfoldable pub new_buffer : ℕ → List ℕ
new_buffer zero = []
new_buffer (suc n) = 0 ∷ new_buffer n

-- `StaticRand.Read`: the buffer after it, and the number of bytes that it says to have written.
unfoldable pub static_read : NodeId → List ℕ → List ℕ × ℕ
static_read id x = (x, node id)

unfoldable pub first : ℕ → List ℕ → List ℕ
first zero xs = []
first (suc n) [] = []
first (suc n) (x ∷ xs) = x ∷ first n xs

unfoldable pub skip : ℕ → List ℕ → List ℕ
skip zero xs = xs
skip (suc n) [] = []
skip (suc n) (x ∷ xs) = skip n xs

-- `io.ReadFull` into what is left of the buffer. A reader that says 0 is asked again without end.
unfoldable pub read_full : ℕ → NodeId → List ℕ → Result (List ℕ)
read_full zero id buffer = fault diverged
read_full (suc fuel) id buffer =
    let (filled, n) = static_read id buffer in
    let later = read_full fuel id (skip n filled) in
    if leb (length buffer) n then ok filled else do rest ← later; ok (first n filled ++ rest)

-- The keys that `SetKeys` makes before it returns nil, or that it returns an error.
pub data Keys (Key : Type 0) : Type 0 where
  all_made : List Key → Keys Key
  failed : Keys Key

module _ {Key : Type 0} (key_of : List ℕ → Key) where
  -- A call for each byte is enough.
  unfoldable pub generate_key : Scheme → NodeId → Result (Made Key)
  generate_key ecdsa_p256 id = do bytes ← read_full 41 id (new_buffer 40); ok (made (key_of bytes))
  generate_key ecdsa_secp256k1 id = ok nil_key
  generate_key bls_bls12381 id = ok nil_key
  generate_key other_scheme id = ok invalid

  -- The loop of `SetKeys`, from the i-th node on; the public key of a nil key panics.
  unfoldable pub keep_key : Made Key → Result (Keys Key) → Result (Keys Key)
  keep_key (made k) later = elim later [
    | ok (all_made ks) ↦ ok (all_made (k ∷ ks))
    | ok failed ↦ ok failed
    | fault e ↦ fault e
  ]
  keep_key nil_key later = fault panic
  keep_key invalid later = ok failed

  unfoldable pub set_keys_from : Scheme → ℕ → ℕ → Result (Keys Key)
  set_keys_from scheme i zero = ok (all_made [])
  set_keys_from scheme i (suc left) =
      let later = set_keys_from scheme (i + 1) left in
      do k ← generate_key scheme (new_node_id (i + 1)); keep_key k later

  unfoldable pub set_keys : Scheme → ℕ → Result (Keys Key)
  set_keys scheme n = set_keys_from scheme 0 n

length-new_buffer : (n : ℕ) → length (new_buffer n) ≡ n
unfolding new_buffer
length-new_buffer zero = refl
length-new_buffer (suc n) = ap suc (length-new_buffer n)

first-skip : (n : ℕ) (xs : List ℕ) → first n xs ++ skip n xs ≡ xs
unfolding first skip
first-skip zero xs = refl
first-skip (suc n) [] = refl
first-skip (suc n) (x ∷ xs) = ap (◌∷◌ x) (first-skip n xs)

length-skip : (n : ℕ) (xs : List ℕ) → length (skip n xs) ≡ length xs - n
unfolding skip
length-skip zero xs = omega arith
length-skip (suc n) [] = omega arith
length-skip (suc n) (x ∷ xs) = omega (arith, length-skip n xs)

-- The reader leaves the buffer as it is.
read_full-eq :
    (fuel : ℕ) (id : NodeId) (buffer : List ℕ)
    → length buffer < fuel
    → 0 < node id
    → read_full fuel id buffer ≡ ok buffer
unfolding read_full static_read
read_full-eq zero id buffer enough some_bytes = absurd (omega arith)
read_full-eq (suc fuel) id buffer enough some_bytes =
    elim (Bool-cases (leb (length buffer) (node id))) [
      | inl all ↦ rw all refl
      | inr part ↦
          let rest =
            read_full-eq fuel id (skip (node id) buffer)
              (ground (arith, length-skip (node id) buffer)) some_bytes in
          rw (part, rest) (ap ok (first-skip (node id) buffer))
    ]

module _ {Key : Type 0} (key_of : List ℕ → Key) where
  -- The same key, for each of the nodes.
  abbrev pub copies : ℕ → Key → List Key
  copies zero k = []
  copies (suc n) k = k ∷ copies n k

  generate_key-eq :
      (i : ℕ)
      → i + 1 < 2 ^ 63
      → generate_key key_of ecdsa_p256 (new_node_id (i + 1)) ≡ ok (made (key_of (new_buffer 40)))
  unfolding generate_key
  generate_key-eq i small =
      ap (λ r. r >>= λ bytes. ok (made (key_of bytes)))
        (read_full-eq 41 (new_node_id (i + 1)) (new_buffer 40) (omega (arith, length-new_buffer 40))
          (rw (node-new_node_id (i + 1) small) (omega arith)))

  set_keys_from-eq :
      (i left : ℕ)
      → i + left < 2 ^ 63
      → set_keys_from key_of ecdsa_p256 i left
        ≡ ok (all_made (copies left (key_of (new_buffer 40))))
  unfolding set_keys_from keep_key
  set_keys_from-eq i zero small = refl
  set_keys_from-eq i (suc left) small =
      rw (generate_key-eq i (omega arith), set_keys_from-eq (i + 1) left (omega arith)) refl

  -- With the scheme ECDSA_P256 and fewer than 2 ^ 63 nodes, SetKeys returns, and all nodes have
  -- one and the same private key, the one that is made of 40 zero bytes.
  pub set_keys-copies :
      (n : ℕ)
      → n < 2 ^ 63
      → set_keys key_of ecdsa_p256 n ≡ ok (all_made (copies n (key_of (new_buffer 40))))
  unfolding set_keys
  set_keys-copies n small = set_keys_from-eq 0 n (omega arith)
