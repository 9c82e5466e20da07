-- ===== src/Mempool/Bloom.antt =====
-- mempool/bloom.go: a Bloom filter over a bit set, which is a library and a parameter. A `uint` has 64
-- bits.
use Prim.Native.Nat.{◌^◌, bit_and}
use multipipelinehs.Prelude.{
  ℕ, ◌+◌, ◌*◌, ◌-◌, ◌%◌, ◌≡◌, ◌≢◌, refl, Bool, true, false, ◌&&◌, List, [], ◌∷◌, arith, ℕ_discrete,
  subst, ◌∙◌,
}

-- The operations of the library that the filter calls.
pub record BitSet : Type 1 where
  pub Carrier : Type 0
  pub new : ℕ → Carrier
  pub set_bit : Carrier → ℕ → Carrier
  pub test : Carrier → ℕ → Bool

-- What its documentation says of them: a bit that is set tests true, and setting one leaves the other
-- ones.
pub record IsBitSet (bits : BitSet) : Type 0 where
  pub test-set_bit : (s : bits.Carrier) (i : ℕ) → bits.test (bits.set_bit s i) i ≡ true
  pub test-set_bit_ne :
      (s : bits.Carrier) (i j : ℕ) → i ≢ j → bits.test (bits.set_bit s i) j ≡ bits.test s j

abbrev pub default_size : ℕ
default_size = 33_554_432

abbrev pub seeds : List ℕ
seeds = 7 ∷ 11 ∷ 13 ∷ 31 ∷ 37 ∷ 61 ∷ []

pub record SimpleHash : Type 0 where
  pub cap : ℕ
  pub seed : ℕ

-- The loop of `hash`.
unfoldable pub hash_loop : ℕ → List ℕ → ℕ → ℕ
hash_loop seed [] result = result
hash_loop seed (c ∷ cs) result = hash_loop seed cs ((result * seed + c) % 2 ^ 64)

unfoldable pub hash : SimpleHash → List ℕ → ℕ
hash s value = bit_and (s.cap - 1) (hash_loop s.seed value 0)

unfoldable pub hash_functions : List ℕ → List SimpleHash
hash_functions [] = []
hash_functions (seed ∷ more) = record { cap = default_size; seed = seed } ∷ hash_functions more

module _ (bits : BitSet) where
  pub record BloomFilter : Type 0 where
    pub bit_set : bits.Carrier
    pub funcs : List SimpleHash

  unfoldable pub new_bloom_filter : BloomFilter
  new_bloom_filter = record { bit_set = bits.new default_size; funcs = hash_functions seeds }

  -- The loop of `Add` over the functions.
  unfoldable pub set_all : List SimpleHash → List ℕ → bits.Carrier → bits.Carrier
  set_all [] value s = s
  set_all (f ∷ fs) value s = set_all fs value (bits.set_bit s (hash f value))

  unfoldable pub add : BloomFilter → List ℕ → BloomFilter
  add bf value = record bf { bit_set = set_all bf.funcs value bf.bit_set }

  -- The loop of `Contains`.
  unfoldable pub test_all : List SimpleHash → List ℕ → bits.Carrier → Bool
  test_all [] value s = true
  test_all (f ∷ fs) value s = bits.test s (hash f value) && test_all fs value s

  unfoldable pub contains : BloomFilter → List ℕ → Bool
  contains bf [] = false
  contains bf (c ∷ cs) = test_all bf.funcs (c ∷ cs) bf.bit_set

  -- The filter after some values, in their order.
  abbrev pub add_all : BloomFilter → List (List ℕ) → BloomFilter
  add_all bf [] = bf
  add_all bf (v ∷ vs) = add_all (add bf v) vs

module _ (bits : BitSet) (laws : IsBitSet bits) where
  test-set_bit_mono :
      (s : bits.Carrier) (i j : ℕ) → bits.test s j ≡ true → bits.test (bits.set_bit s i) j ≡ true
  test-set_bit_mono s i j h = elim (ℕ_discrete i j) [
    | yes same ↦ subst (λ k. bits.test (bits.set_bit s i) k ≡ true) same (laws.test-set_bit s i)
    | no other ↦ laws.test-set_bit_ne s i j other ∙ h
  ]

  test-set_all_mono :
      (fs : List SimpleHash) (value : List ℕ) (s : bits.Carrier) (j : ℕ)
      → bits.test s j ≡ true
      → bits.test (set_all bits fs value s) j ≡ true
  unfolding set_all
  test-set_all_mono [] value s j h = h
  test-set_all_mono (f ∷ fs) value s j h =
      test-set_all_mono fs value (bits.set_bit s (hash f value)) j
        (test-set_bit_mono s (hash f value) j h)

  test_all_mono :
      (fs gs : List SimpleHash) (w v : List ℕ) (s : bits.Carrier)
      → test_all bits gs v s ≡ true
      → test_all bits gs v (set_all bits fs w s) ≡ true
  unfolding test_all
  test_all_mono fs [] w v s h = refl
  test_all_mono fs (g ∷ gs) w v s h =
      ground (arith, test-set_all_mono fs w s (hash g v), test_all_mono fs gs w v s)

  test_all-set_all :
      (fs : List SimpleHash) (v : List ℕ) (s : bits.Carrier)
      → test_all bits fs v (set_all bits fs v s) ≡ true
  unfolding test_all set_all
  test_all-set_all [] v s = refl
  test_all-set_all (f ∷ fs) v s =
      let t = bits.set_bit s (hash f v) in
      ground (
        arith,
        test-set_all_mono fs v t (hash f v) (laws.test-set_bit s (hash f v)),
        test_all-set_all fs v t,
      )

  test_all-add_all :
      (bf : BloomFilter bits) (vs : List (List ℕ)) (fs : List SimpleHash) (v : List ℕ)
      → test_all bits fs v bf.bit_set ≡ true
      → test_all bits fs v (add_all bits bf vs).bit_set ≡ true
  unfolding add
  test_all-add_all bf [] fs v h = h
  test_all-add_all bf (w ∷ vs) fs v h =
      test_all-add_all (add bits bf w) vs fs v (test_all_mono bf.funcs fs w v bf.bit_set h)

  funcs-add_all :
      (bf : BloomFilter bits) (vs : List (List ℕ)) → (add_all bits bf vs).funcs ≡ bf.funcs
  unfolding add
  funcs-add_all bf [] = refl
  funcs-add_all bf (v ∷ vs) = funcs-add_all (add bits bf v) vs

  -- If a bit that is set tests true and setting it leaves the other bits, a filter contains each
  -- value that is not empty and was added to it, whatever values were added before and after.
  pub contains-add_all :
      (bf : BloomFilter bits) (before after : List (List ℕ)) (v : List ℕ)
      → v ≢ []
      → contains bits (add_all bits (add bits (add_all bits bf before) v) after) v ≡ true
  unfolding contains add
  contains-add_all bf before after [] h = absurd (h refl)
  contains-add_all bf before after (c ∷ cs) h =
      let start = add_all bits bf before in
      let filled = add bits start (c ∷ cs) in
      rw (funcs-add_all filled after) (
        test_all-add_all filled after start.funcs (c ∷ cs)
          (test_all-set_all start.funcs (c ∷ cs) start.bit_set))
