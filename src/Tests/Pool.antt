-- ===== src/Tests/Pool.antt =====
-- A pool of few transactions.
use multipipelinehs.Prelude.{
  ℕ, ◌≡◌, refl, Bool, true, false, ◌||◌, some, List, [], ◌∷◌, ◌++◌, arith, leb, ◌==◌, if◌then◌else◌,
  get, put, delete, ℕ_discrete,
}
use multipipelinehs.Types.{Payload, ok, node_id_discrete}
use multipipelinehs.Mempool.{
  Transaction, Backend, new_backend, size, insert_back, push_back, remove, some_batch, payload_of,
}
use multipipelinehs.Mempool.Index.{IsIndexed}
use multipipelinehs.Mempool.Reach.{start, next, inserts, removes, Reach-IsIndexed}
use multipipelinehs.Mempool.Batch.{Batches, some_batch-Batches}
use multipipelinehs.Mempool.Sharing.{
  MemPool, new_mem_pool, add_new, is_due, since, value_size, batch_of, add_to_buffer,
}
use multipipelinehs.Mempool.Delivery.{
  Call, run, shared, accepted, shared-accepted, AllFit, new_mem_pool-AllFit,
}
use multipipelinehs.Identity.{itoa, itoa_fuel, new_node_id}
use multipipelinehs.Mempool.Producer.{tx_id}
use multipipelinehs.Mempool.Bloom.{
  BitSet, IsBitSet, new_bloom_filter, contains, add, add_all, contains-add_all,
}

abbrev txn : ℕ → Transaction
txn digit = record {
  command = record { key = 1; value = some (7 ∷ 8 ∷ 9 ∷ []); client_id = []; command_id = 0 };
  timestamp = 5;
  id = digit ∷ [];
}

abbrev two_txns : Backend
two_txns = (insert_back (insert_back (new_backend 2) (some (txn b'a'))).0 (some (txn b'b'))).0

full : (insert_back two_txns (some (txn b'c'))).1 ≡ false
unfolding insert_back push_back new_backend size put node_id_discrete ℕ_discrete
full = refl

abbrev removed : Backend
removed = remove two_txns (payload_of (txn b'a'))

one_left : size removed ≡ 1
unfolding insert_back push_back new_backend size put get delete node_id_discrete ℕ_discrete remove
    payload_of
one_left = refl

Reach-IsIndexed_example : IsIndexed removed
Reach-IsIndexed_example = Reach-IsIndexed 2 (
    next (next (next start (inserts (some (txn b'a')))) (inserts (some (txn b'b'))))
      (removes (payload_of (txn b'a'))))

some_batch-Batches_example :
    (c : Backend) × (batch : List Payload) × (some_batch two_txns 5 ≡ ok (c, batch))
    × Batches two_txns (if leb 5 (size two_txns) then 5 else size two_txns) c batch
some_batch-Batches_example = some_batch-Batches two_txns 5

abbrev pool : MemPool
pool = new_mem_pool 10 7 1000

abbrev calls : List Call
calls =
    record { now = 10; later = 11; txn = some (txn b'a') }
    ∷ record { now = 20; later = 21; txn = some (txn b'b') }
    ∷ record { now = 30; later = 31; txn = some (txn b'c') }
    ∷ []

first_shared : shared pool calls ≡ txn b'a' ∷ txn b'b' ∷ []
unfolding new_mem_pool add_new is_due since value_size batch_of add_to_buffer insert_back push_back
    new_backend size put node_id_discrete ℕ_discrete
first_shared = refl

shared-accepted_example :
    shared pool calls ++ (run pool calls).buffer ≡ pool.buffer ++ accepted pool calls
shared-accepted_example = shared-accepted pool calls

new_mem_pool-AllFit_example : AllFit pool calls
new_mem_pool-AllFit_example = new_mem_pool-AllFit 10 7 1000 calls

-- Bit sets as functions.
abbrev bits : BitSet
bits = record {
  Carrier = ℕ → Bool;
  new = λ n i. false;
  set_bit = λ s i j. (i == j) || s j;
  test = λ s i. s i;
}

bits-IsBitSet : IsBitSet bits
bits-IsBitSet = record {
  test-set_bit = λ s i. ground arith;
  test-set_bit_ne = λ s i j h. ground arith;
}

contains-add_all_example :
    contains bits
      (add_all bits
        (add bits (add_all bits (new_bloom_filter bits) ((b'x' ∷ []) ∷ [])) (b'y' ∷ []))
        ((b'z' ∷ []) ∷ []))
      (b'y' ∷ [])
    ≡ true
contains-add_all_example =
    contains-add_all bits bits-IsBitSet (new_bloom_filter bits) ((b'x' ∷ []) ∷ [])
      ((b'z' ∷ []) ∷ []) (b'y' ∷ []) (λ e. absurd (cc))

-- The ids of two replicas may be the same.
ids_meet : tx_id (new_node_id 1) 11 ≡ tx_id (new_node_id 11) 1
unfolding tx_id new_node_id itoa itoa_fuel
ids_meet = refl
