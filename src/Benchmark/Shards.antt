-- ===== src/Benchmark/Shards.antt =====
-- The shards of a history of benchmark/history.go.
use multipipelinehs.Prelude.{
  ◌≡◌, sym, List, [], ◌∷◌, ◌++◌, arith, get, get-put, append_assoc, append-nil,
}
use multipipelinehs.Prelude.Int.{ℤ}
use multipipelinehs.Benchmark.{
  int_discrete, Operation, History, new_history, shard_of, add_operation,
}

-- Calls of `AddOperation`, in their order.
unfoldable pub add_each : History → List (ℤ × Operation) → History
add_each h [] = h
add_each h (c ∷ calls) = add_each (add_operation h c.0 c.1) calls

-- The operations of the calls for a key.
unfoldable pub for_key : ℤ → List (ℤ × Operation) → List Operation
for_key key [] = []
for_key key (c ∷ calls) =
    let rest = for_key key calls in elim (int_discrete c.0 key) [ yes _ ↦ c.1 ∷ rest | no _ ↦ rest ]

shard_of-add_operation :
    (h : History) (k key : ℤ) (o : Operation)
    → shard_of (add_operation h k o) key
      ≡ (elim (int_discrete k key) [ yes _ ↦ shard_of h key ++ o ∷ [] | no _ ↦ shard_of h key ])
unfolding shard_of add_operation
shard_of-add_operation h k key o =
    ground (arith, get-put int_discrete k key (shard_of h k ++ o ∷ []) h.shard)

add_each-shard :
    (h : History) (calls : List (ℤ × Operation)) (key : ℤ)
    → shard_of (add_each h calls) key ≡ shard_of h key ++ for_key key calls
unfolding add_each for_key
add_each-shard h [] key = sym (append-nil (shard_of h key))
add_each-shard h (c ∷ calls) key = ground (
  arith,
  add_each-shard (add_operation h c.0 c.1) calls key,
  shard_of-add_operation h c.0 key c.1,
  append_assoc (shard_of h key) (c.1 ∷ []) (for_key key calls),
)

-- After any calls, the shard of a key is its operations in the order of the calls.
pub shard_of-add_each :
    (calls : List (ℤ × Operation)) (key : ℤ)
    → shard_of (add_each new_history calls) key ≡ for_key key calls
unfolding new_history shard_of get
shard_of-add_each calls key = add_each-shard new_history calls key
