-- ===== src/Mempool/Sharing.antt =====
-- mempool/mempool.go: the pool with the buffer of transactions that are shared in batches.
--
-- `now` and `later` are the two readings of the clock, in milliseconds; `time.Since` stops at the
-- largest duration. A value that is nil has length 0.
use multipipelinehs.Prelude.{
  ℕ, ◌+◌, ◌-◌, Bool, not, ◌||◌, Option, none, some, List, [], ◌∷◌, ◌++◌, ltb, if◌then◌else◌, length,
}
use multipipelinehs.Types.{Payload}
use multipipelinehs.Mempool.{
  Transaction, Backend, new_backend, insert_back, insert_no_limit, insert_front,
}
use multipipelinehs.Mempool

pub record MemPool : Type 0 where
  pub buffer : List Transaction
  pub buffer_size : ℕ
  pub deliver_size : ℕ
  pub backend : Backend
  pub last_share : ℕ
  pub share_interval : ℕ

unfoldable pub new_mem_pool : ℕ → ℕ → ℕ → MemPool
new_mem_pool mem_size deliver_size share_interval = record {
  buffer = [];
  buffer_size = 0;
  deliver_size = deliver_size;
  backend = new_backend mem_size;
  last_share = 0;
  share_interval = share_interval;
}

-- `len(tx.Command.Value)`.
unfoldable pub value_size : Transaction → ℕ
value_size tx = elim tx.command.value [ none ↦ 0 | some bytes ↦ length bytes ]

-- `time.Since`, whose result is at most 2 ^ 63 - 1 nanoseconds.
unfoldable pub since : ℕ → ℕ → ℕ
since now start = if ltb 9_223_372_036_854 (now - start) then 9_223_372_036_854 else now - start

unfoldable pub is_due : MemPool → ℕ → Transaction → Bool
is_due mp now tx =
    ltb mp.deliver_size (mp.buffer_size + value_size tx)
    || ltb mp.share_interval (since now mp.last_share)

-- A batch that is empty is answered as nil.
unfoldable pub batch_of : List Transaction → Option (List Transaction)
batch_of [] = none
batch_of (tx ∷ txs) = some (tx ∷ txs)

unfoldable pub add_to_buffer : MemPool → Transaction → MemPool
unfolding value_size
add_to_buffer mp tx = record mp {
  buffer = mp.buffer ++ tx ∷ [];
  buffer_size = mp.buffer_size + value_size tx;
}

-- `addNew` of a transaction that is not nil; `insertBack` refuses nil, and the rest is not reached.
unfoldable pub add_new : MemPool → ℕ → ℕ → Option Transaction → MemPool × Option (List Transaction)
add_new mp now later none = (mp, none)
add_new mp now later (some tx) =
    let (b, inserted) = insert_back mp.backend (some tx) in
    let mp1 = record mp { backend = b } in
    if not inserted
    then (mp1, none)
    else if is_due mp1 now tx
    then (
      add_to_buffer (record mp1 { buffer = []; buffer_size = 0; last_share = later }) tx,
      batch_of mp1.buffer,
    )
    else (add_to_buffer mp1 tx, none)

unfoldable pub add_new_from_o : MemPool → Option Transaction → MemPool
add_new_from_o mp tx = record mp { backend = insert_no_limit mp.backend tx }

unfoldable pub add_old : MemPool → Option Transaction → MemPool
add_old mp tx = record mp { backend = insert_front mp.backend tx }

unfoldable pub remove : MemPool → Payload → MemPool
remove mp p = record mp { backend = Mempool.remove mp.backend p }
