-- ===== src/Mempool.antt =====
-- mempool/backend.go: the queue of transactions with its index by id.
--
-- The elements of the linked list are known by handles, new ones for new elements, so that the index
-- can point at them. Of a transaction (message/message.go) only the fields that the pool reads are
-- kept. The mutex makes each method one step; `front` and `size` run under the lock of their caller.
pub mod Index
pub mod Reach
pub mod Batch
pub mod Sharing
pub mod Delivery
pub mod Producer
pub mod Bloom
use multipipelinehs.Prelude.{
  ℕ, zero, suc, ◌+◌, Bool, true, false, Option, none, some, List, [], ◌∷◌, ◌++◌, ltb, leb,
  ℕ_discrete, if◌then◌else◌, length, get, put, delete,
}
use multipipelinehs.Types.{NodeId, Payload, Result, ok, fault, ◌>>=◌, deref, node_id_discrete}
use multipipelinehs.Db.{Command}

pub record Transaction : Type 0 where
  pub command : Command
  pub timestamp : ℕ
  pub id : List ℕ

abbrev pub Handle : Type 0
Handle = ℕ

pub record Backend : Type 0 where
  pub order : List (List ℕ × Handle)
  pub txns : List (Handle × Transaction)
  pub next_handle : Handle
  pub limit : ℕ
  pub total_received : ℕ

unfoldable pub new_backend : ℕ → Backend
new_backend limit = record {
  order = [];
  txns = [];
  next_handle = 0;
  limit = limit;
  total_received = 0;
}

unfoldable pub size : Backend → ℕ
size b = length b.txns

-- `PushBack` and `PushFront`, with the entry of the index.
unfoldable pub push_back : Backend → Transaction → Backend
push_back b txn = record b {
  txns = b.txns ++ (b.next_handle, txn) ∷ [];
  order = put node_id_discrete txn.id b.next_handle b.order;
  next_handle = b.next_handle + 1;
}

unfoldable pub push_front : Backend → Transaction → Backend
push_front b txn = record b {
  txns = (b.next_handle, txn) ∷ b.txns;
  order = put node_id_discrete txn.id b.next_handle b.order;
  next_handle = b.next_handle + 1;
}

unfoldable pub insert_back : Backend → Option Transaction → Backend × Bool
insert_back b none = (b, false)
insert_back b (some txn) =
    if ltb b.limit (size b + 1)
    then (b, false)
    else (push_back (record b { total_received = b.total_received + 1 }) txn, true)

unfoldable pub insert_no_limit : Backend → Option Transaction → Backend
insert_no_limit b none = b
insert_no_limit b (some txn) = push_back (record b { total_received = b.total_received + 1 }) txn

unfoldable pub insert_front : Backend → Option Transaction → Backend
insert_front b none = b
insert_front b (some txn) = push_front b txn

unfoldable pub remove : Backend → Payload → Backend
remove b txn = elim (get node_id_discrete txn.id b.order) [
  | none ↦ b
  | some e ↦ record b {
    txns = delete ℕ_discrete e b.txns;
    order = delete node_id_discrete txn.id b.order;
  }
]

unfoldable pub front : Backend → Backend × Option Transaction
front b = elim b.txns [
  | [] ↦ (b, none)
  | e ∷ rest ↦ (record b { txns = rest; order = delete node_id_discrete e.1.id b.order }, some e.1)
]

-- `make([]byte, n)`.
unfoldable pub zeros : ℕ → List ℕ
zeros zero = []
zeros (suc n) = 0 ∷ zeros n

unfoldable pub payload_of : Transaction → Payload
payload_of tx = record { id = tx.id; digest = zeros 16; timestamp = tx.timestamp }

-- The loop of `some`, which dereferences what `front` answers.
unfoldable pub take_batch : ℕ → Backend → Result (Backend × List Payload)
unfolding front payload_of
take_batch zero b = ok (b, [])
take_batch (suc n) b = do
  let (b', front_tx) = front b
  tx ← deref front_tx
  (b'', batch) ← take_batch n b'
  ok (b'', payload_of tx ∷ batch)

-- `some`, of a batch size that is not negative.
unfoldable pub some_batch : Backend → ℕ → Result (Backend × List Payload)
some_batch b n = take_batch (if leb n (size b) then n else size b) b
