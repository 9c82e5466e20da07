-- ===== src/Mempool/Producer.antt =====
-- mempool/producer.go: the pool of a replica, what it shares with the others, and the transactions that
-- it simulates. The goroutines and their sleeps are calls here: `receive` is a turn of `recv`, and
-- `simulate_round` one of `simulateTx`.
use multipipelinehs.Prelude.{
  ℕ, zero, suc, ◌+◌, ◌<◌, ◌≡◌, ◌≢◌, sym, ap, ◌∙◌, Bool, none, some, List, [], ◌∷◌, ◌++◌,
  if◌then◌else◌,
}
use Prim.Native.Nat.{◌^◌}
use multipipelinehs.Types.{NodeId, Payload, Result, ok, ◌>>=◌}
use multipipelinehs.Config.{Config}
use multipipelinehs.Identity.{itoa, node}
use multipipelinehs.Identity.RoundTrip.{node-itoa}
use multipipelinehs.Mempool.{Transaction, some_batch, zeros}
use multipipelinehs.Mempool.Sharing.{MemPool, new_mem_pool, add_new, add_new_from_o, add_old}
use multipipelinehs.Mempool.Sharing

-- `shares` is what `BroadcastTX` sent, the latest first.
pub record Producer : Type 0 where
  pub id : NodeId
  pub mempool : MemPool
  pub virtual_c : ℕ
  pub payload_size : ℕ
  pub is_byz : Bool
  pub shares : List (List Transaction)

-- `NewProducer`; the rate is that of the sleeps of `simulateTx`.
unfoldable pub new_producer : Config → NodeId → Bool → Producer
new_producer c id is_byz = record {
  id = id;
  mempool = new_mem_pool c.mem_size c.deliver_size c.share_interval;
  virtual_c = c.virtual_c;
  payload_size = c.payload_size;
  is_byz = is_byz;
  shares = [];
}

-- `AddTxn`.
unfoldable pub add_txn : Producer → ℕ → ℕ → Transaction → Producer
add_txn pd now later txn =
    let (mp, batch) = add_new pd.mempool now later (some txn) in
    let pd' = record pd { mempool = mp } in
    elim batch [ none ↦ pd' | some txs ↦ record pd' { shares = txs ∷ pd.shares } ]

unfoldable pub process_txs_by_o : Producer → Transaction → Producer
process_txs_by_o pd tx = record pd { mempool = add_new_from_o pd.mempool (some tx) }

unfoldable pub process_all : Producer → List Transaction → Producer
process_all pd [] = pd
process_all pd (tx ∷ txs) = process_all (process_txs_by_o pd tx) txs

-- A turn of `recv`; a Byzantine replica drops what it receives.
unfoldable pub receive : Producer → List Transaction → Producer
receive pd txs = if pd.is_byz then pd else process_all pd txs

-- `GeneratePayload`, with the batch size of the configuration.
unfoldable pub generate_payload : Producer → ℕ → Result (Producer × List Payload)
generate_payload pd b_size =
    let mp = pd.mempool in
    do
      (b, batch) ← some_batch mp.backend b_size
      ok (record pd { mempool = record mp { backend = b } }, batch)

unfoldable pub clean_txn : Producer → Payload → Producer
clean_txn pd txn = record pd { mempool = Sharing.remove pd.mempool txn }

unfoldable pub collect_txn : Producer → Transaction → Producer
collect_txn pd txn = record pd { mempool = add_old pd.mempool (some txn) }

unfoldable pub total_received_tx_no : Producer → ℕ
total_received_tx_no pd = pd.mempool.backend.total_received

-- `base + strconv.Itoa(count)`.
unfoldable pub tx_id : NodeId → ℕ → List ℕ
tx_id base count = base ++ itoa count

unfoldable pub simulated_tx : Producer → ℕ → ℕ → Transaction
simulated_tx pd count start = record {
  command = record {
    key = count;
    value = some (zeros pd.payload_size);
    client_id = [];
    command_id = 0;
  };
  timestamp = start;
  id = tx_id pd.id count;
}

-- The readings of the clock for a transaction: its timestamp, and the two of `addNew`.
pub record Readings : Type 0 where
  pub start : ℕ
  pub now : ℕ
  pub later : ℕ

-- The inner loop of `simulateTx`, and the count after it; the clock is read for each count.
unfoldable pub simulate : (ℕ → Readings) → ℕ → Producer → ℕ → Producer × ℕ
unfolding simulated_tx
simulate clock zero pd count = (pd, count)
simulate clock (suc n) pd count =
    let c = clock count in
    simulate clock n (add_txn pd c.now c.later (simulated_tx pd count c.start)) (count + 1)

-- A turn of its outer loop; a Byzantine replica simulates none.
unfoldable pub simulate_round : (ℕ → Readings) → Producer → ℕ → Producer × ℕ
simulate_round clock pd count =
    if pd.is_byz then (pd, count) else simulate clock pd.virtual_c pd count

append-injective : (base xs ys : List ℕ) → base ++ xs ≡ base ++ ys → xs ≡ ys
append-injective [] xs ys e = e
append-injective (b ∷ base) xs ys e = append-injective base xs ys (cc)

-- The ids of two simulated transactions of one replica differ if their counts do and are below 2 ^
-- 64.
pub tx_id-ne :
    (base : NodeId) (m n : ℕ) → m < 2 ^ 64 → n < 2 ^ 64 → m ≢ n → tx_id base m ≢ tx_id base n
unfolding tx_id
tx_id-ne base m n hm hn other e =
    other
      (sym (node-itoa m hm) ∙ ap node (append-injective base (itoa m) (itoa n) e) ∙ node-itoa n hn)
