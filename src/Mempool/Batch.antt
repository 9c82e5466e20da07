-- ===== src/Mempool/Batch.antt =====
-- `some` of mempool/backend.go.
use multipipelinehs.Prelude.{
  ℕ, zero, suc, ◌≤◌, ◌≡◌, refl, ap, List, [], ◌∷◌, map, length, leb, arith, ◌++◌, if◌then◌else◌,
}
use multipipelinehs.Types.{Payload, ok}
use multipipelinehs.Mempool.{
  Transaction, Handle, Backend, front, size, payload_of, take_batch, some_batch,
}

-- The queue is cut at the size of the batch: what stands before the cut is the batch, in its order.
pub record Batches (b : Backend) (n : ℕ) (c : Backend) (batch : List Payload) : Type 0 where
  pub taken : List (Handle × Transaction)
  pub split : b.txns ≡ taken ++ c.txns
  pub long : length taken ≡ n
  pub batched : batch ≡ map (λ (e : Handle × Transaction). payload_of e.1) taken

take_batch_total :
    (n : ℕ) (b : Backend) (xs : List (Handle × Transaction))
    → b.txns ≡ xs
    → n ≤ length xs
    → (r : Backend × List Payload) × (take_batch n b ≡ ok r) × Batches b n r.0 r.1
unfolding take_batch front
take_batch_total zero b xs e h =
    ((b, []), refl, record { taken = []; split = refl; long = refl; batched = refl })
take_batch_total (suc n) b [] e h = elim h [ ]
take_batch_total (suc n) b (x ∷ xs) e h =
    let (r, done, bt) = take_batch_total n (front b).0 xs (ground arith) (omega arith) in
    (
      (r.0, payload_of x.1 ∷ r.1),
      ground arith,
      record {
        taken = x ∷ bt.taken;
        split = ground (arith, bt.split);
        long = ap suc bt.long;
        batched = ap (◌∷◌ (payload_of x.1)) bt.batched;
      },
    )

-- A batch of a size that is not negative is answered without a panic: it holds the payloads of as
-- many transactions from the front of the queue, in their order, as asked for or as there are, and
-- leaves the rest of the queue.
pub some_batch-Batches :
    (b : Backend) (n : ℕ)
    → (c : Backend) × (batch : List Payload) × (some_batch b n ≡ ok (c, batch))
      × Batches b (if leb n (size b) then n else size b) c batch
unfolding some_batch size
some_batch-Batches b n =
    let m = if leb n (size b) then n else size b in
    let (r, done, bt) = take_batch_total m b b.txns refl (ground arith) in (r.0, r.1, done, bt)
