-- ===== src/Mempool/Reach.antt =====
-- The pools that the methods of mempool/backend.go reach.
use multipipelinehs.Prelude.{ℕ, ◌+◌, ◌≡◌, Option, none, some, List, leb, get, if◌then◌else◌}
use multipipelinehs.Types.{Payload, ok, Yields-ok}
use multipipelinehs.Mempool.{
  Transaction, Backend, new_backend, insert_back, insert_no_limit, insert_front, remove, size,
  take_batch, some_batch,
}
use multipipelinehs.Mempool.Index.{
  IsIndexed, push_back-IsIndexed, push_front-IsIndexed, insert_back-IsIndexed, remove-IsIndexed,
  take_batch-IsIndexed,
}

-- One call of a method.
pub data Step (b : Backend) : Backend → Type 0 where
  inserts : (t : Option Transaction) → Step b (insert_back b t).0
  inserts_no_limit : (t : Option Transaction) → Step b (insert_no_limit b t)
  inserts_front : (t : Option Transaction) → Step b (insert_front b t)
  removes : (p : Payload) → Step b (remove b p)
  takes : (n : ℕ) (r : Backend × List Payload) → some_batch b n ≡ ok r → Step b r.0

pub data Reach (limit : ℕ) : Backend → Type 0 where
  start : Reach limit (new_backend limit)
  next : {b c : Backend} → Reach limit b → Step b c → Reach limit c

Step-IsIndexed : {b c : Backend} → Step b c → IsIndexed b → IsIndexed c
unfolding insert_no_limit insert_front some_batch
Step-IsIndexed {b} (inserts t) i = insert_back-IsIndexed b t i
Step-IsIndexed {b} (inserts_no_limit none) i = i
Step-IsIndexed {b} (inserts_no_limit (some t)) i =
    push_back-IsIndexed (record b { total_received = b.total_received + 1 }) t
      (record { fresh = i.fresh; pointed = i.pointed })
Step-IsIndexed {b} (inserts_front none) i = i
Step-IsIndexed {b} (inserts_front (some t)) i = push_front-IsIndexed b t i
Step-IsIndexed {b} (removes p) i = remove-IsIndexed b p i
Step-IsIndexed {b} (takes n r e) i =
    let m = if leb n (size b) then n else size b in
    Yields-ok (λ r. IsIndexed r.0) (take_batch m b) r (take_batch-IsIndexed m b i) e

-- In every pool that the methods of the queue reach, the handles of the queued transactions are
-- below the next one, and each id of the index points at a queued transaction with that id.
pub Reach-IsIndexed : (limit : ℕ) {b : Backend} → Reach limit b → IsIndexed b
unfolding new_backend get
Reach-IsIndexed limit start = record { fresh = tt; pointed = λ id h e. absurd (cc) }
Reach-IsIndexed limit (next {b} r st) = Step-IsIndexed st (Reach-IsIndexed limit r)
