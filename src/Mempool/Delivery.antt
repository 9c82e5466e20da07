-- ===== src/Mempool/Delivery.antt =====
-- Sequences of calls of `addNew` of mempool/mempool.go, and the batches that they share.
use multipipelinehs.Prelude.{
  ℕ, ◌+◌, ◌≡◌, ◌≤◌, refl, sym, ap, ◌∙◌, ◌⊎◌, inl, Option, none, some, List, [], ◌∷◌, ◌++◌,
  if◌then◌else◌, length, append-nil, append_assoc, arith,
}
use multipipelinehs.Mempool.{Transaction, insert_back}
use multipipelinehs.Mempool.Sharing.{
  MemPool, new_mem_pool, value_size, is_due, batch_of, add_to_buffer, add_new,
}

-- A call of `addNew`, with the clock.
pub record Call : Type 0 where
  pub now : ℕ
  pub later : ℕ
  pub txn : Option Transaction

abbrev pub run : MemPool → List Call → MemPool
run mp [] = mp
run mp (c ∷ cs) = run (add_new mp c.now c.later c.txn).0 cs

-- The transactions of a batch, if there is one.
abbrev pub contents : Option (List Transaction) → List Transaction
contents none = []
contents (some txs) = txs

-- What the calls share, batch after batch.
abbrev pub shared : MemPool → List Call → List Transaction
shared mp [] = []
shared mp (c ∷ cs) =
    contents (add_new mp c.now c.later c.txn).1 ++ shared (add_new mp c.now c.later c.txn).0 cs

-- The transaction of a call, if the pool takes it.
abbrev pub taken : MemPool → Option Transaction → List Transaction
taken mp none = []
taken mp (some tx) = if (insert_back mp.backend (some tx)).1 then tx ∷ [] else []

-- What the pool takes of the calls.
abbrev pub accepted : MemPool → List Call → List Transaction
accepted mp [] = []
accepted mp (c ∷ cs) = taken mp c.txn ++ accepted (add_new mp c.now c.later c.txn).0 cs

contents-batch_of : (txs : List Transaction) → contents (batch_of txs) ≡ txs
unfolding batch_of
contents-batch_of [] = refl
contents-batch_of (tx ∷ txs) = refl

-- One call.
add_new-buffer :
    (mp : MemPool) (now later : ℕ) (txn : Option Transaction)
    → contents (add_new mp now later txn).1 ++ (add_new mp now later txn).0.buffer
      ≡ mp.buffer ++ taken mp txn
unfolding add_new add_to_buffer
add_new-buffer mp now later none = sym (append-nil mp.buffer)
add_new-buffer mp now later (some tx) =
    ground (arith, contents-batch_of mp.buffer, append-nil mp.buffer)

-- Over any calls of addNew, the batches that they answer, one after the other, and then the buffer
-- that they leave are the buffer before them followed by the transactions that the pool accepted,
-- in their order: sharing neither loses, repeats nor reorders one.
pub shared-accepted :
    (mp : MemPool) (calls : List Call)
    → shared mp calls ++ (run mp calls).buffer ≡ mp.buffer ++ accepted mp calls
shared-accepted mp [] = sym (append-nil mp.buffer)
shared-accepted mp (c ∷ cs) =
    let mp' = (add_new mp c.now c.later c.txn).0 in
    let batch = contents (add_new mp c.now c.later c.txn).1 in
    append_assoc batch (shared mp' cs) (run mp' cs).buffer
    ∙ ap (λ xs. batch ++ xs) (shared-accepted mp' cs)
    ∙ sym (append_assoc batch mp'.buffer (accepted mp' cs))
    ∙ ap (λ xs. xs ++ accepted mp' cs) (add_new-buffer mp c.now c.later c.txn)
    ∙ append_assoc mp.buffer (taken mp c.txn) (accepted mp' cs)

abbrev pub total_size : List Transaction → ℕ
total_size [] = 0
total_size (tx ∷ txs) = value_size tx + total_size txs

total_size-append :
    (xs ys : List Transaction) → total_size (xs ++ ys) ≡ total_size xs + total_size ys
total_size-append [] ys = omega arith
total_size-append (x ∷ xs) ys = omega (arith, total_size-append xs ys)

-- Some transactions that one message may carry: their values fit in it, or there is only one.
abbrev pub Fits : ℕ → List Transaction → Type 0
Fits limit txs = (total_size txs ≤ limit) ⊎ (length txs ≤ 1)

pub record IsSized (mp : MemPool) : Type 0 where
  pub measured : mp.buffer_size ≡ total_size mp.buffer
  pub fits : Fits mp.deliver_size mp.buffer

add_new-IsSized :
    (mp : MemPool) (now later : ℕ) (txn : Option Transaction)
    → IsSized mp
    → IsSized (add_new mp now later txn).0
      × Fits mp.deliver_size (contents (add_new mp now later txn).1)
      × ((add_new mp now later txn).0.deliver_size ≡ mp.deliver_size)
unfolding add_new add_to_buffer is_due
add_new-IsSized mp now later none h = (h, inl (omega arith), refl)
add_new-IsSized mp now later (some tx) h =
    let d = h.measured in
    (
      record {
        measured = ground (arith, total_size-append mp.buffer (tx ∷ []));
        fits = ground (arith, total_size-append mp.buffer (tx ∷ []));
      },
      ground (arith, contents-batch_of mp.buffer, h.fits),
      ground arith,
    )

-- All the batches.
abbrev pub AllFit : MemPool → List Call → Type 0
AllFit mp [] = Unit {0}
AllFit mp (c ∷ cs) =
    Fits mp.deliver_size (contents (add_new mp c.now c.later c.txn).1)
    × AllFit (add_new mp c.now c.later c.txn).0 cs

run-AllFit : (mp : MemPool) (calls : List Call) → IsSized mp → AllFit mp calls
run-AllFit mp [] h = tt
run-AllFit mp (c ∷ cs) h =
    let (sized, fit, same) = add_new-IsSized mp c.now c.later c.txn h in
    (fit, run-AllFit (add_new mp c.now c.later c.txn).0 cs sized)

-- From a new pool, each batch that any calls of addNew answer has values whose lengths add up to
-- the delivery size at most, or is a single transaction or none.
pub new_mem_pool-AllFit :
    (mem_size deliver_size share_interval : ℕ) (calls : List Call)
    → AllFit (new_mem_pool mem_size deliver_size share_interval) calls
unfolding new_mem_pool
new_mem_pool-AllFit mem_size deliver_size share_interval calls =
    run-AllFit (new_mem_pool mem_size deliver_size share_interval) calls
      (record { measured = refl; fits = inl (omega arith) })
