-- ===== src/Mempool/Index.antt =====
-- The index of mempool/backend.go and the queued transactions.
use multipipelinehs.Prelude.{
  ℕ, suc, ◌+◌, ◌<◌, ◌≡◌, ◌≢◌, refl, sym, Option, none, some, List, [], ◌∷◌, ◌++◌, ltb, ℕ_discrete,
  get, delete, get-put, get-delete, arith, All, All-mono, All-delete, All-get, Option-cases,
  Bool-cases, zero, inl, inr, subst, ◌⊎◌,
}
use multipipelinehs.Types.{
  Payload, node_id_discrete, ok, ◌>>=◌, deref, Yields, Yields-bind, Yields-any,
}
use multipipelinehs.Mempool.{
  Transaction, Handle, Backend, push_back, push_front, insert_back, remove, front, size, take_batch,
  payload_of,
}

-- Handles are used once, and each id of the index points at a queued transaction with that id.
pub record IsIndexed (b : Backend) : Type 0 where
  pub fresh : All (λ (e : Handle × Transaction). e.0 < b.next_handle) b.txns
  pub pointed :
      (id : List ℕ) (h : Handle)
      → get node_id_discrete id b.order ≡ some h
      → (t : Transaction) × (get ℕ_discrete h b.txns ≡ some t) × (t.id ≡ id)

get-append_some :
    (h : Handle) (t : Transaction) (xs ys : List (Handle × Transaction))
    → get ℕ_discrete h xs ≡ some t
    → get ℕ_discrete h (xs ++ ys) ≡ some t
unfolding get
get-append_some h t [] ys e = absurd (cc)
get-append_some h t ((j, u) ∷ xs) ys e = ground (arith, get-append_some h t xs ys)

get-append_fresh :
    (h : Handle) (t : Transaction) (xs : List (Handle × Transaction))
    → All (λ (e : Handle × Transaction). e.0 < h) xs
    → get ℕ_discrete h (xs ++ (h, t) ∷ []) ≡ some t
unfolding get
get-append_fresh h t [] all = ground arith
get-append_fresh h t ((j, u) ∷ xs) all = ground (arith, get-append_fresh h t xs all.1)

All-append_one :
    (n h : Handle) (t : Transaction) (xs : List (Handle × Transaction))
    → All (λ (e : Handle × Transaction). e.0 < n) xs
    → h < n + 1
    → All (λ (e : Handle × Transaction). e.0 < n + 1) (xs ++ (h, t) ∷ [])
All-append_one n h t [] all lt = (lt, tt)
All-append_one n h t (x ∷ xs) all lt = (ground arith, All-append_one n h t xs all.1 lt)

get-lt :
    (h n : Handle) (t : Transaction) (xs : List (Handle × Transaction))
    → All (λ (e : Handle × Transaction). e.0 < n) xs
    → get ℕ_discrete h xs ≡ some t
    → h < n
get-lt h n t xs all e = All-get ℕ_discrete (λ (e : Handle × Transaction). e.0 < n) h xs t e all

pub push_back-IsIndexed : (b : Backend) (t : Transaction) → IsIndexed b → IsIndexed (push_back b t)
unfolding push_back
push_back-IsIndexed b t i = record {
  fresh = All-append_one b.next_handle b.next_handle t b.txns i.fresh (omega arith);
  pointed = λ id h e. elim (node_id_discrete t.id id) [
    | yes same ↦ (
      t,
      ground (
        arith,
        get-put node_id_discrete t.id id b.next_handle b.order,
        get-append_fresh b.next_handle t b.txns i.fresh,
      ),
      same,
    )
    | no other ↦
        let (u, at, named) =
          i.pointed id h (ground (arith, get-put node_id_discrete t.id id b.next_handle b.order)) in
        (u, get-append_some h u b.txns _ at, named)
  ];
}

pub push_front-IsIndexed :
    (b : Backend) (t : Transaction) → IsIndexed b → IsIndexed (push_front b t)
unfolding push_front get
push_front-IsIndexed b t i = record {
  fresh = (omega arith, All-mono _ _ b.txns (λ e lt. omega arith) i.fresh);
  pointed = λ id h e. elim (node_id_discrete t.id id) [
    | yes same ↦ (t, ground (arith, get-put node_id_discrete t.id id b.next_handle b.order), same)
    | no other ↦
        let (u, at, named) =
          i.pointed id h (ground (arith, get-put node_id_discrete t.id id b.next_handle b.order)) in
        (u, ground (arith, get-lt h b.next_handle u b.txns i.fresh at), named)
  ];
}

-- The entry that goes with a transaction is the only one that points at it.
other_entry :
    (b : Backend) (id : List ℕ) (h k : Handle) (t : Transaction)
    → IsIndexed b
    → get ℕ_discrete k b.txns ≡ some t
    → get node_id_discrete id (delete node_id_discrete t.id b.order) ≡ some h
    → (k ≢ h) × (get node_id_discrete id b.order ≡ some h)
other_entry b id h k t i at e = elim (node_id_discrete t.id id) [
  | yes same ↦ absurd (ground (arith, get-delete node_id_discrete t.id id b.order))
  | no other ↦
      let kept : get node_id_discrete id b.order ≡ some h =
        ground (arith, get-delete node_id_discrete t.id id b.order) in
      let (u, there, named) = i.pointed id h kept in ((λ same. ground arith), kept)
]

pub remove-IsIndexed : (b : Backend) (p : Payload) → IsIndexed b → IsIndexed (remove b p)
unfolding remove
remove-IsIndexed b p i = elim (Option-cases (get node_id_discrete p.id b.order)) [
  | inl n ↦ rw (n, remove) i
  | inr (k, n) ↦
      let (t, at, mine) = i.pointed p.id k n in
      rw (n, remove)
        (record {
          fresh = All-delete ℕ_discrete _ k b.txns i.fresh;
          pointed = λ id h e.
              let (apart, kept) = other_entry b id h k t i at (
                subst (λ j. get node_id_discrete id (delete node_id_discrete j b.order) ≡ some h)
                  (sym mine) e) in
              let (u, there, named) = i.pointed id h kept in
              (u, ground (arith, get-delete ℕ_discrete k h b.txns), named);
        })
]

txns-cases :
    (xs : List (Handle × Transaction))
    → (xs ≡ [])
      ⊎ ((k : Handle) × (t : Transaction) × (rest : List (Handle × Transaction)) × (xs
            ≡ (k, t) ∷ rest))
txns-cases [] = inl refl
txns-cases ((k, t) ∷ rest) = inr (k, t, rest, refl)

module _ (b : Backend) (k : Handle) (t : Transaction) (rest : List (Handle × Transaction))
    (split : b.txns ≡ (k, t) ∷ rest) where
  get_head : get ℕ_discrete k b.txns ≡ some t
  unfolding get
  get_head = ground arith

  get_tail :
      (h : Handle) (u : Transaction)
      → k ≢ h
      → get ℕ_discrete h b.txns ≡ some u
      → get ℕ_discrete h rest ≡ some u
  unfolding get
  get_tail h u apart there = ground arith

front-IsIndexed : (b : Backend) → IsIndexed b → IsIndexed (front b).0
unfolding front
front-IsIndexed b i = elim (txns-cases b.txns) [
  | inl none_left ↦ rw (none_left, front) i
  | inr (k, t, rest, split) ↦
      rw (split, front)
        (record {
          fresh = (subst (All (λ (e : Handle × Transaction). e.0 < b.next_handle)) split i.fresh).1;
          pointed = λ id h e.
              let (apart, kept) = other_entry b id h k t i (get_head b k t rest split) e in
              let (u, there, named) = i.pointed id h kept in
              (u, get_tail b k t rest split h u apart there, named);
        })
]

pub insert_back-IsIndexed :
    (b : Backend) (t : Option Transaction) → IsIndexed b → IsIndexed (insert_back b t).0
unfolding insert_back
insert_back-IsIndexed b none i = i
insert_back-IsIndexed b (some t) i = elim (Bool-cases (ltb b.limit (size b + 1))) [
  | inl full ↦ rw (full, insert_back) i
  | inr room ↦
      rw (room, insert_back)
        (push_back-IsIndexed (record b { total_received = b.total_received + 1 }) t
          (record { fresh = i.fresh; pointed = i.pointed }))
]

pub take_batch-IsIndexed :
    (n : ℕ) (b : Backend)
    → IsIndexed b
    → Yields (λ (r : Backend × List Payload). IsIndexed r.0) (take_batch n b)
unfolding take_batch
take_batch-IsIndexed zero b i = i
take_batch-IsIndexed (suc n) b i =
    let i' = front-IsIndexed b i in
    Yields-bind (λ (tx : Transaction). Unit {0}) (λ (r : Backend × List Payload). IsIndexed r.0)
      (deref (front b).1) (λ tx. take_batch n (front b).0 >>= λ r. ok (r.0, payload_of tx ∷ r.1))
      (Yields-any (deref (front b).1))
      (λ tx u.
        Yields-bind (λ (r : Backend × List Payload). IsIndexed r.0)
          (λ (r : Backend × List Payload). IsIndexed r.0) (take_batch n (front b).0)
          (λ r. ok (r.0, payload_of tx ∷ r.1)) (take_batch-IsIndexed n (front b).0 i') (λ r h. h))
