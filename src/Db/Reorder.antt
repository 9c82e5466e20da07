-- ===== src/Db/Reorder.antt =====
-- `Conflict` and `ConflictBatch` of db/db.go, and the order of execution.
use multipipelinehs.Prelude.{
  ℕ, ◌≡◌, ◌≢◌, refl, ◌∙◌, false, none, some, List, [], ◌∷◌, ◌++◌, ℕ_discrete, if◌then◌else◌, ◌==◌,
  get-put, arith,
}
use multipipelinehs.Db.{
  Key, Value, Command, Database, get_value, history, put_value, execute, conflict, conflict_any,
  conflict_batch,
}

-- What the methods can tell about a store.
pub record Same (d e : Database) : Type 0 where
  pub value : (k : Key) → get_value d k ≡ get_value e k
  pub version : d.version_no ≡ e.version_no
  pub multiversion : d.multiversion ≡ e.multiversion
  pub history : (k : Key) → history d k ≡ history e k

Same-refl : (d : Database) → Same d d
Same-refl d = record { value = λ k. refl; version = refl; multiversion = refl; history = λ k. refl }

Same-trans : (d e f : Database) → Same d e → Same e f → Same d f
Same-trans d e f a b = record {
  value = λ k. a.value k ∙ b.value k;
  version = a.version ∙ b.version;
  multiversion = a.multiversion ∙ b.multiversion;
  history = λ k. a.history k ∙ b.history k;
}

-- What a write of a key leaves under each key.
get_value-put_value :
    (d : Database) (k q : Key) (v : List ℕ)
    → get_value (put_value d k (some v)) q ≡ (if k == q then some v else get_value d q)
unfolding get_value put_value
get_value-put_value d k q v = ground (arith, get-put ℕ_discrete k q v d.data_of)

history-put_value :
    (d : Database) (k q : Key) (v : List ℕ)
    → history (put_value d k (some v)) q ≡ (
        if d.multiversion
        then if k == q then history d k ++ v ∷ [] else history d q
        else history d q)
unfolding history put_value
history-put_value d k q v =
    ground (arith, get-put ℕ_discrete k q (history d k ++ v ∷ []) d.history_of)

-- Stores that look the same look the same after a write.
put_value-Same :
    (d e : Database) (k : Key) (v : Value) → Same d e → Same (put_value d k v) (put_value e k v)
unfolding put_value
put_value-Same d e k none h = h
put_value-Same d e k (some v) h = record {
  value = λ q. ground (arith, get_value-put_value d k q v, get_value-put_value e k q v, h.value q);
  version = ground (arith, h.version);
  multiversion = h.multiversion;
  history = λ q. ground (
    arith,
    history-put_value d k q v,
    history-put_value e k q v,
    h.history q,
    h.history k,
    h.multiversion,
  );
}

-- Writes of different keys may be exchanged.
put_value-exchange :
    (d : Database) (j k : Key) (v w : List ℕ)
    → j ≢ k
    → Same
        (put_value (put_value d j (some v)) k (some w))
        (put_value (put_value d k (some w)) j (some v))
unfolding put_value
put_value-exchange d j k v w h = record {
  value = λ q.
      let d1 = put_value d j (some v) in
      let d2 = put_value d k (some w) in
      ground (
        arith,
        get_value-put_value d1 k q w,
        get_value-put_value d j q v,
        get_value-put_value d2 j q v,
        get_value-put_value d k q w,
      );
  version = refl;
  multiversion = refl;
  history = λ q.
      let d1 = put_value d j (some v) in
      let d2 = put_value d k (some w) in
      ground (
        arith,
        history-put_value d1 k q w,
        history-put_value d j q v,
        history-put_value d j k v,
        history-put_value d2 j q v,
        history-put_value d k q w,
        history-put_value d k j w,
      );
}

-- Two calls that do not both write one key may be exchanged.
put_values-exchange :
    (d : Database) (j k : Key) (v w : Value)
    → ((x y : List ℕ) → v ≡ some x → w ≡ some y → j ≢ k)
    → Same (put_value (put_value d j v) k w) (put_value (put_value d k w) j v)
unfolding put_value
put_values-exchange d j k none w h = Same-refl (put_value d k w)
put_values-exchange d j k (some v) none h = Same-refl (put_value d j (some v))
put_values-exchange d j k (some v) (some w) h = put_value-exchange d j k v w (h v w refl refl)

execute-exchange :
    (d : Database) (x y : Command)
    → conflict x y ≡ false
    → Same (execute (execute d x).0 y).0 (execute (execute d y).0 x).0
unfolding execute conflict
execute-exchange d x y h =
    put_values-exchange d x.key y.key x.value y.value (λ v w ev ew. ground arith)

-- The store after a batch, in its order.
abbrev pub execute_all : Database → List Command → Database
execute_all d [] = d
execute_all d (c ∷ cs) = execute_all (execute d c).0 cs

execute_all-Same :
    (d e : Database) (cs : List Command) → Same d e → Same (execute_all d cs) (execute_all e cs)
unfolding execute
execute_all-Same d e [] h = h
execute_all-Same d e (c ∷ cs) h =
    execute_all-Same (execute d c).0 (execute e c).0 cs (put_value-Same d e c.key c.value h)

-- A command that conflicts with none of a batch may be executed before it or after it.
execute-execute_all :
    (d : Database) (x : Command) (cs : List Command)
    → conflict_any x cs ≡ false
    → Same (execute_all (execute d x).0 cs) (execute (execute_all d cs) x).0
unfolding conflict_any
execute-execute_all d x [] h = Same-refl (execute d x).0
execute-execute_all d x (c ∷ cs) h =
    Same-trans (execute_all (execute (execute d x).0 c).0 cs)
      (execute_all (execute (execute d c).0 x).0 cs) (execute (execute_all (execute d c).0 cs) x).0
      (execute_all-Same (execute (execute d x).0 c).0 (execute (execute d c).0 x).0 cs
        (execute-exchange d x c (ground arith)))
      (execute-execute_all (execute d c).0 x cs (ground arith))

-- Two batches that ConflictBatch finds free of conflict may be executed in either order: values,
-- histories, the version number and the mode of the store are the same afterwards.
pub conflict_batch-Same :
    (d : Database) (xs ys : List Command)
    → conflict_batch xs ys ≡ false
    → Same (execute_all (execute_all d xs) ys) (execute_all (execute_all d ys) xs)
unfolding conflict_batch
conflict_batch-Same d [] ys h = Same-refl (execute_all d ys)
conflict_batch-Same d (x ∷ xs) ys h =
    Same-trans (execute_all (execute_all (execute d x).0 xs) ys)
      (execute_all (execute_all (execute d x).0 ys) xs)
      (execute_all (execute (execute_all d ys) x).0 xs)
      (conflict_batch-Same (execute d x).0 xs ys (ground arith))
      (execute_all-Same (execute_all (execute d x).0 ys) (execute (execute_all d ys) x).0 xs
        (execute-execute_all d x ys (ground arith)))
