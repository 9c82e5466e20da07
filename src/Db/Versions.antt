-- ===== src/Db/Versions.antt =====
-- The stores that the methods of db/db.go reach: values, histories and versions.
use multipipelinehs.Prelude.{
  ℕ, ◌≡◌, refl, Bool, true, none, some, List, [], ◌∷◌, ◌++◌, ℕ_discrete, get, get-put, arith,
}
use multipipelinehs.Db.{
  Key, Value, Command, Database, new_database, get_value, history, put_value, execute,
}

-- The last of some values.
abbrev pub last : List (List ℕ) → Value
last [] = none
last (v ∷ []) = some v
last (v ∷ w ∷ vs) = last (w ∷ vs)

last-append : (vs : List (List ℕ)) (v : List ℕ) → last (vs ++ v ∷ []) ≡ some v
last-append [] v = refl
last-append (w ∷ []) v = refl
last-append (w ∷ x ∷ vs) v = last-append (x ∷ vs) v

-- One call of a method that writes.
pub data Step (d : Database) : Database → Type 0 where
  puts : (k : Key) (v : Value) → Step d (put_value d k v)
  executes : (c : Command) → Step d (execute d c).0

pub data Reach (multiversion : Bool) : Database → Type 0 where
  start : Reach multiversion (new_database multiversion)
  next : {d e : Database} → Reach multiversion d → Step d e → Reach multiversion e

-- Each value is the last of its history.
pub record IsVersioned (d : Database) : Type 0 where
  pub multiversion : d.multiversion ≡ true
  pub current : (k : Key) → get_value d k ≡ last (history d k)

put_value-IsVersioned :
    (d : Database) (k : Key) (v : Value) → IsVersioned d → IsVersioned (put_value d k v)
unfolding put_value get_value history
put_value-IsVersioned d k none h = h
put_value-IsVersioned d k (some v) h = record {
  multiversion = h.multiversion;
  current = λ q. ground (
    arith,
    h.multiversion,
    h.current q,
    get-put ℕ_discrete k q v d.data_of,
    get-put ℕ_discrete k q (history d k ++ v ∷ []) d.history_of,
    last-append (history d k) v,
  );
}

-- In every state that a multi-version store reaches by puts and commands, the value of each key is
-- the last of its history, and nil without one.
pub Reach-IsVersioned : {d : Database} → Reach true d → IsVersioned d
unfolding new_database get_value history execute get ℕ_discrete
Reach-IsVersioned start = record { multiversion = refl; current = λ k. refl }
Reach-IsVersioned (next {d} r (puts k v)) = put_value-IsVersioned d k v (Reach-IsVersioned r)
Reach-IsVersioned (next {d} r (executes c)) =
    put_value-IsVersioned d c.key c.value (Reach-IsVersioned r)
