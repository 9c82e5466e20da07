-- ===== src/Db.antt =====
-- db/db.go: commands, the key-value store with versions, and conflicts of commands. Keys are Go `int`s
-- that are only compared for equality, so natural numbers stand for them. A value is the bytes of a
-- slice, or `none` for the nil slice. The lock makes each method one step.
pub mod Commands
pub mod Versions
pub mod Reorder
use multipipelinehs.Prelude.{
  ℕ, ◌+◌, Bool, true, false, not, ◌&&◌, ◌||◌, Option, none, some, List, [], ◌∷◌, ◌++◌, ℕ_discrete,
  if◌then◌else◌, ◌==◌, get, put,
}
use multipipelinehs.Types.{NodeId}

abbrev pub Key : Type 0
Key = ℕ

abbrev pub Value : Type 0
Value = Option (List ℕ)

pub record Command : Type 0 where
  pub key : Key
  pub value : Value
  pub client_id : NodeId
  pub command_id : ℕ

unfoldable pub is_read : Command → Bool
is_read c = elim c.value [ none ↦ true | some _ ↦ false ]

unfoldable pub is_write : Command → Bool
is_write c = elim c.value [ none ↦ false | some _ ↦ true ]

-- `d.data` holds no nil value, since `put` writes none.
pub record Database : Type 0 where
  pub data_of : List (Key × List ℕ)
  pub version_no : ℕ
  pub multiversion : Bool
  pub history_of : List (Key × List (List ℕ))

unfoldable pub new_database : Bool → Database
new_database multiversion = record {
  data_of = [];
  version_no = 0;
  multiversion = multiversion;
  history_of = [];
}

unfoldable pub get_value : Database → Key → Value
get_value d k = get ℕ_discrete k d.data_of

-- `History`: a missing key reads as the nil slice.
unfoldable pub history : Database → Key → List (List ℕ)
history d k = elim (get ℕ_discrete k d.history_of) [ none ↦ [] | some vs ↦ vs ]

unfoldable pub version : Database → Key → ℕ
version d k = d.version_no

-- `put`, under the lock.
unfoldable pub put_value : Database → Key → Value → Database
unfolding history
put_value d k none = d
put_value d k (some v) = record d {
  data_of = put ℕ_discrete k v d.data_of;
  version_no = d.version_no + 1;
  history_of =
      if d.multiversion
      then put ℕ_discrete k (history d k ++ v ∷ []) d.history_of
      else d.history_of;
}

-- `Execute` answers with the value before.
unfoldable pub execute : Database → Command → Database × Value
execute d c = (put_value d c.key c.value, get_value d c.key)

unfoldable pub conflict : Command → Command → Bool
unfolding is_read
conflict gamma delta =
    if gamma.key == delta.key
    then if not (is_read gamma) || not (is_read delta) then true else false
    else false

-- The inner loop of `ConflictBatch`.
unfoldable pub conflict_any : Command → List Command → Bool
conflict_any c [] = false
conflict_any c (d ∷ ds) = if conflict c d then true else conflict_any c ds

unfoldable pub conflict_batch : List Command → List Command → Bool
conflict_batch [] batch = false
conflict_batch (c ∷ cs) batch = if conflict_any c batch then true else conflict_batch cs batch
