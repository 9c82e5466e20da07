-- ===== src/Tests/Store.antt =====
-- A small store and its batches.
use multipipelinehs.Prelude.{
  ℕ, ◌≡◌, refl, true, false, none, some, List, [], ◌∷◌, get, put, ℕ_discrete,
}
use multipipelinehs.Db.{
  Command, Database, new_database, get_value, history, put_value, execute, conflict, conflict_any,
  conflict_batch, is_read,
}
use multipipelinehs.Db.Reorder.{Same, execute_all, conflict_batch-Same}
use multipipelinehs.Db.Versions.{IsVersioned, start, next, puts, executes, Reach-IsVersioned}

abbrev write : ℕ → ℕ → Command
write key byte = record { key = key; value = some (byte ∷ []); client_id = []; command_id = 0 }

abbrev read : ℕ → Command
read key = record { key = key; value = none; client_id = []; command_id = 0 }

abbrev store : Database
store = put_value (new_database true) 3 (some (b'a' ∷ []))

abbrev first_batch : List Command
first_batch = write 1 b'b' ∷ read 2 ∷ []

abbrev second_batch : List Command
second_batch = read 2 ∷ write 3 b'c' ∷ []

no_conflict : conflict_batch first_batch second_batch ≡ false
unfolding conflict_batch conflict_any conflict is_read
no_conflict = refl

a_conflict : conflict_batch (write 3 b'b' ∷ []) second_batch ≡ true
unfolding conflict_batch conflict_any conflict is_read
a_conflict = refl

value_before : (execute store (write 3 b'c')).1 ≡ some (b'a' ∷ [])
unfolding execute get_value put_value new_database get put ℕ_discrete history
value_before = refl

conflict_batch-Same_example :
    Same
      (execute_all (execute_all store first_batch) second_batch)
      (execute_all (execute_all store second_batch) first_batch)
conflict_batch-Same_example = conflict_batch-Same store first_batch second_batch no_conflict

Reach-IsVersioned_example : IsVersioned (execute store (write 3 b'c')).0
Reach-IsVersioned_example =
    Reach-IsVersioned (next (next start (puts 3 (some (b'a' ∷ [])))) (executes (write 3 b'c')))
