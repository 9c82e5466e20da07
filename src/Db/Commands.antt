-- ===== src/Db/Commands.antt =====
-- `Empty` and `Equal` of the commands of db/db.go.
use multipipelinehs.Prelude.{ℕ, Bool, true, false, ◌&&◌, none, some, List, [], ◌==◌}
use multipipelinehs.Types.{node_id_discrete}
use multipipelinehs.Db.{Command, Value}

-- Equality of byte strings; `bytes.Equal` reads nil as the empty slice.
unfoldable pub same_bytes : List ℕ → List ℕ → Bool
same_bytes a b = elim (node_id_discrete a b) [ yes _ ↦ true | no _ ↦ false ]

unfoldable pub bytes_of : Value → List ℕ
bytes_of v = elim v [ none ↦ [] | some bs ↦ bs ]

unfoldable pub empty : Command → Bool
empty c = elim c.value [
  | none ↦ (c.key == 0) && same_bytes c.client_id [] && (c.command_id == 0)
  | some _ ↦ false
]

unfoldable pub equal : Command → Command → Bool
equal c a =
    (c.key == a.key)
    && same_bytes (bytes_of c.value) (bytes_of a.value)
    && same_bytes c.client_id a.client_id
    && (c.command_id == a.command_id)
