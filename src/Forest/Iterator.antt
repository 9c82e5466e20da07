-- ===== src/Forest/Iterator.antt =====
-- `VertexIterator` of blockchain/vertex.go, and the methods of the forest that hand one out.
use multipipelinehs.Prelude.{
  ℕ, suc, zero, Bool, true, false, Option, none, some, List, [], ◌∷◌, ℕ_discrete, get, get_elem?,
}
use multipipelinehs.Types.{Identifier, Block, Result, ok, ◌>>=◌, deref}
use multipipelinehs.Forest.{Address, Forest, vertex_at, at_level}

-- `data` from `idx` on, and the look-ahead.
pub record VertexIterator : Type 0 where
  pub left : List Address
  pub next : Option Block

unfoldable pub pre_load : Forest → List Address → VertexIterator
unfolding vertex_at
pre_load f [] = record { left = []; next = none }
pre_load f (a ∷ rest) =
    let later = pre_load f rest in
    elim (vertex_at f a) [ none ↦ later | some b ↦ record { left = rest; next = some b } ]

unfoldable pub new_vertex_iterator : Forest → List Address → VertexIterator
unfolding pre_load
new_vertex_iterator f vs = pre_load f vs

unfoldable pub next_vertex : Forest → VertexIterator → VertexIterator × Option Block
unfolding pre_load
next_vertex f it = (pre_load f it.left, it.next)

unfoldable pub has_next : VertexIterator → Bool
has_next it = elim it.next [ none ↦ false | some _ ↦ true ]

-- `GetChildren`: an unknown id leaves a nil container, whose field is read.
unfoldable pub get_children : Forest → Identifier → Result VertexIterator
unfolding new_vertex_iterator
get_children f id = do
  a ← deref (get ℕ_discrete id f.vertices)
  c ← deref (get_elem? f.containers a)
  ok (new_vertex_iterator f c.children)

unfoldable pub get_vertices_at_level : Forest → ℕ → VertexIterator
unfolding new_vertex_iterator at_level
get_vertices_at_level f level = new_vertex_iterator f (at_level f level)

-- The loops that count the full containers of a slice.
unfoldable pub count_full : Forest → List Address → ℕ
unfolding vertex_at
count_full f [] = 0
count_full f (a ∷ rest) =
    let n = count_full f rest in elim (vertex_at f a) [ none ↦ n | some _ ↦ suc n ]

unfoldable pub get_number_of_children : Forest → Identifier → Result ℕ
unfolding count_full
get_number_of_children f id = do
  a ← deref (get ℕ_discrete id f.vertices)
  c ← deref (get_elem? f.containers a)
  ok (count_full f c.children)

unfoldable pub get_number_of_vertices_at_level : Forest → ℕ → ℕ
unfolding count_full at_level
get_number_of_vertices_at_level f level = count_full f (at_level f level)

-- The loop `for I := iterator; I.HasNext(); { … I.NextVertex() … }`.
unfoldable pub drain : ℕ → Forest → VertexIterator → List Block
unfolding next_vertex has_next
drain zero f it = []
drain (suc fuel) f it = elim it.next [ none ↦ [] | some b ↦ b ∷ drain fuel f (pre_load f it.left) ]
