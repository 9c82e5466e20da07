-- ===== src/Forest.antt =====
-- blockchain/leveled_forrest.go, blockchain/vertex.go and blockchain/container.go: the block tree.
--
-- A vertex container is shared: the map by id, the list of its level and its parent's children point
-- at the same one, which is filled after they were made. So containers stand on a heap, addressed by
-- their place in it. A vertex is a block (`BlockContainer`). The mutex makes each method one step.
pub mod Prune
pub mod Iterator
pub mod Verify
pub mod Heap
pub mod Store
pub mod Level
pub mod Pruned
use multipipelinehs.Prelude.{
  ℕ, ◌+◌, Bool, true, false, Option, none, some, List, [], ◌∷◌, ◌++◌, ℕ_discrete, ltb, leb,
  if◌then◌else◌, length, get, put, delete, get_elem?, set,
}
use multipipelinehs.Types.{Identifier, Block, Qc, Result, ok, fault, panic, ◌>>=◌, deref}

abbrev pub Address : Type 0
Address = ℕ

pub record Container : Type 0 where
  pub id : Identifier
  pub level : ℕ
  pub children : List Address
  pub vertex : Option Block

pub record Forest : Type 0 where
  pub containers : List Container
  pub vertices : List (Identifier × Address)
  pub vertices_at_level : List (ℕ × List Address)
  pub lowest_level : ℕ

unfoldable pub new_forest : Forest
new_forest = record { containers = []; vertices = []; vertices_at_level = []; lowest_level = 0 }

-- `Parent`, which reads the sequence number of the block's certificate.
unfoldable pub parent : Block → Result (Identifier × ℕ)
parent b = do qc ← deref b.qc; ok (b.prev_id, qc.seq)

-- The vertex behind a pointer to a container.
unfoldable pub vertex_at : Forest → Address → Option Block
vertex_at f a = elim (get_elem? f.containers a) [ none ↦ none | some c ↦ c.vertex ]

unfoldable pub get_vertex : Forest → Identifier → Option Block
get_vertex f id = elim (get ℕ_discrete id f.vertices) [ none ↦ none | some a ↦ vertex_at f a ]

unfoldable pub has_vertex : Forest → Identifier → Bool
has_vertex f id = elim (get_vertex f id) [ none ↦ false | some _ ↦ true ]

unfoldable pub delete_vertice : Forest → Identifier → Forest
delete_vertice f id = record f { vertices = delete ℕ_discrete id f.vertices }

-- The containers of a level; a missing level reads as the nil slice.
unfoldable pub at_level : Forest → ℕ → List Address
at_level f l = elim (get ℕ_discrete l f.vertices_at_level) [ none ↦ [] | some vs ↦ vs ]

-- A new empty container at the end of the heap, under its id and at the end of its level.
unfoldable pub create_container : Forest → Identifier → ℕ → Forest
create_container f id level =
    let a = length f.containers in
    let c : Container = record { id = id; level = level; children = []; vertex = none } in
    record f {
      containers = f.containers ++ c ∷ [];
      vertices = put ℕ_discrete id a f.vertices;
      vertices_at_level = put ℕ_discrete level (at_level f level ++ a ∷ []) f.vertices_at_level;
    }

unfoldable pub get_or_create_vertex_container : Forest → Identifier → ℕ → Forest × Address
get_or_create_vertex_container f id level = elim (get ℕ_discrete id f.vertices) [
  | none ↦ (create_container f id level, length f.containers)
  | some a ↦ (f, a)
]

-- `container.children = append(container.children, child)`
unfoldable pub add_child : Forest → Address → Address → Result Forest
add_child f a child = do
  c ← deref (get_elem? f.containers a)
  ok (record f {
    containers = set f.containers a (record c { children = c.children ++ child ∷ [] });
  })

-- `registerWithParent`, of a container that the caller has just filled with the block.
unfoldable pub register_with_parent : Forest → Address → Container → Block → Result Forest
register_with_parent f a c b = if leb c.level f.lowest_level then ok f else do
  (parent_id, parent_seq) ← parent b
  if ltb parent_seq f.lowest_level
      then ok f
      else let (f', p) = get_or_create_vertex_container f parent_id parent_seq in add_child f' p a

unfoldable pub add_vertex : Forest → Block → Result Forest
add_vertex f b =
    if ltb b.seq f.lowest_level
    then ok f
    else let (f', a) = get_or_create_vertex_container f b.id b.seq in
      do
        c ← deref (get_elem? f'.containers a)
        elim c.vertex [
          | some _ ↦ ok f'
          | none ↦
              let filled : Container = record c { vertex = some b } in
              register_with_parent (record f' { containers = set f'.containers a filled }) a filled
                b
        ]
