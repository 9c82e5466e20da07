-- ===== src/Forest/Heap.antt =====
-- The heap of containers of blockchain/leveled_forrest.go: which pointers the maps may hold, and the
-- small steps of `AddVertex`.
use multipipelinehs.Prelude.{
  ℕ, zero, suc, ◌<◌, ◌≡◌, refl, ◌∙◌, Option, none, some, List, [], ◌∷◌, ◌++◌, ℕ_discrete, arith,
  length, length-append, length-set, get_elem?, set, get_elem?-append_left, get_elem?-append_length,
  get_elem?-set_self, get_elem?-set_ne, lt-length_of_get_elem?, All, All-mono, All-append, All-put,
  All-get, get, get-put, get-put_self, inl, inr, Option-cases,
}
use multipipelinehs.Types.{Identifier}
use multipipelinehs.Forest.{
  Address, Container, Forest, vertex_at, get_vertex, at_level, create_container,
  get_or_create_vertex_container, new_forest,
}

abbrev pub id_in : List Container → Address → Option Identifier
id_in cs a = elim (get_elem? cs a) [ none ↦ none | some c ↦ some c.id ]

-- Every id points to a container with that id, and every level to containers on the heap.
pub record IsHeap (f : Forest) : Type 0 where
  pub filed : All (λ (e : Identifier × Address). id_in f.containers e.1 ≡ some e.0) f.vertices
  pub levels :
      All (λ (e : ℕ × List Address). All (λ a. a < length f.containers) e.1) f.vertices_at_level

pub new_forest-IsHeap : IsHeap new_forest
unfolding new_forest
new_forest-IsHeap = record { filed = tt; levels = tt }

-- What stays when a step adds or changes containers, but stores no block.
pub record Keeps (f g : Forest) : Type 0 where
  pub heap : IsHeap g
  pub lowest : g.lowest_level ≡ f.lowest_level
  pub stored : (q : Identifier) → get_vertex g q ≡ get_vertex f q

lt_of_id_in :
    (cs : List Container) (a : Address) (id : Identifier) → id_in cs a ≡ some id → a < length cs
lt_of_id_in cs a id h = elim (Option-cases (get_elem? cs a)) [
  | inl e ↦ absurd (ground arith)
  | inr (c, e) ↦ lt-length_of_get_elem? cs a c e
]

id_in-append :
    (cs : List Container) (c : Container) (a : Address) (id : Identifier)
    → id_in cs a ≡ some id
    → id_in (cs ++ c ∷ []) a ≡ some id
id_in-append cs c a id h =
    ground (arith, get_elem?-append_left cs (c ∷ []) a (lt_of_id_in cs a id h))

-- A container that is replaced by one with the same id.
pub id_in-set :
    (cs : List Container) (a : Address) (c d : Container) (j : Address)
    → get_elem? cs a ≡ some c
    → d.id ≡ c.id
    → id_in (set cs a d) j ≡ id_in cs j
id_in-set [] a c d j e h = refl
id_in-set (x ∷ cs) zero c d zero e h = ground arith
id_in-set (x ∷ cs) zero c d (suc j) e h = refl
id_in-set (x ∷ cs) (suc a) c d zero e h = refl
id_in-set (x ∷ cs) (suc a) c d (suc j) e h = id_in-set cs a c d j e h

pub set-IsHeap :
    (f : Forest) (a : Address) (c d : Container)
    → IsHeap f
    → get_elem? f.containers a ≡ some c
    → d.id ≡ c.id
    → IsHeap (record f { containers = set f.containers a d })
set-IsHeap f a c d h e same = record {
  filed = All-mono _ _ f.vertices (λ p k. id_in-set f.containers a c d p.1 e same ∙ k) h.filed;
  levels =
      All-mono _ _ f.vertices_at_level
        (λ p k. All-mono _ _ p.1 (λ j lt. rw (length-set f.containers a d) lt) k) h.levels;
}

vertex_in-set :
    (f : Forest) (a : Address) (c d : Container) (j : Address)
    → get_elem? f.containers a ≡ some c
    → d.vertex ≡ c.vertex
    → vertex_at (record f { containers = set f.containers a d }) j ≡ vertex_at f j
unfolding vertex_at
vertex_in-set f a c d j e h = elim (ℕ_discrete a j) [
  | yes same ↦
      ground (arith, get_elem?-set_self f.containers a d, lt-length_of_get_elem? f.containers a c e)
  | no other ↦ ground (arith, get_elem?-set_ne f.containers a j d other)
]

pub set-Keeps :
    (f : Forest) (a : Address) (c d : Container)
    → IsHeap f
    → get_elem? f.containers a ≡ some c
    → d.id ≡ c.id
    → d.vertex ≡ c.vertex
    → Keeps f (record f { containers = set f.containers a d })
unfolding get_vertex
set-Keeps f a c d h e same v = record {
  heap = set-IsHeap f a c d h e same;
  lowest = refl;
  stored = λ q. elim (Option-cases (get ℕ_discrete q f.vertices)) [
    | inl n ↦ rw (n, get_vertex)
    | inr (j, n) ↦ rw (n, get_vertex) (vertex_in-set f a c d j e v)
  ];
}

-- The containers of a level stand on the heap.
pub level-All : (f : Forest) (l : ℕ) → IsHeap f → All (λ a. a < length f.containers) (at_level f l)
unfolding at_level
level-All f l h = elim (Option-cases (get ℕ_discrete l f.vertices_at_level)) [
  | inl e ↦ rw (e, at_level) tt
  | inr (vs, e) ↦ rw (e, at_level) (All-get ℕ_discrete _ l f.vertices_at_level vs e h.levels)
]

create_container-IsHeap :
    (f : Forest) (id : Identifier) (level : ℕ) → IsHeap f → IsHeap (create_container f id level)
unfolding create_container at_level
create_container-IsHeap f id level h = record {
  filed =
      All-put ℕ_discrete _ id _ f.vertices (ground (arith, get_elem?-append_length f.containers c))
        (All-mono _ _ f.vertices (λ p k. id_in-append f.containers c p.1 p.0 k) h.filed);
  levels =
      All-put ℕ_discrete _ level _ f.vertices_at_level
        (All-append _ (at_level f level) _ (All-mono _ _ _ grow (level-All f level h)) (new, tt))
        (All-mono _ _ f.vertices_at_level (λ p k. All-mono _ _ p.1 grow k) h.levels);
}
  where
    c : Container
    c = record { id = id; level = level; children = []; vertex = none }

    grow : (a : Address) → a < length f.containers → a < length (f.containers ++ c ∷ [])
    grow a lt = omega (arith, length-append f.containers (c ∷ []))

    new : length f.containers < length (f.containers ++ c ∷ [])
    new = omega (arith, length-append f.containers (c ∷ []))

-- A new container is empty, and its address is new.
create_container-Keeps :
    (f : Forest) (id : Identifier) (level : ℕ)
    → IsHeap f
    → get ℕ_discrete id f.vertices ≡ none
    → Keeps f (create_container f id level)
unfolding create_container get_vertex vertex_at
create_container-Keeps f id level h n = record {
  heap = create_container-IsHeap f id level h;
  lowest = refl;
  stored = λ q. elim (ℕ_discrete id q) [
    | yes same ↦ ground (
      arith,
      get-put ℕ_discrete id q (length f.containers) f.vertices,
      get_elem?-append_length f.containers
          (record { id = id; level = level; children = []; vertex = none }),
    )
    | no other ↦ elim (Option-cases (get ℕ_discrete q f.vertices)) [
      | inl e ↦ ground (arith, get-put ℕ_discrete id q (length f.containers) f.vertices)
      | inr (a, e) ↦ ground (
        arith,
        get-put ℕ_discrete id q (length f.containers) f.vertices,
        get_elem?-append_left f.containers
            (record { id = id; level = level; children = []; vertex = none } ∷ []) a
            (lt_of_id_in f.containers a q (
              All-get ℕ_discrete (λ (e : Identifier × Address). id_in f.containers e.1 ≡ some e.0) q
                f.vertices a e h.filed)),
      )
    ]
  ];
}

created :
    (f : Forest) (id : Identifier) (level : ℕ)
    → get ℕ_discrete id (create_container f id level).vertices ≡ some (length f.containers)
unfolding create_container
created f id level = get-put_self ℕ_discrete id (length f.containers) f.vertices

-- `getOrCreateVertexContainer` stores no block, and answers with the container of the id.
pub get_or_create-Keeps :
    (f : Forest) (id : Identifier) (level : ℕ)
    → IsHeap f
    → Keeps f (get_or_create_vertex_container f id level).0
      × (get ℕ_discrete id (get_or_create_vertex_container f id level).0.vertices
          ≡ some (get_or_create_vertex_container f id level).1)
unfolding get_or_create_vertex_container
get_or_create-Keeps f id level h = elim (Option-cases (get ℕ_discrete id f.vertices)) [
  | inl e ↦ rw (e, get_or_create_vertex_container) (create_container-Keeps f id level h e, here)
  | inr (a, e) ↦
      rw (e, get_or_create_vertex_container)
        (record { heap = h; lowest = refl; stored = λ q. refl }, e)
]
  where
    here : get ℕ_discrete id (create_container f id level).vertices ≡ some (length f.containers)
    here = created f id level
