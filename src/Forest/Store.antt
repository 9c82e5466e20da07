-- ===== src/Forest/Store.antt =====
-- `AddVertex` of blockchain/leveled_forrest.go and its specification, a map from ids to blocks.
use multipipelinehs.Prelude.{
  ◌≡◌, refl, ◌∙◌, false, Option, none, some, [], ◌∷◌, ◌++◌, ℕ_discrete, arith, get_elem?, set,
  get_elem?-set_self, get_elem?-set_ne, lt-length_of_get_elem?, All-get, get, inl, inr,
  Option-cases, Bool-cases, ltb, leb, ◌==◌, if◌then◌else◌,
}
use multipipelinehs.Types.{Identifier, Block, Qc, ok}
use multipipelinehs.Forest.{
  Address, Container, Forest, vertex_at, get_vertex, get_or_create_vertex_container, add_child,
  register_with_parent, parent, add_vertex,
}
use multipipelinehs.Forest.Heap.{IsHeap, Keeps, id_in, set-Keeps, set-IsHeap, get_or_create-Keeps}

Keeps-refl : (f : Forest) → IsHeap f → Keeps f f
Keeps-refl f h = record { heap = h; lowest = refl; stored = λ q. refl }

Keeps-trans : (f g k : Forest) → Keeps f g → Keeps g k → Keeps f k
Keeps-trans f g k a b = record {
  heap = b.heap;
  lowest = b.lowest ∙ a.lowest;
  stored = λ q. b.stored q ∙ a.stored q;
}

-- A container that the map names is on the heap.
container_of :
    (f : Forest) (id : Identifier) (a : Address)
    → IsHeap f
    → get ℕ_discrete id f.vertices ≡ some a
    → (c : Container) × (get_elem? f.containers a ≡ some c) × (c.id ≡ id)
container_of f id a h e = elim (Option-cases (get_elem? f.containers a)) [
  | inl n ↦ absurd (ground (arith, here))
  | inr (c, n) ↦ (c, n, ground (arith, here))
]
  where
    here : id_in f.containers a ≡ some id
    here =
        All-get ℕ_discrete (λ (e : Identifier × Address). id_in f.containers e.1 ≡ some e.0) id
          f.vertices a e h.filed

add_child-Keeps :
    (f : Forest) (id : Identifier) (a child : Address)
    → IsHeap f
    → get ℕ_discrete id f.vertices ≡ some a
    → (g : Forest) × (add_child f a child ≡ ok g) × Keeps f g
unfolding add_child
add_child-Keeps f id a child h e =
    let (c, at, _) = container_of f id a h e in
    let d : Container = record c { children = c.children ++ child ∷ [] } in
    (record f { containers = set f.containers a d }, ground arith, set-Keeps f a c d h at refl refl)

-- The link to the parent stores no block, and cannot fail for a block with a certificate.
register_with_parent-Keeps :
    (f : Forest) (a : Address) (c : Container) (b : Block) (qc : Qc)
    → b.qc ≡ some qc
    → IsHeap f
    → (g : Forest) × (register_with_parent f a c b ≡ ok g) × Keeps f g
unfolding register_with_parent parent
register_with_parent-Keeps f a c b qc e h = elim (Bool-cases (leb c.level f.lowest_level)) [
  | inl root ↦ (f, ground arith, Keeps-refl f h)
  | inr above ↦ elim (Bool-cases (ltb qc.seq f.lowest_level)) [
    | inl pruned ↦ (f, ground arith, Keeps-refl f h)
    | inr kept ↦
        let r = get_or_create_vertex_container f b.prev_id qc.seq in
        let (k, at) = get_or_create-Keeps f b.prev_id qc.seq h in
        let (g, e', k') = add_child-Keeps r.0 b.prev_id r.1 a k.heap at in
        (g, ground arith, Keeps-trans f r.0 g k k')
  ]
]

-- What is stored under an id after a block was added.
abbrev pub after_add : Forest → Block → Identifier → Option Block
after_add f b q =
    if ltb b.seq f.lowest_level
    then get_vertex f q
    else if q == b.id
    then elim (get_vertex f q) [ none ↦ some b | some old ↦ some old ]
    else get_vertex f q

fill_lem :
    (f : Forest) (a : Address) (c : Container) (b : Block)
    → IsHeap f
    → get ℕ_discrete b.id f.vertices ≡ some a
    → get_elem? f.containers a ≡ some c
    → c.id ≡ b.id
    → (q : Identifier)
    → get_vertex (record f { containers = set f.containers a (record c { vertex = some b }) }) q
      ≡ (if q == b.id then some b else get_vertex f q)
unfolding get_vertex vertex_at
fill_lem f a c b h e at same q = elim (Option-cases (get ℕ_discrete q f.vertices)) [
  | inl n ↦ ground arith
  | inr (j, n) ↦
      let (d, at', same') = container_of f q j h n in
      ground (
        arith,
        get_elem?-set_self f.containers a (record c { vertex = some b }),
        get_elem?-set_ne f.containers a j (record c { vertex = some b }),
        lt-length_of_get_elem? f.containers a c at,
      )
]

-- What adding a block gives.
pub record Adds (f : Forest) (b : Block) (g : Forest) : Type 0 where
  pub heap : IsHeap g
  pub lowest : g.lowest_level ≡ f.lowest_level
  pub stored : (q : Identifier) → get_vertex g q ≡ after_add f b q

vertex_of :
    (f : Forest) (id : Identifier) (a : Address) (c : Container)
    → get ℕ_discrete id f.vertices ≡ some a
    → get_elem? f.containers a ≡ some c
    → get_vertex f id ≡ c.vertex
unfolding get_vertex vertex_at
vertex_of f id a c e at = ground arith

-- The container of the block is already full.
add_vertex_known :
    (f : Forest) (b old : Block)
    → (let r = get_or_create_vertex_container f b.id b.seq in
        (c : Container)
        → ltb b.seq f.lowest_level ≡ false
        → Keeps f r.0
        → get ℕ_discrete b.id r.0.vertices ≡ some r.1
        → get_elem? r.0.containers r.1 ≡ some c
        → c.vertex ≡ some old
        → (add_vertex f b ≡ ok r.0) × Adds f b r.0)
unfolding add_vertex
add_vertex_known f b old c new k at here full =
    let r = get_or_create_vertex_container f b.id b.seq in
    (
      ground arith,
      record {
        heap = k.heap;
        lowest = k.lowest;
        stored = λ q. ground (arith, k.stored q, vertex_of r.0 b.id r.1 c at here);
      },
    )

-- The container is empty: it is filled and linked.
add_vertex_new :
    (f : Forest) (b : Block) (qc : Qc)
    → (let r = get_or_create_vertex_container f b.id b.seq in
        (c : Container)
        → b.qc ≡ some qc
        → ltb b.seq f.lowest_level ≡ false
        → Keeps f r.0
        → get ℕ_discrete b.id r.0.vertices ≡ some r.1
        → get_elem? r.0.containers r.1 ≡ some c
        → c.id ≡ b.id
        → c.vertex ≡ none
        → (g : Forest) × (add_vertex f b ≡ ok g) × Adds f b g)
unfolding add_vertex
add_vertex_new f b qc c certified new k at here same empty =
    let r = get_or_create_vertex_container f b.id b.seq in
    let d : Container = record c { vertex = some b } in
    let f' = record (r.0) { containers = set r.0.containers r.1 d } in
    let (g, e, k') =
      register_with_parent-Keeps f' r.1 d b qc certified
        (set-IsHeap r.0 r.1 c d k.heap here refl) in
    (
      g,
      ground arith,
      record {
        heap = k'.heap;
        lowest = k'.lowest ∙ k.lowest;
        stored = λ q. ground (
          arith,
          k'.stored q,
          fill_lem r.0 r.1 c b k.heap at here same q,
          k.stored q,
          vertex_of r.0 b.id r.1 c at here,
        );
      },
    )

-- On a well-formed heap, adding a block that has a certificate succeeds and keeps the heap well
-- formed and the pruning level; afterwards each id finds the block that it found before, but the
-- id of the new block finds the new block if it found none and the level of the block is not
-- pruned.
pub add_vertex-Adds :
    (f : Forest) (b : Block) (qc : Qc)
    → b.qc ≡ some qc
    → IsHeap f
    → (g : Forest) × (add_vertex f b ≡ ok g) × Adds f b g
unfolding add_vertex
add_vertex-Adds f b qc certified h = elim (Bool-cases (ltb b.seq f.lowest_level)) [
  | inl old ↦ (f, ground arith, record { heap = h; lowest = refl; stored = λ q. ground arith })
  | inr new ↦
      let r = get_or_create_vertex_container f b.id b.seq in
      let (k, at) = get_or_create-Keeps f b.id b.seq h in
      let (c, here, same) = container_of r.0 b.id r.1 k.heap at in
      elim (Option-cases c.vertex) [
        | inl empty ↦ add_vertex_new f b qc c certified new k at here same empty
        | inr (x, full) ↦
            let (e, adds) = add_vertex_known f b x c new k at here full in (r.0, e, adds)
      ]
]
