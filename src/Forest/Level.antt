-- ===== src/Forest/Level.antt =====
-- `AddVertex` of blockchain/leveled_forrest.go and the pruning level.
use multipipelinehs.Prelude.{
  ℕ, ◌≡◌, refl, arith, get_elem?, set, ltb, inl, inr, Bool-cases, Option-cases, some,
}
use multipipelinehs.Types.{Identifier, Block, Yields}
use multipipelinehs.Forest.{
  Address, Container, Forest, get_or_create_vertex_container, add_child, register_with_parent,
  parent, add_vertex, create_container,
}

-- Adding a block never moves the pruning level.
get_or_create-lowest :
    (f : Forest) (id : Identifier) (level : ℕ)
    → (get_or_create_vertex_container f id level).0.lowest_level ≡ f.lowest_level
unfolding get_or_create_vertex_container create_container
get_or_create-lowest f id level = ground arith

register_with_parent-lowest :
    (f : Forest) (a : Address) (c : Container) (b : Block)
    → Yields (λ g. g.lowest_level ≡ f.lowest_level) (register_with_parent f a c b)
unfolding register_with_parent add_child parent
register_with_parent-lowest f a c b = elim (Option-cases b.qc) [
  | inl uncertified ↦ ground arith
  | inr (q, certified) ↦ ground (arith, get_or_create-lowest f b.prev_id q.seq)
]

pub add_vertex-lowest :
    (f : Forest) (b : Block) → Yields (λ g. g.lowest_level ≡ f.lowest_level) (add_vertex f b)
unfolding add_vertex
add_vertex-lowest f b = elim (Bool-cases (ltb b.seq f.lowest_level)) [
  | inl old ↦ rw (old, add_vertex) refl
  | inr new ↦
      let r = get_or_create_vertex_container f b.id b.seq in
      elim (Option-cases (get_elem? r.0.containers r.1)) [
        | inl dangling ↦ ground arith
        | inr (c, at) ↦
            let d : Container = record c { vertex = some b } in
            ground (
              arith,
              get_or_create-lowest f b.id b.seq,
              register_with_parent-lowest (record (r.0) { containers = set r.0.containers r.1 d })
                  r.1 d b,
            )
      ]
]
