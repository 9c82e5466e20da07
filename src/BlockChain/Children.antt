-- ===== src/BlockChain/Children.antt =====
-- The iterators of blockchain/vertex.go, and the children that blockchain/blockchain.go reads off one.
use multipipelinehs.Prelude.{
  ℕ, suc, zero, ◌≤◌, ◌≡◌, refl, ap, ◌∙◌, none, some, List, [], ◌∷◌, arith, length, inl, inr,
  Option-cases, ℕ_discrete, get, get_elem?,
}
use multipipelinehs.Types.{Identifier, Block, ok, ◌>>=◌}
use multipipelinehs.Forest.{Address, Forest, vertex_at}
use multipipelinehs.Forest.Iterator.{
  pre_load, new_vertex_iterator, get_children, count_full, get_number_of_children, drain,
}
use multipipelinehs.BlockChain.{BlockChain, get_children_blocks}

-- The blocks of the full containers, in order.
unfoldable pub full_blocks : Forest → List Address → List Block
full_blocks f [] = []
full_blocks f (a ∷ rest) =
    let later = full_blocks f rest in elim (vertex_at f a) [ none ↦ later | some b ↦ b ∷ later ]

length-full_blocks : (f : Forest) (vs : List Address) → length (full_blocks f vs) ≡ count_full f vs
unfolding full_blocks count_full
length-full_blocks f [] = refl
length-full_blocks f (a ∷ rest) = ground (arith, length-full_blocks f rest)

pre_load-full :
    (f : Forest) (a : Address) (rest : List Address) (b : Block)
    → vertex_at f a ≡ some b
    → pre_load f (a ∷ rest) ≡ record { left = rest; next = some b }
unfolding pre_load
pre_load-full f a rest b full = ground arith

full_blocks-full :
    (f : Forest) (a : Address) (rest : List Address) (b : Block)
    → vertex_at f a ≡ some b
    → full_blocks f (a ∷ rest) ≡ b ∷ full_blocks f rest
unfolding full_blocks
full_blocks-full f a rest b full = ground arith

pre_load-vacant :
    (f : Forest) (a : Address) (rest : List Address)
    → vertex_at f a ≡ none
    → pre_load f (a ∷ rest) ≡ pre_load f rest
unfolding pre_load
pre_load-vacant f a rest vacant = ground arith

full_blocks-vacant :
    (f : Forest) (a : Address) (rest : List Address)
    → vertex_at f a ≡ none
    → full_blocks f (a ∷ rest) ≡ full_blocks f rest
unfolding full_blocks
full_blocks-vacant f a rest vacant = ground arith

-- A bound from the number of full containers on is enough for the loop over an iterator.
drain-full_blocks :
    (n : ℕ) (f : Forest) (vs : List Address)
    → length (full_blocks f vs) ≤ n
    → drain n f (pre_load f vs) ≡ full_blocks f vs
unfolding drain pre_load full_blocks
drain-full_blocks zero f [] h = refl
drain-full_blocks (suc n) f [] h = refl
drain-full_blocks n f (a ∷ rest) h = elim (Option-cases (vertex_at f a)) [
  | inl vacant ↦
      rw (pre_load-vacant f a rest vacant, full_blocks-vacant f a rest vacant)
        (drain-full_blocks n f rest (ground arith))
  | inr (b, full) ↦ some_left (λ k. drain-full_blocks k f rest) n b full (ground arith)
]
  where
    some_left :
        ((k : ℕ)
          → length (full_blocks f rest) ≤ k
          → drain k f (pre_load f rest) ≡ full_blocks f rest)
        → (k : ℕ) (b : Block) → vertex_at f a ≡ some b
        → suc (length (full_blocks f rest)) ≤ k
        → drain k f (pre_load f (a ∷ rest)) ≡ full_blocks f (a ∷ rest)
    some_left again zero b full few = absurd (omega arith)
    some_left again (suc k) b full few =
        rw (pre_load-full f a rest b full, full_blocks-full f a rest b full)
          (ap (b ∷◌) (again k (omega arith)))

full_blocks-le :
    (f : Forest) (vs : List Address) → length (full_blocks f vs) ≤ suc (length (pre_load f vs).left)
unfolding full_blocks pre_load
full_blocks-le f [] = omega arith
full_blocks-le f (a ∷ rest) = ground (arith, full_blocks-le f rest, fits f rest)
  where
    fits : (f : Forest) (vs : List Address) → length (full_blocks f vs) ≤ length vs
    fits f [] = omega arith
    fits f (a ∷ rest) = ground (arith, fits f rest)

-- The loop of GetChildrenBlocks ends within the bound that is chosen, and finds the blocks of the full
-- containers.
drained :
    (f : Forest) (vs : List Address)
    → drain (suc (length (new_vertex_iterator f vs).left)) f (new_vertex_iterator f vs)
      ≡ full_blocks f vs
unfolding new_vertex_iterator
drained f vs = drain-full_blocks _ f vs (full_blocks-le f vs)

-- For any id, GetNumberOfChildren ends as GetChildrenBlocks does, and counts the blocks that it finds.
pub get_children_blocks-get_number_of_children :
    (bc : BlockChain) (id : Identifier)
    → (get_children_blocks bc id >>= λ blocks. ok (length blocks))
      ≡ get_number_of_children bc.forrest id
unfolding get_children_blocks get_children get_number_of_children
get_children_blocks-get_number_of_children bc id =
    elim (Option-cases (get ℕ_discrete id bc.forrest.vertices)) [
      | inl unknown ↦ rw unknown refl
      | inr (a, known) ↦ elim (Option-cases (get_elem? bc.forrest.containers a)) [
        | inl gone ↦ rw (known, gone) refl
        | inr (c, there) ↦
            rw (known, there)
              (ap (λ blocks. ok (length blocks)) (drained bc.forrest c.children)
                ∙ ap ok (length-full_blocks bc.forrest c.children))
      ]
    ]
