-- ===== src/Tests/Chain.antt =====
-- A tree of three blocks, and its commit in two parts.
use multipipelinehs.Prelude.{
  ℕ, ◌<◌, ◌≡◌, ◌≢◌, refl, Option, none, some, List, [], ◌∷◌, arith, All, All-get, ℕ_discrete, get,
  put, delete, inl, inr, Option-cases,
}
use multipipelinehs.Types.{
  Seq, Identifier, Block, zero_qc, zero_block, Result, ok, fault, diverged, ◌>>=◌,
}
use multipipelinehs.Quorum.{votes_exist, remove_vote}
use multipipelinehs.Forest.{
  Address, Container, Forest, new_forest, vertex_at, get_vertex, at_level, add_vertex, parent,
  create_container, get_or_create_vertex_container, add_child, register_with_parent, delete_vertice,
}
use multipipelinehs.Forest.Prune.{
  first_at_level, parent_level, committed_levels, is_committed, prune_container, prune_containers,
  prune_level, prune_levels, prune_up_to_level,
}
use multipipelinehs.Forest.Heap.{IsHeap}
use multipipelinehs.Forest.Store.{Adds, add_vertex-Adds}
use multipipelinehs.BlockChain.{BlockChain, count_committed, committed_branch, commit_block}
use multipipelinehs.BlockChain.Commit.{IsFalling, Commits, commit_block-Commits, commit_block_once}
use multipipelinehs.BlockChain.Termination.{IsOrdered, commit_block-ne-diverged}
use multipipelinehs.Prelude.Int.{pos, diff, ◌+ℤ◌}

-- A block whose id is its sequence number.
abbrev pub block : Seq → Seq → Block
block seq parent_seq = record zero_block {
  seq = seq;
  view = seq;
  id = seq;
  prev_id = parent_seq;
  qc = some (record zero_qc { seq = parent_seq; view = parent_seq; block_id = parent_seq });
}

abbrev container : Seq → List Address → Option Block → Container
container seq children vertex = record {
  id = seq;
  level = seq;
  children = children;
  vertex = vertex;
}

abbrev pub tree : Forest
tree = record {
  containers =
      container 2 (2 ∷ []) (some (block 2 0))
      ∷ container 0 (0 ∷ []) none
      ∷ container 4 (3 ∷ []) (some (block 4 2))
      ∷ container 6 [] (some (block 6 4))
      ∷ [];
  vertices = (2, 0) ∷ (0, 1) ∷ (4, 2) ∷ (6, 3) ∷ [];
  vertices_at_level = (2, 0 ∷ []) ∷ (0, 1 ∷ []) ∷ (4, 2 ∷ []) ∷ (6, 3 ∷ []) ∷ [];
  lowest_level = 0;
}

abbrev built : Result Forest
built = do
  f ← add_vertex new_forest (block 2 0)
  g ← add_vertex f (block 4 2)
  add_vertex g (block 6 4)

tree_built : built ≡ ok tree
unfolding new_forest add_vertex create_container get_or_create_vertex_container add_child
    register_with_parent parent at_level get put ℕ_discrete
tree_built = refl

abbrev chain : BlockChain
chain = record {
  forrest = tree;
  quorum = record { total = 4; votes = [] };
  highest_comitted = 0;
  committed_block_no = 0;
  total_block_intervals = pos 0;
  pruned_block_no = 0;
}

abbrev pub pruned_tree : Forest
pruned_tree = record tree {
  vertices = (4, 2) ∷ (6, 3) ∷ [];
  vertices_at_level = (4, 2 ∷ []) ∷ (6, 3 ∷ []) ∷ [];
  lowest_level = 4;
}

commit_four :
    commit_block chain 4 7
    ≡ ok (
      record chain {
        forrest = pruned_tree;
        highest_comitted = 4;
        committed_block_no = 2;
        total_block_intervals = pos 8;
        pruned_block_no = 2;
      },
      some (block 4 2 ∷ block 2 0 ∷ [], []),
    )
unfolding commit_block committed_branch count_committed prune_up_to_level committed_levels
    parent_level first_at_level prune_levels prune_level prune_containers prune_container
    is_committed delete_vertice get_vertex vertex_at at_level parent get put delete ℕ_discrete
    votes_exist remove_vote diff ◌+ℤ◌
commit_four = refl

-- That each parent is lower, entry by entry of the tree's maps.
abbrev FallsAt : Forest → Address → Type 0
FallsAt f a = elim (vertex_at f a) [
  | none ↦ Unit {0}
  | some b ↦ elim (get_vertex f b.prev_id) [ none ↦ Unit {0} | some p ↦ p.seq < b.seq ]
]

abbrev LevelFallsAt : Forest → ℕ × List Address → Type 0
LevelFallsAt f (l, []) = Unit {0}
LevelFallsAt f (l, (a ∷ more)) = elim (vertex_at f a) [
  | none ↦ Unit {0}
  | some b ↦ elim (get_vertex f b.prev_id) [ none ↦ Unit {0} | some p ↦ p.seq < l ]
]

IsFalling-of_All :
    (f : Forest) → All (λ (e : Identifier × Address). FallsAt f e.1) f.vertices → IsFalling f
unfolding get_vertex
IsFalling-of_All f h q b p here found = elim (Option-cases (get ℕ_discrete q f.vertices)) [
  | inl n ↦ absurd (ground arith)
  | inr (a, n) ↦
      ground
        (arith, All-get ℕ_discrete (λ (e : Identifier × Address). FallsAt f e.1) q f.vertices a n h)
]

levels_of_All :
    (f : Forest)
    → All (LevelFallsAt f) f.vertices_at_level
    → (l : ℕ) (b p : Block) → first_at_level f l ≡ ok b
    → get_vertex f b.prev_id ≡ some p
    → p.seq < l
unfolding first_at_level at_level
levels_of_All f h l b p here found = elim (Option-cases (get ℕ_discrete l f.vertices_at_level)) [
  | inl n ↦ absurd (ground arith)
  | inr (vs, n) ↦ ground (arith, All-get ℕ_discrete (LevelFallsAt f) l f.vertices_at_level vs n h)
]

tree-IsFalling : IsFalling tree
unfolding get_vertex vertex_at get ℕ_discrete
tree-IsFalling = IsFalling-of_All tree (tt, (tt, (omega arith, (omega arith, tt))))

pruned_tree-IsFalling : IsFalling pruned_tree
unfolding get_vertex vertex_at get ℕ_discrete
pruned_tree-IsFalling = IsFalling-of_All pruned_tree (tt, (omega arith, tt))

tree-IsOrdered : IsOrdered tree
unfolding get_vertex vertex_at get ℕ_discrete
tree-IsOrdered = record {
  falls = tree-IsFalling;
  levels = levels_of_All tree (tt, (tt, (omega arith, (omega arith, tt))));
}

abbrev chain_after : BlockChain
chain_after = record chain {
  forrest = pruned_tree;
  highest_comitted = 4;
  committed_block_no = 2;
  total_block_intervals = pos 8;
  pruned_block_no = 2;
}

abbrev two_blocks : List Block
two_blocks = block 4 2 ∷ block 2 0 ∷ []

commit_block-Commits_example : Commits chain 4 chain_after two_blocks
commit_block-Commits_example = commit_block-Commits chain 4 7 chain_after two_blocks [] commit_four

abbrev last_tree : Forest
last_tree = record tree {
  vertices = (6, 3) ∷ [];
  vertices_at_level = (6, 3 ∷ []) ∷ [];
  lowest_level = 6;
}

abbrev chain_last : BlockChain
chain_last = record chain {
  forrest = last_tree;
  highest_comitted = 6;
  committed_block_no = 3;
  total_block_intervals = pos 11;
  pruned_block_no = 3;
}

commit_six : commit_block chain_after 6 9 ≡ ok (chain_last, some (block 6 4 ∷ [], []))
unfolding commit_block committed_branch count_committed prune_up_to_level committed_levels
    parent_level first_at_level prune_levels prune_level prune_containers prune_container
    is_committed delete_vertice get_vertex vertex_at at_level parent get put delete ℕ_discrete
    votes_exist remove_vote diff ◌+ℤ◌
commit_six = refl

commit_block_once_example :
    All (λ (x : Block). All (λ (y : Block). x.seq < y.seq) (block 6 4 ∷ [])) two_blocks
commit_block_once_example =
    commit_block_once chain chain_after 4 6 7 9 chain_after chain_last two_blocks (block 6 4 ∷ [])
      [] [] tree-IsFalling pruned_tree-IsFalling commit_four (omega arith) commit_six

commit_block-ne-diverged_example : commit_block chain 4 7 ≢ fault diverged
commit_block-ne-diverged_example = commit_block-ne-diverged chain 4 7 tree-IsOrdered

tree-IsHeap : IsHeap tree
tree-IsHeap = record {
  filed = (refl, (refl, (refl, (refl, tt))));
  levels = ((omega arith, tt), ((omega arith, tt), ((omega arith, tt), ((omega arith, tt), tt))));
}

add_vertex-Adds_example :
    (g : Forest) × (add_vertex tree (block 8 6) ≡ ok g) × Adds tree (block 8 6) g
add_vertex-Adds_example =
    add_vertex-Adds tree (block 8 6) (record zero_qc { seq = 6; view = 6; block_id = 6 }) refl
      tree-IsHeap
