-- ===== src/Tests/Pruning.antt =====
-- Pruning the tree of three blocks, and one with a forked block.
use multipipelinehs.Prelude.{◌≡◌, refl, Option, some, [], ◌∷◌, get, put, delete, ℕ_discrete}
use multipipelinehs.Types.{Result, ok, ◌>>=◌, deref}
use multipipelinehs.Forest.{
  new_forest, add_vertex, create_container, get_or_create_vertex_container, add_child,
  register_with_parent, get_vertex, vertex_at, at_level, parent, delete_vertice,
}
use multipipelinehs.Forest.Prune.{
  Pruning, first_at_level, parent_level, committed_levels, is_committed, prune_container,
  prune_containers, prune_level, prune_levels, prune_up_to_level,
}
use multipipelinehs.Forest.Pruned.{Prunes, prune_up_to_level-Prunes}
use multipipelinehs.Tests.Chain.{block, tree, pruned_tree}

abbrev pruning : Pruning
pruning = record { forest = pruned_tree; forked = []; pruned = 2 }

two_pruned : prune_up_to_level tree 4 ≡ ok (some pruning)
unfolding prune_up_to_level committed_levels parent_level first_at_level prune_levels prune_level
    prune_containers prune_container is_committed delete_vertice get_vertex vertex_at at_level
    parent get put delete ℕ_discrete
two_pruned = refl

prune_up_to_level-Prunes_example : Prunes tree 4 pruning
prune_up_to_level-Prunes_example = prune_up_to_level-Prunes tree 4 pruning two_pruned

-- The block of level 3 has the parent of the committed one.
abbrev forks : Result (Option Pruning)
forks = do
  f ← add_vertex new_forest (block 2 0)
  g ← add_vertex f (block 3 2)
  h ← add_vertex g (block 4 2)
  prune_up_to_level h 4

one_forked : (do r ← forks; p ← deref r; ok p.forked) ≡ ok (block 3 2 ∷ [])
unfolding prune_up_to_level committed_levels parent_level first_at_level prune_levels prune_level
    prune_containers prune_container is_committed delete_vertice get_vertex vertex_at at_level
    parent get put delete ℕ_discrete new_forest add_vertex create_container
    get_or_create_vertex_container add_child register_with_parent
one_forked = refl
