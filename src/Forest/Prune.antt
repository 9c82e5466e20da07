-- ===== src/Forest/Prune.antt =====
-- `PruneUpToLevel` of blockchain/leveled_forrest.go.
use multipipelinehs.Prelude.{
  ℕ, zero, suc, ◌+◌, ◌-◌, Bool, true, false, not, ◌&&◌, Option, none, some, List, [], ◌∷◌, ◌++◌,
  ℕ_discrete, ltb, leb, if◌then◌else◌, length, get, put, delete, get_elem?,
}
use multipipelinehs.Types.{Block, Result, ok, fault, panic, diverged, ◌>>=◌, deref}
use multipipelinehs.Forest.{
  Address, Forest, vertex_at, get_vertex, parent, at_level, delete_vertice,
}

-- `f.verticesAtLevel[l][0].vertex`, which panics on an empty level.
unfoldable pub first_at_level : Forest → ℕ → Result Block
unfolding at_level vertex_at
first_at_level f l = elim (at_level f l) [ [] ↦ fault panic | a ∷ _ ↦ deref (vertex_at f a) ]

-- One round of the first loop: the level of the parent, or `none` where the loop breaks.
unfoldable pub parent_level : Forest → ℕ → Result (Option ℕ)
unfolding first_at_level parent
parent_level f l = do
  b ← first_at_level f l
  (parent_id, _) ← parent b
  elim (get_vertex f parent_id) [
    | none ↦ ok none
    | some p ↦ ok (if ltb p.seq f.lowest_level then none else some p.seq)
  ]

-- The first loop, down the committed branch. `committed` is the set of levels met so far.
unfoldable pub committed_levels : ℕ → Forest → ℕ → List (ℕ × Bool) → Result (List (ℕ × Bool))
committed_levels zero f l committed = fault diverged
committed_levels (suc fuel) f l committed = elim (leb f.lowest_level l && ltb 1 l) [
  | false ↦ ok committed
  | true ↦ parent_level f l >>= λ r. elim r [
    | none ↦ ok committed
    | some l' ↦ committed_levels fuel f l' (put ℕ_discrete l' true committed)
  ]
]

unfoldable pub is_committed : List (ℕ × Bool) → ℕ → Bool
is_committed committed l = elim (get ℕ_discrete l committed) [ none ↦ false | some b ↦ b ]

-- What the second loop carries: the forest, the forked blocks and the number of pruned ones.
pub record Pruning : Type 0 where
  pub forest : Forest
  pub forked : List Block
  pub pruned : ℕ

-- The body of the inner loop, for one container of a level.
unfoldable pub prune_container : Bool → Address → Pruning → Result Pruning
unfolding delete_vertice
prune_container is_fork a s = do
  c ← deref (get_elem? s.forest.containers a)
  ok (record {
    forest = delete_vertice s.forest c.id;
    forked = elim c.vertex [
      | none ↦ s.forked
      | some b ↦ if is_fork then s.forked ++ b ∷ [] else s.forked
    ];
    pruned = s.pruned + 1;
  })

unfoldable pub prune_containers : Bool → List Address → Pruning → Result Pruning
prune_containers is_fork [] s = ok s
prune_containers is_fork (a ∷ rest) s =
    prune_container is_fork a s >>= λ s'. prune_containers is_fork rest s'

unfoldable pub prune_level : List (ℕ × Bool) → ℕ → Pruning → Result Pruning
prune_level committed l s = do
  s' ← prune_containers (not (is_committed committed l) && ltb 1 l) (at_level s.forest l) s
  let f = s'.forest
  ok (record s' {
    forest = record f { vertices_at_level = delete ℕ_discrete l f.vertices_at_level };
  })

-- The second loop, from level `l` on, for the number of levels that are left.
unfoldable pub prune_levels : ℕ → List (ℕ × Bool) → ℕ → Pruning → Result Pruning
prune_levels zero committed l s = ok s
prune_levels (suc n) committed l s =
    prune_level committed l s >>= λ s'. prune_levels n committed (l + 1) s'

-- The rounds after which the first loop must have met a level twice, or is above its start.
abbrev pub level_fuel : Forest → ℕ → ℕ
level_fuel f level = length f.vertices_at_level + level + 1

-- `none` is the error that the level is below the lowest one.
unfoldable pub prune_up_to_level : Forest → ℕ → Result (Option Pruning)
prune_up_to_level f level = if ltb level f.lowest_level then ok none else do
  committed ← committed_levels (level_fuel f level) f level []
  s ←
      prune_levels (level - f.lowest_level) committed f.lowest_level
        (record { forest = f; forked = []; pruned = 0 })
  let g = s.forest
  ok (some (record s { forest = record g { lowest_level = level } }))
