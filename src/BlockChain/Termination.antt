-- ===== src/BlockChain/Termination.antt =====
-- The loops of `CommitBlock` (blockchain/blockchain.go) and `PruneUpToLevel`
-- (blockchain/leveled_forrest.go): their rounds.
use multipipelinehs.Prelude.{
  ℕ, zero, suc, ◌+◌, ◌-◌, ◌<◌, ◌≡◌, ◌≢◌, ap, sym, ◌∙◌, Bool, true, ◌&&◌, not, some, List, [], ◌∷◌,
  arith, ltb, leb, inl, inr, Bool-cases, Option-cases, put, ℕ_discrete, subst,
}
use multipipelinehs.Types.{Seq, Identifier, Block, ok, fault, diverged, Result-cases}
use multipipelinehs.Forest.{Forest, Address, get_vertex, parent, at_level}
use multipipelinehs.Forest.Prune.{
  Pruning, first_at_level, parent_level, committed_levels, is_committed, prune_container,
  prune_containers, prune_level, prune_levels, prune_up_to_level, level_fuel,
}
use multipipelinehs.BlockChain.{
  BlockChain, committed_branch, count_committed, commit_block, branch_fuel,
}
use multipipelinehs.BlockChain.Commit.{IsFalling, committed_branch-Walks}

-- The parent of a stored block, and of the first block of a level, stands on a lower level.
pub record IsOrdered (f : Forest) : Type 0 where
  pub falls : IsFalling f
  pub levels :
      (l : ℕ) (b p : Block)
      → first_at_level f l ≡ ok b
      → get_vertex f b.prev_id ≡ some p
      → p.seq < l

-- The walk down a branch ends, and never fails, with a round for each level.
committed_branch_total :
    (fuel : ℕ) (bc : BlockChain) (seq : Seq) (q : Identifier) (b : Block)
    → IsFalling bc.forrest
    → get_vertex bc.forrest q ≡ some b
    → b.seq < fuel
    → (r : BlockChain × List Block) × (committed_branch fuel bc seq b ≡ ok r)
unfolding committed_branch
committed_branch_total zero bc seq q b fall here h = elim h [ ]
committed_branch_total (suc fuel) bc seq q b fall here h =
    elim (Bool-cases (ltb bc.forrest.lowest_level b.seq)) [
      | inr low ↦ ((bc, []), ground arith)
      | inl high ↦ elim (Option-cases (get_vertex bc.forrest b.prev_id)) [
        | inl missing ↦ ((count_committed bc seq b, b ∷ []), ground arith)
        | inr (p, found) ↦
            let (r, e) =
              committed_branch_total fuel (count_committed bc seq b) seq b.prev_id p fall found
                (omega (arith, fall q b p here found)) in
            ((r.0, b ∷ r.1), ground arith)
      ]
    ]

-- A round of the first loop of `PruneUpToLevel` goes to a lower level.
parent_level-lt : (f : Forest) (l l' : ℕ) → IsOrdered f → parent_level f l ≡ ok (some l') → l' < l
unfolding parent_level parent
parent_level-lt f l l' o e = elim (Result-cases (first_at_level f l)) [
  | inr (_, stuck) ↦ absurd (ground arith)
  | inl (b, first) ↦ elim (Option-cases (get_vertex f b.prev_id)) [
    | inl missing ↦ absurd (ground arith)
    | inr (p, found) ↦ ground (arith, o.levels l b p first found)
  ]
]

parent_level-ne-diverged : (f : Forest) (l : ℕ) → parent_level f l ≢ fault diverged
unfolding parent_level parent first_at_level
parent_level-ne-diverged f l e = ground arith

committed_levels-ne-diverged :
    (fuel : ℕ) (f : Forest) (l : ℕ) (c : List (ℕ × Bool))
    → IsOrdered f
    → l < fuel
    → committed_levels fuel f l c ≢ fault diverged
unfolding committed_levels
committed_levels-ne-diverged zero f l c o h e = elim h [ ]
committed_levels-ne-diverged (suc fuel) f l c o h e =
    elim (Bool-cases (leb f.lowest_level l && ltb 1 l)) [
      | inr done ↦ ground arith
      | inl more ↦ elim (Result-cases (parent_level f l)) [
        | inr (x, stuck) ↦ ground (arith, parent_level-ne-diverged f l)
        | inl (r, at) ↦ elim (Option-cases r) [
          | inl last ↦ ground arith
          | inr (l', next) ↦
              let lower = parent_level-lt f l l' o (at ∙ ap ok next) in
              committed_levels-ne-diverged fuel f l' (put ℕ_discrete l' true c) o (omega arith)
                (ground arith)
        ]
      ]
    ]

prune_containers-ne-diverged :
    (is_fork : Bool) (vs : List Address) (s : Pruning)
    → prune_containers is_fork vs s ≢ fault diverged
unfolding prune_containers prune_container
prune_containers-ne-diverged is_fork [] s e = ground arith
prune_containers-ne-diverged is_fork (a ∷ rest) s e =
    elim (Result-cases (prune_container is_fork a s)) [
      | inr (x, stuck) ↦ ground arith
      | inl (s', at) ↦ prune_containers-ne-diverged is_fork rest s' (ground arith)
    ]

prune_level-ne-diverged :
    (c : List (ℕ × Bool)) (l : ℕ) (s : Pruning) → prune_level c l s ≢ fault diverged
unfolding prune_level
prune_level-ne-diverged c l s e = ground (
  arith,
  prune_containers-ne-diverged (not (is_committed c l) && ltb 1 l) (at_level s.forest l) s,
)

prune_levels-ne-diverged :
    (n : ℕ) (c : List (ℕ × Bool)) (l : ℕ) (s : Pruning) → prune_levels n c l s ≢ fault diverged
unfolding prune_levels
prune_levels-ne-diverged zero c l s e = ground arith
prune_levels-ne-diverged (suc n) c l s e = elim (Result-cases (prune_level c l s)) [
  | inr (x, stuck) ↦ ground (arith, prune_level-ne-diverged c l s)
  | inl (s', at) ↦ prune_levels-ne-diverged n c (l + 1) s' (ground arith)
]

prune_up_to_level-ne-diverged :
    (f : Forest) (level : ℕ) → IsOrdered f → prune_up_to_level f level ≢ fault diverged
unfolding prune_up_to_level
prune_up_to_level-ne-diverged f level o e =
    elim (Result-cases (committed_levels (level_fuel f level) f level [])) [
      | inr (x, stuck) ↦
          committed_levels-ne-diverged (level_fuel f level) f level [] o (omega arith)
            (ground arith)
      | inl (c, at) ↦
          prune_levels-ne-diverged (level - f.lowest_level) c f.lowest_level
            (record { forest = f; forked = []; pruned = 0 }) (ground arith)
    ]

-- On a tree where the stored parent of a stored block stands lower than the block, and that of the
-- first block of a level lower than the level, CommitBlock does not run out of rounds for any
-- block and sequence number.
pub commit_block-ne-diverged :
    (bc : BlockChain) (id : Identifier) (seq : Seq)
    → IsOrdered bc.forrest
    → commit_block bc id seq ≢ fault diverged
unfolding commit_block
commit_block-ne-diverged bc id seq o e = elim (Option-cases (get_vertex bc.forrest id)) [
  | inl missing ↦ ground arith
  | inr (b, found) ↦
      let start : BlockChain = record bc { highest_comitted = b.seq } in
      let (r, walked) =
        committed_branch_total (branch_fuel bc b) start seq id b o.falls found (omega arith) in
      let w = committed_branch-Walks (branch_fuel bc b) start seq b r walked in
      let o' : IsOrdered (r.0).forrest = subst IsOrdered (sym w.tree) o in
      ground (arith, prune_up_to_level-ne-diverged (r.0).forrest b.seq o')
]
