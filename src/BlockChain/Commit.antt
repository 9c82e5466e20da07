-- ===== src/BlockChain/Commit.antt =====
-- `CommitBlock` of blockchain/blockchain.go: the branch that it takes, and two commits in a row.
use multipipelinehs.Prelude.{
  ℕ, zero, suc, ◌+◌, ◌<◌, ◌≤◌, ◌≡◌, refl, ap, ◌∙◌, Option, none, some, List, [], ◌∷◌, arith, All,
  All-mono, length, ltb, ltb→lt, ◌⊎◌, inl, inr, Bool-cases, Option-cases, subst,
}
use multipipelinehs.Types.{
  Seq, Identifier, Block, ok, ◌>>=◌, >>=-eq-ok, ok-injective, Result-cases, Yields,
}
use multipipelinehs.Forest.{Forest, get_vertex}
use multipipelinehs.Forest.Prune.{Pruning, prune_up_to_level}
use multipipelinehs.BlockChain.{
  BlockChain, committed_branch, count_committed, commit_block, branch_fuel,
}

-- The blocks from one down to the first that is pruned or whose parent is missing, each followed by
-- its parent.
abbrev pub IsBranch : Forest → Block → List Block → Type 0
IsBranch f b [] = b.seq ≤ f.lowest_level
IsBranch f b (x ∷ xs) =
    (x ≡ b)
    × (f.lowest_level < b.seq)
    × (((get_vertex f b.prev_id ≡ none) × (xs ≡ []))
        ⊎ ((p : Block) × (get_vertex f b.prev_id ≡ some p) × IsBranch f p xs))

-- The loop leaves the tree alone and counts what it commits.
pub record Walks (bc : BlockChain) (b : Block) (bc' : BlockChain) (xs : List Block) : Type 0 where
  pub branch : IsBranch bc.forrest b xs
  pub tree : bc'.forrest ≡ bc.forrest
  pub counted : bc'.committed_block_no ≡ bc.committed_block_no + length xs
  pub highest : bc'.highest_comitted ≡ bc.highest_comitted

pub committed_branch-Walks :
    (fuel : ℕ) (bc : BlockChain) (seq : Seq) (b : Block) (r : BlockChain × List Block)
    → committed_branch fuel bc seq b ≡ ok r
    → Walks bc b r.0 r.1
unfolding committed_branch
committed_branch-Walks zero bc seq b r e = absurd (cc)
committed_branch-Walks (suc fuel) bc seq b r e =
    elim (Bool-cases (ltb bc.forrest.lowest_level b.seq)) [
      | inr low ↦
          let e' : ok (bc, []) ≡ ok r = ground arith in
          subst (λ r. Walks bc b r.0 r.1) (ok-injective r e')
            (record { branch = ground arith; tree = refl; counted = omega arith; highest = refl })
      | inl high ↦ elim (Option-cases (get_vertex bc.forrest b.prev_id)) [
        | inl missing ↦
            let e' : ok (count_committed bc seq b, b ∷ []) ≡ ok r = ground arith in
            subst (λ r. Walks bc b r.0 r.1) (ok-injective r e')
              (record {
                branch = (refl, ltb→lt _ _ high, inl (missing, refl));
                tree = refl;
                counted = omega arith;
                highest = refl;
              })
        | inr (p, found) ↦
            let bc' = count_committed bc seq b in
            let rest = committed_branch fuel bc' seq p in
            let e' : (rest >>= λ r. ok (r.0, b ∷ r.1)) ≡ ok r = ground arith in
            let (r', eq, done) = >>=-eq-ok (λ r. ok (r.0, b ∷ r.1)) rest e' in
            let w = committed_branch-Walks fuel bc' seq p r' done in
            subst (λ r. Walks bc b r.0 r.1) (ok-injective r eq)
              (record {
                branch = (refl, ltb→lt _ _ high, inr (p, found, w.branch));
                tree = w.tree;
                counted = omega (arith, w.counted);
                highest = w.highest;
              })
      ]
    ]

-- Parents stand on lower levels than their children.
abbrev pub IsFalling : Forest → Type 0
IsFalling f =
    (q : Identifier) (b p : Block)
    → get_vertex f q ≡ some b
    → get_vertex f b.prev_id ≡ some p
    → p.seq < b.seq

-- On a tree whose levels fall, a branch stays within the levels from above the lowest to its top.
IsBranch-bounds :
    (f : Forest) (q : Identifier) (b : Block) (xs : List Block) (top : ℕ)
    → IsFalling f
    → get_vertex f q ≡ some b
    → b.seq ≤ top
    → IsBranch f b xs
    → All (λ x. (f.lowest_level < x.seq) × (x.seq ≤ top)) xs
IsBranch-bounds f q b [] top fall here h br = tt
IsBranch-bounds f q b (x ∷ xs) top fall here h (same, high, inl (_, last)) =
    (ground arith, rw last tt)
IsBranch-bounds f q b (x ∷ xs) top fall here h (same, high, inr (p, found, rest)) = (
  ground arith,
  IsBranch-bounds f b.prev_id p xs top fall found (omega (arith, fall q b p here found)) rest,
)

-- What a successful `CommitBlock` gives.
pub record Commits (bc : BlockChain) (id : Identifier) (bc' : BlockChain) (committed : List Block)
    : Type 0 where
  pub top : Block
  pub stored : get_vertex bc.forrest id ≡ some top
  pub branch : IsBranch bc.forrest top committed
  pub lowest : bc'.forrest.lowest_level ≡ top.seq
  pub highest : bc'.highest_comitted ≡ top.seq
  pub counted : bc'.committed_block_no ≡ bc.committed_block_no + length committed
  pub ahead : bc.forrest.lowest_level ≤ top.seq

prune_lowest :
    (f : Forest) (level : ℕ) (p : Pruning)
    → prune_up_to_level f level ≡ ok (some p)
    → (p.forest.lowest_level ≡ level) × (f.lowest_level ≤ level)
unfolding prune_up_to_level
prune_lowest f level p e = ground arith

module _ (bc : BlockChain) (id : Identifier) (seq : Seq) (bc' : BlockChain)
    (committed forked : List Block) where
  commit_walked :
      (b : Block) (r : BlockChain × List Block) (p : Pruning)
      → get_vertex bc.forrest id ≡ some b
      → committed_branch (branch_fuel bc b) (record bc { highest_comitted = b.seq }) seq b ≡ ok r
      → prune_up_to_level (r.0).forrest b.seq ≡ ok (some p)
      → commit_block bc id seq ≡ ok (bc', some (committed, forked))
      → Commits bc id bc' committed
  unfolding commit_block
  commit_walked b r p found walked pruned e =
      let w =
        committed_branch-Walks (branch_fuel bc b) (record bc { highest_comitted = b.seq }) seq b r
          walked in
      let low = prune_lowest (r.0).forrest b.seq p pruned in
      let same : r.1 ≡ committed = ground arith in
      record {
        top = b;
        stored = found;
        branch = subst (IsBranch bc.forrest b) same w.branch;
        lowest = ground arith;
        highest = ground arith;
        counted = ground arith;
        ahead = ground arith;
      }

  -- A commit that succeeds takes the branch from the stored block that it names, parent by parent,
  -- down to the first block that is not above the pruning level or has no stored parent; it counts
  -- the blocks of this branch, records the level of the block as the highest, and moves the
  -- pruning level, which was not above it, to it.
  pub commit_block-Commits :
      commit_block bc id seq ≡ ok (bc', some (committed, forked)) → Commits bc id bc' committed
  unfolding commit_block
  commit_block-Commits e = elim (Option-cases (get_vertex bc.forrest id)) [
    | inl missing ↦ absurd (ground arith)
    | inr (b, found) ↦
        elim (Result-cases
          (committed_branch (branch_fuel bc b) (record bc { highest_comitted = b.seq }) seq b)) [
            | inr (_, stuck) ↦ absurd (ground arith)
            | inl (r, walked) ↦ elim (Result-cases (prune_up_to_level (r.0).forrest b.seq)) [
              | inr (_, stuck) ↦ absurd (ground arith)
              | inl (o, pruned) ↦ elim (Option-cases o) [
                | inl refused ↦ absurd (ground arith)
                | inr (p, eq) ↦ commit_walked b r p found walked (pruned ∙ ap ok eq) e
              ]
            ]
          ]
  ]

-- On trees whose levels fall from a block to its parent, if a commit succeeds and a later one
-- succeeds when the pruning level has not moved back, every block of the first lies on a lower
-- level than every block of the second, so that none is committed twice.
pub commit_block_once :
    (bc next : BlockChain) (id jd : Identifier) (s t : Seq) (bc' next' : BlockChain)
    (xs ys fs gs : List Block)
    → IsFalling bc.forrest
    → IsFalling next.forrest
    → commit_block bc id s ≡ ok (bc', some (xs, fs))
    → bc'.forrest.lowest_level ≤ next.forrest.lowest_level
    → commit_block next jd t ≡ ok (next', some (ys, gs))
    → All (λ x. All (λ y. x.seq < y.seq) ys) xs
commit_block_once bc next id jd s t bc' next' xs ys fs gs fall fall' e kept e' =
    let c = commit_block-Commits bc id s bc' xs fs e in
    let d = commit_block-Commits next jd t next' ys gs e' in
    let le_top : c.top.seq ≤ c.top.seq = omega arith in
    let le_top' : d.top.seq ≤ d.top.seq = omega arith in
    let low = c.lowest in
    All-mono _ _ xs
      (λ x hx.
        All-mono _ _ ys (λ y hy. omega arith)
          (IsBranch-bounds next.forrest jd d.top ys d.top.seq fall' d.stored le_top' d.branch))
      (IsBranch-bounds bc.forrest id c.top xs c.top.seq fall c.stored le_top c.branch)

-- Whatever a commit answers, the pruning level and the count of committed blocks do not fall.
abbrev pub Advances : BlockChain → BlockChain → Type 0
Advances bc bc' =
    (bc.forrest.lowest_level ≤ bc'.forrest.lowest_level)
    × (bc.committed_block_no ≤ bc'.committed_block_no)

pub commit_block-Advances :
    (bc : BlockChain) (id : Identifier) (seq : Seq)
    → Yields
        (λ (r : BlockChain × Option (List Block × List Block)). Advances bc r.0)
        (commit_block bc id seq)
unfolding commit_block
commit_block-Advances bc id seq = elim (Option-cases (get_vertex bc.forrest id)) [
  | inl missing ↦ ground arith
  | inr (b, found) ↦
      let start : BlockChain = record bc { highest_comitted = b.seq } in
      elim (Result-cases (committed_branch (branch_fuel bc b) start seq b)) [
        | inr (_, stuck) ↦ ground arith
        | inl (r, walked) ↦
            let w = committed_branch-Walks (branch_fuel bc b) start seq b r walked in
            elim (Result-cases (prune_up_to_level (r.0).forrest b.seq)) [
              | inr (_, stuck) ↦ ground arith
              | inl (o, pruned) ↦ elim (Option-cases o) [
                | inl refused ↦ ground arith
                | inr (p, eq) ↦
                    ground (arith, prune_lowest (r.0).forrest b.seq p (pruned ∙ ap ok eq))
              ]
            ]
      ]
]
