-- ===== src/BlockChain.antt =====
-- blockchain/blockchain.go: the block tree, the vote collector, and the commit of a branch.
pub mod Commit
pub mod Termination
pub mod Children
use multipipelinehs.Prelude.{
  ℕ, zero, suc, ◌+◌, Bool, true, false, Option, none, some, List, [], ◌∷◌, ◌++◌, ltb, if◌then◌else◌,
  length,
}
use multipipelinehs.Prelude.Int.{ℤ, pos, diff, ◌+ℤ◌}
use multipipelinehs.Types.{
  View, Seq, Identifier, Block, Vote, Qc, Result, ok, fault, panic, diverged, ◌>>=◌, deref,
}
use multipipelinehs.Quorum.{Quorum, new_quorum, votes_exist, remove_vote}
use multipipelinehs.Quorum
use multipipelinehs.Forest.{Forest, new_forest, has_vertex, get_vertex, add_vertex, parent}
use multipipelinehs.Forest.Prune.{prune_up_to_level}
use multipipelinehs.Forest.Iterator.{get_children, drain, get_vertices_at_level}

pub record BlockChain : Type 0 where
  pub forrest : Forest
  pub quorum : Quorum
  pub highest_comitted : ℕ
  pub committed_block_no : ℕ
  pub total_block_intervals : ℤ
  pub pruned_block_no : ℕ

unfoldable pub new_blockchain : ℕ → BlockChain
unfolding new_forest new_quorum
new_blockchain n = record {
  forrest = new_forest;
  quorum = new_quorum n;
  highest_comitted = 0;
  committed_block_no = 0;
  total_block_intervals = pos 0;
  pruned_block_no = 0;
}

unfoldable pub exists : BlockChain → Identifier → Bool
exists bc id = has_vertex bc.forrest id

unfoldable pub add_block : BlockChain → Block → Result BlockChain
add_block bc b = add_vertex bc.forrest b >>= λ f. ok (record bc { forrest = f })

unfoldable pub add_vote : BlockChain → Vote → BlockChain × Bool × Option Qc
add_vote bc vote =
    let (q, built, qc) = Quorum.add bc.quorum vote in (record bc { quorum = q }, built, qc)

-- `none` is the error that the block does not exist.
unfoldable pub get_block_by_id : BlockChain → Identifier → Option Block
get_block_by_id bc id = get_vertex bc.forrest id

unfoldable pub get_parent_block : BlockChain → Identifier → Result (Option Block)
unfolding parent
get_parent_block bc id = elim (get_vertex bc.forrest id) [
  | none ↦ ok none
  | some b ↦ do (parent_id, _) ← parent b; ok (get_vertex bc.forrest parent_id)
]

unfoldable pub get_grand_parent_block : BlockChain → Identifier → Result (Option Block)
unfolding get_parent_block
get_grand_parent_block bc id =
    get_parent_block bc id >>= λ p. elim p [ none ↦ ok none | some b ↦ get_parent_block bc b.id ]

-- The body of the loop of `CommitBlock` but for its next block.
unfoldable pub count_committed : BlockChain → Seq → Block → BlockChain
count_committed bc seq b = record bc {
  quorum = if votes_exist bc.quorum b.id then remove_vote bc.quorum b.id else bc.quorum;
  committed_block_no = bc.committed_block_no + 1;
  total_block_intervals = bc.total_block_intervals +ℤ diff seq b.seq;
}

-- The loop of `CommitBlock`, from a block down to the pruned levels: the blocks that it commits, in
-- its order.
unfoldable pub committed_branch : ℕ → BlockChain → Seq → Block → Result (BlockChain × List Block)
unfolding count_committed
committed_branch zero bc seq b = fault diverged
committed_branch (suc fuel) bc seq b = elim (ltb bc.forrest.lowest_level b.seq) [
  | false ↦ ok (bc, [])
  | true ↦
      let bc' = count_committed bc seq b in
      elim (get_vertex bc.forrest b.prev_id) [
        | none ↦ ok (bc', b ∷ [])
        | some p ↦ committed_branch fuel bc' seq p >>= λ r. ok (r.0, b ∷ r.1)
      ]
]

-- More rounds than the tree has blocks, so that the loop meets a block twice, and than the levels
-- above the lowest one that a falling branch can take.
abbrev pub branch_fuel : BlockChain → Block → ℕ
branch_fuel bc b = length bc.forrest.vertices + b.seq + 1

-- `CommitBlock`: the committed and the forked blocks; `none` is an error.
unfoldable pub commit_block :
    BlockChain → Identifier → Seq → Result (BlockChain × Option (List Block × List Block))
commit_block bc id seq = elim (get_vertex bc.forrest id) [
  | none ↦ ok (bc, none)
  | some b ↦ do
    let start = record bc { highest_comitted = b.seq }
    (bc', committed) ← committed_branch (branch_fuel bc b) start seq b
    pruning ← prune_up_to_level bc'.forrest b.seq
    elim pruning [
      | none ↦ ok (bc', none)
      | some p ↦ ok (
        record bc' { forrest = p.forest; pruned_block_no = bc'.pruned_block_no + p.pruned },
        some (committed, p.forked),
      )
    ]
]

unfoldable pub get_children_blocks : BlockChain → Identifier → Result (List Block)
get_children_blocks bc id = do
  it ← get_children bc.forrest id
  ok (drain (suc (length it.left)) bc.forrest it)

-- `GetBlockByView` reads a block off the iterator's look-ahead, which may be nil.
unfoldable pub get_block_by_view : BlockChain → View → Result Block
get_block_by_view bc view = deref (get_vertices_at_level bc.forrest view).next
