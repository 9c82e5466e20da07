-- ===== src/MtHotStuff.antt =====
-- mthotstuff/mthotstuff.go: the variant that votes by the kind of its view and commits two certificates
-- down. Its state has the fields of the other protocol (`base`, with the steps that both files write
-- alike) and two of its own.
pub mod Certificate
pub mod Blocks
pub mod Messages
pub mod Moves
pub mod StageMoves
pub mod BlockMoves
pub mod MessageMoves
pub mod Reach
pub mod Buffered
pub mod Bound
use multipipelinehs.Prelude.{
  ℕ, Bool, true, false, ◌||◌, Option, none, some, ltb, leb, if◌then◌else◌,
}
use multipipelinehs.Types.{
  View, Seq, Qc, Block, ProposeType, no_timeout, timeout_f, timeout_s, Result, ok, fault, ◌>>=◌,
  deref,
}
use multipipelinehs.BlockChain.{get_block_by_id}
use multipipelinehs.MHotStuff.{MHotStuff, Returned, nil, failed, new_mhotstuff}

-- `StateContext` of types/types.go.
pub record StateContext : Type 0 where
  pub vote_type : ProposeType
  pub preferred_seq : Seq
  pub sec_preferred_seq : Seq
  pub last_voted_seq : Seq

pub record Mtchs : Type 0 where
  pub base : MHotStuff
  pub sec_preferred_seq : Seq
  pub vote_type : ProposeType

unfoldable pub new_mtchs : ℕ → Mtchs
new_mtchs n = record { base = new_mhotstuff n; sec_preferred_seq = 0; vote_type = no_timeout }

unfoldable pub context : Mtchs → StateContext
context s = record {
  vote_type = s.vote_type;
  preferred_seq = s.base.preferred_seq;
  sec_preferred_seq = s.sec_preferred_seq;
  last_voted_seq = s.base.last_voted_seq;
}

-- `updatePreferredView`, which nothing calls.
unfoldable pub update_preferred_view : Mtchs → Qc → Mtchs × Returned
update_preferred_view s qc =
    if ltb qc.view 2
    then (s, nil)
    else let base = s.base in
      elim (get_block_by_id base.bc qc.block_id) [
        | none ↦ (s, failed)
        | some _ ↦
            if ltb base.preferred_view qc.view
            then (record s { base = record base { preferred_view = qc.view } }, nil)
            else (s, nil)
      ]

unfoldable pub update_preferred_seq : Mtchs → Qc → Mtchs × Returned
update_preferred_seq s qc =
    if ltb qc.seq 2
    then (s, nil)
    else let base = s.base in
      elim (get_block_by_id base.bc qc.block_id) [
        | none ↦ (s, failed)
        | some _ ↦
            if ltb base.preferred_seq qc.seq
            then (
              record s {
                base = record base { preferred_seq = qc.seq };
                sec_preferred_seq = base.preferred_seq;
              },
              nil,
            )
            else (s, nil)
      ]

-- The second test of `votingRule`: the preferred number of the kind of the view.
unfoldable pub is_below : StateContext → Block → Bool
is_below ctx parent = elim ctx.vote_type [
  | no_timeout ↦ ltb parent.seq ctx.preferred_seq
  | timeout_f ↦ ltb parent.seq ctx.sec_preferred_seq
  | timeout_s ↦ ltb parent.seq ctx.preferred_seq
]

-- `votingRule`; `none` is its error.
unfoldable pub voting_rule : Mtchs → Block → StateContext → Result (Option Bool)
voting_rule s b ctx = if ltb b.view 3 then ok (some true) else do
  qc ← deref b.qc
  elim (get_block_by_id s.base.bc qc.block_id) [
    | none ↦ ok none
    | some p ↦ ok (some (if leb b.seq ctx.last_voted_seq || is_below ctx p then false else true))
  ]

-- `commitRule`: the block two certificates down; `none` is its error.
unfoldable pub commit_rule : Mtchs → Qc → Result (Option Block)
commit_rule s qc = elim (get_block_by_id s.base.bc qc.block_id) [
  | none ↦ ok none
  | some b1 ↦ do qc1 ← deref b1.qc; ok (get_block_by_id s.base.bc qc1.block_id)
]
