-- ===== src/MHotStuff/ChainMoves.antt =====
-- The small steps of `ProcessBlock` of mhotstuff/mhotstuff.go on the block chain and the buffers.
use multipipelinehs.Prelude.{
  All-delete, ◌+◌, ◌≡◌, refl, if◌then◌else◌, Bool, true, false, Option, none, some, List, [], ◌∷◌,
  arith, ℕ_discrete, delete,
}
use multipipelinehs.Types.{View, Block, Result, ok, fault, Yields, Yields-bind, Identifier}
use multipipelinehs.BlockChain.{BlockChain, commit_block, add_block}
use multipipelinehs.BlockChain.Commit.{Advances, commit_block-Advances}
use multipipelinehs.Forest.{add_vertex}
use multipipelinehs.Forest.Level.{add_vertex-lowest}
use multipipelinehs.MHotStuff.{MHotStuff, Event, send}
use multipipelinehs.MHotStuff.Blocks.{
  send_all, committed_events, forked_events, record_commit, commit_found,
}
use multipipelinehs.MHotStuff.Moves.{Moves, Moves-refl, Moves-trans, send-Moves}
use multipipelinehs.MHotStuff.Handlers.{Forward₂}

send_all-Moves : (s : MHotStuff) (es : List Event) → Moves s (send_all s es)
unfolding send_all
send_all-Moves s [] = Moves-refl s
send_all-Moves s (e ∷ es) =
    Moves-trans s (send s e) _ (send-Moves s e) (send_all-Moves (send s e) es)

-- A step of the block chain, inside the state.
pub chain-Moves :
    (s : MHotStuff) (bc : BlockChain) → Advances s.bc bc → Moves s (record s { bc = bc })
chain-Moves s bc h = ground arith

pub unbuffer_block-Moves :
    (s : MHotStuff) (v : View)
    → Moves s (record s { buffered_blocks = delete ℕ_discrete v s.buffered_blocks })
unbuffer_block-Moves s v =
    ground
      (arith, All-delete ℕ_discrete (λ (e : View × Block). e.1.view ≡ e.0 + 1) v s.buffered_blocks)

pub unbuffer_qc-Moves :
    (s : MHotStuff) (id : Identifier)
    → Moves s (record s { buffered_qcs = delete ℕ_discrete id s.buffered_qcs })
unbuffer_qc-Moves s id = ground arith

-- A later step's result, seen from an earlier state.
pub after {ℓ} :
    {B : Type ℓ} (s t : MHotStuff) (m : Result (MHotStuff × B))
    → Moves s t
    → Forward₂ t m
    → Forward₂ s m
after s t (ok r) h k = Moves-trans s t r.0 h k
after s t (fault e) h k = tt

record_commit-Moves :
    (s : MHotStuff) (r : BlockChain × Option (List Block × List Block))
    → Advances s.bc r.0
    → Moves s (record_commit s r).0
unfolding record_commit
record_commit-Moves s (bc, none) h = chain-Moves s bc h
record_commit-Moves s (bc, some (cs, fs)) h =
    let t = record s { bc = bc } in
    Moves-trans s t _ (chain-Moves s bc h) (
      Moves-trans t _ _ (send_all-Moves t (committed_events cs))
        (send_all-Moves (send_all t (committed_events cs)) (forked_events fs)))

pub commit_found-Moves : (s : MHotStuff) (o : Option Block) → Forward₂ s (commit_found s o)
unfolding commit_found
commit_found-Moves s none = Moves-refl s
commit_found-Moves s (some b0) =
    Yields-bind (λ r. Advances s.bc r.0) (λ r. Moves s r.0) (commit_block s.bc b0.id s.pm.cur_seq) _
      (commit_block-Advances s.bc b0.id s.pm.cur_seq) (λ r h. record_commit-Moves s r h)

pub add_block-Advances : (bc : BlockChain) (b : Block) → Yields (Advances bc) (add_block bc b)
unfolding add_block
add_block-Advances bc b =
    Yields-bind (λ g. g.lowest_level ≡ bc.forrest.lowest_level) (Advances bc)
      (add_vertex bc.forrest b) _ (add_vertex-lowest bc.forrest b) (λ g h. omega arith)

-- `if-Yields`, where the first branch uses the test.
pub if-Yields_then {ℓ κ} :
    {A : Type ℓ} (P : A → Type κ) (b : Bool) (m n : Result A)
    → (b ≡ true → Yields P m)
    → Yields P n
    → Yields P (if b then m else n)
if-Yields_then P true m n hm hn = hm refl
if-Yields_then P false m n hm hn = hn
