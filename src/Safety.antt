-- ===== src/Safety.antt =====
-- replica/safety.go: the interface of a consensus protocol, with the pacemaker that a replica shares
-- with it. `Lawful` is what the replica relies on.
pub mod Pipeline
pub mod Threads
use multipipelinehs.MHotStuff.Proposal.{drops}
use multipipelinehs.Prelude.{◌+◌, ◌⊎◌, length, [], ◌∷◌, ℕ, ◌≤◌, ◌≡◌, List, EndsWith}
use multipipelinehs.Types.{
  SignalV, View, Seq, ProposeType, NewViewType, Payload, Vote, Qc, Tmo, Block, Result, ok,
}
use multipipelinehs.Pacemaker.{Pacemaker, advance_view}
use multipipelinehs.Pacemaker.Views.{IsSteady}
use multipipelinehs.Crypto.{key_index}
use multipipelinehs.Env.{Env}
use multipipelinehs.MHotStuff.{Event, Returned}
use multipipelinehs.MHotStuff.Votes.{VoteStatus}

-- `sent` is what the protocol has put on the channels of the replica and on the network, the latest
-- first, and `emptied` the state after that is taken; `signals` is what stands in
-- `proposeChan`; `resume_vote` goes on with a vote that waits.
pub record Safety : Type 1 where
  pub State : Type 0
  pub new_state : ℕ → State
  pub process_block : State → Block → Result (State × Returned)
  pub process_vote : State → Vote → Result (State × VoteStatus)
  pub resume_vote : State → Qc → Result (State × VoteStatus)
  pub process_remote_tmo : State → Tmo → Result State
  pub process_local_tmo : State → View → Seq → State
  pub make_proposal : State → NewViewType → List Payload → Result (State × Block)
  pub pm : State → Pacemaker
  pub advance : State → View → Seq → ProposeType → State
  pub sent : State → List Event
  pub signals : State → List SignalV
  pub emptied : State → State

-- What a step does to the pacemaker: its view does not decrease, what it announced stays announced,
-- and what it announces stays in order.
pub record Announces (p q : Pacemaker) : Type 0 where
  pub newer : p.cur_view ≤ q.cur_view
  pub announced : (k : List NewViewType) → EndsWith k p.entered → EndsWith k q.entered
  pub steady : IsSteady p → IsSteady q

-- A proposal is made by the replica for the view that it is asked for.
pub record Proposes (env : Env) (v : NewViewType) (b : Block) : Type 0 where
  pub view : b.view ≡ v.view
  pub seq : b.seq ≡ v.seq
  pub proposer : b.proposer ≡ env.id

-- The channel of signals, which holds so many, has room for the drop signals of the views.
abbrev pub Room : ℕ → List NewViewType → Type 0
Room n vs = (drops vs ≡ 0) ⊎ (n + drops vs ≤ 4)

pub record Lawful (env : Env) (p : Safety) : Type 1 where
  pub Steps : p.State → p.State → Type 0
  pub here : {s : p.State} → Steps s s
  pub blocks :
      {s t : p.State} (b : Block) (r : p.State × Returned)
      → Steps s t
      → p.process_block t b ≡ ok r
      → Steps s r.0
  pub votes :
      {s t : p.State} (v : Vote) (r : p.State × VoteStatus)
      → Steps s t
      → p.process_vote t v ≡ ok r
      → Steps s r.0
  pub resumes :
      {s t : p.State} (qc : Qc) (r : p.State × VoteStatus)
      → Steps s t
      → p.resume_vote t qc ≡ ok r
      → Steps s r.0
  pub remote_tmos :
      {s t : p.State} (tmo : Tmo) (u : p.State)
      → Steps s t
      → p.process_remote_tmo t tmo ≡ ok u
      → Steps s u
  pub local_tmos :
      {s t : p.State} (v : View) (q : Seq) → Steps s t → Steps s (p.process_local_tmo t v q)
  pub proposes :
      {s t : p.State} (v : NewViewType) (payload : List Payload) (r : p.State × Block)
      → Steps s t
      → p.make_proposal t v payload ≡ ok r
      → Steps s r.0
  pub advances :
      {s t : p.State} (v : View) (q : Seq) (pt : ProposeType)
      → Steps s t
      → Steps s (p.advance t v q pt)
  pub empties : {s t : p.State} → Steps s t → Steps s (p.emptied t)
  pub trans : {s t u : p.State} → Steps s t → Steps t u → Steps s u
  pub Steps-Announces : {s t : p.State} → Steps s t → Announces (p.pm s) (p.pm t)
  pub start : (n : ℕ) → (p.pm (p.new_state n)).entered ≡ List.[]
  pub start_steady : (n : ℕ) → IsSteady (p.pm (p.new_state n))
  pub emptied-pm : (s : p.State) → p.pm (p.emptied s) ≡ p.pm s
  pub advance-pm :
      (s : p.State) (v : View) (q : Seq) (pt : ProposeType)
      → p.pm (p.advance s v q pt) ≡ advance_view (p.pm s) v q pt
  pub made :
      (s : p.State) (v : NewViewType) (payload : List Payload) (r : p.State × Block)
      → p.make_proposal s v payload ≡ ok r
      → Proposes env v r.1
  pub made-pm :
      (s : p.State) (v : NewViewType) (payload : List Payload) (r : p.State × Block)
      → p.make_proposal s v payload ≡ ok r
      → p.pm r.0 ≡ p.pm s
  pub made-signals :
      (s : p.State) (v : NewViewType) (payload : List Payload) (r : p.State × Block)
      → p.make_proposal s v payload ≡ ok r
      → length (p.signals r.0) ≤ length (p.signals s) + drops (v ∷ [])
  pub emptied-signals : (s : p.State) → p.signals (p.emptied s) ≡ p.signals s
  pub makes :
      (s : p.State) (v : NewViewType) (payload : List Payload) (k : ℕ)
      → key_index env.n env.id ≡ ok k
      → Room (length (p.signals s)) (v ∷ [])
      → (r : p.State × Block) × (p.make_proposal s v payload ≡ ok r)
