-- ===== src/MHotStuff/Proposal.antt =====
-- `MakeProposal` of mhotstuff/mhotstuff.go.
use multipipelinehs.Prelude.{
  ℕ, suc, Bool, true, false, not, ◌&&◌, if◌then◌else◌, Option, none, some, List, [], ◌∷◌,
}
use multipipelinehs.Types.{
  NewViewType, no_timeout, timeout_f, timeout_s, Payload, Qc, Tc, Block, Result, ok, fault, blocked,
  ◌>>=◌, drop, Identifier,
}
use multipipelinehs.Env.{Env, make_block}
use multipipelinehs.MHotStuff.{MHotStuff, has_room, signal, update_high_tc}

-- What the switch on the propose type chooses, and the state after it.
pub record Choice : Type 0 where
  pub state : MHotStuff
  pub qc : Qc
  pub tc : Option Tc
  pub tcs : List (Option Tc)
  pub prev_id : Identifier

unfoldable pub choose : MHotStuff → NewViewType → Choice
choose s v = elim v.propose_type [
  | no_timeout ↦ record {
    state = s;
    qc = s.high_qc;
    tc = none;
    tcs = [];
    prev_id = s.high_block.id;
  }
  | timeout_f ↦ record {
    state = signal s (record { ope = drop; view = v.view });
    qc = s.sec_high_qc;
    tc = s.sec_high_tc;
    tcs = s.sec_high_tc ∷ s.high_tc ∷ [];
    prev_id = s.high_qc.block_id;
  }
  | timeout_s ↦ record {
    state = update_high_tc (update_high_tc s none) none;
    qc = s.high_qc;
    tc = s.high_tc;
    tcs = s.sec_high_tc ∷ s.high_tc ∷ [];
    prev_id = s.high_block.id;
  }
]

-- Whether the choice sends the signal that drops the certificate of the vote collector.
unfoldable pub drops_qc : NewViewType → Bool
drops_qc v = elim v.propose_type [ no_timeout ↦ false | timeout_f ↦ true | timeout_s ↦ false ]

-- How many of the views have such a proposal.
abbrev pub drops : List NewViewType → ℕ
drops [] = 0
drops (v ∷ vs) = let n = drops vs in if drops_qc v then suc n else n

module _ (env : Env) where
  unfoldable pub make_proposal : MHotStuff → NewViewType → List Payload → Result (MHotStuff × Block)
  make_proposal s v payload = if drops_qc v && not (has_room s) then fault blocked else do
    let c = choose s v
    block ← make_block env v.view v.seq (some c.qc) c.tc c.tcs c.prev_id payload env.id
    ok (c.state, block)
