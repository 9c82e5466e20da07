-- ===== src/Replica/Alike.antt =====
-- The turns of a replica and what they leave alone: the protocol, the
-- views that are taken and the proposals.
use multipipelinehs.Prelude.{◌≡◌, refl, ◌∙◌, true, List, [], ◌∷◌, arith, ◌⊎◌}
use multipipelinehs.Types.{Block, Vote, Tmo}
use multipipelinehs.Env.{Env}
use multipipelinehs.MHotStuff.{Event}
use multipipelinehs.Safety.{Safety}
use multipipelinehs.Replica.{
  Replica, Packet, proposal, tmo_packet, vote_packet, deliver, deliver_all, start_signal,
  handle_block, handle_vote, handle_tmo, handle_query,
}
use multipipelinehs.Replica.Loops.{
  clean_block, process_forked_block, take_clean, take_forked, process_committed_block,
  take_committed, take_start,
}

-- The blocks that a replica proposed, the latest first.
abbrev pub proposals : List Packet → List Block
proposals [] = []
proposals (proposal b ∷ ps) = b ∷ proposals ps
proposals (tmo_packet tmo ∷ ps) = proposals ps
proposals (vote_packet to v ∷ ps) = proposals ps

-- After the start signal, either it stands in its channel or `Start` has taken it.
abbrev pub IsAwake : {p : Safety} → Replica p → Type 0
IsAwake r = r.is_started ≡ true → (r.start ≡ true) ⊎ (r.running ≡ true)

-- Two replicas that differ at most in channels and counters.
pub record Alike {p : Safety} (r t : Replica p) : Type 0 where
  pub protocol : t.protocol ≡ r.protocol
  pub heard : t.heard ≡ r.heard
  pub queue : t.new_view_chan ≡ r.new_view_chan
  pub made : proposals t.network ≡ proposals r.network
  pub awake : IsAwake r → IsAwake t

pub Alike-refl : {p : Safety} (r : Replica p) → Alike r r
Alike-refl r = record { protocol = refl; heard = refl; queue = refl; made = refl; awake = λ h. h }

pub Alike-trans : {p : Safety} (r t u : Replica p) → Alike r t → Alike t u → Alike r u
Alike-trans r t u a b = record {
  protocol = b.protocol ∙ a.protocol;
  heard = b.heard ∙ a.heard;
  queue = b.queue ∙ a.queue;
  made = b.made ∙ a.made;
  awake = λ h. b.awake (a.awake h);
}

deliver-Alike : {p : Safety} (e : Event) (r : Replica p) → Alike r (deliver e r)
unfolding deliver
deliver-Alike e r = ground arith

pub deliver_all-Alike : {p : Safety} (es : List Event) (r : Replica p) → Alike r (deliver_all es r)
unfolding deliver_all
deliver_all-Alike [] r = Alike-refl r
deliver_all-Alike (e ∷ es) r =
    let t = deliver_all es r in Alike-trans r t _ (deliver_all-Alike es r) (deliver-Alike e t)

deliver-running : {p : Safety} (e : Event) (r : Replica p) → (deliver e r).running ≡ r.running
unfolding deliver
deliver-running e r = ground arith

pub deliver_all-running :
    {p : Safety} (es : List Event) (r : Replica p) → (deliver_all es r).running ≡ r.running
unfolding deliver_all
deliver_all-running [] r = refl
deliver_all-running (e ∷ es) r = deliver-running e (deliver_all es r) ∙ deliver_all-running es r

pub start_signal-Alike : {p : Safety} (r : Replica p) → Alike r (start_signal r)
unfolding start_signal
start_signal-Alike r = ground arith

pub handle_block-Alike : {p : Safety} (r : Replica p) (b : Block) → Alike r (handle_block r b)
unfolding handle_block start_signal
handle_block-Alike r b = ground arith

pub handle_vote-Alike : {p : Safety} (r : Replica p) (v : Vote) → Alike r (handle_vote r v)
unfolding handle_vote start_signal
handle_vote-Alike r v = ground arith

pub handle_tmo-Alike : {p : Safety} (r : Replica p) (tmo : Tmo) → Alike r (handle_tmo r tmo)
unfolding handle_tmo
handle_tmo-Alike r tmo = ground arith

pub handle_query-Alike : {p : Safety} (r : Replica p) → Alike r (handle_query r)
unfolding handle_query
handle_query-Alike r = ground arith

pub take_start-Alike : {p : Safety} (r : Replica p) → Alike r (take_start r)
unfolding take_start
take_start-Alike r = ground arith

pub take_clean-Alike : {p : Safety} (r : Replica p) → Alike r (take_clean r)
unfolding take_clean clean_block
take_clean-Alike r = ground arith

pub take_forked-Alike : {p : Safety} (r : Replica p) → Alike r (take_forked r)
unfolding take_forked process_forked_block
take_forked-Alike r = ground arith

pub take_committed-Alike : (env : Env) {p : Safety} (r : Replica p) → Alike r (take_committed env r)
unfolding take_committed process_committed_block
take_committed-Alike env r = ground arith
