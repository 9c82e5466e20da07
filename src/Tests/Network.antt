-- ===== src/Tests/Network.antt =====
-- Three nodes that send to each other, two histories of a key, and the keys of a group.
use multipipelinehs.Prelude.{
  none, some, ℕ, ◌≡◌, ◌↔◌, refl, true, false, [], ◌∷◌, not, ◌&&◌, if◌then◌else◌, arith, ltb, get,
  put, ℕ_discrete,
}
use multipipelinehs.Prelude.Count.{elem, keys}
use multipipelinehs.Env.{same_node}
use multipipelinehs.Types.{NodeId, node_id_discrete, ok}
use multipipelinehs.Config.{Addresses}
use multipipelinehs.Socket.{
  Chances, Socket, Luck, new_socket, inject_slow, inject_flaky, broadcast, broadcast_to, send,
  send_on, connect, enqueue, is_dropped, is_slow, is_lost,
}
use multipipelinehs.Socket.Connections.{queue_of, is_open}
use multipipelinehs.Socket.Broadcast.{CanDial, broadcast-Reaches}
use multipipelinehs.Utils.{retry, retry_from}
use multipipelinehs.Identity.{node, itoa, itoa_fuel}
use multipipelinehs.Client.{
  put_error, put_requests, Histories, consensus, agree_from, values_at, longest,
}
use multipipelinehs.Client.Consensus.{consensus_iff, SameAt}
use multipipelinehs.Crypto.Keys.{
  ecdsa_p256, all_made, copies, new_buffer, set_keys, set_keys-copies,
}

abbrev one : NodeId
one = b'1' ∷ []

abbrev two : NodeId
two = b'2' ∷ []

abbrev three : NodeId
three = b'3' ∷ []

abbrev percents : Chances
percents = record { Chance = ℕ; never = 0; is_positive = ltb 0 }

abbrev three_addresses : Addresses
three_addresses = (one, b'a' ∷ []) ∷ (two, b'b' ∷ []) ∷ (three, b'c' ∷ []) ∷ []

-- Node 3 is slow, and node 2 is flaky but this time lucky; the second attempt to dial succeeds.
abbrev sender : Socket percents ℕ
sender = inject_flaky (inject_slow (new_socket one three_addresses) three 20) two 50

abbrev lucky : NodeId → Luck
lucky id = record { loses = false; dials = λ i. ltb 0 i }

abbrev sent : Socket percents ℕ
sent = record sender {
  nodes = (one, []) ∷ (two, 7 ∷ []) ∷ (three, []) ∷ [];
  delayed = (three, 7) ∷ [];
}

broadcast_seven : broadcast sender 7 lucky ≡ ok sent
unfolding broadcast broadcast_to send send_on connect enqueue is_dropped is_slow is_lost new_socket
    inject_slow inject_flaky retry retry_from same_node node_id_discrete ℕ_discrete get put
broadcast_seven = refl

lucky_dials : CanDial lucky
unfolding retry retry_from
lucky_dials id = refl

broadcast-Reaches_example :
    (t : Socket percents ℕ) × ((broadcast sender 7 lucky ≡ ok t)
      × (queue_of t two ≡ (
          if elem node_id_discrete two (keys node_id_discrete sender.addresses)
            && (not (same_node two sender.id) && is_open sender two false)
          then 7 ∷ queue_of sender two
          else queue_of sender two)))
unfolding new_socket inject_slow inject_flaky elem node_id_discrete ℕ_discrete
broadcast-Reaches_example =
    broadcast-Reaches sender 7 lucky two (refl, (refl, (refl, tt))) lucky_dials

abbrev histories : Histories
histories = (one, (b'x' ∷ []) ∷ (b'y' ∷ []) ∷ []) ∷ (two, (b'x' ∷ []) ∷ []) ∷ []

abbrev odd_histories : Histories
odd_histories = (one, (b'x' ∷ []) ∷ []) ∷ (two, (b'y' ∷ []) ∷ []) ∷ []

they_agree : consensus histories ≡ true
unfolding consensus agree_from values_at longest put node_id_discrete ℕ_discrete
they_agree = refl

they_differ : consensus odd_histories ≡ false
unfolding consensus agree_from values_at longest put node_id_discrete ℕ_discrete
they_differ = refl

consensus_iff_example : (consensus histories ≡ true) ↔ ((i : ℕ) → SameAt i histories)
consensus_iff_example = consensus_iff histories

-- The error of the first request is lost.
lost_error : put_error {E = ℕ} none (some 1 ∷ none ∷ []) ≡ none
unfolding put_error
lost_error = refl

second_urls : put_requests ((two, b'h' ∷ []) ∷ []) 9 ≡ (two, b'h' ∷ b'/' ∷ b'1' ∷ b'1' ∷ []) ∷ []
unfolding put_requests node itoa itoa_fuel
second_urls = refl

-- A key that is its seed.
set_keys-copies_example :
    set_keys (λ seed. seed) ecdsa_p256 2 ≡ ok (all_made (copies (λ seed. seed) 2 (new_buffer 40)))
set_keys-copies_example = set_keys-copies (λ seed. seed) 2 (omega arith)
