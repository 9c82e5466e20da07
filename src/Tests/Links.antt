-- ===== src/Tests/Links.antt =====
-- Transports within a process, and the addresses of transports.
use multipipelinehs.Prelude.{
  Option, some, none, ℕ, ◌≡◌, refl, true, false, [], ◌∷◌, ◌++◌, get, put, ℕ_discrete,
}
use multipipelinehs.Types.{fault, panic, NodeId, node_id_discrete, ok}
use multipipelinehs.Config.{Text}
use multipipelinehs.Transport.{
  tcp, Process, dial, listen, has_scheme, new_transport, choose_transport, chan, made_transport,
  send_message, forward, deliver,
}
use multipipelinehs.Transport.Order.{received-InOrder}
use multipipelinehs.Transport.Link.{
  Link, LinkSteps, here, next, sends, forwards, delivers, with_sender, IsFresh, of_sender,
}

abbrev one : NodeId
one = b'1' ∷ []

abbrev two : NodeId
two = b'2' ∷ []

abbrev quiet : Link ℕ
quiet = record {
  senders = λ j. made_transport chan one;
  conn = [];
  receiver = made_transport chan two;
  received = [];
  sent = [];
}

-- Sender 0 sends 5, it passes it on, sender 1 sends 7, and the listener takes what has come.
abbrev first_sent : Link ℕ
first_sent = record quiet {
  senders = with_sender 0 (record (made_transport chan one) { send = (0, 5) ∷ [] }) quiet.senders;
  sent = (0, 5) ∷ [];
}

abbrev passed_on : Link ℕ
passed_on = record first_sent {
  senders = with_sender 0 (forward (first_sent.senders 0) first_sent.conn).0 first_sent.senders;
  conn = (forward (first_sent.senders 0) first_sent.conn).1;
}

abbrev second_sent : Link ℕ
second_sent = record passed_on {
  senders =
      with_sender 1 (record (made_transport chan one) { send = (1, 7) ∷ [] }) passed_on.senders;
  sent = (0, 5) ∷ (1, 7) ∷ [];
}

abbrev delivered : Link ℕ
delivered = record second_sent {
  receiver = (deliver second_sent.receiver second_sent.conn).0;
  conn = (deliver second_sent.receiver second_sent.conn).1;
}

quiet-IsFresh : IsFresh quiet
unfolding made_transport
quiet-IsFresh = record {
  senders = λ j. refl;
  conn = refl;
  receiver = refl;
  received = refl;
  sent = refl;
}

link_run : LinkSteps quiet delivered
unfolding send_message made_transport forward ℕ_discrete
link_run =
    next
      (next (next (next here (sends 0 5 _ refl)) (forwards 0))
        (sends 1 7 (record (made_transport chan one) { send = (1, 7) ∷ [] }) refl))
      delivers

received-InOrder_example :
    of_sender 0 delivered.received
      ++ (of_sender 0 (delivered.receiver.recv ++ delivered.conn) ++ (delivered.senders 0).send)
    ≡ of_sender 0 delivered.sent
received-InOrder_example = received-InOrder 0 quiet-IsFresh link_run

-- An address as its own host, of the scheme before the colon.
abbrev parse_tcp : Text → Option (Text × Text)
parse_tcp addr = some (b't' ∷ b'c' ∷ b'p' ∷ [], addr)

scheme_found : has_scheme (b'a' ∷ b':' ∷ b':' ∷ b'/' ∷ b'/' ∷ b'x' ∷ []) ≡ true
unfolding has_scheme
scheme_found = refl

scheme_missing : has_scheme (b'a' ∷ b':' ∷ b'1' ∷ b'/' ∷ []) ≡ false
unfolding has_scheme
scheme_missing = refl

scheme_added :
    new_transport {M = ℕ} parse_tcp (b't' ∷ []) (b'a' ∷ [])
    ≡ ok (made_transport tcp (b't' ∷ b':' ∷ b'/' ∷ b'/' ∷ b'a' ∷ []))
unfolding new_transport has_scheme choose_transport node_id_discrete ℕ_discrete
scheme_added = refl

scheme_unknown :
    new_transport {M = ℕ} (λ addr. some (b'u' ∷ [], addr)) (b't' ∷ []) (b'a' ∷ []) ≡ fault panic
unfolding new_transport has_scheme choose_transport node_id_discrete ℕ_discrete
scheme_unknown = refl

-- A second listener of a host takes its place.
abbrev no_hosts : Process ℕ
no_hosts = record { chans = []; conns = [] }

not_ready : dial no_hosts (made_transport chan one) ≡ none
unfolding dial get made_transport
not_ready = refl

dialed_second :
    (let p = (listen (listen no_hosts (made_transport chan one)).0 (made_transport chan one)).0 in
      dial p (made_transport chan one))
    ≡ some (record (made_transport chan one) { dialed = 1 ∷ [] })
unfolding dial listen get put made_transport node_id_discrete ℕ_discrete
dialed_second = refl
