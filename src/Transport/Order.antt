-- ===== src/Transport/Order.antt =====
-- The order of messages between transports of transport/transport.go within a process.
use multipipelinehs.Prelude.{
  ℕ, ◌≡◌, ◌≢◌, refl, ap, sym, ◌∙◌, subst, some, List, [], ◌∷◌, ◌++◌, arith, All, All-append,
  ℕ_discrete, append_assoc, append-nil,
}
use multipipelinehs.Types.{ok}
use multipipelinehs.Transport.{Transport, send_message, recv_message, close, forward, deliver}
use multipipelinehs.Transport.Link.{
  Tagged, Link, of_sender, with_sender, LinkStep, LinkSteps, here, next, sends, forwards, delivers,
  receives, closes, IsFresh, arrived,
}

module _ {X : Type 0} where
  record IsOrdered (l : Link X) : Type 0 where
    pub own : (j : ℕ) → All (λ m. m.0 ≡ j) (l.senders j).send
    pub order : (j : ℕ) → of_sender j (arrived l) ++ (l.senders j).send ≡ of_sender j l.sent

  of_sender-append :
      (j : ℕ) (xs ys : List (Tagged X)) → of_sender j (xs ++ ys) ≡ of_sender j xs ++ of_sender j ys
  unfolding of_sender
  of_sender-append j [] ys = refl
  of_sender-append j (x ∷ xs) ys = ground (arith, of_sender-append j xs ys)

  IsFresh-IsOrdered : (l : Link X) → IsFresh l → IsOrdered l
  unfolding of_sender
  IsFresh-IsOrdered l h = record {
    own = λ j. rw (h.senders j) tt;
    order = λ j. rw (h.senders j, h.conn, h.receiver, h.received, h.sent) refl;
  }

  of_sender_self :
      (j : ℕ) (xs : List (Tagged X)) (m : Tagged X)
      → m.0 ≡ j
      → of_sender j (xs ++ m ∷ []) ≡ of_sender j xs ++ m ∷ []
  unfolding of_sender
  of_sender_self j xs m same = ground (arith, of_sender-append j xs (m ∷ []))

  of_sender_other :
      (j : ℕ) (xs : List (Tagged X)) (m : Tagged X)
      → m.0 ≢ j
      → of_sender j (xs ++ m ∷ []) ≡ of_sender j xs
  unfolding of_sender
  of_sender_other j xs m other =
      ground (arith, of_sender-append j xs (m ∷ []), append-nil (of_sender j xs))

  -- What holds for the changed sender and for each other one holds for all.
  with_sender_cases :
      (P : ℕ → Transport (Tagged X) → Type 0) (j : ℕ) (t : Transport (Tagged X))
      (senders : ℕ → Transport (Tagged X))
      → P j t
      → ((k : ℕ) → j ≢ k → P k (senders k))
      → (k : ℕ) → P k (with_sender j t senders k)
  with_sender_cases P j t senders self others k =
      elim (ℕ_discrete j k)
        as (λ d. P k (elim d as (λ _. Transport (Tagged X)) [ yes _ ↦ t | no _ ↦ senders k ])) [
          | yes same ↦ subst (λ q. P q t) same self
          | no other ↦ others k other
        ]

  -- A sender in order, of what arrived and what was sent.
  abbrev InOrder : List (Tagged X) → List (Tagged X) → ℕ → Transport (Tagged X) → Type 0
  InOrder there sent k t =
      All (λ m. m.0 ≡ k) t.send × (of_sender k there ++ t.send ≡ of_sender k sent)

  ordered : (l : Link X) → ((k : ℕ) → InOrder (arrived l) l.sent k (l.senders k)) → IsOrdered l
  ordered l h = record { own = λ k. (h k).0; order = λ k. (h k).1 }

  send_message-send :
      (t u : Transport (Tagged X)) (m : Tagged X)
      → send_message t m ≡ ok u
      → u.send ≡ t.send ++ m ∷ []
  unfolding send_message
  send_message-send t u m e = ground arith

  close-send : (t u : Transport (Tagged X)) → close t ≡ ok u → u.send ≡ t.send
  unfolding close
  close-send t u e = ground arith

  sends-IsOrdered :
      (l : Link X) (j : ℕ) (x : X) (t : Transport (Tagged X))
      → send_message (l.senders j) (j, x) ≡ ok t
      → IsOrdered l
      → IsOrdered (record l { senders = with_sender j t l.senders; sent = l.sent ++ (j, x) ∷ [] })
  sends-IsOrdered l j x t e h =
      let queue = send_message-send (l.senders j) t (j, x) e in
      ordered _ (
        with_sender_cases (InOrder (arrived l) (l.sent ++ (j, x) ∷ [])) j t l.senders
          (
            rw queue
                (All-append (λ m. m.0 ≡ j) (l.senders j).send ((j, x) ∷ []) (h.own j) (refl, tt)),
            ap (of_sender j (arrived l) ++◌) queue
                ∙ sym (append_assoc (of_sender j (arrived l)) (l.senders j).send ((j, x) ∷ []))
                ∙ ap (λ ms. ms ++ (j, x) ∷ []) (h.order j)
                ∙ sym (of_sender_self j l.sent (j, x) refl),
          )
          (λ k other. (h.own k, h.order k ∙ sym (of_sender_other k l.sent (j, x) other))))

  closes-IsOrdered :
      (l : Link X) (j : ℕ) (t : Transport (Tagged X))
      → close (l.senders j) ≡ ok t
      → IsOrdered l
      → IsOrdered (record l { senders = with_sender j t l.senders })
  closes-IsOrdered l j t e h =
      let queue = close-send (l.senders j) t e in
      ordered _ (
        with_sender_cases (InOrder (arrived l) l.sent) j t l.senders
          (rw queue (h.own j), rw queue (h.order j)) (λ k other. (h.own k, h.order k)))

  -- A change that leaves the senders, and what arrived, as they are.
  moved-IsOrdered :
      (l k : Link X)
      → k.senders ≡ l.senders
      → k.sent ≡ l.sent
      → arrived k ≡ arrived l
      → IsOrdered l
      → IsOrdered k
  moved-IsOrdered l k senders sent same h = record {
    own = λ j. rw senders (h.own j);
    order = λ j. rw (senders, sent, same) (h.order j);
  }

  deliver_all :
      (t : Transport (Tagged X)) (conn : List (Tagged X))
      → (deliver t conn).0.recv ++ (deliver t conn).1 ≡ t.recv ++ conn
  unfolding deliver
  deliver_all t [] = refl
  deliver_all t (m ∷ rest) = append_assoc t.recv (m ∷ []) rest

  delivers-IsOrdered :
      (l : Link X)
      → IsOrdered l
      → IsOrdered (record l {
        receiver = (deliver l.receiver l.conn).0;
        conn = (deliver l.receiver l.conn).1;
      })
  delivers-IsOrdered l h =
      moved-IsOrdered l
        (record l {
          receiver = (deliver l.receiver l.conn).0;
          conn = (deliver l.receiver l.conn).1;
        })
        refl refl (ap (l.received ++◌) (deliver_all l.receiver l.conn)) h

  recv_message-recv :
      (t u : Transport (Tagged X)) (m : Tagged X)
      → recv_message t ≡ some (m, u)
      → t.recv ≡ m ∷ u.recv
  unfolding recv_message
  recv_message-recv t u m e = ground arith

  receives-IsOrdered :
      (l : Link X) (m : Tagged X) (t : Transport (Tagged X))
      → recv_message l.receiver ≡ some (m, t)
      → IsOrdered l
      → IsOrdered (record l { receiver = t; received = l.received ++ m ∷ [] })
  receives-IsOrdered l m t e h =
      moved-IsOrdered l (record l { receiver = t; received = l.received ++ m ∷ [] }) refl refl
        (append_assoc l.received (m ∷ []) (t.recv ++ l.conn)
          ∙ ap (λ ms. l.received ++ (ms ++ l.conn)) (sym (recv_message-recv l.receiver t m e)))
        h

  -- Three queues behind one another, and one more message at the end.
  append_last :
      (xs ys zs : List (Tagged X)) (m : Tagged X)
      → xs ++ (ys ++ (zs ++ m ∷ [])) ≡ (xs ++ (ys ++ zs)) ++ m ∷ []
  append_last xs ys zs m =
      ap (xs ++◌) (sym (append_assoc ys zs (m ∷ []))) ∙ sym (append_assoc xs (ys ++ zs) (m ∷ []))

  -- A turn of the j-th sender, by what it leaves.
  AfterForward : Link X → ℕ → Transport (Tagged X) × List (Tagged X) → Type 0
  AfterForward l j r =
      InOrder (l.received ++ (l.receiver.recv ++ r.1)) l.sent j r.0
      × ((k : ℕ) → j ≢ k → InOrder (l.received ++ (l.receiver.recv ++ r.1)) l.sent k (l.senders k))

  forward-AfterForward :
      (l : Link X) (j : ℕ) (queue : List (Tagged X))
      → (l.senders j).send ≡ queue
      → IsOrdered l
      → AfterForward l j (forward (l.senders j) l.conn)
  unfolding forward AfterForward
  forward-AfterForward l j [] e h =
      let own = subst (λ q. of_sender j (arrived l) ++ q ≡ of_sender j l.sent) e (h.order j) in
      rw e ((tt, own), λ k other. (h.own k, h.order k))
  forward-AfterForward l j (m ∷ rest) e h =
      let last = append_last l.received l.receiver.recv l.conn m in
      let mine : (m.0 ≡ j) × All (λ m. m.0 ≡ j) rest = subst (All (λ m. m.0 ≡ j)) e (h.own j) in
      rw e (
        (
          mine.1,
          ap (λ there. of_sender j there ++ rest) last
              ∙ ap (λ ms. ms ++ rest) (of_sender_self j (arrived l) m mine.0)
              ∙ append_assoc (of_sender j (arrived l)) (m ∷ []) rest
              ∙ ap (of_sender j (arrived l) ++◌) (sym e)
              ∙ h.order j,
        ),
        λ k other. (
          h.own k,
          ap (λ there. of_sender k there ++ (l.senders k).send) last
              ∙ ap (λ ms. ms ++ (l.senders k).send)
                  (of_sender_other k (arrived l) m (λ same. other (sym mine.0 ∙ same)))
              ∙ h.order k,
        ),
      )

  forwards-IsOrdered :
      (l : Link X) (j : ℕ) (r : Transport (Tagged X) × List (Tagged X))
      → AfterForward l j r
      → IsOrdered (record l { senders = with_sender j r.0 l.senders; conn = r.1 })
  unfolding AfterForward
  forwards-IsOrdered l j r h =
      ordered (record l { senders = with_sender j r.0 l.senders; conn = r.1 })
        (with_sender_cases (InOrder (l.received ++ (l.receiver.recv ++ r.1)) l.sent) j r.0 l.senders
          h.0 h.1)

  LinkStep-IsOrdered : {l k : Link X} → LinkStep l k → IsOrdered l → IsOrdered k
  LinkStep-IsOrdered {l} (sends j x t e) h = sends-IsOrdered l j x t e h
  LinkStep-IsOrdered {l} (forwards j) h =
      forwards-IsOrdered l j (forward (l.senders j) l.conn)
        (forward-AfterForward l j (l.senders j).send refl h)
  LinkStep-IsOrdered {l} delivers h = delivers-IsOrdered l h
  LinkStep-IsOrdered {l} (receives m t e) h = receives-IsOrdered l m t e h
  LinkStep-IsOrdered {l} (closes j t e) h = closes-IsOrdered l j t e h

  LinkSteps-IsOrdered : {l k : Link X} → LinkSteps l k → IsOrdered l → IsOrdered k
  LinkSteps-IsOrdered here h = h
  LinkSteps-IsOrdered (next r st) h = LinkStep-IsOrdered st (LinkSteps-IsOrdered r h)

  -- Let any number of transports within the process be connected to one that listens, each by one
  -- goroutine, with all channels empty. After any sequence of sends, closes, turns of their
  -- goroutines and receives, for each sender, what was received from it, then what the listening
  -- transport and the connection hold of it, and then what its own channel holds, are all that it
  -- ever sent, in the order of the sends: nothing is lost, repeated or reordered, whatever the
  -- interleaving with the others.
  pub received-InOrder :
      {l k : Link X} (j : ℕ)
      → IsFresh l
      → LinkSteps l k
      → of_sender j k.received ++ (of_sender j (k.receiver.recv ++ k.conn) ++ (k.senders j).send)
        ≡ of_sender j k.sent
  received-InOrder {l} {k} j fresh r =
      let h = LinkSteps-IsOrdered r (IsFresh-IsOrdered l fresh) in
      let there = k.receiver.recv ++ k.conn in
      sym (append_assoc (of_sender j k.received) (of_sender j there) (k.senders j).send)
      ∙ ap (λ ms. ms ++ (k.senders j).send) (sym (of_sender-append j k.received there))
      ∙ h.order j
