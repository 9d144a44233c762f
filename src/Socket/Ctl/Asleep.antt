-- ===== src/Socket/Ctl/Asleep.antt =====
-- raiot-client/src/iot_socket.rs: a task that waits for a message without packet identifier, and the
-- parts of the steps of the queue.
use raiot_rs.Base.{
  ℕ, ◌<◌, ◌≡◌, ◌≢◌, ap, sym, subst, List, [], ◌∷◌, ◌++◌, Option, none, some, IoResult, returns,
  arith, returns_injective, ◌⊎◌, inl, inr, Option-cases,
}
use raiot_rs.Protocol.Messages.{
  MsgToHub, MsgFromHub, packet_id, subscription_response_message, publication_succeeded,
}
use raiot_rs.Protocol.Types.{PacketId}
use raiot_rs.Socket.{MsgStatus, acknowledged, status_of, MessageInFlight, MessageFuture, poll}
use raiot_rs.Socket.Ctl.{
  Acks, find, remove, register, IotSocketCtl, tx_send, take_next_outgoing_msg, after_send,
  handle_ack, handle_incoming_msg,
}
use raiot_rs.Socket.Ctl.Acks.{cell-handle_ack, awaiting_acks-handle_ack, woken-handle_ack}
use raiot_rs.Socket.Ctl.Order.{unsent}

abbrev pub NoEntry : ℕ → Acks → Type 0
NoEntry p [] = Unit {0}
NoEntry p ((k, q) ∷ acks) = (q ≢ p) × NoEntry p acks

-- A message of another state, or one without packet identifier.
abbrev pub Unnumbered : {J M : Type 0} → ℕ → MessageInFlight J M → Type 0
Unnumbered p m = (m.state ≢ p) ⊎ (packet_id m.msg ≡ none)

abbrev pub AllUnnumbered : {J M : Type 0} → ℕ → List (MessageInFlight J M) → Type 0
AllUnnumbered p [] = Unit {0}
AllUnnumbered p (m ∷ ms) = Unnumbered p m × AllUnnumbered p ms

AllUnnumbered-append :
    {J M : Type 0} (p : ℕ) (ms : List (MessageInFlight J M)) (m : MessageInFlight J M)
    → AllUnnumbered p ms
    → m.state ≢ p
    → AllUnnumbered p (ms ++ (m ∷ []))
AllUnnumbered-append p [] m h ne = (inl ne, tt)
AllUnnumbered-append p (x ∷ ms) m (k, h) ne = (k, AllUnnumbered-append p ms m h ne)

-- A waker that was not woken.
abbrev pub NotIn : ℕ → List ℕ → Type 0
NotIn w [] = Unit {0}
NotIn w (v ∷ woken) = (v ≢ w) × NotIn w woken

NotIn-wake :
    (w : ℕ) (o : Option ℕ) (woken : List ℕ)
    → o ≢ some w
    → NotIn w woken
    → NotIn w (elim o [ none ↦ woken | some v ↦ v ∷ woken ])
NotIn-wake w none woken ne h = h
NotIn-wake w (some v) woken ne h = (λ same. ne (ap some same), h)

NoEntry-register :
    (p : ℕ) (id : Option PacketId) (q : ℕ) (acks : Acks)
    → NoEntry p acks
    → q ≢ p
    → NoEntry p (register id q acks)
unfolding register
NoEntry-register p none q acks h ne = h
NoEntry-register p (some id) q acks h ne = ground arith

NoEntry-remove : (p id : ℕ) (acks : Acks) → NoEntry p acks → NoEntry p (remove id acks)
NoEntry-remove p id [] h = tt
NoEntry-remove p id ((k, q) ∷ acks) (ne, h) = ground (arith, NoEntry-remove p id acks h)

pub NoEntry-Unnumbered :
    {J M : Type 0} (p : ℕ) (m : MessageInFlight J M) (acks : Acks)
    → Unnumbered p m
    → NoEntry p acks
    → NoEntry p (register (packet_id m.msg) m.state acks)
unfolding register
NoEntry-Unnumbered p m acks (inl ne) h = NoEntry-register p (packet_id m.msg) m.state acks h ne
NoEntry-Unnumbered p m acks (inr no_id) h = rw no_id h

find-NoEntry : (p id : ℕ) (acks : Acks) (q : ℕ) → NoEntry p acks → find id acks ≡ some q → q ≢ p
find-NoEntry p id [] q h e = cc
find-NoEntry p id ((k, r) ∷ acks) q (ne, h) e = ground (arith, find-NoEntry p id acks q h)

later : (p n : ℕ) → p < n → n ≢ p
later p n h e = omega arith

-- The task with the waker `w` waits for the message of the state `p` and for no other, and was not
-- woken. The message, if it is not sent yet, has no packet identifier, so that no acknowledgement to
-- come refers to it.
pub record Asleep {J M S : Type 0} (p w : ℕ) (c : IotSocketCtl J M S) : Type 0 where
  pub known : p < c.heap.next
  pub unawaited : NoEntry p c.awaiting_acks
  pub unnumbered : AllUnnumbered p (unsent c)
  pub waits : (c.heap.cell p).waker ≡ some w
  pub alone : (q : ℕ) → q ≢ p → (c.heap.cell q).waker ≢ some w
  pub unwoken : NotIn w c.heap.woken

module _ {J M S : Type 0} (p w : ℕ) where
  unsent-tx_send :
      (c : IotSocketCtl J M S) (msg : MsgToHub J M) (f : MessageFuture) {c' : IotSocketCtl J M S}
      → tx_send c msg ≡ returns (f, c')
      → unsent c' ≡ unsent c ++ (record { msg = msg; state = c.heap.next } ∷ [])
  unfolding tx_send
  unsent-tx_send c msg f e = ground arith

  pub tx_send-Asleep :
      (c : IotSocketCtl J M S) (msg : MsgToHub J M) (f : MessageFuture) {c' : IotSocketCtl J M S}
      → tx_send c msg ≡ returns (f, c')
      → Asleep p w c
      → Asleep p w c'
  unfolding tx_send
  tx_send-Asleep c msg f {c'} e h = record {
    known = ground (arith, h.known);
    unawaited = ground (arith, h.unawaited);
    unnumbered = subst (AllUnnumbered p) (sym (unsent-tx_send c msg f e)) (
        AllUnnumbered-append p (unsent c) (record { msg = msg; state = c.heap.next }) h.unnumbered
          (later p c.heap.next h.known));
    waits = ground (arith, h.waits, h.known);
    alone = λ q ne. ground (arith, h.alone q ne);
    unwoken = ground (arith, h.unwoken);
  }

  pub poll-Asleep :
      (c : IotSocketCtl J M S) (f : MessageFuture) (v : ℕ)
      → (f.state ≢ p) × (v ≢ w)
      → Asleep p w c
      → Asleep p w (record c { heap = (poll c.heap f v).1 })
  unfolding poll
  poll-Asleep c f v (ne, other) h = record {
    known = ground (arith, h.known);
    unawaited = h.unawaited;
    unnumbered = h.unnumbered;
    waits = ground (arith, h.waits);
    alone = λ q ne'. ground (arith, h.alone q ne');
    unwoken = ground (arith, h.unwoken);
  }

  handle_ack-Asleep :
      (c : IotSocketCtl J M S) (k : PacketId) (status : MsgStatus)
      → Asleep p w c
      → Asleep p w (handle_ack c k status)
  unfolding handle_ack
  handle_ack-Asleep c k status h = elim (Option-cases (find k.value c.awaiting_acks)) [
    | inl missing ↦ rw (handle_ack, missing) h
    | inr (q0, entry) ↦
        let ne = find-NoEntry p k.value c.awaiting_acks q0 h.unawaited entry in
        record {
          known = ground (arith, h.known, entry);
          unawaited =
              subst (NoEntry p) (sym (awaiting_acks-handle_ack c k status q0 entry))
                (NoEntry-remove p k.value c.awaiting_acks h.unawaited);
          unnumbered = ground (arith, h.unnumbered, entry);
          waits = ground (arith, h.waits, cell-handle_ack c k status q0 entry p);
          alone = λ q ne'. ground (arith, h.alone q ne', cell-handle_ack c k status q0 entry q);
          unwoken =
              subst (NotIn w) (sym (woken-handle_ack c k status q0 entry))
                (NotIn-wake w (c.heap.cell q0).waker c.heap.woken (h.alone q0 ne) h.unwoken);
        }
  ]

  pub handle_incoming-Asleep :
      (c : IotSocketCtl J M S) (msg : MsgFromHub J M) {c' : IotSocketCtl J M S}
      → Asleep p w c
      → handle_incoming_msg c msg ≡ returns c'
      → Asleep p w c'
  unfolding handle_incoming_msg
  handle_incoming-Asleep c (subscription_response_message res) h e =
      subst (Asleep p w) (returns_injective e) (handle_ack-Asleep c res.packet_id (status_of res) h)
  handle_incoming-Asleep c (publication_succeeded k) h e =
      subst (Asleep p w) (returns_injective e) (handle_ack-Asleep c k acknowledged h)
  handle_incoming-Asleep c msg h e = record {
    known = ground (arith, h.known);
    unawaited = ground (arith, h.unawaited);
    unnumbered = ground (arith, h.unnumbered);
    waits = ground (arith, h.waits);
    alone = λ q ne. ground (arith, h.alone q ne);
    unwoken = ground (arith, h.unwoken);
  }

  pub after_send-Asleep :
      (res : IoResult (Unit {0})) (m : MessageInFlight J M) (len : ℕ) (c : IotSocketCtl J M S)
      → Unnumbered p m
      → c.tx_buf ≡ none
      → Asleep p w c
      → Asleep p w (after_send res m len c).1
  unfolding after_send
  after_send-Asleep res m len c numbered free h = record {
    known = ground (arith, h.known);
    unawaited = ground (arith, h.unawaited);
    unnumbered = ground (arith, h.unnumbered);
    waits = ground (arith, h.waits);
    alone = λ q ne. ground (arith, h.alone q ne);
    unwoken = ground (arith, h.unwoken);
  }

  pub take-Asleep :
      (c : IotSocketCtl J M S) (o : Option (MessageInFlight J M)) (c' : IotSocketCtl J M S)
      → take_next_outgoing_msg c ≡ returns (o, c')
      → Asleep p w c
      → Asleep p w c'
  unfolding take_next_outgoing_msg
  take-Asleep c o c' e h = record {
    known = ground (arith, h.known);
    unawaited = ground (arith, h.unawaited);
    unnumbered = ground (arith, h.unnumbered);
    waits = ground (arith, h.waits);
    alone = λ q ne. ground (arith, h.alone q ne);
    unwoken = ground (arith, h.unwoken);
  }

  pub take-Unnumbered :
      (c : IotSocketCtl J M S) (m : MessageInFlight J M) (c' : IotSocketCtl J M S)
      → take_next_outgoing_msg c ≡ returns (some m, c')
      → Asleep p w c
      → Unnumbered p m × (c'.tx_buf ≡ none)
  unfolding take_next_outgoing_msg
  take-Unnumbered c m c' e h = let q = h.unnumbered in ground arith
