-- ===== src/Socket/Ctl/Waking.antt =====
-- raiot-client/src/iot_socket.rs: the acknowledgement of a message completes its future, whatever
-- happens in between.
use raiot_rs.Base.{
  ℕ, ◌≡◌, ◌≢◌, refl, ap, subst, Bool, List, ◌∷◌, Option, none, some, take, ok, err, IoResult, Call,
  returns, panics, arith, returns_injective,
}
use raiot_rs.Packets.{Encoder}
use raiot_rs.Protocol.Messages.{
  MsgToHub, MsgFromHub, subscription_response_message, publication_succeeded,
}
use raiot_rs.Protocol.Mqtt.{VariablePacket, Crates}
use raiot_rs.Protocol.Types.{PacketId}
use raiot_rs.Protocol.Errors.{Coded, done, fails, panicked}
use raiot_rs.Protocol.Encode.Buffer.{encode}
use raiot_rs.Socket.{
  MsgStatus, acknowledged, status_of, MessageInFlight, MessageFuture, ready, poll,
}
use raiot_rs.Socket.Ctl.{
  NonblockingSocket, find, IotSocketCtl, tx_send, take_next_outgoing_msg, after_send, send_encoded,
  send_taken, send_next, handle_ack, handle_incoming_msg,
}
use raiot_rs.Socket.Ctl.Acks.{find-remove, find-register, cell-handle_ack, woken-handle_ack}
use raiot_rs.Socket.Ctl.Runs.{
  Action, puts, polls, sends, arrives, act, run, second-eq-returns, AllAllowed, run_keeps,
}

-- The message with the identifier `id` and the state `p` waits for its acknowledgement.
abbrev pub Awaited : {J M S : Type 0} → ℕ → ℕ → IotSocketCtl J M S → Type 0
Awaited id p c = find id c.awaiting_acks ≡ some p

-- Anything but an answer to `id`.
abbrev pub NoAnswer : {J M : Type 0} → ℕ → Action J M → Type 0
NoAnswer id (arrives (subscription_response_message res)) = res.packet_id.value ≢ id
NoAnswer id (arrives (publication_succeeded k)) = k.value ≢ id
NoAnswer id _ = Unit {0}

module _ {J M S : Type 0} (id p : ℕ) where
  after_send-Awaited :
      (res : IoResult (Unit {0})) (m : MessageInFlight J M) (len : ℕ) (c : IotSocketCtl J M S)
      → Awaited id p c
      → Awaited id p (after_send res m len c).1
  unfolding after_send
  after_send-Awaited (ok _) m len c h = h
  after_send-Awaited (err e) m len c h = ground arith

  take-Awaited :
      (c : IotSocketCtl J M S) (o : Option (MessageInFlight J M)) (c' : IotSocketCtl J M S)
      → Awaited id p c
      → take_next_outgoing_msg c ≡ returns (o, c')
      → Awaited id p c'
  unfolding take_next_outgoing_msg
  take-Awaited c o c' h e = ground arith

  tx_send-Awaited :
      (c : IotSocketCtl J M S) (msg : MsgToHub J M) (f : MessageFuture) {c' : IotSocketCtl J M S}
      → tx_send c msg ≡ returns (f, c')
      → Awaited id p c
      → Awaited id p c'
  unfolding tx_send
  tx_send-Awaited c msg f e h = ground arith

  handle_ack-Awaited :
      (c : IotSocketCtl J M S) (k : PacketId) (status : MsgStatus)
      → k.value ≢ id
      → Awaited id p c
      → Awaited id p (handle_ack c k status)
  unfolding handle_ack
  handle_ack-Awaited c k status ne h = ground (arith, find-remove id k.value c.awaiting_acks)

  handle_incoming-Awaited :
      (c : IotSocketCtl J M S) (msg : MsgFromHub J M) {c' : IotSocketCtl J M S}
      → NoAnswer id (arrives msg)
      → Awaited id p c
      → handle_incoming_msg c msg ≡ returns c'
      → Awaited id p c'
  unfolding handle_incoming_msg
  handle_incoming-Awaited c (subscription_response_message res) ne h e =
      subst (Awaited id p) (returns_injective e)
        (handle_ack-Awaited c res.packet_id (status_of res) ne h)
  handle_incoming-Awaited c (publication_succeeded k) ne h e =
      subst (Awaited id p) (returns_injective e) (handle_ack-Awaited c k acknowledged ne h)
  handle_incoming-Awaited c msg ne h e = ground arith

module _ {J M S : Type 0} (crates : Crates J M) (mqtt : Encoder VariablePacket)
    (io : NonblockingSocket S) (id p : ℕ) where
  send_encoded-Awaited :
      (m : MessageInFlight J M) (c : IotSocketCtl J M S) (x : Coded (ℕ × List ℕ)) {b : Bool}
      {c' : IotSocketCtl J M S}
      → Awaited id p c
      → send_encoded crates mqtt io c m x ≡ returns (b, c')
      → Awaited id p c'
  unfolding send_encoded
  send_encoded-Awaited m c (fails k) h e = cc
  send_encoded-Awaited m c panicked h e = cc
  send_encoded-Awaited m c (done (len, buf)) h e =
      subst (Awaited id p) (ap (λ (out : Bool × IotSocketCtl J M S). out.1) (returns_injective e)) (
        after_send-Awaited id p (io.try_send (take len buf) c.stream).0 m len _
          (find-register _ m.state id p c.awaiting_acks h))

  send_taken-Awaited :
      (c0 : IotSocketCtl J M S) (x : Call (Option (MessageInFlight J M) × IotSocketCtl J M S))
      {b : Bool} {c' : IotSocketCtl J M S}
      → Awaited id p c0
      → take_next_outgoing_msg c0 ≡ x
      → send_taken crates mqtt io x ≡ returns (b, c')
      → Awaited id p c'
  unfolding send_taken
  send_taken-Awaited c0 panics h taken e = cc
  send_taken-Awaited c0 (returns (none, c)) h taken e =
      subst (Awaited id p) (ap (λ (out : Bool × IotSocketCtl J M S). out.1) (returns_injective e))
        (take-Awaited id p c0 none c h taken)
  send_taken-Awaited c0 (returns (some m, c)) h taken e =
      send_encoded-Awaited m c (encode crates mqtt m.msg c.encoding_buf)
        (take-Awaited id p c0 (some m) c h taken) e

  pub act-Awaited :
      (c : IotSocketCtl J M S) (a : Action J M) (c' : IotSocketCtl J M S)
      → NoAnswer id a
      → Awaited id p c
      → act crates mqtt io c a ≡ returns c'
      → Awaited id p c'
  unfolding act send_next
  act-Awaited c (puts msg) c' allowed h e =
      let (f, e') = second-eq-returns (tx_send c msg) e in tx_send-Awaited id p c msg f e' h
  act-Awaited c (polls f w) c' allowed h e = subst (Awaited id p) (returns_injective e) h
  act-Awaited c sends c' allowed h e =
      let (b, e') = second-eq-returns (send_next crates mqtt io c) e in
      send_taken-Awaited c (take_next_outgoing_msg c) h refl e'
  act-Awaited c (arrives msg) c' allowed h e = handle_incoming-Awaited id p c msg allowed h e

  -- Once a message waits for the acknowledgement of its identifier, its future completes when that
  -- comes, whatever callers, tasks, the thread and the hub did in between: the future is then ready
  -- with success, and the task that last asked for it, if one did, has just been woken.
  pub acknowledged_wakes :
      (c c1 : IotSocketCtl J M S) (as_ : List (Action J M)) (f : MessageFuture) (w : ℕ)
      → Awaited id p c
      → f.state ≡ p
      → AllAllowed crates mqtt io (λ (c : IotSocketCtl J M S). Unit {0}) (NoAnswer id) as_
      → run crates mqtt io c as_ ≡ returns c1
      → (c2 : IotSocketCtl J M S) × (handle_incoming_msg c1
            (publication_succeeded (record { value = id }))
          ≡ returns c2)
        × ((poll c2.heap f w).0 ≡ ready (ok tt))
        × (c2.heap.woken
            ≡ elim (c1.heap.cell p).waker [ none ↦ c1.heap.woken | some v ↦ v ∷ c1.heap.woken ])
  unfolding handle_incoming_msg poll
  acknowledged_wakes c c1 as_ f w h same ok_ e =
      let entry = run_keeps crates mqtt io (Awaited id p) (NoAnswer id) act-Awaited as_ c ok_ h e in
      let cell = cell-handle_ack c1 (record { value = id }) acknowledged p entry f.state in
      (
        handle_ack c1 (record { value = id }) acknowledged,
        refl,
        ground arith,
        woken-handle_ack c1 (record { value = id }) acknowledged p entry,
      )
