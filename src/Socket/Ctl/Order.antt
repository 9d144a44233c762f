-- ===== src/Socket/Ctl/Order.antt =====
-- raiot-client/src/iot_socket.rs: the order in which messages leave.
use raiot_rs.Base.{
  ErrorKind, ℕ, ◌≡◌, ◌≢◌, refl, sym, ap, subst, returns_injective, Bool, List, ◌∷◌, Option, none,
  some, take, ok, err, would_block, interrupted, IoResult, Call, returns, panics, arith,
}
use raiot_rs.Packets.{Encoder}
use raiot_rs.Protocol.Mqtt.{VariablePacket, Crates}
use raiot_rs.Protocol.Errors.{Coded, done, fails, panicked}
use raiot_rs.Protocol.Encode.Buffer.{encode}
use raiot_rs.Socket.{MsgStatus, sent, send_failed, MessageInFlight}
use raiot_rs.Socket.Ctl.{
  NonblockingSocket, IotSocketCtl, take_next_outgoing_msg, after_send, send_encoded, send_taken,
  send_next,
}

module _ {J M : Type 0} where
  -- The messages still to be sent, in order: that in hand comes before those in the queue.
  abbrev pub unsent : {S : Type 0} → IotSocketCtl J M S → List (MessageInFlight J M)
  unsent c = elim c.tx_buf [
    | none ↦ c.outgoing_queue.waiting
    | some m ↦ m ∷ c.outgoing_queue.waiting
  ]

module _ {J M S : Type 0} (io : NonblockingSocket S) where
  -- What a call that took a message out means for it: the stream took all of some bytes, and it is marked
  -- as sent; or the stream failed with an error other than that it would block or was interrupted, and it
  -- is marked as failed. The stream was as in `c`, and now is as in `c'`.
  pub data Left (c c' : IotSocketCtl J M S) : MsgStatus → Type 0 where
    went : (bytes : List ℕ) → io.try_send bytes c.stream ≡ (ok tt, c'.stream) → Left c c' sent
    broke :
        (bytes : List ℕ) (e : ErrorKind)
        → io.try_send bytes c.stream ≡ (err e, c'.stream)
        → e ≢ would_block
        → e ≢ interrupted
        → Left c c' send_failed

  -- Either nothing was sent, and all states and all messages are still there in order; or the first
  -- message is gone, its state says whether it was sent, and every other state is as it was.
  pub data Progress (c c' : IotSocketCtl J M S) : Type 0 where
    same : unsent c' ≡ unsent c → c'.heap ≡ c.heap → Progress c c'
    first :
        (m : MessageInFlight J M)
        → unsent c ≡ m ∷ unsent c'
        → Left c c' (c'.heap.cell m.state).status
        → ((p : ℕ) → m.state ≢ p → c'.heap.cell p ≡ c.heap.cell p)
        → Progress c c'

module _ {J M S : Type 0} where
  pub take_lem :
      (c : IotSocketCtl J M S) (o : Option (MessageInFlight J M)) (c' : IotSocketCtl J M S)
      → take_next_outgoing_msg c ≡ returns (o, c')
      → (c'.stream ≡ c.stream)
        × (c'.heap ≡ c.heap)
        × (c'.tx_buf ≡ none)
        × (unsent c ≡ elim o [ none ↦ unsent c' | some m ↦ m ∷ unsent c' ])
  unfolding take_next_outgoing_msg
  take_lem c o c' e = ground arith

module _ {J M S : Type 0} (io : NonblockingSocket S) where
  first_gone :
      (m : MessageInFlight J M) (c0 c : IotSocketCtl J M S) (status : MsgStatus)
      → unsent c0 ≡ m ∷ unsent c
      → (c.heap.cell m.state).status ≡ status
      → Left io c0 c status
      → ((p : ℕ) → m.state ≢ p → c.heap.cell p ≡ c0.heap.cell p)
      → Progress io c0 c
  first_gone m c0 c status e marked left others =
      first m e (subst (Left io c0 c) (sym marked) left) others

  after_send-Progress :
      (res : IoResult (Unit {0})) (m : MessageInFlight J M) (len : ℕ) (c0 c : IotSocketCtl J M S)
      (bytes : List ℕ)
      → io.try_send bytes c0.stream ≡ (res, c.stream)
      → c.heap ≡ c0.heap
      → unsent c0 ≡ m ∷ unsent c
      → c.tx_buf ≡ none
      → Progress io c0 (after_send res m len c).1
  unfolding after_send
  after_send-Progress (ok _) m len c0 c bytes tried heap e free =
      first_gone m c0 (after_send (ok tt) m len c).1 sent e (ground arith) (went bytes tried)
        (λ p ne. ground arith)
  after_send-Progress (err would_block) m len c0 c bytes tried heap e free =
      same (ground arith) heap
  after_send-Progress (err interrupted) m len c0 c bytes tried heap e free =
      same (ground arith) heap
  after_send-Progress (err x) m len c0 c bytes tried heap e free =
      first_gone m c0 (after_send (err x) m len c).1 send_failed e (ground arith)
        (broke bytes x tried (λ z. cc) (λ z. cc)) (λ p ne. ground arith)

module _ {J M S : Type 0} (crates : Crates J M) (mqtt : Encoder VariablePacket)
    (io : NonblockingSocket S) where
  send_encoded-Progress :
      (m : MessageInFlight J M) (c0 c : IotSocketCtl J M S) (x : Coded (ℕ × List ℕ)) {b : Bool}
      {c' : IotSocketCtl J M S}
      → c.stream ≡ c0.stream
      → c.heap ≡ c0.heap
      → unsent c0 ≡ m ∷ unsent c
      → c.tx_buf ≡ none
      → send_encoded crates mqtt io c m x ≡ returns (b, c')
      → Progress io c0 c'
  unfolding send_encoded
  send_encoded-Progress m c0 c (fails k) stream heap e free h = cc
  send_encoded-Progress m c0 c panicked stream heap e free h = cc
  send_encoded-Progress m c0 c (done (len, buf)) stream heap e free h =
      subst (Progress io c0) (ap (λ (out : Bool × IotSocketCtl J M S). out.1) (returns_injective h))
        (after_send-Progress io (io.try_send (take len buf) c.stream).0 m len c0 _ (take len buf)
          (ap (io.try_send (take len buf)) (sym stream)) heap e free)

  send_taken-Progress :
      (c0 : IotSocketCtl J M S) (x : Call (Option (MessageInFlight J M) × IotSocketCtl J M S))
      {b : Bool} {c' : IotSocketCtl J M S}
      → take_next_outgoing_msg c0 ≡ x
      → send_taken crates mqtt io x ≡ returns (b, c')
      → Progress io c0 c'
  unfolding send_taken
  send_taken-Progress c0 panics taken h = cc
  send_taken-Progress c0 (returns (none, c)) taken h =
      let (stream, heap, free, e) = take_lem c0 none c taken in
      subst (Progress io c0) (ap (λ (out : Bool × IotSocketCtl J M S). out.1) (returns_injective h))
        (same (sym e) heap)
  send_taken-Progress c0 (returns (some m, c)) taken h =
      let (stream, heap, free, e) = take_lem c0 (some m) c taken in
      send_encoded-Progress m c0 c (encode crates mqtt m.msg c.encoding_buf) stream heap e free h

  pub send_next-Progress :
      (c : IotSocketCtl J M S) {b : Bool} {c' : IotSocketCtl J M S}
      → send_next crates mqtt io c ≡ returns (b, c')
      → Progress io c c'
  unfolding send_next
  send_next-Progress c h = send_taken-Progress c (take_next_outgoing_msg c) refl h
