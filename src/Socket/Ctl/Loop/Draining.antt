-- ===== src/Socket/Ctl/Loop/Draining.antt =====
-- raiot-client/src/iot_socket.rs: the loop that sends all messages ends, and what it leaves.
use raiot_rs.Base.{
  ℕ, zero, suc, ◌<◌, ◌==◌, ◌≡◌, ◌≢◌, refl, sym, ap, ◌∙◌, subst, ◌⊎◌, inl, inr, Bool, true, false,
  List, [], ◌∷◌, ◌++◌, length, take, Option, none, some, IoResult, ok, err, would_block,
  interrupted, Call, returns, panics, arith, Bool-cases, returns_injective,
}
use raiot_rs.Packets.{Encoder}
use raiot_rs.Protocol.Mqtt.{VariablePacket, Crates}
use raiot_rs.Protocol.Errors.{Coded, done, fails, panicked}
use raiot_rs.Protocol.Encode.Buffer.{encode}
use raiot_rs.Socket.{MsgStatus, MessageState, sent, send_failed, MessageInFlight}
use raiot_rs.Socket.Ctl.{
  NonblockingSocket, IotSocketCtl, take_next_outgoing_msg, after_send, send_encoded, send_taken,
  send_next,
}
use raiot_rs.Socket.Ctl.Order.{
  unsent, Left, went, broke, Progress, same, first, take_lem, send_next-Progress,
}
use raiot_rs.Socket.Ctl.Loop.{while_true, send_all}

-- The message of this state has left, or has failed to.
abbrev pub IsOver : MessageState → Type 0
IsOver state = (state.status ≡ sent) ⊎ (state.status ≡ send_failed)

module _ {J M S : Type 0} where
  abbrev pub AllOver : IotSocketCtl J M S → List (MessageInFlight J M) → Type 0
  AllOver c [] = Unit {0}
  AllOver c (m ∷ ms) = IsOver (c.heap.cell m.state) × AllOver c ms

  abbrev Keeps : IotSocketCtl J M S → IotSocketCtl J M S → Type 0
  Keeps c c' = (p : ℕ) → IsOver (c.heap.cell p) → IsOver (c'.heap.cell p)

  Left-status :
      (io : NonblockingSocket S) (c c' : IotSocketCtl J M S) (status : MsgStatus)
      → Left io c c' status
      → (status ≡ sent) ⊎ (status ≡ send_failed)
  Left-status io c c' sent (went bytes e) = inl refl
  Left-status io c c' send_failed (broke bytes e tried x y) = inr refl
  Left-status io c c' MsgStatus.pending left = elim left [ ]
  Left-status io c c' MsgStatus.acknowledged left = elim left [ ]
  Left-status io c c' MsgStatus.rejected left = elim left [ ]
  Left-status io c c' MsgStatus.timed_out left = elim left [ ]

  Left-IsOver :
      (io : NonblockingSocket S) (c c' : IotSocketCtl J M S) (m : MessageInFlight J M)
      → Left io c c' (c'.heap.cell m.state).status
      → IsOver (c'.heap.cell m.state)
  Left-IsOver io c c' m left = Left-status io c c' (c'.heap.cell m.state).status left

  Progress-Keeps :
      (io : NonblockingSocket S) (c c' : IotSocketCtl J M S) → Progress io c c' → Keeps c c'
  Progress-Keeps io c c' (same e heap) p over = subst (λ h. IsOver (h.cell p)) (sym heap) over
  Progress-Keeps io c c' (first m e marked others) p over = elim (Bool-cases (m.state == p)) [
    | inl eq ↦
        let here : m.state ≡ p = ground arith in
        subst (λ q. IsOver (c'.heap.cell q)) here (Left-IsOver io c c' m marked)
    | inr ne ↦
        let apart : m.state ≢ p = ground arith in subst (λ x. IsOver x) (sym (others p apart)) over
  ]

-- A stream that tries again by itself when it is interrupted, as `try_send` of raiot-streams does.
abbrev pub Uninterrupted : {S : Type 0} → NonblockingSocket S → Type 0
Uninterrupted {S} io = (bytes : List ℕ) (s : S) → (io.try_send bytes s).0 ≢ err interrupted

module _ {J M S : Type 0} (io : NonblockingSocket S) where
  -- Nothing is left to send, or the stream has just refused the message in hand.
  pub data Rests (c : IotSocketCtl J M S) : Type 0 where
    idle : unsent c ≡ [] → Rests c
    blocked :
        (m : MessageInFlight J M) (bytes : List ℕ) (s : S)
        → c.tx_buf ≡ some m
        → (io.try_send bytes s).0 ≡ err would_block
        → c.stream ≡ (io.try_send bytes s).1
        → Rests c

  -- The loop has ended, by a panic of one of its calls or at rest. The messages `ms` are gone from the
  -- front of those to be sent, and the states of all of them tell so.
  pub data Drained (c : IotSocketCtl J M S) (run : Option (Call (IotSocketCtl J M S)))
      : Type 0 where
    broken : run ≡ some panics → Drained c run
    drained :
        (c' : IotSocketCtl J M S) (ms : List (MessageInFlight J M))
        → run ≡ some (returns c')
        → unsent c ≡ ms ++ unsent c'
        → AllOver c' ms
        → Keeps c c'
        → Rests c'
        → Drained c run

  -- What the result of a call of `send_next` means for the loop.
  abbrev Means : IotSocketCtl J M S → Bool → IotSocketCtl J M S → Type 0
  Means c true c' = length (unsent c') < length (unsent c)
  Means c false c' = Rests c'

  after_send-Means :
      (res : IoResult (Unit {0})) (m : MessageInFlight J M) (len : ℕ) (c0 c : IotSocketCtl J M S)
      (bytes : List ℕ) (s : S)
      → res ≢ err interrupted
      → (io.try_send bytes s).0 ≡ res
      → c.stream ≡ (io.try_send bytes s).1
      → unsent c0 ≡ m ∷ unsent c
      → c.tx_buf ≡ none
      → Means c0 (after_send res m len c).0 (after_send res m len c).1
  unfolding after_send
  after_send-Means (ok _) m len c0 c bytes s never tried stream e free = ground arith
  after_send-Means (err would_block) m len c0 c bytes s never tried stream e free =
      blocked m bytes s refl tried stream
  after_send-Means (err interrupted) m len c0 c bytes s never tried stream e free =
      absurd (never refl)
  after_send-Means (err x) m len c0 c bytes s never tried stream e free = ground arith

none_taken :
    {J M S : Type 0} (c0 c : IotSocketCtl J M S)
    → take_next_outgoing_msg c0 ≡ returns (none, c)
    → unsent c ≡ []
unfolding take_next_outgoing_msg
none_taken c0 c e = ground arith

module _ {J M S : Type 0} (crates : Crates J M) (mqtt : Encoder VariablePacket)
    (io : NonblockingSocket S) where
  send_encoded-Means :
      (m : MessageInFlight J M) (c0 c : IotSocketCtl J M S) (x : Coded (ℕ × List ℕ)) {b : Bool}
      {c' : IotSocketCtl J M S}
      → Uninterrupted io
      → unsent c0 ≡ m ∷ unsent c
      → c.tx_buf ≡ none
      → send_encoded crates mqtt io c m x ≡ returns (b, c')
      → Means io c0 b c'
  unfolding send_encoded
  send_encoded-Means m c0 c (fails k) steady e free h = cc
  send_encoded-Means m c0 c panicked steady e free h = cc
  send_encoded-Means m c0 c (done (len, buf)) steady e free h =
      subst (λ (out : Bool × IotSocketCtl J M S). Means io c0 out.0 out.1) (returns_injective h)
        (after_send-Means io (io.try_send (take len buf) c.stream).0 m len c0 _ (take len buf)
          c.stream (steady (take len buf) c.stream) refl refl e free)

  send_taken-Means :
      (c0 : IotSocketCtl J M S) (x : Call (Option (MessageInFlight J M) × IotSocketCtl J M S))
      {b : Bool} {c' : IotSocketCtl J M S}
      → Uninterrupted io
      → take_next_outgoing_msg c0 ≡ x
      → send_taken crates mqtt io x ≡ returns (b, c')
      → Means io c0 b c'
  unfolding send_taken
  send_taken-Means c0 panics steady taken h = cc
  send_taken-Means c0 (returns (none, c)) steady taken h =
      subst (λ (out : Bool × IotSocketCtl J M S). Means io c0 out.0 out.1) (returns_injective h)
        (idle (none_taken c0 c taken))
  send_taken-Means c0 (returns (some m, c)) steady taken h =
      let (stream, heap, free, e) = take_lem c0 (some m) c taken in
      send_encoded-Means m c0 c (encode crates mqtt m.msg c.encoding_buf) steady e free h

  send_next-Means :
      (c : IotSocketCtl J M S) {b : Bool} {c' : IotSocketCtl J M S}
      → Uninterrupted io
      → send_next crates mqtt io c ≡ returns (b, c')
      → Means io c b c'
  unfolding send_next
  send_next-Means c steady h = send_taken-Means c (take_next_outgoing_msg c) steady refl h

  -- A message that left before the rest of the loop.
  one_more :
      (c c1 : IotSocketCtl J M S) (run : Option (Call (IotSocketCtl J M S)))
      → Progress io c c1
      → length (unsent c1) < length (unsent c)
      → Drained io c1 run
      → Drained io c run
  one_more c c1 run p less (broken e) = broken e
  one_more c c1 run (same e heap) less (drained c' ms r gone over keeps rests) =
      absurd (omega (arith, ap length e))
  one_more c c1 run (first m e marked others) less (drained c' ms r gone over keeps rests) =
      drained c' (m ∷ ms) r (e ∙ ap (◌∷◌ m) gone)
        (keeps m.state (Left-IsOver io c c1 m marked), over)
        (λ p h. keeps p (Progress-Keeps io c c1 (first m e marked others) p h)) rests

  round-Drained :
      (c : IotSocketCtl J M S) (x : Call (Bool × IotSocketCtl J M S))
      (again : IotSocketCtl J M S → Option (Call (IotSocketCtl J M S)))
      → Uninterrupted io
      → send_next crates mqtt io c ≡ x
      → ((c1 : IotSocketCtl J M S)
          → length (unsent c1) < length (unsent c)
          → Drained io c1 (again c1))
      → Drained io c (while_true x again)
  unfolding while_true
  round-Drained c panics again steady e rest = broken refl
  round-Drained c (returns (true, c1)) again steady e rest =
      let less = send_next-Means c steady e in
      one_more c c1 (again c1) (send_next-Progress crates mqtt io c e) less (rest c1 less)
  round-Drained c (returns (false, c1)) again steady e rest =
      elim (send_next-Progress crates mqtt io c e) [
        | same kept heap ↦
            drained c1 [] refl (sym kept) tt (Progress-Keeps io c c1 (same kept heap))
              (send_next-Means c steady e)
        | first m gone marked others ↦
            drained c1 (m ∷ []) refl gone (Left-IsOver io c c1 m marked, tt)
              (Progress-Keeps io c c1 (first m gone marked others)) (send_next-Means c steady e)
      ]

  -- On a stream that does not report interruptions, `while self.send_next() {}` ends, with fuel for
  -- more rounds than there are messages to be sent. Unless a call panics, either no message is left
  -- after it, or the stream would have blocked on the one in hand; the messages that are gone are
  -- those at the front, and each is marked as sent or as failed.
  pub send_all-Drained :
      (fuel : ℕ) (c : IotSocketCtl J M S)
      → Uninterrupted io
      → length (unsent c) < fuel
      → Drained io c (send_all crates io mqtt fuel c)
  unfolding send_all
  send_all-Drained zero c steady enough = absurd (omega arith)
  send_all-Drained (suc fuel) c steady enough =
      round-Drained c (send_next crates mqtt io c) (λ c'. send_all crates io mqtt fuel c') steady
        refl (λ c1 less. send_all-Drained fuel c1 steady (omega arith))
