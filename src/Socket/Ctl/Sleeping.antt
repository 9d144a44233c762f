-- ===== src/Socket/Ctl/Sleeping.antt =====
-- raiot-client/src/iot_socket.rs: the task that waits for a message without packet identifier sleeps
-- on.
use raiot_rs.Base.{
  ℕ, ◌≡◌, ◌≢◌, refl, ap, subst, Bool, List, Option, none, some, take, Call, returns, panics,
  returns_injective,
}
use raiot_rs.Packets.{Encoder}
use raiot_rs.Protocol.Mqtt.{VariablePacket, Crates}
use raiot_rs.Protocol.Errors.{Coded, done, fails, panicked}
use raiot_rs.Protocol.Encode.Buffer.{encode}
use raiot_rs.Socket.{MessageInFlight}
use raiot_rs.Socket.Ctl.{
  NonblockingSocket, IotSocketCtl, tx_send, take_next_outgoing_msg, send_encoded, send_taken,
  send_next,
}
use raiot_rs.Socket.Ctl.Asleep.{
  NoEntry-Unnumbered, Unnumbered, NotIn, Asleep, tx_send-Asleep, poll-Asleep,
  handle_incoming-Asleep, after_send-Asleep, take-Asleep, take-Unnumbered,
}
use raiot_rs.Socket.Ctl.Runs.{
  Action, puts, polls, sends, arrives, act, run, second-eq-returns, AllAllowed, run_keeps,
}

-- Neither a poll of a future with the state `p` nor one by the task with the waker `w`.
abbrev pub NoPoll : {J M : Type 0} → ℕ → ℕ → Action J M → Type 0
NoPoll p w (polls f v) = (f.state ≢ p) × (v ≢ w)
NoPoll p w _ = Unit {0}

module _ {J M S : Type 0} (crates : Crates J M) (mqtt : Encoder VariablePacket)
    (io : NonblockingSocket S) (p w : ℕ) where
  send_encoded-Asleep :
      (m : MessageInFlight J M) (c : IotSocketCtl J M S) (x : Coded (ℕ × List ℕ)) {b : Bool}
      {c' : IotSocketCtl J M S}
      → Unnumbered p m × (c.tx_buf ≡ none)
      → Asleep p w c
      → send_encoded crates mqtt io c m x ≡ returns (b, c')
      → Asleep p w c'
  unfolding send_encoded
  send_encoded-Asleep m c (fails k) other h e = cc
  send_encoded-Asleep m c panicked other h e = cc
  send_encoded-Asleep m c (done (len, buf)) (numbered, free) h e =
      subst (Asleep p w) (ap (λ (out : Bool × IotSocketCtl J M S). out.1) (returns_injective e)) (
        after_send-Asleep p w (io.try_send (take len buf) c.stream).0 m len _ numbered free
          (record {
            known = h.known;
            unawaited = NoEntry-Unnumbered p m c.awaiting_acks numbered h.unawaited;
            unnumbered = h.unnumbered;
            waits = h.waits;
            alone = h.alone;
            unwoken = h.unwoken;
          }))

  send_taken-Asleep :
      (c0 : IotSocketCtl J M S) (x : Call (Option (MessageInFlight J M) × IotSocketCtl J M S))
      {b : Bool} {c' : IotSocketCtl J M S}
      → Asleep p w c0
      → take_next_outgoing_msg c0 ≡ x
      → send_taken crates mqtt io x ≡ returns (b, c')
      → Asleep p w c'
  unfolding send_taken
  send_taken-Asleep c0 panics h taken e = cc
  send_taken-Asleep c0 (returns (none, c)) h taken e =
      subst (Asleep p w) (ap (λ (out : Bool × IotSocketCtl J M S). out.1) (returns_injective e))
        (take-Asleep p w c0 none c taken h)
  send_taken-Asleep c0 (returns (some m, c)) h taken e =
      send_encoded-Asleep m c (encode crates mqtt m.msg c.encoding_buf)
        (take-Unnumbered p w c0 m c taken h) (take-Asleep p w c0 (some m) c taken h) e

  act-Asleep :
      (c : IotSocketCtl J M S) (a : Action J M) (c' : IotSocketCtl J M S)
      → NoPoll p w a
      → Asleep p w c
      → act crates mqtt io c a ≡ returns c'
      → Asleep p w c'
  unfolding act send_next
  act-Asleep c (puts msg) c' allowed h e =
      let (f, e') = second-eq-returns (tx_send c msg) e in tx_send-Asleep p w c msg f e' h
  act-Asleep c (polls f v) c' allowed h e =
      subst (Asleep p w) (returns_injective e) (poll-Asleep p w c f v allowed h)
  act-Asleep c sends c' allowed h e =
      let (b, e') = second-eq-returns (send_next crates mqtt io c) e in
      send_taken-Asleep c (take_next_outgoing_msg c) h refl e'
  act-Asleep c (arrives msg) c' allowed h e = handle_incoming-Asleep p w c msg h e

  -- From where a task waits for a message without packet identifier and for no other, and until it
  -- polls again or another task polls for that message: whatever callers, other tasks, the thread and
  -- the hub do, the sending of that message included, leaves the waker where it is, and the task is
  -- never woken.
  pub sleeps :
      (c c' : IotSocketCtl J M S) (as_ : List (Action J M))
      → Asleep p w c
      → AllAllowed crates mqtt io (λ (c : IotSocketCtl J M S). Unit {0}) (NoPoll p w) as_
      → run crates mqtt io c as_ ≡ returns c'
      → ((c'.heap.cell p).waker ≡ some w) × NotIn w c'.heap.woken
  sleeps c c' as_ h allowed e =
      let end = run_keeps crates mqtt io (Asleep p w) (NoPoll p w) act-Asleep as_ c allowed h e in
      (end.waits, end.unwoken)
