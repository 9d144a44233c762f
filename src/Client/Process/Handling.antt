-- ===== src/Client/Process/Handling.antt =====
-- raiot-stclient/src/lib.rs: the loop of `process` over the packets that are complete.
use raiot_rs.Base.{
  ℕ, zero, suc, ◌<◌, ◌≡◌, refl, sym, ap, subst, List, ◌++◌, length, drop, take, Option, some,
  IoResult, returns, panics, arith, length-drop,
}
use raiot_rs.Ring.{size}
use raiot_rs.Ring.Valid.{IsValid}
use raiot_rs.Ring.Contents.{contents}
use raiot_rs.Protocol.Messages.{SubRes, MsgFromHub, subscription_response_message}
use raiot_rs.Protocol.Mqtt.{VariablePacket, Crates}
use raiot_rs.Protocol.Errors.{Coded, done, fails, panicked}
use raiot_rs.Protocol.Decode.{decode_packet}
use raiot_rs.Packets.{
  Decoder, MqttPacketizer, PacketResult, packet, io_error, malformed, get_next_packet,
  finish_packet,
}
use raiot_rs.Packets.Framing.{
  ReadsHeaders, Verdict, wait, invalid, frame, judge, judge-frame, Polls, get_next_packet-Polls,
}
use raiot_rs.Connection.{MqttConnection, read_connection}
use raiot_rs.Client.{IotClient, Event, process_msg, process_sub_res}
use raiot_rs.Client.Process.{Processed, with_msg, with_packet, handle_packets}

abbrev pub held_by : {H S : Type 0} → IotClient H S → List ℕ
held_by c = contents c.connection.packetizer.buffer

abbrev pub room_of : {H S : Type 0} → IotClient H S → ℕ
room_of c = size c.connection.packetizer.buffer

module _ {J M : Type 0} (crates : Crates J M) (mqtt : Decoder VariablePacket) where
  abbrev IsRefused : Coded (MsgFromHub J M) → Type 0
  IsRefused (done msg) = ⊥
  IsRefused _ = Unit {0}

  abbrev IsUnread : PacketResult VariablePacket → Type 0
  IsUnread (packet x) = IsRefused (decode_packet crates x)
  IsUnread _ = Unit {0}

  -- Bytes that begin with no packet, or with one that is no message of the hub.
  abbrev pub IsBroken : Verdict → List ℕ → Type 0
  IsBroken wait bytes = ⊥
  IsBroken invalid bytes = Unit {0}
  IsBroken (frame n) bytes = IsUnread (mqtt.decode_packet (take n bytes))

-- The client after a packet was taken out.
abbrev pub without : {H S : Type 0} → IotClient H S → MqttPacketizer → IotClient H S
without c p = record c { connection = record c.connection { packetizer = p } }

module _ {H J M S : Type 0} (crates : Crates J M) (mqtt : Decoder VariablePacket)
    (run : Processed H J M S) where
  -- From a client and the events so far, the loop comes to `run`. With no complete packet in the bytes held
  -- it returns both as they are; at bytes that begin with no packet, or with one that is no message, it
  -- panics; and otherwise it takes just the bytes of the packet off the front, gives its message to
  -- `process_msg`, appends what that calls to the events, and goes on from there.
  pub data Handled : IotClient H S → List (Event H J M) → Type 0 where
    ends :
        {c : IotClient H S} {events : List (Event H J M)}
        → judge mqtt (room_of c) (held_by c) ≡ wait
        → run ≡ some (returns (c, events))
        → Handled c events
    breaks :
        {c : IotClient H S} {events : List (Event H J M)}
        → IsBroken crates mqtt (judge mqtt (room_of c) (held_by c)) (held_by c)
        → run ≡ some panics
        → Handled c events
    goes :
        {c : IotClient H S} {events : List (Event H J M)} (n : ℕ) (p : MqttPacketizer)
        (x : VariablePacket) (msg : MsgFromHub J M)
        → judge mqtt (room_of c) (held_by c) ≡ frame n
        → mqtt.decode_packet (take n (held_by c)) ≡ packet x
        → decode_packet crates x ≡ done msg
        → contents p.buffer ≡ drop n (held_by c)
        → IsValid p.buffer
        → size p.buffer ≡ room_of c
        → Handled (process_msg (without c p) msg).0 (events ++ (process_msg (without c p) msg).1)
        → Handled c events

process_sub_res-connection :
    (J M : Type 0) {H S : Type 0} (c : IotClient H S) (res : SubRes)
    → (process_sub_res {J = J} {M = M} c res).0.connection ≡ c.connection
unfolding process_sub_res
process_sub_res-connection J M c res = ground arith

read_lem :
    {S : Type 0} (mqtt : Decoder VariablePacket) (c : MqttConnection S)
    {res : IoResult (Option VariablePacket)} {p : MqttPacketizer}
    → get_next_packet mqtt c.packetizer ≡ returns (res, p)
    → read_connection mqtt c ≡ returns (res, record c { packetizer = p })
unfolding read_connection
read_lem mqtt c e = ground arith

process_msg-connection :
    {H J M S : Type 0} (c : IotClient H S) (msg : MsgFromHub J M)
    → (process_msg c msg).0.connection ≡ c.connection
unfolding process_msg
process_msg-connection {H} {J} {M} {S} c (subscription_response_message res) =
    process_sub_res-connection J M c res
process_msg-connection c msg = refl

module _ {H J M S : Type 0} (crates : Crates J M) (mqtt : Decoder VariablePacket)
    (std : ReadsHeaders mqtt) where
  -- What the induction knows of the rounds that follow.
  abbrev Rest : IotClient H S → (IotClient H S → List (Event H J M) → Processed H J M S) → Type 0
  Rest c again =
      (c1 : IotClient H S) (events : List (Event H J M))
      → IsValid c1.connection.packetizer.buffer
      → length (held_by c1) < length (held_by c)
      → Handled crates mqtt (again c1 events) c1 events

  module _ (n : ℕ) (p : MqttPacketizer) (c : IotClient H S) (events : List (Event H J M))
      (again : IotClient H S → List (Event H J M) → Processed H J M S)
      (judged : judge mqtt (room_of c) (held_by c) ≡ frame n)
      (held : contents p.buffer ≡ drop n (held_by c)) (valid : IsValid p.buffer)
      (same : size p.buffer ≡ room_of c) (rest : Rest c again) where
    -- The rounds after a message.
    after-Handled :
        (msg : MsgFromHub J M)
        → let out = process_msg (without c p) msg in
          Handled crates mqtt (again out.0 (events ++ out.1)) out.0 (events ++ out.1)
    after-Handled msg =
        let kept = process_msg-connection (without c p) msg in
        let buffer = ap (λ (x : MqttConnection S). x.packetizer.buffer) kept in
        let (two, le) = judge-frame mqtt (room_of c) (held_by c) n std judged in
        let shorter : length (contents p.buffer) < length (held_by c) =
          omega (arith, ap length held, length-drop n (held_by c), two, le) in
        rest (process_msg (without c p) msg).0 (events ++ (process_msg (without c p) msg).1)
          (subst IsValid (sym buffer) valid)
          (subst (λ r. length (contents r) < length (held_by c)) (sym buffer) shorter)

    with_msg-Handled :
        (x : VariablePacket) (m : Coded (MsgFromHub J M))
        → mqtt.decode_packet (take n (held_by c)) ≡ packet x
        → decode_packet crates x ≡ m
        → Handled crates mqtt (with_msg m (without c p) events again) c events
    unfolding with_msg
    with_msg-Handled x (fails e) read decoded = breaks (rw (judged, read, decoded) tt) refl
    with_msg-Handled x panicked read decoded = breaks (rw (judged, read, decoded) tt) refl
    with_msg-Handled x (done msg) read decoded =
        goes n p x msg judged read decoded held valid same (after-Handled msg)

    frame-Handled :
        (res : PacketResult VariablePacket)
        → mqtt.decode_packet (take n (held_by c)) ≡ res
        → Handled crates mqtt
            (with_packet crates mqtt
              (returns (finish_packet mqtt res, record c.connection { packetizer = p }))
              c
              events
              again)
            c
            events
    unfolding with_packet finish_packet
    frame-Handled (packet x) read = with_msg-Handled x (decode_packet crates x) read refl
    frame-Handled (io_error e) read = breaks (rw (judged, read) tt) refl
    frame-Handled malformed read = breaks (rw (judged, read) tt) refl

  round-Handled :
      (v : Verdict) (c : IotClient H S) (events : List (Event H J M))
      (again : IotClient H S → List (Event H J M) → Processed H J M S)
      → judge mqtt (room_of c) (held_by c) ≡ v
      → Polls mqtt c.connection.packetizer v (get_next_packet mqtt c.connection.packetizer)
      → Rest c again
      → Handled crates mqtt
          (with_packet crates mqtt (read_connection mqtt c.connection) c events again)
          c
          events
  unfolding with_packet Polls
  round-Handled wait c events again judged e rest =
      rw (read_lem mqtt c.connection e) (ends judged refl)
  round-Handled invalid c events again judged e rest =
      rw (read_lem mqtt c.connection e) (breaks (rw judged tt) refl)
  round-Handled (frame n) c events again judged (p, e, held, v', same) rest =
      rw (read_lem mqtt c.connection e) (
        frame-Handled n p c events again judged held v' same rest
          (mqtt.decode_packet (take n (held_by c))) refl)

  -- With fuel for more packets than bytes wait, the loop of `process` ends, and handles packet by packet
  -- what waits.
  pub handle_packets-Handled :
      (fuel : ℕ) (c : IotClient H S) (events : List (Event H J M))
      → IsValid c.connection.packetizer.buffer
      → length (held_by c) < fuel
      → Handled crates mqtt (handle_packets crates mqtt fuel c events) c events
  unfolding handle_packets
  handle_packets-Handled zero c events v enough = absurd (omega arith)
  handle_packets-Handled (suc fuel) c events v enough =
      round-Handled _ c events (λ c' es. handle_packets crates mqtt fuel c' es) refl
        (get_next_packet-Polls mqtt c.connection.packetizer std v)
        (λ c1 es v1 fewer. handle_packets-Handled fuel c1 es v1 (omega arith))
