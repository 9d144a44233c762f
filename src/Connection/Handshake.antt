-- ===== src/Connection/Handshake.antt =====
-- raiot-mqtt/src/connection.rs: `MqttConnectionInProgress`, from the CONNECT packet in the outgoing buffer
-- to an established connection.
use raiot_rs.Base.{
  ℕ, zero, suc, ◌-◌, ◌≡◌, refl, arith, take, drop, Option, none, some, IoResult, ErrorKind,
  would_block, interrupted, connection_aborted, invalid_data, timed_out, ok, err, Call, returns,
  panics, Writer, Reader, ltb, if◌then◌else◌,
}
use raiot_rs.Ring.{write_into, append_from_reader, size}
use raiot_rs.Ring.Valid.{IsValid}
use raiot_rs.Ring.Contents.{contents}
use raiot_rs.Packets.{
  Decoder, MqttPacketizer, PacketResult, packet, io_error, malformed, is_empty, get_next_packet,
  finish_packet,
}
use raiot_rs.Packets.Framing.{
  ReadsHeaders, Verdict, wait, invalid, frame, judge, Polls, get_next_packet-Polls,
}
use raiot_rs.Protocol.Mqtt.{VariablePacket, connack_packet, ConnectReturnCode, connection_accepted}
use raiot_rs.Connection.{MqttConnection, MqttConnectionInProgress}

-- `Result<MqttConnection<S>, MqttConnectError<S>>`; `waits` is the error `WouldBlock`, with which the
-- connection in progress comes back.
pub data Completion (S : Type 0) : Type 0 where
  connected : MqttConnection S → Completion S
  waits : MqttConnectionInProgress S → Completion S
  connect_failed : ConnectReturnCode → Completion S
  protocol_violation : Completion S
  io_failed : ErrorKind → Completion S

module _ {S : Type 0} (writer : Writer S) where
  abbrev pub Progress : Type 0
  Progress = Option (IoResult (Unit {0}) × MqttConnectionInProgress S)

  -- What `send_next` does with the result of a write; `rest` are the rounds that follow.
  unfoldable pub send_round : IoResult ℕ → MqttConnectionInProgress S → Progress → Progress
  send_round (ok n) c rest = if is_empty c.streamer then some (ok tt, c) else rest
  send_round (err would_block) c rest = some (err would_block, c)
  send_round (err interrupted) c rest = rest
  send_round (err e) c rest = some (err e, c)

  -- The loop of `send_next` on fuel; `none` means that the fuel ran out.
  unfoldable pub send_next : ℕ → MqttConnectionInProgress S → Progress
  unfolding send_round
  send_next zero c = none
  send_next (suc fuel) c =
      let (res, r, s) = write_into writer c.streamer.buffer c.stream in
      let c' = record c { streamer = record { buffer = r }; stream = s } in
      send_round res c' (send_next fuel c')

module _ {S : Type 0} where
  unfoldable pub process_connack : MqttConnectionInProgress S → ConnectReturnCode → Completion S
  process_connack c connection_accepted =
      connected (record { packetizer = c.packetizer; streamer = c.streamer; stream = c.stream })
  process_connack c other = connect_failed other

  -- What `complete` does with the result of `get_next_packet`.
  unfoldable pub answered :
      IoResult (Option VariablePacket) → MqttConnectionInProgress S → Call (Completion S)
  unfolding process_connack
  answered (ok none) c = returns (waits c)
  answered (ok (some (connack_packet code))) c = returns (process_connack c code)
  answered (ok (some _)) c = returns protocol_violation
  answered (err invalid_data) c = returns protocol_violation
  answered (err _) c = panics

  unfoldable pub answered_in :
      Call (IoResult (Option VariablePacket) × MqttPacketizer)
      → MqttConnectionInProgress S
      → Call (Completion S)
  unfolding answered
  answered_in panics c = panics
  answered_in (returns (res, p)) c = answered res (record c { packetizer = p })

  -- The end of `complete`, when all that there is has been read.
  unfoldable pub look : Decoder VariablePacket → MqttConnectionInProgress S → Call (Completion S)
  unfolding answered_in
  look mqtt c = answered_in (get_next_packet mqtt c.packetizer) c

module _ {S : Type 0} (mqtt : Decoder VariablePacket) (reader : Reader S) where
  abbrev pub Outcome : Type 0
  Outcome = Option (Call (Completion S))

  -- What the reading loop of `complete` does with the result of `append_from_reader`.
  unfoldable pub read_round : IoResult ℕ → MqttConnectionInProgress S → Outcome → Outcome
  unfolding look
  read_round (ok zero) c rest = some (returns (io_failed connection_aborted))
  read_round (ok (suc n)) c rest = rest
  read_round (err interrupted) c rest = rest
  read_round (err would_block) c rest = some (look mqtt c)
  read_round (err e) c rest = some (returns (io_failed e))

  -- The reading loop, with what follows it.
  unfoldable pub read_all : ℕ → MqttConnectionInProgress S → Outcome
  unfolding read_round
  read_all zero c = none
  read_all (suc fuel) c = elim (append_from_reader reader c.packetizer.buffer c.stream) [
    | none ↦ none
    | some (res, r, s) ↦
        let c' = record c { packetizer = record { buffer = r }; stream = s } in
        read_round res c' (read_all fuel c')
  ]

module _ {S : Type 0} (mqtt : Decoder VariablePacket) (reader : Reader S) (writer : Writer S) where
  -- What `complete` does with the result of `send_next`.
  unfoldable pub sent_all : ℕ → Progress writer → Outcome mqtt reader
  unfolding read_all
  sent_all fuel none = none
  sent_all fuel (some (ok _, c)) = read_all mqtt reader fuel c
  sent_all fuel (some (err would_block, c)) = some (returns (waits c))
  sent_all fuel (some (err e, c)) = some (returns (io_failed e))

  -- `MqttConnectionInProgress::complete` at the time `now`, with fuel for each of its loops
  unfoldable pub complete : ℕ → ℕ → MqttConnectionInProgress S → Outcome mqtt reader
  unfolding sent_all send_next
  complete fuel now c =
      let reading = read_all mqtt reader fuel c in
      let sending = sent_all fuel (send_next writer fuel c) in
      if ltb c.connect_timeout (now - c.stopwatch)
      then some (returns (io_failed timed_out))
      else if is_empty c.streamer
      then reading
      else sending

module _ {S : Type 0} where
  -- How a packet of the hub ends the handshake, where the packetizer is left as `p`.
  abbrev pub settled :
      PacketResult VariablePacket
      → MqttConnectionInProgress S
      → MqttPacketizer
      → Call (Completion S)
  settled (packet (connack_packet connection_accepted)) c p =
      returns (connected (record { packetizer = p; streamer = c.streamer; stream = c.stream }))
  settled (packet (connack_packet code)) c p = returns (connect_failed code)
  settled (packet _) c p = returns protocol_violation
  settled malformed c p = returns protocol_violation
  settled (io_error invalid_data) c p = returns protocol_violation
  settled (io_error _) c p = panics

  -- What the handshake comes to on the bytes that were read.
  abbrev pub Ends :
      Decoder VariablePacket → MqttConnectionInProgress S → Verdict → Call (Completion S) → Type 0
  Ends mqtt c wait out = out ≡ returns (waits c)
  Ends mqtt c invalid out = out ≡ returns protocol_violation
  Ends mqtt c (frame n) out =
      let bytes = contents c.packetizer.buffer in
      (p : MqttPacketizer) × (out ≡ settled (mqtt.decode_packet (take n bytes)) c p)
      × (contents p.buffer ≡ drop n bytes)
      × IsValid p.buffer

  answered-settled :
      (mqtt : Decoder VariablePacket) (res : PacketResult VariablePacket)
      (c : MqttConnectionInProgress S) (p : MqttPacketizer)
      → answered (finish_packet mqtt res) (record c { packetizer = p }) ≡ settled res c p
  unfolding answered finish_packet process_connack
  answered-settled mqtt (packet (connack_packet connection_accepted)) c p = refl
  answered-settled mqtt (packet (connack_packet code)) c p = ground arith
  answered-settled mqtt (packet x) c p = ground arith
  answered-settled mqtt malformed c p = refl
  answered-settled mqtt (io_error e) c p = ground arith

  looked-Ends :
      (mqtt : Decoder VariablePacket) (c : MqttConnectionInProgress S) (v : Verdict)
      (out : Call (IoResult (Option VariablePacket) × MqttPacketizer))
      → Polls mqtt c.packetizer v out
      → Ends mqtt c v (answered_in out c)
  unfolding answered_in answered Polls
  looked-Ends mqtt c wait out e = rw e refl
  looked-Ends mqtt c invalid out e = rw e refl
  looked-Ends mqtt c (frame n) out (p, e, held, valid, same) =
      (p, rw e (answered-settled mqtt _ c p), held, valid)

  -- When all that there is has been read, the handshake ends as the first packet of the bytes says: it
  -- goes on, with nothing changed, while the packet is not complete; bytes that are no packet and a
  -- packet that is no CONNACK are a violation of the protocol; a CONNACK that refuses is an error with
  -- its code; one that accepts makes the connection, and the bytes after it wait there to be read. Only
  -- an error of the decoder other than invalid data makes it panic.
  pub look-Ends :
      (mqtt : Decoder VariablePacket) (c : MqttConnectionInProgress S)
      → ReadsHeaders mqtt
      → IsValid c.packetizer.buffer
      → Ends mqtt c
          (judge mqtt (size c.packetizer.buffer) (contents c.packetizer.buffer))
          (look mqtt c)
  unfolding look
  look-Ends mqtt c std v =
      looked-Ends mqtt c _ (get_next_packet mqtt c.packetizer)
        (get_next_packet-Polls mqtt c.packetizer std v)
