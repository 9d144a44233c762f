-- ===== src/Packets.antt =====
-- raiot-mqtt/src/packets: MQTT packets over a circular buffer. `streamer.rs` writes packets into the
-- outgoing buffer and `packetizer.rs` finds packets in the incoming one. The mqtt crate, which turns
-- packets into bytes and back, is a parameter.
pub mod Streamer
pub mod Framing
pub mod Small
mod Tests
use raiot_rs.Base.{
  ℕ, zero, suc, ◌+◌, ◌≤◌, ◌%◌, ◌^◌, min, ◌≡◌, Bool, List, [], ◌∷◌, ◌++◌, Option, none, some, length,
  take, drop, leb, ltb, ◌==◌, if◌then◌else◌, ErrorKind, write_zero, invalid_input, invalid_data,
  unexpected_eof, would_block, interrupted, IoResult, Result, ok, err, Call, returns, panics,
  Reader,
}
use raiot_rs.Ring
use raiot_rs.Ring.{
  CircularBuffer, size, valid_length, available_space, append_all_bytes, append_from_reader,
}
use raiot_rs.Ring.Slice.{bytes_of}

-- The mqtt crate's `Encodable`: the pieces that `encode` hands to `write_all` one after another, and
-- the length that it announces.
pub record Encoder (P : Type 0) : Type 0 where
  pub pieces : P → List (List ℕ)
  pub encoded_length : P → ℕ

-- `FixedHeader`, as far as the packetizer reads it.
pub record FixedHeader : Type 0 where
  pub encoded_length : ℕ
  pub remaining_length : ℕ

pub data HeaderResult : Type 0 where
  header : FixedHeader → HeaderResult
  io_error : ErrorKind → HeaderResult
  malformed : HeaderResult

pub data PacketResult (P : Type 0) : Type 0 where
  packet : P → PacketResult P
  io_error : ErrorKind → PacketResult P
  malformed : PacketResult P

-- The mqtt crate's `Decodable`, on the bytes that its reader supplies.
pub record Decoder (P : Type 0) : Type 0 where
  pub decode_header : List ℕ → HeaderResult
  pub decode_packet : List ℕ → PacketResult P

-- `Write::write_all` of std on a circular buffer, on fuel; the buffer is never interrupted.
unfoldable pub write_all : ℕ → CircularBuffer → List ℕ → IoResult (Unit {0}) × CircularBuffer
write_all zero r buf = (ok tt, r)
write_all (suc fuel) r [] = (ok tt, r)
write_all (suc fuel) r (b ∷ bs) =
    let (res, r') = Ring.write r (b ∷ bs) in
    elim res [
      | err e ↦ (err e, r')
      | ok n ↦
          let rest = write_all fuel r' (drop n (b ∷ bs)) in
          if n == 0 then (err write_zero, r') else rest
    ]

-- `MqttStreamer`
pub record MqttStreamer : Type 0 where
  pub buffer : CircularBuffer

module _ {P : Type 0} (mqtt : Encoder P) where
  -- `packet.encode(&mut self.buffer)`
  pub encode_pieces : CircularBuffer → List (List ℕ) → IoResult (Unit {0}) × CircularBuffer
  encode_pieces r [] = (ok tt, r)
  encode_pieces r (piece ∷ more) =
      let (res, r') = write_all (length piece) r piece in
      elim res [ err e ↦ (err e, r') | ok _ ↦ encode_pieces r' more ]

  unfoldable pub write_packet : MqttStreamer → P → IoResult (Unit {0}) × MqttStreamer
  unfolding encode_pieces write_all
  write_packet s p =
      let len = mqtt.encoded_length p in
      if ltb (size s.buffer) len
      then (err invalid_input, s)
      else if ltb (available_space s.buffer) len
      then (err write_zero, s)
      else let (res, r) = encode_pieces s.buffer (mqtt.pieces p) in
        (elim res [ ok _ ↦ ok tt | err _ ↦ err invalid_input ], record { buffer = r })

abbrev pub is_empty : MqttStreamer → Bool
is_empty s = Ring.is_empty s.buffer

abbrev pub data_size : MqttStreamer → ℕ
data_size s = valid_length s.buffer

-- `MqttPacketizer`
pub record MqttPacketizer : Type 0 where
  pub buffer : CircularBuffer

abbrev pub min_buffer_size : ℕ
min_buffer_size = 5

unfoldable pub with_buffer_size : ℕ → Call MqttPacketizer
with_buffer_size n =
    if leb min_buffer_size n
    then elim (Ring.new n) [ returns r ↦ returns (record { buffer = r }) | panics ↦ panics ]
    else panics

unfoldable pub append_bytes : MqttPacketizer → List ℕ → IoResult ℕ × MqttPacketizer
append_bytes p bytes =
    let write_size = min (available_space p.buffer) (length bytes) in
    let (res, r) = append_all_bytes p.buffer (take write_size bytes) in
    elim res [
      | ok _ ↦ (ok write_size, record { buffer = r })
      | err e ↦ (err e, record { buffer = r })
    ]

module _ {P : Type 0} (mqtt : Decoder P) where
  abbrev pub Polled : Type 0
  Polled = Call (IoResult (Option P) × MqttPacketizer)

  -- `VariablePacket::decode` on the packet's own bytes
  unfoldable pub finish_packet : PacketResult P → IoResult (Option P)
  finish_packet (packet p) = ok (some p)
  finish_packet (io_error e) = err e
  finish_packet malformed = err invalid_data

  unfoldable pub take_packet : MqttPacketizer → ℕ → Polled
  take_packet p packet_length = elim (Ring.read_bytes p.buffer packet_length) [
    | panics ↦ panics
    | returns (slice, r) ↦
        returns (finish_packet (mqtt.decode_packet (bytes_of slice)), record { buffer = r })
  ]

  unfoldable pub with_header : MqttPacketizer → HeaderResult → Polled
  with_header p (header h) =
      let packet_length = (h.encoded_length + h.remaining_length) % 2 ^ 32 in
      if ltb (valid_length p.buffer) packet_length
      then if ltb (size p.buffer) packet_length
        then returns (err invalid_data, p)
        else returns (ok none, p)
      else take_packet p packet_length
  with_header p (io_error unexpected_eof) = returns (ok none, p)
  with_header p _ = returns (err invalid_data, p)

  unfoldable pub get_next_packet : MqttPacketizer → Polled
  unfolding with_header take_packet finish_packet
  get_next_packet p =
      if leb (valid_length p.buffer) 1
      then returns (ok none, p)
      else elim (Ring.peek p.buffer (min (valid_length p.buffer) 5)) [
        | panics ↦ panics
        | returns slice ↦ with_header p (mqtt.decode_header (bytes_of slice))
      ]
