-- ===== src/Connection.antt =====
-- raiot-mqtt/src/connection.rs: an established connection, with its two buffers and its stream, and
-- what a client calls to put a packet in, to take one out, and to send what waits.
pub mod Small
pub mod Clock
pub mod Sending
pub mod Handshake
pub mod Receiving
mod Tests
use raiot_rs.Base.{
  ℕ, zero, suc, Option, none, some, IoResult, ErrorKind, would_block, interrupted, ok, err, Call,
  returns, panics, Writer, Reader, ◌*◌, leb, if◌then◌else◌,
}
use raiot_rs.Ring
use raiot_rs.Ring.{write_into, append_from_reader}
use raiot_rs.Packets.{
  Encoder, Decoder, MqttStreamer, MqttPacketizer, is_empty, data_size, with_buffer_size,
  write_packet, get_next_packet,
}

pub record MqttConnection (S : Type 0) : Type 0 where
  pub packetizer : MqttPacketizer
  pub streamer : MqttStreamer
  pub stream : S

module _ {P S : Type 0} where
  -- `MqttConnection::write`
  unfoldable pub write_connection :
      Encoder P → MqttConnection S → P → IoResult (Unit {0}) × MqttConnection S
  write_connection mqtt c p =
      let (res, s) = write_packet mqtt c.streamer p in (res, record c { streamer = s })

  -- `MqttConnection::read`
  unfoldable pub read_connection :
      Decoder P → MqttConnection S → Call (IoResult (Option P) × MqttConnection S)
  read_connection mqtt c = elim (get_next_packet mqtt c.packetizer) [
    | panics ↦ panics
    | returns (res, p) ↦ returns (res, record c { packetizer = p })
  ]

module _ {S : Type 0} (io : Writer S) (clock : ℕ → ℕ) (timeout : ℕ) where
  abbrev pub Sent : Type 0
  Sent = Option (IoResult ℕ × MqttConnection S)

  -- What a round does with the result of its write; `rest` are the rounds that follow.
  pub after_write : IoResult ℕ → MqttConnection S → Sent → Sent
  after_write (ok n) c rest = rest
  after_write (err interrupted) c rest = rest
  after_write (err would_block) c rest = some (ok (data_size c.streamer), c)
  after_write (err e) c rest = some (err e, c)

  -- The loop of `send_task` on fuel, where `clock k` is the time that has passed at the k-th look at
  -- the clock; `none` means that the fuel ran out.
  unfoldable pub send_loop : ℕ → ℕ → MqttConnection S → Sent
  send_loop zero k c = none
  send_loop (suc fuel) k c =
      let (res, r, s) = write_into io c.streamer.buffer c.stream in
      let c' = record c { streamer = record { buffer = r }; stream = s } in
      let rest = send_loop fuel (suc k) c' in
      if leb timeout (clock k)
      then some (ok (data_size c.streamer), c)
      else if is_empty c.streamer
      then some (ok 0, c)
      else after_write res c' rest

  -- `MqttConnection::send_task`, with fuel for a number of looks at the clock.
  unfoldable pub send_task : ℕ → MqttConnection S → Sent
  unfolding send_loop after_write
  send_task looks c = send_loop looks 0 c

module _ (P : Type 0) {S : Type 0} (io : Reader S) (clock : ℕ → ℕ) (timeout : ℕ) where
  abbrev pub Received : Type 0
  Received = Option (IoResult (Option P) × MqttConnection S)

  pub after_read : IoResult ℕ → MqttConnection S → Received → Received
  after_read (ok n) c rest = rest
  after_read (err interrupted) c rest = rest
  after_read (err would_block) c rest = some (ok none, c)
  after_read (err e) c rest = some (err e, c)

  -- The loop of `recv_task`, on the same terms as `send_loop`.
  unfoldable pub recv_loop : ℕ → ℕ → MqttConnection S → Received
  recv_loop zero k c = none
  recv_loop (suc fuel) k c = elim (append_from_reader io c.packetizer.buffer c.stream) [
    | none ↦ none
    | some (res, r, s) ↦
        let c' = record c { packetizer = record { buffer = r }; stream = s } in
        let rest = recv_loop fuel (suc k) c' in
        if leb timeout (clock k) then some (ok none, c) else after_read res c' rest
  ]

  -- `MqttConnection::recv_task`
  unfoldable pub recv_task : ℕ → MqttConnection S → Received
  unfolding recv_loop after_read
  recv_task looks c = recv_loop looks 0 c

-- `MqttConnector`; times are milliseconds.
pub record MqttConnector (S : Type 0) : Type 0 where
  pub stream : S
  pub tx_buffer_size : ℕ
  pub rx_buffer_size : ℕ
  pub connect_timeout : ℕ

abbrev pub create : {S : Type 0} → S → MqttConnector S
create stream = record {
  stream = stream;
  tx_buffer_size = 512 * 1024;
  rx_buffer_size = 512 * 1024;
  connect_timeout = 10 * 1000;
}

abbrev pub with_timeout : {S : Type 0} → MqttConnector S → ℕ → MqttConnector S
with_timeout c timeout = record c { connect_timeout = timeout }

abbrev pub with_rx_buffer : {S : Type 0} → MqttConnector S → ℕ → MqttConnector S
with_rx_buffer c size = record c { rx_buffer_size = size }

abbrev pub with_tx_buffer : {S : Type 0} → MqttConnector S → ℕ → MqttConnector S
with_tx_buffer c size = record c { tx_buffer_size = size }

-- `MqttConnectionInProgress`, with the time that its stopwatch started.
pub record MqttConnectionInProgress (S : Type 0) : Type 0 where
  pub packetizer : MqttPacketizer
  pub streamer : MqttStreamer
  pub stream : S
  pub stopwatch : ℕ
  pub connect_timeout : ℕ

-- `MqttConnector::connect` at the time `now`
unfoldable pub connect_over :
    {P S : Type 0}
    → Encoder P
    → MqttConnector S
    → P
    → ℕ
    → Call (IoResult (MqttConnectionInProgress S))
connect_over mqtt c packet now = elim (with_buffer_size c.rx_buffer_size) [
  | panics ↦ panics
  | returns packetizer ↦ elim (Ring.new c.tx_buffer_size) [
    | panics ↦ panics
    | returns tx ↦
        let (res, streamer) = write_packet mqtt (record { buffer = tx }) packet in
        elim res [
          | err e ↦ returns (err e)
          | ok _ ↦ returns (
              ok (record {
                packetizer = packetizer;
                streamer = streamer;
                stream = c.stream;
                stopwatch = now;
                connect_timeout = c.connect_timeout;
              }))
        ]
  ]
]
