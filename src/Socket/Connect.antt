-- ===== src/Socket/Connect.antt =====
-- raiot-client/src/iot_socket.rs: `connect`, which waits for the first bytes of the hub and reads the
-- answer from them.
use raiot_rs.Base.{
  ℕ, zero, suc, ◌*◌, ◌≡◌, List, take, leb, if◌then◌else◌, Option, none, some, IoResult, would_block,
  interrupted, Result, ok, err, Call, returns, panics, replicate, Writer, Reader,
}
use raiot_rs.Ring.{append_all_bytes}
use raiot_rs.Packets.{
  Encoder, Decoder, MqttPacketizer, packet, io_error, malformed, with_buffer_size, get_next_packet,
}
use raiot_rs.Packets.Framing.{Verdict, frame}
use raiot_rs.Protocol.Messages.{
  connect, ConnectMsg, MsgFromHub, connect_response_message, ConnectRes, accepted, timeout,
  protocol_violation,
}
use raiot_rs.Protocol.Mqtt.{VariablePacket, Crates}
use raiot_rs.Protocol.Errors.{Coded, done, fails, panicked}
use raiot_rs.Protocol.Decode.{decode_packet}
use raiot_rs.Protocol.Text.{Text}
use raiot_rs.Protocol.Auth.{
  TokenCrates, ConnectionSettings, DeviceCertificate, client_certificate, connect_msg,
}
use raiot_rs.Protocol.Encode.Buffer.{encode}
use raiot_rs.Streams
use raiot_rs.Streams.{Reads, try_read}

-- `MqttPacketizer::DEFAULT_BUFFER_SIZE`
abbrev pub default_buffer_size : ℕ
default_buffer_size = 1024 * 1024

-- `ConnectionResults`
abbrev pub ConnectionResults : Type 0 → Type 0
ConnectionResults S = Result ConnectRes S

abbrev pub Connection : Type 0 → Type 0
Connection S = Option (Call (ConnectionResults S))

module _ {J M S : Type 0} where
  -- What `decode_connect_response` does with a message.
  pub answer : Coded (MsgFromHub J M) → S → Call (ConnectionResults S)
  answer (done (connect_response_message accepted)) s = returns (ok s)
  answer (done (connect_response_message error)) s = returns (err error)
  answer (done _) s = returns (err protocol_violation)
  answer (fails e) s = returns (err protocol_violation)
  answer panicked s = panics

module _ {J M S : Type 0} (crates : Crates J M) (mqtt : Decoder VariablePacket) where
  -- What it does with the result of `get_next_packet`: both `unwrap`s.
  pub unwrapped :
      Call (IoResult (Option VariablePacket) × MqttPacketizer) → S → Call (ConnectionResults S)
  unfolding answer
  unwrapped panics s = panics
  unwrapped (returns (err e, p)) s = panics
  unwrapped (returns (ok none, p)) s = panics
  unwrapped (returns (ok (some x), p)) s = answer (decode_packet crates x) s

  -- What it does with the result of `append_all_bytes`.
  pub filled_with : IoResult (Unit {0}) → MqttPacketizer → S → Call (ConnectionResults S)
  unfolding unwrapped
  filled_with (err e) p s = panics
  filled_with (ok _) p s = unwrapped (get_next_packet mqtt p) s

  -- What it does with the new packetizer.
  pub read_into : Call MqttPacketizer → List ℕ → S → Call (ConnectionResults S)
  unfolding filled_with
  read_into panics bytes s = panics
  read_into (returns p) bytes s =
      let (res, r) = append_all_bytes p.buffer bytes in filled_with res (record { buffer = r }) s

  unfoldable pub decode_connect_response : List ℕ → S → Call (ConnectionResults S)
  unfolding read_into
  decode_connect_response bytes s = read_into (with_buffer_size default_buffer_size) bytes s

  module _ (io : Reader S) (clock : ℕ → ℕ) (limit : ℕ) where
    -- What a round of the loop of `connect` does with the result of `try_read`; `again` is the next.
    pub response_round : Reads S (Option (List ℕ)) → (S → Connection S) → Connection S
    unfolding decode_connect_response
    response_round none again = none
    response_round (some (ok (some bytes), s)) again = some (decode_connect_response bytes s)
    response_round (some (ok none, s)) again = again s
    response_round (some (err would_block, s)) again = again s
    response_round (some (err interrupted, s)) again = again s
    response_round (some (err e, s)) again = some (returns (err (ConnectRes.io_error e)))

    -- The loop of `connect`, from the `k`-th look at the clock on; `reads` is the fuel of a `try_read`.
    unfoldable pub await_response : ℕ → ℕ → ℕ → S → Connection S
    unfolding response_round try_read
    await_response zero reads k s = none
    await_response (suc fuel) reads k s =
        let rest =
          response_round (try_read io reads s) (λ s'. await_response fuel reads (suc k) s') in
        if leb limit (clock k) then some (returns (err timeout)) else rest

module _ {J M S : Type 0} (crates : Crates J M) (tokens : TokenCrates)
    (out : Encoder VariablePacket) (mqtt : Decoder VariablePacket) (writer : Writer S)
    (reader : Reader S) (clock : ℕ → ℕ) (fuel : ℕ) where
  -- What `connect` does with the result of sending CONNECT.
  pub await_after : ConnectionSettings → Option (IoResult (Unit {0}) × S) → Connection S
  unfolding await_response
  await_after settings none = none
  await_after settings (some (err e, s)) = some panics
  await_after settings (some (ok _, s)) =
      await_response crates mqtt reader clock settings.timeout fuel fuel 0 s

  -- With the message encoded.
  pub send_connect : ConnectionSettings → S → Coded (ℕ × List ℕ) → Connection S
  unfolding await_after Streams.send
  send_connect settings s (fails e) = some panics
  send_connect settings s panicked = some panics
  send_connect settings s (done (len, buf)) =
      await_after settings (Streams.send writer fuel fuel (take len buf) s)

  -- With the message of the settings.
  pub connect_with : ConnectionSettings → S → Call ConnectMsg → Connection S
  unfolding send_connect
  connect_with settings s panics = some panics
  connect_with settings s (returns msg) =
      send_connect settings s (encode crates out (connect msg) (replicate default_buffer_size 0))

  -- With the stream that was opened.
  pub connect_over_stream : ConnectionSettings → Call (IoResult S) → Connection S
  unfolding connect_with
  connect_over_stream settings panics = some panics
  connect_over_stream settings (returns (err e)) = some panics
  connect_over_stream settings (returns (ok s)) =
      connect_with settings s (connect_msg tokens settings)

  -- `connect`; `open_stream` is `open_nonblocking_stream`, and `fuel` is for each of the loops.
  unfoldable pub connect_socket :
      (Text → ℕ → ℕ → Option DeviceCertificate → Call (IoResult S))
      → ConnectionSettings
      → Connection S
  unfolding connect_over_stream
  connect_socket open_stream settings = connect_over_stream settings (
      open_stream settings.hostname settings.port settings.timeout
        (client_certificate settings.credentials))

module _ {J M S : Type 0} (crates : Crates J M) (mqtt : Decoder VariablePacket) where
  -- What is read from the first bytes of the hub: with the first packet not complete there is a panic,
  -- as there is where they are no packet.
  abbrev pub Answers : List ℕ → S → Verdict → Call (ConnectionResults S) → Type 0
  Answers bytes s (frame n) out = out ≡ elim (mqtt.decode_packet (take n bytes)) [
    | packet x ↦ answer (decode_packet crates x) s
    | io_error e ↦ panics
    | malformed ↦ panics
  ]
  Answers bytes s _ out = out ≡ panics
