-- ===== src/Socket/Ctl/Loop.antt =====
-- raiot-client/src/iot_socket.rs: the start of the thread of a socket, a pass of its loop, and the
-- receiving end of its client.
pub mod Draining
use raiot_rs.Base.{
  ℕ, zero, suc, ◌*◌, Bool, true, false, List, [], Option, none, some, Call, returns, panics,
  replicate, ok, err,
}
use raiot_rs.Packets.{Encoder, Decoder, MqttPacketizer, with_buffer_size}
use raiot_rs.Protocol.Messages.{MsgFromHub}
use raiot_rs.Protocol.Messages.{MsgToHub}
use raiot_rs.Protocol.Convert.{Into}
use raiot_rs.Protocol.Mqtt.{VariablePacket, Crates}
use raiot_rs.Socket.{
  MessageFuture, pending, Channel, Received, got, empty, disconnected, try_recv, MessageInFlight,
}
use raiot_rs.Socket.Connect.{default_buffer_size, ConnectionResults}
use raiot_rs.Socket.Ctl.{NonblockingSocket, IotSocketCtl, tx_send, send_next, Reception, recv_next}

-- `IotSocketRx::try_recv`
pub rx_try_recv : {A : Type 0} → Channel A → Call (Option A × Channel A)
rx_try_recv incoming = elim (try_recv incoming) [
  | got msg ch ↦ returns (some msg, ch)
  | empty ↦ returns (none, incoming)
  | disconnected ↦ panics
]

-- `IotSocketRx::recv`; `none` while it blocks.
pub rx_recv : {A : Type 0} → Channel A → Option (Call (A × Channel A))
rx_recv incoming = elim (try_recv incoming) [
  | got msg ch ↦ some (returns (msg, ch))
  | empty ↦ none
  | disconnected ↦ some panics
]

module _ {J M S : Type 0} where
  -- `send` of `IotSocket`, of any message that is one for the hub
  unfoldable pub socket_send :
      {A : Type 0} ⦃from : Into A (MsgToHub J M)⦄
      → IotSocketCtl J M S
      → A
      → Call (MessageFuture × IotSocketCtl J M S)
  unfolding tx_send
  socket_send ⦃from⦄ c msg = tx_send c (from.into msg)

  -- The state with which `IotSocket::connect` starts the loop, once it has a stream and a packetizer.
  abbrev started : MqttPacketizer → S → IotSocketCtl J M S
  started packetizer stream = record {
    heap = record { cell = λ p. record { status = pending; waker = none }; next = 0; woken = [] };
    outgoing_queue = record { waiting = []; connected = true };
    incoming_queue = record { waiting = []; connected = true };
    stream = stream;
    awaiting_acks = [];
    total_bytes_read = 0;
    total_bytes_written = 0;
    packetizer = packetizer;
    encoding_buf = replicate (256 * 1024) 1;
    tx_buf = none;
  }

  -- What that thread does with the result of `connect`.
  unfoldable pub start : ConnectionResults S → Call (IotSocketCtl J M S)
  start (err e) = panics
  start (ok stream) = elim (with_buffer_size default_buffer_size) [
    | panics ↦ panics
    | returns packetizer ↦ returns (started packetizer stream)
  ]

  -- What `while self.f() {}` does with the result of `f`; `again` is the next round.
  pub while_true :
      Call (Bool × IotSocketCtl J M S)
      → (IotSocketCtl J M S → Option (Call (IotSocketCtl J M S)))
      → Option (Call (IotSocketCtl J M S))
  while_true panics again = some panics
  while_true (returns (true, c)) again = again c
  while_true (returns (false, c)) again = some (returns c)

module _ {J M S : Type 0} (crates : Crates J M) (io : NonblockingSocket S) where
  -- `while self.send_next() {}` on fuel
  unfoldable pub send_all :
      Encoder VariablePacket → ℕ → IotSocketCtl J M S → Option (Call (IotSocketCtl J M S))
  unfolding while_true
  send_all mqtt zero c = none
  send_all mqtt (suc fuel) c = while_true (send_next crates mqtt io c) (λ c'. send_all mqtt fuel c')

  -- `while self.recv_next() {}`, on fuel for its calls and for the rounds of each
  unfoldable pub recv_all :
      Decoder VariablePacket → ℕ → ℕ → IotSocketCtl J M S → Option (Call (IotSocketCtl J M S))
  unfolding while_true
  recv_all mqtt rounds zero c = none
  recv_all mqtt rounds (suc fuel) c = elim (recv_next crates mqtt io rounds c) [
    | none ↦ none
    | some out ↦ while_true out (λ c'. recv_all mqtt rounds fuel c')
  ]

  -- A pass of `socket_loop`, up to the sleep.
  unfoldable pub socket_pass :
      Encoder VariablePacket
      → Decoder VariablePacket
      → ℕ
      → ℕ
      → ℕ
      → IotSocketCtl J M S
      → Option (Call (IotSocketCtl J M S))
  unfolding send_all recv_all
  socket_pass out in_ sends rounds receives c = elim (send_all out sends c) [
    | none ↦ none
    | some panics ↦ some panics
    | some (returns c') ↦ recv_all in_ rounds receives c'
  ]
