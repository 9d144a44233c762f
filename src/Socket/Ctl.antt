-- ===== src/Socket/Ctl.antt =====
-- raiot-client/src/iot_socket.rs: `IotSocketCtl`, the thread of a socket, with the sending end.
pub mod Acks
pub mod Runs
pub mod Order
pub mod Waking
pub mod Asleep
pub mod Sleeping
pub mod Receiving
pub mod Shared
pub mod Loop
use raiot_rs.Base.{
  ℕ, zero, suc, ◌+◌, ◌^◌, ◌%◌, ◌==◌, Bool, true, false, List, [], ◌∷◌, ◌++◌, Option, none, some,
  take, if◌then◌else◌, Result, ok, err, IoResult, would_block, interrupted, Call, returns, panics,
  Reader,
}
use raiot_rs.Ring.{append_from_reader}
use raiot_rs.Packets.{Encoder, Decoder, MqttPacketizer, get_next_packet}
use raiot_rs.Protocol.Types.{PacketId}
use raiot_rs.Protocol.Messages.{
  SubRes, MsgToHub, MsgFromHub, packet_id, subscription_response_message, publication_succeeded,
}
use raiot_rs.Protocol.Mqtt.{VariablePacket, Crates}
use raiot_rs.Protocol.Errors.{Coded, done, fails, panicked}
use raiot_rs.Protocol.Encode.Buffer.{encode}
use raiot_rs.Protocol.Decode.{decode_packet}
use raiot_rs.Socket.{
  MsgStatus, pending, sent, send_failed, acknowledged, status_of, MessageState, Heap, update, store,
  MessageFuture, Channel, put, Received, got, empty, disconnected, try_recv, MessageInFlight,
  is_some,
}

-- What the socket asks of the client's stream (`NonblockingSocket` and `Read` of raiot-streams).
pub record NonblockingSocket (S : Type 0) : Type 0 where
  pub reader : Reader S
  pub try_send : List ℕ → S → IoResult (Unit {0}) × S

-- `HashMap<PacketId, Arc<…>>`, from identifiers to addresses.
abbrev pub Acks : Type 0
Acks = List (ℕ × ℕ)

abbrev pub find : ℕ → Acks → Option ℕ
find id [] = none
find id ((k, p) ∷ acks) = if k == id then some p else find id acks

abbrev pub remove : ℕ → Acks → Acks
remove id [] = []
remove id ((k, p) ∷ acks) = let rest = remove id acks in if k == id then rest else (k, p) ∷ rest

-- The entry that `send_next` makes for a message with a packet identifier, if the identifier has none.
unfoldable pub register : Option PacketId → ℕ → Acks → Acks
register none p acks = acks
register (some id) p acks = elim (find id.value acks) [
  | none ↦ (id.value, p) ∷ acks
  | some _ ↦ acks
]

-- `settings` and `write_buffer` are never read and left out; `heap` are the shared states.
pub record IotSocketCtl (J M S : Type 0) : Type 0 where
  pub heap : Heap
  pub outgoing_queue : Channel (MessageInFlight J M)
  pub incoming_queue : Channel (MsgFromHub J M)
  pub stream : S
  pub awaiting_acks : Acks
  pub total_bytes_read : ℕ
  pub total_bytes_written : ℕ
  pub packetizer : MqttPacketizer
  pub encoding_buf : List ℕ
  pub tx_buf : Option (MessageInFlight J M)

abbrev add_u64 : ℕ → ℕ → ℕ
add_u64 a b = (a + b) % 2 ^ 64

module _ {J M S : Type 0} where
  -- `IotSocketTx::send`
  unfoldable pub tx_send :
      IotSocketCtl J M S → MsgToHub J M → Call (MessageFuture × IotSocketCtl J M S)
  tx_send c msg =
      let p = c.heap.next in
      let heap = record (store c.heap p (record { status = pending; waker = none })) {
        next = suc p;
      } in
      elim (put c.outgoing_queue (record { msg = msg; state = p })) [
        | none ↦ panics
        | some q ↦ returns (
          record { state = p; ack_required = is_some (packet_id msg) },
          record c { heap = heap; outgoing_queue = q },
        )
      ]

  unfoldable pub take_next_outgoing_msg :
      IotSocketCtl J M S → Call (Option (MessageInFlight J M) × IotSocketCtl J M S)
  take_next_outgoing_msg c = elim c.tx_buf [
    | some m ↦ returns (some m, record c { tx_buf = none })
    | none ↦ elim (try_recv c.outgoing_queue) [
      | got m q ↦ returns (some m, record c { outgoing_queue = q; tx_buf = none })
      | empty ↦ returns (none, c)
      | disconnected ↦ panics
    ]
  ]

  abbrev set_status : IotSocketCtl J M S → ℕ → MsgStatus → IotSocketCtl J M S
  set_status c p status = record c {
    heap = store c.heap p (record (c.heap.cell p) { status = status });
  }

  -- What `send_next` does with the result of `try_send`.
  unfoldable pub after_send :
      IoResult (Unit {0}) → MessageInFlight J M → ℕ → IotSocketCtl J M S → Bool × IotSocketCtl J M S
  after_send (ok _) m len c = (
    true,
    record (set_status c m.state sent) { total_bytes_written = add_u64 c.total_bytes_written len },
  )
  after_send (err would_block) m len c = (false, record c { tx_buf = some m })
  after_send (err interrupted) m len c = (true, record c { tx_buf = some m })
  after_send (err e) m len c = (true, set_status c m.state send_failed)

  unfoldable pub handle_ack : IotSocketCtl J M S → PacketId → MsgStatus → IotSocketCtl J M S
  handle_ack c id status = elim (find id.value c.awaiting_acks) [
    | none ↦ c
    | some p ↦
        let heap = store c.heap p (record { status = status; waker = none }) in
        record c {
          awaiting_acks = remove id.value c.awaiting_acks;
          heap = elim (c.heap.cell p).waker [
            | none ↦ heap
            | some w ↦ record heap { woken = w ∷ c.heap.woken }
          ];
        }
  ]

  unfoldable pub handle_incoming_msg :
      IotSocketCtl J M S → MsgFromHub J M → Call (IotSocketCtl J M S)
  unfolding handle_ack status_of
  handle_incoming_msg c (subscription_response_message res) =
      returns (handle_ack c res.packet_id (status_of res))
  handle_incoming_msg c (publication_succeeded id) = returns (handle_ack c id acknowledged)
  handle_incoming_msg c other = elim (put c.incoming_queue other) [
    | none ↦ panics
    | some q ↦ returns (record c { incoming_queue = q })
  ]

module _ {J M S : Type 0} (crates : Crates J M) (mqtt : Encoder VariablePacket)
    (io : NonblockingSocket S) where
  -- What `send_next` does with a message, once it is encoded.
  unfoldable pub send_encoded :
      IotSocketCtl J M S
      → MessageInFlight J M
      → Coded (ℕ × List ℕ)
      → Call (Bool × IotSocketCtl J M S)
  unfolding register after_send
  send_encoded c m (fails e) = panics
  send_encoded c m panicked = panics
  send_encoded c m (done (len, buf)) =
      let acks = register (packet_id m.msg) m.state c.awaiting_acks in
      let (res, s) = io.try_send (take len buf) c.stream in
      returns
        (after_send res m len (record c { encoding_buf = buf; awaiting_acks = acks; stream = s }))

  -- What it does with what `take_next_outgoing_msg` returns.
  unfoldable pub send_taken :
      Call (Option (MessageInFlight J M) × IotSocketCtl J M S) → Call (Bool × IotSocketCtl J M S)
  unfolding send_encoded
  send_taken panics = panics
  send_taken (returns (none, c)) = returns (false, c)
  send_taken (returns (some m, c)) = send_encoded c m (encode crates mqtt m.msg c.encoding_buf)

  unfoldable pub send_next : IotSocketCtl J M S → Call (Bool × IotSocketCtl J M S)
  unfolding take_next_outgoing_msg send_taken
  send_next c = send_taken (take_next_outgoing_msg c)

module _ {J M S : Type 0} (crates : Crates J M) (mqtt : Decoder VariablePacket)
    (io : NonblockingSocket S) where
  abbrev pub Reception : Type 0
  Reception = Option (Call (Bool × IotSocketCtl J M S))

  -- What `recv_next` does with a decoded message.
  pub receive_msg : Coded (MsgFromHub J M) → IotSocketCtl J M S → Call (Bool × IotSocketCtl J M S)
  unfolding handle_incoming_msg
  receive_msg (fails e) c = panics
  receive_msg panicked c = panics
  receive_msg (done msg) c = elim (handle_incoming_msg c msg) [
    | panics ↦ panics
    | returns c' ↦ returns (true, c')
  ]

  -- What it does with the result of `append_from_reader`; `again` is the next round of its loop.
  pub after_append : IoResult ℕ → IotSocketCtl J M S → (IotSocketCtl J M S → Reception) → Reception
  after_append (ok zero) c again = some (returns (false, c))
  after_append (ok (suc n)) c again =
      again (record c { total_bytes_read = add_u64 c.total_bytes_read (suc n) })
  after_append (err would_block) c again = some (returns (false, c))
  after_append (err interrupted) c again = some (returns (true, c))
  after_append (err e) c again = some panics

  -- Reading from the stream, when no packet is complete.
  unfoldable pub read_on : IotSocketCtl J M S → (IotSocketCtl J M S → Reception) → Reception
  unfolding after_append
  read_on c again = elim (append_from_reader io.reader c.packetizer.buffer c.stream) [
    | none ↦ none
    | some (res, r, s) ↦
        after_append res (record c { packetizer = record { buffer = r }; stream = s }) again
  ]

  -- What it does with the result of `get_next_packet`.
  pub recv_round :
      Call (IoResult (Option VariablePacket) × MqttPacketizer)
      → IotSocketCtl J M S
      → (IotSocketCtl J M S → Reception)
      → Reception
  unfolding receive_msg read_on
  recv_round panics c again = some panics
  recv_round (returns (err e, p)) c again = some panics
  recv_round (returns (ok (some x), p)) c again =
      some (receive_msg (decode_packet crates x) (record c { packetizer = p }))
  recv_round (returns (ok none, p)) c again = read_on (record c { packetizer = p }) again

  -- The loop of `recv_next` on fuel; `none` means that the fuel ran out.
  unfoldable pub recv_next : ℕ → IotSocketCtl J M S → Reception
  unfolding recv_round
  recv_next zero c = none
  recv_next (suc fuel) c =
      recv_round (get_next_packet mqtt c.packetizer) c (λ c'. recv_next fuel c')
