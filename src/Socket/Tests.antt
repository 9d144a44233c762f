-- ===== src/Socket/Tests.antt =====
-- raiot-client/src/iot_socket.rs: the theorems at concrete inputs.
use raiot_rs.Base.{
  ℕ, inr, ◌≡◌, ◌≢◌, refl, true, false, List, [], ◌∷◌, ◌++◌, none, some, ok, returns, arith,
}
use raiot_rs.Packets.{PacketResult, packet, malformed}
use raiot_rs.Connection.Small.{silent}
use raiot_rs.Packets.Small.{decoder_of, small_reads}
use raiot_rs.Protocol.Text.{Text}
use raiot_rs.Protocol.Mqtt.{VariablePacket, connack_packet, connection_accepted}
use raiot_rs.Protocol.Plain.{plain_crates, tiny_encoder}
use raiot_rs.Protocol.Messages.{acknowledge, read_twin, packet_id, publication_succeeded}
use raiot_rs.Protocol.Encode.{encode_message, encode_read_twin}
use raiot_rs.Protocol.Encode.Buffer.{encode, fill}
use raiot_rs.Socket.{acknowledged, sent, pending, MessageFuture, poll, ready, update}
use raiot_rs.Socket.Ctl.{
  NonblockingSocket, IotSocketCtl, take_next_outgoing_msg, send_next, send_taken, send_encoded,
  after_send, register, handle_incoming_msg, handle_ack, find, recv_next,
}
use raiot_rs.Socket.Ctl.Runs.{second, sends, polls, arrives, act, run}
use raiot_rs.Socket.Ctl.Sleeping.{sleeps}
use raiot_rs.Socket.Ctl.Asleep.{Asleep, NotIn}
use raiot_rs.Socket.Ctl.Waking.{acknowledged_wakes}
use raiot_rs.Socket.Ctl.Loop.{send_all}
use raiot_rs.Socket.Ctl.Loop.Draining.{Drained, send_all-Drained}
use raiot_rs.Socket.Ctl.Shared.{one_acknowledged}
use raiot_rs.Socket.Ctl.Receiving.{Receives, recv_next-Receives}
use raiot_rs.Ring.{valid_length}
use raiot_rs.Ring.Valid.{IsValid}
use raiot_rs.Ring.Contents.{contents}

abbrev line : NonblockingSocket (List ℕ)
line = record { reader = silent; try_send = λ bytes s. (ok tt, s ++ bytes) }

-- The message of the state 0 was sent with the identifier 5; that of the state 1 is at hand.
abbrev busy : IotSocketCtl Text Text (List ℕ)
busy = record {
  heap = record { cell = λ p. record { status = sent; waker = none }; next = 2; woken = [] };
  outgoing_queue = record { waiting = []; connected = true };
  incoming_queue = record { waiting = []; connected = true };
  stream = [];
  awaiting_acks = (5, 0) ∷ [];
  total_bytes_read = 0;
  total_bytes_written = 0;
  packetizer = record { buffer = record { buffer = 0 ∷ []; read = 0; write = 0; full = false } };
  encoding_buf = 0 ∷ 0 ∷ [];
  tx_buf =
      some (record { msg = acknowledge (record { packet_id = record { value = 7 } }); state = 1 });
}

abbrev sent_busy : IotSocketCtl Text Text (List ℕ)
sent_busy = record busy {
  heap = record busy.heap {
    cell = update busy.heap.cell 1 (record { status = sent; waker = none });
  };
  stream = 1 ∷ [];
  awaiting_acks = (7, 1) ∷ (5, 0) ∷ [];
  total_bytes_written = 1;
  encoding_buf = 1 ∷ 0 ∷ [];
  tx_buf = none;
}

abbrev future : MessageFuture
future = record { state = 0; ack_required = true }

-- A task polls, and an acknowledgement comes that nobody waits for.
abbrev polled : IotSocketCtl Text Text (List ℕ)
unfolding poll
polled = record busy { heap = (poll busy.heap future 9).1 }

run-polled :
    run plain_crates tiny_encoder line busy
      (polls future 9 ∷ arrives (publication_succeeded (record { value = 6 })) ∷ [])
    ≡ returns polled
unfolding run act poll handle_incoming_msg polled
run-polled = refl

acknowledged_wakes_example :
    (c2 : IotSocketCtl Text Text (List ℕ)) × (handle_incoming_msg polled
        (publication_succeeded (record { value = 5 }))
      ≡ returns c2)
    × ((poll c2.heap future 3).0 ≡ ready (ok tt))
    × (c2.heap.woken ≡ 9 ∷ [])
unfolding poll polled
acknowledged_wakes_example =
    acknowledged_wakes plain_crates tiny_encoder line 5 0 busy polled
      (polls future 9 ∷ arrives (publication_succeeded (record { value = 6 })) ∷ []) future 3 refl
      refl (tt, (omega arith, tt)) run-polled

-- A message without identifier is at hand, and the task 9 has polled its future.
abbrev asleep : IotSocketCtl Text Text (List ℕ)
asleep = record busy {
  heap = record busy.heap {
    cell = update busy.heap.cell 1 (record { status = pending; waker = some 9 });
  };
  tx_buf =
      some (record { msg = read_twin (record { request_id = []; packet_id = none }); state = 1 });
}

-- It is sent, and the other message is acknowledged; the task 9 still waits.
abbrev sent_asleep : IotSocketCtl Text Text (List ℕ)
sent_asleep = record asleep {
  heap = record asleep.heap {
    cell =
        update (update asleep.heap.cell 1 (record { status = sent; waker = some 9 })) 0
          (record { status = acknowledged; waker = none });
  };
  stream = 1 ∷ [];
  awaiting_acks = [];
  total_bytes_written = 1;
  encoding_buf = 1 ∷ 0 ∷ [];
  tx_buf = none;
}

run-asleep :
    run plain_crates tiny_encoder line asleep
      (sends ∷ arrives (publication_succeeded (record { value = 5 })) ∷ [])
    ≡ returns sent_asleep
unfolding run act second handle_incoming_msg handle_ack send_next take_next_outgoing_msg send_taken
    send_encoded after_send register encode fill encode_message packet_id encode_read_twin
run-asleep = refl

asleep-Asleep : Asleep 1 9 asleep
unfolding packet_id
asleep-Asleep = record {
  known = omega arith;
  unawaited = (omega arith, tt);
  unnumbered = (inr refl, tt);
  waits = refl;
  alone = λ q ne. ground arith;
  unwoken = tt;
}

sleeps_example : ((sent_asleep.heap.cell 1).waker ≡ some 9) × NotIn 9 sent_asleep.heap.woken
sleeps_example =
    sleeps plain_crates tiny_encoder line 1 9 asleep sent_asleep
      (sends ∷ arrives (publication_succeeded (record { value = 5 })) ∷ []) asleep-Asleep
      (tt, (tt, tt)) run-asleep

-- A packet of four bytes is a CONNACK that accepts.
abbrev connack_of : List ℕ → PacketResult VariablePacket
connack_of (a ∷ b ∷ c ∷ d ∷ []) = packet (connack_packet connection_accepted)
connack_of bytes = malformed

-- While the state 0 waits with the identifier 5, a message with the same identifier is sent.
abbrev again : IotSocketCtl Text Text (List ℕ)
again = record busy {
  tx_buf =
      some (record { msg = acknowledge (record { packet_id = record { value = 5 } }); state = 1 });
}

abbrev both_sent : IotSocketCtl Text Text (List ℕ)
both_sent = record again {
  heap = record busy.heap {
    cell = update busy.heap.cell 1 (record { status = sent; waker = none });
  };
  stream = 1 ∷ [];
  total_bytes_written = 1;
  encoding_buf = 1 ∷ 0 ∷ [];
  tx_buf = none;
}

run-again : run plain_crates tiny_encoder line again (sends ∷ []) ≡ returns both_sent
unfolding run act second send_next take_next_outgoing_msg send_taken send_encoded after_send
    register encode fill encode_message packet_id
run-again = refl

one_acknowledged_example :
    (c2 : IotSocketCtl Text Text (List ℕ)) × (handle_incoming_msg both_sent
        (publication_succeeded (record { value = 5 }))
      ≡ returns c2)
    × (c2.heap.cell 0 ≡ record { status = acknowledged; waker = none })
    × ((p : ℕ) → p ≢ 0 → c2.heap.cell p ≡ both_sent.heap.cell p)
    × (find 5 c2.awaiting_acks ≡ none)
one_acknowledged_example =
    one_acknowledged plain_crates tiny_encoder line 5 0 again both_sent (sends ∷ []) refl (tt, tt)
      run-again

-- Two packets of four bytes have come.
abbrev two_packets : IotSocketCtl Text Text (List ℕ)
two_packets = record busy {
  packetizer = record {
    buffer = record {
      buffer = 32 ∷ 2 ∷ 0 ∷ 0 ∷ 32 ∷ 2 ∷ 0 ∷ 0 ∷ 0 ∷ [];
      read = 0;
      write = 8;
      full = false;
    };
  };
}

two_packets-IsValid : IsValid two_packets.packetizer.buffer
two_packets-IsValid = record {
  positive = omega arith;
  small = omega arith;
  read_in = omega arith;
  write_in = omega arith;
  full_at = λ h. cc;
}

recv_next-Receives_example :
    Receives
      (decoder_of connack_of)
      line
      two_packets
      (recv_next plain_crates (decoder_of connack_of) line 2 two_packets)
unfolding contents valid_length
recv_next-Receives_example =
    recv_next-Receives plain_crates (decoder_of connack_of) line (small_reads connack_of) 2
      two_packets two_packets-IsValid (omega arith)

-- A second message waits behind that at hand.
abbrev two_messages : IotSocketCtl Text Text (List ℕ)
two_messages = record busy {
  outgoing_queue = record busy.outgoing_queue {
    waiting =
        record { msg = acknowledge (record { packet_id = record { value = 8 } }); state = 2 } ∷ [];
  };
}

send_all-Drained_example :
    Drained line two_messages (send_all plain_crates line tiny_encoder 3 two_messages)
send_all-Drained_example =
    send_all-Drained plain_crates tiny_encoder line 3 two_messages (λ bytes s e. cc) (omega arith)
